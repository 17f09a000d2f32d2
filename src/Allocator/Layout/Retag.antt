-- ===== src/Allocator/Layout/Retag.antt =====
-- A block of C-Allocator/src/balloc.c marked free, or in use, where it stands.
use foundations_lab.Base.{
  ◌+◌, ◌≤◌, ◌<◌, ◌≡◌, ◌≢◌, ◌⊎◌, inl, inr, Bool, true, refl, ap, sym, arith, ◌∙◌, subst, List,
}
use foundations_lab.Allocator.Memory.{Ptr, Heap}
use foundations_lab.Allocator.FreeLists.Filed.{Files}
use foundations_lab.Allocator.Coalesce.{put_tags}
use foundations_lab.Allocator.Layout.{Piece, piece, Tagged, IsBlock, Pieces, State}
use foundations_lab.Allocator.Layout.Recut.{Outside, Recut, State-Recut}
use foundations_lab.Allocator.Layout.Reads.{bit, put_tags-Tagged}
use foundations_lab.Allocator.Layout.Keeps.{Keeps, Keeps-Recut}
use foundations_lab.Allocator.Layout.Cuts.{just, Cut-retag, inside_block}
use foundations_lab.Allocator.Layout.Merge.{Off-block}

abbrev pub retagged : Pieces → Piece → Bool → Pieces
retagged ps b used = Recut ps (just (piece b.at b.size used)) b.at (b.at + b.size)

module _ (h : Heap) {ps : Pieces} {fs : Files} {out : Pieces} (b : Piece)
    (s : State h.memory h.g_class ps fs out) (is : ps b) (room : IsBlock b)
    (ready : out b ⊎ (b.used ≡ true)) (alone : (p : Piece) → out p → p ≡ b) (used : Bool)
    (out' : Pieces) (ready' : out' (piece b.at b.size used) ⊎ (used ≡ true))
    (alone' : (p : Piece) → out' p → p ≡ piece b.at b.size used) where
  -- No piece beside the block is the block.
  beside_other :
      (p d : Piece) → d.at ≡ b.at → d.size ≡ b.size → Outside b.at (b.at + b.size) p → p ≢ d
  beside_other p d at size outside e =
      let p_at = ap (λ (t : Piece). t.at) e in
      let p_size = ap (λ (t : Piece). t.size) e in
      elim outside [ inl before ↦ omega arith | inr after ↦ omega arith ]

  pub put_tags-State :
      let h' = put_tags b.at b.size (bit used) h in
      State h'.memory h'.g_class (retagged ps b used) fs out'
      × (h'.g_chunks ≡ h.g_chunks)
      × (h'.g_stats ≡ h.g_stats)
      × ((but more : Pieces)
          → (b.used ≡ true → but b)
          → (used ≡ true → more (piece b.at b.size used))
          → Keeps h.memory ps h'.memory (retagged ps b used) but more)
  put_tags-State =
      let d = piece b.at b.size used in
      let h' = put_tags b.at b.size (bit used) h in
      let (fits, cut) = Cut-retag b used s.layout is room in
      let (tagged, same, heads, stats, chunks) = put_tags-Tagged h d (bit used) fits room refl in
      let far : (x : Ptr) → (x + 8 < b.at) ⊎ (b.at + b.size ≤ x + 8) → h'.memory x ≡ h.memory x =
        λ x side. elim side [
          | inl low ↦ same x (λ e. omega arith) (λ e. omega arith)
          | inr high ↦ same x (λ e. omega arith) (λ e. omega arith)
        ] in
      let state =
        State-Recut h'.memory out' s cut
          (λ p p_is inside.
            subst (λ (t : Piece). out t ⊎ (t.used ≡ true))
              (sym (inside_block b p s.layout is room p_is inside)) ready)
          (λ p rest o. elim o [
            | inl old ↦ beside_other p b refl refl rest.1 (alone p old)
            | inr new ↦ beside_other p d refl refl rest.1 (alone' p new)
          ])
          (λ p e. subst (λ (t : Piece). out' t ⊎ (t.used ≡ true)) (sym e) ready')
          (λ p e. subst (Tagged h'.memory) (sym e) tagged) far in
      (
        subst (λ (t : List Ptr). State h'.memory t (retagged ps b used) fs out') (sym heads) state,
        chunks,
        stats,
        λ but more lost found.
            Keeps-Recut h.memory h'.memory cut
              (λ p p_is inside p_used.
                let e = inside_block b p s.layout is room p_is inside in
                subst but (sym e) (lost (sym (ap (λ (t : Piece). t.used) e) ∙ p_used)))
              (λ p e p_used.
                subst more (sym e) (found (sym (ap (λ (t : Piece). t.used) e) ∙ p_used)))
              far (λ x off. Off-block b x is room off),
      )
