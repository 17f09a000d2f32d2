-- ===== src/Allocator/Coalesce/Finish.antt =====
-- The end of the three cases of `coalesce` of C-Allocator/src/balloc.c in which blocks merge: the
-- absorbed blocks are off their lists, and the tags of the merged block are written.
use foundations_lab.Base.{
  ◌+◌, ◌-◌, ◌≤◌, ◌<◌, ◌≡◌, ◌≢◌, ◌⊎◌, inl, inr, true, false, refl, ap, sym, arith, subst, List, ◌∙◌,
}
use foundations_lab.Allocator.Memory.{Ptr, Heap}
use foundations_lab.Allocator.FreeLists.Filed.{Files}
use foundations_lab.Allocator.Coalesce.Absorb.{Coalesced}
use foundations_lab.Allocator.Layout.{Piece, Tagged, IsBlock, Pieces, Adjacent, State}
use foundations_lab.Allocator.Layout.Recut.{Outside, Inside, Recut}
use foundations_lab.Allocator.Layout.Keeps.{Keeps, Off, Keeps-after, no_piece}
use foundations_lab.Allocator.Layout.Cuts.{just}
use foundations_lab.Allocator.Layout.Merge.{State-merge, Keeps-merge}

-- The pieces of a stretch, all free and out, with a block `d` to take their place.
pub record Row (ps out : Pieces) (d : Piece) : Type 0 where
  pub room : IsBlock d
  pub free : d.used ≡ false
  pub starts : (a : Piece) × ps a × IsBlock a × (a.at ≡ d.at)
  pub ends : (z : Piece) × ps z × IsBlock z × (z.at + z.size ≡ d.at + d.size)
  pub parts :
      (p : Piece) → ps p → Outside d.at (d.at + d.size) p ⊎ (Inside d.at (d.at + d.size) p × out p)
  pub covers : (x : Ptr) → Off ps x → (x + 8 < d.at) ⊎ (d.at + d.size ≤ x + 8)
  pub held : (p : Piece) → ps p → out p → Inside d.at (d.at + d.size) p × (p.used ≡ false)

pub finish-Coalesced :
    (h h1 h' : Heap) {ps : Pieces} {fs : Files} {out : Pieces} (d : Piece)
    → State h1.memory h1.g_class ps fs out
    → Keeps h.memory ps h1.memory ps no_piece no_piece
    → (h1.g_chunks ≡ h.g_chunks)
    → Row ps out d
    → Tagged h'.memory d
    → ((x : Ptr) → x ≢ d.at - 8 → x ≢ d.at + d.size - 16 → h'.memory x ≡ h1.memory x)
    → h'.g_class ≡ h1.g_class
    → h'.g_chunks ≡ h1.g_chunks
    → ((p : Piece) → ps p → Adjacent p d ⊎ Adjacent d p → p.used ≡ true)
    → Coalesced h ps d.at h'
finish-Coalesced h h1 h' {ps} {fs} {out} d s keeps chunks r tagged same heads chunks' lone =
    let (a, a_is, a_room, a_at) = r.starts in
    let (z, z_is, z_room, z_end) = r.ends in
    let merged =
      State-merge s d a z r.room r.free a_is a_room a_at z_is z_room z_end r.parts r.held h'.memory
        tagged same in
    let kept =
      Keeps-merge s d a z r.room r.free a_is a_room a_at z_is z_room z_end r.parts r.held h'.memory
        tagged same r.covers in
    record {
      pieces = Recut ps (just d) d.at (d.at + d.size);
      files = fs;
      whole = d;
      state =
          subst
            (λ (t : List Ptr).
              State h'.memory t (Recut ps (just d) d.at (d.at + d.size)) fs (just d))
            (sym heads) merged;
      is = inl refl;
      free = r.free;
      at = refl;
      lone = λ p is adj. elim is [
        | inl e ↦ absurd (self_adjacent d p e r.room adj)
        | inr rest ↦ lone p rest.0 adj
      ];
      keeps = Keeps-after keeps kept;
      chunks = chunks' ∙ chunks;
    }
  where
    self_adjacent : (d p : Piece) → p ≡ d → IsBlock d → Adjacent p d ⊎ Adjacent d p → ⊥
    self_adjacent d p e room adj =
        let at = ap (λ (t : Piece). t.at) e in
        let size = ap (λ (t : Piece). t.size) e in
        elim adj [ inl before ↦ omega arith | inr after ↦ omega arith ]
