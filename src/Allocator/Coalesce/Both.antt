-- ===== src/Allocator/Coalesce/Both.antt =====
-- `coalesce` of C-Allocator/src/balloc.c where the blocks before and after `bp` are free.
use foundations_lab.Base.{
  ℕ, ◌+◌, ◌-◌, ◌≤◌, ◌<◌, ◌≡◌, ◌≢◌, ◌⊎◌, inl, inr, false, refl, ap, ap₂, sym, arith, ◌∙◌, subst,
}
use foundations_lab.Allocator.Words.{add64, add64-exact, pack}
use foundations_lab.Allocator.Memory.{Heap, put_other, blk_size, hdrp, ftrp, next_blkp, prev_blkp}
use foundations_lab.Allocator.FreeLists.Filed.{Files}
use foundations_lab.Allocator.Coalesce.{absorb, merge_both, write}
use foundations_lab.Allocator.Coalesce.Absorb.{Coalesced, absorb-State, around}
use foundations_lab.Allocator.Layout.{Piece, piece, IsBlock, Fits, Pieces, Adjacent, State}
use foundations_lab.Allocator.Layout.Pieces.{free-IsBlock}
use foundations_lab.Allocator.Layout.Recut.{Outside, Inside}
use foundations_lab.Allocator.Layout.Reads.{
  header_size, next_blkp-eq, prev_blkp-eq, ftrp-header, pack-tag, head_foot,
}
use foundations_lab.Allocator.Layout.Keeps.{Keeps-trans}
use foundations_lab.Allocator.Layout.Cuts.{just, Outside-Apart}
use foundations_lab.Allocator.Layout.Merge.{Outside-join, Off-join, Off-block}
use foundations_lab.Allocator.Coalesce.Finish.{finish-Coalesced}

module _ (h : Heap) {ps : Pieces} {fs : Files} (d q r : Piece)
    (s : State h.memory h.g_class ps fs (just d)) (d_is : ps d) (d_free : d.used ≡ false)
    (q_is : ps q) (q_free : q.used ≡ false) (adj : Adjacent q d) (r_is : ps r)
    (r_free : r.used ≡ false) (adj' : Adjacent d r) where
  d_room : IsBlock d
  d_room = free-IsBlock (s.layout.fits d d_is) d_free

  q_room : IsBlock q
  q_room = free-IsBlock (s.layout.fits q q_is) q_free

  r_room : IsBlock r
  r_room = free-IsBlock (s.layout.fits r r_is) r_free

  abbrev whole : Piece
  whole = piece q.at (d.size + (q.size + r.size)) false

  abbrev Held : Pieces
  Held p = ((p ≡ d) ⊎ (p ≡ q)) ⊎ (p ≡ r)

  abbrev Within : Pieces
  Within = Inside q.at (q.at + (d.size + (q.size + r.size)))

  -- The three lie within the merged block.
  held : (p : Piece) → Held p → Within p × (p.used ≡ false)
  held p o =
      let d_room = d_room in
      let q_room = q_room in
      let r_room = r_room in
      elim o [
        | inl (inl e) ↦
            (subst Within (sym e) (omega arith, omega arith), ap (λ (t : Piece). t.used) e ∙ d_free)
        | inl (inr e) ↦
            (subst Within (sym e) (omega arith, omega arith), ap (λ (t : Piece). t.used) e ∙ q_free)
        | inr e ↦
            (subst Within (sym e) (omega arith, omega arith), ap (λ (t : Piece). t.used) e ∙ r_free)
      ]

  -- Every other piece is beside the three.
  row :
      (p : Piece)
      → ps p
      → Outside q.at (q.at + (d.size + (q.size + r.size))) p ⊎ (Within p × Held p)
  row p is =
      let d_room = d_room in
      let q_room = q_room in
      let r_room = r_room in
      elim (s.layout.separate p d is d_is) [
        | inl e ↦ inr ((held p (inl (inl e))).0, inl (inl e))
        | inr apart_d ↦ elim (s.layout.separate p q is q_is) [
          | inl e ↦ inr ((held p (inl (inr e))).0, inl (inr e))
          | inr apart_q ↦ elim (s.layout.separate p r is r_is) [
            | inl e ↦ inr ((held p (inr e)).0, inr e)
            | inr apart_r ↦
                let beside_q =
                  subst (λ (t : ℕ). Outside q.at t p) (sym adj.1)
                    (Outside-Apart p q (omega arith) apart_q) in
                let beside_d =
                  subst (λ (t : ℕ). Outside d.at t p) (sym adj'.1)
                    (Outside-Apart p d (omega arith) apart_d) in
                let beside_r = Outside-Apart p r (omega arith) apart_r in
                inl (
                  subst (λ (t : ℕ). Outside q.at t p) {x = r.at + r.size} (omega arith)
                    (Outside-join p (omega arith) (omega arith)
                      (Outside-join p (omega arith) (omega arith) beside_q beside_d) beside_r))
          ]
        ]
      ]

  pub merge_both-Coalesced : let (bp, h') = merge_both d.at h in Coalesced h ps bp h'
  unfolding merge_both write
  merge_both-Coalesced =
      let d_room = d_room in
      let q_room = q_room in
      let r_room = r_room in
      let low = (s.layout.fits q q_is).low in
      let high = (s.layout.fits r r_is).high in
      let room : IsBlock whole = (omega arith, omega arith, omega arith) in
      let fits : Fits whole = record { kind = inr room; low = low; high = omega arith } in
      let prev : prev_blkp h.memory d.at ≡ q.at =
        prev_blkp-eq (s.layout.fits q q_is) (s.tags q q_is) d.at (omega arith) (omega arith) in
      let next : next_blkp h.memory d.at ≡ r.at =
        next_blkp-eq (s.layout.fits d d_is) (s.tags d d_is) ∙ sym adj'.1 in
      let q_d : q ≢ d = λ e. (let at = ap (λ (t : Piece). t.at) e in omega arith) in
      let r_d : r ≢ d = λ e. (let at = ap (λ (t : Piece). t.at) e in omega arith) in
      let r_q : r ≢ q = λ e. (let at = ap (λ (t : Piece). t.at) e in omega arith) in
      let (fs1, s1, keeps1, chunks1) = absorb-State h s q q_is q_free q_d in
      let h1 = absorb q.at h in
      let (fs2, s2, keeps2, chunks2) =
        absorb-State h1 s1 r r_is r_free (λ o. elim o [ inl e ↦ r_d e | inr e ↦ r_q e ]) in
      let h2 = absorb r.at h1 in
      let inner : add64 (blk_size h2.memory (hdrp q.at)) (blk_size h2.memory (hdrp r.at))
          ≡ q.size + r.size =
        ap₂ add64 (header_size (s.layout.fits q q_is) (s2.tags q q_is))
          (header_size (s.layout.fits r r_is) (s2.tags r r_is))
        ∙ add64-exact q.size r.size (omega arith) in
      let total : add64 (blk_size h.memory (hdrp d.at))
            (add64 (blk_size h2.memory (hdrp q.at)) (blk_size h2.memory (hdrp r.at)))
          ≡ d.size + (q.size + r.size) =
        ap₂ add64 (header_size (s.layout.fits d d_is) (s.tags d d_is)) inner
        ∙ add64-exact d.size (q.size + r.size) (omega arith) in
      let v = pack (d.size + (q.size + r.size)) 0 in
      let headed = write (q.at - 8) v h2 in
      let foot : ftrp headed.memory r.at ≡ r.at + r.size - 16 =
        ftrp-header headed.memory (s.layout.fits r r_is) (
          put_other h2.memory (q.at - 8) v (r.at - 8) (λ e. omega arith)
          ∙ (s2.tags r r_is).header) in
      let (tagged, same) =
        head_foot h2.memory whole v (q.at - 8) (r.at + r.size - 16) fits room
          (pack-tag whole (omega arith)) (inl (refl, omega arith)) in
      rw (prev, next, total, foot)
        (finish-Coalesced h h2 (write (r.at + r.size - 16) v headed) whole s2
          (Keeps-trans keeps1 keeps2) (chunks2 ∙ chunks1)
          record {
            room = room;
            free = refl;
            starts = (q, q_is, q_room, refl);
            ends = (r, r_is, r_room, omega arith);
            parts = row;
            covers = λ x off.
                subst (λ (t : ℕ). (x + 8 < q.at) ⊎ (t ≤ x + 8)) {x = r.at + r.size} (omega arith)
                  (Off-join x
                    (Off-join x (Off-block q x q_is q_room off) (
                      subst (λ (t : ℕ). (x + 8 < t) ⊎ (d.at + d.size ≤ x + 8)) adj.1
                        (Off-block d x d_is d_room off)))
                    (subst (λ (t : ℕ). (x + 8 < t) ⊎ (r.at + r.size ≤ x + 8)) adj'.1
                      (Off-block r x r_is r_room off)));
            held = λ p _ o. held p o;
          }
          tagged same refl refl
          (λ p is adjacent. elim adjacent [
            | inl before ↦
                around s q q_is q_free q_d p is
                  (λ e. let at = ap (λ (t : Piece). t.at) e in omega arith) (inl before)
            | inr after ↦
                around s r r_is r_free r_d p is
                  (λ e. let at = ap (λ (t : Piece). t.at) e in omega arith)
                  (inr (omega arith, omega arith))
          ]))
