-- ===== src/Allocator/Coalesce/Prev.antt =====
-- `coalesce` of C-Allocator/src/balloc.c where the block before `bp` is free.
use foundations_lab.Base.{
  ℕ, ◌+◌, ◌-◌, ◌≤◌, ◌<◌, ◌≡◌, ◌≢◌, ◌⊎◌, inl, inr, true, false, refl, ap, ap₂, sym, arith, ◌∙◌,
  subst,
}
use foundations_lab.Allocator.Words.{add64, add64-exact, pack}
use foundations_lab.Allocator.Memory.{Heap, blk_size, hdrp, ftrp, prev_blkp}
use foundations_lab.Allocator.FreeLists.Filed.{Files}
use foundations_lab.Allocator.Coalesce.{absorb, merge_prev, write}
use foundations_lab.Allocator.Coalesce.Absorb.{Coalesced, absorb-State, around}
use foundations_lab.Allocator.Layout.{Piece, piece, IsBlock, Fits, Pieces, Adjacent, State}
use foundations_lab.Allocator.Layout.Pieces.{free-IsBlock}
use foundations_lab.Allocator.Layout.Recut.{Outside, Inside}
use foundations_lab.Allocator.Layout.Reads.{header_size, prev_blkp-eq, ftrp-eq, pack-tag, head_foot}
use foundations_lab.Allocator.Layout.Cuts.{just, Outside-Apart}
use foundations_lab.Allocator.Layout.Merge.{Outside-join, Off-join, Off-block}
use foundations_lab.Allocator.Coalesce.Finish.{finish-Coalesced}

module _ (h : Heap) {ps : Pieces} {fs : Files} (d q : Piece)
    (s : State h.memory h.g_class ps fs (just d)) (d_is : ps d) (d_free : d.used ≡ false)
    (q_is : ps q) (q_free : q.used ≡ false) (adj : Adjacent q d)
    (lone : (p : Piece) → ps p → Adjacent d p → p.used ≡ true) where
  d_room : IsBlock d
  d_room = free-IsBlock (s.layout.fits d d_is) d_free

  q_room : IsBlock q
  q_room = free-IsBlock (s.layout.fits q q_is) q_free

  abbrev whole : Piece
  whole = piece q.at (d.size + q.size) false

  -- The two lie within the merged block.
  held :
      (p : Piece) → (p ≡ d) ⊎ (p ≡ q) → Inside q.at (q.at + (d.size + q.size)) p × (p.used ≡ false)
  held p (inl e) =
      let d_room = d_room in
      (
        subst (Inside q.at (q.at + (d.size + q.size))) (sym e) (omega arith, omega arith),
        ap (λ (t : Piece). t.used) e ∙ d_free,
      )
  held p (inr e) =
      let q_room = q_room in
      (
        subst (Inside q.at (q.at + (d.size + q.size))) (sym e) (omega arith, omega arith),
        ap (λ (t : Piece). t.used) e ∙ q_free,
      )

  -- Every other piece is beside the two.
  row :
      (p : Piece)
      → ps p
      → Outside q.at (q.at + (d.size + q.size)) p
        ⊎ (Inside q.at (q.at + (d.size + q.size)) p × ((p ≡ d) ⊎ (p ≡ q)))
  row p is =
      let d_room = d_room in
      let q_room = q_room in
      elim (s.layout.separate p d is d_is) [
        | inl e ↦ inr ((held p (inl e)).0, inl e)
        | inr apart ↦ elim (s.layout.separate p q is q_is) [
          | inl e ↦ inr ((held p (inr e)).0, inr e)
          | inr apart' ↦
              let beside = Outside-Apart p d (omega arith) apart in
              let beside' = Outside-Apart p q (omega arith) apart' in
              inl (
                subst (λ (t : ℕ). Outside q.at t p) {x = d.at + d.size} (omega arith)
                  (Outside-join p (omega arith) (omega arith)
                    (subst (λ (t : ℕ). Outside q.at t p) (sym adj.1) beside') beside))
        ]
      ]

  pub merge_prev-Coalesced : let (bp, h') = merge_prev d.at h in Coalesced h ps bp h'
  unfolding merge_prev write
  merge_prev-Coalesced =
      let d_room = d_room in
      let q_room = q_room in
      let low = (s.layout.fits q q_is).low in
      let high = (s.layout.fits d d_is).high in
      let fits : Fits whole = record {
        kind = inr (omega arith, omega arith, omega arith);
        low = low;
        high = omega arith;
      } in
      let at : prev_blkp h.memory d.at ≡ q.at =
        prev_blkp-eq (s.layout.fits q q_is) (s.tags q q_is) d.at (omega arith) (omega arith) in
      let other : q ≢ d = λ e. (let at = ap (λ (t : Piece). t.at) e in omega arith) in
      let (fs', s', keeps, chunks) = absorb-State h s q q_is q_free other in
      let h1 = absorb q.at h in
      let total : add64 (blk_size h.memory (hdrp d.at)) (blk_size h1.memory (hdrp q.at))
          ≡ d.size + q.size =
        ap₂ add64 (header_size (s.layout.fits d d_is) (s.tags d d_is))
          (header_size (s.layout.fits q q_is) (s'.tags q q_is))
        ∙ add64-exact d.size q.size (omega arith) in
      let foot : ftrp h1.memory d.at ≡ d.at + d.size - 16 =
        ftrp-eq (s.layout.fits d d_is) (s'.tags d d_is) in
      let v = pack (d.size + q.size) 0 in
      let (tagged, same) =
        head_foot h1.memory whole v (d.at + d.size - 16) (q.at - 8) fits
          (omega arith, omega arith, omega arith) (pack-tag whole (omega arith))
          (inr (refl, omega arith)) in
      rw (at, total, foot)
        (finish-Coalesced h h1 (write (q.at - 8) v (write (d.at + d.size - 16) v h1)) whole s' keeps
          chunks
          record {
            room = (omega arith, omega arith, omega arith);
            free = refl;
            starts = (q, q_is, q_room, refl);
            ends = (d, d_is, d_room, omega arith);
            parts = row;
            covers = λ x off.
                subst (λ (t : ℕ). (x + 8 < q.at) ⊎ (t ≤ x + 8)) {x = d.at + d.size} (omega arith)
                  (Off-join x (Off-block q x q_is q_room off) (
                    subst (λ (t : ℕ). (x + 8 < t) ⊎ (d.at + d.size ≤ x + 8)) adj.1
                      (Off-block d x d_is d_room off)));
            held = λ p _ o. held p o;
          }
          tagged same refl refl
          (λ p next. λ adjacent. elim adjacent [
            | inl before ↦
                around s q q_is q_free other p next
                  (λ e. let at = ap (λ (t : Piece). t.at) e in omega arith) (inl before)
            | inr after ↦ lone p next (omega arith, omega arith)
          ]))
