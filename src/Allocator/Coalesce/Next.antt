-- ===== src/Allocator/Coalesce/Next.antt =====
-- `coalesce` of C-Allocator/src/balloc.c where the block after `bp` is free.
use foundations_lab.Base.{
  ℕ, ◌+◌, ◌≤◌, ◌<◌, ◌≡◌, ◌≢◌, ◌⊎◌, inl, inr, true, false, refl, ap, ap₂, sym, arith, ◌∙◌, subst,
}
use foundations_lab.Allocator.Words.{add64, add64-exact}
use foundations_lab.Allocator.Memory.{Heap, blk_size, hdrp, next_blkp}
use foundations_lab.Allocator.FreeLists.Filed.{Files}
use foundations_lab.Allocator.Coalesce.{absorb, merge_next, put_tags}
use foundations_lab.Allocator.Coalesce.Absorb.{Coalesced, absorb-State, around}
use foundations_lab.Allocator.Layout.{Piece, piece, IsBlock, Fits, Pieces, Adjacent, State}
use foundations_lab.Allocator.Layout.Pieces.{free-IsBlock}
use foundations_lab.Allocator.Layout.Recut.{Outside, Inside}
use foundations_lab.Allocator.Layout.Reads.{header_size, next_blkp-eq, put_tags-Tagged}
use foundations_lab.Allocator.Layout.Cuts.{just, Outside-Apart}
use foundations_lab.Allocator.Layout.Merge.{Outside-join, Off-join, Off-block}
use foundations_lab.Allocator.Coalesce.Finish.{finish-Coalesced}

module _ (h : Heap) {ps : Pieces} {fs : Files} (d q : Piece)
    (s : State h.memory h.g_class ps fs (just d)) (d_is : ps d) (d_free : d.used ≡ false)
    (q_is : ps q) (q_free : q.used ≡ false) (adj : Adjacent d q)
    (lone : (p : Piece) → ps p → Adjacent p d → p.used ≡ true) where
  d_room : IsBlock d
  d_room = free-IsBlock (s.layout.fits d d_is) d_free

  q_room : IsBlock q
  q_room = free-IsBlock (s.layout.fits q q_is) q_free

  abbrev whole : Piece
  whole = piece d.at (d.size + q.size) false

  -- Every other piece is beside the two.
  row :
      (p : Piece)
      → ps p
      → Outside d.at (d.at + (d.size + q.size)) p
        ⊎ (Inside d.at (d.at + (d.size + q.size)) p × ((p ≡ d) ⊎ (p ≡ q)))
  row p is =
      let d_room = d_room in
      let q_room = q_room in
      elim (s.layout.separate p d is d_is) [
        | inl e ↦ inr (
          subst (Inside d.at (d.at + (d.size + q.size))) (sym e) (omega arith, omega arith),
          inl e,
        )
        | inr apart ↦ elim (s.layout.separate p q is q_is) [
          | inl e ↦ inr (
            subst (Inside d.at (d.at + (d.size + q.size))) (sym e) (omega arith, omega arith),
            inr e,
          )
          | inr apart' ↦
              let beside = Outside-Apart p d (omega arith) apart in
              let beside' = Outside-Apart p q (omega arith) apart' in
              inl (
                subst (λ (t : ℕ). Outside d.at t p) {x = q.at + q.size} (omega arith)
                  (Outside-join p (omega arith) (omega arith)
                    (subst (λ (t : ℕ). Outside d.at t p) (sym adj.1) beside) beside'))
        ]
      ]

  pub merge_next-Coalesced : let (bp, h') = merge_next d.at h in Coalesced h ps bp h'
  unfolding merge_next
  merge_next-Coalesced =
      let d_room = d_room in
      let q_room = q_room in
      let low = (s.layout.fits d d_is).low in
      let high = (s.layout.fits q q_is).high in
      let fits : Fits whole = record {
        kind = inr (omega arith, omega arith, omega arith);
        low = low;
        high = omega arith;
      } in
      let at : next_blkp h.memory d.at ≡ q.at =
        next_blkp-eq (s.layout.fits d d_is) (s.tags d d_is) ∙ sym adj.1 in
      let other : q ≢ d = λ e. (let at = ap (λ (t : Piece). t.at) e in omega arith) in
      let (fs', s', keeps, chunks) = absorb-State h s q q_is q_free other in
      let h1 = absorb q.at h in
      let total : add64 (blk_size h.memory (hdrp d.at)) (blk_size h1.memory (hdrp q.at))
          ≡ d.size + q.size =
        ap₂ add64 (header_size (s.layout.fits d d_is) (s.tags d d_is))
          (header_size (s.layout.fits q q_is) (s'.tags q q_is))
        ∙ add64-exact d.size q.size (omega arith) in
      let (tagged, same, heads, _, chunks') =
        put_tags-Tagged h1 whole 0 fits (omega arith, omega arith, omega arith) refl in
      rw (at, total)
        (finish-Coalesced h h1 (put_tags d.at (d.size + q.size) 0 h1) whole s' keeps chunks
          record {
            room = (omega arith, omega arith, omega arith);
            free = refl;
            starts = (d, d_is, d_room, refl);
            ends = (q, q_is, q_room, omega arith);
            parts = row;
            covers = λ x off.
                subst (λ (t : ℕ). (x + 8 < d.at) ⊎ (t ≤ x + 8)) {x = q.at + q.size} (omega arith)
                  (Off-join x (Off-block d x d_is d_room off) (
                    subst (λ (t : ℕ). (x + 8 < t) ⊎ (q.at + q.size ≤ x + 8)) adj.1
                      (Off-block q x q_is q_room off)));
            held = λ p is o. elim o [
              | inl e ↦ (
                subst (Inside d.at (d.at + (d.size + q.size))) (sym e) (omega arith, omega arith),
                ap (λ (t : Piece). t.used) e ∙ d_free,
              )
              | inr e ↦ (
                subst (Inside d.at (d.at + (d.size + q.size))) (sym e) (omega arith, omega arith),
                ap (λ (t : Piece). t.used) e ∙ q_free,
              )
            ];
          }
          tagged same heads chunks'
          (λ p is next. elim next [
            | inl before ↦ lone p is before
            | inr after ↦
                around s q q_is q_free other p is
                  (λ e. let at = ap (λ (t : Piece). t.at) e in omega arith)
                  (inr (omega arith, omega arith))
          ]))
