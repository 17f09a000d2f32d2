-- ===== src/Allocator/Check/Blocks.antt =====
-- The loop of `balloc_check` of C-Allocator/src/balloc.c over the blocks of a chunk.
use foundations_lab.Base.{
  ℕ, zero, suc, ◌+◌, ◌-◌, ◌%◌, ◌≤◌, ◌<◌, ◌≡◌, ◌≢◌, ◌⊎◌, inl, inr, true, false, refl, ap, ap₂, sym,
  arith, ◌∙◌, Option, some, ◌>>=◌, length, get_or, Bool-cases, if◌then◌else◌, ◌==◌, ltb, le→ltb,
  ◌&&◌, eq→==, ne→==, not, false≢true,
}
use foundations_lab.Allocator.Words.{word_end}
use foundations_lab.Allocator.Memory.{Ptr, Heap, blk_size, blk_alloc, hdrp, ftrp, next_blkp}
use foundations_lab.Allocator.FreeLists.{size_class}
use foundations_lab.Allocator.FreeLists.Classes.{size_class_lt}
use foundations_lab.Allocator.FreeLists.Filed.{Files}
use foundations_lab.Allocator.Check.{check_block, check_blocks, Verdict, sound, fails}
use foundations_lab.Allocator.Check.Listed.{on_free_list-Filed}
use foundations_lab.Allocator.Layout.{Piece, IsBlock, Pieces, State, Adjacent, none_out}
use foundations_lab.Allocator.Layout.Reads.{bit, header_size, header_alloc, ftrp-eq, next_blkp-eq}

module _ (fuel : ℕ) (h : Heap) {ps : Pieces} {fs : Files}
    (s : State h.memory h.g_class ps fs none_out) (enough : (d : ℕ) → length (fs d) < fuel) where
  -- The block before `p` in its chunk, or none.
  abbrev Follows : Ptr → Piece → Type 0
  Follows prev p = (prev ≡ 0) ⊎ ((q : Piece) × ps q × (q.at ≡ prev) × Adjacent q p)

  -- A free block follows no free block.
  not_after_free :
      (p : Piece) (prev : Ptr)
      → ps p
      → p.used ≡ false
      → Follows prev p
      → (not (prev == 0) && (blk_alloc h.memory (hdrp prev) == 0)) ≡ false
  not_after_free p prev is free (inl z) = rw (eq→== prev 0 z) refl
  not_after_free p prev is free (inr (q, q_is, q_at, adj)) =
      let used : q.used ≡ true = elim (s.merged q p q_is is adj) [
        | inl off ↦ absurd off
        | inr (inl off) ↦ absurd off
        | inr (inr (inl u)) ↦ u
        | inr (inr (inr u)) ↦ absurd (false≢true (sym free ∙ u))
      ] in
      let low = (s.layout.fits q q_is).low in
      let word : blk_alloc h.memory (hdrp prev) ≡ 1 =
        ap (λ (t : Ptr). blk_alloc h.memory (t - 8)) (sym q_at)
        ∙ header_alloc (s.layout.fits q q_is) (s.tags q q_is)
        ∙ ap bit used in
      rw (ne→== prev 0 (λ z. omega arith), word) refl

  check_block-sound :
      (p : Piece) (prev : Ptr)
      → ps p
      → IsBlock p
      → Follows prev p
      → check_block fuel h p.at prev ≡ some sound
  unfolding check_block
  check_block-sound p prev is room follows =
      let f = s.layout.fits p is in
      let t = s.tags p is in
      let aligned : (p.at % 16 == 0) ≡ true = eq→== (p.at % 16) 0 room.2 in
      let same : (h.memory (hdrp p.at) == h.memory (ftrp h.memory p.at)) ≡ true =
        eq→== (h.memory (hdrp p.at)) (h.memory (ftrp h.memory p.at))
          (t.header ∙ sym (ap h.memory (ftrp-eq f t) ∙ t.footer (omega arith))) in
      let wide : ltb (blk_size h.memory (hdrp p.at)) 32 ≡ false =
        le→ltb (blk_size h.memory (hdrp p.at)) 32 (omega (arith, header_size f t)) in
      elim (Bool-cases p.used) [
        | inl used ↦
            let word : blk_alloc h.memory (hdrp p.at) ≡ 1 = header_alloc f t ∙ ap bit used in
            rw (aligned, same, wide, word) refl
        | inr free ↦
            let word : blk_alloc h.memory (hdrp p.at) ≡ 0 = header_alloc f t ∙ ap bit free in
            let count = s.filed.count in
            let class = size_class_lt p.size in
            let listed =
              on_free_list-Filed fuel h.memory p.at h.g_class 0 s.filed enough
                (λ i. ap (λ (t : ℕ). get_or h.g_class t 0) {x = i} {y = 0 + i} (omega arith))
                (size_class p.size) (omega arith) (omega arith)
                (elim (s.listed p is free) [ inl off ↦ absurd off | inr i ↦ i ]) in
            rw (aligned, same, wide, word, listed, not_after_free p prev is free follows) refl
      ]

  -- From a piece of a chunk on, the loop passes and ends: the address grows with every turn.
  pub check_blocks-sound :
      (spare : ℕ) (p : Piece) (prev : Ptr)
      → ps p
      → p.size ≢ 8
      → word_end ≤ p.at + spare
      → Follows prev p
      → check_blocks fuel spare h p.at prev ≡ some sound
  unfolding check_blocks
  check_blocks-sound zero p prev is inner room follows =
      let high = (s.layout.fits p is).high in absurd (omega arith)
  check_blocks-sound (suc spare) p prev is inner room follows =
      let f = s.layout.fits p is in
      let size = header_size f (s.tags p is) in
      elim f.kind [
        | inl (_, inl ended, _) ↦ rw (size, ended) refl
        | inl (_, inr eight, _) ↦ absurd (inner eight)
        | inr block ↦
            let (q, q_is, q_at) = s.layout.next p is (omega arith) in
            let next : next_blkp h.memory p.at ≡ q.at = next_blkp-eq f (s.tags p is) ∙ sym q_at in
            let q_inner : q.size ≢ 8 = λ eight. elim (s.layout.fits q q_is).kind [
              | inl (_, _, at) ↦ omega arith
              | inr q_block ↦ omega arith
            ] in
            let rest =
              check_blocks-sound spare q p.at q_is q_inner (omega arith)
                (inr (p, is, refl, (omega arith, q_at))) in
            ap₂
              (λ (n : ℕ) (v : Option Verdict).
                if n == 0
                then some sound
                else (v >>= λ verdict. elim verdict [
                  | sound ↦ check_blocks fuel spare h (next_blkp h.memory p.at) p.at
                  | fails k ↦ some (fails k)
                ]))
              size (check_block-sound p prev is block follows)
            ∙ rw (ne→== p.size 0 (λ z. omega arith)) (rw next rest)
      ]
