-- ===== src/Allocator/Check/Whole.antt =====
-- `balloc_check` of C-Allocator/src/balloc.c on a sound heap.
use foundations_lab.Base.{
  ℕ, zero, suc, ◌+◌, ◌-◌, ◌≤◌, ◌<◌, ◌≡◌, ◌≢◌, inl, inr, Bool, true, refl, ap, ap₂, sym, arith, ◌∙◌,
  List, [], ◌∷◌, Option, some, ◌>>=◌, length, get_or, Among, if◌then◌else◌, eq→==, ne→==,
}
use foundations_lab.Allocator.Words.{word_end, align_up_sixteen}
use foundations_lab.Allocator.Memory.{Ptr, null, Heap, blk_alloc, hdrp}
use foundations_lab.Allocator.FreeLists.Filed.{Files}
use foundations_lab.Allocator.Grow.{first_payload}
use foundations_lab.Allocator.Check.{
  check_blocks, check_chunks, check_lists, balloc_check, Verdict, sound, fails,
}
use foundations_lab.Allocator.Check.Listed.{check_lists-Filed}
use foundations_lab.Allocator.Check.Blocks.{check_blocks-sound}
use foundations_lab.Allocator.Layout.{piece, Pieces, State, none_out}
use foundations_lab.Allocator.Layout.Reads.{bit, header_alloc}
use foundations_lab.Allocator.Layout.Chunks.{IsChunk, Chunks, ends, chunk}

module _ (fuel : ℕ) (h : Heap) {ps : Pieces} {fs : Files}
    (s : State h.memory h.g_class ps fs none_out) (enough : (d : ℕ) → length (fs d) < fuel)
    (long : word_end ≤ fuel) where
  check_chunk-sound :
      (region : Ptr)
      → IsChunk ps region
      → check_blocks fuel fuel h (first_payload region) null ≡ some sound
  unfolding first_payload
  check_chunk-sound region c =
      let aligned = c.aligned in
      let high = (s.layout.fits (piece (region + 24) 8 true) c.prologue).high in
      let (q, q_is, q_at) = s.layout.next (piece (region + 24) 8 true) c.prologue (omega arith) in
      let q_inner : q.size ≢ 8 = λ eight. elim (s.layout.fits q q_is).kind [
        | inl (_, _, at) ↦ omega arith
        | inr block ↦ omega arith
      ] in
      let q_high = (s.layout.fits q q_is).high in
      let start : first_payload region ≡ q.at =
        align_up_sixteen (region + 16 + 8 + 8) (omega arith) ∙ omega arith in
      ap (λ (t : Ptr). check_blocks fuel fuel h t null) start
      ∙ check_blocks-sound fuel h s enough fuel q 0 q_is q_inner (omega arith) (inl refl)

  check_chunks-sound :
      (spare : ℕ) {at : Ptr} (cs : List (Ptr × ℕ))
      → Chunks h.memory ps at cs
      → length cs < spare
      → check_chunks fuel spare h at ≡ some sound
  unfolding check_chunks
  check_chunks-sound zero cs chunks room = absurd (omega arith)
  check_chunks-sound (suc spare) {at} [] (ends e) room = rw (eq→== at 0 e) refl
  check_chunks-sound (suc spare) {at} ((region, total) ∷ cs) (chunk e c size chunks) room =
      let real = c.real in
      ap (λ (t : Ptr). check_chunks fuel (suc spare) h t) e
      ∙ ap₂
          (λ (b : Bool) (v : Option Verdict).
            if b
            then some sound
            else (v >>= λ verdict. elim verdict [
              | sound ↦ check_chunks fuel spare h (h.memory region)
              | fails k ↦ some (fails k)
            ]))
          (ne→== region 0 (λ z. omega arith)) (check_chunk-sound region c)
      ∙ check_chunks-sound spare cs chunks (omega arith)

  -- On a sound heap `balloc_check` ends and returns 0.
  pub balloc_check-sound :
      (cs : List (Ptr × ℕ))
      → Chunks h.memory ps h.g_chunks cs
      → length cs < fuel
      → balloc_check fuel h ≡ some sound
  unfolding balloc_check
  balloc_check-sound cs chunks room =
      let free : (d : ℕ) (p : Ptr) → Among p (fs d) → blk_alloc h.memory (hdrp p) ≡ 0 = λ d p i.
        let (b, is, free, at, _, _) = s.owned d p i in
        ap (λ (t : Ptr). blk_alloc h.memory (t - 8)) (sym at)
        ∙ header_alloc (s.layout.fits b is) (s.tags b is)
        ∙ ap bit free in
      let listed =
        check_lists-Filed fuel h.memory h.g_class 0 s.filed enough free
          (λ i. ap (λ (t : ℕ). get_or h.g_class t 0) {x = i} {y = 0 + i} (omega arith)) in
      ap
        (λ (v : Option Verdict). v >>= λ verdict. elim verdict [
          | sound ↦ check_lists fuel h.memory h.g_class
          | fails k ↦ some (fails k)
        ])
        (check_chunks-sound fuel cs chunks room)
      ∙ listed
