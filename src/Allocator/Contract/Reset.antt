-- ===== src/Allocator/Contract/Reset.antt =====
-- `balloc_reset` of C-Allocator/src/balloc.c.
use foundations_lab.Base.{
  ℕ, zero, suc, ◌<◌, ◌≡◌, refl, arith, List, [], ◌∷◌, some, length, eq→==, ne→==,
}
use foundations_lab.Allocator.Memory.{Ptr, Memory, Heap, start_heap}
use foundations_lab.Allocator.Api.{unmapped, balloc_reset}
use foundations_lab.Allocator.Contract.{Sound}
use foundations_lab.Allocator.Layout.{Pieces}
use foundations_lab.Allocator.Layout.Chunks.{Chunks, ends, chunk}

unmapped-Chunks :
    (fuel : ℕ) (m : Memory) {ps : Pieces} {at : Ptr} (cs : List (Ptr × ℕ))
    → Chunks m ps at cs
    → length cs < fuel
    → unmapped fuel m at ≡ some cs
unfolding unmapped
unmapped-Chunks zero m cs chunks enough = absurd (omega arith)
unmapped-Chunks (suc fuel) m {at = at} [] (ends e) enough = rw (eq→== at 0 e) refl
unmapped-Chunks (suc fuel) m {at = at} ((region, total) ∷ cs) (chunk e c size more) enough =
    let real = c.real in
    let rest = unmapped-Chunks fuel m cs more (omega arith) in
    rw (e, ne→== region 0 (λ z. omega arith), rest, size) refl

-- On a sound heap, with more fuel than there are chunks, `balloc_reset` ends, gives back every
-- chunk of the heap once with its size, in order, and leaves the variables as at the start.
pub balloc_reset-start_heap :
    (h : Heap) (s : Sound h) (fuel : ℕ)
    → length s.chunks < fuel
    → balloc_reset fuel h ≡ some (s.chunks, start_heap h.memory)
unfolding balloc_reset start_heap
balloc_reset-start_heap h s fuel enough =
    rw (unmapped-Chunks fuel h.memory s.chunks s.linked enough) refl
