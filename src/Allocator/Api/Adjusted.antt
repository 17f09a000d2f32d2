-- ===== src/Allocator/Api/Adjusted.antt =====
-- The size of a block for a request to `balloc` of C-Allocator/src/balloc.c, at every request.
use foundations_lab.Base.{ℕ, ◌+◌, ◌-◌, ◌%◌, ◌≤◌, ◌<◌, ◌≡◌, refl, arith, lt→ltb}
use foundations_lab.Allocator.Words.{word_end, add64, sub64, align_up, bit_and-not64}
use foundations_lab.Allocator.Api.{adjusted}
use foundations_lab.Allocator.Api.Alloc.{adjusted_bounds}

-- The rounding keeps no more than the sum before it has.
align_up-le : (n : ℕ) → align_up n 16 ≤ sub64 (add64 n 16) 1
unfolding align_up add64 sub64
align_up-le n =
    let shared =
      bit_and-not64 (((n + 16) % word_end + (word_end - 1)) % word_end) 15 (omega arith)
        (omega arith) in
    omega (arith, shared)

wrapped : (size : ℕ) → size < word_end → word_end ≤ size + 31 → align_up (add64 size 16) 16 < 32
unfolding add64 sub64
wrapped size h k = omega (arith, align_up-le ((size + 16) % word_end))

-- For a request below 2 ^ 64: where the request and 31 are below 2 ^ 64, the size of the block is
-- a multiple of 16 that is at least the request and 16 and at most the request and 32; for the
-- other requests, the 31 largest, it is 32.
pub adjusted_cases :
    (size : ℕ)
    → size < word_end
    → (size + 31 < word_end
        → (size + 16 ≤ adjusted size) × (adjusted size ≤ size + 32) × (adjusted size % 16 ≡ 0))
      × (word_end ≤ size + 31 → adjusted size ≡ 32)
unfolding adjusted
adjusted_cases size h = (
  (λ fits. let (aligned, _, room, most) = adjusted_bounds size fits in (room, most, aligned)),
  (λ large. rw (lt→ltb (align_up (add64 size 16) 16) 32 (wrapped size h large)) refl),
)
