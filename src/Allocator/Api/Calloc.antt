-- ===== src/Allocator/Api/Calloc.antt =====
-- `bcalloc` of C-Allocator/src/balloc.c: the guard against an overflow of the product, and the zeroed
-- payload.
use foundations_lab.Base.{
  ℕ, zero, suc, ◌+◌, ◌-◌, ◌*◌, ◌/◌, ◌%◌, ◌≤◌, ◌<◌, ◌≡◌, ◌⊎◌, Bool, true, false, refl, arith, Option,
  some, if◌then◌else◌, ◌==◌, ltb, lt→ltb, le→ltb, le→leb, lt→leb, ◌^◌, not, ◌&&◌, ne→==,
}
use native.Mathlib.Nat.{mul-mod_left, div-lt_iff_lt-mul, le-div_iff_mul-le}
use foundations_lab.Allocator.Words.{word_end, mul64}
use foundations_lab.Allocator.Memory.{Ptr, null, Memory, Heap}
use foundations_lab.Allocator.Api.{balloc, bcalloc, zero_bytes}

-- The test `nmemb && size > (size_t)-1 / nmemb`.
abbrev overflows : ℕ → ℕ → Bool
overflows nmemb size = not (nmemb == 0) && ltb ((word_end - 1) / nmemb) size

overflows-true : (nmemb size : ℕ) → word_end ≤ nmemb * size → overflows nmemb size ≡ true
overflows-true zero size h = absurd (omega arith)
overflows-true (suc n) size h =
    let swapped : size * suc n ≡ suc n * size = omega arith in
    rw
      (
        ne→== (suc n) 0 (λ z. omega arith),
        lt→ltb ((word_end - 1) / suc n) size ((div-lt_iff_lt-mul (omega arith)).1 (omega arith)),
      )
      refl

overflows-false : (nmemb size : ℕ) → nmemb * size < word_end → overflows nmemb size ≡ false
overflows-false zero size h = refl
overflows-false (suc n) size h =
    let swapped : size * suc n ≡ suc n * size = omega arith in
    rw
      (
        ne→== (suc n) 0 (λ z. omega arith),
        le→ltb ((word_end - 1) / suc n) size ((le-div_iff_mul-le (omega arith)).1 (omega arith)),
      )
      refl

-- Where the product of the arguments does not fit `size_t`, `bcalloc` gives NULL and changes nothing.
pub bcalloc-overflow :
    (mmap : ℕ → Option Ptr) (fuel nmemb size : ℕ) (h : Heap)
    → word_end ≤ nmemb * size
    → bcalloc mmap fuel nmemb size h ≡ some (0, h)
unfolding bcalloc
bcalloc-overflow mmap fuel nmemb size h big = rw (overflows-true nmemb size big) refl

-- The heap with the payload at `p` zeroed, or as it was where there is none.
abbrev pub cleared : (total : ℕ) → Ptr × Heap → Ptr × Heap
cleared total (p, h) =
    (p, if p == null then h else record h { memory = zero_bytes p total h.memory })

-- Where it fits, `bcalloc` is `balloc` of the product, with the payload zeroed.
pub bcalloc-fits :
    (mmap : ℕ → Option Ptr) (fuel nmemb size : ℕ) (h : Heap) (r : Ptr × Heap)
    → nmemb * size < word_end
    → balloc mmap fuel (nmemb * size) h ≡ some r
    → bcalloc mmap fuel nmemb size h ≡ some (cleared (nmemb * size) r)
unfolding bcalloc mul64
bcalloc-fits mmap fuel nmemb size h r fits result =
    let exact : nmemb * size % word_end ≡ nmemb * size = omega arith in
    rw (overflows-false nmemb size fits, exact, result) refl

module _ (p total : ℕ) (m : Memory) where
  -- Every word of the payload that the request covers whole is 0.
  pub zero_bytes-inside : (x : Ptr) → p ≤ x → x + 8 ≤ p + total → zero_bytes p total m x ≡ 0
  unfolding zero_bytes
  zero_bytes-inside x lo hi = ground arith

  -- Of a word that it covers in part, the bytes that it covers are 0: the low ones.
  pub zero_bytes-part :
      (x : Ptr)
      → p ≤ x
      → x < p + total
      → p + total < x + 8
      → zero_bytes p total m x % 2 ^ (8 * (p + total - x)) ≡ 0
  unfolding zero_bytes
  zero_bytes-part x lo hi part =
      let low = 2 ^ (8 * (p + total - x)) in
      rw (le→leb p x lo, lt→ltb x (p + total) hi, lt→leb (x + 8) (p + total) part)
        (mul-mod_left (m x / low) low)

  -- And the words past the request stay.
  pub zero_bytes-outside : (x : Ptr) → (x < p) ⊎ (p + total ≤ x) → zero_bytes p total m x ≡ m x
  unfolding zero_bytes
  zero_bytes-outside x side = ground arith
