-- ===== src/Allocator/Grow/Total.antt =====
-- The number of bytes that `grow` of C-Allocator/src/balloc.c asks of the system: whole pages, with
-- room for the block and the words around it. Past 1 MiB the alignment is no power of two.
use foundations_lab.Base.{
  ℕ, zero, suc, ◌+◌, ◌-◌, ◌*◌, ◌/◌, ◌%◌, ◌^◌, ◌≤◌, ◌<◌, ◌≡◌, inl, inr, refl, sym, ap, ap₂, arith,
  ◌∙◌, bit_and, bit_and_step, ltb, ltb→lt, ltb→le, Bool-cases,
}
use Prim.Native.Nat.{min, bit_and-bitwise}
use native.Mathlib.Nat.{pow-suc}
use foundations_lab.Allocator.Words.{
  word_end, add64, sub64, not64, align_up, add64-exact, sub64-exact, bit_and-not64,
}
use foundations_lab.Allocator.Grow.{chunk_total}

-- A mask keeps no more than it has.
bit_and_le : (bound x y : ℕ) → x ≤ bound → bit_and x y ≤ y
bit_and_le bound zero y h = omega (arith, bit_and-bitwise 0 y)
bit_and_le zero (suc x) y h = absurd (omega arith)
bit_and_le (suc bound) (suc x) y h =
    let half = bit_and_le bound (suc x / 2) (y / 2) (omega arith) in
    omega (arith, half, bit_and_step (suc x) y)

-- And none of the low bits that it lacks.
bit_and_multiple : (k x q : ℕ) → (r : ℕ) × (bit_and x (q * 2 ^ k) ≡ r * 2 ^ k)
bit_and_multiple zero x q = (bit_and x (q * 2 ^ 0), omega arith)
bit_and_multiple (suc k) x q =
    let (r, half) = bit_and_multiple k (x / 2) q in
    let doubled : q * 2 ^ suc k ≡ q * 2 ^ k * 2 =
      ap (λ (t : ℕ). q * t) (pow-suc 2 k) ∙ omega arith in
    let even : (q * 2 ^ suc k) / 2 ≡ q * 2 ^ k = omega (arith, doubled) in
    let step =
      bit_and_step x (q * 2 ^ suc k)
      ∙ ap (λ (t : ℕ). bit_and (x / 2) t * 2 + min (x % 2) ((q * 2 ^ suc k) % 2)) even in
    (r, omega (arith, step, half, doubled, ap (λ (t : ℕ). r * t) (pow-suc 2 k)))

module _ (n a : ℕ) (pages : a % 4096 ≡ 0) (real : 0 < a) (small : n + a < word_end) where
  align_up-eq : align_up n a ≡ bit_and (n + a - 1) (not64 (a - 1))
  unfolding align_up
  align_up-eq =
      ap₂ (λ (x y : ℕ). bit_and x (not64 y))
        (ap (λ (t : ℕ). sub64 t 1) (add64-exact n a small)
          ∙ sub64-exact (n + a) 1 (omega arith) small)
        (sub64-exact a 1 (omega arith) (omega arith))

  not64_pages : not64 (a - 1) / 4096 * 4096 ≡ not64 (a - 1)
  unfolding not64
  not64_pages = omega arith

  pub align_up_pages : (align_up n a % 4096 ≡ 0) × (n ≤ align_up n a) × (align_up n a < n + a)
  align_up_pages =
      let shared = bit_and-not64 (n + a - 1) (a - 1) (omega arith) (omega arith) in
      let most = bit_and_le (n + a - 1) (n + a - 1) (a - 1) (omega arith) in
      let (pages_kept, low) = bit_and_multiple 12 (n + a - 1) (not64 (a - 1) / 4096) in
      let whole : not64 (a - 1) / 4096 * 4096 ≡ not64 (a - 1) = not64_pages in
      let kept = ap (λ (t : ℕ). bit_and (n + a - 1) t) (sym whole) ∙ low in
      (omega (arith, align_up-eq, kept), omega (arith, align_up-eq), omega (arith, align_up-eq))

-- Where twice the block and 2 MiB are below 2 ^ 64, the bytes that `grow` asks for are a multiple
-- of 4096, at least 4096, and at least the block and 56.
pub chunk_total_pages :
    (need : ℕ)
    → 2 * need + 2097152 < word_end
    → (chunk_total need % 4096 ≡ 0) × (need + 56 ≤ chunk_total need) × (4096 ≤ chunk_total need)
unfolding chunk_total
chunk_total_pages need h =
    let sum : add64 (add64 (add64 need 16) 24) 16 ≡ need + 56 =
      ap (λ (t : ℕ). add64 (add64 t 24) 16) (add64-exact need 16 (omega arith))
      ∙ ap (λ (t : ℕ). add64 t 16) (add64-exact (need + 16) 24 (omega arith))
      ∙ add64-exact (need + 16 + 24) 16 (omega arith)
      ∙ omega arith in
    rw sum (elim (Bool-cases (ltb need 1048576)) [
      | inl small ↦
          let (pages, lo, hi) =
            align_up_pages (need + 56) 1048576 refl (omega arith) (omega arith) in
          let bound = ltb→lt need 1048576 small in simp small (pages, lo, omega (arith, pages, lo))
      | inr large ↦
          let bound = ltb→le need 1048576 large in
          let (pages, lo, hi) = align_up_pages need 4096 refl (omega arith) (omega arith) in
          let (pages', lo', hi') =
            align_up_pages (need + 56) (align_up need 4096) pages (omega arith) (omega arith) in
          simp large (pages', lo', omega arith)
    ])
