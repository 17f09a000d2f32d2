-- ===== src/Deflate/Stream.antt =====
-- Bit streams as lists of bits, earliest first: the abstract view of what the bit writer has
-- written and of what the bit reader has left. No code of the repository is modelled here.
use native.Mathlib.Nat.{pow-suc, one-le-pow}
use foundations_lab.Base.{
  ℕ, zero, suc, ◌+◌, ◌*◌, ◌/◌, ◌%◌, ◌^◌, ◌<◌, ◌≡◌, refl, ap, ap₂, ◌∙◌, sym, List, [], ◌∷◌, ◌++◌,
  append_assoc, append-nil, arith, length, length-append,
}

-- The `n` low bits of `v`, the lowest first.
unfoldable pub lsb : ℕ → ℕ → List ℕ
lsb zero v = []
lsb (suc n) v = (v % 2) ∷ lsb n (v / 2)

-- The `n` low bits of `v`, the highest first.
unfoldable pub msb : ℕ → ℕ → List ℕ
msb zero v = []
msb (suc n) v = (v / 2 ^ n % 2) ∷ msb n v

-- The bits of a sequence of bytes.
unfoldable pub byte_bits : List ℕ → List ℕ
unfolding lsb
byte_bits [] = []
byte_bits (b ∷ bs) = lsb 8 b ++ byte_bits bs

pub length-lsb : (n v : ℕ) → length (lsb n v) ≡ n
unfolding lsb
length-lsb zero v = refl
length-lsb (suc n) v = ap suc (length-lsb n (v / 2))

pub length-msb : (n v : ℕ) → length (msb n v) ≡ n
unfolding msb
length-msb zero v = refl
length-msb (suc n) v = ap suc (length-msb n v)

pub double_pow : (b n : ℕ) → b * 2 ^ suc n ≡ 2 * (b * 2 ^ n)
double_pow b n = omega (arith, ap (λ (t : ℕ). b * t) (pow-suc 2 n))

pub lsb-append : (n m a b : ℕ) → a < 2 ^ n → lsb (n + m) (a + b * 2 ^ n) ≡ lsb n a ++ lsb m b
unfolding lsb
lsb-append zero m a b h = ap₂ lsb (omega arith) (omega arith)
lsb-append (suc n) m a b h =
    ap₂ lsb {x = suc n + m} {y = suc (n + m)} (omega arith) refl
    ∙ ap₂ ◌∷◌ (omega (arith, double_pow b n)) (
        ap (lsb (n + m)) (omega (arith, double_pow b n))
        ∙ lsb-append n m (a / 2) b (omega (arith, pow-suc 2 n)))

pub byte_bits-append : (xs ys : List ℕ) → byte_bits (xs ++ ys) ≡ byte_bits xs ++ byte_bits ys
unfolding byte_bits
byte_bits-append [] ys = refl
byte_bits-append (x ∷ xs) ys =
    ap (λ (t : List ℕ). lsb 8 x ++ t) (byte_bits-append xs ys)
    ∙ sym (append_assoc (lsb 8 x) (byte_bits xs) (byte_bits ys))

pub length-byte_bits : (xs : List ℕ) → length (byte_bits xs) ≡ 8 * length xs
unfolding byte_bits
length-byte_bits [] = refl
length-byte_bits (x ∷ xs) =
    omega (arith, length-append (lsb 8 x) (byte_bits xs), length-lsb 8 x, length-byte_bits xs)

-- Two streams that agree begin with the same field.
pub lsb-injective :
    (n v w : ℕ) (xs ys : List ℕ)
    → v < 2 ^ n
    → w < 2 ^ n
    → lsb n v ++ xs ≡ lsb n w ++ ys
    → (v ≡ w) × (xs ≡ ys)
unfolding lsb
lsb-injective zero v w xs ys hv hw e = (omega arith, e)
lsb-injective (suc n) v w xs ys hv hw e =
    ground (arith, pow-suc 2 n, lsb-injective n (v / 2) (w / 2) xs ys)

-- A field splits into its low part and the rest.
pub lsb-split : (n m v : ℕ) → lsb (n + m) v ≡ lsb n (v % 2 ^ n) ++ lsb m (v / 2 ^ n)
lsb-split n m v =
    ap (lsb (n + m)) (omega arith)
    ∙ lsb-append n m (v % 2 ^ n) (v / 2 ^ n) (omega (arith, one-le-pow n 2))

-- Only the low bits count.
pub lsb-mod : (n v : ℕ) → lsb n (v % 2 ^ n) ≡ lsb n v
unfolding lsb
lsb-mod n v =
    sym (append-nil (lsb n (v % 2 ^ n)))
    ∙ sym (lsb-split n 0 v)
    ∙ ap (λ (k : ℕ). lsb k v) (omega arith)
