-- ===== src/Deflate/Gzip/Register.antt =====
-- The cyclic redundancy check of `deflate_crc32` in C-Deflate/src/inflate.c as a shift register: the
-- division of a message by the polynomial of CRC-32, one bit at a time. It models no code.
use foundations_lab.Base.{
  ℕ, zero, suc, ◌+◌, ◌*◌, ◌/◌, ◌%◌, ◌≤◌, ◌≡◌, refl, ap, ap₂, ◌∙◌, sym, length-replicate, arith,
  Bool, true, false, not, List, [], ◌∷◌, ◌++◌, map, length, length-append, replicate, if◌then◌else◌,
  ◌==◌,
}

-- A number of its binary digits, the lowest first, and the digits of a number.
abbrev pub digit : Bool → ℕ
digit b = if b then 1 else 0

unfoldable pub value : List Bool → ℕ
value [] = 0
value (b ∷ bs) = digit b + 2 * value bs

unfoldable pub low_bits : ℕ → ℕ → List Bool
low_bits zero v = []
low_bits (suc n) v = (v % 2 == 1) ∷ low_bits n (v / 2)

abbrev pub xor : Bool → Bool → Bool
xor a b = if a then not b else b

-- The second list with the first added, digit by digit, from the front on.
unfoldable pub add_bits : List Bool → List Bool → List Bool
add_bits [] rs = rs
add_bits (b ∷ bs) [] = []
add_bits (b ∷ bs) (r ∷ rs) = xor b r ∷ add_bits bs rs

-- x ^ 26 + x ^ 23 + x ^ 22 + x ^ 16 + x ^ 12 + x ^ 11 + x ^ 10 + x ^ 8 + x ^ 7 + x ^ 5 + x ^ 4 +
-- x ^ 2 + x + 1, the rest of x ^ 32, from the coefficient of x ^ 31 down.
abbrev pub exponents : List ℕ
exponents = 26 ∷ 23 ∷ 22 ∷ 16 ∷ 12 ∷ 11 ∷ 10 ∷ 8 ∷ 7 ∷ 5 ∷ 4 ∷ 2 ∷ 1 ∷ 0 ∷ []

abbrev pub coefficients : (degree : ℕ) → List ℕ → List Bool
coefficients zero [] = []
coefficients zero (e ∷ es) = []
coefficients (suc k) [] = false ∷ coefficients k []
coefficients (suc k) (e ∷ es) =
    if k == e then true ∷ coefficients k es else false ∷ coefficients k (e ∷ es)

abbrev pub polynomial : List Bool
polynomial = coefficients 32 exponents

-- A bit of the message shifted into the register: its difference from the front bit of the register
-- is what the polynomial is added for.
unfoldable pub feed : Bool → List Bool → List Bool
feed b [] = []
feed b (r ∷ rs) = if xor b r then add_bits rs polynomial else rs ++ (false ∷ [])

unfoldable pub feed_all : List Bool → List Bool → List Bool
unfolding feed
feed_all [] reg = reg
feed_all (b ∷ bs) reg = feed_all bs (feed b reg)

-- The bytes of the message, the lowest bit of each first.
unfoldable pub feed_bytes : List ℕ → List Bool → List Bool
unfolding feed_all low_bits
feed_bytes [] reg = reg
feed_bytes (b ∷ bs) reg = feed_bytes bs (feed_all (low_bits 8 b) reg)

-- CRC-32: the register starts with ones, and is complemented at the end.
unfoldable pub register_crc : List ℕ → ℕ
unfolding feed_bytes value
register_crc bytes = value (map not (feed_bytes bytes (replicate 32 true)))

pub length-add_bits : (bs rs : List Bool) → length (add_bits bs rs) ≡ length rs
unfolding add_bits
length-add_bits [] rs = refl
length-add_bits (b ∷ bs) [] = refl
length-add_bits (b ∷ bs) (r ∷ rs) = ap suc (length-add_bits bs rs)

pub length-feed : (b : Bool) (reg : List Bool) → length reg ≡ 32 → length (feed b reg) ≡ 32
unfolding feed
length-feed b [] h = absurd (omega arith)
length-feed false (true ∷ rs) h = length-add_bits rs polynomial
length-feed true (false ∷ rs) h = length-add_bits rs polynomial
length-feed false (false ∷ rs) h = omega (arith, length-append rs (false ∷ []))
length-feed true (true ∷ rs) h = omega (arith, length-append rs (false ∷ []))

pub length-feed_all : (bs reg : List Bool) → length reg ≡ 32 → length (feed_all bs reg) ≡ 32
unfolding feed_all
length-feed_all [] reg h = h
length-feed_all (b ∷ bs) reg h = length-feed_all bs (feed b reg) (length-feed b reg h)

-- Additions commute.
swap_bits : (a b r : Bool) → xor a (xor b r) ≡ xor b (xor a r)
swap_bits true true r = refl
swap_bits false false r = refl
swap_bits true false r = refl
swap_bits false true r = refl

turn_bits : (a b r : Bool) → xor (xor a b) r ≡ xor a (xor b r)
turn_bits true true true = refl
turn_bits true true false = refl
turn_bits true false r = refl
turn_bits false b r = refl

pub add_bits-swap :
    (cs bs rs : List Bool) → add_bits cs (add_bits bs rs) ≡ add_bits bs (add_bits cs rs)
unfolding add_bits
add_bits-swap [] bs rs = refl
add_bits-swap (a ∷ cs) [] rs = refl
add_bits-swap (a ∷ cs) (b ∷ bs) [] = refl
add_bits-swap (a ∷ cs) (b ∷ bs) (r ∷ rs) =
    ap₂ (λ (x : Bool) (xs : List Bool). x ∷ xs) (swap_bits a b r) (add_bits-swap cs bs rs)

-- What is added to the first list of an addition can be added to the sum.
add_bits-turn :
    (cs bs rs : List Bool)
    → length cs ≤ length bs
    → add_bits (add_bits cs bs) rs ≡ add_bits cs (add_bits bs rs)
unfolding add_bits
add_bits-turn [] bs rs h = refl
add_bits-turn (a ∷ cs) [] rs h = absurd (omega arith)
add_bits-turn (a ∷ cs) (b ∷ bs) [] h = refl
add_bits-turn (a ∷ cs) (b ∷ bs) (r ∷ rs) h =
    ap₂ (λ (x : Bool) (xs : List Bool). x ∷ xs) (turn_bits a b r)
      (add_bits-turn cs bs rs (omega arith))

add_bits-behind :
    (bs rs : List Bool)
    → length bs ≤ length rs
    → add_bits bs rs ++ (false ∷ []) ≡ add_bits bs (rs ++ (false ∷ []))
unfolding add_bits
add_bits-behind [] rs h = refl
add_bits-behind (b ∷ bs) [] h = absurd (omega arith)
add_bits-behind (b ∷ bs) (r ∷ rs) h =
    ap (λ (t : List Bool). xor b r ∷ t) (add_bits-behind bs rs (omega arith))

-- Bits that are added behind the front come out of a shift one place further on.
feed-add_bits :
    (b r : Bool) (bs rs : List Bool)
    → length bs ≤ length rs
    → feed b (r ∷ add_bits bs rs) ≡ add_bits bs (feed b (r ∷ rs))
unfolding feed
feed-add_bits true false bs rs h = add_bits-turn bs rs polynomial h
feed-add_bits false true bs rs h = add_bits-turn bs rs polynomial h
feed-add_bits true true bs rs h = add_bits-behind bs rs h
feed-add_bits false false bs rs h = add_bits-behind bs rs h

front : (b r : Bool) (rs : List Bool) → feed b (r ∷ rs) ≡ feed false (xor b r ∷ rs)
unfolding feed
front b r rs = refl

-- A message can be added to the register before zeros are shifted in.
pub feed_all-add_bits :
    (bs reg : List Bool)
    → length reg ≡ 32
    → length bs ≤ 32
    → feed_all bs reg ≡ feed_all (replicate (length bs) false) (add_bits bs reg)
unfolding feed_all add_bits
feed_all-add_bits [] reg h k = refl
feed_all-add_bits (b ∷ bs) [] h k = absurd (omega arith)
feed_all-add_bits (b ∷ bs) (r ∷ rs) h k =
    feed_all-add_bits bs (feed b (r ∷ rs)) (length-feed b (r ∷ rs) h) (omega arith)
    ∙ ap (feed_all (replicate (length bs) false))
        (ap (add_bits bs) (front b r rs) ∙ sym (feed-add_bits false (xor b r) bs rs (omega arith)))

-- Bits that are added `n` places behind the front are in front after `n` shifts.
pub feed_all-shift :
    (n : ℕ) (bs reg : List Bool)
    → length reg ≡ 32
    → n + length bs ≤ 32
    → feed_all (replicate n false) (add_bits (replicate n false ++ bs) reg)
      ≡ add_bits bs (feed_all (replicate n false) reg)
unfolding feed_all add_bits
feed_all-shift zero bs reg h k = refl
feed_all-shift (suc n) bs [] h k = absurd (omega arith)
feed_all-shift (suc n) bs (r ∷ rs) h k =
    ap (feed_all (replicate n false)) (
      feed-add_bits false r (replicate n false ++ bs) rs
        (omega (arith, length-append (replicate n false) bs, length-replicate n false)))
    ∙ feed_all-shift n bs (feed false (r ∷ rs)) (length-feed false (r ∷ rs) h) (omega arith)
