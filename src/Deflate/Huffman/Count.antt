-- ===== src/Deflate/Huffman/Count.antt =====
-- How often a code length occurs: what the counting loops of C-Deflate/src/huffman.c compute.
use foundations_lab.Base.{
  ℕ, zero, suc, ◌+◌, ◌^◌, ◌≤◌, ◌<◌, ◌≡◌, refl, ◌∙◌, List, [], ◌∷◌, arith, length, get_or, take,
  get_or-replicate_default, length-replicate, length-set, get_or-set_self, get_or-set_ne, All,
  ==→eq, ==→ne, ltb, ◌==◌, if◌then◌else◌, tests, Bool-cases, inl, inr, ◌&&◌,
}
use foundations_lab.Deflate.Status.{ok, err, corrupt}
use foundations_lab.Deflate.Huffman.{u16, zeros, bump, count_lengths, count_checked}

-- The entries equal to `l`.
abbrev pub count : ℕ → List ℕ → ℕ
count l [] = 0
count l (x ∷ xs) = (if x == l then 1 else 0) + count l xs

-- The used entries, those above 0, that are below `l`.
abbrev pub count_below : ℕ → List ℕ → ℕ
count_below l [] = 0
count_below l (x ∷ xs) = (if ltb 0 x && ltb x l then 1 else 0) + count_below l xs

pub count-le-length : (l : ℕ) (xs : List ℕ) → count l xs ≤ length xs
count-le-length l [] = omega arith
count-le-length l (x ∷ xs) = ground (arith, count-le-length l xs)

pub count_below-le-length : (l : ℕ) (xs : List ℕ) → count_below l xs ≤ length xs
count_below-le-length l [] = omega arith
count_below-le-length l (x ∷ xs) = ground (arith, count_below-le-length l xs)

pub count_below-suc :
    (l : ℕ) (xs : List ℕ) → 0 < l → count_below (l + 1) xs ≡ count_below l xs + count l xs
count_below-suc l [] h = omega arith
count_below-suc l (x ∷ xs) h = ground (arith, count_below-suc l xs)

pub count_below-one : (xs : List ℕ) → count_below 1 xs ≡ 0
count_below-one [] = refl
count_below-one (x ∷ xs) = ground (arith, count_below-one xs)

pub count_below_mono : (l m : ℕ) (xs : List ℕ) → l ≤ m → count_below l xs ≤ count_below m xs
count_below_mono l m [] h = omega arith
count_below_mono l m (x ∷ xs) h = ground (arith, count_below_mono l m xs)

-- An entry is one more than those equal to it before it.
pub count-take-lt :
    (xs : List ℕ) (i : ℕ)
    → i < length xs
    → count (get_or xs i 0) (take i xs) < count (get_or xs i 0) xs
count-take-lt [] i h = absurd (omega arith)
count-take-lt (x ∷ xs) zero h = ground arith
count-take-lt (x ∷ xs) (suc i) h = ground (arith, count-take-lt xs i)

pub count-take-le : (l : ℕ) (xs : List ℕ) (i : ℕ) → count l (take i xs) ≤ i
count-take-le l xs zero = omega arith
count-take-le l [] (suc i) = omega arith
count-take-le l (x ∷ xs) (suc i) = ground (arith, count-take-le l xs i)

-- What `a[i]++` does to each entry.
pub get_or-bump :
    (a : List ℕ) (i j : ℕ)
    → i < length a
    → get_or a i 0 + 1 < 2 ^ 16
    → get_or (bump a i) j 0 ≡ get_or a j 0 + (if i == j then 1 else 0)
unfolding bump
get_or-bump a i j h b = elim (Bool-cases (i == j)) [
  | inl same ↦
      rw (same, ← ==→eq i j same, get_or-set_self a i (u16 (get_or a i 0 + 1)) 0 h) (omega arith)
  | inr other ↦
      rw (other, get_or-set_ne a i j (u16 (get_or a i 0 + 1)) 0 (==→ne i j other)) (omega arith)
]

pub length-bump : (a : List ℕ) (i : ℕ) → length (bump a i) ≡ length a
unfolding bump
length-bump a i = length-set a i (u16 (get_or a i 0 + 1))

abbrev pub IsLength : ℕ → Type 0
IsLength x = x ≤ 15

pub IsLength-at : (ls : List ℕ) (i : ℕ) → All IsLength ls → get_or ls i 0 ≤ 15
IsLength-at [] i h = omega arith
IsLength-at (x ∷ ls) zero h = h.0
IsLength-at (x ∷ ls) (suc i) h = IsLength-at ls i h.1

-- No counter of `a` reaches 2 ^ 16 in `n` steps.
abbrev pub HasRoom : List ℕ → ℕ → Type 0
HasRoom a n = (m : ℕ) → m ≤ 15 → get_or a m 0 + n < 2 ^ 16

pub bump-HasRoom :
    (a : List ℕ) (x n : ℕ) → x < length a → x ≤ 15 → HasRoom a (suc n) → HasRoom (bump a x) n
bump-HasRoom a x n h small room m k = ground (arith, get_or-bump a x m, room m k, room x small)

pub weaken-HasRoom : (a : List ℕ) (n : ℕ) → HasRoom a (suc n) → HasRoom a n
weaken-HasRoom a n room m k = omega (arith, room m k)

-- `count_lengths` adds to each used entry the number of its occurrences.
pub count_lengths-count :
    (ls a : List ℕ) (l : ℕ)
    → All IsLength ls
    → length a ≡ 16
    → HasRoom a (length ls)
    → 0 < l
    → get_or (count_lengths ls a) l 0 ≡ get_or a l 0 + count l ls
unfolding count_lengths
count_lengths-count [] a l small sized room h = omega arith
count_lengths-count (x ∷ ls) a l small sized room h = elim (Bool-cases (x == 0)) [
  | inl unused ↦ rw unused (
      ground
        (arith, count_lengths-count ls a l small.1 sized (weaken-HasRoom a (length ls) room) h))
  | inr used ↦ rw used (
      ground (
        arith,
        get_or-bump a x l,
        room x small.0,
        count_lengths-count ls (bump a x) l small.1 (rw length-bump sized)
            (bump-HasRoom a x (length ls) (omega arith) small.0 room) h,
      ))
]

-- The counting loop of the decoder accepts only lengths up to 15, and counts them all.
pub record IsTally (ls a c : List ℕ) : Type 0 where
  pub small : All IsLength ls
  pub sized : length c ≡ length a
  pub counted : (l : ℕ) → get_or c l 0 ≡ get_or a l 0 + count l ls

pub count_checked-IsTally :
    (ls a c : List ℕ)
    → length a ≡ 16
    → HasRoom a (length ls)
    → count_checked ls a ≡ ok c
    → IsTally ls a c
unfolding count_checked
count_checked-IsTally [] a c sized room e = record {
  small = tt;
  sized = ground arith;
  counted = λ l. ground arith;
}
count_checked-IsTally (x ∷ ls) a c sized room e = elim (Bool-cases (ltb 15 x)) [
  | inl too_long ↦ absurd (refused (rw too_long at e))
  | inr fits ↦
      let rest =
        count_checked-IsTally ls (bump a x) c (rw length-bump sized)
          (bump-HasRoom a x (length ls) (omega tests) (omega tests) room) (rw fits at e) in
      record {
        small = (omega tests, rest.small);
        sized = rest.sized ∙ length-bump a x;
        counted = λ l. ground (arith, rest.counted l, get_or-bump a x l, room x (omega tests));
      }
]
  where
    refused : err corrupt ≡ ok c → ⊥
    refused e = cc

pub get_or-zeros : (n m : ℕ) → get_or (zeros n) m 0 ≡ 0
unfolding zeros
get_or-zeros n m = get_or-replicate_default n m 0

pub length-zeros : (n : ℕ) → length (zeros n) ≡ n
unfolding zeros
length-zeros n = length-replicate n 0

count_lengths-zero : (ls a : List ℕ) → get_or (count_lengths ls a) 0 0 ≡ get_or a 0 0
unfolding count_lengths bump
count_lengths-zero [] a = refl
count_lengths-zero (x ∷ ls) a = elim (Bool-cases (x == 0)) [
  | inl unused ↦ rw unused (count_lengths-zero ls a)
  | inr in_use ↦
      rw in_use (count_lengths-zero ls (bump a x) ∙ get_or-set_ne a x 0 _ 0 (==→ne x 0 in_use))
]

-- What the counting loop of `huff_assign_codes` finds.
pub count_lengths-zeros :
    (ls : List ℕ) (m : ℕ)
    → All IsLength ls
    → length ls < 2 ^ 16
    → get_or (count_lengths ls (zeros 16)) m 0 ≡ (if m == 0 then 0 else count m ls)
count_lengths-zeros ls m small short = elim (Bool-cases (m == 0)) [
  | inl zeroth ↦
      rw (zeroth, ==→eq m 0 zeroth) (count_lengths-zero ls (zeros 16) ∙ get_or-zeros 16 0)
  | inr above ↦ rw above (
      count_lengths-count ls (zeros 16) m small (length-zeros 16)
        (λ k h. omega (arith, get_or-zeros 16 k)) (omega tests)
      ∙ omega (arith, get_or-zeros 16 m))
]
