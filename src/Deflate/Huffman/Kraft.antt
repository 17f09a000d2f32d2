-- ===== src/Deflate/Huffman/Kraft.antt =====
-- The first code of each length (RFC 1951, 3.2.2), and the check of `huff_build_decoder` of
-- C-Deflate/src/huffman.c that the codes of each length fit its bits.
use native.Mathlib.Nat.{pow-suc}
use foundations_lab.Base.{
  ℕ, zero, suc, ◌+◌, ◌-◌, ◌*◌, ◌^◌, ◌≤◌, ◌<◌, ◌≡◌, refl, ap, List, arith, get_or, ltb, ◌==◌,
  if◌then◌else◌, tests, le→ltb, ==→eq, two_pow-add, ◌↔◌, Bool-cases, inl, inr, true,
}
use foundations_lab.Deflate.Huffman.{is_not_oversubscribed}
use foundations_lab.Deflate.Huffman.Count.{count}

-- The codes used of length `l`; an entry 0 is a symbol that is not used.
unfoldable pub used : ℕ → List ℕ → ℕ
used l ls = if l == 0 then 0 else count l ls

unfoldable pub first_code : List ℕ → ℕ → ℕ
first_code ls zero = 0
first_code ls (suc l) = 2 * (first_code ls l + used l ls)

pub first_code-next :
    (ls : List ℕ) (b : ℕ) → first_code ls (b + 1) ≡ 2 * (first_code ls b + used b ls)
unfolding first_code
first_code-next ls b = ap (first_code ls) {x = b + 1} {y = suc b} (omega arith)

two_pow-next : (b : ℕ) → 2 ^ (b + 1) ≡ 2 * 2 ^ b
two_pow-next b = omega (arith, two_pow-add b 1)

-- The codes of every length fit its bits: the Kraft inequality, length by length.
abbrev pub IsKraft : List ℕ → Type 0
IsKraft ls = (l : ℕ) → l ≤ 15 → first_code ls l + used l ls ≤ 2 ^ l

-- With the loop at length `b + 1`, `left` is what the codes of length `b` leave free.
kraft_from :
    (rounds b left l : ℕ) (counts ls : List ℕ)
    → ((m : ℕ) → get_or counts m 0 ≡ used m ls)
    → left + (first_code ls b + used b ls) ≡ 2 ^ b
    → is_not_oversubscribed rounds (b + 1) left counts ≡ true
    → b < l
    → l ≤ b + rounds
    → first_code ls l + used l ls ≤ 2 ^ l
unfolding is_not_oversubscribed
kraft_from zero b left l counts ls same e t lo hi = absurd (omega arith)
kraft_from (suc rounds) b left l counts ls same e t lo hi =
    elim (Bool-cases (ltb (left * 2) (get_or counts (b + 1) 0))) [
      | inl over ↦ cc (rw over at t)
      | inr fits ↦
          let now : left * 2 - get_or counts (b + 1) 0 + (first_code ls (b + 1) + used (b + 1) ls)
              ≡ 2 ^ (b + 1) =
            omega (tests, same (b + 1), first_code-next ls b, two_pow-next b) in
          elim (Bool-cases (l == b + 1)) [
            | inl here ↦ rw (==→eq l (b + 1) here) (omega arith)
            | inr later ↦
                kraft_from rounds (b + 1) (left * 2 - get_or counts (b + 1) 0) l counts ls same now
                  (rw fits at t) (omega tests) (omega arith)
          ]
    ]

-- The other way: lengths whose codes fit pass the check.
kraft_to :
    (rounds b left : ℕ) (counts ls : List ℕ)
    → ((m : ℕ) → get_or counts m 0 ≡ used m ls)
    → left + (first_code ls b + used b ls) ≡ 2 ^ b
    → ((l : ℕ) → l ≤ b + rounds → first_code ls l + used l ls ≤ 2 ^ l)
    → is_not_oversubscribed rounds (b + 1) left counts ≡ true
unfolding is_not_oversubscribed
kraft_to zero b left counts ls same e fits = refl
kraft_to (suc rounds) b left counts ls same e fits =
    let here : get_or counts (b + 1) 0 ≤ left * 2 =
      omega
        (arith, same (b + 1), first_code-next ls b, two_pow-next b, fits (b + 1) (omega arith)) in
    let now : left * 2 - get_or counts (b + 1) 0 + (first_code ls (b + 1) + used (b + 1) ls)
        ≡ 2 ^ (b + 1) =
      omega (arith, same (b + 1), first_code-next ls b, two_pow-next b) in
    rw (le→ltb (left * 2) (get_or counts (b + 1) 0) here) (
      kraft_to rounds (b + 1) (left * 2 - get_or counts (b + 1) 0) counts ls same now
        (λ l h. fits l (omega arith)))

-- The check passes exactly when the codes of every length fit its bits.
pub is_not_oversubscribed-IsKraft_iff :
    (counts ls : List ℕ)
    → ((m : ℕ) → get_or counts m 0 ≡ used m ls)
    → (is_not_oversubscribed 15 1 1 counts ≡ true) ↔ IsKraft ls
unfolding first_code used
is_not_oversubscribed-IsKraft_iff counts ls same = (
  λ t l h. elim (Bool-cases (l == 0)) [
    | inl zeroth ↦ rw (==→eq l 0 zeroth) (omega arith)
    | inr above ↦ kraft_from 15 0 1 l counts ls same refl t (omega tests) (omega arith)
  ],
  λ kraft. kraft_to 15 0 1 counts ls same refl kraft,
)

-- The codes after length `b` lie above every extension of those of length `b`.
pub first_code_grows :
    (ls : List ℕ) (b j : ℕ) → 2 ^ suc j * (first_code ls b + used b ls) ≤ first_code ls (b + suc j)
first_code_grows ls b zero = rw (first_code-next ls b) (omega arith)
first_code_grows ls b (suc j) =
    let top = first_code ls b + used b ls in
    let regroup : first_code ls (b + suc (suc j)) ≡ first_code ls (b + suc j + 1) =
      ap (first_code ls) (omega arith) in
    omega (
      arith,
      regroup,
      first_code-next ls (b + suc j),
      first_code_grows ls b j,
      ap (λ (t : ℕ). t * top) (pow-suc 2 (suc j)),
    )
