-- ===== src/Deflate/Window/Copy.antt =====
-- Copying a match of C-Deflate/src/inflate.c onto a prefix of the input makes a longer prefix.
use foundations_lab.Base.{
  ℕ, zero, suc, ◌+◌, ◌-◌, ◌≤◌, ◌<◌, ◌≡◌, refl, ap, ◌∙◌, sym, List, [], ◌∷◌, ◌++◌, arith, get_or,
  length, take, length-append, get_or-take, take-suc, ◌==◌, Bool-cases, inl, inr,
}
use foundations_lab.Deflate.Window.{Token, IsToken, IsReachable, copy_match, expand_token, expand}

-- A prefix and the byte behind it.
pub take-snoc :
    (p : ℕ) (input : List ℕ) (b : ℕ)
    → p < length input
    → b ≡ get_or input p 0
    → take p input ++ (b ∷ []) ≡ take (p + 1) input
take-snoc p input b h e =
    ap (λ (t : ℕ). take p input ++ (t ∷ [])) e
    ∙ sym (take-suc p input 0 h)
    ∙ ap (λ (n : ℕ). take n input) {x = suc p} {y = p + 1} (omega arith)

pub copy_match-take :
    (left from p : ℕ) (input : List ℕ)
    → from < p
    → p + left ≤ length input
    → ((i : ℕ) → i < left → get_or input (p + i) 0 ≡ get_or input (from + i) 0)
    → copy_match left from (take p input) ≡ take (p + left) input
unfolding copy_match
copy_match-take zero from p input h fits same =
    ap (λ (n : ℕ). take n input) {x = p} {y = p + 0} (omega arith)
copy_match-take (suc left) from p input h fits same =
    let here : get_or (take p input) from 0 ≡ get_or input p 0 =
      get_or-take p from input 0 h
      ∙ ap (λ (n : ℕ). get_or input n 0) {x = from} {y = from + 0} (omega arith)
      ∙ sym (same 0 (omega arith))
      ∙ ap (λ (n : ℕ). get_or input n 0) {x = p + 0} {y = p} (omega arith) in
    let shift = λ (a i : ℕ).
      ap (λ (n : ℕ). get_or input n 0) {x = a + 1 + i} {y = a + (i + 1)} (omega arith) in
    ap (copy_match left (from + 1)) (take-snoc p input _ (omega arith) here)
    ∙ copy_match-take left (from + 1) (p + 1) input (omega arith) (omega arith)
        (λ i k. shift p i ∙ same (i + 1) (omega arith) ∙ sym (shift from i))
    ∙ ap (λ (n : ℕ). take n input) {x = p + 1 + left} {y = p + suc left} (omega arith)

pub expand-snoc :
    (ts : List Token) (out : List ℕ) (t : Token)
    → expand out (ts ++ (t ∷ [])) ≡ expand_token (expand out ts) t
unfolding expand
expand-snoc [] out t = refl
expand-snoc (u ∷ ts) out t = expand-snoc ts (expand_token out u) t

pub length-copy_match :
    (left from : ℕ) (out : List ℕ) → length (copy_match left from out) ≡ length out + left
unfolding copy_match
length-copy_match zero from out = omega arith
length-copy_match (suc left) from out = omega (
  arith,
  length-copy_match left (from + 1) (out ++ (get_or out from 0 ∷ [])),
  length-append out (get_or out from 0 ∷ []),
)

pub IsReachable-snoc :
    (ts : List Token) (out : List ℕ) (t : Token)
    → IsReachable out ts
    → IsToken t
    → t.distance ≤ length (expand out ts)
    → IsReachable out (ts ++ (t ∷ []))
unfolding expand
IsReachable-snoc [] out t h legal near = ((legal, near), tt)
IsReachable-snoc (u ∷ ts) out t h legal near =
    (h.0, IsReachable-snoc ts (expand_token out u) t h.1 legal near)

length-expand_token : (out : List ℕ) (t : Token) → length out ≤ length (expand_token out t)
unfolding expand_token
length-expand_token out t = elim (Bool-cases (t.length == 0)) [
  | inl literal ↦ simp literal (omega (arith, length-append out (t.literal ∷ [])))
  | inr is_match ↦
      simp is_match (omega (arith, length-copy_match t.length (length out - t.distance) out))
]

-- Tokens only add to the output.
pub length-expand : (ts : List Token) (out : List ℕ) → length out ≤ length (expand out ts)
unfolding expand
length-expand [] out = omega arith
length-expand (t ∷ ts) out =
    omega (arith, length-expand_token out t, length-expand ts (expand_token out t))
