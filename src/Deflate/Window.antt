-- ===== src/Deflate/Window.antt =====
-- Tokens of C-Deflate/src/deflate.c, and what the decoder of C-Deflate/src/inflate.c makes of them:
-- the loop that copies a match from the output written so far.
pub mod Copy
use foundations_lab.Base.{
  ℕ, zero, suc, ◌+◌, ◌-◌, ◌≤◌, ◌<◌, ◌≡◌, ◌⊎◌, List, [], ◌∷◌, ◌++◌, length, get_or, ◌==◌,
  if◌then◌else◌,
}

-- `length` is 0 for a literal.
pub record Token : Type 0 where
  pub length : ℕ
  pub distance : ℕ
  pub literal : ℕ

-- `for (i) out[written + i] = out[from + i];` one byte at a time, so that a match may overlap its own
-- output. `out` is the output so far, and `written` its length.
unfoldable pub copy_match : ℕ → ℕ → List ℕ → List ℕ
copy_match zero from out = out
copy_match (suc left) from out = copy_match left (from + 1) (out ++ (get_or out from 0 ∷ []))

-- What a token adds to the output.
unfoldable pub expand_token : List ℕ → Token → List ℕ
expand_token out t =
    if t.length == 0
    then out ++ (t.literal ∷ [])
    else copy_match t.length (length out - t.distance) out

unfoldable pub expand : List ℕ → List Token → List ℕ
expand out [] = out
expand out (t ∷ ts) = expand (expand_token out t) ts

-- The tokens that the format can say: a byte, or a match of 3 to 258 bytes from at most 32768 bytes
-- back.
abbrev pub IsToken : Token → Type 0
IsToken t =
    ((t.length ≡ 0) × (t.literal < 256))
    ⊎ ((3 ≤ t.length) × (t.length ≤ 258) × (1 ≤ t.distance) × (t.distance ≤ 32768))

-- Behind `out`, every token can be said and none reaches back before the start of the output.
abbrev pub IsReachable : List ℕ → List Token → Type 0
IsReachable out [] = Unit
IsReachable out (t ∷ ts) =
    (IsToken t × (t.distance ≤ length out)) × IsReachable (expand_token out t) ts
