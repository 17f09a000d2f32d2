-- ===== src/Deflate/Tables/Search.antt =====
-- `length_to_code` and `distance_to_code` of C-Deflate/src/bits.c pick the code whose base and extra
-- bits give the value back.
use foundations_lab.Base.{
  ℕ, zero, suc, ◌+◌, ◌-◌, ◌^◌, ◌≤◌, ◌<◌, ◌≡◌, Bool, ◌⊎◌, refl, List, arith, get_or, leb, tests,
  true, Bool-cases, inl, inr, All-get_or, all_below, all_below_sound, if◌then◌else◌, ◌==◌,
}
use foundations_lab.Deflate.Tables.{
  length_base, length_extra, dist_base, dist_extra, scan_down, length_to_code, distance_to_code,
}

-- The code found is the last whose base is at most `x`.
record IsLast (base : List ℕ) (n x c : ℕ) : Type 0 where
  below : c < n
  reached : get_or base c 0 ≤ x
  next : (c + 1 ≡ n) ⊎ (x < get_or base (c + 1) 0)

scan_down_lem :
    (base : List ℕ) (n x : ℕ)
    → get_or base 0 0 ≤ x
    → IsLast base (suc n) x (scan_down base (suc n) x)
unfolding scan_down
scan_down_lem base zero x h = ground arith
scan_down_lem base (suc n) x h = elim (Bool-cases (leb (get_or base (suc n) 0) x)) [
  | inl found ↦
      rw found (record { below = omega arith; reached = omega tests; next = inl (omega arith) })
  | inr lower ↦
      let rest = scan_down_lem base n x h in
      rw lower (record {
        below = omega (arith, rest.below);
        reached = rest.reached;
        next = inr (stays_below _ rest.next (omega tests));
      })
]
  where
    stays_below :
        (c : ℕ)
        → (c + 1 ≡ suc n) ⊎ (x < get_or base (c + 1) 0)
        → x < get_or base (suc n) 0
        → x < get_or base (c + 1) 0
    stays_below c (inl e) k = rw e k
    stays_below c (inr k) _ = k

-- Each base lies at most `2 ^ extra` above the one before, and the last reaches `top`.
abbrev gap : List ℕ → List ℕ → ℕ → ℕ → ℕ → Bool
gap base extra n top c =
    leb (if c + 1 == n then top else get_or base (c + 1) 0) (get_or base c 0 + 2 ^ get_or extra c 0)

-- `c` is a code for `x`: what lies above its base fits its extra bits.
pub record IsCodeOf (base extra : List ℕ) (n x c : ℕ) : Type 0 where
  pub below : c < n
  pub reached : get_or base c 0 ≤ x
  pub fits : x - get_or base c 0 < 2 ^ get_or extra c 0

scan_down-IsCodeOf :
    (base extra : List ℕ) (n top x : ℕ)
    → all_below (suc n) (gap base extra (suc n) top) ≡ true
    → get_or base 0 0 ≤ x
    → x < top
    → IsCodeOf base extra (suc n) x (scan_down base (suc n) x)
scan_down-IsCodeOf base extra n top x table lo hi =
    let last = scan_down_lem base n x lo in
    let c = scan_down base (suc n) x in
    let here = all_below_sound (suc n) (gap base extra (suc n) top) c table last.below in
    record {
      below = last.below;
      reached = last.reached;
      fits = ground (arith, here, last.next, last.reached);
    }

length_table : all_below 29 (gap length_base length_extra 29 259) ≡ true
unfolding all_below
length_table = refl

dist_table : all_below 30 (gap dist_base dist_extra 30 32769) ≡ true
unfolding all_below
dist_table = refl

-- For a length from 3 to 258, `length_to_code` is one of the 29 codes, its base is at most the
-- length, and the rest fits its extra bits.
pub length_to_code-IsCodeOf :
    (n : ℕ) → 3 ≤ n → n ≤ 258 → IsCodeOf length_base length_extra 29 n (length_to_code n)
unfolding length_to_code
length_to_code-IsCodeOf n lo hi =
    scan_down-IsCodeOf length_base length_extra 28 259 n length_table lo (omega arith)

-- For a distance from 1 to 32768, `distance_to_code` is one of the 30 codes, its base is at most
-- the distance, and the rest fits its extra bits.
pub distance_to_code-IsCodeOf :
    (d : ℕ) → 1 ≤ d → d ≤ 32768 → IsCodeOf dist_base dist_extra 30 d (distance_to_code d)
unfolding distance_to_code
distance_to_code-IsCodeOf d lo hi =
    scan_down-IsCodeOf dist_base dist_extra 29 32769 d dist_table lo (omega arith)

-- No extra field is too wide for the bit reader and writer.
pub length_extra_small : (lc : ℕ) → get_or length_extra lc 0 ≤ 24
length_extra_small lc = All-get_or (λ n. n ≤ 24) length_extra lc 0 (ground arith) (omega arith)

pub dist_extra_small : (dc : ℕ) → get_or dist_extra dc 0 ≤ 24
dist_extra_small dc = All-get_or (λ n. n ≤ 24) dist_extra dc 0 (ground arith) (omega arith)
