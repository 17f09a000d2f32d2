-- ===== src/Deflate/Lz77/Match.antt =====
-- `find_match` of C-Deflate/src/deflate.c returns only true matches, whatever the hash chains hold.
use foundations_lab.Base.{
  ℕ, zero, suc, ◌+◌, ◌-◌, ◌^◌, ◌≤◌, ◌<◌, ◌≡◌, ◌≢◌, ◌⊎◌, refl, ap, ◌∙◌, List, arith, length, Option,
  none, some, bit_and, ltb, leb, ◌==◌, ◌&&◌, ◌||◌, not, tests, ==→eq, Bool-cases, inl, inr, false,
}
use foundations_lab.Deflate.Tables.{window_size, min_match}
use foundations_lab.Deflate.Lz77.{
  LevelConfig, Slots, Search, byte, run_length, match_limit, distance_to, examine, search, hash3,
  find_match,
}

-- The entries of an array of `int32_t` that are not negative.
abbrev pub IsInt32 : Slots → Type 0
IsInt32 slots = (i c : ℕ) → slots i ≡ some c → c < 2 ^ 31

-- A match for the bytes at `pos`: from within the window and the input before `pos`, no longer than
-- the format and the input allow.
pub record IsMatchAt (input : List ℕ) (pos len dist : ℕ) : Type 0 where
  pub dist_pos : 1 ≤ dist
  pub dist_window : dist ≤ 32768
  pub dist_pos_le : dist ≤ pos
  pub len_le : len ≤ 258
  pub inside : pos + len ≤ length input
  pub same : (i : ℕ) → i < len → byte input (pos + i) ≡ byte input (pos - dist + i)

module _ (input : List ℕ) (pos : ℕ) where
  -- The run counted so far consists of equal bytes.
  run_length_lem :
      (left candidate len : ℕ)
      → ((i : ℕ) → i < len → byte input (pos + i) ≡ byte input (candidate + i))
      → (len ≤ run_length input left pos candidate len)
        × (run_length input left pos candidate len ≤ len + left)
        × ((i : ℕ)
            → i < run_length input left pos candidate len
            → byte input (pos + i) ≡ byte input (candidate + i))
  unfolding run_length
  run_length_lem zero candidate len same = (omega arith, omega arith, same)
  run_length_lem (suc left) candidate len same =
      elim (Bool-cases (byte input (pos + len) == byte input (candidate + len))) [
        | inl equal ↦
            let longer : (i : ℕ) → i < len + 1 → byte input (pos + i) ≡ byte input (candidate + i) =
              λ i h. elim (Bool-cases (i == len)) [
                | inl last ↦ rw (==→eq i len last) (==→eq _ _ equal)
                | inr before ↦ same i (omega tests)
              ] in
            let (lo, hi, all) = run_length_lem left candidate (len + 1) longer in
            rw equal (omega arith, omega arith, all)
        | inr differs ↦ rw differs (omega arith, omega arith, same)
      ]

  -- The best match so far is none, or a true one.
  abbrev IsBest : Search → Type 0
  IsBest s = (s.best_len ≡ 0) ⊎ IsMatchAt input pos s.best_len s.best_dist

  match_limit_bounds :
      pos ≤ length input
      → (match_limit input pos ≤ 258) × (pos + match_limit input pos ≤ length input)
  unfolding match_limit
  match_limit_bounds h = ground arith

  -- A candidate that passes the tests of the loop lies before `pos`, in the window.
  near :
      (c : ℕ)
      → pos < 2 ^ 64
      → c < 2 ^ 31
      → distance_to pos c ≢ 0
      → distance_to pos c ≤ 32768
      → (c < pos) × (c + distance_to pos c ≡ pos)
  unfolding distance_to
  near c small h ne le = omega arith

  module _ (cfg : LevelConfig) (prev : Slots) (in_range : pos ≤ length input)
      (small : pos < 2 ^ 64) where
    -- The run of equal bytes at a near candidate is a match.
    candidate-IsMatchAt :
        (c : ℕ)
        → c < 2 ^ 31
        → distance_to pos c ≢ 0
        → distance_to pos c ≤ 32768
        → IsMatchAt input pos (run_length input (match_limit input pos) pos c 0) (distance_to pos c)
    candidate-IsMatchAt c h ne le =
        let (before, back) = near c small h ne le in
        let (short, fits) = match_limit_bounds in_range in
        let (_, hi, same) =
          run_length_lem (match_limit input pos) c 0 (λ i k. absurd (omega arith)) in
        let from : c ≡ pos - distance_to pos c = omega arith in
        record {
          dist_pos = omega arith;
          dist_window = le;
          dist_pos_le = omega arith;
          len_le = omega arith;
          inside = omega arith;
          same = λ i k. same i k ∙ ap (λ (t : ℕ). byte input (t + i)) from;
        }

    examine-IsBest :
        (c : ℕ) (s : Search)
        → c < 2 ^ 31
        → distance_to pos c ≢ 0
        → distance_to pos c ≤ 32768
        → IsBest s
        → IsBest (examine input cfg prev pos c s)
    unfolding examine
    examine-IsBest c s h ne le best =
        let len = run_length input (match_limit input pos) pos c 0 in
        let quick =
          ltb 0 s.best_len && not (byte input (pos + s.best_len) == byte input (c + s.best_len)) in
        elim (Bool-cases quick) [
          | inl skipped ↦ rw skipped best
          | inr tried ↦ elim (Bool-cases (ltb s.best_len len)) [
            | inl better ↦ rw (tried, better) (inr (candidate-IsMatchAt c h ne le))
            | inr worse ↦ rw (tried, worse) best
          ]
        ]

    search-IsBest :
        (fuel : ℕ) (candidate : Option ℕ) (s : Search)
        → IsInt32 prev
        → ((c : ℕ) → candidate ≡ some c → c < 2 ^ 31)
        → IsBest s
        → IsBest (search input cfg prev pos fuel candidate s)
    unfolding search
    search-IsBest zero candidate s slots ok best = best
    search-IsBest (suc fuel) none s slots ok best = best
    search-IsBest (suc fuel) (some c) s slots ok best =
        let d = distance_to pos c in
        elim (Bool-cases (s.chain == 0)) [
          | inl ended ↦ rw ended best
          | inr more ↦ elim (Bool-cases (leb (match_limit input pos) s.best_len)) [
            | inl longest ↦ rw (more, longest) best
            | inr shorter ↦ elim (Bool-cases (d == 0 || ltb window_size d)) [
              | inl far ↦ rw (more, shorter, far) best
              | inr within ↦
                  let (ne, le) = in_window d within in
                  rw (more, shorter, within)
                    (search-IsBest fuel (prev (bit_and c (window_size - 1))) _ slots
                      (slots (bit_and c (window_size - 1)))
                      (examine-IsBest c (record s { chain = s.chain - 1 }) (ok c refl) ne le best))
            ]
          ]
        ]
      where
        in_window : (d : ℕ) → (d == 0 || ltb window_size d) ≡ false → (d ≢ 0) × (d ≤ 32768)
        in_window d e = ground arith

-- No match, or one of at least three bytes.
abbrev pub IsFound : List ℕ → ℕ → ℕ × ℕ → Type 0
IsFound input pos found = (found.0 ≡ 0) ⊎ ((3 ≤ found.0) × IsMatchAt input pos found.0 found.1)

-- At a position within an input and below 2 ^ 64, with `int32_t` values in the chains,
-- `find_match` reports no match, or one of 3 to 258 bytes from at most 32768 bytes back that is a
-- true match and ends within the input.
pub find_match-IsFound :
    (input : List ℕ) (cfg : LevelConfig) (head prev : Slots) (pos : ℕ)
    → IsInt32 head
    → IsInt32 prev
    → pos ≤ length input
    → pos < 2 ^ 64
    → IsFound input pos (find_match input cfg head prev pos)
unfolding find_match
find_match-IsFound input cfg head prev pos heads prevs in_range small =
    elim (Bool-cases (ltb (match_limit input pos) min_match)) [
      | inl no_room ↦ rw no_room (inl refl)
      | inr room ↦ elim (Bool-cases (leb min_match s.best_len)) [
        | inl long ↦ rw (room, long) (true_match (omega tests) best)
        | inr short ↦ rw (room, short) (inl refl)
      ]
    ]
  where
    start : Search
    start = record { chain = cfg.max_chain; best_len = 0; best_dist = 0 }

    s : Search
    s = search input cfg prev pos cfg.max_chain (head (hash3 input pos)) start

    best : (s.best_len ≡ 0) ⊎ IsMatchAt input pos s.best_len s.best_dist
    best =
        search-IsBest input pos cfg prev in_range small cfg.max_chain (head (hash3 input pos)) start
          prevs (heads (hash3 input pos)) (inl refl)

    true_match :
        3 ≤ s.best_len
        → (s.best_len ≡ 0) ⊎ IsMatchAt input pos s.best_len s.best_dist
        → IsFound input pos (s.best_len, s.best_dist)
    true_match h (inl none_found) = inl none_found
    true_match h (inr found) = inr (h, found)
