-- ===== src/Deflate/Pack/Unpack.antt =====
-- What the symbols of `pack_code_lengths` of C-Deflate/src/deflate.c stand for: the code lengths.
use foundations_lab.Base.{
  ℕ, zero, suc, ◌+◌, ◌-◌, ◌≤◌, ◌<◌, ◌≡◌, ◌≢◌, ne→==, refl, subst, sym, ap, ◌∙◌, arith, List, [],
  ◌∷◌, ◌++◌, append_assoc, append-nil, length, length-append, get_or, replicate, drop, All, ltb,
  leb, lt→ltb, ◌==◌, ==→eq, ==→ne, length-drop, if◌then◌else◌, Bool-cases, inl, inr, tests,
}
use foundations_lab.Deflate.Huffman.Count.{IsLength}
use foundations_lab.Deflate.Pack.{run_from, pack_runs, pack_run, pack_loop, pack_code_lengths}
use foundations_lab.Deflate.Pack.Sent.{CanBeSent, All-drop, pack_loop-CanBeSent}

-- The run that a symbol with its extra value adds behind `done` (RFC 1951, 3.2.7).
unfoldable pub run_of : ℕ → ℕ → List ℕ → List ℕ
run_of symbol extra done =
    if ltb symbol 16
    then symbol ∷ []
    else if symbol == 16
    then replicate (3 + extra) (get_or done (length done - 1) 0)
    else if symbol == 17
    then replicate (3 + extra) 0
    else replicate (11 + extra) 0

unfoldable pub unpack : List (ℕ × ℕ) → List ℕ → List ℕ
unfolding run_of
unpack [] done = done
unpack ((symbol, extra) ∷ rest) done = unpack rest (done ++ run_of symbol extra done)

unpack-append :
    (xs ys : List (ℕ × ℕ)) (done : List ℕ) → unpack (xs ++ ys) done ≡ unpack ys (unpack xs done)
unfolding unpack
unpack-append [] ys done = refl
unpack-append ((s, e) ∷ xs) ys done = unpack-append xs ys (done ++ run_of s e done)

replicate-add : (a b v : ℕ) → replicate (a + b) v ≡ replicate a v ++ replicate b v
replicate-add zero b v = ap (λ (n : ℕ). replicate n v) {x = zero + b} {y = b} (omega arith)
replicate-add (suc a) b v =
    ap (λ (n : ℕ). replicate n v) {x = suc a + b} {y = suc (a + b)} (omega arith)
    ∙ ap (λ (t : List ℕ). v ∷ t) (replicate-add a b v)

behind :
    (done : List ℕ) (a b v : ℕ)
    → (done ++ replicate a v) ++ replicate b v ≡ done ++ replicate (a + b) v
behind done a b v =
    append_assoc done (replicate a v) (replicate b v)
    ∙ ap (λ (t : List ℕ). done ++ t) (sym (replicate-add a b v))

-- Symbols below 16 stand for themselves.
unpack-literals :
    (n v : ℕ) (done : List ℕ) → v < 16 → unpack (replicate n (v, 0)) done ≡ done ++ replicate n v
unfolding unpack run_of
unpack-literals zero v done h = sym (append-nil done)
unpack-literals (suc n) v done h =
    rw (unpack, lt→ltb v 16 h)
      (unpack-literals n v (done ++ (v ∷ [])) h ∙ append_assoc done (v ∷ []) (replicate n v))

-- What a loop of `pack_code_lengths` writes for runs of `v`, where the symbol means this at `IsFit`.
module _ (low high symbol v : ℕ) (IsFit : List ℕ → Type 0)
    (rule : (extra : ℕ) (done : List ℕ)
      → IsFit done
      → run_of symbol extra done ≡ replicate (low + extra) v)
    (keeps : (n : ℕ) (done : List ℕ) → IsFit done → IsFit (done ++ replicate n v))
    (low_pos : 1 ≤ low) (low_le : low ≤ high) where
  pack_runs_lem :
      (fuel run : ℕ) (done : List ℕ)
      → IsFit done
      → unpack (pack_runs fuel low high symbol run).0 done
          ≡ done ++ replicate (run - (pack_runs fuel low high symbol run).1) v
        × ((pack_runs fuel low high symbol run).1 ≤ run)
  unfolding pack_runs unpack
  pack_runs_lem zero run done fit = (nothing, omega arith)
    where
      nothing : done ≡ done ++ replicate (run - run) v
      nothing =
          sym (append-nil done)
          ∙ ap (λ (n : ℕ). done ++ replicate n v) {x = 0} {y = run - run} (omega arith)
  pack_runs_lem (suc fuel) run done fit = elim (Bool-cases (leb low run)) [
    | inr short ↦ rw short (
      sym (append-nil done)
          ∙ ap (λ (n : ℕ). done ++ replicate n v) {x = 0} {y = run - run} (omega arith),
      omega arith,
    )
    | inl long ↦
        let taken = if ltb high run then high else run in
        let taken_lo : low ≤ taken = taken_at_least (omega tests) in
        let taken_hi : taken ≤ run = taken_at_most in
        let left = (pack_runs fuel low high symbol (run - taken)).1 in
        let (rest, rest_le) =
          pack_runs_lem fuel (run - taken) (done ++ replicate taken v) (keeps taken done fit) in
        let here : run_of symbol (taken - low) done ≡ replicate taken v =
          rule (taken - low) done fit ∙ ap (λ (n : ℕ). replicate n v) (omega arith) in
        rw long (
          ap (λ (t : List ℕ). unpack (pack_runs fuel low high symbol (run - taken)).0 (done ++ t))
                here
              ∙ rest
              ∙ behind done taken (run - taken - left) v
              ∙ ap (λ (n : ℕ). done ++ replicate n v) {x = taken + (run - taken - left)}
                  (omega arith),
          omega arith,
        )
  ]
    where
      taken_at_least : low ≤ run → low ≤ (if ltb high run then high else run)
      taken_at_least h = ground arith

      taken_at_most : (if ltb high run then high else run) ≤ run
      taken_at_most = ground arith

zeros_rule_long : (extra : ℕ) (done : List ℕ) → run_of 18 extra done ≡ replicate (11 + extra) 0
unfolding run_of
zeros_rule_long extra done = refl

zeros_rule_short : (extra : ℕ) (done : List ℕ) → run_of 17 extra done ≡ replicate (3 + extra) 0
unfolding run_of
zeros_rule_short extra done = refl

-- The last entry is `v`, for the symbol 16.
abbrev EndsIn : ℕ → List ℕ → Type 0
EndsIn v done = get_or done (length done - 1) 0 ≡ v × (0 < length done)

repeat_rule :
    (v extra : ℕ) (done : List ℕ) → EndsIn v done → run_of 16 extra done ≡ replicate (3 + extra) v
unfolding run_of
repeat_rule v extra done (last, _) = ap (replicate (3 + extra)) last

last_behind : (done : List ℕ) (v : ℕ) → EndsIn v (done ++ (v ∷ []))
last_behind done v = (at_end done, omega (arith, length-append done (v ∷ [])))
  where
    at_end : (xs : List ℕ) → get_or (xs ++ (v ∷ [])) (length (xs ++ (v ∷ [])) - 1) 0 ≡ v
    at_end [] = refl
    at_end (x ∷ []) = refl
    at_end (x ∷ y ∷ ys) =
        ap (λ (i : ℕ). get_or (x ∷ y ∷ ys ++ (v ∷ [])) i 0)
          {x = length (x ∷ y ∷ ys ++ (v ∷ [])) - 1} {y = suc (length (y ∷ ys ++ (v ∷ [])) - 1)}
          (omega arith)
        ∙ at_end (y ∷ ys)

EndsIn-replicate : (v n : ℕ) (done : List ℕ) → EndsIn v done → EndsIn v (done ++ replicate n v)
EndsIn-replicate v zero done h = rw (append-nil done) h
EndsIn-replicate v (suc n) done h =
    subst (EndsIn v) (append_assoc done (v ∷ []) (replicate n v))
      (EndsIn-replicate v n (done ++ (v ∷ [])) (last_behind done v))

-- The symbols of a run of zeros, and of a run of another length.
unpack-zero_run : (run : ℕ) (done : List ℕ) → unpack (pack_run 0 run) done ≡ done ++ replicate run 0
unfolding pack_run
unpack-zero_run run done =
    let (long, left) = pack_runs run 11 138 18 run in
    let (short, ones) = pack_runs left 3 10 17 left in
    let (one, one_le) =
      pack_runs_lem 11 138 18 0 (λ t. Unit) (λ e t u. zeros_rule_long e t) (λ n t u. tt)
        (omega arith) (omega arith) run run done tt in
    let done1 = done ++ replicate (run - left) 0 in
    let (two, two_le) =
      pack_runs_lem 3 10 17 0 (λ t. Unit) (λ e t u. zeros_rule_short e t) (λ n t u. tt)
        (omega arith) (omega arith) left left done1 tt in
    let done2 = done1 ++ replicate (left - ones) 0 in
    unpack-append long (short ++ replicate ones (0, 0)) done
    ∙ ap (unpack (short ++ replicate ones (0, 0))) one
    ∙ unpack-append short (replicate ones (0, 0)) done1
    ∙ ap (unpack (replicate ones (0, 0))) two
    ∙ unpack-literals ones 0 done2 (omega arith)
    ∙ ap (λ (t : List ℕ). t ++ replicate ones 0) (behind done (run - left) (left - ones) 0)
    ∙ behind done (run - left + (left - ones)) ones 0
    ∙ ap (λ (n : ℕ). done ++ replicate n 0) {x = run - left + (left - ones) + ones} {y = run}
        (omega arith)

pack_run-repeat :
    (v more : ℕ)
    → v ≢ 0
    → pack_run v (suc more)
      ≡ (v, 0) ∷ ((pack_runs more 3 6 16 more).0 ++ replicate (pack_runs more 3 6 16 more).1 (v, 0))
unfolding pack_run
pack_run-repeat v more used = rw (ne→== v 0 used) (
    ap (λ (r : ℕ). (v, 0) ∷ ((pack_runs r 3 6 16 r).0 ++ replicate (pack_runs r 3 6 16 r).1 (v, 0)))
      {x = suc more - 1} {y = more} (omega arith))

literal_run : (v extra : ℕ) (done : List ℕ) → v < 16 → run_of v extra done ≡ v ∷ []
unfolding run_of
literal_run v extra done h = rw (lt→ltb v 16 h) refl

unpack-repeat_run :
    (v more : ℕ) (done : List ℕ)
    → v ≢ 0
    → v ≤ 15
    → unpack (pack_run v (suc more)) done ≡ done ++ replicate (suc more) v
unfolding unpack
unpack-repeat_run v more done used small =
    let (repeats, ones) = pack_runs more 3 6 16 more in
    let done1 = done ++ (v ∷ []) in
    let (one, one_le) =
      pack_runs_lem 3 6 16 v (EndsIn v) (repeat_rule v) (EndsIn-replicate v) (omega arith)
        (omega arith) more more done1 (last_behind done v) in
    let all : unpack (repeats ++ replicate ones (v, 0)) done1 ≡ done ++ replicate (suc more) v =
      unpack-append repeats (replicate ones (v, 0)) done1
      ∙ ap (unpack (replicate ones (v, 0))) one
      ∙ unpack-literals ones v (done1 ++ replicate (more - ones) v) (omega arith)
      ∙ behind done1 (more - ones) ones v
      ∙ ap (λ (n : ℕ). done1 ++ replicate n v) {x = more - ones + ones} {y = more} (omega arith)
      ∙ append_assoc done (v ∷ []) (replicate more v) in
    ap (λ (s : List (ℕ × ℕ)). unpack s done) (pack_run-repeat v more used)
    ∙ ap (λ (r : List ℕ). unpack (repeats ++ replicate ones (v, 0)) (done ++ r))
        (literal_run v 0 done (omega arith))
    ∙ all

unpack-pack_run :
    (v more : ℕ) (done : List ℕ)
    → v ≤ 15
    → unpack (pack_run v (suc more)) done ≡ done ++ replicate (suc more) v
unpack-pack_run v more done small = elim (Bool-cases (v == 0)) [
  | inl unused ↦ rw (==→eq v 0 unused) (unpack-zero_run (suc more) done)
  | inr used ↦ unpack-repeat_run v more done (==→ne v 0 used) small
]

run_from-replicate :
    (v : ℕ) (xs : List ℕ) → replicate (run_from v xs) v ++ drop (run_from v xs) xs ≡ xs
unfolding run_from
run_from-replicate v [] = refl
run_from-replicate v (x ∷ xs) = elim (Bool-cases (x == v)) [
  | inl same ↦ rw (same, ==→eq x v same) (ap (λ (t : List ℕ). v ∷ t) (run_from-replicate v xs))
  | inr other ↦ rw other refl
]

pack_loop_lem :
    (fuel : ℕ) (ls done : List ℕ)
    → length ls ≤ fuel
    → All IsLength ls
    → unpack (pack_loop fuel ls) done ≡ done ++ ls
unfolding pack_loop unpack
pack_loop_lem zero [] done enough small = sym (append-nil done)
pack_loop_lem zero (x ∷ ls) done enough small = absurd (omega arith)
pack_loop_lem (suc fuel) [] done enough small = sym (append-nil done)
pack_loop_lem (suc fuel) (x ∷ ls) done enough small =
    let more = run_from x ls in
    let later = drop more ls in
    unpack-append (pack_run x (suc more)) (pack_loop fuel later) done
    ∙ ap (unpack (pack_loop fuel later)) (unpack-pack_run x more done small.0)
    ∙ pack_loop_lem fuel later (done ++ replicate (suc more) x) (omega (arith, length-drop more ls))
        (All-drop more ls small.1)
    ∙ append_assoc done (replicate (suc more) x) later
    ∙ ap (λ (t : List ℕ). done ++ (x ∷ t)) (run_from-replicate x ls)

-- On code lengths of at most 15, every symbol of `pack_code_lengths` is at most 18 with an extra
-- value that its extra bits hold (2 bits for 16, 3 for 17, 7 for 18, none for the others), and the
-- symbols and extra values, each read as the run that the format gives it, make up exactly the
-- code lengths.
pub unpack-pack_code_lengths :
    (ls : List ℕ)
    → All IsLength ls
    → All CanBeSent (pack_code_lengths ls) × (unpack (pack_code_lengths ls) [] ≡ ls)
unfolding pack_code_lengths
unpack-pack_code_lengths ls small =
    (pack_loop-CanBeSent (length ls) ls small, pack_loop_lem (length ls) ls [] (omega arith) small)
