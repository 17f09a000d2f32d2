-- ===== src/Deflate/Lz77/Expand.antt =====
-- `lz77_parse` of C-Deflate/src/deflate.c as a whole: its loop ends, and the decoder makes the input
-- again out of the tokens.
use foundations_lab.Base.{
  ℕ, zero, suc, ◌+◌, ◌^◌, ◌≤◌, ◌<◌, ◌≡◌, ◌⊎◌, refl, ◌∙◌, sym, List, [], arith, get_or, length,
  take_all, Option, some, ltb, leb, if◌then◌else◌, tests, Bool-cases, inl, inr, true, false, Bool,
  false≢true,
}
use foundations_lab.Deflate.Tables.{min_match}
use foundations_lab.Deflate.Window.{Token, expand, IsReachable}
use foundations_lab.Deflate.Lz77.{
  LevelConfig, Slots, byte, find_match, ParseState, insert, step_greedy, step_lazy, step,
  parse_loop, lz77_parse, levels, blank_head,
}
use foundations_lab.Deflate.Lz77.Match.{IsInt32, IsFound, find_match-IsFound}
use foundations_lab.Deflate.Lz77.Parse.{
  IsSound, insert-IsSound, IsAt, settled, held, IsParsed, step_greedy-IsParsed, step_lazy-IsParsed,
  settled_prefix,
}

module _ (input : List ℕ) (bytes : (i : ℕ) → byte input i < 256) (small : length input < 2 ^ 64)
    (cfg : LevelConfig) where
  -- The search and the insertion of one round.
  found_at : ParseState → ℕ × ℕ
  found_at s =
      if leb (s.pos + min_match) (length input)
      then find_match input cfg s.chains.head s.chains.prev s.pos
      else (0, 0)

  found_at-IsFound : (s : ParseState) → IsParsed input cfg.lazy s → IsFound input s.pos (found_at s)
  unfolding found_at
  found_at-IsFound s inv = elim (Bool-cases (leb (s.pos + min_match) (length input))) [
    | inl here ↦ rw here (
        find_match-IsFound input cfg s.chains.head s.chains.prev s.pos inv.sound.0 inv.sound.1
          inv.in_range (omega arith))
    | inr tail ↦ rw tail (inl refl)
  ]

  -- The state that the branches see: the chains hold `pos` already.
  inserted : ParseState → ParseState
  inserted s = record s {
    chains =
        if leb (s.pos + min_match) (length input) then insert input s.pos s.chains else s.chains;
  }

  inserted-IsParsed :
      (s : ParseState) → IsParsed input cfg.lazy s → IsParsed input cfg.lazy (inserted s)
  unfolding inserted
  inserted-IsParsed s inv = record {
    sound = sound_after;
    in_range = inv.in_range;
    tokens = inv.tokens;
    place = place_after inv.place;
    undeferred = inv.undeferred;
  }
    where
      sound_after : IsSound (inserted s).chains
      sound_after = elim (Bool-cases (leb (s.pos + min_match) (length input))) [
        | inl here ↦ rw here (insert-IsSound input s.pos s.chains inv.sound)
        | inr tail ↦ rw tail inv.sound
      ]

      place_after : IsAt input s → IsAt input (inserted s)
      place_after (settled off e) = settled off e
      place_after (held on e next lo m) = held on e next lo m

  -- The branch that a round takes.
  step_when_lazy :
      (s : ParseState)
      → cfg.lazy ≡ true
      → step input cfg s ≡ step_lazy input cfg (inserted s) (found_at s).0 (found_at s).1
  unfolding step found_at inserted
  step_when_lazy s lazy = simp lazy

  step_when_greedy :
      (s : ParseState)
      → cfg.lazy ≡ false
      → step input cfg s ≡ step_greedy input cfg (inserted s) (found_at s).0 (found_at s).1
  unfolding step found_at inserted
  step_when_greedy s greedy = simp greedy

  step-IsParsed :
      (s : ParseState)
      → IsParsed input cfg.lazy s
      → s.pos < length input
      → IsParsed input cfg.lazy (step input cfg s)
  unfolding inserted
  step-IsParsed s inv more = elim (Bool-cases cfg.lazy) [
    | inl lazy ↦ rw (step_when_lazy s lazy) (
        step_lazy-IsParsed input bytes cfg (inserted s) (found_at s).0 (found_at s).1 lazy
          (inserted-IsParsed s inv) more (found_at-IsFound s inv))
    | inr greedy ↦ rw (step_when_greedy s greedy) (
        step_greedy-IsParsed input bytes cfg (inserted s) (found_at s).0 (found_at s).1
          (inserted-IsParsed s inv) (not_deferred greedy inv.undeferred) more
          (found_at-IsFound s inv))
  ]
    where
      not_deferred :
          cfg.lazy ≡ false → (cfg.lazy ≡ true) ⊎ (s.have_prev ≡ false) → s.have_prev ≡ false
      not_deferred h (inl k) = absurd (false≢true (sym h ∙ k))
      not_deferred h (inr k) = k

  greedy_advances : (s : ParseState) (len dist : ℕ) → s.pos < (step_greedy input cfg s len dist).pos
  unfolding step_greedy
  greedy_advances s len dist = ground arith

  lazy_advances :
      (s : ParseState) (len dist : ℕ) → IsAt input s → s.pos < (step_lazy input cfg s len dist).pos
  unfolding step_lazy
  lazy_advances s len dist (settled off e) = ground arith
  lazy_advances s len dist (held on e next lo m) = ground arith

  step_advances : (s : ParseState) → IsParsed input cfg.lazy s → s.pos < (step input cfg s).pos
  unfolding inserted
  step_advances s inv = elim (Bool-cases cfg.lazy) [
    | inl lazy ↦
        rw (step_when_lazy s lazy)
          (lazy_advances (inserted s) (found_at s).0 (found_at s).1 (inserted-IsParsed s inv).place)
    | inr greedy ↦
        rw (step_when_greedy s greedy) (greedy_advances (inserted s) (found_at s).0 (found_at s).1)
  ]

  -- With a round for each byte left, the loop ends at the end of the input.
  parse_loop_lem :
      (fuel : ℕ) (s : ParseState)
      → IsParsed input cfg.lazy s
      → length input ≤ s.pos + fuel
      → IsParsed input cfg.lazy (parse_loop input cfg fuel s)
        × ((parse_loop input cfg fuel s).pos ≡ length input)
  unfolding parse_loop
  parse_loop_lem zero s inv enough = (inv, omega (arith, inv.in_range))
  parse_loop_lem (suc fuel) s inv enough = elim (Bool-cases (ltb s.pos (length input))) [
    | inl more ↦ rw more (
        parse_loop_lem fuel (step input cfg s) (step-IsParsed s inv (omega tests))
          (omega (arith, step_advances s inv)))
    | inr ended ↦ rw ended (inv, omega (tests, inv.in_range))
  ]

-- At the end no match is held back, so the code behind the loop of `lz77_parse` emits nothing.
end_settled :
    (input : List ℕ) (lazy : Bool) (s : ParseState)
    → IsParsed input lazy s
    → s.pos ≡ length input
    → s.have_prev ≡ false
end_settled input lazy s inv ended = by_place inv.place
  where
    by_place : IsAt input s → s.have_prev ≡ false
    by_place (settled off e) = off
    by_place (held on e next lo m) = absurd (omega (arith, m.inside))

abbrev config_at : ℕ → LevelConfig
config_at level = get_or levels level (record { good_length = 0; max_chain = 0; lazy = false })

abbrev start : Slots → ParseState
start prev = record {
  chains = record { head = blank_head; prev = prev };
  tokens = [];
  pos = 0;
  have_prev = false;
  prev_len = 0;
  prev_dist = 0;
  prev_pos = 0;
}

blank-IsInt32 : IsInt32 blank_head
blank-IsInt32 i c e = cc

start-IsParsed :
    (input : List ℕ) (lazy : Bool) (prev : Slots) → IsInt32 prev → IsParsed input lazy (start prev)
unfolding expand
start-IsParsed input lazy prev slots = record {
  sound = (blank-IsInt32, slots);
  in_range = omega arith;
  tokens = tt;
  place = settled refl refl;
  undeferred = inr refl;
}

-- What `lz77_parse` returns on an input that fits the address space, when memory is given.
pub record IsParseOf (input : List ℕ) (result : Option (List Token)) : Type 0 where
  pub tokens : List Token
  pub returned : result ≡ some tokens
  pub legal : IsReachable [] tokens
  pub expands : expand [] tokens ≡ input

-- With memory given, on an input of bytes shorter than 2 ^ 64 and with `int32_t` values in the
-- second array, `lz77_parse` returns at every level tokens that can be said, that reach back no
-- further than the output before them, and that expand to the input.
pub lz77_parse-IsParseOf :
    (input : List ℕ) (level : ℕ) (prev : Slots)
    → ((i : ℕ) → byte input i < 256)
    → length input < 2 ^ 64
    → IsInt32 prev
    → IsParseOf input (lz77_parse input level true prev)
unfolding lz77_parse
lz77_parse-IsParseOf input level prev bytes small slots =
    let cfg = config_at level in
    let s = parse_loop input cfg (length input) (start prev) in
    let (inv, ended) =
      parse_loop_lem input bytes small cfg (length input) (start prev)
        (start-IsParsed input cfg.lazy prev slots) (omega arith) in
    let off = end_settled input cfg.lazy s inv ended in
    record {
      tokens = s.tokens;
      returned = rw off;
      legal = inv.tokens;
      expands = settled_prefix input s inv.place off ∙ take_all s.pos input (omega arith);
    }
