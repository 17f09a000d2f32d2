-- ===== src/Deflate/Lz77.antt =====
-- C-Deflate/src/deflate.c: the hash chains, the match search and the parse into tokens.
-- The input is a list of bytes. `head` and `prev` are arrays of `int32_t`; a negative entry only ever
-- ends the walk along a chain, so every negative value is `none`.
pub mod Match
pub mod Parse
pub mod Expand
mod Tests
use foundations_lab.Base.{
  ℕ, zero, suc, ◌+◌, ◌-◌, ◌*◌, ◌/◌, ◌%◌, ◌^◌, bit_and, bit_xor, Bool, true, false, ◌&&◌, ◌||◌, not,
  List, [], ◌∷◌, ◌++◌, Option, none, some, length, get_or, ltb, leb, ◌==◌, if◌then◌else◌,
}
use foundations_lab.Deflate.Tables.{window_size, min_match, max_match}
use foundations_lab.Deflate.Huffman.{u16}
use foundations_lab.Deflate.Window.{Token}

pub record LevelConfig : Type 0 where
  pub good_length : ℕ
  pub max_chain : ℕ
  pub lazy : Bool

abbrev config : ℕ → ℕ → Bool → LevelConfig
config good chain lazy = record { good_length = good; max_chain = chain; lazy = lazy }

abbrev pub levels : List LevelConfig
levels =
    config 0 0 false
    ∷ config 4 4 false
    ∷ config 4 8 false
    ∷ config 4 32 false
    ∷ config 4 16 true
    ∷ config 8 32 true
    ∷ config 8 128 true
    ∷ config 8 256 true
    ∷ config 32 1024 true
    ∷ config 32 4096 true
    ∷ []

abbrev pub Slots : Type 0
Slots = ℕ → Option ℕ

-- `(int32_t)pos`
abbrev pub to_int32 : ℕ → Option ℕ
to_int32 pos = let w = pos % 2 ^ 32 in if ltb w (2 ^ 31) then some w else none

abbrev pub write_slot : Slots → ℕ → Option ℕ → Slots
write_slot slots i v j = if i == j then v else slots j

-- The walk along a chain: what is left of the count, and the best match so far.
pub record Search : Type 0 where
  pub chain : ℕ
  pub best_len : ℕ
  pub best_dist : ℕ

-- `size_t distance = pos - candidate;` wraps.
unfoldable pub distance_to : ℕ → ℕ → ℕ
distance_to pos candidate = (pos + 2 ^ 64 - candidate) % 2 ^ 64

module _ (input : List ℕ) where
  abbrev pub byte : ℕ → ℕ
  byte i = get_or input i 0

  unfoldable pub hash3 : ℕ → ℕ
  hash3 p =
      bit_and (bit_xor (bit_xor (byte p * 2 ^ 10) (byte (p + 1) * 2 ^ 5)) (byte (p + 2)))
        (2 ^ 15 - 1)

  -- `while (len < max_len && a[len] == b[len]) len++;` with `left` bytes up to `max_len`.
  unfoldable pub run_length : ℕ → ℕ → ℕ → ℕ → ℕ
  run_length zero pos candidate len = len
  run_length (suc left) pos candidate len =
      let rest = run_length left pos candidate (len + 1) in
      if byte (pos + len) == byte (candidate + len) then rest else len

  -- `max_len` of `find_match`, which is called only where three bytes are left.
  unfoldable pub match_limit : ℕ → ℕ
  match_limit pos =
      let max_len = length input - pos in if ltb max_match max_len then max_match else max_len

  module _ (cfg : LevelConfig) (prev : Slots) (pos : ℕ) where
    -- One candidate that is near enough: the quick test of the byte that would extend the best match,
    -- then the run. `chain` has already gone down by one.
    unfoldable pub examine : ℕ → Search → Search
    examine candidate s =
        let len = run_length (match_limit pos) pos candidate 0 in
        if ltb 0 s.best_len && not (byte (pos + s.best_len) == byte (candidate + s.best_len))
        then s
        else if ltb s.best_len len
        then record {
          chain = if leb cfg.good_length len then s.chain / 2 ^ 2 else s.chain;
          best_len = len;
          best_dist = distance_to pos candidate;
        }
        else s

    -- The loop `while (candidate >= 0 && chain-- > 0)`. A round takes one from `chain` at least, so
    -- `max_chain` rounds do.
    unfoldable pub search : ℕ → Option ℕ → Search → Search
    search zero candidate s = s
    search (suc fuel) none s = s
    search (suc fuel) (some candidate) s =
        let d = distance_to pos candidate in
        let s' = examine candidate (record s { chain = s.chain - 1 }) in
        let rest = search fuel (prev (bit_and candidate (window_size - 1))) s' in
        if s.chain == 0
        then s
        else if leb (match_limit pos) s.best_len
        then s
        else if d == 0 || ltb window_size d
        then s
        else rest

  -- The length and the distance; the length is 0 where no match is found.
  unfoldable pub find_match : LevelConfig → Slots → Slots → ℕ → ℕ × ℕ
  find_match cfg head prev pos =
      let start : Search = record { chain = cfg.max_chain; best_len = 0; best_dist = 0 } in
      let s = search cfg prev pos cfg.max_chain (head (hash3 pos)) start in
      if ltb (match_limit pos) min_match
      then (0, 0)
      else if leb min_match s.best_len
      then (s.best_len, s.best_dist)
      else (0, 0)

pub record Chains : Type 0 where
  pub head : Slots
  pub prev : Slots

pub record ParseState : Type 0 where
  pub chains : Chains
  pub tokens : List Token
  pub pos : ℕ
  pub have_prev : Bool
  pub prev_len : ℕ
  pub prev_dist : ℕ
  pub prev_pos : ℕ

abbrev pub literal_token : ℕ → Token
literal_token b = record { length = 0; distance = 0; literal = b }

abbrev pub match_token : ℕ → ℕ → Token
match_token len dist = record { length = u16 len; distance = u16 dist; literal = 0 }

module _ (input : List ℕ) where
  -- `prev[k & (WINDOW_SIZE - 1)] = head[h]; head[h] = (int32_t)k;`
  unfoldable pub insert : ℕ → Chains → Chains
  insert k c =
      let h = hash3 input k in
      record {
        prev = write_slot c.prev (bit_and k (window_size - 1)) (c.head h);
        head = write_slot c.head h (to_int32 k);
      }

  -- `for (; k < end && k + MIN_MATCH <= in_len; k++)` with `left` positions up to `end`.
  unfoldable pub insert_run : ℕ → ℕ → Chains → Chains
  insert_run zero k c = c
  insert_run (suc left) k c =
      let rest = insert_run left (k + 1) (insert k c) in
      if leb (k + min_match) (length input) then rest else c

  module _ (cfg : LevelConfig) where
    -- The branch for levels that do not defer.
    unfoldable pub step_greedy : ParseState → ℕ → ℕ → ParseState
    step_greedy s len dist =
        if leb min_match len
        then record s {
          tokens = s.tokens ++ (match_token len dist ∷ []);
          chains = insert_run (len - 1) (s.pos + 1) s.chains;
          pos = s.pos + len;
        }
        else record s {
          tokens = s.tokens ++ (literal_token (byte input s.pos) ∷ []);
          pos = s.pos + 1;
        }

    -- The branches that hold a match back by one byte.
    unfoldable pub step_lazy : ParseState → ℕ → ℕ → ParseState
    step_lazy s len dist =
        if s.have_prev
        then (if ltb s.prev_len len
            then record s {
              tokens = s.tokens ++ (literal_token (byte input s.prev_pos) ∷ []);
              have_prev = true;
              prev_len = len;
              prev_dist = dist;
              prev_pos = s.pos;
              pos = s.pos + 1;
            }
            else let end = s.prev_pos + s.prev_len in
              record s {
                tokens = s.tokens ++ (match_token s.prev_len s.prev_dist ∷ []);
                chains = insert_run (end - (s.pos + 1)) (s.pos + 1) s.chains;
                pos = end;
                have_prev = false;
                prev_len = 0;
              })
        else if leb min_match len
        then record s {
          have_prev = true;
          prev_len = len;
          prev_dist = dist;
          prev_pos = s.pos;
          pos = s.pos + 1;
        }
        else record s {
          tokens = s.tokens ++ (literal_token (byte input s.pos) ∷ []);
          pos = s.pos + 1;
        }

    -- One round of the loop of `lz77_parse`: the search, the insertion, then the branch.
    unfoldable pub step : ParseState → ParseState
    step s =
        let here = leb (s.pos + min_match) (length input) in
        let found =
          if here then find_match input cfg s.chains.head s.chains.prev s.pos else (0, 0) in
        let s' = record s { chains = if here then insert s.pos s.chains else s.chains } in
        if cfg.lazy then step_lazy s' found.0 found.1 else step_greedy s' found.0 found.1

    -- `while (pos < in_len)`; a round moves `pos` on, so `in_len` rounds do.
    unfoldable pub parse_loop : ℕ → ParseState → ParseState
    parse_loop zero s = s
    parse_loop (suc fuel) s =
        let rest = parse_loop fuel (step s) in if ltb s.pos (length input) then rest else s

abbrev blank_head : Slots
blank_head i = none

-- `memory` says whether `malloc` gives both arrays, and `prev` is what the second holds at first.
unfoldable pub lz77_parse : List ℕ → ℕ → Bool → Slots → Option (List Token)
lz77_parse input level memory prev =
    let cfg = get_or levels level (record { good_length = 0; max_chain = 0; lazy = false }) in
    let start : ParseState = record {
      chains = record { head = blank_head; prev = prev };
      tokens = [];
      pos = 0;
      have_prev = false;
      prev_len = 0;
      prev_dist = 0;
      prev_pos = 0;
    } in
    let s = parse_loop input cfg (length input) start in
    if memory
    then some
        (if s.have_prev then s.tokens ++ (match_token s.prev_len s.prev_dist ∷ []) else s.tokens)
    else none
