-- ===== src/Deflate/Lz77/Tests.antt =====
-- Runs of the LZ77 parse.
use foundations_lab.Base.{
  ℕ, ◌<◌, arith, All, All-get_or, false, ◌≡◌, refl, List, [], ◌∷◌, true, some, none,
}
use foundations_lab.Deflate.Lz77.Match.{IsInt32, IsFound, find_match-IsFound}
use foundations_lab.Deflate.Lz77.Expand.{IsParseOf, lz77_parse-IsParseOf}
use foundations_lab.Deflate.Lz77.{
  LevelConfig, Slots, distance_to, hash3, run_length, match_limit, examine, search, find_match,
  insert, insert_run, step_greedy, step_lazy, step, parse_loop, lz77_parse, literal_token,
  match_token,
}

abbrev no_slots : Slots
no_slots i = none

abbrev abcabcabc : List ℕ
abcabcabc = 97 ∷ 98 ∷ 99 ∷ 97 ∷ 98 ∷ 99 ∷ 97 ∷ 98 ∷ 99 ∷ []

greedy_run :
    lz77_parse abcabcabc 1 true no_slots
    ≡ some (literal_token 97 ∷ literal_token 98 ∷ literal_token 99 ∷ match_token 6 3 ∷ [])
unfolding distance_to hash3 run_length match_limit examine search find_match insert insert_run
    step_greedy step_lazy step parse_loop lz77_parse
greedy_run = refl

lazy_run :
    lz77_parse abcabcabc 6 true no_slots
    ≡ some (literal_token 97 ∷ literal_token 98 ∷ literal_token 99 ∷ match_token 6 3 ∷ [])
unfolding distance_to hash3 run_length match_limit examine search find_match insert insert_run
    step_greedy step_lazy step parse_loop lz77_parse
lazy_run = refl

no_slots-IsInt32 : IsInt32 no_slots
no_slots-IsInt32 i c e = cc

abc_bytes : All (λ b. b < 256) abcabcabc
abc_bytes = ground arith

lz77_parse-IsParseOf_example : IsParseOf abcabcabc (lz77_parse abcabcabc 9 true no_slots)
lz77_parse-IsParseOf_example =
    lz77_parse-IsParseOf abcabcabc 9 no_slots
      (λ i. All-get_or (λ b. b < 256) abcabcabc i 0 abc_bytes (omega arith)) (omega arith)
      no_slots-IsInt32

abbrev at_start : Slots
at_start i = some 0

at_start-IsInt32 : IsInt32 at_start
at_start-IsInt32 i c e = ground arith

abbrev deep : LevelConfig
deep = record { good_length = 32; max_chain = 4; lazy = false }

find_match-IsFound_example : IsFound abcabcabc 3 (find_match abcabcabc deep at_start no_slots 3)
find_match-IsFound_example =
    find_match-IsFound abcabcabc deep at_start no_slots 3 at_start-IsInt32 no_slots-IsInt32
      (omega arith) (omega arith)
