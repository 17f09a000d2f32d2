-- ===== src/Deflate/Tables/Tests.antt =====
-- Runs of the table searches.
use foundations_lab.Base.{◌≡◌, refl, arith}
use foundations_lab.Deflate.Tables.{length_base, length_extra, length_to_code, distance_to_code}
use foundations_lab.Deflate.Tables.{dist_base, dist_extra}
use foundations_lab.Deflate.Tables.Search.{
  IsCodeOf, length_to_code-IsCodeOf, distance_to_code-IsCodeOf,
}

longest_length : length_to_code 258 ≡ 28
unfolding length_to_code
longest_length = refl

below_longest : length_to_code 257 ≡ 27
unfolding length_to_code
below_longest = refl

whole_window : distance_to_code 32768 ≡ 29
unfolding distance_to_code
whole_window = refl

length_to_code-IsCodeOf_example : IsCodeOf length_base length_extra 29 130 (length_to_code 130)
length_to_code-IsCodeOf_example = length_to_code-IsCodeOf 130 (omega arith) (omega arith)

distance_to_code-IsCodeOf_example : IsCodeOf dist_base dist_extra 30 5000 (distance_to_code 5000)
distance_to_code-IsCodeOf_example = distance_to_code-IsCodeOf 5000 (omega arith) (omega arith)
