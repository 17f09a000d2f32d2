-- ===== src/Deflate/Tables.antt =====
-- The tables of C-Deflate/src/bits.c (RFC 1951, 3.2.5), the searches over them, and the sizes that
-- C-Deflate/src/internal.h names.
pub mod Search
mod Tests
use foundations_lab.Base.{ℕ, zero, suc, ◌^◌, List, [], ◌∷◌, get_or, leb, if◌then◌else◌}

abbrev pub num_literals : ℕ
num_literals = 286

abbrev pub num_distances : ℕ
num_distances = 30

abbrev pub num_codelen : ℕ
num_codelen = 19

abbrev pub max_code_bits : ℕ
max_code_bits = 15

abbrev pub end_of_block : ℕ
end_of_block = 256

abbrev pub window_size : ℕ
window_size = 2 ^ 15

abbrev pub min_match : ℕ
min_match = 3

abbrev pub max_match : ℕ
max_match = 258

abbrev pub length_base : List ℕ
length_base =
    3 ∷ 4 ∷ 5 ∷ 6 ∷ 7 ∷ 8 ∷ 9 ∷ 10 ∷ 11 ∷ 13 ∷ 15 ∷ 17 ∷ 19 ∷ 23 ∷ 27 ∷ 31 ∷ 35 ∷ 43 ∷ 51 ∷ 59 ∷ 67
    ∷ 83 ∷ 99 ∷ 115 ∷ 131 ∷ 163 ∷ 195 ∷ 227 ∷ 258 ∷ []

abbrev pub length_extra : List ℕ
length_extra =
    0 ∷ 0 ∷ 0 ∷ 0 ∷ 0 ∷ 0 ∷ 0 ∷ 0 ∷ 1 ∷ 1 ∷ 1 ∷ 1 ∷ 2 ∷ 2 ∷ 2 ∷ 2 ∷ 3 ∷ 3 ∷ 3 ∷ 3 ∷ 4 ∷ 4 ∷ 4 ∷ 4
    ∷ 5 ∷ 5 ∷ 5 ∷ 5 ∷ 0 ∷ []

abbrev pub dist_base : List ℕ
dist_base =
    1 ∷ 2 ∷ 3 ∷ 4 ∷ 5 ∷ 7 ∷ 9 ∷ 13 ∷ 17 ∷ 25 ∷ 33 ∷ 49 ∷ 65 ∷ 97 ∷ 129 ∷ 193 ∷ 257 ∷ 385 ∷ 513 ∷ 769
    ∷ 1025 ∷ 1537 ∷ 2049 ∷ 3073 ∷ 4097 ∷ 6145 ∷ 8193 ∷ 12289 ∷ 16385 ∷ 24577 ∷ []

abbrev pub dist_extra : List ℕ
dist_extra =
    0 ∷ 0 ∷ 0 ∷ 0 ∷ 1 ∷ 1 ∷ 2 ∷ 2 ∷ 3 ∷ 3 ∷ 4 ∷ 4 ∷ 5 ∷ 5 ∷ 6 ∷ 6 ∷ 7 ∷ 7 ∷ 8 ∷ 8 ∷ 9 ∷ 9 ∷ 10 ∷ 10
    ∷ 11 ∷ 11 ∷ 12 ∷ 12 ∷ 13 ∷ 13 ∷ []

abbrev pub codelen_order : List ℕ
codelen_order =
    16 ∷ 17 ∷ 18 ∷ 0 ∷ 8 ∷ 7 ∷ 9 ∷ 6 ∷ 10 ∷ 5 ∷ 11 ∷ 4 ∷ 12 ∷ 3 ∷ 13 ∷ 2 ∷ 14 ∷ 1 ∷ 15 ∷ []

-- The loop `for (i = n - 1; i >= 0; i--) if (x >= base[i]) return i;` and the `return 0` behind it.
unfoldable pub scan_down : List ℕ → ℕ → ℕ → ℕ
scan_down base zero x = 0
scan_down base (suc i) x =
    let rest = scan_down base i x in if leb (get_or base i 0) x then i else rest

unfoldable pub length_to_code : ℕ → ℕ
unfolding scan_down
length_to_code length = scan_down length_base 29 length

unfoldable pub distance_to_code : ℕ → ℕ
unfolding scan_down
distance_to_code distance = scan_down dist_base 30 distance
