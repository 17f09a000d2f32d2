-- ===== src/Allocator/FreeLists/Classes.antt =====
-- The bounds of `size_class`.
use foundations_lab.Base.{ℕ, zero, suc, ◌+◌, ◌/◌, ◌≤◌, ◌<◌, arith}
use foundations_lab.Allocator.FreeLists.{class_loop, size_class}

class_loop_le : (left size class : ℕ) → class_loop left size class ≤ class + left
unfolding class_loop
class_loop_le zero size class = omega arith
class_loop_le (suc left) size class =
    let rest = class_loop_le left (size / 2) (class + 1) in ground (arith, rest)

pub size_class_lt : (size : ℕ) → size_class size < 16
unfolding size_class
size_class_lt size = omega (arith, class_loop_le 15 (size / 32) 0)

le_class_loop : (left size class : ℕ) → class ≤ class_loop left size class
unfolding class_loop
le_class_loop zero size class = omega arith
le_class_loop (suc left) size class =
    let rest = le_class_loop left (size / 2) (class + 1) in ground (arith, rest)

class_loop_mono :
    (left small large class : ℕ)
    → small ≤ large
    → class_loop left small class ≤ class_loop left large class
unfolding class_loop
class_loop_mono zero small large class h = omega arith
class_loop_mono (suc left) small large class h =
    let rest = class_loop_mono left (small / 2) (large / 2) (class + 1) (omega arith) in
    let least = le_class_loop left (large / 2) (class + 1) in ground (arith, rest, least)

-- A larger block is in the same class or in a later one.
pub size_class_mono : (small large : ℕ) → small ≤ large → size_class small ≤ size_class large
unfolding size_class
size_class_mono small large h = class_loop_mono 15 (small / 32) (large / 32) 0 (omega arith)
