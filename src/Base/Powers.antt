-- ===== src/Base/Powers.antt =====
-- Powers of two.
use Prim.Native.Nat.{ℕ, zero, suc, ◌+◌, ◌-◌, ◌*◌, ◌/◌, ◌^◌, ◌≤◌, ◌<◌}
use mathlib.Core.Path.{◌≡◌, ap, ◌∙◌}
use native.Mathlib.Nat.{pow-suc}
use native.Mathlib.Omega.{arith}

pub two_pow-add : (a b : ℕ) → 2 ^ (a + b) ≡ 2 ^ a * 2 ^ b
two_pow-add zero b = ap (λ (t : ℕ). 2 ^ t) {x = 0 + b} {y = b} (omega arith) ∙ omega arith
two_pow-add (suc a) b =
    ap (λ (t : ℕ). 2 ^ t) {x = suc a + b} {y = suc (a + b)} (omega arith)
    ∙ omega (arith, pow-suc 2 (a + b), ap (λ (t : ℕ). t * 2 ^ b) (pow-suc 2 a), two_pow-add a b)

pub two_pow_split : (a b : ℕ) → a ≤ b → 2 ^ b ≡ 2 ^ a * 2 ^ (b - a)
two_pow_split a b h =
    ap (λ (t : ℕ). 2 ^ t) {x = b} {y = a + (b - a)} (omega arith) ∙ two_pow-add a (b - a)

-- A field of `b` bits that has lost its low `a` bits.
pub div-lt_two_pow : (v a b : ℕ) → a ≤ b → v < 2 ^ b → v / 2 ^ a < 2 ^ (b - a)
div-lt_two_pow v a b h k = grind (arith, two_pow_split a b h)
