-- ===== src/Allocator/FreeLists/Longest.antt =====
-- The free lists of C-Allocator/src/balloc.c are finitely many, so that one amount of fuel is enough
-- for the loops over each of them.
use foundations_lab.Base.{
  ℕ, zero, suc, ◌≤◌, ◌<◌, ◌≡◌, inl, inr, refl, arith, subst, List, [], ◌∷◌, length, get_or, All,
  ltb, ltb→lt, ltb→le, Bool-cases,
}
use Prim.Native.Nat.{max}
use foundations_lab.Allocator.Memory.{Ptr, Memory}
use foundations_lab.Allocator.FreeLists.Chain.{Chain, ends, node, IsNode}
use foundations_lab.Allocator.FreeLists.Filed.{Files, Filed}

get_or-past : (xs : List Ptr) (i : ℕ) → length xs ≤ i → get_or xs i 0 ≡ 0
get_or-past [] i h = refl
get_or-past (x ∷ xs) zero h = absurd (omega arith)
get_or-past (x ∷ xs) (suc i) h = get_or-past xs i (omega arith)

-- A list whose head is NULL has no nodes.
null-length :
    {m : Memory} {prev at : Ptr} (ps : List Ptr)
    → Chain m prev at ps
    → All IsNode ps
    → at ≡ 0
    → length ps ≡ 0
null-length [] (ends e) nodes z = refl
null-length (p ∷ ps) (node e back rest) (is, nodes) z = absurd (omega arith)

below : (fs : Files) (n : ℕ) → (bound : ℕ) × ((d : ℕ) → d < n → length (fs d) < bound)
below fs zero = (0, λ d h. absurd (omega arith))
below fs (suc n) =
    let (bound, rest) = below fs n in
    (
      max bound (suc (length (fs n))),
      λ d h. elim (Bool-cases (ltb d n)) [
        | inl lower ↦ (let inner = rest d (ltb→lt d n lower) in omega arith)
        | inr last ↦
            let e : n ≡ d = (let hi = ltb→le d n last in omega arith) in
            subst (λ (t : ℕ). length (fs t) < max bound (suc (length (fs n)))) e (omega arith)
      ],
    )

pub longest :
    {m : Memory} {heads : List Ptr} {fs : Files}
    → Filed m heads fs
    → (bound : ℕ) × ((d : ℕ) → length (fs d) < bound)
longest {heads} {fs} f =
    let (bound, rest) = below fs 16 in
    (
      suc bound,
      λ d. elim (Bool-cases (ltb d 16)) [
        | inl lower ↦ (let inner = rest d (ltb→lt d 16 lower) in omega arith)
        | inr past ↦
            let count = f.count in
            let high = ltb→le d 16 past in
            let none_there =
              null-length (fs d) (f.chains d) (f.nodes d) (get_or-past heads d (omega arith)) in
            omega arith
      ],
    )
