-- ===== src/Base/Members.antt =====
-- The elements of a list, with their position, and lists without repetition.
use mathlib.Core.Path.{◌≡◌, refl, sym, ap, subst}
use mathlib.Core.Logic.{◌≢◌, ◌⊎◌, inl, inr}
use mathlib.Core.List.{List, [], ◌∷◌, ◌++◌}
use foundations_lab.Base.Lists.{All}

pub data Among {ℓ} {A : Type ℓ} (a : A) : List A → Type ℓ where
  first : {x : A} {xs : List A} → a ≡ x → Among a (x ∷ xs)
  later : {x : A} {xs : List A} → Among a xs → Among a (x ∷ xs)

module _ {ℓ} {A : Type ℓ} where
  pub All-Among {κ} : (P : A → Type κ) {a : A} (xs : List A) → All P xs → Among a xs → P a
  All-Among P [] h i = elim i [ ]
  All-Among P (x ∷ xs) h (first e) = subst P (sym e) h.0
  All-Among P (x ∷ xs) h (later i) = All-Among P xs h.1 i

  pub All-of {κ} : (P : A → Type κ) (xs : List A) → ((a : A) → Among a xs → P a) → All P xs
  All-of P [] h = tt
  All-of P (x ∷ xs) h = (h x (first refl), All-of P xs (λ a i. h a (later i)))

  -- An element parts its list.
  pub Among-split :
      {a : A} (xs : List A)
      → Among a xs
      → (before : List A) × (after : List A) × (xs ≡ before ++ a ∷ after)
  Among-split [] i = elim i [ ]
  Among-split (x ∷ xs) (first e) = ([], xs, ap (λ (t : A). t ∷ xs) (sym e))
  Among-split (x ∷ xs) (later i) =
      let (before, after, e) = Among-split xs i in (x ∷ before, after, ap (λ (t : List A). x ∷ t) e)

  pub Among-append : {a : A} (xs ys : List A) → Among a (xs ++ ys) → Among a xs ⊎ Among a ys
  Among-append [] ys i = inr i
  Among-append (x ∷ xs) ys (first e) = inl (first e)
  Among-append (x ∷ xs) ys (later i) = elim (Among-append xs ys i) [
    | inl j ↦ inl (later j)
    | inr j ↦ inr j
  ]

  pub Among-left : {a : A} (xs ys : List A) → Among a xs → Among a (xs ++ ys)
  Among-left [] ys i = elim i [ ]
  Among-left (x ∷ xs) ys (first e) = first e
  Among-left (x ∷ xs) ys (later i) = later (Among-left xs ys i)

  pub Among-right : {a : A} (xs ys : List A) → Among a ys → Among a (xs ++ ys)
  Among-right [] ys i = i
  Among-right (x ∷ xs) ys i = later (Among-right xs ys i)

  pub Among-middle : {b : A} (a : A) (xs ys : List A) → Among b (xs ++ ys) → Among b (xs ++ a ∷ ys)
  Among-middle a xs ys i = elim (Among-append xs ys i) [
    | inl j ↦ Among-left xs (a ∷ ys) j
    | inr j ↦ Among-right xs (a ∷ ys) (later j)
  ]

  abbrev pub Fresh : A → List A → Type ℓ
  Fresh a xs = All (λ x. a ≢ x) xs

  abbrev pub Distinct : List A → Type ℓ
  Distinct [] = Unit
  Distinct (x ∷ xs) = Fresh x xs × Distinct xs

  -- Without the element `a`, a list is as free of repetition as before, and free of `a`.
  pub Distinct-split :
      (a : A) (xs ys : List A) → Distinct (xs ++ a ∷ ys) → Distinct (xs ++ ys) × Fresh a (xs ++ ys)
  Distinct-split a [] ys (h, k) = (k, h)
  Distinct-split a (x ∷ xs) ys (h, k) =
      let (rest, apart) = Distinct-split a xs ys k in
      let sides =
        All-of (λ b. x ≢ b) (xs ++ ys)
          (λ b i. All-Among (λ b. x ≢ b) (xs ++ a ∷ ys) h (Among-middle a xs ys i)) in
      (
        (sides, rest),
        (
          λ e.
              All-Among (λ b. x ≢ b) (xs ++ a ∷ ys) h (Among-right xs (a ∷ ys) (first refl))
                (sym e),
          apart,
        ),
      )

  -- Another element of a list stays when `a` is taken out.
  pub Among-without :
      {b : A} (a : A) (xs ys : List A) → Among b (xs ++ a ∷ ys) → b ≢ a → Among b (xs ++ ys)
  Among-without a [] ys (first e) other = absurd (other e)
  Among-without a [] ys (later i) other = i
  Among-without a (x ∷ xs) ys (first e) other = first e
  Among-without a (x ∷ xs) ys (later i) other = later (Among-without a xs ys i other)
