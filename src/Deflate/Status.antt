-- ===== src/Deflate/Status.antt =====
-- The error codes of C-Deflate/include/deflate.h. A function that returns DF_OK, or a count of bytes,
-- or a negative code returns a `Result`.
use foundations_lab.Base.{Bool, true, false, ◌≡◌, ◌≢◌, ◌⊎◌, inl, inr, refl, if◌then◌else◌}

pub data Error : Type 0 where
  output input corrupt memory : Error

-- What a function returns: DF_OK with its output, or one of the codes.
pub data Result {ℓ} (V : Type ℓ) : Type ℓ where
  ok : V → Result V
  err : Error → Result V

-- The early return on an error code.
infixl 5 ◌>>=◌
abbrev pub ◌>>=◌ {ℓ κ} : {V : Type ℓ} {W : Type κ} → Result V → (V → Result W) → Result W
err code >>= next = err code
ok value >>= next = next value

pub ok-injective {ℓ} : {A : Type ℓ} {a b : A} → ok a ≡ ok b → a ≡ b
ok-injective e = cc

pub err-ne-ok {ℓ} : {A : Type ℓ} {e : Error} {a : A} → err e ≢ ok a
err-ne-ok h = cc

-- A chain succeeds only if its first step does.
pub >>=-eq-ok {ℓ κ} :
    {V : Type ℓ} {W : Type κ} (first : Result V) (next : V → Result W) {w : W}
    → (first >>= next) ≡ ok w
    → (v : V) × (first ≡ ok v) × (next v ≡ ok w)
>>=-eq-ok (err code) next e = cc
>>=-eq-ok (ok v) next e = (v, refl, e)

-- A test that turns to an error passed, where the result is not one.
pub guard-eq-ok {ℓ} :
    {A : Type ℓ} (b : Bool) (e : Error) (m : Result A) {a : A}
    → (if b then err e else m) ≡ ok a
    → (b ≡ false) × (m ≡ ok a)
guard-eq-ok true e m h = cc
guard-eq-ok false e m h = (refl, h)

-- To split on a computed result and keep the equation.
pub Result-cases {ℓ} :
    {A : Type ℓ} (m : Result A) → ((a : A) × (m ≡ ok a)) ⊎ ((e : Error) × (m ≡ err e))
Result-cases (ok a) = inl (a, refl)
Result-cases (err e) = inr (e, refl)
