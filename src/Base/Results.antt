-- ===== src/Base/Results.antt =====
-- The result of a Go function that returns a value and an error.
use mathlib.Core.Path.{◌≡◌, refl}
use mathlib.Core.Logic.{◌⊎◌, inl, inr}
use mathlib.Core.Bool.{Bool, true, false}

pub data Result {ℓ} (E : Type 0) (A : Type ℓ) : Type ℓ where
  ok : A → Result E A
  err : E → Result E A

infixl 5 ◌>>=◌ ◌>>◌
abbrev pub ◌>>=◌ {ℓ κ} :
    {E : Type 0} {A : Type ℓ} {B : Type κ} → Result E A → (A → Result E B) → Result E B
ok a >>= f = f a
err e >>= f = err e

abbrev pub ◌>>◌ {ℓ} : {E : Type 0} {B : Type ℓ} → Result E (Unit {0}) → Result E B → Result E B
m >> k = m >>= λ _. k

-- `if !test { return err }`.
abbrev pub guard : {E : Type 0} → Bool → E → Result E (Unit {0})
guard true e = ok tt
guard false e = err e

abbrev pub is_ok {ℓ} : {E : Type 0} {A : Type ℓ} → Result E A → Bool
is_ok (ok a) = true
is_ok (err e) = false

pub Result-cases {ℓ} :
    {E : Type 0} {A : Type ℓ} (r : Result E A) → ((a : A) × (r ≡ ok a)) ⊎ ((e : E) × (r ≡ err e))
Result-cases (ok a) = inl (a, refl)
Result-cases (err e) = inr (e, refl)

-- A chain that returns a value has passed its first step.
pub bind-ok {ℓ κ} :
    {E : Type 0} {A : Type ℓ} {B : Type κ} (m : Result E A) (f : A → Result E B) (b : B)
    → (m >>= f) ≡ ok b
    → (a : A) × (m ≡ ok a) × (f a ≡ ok b)
bind-ok (ok a) f b h = (a, refl, h)
bind-ok (err e) f b h = absurd (cc h)

pub guard-ok {ℓ} :
    {E : Type 0} {B : Type ℓ} (t : Bool) (e : E) (r : Result E B) (b : B)
    → (guard t e >> r) ≡ ok b
    → (t ≡ true) × (r ≡ ok b)
guard-ok true e r b h = (refl, h)
guard-ok false e r b h = absurd (cc h)

-- A result with another error.
abbrev pub map_error : {A : Type 0} {E F : Type 0} → (E → F) → Result E A → Result F A
map_error f (ok a) = ok a
map_error f (err e) = err (f e)

pub map_error-ok :
    {A E F : Type 0} (f : E → F) (r : Result E A) (a : A) → map_error f r ≡ ok a → r ≡ ok a
map_error-ok f (ok b) a h = cc h
map_error-ok f (err e) a h = absurd (cc h)

pub guard-true : {E : Type 0} (t : Bool) (e : E) → guard t e ≡ ok tt → t ≡ true
guard-true true e h = refl
guard-true false e h = absurd (cc h)
