-- ===== src/Base/Results.antt =====
-- Rust's `Result`, with `?` as a bind.
use mathlib.Core.Path.{◌≡◌, refl}
use mathlib.Core.Bool.{Bool, true, false}
use mathlib.Core.Logic.{◌⊎◌, inl, inr}
use mathlib.Core.Option.{Option, none, some}

pub data Result {ℓ} (E A : Type ℓ) : Type ℓ where
  ok : A → Result E A
  err : E → Result E A

-- `result?` in front of what follows it
infixl 5 ◌>>=◌
abbrev pub ◌>>=◌ {ℓ} : {E A B : Type ℓ} → Result E A → (A → Result E B) → Result E B
(err reason) >>= next = err reason
(ok value) >>= next = next value

infixl 5 ◌>>◌
abbrev pub ◌>>◌ {ℓ} : {E A B : Type ℓ} → Result E A → Result E B → Result E B
(err reason) >> next = err reason
(ok _) >> next = next

-- What follows a step that may fail went through: so did the step.
module _ {ℓ} {E A B : Type ℓ} (next : A → Result E B) {result : B} where
  pub >>=-ok :
      (step : Result E A)
      → (step >>= next) ≡ ok result
      → (value : A) × (next value ≡ ok result) × (step ≡ ok value)
  >>=-ok (err reason) h = cc
  >>=-ok (ok value) h = (value, h, refl)

-- `ok_or`
abbrev pub ok_or {ℓ} : {E A : Type ℓ} → E → Option A → Result E A
ok_or e none = err e
ok_or e (some a) = ok a

-- an early `return Err(e)` under a test
abbrev pub ensure : {E : Type 0} → Bool → E → Result E (Unit {0})
ensure true e = ok tt
ensure false e = err e

module _ {ℓ} {E A : Type ℓ} where
  pub Result-cases : (r : Result E A) → ((a : A) × (r ≡ ok a)) ⊎ ((e : E) × (r ≡ err e))
  Result-cases (ok a) = inl (a, refl)
  Result-cases (err e) = inr (e, refl)
