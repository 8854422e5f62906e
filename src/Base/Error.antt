-- ===== src/Base/Error.antt =====
-- Python's exceptions, as the values of a computation that may raise.
use mathlib.Core.Logic.{◌⊎◌, inl, inr}
use mathlib.Core.Path.{◌≡◌, refl}
use mathlib.Core.Bool.{Bool, true, false}
use mathlib.Core.Option.{Option, none, some}

-- `error` is `Exception`, raised by a `raise` line of the program.
pub data Error : Type 0 where
  error assertion_error attribute_error index_error key_error type_error value_error : Error
  zero_division_error struct_error stop_iteration file_error : Error

pub data Result {ℓ} (A : Type ℓ) : Type ℓ where
  ok : A → Result A
  err : Error → Result A

module _ {ℓ κ} {A : Type ℓ} {B : Type κ} where
  infixl 5 ◌>>=◌
  -- the rest of a computation, where the part before it did not raise
  abbrev pub ◌>>=◌ : Result A → (A → Result B) → Result B
  err x >>= rest = err x
  ok a >>= rest = rest a

  pub >>=-eq-ok :
      (part : Result A) (rest : A → Result B) {b : B}
      → (part >>= rest) ≡ ok b
      → (a : A) × (part ≡ ok a) × (rest a ≡ ok b)
  >>=-eq-ok (err x) rest raised = cc
  >>=-eq-ok (ok a) rest done = (a, refl, done)

infixl 5 ◌>>◌
abbrev pub ◌>>◌ {ℓ} : {B : Type ℓ} → Result (Unit {0}) → Result B → Result B
ok u >> rest = rest
err x >> rest = err x

-- what raises `x` where the value is missing
abbrev pub or_raise {ℓ} : {A : Type ℓ} → Error → Option A → Result A
or_raise x none = err x
or_raise x (some a) = ok a

-- goes on where the test passes
abbrev pub guard : Bool → Error → Result (Unit {0})
guard true x = ok tt
guard false x = err x

pub Result-cases {ℓ} :
    {A : Type ℓ} (r : Result A) → ((a : A) × (r ≡ ok a)) ⊎ ((x : Error) × (r ≡ err x))
Result-cases (ok a) = inl (a, refl)
Result-cases (err x) = inr (x, refl)

pub or_raise-eq-ok {ℓ} :
    {A : Type ℓ} (x : Error) (o : Option A) {a : A} → or_raise x o ≡ ok a → o ≡ some a
or_raise-eq-ok x none h = cc
or_raise-eq-ok x (some a) h = cc
