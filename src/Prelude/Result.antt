-- ===== src/Prelude/Result.antt =====
-- Python's exceptions: a function that may raise returns a `Result`. A loop of the model that is
-- given too little fuel raises `out_of_fuel`, which is no exception of the program.
use mathlib.Core.Path.{◌≡◌, refl}
use mathlib.Core.Logic.{◌⊎◌, inl, inr}

pub data Error : Type 0 where
  value_error type_error key_error index_error struct_error runtime_error os_error sqlite_error
        postgres_error redis_error out_of_fuel :
      Error

pub data Result {ℓ} (B : Type ℓ) : Type ℓ where
  raise : (e : Error) → Result B
  ok : (returned : B) → Result B

module _ {ℓ κ} {B : Type ℓ} {C : Type κ} where
  infixl 5 ◌>>=◌
  -- The first exception ends the chain.
  abbrev pub ◌>>=◌ : Result B → (B → Result C) → Result C
  raise e >>= next = raise e
  ok b >>= next = next b

-- A result that is computed, with the equation.
pub Result-cases {ℓ} :
    {B : Type ℓ} (r : Result B) → ((e : Error) × (r ≡ raise e)) ⊎ ((b : B) × (r ≡ ok b))
Result-cases (raise e) = inl (e, refl)
Result-cases (ok b) = inr (b, refl)
