-- ===== src/Run.antt =====
-- How a call of the engine ends: with a result, by the exception of `handleOrder`, or, in the model
-- only, by running out of the rounds given to a loop.
pub data Run {ℓ} (A : Type ℓ) : Type ℓ where
  ok : A → Run A
  invalid_side : Run A
  out_of_fuel : Run A

infixl 5 ◌>>=◌
abbrev pub ◌>>=◌ {ℓ κ} : {A : Type ℓ} {B : Type κ} → Run A → (A → Run B) → Run B
ok a >>= f = f a
invalid_side >>= f = invalid_side
out_of_fuel >>= f = out_of_fuel
