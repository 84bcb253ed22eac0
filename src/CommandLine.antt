-- ===== src/CommandLine.antt =====
-- The loops over `argv` of src/main.cpp and src/replay.cpp, which differ in the options they know.
pub mod Laws
pub mod Main
pub mod Sender
pub mod Valid
use orderbook.Prelude.{◌≡◌, refl, List, [], ◌∷◌, ◌++◌, arith}
use Prim.Native.String.{String}

-- How parsing ends: with the settings, by `exit(1)`, or by an exception that nobody catches.
pub data Parsed {ℓ} (A : Type ℓ) : Type ℓ where
  parsed : A → Parsed A
  exit_1 : Parsed A
  uncaught : Parsed A

infixl 5 ◌>>=◌
abbrev pub ◌>>=◌ {ℓ κ} : {A : Type ℓ} {B : Type κ} → Parsed A → (A → Parsed B) → Parsed B
parsed a >>= f = f a
exit_1 >>= f = exit_1
uncaught >>= f = uncaught

-- What an argument is: an option alone, one that takes the next argument, or unknown.
pub data Switch {ℓ} (A : Type ℓ) : Type ℓ where
  flag : (A → A) → Switch A
  valued : (String → A → Parsed A) → Switch A
  unknown : Switch A

module _ {ℓ} {A : Type ℓ} (switch : String → Switch A) where
  -- The last argument, which no value follows.
  unfoldable pub parse_last : Switch A → A → Parsed A
  parse_last (flag f) a = parsed (f a)
  parse_last (valued f) a = exit_1
  parse_last unknown a = exit_1

  -- The arguments behind the program's name.
  unfoldable pub parse : A → List String → Parsed A
  unfolding parse_last
  parse a [] = parsed a
  parse a (k ∷ []) = parse_last (switch k) a
  parse a (k ∷ v ∷ ws) = elim (switch k) [
    | flag f ↦ parse (f a) (v ∷ ws)
    | valued f ↦ f v a >>= (λ a'. parse a' ws)
    | unknown ↦ exit_1
  ]
