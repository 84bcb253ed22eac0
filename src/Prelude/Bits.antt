-- ===== src/Prelude/Bits.antt =====
-- `x & (2 ^ k - 1)` is `x % 2 ^ k`, for every `k`.
use Prim.Native.Nat.{
  ℕ, zero, suc, ◌+◌, ◌-◌, ◌*◌, ◌/◌, ◌%◌, ◌^◌, ◌≤◌, ◌<◌, min, bit_and, digits, bit_and-bitwise,
}
use mathlib.Core.Path.{◌≡◌, refl, ap}
use native.Mathlib.Nat.{pow-suc}
use native.Mathlib.Omega.{arith}

abbrev digitwise : ℕ → ℕ → ℕ → ℕ
digitwise n a b = digits (λ b. zero) min n a b

digitwise_zero : (n b : ℕ) → digitwise n 0 b ≡ 0
digitwise_zero zero b = refl
digitwise_zero (suc n) b = refl

-- As many rounds as the first number are enough.
digitwise_enough : (b a n m : ℕ) → a ≤ m → a ≤ n → digitwise m a b ≡ digitwise n a b
digitwise_enough b zero n m under under' = omega (arith, digitwise_zero n b, digitwise_zero m b)
digitwise_enough b (suc a) n zero under under' = absurd (omega arith)
digitwise_enough b (suc a) zero (suc m) under under' = absurd (omega arith)
digitwise_enough b (suc a) (suc n) (suc m) under under' =
    let half = digitwise_enough (b / 2) (suc a / 2) n m (omega arith) (omega arith) in
    omega (arith, half)

-- The lowest binary digit of a conjunction, and the others.
bit_and_halves : (a b : ℕ) → bit_and a b ≡ bit_and (a / 2) (b / 2) * 2 + min (a % 2) (b % 2)
bit_and_halves zero b = omega (arith, bit_and-bitwise 0 b, bit_and-bitwise 0 (b / 2))
bit_and_halves (suc a) b =
    let half = digitwise_enough (b / 2) (suc a / 2) (suc a / 2) a (omega arith) (omega arith) in
    omega (arith, half, bit_and-bitwise (suc a / 2) (b / 2), bit_and-bitwise (suc a) b)

bit_and-nothing : (rounds a : ℕ) → a ≤ rounds → bit_and a 0 ≡ 0
bit_and-nothing rounds zero under = refl
bit_and-nothing zero (suc a) under = absurd (omega arith)
bit_and-nothing (suc rounds) (suc a) under =
    let half = bit_and-nothing rounds (suc a / 2) (omega arith) in
    omega (arith, half, bit_and_halves (suc a) 0)

pub pow-pos : (k : ℕ) → 0 < 2 ^ k
pow-pos zero = omega arith
pow-pos (suc k) = omega (arith, pow-pos k, pow-suc 2 k)

mod_halves : (a p : ℕ) → 0 < p → a % (p * 2) ≡ (a / 2) % p * 2 + a % 2
mod_halves a p h = grind arith

pub bit_and_mask : (k a : ℕ) → bit_and a (2 ^ k - 1) ≡ a % 2 ^ k
bit_and_mask zero a = omega (arith, bit_and-nothing a a (omega arith))
bit_and_mask (suc k) a =
    let p = pow-pos k in
    let e : (2 ^ k * 2 - 1) / 2 ≡ 2 ^ k - 1 = omega arith in
    let half = bit_and_halves a (2 ^ k * 2 - 1) in
    rw pow-suc
      (omega (arith, half, ap (bit_and (a / 2)) e, bit_and_mask k (a / 2), mod_halves a (2 ^ k) p))
