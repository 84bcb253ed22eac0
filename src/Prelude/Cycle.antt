-- ===== src/Prelude/Cycle.antt =====
-- Indices on a cycle of `2 ^ k` places: the masked operations are piecewise linear.
use native.Mathlib.Nat.{pow-suc, add-zero, add-suc, mul_assoc, mod-mod_of_dvd, dvd-mul_right}
use native.Mathlib.Decide.{dec_le}
use Prim.Native.Nat.{ℕ, zero, suc, ◌+◌, ◌-◌, ◌*◌, ◌%◌, ◌^◌, ◌≤◌, ◌<◌, bit_and}
use mathlib.Core.Path.{◌≡◌, ap, sym, ◌∙◌}
use mathlib.Core.Logic.{◌≢◌, ◌⊎◌, ◌↔◌}
use native.Mathlib.Omega.{arith}
use orderbook.Prelude.Tests.{leb, ◌==◌, if◌then◌else◌}
use orderbook.Prelude.Bits.{bit_and_mask, pow-pos}

-- How far `b` lies behind `a` on a cycle of `c` slots, and the slot after `i`.
unfoldable pub dist : (c a b : ℕ) → ℕ
dist c a b = if leb a b then b - a else b + c - a

unfoldable pub after : (c i : ℕ) → ℕ
after c i = if i + 1 == c then 0 else i + 1

pow-add : (k j : ℕ) → 2 ^ (k + j) ≡ 2 ^ k * 2 ^ j
pow-add k zero = rw add-zero (omega arith)
pow-add k (suc j) =
    rw (add-suc, pow-suc, pow-add k j)
      (mul_assoc (2 ^ k) (2 ^ j) 2 ∙ ap (◌*◌ (2 ^ k)) (sym (pow-suc 2 j)))

-- A word counts a whole number of cycles.
word_cycles : (k : ℕ) → k ≤ 64 → (q : ℕ) × (2 ^ 64 ≡ 2 ^ k * (q + 1))
word_cycles k h =
    let split : k + (64 - k) ≡ 64 = omega arith in
    let e : 2 ^ 64 ≡ 2 ^ k * 2 ^ (64 - k) = ap (◌^◌ 2) (sym split) ∙ pow-add k (64 - k) in
    let one : 2 ^ (64 - k) - 1 + 1 ≡ 2 ^ (64 - k) = omega (arith, pow-pos (64 - k)) in
    (2 ^ (64 - k) - 1, rw one e)

mod_shift : (r c q : ℕ) → r < c → (r + c * q) % c ≡ r
mod_shift r c q h = grind arith

-- Words of 64 bits do not disturb a smaller modulus.
mod_word : (k x : ℕ) → k ≤ 64 → x % 2 ^ 64 % 2 ^ k ≡ x % 2 ^ k
mod_word k x h = let (q, e) = word_cycles k h in rw e (mod-mod_of_dvd (2 ^ k) x (dvd-mul_right _ _))

pub bit_and-after :
    (k mask i : ℕ)
    → mask ≡ 2 ^ k - 1
    → k ≤ 63
    → i < 2 ^ k
    → bit_and ((i + 1) % 2 ^ 64) mask ≡ after (2 ^ k) i
unfolding after
bit_and-after k mask i e w h = rw (e, bit_and_mask, mod_word k (i + 1) (omega arith)) (grind arith)

pub bit_and-dist :
    (k mask a b : ℕ)
    → mask ≡ 2 ^ k - 1
    → k ≤ 63
    → a < 2 ^ k
    → b < 2 ^ k
    → bit_and ((b + 2 ^ 64 - a) % 2 ^ 64) mask ≡ dist (2 ^ k) a b
unfolding dist
bit_and-dist k mask a b is w ha hb =
    let (q, e) = word_cycles k (omega arith) in
    rw (is, bit_and_mask, mod_word k (b + 2 ^ 64 - a) (omega arith), e)
      (elim (dec_le a b) [
        | yes h ↦ ground (arith, mod_shift (b - a) (2 ^ k) (q + 1))
        | no h ↦ ground (arith, mod_shift (b + 2 ^ k - a) (2 ^ k) q)
      ])

module _ {c : ℕ} where
  pub dist-lt : (a b : ℕ) → a < c → b < c → dist c a b < c
  unfolding dist
  dist-lt a b ha hb = ground arith

  pub dist_inj : (h a b : ℕ) → h < c → a < c → b < c → dist c h a ≡ dist c h b → a ≡ b
  unfolding dist
  dist_inj h a b hh ha hb e = ground arith

  pub after-lt : (i : ℕ) → i < c → after c i < c
  unfolding after
  after-lt i h = ground arith

  pub dist-after :
      (h i e : ℕ)
      → h < c
      → i < c
      → e < c
      → dist c h i < dist c h e
      → dist c h (after c i) ≡ dist c h i + 1
  unfolding dist after
  dist-after h i e hh hi he lt = ground arith

  -- One step from `j`, seen from `i`: a step further, or back at `i`.
  pub dist-after_cases :
      (i j : ℕ)
      → i < c
      → j < c
      → (dist c i (after c j) ≡ dist c i j + 1) ⊎ ((after c j ≡ i) × (dist c i j + 1 ≡ c))
  unfolding dist after
  dist-after_cases i j hi hj = ground arith

  -- Towards `e` the distance falls.
  pub after-dist : (j e : ℕ) → j < c → e < c → j ≢ e → dist c (after c j) e + 1 ≡ dist c j e
  unfolding dist after
  after-dist j e hj he ne = ground arith

  -- From `h` past `i` to `a`: what lies between `i` and `a` lies on the way too.
  pub dist_between :
      (h i n a : ℕ)
      → h < c
      → i < c
      → n < c
      → a < c
      → dist c h i < dist c h a
      → dist c i n < dist c i a
      → dist c h n < dist c h a
  unfolding dist
  dist_between h i n a hh hi hn ha p q = ground arith

  -- The test of the loop says whether the hole `i` is on the way from `h` to `n`.
  pub crosses_iff :
      (h i n : ℕ)
      → h < c
      → i < c
      → n < c
      → i ≢ n
      → (dist c i n ≤ dist c h n) ↔ (dist c h i < dist c h n)
  unfolding dist
  crosses_iff h i n hh hi hn ne = (λ p. ground arith, λ p. ground arith)

pub dist_self : (c h : ℕ) → dist c h h ≡ 0
unfolding dist
dist_self c h = ground arith
