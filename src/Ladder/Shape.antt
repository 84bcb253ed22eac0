-- ===== src/Ladder/Shape.antt =====
-- A side of ladder_side.hpp as a map from prices to levels: each price has its level in its slot of
-- the ladder, or else in the vector.
use orderbook.Prelude.{ℕ, ◌+◌, ◌*◌, ◌<◌, ◌≡◌, ◌≢◌, true, false, [], none, some, arith}
use orderbook.Pool.{invalid_index}
use orderbook.Ladder.{Level, LadderSide, window, tick, price_to_slot}
use orderbook.Ladder.Overflow.{level_at, or_empty}
use orderbook.Ladder.Top.{Sound}

-- The level of a price. A price that nothing rests at has an empty one.
unfoldable pub level_of : LadderSide → ℕ → Level
level_of s price = elim (price_to_slot s price) [
  | some slot ↦ s.ladder slot
  | none ↦ or_empty (level_at s.overflow price)
]

-- An entry of the vector has orders and no slot, and before the first order the vector is empty.
pub record Shape (s : LadderSide) : Type 0 where
  pub sound : Sound s
  pub held :
      (q : ℕ) (l : Level)
      → level_at s.overflow q ≡ some l
      → (l.head ≢ invalid_index) × (price_to_slot s q ≡ none)
  pub unanchored : s.anchored ≡ false → (s.overflow ≡ []) × (s.best_slot ≡ invalid_index)

pub slot_of-price :
    (s : LadderSide) (price slot : ℕ)
    → price_to_slot s price ≡ some slot
    → (slot < window) × (price ≡ s.base + slot * tick) × (s.anchored ≡ true)
unfolding price_to_slot
slot_of-price s price slot h = ground arith

pub price_of-slot :
    (s : LadderSide) (slot : ℕ)
    → s.anchored ≡ true
    → slot < window
    → price_to_slot s (s.base + slot * tick) ≡ some slot
unfolding price_to_slot
price_of-slot s slot a h = ground arith

-- The slot of a price depends on the anchor only.
pub price_to_slot-same :
    (s s' : LadderSide) (price : ℕ)
    → s'.base ≡ s.base
    → s'.anchored ≡ s.anchored
    → price_to_slot s' price ≡ price_to_slot s price
unfolding price_to_slot
price_to_slot-same s s' price b a = ground arith

pub level_of-slot :
    (s : LadderSide) (price slot : ℕ)
    → price_to_slot s price ≡ some slot
    → level_of s price ≡ s.ladder slot
unfolding level_of
level_of-slot s price slot at = ground (arith, at)

pub level_of-entry :
    (s : LadderSide) (price : ℕ)
    → price_to_slot s price ≡ none
    → level_of s price ≡ or_empty (level_at s.overflow price)
unfolding level_of
level_of-entry s price at = ground (arith, at)
