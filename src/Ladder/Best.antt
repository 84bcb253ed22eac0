-- ===== src/Ladder/Best.antt =====
-- `advanceBest` of ladder_side.hpp finds the next populated slot toward the worse end.
use orderbook.Prelude.{
  ℕ, zero, suc, ◌+◌, ◌-◌, ◌≤◌, ◌<◌, ◌≡◌, refl, ◌≢◌, Bool, true, false, arith, ==_of_eq, ==_of_ne,
}
use native.Mathlib.Decide.{ℕ_discrete}
use orderbook.Pool.{invalid_index}
use orderbook.Ladder.{Level, LadderSide, window, scan_down, scan_up, advance_best}

abbrev pub Populated : (ℕ → Level) → ℕ → Type 0
Populated ladder slot = (ladder slot).head ≢ invalid_index

abbrev pub Vacant : (ℕ → Level) → ℕ → Type 0
Vacant ladder slot = (ladder slot).head ≡ invalid_index

-- `best` is the highest populated slot up to `start`, or none is populated.
pub data Highest (ladder : ℕ → Level) (start best : ℕ) : Type 0 where
  found :
      best ≤ start
      → Populated ladder best
      → ((s : ℕ) → best < s → s ≤ start → Vacant ladder s)
      → Highest ladder start best
  none_left :
      best ≡ invalid_index → ((s : ℕ) → s ≤ start → Vacant ladder s) → Highest ladder start best

Highest-suc :
    (ladder : ℕ → Level) (slot best : ℕ)
    → Vacant ladder (suc slot)
    → Highest ladder slot best
    → Highest ladder (suc slot) best
Highest-suc ladder slot best vacant (found below full none) = found (omega arith) full (λ s above h.
    elim (ℕ_discrete s (suc slot)) [ yes e ↦ rw e vacant | no ne ↦ none s above (omega arith) ])
Highest-suc ladder slot best vacant (none_left e none) =
    none_left e
      (λ s h. elim (ℕ_discrete s (suc slot)) [ yes e ↦ rw e vacant | no ne ↦ none s (omega arith) ])

scan_down-Highest : (ladder : ℕ → Level) (slot : ℕ) → Highest ladder slot (scan_down ladder slot)
unfolding scan_down
scan_down-Highest ladder zero = elim (ℕ_discrete (ladder 0).head invalid_index) [
  | yes vacant ↦
      rw (==_of_eq _ _ vacant) (none_left refl (λ s h. let e : s ≡ 0 = omega arith in rw e vacant))
  | no full ↦ rw (==_of_ne _ _ full) (found (omega arith) full (λ s above h. absurd (omega arith)))
]
scan_down-Highest ladder (suc slot) = elim (ℕ_discrete (ladder (suc slot)).head invalid_index) [
  | yes vacant ↦
      rw (==_of_eq _ _ vacant) (Highest-suc ladder slot _ vacant (scan_down-Highest ladder slot))
  | no full ↦ rw (==_of_ne _ _ full) (found (omega arith) full (λ s above h. absurd (omega arith)))
]

-- `best` is the lowest populated slot from `start` on, or none of the ladder is populated.
pub data Lowest (ladder : ℕ → Level) (start best : ℕ) : Type 0 where
  found :
      start ≤ best
      → best < window
      → Populated ladder best
      → ((s : ℕ) → start ≤ s → s < best → Vacant ladder s)
      → Lowest ladder start best
  none_left :
      best ≡ invalid_index
      → ((s : ℕ) → start ≤ s → s < window → Vacant ladder s)
      → Lowest ladder start best

Lowest-pred :
    (ladder : ℕ → Level) (slot best : ℕ)
    → Vacant ladder slot
    → Lowest ladder (slot + 1) best
    → Lowest ladder slot best
Lowest-pred ladder slot best vacant (Lowest.found above in_window full none) =
    Lowest.found (omega arith) in_window full (λ s from below. elim (ℕ_discrete s slot) [
      | yes e ↦ rw e vacant
      | no ne ↦ none s (omega arith) below
    ])
Lowest-pred ladder slot best vacant (Lowest.none_left e none) = Lowest.none_left e (λ s from below.
    elim (ℕ_discrete s slot) [ yes e ↦ rw e vacant | no ne ↦ none s (omega arith) below ])

scan_up-Lowest :
    (ladder : ℕ → Level) (left slot : ℕ)
    → slot + left ≡ window
    → Lowest ladder slot (scan_up ladder left slot)
unfolding scan_up
scan_up-Lowest ladder zero slot e = Lowest.none_left refl (λ s from below. absurd (omega arith))
scan_up-Lowest ladder (suc left) slot e = elim (ℕ_discrete (ladder slot).head invalid_index) [
  | yes vacant ↦
      rw (==_of_eq _ _ vacant)
        (Lowest-pred ladder slot _ vacant (scan_up-Lowest ladder left (slot + 1) (omega arith)))
  | no full ↦
      rw (==_of_ne _ _ full)
        (Lowest.found (omega arith) (omega arith) full (λ s from below. absurd (omega arith)))
]

-- What `advanceBest` must establish on the side's own direction.
abbrev pub Advanced : Bool → (ℕ → Level) → ℕ → ℕ → Type 0
Advanced true ladder start best = Highest ladder start best
Advanced false ladder start best = Lowest ladder start best

module _ (s : LadderSide) (known : s.best_slot < window) where
  -- If `best_slot` is a slot of the ladder, `advance_best` sets it to the best populated slot
  -- that is not better than it (the highest at or below it for bids, the lowest at or above it
  -- for asks), or to the invalid index if there is none, and changes nothing else of the side.
  pub advance_best-Advanced :
      (is_bid : Bool)
      → s.bid ≡ is_bid
      → Advanced is_bid s.ladder s.best_slot (advance_best s).best_slot
        × (advance_best s ≡ record s { best_slot = (advance_best s).best_slot })
  unfolding advance_best
  advance_best-Advanced true e =
      let at : (advance_best s).best_slot ≡ scan_down s.ladder s.best_slot = ground arith in
      (rw at (scan_down-Highest s.ladder s.best_slot), ground arith)
  advance_best-Advanced false e =
      let at : (advance_best s).best_slot ≡ scan_up s.ladder (window - s.best_slot) s.best_slot =
        ground arith in
      (
        rw at (scan_up-Lowest s.ladder (window - s.best_slot) s.best_slot (omega arith)),
        ground arith,
      )
