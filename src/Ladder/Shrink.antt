-- ===== src/Ladder/Shrink.antt =====
-- `remove` and `removeEmptyBest` of ladder_side.hpp, on the map from prices to levels.
use orderbook.Prelude.{
  ℕ, ◌<◌, ◌^◌, ◌≡◌, refl, sym, subst, ◌≢◌, inl, inr, true, ◌&&◌, none, some, arith, ◌==◌,
  if◌then◌else◌, Option-cases, Bool-cases,
}
use orderbook.Prelude.Store.{update}
use native.Mathlib.Decide.{ℕ_discrete}
use orderbook.Pool.{Nodes, invalid_index}
use orderbook.Ladder.{
  Level, LadderSide, empty_level, window, price_to_slot, remove, remove_from_slot,
  remove_from_overflow, unlink, advance_best,
}
use orderbook.Ladder.Best.{Populated, advance_best-Advanced}
use orderbook.Ladder.Overflow.{level_at, or_empty, unless_empty, remove_from_overflow-Changed}
use orderbook.Ladder.Top.{NoWorse}
use orderbook.Ladder.Shape.{Shape, level_of, level_of-slot, level_of-entry, slot_of-price}
use orderbook.Ladder.Becomes.{
  Becomes, BestSlot-write, BestSlot-clear, BestSlot-advance, slot-Becomes, entry-Becomes,
}

-- A level without orders names no node at all.
abbrev pub Tidy : Level → Type 0
Tidy l = l.head ≡ invalid_index → l ≡ empty_level

-- The side with a level written to a slot, and the scan if that empties the best one.
abbrev pub settled : LadderSide → ℕ → Level → LadderSide
settled s slot lvl =
    let s' = record s { ladder = update s.ladder slot lvl } in
    if lvl.head == invalid_index && slot == s.best_slot then advance_best s' else s'

module _ (s : LadderSide) (v : Shape s) (price : ℕ) (fits : price < 2 ^ 32) (slot : ℕ)
    (at : price_to_slot s price ≡ some slot) (lvl : Level) where
  abbrev put : LadderSide
  put = record s { ladder = update s.ladder slot lvl }

  emptied-Becomes :
      Populated s.ladder slot
      → lvl.head ≡ invalid_index
      → slot ≡ s.best_slot
      → Becomes s (advance_best put) price lvl
  emptied-Becomes full gone best =
      let lt : s.best_slot < window = ground (arith, slot_of-price s price slot at) in
      let top : (i : ℕ) → i < window → Populated put.ladder i → NoWorse s.bid s.best_slot i =
        λ i hi p. elim v.sound.best [
          | inl (e, vacant) ↦
              absurd (full (vacant slot (ground (arith, slot_of-price s price slot at))))
          | inr (lt', full', top') ↦ top' i hi (ground arith)
        ] in
      let result = (advance_best-Advanced put lt put.bid refl).1 in
      rw result (
        slot-Becomes s v price slot (advance_best put).best_slot lvl at fits
          (BestSlot-advance put lt top))

  pub settled-Becomes : Populated s.ladder slot → Becomes s (settled s slot lvl) price lvl
  settled-Becomes full = elim (ℕ_discrete lvl.head invalid_index) [
    | yes gone ↦ elim (ℕ_discrete slot s.best_slot) [
      | yes best ↦
          let run : settled s slot lvl ≡ advance_best put = ground arith in
          rw run (emptied-Becomes full gone best)
      | no other ↦
          let run : settled s slot lvl ≡ put = ground arith in
          rw run (
            slot-Becomes s v price slot s.best_slot lvl at fits
              (BestSlot-clear s.bid s.ladder slot s.best_slot lvl v.sound.best other gone))
    ]
    | no kept ↦
        let run : settled s slot lvl ≡ put = ground arith in
        rw run (
          slot-Becomes s v price slot s.best_slot lvl at fits (
            BestSlot-write s.bid s.ladder slot s.best_slot lvl v.sound.best full kept
              (slot_of-price s price slot at).0))
  ]

abbrev pub Removes : Nodes → LadderSide → ℕ → ℕ → Nodes × LadderSide → Type 0
Removes ns s price idx r =
    (r.0 ≡ (unlink ns (level_of s price) idx).0)
    × Becomes s r.1 price (unlink ns (level_of s price) idx).1

or_empty-unless_empty : (l : Level) → Tidy l → or_empty (unless_empty l) ≡ l
or_empty-unless_empty l tidy = elim (ℕ_discrete l.head invalid_index) [
  | yes gone ↦ ground (arith, tidy gone)
  | no kept ↦ ground arith
]

unless_empty-head : (lvl l : Level) → unless_empty lvl ≡ some l → l.head ≢ invalid_index
unless_empty-head lvl l e = ground arith

pub held-anchored :
    (s : LadderSide) (price : ℕ) (old : Level)
    → Shape s
    → level_at s.overflow price ≡ some old
    → s.anchored ≡ true
unfolding level_at
held-anchored s price old v h = elim (Bool-cases s.anchored) [
  | inl e ↦ e
  | inr e ↦ absurd (ground (arith, v.unanchored e))
]

remove_entry-Removes :
    (ns : Nodes) (s : LadderSide) (price idx : ℕ) (old : Level)
    → Shape s
    → price_to_slot s price ≡ none
    → level_at s.overflow price ≡ some old
    → Tidy (unlink ns old idx).1
    → ((remove_from_overflow ns s price idx).0 ≡ (unlink ns old idx).0)
      × Becomes s (remove_from_overflow ns s price idx).1 price (unlink ns old idx).1
remove_entry-Removes ns s price idx old v at held tidy =
    let (nodes, changed, rest) =
      remove_from_overflow-Changed ns s price idx old v.sound.sorted held in
    let lvl = (unlink ns old idx).1 in
    let s' = record s { overflow = (remove_from_overflow ns s price idx).1.overflow } in
    let b =
      entry-Becomes s v price (remove_from_overflow ns s price idx).1.overflow (unless_empty lvl) at
        (held-anchored s price old v held) changed (λ l e. unless_empty-head lvl l e) in
    let b' = subst (λ l. Becomes s s' price l) (or_empty-unless_empty lvl tidy) b in
    (nodes, subst (λ t. Becomes s t price lvl) (sym rest) b')

remove_from_slot-settled :
    (ns : Nodes) (s : LadderSide) (slot idx : ℕ)
    → remove_from_slot ns s slot idx
      ≡ ((unlink ns (s.ladder slot) idx).0, settled s slot (unlink ns (s.ladder slot) idx).1)
unfolding remove_from_slot
remove_from_slot-settled ns s slot idx = refl

remove-cases :
    (ns : Nodes) (s : LadderSide) (price idx : ℕ)
    → remove ns s price idx ≡ (elim (price_to_slot s price) [
      | some slot ↦ remove_from_slot ns s slot idx
      | none ↦ remove_from_overflow ns s price idx
    ])
unfolding remove
remove-cases ns s price idx = refl

-- If a side has each level in its slot or in the sorted vector, its best slot is right, the price
-- fits 32 bits, its level has a head, and that level names no node at all if the removal empties
-- it, then `remove` unlinks the order from the level of its price, leaves the levels of all other
-- prices as they were, and leaves a side of that kind, with the best slot scanned for anew if
-- need be.
pub remove-Removes :
    (ns : Nodes) (s : LadderSide) (price idx : ℕ)
    → Shape s
    → price < 2 ^ 32
    → (level_of s price).head ≢ invalid_index
    → Tidy (unlink ns (level_of s price) idx).1
    → Removes ns s price idx (remove ns s price idx)
remove-Removes ns s price idx v fits full tidy = elim (Option-cases (price_to_slot s price)) [
  | inl at ↦ elim (Option-cases (level_at s.overflow price)) [
    | inl missing ↦ absurd (ground (arith, level_of-entry s price at))
    | inr (old, held) ↦
        let here : level_of s price ≡ old = ground (arith, level_of-entry s price at) in
        let run : remove ns s price idx ≡ remove_from_overflow ns s price idx =
          ground (arith, at, remove-cases ns s price idx) in
        let done =
          remove_entry-Removes ns s price idx old v at held
            (subst (λ l. Tidy (unlink ns l idx).1) here tidy) in
        rw run (rw here done)
  ]
  | inr (slot, at) ↦
      let here = level_of-slot s price slot at in
      let run : remove ns s price idx
          ≡ ((unlink ns (s.ladder slot) idx).0, settled s slot (unlink ns (s.ladder slot) idx).1) =
        ground (arith, at, remove-cases ns s price idx, remove_from_slot-settled ns s slot idx) in
      let b =
        settled-Becomes s v price fits slot at (unlink ns (s.ladder slot) idx).1
          (subst (λ l. l.head ≢ invalid_index) here full) in
      rw run (rw here (refl, b))
]
