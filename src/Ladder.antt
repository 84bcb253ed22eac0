-- ===== src/Ladder.antt =====
-- include/ladder_side.hpp: one side of a book. A fixed ladder of price levels around an anchor, and
-- a vector sorted by price for all other prices. A pointer to a level is a `LevelRef`.
pub mod Best
pub mod Link
pub mod Overflow
pub mod Shape
pub mod Becomes
pub mod Grow
pub mod Shrink
pub mod Drain
pub mod Top
pub mod Unlink
use orderbook.Prelude.{
  ℕ, zero, suc, ◌+◌, ◌-◌, ◌*◌, ◌/◌, ◌%◌, ◌^◌, Bool, true, false, not, ◌&&◌, ◌||◌, List, [], ◌∷◌,
  Option, none, some, ltb, leb, ◌==◌, ◌!=◌, if◌then◌else◌, length, get_or, set,
}
use orderbook.Prelude.Store.{update}
use orderbook.Pool.{invalid_index, Nodes, set_next, set_prev}

pub record Level : Type 0 where
  pub head : ℕ
  pub tail : ℕ

abbrev pub empty_level : Level
empty_level = record { head = invalid_index; tail = invalid_index }

abbrev pub tick : ℕ
tick = 100

abbrev pub window : ℕ
window = 2048

-- `overflow` is sorted ascending by price.
pub record LadderSide : Type 0 where
  pub bid : Bool
  pub ladder : ℕ → Level
  pub overflow : List (ℕ × Level)
  pub base : ℕ
  pub anchored : Bool
  pub best_slot : ℕ

unfoldable pub new_side : Bool → LadderSide
new_side is_bid = record {
  bid = is_bid;
  ladder = λ _. empty_level;
  overflow = [];
  base = 0;
  anchored = false;
  best_slot = invalid_index;
}

unfoldable pub link_at_tail : Nodes → Level → ℕ → Nodes × Level
link_at_tail ns lvl idx =
    let linked = set_next (set_prev ns idx lvl.tail) idx invalid_index in
    if lvl.tail != invalid_index
    then (set_next linked lvl.tail idx, record lvl { tail = idx })
    else (linked, record { head = idx; tail = idx })

-- `node` is a reference: the second test reads it after the first write.
unlink_front : Nodes → Level → ℕ → Nodes × Level
unlink_front ns lvl idx =
    if (ns idx).prev != invalid_index
    then (set_next ns (ns idx).prev (ns idx).next, lvl)
    else (ns, record lvl { head = (ns idx).next })

unlink_back : Nodes → Level → ℕ → Nodes × Level
unlink_back ns lvl idx =
    if (ns idx).next != invalid_index
    then (set_prev ns (ns idx).next (ns idx).prev, lvl)
    else (ns, record lvl { tail = (ns idx).prev })

unfoldable pub unlink : Nodes → Level → ℕ → Nodes × Level
unfolding unlink_front unlink_back
unlink ns lvl idx = let (ns', lvl') = unlink_front ns lvl idx in unlink_back ns' lvl' idx

unfoldable pub anchor : LadderSide → ℕ → LadderSide
anchor s price =
    let half = window / 2 * tick in
    let candidate = if ltb half price then price - half else 0 in
    record s { base = candidate - candidate % tick; ladder = λ _. empty_level; anchored = true }

-- `none` is INVALID_INDEX; a slot is below `window`, so the two are told apart.
unfoldable pub price_to_slot : LadderSide → ℕ → Option ℕ
price_to_slot s price =
    if not s.anchored || ltb price s.base
    then none
    else let offset = price - s.base in
      if offset % tick != 0
      then none
      else if leb window (offset / tick)
      then none
      else some (offset / tick)

unfoldable pub slot_to_price : LadderSide → ℕ → ℕ
slot_to_price s slot = (s.base + slot * tick) % 2 ^ 32

-- `std::lower_bound`: how many entries lie before the first whose price is not below `price`.
unfoldable pub overflow_lower_bound : List (ℕ × Level) → ℕ → ℕ
overflow_lower_bound [] price = 0
overflow_lower_bound (e ∷ es) price =
    if ltb e.0 price then suc (overflow_lower_bound es price) else 0

abbrev pub entry_at : List (ℕ × Level) → ℕ → ℕ × Level
entry_at es i = get_or es i (0, empty_level)

-- `it == overflow.end() || it->first != price`
unfoldable pub missing_at : List (ℕ × Level) → ℕ → ℕ → Bool
missing_at es i price = i == length es || (entry_at es i).0 != price

-- `overflow.insert(it, e)` and `overflow.erase(it)`
unfoldable pub insert_at : List (ℕ × Level) → ℕ → ℕ × Level → List (ℕ × Level)
insert_at es zero e = e ∷ es
insert_at [] (suc i) e = e ∷ []
insert_at (x ∷ es) (suc i) e = x ∷ insert_at es i e

unfoldable pub erase_at : List (ℕ × Level) → ℕ → List (ℕ × Level)
erase_at [] i = []
erase_at (x ∷ es) zero = es
erase_at (x ∷ es) (suc i) = x ∷ erase_at es i

-- The loops of `advanceBest`, over the slots that are left. The bid loop has `slot + 1` rounds.
scan_down : (ℕ → Level) → ℕ → ℕ
scan_down ladder zero = if (ladder 0).head == invalid_index then invalid_index else 0
scan_down ladder (suc slot) =
    let rest = scan_down ladder slot in
    if (ladder (suc slot)).head == invalid_index then rest else suc slot

-- `left` is `window - slot`.
scan_up : (ℕ → Level) → (left slot : ℕ) → ℕ
scan_up ladder zero slot = invalid_index
scan_up ladder (suc left) slot =
    let rest = scan_up ladder left (slot + 1) in
    if (ladder slot).head == invalid_index then rest else slot

unfoldable pub advance_best : LadderSide → LadderSide
unfolding scan_down scan_up
advance_best s =
    if s.best_slot == invalid_index
    then s
    else let best =
        if s.bid
        then scan_down s.ladder s.best_slot
        else scan_up s.ladder (window - s.best_slot) s.best_slot in
      record s { best_slot = best }

-- A better slot than the best one, or the first.
unfoldable pub improves : LadderSide → ℕ → Bool
improves s slot =
    s.best_slot == invalid_index || (if s.bid then ltb s.best_slot slot else ltb slot s.best_slot)

add_to_slot : Nodes → LadderSide → ℕ → ℕ → Nodes × LadderSide
unfolding link_at_tail improves
add_to_slot ns s slot idx =
    let (ns', lvl) = link_at_tail ns (s.ladder slot) idx in
    (
      ns',
      record s {
        ladder = update s.ladder slot lvl;
        best_slot = if improves s slot then slot else s.best_slot;
      },
    )

-- The vector with an entry for `price` at its place `i`.
unfoldable pub with_entry : List (ℕ × Level) → ℕ → ℕ → List (ℕ × Level)
unfolding missing_at insert_at
with_entry es i price = if missing_at es i price then insert_at es i (price, empty_level) else es

unfoldable pub add_to_overflow : Nodes → LadderSide → ℕ → ℕ → Nodes × LadderSide
unfolding link_at_tail with_entry overflow_lower_bound
add_to_overflow ns s price idx =
    let i = overflow_lower_bound s.overflow price in
    let es = with_entry s.overflow i price in
    let (ns', lvl) = link_at_tail ns (entry_at es i).1 idx in
    (ns', record s { overflow = set es i ((entry_at es i).0, lvl) })

unfoldable pub add : Nodes → LadderSide → ℕ → ℕ → Nodes × LadderSide
unfolding anchor price_to_slot add_to_slot add_to_overflow
add ns s price idx =
    let s' = if not s.anchored then anchor s price else s in
    elim (price_to_slot s' price) [
      | some slot ↦ add_to_slot ns s' slot idx
      | none ↦ add_to_overflow ns s' price idx
    ]

remove_from_slot : Nodes → LadderSide → ℕ → ℕ → Nodes × LadderSide
unfolding unlink advance_best
remove_from_slot ns s slot idx =
    let (ns', lvl) = unlink ns (s.ladder slot) idx in
    let s' = record s { ladder = update s.ladder slot lvl } in
    (ns', if lvl.head == invalid_index && slot == s.best_slot then advance_best s' else s')

unfoldable pub remove_from_overflow : Nodes → LadderSide → ℕ → ℕ → Nodes × LadderSide
unfolding unlink missing_at overflow_lower_bound erase_at
remove_from_overflow ns s price idx =
    let i = overflow_lower_bound s.overflow price in
    if missing_at s.overflow i price
    then (ns, s)
    else let (ns', lvl) = unlink ns (entry_at s.overflow i).1 idx in
      (
        ns',
        record s {
          overflow =
              if lvl.head == invalid_index
              then erase_at s.overflow i
              else set s.overflow i ((entry_at s.overflow i).0, lvl);
        },
      )

unfoldable pub remove : Nodes → LadderSide → ℕ → ℕ → Nodes × LadderSide
unfolding price_to_slot remove_from_slot remove_from_overflow
remove ns s price idx = elim (price_to_slot s price) [
  | some slot ↦ remove_from_slot ns s slot idx
  | none ↦ remove_from_overflow ns s price idx
]

-- What the returned `Level*` points into: a slot of the ladder, or an entry of the vector.
pub data LevelRef : Type 0 where
  slot_ref : ℕ → LevelRef
  entry_ref : ℕ → LevelRef

unfoldable pub get_level : LadderSide → LevelRef → Level
get_level s (slot_ref slot) = s.ladder slot
get_level s (entry_ref i) = (entry_at s.overflow i).1

unfoldable pub set_level : LadderSide → LevelRef → Level → LadderSide
set_level s (slot_ref slot) lvl = record s { ladder = update s.ladder slot lvl }
set_level s (entry_ref i) lvl = record s {
  overflow = set s.overflow i ((entry_at s.overflow i).0, lvl);
}

-- The end of the vector that holds its best price, as an index.
abbrev pub edge : LadderSide → ℕ
edge s = if s.bid then length s.overflow - 1 else 0

abbrev pub edge_price : LadderSide → ℕ
edge_price s = (entry_at s.overflow (edge s)).0

-- `none` is the null pointer. The price is what is written through `priceOut`.
unfoldable pub best_level : LadderSide → Option (ℕ × LevelRef)
unfolding slot_to_price
best_level s =
    let ladder_empty = s.best_slot == invalid_index in
    let overflow_empty = length s.overflow == 0 in
    let ladder_price = slot_to_price s s.best_slot in
    let ladder_wins =
      if s.bid then leb (edge_price s) ladder_price else leb ladder_price (edge_price s) in
    if ladder_empty && overflow_empty
    then none
    else if overflow_empty
    then some (ladder_price, slot_ref s.best_slot)
    else if ladder_empty
    then some (edge_price s, entry_ref (edge s))
    else if ladder_wins
    then some (ladder_price, slot_ref s.best_slot)
    else some (edge_price s, entry_ref (edge s))

unfoldable pub remove_empty_best : LadderSide → ℕ → LadderSide
unfolding price_to_slot advance_best missing_at overflow_lower_bound erase_at
remove_empty_best s price = elim (price_to_slot s price) [
  | some slot ↦ if slot == s.best_slot then advance_best s else s
  | none ↦
      let i = overflow_lower_bound s.overflow price in
      if missing_at s.overflow i price then s else record s { overflow = erase_at s.overflow i }
]
