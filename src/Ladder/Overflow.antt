-- ===== src/Ladder/Overflow.antt =====
-- The sorted vector of ladder_side.hpp for the prices outside the ladder.
use orderbook.Prelude.{
  ℕ, suc, ◌≤◌, ◌<◌, ◌≡◌, refl, ◌≢◌, false, List, [], ◌∷◌, Option, none, some, arith, ◌==◌,
  if◌then◌else◌, set,
}
use orderbook.Pool.{Nodes, invalid_index}
use native.Mathlib.Decide.{dec_lt, ℕ_discrete}
use orderbook.Ladder.{
  Level, empty_level, entry_at, overflow_lower_bound, missing_at, insert_at, erase_at, with_entry,
  LadderSide, add_to_overflow, remove_from_overflow, link_at_tail, unlink,
}

-- Each price is above the one before it, and the first above `low`, or at least `low` itself.
abbrev pub Ascending : ℕ → List (ℕ × Level) → Type 0
Ascending low [] = Unit
Ascending low (e ∷ es) = (low ≤ e.0) × Ascending (suc e.0) es

-- The queue that the vector has for a price.
unfoldable pub level_at : List (ℕ × Level) → ℕ → Option Level
level_at [] price = none
level_at (e ∷ es) price = if e.0 == price then some e.1 else level_at es price

below-none :
    (low : ℕ) (es : List (ℕ × Level)) (price : ℕ)
    → Ascending low es
    → price < low
    → level_at es price ≡ none
unfolding level_at
below-none low [] price s lt = refl
below-none low (e ∷ es) price (le, s) lt = ground (arith, below-none (suc e.0) es price s)

-- In a sorted vector the search finds out whether there is an entry for the price.
pub missing_at-level :
    (low : ℕ) (es : List (ℕ × Level)) (price : ℕ)
    → Ascending low es
    → level_at es price ≡ (
        if missing_at es (overflow_lower_bound es price) price
        then none
        else some (entry_at es (overflow_lower_bound es price)).1)
unfolding level_at missing_at overflow_lower_bound
missing_at-level low [] price s = refl
missing_at-level low (e ∷ es) price (le, s) =
    ground (arith, missing_at-level (suc e.0) es price s, below-none (suc e.0) es price s)

-- The vector `es'` is `es` with `l` as what it has for `price`, and is sorted.
pub record Changed (low : ℕ) (es' es : List (ℕ × Level)) (price : ℕ) (l : Option Level)
    : Type 0 where
  pub sorted : Ascending low es'
  pub here : level_at es' price ≡ l
  pub elsewhere : (q : ℕ) → q ≢ price → level_at es' q ≡ level_at es q

-- The entry for the price, made if it is missing, and with `lvl` written to it.
abbrev pub written : List (ℕ × Level) → ℕ → Level → List (ℕ × Level)
written es price lvl =
    let i = overflow_lower_bound es price in
    let es' = with_entry es i price in set es' i ((entry_at es' i).0, lvl)

pub written-Changed :
    (low : ℕ) (es : List (ℕ × Level)) (price : ℕ) (lvl : Level)
    → Ascending low es
    → low ≤ price
    → Changed low (written es price lvl) es price (some lvl)
unfolding level_at overflow_lower_bound with_entry missing_at insert_at
written-Changed low [] price lvl s le = record {
  sorted = (le, tt);
  here = ground arith;
  elsewhere = λ q ne. ground arith;
}
written-Changed low (e ∷ es) price lvl (le', s) le = elim (dec_lt e.0 price) [
  | yes lt ↦
      let c = written-Changed (suc e.0) es price lvl s (omega arith) in
      let at : written (e ∷ es) price lvl ≡ e ∷ written es price lvl = ground arith in
      record {
        sorted = rw at (le', c.sorted);
        here = ground (arith, at, c.here);
        elsewhere = λ q ne. ground (arith, at, c.elsewhere q);
      }
  | no ge ↦ elim (ℕ_discrete e.0 price) [
    | yes same ↦
        let at : written (e ∷ es) price lvl ≡ (e.0, lvl) ∷ es = ground arith in
        record {
          sorted = rw at (le', s);
          here = ground (arith, at);
          elsewhere = λ q ne. ground (arith, at);
        }
    | no other ↦
        let at : written (e ∷ es) price lvl ≡ (price, lvl) ∷ e ∷ es = ground arith in
        record {
          sorted = rw at (le, (omega arith, s));
          here = ground (arith, at);
          elsewhere = λ q ne. ground (arith, at);
        }
  ]
]

weaken : (low low' : ℕ) (es : List (ℕ × Level)) → low ≤ low' → Ascending low' es → Ascending low es
weaken low low' [] le s = s
weaken low low' (e ∷ es) le (h, s) = (omega arith, s)

-- The entry for the price taken out.
abbrev pub erased : List (ℕ × Level) → ℕ → List (ℕ × Level)
erased es price = erase_at es (overflow_lower_bound es price)

pub erased-Changed :
    (low : ℕ) (es : List (ℕ × Level)) (price : ℕ)
    → Ascending low es
    → missing_at es (overflow_lower_bound es price) price ≡ false
    → Changed low (erased es price) es price none
unfolding level_at overflow_lower_bound missing_at erase_at
erased-Changed low [] price s there = absurd (ground arith)
erased-Changed low (e ∷ es) price (le', s) there = elim (dec_lt e.0 price) [
  | yes lt ↦
      let c = erased-Changed (suc e.0) es price s (ground arith) in
      let at : erased (e ∷ es) price ≡ e ∷ erased es price = ground arith in
      record {
        sorted = rw at (le', c.sorted);
        here = ground (arith, at, c.here);
        elsewhere = λ q ne. ground (arith, at, c.elsewhere q);
      }
  | no ge ↦
      let at : erased (e ∷ es) price ≡ es = ground arith in
      record {
        sorted = rw at (weaken low (suc e.0) es (omega arith) s);
        here = ground (arith, at, below-none (suc e.0) es price s);
        elsewhere = λ q ne. ground (arith, at);
      }
]

abbrev pub or_empty : Option Level → Level
or_empty none = empty_level
or_empty (some lvl) = lvl

with_entry-level :
    (low : ℕ) (es : List (ℕ × Level)) (price : ℕ)
    → Ascending low es
    → (entry_at
        (with_entry es (overflow_lower_bound es price) price)
        (overflow_lower_bound es price)).1
      ≡ or_empty (level_at es price)
unfolding with_entry level_at overflow_lower_bound missing_at insert_at
with_entry-level low [] price s = ground arith
with_entry-level low (e ∷ es) price (le, s) =
    ground (arith, with_entry-level (suc e.0) es price s, below-none (suc e.0) es price s)

-- If the overflow vector is sorted by price without repetition, `add_to_overflow` appends the
-- order to the queue of its price, an empty one if there was none. The vector stays sorted, the
-- queues of other prices and the rest of the side are unchanged.
pub add_to_overflow-Changed :
    (ns : Nodes) (s : LadderSide) (price idx : ℕ)
    → Ascending 0 s.overflow
    → let old = or_empty (level_at s.overflow price) in
      let (ns', s') = add_to_overflow ns s price idx in
      (ns' ≡ (link_at_tail ns old idx).0)
      × Changed 0 s'.overflow s.overflow price (some (link_at_tail ns old idx).1)
      × (s' ≡ record s { overflow = s'.overflow })
unfolding add_to_overflow
add_to_overflow-Changed ns s price idx sorted =
    let at = with_entry-level 0 s.overflow price sorted in
    let c =
      written-Changed 0 s.overflow price
        (link_at_tail ns (or_empty (level_at s.overflow price)) idx).1 sorted (omega arith) in
    (rw at refl, rw at c, refl)

-- What is left of a queue in the vector after an unlink.
abbrev pub unless_empty : Level → Option Level
unless_empty lvl = if lvl.head == invalid_index then none else some lvl

-- If the overflow vector is sorted by price without repetition and has a queue for the price,
-- `remove_from_overflow` unlinks the order from it, and takes the entry out if the queue is empty
-- then. The vector stays sorted, the queues of other prices and the rest of the side are
-- unchanged.
pub remove_from_overflow-Changed :
    (ns : Nodes) (s : LadderSide) (price idx : ℕ) (old : Level)
    → Ascending 0 s.overflow
    → level_at s.overflow price ≡ some old
    → let (ns', s') = remove_from_overflow ns s price idx in
      (ns' ≡ (unlink ns old idx).0)
      × Changed 0 s'.overflow s.overflow price (unless_empty (unlink ns old idx).1)
      × (s' ≡ record s { overflow = s'.overflow })
unfolding remove_from_overflow with_entry
remove_from_overflow-Changed ns s price idx old sorted held =
    let found = missing_at-level 0 s.overflow price sorted in
    let there : missing_at s.overflow (overflow_lower_bound s.overflow price) price ≡ false =
      ground arith in
    let at : (entry_at s.overflow (overflow_lower_bound s.overflow price)).1 ≡ old = ground arith in
    let lvl = (unlink ns old idx).1 in
    elim (ℕ_discrete lvl.head invalid_index) [
      | yes gone ↦
          let result : remove_from_overflow ns s price idx
              ≡ ((unlink ns old idx).0, record s { overflow = erased s.overflow price }) =
            ground (arith, there, at, gone) in
          let left : unless_empty lvl ≡ none = ground arith in
          (
            rw result refl,
            rw result (rw left (erased-Changed 0 s.overflow price sorted there)),
            rw result refl,
          )
      | no kept ↦
          let result : remove_from_overflow ns s price idx
              ≡ ((unlink ns old idx).0, record s { overflow = written s.overflow price lvl }) =
            ground (arith, there, at, kept) in
          let left : unless_empty lvl ≡ some lvl = ground arith in
          (
            rw result refl,
            rw result (rw left (written-Changed 0 s.overflow price lvl sorted (omega arith))),
            rw result refl,
          )
    ]
