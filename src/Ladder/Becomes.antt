-- ===== src/Ladder/Becomes.antt =====
-- Writing one level of a side of ladder_side.hpp, in its slot or in the vector.
use orderbook.Prelude.{
  ℕ, ◌<◌, ◌^◌, ◌≡◌, refl, sym, ap, ◌∙◌, ◌≢◌, ◌⊎◌, inl, inr, Bool, true, false, List, Option, none,
  some, arith, ◌==◌, ◌||◌, ltb, if◌then◌else◌, Option-cases, Bool-cases,
}
use orderbook.Prelude.Store.{update}
use orderbook.Pool.{invalid_index}
use native.Mathlib.Decide.{ℕ_discrete}
use orderbook.Ladder.{Level, LadderSide, window, price_to_slot, improves, advance_best}
use orderbook.Ladder.Best.{
  Populated, Vacant, Advanced, Lowest, found, none_left, advance_best-Advanced,
}
use orderbook.Ladder.Overflow.{Changed, level_at, or_empty}
use orderbook.Ladder.Top.{NoWorse}
use orderbook.Ladder.Shape.{Shape, level_of, slot_of-price, price_to_slot-same}

-- `s'` is `s` with `lvl` at `price`.
pub record Becomes (s s' : LadderSide) (price : ℕ) (lvl : Level) : Type 0 where
  pub shape : Shape s'
  pub level : (q : ℕ) → level_of s' q ≡ (if price == q then lvl else level_of s q)
  pub bid : s'.bid ≡ s.bid

-- `best` is the best populated slot of the ladder, or none is populated.
abbrev pub BestSlot : Bool → (ℕ → Level) → ℕ → Type 0
BestSlot b ladder best =
    ((best ≡ invalid_index) × ((i : ℕ) → i < window → Vacant ladder i))
    ⊎ ((best < window)
        × Populated ladder best
        × ((i : ℕ) → i < window → Populated ladder i → NoWorse b best i))

module _ (s : LadderSide) (v : Shape s) (price : ℕ) where
  module _ (slot best : ℕ) (lvl : Level) (at : price_to_slot s price ≡ some slot) where
    abbrev written_slot : LadderSide
    written_slot = record s { ladder = update s.ladder slot lvl; best_slot = best }

    slot-level : (q : ℕ) → level_of written_slot q ≡ (if price == q then lvl else level_of s q)
    unfolding level_of
    slot-level q =
        let here = slot_of-price s price slot at in
        let same = price_to_slot-same s written_slot q refl refl in
        elim (Option-cases (price_to_slot s q)) [
          | inl e ↦ ground (arith, same, e, at)
          | inr (j, e) ↦ let there = slot_of-price s q j e in ground (arith, same, e, here, there)
        ]

    pub slot-Becomes :
        price < 2 ^ 32
        → BestSlot s.bid (update s.ladder slot lvl) best
        → Becomes s written_slot price lvl
    slot-Becomes fits b =
        let here = slot_of-price s price slot at in
        record {
          shape = record {
            sound = record {
              sorted = v.sound.sorted;
              fits = λ i hi p. ground (arith, v.sound.fits i hi);
              best = b;
            };
            held = λ q l h.
                let same = price_to_slot-same s written_slot q refl refl in
                ((v.held q l h).0, same ∙ (v.held q l h).1);
            unanchored = λ a. absurd (ground (arith, here));
          };
          level = slot-level;
          bid = refl;
        }

  -- The vector with what `l` says at a price that has no slot.
  pub entry-Becomes :
      (es : List (ℕ × Level)) (l : Option Level)
      → price_to_slot s price ≡ none
      → s.anchored ≡ true
      → Changed 0 es s.overflow price l
      → ((lvl : Level) → l ≡ some lvl → lvl.head ≢ invalid_index)
      → Becomes s (record s { overflow = es }) price (or_empty l)
  unfolding level_of
  entry-Becomes es l at anchored c full = record {
    shape = record {
      sound = record { sorted = c.sorted; fits = v.sound.fits; best = v.sound.best };
      held = λ q lvl h. elim (ℕ_discrete q price) [
        | yes e ↦ (
          full lvl (sym c.here ∙ rw (sym e) h),
          price_to_slot-same s (record s { overflow = es }) q refl refl
              ∙ ap (price_to_slot s) e
              ∙ at,
        )
        | no ne ↦
            let old = v.held q lvl (sym (c.elsewhere q ne) ∙ h) in
            (old.0, price_to_slot-same s (record s { overflow = es }) q refl refl ∙ old.1)
      ];
      unanchored = λ a. absurd (ground arith);
    };
    level = λ q.
        let same = price_to_slot-same s (record s { overflow = es }) q refl refl in
        elim (ℕ_discrete price q) [
          | yes e ↦
              let none_there = same ∙ ap (price_to_slot s) (sym e) ∙ at in
              let here = ap (level_at es) (sym e) ∙ c.here in ground (arith, none_there, here)
          | no ne ↦ ground (arith, same, c.elsewhere q (λ e. ne (sym e)))
        ];
    bid = refl;
  }

module _ (b : Bool) (ladder : ℕ → Level) (slot best : ℕ) (lvl : Level) where
  -- A populated slot that is written stays below the best one.
  pub BestSlot-write :
      BestSlot b ladder best
      → Populated ladder slot
      → lvl.head ≢ invalid_index
      → slot < window
      → BestSlot b (update ladder slot lvl) best
  BestSlot-write (inl (e, vacant)) full new h = absurd (full (vacant slot h))
  BestSlot-write (inr (lt, at, top)) full new h =
      inr (lt, ground arith, λ i hi p. top i hi (ground arith))

  -- A slot that is not the best one may be emptied.
  pub BestSlot-clear :
      BestSlot b ladder best
      → slot ≢ best
      → lvl.head ≡ invalid_index
      → BestSlot b (update ladder slot lvl) best
  BestSlot-clear (inl (e, vacant)) ne new = inl (e, λ i hi. ground (arith, vacant i))
  BestSlot-clear (inr (lt, at, top)) ne new =
      inr (lt, ground arith, λ i hi p. top i hi (ground arith))

module _ (ladder : ℕ → Level) (slot best : ℕ) (lvl : Level) where
  abbrev better : Bool → Bool
  better b = best == invalid_index || (if b then ltb best slot else ltb slot best)

  improved :
      (b : Bool)
      → BestSlot b ladder best
      → slot < window
      → lvl.head ≢ invalid_index
      → BestSlot b (update ladder slot lvl) (if better b then slot else best)
  improved true (inl (gone, vacant)) h new =
      let e : (if better true then slot else best) ≡ slot = ground arith in
      rw e (inr (h, ground arith, λ i hi p. ground (arith, vacant i hi)))
  improved true (inr (lt, full, top)) h new = elim (Bool-cases (ltb best slot)) [
    | inl yes_better ↦
        let e : (if better true then slot else best) ≡ slot = ground arith in
        rw e (inr (h, ground arith, λ i hi p. ground (arith, top i hi)))
    | inr no_better ↦
        let e : (if better true then slot else best) ≡ best = ground arith in
        rw e (inr (lt, ground arith, λ i hi p. ground (arith, top i hi)))
  ]
  improved false (inl (gone, vacant)) h new =
      let e : (if better false then slot else best) ≡ slot = ground arith in
      rw e (inr (h, ground arith, λ i hi p. ground (arith, vacant i hi)))
  improved false (inr (lt, full, top)) h new = elim (Bool-cases (ltb slot best)) [
    | inl yes_better ↦
        let e : (if better false then slot else best) ≡ slot = ground arith in
        rw e (inr (h, ground arith, λ i hi p. ground (arith, top i hi)))
    | inr no_better ↦
        let e : (if better false then slot else best) ≡ best = ground arith in
        rw e (inr (lt, ground arith, λ i hi p. ground (arith, top i hi)))
  ]

-- A better slot that is populated becomes the best one.
pub BestSlot-improve :
    (s : LadderSide) (slot : ℕ) (lvl : Level)
    → BestSlot s.bid s.ladder s.best_slot
    → slot < window
    → lvl.head ≢ invalid_index
    → BestSlot s.bid (update s.ladder slot lvl) (if improves s slot then slot else s.best_slot)
unfolding improves
BestSlot-improve s slot lvl b h new = improved s.ladder slot s.best_slot lvl s.bid b h new

Advanced-BestSlot :
    (b : Bool) (ladder : ℕ → Level) (start best : ℕ)
    → start < window
    → ((i : ℕ) → i < window → Populated ladder i → NoWorse b start i)
    → Advanced b ladder start best
    → BestSlot b ladder best
Advanced-BestSlot true ladder start best h top (found le full empty) =
    inr (omega arith, full, λ i hi p. ground (arith, top i hi p, empty i))
Advanced-BestSlot true ladder start best h top (none_left e empty) =
    inl (e, λ i hi. ground (arith, top i hi, empty i))
Advanced-BestSlot false ladder start best h top (Lowest.found le lt full empty) =
    inr (lt, full, λ i hi p. ground (arith, top i hi p, empty i))
Advanced-BestSlot false ladder start best h top (Lowest.none_left e empty) =
    inl (e, λ i hi. ground (arith, top i hi, empty i))

-- The scan from a slot that no populated slot is better than.
pub BestSlot-advance :
    (s : LadderSide)
    → s.best_slot < window
    → ((i : ℕ) → i < window → Populated s.ladder i → NoWorse s.bid s.best_slot i)
    → BestSlot s.bid s.ladder (advance_best s).best_slot
BestSlot-advance s h top =
    Advanced-BestSlot s.bid s.ladder s.best_slot (advance_best s).best_slot h top
      (advance_best-Advanced s h s.bid refl).0
