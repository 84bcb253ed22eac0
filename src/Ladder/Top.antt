-- ===== src/Ladder/Top.antt =====
-- `bestLevel` of ladder_side.hpp compares the best slot of the ladder with an end of the vector.
use orderbook.Prelude.{
  ℕ, suc, ◌+◌, ◌-◌, ◌*◌, ◌^◌, ◌≤◌, ◌<◌, ◌≡◌, refl, subst, ◌≢◌, ◌⊎◌, inl, inr, Bool, true, false,
  List, [], ◌∷◌, Option, none, some, arith, leb, if◌then◌else◌, length, get_or,
}
use orderbook.Pool.{invalid_index}
use native.Mathlib.Decide.{ℕ_discrete}
use orderbook.Ladder.{
  empty_level, Level, LadderSide, LevelRef, slot_ref, entry_ref, window, tick, entry_at, edge_price,
  edge, slot_to_price, best_level,
}
use orderbook.Ladder.Best.{Populated, Vacant}
use orderbook.Ladder.Overflow.{Ascending, level_at}

-- A price is at least as good as another, on the bid side and on the ask side.
abbrev pub NoWorse : Bool → ℕ → ℕ → Type 0
NoWorse true price q = q ≤ price
NoWorse false price q = price ≤ q

-- `best_slot` is the best populated slot, or none is populated; prices of orders fit 32 bits.
pub record Sound (s : LadderSide) : Type 0 where
  pub sorted : Ascending 0 s.overflow
  pub fits : (i : ℕ) → i < window → Populated s.ladder i → s.base + i * tick < 2 ^ 32
  pub best :
      ((s.best_slot ≡ invalid_index) × ((i : ℕ) → i < window → Vacant s.ladder i))
      ⊎ ((s.best_slot < window)
          × Populated s.ladder s.best_slot
          × ((i : ℕ) → i < window → Populated s.ladder i → NoWorse s.bid s.best_slot i))

first-least :
    (low : ℕ) (es : List (ℕ × Level)) (q : ℕ) (l : Level)
    → Ascending low es
    → level_at es q ≡ some l
    → low ≤ q
unfolding level_at
first-least low [] q l s h = absurd (ground arith)
first-least low (e ∷ es) q l (le, s) h = ground (arith, first-least (suc e.0) es q l s)

abbrev none_at : ℕ × Level
none_at = (0, empty_level)

last-greatest :
    (low : ℕ) (e : ℕ × Level) (es : List (ℕ × Level)) (q : ℕ) (l : Level)
    → Ascending low (e ∷ es)
    → level_at (e ∷ es) q ≡ some l
    → q ≤ (get_or (e ∷ es) (length es) none_at).0
unfolding level_at
last-greatest low e [] q l s h = ground arith
last-greatest low e (f ∷ es) q l (le, s) h =
    let top = last-greatest (suc e.0) f es f.0 f.1 s (ground arith) in
    elim (ℕ_discrete e.0 q) [
      | yes same ↦ omega (arith, top, s.0)
      | no other ↦ last-greatest (suc e.0) f es q l s (ground arith)
    ]

last-held :
    (low : ℕ) (e : ℕ × Level) (es : List (ℕ × Level))
    → Ascending low (e ∷ es)
    → level_at (e ∷ es) (get_or (e ∷ es) (length es) none_at).0
      ≡ some (get_or (e ∷ es) (length es) none_at).1
unfolding level_at
last-held low e [] s = ground arith
last-held low e (f ∷ es) (le, s) =
    let rest = last-held (suc e.0) f es s in
    let top = last-greatest (suc e.0) f es f.0 f.1 s (ground arith) in
    let ne : e.0 ≢ (get_or (f ∷ es) (length es) none_at).0 =
      λ is. absurd (omega (arith, top, s.0, is)) in
    ground (arith, rest, ne)

edge_of-best :
    (bid : Bool) (e : ℕ × Level) (es : List (ℕ × Level))
    → Ascending 0 (e ∷ es)
    → let i = (if bid then length (e ∷ es) - 1 else 0) in
      ((q : ℕ) (l : Level) → level_at (e ∷ es) q ≡ some l → NoWorse bid (entry_at (e ∷ es) i).0 q)
      × (level_at (e ∷ es) (entry_at (e ∷ es) i).0 ≡ some (entry_at (e ∷ es) i).1)
unfolding level_at
edge_of-best true e es s =
    let at : length (e ∷ es) - 1 ≡ length es = omega arith in
    rw at ((λ q l h. last-greatest 0 e es q l s h), last-held 0 e es s)
edge_of-best false e es (le, s) =
    ((λ q l h. first-least e.0 (e ∷ es) q l (omega arith, s) h), ground arith)

-- A populated slot or an entry, with its price; and what the result of `bestLevel` should be.
abbrev pub Holds : LadderSide → ℕ → LevelRef → Type 0
Holds s price (slot_ref i) =
    (i ≡ s.best_slot) × (i < window) × Populated s.ladder i × (price ≡ slot_to_price s i)
Holds s price (entry_ref i) =
    (i < length s.overflow)
    × ((entry_at s.overflow i).0 ≡ price)
    × (level_at s.overflow price ≡ some (entry_at s.overflow i).1)

abbrev pub Best : LadderSide → Option (ℕ × LevelRef) → Type 0
Best s none = ((q : ℕ) → level_at s.overflow q ≡ none) × ((i : ℕ) → i < window → Vacant s.ladder i)
Best s (some (price, ref)) =
    Holds s price ref
    × ((q : ℕ) (l : Level) → level_at s.overflow q ≡ some l → NoWorse s.bid price q)
    × ((i : ℕ) → i < window → Populated s.ladder i → NoWorse s.bid price (slot_to_price s i))

slot_order :
    (s : LadderSide) (b : Bool) (i j : ℕ)
    → s.base + i * tick < 2 ^ 32
    → s.base + j * tick < 2 ^ 32
    → NoWorse b i j
    → NoWorse b (slot_to_price s i) (slot_to_price s j)
unfolding slot_to_price
slot_order s true i j hi hj le = omega arith
slot_order s false i j hi hj le = omega arith

trans : (b : Bool) (x y z : ℕ) → NoWorse b x y → NoWorse b y z → NoWorse b x z
trans true x y z p q = omega arith
trans false x y z p q = omega arith

-- The vector is empty.
best_level-Best_ladder : (s : LadderSide) → Sound s → s.overflow ≡ [] → Best s (best_level s)
unfolding best_level level_at
best_level-Best_ladder s v is = elim v.best [
  | inl (none_left, vacant) ↦
      let result : best_level s ≡ none = ground arith in rw result ((λ q. rw is refl), vacant)
  | inr (lt, full, top) ↦
      let result : best_level s ≡ some (slot_to_price s s.best_slot, slot_ref s.best_slot) =
        ground arith in
      rw result (
        (refl, lt, full, refl),
        (λ q l h. absurd (ground (arith, is))),
        λ i hi p.
            slot_order s s.bid s.best_slot i (v.fits s.best_slot lt full) (v.fits i hi p)
              (top i hi p),
      )
]

-- The test whether the ladder wins, and what it says.
wins :
    (b : Bool) (ladder entry : ℕ)
    → (((if b then leb entry ladder else leb ladder entry) ≡ true) × NoWorse b ladder entry)
      ⊎ (((if b then leb entry ladder else leb ladder entry) ≡ false) × NoWorse b entry ladder)
wins true ladder entry = ground arith
wins false ladder entry = ground arith

-- The vector is not empty.
best_level-Best_both :
    (s : LadderSide) (e : ℕ × Level) (es : List (ℕ × Level))
    → Sound s
    → s.overflow ≡ e ∷ es
    → ((q : ℕ) (l : Level) → level_at s.overflow q ≡ some l → NoWorse s.bid (edge_price s) q)
    → level_at s.overflow (edge_price s) ≡ some (entry_at s.overflow (edge s)).1
    → Best s (best_level s)
unfolding best_level
best_level-Best_both s e es v is top held =
    let within : edge s < length s.overflow = ground (arith, is) in
    elim v.best [
      | inl (none_left, vacant) ↦
          let result : best_level s ≡ some (edge_price s, entry_ref (edge s)) = ground arith in
          rw result ((within, refl, held), top, λ i hi p. absurd (p (vacant i hi)))
      | inr (lt, full, best) ↦
          let order = λ (i : ℕ) (hi : i < window) (p : Populated s.ladder i).
            slot_order s s.bid s.best_slot i (v.fits s.best_slot lt full) (v.fits i hi p)
              (best i hi p) in
          elim (wins s.bid (slot_to_price s s.best_slot) (edge_price s)) [
            | inl (test, better) ↦
                let result : best_level s
                    ≡ some (slot_to_price s s.best_slot, slot_ref s.best_slot) =
                  ground (arith, test) in
                rw result (
                  (refl, lt, full, refl),
                  λ q l h.
                      trans s.bid (slot_to_price s s.best_slot) (edge_price s) q better (top q l h),
                  order,
                )
            | inr (test, better) ↦
                let result : best_level s ≡ some (edge_price s, entry_ref (edge s)) =
                  ground (arith, test) in
                rw result (
                  (within, refl, held),
                  top,
                  λ i hi p.
                      trans s.bid (edge_price s) (slot_to_price s s.best_slot) (slot_to_price s i)
                        better (order i hi p),
                )
          ]
    ]

-- If the overflow vector is sorted, the prices of populated slots fit 32 bits, and `best_slot` is
-- the best populated slot or no slot is populated, then `best_level` is null only if nothing
-- rests on the side; otherwise it points to a populated slot, or to an entry of the vector, whose
-- price it reports, and the price is at least as good as that of every other.
pub best_level-Best : (s : LadderSide) → Sound s → Best s (best_level s)
best_level-Best s v = go s.overflow refl
  where
    go : (es : List (ℕ × Level)) → s.overflow ≡ es → Best s (best_level s)
    go [] is = best_level-Best_ladder s v is
    go (e ∷ es) is =
        let ends = edge_of-best s.bid e es (subst (Ascending 0) is v.sorted) in
        best_level-Best_both s e es v is (rw is ends.0) (rw is ends.1)
