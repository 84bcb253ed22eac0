-- ===== src/Ladder/Drain.antt =====
-- The best level of ladder_side.hpp, written back after matching and dropped if it is empty.
use orderbook.Prelude.{
  ℕ, suc, zero, ◌+◌, ◌*◌, ◌≤◌, ◌<◌, ◌^◌, ◌≡◌, refl, sym, subst, ap, ◌∙◌, ◌≢◌, ◌⊎◌, inl, inr, true,
  false, List, [], ◌∷◌, none, some, arith, ◌==◌, if◌then◌else◌, Option-cases, Bool-cases, length,
  set,
}
use native.Mathlib.Decide.{ℕ_discrete}
use orderbook.Pool.{invalid_index}
use orderbook.Ladder.{
  Level, LadderSide, LevelRef, slot_ref, entry_ref, empty_level, tick, price_to_slot, slot_to_price,
  best_level, get_level, set_level, remove_empty_best, entry_at, missing_at, overflow_lower_bound,
  with_entry,
}
use orderbook.Ladder.Best.{Populated}
use orderbook.Ladder.Overflow.{
  Ascending, Changed, level_at, or_empty, missing_at-level, written, written-Changed, erased,
  erased-Changed,
}
use orderbook.Ladder.Top.{NoWorse, Best, best_level-Best}
use orderbook.Ladder.Shape.{
  Shape, level_of, level_of-slot, level_of-entry, price_of-slot, slot_of-price,
}
use orderbook.Ladder.Becomes.{Becomes, entry-Becomes}
use orderbook.Ladder.Shrink.{Tidy, settled, settled-Becomes, held-anchored}

-- What the handlers do with the best level after matching: written back, and dropped if drained.
abbrev pub drained : LadderSide → ℕ → LevelRef → Level → LadderSide
drained s price ref lvl =
    let s' = set_level s ref lvl in
    if lvl.head == invalid_index then remove_empty_best s' price else s'

entry-above :
    (low : ℕ) (es : List (ℕ × Level)) (i : ℕ)
    → Ascending low es
    → i < length es
    → low ≤ (entry_at es i).0
entry-above low [] i s h = absurd (omega arith)
entry-above low (e ∷ es) zero s h = s.0
entry-above low (e ∷ es) (suc i) (le, s) h =
    omega (arith, entry-above (suc e.0) es i s (omega arith))

-- In a sorted vector the search finds an entry where it stands.
lower_bound_self :
    (low : ℕ) (es : List (ℕ × Level)) (i : ℕ)
    → Ascending low es
    → i < length es
    → overflow_lower_bound es (entry_at es i).0 ≡ i
unfolding overflow_lower_bound
lower_bound_self low [] i s h = absurd (omega arith)
lower_bound_self low (e ∷ es) zero s h = ground arith
lower_bound_self low (e ∷ es) (suc i) (le, s) h =
    let rest = lower_bound_self (suc e.0) es i s (omega arith) in
    let above = entry-above (suc e.0) es i s (omega arith) in ground (arith, rest, above)

present :
    (es : List (ℕ × Level)) (price : ℕ) (lvl : Level)
    → level_at es price ≡ (
        if missing_at es (overflow_lower_bound es price) price
        then none
        else some (entry_at es (overflow_lower_bound es price)).1)
    → level_at es price ≡ some lvl
    → missing_at es (overflow_lower_bound es price) price ≡ false
present es price lvl found here = ground arith

module _ (s : LadderSide) (v : Shape s) (price : ℕ) (lvl : Level) where
  drained_slot-settled :
      (i : ℕ)
      → price_to_slot s price ≡ some i
      → i ≡ s.best_slot
      → drained s price (slot_ref i) lvl ≡ settled s i lvl
  unfolding set_level remove_empty_best price_to_slot
  drained_slot-settled i at best = ground arith

  written-set :
      (i : ℕ)
      → i < length s.overflow
      → (entry_at s.overflow i).0 ≡ price
      → missing_at s.overflow (overflow_lower_bound s.overflow price) price ≡ false
      → set s.overflow i ((entry_at s.overflow i).0, lvl) ≡ written s.overflow price lvl
  unfolding with_entry
  written-set i h is there =
      let at : overflow_lower_bound s.overflow price ≡ i =
        subst (λ p. overflow_lower_bound s.overflow p ≡ i) is
          (lower_bound_self 0 s.overflow i v.sound.sorted h) in
      ground (arith, there, at)

  drained_entry-eq :
      (i : ℕ)
      → price_to_slot s price ≡ none
      → set s.overflow i ((entry_at s.overflow i).0, lvl) ≡ written s.overflow price lvl
      → missing_at
          (written s.overflow price lvl)
          (overflow_lower_bound (written s.overflow price lvl) price)
          price
        ≡ false
      → drained s price (entry_ref i) lvl ≡ record s {
        overflow =
            if lvl.head == invalid_index
            then erased (written s.overflow price lvl) price
            else written s.overflow price lvl;
      }
  unfolding set_level remove_empty_best price_to_slot
  drained_entry-eq i at is there = elim (ℕ_discrete lvl.head invalid_index) [
    | yes gone ↦ ground (arith, at, is, there)
    | no kept ↦ ground (arith, is)
  ]

  drained_entry-Becomes :
      (i : ℕ) (old : Level)
      → i < length s.overflow
      → (entry_at s.overflow i).0 ≡ price
      → level_at s.overflow price ≡ some old
      → Tidy lvl
      → Becomes s (drained s price (entry_ref i) lvl) price lvl
  drained_entry-Becomes i old h is held tidy =
      let at = (v.held price old held).1 in
      let anchored = held-anchored s price old v held in
      let found = missing_at-level 0 s.overflow price v.sound.sorted in
      let there : missing_at s.overflow (overflow_lower_bound s.overflow price) price ≡ false =
        ground arith in
      let c = written-Changed 0 s.overflow price lvl v.sound.sorted (omega arith) in
      let found' = missing_at-level 0 (written s.overflow price lvl) price c.sorted in
      let there' = present (written s.overflow price lvl) price lvl found' c.here in
      let run = drained_entry-eq i at (written-set i h is there) there' in
      elim (ℕ_discrete lvl.head invalid_index) [
        | yes gone ↦
            let c' = erased-Changed 0 (written s.overflow price lvl) price c.sorted there' in
            let both : Changed 0 (erased (written s.overflow price lvl) price) s.overflow price
                none =
              record {
                sorted = c'.sorted;
                here = c'.here;
                elsewhere = λ q ne. c'.elsewhere q ne ∙ c.elsewhere q ne;
              } in
            let b =
              entry-Becomes s v price _ none at anchored both (λ l e. absurd (ground arith)) in
            let run' : drained s price (entry_ref i) lvl
                ≡ record s { overflow = erased (written s.overflow price lvl) price } =
              ground (arith, run, gone) in
            subst (λ l. Becomes s (drained s price (entry_ref i) lvl) price l) (sym (tidy gone))
              (subst (λ t. Becomes s t price empty_level) (sym run') b)
        | no kept ↦
            let b = entry-Becomes s v price _ (some lvl) at anchored c (λ l e. ground arith) in
            let run' : drained s price (entry_ref i) lvl
                ≡ record s { overflow = written s.overflow price lvl } =
              ground (arith, run, kept) in
            subst (λ t. Becomes s t price lvl) (sym run') b
      ]

slot_price :
    (s : LadderSide) (slot : ℕ)
    → s.base + slot * tick < 2 ^ 32
    → slot_to_price s slot ≡ s.base + slot * tick
unfolding slot_to_price
slot_price s slot h = omega arith

no_level :
    (s : LadderSide) (q : ℕ)
    → (level_of s q).head ≢ invalid_index
    → ((j : ℕ) × (price_to_slot s q ≡ some j) × Populated s.ladder j)
      ⊎ ((l : Level) × (level_at s.overflow q ≡ some l))
no_level s q full = elim (Option-cases (price_to_slot s q)) [
  | inr (j, at) ↦ inl (j, at, subst (λ l. l.head ≢ invalid_index) (level_of-slot s q j at) full)
  | inl at ↦ elim (Option-cases (level_at s.overflow q)) [
    | inl e ↦ absurd (ground (arith, level_of-entry s q at))
    | inr (l, e) ↦ inr (l, e)
  ]
]

get_level-slot : (s : LadderSide) (i : ℕ) → get_level s (slot_ref i) ≡ s.ladder i
unfolding get_level
get_level-slot s i = refl

get_level-entry : (s : LadderSide) (i : ℕ) → get_level s (entry_ref i) ≡ (entry_at s.overflow i).1
unfolding get_level
get_level-entry s i = refl

-- What `bestLevel` found: the level of the best price at which orders rest.
pub record Finds (s : LadderSide) (price : ℕ) (ref : LevelRef) : Type 0 where
  pub level : get_level s ref ≡ level_of s price
  pub full : (level_of s price).head ≢ invalid_index
  pub best : (q : ℕ) → (level_of s q).head ≢ invalid_index → NoWorse s.bid price q
  pub drained : (lvl : Level) → Tidy lvl → Becomes s (drained s price ref lvl) price lvl

module _ (s : LadderSide) (v : Shape s) where
  pub best_level-null : best_level s ≡ none → (q : ℕ) → (level_of s q).head ≡ invalid_index
  best_level-null e q =
      let (no_entry, vacant) = subst (Best s) e (best_level-Best s v.sound) in
      elim (ℕ_discrete (level_of s q).head invalid_index) [
        | yes empty ↦ empty
        | no full ↦ elim (no_level s q full) [
          | inl (j, at, p) ↦ absurd (p (vacant j (slot_of-price s q j at).0))
          | inr (l, held) ↦ absurd (ground (arith, no_entry q))
        ]
      ]

  all-NoWorse :
      (price : ℕ) (ref : LevelRef)
      → Best s (some (price, ref))
      → (q : ℕ) → (level_of s q).head ≢ invalid_index
      → NoWorse s.bid price q
  all-NoWorse price ref (holds, entries, slots) q full = elim (no_level s q full) [
    | inl (j, at, p) ↦
        let (h, is, anchored) = slot_of-price s q j at in
        let same : slot_to_price s j ≡ q = slot_price s j (v.sound.fits j h p) ∙ sym is in
        subst (NoWorse s.bid price) same (slots j h p)
    | inr (l, held) ↦ entries q l held
  ]

  pub best_level-Finds :
      (price : ℕ) (ref : LevelRef) → best_level s ≡ some (price, ref) → Finds s price ref
  best_level-Finds price (slot_ref i) e =
      let b = subst (Best s) e (best_level-Best s v.sound) in
      let (best, h, p, is) = b.0 in
      let is' : price ≡ s.base + i * tick = is ∙ slot_price s i (v.sound.fits i h p) in
      let anchored : s.anchored ≡ true = elim (Bool-cases s.anchored) [
        | inl a ↦ a
        | inr a ↦ absurd (ground (arith, v.unanchored a))
      ] in
      let at : price_to_slot s price ≡ some i =
        ap (price_to_slot s) is' ∙ price_of-slot s i anchored h in
      let here = level_of-slot s price i at in
      record {
        level = get_level-slot s i ∙ sym here;
        full = subst (λ l. l.head ≢ invalid_index) (sym here) p;
        best = all-NoWorse price (slot_ref i) b;
        drained = λ lvl tidy.
            subst (λ t. Becomes s t price lvl) (sym (drained_slot-settled s v price lvl i at best))
              (settled-Becomes s v price (omega (arith, is', v.sound.fits i h p)) i at lvl p);
      }
  best_level-Finds price (entry_ref i) e =
      let b = subst (Best s) e (best_level-Best s v.sound) in
      let (h, is, held) = b.0 in
      let old = v.held price (entry_at s.overflow i).1 held in
      let here : level_of s price ≡ (entry_at s.overflow i).1 =
        level_of-entry s price old.1 ∙ ap or_empty held in
      record {
        level = get_level-entry s i ∙ sym here;
        full = subst (λ l. l.head ≢ invalid_index) (sym here) old.0;
        best = all-NoWorse price (entry_ref i) b;
        drained = λ lvl tidy.
            drained_entry-Becomes s v price lvl i (entry_at s.overflow i).1 h is held tidy;
      }
