-- ===== src/Ladder/Grow.antt =====
-- `add` of ladder_side.hpp, on the map from prices to levels.
use orderbook.Prelude.{
  ℕ, ◌<◌, ◌^◌, ◌≡◌, refl, sym, ap, ◌∙◌, ◌≢◌, inl, inr, true, false, none, some, arith,
  if◌then◌else◌, Option-cases, Bool-cases,
}
use orderbook.Pool.{Nodes, invalid_index}
use orderbook.Ladder.{
  LadderSide, price_to_slot, anchor, add, add_to_slot, add_to_overflow, link_at_tail, improves,
}
use orderbook.Ladder.Overflow.{level_at, or_empty, add_to_overflow-Changed}
use orderbook.Ladder.Shape.{Shape, level_of, level_of-slot, level_of-entry, slot_of-price}
use orderbook.Ladder.Becomes.{Becomes, BestSlot-improve, slot-Becomes, entry-Becomes}

-- The first price centres the ladder, which changes no level.
pub record Anchors (s s' : LadderSide) : Type 0 where
  pub shape : Shape s'
  pub anchored : s'.anchored ≡ true
  pub level : (q : ℕ) → level_of s' q ≡ level_of s q
  pub bid : s'.bid ≡ s.bid

anchor-Anchors :
    (s : LadderSide) (price : ℕ) → Shape s → s.anchored ≡ false → Anchors s (anchor s price)
unfolding anchor level_of price_to_slot level_at
anchor-Anchors s price v free =
    let (no_entry, no_best) = v.unanchored free in
    record {
      shape = record {
        sound = record {
          sorted = rw no_entry tt;
          fits = λ i hi p. absurd (p refl);
          best = inl (no_best, λ i hi. refl);
        };
        held = λ q l h. absurd (ground (arith, no_entry));
        unanchored = λ a. absurd (ground arith);
      };
      anchored = refl;
      level = λ q. ground (arith, no_entry, free);
      bid = refl;
    }

module _ (ns : Nodes) (s : LadderSide) (v : Shape s) (price idx : ℕ) (fits : price < 2 ^ 32) where
  add_to_slot-Becomes :
      (slot : ℕ)
      → price_to_slot s price ≡ some slot
      → (link_at_tail ns (s.ladder slot) idx).1.head ≢ invalid_index
      → ((add_to_slot ns s slot idx).0 ≡ (link_at_tail ns (s.ladder slot) idx).0)
        × Becomes s (add_to_slot ns s slot idx).1 price (link_at_tail ns (s.ladder slot) idx).1
  unfolding add_to_slot
  add_to_slot-Becomes slot at full =
      let lvl = (link_at_tail ns (s.ladder slot) idx).1 in
      (
        refl,
        slot-Becomes s v price slot (if improves s slot then slot else s.best_slot) lvl at fits
            (BestSlot-improve s slot lvl v.sound.best (slot_of-price s price slot at).0 full),
      )

  add_to_overflow-Becomes :
      price_to_slot s price ≡ none
      → s.anchored ≡ true
      → (link_at_tail ns (or_empty (level_at s.overflow price)) idx).1.head ≢ invalid_index
      → ((add_to_overflow ns s price idx).0
          ≡ (link_at_tail ns (or_empty (level_at s.overflow price)) idx).0)
        × Becomes s
            (add_to_overflow ns s price idx).1
            price
            (link_at_tail ns (or_empty (level_at s.overflow price)) idx).1
  add_to_overflow-Becomes at anchored full =
      let (nodes, changed, rest) = add_to_overflow-Changed ns s price idx v.sound.sorted in
      let lvl = (link_at_tail ns (or_empty (level_at s.overflow price)) idx).1 in
      (
        nodes,
        rw rest (
            entry-Becomes s v price (add_to_overflow ns s price idx).1.overflow (some lvl) at
              anchored changed (λ l e. ground arith)),
      )

-- What `add` does to the level of a price, and to no other.
abbrev pub Adds : Nodes → LadderSide → ℕ → ℕ → Nodes × LadderSide → Type 0
Adds ns s price idx r =
    (r.0 ≡ (link_at_tail ns (level_of s price) idx).0)
    × Becomes s r.1 price (link_at_tail ns (level_of s price) idx).1

module _ (ns : Nodes) (s : LadderSide) (v : Shape s) (price idx : ℕ) (fits : price < 2 ^ 32) where
  add-Adds_anchored :
      s.anchored ≡ true
      → (link_at_tail ns (level_of s price) idx).1.head ≢ invalid_index
      → Adds ns s price idx (add ns s price idx)
  unfolding add
  add-Adds_anchored anchored full = elim (Option-cases (price_to_slot s price)) [
    | inl at ↦
        let here : level_of s price ≡ or_empty (level_at s.overflow price) =
          level_of-entry s price at in
        let done = add_to_overflow-Becomes ns s v price idx fits at anchored (rw (sym here) full) in
        let run : add ns s price idx ≡ add_to_overflow ns s price idx =
          ground (arith, anchored, at) in
        rw run (rw here done)
    | inr (slot, at) ↦
        let here : level_of s price ≡ s.ladder slot = level_of-slot s price slot at in
        let done = add_to_slot-Becomes ns s v price idx fits slot at (rw (sym here) full) in
        let run : add ns s price idx ≡ add_to_slot ns s slot idx = ground (arith, anchored, at) in
        rw run (rw here done)
  ]

-- If a side has each level in its slot or in the sorted vector, its best slot is right, the price
-- fits 32 bits and the level has a head once the order is linked, then `add` links the order at
-- the end of the level of its price, leaves the levels of all other prices as they were, and
-- leaves a side of that kind, also when the first price centres the ladder.
pub add-Adds :
    (ns : Nodes) (s : LadderSide) (price idx : ℕ)
    → Shape s
    → price < 2 ^ 32
    → (link_at_tail ns (level_of s price) idx).1.head ≢ invalid_index
    → Adds ns s price idx (add ns s price idx)
unfolding add
add-Adds ns s price idx v fits full = elim (Bool-cases s.anchored) [
  | inl anchored ↦ add-Adds_anchored ns s v price idx fits anchored full
  | inr free ↦
      let a = anchor-Anchors s price v free in
      let s' = anchor s price in
      let (nodes, b) =
        add-Adds_anchored ns (anchor s price) a.shape price idx fits a.anchored
          (rw (a.level price) full) in
      let run : add ns s price idx ≡ add ns (anchor s price) price idx =
        ground (arith, free, a.anchored) in
      rw run (
        nodes ∙ ap (λ l. (link_at_tail ns l idx).0) (a.level price),
        record {
          shape = b.shape;
          level = λ q. ground (arith, b.level q, a.level q, a.level price);
          bid = b.bid ∙ a.bid;
        },
      )
]
