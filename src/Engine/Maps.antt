-- ===== src/Engine/Maps.antt =====
-- The order map of matching_engine.cpp when references are erased one after another.
use orderbook.Prelude.{
  ℕ, ◌+◌, ◌^◌, ◌≤◌, ◌<◌, ◌≡◌, refl, ap, ◌≢◌, true, List, [], ◌∷◌, Option, none, some, arith, ◌==◌,
  if◌then◌else◌, has,
}
use orderbook.Run.{ok}
use orderbook.HashMap.Valid.{IsValid, occupied, view}
use orderbook.HashMap.Find.{insert-view}
use orderbook.HashMap.Erase.{erase-view}
use orderbook.Engine.{OrderLocation, OrderMap, no_ref, erase_all, in_fuel, map_erase, map_insert}

module _ (k : ℕ) where
  abbrev pub MapOk : OrderMap → Type 0
  MapOk m = IsValid no_ref true k m

  abbrev pub map_used : OrderMap → ℕ
  map_used m = occupied no_ref (2 ^ k) m.table

  abbrev pub in_map : OrderMap → ℕ → Option OrderLocation
  in_map m ref = view no_ref true k m ref

  -- If no reference is the empty key, erasing all of them returns a well-formed map with no more
  -- slots in use, that holds what it held but for these references.
  pub erase_all-view :
      (m : OrderMap) (refs : List ℕ)
      → MapOk m
      → ((r : ℕ) → has r refs ≡ true → r ≢ no_ref)
      → (m' : OrderMap) × (erase_all m refs ≡ ok m')
        × MapOk m'
        × (map_used m' ≤ map_used m)
        × ((j : ℕ) → j ≢ no_ref → in_map m' j ≡ (if has j refs then none else in_map m j))
  unfolding erase_all map_erase
  erase_all-view m [] v real = (m, refl, v, omega arith, λ j ne. refl)
  erase_all-view m (ref ∷ refs) v real =
      let (m1, run, v1, used, same) = erase-view v ref (real ref (ground arith)) in
      let (m', run', v', used', same') =
        erase_all-view m1 refs v1 (λ r i. real r (ground (arith, i))) in
      (
        m',
        ground (arith, run, run'),
        v',
        omega (arith, used, used'),
        λ j ne. ground (arith, same j ne, same' j ne),
      )

  pub map_insert-view :
      (m : OrderMap) (ref : ℕ) (loc : OrderLocation)
      → MapOk m
      → ref ≢ no_ref
      → map_used m + 1 < 2 ^ k
      → (m' : OrderMap) × (map_insert m ref loc ≡ ok m')
        × MapOk m'
        × (map_used m' ≤ map_used m + 1)
        × ((j : ℕ) → j ≢ no_ref → in_map m' j ≡ (if ref == j then some loc else in_map m j))
  unfolding map_insert
  map_insert-view m ref loc v real spare =
      let (m', run, v', used, same) = insert-view v ref loc real spare in
      (m', ap in_fuel run, v', used, same)
