-- ===== src/Examples/Orders.antt =====
-- The order map and the messages on it, with a collision that wraps around the end of the table.
use orderbook.Prelude.{
  ℕ, ◌+◌, ◌^◌, ◌≤◌, ◌<◌, ◌≡◌, refl, ◌≢◌, true, List, [], ◌∷◌, none, some, arith, ◌==◌, ◌++◌,
  if◌then◌else◌,
}
use orderbook.HashMap.{FlatHashMap}
use orderbook.HashMap
use orderbook.HashMap.Valid.{IsValid, view, occupied}
use orderbook.HashMap.Find.{find-view, insert-view}
use orderbook.HashMap.Erase.{erase-view}
use orderbook.Engine.{OrderLocation, no_ref}
use native.Mathlib.Decide.{ℕ_discrete}
use orderbook.Prelude.Cycle.{dist}
use orderbook.Itch.{read_order_executed, skip_header, read_ref, read_u32}
use orderbook.Examples.Data.{table, at_index}

-- Both entries have slot 7 as their home.
table_home : (a : ℕ) → (table.table a).key ≢ no_ref → HashMap.hash true 7 (table.table a).key ≡ 7
unfolding HashMap.hash
table_home a taken = elim (ℕ_discrete a 7) [
  | yes e ↦ rw e refl
  | no not_7 ↦ elim (ℕ_discrete a 0) [ yes e ↦ rw e refl | no not_0 ↦ absurd (ground arith) ]
]

pub table-IsValid : IsValid no_ref true 3 table
unfolding dist occupied
table-IsValid = record {
  width = omega arith;
  mask = refl;
  path = λ a s ha hs taken lt. ground (arith, table_home a taken);
  unique = λ a b ha hb taken e. ground arith;
  room = omega arith;
}

find-view_example : HashMap.find no_ref true table 15 ≡ some (view no_ref true 3 table 15)
find-view_example = find-view table-IsValid 15 (omega arith)

room : occupied no_ref (2 ^ 3) table.table + 1 < 2 ^ 3
unfolding occupied
room = omega arith

insert-view_example :
    (m' : FlatHashMap OrderLocation) × (HashMap.insert no_ref true table 9 (at_index 2) ≡ some m')
    × IsValid no_ref true 3 m'
    × (occupied no_ref 8 m'.table ≤ occupied no_ref 8 table.table + 1)
    × ((j : ℕ)
        → j ≢ no_ref
        → view no_ref true 3 m' j
          ≡ (if 9 == j then some (at_index 2) else view no_ref true 3 table j))
insert-view_example = insert-view table-IsValid 9 (at_index 2) (omega arith) room

erase-view_example :
    (m' : FlatHashMap OrderLocation) × (HashMap.erase no_ref true table 7 ≡ some m')
    × IsValid no_ref true 3 m'
    × (occupied no_ref 8 m'.table ≤ occupied no_ref 8 table.table)
    × ((j : ℕ)
        → j ≢ no_ref
        → view no_ref true 3 m' j ≡ (if 7 == j then none else view no_ref true 3 table j))
erase-view_example = erase-view table-IsValid 7 (omega arith)

abbrev ten_bytes : List ℕ
ten_bytes = 0 ∷ 3 ∷ 0 ∷ 0 ∷ 0 ∷ 0 ∷ 0 ∷ 0 ∷ 0 ∷ 0 ∷ []

-- The reference 15, and two shares.
abbrev pub body : List ℕ
body = ten_bytes ++ (0 ∷ 0 ∷ 0 ∷ 0 ∷ 0 ∷ 0 ∷ 0 ∷ 15 ∷ 0 ∷ 0 ∷ 0 ∷ 2 ∷ [])

pub known_executed : (read_order_executed body).0.order_ref ≢ no_ref
unfolding read_order_executed skip_header read_ref read_u32
known_executed = omega arith
