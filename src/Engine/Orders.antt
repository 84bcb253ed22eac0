-- ===== src/Engine/Orders.antt =====
-- The messages of matching_engine.cpp that end or shorten a resting order, over the finite map that
-- the order map of the engine stands for.
use orderbook.Prelude.{
  ℕ, ◌-◌, ◌^◌, ◌≤◌, ◌<◌, ◌≡◌, refl, ap, ◌≢◌, ◌⊎◌, inl, inr, true, List, Option, none, some, arith,
  ◌==◌, if◌then◌else◌, ◌+◌,
}
use orderbook.Run.{ok}
use orderbook.Itch.{join_ref, read_delete_order, read_order_executed}
use orderbook.Pool.{set_shares}
use orderbook.Book.{remove_by_index, with_nodes, with_shares}
use orderbook.HashMap.Valid.{IsValid, occupied, view}
use orderbook.HashMap.Find.{find-view}
use orderbook.HashMap.Erase.{erase-view}
use orderbook.Engine.{
  Engine, OrderLocation, OrderMap, no_ref, drop_order, map_erase, map_find, in_fuel, process_delete,
  process_executed, reduce_order, set_book,
}

-- The order map is well formed, with `2 ^ k` slots.
abbrev pub MapValid : ℕ → Engine → Type 0
MapValid k e = IsValid no_ref true k e.order_map

-- Where the engine has the order with this reference.
abbrev pub location : ℕ → Engine → ℕ → Option OrderLocation
location k e ref = view no_ref true k e.order_map ref

-- `e'` is `e` without the order `ref`, which was at `loc`.
pub record Drops (k : ℕ) (e e' : Engine) (loc : OrderLocation) (ref : ℕ) : Type 0 where
  pub valid : MapValid k e'
  pub used : occupied no_ref (2 ^ k) e'.order_map.table ≤ occupied no_ref (2 ^ k) e.order_map.table
  pub locations :
      (j : ℕ) → j ≢ no_ref → location k e' j ≡ (if ref == j then none else location k e j)
  pub book :
      (e'.pool, e'.order_books loc.stock_locate)
      ≡ remove_by_index e.pool (e.order_books loc.stock_locate) loc.pool_idx
  pub others : (i : ℕ) → i ≢ loc.stock_locate → e'.order_books i ≡ e.order_books i

module _ (k : ℕ) (e : Engine) (v : MapValid k e) (ref : ℕ) (real : ref ≢ no_ref) where
  pub map_erase-view :
      (m' : OrderMap) × (map_erase e.order_map ref ≡ ok m')
      × IsValid no_ref true k m'
      × (occupied no_ref (2 ^ k) m'.table ≤ occupied no_ref (2 ^ k) e.order_map.table)
      × ((j : ℕ)
          → j ≢ no_ref
          → view no_ref true k m' j ≡ (if ref == j then none else location k e j))
  unfolding map_erase
  map_erase-view =
      let (m', run, valid, used, same) = erase-view v ref real in
      (m', ap in_fuel run, valid, used, same)

  pub map_find-view : map_find e.order_map ref ≡ ok (location k e ref)
  unfolding map_find
  map_find-view = ap in_fuel (find-view v ref real)

  drop_order-Drops :
      (loc : OrderLocation) → (e' : Engine) × (drop_order e loc ref ≡ ok e') × Drops k e e' loc ref
  unfolding drop_order
  drop_order-Drops loc =
      let (m', run, valid, used, same) = map_erase-view in
      let (pool, book) = remove_by_index e.pool (e.order_books loc.stock_locate) loc.pool_idx in
      (
        record (set_book e pool loc.stock_locate book) { order_map = m' },
        ground (arith, run),
        record {
          valid = valid;
          used = used;
          locations = same;
          book = ground arith;
          others = λ i ne. ground arith;
        },
      )

abbrev pub delete_ref : List ℕ → ℕ
delete_ref body =
    let msg = (read_delete_order body).0 in
    join_ref msg.order_reference_number_high msg.order_reference_number_low

-- What a deletion of `ref` does, whether or not the engine has it.
abbrev Deleted : ℕ → Engine → Engine → ℕ → Option OrderLocation → Type 0
Deleted k e e' ref none = e' ≡ e
Deleted k e e' ref (some loc) = Drops k e e' loc ref

-- If the order map is well formed and the reference of the message is not the empty key,
-- `process_delete` returns and leaves a well-formed map. An unknown reference changes nothing. A
-- known order is taken out of the pool and of its book by `remove_by_index`, out of the map under
-- its reference only, and the other books are unchanged.
process_delete-Deleted :
    (k : ℕ) (e : Engine) (body : List ℕ)
    → MapValid k e
    → delete_ref body ≢ no_ref
    → (e' : Engine) × (process_delete e body ≡ ok e')
      × MapValid k e'
      × Deleted k e e' (delete_ref body) (location k e (delete_ref body))
unfolding process_delete
process_delete-Deleted k e body v real = by_location (location k e (delete_ref body)) refl
  where
    by_location :
        (l : Option OrderLocation)
        → location k e (delete_ref body) ≡ l
        → (e' : Engine) × (process_delete e body ≡ ok e')
          × MapValid k e'
          × Deleted k e e' (delete_ref body) l
    by_location none is =
        let found = map_find-view k e v (delete_ref body) real in
        (e, ground (arith, found, is), v, refl)
    by_location (some loc) is =
        let found = map_find-view k e v (delete_ref body) real in
        let (e', run, dropped) = drop_order-Drops k e v (delete_ref body) real loc in
        (e', ground (arith, found, is, run), dropped.valid, dropped)

-- `e'` is `e` with `shares` fewer on the order at `loc`, which keeps its place; nothing else differs.
pub record Shortens (e e' : Engine) (loc : OrderLocation) (shares : ℕ) : Type 0 where
  pub left :
      (e'.pool.nodes loc.pool_idx).order.shares + shares ≡ (e.pool.nodes loc.pool_idx).order.shares
  pub positive : 0 < (e'.pool.nodes loc.pool_idx).order.shares
  pub node : e'.pool.nodes loc.pool_idx ≡ record (e.pool.nodes loc.pool_idx) {
    order = with_shares (e.pool.nodes loc.pool_idx).order (e'.pool.nodes loc.pool_idx).order.shares;
  }
  pub others : (i : ℕ) → i ≢ loc.pool_idx → e'.pool.nodes i ≡ e.pool.nodes i
  pub rest : e' ≡ record e { pool = with_nodes e.pool e'.pool.nodes }

-- What an execution of `shares` of `ref` does: the order goes when no share is left.
abbrev Executed : ℕ → Engine → Engine → ℕ → ℕ → Option OrderLocation → Type 0
Executed k e e' ref shares none = e' ≡ e
Executed k e e' ref shares (some loc) =
    (((e.pool.nodes loc.pool_idx).order.shares ≤ shares) × Drops k e e' loc ref)
    ⊎ Shortens e e' loc shares

le_or_lt : (a b : ℕ) → (a ≤ b) ⊎ (b < a)
le_or_lt a b = ground arith

module _ (k : ℕ) (e : Engine) (v : MapValid k e) (ref : ℕ) (real : ref ≢ no_ref) where
  abbrev shortened : OrderLocation → ℕ → Engine
  shortened loc shares =
      let left = (e.pool.nodes loc.pool_idx).order.shares - shares in
      record e { pool = with_nodes e.pool (set_shares e.pool.nodes loc.pool_idx left) }

  reduce_order-Executed :
      (loc : OrderLocation) (shares : ℕ)
      → (e' : Engine) × (reduce_order e loc ref shares ≡ ok e')
        × MapValid k e'
        × Executed k e e' ref shares (some loc)
  unfolding reduce_order
  reduce_order-Executed loc shares =
      let (e', run, dropped) = drop_order-Drops k e v ref real loc in
      elim (le_or_lt (e.pool.nodes loc.pool_idx).order.shares shares) [
        | inl le ↦ (e', ground (arith, run), dropped.valid, inl (le, dropped))
        | inr lt ↦ (
          shortened loc shares,
          ground arith,
          v,
          inr (record {
            left = ground arith;
            positive = ground arith;
            node = ground arith;
            others = λ i ne. ground arith;
            rest = refl;
          }),
        )
      ]

-- If the order map is well formed and the reference of the message is not the empty key,
-- `process_executed` returns and leaves a well-formed map. An unknown reference changes nothing.
-- A known order goes, from its book and the map, if the shares executed are as many as it has or
-- more; otherwise it loses them, keeps its place in its queue, and nothing else changes in the
-- nodes, the map and the books.
process_executed-Executed :
    (k : ℕ) (e : Engine) (body : List ℕ)
    → MapValid k e
    → (read_order_executed body).0.order_ref ≢ no_ref
    → (e' : Engine) × (process_executed e body ≡ ok e')
      × MapValid k e'
      × Executed k e e'
          (read_order_executed body).0.order_ref
          (read_order_executed body).0.shares
          (location k e (read_order_executed body).0.order_ref)
unfolding process_executed
process_executed-Executed k e body v real =
    by_location (location k e (read_order_executed body).0.order_ref) refl
  where
    by_location :
        (l : Option OrderLocation)
        → location k e (read_order_executed body).0.order_ref ≡ l
        → (e' : Engine) × (process_executed e body ≡ ok e')
          × MapValid k e'
          × Executed k e e'
              (read_order_executed body).0.order_ref
              (read_order_executed body).0.shares
              l
    by_location none is =
        let found = map_find-view k e v (read_order_executed body).0.order_ref real in
        (e, ground (arith, found, is), v, refl)
    by_location (some loc) is =
        let found = map_find-view k e v (read_order_executed body).0.order_ref real in
        let (e', run, valid, done) =
          reduce_order-Executed k e v (read_order_executed body).0.order_ref real loc
            (read_order_executed body).0.shares in
        (e', ground (arith, found, is, run), valid, done)
