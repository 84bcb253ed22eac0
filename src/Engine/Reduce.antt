-- ===== src/Engine/Reduce.antt =====
-- The messages of matching_engine.cpp that end or shorten a resting order keep the engine consistent.
use orderbook.Prelude.{
  ℕ, ◌-◌, ◌≤◌, ◌<◌, ◌≡◌, refl, ◌≢◌, ◌⊎◌, inl, inr, List, Option, none, some, arith,
}
use native.Mathlib.Decide.{dec_le}
use orderbook.Run.{ok}
use orderbook.Itch.{read_order_executed}
use orderbook.Pool.{Nodes, set_shares}
use orderbook.Engine.{Engine, OrderLocation, no_ref, process_delete, process_executed, reduce_order}
use orderbook.Engine.Orders.{location, map_find-view, delete_ref, Shortens}
use orderbook.Engine.Maps.{map_used}
use orderbook.Engine.Books.{Consistent}
use orderbook.Engine.Drop.{Dropped, drop_order-Dropped}
use orderbook.Engine.Shorten.{OnlyShares, OnlyShares-Consistent}

-- The engine is consistent, and has no order that it did not have.
pub record Lessens (k : ℕ) (e e' : Engine) : Type 0 where
  pub consistent : Consistent k e'
  pub locations : (j : ℕ) → j ≢ no_ref → location k e j ≡ none → location k e' j ≡ none
  pub used : map_used k e'.order_map ≤ map_used k e.order_map
  pub size : e'.pool.size ≡ e.pool.size

Lessens-none : (k : ℕ) (e : Engine) → Consistent k e → Lessens k e e
Lessens-none k e c = record {
  consistent = c;
  locations = λ j real none_there. none_there;
  used = omega arith;
  size = refl;
}

Dropped-Lessens :
    (k : ℕ) (e e' : Engine) (loc : OrderLocation) (ref : ℕ)
    → Dropped k e e' loc ref
    → Lessens k e e'
Dropped-Lessens k e e' loc ref d = record {
  consistent = d.consistent;
  locations = λ j real none_there. ground (arith, d.drops.locations j real, none_there);
  used = d.drops.used;
  size = d.size;
}

set_shares-OnlyShares : (ns : Nodes) (idx n : ℕ) → 0 < n → OnlyShares (set_shares ns idx n) ns
set_shares-OnlyShares ns idx n more = record {
  links = λ a. (ground arith, ground arith);
  same = λ a. (ground arith, ground arith);
  price = λ a. ground arith;
  positive = λ a h. ground arith;
}

-- What a deletion of `ref` leaves.
abbrev pub AfterDelete : ℕ → Engine → Engine → ℕ → Option OrderLocation → Type 0
AfterDelete k e e' ref none = e' ≡ e
AfterDelete k e e' ref (some loc) = Dropped k e e' loc ref

-- What an execution of `shares` of `ref` leaves.
abbrev pub AfterExecution : ℕ → Engine → Engine → ℕ → ℕ → Option OrderLocation → Type 0
AfterExecution k e e' ref shares none = e' ≡ e
AfterExecution k e e' ref shares (some loc) =
    (((e.pool.nodes loc.pool_idx).order.shares ≤ shares) × Dropped k e e' loc ref)
    ⊎ Shortens e e' loc shares

module _ (k : ℕ) (e : Engine) (c : Consistent k e) where
  pub process_delete-Lessens :
      (body : List ℕ)
      → delete_ref body ≢ no_ref
      → (e' : Engine) × (process_delete e body ≡ ok e')
        × Lessens k e e'
        × AfterDelete k e e' (delete_ref body) (location k e (delete_ref body))
  unfolding process_delete
  process_delete-Lessens body real = by_location (location k e (delete_ref body)) refl
    where
      by_location :
          (l : Option OrderLocation)
          → location k e (delete_ref body) ≡ l
          → (e' : Engine) × (process_delete e body ≡ ok e')
            × Lessens k e e'
            × AfterDelete k e e' (delete_ref body) l
      by_location none is =
          let found = map_find-view k e c.map (delete_ref body) real in
          (e, ground (arith, found, is), Lessens-none k e c, refl)
      by_location (some loc) is =
          let found = map_find-view k e c.map (delete_ref body) real in
          let (e', run, d) = drop_order-Dropped k e c (delete_ref body) loc real is in
          (e', ground (arith, found, is, run), Dropped-Lessens k e e' loc (delete_ref body) d, d)

  reduce_order-Lessens :
      (ref : ℕ) (loc : OrderLocation) (shares : ℕ)
      → ref ≢ no_ref
      → location k e ref ≡ some loc
      → (e' : Engine) × (reduce_order e loc ref shares ≡ ok e')
        × Lessens k e e'
        × AfterExecution k e e' ref shares (some loc)
  unfolding reduce_order
  reduce_order-Lessens ref loc shares real found =
      let have = (e.pool.nodes loc.pool_idx).order.shares in
      elim (dec_le have shares) [
        | yes all ↦
            let (e', run, d) = drop_order-Dropped k e c ref loc real found in
            (e', ground (arith, run), Dropped-Lessens k e e' loc ref d, inl (all, d))
        | no less ↦ (
          _,
          ground arith,
          record {
            consistent =
                OnlyShares-Consistent k e c _
                  (set_shares-OnlyShares e.pool.nodes loc.pool_idx (have - shares) (omega arith));
            locations = λ j real' h. h;
            used = omega arith;
            size = refl;
          },
          inr (record {
            left = ground arith;
            positive = ground arith;
            node = ground arith;
            others = λ i ne. ground arith;
            rest = refl;
          }),
        )
      ]

  -- If the engine is consistent and the reference of the message is not the empty key,
  -- `process_executed` returns and leaves a consistent engine that knows no new reference. An
  -- unknown reference changes nothing. A known order goes, from its book and the map, if the
  -- shares executed are as many as it has or more, and the measured times, the other books and
  -- the other references stay. Otherwise it loses the shares, and nothing else of the engine
  -- changes: not the order's other fields, its place in its queue, the other nodes, the free
  -- list, the map, the books or the measured times.
  pub process_executed-Lessens :
      (body : List ℕ)
      → (read_order_executed body).0.order_ref ≢ no_ref
      → (e' : Engine) × (process_executed e body ≡ ok e')
        × Lessens k e e'
        × AfterExecution k e e'
            (read_order_executed body).0.order_ref
            (read_order_executed body).0.shares
            (location k e (read_order_executed body).0.order_ref)
  unfolding process_executed
  process_executed-Lessens body real =
      by_location (location k e (read_order_executed body).0.order_ref) refl
    where
      by_location :
          (l : Option OrderLocation)
          → location k e (read_order_executed body).0.order_ref ≡ l
          → (e' : Engine) × (process_executed e body ≡ ok e')
            × Lessens k e e'
            × AfterExecution k e e'
                (read_order_executed body).0.order_ref
                (read_order_executed body).0.shares
                l
      by_location none is =
          let found = map_find-view k e c.map (read_order_executed body).0.order_ref real in
          (e, ground (arith, found, is), Lessens-none k e c, refl)
      by_location (some loc) is =
          let found = map_find-view k e c.map (read_order_executed body).0.order_ref real in
          let (e', run, l, done) =
            reduce_order-Lessens (read_order_executed body).0.order_ref loc
              (read_order_executed body).0.shares real is in
          (e', ground (arith, found, is, run), l, done)
