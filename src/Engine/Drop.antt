-- ===== src/Engine/Drop.antt =====
-- An order leaves the engine of matching_engine.cpp: its book, the pool and the map.
use orderbook.Prelude.{
  ℕ, ◌≡◌, sym, ap, subst, ◌∙◌, ◌≢◌, inl, inr, Bool, true, false, not, List, ◌∷◌, ◌++◌, none, some,
  arith, ◌==◌, if◌then◌else◌, has, has-append,
}
use native.Mathlib.Decide.{ℕ_discrete}
use orderbook.Run.{ok}
use orderbook.Pool.{OrderPool, free}
use orderbook.Pool.Reuse.{IsLive}
use orderbook.HashMap.Valid.{IsValid, view}
use orderbook.Book.{OrderBook, ref_of, remove_by_index}
use orderbook.Book.Departs.{ref_at}
use orderbook.Book.Resting.{replaced}
use orderbook.Book.Sides.{Stocked, ladder_at}
use orderbook.Book.Enter.{side_of}
use orderbook.Book.Uncrossed.{Apart}
use orderbook.Book.Withdraw.{Withdrawn, remove_by_index-Withdrawn}
use orderbook.Book.Trade.{Taken-Apart, split_at}
use orderbook.Engine.{Engine, OrderLocation, OrderMap, no_ref, drop_order, set_book}
use orderbook.Engine.Orders.{Drops, location, map_erase-view}
use orderbook.Engine.Books.{Consistent, at, both, both-all, both-Apart, maker, one_ref, side-Apart}
use orderbook.Engine.Replaces.{Replaces, Replaces-Consistent}

module _ (k : ℕ) (e : Engine) (c : Consistent k e) (b : Bool) (locate p idx : ℕ) (xs ys : List ℕ)
    (split : c.queue b locate p ≡ xs ++ (idx ∷ ys)) (m : OrderMap) (valid : IsValid no_ref true k m)
    (locations : (j : ℕ)
      → j ≢ no_ref
      → view no_ref true k m j
        ≡ (if ref_at e.pool.nodes idx == j then none else location k e j)) where
  abbrev after_pool : OrderPool
  after_pool = (remove_by_index e.pool (e.order_books locate) idx).0

  abbrev after_book : OrderBook
  after_book = (remove_by_index e.pool (e.order_books locate) idx).1

  abbrev q : ℕ → List ℕ
  q = replaced (c.queue b locate) p (xs ++ ys)

  abbrev r : ℕ → List ℕ
  r = c.queue (not b) locate

  w :
      Withdrawn b e.pool
        (e.order_books locate)
        (c.queue b locate)
        r
        c.free_list
        p
        idx
        xs
        ys
        (remove_by_index e.pool (e.order_books locate) idx)
  w =
      remove_by_index-Withdrawn b e.pool (e.order_books locate) (c.queue b locate) r c.free_list p
        idx xs ys (c.sides b locate) (c.sides (not b) locate) split

  queued : has idx (c.queue b locate p) ≡ true
  queued = subst (λ l. has idx l ≡ true) (sym split) (ground (arith, has-append idx xs (idx ∷ ys)))

  same_ref : (a : ℕ) → ref_at after_pool.nodes a ≡ ref_at e.pool.nodes a
  same_ref a = ap ref_of (w.taken.orders a)

  -- The members of the new queues are those of the old, but for the node taken out.
  was_queued : (y a : ℕ) → has a (q y) ≡ true → has a (c.queue b locate y) ≡ true
  was_queued y a i = elim (ℕ_discrete p y) [
    | yes here ↦
        subst (λ z. has a (c.queue b locate z) ≡ true) here
          (subst (λ l. has a l ≡ true) (sym split)
            (ground (arith, has-append a xs (idx ∷ ys), has-append a xs ys)))
    | no ne ↦ ground arith
  ]

  old_member :
      (b' : Bool) (y a : ℕ)
      → has a (both b q r b' y) ≡ true
      → (has a (c.queue b' locate y) ≡ true) × (a ≢ idx)
  old_member b' y a =
      both-all (λ d s. has a (s y) ≡ true → (has a (c.queue d locate y) ≡ true) × (a ≢ idx)) b q r
        (λ i. (was_queued y a i, not_idx (w.taken.stocked.live y a i)))
        (λ i. (i, not_idx (w.other.live y a i))) b'
    where
      not_idx : IsLive after_pool (idx ∷ c.free_list) a → a ≢ idx
      not_idx live same = ground (arith, live.1, same)

  still_member :
      (b' : Bool) (y a : ℕ)
      → a ≢ idx
      → has a (c.queue b' locate y) ≡ true
      → has a (both b q r b' y) ≡ true
  still_member b' y a ne =
      both-all (λ d s. has a (c.queue d locate y) ≡ true → has a (s y) ≡ true) b q r stays (λ i. i)
        b'
    where
      stays : has a (c.queue b locate y) ≡ true → has a (q y) ≡ true
      stays i = elim (ℕ_discrete p y) [
        | yes here ↦
            let j : has a (xs ++ (idx ∷ ys)) ≡ true =
              subst (λ l. has a l ≡ true) split
                (subst (λ z. has a (c.queue b locate z) ≡ true) (sym here) i) in
            ground (arith, j, has-append a xs (idx ∷ ys), has-append a xs ys)
        | no other ↦ ground arith
      ]

  real : ref_at e.pool.nodes idx ≢ no_ref
  real = (c.listed b locate p idx queued).0

  was_at : location k e (ref_at e.pool.nodes idx) ≡ some (at locate idx)
  was_at = (c.listed b locate p idx queued).1

  apart' :
      Apart true
        (ladder_at after_pool.nodes (both b q r true))
        (ladder_at after_pool.nodes (both b q r false))
  apart' = both-Apart b after_pool.nodes q r (
      Taken-Apart b e.pool after_pool (side_of b after_book) (c.queue b locate) r c.free_list p idx
        xs ys w.taken split (side-Apart c b locate))

  dropped_listed :
      (b' : Bool) (y a : ℕ)
      → has a (both b q r b' y) ≡ true
      → (ref_at after_pool.nodes a ≢ no_ref)
        × (view no_ref true k m (ref_at after_pool.nodes a) ≡ some (at locate a))
        × ((after_pool.nodes a).order.buy_sell_indicator ≡ maker b')
  dropped_listed b' y a i =
      let (old, ne) = old_member b' y a i in
      let (ok_ref, found, mark) = c.listed b' locate y a old in
      let other : ref_at e.pool.nodes idx ≢ ref_at e.pool.nodes a =
        λ z. ne (sym (one_ref c b b' locate locate p y idx a queued old z)) in
      let there : view no_ref true k m (ref_at e.pool.nodes a) ≡ some (at locate a) =
        locations (ref_at e.pool.nodes a) ok_ref ∙ ground (arith, other, found) in
      (
        λ z. ok_ref (sym (same_ref a) ∙ z),
        ap (view no_ref true k m) (same_ref a) ∙ there,
        ap (λ o. o.buy_sell_indicator) (w.taken.orders a) ∙ mark,
      )

  kept_location :
      (ref : ℕ) (loc : OrderLocation)
      → ref ≢ no_ref
      → view no_ref true k m ref ≡ some loc
      → (location k e ref ≡ some loc) × (ref_at e.pool.nodes idx ≢ ref)
  kept_location ref loc ok_ref found =
      let l = locations ref ok_ref in (ground (arith, l, found), ground (arith, l, found))

  drop-Replaces : Replaces k e c locate after_pool after_book m (both b q r) (idx ∷ c.free_list)
  drop-Replaces = record {
    valid = valid;
    sides =
        both-all (λ d s. Stocked after_pool d (side_of d after_book) s (idx ∷ c.free_list)) b q r
          w.taken.stocked w.other;
    apart = apart';
    spares =
        λ a live out. w.taken.spares a live (λ z. ground (arith, out b p, queued, z)) (out b p);
    listed = dropped_listed;
    elsewhere = λ ref loc ok_ref ne found. ground (arith, locations ref ok_ref, found, was_at, ne);
    rests = λ ref loc ok_ref found. elim (ℕ_discrete loc.stock_locate locate) [
      | no ne ↦ inr (ne, (kept_location ref loc ok_ref found).0)
      | yes same ↦
          let (old, other) = kept_location ref loc ok_ref found in
          let (b', y, i, is) = c.rests ref loc ok_ref old in
          let ne : loc.pool_idx ≢ idx = λ z. other (ap (ref_at e.pool.nodes) (sym z) ∙ is) in
          let i' : has loc.pool_idx (c.queue b' locate y) ≡ true = ground (arith, i, same) in
          inl (same, (b', y, still_member b' y loc.pool_idx ne i', same_ref loc.pool_idx ∙ is))
    ];
  }

-- `e'` is `e` without the order `ref`, which was at `loc`, and is consistent.
pub record Dropped (k : ℕ) (e e' : Engine) (loc : OrderLocation) (ref : ℕ) : Type 0 where
  pub consistent : Consistent k e'
  pub drops : Drops k e e' loc ref
  pub size : e'.pool.size ≡ e.pool.size
  pub times : (e'.latencies ≡ e.latencies) × (e'.wire_latencies ≡ e.wire_latencies)

remove_by_index-size :
    (pool : OrderPool) (book : OrderBook) (idx : ℕ)
    → (remove_by_index pool book idx).0.size ≡ pool.size
unfolding remove_by_index free
remove_by_index-size pool book idx = ground arith

pub drop_order-Dropped :
    (k : ℕ) (e : Engine) (c : Consistent k e) (ref : ℕ) (loc : OrderLocation)
    → ref ≢ no_ref
    → location k e ref ≡ some loc
    → (e' : Engine) × (drop_order e loc ref ≡ ok e') × Dropped k e e' loc ref
unfolding drop_order
drop_order-Dropped k e c ref loc real found =
    let (b, p, i, is) = c.rests ref loc real found in
    let (xs, ys, split) = split_at loc.pool_idx (c.queue b loc.stock_locate p) i in
    let (m, run, valid, used, locations) = map_erase-view k e c.map ref real in
    let (pool, book) = remove_by_index e.pool (e.order_books loc.stock_locate) loc.pool_idx in
    let locations' =
      subst
        (λ z.
          (j : ℕ) → j ≢ no_ref → view no_ref true k m j ≡ (if z == j then none else location k e j))
        (sym is) locations in
    (
      record (set_book e pool loc.stock_locate book) { order_map = m },
      ground (arith, run),
      record {
        consistent =
            Replaces-Consistent k e c loc.stock_locate pool book m _ (loc.pool_idx ∷ c.free_list) (
              drop-Replaces k e c b loc.stock_locate p loc.pool_idx xs ys split m valid locations');
        drops = record {
          valid = valid;
          used = used;
          locations = locations;
          book = ground arith;
          others = λ i ne. ground arith;
        };
        size = remove_by_index-size e.pool (e.order_books loc.stock_locate) loc.pool_idx;
        times = (ground arith, ground arith);
      },
    )
