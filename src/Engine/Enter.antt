-- ===== src/Engine/Enter.antt =====
-- An order enters a book of the engine of matching_engine.cpp.
use orderbook.Prelude.{
  ℕ, ◌+◌, ◌^◌, ◌≤◌, ◌<◌, ◌≡◌, refl, subst, ◌∙◌, ◌≢◌, inl, inr, Bool, true, not, ◌&&◌, none, some,
  arith, ◌==◌, ◌!=◌, if◌then◌else◌, has,
}
use native.Mathlib.Decide.{ℕ_discrete}
use orderbook.Run.{ok}
use orderbook.Itch.{Order}
use orderbook.Pool.{invalid_index}
use orderbook.Book.{Outcome, Scratch, handle_order, ref_of}
use orderbook.Book.Enter.{Handled, handle_order-Handled, taker}
use orderbook.Engine.{Engine, OrderMap, no_ref, enter_order, scratch_of, set_book, cleared}
use orderbook.Engine.Orders.{location}
use orderbook.Engine.Maps.{MapOk, in_map, map_used, erase_all-view, map_insert-view}
use orderbook.Engine.Books.{Consistent, at}
use orderbook.Engine.Filled.{filled_listed}
use orderbook.Engine.Handled.{enter-Replaces}
use orderbook.Engine.Replaces.{Replaces-Consistent}

-- The engine can take the order: its reference is new, its price has 32 bits, its indicator is
-- that of an order matched against the side `b`, and neither the pool nor the map is full.
pub record Fits (k : ℕ) (e : Engine) (b : Bool) (order : Order) : Type 0 where
  pub real : ref_of order ≢ no_ref
  pub fresh : location k e (ref_of order) ≡ none
  pub mark : order.buy_sell_indicator ≡ taker b
  pub price : order.price < 2 ^ 32
  pub room : e.pool.size < invalid_index
  pub spare : map_used k e.order_map + 1 < 2 ^ k

-- `e'` is `e` after `order` was handled in the book `locate`.
pub record Enters (k : ℕ) (e : Engine) (c : Consistent k e) (b : Bool) (locate : ℕ) (order : Order)
    (e' : Engine) (out : Scratch) : Type 0 where
  pub o : Outcome
  pub handled :
      Handled b e.pool
        (e.order_books locate)
        (c.queue b locate)
        (c.queue (not b) locate)
        c.free_list
        order
        cleared
        o
  pub scratch : out ≡ scratch_of o
  pub consistent : Consistent k e'
  pub pool : e'.pool ≡ o.pool
  pub books : (i : ℕ) → e'.order_books i ≡ (if i == locate then o.book else e.order_books i)
  pub locations :
      (j : ℕ)
      → j ≢ no_ref
      → location k e' j ≡ (
          if (o.resting_idx != invalid_index) && (ref_of order == j)
          then some (at locate o.resting_idx)
          else if has j o.removed_refs
          then none
          else location k e j)
  pub used : map_used k e'.order_map ≤ map_used k e.order_map + 1
  pub size : e'.pool.size ≤ e.pool.size + 1

module _ (k : ℕ) (e : Engine) (c : Consistent k e) (b : Bool) (locate : ℕ) (order : Order)
    (f : Fits k e b order) (o : Outcome)
    (run : handle_order e.pool (e.order_books locate) order cleared ≡ ok o)
    (h : Handled b e.pool
      (e.order_books locate)
      (c.queue b locate)
      (c.queue (not b) locate)
      c.free_list
      order
      cleared
      o) where
  -- The index returned is valid exactly if shares are left.
  resting_real : 0 < h.entered.left → o.resting_idx ≢ invalid_index
  resting_real more is = elim h.entered.resting [
    | inl (done, _) ↦ absurd (omega arith)
    | inr (_, i, _) ↦
        let live = (h.entered.own_stocked.live order.price o.resting_idx i).0 in
        absurd (omega (arith, h.entered.own_stocked.free.0))
  ]

  resting_none : h.entered.left ≡ 0 → o.resting_idx ≡ invalid_index
  resting_none done = elim h.entered.resting [
    | inl (_, is) ↦ is
    | inr (more, _, _) ↦ absurd (omega arith)
  ]

  real_refs : (r : ℕ) → has r o.removed_refs ≡ true → r ≢ no_ref
  real_refs r i =
      (filled_listed k e c b locate order f.fresh f.real f.mark o h r
        (subst (λ l. has r l ≡ true) h.removed_refs i)).0

  EntersWith : OrderMap → Type 0
  EntersWith m =
      Enters k e c b locate order (record (set_book e o.pool locate o.book) { order_map = m })
        (scratch_of o)

  end-Enters :
      (m : OrderMap)
      → MapOk k m
      → ((j : ℕ)
          → j ≢ no_ref
          → in_map k m j ≡ (
              if (o.resting_idx != invalid_index) && (ref_of order == j)
              then some (at locate o.resting_idx)
              else if has j o.removed_refs
              then none
              else location k e j))
      → map_used k m ≤ map_used k e.order_map + 1
      → EntersWith m
  unfolding EntersWith
  end-Enters m valid locations used = record {
    o = o;
    handled = h;
    scratch = refl;
    consistent = Replaces-Consistent k e c locate o.pool o.book m _ h.entered.free_list (
        enter-Replaces k e c b locate order f.fresh f.real f.mark o h m valid
          (λ more. let i = resting_real more in locations (ref_of order) f.real ∙ ground (arith, i))
          (λ j real old.
            let e' = resting_none in locations j real ∙ ground (arith, old, e', h.removed_refs)));
    pool = refl;
    books = λ i. ground arith;
    locations = locations;
    used = used;
    size = h.entered.size;
  }

  enter_order-run :
      (m : OrderMap) × (enter_order e locate order (ref_of order)
        ≡ ok (record (set_book e o.pool locate o.book) { order_map = m }, scratch_of o))
      × EntersWith m
  unfolding enter_order
  enter_order-run =
      let (m1, run1, v1, used1, same1) =
        erase_all-view k e.order_map o.removed_refs c.map real_refs in
      elim (ℕ_discrete o.resting_idx invalid_index) [
        | yes out ↦ (
          m1,
          ground (arith, run, run1),
          end-Enters m1 v1 (λ j real. ground (arith, same1 j real)) (omega arith),
        )
        | no ne ↦
            let (m2, run2, v2, used2, same2) =
              map_insert-view k m1 (ref_of order) (at locate o.resting_idx) v1 f.real
                (omega (arith, f.spare, used1)) in
            (
              m2,
              ground (arith, run, run1, run2),
              end-Enters m2 v2 (λ j real. ground (arith, same1 j real, same2 j real))
                  (omega (arith, used1, used2)),
            )
      ]

pub enter_order-Enters :
    (k : ℕ) (e : Engine) (c : Consistent k e) (b : Bool) (locate : ℕ) (order : Order)
    → Fits k e b order
    → (e' : Engine) × (out : Scratch) × (enter_order e locate order (ref_of order) ≡ ok (e', out))
      × Enters k e c b locate order e' out
      × (e'.latencies ≡ e.latencies)
      × (e'.wire_latencies ≡ e.wire_latencies)
unfolding EntersWith
enter_order-Enters k e c b locate order f =
    let (o, run, h) =
      handle_order-Handled b e.pool (e.order_books locate) (c.queue b locate)
        (c.queue (not b) locate) c.free_list order cleared (c.sides b locate)
        (c.sides (not b) locate) f.room f.price f.mark in
    let (m, run', done) = enter_order-run k e c b locate order f o run h in
    (_, _, run', done, refl, refl)
