-- ===== src/Book/Conserve.antt =====
-- The shares that `handleOrder` of orderbook.cpp executes.
use orderbook.Prelude.{
  ℕ, ◌+◌, ◌<◌, ◌^◌, ◌≡◌, ap, ◌⊎◌, inl, inr, Bool, not, List, [], ◌∷◌, ◌++◌, arith,
}
use orderbook.Itch.{Order}
use orderbook.Run.{ok}
use orderbook.Pool.{OrderPool, invalid_index}
use orderbook.Book.{ItchOrderExecuted, OrderBook, Outcome, Scratch, handle_order}
use orderbook.Book.Fill.{fill, fill_conserves, total_executed}
use orderbook.Book.Priority.{Ladder, Matched, stop, fill_best}
use orderbook.Book.Sides.{Stocked}
use orderbook.Book.Enter.{handle_order-Handled, side_of, taker}

total-append :
    (xs ys : List ItchOrderExecuted)
    → total_executed (xs ++ ys) ≡ total_executed xs + total_executed ys
unfolding total_executed
total-append [] ys = omega arith
total-append (x ∷ xs) ys = omega (arith, total-append xs ys)

pub Matched-conserves :
    (b : Bool) (limit : ℕ) (os os' : Ladder) (n n' : ℕ) (refs : List ℕ)
    (es : List ItchOrderExecuted)
    → Matched b limit os n os' n' refs es
    → total_executed es + n' ≡ n
unfolding total_executed
Matched-conserves b limit os os' n n' refs es (stop h) = omega arith
Matched-conserves b limit os os' n n' refs es
      (fill_best {es = es'} price more full within best rest) =
    omega (
      arith,
      Matched-conserves b limit _ os' _ n' _ _ rest,
      (fill_conserves n (os price)).0,
      total-append (fill n (os price)).executed es',
    )

-- If the sides of the book and the free list are well formed and apart, the pool has fewer nodes
-- than the invalid index, the price fits 32 bits, and the order is one that is matched against
-- side `b`, then `handle_order` returns, and the shares of the executions that it appends and the
-- shares that are left are those of the order; if none are left the resting index is the invalid
-- index, and otherwise the node at that index has an order with the shares that are left.
pub handle_order-conserves :
    (b : Bool) (pool : OrderPool) (book : OrderBook) (opp_q own_q : ℕ → List ℕ) (fs : List ℕ)
    (order : Order) (out : Scratch)
    → Stocked pool b (side_of b book) opp_q fs
    → Stocked pool (not b) (side_of (not b) book) own_q fs
    → pool.size < invalid_index
    → order.price < 2 ^ 32
    → order.buy_sell_indicator ≡ taker b
    → (o : Outcome) × (es : List ItchOrderExecuted) × (left : ℕ) × (handle_order pool book order out
        ≡ ok o)
      × (o.executed_orders ≡ out.executed_orders ++ es)
      × (total_executed es + left ≡ order.shares)
      × (((left ≡ 0) × (o.resting_idx ≡ invalid_index))
          ⊎ ((0 < left) × ((o.pool.nodes o.resting_idx).order.shares ≡ left)))
handle_order-conserves b pool book opp_q own_q fs order out u w room fits e =
    let (o, run, h) = handle_order-Handled b pool book opp_q own_q fs order out u w room fits e in
    (
      o,
      h.executed,
      h.entered.left,
      run,
      h.executed_orders,
      Matched-conserves b order.price _ _ order.shares h.entered.left h.refs h.executed
          h.entered.matched,
      elim h.entered.resting [
        | inl done ↦ inl done
        | inr (more, _, stored) ↦ inr (more, ap (λ o. o.shares) stored)
      ],
    )
