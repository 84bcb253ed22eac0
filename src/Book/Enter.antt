-- ===== src/Book/Enter.antt =====
-- `handleOrder` of orderbook.cpp: the order is matched, and its remainder rests.
use orderbook.Prelude.{
  ℕ, suc, ◌<◌, ◌^◌, ◌≡◌, refl, sym, ap, subst, ◌∙◌, Bool, true, false, not, List, ◌++◌, arith, ◌==◌,
}
use native.Mathlib.Decide.{ℕ_discrete}
use orderbook.Itch.{Order}
use orderbook.Run.{ok}
use orderbook.Pool.{OrderPool, invalid_index}
use orderbook.Ladder.{LadderSide}
use orderbook.Book.{
  ItchOrderExecuted, OrderBook, Matching, Outcome, Scratch, start, match_side, rest_order,
  finish_buy, finish_sell, handle_buy_order, handle_sell_order, handle_order,
}
use orderbook.Book.Sides.{Stocked, Swept, stops_of}
use orderbook.Book.Loop.{match_side-Swept}
use orderbook.Book.Rest.{linked-Rests, rest_order-linked, rest_order-none, pool2, own2, idx}
use orderbook.Book.Handle.{Entered, filled-Entered, rests-Entered, own_matched, fit}

abbrev pub side_of : Bool → OrderBook → LadderSide
side_of true book = book.bids
side_of false book = book.asks

-- The indicator of the orders that are matched against a side.
abbrev pub taker : Bool → ℕ
taker true = b'S'
taker false = b'B'

taker-is_buy : (b : Bool) → (taker b == b'B') ≡ not b
taker-is_buy true = refl
taker-is_buy false = refl

module _ (b : Bool) (pool : OrderPool) (opp own : LadderSide) (opp_q own_q : ℕ → List ℕ)
    (fs : List ℕ) (order : Order) (out : Scratch) (u : Stocked pool b opp opp_q fs)
    (w : Stocked pool (not b) own own_q fs) (room : pool.size < invalid_index)
    (fits : order.price < 2 ^ 32) (side : (order.buy_sell_indicator == b'B') ≡ not b) where
  abbrev EndsIn : Matching → List ℕ → List ItchOrderExecuted → OrderPool × LadderSide × ℕ → Type 0
  EndsIn m refs es (pool', own', i) =
      Entered b pool pool' opp m.side own own' opp_q own_q fs order i refs es

  rest_order-EndsIn :
      (m : Matching) (s : Swept b (start pool opp order out) m opp_q fs)
      → EndsIn m s.refs s.executed (rest_order m.pool own m.order)
  rest_order-EndsIn m s = elim (ℕ_discrete m.order.shares 0) [
    | yes e ↦
        subst (EndsIn m s.refs s.executed) (sym (rest_order-none m.pool own m.order e))
          (filled-Entered b pool opp own opp_q own_q fs order out u w room fits side m s e)
    | no ne ↦
        let more : 0 < m.order.shares = omega arith in
        let v = own_matched b pool opp own opp_q own_q fs order out u w room fits side m s in
        let at = fit b pool opp own opp_q own_q fs order out u w room fits side m s more in
        let room' : m.pool.size < invalid_index =
          subst (λ n. n < invalid_index) (sym s.size) room in
        subst (EndsIn m s.refs s.executed)
          (sym (rest_order-linked (not b) m.pool own own_q s.free_list m.order v room' at))
          (rests-Entered b pool opp own opp_q own_q fs order out u w room fits side m s
            (pool2 (not b) m.pool own own_q s.free_list m.order v room' at)
            (own2 (not b) m.pool own own_q s.free_list m.order v room' at)
            (idx (not b) m.pool own own_q s.free_list m.order v room' at) more
            (linked-Rests (not b) m.pool own own_q s.free_list m.order v room' at))
  ]

abbrev finish : Bool → OrderBook → Matching → Outcome
finish true book m = finish_sell book.asks m
finish false book m = finish_buy book.bids m

handle_order-finish :
    (b : Bool) (pool : OrderPool) (book : OrderBook) (order : Order) (out : Scratch) (m : Matching)
    → order.buy_sell_indicator ≡ taker b
    → match_side (stops_of b) (suc order.shares) (start pool (side_of b book) order out) ≡ ok m
    → handle_order pool book order out ≡ ok (finish b book m)
unfolding handle_order handle_buy_order handle_sell_order
handle_order-finish true pool book order out m e run = ground (arith, e, run)
handle_order-finish false pool book order out m e run = ground (arith, e, run)

-- What a handler returns and appends to its outputs.
pub record Handled (b : Bool) (pool : OrderPool) (book : OrderBook) (opp_q own_q : ℕ → List ℕ)
    (fs : List ℕ) (order : Order) (out : Scratch) (o : Outcome) : Type 0 where
  pub refs : List ℕ
  pub executed : List ItchOrderExecuted
  pub entered :
      Entered b pool o.pool
        (side_of b book)
        (side_of b o.book)
        (side_of (not b) book)
        (side_of (not b) o.book)
        opp_q
        own_q
        fs
        order
        o.resting_idx
        refs
        executed
  pub removed_refs : o.removed_refs ≡ out.removed_refs ++ refs
  pub executed_orders : o.executed_orders ≡ out.executed_orders ++ executed

finish-Handled :
    (b : Bool) (pool : OrderPool) (book : OrderBook) (opp_q own_q : ℕ → List ℕ) (fs : List ℕ)
    (order : Order) (out : Scratch)
    → Stocked pool b (side_of b book) opp_q fs
    → Stocked pool (not b) (side_of (not b) book) own_q fs
    → pool.size < invalid_index
    → order.price < 2 ^ 32
    → (order.buy_sell_indicator == b'B') ≡ not b
    → (m : Matching) → Swept b (start pool (side_of b book) order out) m opp_q fs
    → Handled b pool book opp_q own_q fs order out (finish b book m)
unfolding finish_buy finish_sell
finish-Handled true pool book opp_q own_q fs order out u w room fits side m s = record {
  refs = s.refs;
  executed = s.executed;
  entered =
      rest_order-EndsIn true pool book.bids book.asks opp_q own_q fs order out u w room fits side m
        s;
  removed_refs = s.removed_refs;
  executed_orders = s.executed_orders;
}
finish-Handled false pool book opp_q own_q fs order out u w room fits side m s = record {
  refs = s.refs;
  executed = s.executed;
  entered =
      rest_order-EndsIn false pool book.asks book.bids opp_q own_q fs order out u w room fits side m
        s;
  removed_refs = s.removed_refs;
  executed_orders = s.executed_orders;
}

-- If the queues of the two sides and the free list of the pool are well formed and apart, the
-- pool has fewer nodes than the invalid index, the price fits 32 bits, and the order is one that
-- is matched against side `b`, then `handle_order` returns, and what it does is price-time
-- priority: while shares are left and the best price of side `b` that has orders is within the
-- limit, the queue of that price is filled, oldest order first; the references of the filled
-- orders and the executions are appended to the outputs; what is left joins the end of the queue
-- of its price on the other side, at the index returned, which is the invalid index if nothing is
-- left. Both sides and the free list are well formed and apart afterwards, and every node in use
-- outside them is unchanged and still in use. The nodes that leave side `b` are those with the
-- references appended; the others keep their orders but for the shares, and the pool grows by one
-- node at most.
pub handle_order-Handled :
    (b : Bool) (pool : OrderPool) (book : OrderBook) (opp_q own_q : ℕ → List ℕ) (fs : List ℕ)
    (order : Order) (out : Scratch)
    → Stocked pool b (side_of b book) opp_q fs
    → Stocked pool (not b) (side_of (not b) book) own_q fs
    → pool.size < invalid_index
    → order.price < 2 ^ 32
    → order.buy_sell_indicator ≡ taker b
    → (o : Outcome) × (handle_order pool book order out ≡ ok o)
      × Handled b pool book opp_q own_q fs order out o
handle_order-Handled b pool book opp_q own_q fs order out u w room fits e =
    let (m, run, s) =
      match_side-Swept b (suc order.shares) (start pool (side_of b book) order out) opp_q fs u
        (omega arith) in
    let side : (order.buy_sell_indicator == b'B') ≡ not b =
      ap (λ i. i == b'B') e ∙ taker-is_buy b in
    (
      finish b book m,
      handle_order-finish b pool book order out m e run,
      finish-Handled b pool book opp_q own_q fs order out u w room fits side m s,
    )
