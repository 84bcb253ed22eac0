-- ===== src/Book/Uncrossed.antt =====
-- The prices of a book never cross: what `handleOrder` of orderbook.cpp keeps.
use orderbook.Prelude.{
  ℕ, ◌<◌, ◌^◌, ◌≡◌, subst, ◌≢◌, ◌⊎◌, inl, inr, Bool, true, false, not, List, [], ◌++◌, arith, ◌==◌,
  if◌then◌else◌,
}
use native.Mathlib.Decide.{ℕ_discrete}
use orderbook.Itch.{Order}
use orderbook.Run.{ok}
use orderbook.Pool.{OrderPool, invalid_index}
use orderbook.Ladder.Top.{NoWorse}
use orderbook.Book.{ItchOrderExecuted, OrderBook, Outcome, Scratch, handle_order}
use orderbook.Book.Priority.{Ladder, Exhausted, Matched, stop, fill_best}
use orderbook.Book.Sides.{Stocked, ladder_at}
use orderbook.Book.Handle.{remainder}
use orderbook.Book.Enter.{Handled, handle_order-Handled}

-- No order of the one side, `b`, is good enough for an order of the other.
abbrev pub Apart : Bool → Ladder → Ladder → Type 0
Apart b opp own = (p : ℕ) → own p ≢ [] → Exhausted b p opp

pub Apart-swap : (b : Bool) (opp own : Ladder) → Apart b opp own → Apart (not b) own opp
Apart-swap true opp own h p ne r nr w = h r nr p ne (omega arith)
Apart-swap false opp own h p ne r nr w = h r nr p ne (omega arith)

-- Matching empties prices, and never fills one.
pub Matched-only :
    (b : Bool) (limit : ℕ) (os os' : Ladder) (n n' : ℕ) (refs : List ℕ)
    (es : List ItchOrderExecuted)
    → Matched b limit os n os' n' refs es
    → (p : ℕ) → os' p ≢ []
    → os p ≢ []
Matched-only b limit os os' n n' refs es (stop h) p ne = ne
Matched-only b limit os os' n n' refs es (fill_best price more full within best rest) p ne =
    elim (ℕ_discrete price p) [
      | yes e ↦ subst (λ z. os z ≢ []) e full
      | no ne' ↦ let h = Matched-only b limit _ os' _ n' _ _ rest p ne in λ e. h (ground (arith, e))
    ]

-- Matching ends when the order is filled or no price is good enough for it.
pub Matched-end :
    (b : Bool) (limit : ℕ) (os os' : Ladder) (n n' : ℕ) (refs : List ℕ)
    (es : List ItchOrderExecuted)
    → Matched b limit os n os' n' refs es
    → (n' ≡ 0) ⊎ Exhausted b limit os'
Matched-end b limit os os' n n' refs es (stop h) = h
Matched-end b limit os os' n n' refs es (fill_best price more full within best rest) =
    Matched-end b limit _ os' _ n' _ _ rest

-- A price of the side that an order joins held orders before, or is the price of what is left.
joins :
    (order : Order) (left : ℕ) (os os' : Ladder) (p : ℕ)
    → os' p ≡ (if order.price == p then os p ++ remainder order left else os p)
    → os' p ≢ []
    → (os p ≢ []) ⊎ ((order.price ≡ p) × (left ≢ 0))
joins order left os os' p e ne = elim (ℕ_discrete order.price p) [
  | yes same ↦ elim (ℕ_discrete left 0) [
    | yes done ↦ inl (λ z. ne (ground (arith, e, z)))
    | no more ↦ inr (same, more)
  ]
  | no other ↦ inl (λ z. ne (ground (arith, e, z)))
]

pub Entered-Apart :
    (b : Bool) (order : Order) (opp opp' own own' : Ladder) (left : ℕ) (refs : List ℕ)
    (es : List ItchOrderExecuted)
    → Matched b order.price opp order.shares opp' left refs es
    → ((p : ℕ) → own' p ≡ (if order.price == p then own p ++ remainder order left else own p))
    → Apart b opp own
    → Apart b opp' own'
Entered-Apart b order opp opp' own own' left refs es m r h p ne s ns =
    elim (joins order left own own' p (r p) ne) [
      | inl old ↦ h p old s (Matched-only b order.price opp opp' order.shares left refs es m s ns)
      | inr (same, more) ↦ elim (Matched-end b order.price opp opp' order.shares left refs es m) [
        | inl done ↦ absurd (more done)
        | inr gone ↦ subst (λ z. ¬ NoWorse b s z) same (gone s ns)
      ]
    ]

-- The book and its pool between two operations.
pub record Trading (pool : OrderPool) (book : OrderBook) : Type 0 where
  pub bid_queue : ℕ → List ℕ
  pub ask_queue : ℕ → List ℕ
  pub free_list : List ℕ
  pub bids : Stocked pool true book.bids bid_queue free_list
  pub asks : Stocked pool false book.asks ask_queue free_list
  pub apart : Apart true (ladder_at pool.nodes bid_queue) (ladder_at pool.nodes ask_queue)

after_buy :
    (pool : OrderPool) (book : OrderBook) (order : Order) (out : Scratch) (t : Trading pool book)
    (o : Outcome)
    → Handled false pool book t.ask_queue t.bid_queue t.free_list order out o
    → Trading o.pool o.book
after_buy pool book order out t o h = record {
  bid_queue = h.entered.own_queue;
  ask_queue = h.entered.opp_queue;
  free_list = h.entered.free_list;
  bids = h.entered.own_stocked;
  asks = h.entered.opp_stocked;
  apart = Apart-swap false _ _ (
      Entered-Apart false order _ _ _ _ h.entered.left h.refs h.executed h.entered.matched
        h.entered.rests (Apart-swap true _ _ t.apart));
}

after_sell :
    (pool : OrderPool) (book : OrderBook) (order : Order) (out : Scratch) (t : Trading pool book)
    (o : Outcome)
    → Handled true pool book t.bid_queue t.ask_queue t.free_list order out o
    → Trading o.pool o.book
after_sell pool book order out t o h = record {
  bid_queue = h.entered.opp_queue;
  ask_queue = h.entered.own_queue;
  free_list = h.entered.free_list;
  bids = h.entered.opp_stocked;
  asks = h.entered.own_stocked;
  apart =
      Entered-Apart true order _ _ _ _ h.entered.left h.refs h.executed h.entered.matched
        h.entered.rests t.apart;
}

-- A book between operations has well-formed sides, apart from each other and from the free list,
-- and each bid is below each ask. If the pool has fewer nodes than the invalid index, the price
-- of the order fits 32 bits and its indicator is B or S, then `handle_order` on such a book
-- returns, and leaves such a book.
pub handle_order-Trading :
    (pool : OrderPool) (book : OrderBook) (order : Order) (out : Scratch)
    → Trading pool book
    → pool.size < invalid_index
    → order.price < 2 ^ 32
    → (order.buy_sell_indicator ≡ b'B') ⊎ (order.buy_sell_indicator ≡ b'S')
    → (o : Outcome) × (handle_order pool book order out ≡ ok o) × Trading o.pool o.book
handle_order-Trading pool book order out t room fits (inl e) =
    let (o, run, h) =
      handle_order-Handled false pool book t.ask_queue t.bid_queue t.free_list order out t.asks
        t.bids room fits e in
    (o, run, after_buy pool book order out t o h)
handle_order-Trading pool book order out t room fits (inr e) =
    let (o, run, h) =
      handle_order-Handled true pool book t.bid_queue t.ask_queue t.free_list order out t.bids
        t.asks room fits e in
    (o, run, after_sell pool book order out t o h)
