-- ===== src/Book.antt =====
-- include/orderbook.hpp and src/orderbook.cpp: matching an order against the other side of a book.
-- The pool that the book points to is an argument. The inner loop changes its level and the pool
-- only, so it works on a copy of the level that is written back. The two handlers differ in the
-- sides and in the test that ends the matching, which is a parameter of the loop they share.
pub mod Fill
pub mod Departs
pub mod Rounds
pub mod Frees
pub mod Queue
pub mod Resting
pub mod Priority
pub mod Sides
pub mod Loop
pub mod Rest
pub mod Handle
pub mod Enter
pub mod Uncrossed
pub mod Conserve
pub mod Cancel
pub mod Withdraw
pub mod Trade
pub mod Shares
use orderbook.Prelude.{
  ℕ, zero, suc, ◌-◌, ◌^◌, min, Bool, true, false, ◌||◌, List, [], ◌∷◌, ◌++◌, none, some, ltb, ◌==◌,
  ◌!=◌, if◌then◌else◌,
}
use orderbook.Itch.{Order, join_ref}
use orderbook.Pool.{OrderPool, Nodes, invalid_index, allocate, free, set_prev, set_shares}
use orderbook.Ladder.{
  Level, LadderSide, LevelRef, new_side, add, remove, best_level, get_level, set_level,
  remove_empty_best,
}
use orderbook.Run.{Run, ok, invalid_side, out_of_fuel, ◌>>=◌}

pub record ItchOrderExecuted : Type 0 where
  pub message_type : ℕ
  pub stock_locate : ℕ
  pub tracking_number : ℕ
  pub timestamp_high : ℕ
  pub timestamp_low : ℕ
  pub order_reference_number : ℕ
  pub executed_shares : ℕ
  pub match_number : ℕ

pub record OrderBook : Type 0 where
  pub bids : LadderSide
  pub asks : LadderSide

unfoldable pub new_book : OrderBook
unfolding new_side
new_book = record { bids = new_side true; asks = new_side false }

-- The record that one match appends. The fields set to -1 hold the largest value of their width.
unfoldable pub execution : ℕ → ℕ → ItchOrderExecuted
execution ref shares = record {
  message_type = b'E';
  stock_locate = 2 ^ 16 - 1;
  tracking_number = 2 ^ 16 - 1;
  timestamp_high = 2 ^ 16 - 1;
  timestamp_low = 2 ^ 32 - 1;
  order_reference_number = ref;
  executed_shares = shares;
  match_number = 2 ^ 64 - 1;
}

-- The variables of the inner loop.
pub record Sweep : Type 0 where
  pub order : Order
  pub pool : OrderPool
  pub level : Level
  pub removed_refs : List ℕ
  pub executed_orders : List ItchOrderExecuted

abbrev pub with_shares : Order → ℕ → Order
with_shares o n = record o { shares = n }

abbrev pub with_nodes : OrderPool → Nodes → OrderPool
with_nodes pool ns = record pool { nodes = ns }

abbrev pub ref_of : Order → ℕ
ref_of o = join_ref o.order_reference_number_high o.order_reference_number_low

-- Takes the filled head off its level and frees its slot.
unfoldable pub drop_head : OrderPool → Level → OrderPool × Level
drop_head pool level =
    let next = (pool.nodes level.head).next in
    if next != invalid_index
    then (
      free (with_nodes pool (set_prev pool.nodes next invalid_index)) level.head,
      record level { head = next },
    )
    else (free pool level.head, record { head = next; tail = invalid_index })

-- One round of the inner loop.
unfoldable pub match_head : Sweep → Sweep
unfolding execution drop_head
match_head w =
    let idx = w.level.head in
    let resting = (w.pool.nodes idx).order in
    let executed = min w.order.shares resting.shares in
    let left = resting.shares - executed in
    let ref = ref_of resting in
    let pool = with_nodes w.pool (set_shares w.pool.nodes idx left) in
    let order = with_shares w.order (w.order.shares - executed) in
    let log = w.executed_orders ++ (execution ref executed ∷ []) in
    if left == 0
    then (let (pool', level') = drop_head pool w.level in
        record {
          order = order;
          pool = pool';
          level = level';
          removed_refs = w.removed_refs ++ (ref ∷ []);
          executed_orders = log;
        })
    else record {
      order = order;
      pool = pool;
      level = w.level;
      removed_refs = w.removed_refs;
      executed_orders = log;
    }

unfoldable pub match_level : ℕ → Sweep → Run Sweep
match_level zero w = out_of_fuel
match_level (suc fuel) w =
    let rest = match_level fuel (match_head w) in
    if w.order.shares == 0 || w.level.head == invalid_index then ok w else rest

-- The variables of the outer loop; `side` is the other side of the book.
pub record Matching : Type 0 where
  pub order : Order
  pub pool : OrderPool
  pub side : LadderSide
  pub removed_refs : List ℕ
  pub executed_orders : List ItchOrderExecuted

abbrev pub enter : Matching → LevelRef → Sweep
enter m ref = record {
  order = m.order;
  pool = m.pool;
  level = get_level m.side ref;
  removed_refs = m.removed_refs;
  executed_orders = m.executed_orders;
}

-- Writes the level back, and drops it if it was drained.
unfoldable pub leave : LadderSide → ℕ → LevelRef → Sweep → Matching
leave side price ref w =
    let written = set_level side ref w.level in
    record {
      order = w.order;
      pool = w.pool;
      side = if w.level.head == invalid_index then remove_empty_best written price else written;
      removed_refs = w.removed_refs;
      executed_orders = w.executed_orders;
    }

-- Each round of either loop executes a share, so `shares + 1` rounds are enough.
unfoldable pub match_side : (ℕ → ℕ → Bool) → ℕ → Matching → Run Matching
match_side stops zero m = out_of_fuel
match_side stops (suc fuel) m = if m.order.shares == 0 then ok m else elim (best_level m.side) [
  | none ↦ ok m
  | some (price, ref) ↦
      let rest =
        match_level (suc m.order.shares) (enter m ref)
        >>= (λ w. match_side stops fuel (leave m.side price ref w)) in
      if stops m.order.price price then ok m else rest
]

-- `bestPrice > buyOrder.price` and `bestPrice < sellOrder.price`
abbrev pub too_dear : ℕ → ℕ → Bool
too_dear limit best = ltb limit best

abbrev pub too_cheap : ℕ → ℕ → Bool
too_cheap limit best = ltb best limit

-- What a handler leaves: the pool, the book, the order it was given by reference, and its outputs.
pub record Outcome : Type 0 where
  pub pool : OrderPool
  pub book : OrderBook
  pub order : Order
  pub resting_idx : ℕ
  pub removed_refs : List ℕ
  pub executed_orders : List ItchOrderExecuted

-- The output buffers, to which a handler appends.
pub record Scratch : Type 0 where
  pub removed_refs : List ℕ
  pub executed_orders : List ItchOrderExecuted

abbrev pub start : OrderPool → LadderSide → Order → Scratch → Matching
start pool side order out = record {
  order = order;
  pool = pool;
  side = side;
  removed_refs = out.removed_refs;
  executed_orders = out.executed_orders;
}

-- Rests what is left of the order on `own`; returns the pool, the side and `restingIdx`.
unfoldable pub rest_order : OrderPool → LadderSide → Order → OrderPool × LadderSide × ℕ
rest_order pool own order =
    if order.shares == 0
    then (pool, own, invalid_index)
    else let (idx, pool') = allocate pool order in
      let (ns, own') = add pool'.nodes own order.price idx in (with_nodes pool' ns, own', idx)

finish_buy : LadderSide → Matching → Outcome
unfolding rest_order
finish_buy bids m =
    let (pool, bids', idx) = rest_order m.pool bids m.order in
    record {
      pool = pool;
      book = record { bids = bids'; asks = m.side };
      order = m.order;
      resting_idx = idx;
      removed_refs = m.removed_refs;
      executed_orders = m.executed_orders;
    }

finish_sell : LadderSide → Matching → Outcome
unfolding rest_order
finish_sell asks m =
    let (pool, asks', idx) = rest_order m.pool asks m.order in
    record {
      pool = pool;
      book = record { bids = m.side; asks = asks' };
      order = m.order;
      resting_idx = idx;
      removed_refs = m.removed_refs;
      executed_orders = m.executed_orders;
    }

unfoldable pub handle_buy_order : OrderPool → OrderBook → Order → Scratch → Run Outcome
unfolding finish_buy
handle_buy_order pool book order out = do
  m ← match_side too_dear (suc order.shares) (start pool book.asks order out)
  ok (finish_buy book.bids m)

unfoldable pub handle_sell_order : OrderPool → OrderBook → Order → Scratch → Run Outcome
unfolding finish_sell
handle_sell_order pool book order out = do
  m ← match_side too_cheap (suc order.shares) (start pool book.bids order out)
  ok (finish_sell book.asks m)

unfoldable pub remove_by_index : OrderPool → OrderBook → ℕ → OrderPool × OrderBook
remove_by_index pool book idx =
    let order = (pool.nodes idx).order in
    if order.buy_sell_indicator == b'B'
    then (let (ns, bids) = remove pool.nodes book.bids order.price idx in
        (free (with_nodes pool ns) idx, record book { bids = bids }))
    else (let (ns, asks) = remove pool.nodes book.asks order.price idx in
        (free (with_nodes pool ns) idx, record book { asks = asks }))

unfoldable pub handle_order : OrderPool → OrderBook → Order → Scratch → Run Outcome
unfolding handle_buy_order handle_sell_order
handle_order pool book order out =
    if order.buy_sell_indicator == b'B'
    then handle_buy_order pool book order out
    else if order.buy_sell_indicator == b'S'
    then handle_sell_order pool book order out
    else invalid_side
