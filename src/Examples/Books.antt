-- ===== src/Examples/Books.antt =====
-- A book with two orders to buy at 500 ticks, and none to sell.
use orderbook.Prelude.{
  ℕ, ◌+◌, ◌<◌, ◌≡◌, refl, ◌≢◌, ◌⊎◌, inl, inr, true, false, ◌==◌, if◌then◌else◌, List, [], ◌∷◌, ◌++◌,
  arith,
}
use orderbook.Pool.{invalid_index}
use orderbook.Pool.Reuse.{IsFree}
use orderbook.Ladder.{LadderSide, empty_level, new_side, price_to_slot}
use orderbook.Ladder.Overflow.{level_at}
use orderbook.Ladder.Shape.{Shape, level_of}
use orderbook.Ladder.{add, remove, link_at_tail, unlink}
use orderbook.Ladder.Grow.{Adds, add-Adds}
use orderbook.Ladder.Shrink.{Tidy, Removes, remove-Removes}
use orderbook.Run.{ok}
use orderbook.Itch.{Order}
use orderbook.Book.{
  OrderBook, ItchOrderExecuted, Scratch, Outcome, Matching, start, match_side, handle_order,
  remove_by_index,
}
use orderbook.Book.Fill.{total_executed}
use orderbook.Book.Sides.{Stocked, Swept, stops_of}
use orderbook.Book.Loop.{match_side-Swept}
use orderbook.Book.Enter.{Handled, handle_order-Handled}
use orderbook.Book.Uncrossed.{Trading, handle_order-Trading}
use orderbook.Book.Conserve.{handle_order-conserves}
use orderbook.Book.Withdraw.{Withdrawn, remove_by_index-Withdrawn}
use orderbook.Book.Trade.{new_side-Stocked, remove_by_index-Trading}
use orderbook.Examples.Data.{pool, level, buy}

abbrev bids : LadderSide
bids = record {
  bid = true;
  ladder = λ i. if i == 500 then level else empty_level;
  overflow = [];
  base = 0;
  anchored = true;
  best_slot = 500;
}

abbrev pub queues : ℕ → List ℕ
queues p = if p == 50000 then 0 ∷ 1 ∷ [] else []

bids-Shape : Shape bids
unfolding level_at
bids-Shape = record {
  sound = record {
    sorted = tt;
    fits = λ i hi p. ground arith;
    best = inr (omega arith, ground arith, λ i hi p. ground arith);
  };
  held = λ q l h. ground arith;
  unanchored = λ e. ground arith;
}

bids-level : (p : ℕ) → level_of bids p ≡ (if p == 50000 then level else empty_level)
unfolding level_of level_at price_to_slot
bids-level p = ground arith

pub pool-IsFree : IsFree pool (2 ∷ [])
pool-IsFree = ground arith

pub bids-Stocked : Stocked pool true bids queues (2 ∷ [])
bids-Stocked = record {
  resting = record {
    shape = bids-Shape;
    bid = refl;
    chain = λ p. ground (arith, bids-level p);
    orders = λ p. ground arith;
  };
  free = pool-IsFree;
  live = λ p a i. ground arith;
}

abbrev no_queue : ℕ → List ℕ
no_queue p = []

pub asks-Stocked : Stocked pool false (new_side false) no_queue (2 ∷ [])
asks-Stocked = new_side-Stocked false pool (2 ∷ []) pool-IsFree

abbrev pub book : OrderBook
book = record { bids = bids; asks = new_side false }

abbrev trading : Trading pool book
trading = record {
  bid_queue = queues;
  ask_queue = no_queue;
  free_list = 2 ∷ [];
  bids = bids-Stocked;
  asks = asks-Stocked;
  apart = λ p ne. absurd (ne refl);
}

-- An order to sell eleven and three shares, of which eleven are bought.
abbrev sell : Order
sell = record (buy 9 14) { buy_sell_indicator = b'S' }

abbrev pub outputs : Scratch
outputs = record { removed_refs = []; executed_orders = [] }

handle_order-Handled_example :
    (o : Outcome) × (handle_order pool book sell outputs ≡ ok o)
    × Handled true pool book queues no_queue (2 ∷ []) sell outputs o
handle_order-Handled_example =
    handle_order-Handled true pool book queues no_queue (2 ∷ []) sell outputs bids-Stocked
      asks-Stocked (omega arith) (omega arith) refl

handle_order-conserves_example :
    (o : Outcome) × (es : List ItchOrderExecuted) × (left : ℕ) × (handle_order pool book sell
        outputs
      ≡ ok o)
    × (o.executed_orders ≡ [] ++ es)
    × (total_executed es + left ≡ 14)
    × (((left ≡ 0) × (o.resting_idx ≡ invalid_index))
        ⊎ ((0 < left) × ((o.pool.nodes o.resting_idx).order.shares ≡ left)))
handle_order-conserves_example =
    handle_order-conserves true pool book queues no_queue (2 ∷ []) sell outputs bids-Stocked
      asks-Stocked (omega arith) (omega arith) refl

handle_order-Trading_example :
    (o : Outcome) × (handle_order pool book sell outputs ≡ ok o) × Trading o.pool o.book
handle_order-Trading_example =
    handle_order-Trading pool book sell outputs trading (omega arith) (omega arith) (inr refl)

match_side-Swept_example :
    (m : Matching) × (match_side (stops_of true) 15 (start pool bids sell outputs) ≡ ok m)
    × Swept true (start pool bids sell outputs) m queues (2 ∷ [])
match_side-Swept_example =
    match_side-Swept true 15 (start pool bids sell outputs) queues (2 ∷ []) bids-Stocked
      (omega arith)

remove_by_index-Withdrawn_example :
    Withdrawn true pool book queues no_queue
      (2 ∷ [])
      50000
      1
      (0 ∷ [])
      []
      (remove_by_index pool book 1)
remove_by_index-Withdrawn_example =
    remove_by_index-Withdrawn true pool book queues no_queue (2 ∷ []) 50000 1 (0 ∷ []) []
      bids-Stocked asks-Stocked refl

remove_by_index-Trading_example :
    Trading (remove_by_index pool book 0).0 (remove_by_index pool book 0).1
remove_by_index-Trading_example = remove_by_index-Trading pool book trading 50000 0 (inl refl)

bids-full : (level_of bids 50000).head ≢ invalid_index
bids-full = ground (arith, bids-level 50000)

linked-full : (link_at_tail pool.nodes (level_of bids 50000) 2).1.head ≢ invalid_index
unfolding link_at_tail
linked-full = ground (arith, bids-level 50000)

unlinked-Tidy : Tidy (unlink pool.nodes (level_of bids 50000) 1).1
unfolding unlink
unlinked-Tidy = ground (arith, bids-level 50000)

add-Adds_example : Adds pool.nodes bids 50000 2 (add pool.nodes bids 50000 2)
add-Adds_example = add-Adds pool.nodes bids 50000 2 bids-Shape (omega arith) linked-full

remove-Removes_example : Removes pool.nodes bids 50000 1 (remove pool.nodes bids 50000 1)
remove-Removes_example =
    remove-Removes pool.nodes bids 50000 1 bids-Shape (omega arith) bids-full unlinked-Tidy
