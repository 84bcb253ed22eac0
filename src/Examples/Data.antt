-- ===== src/Examples/Data.antt =====
-- A pool with two orders to buy at one price, which two references of an order map find.
use orderbook.Prelude.{ℕ, ◌==◌, if◌then◌else◌, true, false, []}
use orderbook.Itch.{Order}
use orderbook.Pool.{OrderPool, invalid_index, no_order}
use orderbook.Ladder.{Level, LadderSide}
use orderbook.HashMap.{FlatHashMap}
use orderbook.Engine.{Engine, OrderLocation, no_ref}

abbrev pub buy : ℕ → ℕ → Order
buy ref shares = record {
  order_reference_number_high = 0;
  order_reference_number_low = ref;
  shares = shares;
  price = 50000;
  buy_sell_indicator = b'B';
}

-- Node 0 is the older order, node 1 the younger; node 2 is free.
abbrev pub pool : OrderPool
pool = record {
  nodes = λ i.
      if i == 0
      then record { order = buy 7 5; next = 1; prev = invalid_index }
      else if i == 1
      then record { order = buy 15 6; next = invalid_index; prev = 0 }
      else record { order = no_order; next = invalid_index; prev = invalid_index };
  size = 3;
  free_head = 2;
}

abbrev pub level : Level
level = record { head = 0; tail = 1 }

abbrev pub side : LadderSide
side = record {
  bid = true;
  ladder = λ i. if i == 1020 then level else record { head = invalid_index; tail = invalid_index };
  overflow = [];
  base = 0;
  anchored = true;
  best_slot = 1024;
}

abbrev pub at_index : ℕ → OrderLocation
at_index i = record { stock_locate = 3; pool_idx = i }

-- Both references have slot 7 of 8 as their home; the second one is in slot 0.
abbrev pub table : FlatHashMap OrderLocation
table = record {
  mask = 7;
  table = λ i.
      if i == 7
      then record { key = 7; value = at_index 0 }
      else if i == 0
      then record { key = 15; value = at_index 1 }
      else record { key = no_ref; value = at_index 0 };
}

abbrev pub engine : Engine
engine = record {
  pool = pool;
  order_map = table;
  order_books = λ _. record { bids = side; asks = record side { bid = false } };
  latencies = [];
  wire_latencies = [];
}
