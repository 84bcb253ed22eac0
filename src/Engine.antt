-- ===== src/Engine.antt =====
-- include/matching_engine.hpp and src/matching_engine.cpp: the engine and the messages it processes.
-- Progress output, prefetching, memory advice and the calibration of the cycle counter are left out.
-- What `tscNow` returns is an argument.
pub mod Orders
pub mod Books
pub mod Replaces
pub mod Drop
pub mod Maps
pub mod Filled
pub mod Handled
pub mod Enter
pub mod Shorten
pub mod Reduce
pub mod Add
pub mod Replace
pub mod Process
pub mod Start
pub mod Session
use orderbook.Prelude.{
  ℕ, zero, suc, ◌+◌, ◌-◌, ◌*◌, ◌/◌, ◌%◌, ◌^◌, true, ◌||◌, List, [], ◌∷◌, ◌++◌, Option, none, some,
  leb, ◌==◌, ◌!=◌, if◌then◌else◌, get_or, drop, Bool, map, length,
}
use orderbook.Prelude.Store.{update}
use orderbook.Run.{Run, ok, out_of_fuel, ◌>>=◌}
use orderbook.Itch.{
  Order, join_ref, read_add_order, read_delete_order, read_order_executed, read_order_replace,
}
use orderbook.Pool.{OrderPool, empty_pool, invalid_index, set_shares}
use orderbook.Book.{
  OrderBook, Outcome, Scratch, ref_of, with_nodes, new_book, handle_order, remove_by_index,
}
use orderbook.HashMap.{FlatHashMap}
use orderbook.HashMap

pub record OrderLocation : Type 0 where
  pub stock_locate : ℕ
  pub pool_idx : ℕ

-- UINT64_MAX, the key of an empty slot of the order map
abbrev pub no_ref : ℕ
no_ref = 2 ^ 64 - 1

abbrev pub OrderMap : Type 0
OrderMap = FlatHashMap OrderLocation

pub record Engine : Type 0 where
  pub pool : OrderPool
  pub order_map : OrderMap
  pub order_books : ℕ → OrderBook
  pub latencies : List ℕ
  pub wire_latencies : List ℕ

-- The constructor; `map_capacity` is 8388608 in the source.
unfoldable pub new_engine : ℕ → Engine
unfolding empty_pool new_book HashMap.new
new_engine map_capacity = record {
  pool = empty_pool;
  order_map = HashMap.new no_ref map_capacity (record { stock_locate = 0; pool_idx = 0 });
  order_books = λ _. new_book;
  latencies = [];
  wire_latencies = [];
}

abbrev pub in_fuel {ℓ} : {A : Type ℓ} → Option A → Run A
in_fuel none = out_of_fuel
in_fuel (some a) = ok a

unfoldable pub map_find : OrderMap → ℕ → Run (Option OrderLocation)
map_find m ref = in_fuel (HashMap.find no_ref true m ref)

unfoldable pub map_erase : OrderMap → ℕ → Run OrderMap
map_erase m ref = in_fuel (HashMap.erase no_ref true m ref)

unfoldable pub map_insert : OrderMap → ℕ → OrderLocation → Run OrderMap
map_insert m ref loc = in_fuel (HashMap.insert no_ref true m ref loc)

-- `for (uint64_t ref : scratch.removedRefs) orderMap.erase(ref);`
unfoldable pub erase_all : OrderMap → List ℕ → Run OrderMap
erase_all m [] = ok m
erase_all m (ref ∷ refs) = map_erase m ref >>= (λ m'. erase_all m' refs)

abbrev pub cleared : Scratch
cleared = record { removed_refs = []; executed_orders = [] }

abbrev pub scratch_of : Outcome → Scratch
scratch_of o = record { removed_refs = o.removed_refs; executed_orders = o.executed_orders }

abbrev pub set_book : Engine → OrderPool → ℕ → OrderBook → Engine
set_book e pool locate book = record e {
  pool = pool;
  order_books = update e.order_books locate book;
}

-- Handles `order` in the book `locate` and brings the order map up to date; `ref` is its reference.
unfoldable pub enter_order : Engine → ℕ → Order → ℕ → Run (Engine × Scratch)
enter_order e locate order ref = do
  o ← handle_order e.pool (e.order_books locate) order cleared
  map ← erase_all e.order_map o.removed_refs
  map' ←
      (if o.resting_idx != invalid_index
        then map_insert map ref (record { stock_locate = locate; pool_idx = o.resting_idx })
        else ok map)
  ok (record (set_book e o.pool locate o.book) { order_map = map' }, scratch_of o)

-- Takes the order at a location out of its book, and its reference out of the map.
unfoldable pub drop_order : Engine → OrderLocation → ℕ → Run Engine
drop_order e loc ref = do
  let (pool, book) = remove_by_index e.pool (e.order_books loc.stock_locate) loc.pool_idx
  map ← map_erase e.order_map ref
  ok (record (set_book e pool loc.stock_locate book) { order_map = map })

-- The readings of the cycle counter around `handleOrder`, and `tWireCycles`.
pub record Clock : Type 0 where
  pub start_cycles : ℕ
  pub end_cycles : ℕ
  pub t_wire : ℕ

abbrev pub sub64 : ℕ → ℕ → ℕ
sub64 a b = (a + 2 ^ 64 - b) % 2 ^ 64

-- 'A' and 'F'
unfoldable pub process_add : Engine → List ℕ → Clock → Run (Engine × Scratch)
unfolding enter_order
process_add e body clock = do
  let locate = get_or body 0 0 * 256 + get_or body 1 0
  let order = (read_add_order body).0
  (e', out) ← enter_order e locate order (ref_of order)
  ok (
    record e' {
      latencies = e'.latencies ++ (sub64 clock.end_cycles clock.start_cycles ∷ []);
      wire_latencies =
          if clock.t_wire != 0
          then e'.wire_latencies ++ (sub64 clock.start_cycles clock.t_wire ∷ [])
          else e'.wire_latencies;
    },
    out,
  )

-- 'D'
unfoldable pub process_delete : Engine → List ℕ → Run Engine
unfolding drop_order
process_delete e body = do
  let msg = (read_delete_order body).0
  let ref = join_ref msg.order_reference_number_high msg.order_reference_number_low
  found ← map_find e.order_map ref
  elim found [ none ↦ ok e | some loc ↦ drop_order e loc ref ]

-- An execution or cancellation of `shares` of the order at `loc`.
unfoldable pub reduce_order : Engine → OrderLocation → ℕ → ℕ → Run Engine
unfolding drop_order
reduce_order e loc ref shares =
    let open_shares = (e.pool.nodes loc.pool_idx).order.shares in
    if leb open_shares shares
    then drop_order e loc ref
    else ok (record e {
      pool = with_nodes e.pool (set_shares e.pool.nodes loc.pool_idx (open_shares - shares));
    })

-- 'E', 'C' and 'X'
unfoldable pub process_executed : Engine → List ℕ → Run Engine
unfolding reduce_order
process_executed e body = do
  let msg = (read_order_executed body).0
  found ← map_find e.order_map msg.order_ref
  elim found [ none ↦ ok e | some loc ↦ reduce_order e loc msg.order_ref msg.shares ]

-- The replacement: the new reference, shares and price on the side of the original.
abbrev pub replacement : ℕ → ℕ → ℕ → ℕ → Order
replacement ref shares price side = record {
  order_reference_number_high = ref / 2 ^ 32;
  order_reference_number_low = ref % 2 ^ 32;
  shares = shares;
  price = price;
  buy_sell_indicator = side;
}

-- 'U'
unfoldable pub process_replace : Engine → List ℕ → Scratch → Run (Engine × Scratch)
unfolding drop_order enter_order
process_replace e body out = do
  let msg = (read_order_replace body).0
  found ← map_find e.order_map msg.original_order_ref
  elim found [
    | none ↦ ok (e, out)
    | some loc ↦ do
      let side = (e.pool.nodes loc.pool_idx).order.buy_sell_indicator
      e' ← drop_order e loc msg.original_order_ref
      let order = replacement msg.new_order_ref msg.shares msg.price side
      enter_order e' loc.stock_locate order msg.new_order_ref
  ]

abbrev pub keep_scratch : Scratch → Run Engine → Run (Engine × Scratch)
keep_scratch out r = r >>= (λ e. ok (e, out))

-- `processMessage`: the message type, and what the cursor sees behind it.
unfoldable pub process_message : Engine → ℕ → List ℕ → Scratch → Clock → Run (Engine × Scratch)
unfolding process_add process_delete process_executed process_replace
process_message e kind body out clock =
    if kind == b'A' || kind == b'F'
    then process_add e body clock
    else if kind == b'D'
    then keep_scratch out (process_delete e body)
    else if kind == b'E' || kind == b'C' || kind == b'X'
    then keep_scratch out (process_executed e body)
    else if kind == b'U'
    then process_replace e body out
    else ok (e, out)

-- The loop of `run` over the bytes of the file. Each round consumes the two bytes of a length, so
-- as many rounds as there are bytes are enough. `clock n` is read at message `n`.
unfoldable pub run_file :
    (clock : ℕ → Clock) → ℕ → ℕ → Engine → Scratch → List ℕ → Run (Engine × Scratch)
run_file clock fuel n e out [] = ok (e, out)
run_file clock zero n e out (b ∷ bs) = out_of_fuel
run_file clock (suc fuel) n e out (b ∷ bs) =
    let len = b * 256 + get_or bs 0 0 in
    let msg = drop 1 bs in
    let done = process_message e (get_or msg 0 0) (drop 1 msg) out (clock n) in
    done >>= (λ (e', out'). run_file clock fuel (n + 1) e' out' (drop len msg))

-- Cycle counts become nanoseconds. `to_ns` is the division by the calibrated rate, which is one of
-- floating-point numbers, and `is_cycles` is what `tscIsCycles` returns.
unfoldable pub convert : (is_cycles : Bool) → (to_ns : ℕ → ℕ) → Engine → Engine
convert is_cycles to_ns e =
    if is_cycles
    then record e { latencies = map to_ns e.latencies; wire_latencies = map to_ns e.wire_latencies }
    else e

-- `run` on the bytes of the mapped file.
unfoldable pub run :
    (clock : ℕ → Clock) (is_cycles : Bool) (to_ns : ℕ → ℕ) → Engine → List ℕ → Run Engine
unfolding run_file convert
run clock is_cycles to_ns e file = do
  (e', out) ← run_file clock (length file) 0 e cleared file
  ok (convert is_cycles to_ns e')
