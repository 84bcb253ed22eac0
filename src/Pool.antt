-- ===== src/Pool.antt =====
-- include/order_pool.hpp: the arena of order nodes that all books share, with its free list.
-- The vector is a store and its size; cells at and above the size are not read. `reserve` and
-- `hugepages` do not change what the program computes and are left out.
pub mod Chain
pub mod Reuse
use orderbook.Prelude.{ℕ, ◌+◌, ◌%◌, ◌^◌, if◌then◌else◌, ◌!=◌}
use orderbook.Prelude.Store.{update}
use orderbook.Itch.{Order}

-- UINT32_MAX, which stands for "no node"
abbrev pub invalid_index : ℕ
invalid_index = 0xffff_ffff

pub record PoolNode : Type 0 where
  pub order : Order
  pub next : ℕ
  pub prev : ℕ

abbrev pub Nodes : Type 0
Nodes = ℕ → PoolNode

pub record OrderPool : Type 0 where
  pub nodes : Nodes
  pub size : ℕ
  pub free_head : ℕ

abbrev pub no_order : Order
no_order = record {
  order_reference_number_high = 0;
  order_reference_number_low = 0;
  shares = 0;
  price = 0;
  buy_sell_indicator = 0;
}

unfoldable pub empty_pool : OrderPool
empty_pool = record {
  nodes = λ _. record { order = no_order; next = invalid_index; prev = invalid_index };
  size = 0;
  free_head = invalid_index;
}

abbrev pub fresh_node : Order → PoolNode
fresh_node order = record { order = order; next = invalid_index; prev = invalid_index }

-- The pool after the index was taken: off the free list, or off the end of the grown vector.
unfoldable pub take_slot : OrderPool → ℕ × OrderPool
take_slot pool =
    if pool.free_head != invalid_index
    then (pool.free_head, record pool { free_head = (pool.nodes pool.free_head).next })
    else (pool.size % 2 ^ 32, record pool { size = pool.size + 1 })

unfoldable pub allocate : OrderPool → Order → ℕ × OrderPool
unfolding take_slot
allocate pool order =
    let (idx, taken) = take_slot pool in
    (idx, record taken { nodes = update taken.nodes idx (fresh_node order) })

unfoldable pub free : OrderPool → ℕ → OrderPool
free pool idx = record pool {
  nodes = update pool.nodes idx (record (pool.nodes idx) { next = pool.free_head });
  free_head = idx;
}

-- `nodes[i].next = j`, `nodes[i].prev = j`
abbrev pub set_next : Nodes → ℕ → ℕ → Nodes
set_next ns i j = update ns i (record (ns i) { next = j })

abbrev pub set_prev : Nodes → ℕ → ℕ → Nodes
set_prev ns i j = update ns i (record (ns i) { prev = j })

abbrev pub set_shares : Nodes → ℕ → ℕ → Nodes
set_shares ns i n = update ns i (record (ns i) { order = record ((ns i).order) { shares = n } })
