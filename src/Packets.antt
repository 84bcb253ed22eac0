-- ===== src/Packets.antt =====
-- include/packet_pool.hpp: the arena of packet buffers and its free list. The compare-and-swap
-- loops are taken at one thread at a time here, where the first exchange succeeds; Packets/Threads
-- takes them access by access.
pub mod Free
pub mod Threads
pub mod Shared
pub mod Race
pub mod Exchange
use orderbook.Prelude.{ℕ, ◌+◌, ◌==◌, ◌!=◌, if◌then◌else◌, List, ◌++◌, length, drop, replicate}
use orderbook.Prelude.Store.{update}

abbrev pub max_packet_bytes : ℕ
max_packet_bytes = 2048

abbrev pub pool_invalid : ℕ
pool_invalid = 0xffff_ffff

pub record BufferSlot : Type 0 where
  pub bytes : List ℕ
  pub length : ℕ
  pub next_free : ℕ

pub record PacketPool : Type 0 where
  pub slots : ℕ → BufferSlot
  pub free_head : ℕ

-- Each slot is linked to the next one, and the last to none.
unfoldable pub new_pool : ℕ → PacketPool
new_pool num_slots = record {
  slots = λ i. record {
    bytes = replicate max_packet_bytes 0;
    length = 0;
    next_free = if i + 1 == num_slots then pool_invalid else i + 1;
  };
  free_head = 0;
}

unfoldable pub acquire : PacketPool → ℕ × PacketPool
acquire p =
    if p.free_head != pool_invalid
    then (p.free_head, record p { free_head = (p.slots p.free_head).next_free })
    else (pool_invalid, p)

unfoldable pub release : PacketPool → ℕ → PacketPool
release p idx = record {
  slots = update p.slots idx (record (p.slots idx) { next_free = p.free_head });
  free_head = idx;
}

-- The bytes that `recv` or `memcpy` writes to the start of the slot, and `slot.length`. What the
-- slot held behind them stays.
unfoldable pub fill : PacketPool → ℕ → List ℕ → ℕ → PacketPool
fill p idx bytes n =
    let slot = p.slots idx in
    let written = record slot { bytes = bytes ++ drop (length bytes) slot.bytes; length = n } in
    record p { slots = update p.slots idx written }
