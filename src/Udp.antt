-- ===== src/Udp.antt =====
-- src/engine_udp.cpp: `runUdp`, the matching thread beside the network thread of the feed handler.
-- The threads take turns: a turn of the network thread is a step of its loop, and a turn of the
-- matching thread is one `pop`, one message or one `release`. Pinning the thread to a core,
-- the calibration of the cycle counter and the output are left out.
pub mod Slots
pub mod Threads
pub mod Packet
pub mod Shutdown
pub mod Drain
use orderbook.Prelude.{
  ℕ, ◌+◌, ◌-◌, ◌%◌, ◌^◌, Bool, true, false, List, [], ◌∷◌, Option, none, some, ltb, ◌==◌,
  if◌then◌else◌, length, get_or, take, drop, replicate, ◌++◌,
}
use orderbook.Run.{Run, ok, ◌>>=◌}
use orderbook.Mold.{header_bytes, next}
use orderbook.Packets.{PacketPool, BufferSlot, pool_invalid, new_pool, release}
use orderbook.Ring.{SpscRing, new_ring, pop}
use orderbook.Feed
use orderbook.Feed.{Feed, PacketRef, Event, add64, receiving}
use orderbook.Xdp.{xdp_step}
use orderbook.Book.{Scratch}
use orderbook.Engine.{Engine, Clock, cleared, process_message}

-- Where the matching thread is: popping, with `spinBudget`; in a packet, with the bytes behind the
-- cursor; behind the loop; or waiting for the network thread to end.
pub data Stage : Type 0 where
  popping : ℕ → Stage
  reading : PacketRef → List ℕ → Stage
  leaving : Stage
  joining : Stage

-- `xdp_port` is the port of the AF_XDP thread, or `none` if the socket thread was started.
pub record Udp : Type 0 where
  pub feed : Feed
  pub stop : Bool
  pub engine : Engine
  pub scratch : Scratch
  pub message_count : ℕ
  pub stage : Stage
  pub xdp_port : Option ℕ

abbrev pub ring_slots : ℕ
ring_slots = 65536

abbrev pub pool_slots : ℕ
pool_slots = 131072

abbrev pub no_ref : PacketRef
no_ref = record { pool_idx = 0; t_wire_cycles = 0 }

abbrev no_stats : Feed.FeedStats
no_stats = record {
  packets_received = 0;
  packets_dropped = 0;
  bytes_received = 0;
  gaps_detected = 0;
  duplicates_ignored = 0;
  end_of_sessions = 0;
}

abbrev pub fresh : Engine → Option ℕ → SpscRing PacketRef → Udp
fresh engine xdp_port ring = record {
  feed = record {
    pool = new_pool pool_slots;
    ring = ring;
    stats = no_stats;
    active_session = replicate 10 0;
    session_init = false;
    next_expected = 1;
    phase = receiving;
  };
  stop = false;
  engine = engine;
  scratch = cleared;
  message_count = 0;
  stage = popping 0;
  xdp_port = xdp_port;
}

-- What `runUdp` sets up before the threads run; `none` is the call of `abort`.
unfoldable pub new_udp : Engine → Option ℕ → Option Udp
unfolding new_ring
new_udp engine xdp_port = elim (new_ring ring_slots no_ref) [
  | none ↦ none
  | some ring ↦ some (fresh engine xdp_port ring)
]

-- `slot.length - kMoldHeaderBytes`
abbrev pub body_bytes : BufferSlot → ℕ
body_bytes slot = (slot.length + 2 ^ 64 - header_bytes) % 2 ^ 64

-- The bytes that the iterator over a slot runs through, and those behind them in the slot, which
-- older packets left there. What is behind the slot itself reads as 0.
abbrev pub payload : BufferSlot → List ℕ
payload slot = take (body_bytes slot) (drop header_bytes slot.bytes)

abbrev pub stale : BufferSlot → List ℕ
stale slot = drop (body_bytes slot) (drop header_bytes slot.bytes)

-- The reference that was popped: the sentinel ends the loop.
unfoldable pub open_packet : Udp → PacketRef → Udp
open_packet u ref =
    if ref.pool_idx == pool_invalid
    then record u { stage = leaving }
    else record u { stage = reading ref (payload (u.feed.pool.slots ref.pool_idx)) }

-- The ring is empty: every 1024 tries the stop flag is read.
unfoldable pub spin : Udp → ℕ → Udp
spin u budget =
    if ltb (budget + 1) 1024
    then record u { stage = popping (budget + 1) }
    else if u.stop
    then record u { stage = leaving }
    else record u { stage = popping 0 }

unfoldable pub pop_packet : Udp → ℕ → Udp
unfolding open_packet spin
pop_packet u budget =
    let (popped, ring) = pop u.feed.ring in
    elim popped [
      | none ↦ spin u budget
      | some ref ↦ open_packet (record u { feed = record (u.feed) { ring = ring } }) ref
    ]

-- The cursor found no further message.
unfoldable pub close_packet : Udp → PacketRef → Udp
close_packet u ref = record u {
  feed = record (u.feed) { pool = release u.feed.pool ref.pool_idx };
  stage = popping 0;
}

-- `processMessage` on the message at the cursor. It sees the bytes behind the message, too: those
-- of the packet, and behind them what the slot held before.
unfoldable pub process_at : Udp → PacketRef → List ℕ → List ℕ → Clock → Run Udp
process_at u ref cursor rest clock =
    let msg = drop 2 cursor ++ stale (u.feed.pool.slots ref.pool_idx) in
    let done =
      process_message u.engine (get_or msg 0 0) (drop 1 msg) u.scratch
        (record clock { t_wire = ref.t_wire_cycles }) in
    done >>= (λ (engine, scratch). ok (record u {
      engine = engine;
      scratch = scratch;
      message_count = add64 u.message_count 1;
      stage = reading ref rest;
    }))

unfoldable pub read_packet : Udp → PacketRef → List ℕ → Clock → Run Udp
unfolding close_packet process_at
read_packet u ref cursor clock =
    let (found, rest) = next cursor in
    elim found [ none ↦ ok (close_packet u ref) | some msg ↦ process_at u ref cursor rest clock ]

-- A turn of the matching thread. `clock` is what it reads from the cycle counter.
unfoldable pub match_turn : Udp → Clock → Run Udp
unfolding pop_packet read_packet
match_turn u clock = elim u.stage [
  | popping budget ↦ ok (pop_packet u budget)
  | reading ref cursor ↦ read_packet u ref cursor clock
  | leaving ↦ ok (record u { stop = true; stage = joining })
  | joining ↦ ok u
]

-- A turn of the network thread that reads the socket, and of the one that reads frames.
unfoldable pub net_turn : Udp → Event → Udp
net_turn u event = record u { feed = Feed.step u.feed u.stop event }

unfoldable pub xdp_turn : Udp → ℕ → List (List ℕ) → ℕ → Udp
xdp_turn u port frames t_wire = record u { feed = xdp_step port u.feed u.stop frames t_wire }

pub data Turn : Type 0 where
  net : Event → Turn
  batch : (frames : List (List ℕ)) (t_wire : ℕ) → Turn
  matching : Clock → Turn

-- Only the thread that was started takes turns.
unfoldable pub turn : Udp → Turn → Run Udp
unfolding match_turn net_turn xdp_turn
turn u (net event) = elim u.xdp_port [ none ↦ ok (net_turn u event) | some port ↦ ok u ]
turn u (batch frames t_wire) = elim u.xdp_port [
  | none ↦ ok u
  | some port ↦ ok (xdp_turn u port frames t_wire)
]
turn u (matching clock) = match_turn u clock

-- An interleaving of the two threads.
unfoldable pub run_udp : Udp → List Turn → Run Udp
unfolding turn
run_udp u [] = ok u
run_udp u (t ∷ ts) = turn u t >>= (λ u'. run_udp u' ts)
