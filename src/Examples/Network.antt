-- ===== src/Examples/Network.antt =====
-- The network thread with eight packet buffers and a ring of four cells.
use orderbook.Prelude.{
  ℕ, ◌+◌, ◌/◌, ◌%◌, ◌==◌, if◌then◌else◌, ◌^◌, ◌≤◌, ◌<◌, ◌≡◌, refl, Bool, true, false, List, [], ◌∷◌,
  arith, length,
}
use orderbook.Prelude.Cycle.{dist, after}
use orderbook.Mold.{MoldHeader}
use orderbook.Packets.{PacketPool, pool_invalid}
use orderbook.Packets.Free.{IsFree}
use orderbook.Ring.{SpscRing, push}
use orderbook.Ring.Contents.{Holds, push-Holds}
use orderbook.Feed.{
  Feed, PacketRef, FeedStats, Event, datagram, interrupted, failed, receiving, add64,
  sequence_packet,
}
use orderbook.Feed.Sequence.{
  CarriesMessages, bump, expected_after, is_duplicate, is_gap, verdict, full_ring_hides_gap,
  sequence_packet-verdict,
}
use orderbook.Feed.Slots.{Keeps, run, run-Keeps}

abbrev pub ref : ℕ → PacketRef
ref i = record { pool_idx = i; t_wire_cycles = 0 }

-- Two packets in cells 3 and 0: the ring has wrapped around.
abbrev pub ring : SpscRing PacketRef
ring = record {
  head = 3;
  tail = 1;
  mask = 3;
  buffer = λ i. ref (if i == 3 then 5 else if i == 0 then 6 else if i == 1 then 7 else 4);
}

pub ring-Holds : Holds 2 ring (ref 5 ∷ ref 6 ∷ [])
unfolding dist after
ring-Holds = record {
  width = omega arith;
  mask = refl;
  head = omega arith;
  tail = omega arith;
  size = refl;
  slots = (refl, (refl, tt));
}

push-Holds_example :
    (length (ref 5 ∷ ref 6 ∷ []) + 1 < 2 ^ 2
      → ((push ring (ref 2)).0 ≡ true) × Holds 2 (push ring (ref 2)).1 (ref 5 ∷ ref 6 ∷ ref 2 ∷ []))
    × (2 ^ 2 ≤ length (ref 5 ∷ ref 6 ∷ []) + 1 → push ring (ref 2) ≡ (false, ring))
push-Holds_example = push-Holds (ref 5 ∷ ref 6 ∷ []) (ref 2) ring-Holds

-- Slots 1 to 3 are free; 5 and 6 are in the ring.
abbrev pool : PacketPool
pool = record {
  slots =
      λ i. record { bytes = []; length = 0; next_free = if i == 3 then pool_invalid else i + 1 };
  free_head = 1;
}

abbrev pub three : List ℕ
three = 1 ∷ 2 ∷ 3 ∷ []

pub pool-IsFree : IsFree pool three
pool-IsFree = ground arith

abbrev no_stats : FeedStats
no_stats = record {
  packets_received = 0;
  packets_dropped = 0;
  bytes_received = 0;
  gaps_detected = 0;
  duplicates_ignored = 0;
  end_of_sessions = 0;
}

abbrev pub feed : Feed
feed = record {
  pool = pool;
  ring = ring;
  stats = no_stats;
  active_session = [];
  session_init = false;
  next_expected = 0;
  phase = receiving;
}

-- A packet of session spaces with number 2 and `count` messages, whose bytes are left out.
abbrev pub packet : ℕ → List ℕ
packet count =
    32
    ∷ 32
    ∷ 32
    ∷ 32
    ∷ 32
    ∷ 32
    ∷ 32
    ∷ 32
    ∷ 32
    ∷ 32
    ∷ 0
    ∷ 0
    ∷ 0
    ∷ 0
    ∷ 0
    ∷ 0
    ∷ 0
    ∷ 2
    ∷ count / 256
    ∷ count % 256
    ∷ []

-- A packet, an interruption, a duplicate, the end of the session, and the push of the sentinel.
abbrev events : List (Bool × Event)
events =
    (false, datagram (packet 1) 40)
    ∷ (false, interrupted)
    ∷ (false, datagram (packet 1) 41)
    ∷ (false, datagram (packet 0xffff) 42)
    ∷ (false, interrupted)
    ∷ (true, failed)
    ∷ []

run-Keeps_example : Keeps 2 (run feed events) three (ref 5 ∷ ref 6 ∷ [])
run-Keeps_example =
    run-Keeps 2 three (ref 5 ∷ ref 6 ∷ []) feed events
      (record { is_free = pool-IsFree; holds = ring-Holds }) refl

abbrev header : ℕ → MoldHeader
header n = record { session = []; sequence_number = n; message_count = 2 }

sequence_packet-verdict_example :
    let v = verdict 0 (header 5) in
    let f' = sequence_packet feed (header 5) 4 0 in
    (f'.next_expected ≡ expected_after v 0 (header 5))
    × (f'.stats.gaps_detected ≡ bump 0 (is_gap v))
    × (f'.stats.duplicates_ignored ≡ bump 0 (is_duplicate v))
sequence_packet-verdict_example = sequence_packet-verdict feed (header 5) 4 0

gap-seen : (sequence_packet feed (header 5) 4 0).next_expected ≡ 7
unfolding sequence_packet push
gap-seen = refl

-- The ring with a third packet is full.
abbrev full : Feed
full = record feed { ring = record ring { tail = 2 } }

full-push : (push full.ring (record { pool_idx = 4; t_wire_cycles = 0 })).0 ≡ false
unfolding push
full-push = refl

carries : (n : ℕ) → CarriesMessages (header n)
carries n = (omega arith, omega arith)

full_ring_hides_gap_example :
    let f' = sequence_packet full (header 0) 4 0 in
    let f'' = sequence_packet f' (header 2) 4 9 in
    (f'.stats.packets_dropped ≡ add64 0 1) × (f'.ring ≡ full.ring) × (f''.stats.gaps_detected ≡ 0)
full_ring_hides_gap_example =
    full_ring_hides_gap full (header 0) (header 2) 4 0 4 9 (carries 0) (carries 2) refl refl
      full-push
