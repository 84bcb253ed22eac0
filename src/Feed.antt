-- ===== src/Feed.antt =====
-- src/feed_handler.cpp and include/feed_handler.hpp: the loop of the network thread. Opening the
-- socket is left out; what `recv` returns, with the reading of the cycle counter, is an event.
pub mod Sequence
pub mod Phases
pub mod Slots
pub mod Frame
use orderbook.Prelude.{
  ℕ, ◌+◌, ◌%◌, ◌^◌, Bool, true, false, List, ltb, ◌==◌, if◌then◌else◌, length, take,
}
use orderbook.Mold.{MoldHeader, header_bytes, end_of_session, heartbeat, parse_mold_header}
use orderbook.Packets.{PacketPool, max_packet_bytes, pool_invalid, acquire, release, fill}
use orderbook.Ring.{SpscRing, push}

pub record PacketRef : Type 0 where
  pub pool_idx : ℕ
  pub t_wire_cycles : ℕ

pub record FeedStats : Type 0 where
  pub packets_received : ℕ
  pub packets_dropped : ℕ
  pub bytes_received : ℕ
  pub gaps_detected : ℕ
  pub duplicates_ignored : ℕ
  pub end_of_sessions : ℕ

-- Where the thread is: in the loop, spinning on the push of the sentinel, or out of the loop.
pub data Phase : Type 0 where
  receiving : Phase
  ending : PacketRef → Phase
  finished : Phase

pub record Feed : Type 0 where
  pub pool : PacketPool
  pub ring : SpscRing PacketRef
  pub stats : FeedStats
  pub active_session : List ℕ
  pub session_init : Bool
  pub next_expected : ℕ
  pub phase : Phase

-- What one `recv` brings: a datagram and its time stamp, an interruption, or another error.
pub data Event : Type 0 where
  datagram : List ℕ → ℕ → Event
  interrupted : Event
  failed : Event

abbrev pub add64 : ℕ → ℕ → ℕ
add64 a b = (a + b) % 2 ^ 64

abbrev pub count_received : FeedStats → ℕ → FeedStats
count_received st n = record st {
  packets_received = add64 st.packets_received 1;
  bytes_received = add64 st.bytes_received n;
}

abbrev pub count_dropped : FeedStats → FeedStats
count_dropped st = record st { packets_dropped = add64 st.packets_dropped 1 }

-- The first packet of a session sets the sequence number that is expected.
unfoldable pub open_session : Feed → MoldHeader → Feed
open_session f hdr = if f.session_init then f else record f {
  active_session = hdr.session;
  session_init = true;
  next_expected = hdr.sequence_number;
}

abbrev give_back : Feed → ℕ → Feed
give_back f idx = record f { pool = release f.pool idx }

-- The gap check and the resynchronisation.
unfoldable pub note_gap : Feed → ℕ → Feed
note_gap f seq =
    if ltb f.next_expected seq
    then record f {
      stats = record (f.stats) { gaps_detected = add64 f.stats.gaps_detected 1 };
      next_expected = seq;
    }
    else f

-- Hands the slot to the matching thread, or gives it back if the ring is full.
unfoldable pub hand_over : Feed → ℕ → ℕ → Feed
hand_over f idx t_wire =
    let (pushed, ring) = push f.ring (record { pool_idx = idx; t_wire_cycles = t_wire }) in
    if pushed
    then record f { ring = ring }
    else record f { pool = release f.pool idx; stats = count_dropped f.stats }

-- What follows the header of a packet in slot `idx`.
unfoldable pub sequence_packet : Feed → MoldHeader → ℕ → ℕ → Feed
unfolding note_gap hand_over
sequence_packet f hdr idx t_wire =
    if hdr.message_count == end_of_session
    then record (give_back f idx) {
      stats = record (f.stats) { end_of_sessions = add64 f.stats.end_of_sessions 1 };
      phase = ending (record { pool_idx = pool_invalid; t_wire_cycles = t_wire });
    }
    else if hdr.message_count == heartbeat
    then give_back f idx
    else if ltb hdr.sequence_number f.next_expected
    then record (give_back f idx) {
      stats = record (f.stats) { duplicates_ignored = add64 f.stats.duplicates_ignored 1 };
    }
    else let noted = note_gap f hdr.sequence_number in
      let counted = record noted { next_expected = add64 noted.next_expected hdr.message_count } in
      hand_over counted idx t_wire

-- What `recv` writes of a datagram into a buffer of `kMaxPacketBytes`: a longer one is cut.
unfoldable pub received : List ℕ → List ℕ
received bytes = take max_packet_bytes bytes

-- The `bytes` that were received into slot `idx`.
unfoldable pub accept : Feed → ℕ → List ℕ → ℕ → Feed
unfolding open_session sequence_packet
accept f idx bytes t_wire =
    let n = length bytes in
    if ltb n header_bytes
    then give_back f idx
    else let filled = record f {
      pool = fill f.pool idx bytes (n % 2 ^ 16);
      stats = count_received f.stats n;
    } in
      let hdr = parse_mold_header bytes in sequence_packet (open_session filled hdr) hdr idx t_wire

-- No slot is free: the datagram goes into a throwaway buffer of the same size.
unfoldable pub discard : Feed → Event → Feed
unfolding received
discard f (datagram bytes t_wire) =
    let n = length (received bytes) in
    if n == 0 then f else record f { stats = count_dropped (count_received f.stats n) }
discard f interrupted = f
discard f failed = f

unfoldable pub receive_into : Feed → ℕ → Event → Feed
unfolding accept received
receive_into f idx (datagram bytes t_wire) = accept f idx (received bytes) t_wire
receive_into f idx interrupted = give_back f idx
receive_into f idx failed = record (give_back f idx) { phase = finished }

-- One round of the loop, with the test of the stop flag before it.
unfoldable pub receive : Feed → Bool → Event → Feed
unfolding receive_into discard
receive f true event = record f { phase = finished }
receive f false event =
    let (idx, pool) = acquire f.pool in
    if idx == pool_invalid
    then discard f event
    else receive_into (record f { pool = pool }) idx event

-- One try to push the sentinel; the loop ends if the push succeeds or the stop flag is set.
unfoldable pub send_sentinel : Feed → PacketRef → Bool → Feed
send_sentinel f ref stop =
    let (pushed, ring) = push f.ring ref in
    if pushed
    then record f { ring = ring; phase = finished }
    else if stop
    then record f { phase = finished }
    else f

-- `stop` is the flag as read in this step. The event is used by the receive loop only.
unfoldable pub step : Feed → Bool → Event → Feed
unfolding receive send_sentinel
step f stop event = elim f.phase [
  | receiving ↦ receive f stop event
  | ending ref ↦ send_sentinel f ref stop
  | finished ↦ f
]
