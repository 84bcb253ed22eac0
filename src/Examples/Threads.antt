-- ===== src/Examples/Threads.antt =====
-- The two threads with six packet buffers, one of which the matching thread reads.
use orderbook.Prelude.{
  none, ℕ, ◌≤◌, ◌≡◌, refl, true, false, leb, ◌&&◌, ◌||◌, ◌==◌, if◌then◌else◌, List, [], ◌∷◌, ◌++◌,
  some, arith, replicate,
}
use orderbook.Mold.{swap_u16, load_u16, store_u16, end_of_session, parse_mold_header}
use orderbook.Mold.Packet.{frames}
use orderbook.Ring.{next_index}
use orderbook.Ring.Threads.{Pair, resting, waiting, Access, by_producer, by_consumer, run_accesses}
use orderbook.Ring.Order.{InOrder, run_accesses-InOrder}
use orderbook.Packets.Threads.{
  Threads, Action, begin_acquire, begin_release, access, acquire_linked, release_loaded,
  run_actions,
}
use orderbook.Packets.Race.{Safe, run_actions-Safe}
use orderbook.Feed.{PacketRef, Event, datagram, receive}
use orderbook.Xdp.{handle_frame, frame_payload}
use orderbook.Xdp.Agree.{Agrees, handle_frame-Agrees}
use orderbook.Engine.{cleared}
use orderbook.Udp.{Udp, reading, net, turn, net_turn, xdp_turn}
use orderbook.Udp.Slots.{Owned}
use orderbook.Udp.Threads.{start, after, Reaches-Owned, net_turn-frame}
use orderbook.Replay.{sent, overrun, session, replay}
use orderbook.Replay.Overrun.{replay-overruns}
use orderbook.Replay.Delivers.{Delivers, replay-Delivers}
use orderbook.Examples.Data.{engine}
use orderbook.Examples.Network.{feed, ref, three, pool-IsFree, ring-Holds, packet}

-- Slots 1 to 3 are free, 5 and 6 in the ring, and 4 is read.
abbrev pub udp : Udp
udp = record {
  feed = feed;
  stop = false;
  engine = engine;
  scratch = cleared;
  message_count = 0;
  stage = reading (ref 4) [];
  xdp_port = none;
}

abbrev six : ℕ → ℕ
six a = if leb 1 a && leb a 6 then 1 else 0

six-once : (a : ℕ) → six a ≤ 1
six-once a = ground arith

udp-Owned : Owned 2 six udp
udp-Owned = record {
  free = three;
  refs = ref 5 ∷ ref 6 ∷ [];
  slots = record { is_free = pool-IsFree; holds = ring-Holds };
  sentinel = refl;
  valid = omega arith;
  owners = λ a real. ground arith;
}

abbrev event : Event
event = datagram (packet 1) 40

Reaches-Owned_example : Owned 2 six (net_turn udp event)
unfolding turn
Reaches-Owned_example =
    Reaches-Owned 2 six udp (net_turn udp event) six-once udp-Owned
      (after udp (net_turn udp event) (net event) start refl)

net_turn-frame_example :
    ((event : Event) → (net_turn udp event).feed.pool.slots 4 ≡ udp.feed.pool.slots 4)
    × ((port : ℕ) (frames : List (List ℕ)) (t_wire : ℕ)
        → (xdp_turn udp port frames t_wire).feed.pool.slots 4 ≡ udp.feed.pool.slots 4)
net_turn-frame_example = net_turn-frame 2 six udp 4 six-once udp-Owned (omega arith) (omega arith)

-- An Ethernet frame to port 30001 with a packet of the session.
abbrev frame : List ℕ
frame =
    (0 ∷ 0 ∷ 0 ∷ 0 ∷ 0 ∷ 0 ∷ 0 ∷ 0 ∷ 0 ∷ 0 ∷ 0 ∷ 0 ∷ 8 ∷ 0 ∷ [])
    ++ ((0x45 ∷ 0 ∷ 0 ∷ 0 ∷ 0 ∷ 0 ∷ 0 ∷ 0 ∷ 64 ∷ 17 ∷ 0 ∷ 0 ∷ 127 ∷ 0 ∷ 0 ∷ 1 ∷ 127 ∷ 0 ∷ 0 ∷ 1
          ∷ [])
        ++ ((0 ∷ 0 ∷ 0x75 ∷ 0x31 ∷ 0 ∷ 28 ∷ 0 ∷ 0 ∷ []) ++ packet 1))

frame-payload : frame_payload 30001 frame ≡ some (packet 1)
unfolding frame_payload swap_u16 load_u16
frame-payload = refl

handle_frame-Agrees_example :
    Agrees (receive feed false (datagram (packet 1) 40)) (handle_frame 30001 feed frame 40)
handle_frame-Agrees_example =
    handle_frame-Agrees 30001 feed frame (packet 1) 40 (omega arith) frame-payload (omega arith)

abbrev two_messages : List (List ℕ)
two_messages = (b'S' ∷ 1 ∷ []) ∷ (b'H' ∷ []) ∷ []

replay-Delivers_example :
    (packets : List (List ℕ)) × (marker : List ℕ) × (replay (λ _. true) 1 (frames two_messages)
      ≡ sent (packets ++ (marker ∷ [])))
    × Delivers 1 1 two_messages packets
    × (parse_mold_header marker
        ≡ record { session = session; sequence_number = 3; message_count = end_of_session })
replay-Delivers_example =
    replay-Delivers 1 two_messages (omega arith, (omega arith, tt)) (omega arith) (omega arith)
      (omega arith)

-- 257 messages without bytes.
abbrev empty_messages : List (List ℕ)
empty_messages = replicate 257 []

replay-overruns_example : replay (λ _. true) 300 (frames empty_messages) ≡ overrun
unfolding frames store_u16
replay-overruns_example =
    replay-overruns (λ _. true) 300 empty_messages (omega arith) (omega arith) (omega arith)

-- The network thread has read the link of slot 1; the matching thread is giving slot 4 back.
abbrev threads : Threads
threads = record {
  pool = feed.pool;
  network = acquire_linked 1 2;
  matcher = release_loaded 4 1;
  in_use = λ a. a == 5 || a == 6;
}

-- The push comes before the pop, which has to begin again.
abbrev actions : List Action
actions =
    access false false
    ∷ access false false
    ∷ access true false
    ∷ access true false
    ∷ access true false
    ∷ begin_release false 5
    ∷ access false true
    ∷ begin_acquire
    ∷ []

run_actions-Safe_example : Safe six (run_actions threads actions)
run_actions-Safe_example = run_actions-Safe six threads actions six-once (record {
  shared = record {
    free = three;
    is_free = pool-IsFree;
    my_view = (refl, refl);
    your_view = omega arith;
    not_invalid = refl;
    owners = λ a real. ground arith;
  };
  releases = tt;
})

-- A third value is pushed while the oldest one is popped.
abbrev pair : Pair PacketRef
pair = record {
  ring = feed.ring;
  producer = resting;
  consumer = waiting;
  pushed = ref 5 ∷ ref 6 ∷ [];
  popped = [];
}

abbrev accesses : List (Access PacketRef)
accesses =
    by_consumer
    ∷ by_producer (ref 2)
    ∷ by_producer (ref 2)
    ∷ by_consumer
    ∷ by_producer (ref 2)
    ∷ by_consumer
    ∷ by_consumer
    ∷ []

run_accesses-InOrder_example : InOrder 2 (run_accesses pair accesses)
run_accesses-InOrder_example = run_accesses-InOrder 2 pair accesses (record {
  values = ref 5 ∷ ref 6 ∷ [];
  holds = ring-Holds;
  pushing = tt;
  popping = tt;
  order = refl;
})

threads-order : (run_accesses pair accesses).popped ≡ ref 5 ∷ []
unfolding run_accesses next_index
threads-order = refl
