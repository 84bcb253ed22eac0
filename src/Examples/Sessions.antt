-- ===== src/Examples/Sessions.antt =====
-- Whole files and packets, and the end of the threads.
use orderbook.Prelude.{
  replicate, if◌then◌else◌, ◌==◌, ℕ, ◌≡◌, refl, sym, ap, subst, ◌/◌, true, List, [], ◌∷◌, ◌++◌,
  arith, length,
}
use orderbook.Run.{ok}
use orderbook.Engine.{Engine, new_engine, run}
use orderbook.Engine.Books.{Consistent}
use orderbook.Engine.Start.{new_engine-Consistent}
use orderbook.Engine.Session.{Distinct, Session, all_news, messages_of, run-Consistent}
use orderbook.HashMap.Valid.{occupied}
use orderbook.Feed.{PacketRef, finished, interrupted}
use orderbook.Udp.{Udp, net, matching, popping, reading, run_udp}
use orderbook.Udp.Packet.{Consumes, match_turns, match_turns-Consumed, seen}
use orderbook.Udp.Drain.{Drained, match_turns-Drained, messages_in, packets}
use orderbook.Udp.Shutdown.{Ended, Stuck, match_turns-Ends, run_udp-Stuck}
use orderbook.Examples.Exchange.{exchange, exchange-Consistent}
use orderbook.Examples.Messages.{sell_body, sell-WellFormed, sell_new, sell_news, ticking}
use orderbook.Examples.Threads.{udp}
use orderbook.Examples.Network.{ref, ring-Holds}
use orderbook.Packets.{PacketPool, pool_invalid}
use orderbook.Prelude.Cycle.{dist, after}
use orderbook.Ring.Contents.{Holds}
use orderbook.Mold.{load_u16, next, swap_u16}

new_engine-Consistent_example : Consistent 23 (new_engine 8388608)
new_engine-Consistent_example = new_engine-Consistent 23 (omega arith)

-- The add message behind its length.
abbrev file : List ℕ
file = 0 ∷ 36 ∷ b'A' ∷ sell_body

file_messages : messages_of (length file) file ≡ (b'A', sell_body) ∷ []
unfolding messages_of
file_messages = refl

one_new : all_news ((b'A', sell_body) ∷ []) ≡ 9 ∷ []
unfolding all_news
one_new = ap (λ l. l ++ []) sell_news

one-Session : Session 3 exchange ((b'A', sell_body) ∷ [])
unfolding occupied
one-Session = record {
  formed = (sell-WellFormed, tt);
  distinct = subst Distinct (sym one_new) (refl, tt);
  fresh = λ j h. sell_new j (ground (arith, h, one_new, sell_news));
  room = omega arith;
  spare = omega arith;
}

run-Consistent_example :
    (e' : Engine) × (run ticking true (λ c. c / 3) exchange file ≡ ok e') × Consistent 3 e'
run-Consistent_example =
    run-Consistent 3 ticking true (λ c. c / 3) exchange file exchange-Consistent
      (subst (Session 3 exchange) (sym file_messages) one-Session)

-- The matching thread has popped the slot 4, which has the message.
abbrev reader : Udp
reader = record udp { engine = exchange; stage = reading (ref 4) file }

packet_messages : seen [] 38 file ++ [] ≡ (b'A', sell_body) ∷ []
unfolding seen next swap_u16 load_u16
packet_messages = refl

match_turns-Consumed_example : Consumes 3 ticking 0 reader (ref 4) (seen [] 38 file) []
match_turns-Consumed_example =
    match_turns-Consumed 3 ticking 38 0 reader (ref 4) file [] refl (omega arith)
      exchange-Consistent (subst (Session 3 exchange) (sym packet_messages) one-Session)

-- The slot 5 has the message behind a header of 20 bytes, and the slot 6 a header only.
abbrev full_pool : PacketPool
full_pool = record (udp.feed.pool) {
  slots = λ i.
      if i == 5
      then record { bytes = replicate 20 0 ++ file; length = 58; next_free = 0 }
      else record { bytes = replicate 20 0; length = 20; next_free = 0 };
}

abbrev busy : Udp
busy = record udp {
  feed = record (udp.feed) { pool = full_pool };
  engine = exchange;
  stage = popping 7;
}

busy_packets :
    packets full_pool (ref 5 ∷ ref 6 ∷ []) ≡ (ref 5, (b'A', sell_body) ∷ []) ∷ (ref 6, []) ∷ []
unfolding seen next swap_u16 load_u16
busy_packets = refl

match_turns-Drained_example :
    (count : ℕ) × (v : Udp) × (run_udp busy (match_turns ticking 0 count) ≡ ok v)
    × Drained 3 2 ticking busy v (packets full_pool (ref 5 ∷ ref 6 ∷ [])) []
match_turns-Drained_example =
    match_turns-Drained 3 2 ticking 0 7 busy (ref 5 ∷ ref 6 ∷ []) refl ring-Holds
      (omega arith, (omega arith, tt)) exchange-Consistent
      (subst (λ ps. Session 3 exchange (messages_in ps)) (sym busy_packets) one-Session)

-- The slot 5 is in the ring, and the sentinel behind it.
abbrev sentinel : PacketRef
sentinel = ref pool_invalid

abbrev last_packet : Udp
last_packet = record busy {
  feed = record (busy.feed) {
    ring = record (busy.feed.ring) { buffer = λ i. if i == 3 then ref 5 else sentinel };
  };
}

last-Holds : Holds 2 last_packet.feed.ring (ref 5 ∷ sentinel ∷ [])
unfolding dist after
last-Holds = record {
  width = omega arith;
  mask = refl;
  head = omega arith;
  tail = omega arith;
  size = refl;
  slots = (refl, (refl, tt));
}

last_packets : packets full_pool (ref 5 ∷ []) ≡ (ref 5, (b'A', sell_body) ∷ []) ∷ []
unfolding seen next swap_u16 load_u16
last_packets = refl

match_turns-Ends_example :
    (count : ℕ) × (v : Udp) × (run_udp last_packet (match_turns ticking 0 count) ≡ ok v)
    × Ended 3 ticking last_packet v (packets full_pool (ref 5 ∷ []))
match_turns-Ends_example =
    match_turns-Ends 3 2 ticking 0 7 last_packet (ref 5 ∷ []) sentinel refl last-Holds
      (omega arith, tt) refl exchange-Consistent
      (subst (λ ps. Session 3 exchange (messages_in ps)) (sym last_packets) one-Session)

-- The ring is empty.
abbrev idle : ℕ → Udp
idle budget = record udp {
  feed = record (udp.feed) {
    ring = record (udp.feed.ring) { tail = udp.feed.ring.head };
    phase = finished;
  };
  stage = popping budget;
}

run_udp-Stuck_example :
    (v : Udp) × (run_udp (idle 1023) (net interrupted ∷ matching (ticking 0) ∷ []) ≡ ok v) × Stuck v
run_udp-Stuck_example =
    run_udp-Stuck (idle 1023) (net interrupted ∷ matching (ticking 0) ∷ [])
      (record { phase = refl; stop = refl; empty = refl; stage = (1023, refl) })
