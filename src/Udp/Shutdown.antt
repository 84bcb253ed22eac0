-- ===== src/Udp/Shutdown.antt =====
-- How the threads of engine_udp.cpp end, and when they do not.
use orderbook.Prelude.{
  inl, inr, sym, subst, Option-cases, ℕ, zero, suc, ◌+◌, ◌≤◌, ◌<◌, ◌≡◌, ◌≢◌, ◌∙◌, refl, Bool, true,
  false, List, [], ◌∷◌, ◌++◌, some, All, arith,
}
use native.Mathlib.Decide.{dec_lt}
use orderbook.Run.{ok}
use orderbook.Packets.{pool_invalid}
use orderbook.Ring.{pop}
use orderbook.Ring.Contents.{Holds, pop-Holds}
use orderbook.Feed.{Feed, PacketRef, Event, finished, receive, send_sentinel, step}
use orderbook.Feed.Phases.{Phase-cases}
use orderbook.Xdp.{xdp_step}
use orderbook.Engine.{Clock}
use orderbook.Engine.Books.{Consistent}
use orderbook.Engine.Session.{Session}
use orderbook.Udp.{
  Turn, Udp, net, batch, matching, popping, leaving, joining, match_turn, net_turn, xdp_turn,
  pop_packet, open_packet, run_udp, spin, turn,
}
use orderbook.Udp.Packet.{match_turns}
use orderbook.Udp.Drain.{
  InOrder, Packet, match_turns-Drains, messages_in, one_turn, packets, turns-then,
}

-- One try to pop from an empty ring.
empty_turn :
    (u : Udp) (b : ℕ) (clock : Clock)
    → u.stage ≡ popping b
    → u.feed.ring.head ≡ u.feed.ring.tail
    → turn u (matching clock) ≡ ok (spin u b)
unfolding turn match_turn pop_packet pop
empty_turn u b clock at empty = ground (arith, at, empty)

spin-on : (u : Udp) (b : ℕ) → b + 1 < 1024 → spin u b ≡ record u { stage = popping (b + 1) }
unfolding spin
spin-on u b more = ground arith

spin-again :
    (u : Udp) (b : ℕ) → 1024 ≤ b + 1 → u.stop ≡ false → spin u b ≡ record u { stage = popping 0 }
unfolding spin
spin-again u b last stop = ground (arith, stop)

leaving_turn :
    (u : Udp) (clock : Clock)
    → u.stage ≡ leaving
    → turn u (matching clock) ≡ ok (record u { stop = true; stage = joining })
unfolding turn match_turn
leaving_turn u clock at = ground (arith, at)

-- The network thread ends in the turn after the stop flag was set, wherever it is.
step-finished : (f : Feed) (event : Event) → (step f true event).phase ≡ finished
unfolding step receive send_sentinel
step-finished f event = elim (Phase-cases f.phase) [
  | inl e ↦ ground (arith, e)
  | inr (inl (ref, e)) ↦ ground (arith, e)
  | inr (inr e) ↦ ground (arith, e)
]

xdp_step-finished :
    (port : ℕ) (f : Feed) (frames : List (List ℕ)) (t_wire : ℕ)
    → (xdp_step port f true frames t_wire).phase ≡ finished
unfolding xdp_step send_sentinel
xdp_step-finished port f frames t_wire = elim (Phase-cases f.phase) [
  | inl e ↦ ground (arith, e)
  | inr (inl (ref, e)) ↦ ground (arith, e)
  | inr (inr e) ↦ ground (arith, e)
]

-- The turn that pops the sentinel.
sentinel_turn :
    (u : Udp) (b : ℕ) (ref : PacketRef) (clock : Clock)
    → u.stage ≡ popping b
    → (pop u.feed.ring).0 ≡ some ref
    → ref.pool_idx ≡ pool_invalid
    → turn u (matching clock)
      ≡ ok (record u { feed = record (u.feed) { ring = (pop u.feed.ring).1 }; stage = leaving })
unfolding turn match_turn pop_packet open_packet
sentinel_turn u b ref clock at e is = ground (arith, at, e, is)

-- `v` is `u` after the packets `ps` and the sentinel: the flag is set, the matching thread waits
-- for the network thread, and that one ends in its next turn at the latest.
pub record Ended (k : ℕ) (clock : ℕ → Clock) (u v : Udp) (ps : List Packet) : Type 0 where
  pub consistent : Consistent k v.engine
  pub in_order : InOrder clock u.engine u.scratch ps v.engine v.scratch
  pub stop : v.stop ≡ true
  pub stage : v.stage ≡ joining
  pub network : (event : Event) → (net_turn v event).feed.phase ≡ finished
  pub xdp :
      (port : ℕ) (frames : List (List ℕ)) (t_wire : ℕ)
      → (xdp_turn v port frames t_wire).feed.phase ≡ finished

-- If the matching thread is popping, the ring holds references of packets and the sentinel behind
-- them, the engine is consistent, and the messages of these packets are ones that it can process
-- as in a file, then after some number of turns of the thread alone the messages of all packets
-- were processed, packet by packet in the order in which they were pushed, the engine is
-- consistent, the stop flag is set and the thread waits for the network thread, which, with the
-- socket or with AF_XDP, has ended after a turn more, whatever that turn brings.
pub match_turns-Ends :
    (k j : ℕ) (clock : ℕ → Clock) (n b : ℕ) (u : Udp) (refs : List PacketRef) (last : PacketRef)
    → u.stage ≡ popping b
    → Holds j u.feed.ring (refs ++ (last ∷ []))
    → All (λ ref. ref.pool_idx ≢ pool_invalid) refs
    → last.pool_idx ≡ pool_invalid
    → Consistent k u.engine
    → Session k u.engine (messages_in (packets u.feed.pool refs))
    → (count : ℕ) × (v : Udp) × (run_udp u (match_turns clock n count) ≡ ok v)
      × Ended k clock u v (packets u.feed.pool refs)
unfolding net_turn xdp_turn
match_turns-Ends k j clock n b u refs last at holds real is c s =
    let (i, u1, go, d) = match_turns-Drains k j clock n b u refs (last ∷ []) at holds real c s in
    let (b1, at1) = d.popping_again in
    let (popped, empty) = pop-Holds u1.feed.ring last [] d.ring in
    let u2 = record u1 {
      feed = record (u1.feed) { ring = (pop u1.feed.ring).1 };
      stage = leaving;
    } in
    let u3 = record u2 { stop = true; stage = joining } in
    let out =
      one_turn clock (n + i) u1 u2 (sentinel_turn u1 b1 last (clock (n + i)) at1 popped is) in
    let wait =
      one_turn clock (n + i + suc zero) u2 u3 (leaving_turn u2 (clock (n + i + suc zero)) refl) in
    (
      i + (suc zero + suc zero),
      u3,
      turns-then clock i (suc zero + suc zero) n u u1 go
          ∙ turns-then clock (suc zero) (suc zero) (n + i) u1 u2 out
          ∙ wait,
      record {
        consistent = d.consistent;
        in_order = d.in_order;
        stop = refl;
        stage = refl;
        network = λ event. step-finished u3.feed event;
        xdp = λ port frames t_wire. xdp_step-finished port u3.feed frames t_wire;
      },
    )

-- The network thread has ended without the sentinel, the ring is empty and nobody set the flag.
pub record Stuck (u : Udp) : Type 0 where
  pub phase : u.feed.phase ≡ finished
  pub stop : u.stop ≡ false
  pub empty : u.feed.ring.head ≡ u.feed.ring.tail
  pub stage : (b : ℕ) × (u.stage ≡ popping b)

finished-step :
    (f : Feed) (stop : Bool) (event : Event) → f.phase ≡ finished → step f stop event ≡ f
unfolding step
finished-step f stop event e = ground (arith, e)

finished-xdp_step :
    (port : ℕ) (f : Feed) (stop : Bool) (frames : List (List ℕ)) (t_wire : ℕ)
    → f.phase ≡ finished
    → xdp_step port f stop frames t_wire ≡ f
unfolding xdp_step
finished-xdp_step port f stop frames t_wire e = ground (arith, e)

spin-Stuck : (u : Udp) (b : ℕ) → Stuck u → Stuck (spin u b)
spin-Stuck u b s = elim (dec_lt (b + 1) 1024) [
  | yes more ↦
      subst Stuck (sym (spin-on u b more))
        (record { phase = s.phase; stop = s.stop; empty = s.empty; stage = (b + 1, refl) })
  | no last ↦
      subst Stuck (sym (spin-again u b (omega arith) s.stop))
        (record { phase = s.phase; stop = s.stop; empty = s.empty; stage = (0, refl) })
]

turn-Stuck : (u : Udp) (t : Turn) → Stuck u → (v : Udp) × (turn u t ≡ ok v) × Stuck v
unfolding turn net_turn xdp_turn
turn-Stuck u (net event) s = (
  u,
  elim (Option-cases u.xdp_port) [
    | inl e ↦ ground (arith, e, finished-step u.feed u.stop event s.phase)
    | inr (port, e) ↦ ground (arith, e)
  ],
  s,
)
turn-Stuck u (batch frames t_wire) s = (
  u,
  elim (Option-cases u.xdp_port) [
    | inl e ↦ ground (arith, e)
    | inr (port, e) ↦ ground (arith, e, finished-xdp_step port u.feed u.stop frames t_wire s.phase)
  ],
  s,
)
turn-Stuck u (matching clock) s =
    let (b, at) = s.stage in (spin u b, empty_turn u b clock at s.empty, spin-Stuck u b s)

-- If the network thread has ended without the sentinel, the ring is empty, the stop flag is not
-- set and the matching thread is popping, then so it is after any turns of the threads, whatever
-- they bring: the matching thread never ends.
pub run_udp-Stuck :
    (u : Udp) (ts : List Turn) → Stuck u → (v : Udp) × (run_udp u ts ≡ ok v) × Stuck v
unfolding run_udp
run_udp-Stuck u [] s = (u, refl, s)
run_udp-Stuck u (t ∷ ts) s =
    let (w, now, s') = turn-Stuck u t s in
    let (v, go, s'') = run_udp-Stuck w ts s' in (v, ground (arith, now, go), s'')
