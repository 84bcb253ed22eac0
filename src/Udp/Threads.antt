-- ===== src/Udp/Threads.antt =====
-- The interleavings of the two threads of engine_udp.cpp.
use orderbook.Prelude.{
  Option, ℕ, zero, suc, ltb, leb, ◌&&◌, ◌+◌, ◌≤◌, ◌<◌, ◌≡◌, refl, ◌≢◌, List, [], some, arith,
  if◌then◌else◌,
}
use orderbook.Run.{ok}
use orderbook.Packets.{pool_invalid}
use orderbook.Packets.Free.{listed, listed-out, slots_from, new_pool-IsFree}
use orderbook.Ring.{new_ring}
use orderbook.Ring.Contents.{new_ring-Holds}
use orderbook.Feed.{Event}
use orderbook.Feed.Slots.{occurs}
use orderbook.Feed.Frame.{step-frame}
use orderbook.Xdp.Frame.{xdp_step-frame}
use orderbook.Engine.{Engine}
use orderbook.Udp.{
  Udp, Turn, new_udp, pool_slots, ring_slots, fresh, no_ref, turn, net_turn, xdp_turn,
}
use orderbook.Udp.Slots.{Owned, turn-Owned, held}

-- The states that the threads get to from `u`, in any order of their turns.
pub data Reaches (u : Udp) : Udp → Type 0 where
  start : Reaches u u
  after : (v w : Udp) (t : Turn) → Reaches u v → turn v t ≡ ok w → Reaches u w

-- If the free list and the ring are well formed and each packet buffer is free, in the ring or
-- read by the matching thread, at most once in all, then so it is in every state that the
-- matching thread and the network thread, of the socket or of AF_XDP, reach, in whatever order
-- they take their turns, and each buffer is owned as often as before.
pub Reaches-Owned :
    (k : ℕ) (n : ℕ → ℕ) (u v : Udp) → ((a : ℕ) → n a ≤ 1) → Owned k n u → Reaches u v → Owned k n v
Reaches-Owned k n u v once o start = o
Reaches-Owned k n u v once o (after w _ t r run) =
    turn-Owned k n w v t once (Reaches-Owned k n u w once o r) run

-- In a state in which each packet buffer is owned at most once, a turn of the network thread, of
-- the socket or of AF_XDP, leaves the slot that the matching thread reads as it is, its bytes and
-- its length included, whatever datagram or frames the turn brings.
pub net_turn-frame :
    (k : ℕ) (n : ℕ → ℕ) (u : Udp) (a : ℕ)
    → ((a : ℕ) → n a ≤ 1)
    → Owned k n u
    → a ≢ pool_invalid
    → 0 < held a u.stage
    → ((event : Event) → (net_turn u event).feed.pool.slots a ≡ u.feed.pool.slots a)
      × ((port : ℕ) (frames : List (List ℕ)) (t_wire : ℕ)
          → (xdp_turn u port frames t_wire).feed.pool.slots a ≡ u.feed.pool.slots a)
unfolding net_turn xdp_turn
net_turn-frame k n u a once o real mine =
    let away : listed a o.free + occurs a o.refs ≡ 0 = omega (arith, o.owners a real, once a) in
    (
      λ event.
          step-frame u.feed u.stop event o.free a o.slots.is_free
            (listed-out a o.free (omega (arith, away))),
      λ port frames t_wire.
          xdp_step-frame k a real port u.feed u.stop frames t_wire o.free o.refs o.slots away,
    )

-- Each slot of the pool is owned once.
abbrev once_each : ℕ → ℕ → ℕ
once_each num a = if ltb a num then 1 else 0

listed-slots_from :
    (num i a : ℕ) → listed a (slots_from num i) ≡ (if leb i a && ltb a (i + num) then 1 else 0)
unfolding slots_from
listed-slots_from zero i a = ground arith
listed-slots_from (suc num) i a = ground (arith, listed-slots_from num (i + 1) a)

all_slots : (num a : ℕ) → listed a (slots_from num 0) ≡ once_each num a
all_slots num a = ground (arith, listed-slots_from num 0 a)

-- The check of the ring's capacity passes, and in the state from which the threads start the free
-- list and the ring are well formed and each of the slots of the pool is owned exactly once.
new_udp-Owned :
    (engine : Engine) (xdp_port : Option ℕ)
    → (u : Udp) × (new_udp engine xdp_port ≡ some u) × Owned 16 (once_each pool_slots) u
unfolding new_udp
new_udp-Owned engine xdp_port =
    let (ring, made, holds) = new_ring-Holds 16 no_ref (omega arith) in
    let run : new_ring ring_slots no_ref ≡ some ring = made in
    (
      fresh engine xdp_port ring,
      ground (arith, run),
      record {
        free = slots_from pool_slots 0;
        refs = [];
        slots = record {
          is_free = new_pool-IsFree pool_slots (omega arith) (omega arith);
          holds = holds;
        };
        sentinel = refl;
        valid = tt;
        owners = λ a real. omega (arith, all_slots pool_slots a);
      },
    )
