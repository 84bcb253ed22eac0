-- ===== src/Feed/Frame.antt =====
-- The network thread of feed_handler.cpp leaves the packet buffers alone that are not free.
use orderbook.Prelude.{
  ℕ, ◌%◌, ◌^◌, ◌≡◌, refl, ◌≢◌, inl, inr, Bool, true, false, List, arith, has, length,
}
use orderbook.Mold.{MoldHeader, parse_mold_header}
use orderbook.Packets.{acquire, release, fill}
use orderbook.Packets.Free.{IsFree, acquire-IsFree}
use orderbook.Feed.{
  Feed, Event, datagram, interrupted, failed, sequence_packet, accept, received, discard, receive,
  receive_into, count_received, open_session, step, send_sentinel,
}
use orderbook.Feed.Phases.{Phase-cases}

-- The network thread writes to the slot at the head of the free list only.
sequence_packet-frame :
    (f : Feed) (hdr : MoldHeader) (idx t_wire a : ℕ)
    → a ≢ idx
    → (sequence_packet f hdr idx t_wire).pool.slots a ≡ f.pool.slots a
unfolding sequence_packet release
sequence_packet-frame f hdr idx t_wire a ne = ground arith

accept-frame :
    (f : Feed) (idx : ℕ) (bytes : List ℕ) (t_wire a : ℕ)
    → a ≢ idx
    → (accept f idx bytes t_wire).pool.slots a ≡ f.pool.slots a
unfolding accept fill release
accept-frame f idx bytes t_wire a ne =
    let n = length bytes in
    let filled = record f {
      pool = fill f.pool idx bytes (n % 2 ^ 16);
      stats = count_received (f.stats) n;
    } in
    let hdr = parse_mold_header bytes in
    ground (arith, sequence_packet-frame (open_session filled hdr) hdr idx t_wire a ne)

receive_into-frame :
    (f : Feed) (idx : ℕ) (event : Event) (a : ℕ)
    → a ≢ idx
    → (receive_into f idx event).pool.slots a ≡ f.pool.slots a
unfolding receive_into release
receive_into-frame f idx (datagram bytes t_wire) a ne =
    accept-frame f idx (received bytes) t_wire a ne
receive_into-frame f idx interrupted a ne = ground arith
receive_into-frame f idx failed a ne = ground arith

discard-frame : (f : Feed) (event : Event) → (discard f event).pool ≡ f.pool
unfolding discard
discard-frame f (datagram bytes t_wire) = ground arith
discard-frame f interrupted = refl
discard-frame f failed = refl

receive-frame :
    (f : Feed) (stop : Bool) (event : Event) (free : List ℕ) (a : ℕ)
    → IsFree f.pool free
    → has a free ≡ false
    → (receive f stop event).pool.slots a ≡ f.pool.slots a
unfolding receive acquire
receive-frame f true event free a c out = refl
receive-frame f false event free a c out = elim (acquire-IsFree f.pool free c) [
  | inl (none_left, taken) ↦ ground (arith, taken, discard-frame f event)
  | inr (x, rest, is, valid, _, got, remains) ↦
      let ne : a ≢ x = ground arith in
      let f1 = record f { pool = (acquire f.pool).1 } in
      ground (arith, receive_into-frame f1 x event a ne)
]

pub step-frame :
    (f : Feed) (stop : Bool) (event : Event) (free : List ℕ) (a : ℕ)
    → IsFree f.pool free
    → has a free ≡ false
    → (step f stop event).pool.slots a ≡ f.pool.slots a
unfolding step send_sentinel
step-frame f stop event free a c out = elim (Phase-cases f.phase) [
  | inl e ↦ ground (arith, e, receive-frame f stop event free a c out)
  | inr (inl (ref, e)) ↦ ground (arith, e)
  | inr (inr e) ↦ ground (arith, e)
]
