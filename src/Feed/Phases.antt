-- ===== src/Feed/Phases.antt =====
-- The phases of the network thread: a reference on its way to the ring is the sentinel.
use orderbook.Prelude.{
  ℕ, ◌%◌, ◌^◌, ◌≡◌, refl, ◌⊎◌, inl, inr, Bool, true, false, List, arith, length,
}
use orderbook.Mold.{MoldHeader, parse_mold_header}
use orderbook.Packets.{pool_invalid, acquire, fill}
use orderbook.Feed.{
  Feed, Phase, receiving, ending, finished, Event, datagram, interrupted, failed, PacketRef,
  sequence_packet, accept, received, discard, receive, receive_into, count_received, open_session,
  step, send_sentinel,
}

-- Where the thread is, as an equation.
pub Phase-cases :
    (p : Phase) → (p ≡ receiving) ⊎ ((ref : PacketRef) × (p ≡ ending ref)) ⊎ (p ≡ finished)
Phase-cases receiving = inl refl
Phase-cases (ending ref) = inr (inl (ref, refl))
Phase-cases finished = inr (inr refl)

-- The reference that is on its way names no buffer.
abbrev pub pending : Phase → ℕ
pending receiving = pool_invalid
pending (ending ref) = ref.pool_idx
pending finished = pool_invalid

abbrev pub IsSentinel : Phase → Type 0
IsSentinel p = pending p ≡ pool_invalid

sequence_packet-IsSentinel :
    (f : Feed) (hdr : MoldHeader) (idx t_wire : ℕ)
    → IsSentinel f.phase
    → IsSentinel (sequence_packet f hdr idx t_wire).phase
unfolding sequence_packet
sequence_packet-IsSentinel f hdr idx t_wire is = ground arith

accept-IsSentinel :
    (f : Feed) (idx : ℕ) (bytes : List ℕ) (t_wire : ℕ)
    → IsSentinel f.phase
    → IsSentinel (accept f idx bytes t_wire).phase
unfolding accept
accept-IsSentinel f idx bytes t_wire is =
    let n = length bytes % 2 ^ 16 in
    let filled = record f {
      pool = fill f.pool idx bytes n;
      stats = count_received (f.stats) (length bytes);
    } in
    let hdr = parse_mold_header bytes in
    ground (arith, sequence_packet-IsSentinel (open_session filled hdr) hdr idx t_wire)

receive_into-IsSentinel :
    (f : Feed) (idx : ℕ) (event : Event)
    → IsSentinel f.phase
    → IsSentinel (receive_into f idx event).phase
unfolding receive_into
receive_into-IsSentinel f idx (datagram bytes t_wire) is =
    accept-IsSentinel f idx (received bytes) t_wire is
receive_into-IsSentinel f idx interrupted is = is
receive_into-IsSentinel f idx failed is = refl

discard-IsSentinel :
    (f : Feed) (event : Event) → IsSentinel f.phase → IsSentinel (discard f event).phase
unfolding discard
discard-IsSentinel f (datagram bytes t_wire) is = ground arith
discard-IsSentinel f interrupted is = is
discard-IsSentinel f failed is = is

receive-IsSentinel :
    (f : Feed) (stop : Bool) (event : Event)
    → IsSentinel f.phase
    → IsSentinel (receive f stop event).phase
unfolding receive
receive-IsSentinel f true event is = refl
receive-IsSentinel f false event is =
    let f1 = record f { pool = (acquire f.pool).1 } in
    ground (
      arith,
      discard-IsSentinel f1 event is,
      receive_into-IsSentinel f1 (acquire f.pool).0 event is,
    )

pub send_sentinel-IsSentinel :
    (f : Feed) (ref : PacketRef) (stop : Bool)
    → IsSentinel f.phase
    → IsSentinel (send_sentinel f ref stop).phase
unfolding send_sentinel
send_sentinel-IsSentinel f ref stop is = ground arith

pub step-IsSentinel :
    (f : Feed) (stop : Bool) (event : Event)
    → IsSentinel f.phase
    → IsSentinel (step f stop event).phase
unfolding step
step-IsSentinel f stop event is = elim (Phase-cases f.phase) [
  | inl e ↦ rw (e, step) (receive-IsSentinel f stop event is)
  | inr (inl (ref, e)) ↦ rw (e, step) (send_sentinel-IsSentinel f ref stop is)
  | inr (inr e) ↦ rw (e, step) is
]
