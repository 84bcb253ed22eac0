-- ===== src/Xdp/Agree.antt =====
-- The two network threads, of feed_handler.cpp and of feed_handler_xdp.cpp, agree.
use orderbook.Prelude.{
  ℕ, ◌+◌, ◌%◌, ◌^◌, ◌≤◌, ◌≡◌, refl, ap, ◌≢◌, false, List, some, get_or, length-drop, ◌*◌, arith,
  length, take-whole,
}
use orderbook.Mold.{MoldHeader, header_bytes, parse_mold_header}
use orderbook.Packets.{max_packet_bytes, pool_invalid, acquire, fill}
use orderbook.Feed.{
  Feed, datagram, accept, received, receive, receive_into, sequence_packet, open_session, note_gap,
  hand_over, count_received,
}
use orderbook.Xdp.{
  copy_packet, sequence_frame, accept_payload, frame_payload, handle_frame, eth_header, udp_header,
}

-- What the two threads share, but for the contents of packet buffers.
abbrev pub Agrees : Feed → Feed → Type 0
Agrees f g =
    (f.ring ≡ g.ring)
    × (f.stats ≡ g.stats)
    × (f.active_session ≡ g.active_session)
    × (f.session_init ≡ g.session_init)
    × (f.next_expected ≡ g.next_expected)
    × (f.phase ≡ g.phase)

-- A packet behind its header: `f` has acquired the slot `idx` of `g` and filled it.
sequence-Agrees :
    (f g : Feed) (hdr : MoldHeader) (idx : ℕ) (bytes : List ℕ) (t_wire : ℕ)
    → (acquire g.pool).0 ≡ idx
    → idx ≢ pool_invalid
    → f ≡ record g { pool = f.pool }
    → Agrees (sequence_packet f hdr idx t_wire) (sequence_frame g hdr bytes t_wire)
unfolding sequence_packet sequence_frame copy_packet note_gap hand_over
sequence-Agrees f g hdr idx bytes t_wire at real same =
    let ring : f.ring ≡ g.ring = ap (λ h. h.ring) same in
    let stats : f.stats ≡ g.stats = ap (λ h. h.stats) same in
    let session : f.active_session ≡ g.active_session = ap (λ h. h.active_session) same in
    let init : f.session_init ≡ g.session_init = ap (λ h. h.session_init) same in
    let next : f.next_expected ≡ g.next_expected = ap (λ h. h.next_expected) same in
    let phase : f.phase ≡ g.phase = ap (λ h. h.phase) same in
    (ground arith, ground arith, ground arith, ground arith, ground arith, ground arith)

received-whole : (bytes : List ℕ) → length bytes ≤ max_packet_bytes → received bytes ≡ bytes
unfolding received
received-whole bytes short = take-whole max_packet_bytes bytes short

-- With a free slot the datagram is received into it.
receive-accept :
    (f : Feed) (bytes : List ℕ) (t_wire : ℕ)
    → f.pool.free_head ≢ pool_invalid
    → receive f false (datagram bytes t_wire)
      ≡ accept (record f { pool = (acquire f.pool).1 }) (acquire f.pool).0 (received bytes) t_wire
unfolding receive receive_into acquire
receive-accept f bytes t_wire free = ground arith

-- With a free slot the two threads treat a packet alike.
accept-Agrees :
    (f : Feed) (bytes : List ℕ) (t_wire : ℕ)
    → f.pool.free_head ≢ pool_invalid
    → header_bytes ≤ length bytes
    → Agrees
        (accept (record f { pool = (acquire f.pool).1 }) (acquire f.pool).0 bytes t_wire)
        (accept_payload f bytes t_wire)
unfolding accept accept_payload open_session acquire
accept-Agrees f bytes t_wire free long =
    let hdr = parse_mold_header bytes in
    let n = length bytes in
    let (idx, pool) = acquire f.pool in
    let filled = record f {
      pool = fill pool idx bytes (n % 2 ^ 16);
      stats = count_received f.stats n;
    } in
    let counted = record f { stats = count_received f.stats n } in
    let run : accept (record f { pool = pool }) idx bytes t_wire
        ≡ sequence_packet (open_session filled hdr) hdr idx t_wire =
      ground arith in
    let run' : accept_payload f bytes t_wire
        ≡ sequence_frame (open_session counted hdr) hdr bytes t_wire =
      refl in
    let both =
      sequence-Agrees (open_session filled hdr) (open_session counted hdr) hdr idx bytes t_wire
        (ground arith) (ground arith) (ground arith) in
    rw (run, run') both

frame_payload-long :
    (port : ℕ) (frame bytes : List ℕ)
    → frame_payload port frame ≡ some bytes
    → header_bytes ≤ length bytes
unfolding frame_payload
frame_payload-long port frame bytes e =
    let at = eth_header + get_or frame eth_header 0 % 16 * 4 + udp_header in
    ground (arith, e, length-drop at frame)

-- If a packet buffer is free and the filter finds a payload in a frame, of at most 2048 bytes,
-- the size of a buffer, then handling the frame leaves the ring, the statistics, the session, the expected number and the phase as one round of
-- the loop of feed_handler.cpp does that receives this payload as a datagram while the stop flag
-- is not set.
pub handle_frame-Agrees :
    (port : ℕ) (f : Feed) (frame bytes : List ℕ) (t_wire : ℕ)
    → f.pool.free_head ≢ pool_invalid
    → frame_payload port frame ≡ some bytes
    → length bytes ≤ max_packet_bytes
    → Agrees (receive f false (datagram bytes t_wire)) (handle_frame port f frame t_wire)
unfolding handle_frame
handle_frame-Agrees port f frame bytes t_wire free e short =
    let run : handle_frame port f frame t_wire ≡ accept_payload f bytes t_wire =
      ground (arith, e) in
    let long = frame_payload-long port frame bytes e in
    rw (receive-accept f bytes t_wire free, received-whole bytes short, run)
      (accept-Agrees f bytes t_wire free long)
