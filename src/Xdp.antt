-- ===== src/Xdp.antt =====
-- src/feed_handler_xdp.cpp: the loop of the network thread over an AF_XDP socket. Setting up the
-- socket is left out, and so is handing the frames back to the kernel; what one
-- `xsk_ring_cons__peek` brings is a list of frames, with the reading of the cycle counter.
-- The state is the one of the feed handler.
pub mod Agree
pub mod Slots
pub mod Frame
use orderbook.Prelude.{
  ℕ, ◌+◌, ◌*◌, ◌-◌, ◌/◌, ◌%◌, ◌^◌, Bool, true, false, List, [], ◌∷◌, Option, none, some, ltb, ◌==◌,
  ◌!=◌, ◌||◌, min, if◌then◌else◌, length, get_or, take, drop,
}
use orderbook.Mold.{
  MoldHeader, header_bytes, end_of_session, heartbeat, swap_u16, load_u16, parse_mold_header,
}
use orderbook.Packets.{max_packet_bytes, pool_invalid, acquire, fill}
use orderbook.Feed.{
  Feed, receiving, ending, finished, add64, count_received, count_dropped, open_session, note_gap,
  hand_over, send_sentinel,
}

-- `sizeof` of the headers of Ethernet and UDP, and the least one of IPv4
abbrev pub eth_header : ℕ
eth_header = 14

abbrev pub ip_header_min : ℕ
ip_header_min = 20

abbrev pub udp_header : ℕ
udp_header = 8

-- `ntohs` of the 16 bits at an offset
abbrev pub net16 : List ℕ → ℕ → ℕ
net16 frame at = swap_u16 (load_u16 (drop at frame))

-- The payload of an IPv4 UDP frame to the port that is long enough for a MoldUDP64 header.
unfoldable pub frame_payload : ℕ → List ℕ → Option (List ℕ)
frame_payload port frame =
    let ip_len = get_or frame eth_header 0 % 16 * 4 in
    let udp_at = eth_header + ip_len in
    if ltb (length frame) (eth_header + ip_header_min + udp_header + header_bytes)
    then none
    else if net16 frame 12 != 0x0800
    then none
    else if get_or frame eth_header 0 / 16 != 4
    then none
    else if ltb ip_len ip_header_min
    then none
    else if get_or frame (eth_header + 9) 0 != 17
    then none
    else if ltb (length frame) (udp_at + udp_header + header_bytes)
    then none
    else if net16 frame (udp_at + 2) != port
    then none
    else some (drop (udp_at + udp_header) frame)

-- Copies a packet into a slot and hands it to the matching thread.
unfoldable pub copy_packet : Feed → List ℕ → ℕ → Feed
unfolding hand_over
copy_packet f bytes t_wire =
    let (idx, pool) = acquire f.pool in
    let n = min (length bytes) max_packet_bytes % 2 ^ 16 in
    if idx == pool_invalid
    then record f { stats = count_dropped f.stats }
    else hand_over (record f { pool = fill pool idx (take n bytes) n }) idx t_wire

-- What follows the header of a packet.
unfoldable pub sequence_frame : Feed → MoldHeader → List ℕ → ℕ → Feed
unfolding note_gap copy_packet
sequence_frame f hdr bytes t_wire =
    if hdr.message_count == end_of_session
    then record f {
      stats = record (f.stats) { end_of_sessions = add64 f.stats.end_of_sessions 1 };
      phase = ending (record { pool_idx = pool_invalid; t_wire_cycles = t_wire });
    }
    else if hdr.message_count == heartbeat
    then f
    else if ltb hdr.sequence_number f.next_expected
    then record f {
      stats = record (f.stats) { duplicates_ignored = add64 f.stats.duplicates_ignored 1 };
    }
    else let noted = note_gap f hdr.sequence_number in
      let counted = record noted { next_expected = add64 noted.next_expected hdr.message_count } in
      copy_packet counted bytes t_wire

-- The payload of a frame.
unfoldable pub accept_payload : Feed → List ℕ → ℕ → Feed
unfolding open_session sequence_frame
accept_payload f bytes t_wire =
    let counted = record f { stats = count_received f.stats (length bytes) } in
    let hdr = parse_mold_header bytes in sequence_frame (open_session counted hdr) hdr bytes t_wire

unfoldable pub handle_frame : ℕ → Feed → List ℕ → ℕ → Feed
unfolding frame_payload accept_payload
handle_frame port f frame t_wire = elim (frame_payload port frame) [
  | none ↦ f
  | some bytes ↦ accept_payload f bytes t_wire
]

-- The frames of one batch; the end of the session ends it.
unfoldable pub handle_batch : ℕ → Feed → List (List ℕ) → ℕ → Feed
unfolding handle_frame
handle_batch port f [] t_wire = f
handle_batch port f (frame ∷ frames) t_wire =
    let f' = handle_frame port f frame t_wire in
    let rest = handle_batch port f' frames t_wire in
    elim f'.phase [ receiving ↦ rest | ending ref ↦ f' | finished ↦ f' ]

-- `stop` is the flag as read in this step. No frames are a `peek` that brings none.
unfoldable pub xdp_step : ℕ → Feed → Bool → List (List ℕ) → ℕ → Feed
unfolding handle_batch send_sentinel
xdp_step port f stop frames t_wire = elim f.phase [
  | receiving ↦ if stop then record f { phase = finished } else handle_batch port f frames t_wire
  | ending ref ↦ send_sentinel f ref stop
  | finished ↦ f
]
