-- ===== src/Feed/Sequence.antt =====
-- The sequence numbers of feed_handler.cpp: which packets count as gaps and as duplicates.
use orderbook.Prelude.{ℕ, ◌≡◌, sym, ◌≢◌, false, arith, ltb, ◌==◌, if◌then◌else◌}
use orderbook.Mold.{MoldHeader, end_of_session, heartbeat}
use orderbook.Ring.{push}
use orderbook.Feed.{Feed, add64, sequence_packet}

-- What the comment of moldudp64.hpp says a receiver does with a packet.
pub data Verdict : Type 0 where
  session_over : Verdict
  beat : Verdict
  duplicate : Verdict
  in_order : Verdict
  gap : Verdict

unfoldable pub verdict : ℕ → MoldHeader → Verdict
verdict expected hdr =
    if hdr.message_count == end_of_session
    then session_over
    else if hdr.message_count == heartbeat
    then beat
    else if ltb hdr.sequence_number expected
    then duplicate
    else if ltb expected hdr.sequence_number
    then gap
    else in_order

abbrev pub is_gap : Verdict → ℕ
is_gap gap = 1
is_gap _ = 0

abbrev pub is_duplicate : Verdict → ℕ
is_duplicate duplicate = 1
is_duplicate _ = 0

-- What is expected next: the number behind the packet's last message, if it has any that are new.
abbrev pub expected_after : Verdict → ℕ → MoldHeader → ℕ
expected_after gap expected hdr = add64 hdr.sequence_number hdr.message_count
expected_after in_order expected hdr = add64 hdr.sequence_number hdr.message_count
expected_after _ expected hdr = expected

abbrev pub bump : ℕ → ℕ → ℕ
bump n k = if k == 0 then n else add64 n k

-- What `sequence_packet` makes of the expected number and of the counts of gaps and duplicates is
-- what the verdict on the packet says: only a packet in order or behind a gap moves the number,
-- to the one behind its last message, only a gap counts as a gap, and only a duplicate as a
-- duplicate.
pub sequence_packet-verdict :
    (f : Feed) (hdr : MoldHeader) (idx t_wire : ℕ)
    → let v = verdict f.next_expected hdr in
      let f' = sequence_packet f hdr idx t_wire in
      (f'.next_expected ≡ expected_after v f.next_expected hdr)
      × (f'.stats.gaps_detected ≡ bump f.stats.gaps_detected (is_gap v))
      × (f'.stats.duplicates_ignored ≡ bump f.stats.duplicates_ignored (is_duplicate v))
unfolding sequence_packet verdict
sequence_packet-verdict f hdr idx t_wire = (ground arith, ground arith, ground arith)

-- A packet with messages, as opposed to a heartbeat or the end of the session.
abbrev pub CarriesMessages : MoldHeader → Type 0
CarriesMessages hdr = (hdr.message_count ≢ end_of_session) × (hdr.message_count ≢ heartbeat)

verdict-in_order :
    (expected : ℕ) (hdr : MoldHeader)
    → CarriesMessages hdr
    → hdr.sequence_number ≡ expected
    → verdict expected hdr ≡ in_order
unfolding verdict
verdict-in_order expected hdr carries same = ground arith

dropped :
    (f : Feed) (hdr : MoldHeader) (idx t_wire : ℕ)
    → CarriesMessages hdr
    → hdr.sequence_number ≡ f.next_expected
    → (push f.ring (record { pool_idx = idx; t_wire_cycles = t_wire })).0 ≡ false
    → ((sequence_packet f hdr idx t_wire).stats.packets_dropped ≡ add64 f.stats.packets_dropped 1)
      × ((sequence_packet f hdr idx t_wire).ring ≡ f.ring)
unfolding sequence_packet
dropped f hdr idx t_wire carries next_is full = (ground arith, ground arith)

-- If a packet with messages has the expected number and the ring is full, the packet is counted
-- as dropped and the ring is unchanged; and if the packet with messages handled next continues
-- its sequence, the count of gaps is unchanged after both.
pub full_ring_hides_gap :
    (f : Feed) (hdr later : MoldHeader) (idx t_wire idx' t_wire' : ℕ)
    → CarriesMessages hdr
    → CarriesMessages later
    → hdr.sequence_number ≡ f.next_expected
    → later.sequence_number ≡ add64 hdr.sequence_number hdr.message_count
    → (push f.ring (record { pool_idx = idx; t_wire_cycles = t_wire })).0 ≡ false
    → let f' = sequence_packet f hdr idx t_wire in
      let f'' = sequence_packet f' later idx' t_wire' in
      (f'.stats.packets_dropped ≡ add64 f.stats.packets_dropped 1)
      × (f'.ring ≡ f.ring)
      × (f''.stats.gaps_detected ≡ f.stats.gaps_detected)
full_ring_hides_gap f hdr later idx t_wire idx' t_wire' carries carries' next_is later_is full =
    let first = sequence_packet-verdict f hdr idx t_wire in
    let v = verdict-in_order f.next_expected hdr carries next_is in
    let f' = sequence_packet f hdr idx t_wire in
    let now : f'.next_expected ≡ later.sequence_number = ground (arith, first, v) in
    let kept : f'.stats.gaps_detected ≡ f.stats.gaps_detected = ground (arith, first, v) in
    let second = sequence_packet-verdict f' later idx' t_wire' in
    let v' = verdict-in_order f'.next_expected later carries' (sym now) in
    let (count, ring) = dropped f hdr idx t_wire carries next_is full in
    (count, ring, ground (arith, second, v', kept))
