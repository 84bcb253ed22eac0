-- ===== src/Examples/Wire.antt =====
-- Messages and packets on the wire.
use orderbook.Prelude.{
  ℕ, ◌+◌, ◌≤◌, ◌≡◌, refl, List, [], ◌∷◌, ◌++◌, none, some, arith, ltb, if◌then◌else◌, length, drop,
}
use orderbook.Itch.{OrderReplaceMsg, read_order_replace}
use orderbook.Itch.Wire.{replace_layout, read_order_replace-layout}
use orderbook.Mold.{
  header_bytes, append_messages, store_u16, store_u64, parse_mold_header, messages,
  build_mold_header, build_mold_packet,
}
use orderbook.Mold.Packet.{Short, frames, build_mold_packet-frames, packet_round_trip}

abbrev ten_bytes : List ℕ
ten_bytes = 0 ∷ 3 ∷ 0 ∷ 0 ∷ 9 ∷ 9 ∷ 9 ∷ 9 ∷ 9 ∷ 9 ∷ []

abbrev replacing : OrderReplaceMsg
replacing = record {
  original_order_ref = 7000000000;
  new_order_ref = 8000000000;
  shares = 300;
  price = 50000;
}

read_order_replace-layout_example :
    read_order_replace (replace_layout ten_bytes replacing []) ≡ (replacing, [])
read_order_replace-layout_example =
    read_order_replace-layout ten_bytes replacing [] refl (omega arith) (omega arith) (omega arith)
      (omega arith)

abbrev two_messages : List (List ℕ)
two_messages = (68 ∷ 1 ∷ 2 ∷ []) ∷ (88 ∷ []) ∷ []

build_mold_packet-frames_example : build_mold_packet 27 ten_bytes 1 two_messages ≡ (
    if ltb 27 (20 + length (frames two_messages))
    then none
    else some (build_mold_header ten_bytes 1 2 ++ frames two_messages))
build_mold_packet-frames_example = build_mold_packet-frames 27 ten_bytes 1 two_messages refl

-- One byte less than the 28 that the packet takes is too few.
build_mold_packet-full : build_mold_packet 27 ten_bytes 1 two_messages ≡ none
unfolding build_mold_packet append_messages build_mold_header store_u64 store_u16
build_mold_packet-full = refl

two_messages-Short : Short two_messages
two_messages-Short = ground arith

two_messages-fit : 20 + length (frames two_messages) ≤ 1400
unfolding frames store_u16
two_messages-fit = omega arith

packet_round_trip_example :
    (p : List ℕ) × (build_mold_packet 1400 ten_bytes 7000000000 two_messages ≡ some p)
    × (length p ≤ 1400)
    × (parse_mold_header p
        ≡ record { session = ten_bytes; sequence_number = 7000000000; message_count = 2 })
    × (messages (length p) (drop header_bytes p) ≡ two_messages)
packet_round_trip_example =
    packet_round_trip 1400 ten_bytes 7000000000 two_messages refl (omega arith) (omega arith)
      two_messages-Short two_messages-fit
