-- ===== src/Replay/Overrun.antt =====
-- When the packets of replay.cpp overrun the arrays of a batch.
use orderbook.Prelude.{
  ℕ, zero, suc, ◌+◌, ◌^◌, ◌≤◌, ◌<◌, ◌≡◌, ◌∙◌, ◌⊎◌, inl, inr, Bool, List, [], ◌∷◌, ◌++◌, arith,
  length, length-append,
}
use native.Mathlib.Decide.{dec_le}
use orderbook.Mold.{header_bytes, swap_u16, store_u16}
use orderbook.Mold.Packet.{frames, length-frames}
use orderbook.Replay.{
  Sending, overrun, packet_bytes, batch_slots, put_in_batch, collect, send_batches, replay,
}
use orderbook.Replay.Batches.{collect-put, long}

frame_short :
    (used : ℕ) (m : List ℕ) (ms : List (List ℕ))
    → used + length (frames (m ∷ ms)) ≤ packet_bytes
    → length m < 2 ^ 16
unfolding frames
frame_short used m ms fits = omega (
  arith,
  fits,
  length-append (store_u16 (swap_u16 (length m)) ++ m) (frames ms),
  length-append (store_u16 (swap_u16 (length m))) m,
)

put_in_batch-overrun :
    (count : ℕ) (m : List ℕ) (rest : Sending (List (List ℕ) × List ℕ))
    → (batch_slots ≤ count) ⊎ (rest ≡ overrun)
    → put_in_batch count m rest ≡ overrun
unfolding put_in_batch
put_in_batch-overrun count m rest (inl full) = ground arith
put_in_batch-overrun count m rest (inr e) = ground (arith, e)

-- If the packet has room for more messages than the arrays have, and so many are allowed, they are
-- overrun.
pub collect-overruns :
    (count left used : ℕ) (ms : List (List ℕ))
    → used + length (frames ms) ≤ packet_bytes
    → batch_slots < count + length ms
    → batch_slots < count + left
    → count ≤ batch_slots
    → collect count left used (frames ms) ≡ overrun
collect-overruns count left used [] fits many allowed before = absurd (omega arith)
collect-overruns count zero used (m ∷ ms) fits many allowed before = absurd (omega arith)
collect-overruns count (suc left) used (m ∷ ms) fits many allowed before =
    let short : length m < 2 ^ 16 = frame_short used m ms fits in
    let l = long count left used m ms short in
    collect-put count left used m ms short (omega (arith, l))
    ∙ put_in_batch-overrun count m _ (elim (dec_le batch_slots count) [
      | yes full ↦ inl full
      | no room ↦ inr (
          collect-overruns (count + 1) left (used + 2 + length m) ms (omega (arith, l))
            (omega arith) (omega arith) (omega arith))
    ])

-- The loop ends where a batch overruns its arrays.
send_batches-overrun :
    (sends : ℕ → Bool) (max_per_packet fuel seq n : ℕ) (file : List ℕ)
    → 0 < fuel
    → 0 < length file
    → collect 0 max_per_packet header_bytes file ≡ overrun
    → send_batches sends max_per_packet fuel file seq n ≡ overrun
unfolding send_batches
send_batches-overrun sends max_per_packet zero seq n file more some_file over = absurd (omega arith)
send_batches-overrun sends max_per_packet (suc fuel) seq n file more some_file over =
    ground (arith, over)

-- If more than 256 messages are allowed in a packet, and the file is the frames of more than 256
-- messages that all fit one packet, then `replay` writes behind the end of the two arrays of a
-- batch, whatever is sent.
pub replay-overruns :
    (sends : ℕ → Bool) (max_per_packet : ℕ) (ms : List (List ℕ))
    → batch_slots < max_per_packet
    → batch_slots < length ms
    → header_bytes + length (frames ms) ≤ packet_bytes
    → replay sends max_per_packet (frames ms) ≡ overrun
unfolding replay
replay-overruns sends max_per_packet ms allowed many fits =
    let over =
      collect-overruns 0 max_per_packet header_bytes ms fits (omega arith) (omega arith)
        (omega arith) in
    ground (
      arith,
      send_batches-overrun sends max_per_packet (length (frames ms)) 1 0 (frames ms)
          (omega (arith, many, length-frames ms)) (omega (arith, many, length-frames ms)) over,
    )
