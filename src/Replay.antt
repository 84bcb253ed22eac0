-- ===== src/Replay.antt =====
-- src/replay.cpp: the sender, which batches the messages of a file into packets. The file is its
-- bytes; a file that ends within a message is read as if the message ended there. Opening the file
-- and the socket, the pacing, the progress output and the command line are left out; whether `sendto`
-- succeeds for the n-th packet is an argument.
pub mod Batches
pub mod Delivers
pub mod Overrun
use orderbook.Prelude.{
  ℕ, zero, suc, ◌+◌, ◌%◌, ◌^◌, Bool, List, [], ◌∷◌, Option, none, some, ltb, ◌==◌, if◌then◌else◌,
  length, take, drop, ◌++◌,
}
use orderbook.Mold.{header_bytes, end_of_session, swap_u16, load_u16, store_u16, build_mold_packet}

-- `char session[10]`
abbrev pub session : List ℕ
session = b'O' ∷ b'R' ∷ b'D' ∷ b'B' ∷ b'K' ∷ b'S' ∷ b'E' ∷ b'S' ∷ b'1' ∷ 0 ∷ []

-- `sizeof(packet)`
abbrev pub packet_bytes : ℕ
packet_bytes = 2048

-- The length of the arrays `batchPtrs` and `batchLens`.
abbrev pub batch_slots : ℕ
batch_slots = 256

-- How sending ends: with a result, by a write behind the end of the two arrays, or, in the model
-- only, by running out of the rounds given to the loop.
pub data Sending {ℓ} (A : Type ℓ) : Type ℓ where
  sent : A → Sending A
  overrun : Sending A
  out_of_rounds : Sending A

infixl 5 ◌>>=◌
abbrev pub ◌>>=◌ {ℓ κ} : {A : Type ℓ} {B : Type κ} → Sending A → (A → Sending B) → Sending B
sent a >>= f = f a
overrun >>= f = overrun
out_of_rounds >>= f = out_of_rounds

-- A message is written at index `count` of the two arrays, before `rest` goes on.
unfoldable pub put_in_batch :
    ℕ → List ℕ → Sending (List (List ℕ) × List ℕ) → Sending (List (List ℕ) × List ℕ)
put_in_batch count m rest =
    if ltb count batch_slots then rest >>= (λ (ms, file). sent (m ∷ ms, file)) else overrun

-- The messages of the next packet from index `count` on, at most `left` of them with `used` bytes
-- written, and the bytes behind them.
unfoldable pub collect : ℕ → ℕ → ℕ → List ℕ → Sending (List (List ℕ) × List ℕ)
unfolding put_in_batch
collect count zero used file = sent ([], file)
collect count (suc left) used file =
    let len = swap_u16 (load_u16 file) in
    let rest = collect (count + 1) left (used + 2 + len) (drop (2 + len) file) in
    if length file == 0
    then sent ([], file)
    else if ltb packet_bytes (used + 2 + len)
    then sent ([], file)
    else put_in_batch count (take len (drop 2 file)) rest

-- The packets that were sent, and the sequence number behind them.
pub record Sent : Type 0 where
  pub packets : List (List ℕ)
  pub seq : ℕ

abbrev nothing : ℕ → Sent
nothing seq = record { packets = []; seq = seq }

abbrev sent_first : List ℕ → Sent → Sent
sent_first packet s = record { packets = packet ∷ s.packets; seq = s.seq }

-- What is done with the messages of a packet, where `more` is the rest of the loop.
unfoldable pub send_batch : (ℕ → Bool) → ℕ → ℕ → List (List ℕ) → Sending Sent → Sending Sent
send_batch sends seq n ms more =
    if length ms == 0
    then sent (nothing seq)
    else elim (build_mold_packet packet_bytes session seq ms) [
      | none ↦ sent (nothing seq)
      | some packet ↦
          if sends n then more >>= (λ s. sent (sent_first packet s)) else sent (nothing seq)
    ]

-- The loop over the file. Each round consumes the two bytes of a length.
unfoldable pub send_batches : (ℕ → Bool) → ℕ → ℕ → List ℕ → ℕ → ℕ → Sending Sent
unfolding send_batch
send_batches sends max_per_packet zero file seq n =
    if length file == 0 then sent (nothing seq) else out_of_rounds
send_batches sends max_per_packet (suc fuel) file seq n =
    let go = collect 0 max_per_packet header_bytes file >>= (λ (ms, rest).
      send_batch sends seq n ms
        (send_batches sends max_per_packet fuel rest ((seq + length ms) % 2 ^ 64) (n + 1))) in
    if length file == 0 then sent (nothing seq) else go

-- The marker: a packet without messages whose count is overwritten.
unfoldable pub end_marker : ℕ → List ℕ
end_marker seq =
    let count = store_u16 (swap_u16 end_of_session) in
    elim (build_mold_packet packet_bytes session seq []) [
      | none ↦ []
      | some packet ↦ take 18 packet ++ count
    ]

-- All packets, the marker last. The sequence numbers start at 1.
unfoldable pub replay : (ℕ → Bool) → ℕ → List ℕ → Sending (List (List ℕ))
replay sends max_per_packet file =
    send_batches sends max_per_packet (length file) file 1 0
    >>= (λ s. sent (s.packets ++ (end_marker s.seq ∷ [])))
