-- ===== src/Replay/Delivers.antt =====
-- What a receiver reads from the packets of replay.cpp.
use orderbook.Prelude.{
  ℕ, zero, suc, ◌+◌, ◌%◌, ◌^◌, ◌≤◌, ◌<◌, ◌≡◌, refl, sym, subst, ap, ◌∙◌, true, List, [], ◌∷◌, ◌++◌,
  some, arith, length, length-append, drop, append_assoc,
}
use orderbook.Mold.{
  header_bytes, end_of_session, swap_u16, store_u16, parse_mold_header, messages, build_mold_packet,
  build_mold_header, store_u64,
}
use orderbook.Mold.Packet.{
  frames, Short, length-frames, packet_round_trip, parse-build_mold_header,
  build_mold_packet-frames,
}
use orderbook.Replay.{
  sent, session, packet_bytes, batch_slots, collect, Sent, send_batch, send_batches, end_marker,
  replay,
}
use orderbook.Replay.Batches.{Fit, collect-frames}

-- `packets` carry the messages `ms` from the sequence number `seq` on, without a gap, in packets of
-- 1 to `max_per_packet` messages.
pub data Delivers (max_per_packet : ℕ) : ℕ → List (List ℕ) → List (List ℕ) → Type 0 where
  done : (seq : ℕ) → Delivers max_per_packet seq [] []
  deliver :
      (seq : ℕ) (packet : List ℕ) (ms others packets : List (List ℕ))
      → 0 < length ms
      → length ms ≤ max_per_packet
      → length packet ≤ packet_bytes
      → parse_mold_header packet
        ≡ record { session = session; sequence_number = seq; message_count = length ms }
      → messages (length packet) (drop header_bytes packet) ≡ ms
      → Delivers max_per_packet (seq + length ms) others packets
      → Delivers max_per_packet seq (ms ++ others) (packet ∷ packets)

Fit-Short : (ms : List (List ℕ)) → Fit ms → Short ms
Fit-Short [] h = tt
Fit-Short (m ∷ ms) (here, h) = (omega (arith, here), Fit-Short ms h)

Fit-split : (xs ys : List (List ℕ)) → Fit (xs ++ ys) → Fit xs × Fit ys
Fit-split [] ys h = (tt, h)
Fit-split (x ∷ xs) ys (here, h) = ((here, (Fit-split xs ys h).0), (Fit-split xs ys h).1)

frames-append : (xs ys : List (List ℕ)) → frames (xs ++ ys) ≡ frames xs ++ frames ys
unfolding frames
frames-append [] ys = refl
frames-append (x ∷ xs) ys =
    let frame = store_u16 (swap_u16 (length x)) ++ x in
    ap (λ l. frame ++ l) (frames-append xs ys) ∙ sym (append_assoc frame (frames xs) (frames ys))

length-parts :
    (ms xs ys : List (List ℕ))
    → ms ≡ xs ++ ys
    → (length ms ≡ length xs + length ys)
      × (length (frames ms) ≡ length (frames xs) + length (frames ys))
length-parts ms xs ys e = (
  ap length e ∙ length-append xs ys,
  ap (λ l. length (frames l)) e
      ∙ ap length (frames-append xs ys)
      ∙ length-append (frames xs) (frames ys),
)

-- One round of the loop sends a packet and goes on behind it.
send_batches-round :
    (max_per_packet fuel seq n : ℕ) (file rest packet : List ℕ) (ms : List (List ℕ)) (s : Sent)
    → 0 < length file
    → 0 < length ms
    → seq + length ms < 2 ^ 64
    → collect 0 max_per_packet header_bytes file ≡ sent (ms, rest)
    → build_mold_packet packet_bytes session seq ms ≡ some packet
    → send_batches (λ _. true) max_per_packet fuel rest (seq + length ms) (n + 1) ≡ sent s
    → send_batches (λ _. true) max_per_packet (suc fuel) file seq n
      ≡ sent (record { packets = packet ∷ s.packets; seq = s.seq })
unfolding send_batches send_batch
send_batches-round max_per_packet fuel seq n file rest packet ms s some_file some_ms small c built
      run =
    let same : (seq + length ms) % 2 ^ 64 ≡ seq + length ms = omega arith in
    ground (arith, c, built, run, same)

send_batches-empty :
    (max_per_packet fuel seq n : ℕ)
    → send_batches (λ _. true) max_per_packet fuel (frames []) seq n
      ≡ sent (record { packets = []; seq = seq })
unfolding send_batches frames
send_batches-empty max_per_packet zero seq n = refl
send_batches-empty max_per_packet (suc fuel) seq n = refl

-- The packets of the loop carry the messages of the file, in order, and the loop ends.
pub send_batches-Delivers :
    (max_per_packet fuel seq n : ℕ) (ms : List (List ℕ))
    → Fit ms
    → 0 < max_per_packet
    → max_per_packet ≤ batch_slots
    → seq + length ms < 2 ^ 64
    → length (frames ms) ≤ fuel
    → (s : Sent) × (send_batches (λ _. true) max_per_packet fuel (frames ms) seq n ≡ sent s)
      × (s.seq ≡ seq + length ms)
      × Delivers max_per_packet seq ms s.packets
unfolding send_batches
send_batches-Delivers max_per_packet zero seq n [] fit some_each small_batch few enough = (
  record { packets = []; seq = seq },
  send_batches-empty max_per_packet zero seq n,
  omega arith,
  done seq,
)
send_batches-Delivers max_per_packet (suc fuel) seq n [] fit some_each small_batch few enough = (
  record { packets = []; seq = seq },
  send_batches-empty max_per_packet (suc fuel) seq n,
  omega arith,
  done seq,
)
send_batches-Delivers max_per_packet zero seq n (m ∷ ms) fit some_each small_batch few enough =
    absurd (omega (arith, length-frames (m ∷ ms)))
send_batches-Delivers max_per_packet (suc fuel) seq n (m ∷ ms) fit some_each small_batch few
      enough =
    let (c, collected, r) =
      collect-frames 0 max_per_packet header_bytes (m ∷ ms) fit (omega arith)
        (omega (arith, small_batch)) in
    let (count, bytes) = length-parts (m ∷ ms) c.0 r.others r.split in
    let (fit', fit_others) = Fit-split c.0 r.others (subst Fit r.split fit) in
    let taken : 0 < length c.0 = r.some_taken (omega arith) some_each (omega (arith, fit.0)) in
    let small = length-frames c.0 in
    let (packet, built, size, header, contents) =
      packet_round_trip packet_bytes session seq c.0 refl (omega (arith, few))
        (omega (arith, small, r.fits)) (Fit-Short c.0 fit') (omega (arith, r.fits)) in
    let (s, run, last, rest) =
      send_batches-Delivers max_per_packet fuel (seq + length c.0) (n + 1) r.others fit_others
        some_each small_batch (omega (arith, few, count))
        (omega (arith, enough, bytes, small, taken)) in
    (
      record { packets = packet ∷ s.packets; seq = s.seq },
      send_batches-round max_per_packet fuel seq n (frames (m ∷ ms)) (frames r.others) packet c.0 s
          (omega (arith, length-frames (m ∷ ms))) taken (omega (arith, few, count))
          (collected ∙ ap (λ l. sent (c.0, l)) r.rest) built run,
      omega (arith, last, count),
      subst (λ l. Delivers max_per_packet seq l (packet ∷ s.packets)) (sym r.split)
          (deliver seq packet c.0 r.others s.packets taken r.few size header contents rest),
    )

frames_nil : length (frames []) ≡ 0
unfolding frames
frames_nil = refl

end_marker-header :
    (seq : ℕ)
    → build_mold_packet packet_bytes session seq []
      ≡ some (build_mold_header session seq 0 ++ frames [])
    → end_marker seq ≡ build_mold_header session seq end_of_session ++ []
unfolding end_marker build_mold_header store_u64 store_u16 frames
end_marker-header seq built = ground (arith, built)

-- The marker is a header with the next sequence number and the count that ends a session.
end_marker-parse :
    (seq : ℕ)
    → seq < 2 ^ 64
    → parse_mold_header (end_marker seq)
      ≡ record { session = session; sequence_number = seq; message_count = end_of_session }
end_marker-parse seq small =
    let built = build_mold_packet-frames packet_bytes session seq [] refl in
    rw (end_marker-header seq (ground (arith, built, frames_nil)))
      (parse-build_mold_header session seq end_of_session [] refl small (omega arith))

-- If the file is the frames of messages that each fit a packet, at least one message and at most
-- 256, the length of the two arrays of a batch, are allowed in a packet, the sequence numbers fit 64 bits and every packet is sent, then `replay` returns
-- packets from which a receiver reads, in order and without a gap from number 1, exactly these
-- messages, one to the allowed number in each packet of at most 2048 bytes, and last the marker
-- with the next number and the count that ends a session.
pub replay-Delivers :
    (max_per_packet : ℕ) (ms : List (List ℕ))
    → Fit ms
    → 0 < max_per_packet
    → max_per_packet ≤ batch_slots
    → 1 + length ms < 2 ^ 64
    → (packets : List (List ℕ)) × (marker : List ℕ) × (replay (λ _. true) max_per_packet (frames ms)
        ≡ sent (packets ++ (marker ∷ [])))
      × Delivers max_per_packet 1 ms packets
      × (parse_mold_header marker ≡ record {
        session = session;
        sequence_number = 1 + length ms;
        message_count = end_of_session;
      })
unfolding replay
replay-Delivers max_per_packet ms fit some_each small_batch few =
    let (s, run, last, d) =
      send_batches-Delivers max_per_packet (length (frames ms)) 1 0 ms fit some_each small_batch few
        (omega arith) in
    (
      s.packets,
      end_marker s.seq,
      ground (arith, run),
      d,
      end_marker-parse s.seq (omega (arith, last, few))
          ∙ ap
              (λ q. record {
                session = session;
                sequence_number = q;
                message_count = end_of_session;
              })
              last,
    )
