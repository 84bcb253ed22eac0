-- ===== src/Xdp/Frame.antt =====
-- The network thread of feed_handler_xdp.cpp leaves the packet buffers alone that are not free.
use orderbook.Prelude.{
  ℕ, ◌+◌, ◌%◌, ◌^◌, ◌≡◌, refl, ◌∙◌, ap, ◌≢◌, inl, inr, Bool, false, List, [], ◌∷◌, arith, has,
  length, take, min, Option-cases,
}
use orderbook.Mold.{MoldHeader, parse_mold_header}
use orderbook.Packets.{max_packet_bytes, pool_invalid, acquire, release, fill}
use orderbook.Packets.Free.{IsFree, acquire-IsFree, listed, listed-out}
use orderbook.Feed.{
  Feed, PacketRef, hand_over, note_gap, open_session, count_received, send_sentinel, add64,
}
use orderbook.Feed.Phases.{Phase-cases}
use orderbook.Feed.Slots.{Slots, occurs}
use orderbook.Xdp.{
  copy_packet, sequence_frame, accept_payload, frame_payload, handle_frame, handle_batch, xdp_step,
}
use orderbook.Xdp.Slots.{handle_frame-Keeps}

hand_over-frame :
    (f : Feed) (idx t_wire a : ℕ) → a ≢ idx → (hand_over f idx t_wire).pool.slots a ≡ f.pool.slots a
unfolding hand_over release
hand_over-frame f idx t_wire a ne = ground arith

-- A slot that is not free is not the one that a packet is copied to.
copy_packet-frame :
    (f : Feed) (bytes : List ℕ) (t_wire : ℕ) (free : List ℕ) (a : ℕ)
    → IsFree f.pool free
    → has a free ≡ false
    → (copy_packet f bytes t_wire).pool.slots a ≡ f.pool.slots a
unfolding copy_packet fill acquire
copy_packet-frame f bytes t_wire free a c out = elim (acquire-IsFree f.pool free c) [
  | inl (none_left, taken) ↦ ground (arith, taken)
  | inr (x, rest, is, valid, _, got, remains) ↦
      let ne : a ≢ x = ground arith in
      let n = min (length bytes) max_packet_bytes % 2 ^ 16 in
      let f1 = record f { pool = fill (acquire f.pool).1 x (take n bytes) n } in
      ground (arith, hand_over-frame f1 x t_wire a ne)
]

sequence_frame-frame :
    (f : Feed) (hdr : MoldHeader) (bytes : List ℕ) (t_wire : ℕ) (free : List ℕ) (a : ℕ)
    → IsFree f.pool free
    → has a free ≡ false
    → (sequence_frame f hdr bytes t_wire).pool.slots a ≡ f.pool.slots a
unfolding sequence_frame note_gap
sequence_frame-frame f hdr bytes t_wire free a c out =
    let noted = note_gap f hdr.sequence_number in
    let counted = record noted { next_expected = add64 noted.next_expected hdr.message_count } in
    let pool : counted.pool ≡ f.pool = ground arith in
    let copied = copy_packet-frame counted bytes t_wire free a (rw pool c) out in
    ground (arith, pool, copied)

handle_frame-frame :
    (port : ℕ) (f : Feed) (frame : List ℕ) (t_wire : ℕ) (free : List ℕ) (a : ℕ)
    → IsFree f.pool free
    → has a free ≡ false
    → (handle_frame port f frame t_wire).pool.slots a ≡ f.pool.slots a
unfolding handle_frame accept_payload open_session
handle_frame-frame port f frame t_wire free a c out =
    elim (Option-cases (frame_payload port frame)) [
      | inl e ↦ ground (arith, e)
      | inr (bytes, e) ↦
          let counted = record f { stats = count_received f.stats (length bytes) } in
          let hdr = parse_mold_header bytes in
          let f1 = open_session counted hdr in
          let pool : f1.pool ≡ f.pool = ground arith in
          let run : handle_frame port f frame t_wire ≡ sequence_frame f1 hdr bytes t_wire =
            ground (arith, e) in
          ap (λ g. g.pool.slots a) run
          ∙ sequence_frame-frame f1 hdr bytes t_wire free a (rw pool c) out
          ∙ ap (λ p. p.slots a) pool
    ]

module _ (k a : ℕ) (real : a ≢ pool_invalid) where
  -- A slot that is neither free nor in the ring stays as it is in the whole batch.
  handle_batch-frame :
      (port : ℕ) (f : Feed) (frames : List (List ℕ)) (t_wire : ℕ) (free : List ℕ)
      (refs : List PacketRef)
      → Slots k f free refs
      → listed a free + occurs a refs ≡ 0
      → (handle_batch port f frames t_wire).pool.slots a ≡ f.pool.slots a
  unfolding handle_batch
  handle_batch-frame port f [] t_wire free refs s away = refl
  handle_batch-frame port f (frame ∷ frames) t_wire free refs s away =
      let f' = handle_frame port f frame t_wire in
      let (free', refs', s', same) = handle_frame-Keeps k port f frame t_wire free refs s in
      let one =
        handle_frame-frame port f frame t_wire free a s.is_free
          (listed-out a free (omega (arith, away))) in
      let rest =
        handle_batch-frame port f' frames t_wire free' refs' s'
          (omega (arith, same a real, away)) in
      ground (arith, Phase-cases f'.phase, one, rest)

  pub xdp_step-frame :
      (port : ℕ) (f : Feed) (stop : Bool) (frames : List (List ℕ)) (t_wire : ℕ) (free : List ℕ)
      (refs : List PacketRef)
      → Slots k f free refs
      → listed a free + occurs a refs ≡ 0
      → (xdp_step port f stop frames t_wire).pool.slots a ≡ f.pool.slots a
  unfolding xdp_step send_sentinel
  xdp_step-frame port f stop frames t_wire free refs s away = elim (Phase-cases f.phase) [
    | inl e ↦ ground (arith, e, handle_batch-frame port f frames t_wire free refs s away)
    | inr (inl (ref, e)) ↦ ground (arith, e)
    | inr (inr e) ↦ ground (arith, e)
  ]
