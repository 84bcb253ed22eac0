-- ===== src/Xdp/Slots.antt =====
-- The packet buffers under the network thread of feed_handler_xdp.cpp.
use orderbook.Prelude.{
  ℕ, ◌%◌, ◌^◌, ◌≡◌, refl, sym, subst, ◌∙◌, ◌⊎◌, inl, inr, Bool, true, false, List, [], ◌∷◌, arith,
  length, take, min, Option-cases,
}
use orderbook.Mold.{MoldHeader, parse_mold_header}
use orderbook.Packets.{max_packet_bytes, acquire, fill}
use orderbook.Packets.Free.{acquire-IsFree, fill-IsFree}
use orderbook.Feed.{
  Feed, PacketRef, hand_over, note_gap, open_session, count_received, send_sentinel, add64,
}
use orderbook.Feed.Phases.{IsSentinel, Phase-cases, send_sentinel-IsSentinel}
use orderbook.Feed.Slots.{Slots, Settled, Keeps, Settled-Keeps, same-Keeps, sentinel-Keeps}
use orderbook.Xdp.{
  copy_packet, sequence_frame, accept_payload, frame_payload, handle_frame, handle_batch, xdp_step,
}

hand_over-Settled : (f : Feed) (idx t_wire : ℕ) → Settled f (hand_over f idx t_wire) idx t_wire
unfolding hand_over
hand_over-Settled f idx t_wire = ground arith

module _ (k : ℕ) where
  copy_packet-Keeps :
      (f : Feed) (bytes : List ℕ) (t_wire : ℕ) (free : List ℕ) (refs : List PacketRef)
      → Slots k f free refs
      → Keeps k (copy_packet f bytes t_wire) free refs
  unfolding copy_packet
  copy_packet-Keeps f bytes t_wire free refs s = elim (acquire-IsFree f.pool free s.is_free) [
    | inl (none_left, taken) ↦
        same-Keeps k free refs f (copy_packet f bytes t_wire) s (ground (arith, taken))
          (ground (arith, taken))
    | inr (x, rest, is, valid, out, got, remains) ↦
        let n = min (length bytes) max_packet_bytes % 2 ^ 16 in
        let f1 = record f { pool = fill (acquire f.pool).1 x (take n bytes) n } in
        let s1 : Slots k f1 rest refs = record {
          is_free = fill-IsFree (acquire f.pool).1 x (take n bytes) n rest remains;
          holds = s.holds;
        } in
        let done =
          Settled-Keeps k rest refs x valid out f1 (hand_over f1 x t_wire) t_wire s1
            (hand_over-Settled f1 x t_wire) in
        let run : copy_packet f bytes t_wire ≡ hand_over f1 x t_wire = ground (arith, got) in
        rw (run, is) done
  ]

  sequence_frame-Keeps :
      (f : Feed) (hdr : MoldHeader) (bytes : List ℕ) (t_wire : ℕ) (free : List ℕ)
      (refs : List PacketRef)
      → Slots k f free refs
      → Keeps k (sequence_frame f hdr bytes t_wire) free refs
  unfolding sequence_frame note_gap
  sequence_frame-Keeps f hdr bytes t_wire free refs s =
      let noted = note_gap f hdr.sequence_number in
      let counted = record noted { next_expected = add64 noted.next_expected hdr.message_count } in
      let s1 : Slots k counted free refs = record {
        is_free = ground (arith, s.is_free);
        holds = ground (arith, s.holds);
      } in
      elim (cases f hdr bytes t_wire) [
        | inl (pool, ring) ↦ same-Keeps k free refs f _ s pool ring
        | inr run ↦
            subst (λ g. Keeps k g free refs) (sym run)
              (copy_packet-Keeps counted bytes t_wire free refs s1)
      ]
    where
      cases :
          (f : Feed) (hdr : MoldHeader) (bytes : List ℕ) (t_wire : ℕ)
          → (((sequence_frame f hdr bytes t_wire).pool ≡ f.pool)
              × ((sequence_frame f hdr bytes t_wire).ring ≡ f.ring))
            ⊎ (sequence_frame f hdr bytes t_wire
                ≡ copy_packet
                    (record (note_gap f hdr.sequence_number) {
                      next_expected =
                          add64 (note_gap f hdr.sequence_number).next_expected hdr.message_count;
                    })
                    bytes
                    t_wire)
      cases f hdr bytes t_wire = ground arith

  pub handle_frame-Keeps :
      (port : ℕ) (f : Feed) (frame : List ℕ) (t_wire : ℕ) (free : List ℕ) (refs : List PacketRef)
      → Slots k f free refs
      → Keeps k (handle_frame port f frame t_wire) free refs
  unfolding handle_frame accept_payload open_session
  handle_frame-Keeps port f frame t_wire free refs s =
      elim (Option-cases (frame_payload port frame)) [
        | inl e ↦ same-Keeps k free refs f _ s (ground (arith, e)) (ground (arith, e))
        | inr (bytes, e) ↦
            let counted = record f { stats = count_received f.stats (length bytes) } in
            let hdr = parse_mold_header bytes in
            let f1 = open_session counted hdr in
            let s1 : Slots k f1 free refs = record {
              is_free = ground (arith, s.is_free);
              holds = ground (arith, s.holds);
            } in
            let run : handle_frame port f frame t_wire ≡ sequence_frame f1 hdr bytes t_wire =
              ground (arith, e) in
            subst (λ g. Keeps k g free refs) (sym run)
              (sequence_frame-Keeps f1 hdr bytes t_wire free refs s1)
      ]

  -- The frames of a batch, up to the end of the session.
  handle_batch-Keeps :
      (port : ℕ) (f : Feed) (frames : List (List ℕ)) (t_wire : ℕ) (free : List ℕ)
      (refs : List PacketRef)
      → Slots k f free refs
      → Keeps k (handle_batch port f frames t_wire) free refs
  unfolding handle_batch
  handle_batch-Keeps port f [] t_wire free refs s = (free, refs, s, λ a real. refl)
  handle_batch-Keeps port f (frame ∷ frames) t_wire free refs s =
      let f' = handle_frame port f frame t_wire in
      let (free', refs', s', same) = handle_frame-Keeps port f frame t_wire free refs s in
      elim (Phase-cases f'.phase) [
        | inl e ↦
            let (free'', refs'', s'', same') =
              handle_batch-Keeps port f' frames t_wire free' refs' s' in
            let run : handle_batch port f (frame ∷ frames) t_wire
                ≡ handle_batch port f' frames t_wire =
              ground (arith, e) in
            subst (λ g. Keeps k g free refs) (sym run)
              (free'', refs'', s'', λ a real. same' a real ∙ same a real)
        | inr (inl (ref, e)) ↦
            let run : handle_batch port f (frame ∷ frames) t_wire ≡ f' = ground (arith, e) in
            subst (λ g. Keeps k g free refs) (sym run) (free', refs', s', same)
        | inr (inr e) ↦
            let run : handle_batch port f (frame ∷ frames) t_wire ≡ f' = ground (arith, e) in
            subst (λ g. Keeps k g free refs) (sym run) (free', refs', s', same)
      ]

  -- One step of the thread keeps the set of packet buffers.
  pub xdp_step-Keeps :
      (port : ℕ) (f : Feed) (stop : Bool) (frames : List (List ℕ)) (t_wire : ℕ) (free : List ℕ)
      (refs : List PacketRef)
      → Slots k f free refs
      → IsSentinel f.phase
      → Keeps k (xdp_step port f stop frames t_wire) free refs
  unfolding xdp_step
  xdp_step-Keeps port f true frames t_wire free refs s is = elim (Phase-cases f.phase) [
    | inl e ↦ same-Keeps k free refs f _ s (ground (arith, e)) (ground (arith, e))
    | inr (inl (ref, e)) ↦
        let run : xdp_step port f true frames t_wire ≡ send_sentinel f ref true =
          ground (arith, e) in
        subst (λ g. Keeps k g free refs) (sym run)
          (sentinel-Keeps k free refs f ref true (subst IsSentinel e is) s)
    | inr (inr e) ↦ same-Keeps k free refs f _ s (ground (arith, e)) (ground (arith, e))
  ]
  xdp_step-Keeps port f false frames t_wire free refs s is = elim (Phase-cases f.phase) [
    | inl e ↦
        let run : xdp_step port f false frames t_wire ≡ handle_batch port f frames t_wire =
          ground (arith, e) in
        subst (λ g. Keeps k g free refs) (sym run)
          (handle_batch-Keeps port f frames t_wire free refs s)
    | inr (inl (ref, e)) ↦
        let run : xdp_step port f false frames t_wire ≡ send_sentinel f ref false =
          ground (arith, e) in
        subst (λ g. Keeps k g free refs) (sym run)
          (sentinel-Keeps k free refs f ref false (subst IsSentinel e is) s)
    | inr (inr e) ↦ same-Keeps k free refs f _ s (ground (arith, e)) (ground (arith, e))
  ]

handle_frame-IsSentinel :
    (port : ℕ) (f : Feed) (frame : List ℕ) (t_wire : ℕ)
    → IsSentinel f.phase
    → IsSentinel (handle_frame port f frame t_wire).phase
unfolding handle_frame accept_payload open_session sequence_frame note_gap copy_packet hand_over
handle_frame-IsSentinel port f frame t_wire is = elim (Option-cases (frame_payload port frame)) [
  | inl e ↦ ground (arith, e)
  | inr (bytes, e) ↦ ground (arith, e)
]

handle_batch-IsSentinel :
    (port : ℕ) (f : Feed) (frames : List (List ℕ)) (t_wire : ℕ)
    → IsSentinel f.phase
    → IsSentinel (handle_batch port f frames t_wire).phase
unfolding handle_batch
handle_batch-IsSentinel port f [] t_wire is = is
handle_batch-IsSentinel port f (frame ∷ frames) t_wire is =
    let f' = handle_frame port f frame t_wire in
    let now = handle_frame-IsSentinel port f frame t_wire is in
    ground (arith, Phase-cases f'.phase, handle_batch-IsSentinel port f' frames t_wire now)

pub xdp_step-IsSentinel :
    (port : ℕ) (f : Feed) (stop : Bool) (frames : List (List ℕ)) (t_wire : ℕ)
    → IsSentinel f.phase
    → IsSentinel (xdp_step port f stop frames t_wire).phase
unfolding xdp_step
xdp_step-IsSentinel port f true frames t_wire is = elim (Phase-cases f.phase) [
  | inl e ↦ ground (arith, e)
  | inr (inl (ref, e)) ↦ ground (arith, e, send_sentinel-IsSentinel f ref true is)
  | inr (inr e) ↦ ground (arith, e)
]
xdp_step-IsSentinel port f false frames t_wire is = elim (Phase-cases f.phase) [
  | inl e ↦ ground (arith, e, handle_batch-IsSentinel port f frames t_wire is)
  | inr (inl (ref, e)) ↦ ground (arith, e, send_sentinel-IsSentinel f ref false is)
  | inr (inr e) ↦ ground (arith, e)
]
