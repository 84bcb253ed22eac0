-- ===== src/Feed/Slots.antt =====
-- The packet buffers of feed_handler.cpp: those on the free list and those in the ring.
use orderbook.Prelude.{
  ℕ, ◌+◌, ◌%◌, ◌^◌, ◌≡◌, refl, sym, subst, ◌∙◌, ◌≢◌, ◌⊎◌, inl, inr, Bool, true, false, List, [],
  ◌∷◌, ◌++◌, arith, has, ◌==◌, if◌then◌else◌, length,
}
use native.Mathlib.Decide.{dec_lt}
use orderbook.Mold.{MoldHeader, parse_mold_header}
use orderbook.Packets.{pool_invalid, acquire, release, fill}
use orderbook.Packets.Free.{listed, IsFree, acquire-IsFree, release-IsFree, fill-IsFree}
use orderbook.Ring.{push}
use orderbook.Ring.Contents.{Holds, push-Holds}
use orderbook.Feed.{
  Feed, Event, datagram, interrupted, failed, PacketRef, sequence_packet, accept, received, discard,
  receive, receive_into, count_received, open_session, step, send_sentinel,
}
use orderbook.Feed.Phases.{IsSentinel, Phase-cases, step-IsSentinel}

abbrev pub occurs : ℕ → List PacketRef → ℕ
occurs a [] = 0
occurs a (r ∷ rs) = (if a == r.pool_idx then 1 else 0) + occurs a rs

occurs-append :
    (a : ℕ) (rs : List PacketRef) (r : PacketRef)
    → occurs a (rs ++ (r ∷ [])) ≡ occurs a rs + (if a == r.pool_idx then 1 else 0)
occurs-append a [] r = ground arith
occurs-append a (x ∷ rs) r = omega (arith, occurs-append a rs r)

-- The free slots are `free` and the ring holds `refs`.
pub record Slots (k : ℕ) (f : Feed) (free : List ℕ) (refs : List PacketRef) : Type 0 where
  pub is_free : IsFree f.pool free
  pub holds : Holds k f.ring refs

-- What becomes of slot `idx` after its packet was looked at: back to the free list, or into the ring.
abbrev pub Settled : Feed → Feed → ℕ → ℕ → Type 0
Settled f f' idx t_wire =
    ((f'.pool ≡ release f.pool idx) × (f'.ring ≡ f.ring))
    ⊎ ((f'.pool ≡ f.pool)
        × ((push f.ring (record { pool_idx = idx; t_wire_cycles = t_wire })).0 ≡ true)
        × (f'.ring ≡ (push f.ring (record { pool_idx = idx; t_wire_cycles = t_wire })).1))

sequence_packet-Settled :
    (f : Feed) (hdr : MoldHeader) (idx t_wire : ℕ)
    → Settled f (sequence_packet f hdr idx t_wire) idx t_wire
unfolding sequence_packet
sequence_packet-Settled f hdr idx t_wire = ground arith

-- The slots are the same, each as often as before.
abbrev pub SameSlots : (free' : List ℕ) → List PacketRef → List ℕ → List PacketRef → Type 0
SameSlots free' refs' free refs =
    (a : ℕ) → a ≢ pool_invalid → listed a free' + occurs a refs' ≡ listed a free + occurs a refs

abbrev pub Keeps : ℕ → Feed → List ℕ → List PacketRef → Type 0
Keeps k f' free refs =
    (free' : List ℕ) × (refs' : List PacketRef) × Slots k f' free' refs'
    × SameSlots free' refs' free refs

module _ (k : ℕ) (free : List ℕ) (refs : List PacketRef) where
  module _ (idx : ℕ) (valid : idx ≢ pool_invalid) (out : has idx free ≡ false) where
    give_back-Keeps :
        (f f' : Feed)
        → Slots k f free refs
        → f'.pool ≡ release f.pool idx
        → f'.ring ≡ f.ring
        → Keeps k f' (idx ∷ free) refs
    give_back-Keeps f f' s pool ring = (
      idx ∷ free,
      refs,
      record {
        is_free =
            subst (λ p. IsFree p (idx ∷ free)) (sym pool)
              (release-IsFree f.pool idx free s.is_free valid out);
        holds = rw ring s.holds;
      },
      λ a real. refl,
    )

    pub Settled-Keeps :
        (f f' : Feed) (t_wire : ℕ)
        → Slots k f free refs
        → Settled f f' idx t_wire
        → Keeps k f' (idx ∷ free) refs
    Settled-Keeps f f' t_wire s (inl (pool, ring)) = give_back-Keeps f f' s pool ring
    Settled-Keeps f f' t_wire s (inr (pool, pushed, ring)) =
        let ref : PacketRef = record { pool_idx = idx; t_wire_cycles = t_wire } in
        let both = push-Holds refs ref s.holds in
        elim (dec_lt (length refs + 1) (2 ^ k)) [
          | yes room ↦ (
            free,
            refs ++ (ref ∷ []),
            record {
              is_free = subst (λ p. IsFree p free) (sym pool) s.is_free;
              holds = rw ring (both.0 room).1;
            },
            λ a real. omega (arith, occurs-append a refs ref),
          )
          | no full ↦
              let same : push f.ring ref ≡ (false, f.ring) = both.1 (omega arith) in
              absurd (ground (arith, same))
        ]

    accept-Keeps :
        (f : Feed) (bytes : List ℕ) (t_wire : ℕ)
        → Slots k f free refs
        → Keeps k (accept f idx bytes t_wire) (idx ∷ free) refs
    unfolding accept
    accept-Keeps f bytes t_wire s = elim (dec_lt (length bytes) 20) [
      | yes short ↦ give_back-Keeps f (accept f idx bytes t_wire) s (ground arith) (ground arith)
      | no long ↦
          let hdr = parse_mold_header bytes in
          let n = length bytes % 2 ^ 16 in
          let filled = record f {
            pool = fill f.pool idx bytes n;
            stats = count_received (f.stats) (length bytes);
          } in
          let f1 = open_session filled hdr in
          let pool : f1.pool ≡ fill f.pool idx bytes n = ground arith in
          let ring : f1.ring ≡ f.ring = ground arith in
          let s1 : Slots k f1 free refs = record {
            is_free =
                subst (λ p. IsFree p free) (sym pool)
                  (fill-IsFree f.pool idx bytes n free s.is_free);
            holds = rw ring s.holds;
          } in
          let done : Keeps k (sequence_packet f1 hdr idx t_wire) (idx ∷ free) refs =
            Settled-Keeps f1 _ t_wire s1 (sequence_packet-Settled f1 hdr idx t_wire) in
          let same : accept f idx bytes t_wire ≡ sequence_packet f1 hdr idx t_wire = ground arith in
          rw same done
    ]

    -- The datagram, or the failure to get one, at a slot that was acquired.
    receive_into-Keeps :
        (f : Feed) (event : Event)
        → Slots k f free refs
        → Keeps k (receive_into f idx event) (idx ∷ free) refs
    unfolding receive_into
    receive_into-Keeps f (datagram bytes t_wire) s = accept-Keeps f (received bytes) t_wire s
    receive_into-Keeps f interrupted s = give_back-Keeps f _ s refl refl
    receive_into-Keeps f failed s = give_back-Keeps f _ s refl refl

  pub same-Keeps :
      (f f' : Feed)
      → Slots k f free refs
      → f'.pool ≡ f.pool
      → f'.ring ≡ f.ring
      → Keeps k f' free refs
  same-Keeps f f' s pool ring = (
    free,
    refs,
    record {
      is_free = subst (λ p. IsFree p free) (sym pool) s.is_free;
      holds = subst (λ r. Holds k r refs) (sym ring) s.holds;
    },
    λ a real. refl,
  )

  discard-Keeps :
      (f : Feed) (event : Event) → Slots k f free refs → Keeps k (discard f event) free refs
  unfolding discard
  discard-Keeps f (datagram bytes t_wire) s = same-Keeps f _ s (ground arith) (ground arith)
  discard-Keeps f interrupted s = same-Keeps f f s refl refl
  discard-Keeps f failed s = same-Keeps f f s refl refl

  pub sentinel-Keeps :
      (f : Feed) (ref : PacketRef) (stop : Bool)
      → ref.pool_idx ≡ pool_invalid
      → Slots k f free refs
      → Keeps k (send_sentinel f ref stop) free refs
  unfolding send_sentinel
  sentinel-Keeps f ref stop is s =
      let both = push-Holds refs ref s.holds in
      elim (dec_lt (length refs + 1) (2 ^ k)) [
        | yes room ↦
            let ring : (send_sentinel f ref stop).ring ≡ (push f.ring ref).1 =
              let pushed = (both.0 room).0 in ground arith in
            let pool : (send_sentinel f ref stop).pool ≡ f.pool = ground arith in
            (
              free,
              refs ++ (ref ∷ []),
              record {
                is_free = subst (λ p. IsFree p free) (sym pool) s.is_free;
                holds = subst (λ r. Holds k r (refs ++ (ref ∷ []))) (sym ring) (both.0 room).1;
              },
              λ a real. ground (arith, occurs-append a refs ref),
            )
        | no full ↦
            let same : push f.ring ref ≡ (false, f.ring) = both.1 (omega arith) in
            same-Keeps f _ s (ground arith) (ground arith)
      ]

receive-Keeps :
    (k : ℕ) (free : List ℕ) (refs : List PacketRef) (f : Feed) (stop : Bool) (event : Event)
    → Slots k f free refs
    → Keeps k (receive f stop event) free refs
unfolding receive
receive-Keeps k free refs f true event s = same-Keeps k free refs f _ s refl refl
receive-Keeps k free refs f false event s = elim (acquire-IsFree f.pool free s.is_free) [
  | inl (none_left, taken) ↦ rw taken (discard-Keeps k free refs f event s)
  | inr (x, rest, is, valid, out, got, remains) ↦
      let f1 = record f { pool = (acquire f.pool).1 } in
      let s1 : Slots k f1 rest refs = record { is_free = remains; holds = s.holds } in
      let done : Keeps k (receive_into f1 x event) (x ∷ rest) refs =
        receive_into-Keeps k rest refs x valid out f1 event s1 in
      let run : receive f false event ≡ receive_into f1 x event = ground arith in rw (run, is) done
]

-- One step of the network thread keeps the set of packet buffers.
pub step-Keeps :
    (k : ℕ) (free : List ℕ) (refs : List PacketRef) (f : Feed) (stop : Bool) (event : Event)
    → Slots k f free refs
    → IsSentinel f.phase
    → Keeps k (step f stop event) free refs
unfolding step
step-Keeps k free refs f stop event s is = elim (Phase-cases f.phase) [
  | inl e ↦ rw (e, step) (receive-Keeps k free refs f stop event s)
  | inr (inl (ref, e)) ↦
      rw (e, step) (sentinel-Keeps k free refs f ref stop (subst IsSentinel e is) s)
  | inr (inr e) ↦ rw (e, step) (same-Keeps k free refs f f s refl refl)
]

-- A history of the network thread: the stop flag and the event of each step.
pub run : Feed → List (Bool × Event) → Feed
run f [] = f
run f ((stop, event) ∷ es) = run (step f stop event) es

-- From a feed whose free slots are `free` and whose ring holds `refs`, with a sentinel pending
-- only if it is one, any sequence of rounds (stop flags, datagrams, interruptions and errors)
-- leaves a free list and a ring queue that are well formed and in which, together, each packet
-- buffer occurs as often as before.
pub run-Keeps :
    (k : ℕ) (free : List ℕ) (refs : List PacketRef) (f : Feed) (es : List (Bool × Event))
    → Slots k f free refs
    → IsSentinel f.phase
    → Keeps k (run f es) free refs
unfolding run
run-Keeps k free refs f [] s is = (free, refs, s, λ a real. refl)
run-Keeps k free refs f ((stop, event) ∷ es) s is =
    let (free', refs', s', same) = step-Keeps k free refs f stop event s is in
    let (free'', refs'', s'', same') =
      run-Keeps k free' refs' (step f stop event) es s' (step-IsSentinel f stop event is) in
    (free'', refs'', s'', λ a real. same' a real ∙ same a real)
