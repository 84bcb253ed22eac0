-- ===== src/Udp/Slots.antt =====
-- The packet buffers that the two threads of engine_udp.cpp share: each is on the free list, in the
-- ring, or with the matching thread.
use orderbook.Prelude.{
  ℕ, ◌+◌, ◌≤◌, ◌≡◌, refl, sym, subst, ap, ◌∙◌, ◌≢◌, ◌⊎◌, inl, inr, true, false, List, [], ◌∷◌, some,
  arith, has, ◌==◌, if◌then◌else◌, Option-cases,
}
use orderbook.Run.{ok}
use orderbook.Mold.{next}
use orderbook.Packets.{pool_invalid}
use orderbook.Packets.Free.{listed, listed-out, release-IsFree}
use orderbook.Ring.{pop}
use orderbook.Ring.Contents.{pop-Holds, pop-empty}
use orderbook.Feed.{PacketRef, Event}
use orderbook.Feed.Phases.{IsSentinel, step-IsSentinel}
use orderbook.Feed.Slots.{Slots, occurs, step-Keeps}
use orderbook.Xdp.Slots.{xdp_step-Keeps, xdp_step-IsSentinel}
use orderbook.Engine.{Clock}
use orderbook.Udp.{
  Udp, Stage, popping, reading, leaving, joining, Turn, net, batch, matching, xdp_turn, turn,
  match_turn, net_turn, pop_packet, read_packet, open_packet, spin, close_packet, process_at,
}

-- How often the matching thread holds a slot.
abbrev pub held : ℕ → Stage → ℕ
held a (popping budget) = 0
held a (reading ref cursor) = if a == ref.pool_idx then 1 else 0
held a leaving = 0
held a joining = 0

abbrev pub Valid : Stage → Type 0
Valid (popping budget) = Unit
Valid (reading ref cursor) = ref.pool_idx ≢ pool_invalid
Valid leaving = Unit
Valid joining = Unit

-- The free slots are `free`, the ring of `2 ^ k` cells holds `refs`, and slot `a` is owned `n a` times.
pub record Owned (k : ℕ) (n : ℕ → ℕ) (u : Udp) : Type 0 where
  pub free : List ℕ
  pub refs : List PacketRef
  pub slots : Slots k u.feed free refs
  pub sentinel : IsSentinel u.feed.phase
  pub valid : Valid u.stage
  pub owners : (a : ℕ) → a ≢ pool_invalid → listed a free + occurs a refs + held a u.stage ≡ n a

net_turn-Owned :
    (k : ℕ) (n : ℕ → ℕ) (u : Udp) (event : Event) → Owned k n u → Owned k n (net_turn u event)
unfolding net_turn
net_turn-Owned k n u event o =
    let (free', refs', s, same) =
      step-Keeps k o.free o.refs u.feed u.stop event o.slots o.sentinel in
    record {
      free = free';
      refs = refs';
      slots = s;
      sentinel = step-IsSentinel u.feed u.stop event o.sentinel;
      valid = o.valid;
      owners = λ a real. omega (arith, same a real, o.owners a real);
    }

xdp_turn-Owned :
    (k : ℕ) (n : ℕ → ℕ) (u : Udp) (port : ℕ) (frames : List (List ℕ)) (t_wire : ℕ)
    → Owned k n u
    → Owned k n (xdp_turn u port frames t_wire)
unfolding xdp_turn
xdp_turn-Owned k n u port frames t_wire o =
    let (free', refs', s, same) =
      xdp_step-Keeps k port u.feed u.stop frames t_wire o.free o.refs o.slots o.sentinel in
    record {
      free = free';
      refs = refs';
      slots = s;
      sentinel = xdp_step-IsSentinel port u.feed u.stop frames t_wire o.sentinel;
      valid = o.valid;
      owners = λ a real. omega (arith, same a real, o.owners a real);
    }

-- A turn that moves no slot.
still :
    (k : ℕ) (n : ℕ → ℕ) (u u' : Udp)
    → Owned k n u
    → u'.feed ≡ u.feed
    → Valid u'.stage
    → ((a : ℕ) → held a u'.stage ≡ held a u.stage)
    → Owned k n u'
still k n u u' o same valid held_same = record {
  free = o.free;
  refs = o.refs;
  slots = subst (λ f. Slots k f o.free o.refs) (sym same) o.slots;
  sentinel = subst (λ f. IsSentinel f.phase) (sym same) o.sentinel;
  valid = valid;
  owners = λ a real. omega (arith, o.owners a real, held_same a);
}

abbrev with_ring : Udp → Udp
with_ring u = record u { feed = record (u.feed) { ring = (pop u.feed.ring).1 } }

pop_packet-run :
    (u : Udp) (budget : ℕ) (ref : PacketRef)
    → (pop u.feed.ring).0 ≡ some ref
    → pop_packet u budget ≡ open_packet (with_ring u) ref
unfolding pop_packet
pop_packet-run u budget ref e = ground (arith, e)

popped-Owned :
    (k : ℕ) (n : ℕ → ℕ) (u : Udp) (budget : ℕ) (free : List ℕ) (ref : PacketRef)
    (refs : List PacketRef)
    → u.stage ≡ popping budget
    → Slots k u.feed free (ref ∷ refs)
    → IsSentinel u.feed.phase
    → ((a : ℕ) → a ≢ pool_invalid → listed a free + occurs a (ref ∷ refs) + held a u.stage ≡ n a)
    → Owned k n (open_packet (with_ring u) ref)
unfolding open_packet
popped-Owned k n u budget free ref refs at s is owners = record {
  free = free;
  refs = refs;
  slots = ground (arith, s.is_free, (pop-Holds u.feed.ring ref refs s.holds).1);
  sentinel = ground (arith, is);
  valid = ground arith;
  owners = λ a real. ground (arith, owners a real, ap (held a) at);
}

pop_packet-Owned :
    (k : ℕ) (n : ℕ → ℕ) (u : Udp) (budget : ℕ)
    → u.stage ≡ popping budget
    → Owned k n u
    → Owned k n (pop_packet u budget)
unfolding pop_packet spin
pop_packet-Owned k n u budget at o = from o.refs o.slots o.owners
  where
    from :
        (refs : List PacketRef)
        → Slots k u.feed o.free refs
        → ((a : ℕ) → a ≢ pool_invalid → listed a o.free + occurs a refs + held a u.stage ≡ n a)
        → Owned k n (pop_packet u budget)
    from [] s owners =
        let empty = pop-empty u.feed.ring s.holds in
        still k n u (pop_packet u budget) o (ground (arith, empty)) (ground (arith, empty))
          (λ a. ground (arith, empty, ap (held a) at))
    from (ref ∷ refs) s owners =
        let popped = (pop-Holds u.feed.ring ref refs s.holds).0 in
        subst (Owned k n) (sym (pop_packet-run u budget ref popped))
          (popped-Owned k n u budget o.free ref refs at s o.sentinel owners)

close_packet-Owned :
    (k : ℕ) (n : ℕ → ℕ) (u : Udp) (ref : PacketRef) (cursor : List ℕ)
    → u.stage ≡ reading ref cursor
    → ((a : ℕ) → n a ≤ 1)
    → Owned k n u
    → Owned k n (close_packet u ref)
unfolding close_packet
close_packet-Owned k n u ref cursor at once o =
    let valid : ref.pool_idx ≢ pool_invalid = subst Valid at o.valid in
    let mine : held ref.pool_idx u.stage ≡ 1 = ap (held ref.pool_idx) at ∙ ground arith in
    let out : has ref.pool_idx o.free ≡ false =
      listed-out ref.pool_idx o.free
        (omega (arith, o.owners ref.pool_idx valid, once ref.pool_idx, mine)) in
    record {
      free = ref.pool_idx ∷ o.free;
      refs = o.refs;
      slots = record {
        is_free = release-IsFree u.feed.pool ref.pool_idx o.free o.slots.is_free valid out;
        holds = o.slots.holds;
      };
      sentinel = o.sentinel;
      valid = tt;
      owners = λ a real. ground (arith, o.owners a real, ap (held a) at);
    }

process_at-Owned :
    (k : ℕ) (n : ℕ → ℕ) (u u' : Udp) (ref : PacketRef) (cursor rest : List ℕ) (clock : Clock)
    → u.stage ≡ reading ref cursor
    → Owned k n u
    → process_at u ref cursor rest clock ≡ ok u'
    → Owned k n u'
unfolding process_at
process_at-Owned k n u u' ref cursor rest clock at o run =
    let feed : u'.feed ≡ u.feed = ground (arith, run) in
    let stage : u'.stage ≡ reading ref rest = ground (arith, run) in
    still k n u u' o feed (subst Valid (sym stage) (subst Valid at o.valid))
      (λ a. ap (held a) stage ∙ sym (ap (held a) at))

read_packet-Owned :
    (k : ℕ) (n : ℕ → ℕ) (u u' : Udp) (ref : PacketRef) (cursor : List ℕ) (clock : Clock)
    → u.stage ≡ reading ref cursor
    → ((a : ℕ) → n a ≤ 1)
    → Owned k n u
    → read_packet u ref cursor clock ≡ ok u'
    → Owned k n u'
unfolding read_packet
read_packet-Owned k n u u' ref cursor clock at once o run = elim (Option-cases (next cursor).0) [
  | inl e ↦
      let same : close_packet u ref ≡ u' = ground (arith, e, run) in
      subst (Owned k n) same (close_packet-Owned k n u ref cursor at once o)
  | inr (msg, e) ↦
      process_at-Owned k n u u' ref cursor (next cursor).1 clock at o (ground (arith, e, run))
]

Stage-cases :
    (s : Stage)
    → ((budget : ℕ) × (s ≡ popping budget))
      ⊎ ((ref : PacketRef) × (cursor : List ℕ) × (s ≡ reading ref cursor))
      ⊎ (s ≡ leaving)
      ⊎ (s ≡ joining)
Stage-cases (popping budget) = inl (budget, refl)
Stage-cases (reading ref cursor) = inr (inl (ref, cursor, refl))
Stage-cases leaving = inr (inr (inl refl))
Stage-cases joining = inr (inr (inr refl))

pub turn-Owned :
    (k : ℕ) (n : ℕ → ℕ) (u u' : Udp) (t : Turn)
    → ((a : ℕ) → n a ≤ 1)
    → Owned k n u
    → turn u t ≡ ok u'
    → Owned k n u'
unfolding turn match_turn
turn-Owned k n u u' (net event) once o run = elim (Option-cases u.xdp_port) [
  | inl e ↦ subst (Owned k n) (ground (arith, e, run)) (net_turn-Owned k n u event o)
  | inr (port, e) ↦ subst (Owned k n) (ground (arith, e, run)) o
]
turn-Owned k n u u' (batch frames t_wire) once o run = elim (Option-cases u.xdp_port) [
  | inl e ↦ subst (Owned k n) (ground (arith, e, run)) o
  | inr (port, e) ↦
      subst (Owned k n) (ground (arith, e, run)) (xdp_turn-Owned k n u port frames t_wire o)
]
turn-Owned k n u u' (matching clock) once o run = elim (Stage-cases u.stage) [
  | inl (budget, e) ↦ subst (Owned k n) (ground (arith, e, run)) (pop_packet-Owned k n u budget e o)
  | inr (inl (ref, cursor, e)) ↦
      read_packet-Owned k n u u' ref cursor clock e once o (ground (arith, e, run))
  | inr (inr (inl e)) ↦
      let same : (record u { stop = true; stage = joining }) ≡ u' = ground (arith, e, run) in
      subst (Owned k n) same (still k n u _ o refl tt (λ a. sym (ap (held a) e)))
  | inr (inr (inr e)) ↦ subst (Owned k n) (ground (arith, e, run)) o
]
