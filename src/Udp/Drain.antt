-- ===== src/Udp/Drain.antt =====
-- The matching thread of engine_udp.cpp empties the ring.
use orderbook.Prelude.{
  ℕ, zero, suc, ◌+◌, ◌≡◌, refl, sym, ap, subst, ◌∙◌, ◌≢◌, List, [], ◌∷◌, ◌++◌, some, arith, All,
  length, append-nil,
}
use orderbook.Run.{Run, ok, invalid_side, out_of_fuel, ◌>>=◌}
use orderbook.Packets.{PacketPool, pool_invalid, release}
use orderbook.Ring.{pop}
use orderbook.Ring.Contents.{Holds, pop-Holds}
use orderbook.Feed.{PacketRef}
use orderbook.Book.{Scratch}
use orderbook.Engine.{Clock, Engine}
use orderbook.Engine.Books.{Consistent}
use orderbook.Engine.Session.{Message, Session, process_all}
use orderbook.Udp.{
  Turn, Udp, matching, match_turn, open_packet, payload, stale, pop_packet, popping, reading,
  run_udp, turn,
}
use orderbook.Udp.Packet.{match_turns, match_turns-Consumed, seen, stamped}

-- A packet and its messages.
abbrev pub Packet : Type 0
Packet = PacketRef × List Message

abbrev pub packet : PacketPool → PacketRef → Packet
packet pool ref =
    let slot = pool.slots ref.pool_idx in
    let bytes = payload slot in (ref, seen (stale slot) (length bytes) bytes)

abbrev pub packets : PacketPool → List PacketRef → List Packet
packets pool [] = []
packets pool (ref ∷ refs) = packet pool ref ∷ packets pool refs

abbrev pub messages_in : List Packet → List Message
messages_in [] = []
messages_in ((ref, ms) ∷ ps) = ms ++ messages_in ps

-- The engine and its outputs after the packets, one after the other.
abbrev pub InOrder : (ℕ → Clock) → Engine → Scratch → List Packet → Engine → Scratch → Type 0
InOrder clock e out [] e' out' = (e ≡ e') × (out ≡ out')
InOrder clock e out ((ref, ms) ∷ ps) e' out' =
    (n : ℕ) × (e1 : Engine) × (out1 : Scratch) × (process_all (stamped clock ref) n e out ms
      ≡ ok (e1, out1))
    × InOrder clock e1 out1 ps e' out'

-- Giving a buffer back changes no packet.
released-bytes :
    (pool : PacketPool) (a b : ℕ)
    → (((release pool a).slots b).bytes ≡ (pool.slots b).bytes)
      × (((release pool a).slots b).length ≡ (pool.slots b).length)
unfolding release
released-bytes pool a b = (ground arith, ground arith)

released-packets :
    (pool : PacketPool) (a : ℕ) (refs : List PacketRef)
    → packets (release pool a) refs ≡ packets pool refs
released-packets pool a [] = refl
released-packets pool a (ref ∷ refs) =
    let here : packet (release pool a) ref ≡ packet pool ref =
      let (bytes, size) = released-bytes pool a ref.pool_idx in ground (arith, bytes, size) in
    ap (λ p. p ∷ packets (release pool a) refs) here
    ∙ ap (λ ps. packet pool ref ∷ ps) (released-packets pool a refs)

bind_twice :
    (r : Run Udp) (f g h : Udp → Run Udp) → ((u : Udp) → f u ≡ g u >>= h) → r >>= f ≡ r >>= g >>= h
bind_twice (ok u) f g h e = e u
bind_twice invalid_side f g h e = refl
bind_twice out_of_fuel f g h e = refl

run_udp-append :
    (u : Udp) (xs ys : List Turn) → run_udp u (xs ++ ys) ≡ run_udp u xs >>= (λ v. run_udp v ys)
unfolding run_udp
run_udp-append u [] ys = refl
run_udp-append u (t ∷ xs) ys =
    bind_twice (turn u t) _ _ (λ v. run_udp v ys) (λ v. run_udp-append v xs ys)

match_turns-append :
    (clock : ℕ → Clock) (i j n n' t : ℕ)
    → n' ≡ n + i
    → t ≡ i + j
    → match_turns clock n t ≡ match_turns clock n i ++ match_turns clock n' j
unfolding match_turns
match_turns-append clock zero j n n' t en et =
    ap (match_turns clock n) (omega (arith, et))
    ∙ ap (λ a. match_turns clock a j) (omega (arith, en))
match_turns-append clock (suc i) j n n' zero en et = absurd (omega arith)
match_turns-append clock (suc i) j n n' (suc t) en et =
    ap (λ ts. matching (clock n) ∷ ts)
      (match_turns-append clock i j (n + 1) n' t (omega arith) (omega arith))

pop-turn :
    (u : Udp) (b : ℕ) (ref : PacketRef) (clock : Clock)
    → u.stage ≡ popping b
    → (pop u.feed.ring).0 ≡ some ref
    → ref.pool_idx ≢ pool_invalid
    → turn u (matching clock)
      ≡ ok (record u {
        feed = record (u.feed) { ring = (pop u.feed.ring).1 };
        stage = reading ref (payload (u.feed.pool.slots ref.pool_idx));
      })
unfolding turn match_turn pop_packet open_packet
pop-turn u b ref clock at e real = ground (arith, at, e, real)

-- The turns `i` of the thread, and then `j` more.
pub turns-then :
    (clock : ℕ → Clock) (i j n : ℕ) (u v : Udp)
    → run_udp u (match_turns clock n i) ≡ ok v
    → run_udp u (match_turns clock n (i + j)) ≡ run_udp v (match_turns clock (n + i) j)
turns-then clock i j n u v h =
    ap (run_udp u) (match_turns-append clock i j n (n + i) (i + j) refl refl)
    ∙ run_udp-append u (match_turns clock n i) (match_turns clock (n + i) j)
    ∙ ap (λ r. r >>= (λ w. run_udp w (match_turns clock (n + i) j))) h

pub one_turn :
    (clock : ℕ → Clock) (n : ℕ) (u v : Udp)
    → turn u (matching (clock n)) ≡ ok v
    → run_udp u (match_turns clock n (suc zero)) ≡ ok v
unfolding run_udp match_turns
one_turn clock n u v h = ground (arith, h)

no_turn : (clock : ℕ → Clock) (n : ℕ) (u : Udp) → run_udp u (match_turns clock n zero) ≡ ok u
unfolding run_udp match_turns
no_turn clock n u = refl

-- `v` is `u` after the packets `ps`, where `left` is in the ring behind them.
pub record Drained (k j : ℕ) (clock : ℕ → Clock) (u v : Udp) (ps : List Packet)
    (left : List PacketRef) : Type 0 where
  pub consistent : Consistent k v.engine
  pub ring : Holds j v.feed.ring left
  pub popping_again : (b : ℕ) × (v.stage ≡ popping b)
  pub in_order : InOrder clock u.engine u.scratch ps v.engine v.scratch

-- The packets `refs` in front of the ring are processed, whatever is behind them.
pub match_turns-Drains :
    (k j : ℕ) (clock : ℕ → Clock) (n b : ℕ) (u : Udp) (refs left : List PacketRef)
    → u.stage ≡ popping b
    → Holds j u.feed.ring (refs ++ left)
    → All (λ ref. ref.pool_idx ≢ pool_invalid) refs
    → Consistent k u.engine
    → Session k u.engine (messages_in (packets u.feed.pool refs))
    → (count : ℕ) × (v : Udp) × (run_udp u (match_turns clock n count) ≡ ok v)
      × Drained k j clock u v (packets u.feed.pool refs) left
match_turns-Drains k j clock n b u [] left at holds real c s = (
  zero,
  u,
  no_turn clock n u,
  record { consistent = c; ring = holds; popping_again = (b, at); in_order = (refl, refl) },
)
match_turns-Drains k j clock n b u (ref ∷ refs) left at holds (valid, real) c s =
    let (popped, holds1) = pop-Holds u.feed.ring ref (refs ++ left) holds in
    let slot = u.feed.pool.slots ref.pool_idx in
    let bytes = payload slot in
    let ms = seen (stale slot) (length bytes) bytes in
    let u1 = record u {
      feed = record (u.feed) { ring = (pop u.feed.ring).1 };
      stage = reading ref bytes;
    } in
    let first = one_turn clock n u u1 (pop-turn u b ref (clock n) at popped valid) in
    let (u2, go, t) =
      match_turns-Consumed k clock (length bytes) (n + 1) u1 ref bytes
        (messages_in (packets u.feed.pool refs)) refl (omega arith) c s in
    let same : packets u2.feed.pool refs ≡ packets u.feed.pool refs =
      ap (λ f. packets f.pool refs) t.feed ∙ released-packets u.feed.pool ref.pool_idx refs in
    let (count, v, go', d) =
      match_turns-Drains k j clock (n + 1 + suc (length ms)) 0 u2 refs left t.stage
        (subst (λ f. Holds j f.ring (refs ++ left)) (sym t.feed) holds1) real t.consistent
        (subst (λ ps. Session k u2.engine (messages_in ps)) (sym same) t.remaining) in
    (
      suc zero + (suc (length ms) + count),
      v,
      turns-then clock (suc zero) _ n u u1 first
          ∙ turns-then clock (suc (length ms)) count (n + 1) u1 u2 go
          ∙ go',
      record {
        consistent = d.consistent;
        ring = d.ring;
        popping_again = d.popping_again;
        in_order = (
          n + 1,
          u2.engine,
          u2.scratch,
          t.processed,
          subst (λ ps. InOrder clock u2.engine u2.scratch ps v.engine v.scratch) same d.in_order,
        );
      },
    )

-- If the matching thread is popping, the ring holds references of packets and no sentinel, the
-- engine is consistent, and the messages of these packets are ones that it can process as in a
-- file, then after some number of turns of the thread alone the ring is empty, the messages of
-- all packets were processed, packet by packet in the order in which they were pushed, the engine
-- is consistent, and the thread pops again.
pub match_turns-Drained :
    (k j : ℕ) (clock : ℕ → Clock) (n b : ℕ) (u : Udp) (refs : List PacketRef)
    → u.stage ≡ popping b
    → Holds j u.feed.ring refs
    → All (λ ref. ref.pool_idx ≢ pool_invalid) refs
    → Consistent k u.engine
    → Session k u.engine (messages_in (packets u.feed.pool refs))
    → (count : ℕ) × (v : Udp) × (run_udp u (match_turns clock n count) ≡ ok v)
      × Drained k j clock u v (packets u.feed.pool refs) []
match_turns-Drained k j clock n b u refs at holds real c s =
    match_turns-Drains k j clock n b u refs [] at
      (subst (Holds j u.feed.ring) (sym (append-nil refs)) holds) real c s
