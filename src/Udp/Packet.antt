-- ===== src/Udp/Packet.antt =====
-- What the matching thread of engine_udp.cpp makes of a packet that it popped.
use orderbook.Prelude.{
  ℕ, zero, suc, ◌+◌, ◌≤◌, ◌≡◌, refl, sym, ap, subst, inl, inr, List, [], ◌∷◌, ◌++◌, none, some,
  arith, drop, get_or, length, length-drop, Option-cases, Bool-cases, ltb,
}
use orderbook.Run.{ok}
use orderbook.Mold.{next, load_u16, swap_u16}
use orderbook.Packets.{release}
use orderbook.Feed.{PacketRef, add64}
use orderbook.Book.{Scratch}
use orderbook.Engine.{Clock, Engine, process_message}
use orderbook.Engine.Books.{Consistent}
use orderbook.Engine.Session.{Message, Session, Session-next, next_message, process_all}
use orderbook.Udp.{
  Turn, Udp, matching, match_turn, popping, read_packet, close_packet, process_at, reading, run_udp,
  turn, stale,
}

-- The message at the cursor as `processMessage` sees it, where `old` is behind the packet.
abbrev pub at_cursor : List ℕ → List ℕ → Message
at_cursor old cursor = let msg = drop 2 cursor ++ old in (get_or msg 0 0, drop 1 msg)

-- The messages at the cursor.
unfoldable pub seen : List ℕ → ℕ → List ℕ → List Message
seen old zero cursor = []
seen old (suc fuel) cursor =
    let (found, rest) = next cursor in
    elim found [ none ↦ [] | some m ↦ at_cursor old cursor ∷ seen old fuel rest ]

-- What is behind the packet that the matching thread reads.
abbrev pub behind : Udp → PacketRef → List ℕ
behind u ref = stale (u.feed.pool.slots ref.pool_idx)

-- Turns of the matching thread alone.
unfoldable pub match_turns : (ℕ → Clock) → ℕ → ℕ → List Turn
match_turns clock n zero = []
match_turns clock n (suc j) = matching (clock n) ∷ match_turns clock (n + 1) j

abbrev pub stamped : (ℕ → Clock) → PacketRef → ℕ → Clock
stamped clock ref n = record (clock n) { t_wire = ref.t_wire_cycles }

next-shorter :
    (cursor m rest : List ℕ) → next cursor ≡ (some m, rest) → length rest + 2 ≤ length cursor
unfolding next
next-shorter cursor m rest e = elim (Bool-cases (ltb (length cursor) 2)) [
  | inl short ↦ absurd (ground (arith, e, short))
  | inr long ↦
      let len = swap_u16 (load_u16 cursor) in
      elim (Bool-cases (ltb (length (drop 2 cursor)) len)) [
        | inl cut ↦ absurd (ground (arith, e, long, cut))
        | inr whole ↦
            let r : drop len (drop 2 cursor) ≡ rest = ground (arith, e, long, whole) in
            let l : length (drop len (drop 2 cursor)) ≡ length rest = ap length r in
            let two : 2 ≤ length cursor = ground (arith, long) in
            omega (arith, l, two, length-drop len (drop 2 cursor), length-drop 2 cursor)
      ]
]

next-nil : next [] ≡ (none, [])
unfolding next
next-nil = refl

-- `v` is `u` after the messages `ms` of the packet `ref`, with the packet given back.
pub record Consumed (k : ℕ) (clock : ℕ → Clock) (n : ℕ) (u v : Udp) (ref : PacketRef)
    (ms later : List Message) : Type 0 where
  pub remaining : Session k v.engine later
  pub consistent : Consistent k v.engine
  pub processed : process_all (stamped clock ref) n u.engine u.scratch ms ≡ ok (v.engine, v.scratch)
  pub stage : v.stage ≡ popping 0
  pub feed : v.feed ≡ record (u.feed) { pool = release u.feed.pool ref.pool_idx }

close-Consumed :
    (k : ℕ) (clock : ℕ → Clock) (n : ℕ) (u : Udp) (ref : PacketRef) (cursor rest : List ℕ)
    (later : List Message)
    → u.stage ≡ reading ref cursor
    → next cursor ≡ (none, rest)
    → Consistent k u.engine
    → Session k u.engine later
    → (v : Udp) × (run_udp u (match_turns clock n (suc zero)) ≡ ok v)
      × Consumed k clock n u v ref [] later
unfolding run_udp turn match_turns match_turn read_packet close_packet process_all
close-Consumed k clock n u ref cursor rest later at none_there c s = (
  close_packet u ref,
  ground (arith, at, none_there),
  record { remaining = s; consistent = c; processed = refl; stage = refl; feed = refl },
)

-- The turn that processes the message at the cursor.
process-turn :
    (clock : ℕ → Clock) (n : ℕ) (u : Udp) (ref : PacketRef) (cursor m rest : List ℕ) (e' : Engine)
    (out' : Scratch)
    → u.stage ≡ reading ref cursor
    → next cursor ≡ (some m, rest)
    → process_message u.engine
        (at_cursor (behind u ref) cursor).0
        (at_cursor (behind u ref) cursor).1
        u.scratch
        (stamped clock ref n)
      ≡ ok (e', out')
    → turn u (matching (clock n))
      ≡ ok (record u {
        engine = e';
        scratch = out';
        message_count = add64 u.message_count 1;
        stage = reading ref rest;
      })
unfolding turn match_turn read_packet process_at
process-turn clock n u ref cursor m rest e' out' at found run = ground (arith, at, found, run)

seen-none :
    (old : List ℕ) (fuel : ℕ) (cursor rest : List ℕ)
    → next cursor ≡ (none, rest)
    → seen old (suc fuel) cursor ≡ []
unfolding seen
seen-none old fuel cursor rest e = ground (arith, e)

seen-some :
    (old : List ℕ) (fuel : ℕ) (cursor m rest : List ℕ)
    → next cursor ≡ (some m, rest)
    → seen old (suc fuel) cursor ≡ at_cursor old cursor ∷ seen old fuel rest
unfolding seen
seen-some old fuel cursor m rest e = ground (arith, e)

-- As many turns as there are messages, and one more, end the packet.
abbrev pub Consumes : ℕ → (ℕ → Clock) → ℕ → Udp → PacketRef → (ms later : List Message) → Type 0
Consumes k clock n u ref ms later =
    (v : Udp) × (run_udp u (match_turns clock n (suc (length ms))) ≡ ok v)
    × Consumed k clock n u v ref ms later

message-Consumed :
    (k : ℕ) (clock : ℕ → Clock) (n : ℕ) (u : Udp) (ref : PacketRef) (cursor m rest : List ℕ)
    (e' : Engine) (out' : Scratch) (ms later : List Message)
    → u.stage ≡ reading ref cursor
    → next cursor ≡ (some m, rest)
    → process_message u.engine
        (at_cursor (behind u ref) cursor).0
        (at_cursor (behind u ref) cursor).1
        u.scratch
        (stamped clock ref n)
      ≡ ok (e', out')
    → Consumes k clock
        (n + 1)
        (record u {
          engine = e';
          scratch = out';
          message_count = add64 u.message_count 1;
          stage = reading ref rest;
        })
        ref
        ms
        later
    → Consumes k clock n u ref (at_cursor (behind u ref) cursor ∷ ms) later
unfolding run_udp match_turns process_all
message-Consumed k clock n u ref cursor m rest e' out' ms later at found run (v, go, t) =
    let now = process-turn clock n u ref cursor m rest e' out' at found run in
    (
      v,
      ground (arith, now, go),
      record {
        remaining = t.remaining;
        consistent = t.consistent;
        processed = ground (arith, run, t.processed);
        stage = t.stage;
        feed = t.feed;
      },
    )

-- If the matching thread reads a packet, its engine is consistent, and the messages from the
-- cursor on, each with what is behind it in the buffer, and others later, are ones that the engine can process as in a file, then as many
-- turns of the thread as there are messages at the cursor, and one more, end the packet: the
-- messages are processed in order, with the packet's time stamp, the engine is consistent and can
-- process the later ones, the buffer is released, nothing else of the network thread's state
-- changes, and the thread pops again.
pub match_turns-Consumed :
    (k : ℕ) (clock : ℕ → Clock) (fuel n : ℕ) (u : Udp) (ref : PacketRef) (cursor : List ℕ)
    (later : List Message)
    → u.stage ≡ reading ref cursor
    → length cursor ≤ fuel
    → Consistent k u.engine
    → Session k u.engine (seen (behind u ref) fuel cursor ++ later)
    → Consumes k clock n u ref (seen (behind u ref) fuel cursor) later
unfolding seen
match_turns-Consumed k clock zero n u ref [] later at short c s =
    close-Consumed k clock n u ref [] [] later at next-nil c s
match_turns-Consumed k clock zero n u ref (b ∷ bs) later at short c s = absurd (omega arith)
match_turns-Consumed k clock (suc fuel) n u ref cursor later at short c s =
    let rest = (next cursor).1 in
    elim (Option-cases (next cursor).0) [
      | inl e ↦
          let found : next cursor ≡ (none, rest) = ap (λ o. (o, rest)) e in
          subst (λ ms. Consumes k clock n u ref ms later)
            (sym (seen-none (behind u ref) fuel cursor rest found))
            (close-Consumed k clock n u ref cursor rest later at found c (
              subst (λ ms. Session k u.engine (ms ++ later))
                (seen-none (behind u ref) fuel cursor rest found) s))
      | inr (m, e) ↦
          let found : next cursor ≡ (some m, rest) = ap (λ o. (o, rest)) e in
          let is = seen-some (behind u ref) fuel cursor m rest found in
          let s1 = subst (λ ms. Session k u.engine (ms ++ later)) is s in
          let (e', out', run, a) =
            next_message k u.engine c _ _ _ u.scratch (stamped clock ref n) s1 in
          let shorter : length rest ≤ fuel =
            omega (arith, short, next-shorter cursor m rest found) in
          subst (λ ms. Consumes k clock n u ref ms later) (sym is)
            (message-Consumed k clock n u ref cursor m rest e' out' (seen (behind u ref) fuel rest)
              later at found run
              (match_turns-Consumed k clock fuel (n + 1) _ ref rest later refl shorter a.consistent
                (Session-next k u.engine e' _ _ (seen (behind u ref) fuel rest ++ later) s1 a)))
    ]
