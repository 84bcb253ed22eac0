-- ===== src/Engine/Session.antt =====
-- `run` of matching_engine.cpp over the messages of a whole file.
use orderbook.Prelude.{
  ℕ, zero, suc, ◌+◌, ◌*◌, ◌^◌, ◌≤◌, ◌<◌, ◌≡◌, refl, ap, ◌∙◌, ◌≢◌, true, false, List, [], ◌∷◌, ◌++◌,
  none, arith, has, has-append, All, get_or, drop, length, length-drop, Bool-cases, inl, inr, Bool,
  map,
}
use mathlib.Core.Path.{fun_ext}
use orderbook.Run.{Run, ok, ◌>>=◌}
use orderbook.Pool.{invalid_index}
use orderbook.Book.{Scratch}
use orderbook.Engine.{Clock, Engine, no_ref, cleared, convert, process_message, run, run_file}
use orderbook.Engine.Orders.{location}
use orderbook.Engine.Maps.{map_used}
use orderbook.Engine.Books.{Consistent}
use orderbook.Engine.Add.{Advances, timed, timed-Consistent}
use orderbook.Engine.Process.{WellFormed, news_of, process_message-Advances}

-- A message type, and what the cursor sees behind it.
abbrev pub Message : Type 0
Message = ℕ × List ℕ

-- The messages of a file, each behind two bytes with its length.
unfoldable pub messages_of : ℕ → List ℕ → List Message
messages_of fuel [] = []
messages_of zero (b ∷ bs) = []
messages_of (suc fuel) (b ∷ bs) =
    let msg = drop 1 bs in
    (get_or msg 0 0, drop 1 msg) ∷ messages_of fuel (drop (b * 256 + get_or bs 0 0) msg)

-- One message after the other.
unfoldable pub process_all :
    (clock : ℕ → Clock) → ℕ → Engine → Scratch → List Message → Run (Engine × Scratch)
process_all clock n e out [] = ok (e, out)
process_all clock n e out ((kind, body) ∷ ms) =
    process_message e kind body out (clock n)
    >>= (λ (e', out'). process_all clock (n + 1) e' out' ms)

run_file-all :
    (clock : ℕ → Clock) (fuel n : ℕ) (e : Engine) (out : Scratch) (file : List ℕ)
    → length file ≤ fuel
    → run_file clock fuel n e out file ≡ process_all clock n e out (messages_of fuel file)
unfolding run_file process_all messages_of
run_file-all clock fuel n e out [] enough = refl
run_file-all clock zero n e out (b ∷ bs) enough = absurd (omega arith)
run_file-all clock (suc fuel) n e out (b ∷ bs) enough =
    let msg = drop 1 bs in
    let len = b * 256 + get_or bs 0 0 in
    let shorter : length (drop len msg) ≤ fuel =
      omega (arith, length-drop len msg, length-drop 1 bs) in
    ap (λ f. process_message e (get_or msg 0 0) (drop 1 msg) out (clock n) >>= f)
      (fun_ext (λ p. run_file-all clock fuel (n + 1) p.0 p.1 (drop len msg) shorter))

-- The references that the messages give to new orders.
unfoldable pub all_news : List Message → List ℕ
all_news [] = []
all_news ((kind, body) ∷ ms) = news_of kind body ++ all_news ms

abbrev pub Distinct : List ℕ → Type 0
Distinct [] = Unit
Distinct (x ∷ xs) = (has x xs ≡ false) × Distinct xs

Distinct-parts :
    (xs ys : List ℕ)
    → Distinct (xs ++ ys)
    → Distinct ys × ((j : ℕ) → has j ys ≡ true → has j xs ≡ false)
Distinct-parts [] ys d = (d, λ j h. refl)
Distinct-parts (x ∷ xs) ys (out, d) =
    let (d', apart) = Distinct-parts xs ys d in
    (d', λ j h. ground (arith, apart j h, out, has-append x xs ys))

-- Messages that an engine can process: each is well formed, their new references are new to the
-- engine and different from each other, and there is room for as many orders as there are messages.
pub record Session (k : ℕ) (e : Engine) (ms : List Message) : Type 0 where
  pub formed : All (λ m. WellFormed m.0 m.1) ms
  pub distinct : Distinct (all_news ms)
  pub fresh : (j : ℕ) → has j (all_news ms) ≡ true → location k e j ≡ none
  pub room : e.pool.size + length ms ≤ invalid_index
  pub spare : map_used k e.order_map + length ms < 2 ^ k

news-real :
    (ms : List Message)
    → All (λ m. WellFormed m.0 m.1) ms
    → (j : ℕ) → has j (all_news ms) ≡ true
    → j ≢ no_ref
unfolding all_news
news-real [] w j h = absurd (ground (arith, h))
news-real ((kind, body) ∷ ms) (w, ws) j h = elim (Bool-cases (has j (news_of kind body))) [
  | inl here ↦ w.news j here
  | inr out ↦
      news-real ms ws j (ground (arith, h, out, has-append j (news_of kind body) (all_news ms)))
]

pub Session-next :
    (k : ℕ) (e e' : Engine) (kind : ℕ) (body : List ℕ) (ms : List Message)
    → Session k e ((kind, body) ∷ ms)
    → Advances k e e' (news_of kind body)
    → Session k e' ms
unfolding all_news
Session-next k e e' kind body ms s a =
    let (d, apart) = Distinct-parts (news_of kind body) (all_news ms) s.distinct in
    record {
      formed = s.formed.1;
      distinct = d;
      fresh = λ j h.
          a.locations j (news-real ms s.formed.1 j h) (apart j h)
            (s.fresh j (ground (arith, h, has-append j (news_of kind body) (all_news ms))));
      room = omega (arith, s.room, a.size);
      spare = omega (arith, s.spare, a.used);
    }

-- The first message of a session is processed.
pub next_message :
    (k : ℕ) (e : Engine) (c : Consistent k e) (kind : ℕ) (body : List ℕ) (ms : List Message)
    (out : Scratch) (clock : Clock)
    → Session k e ((kind, body) ∷ ms)
    → (e' : Engine) × (out' : Scratch) × (process_message e kind body out clock ≡ ok (e', out'))
      × Advances k e e' (news_of kind body)
unfolding all_news
next_message k e c kind body ms out clock s =
    process_message-Advances k e c
      (record { room = omega (arith, s.room); spare = omega (arith, s.spare) }) kind body out clock
      s.formed.0
      (λ j h. s.fresh j (ground (arith, h, has-append j (news_of kind body) (all_news ms))))

process_all-Consistent :
    (k : ℕ) (clock : ℕ → Clock) (n : ℕ) (e : Engine) (out : Scratch) (ms : List Message)
    → Consistent k e
    → Session k e ms
    → (e' : Engine) × (out' : Scratch) × (process_all clock n e out ms ≡ ok (e', out'))
      × Consistent k e'
unfolding process_all
process_all-Consistent k clock n e out [] c s = (e, out, refl, c)
process_all-Consistent k clock n e out ((kind, body) ∷ ms) c s =
    let (e1, out1, run, a) = next_message k e c kind body ms out (clock n) s in
    let (e', out', run', c') =
      process_all-Consistent k clock (n + 1) e1 out1 ms a.consistent
        (Session-next k e e1 kind body ms s a) in
    (e', out', ground (arith, run, run'), c')

-- An engine is consistent if its map is well formed, all sides of all books are well formed over
-- the one pool and free list, each book has its bids below its asks, and the map leads from the
-- reference of each order that rests to its book and node, and from no other reference. If an
-- engine is consistent, each message of the file is made of bytes, names no reference that is the
-- empty key, and marks an added order to buy or to sell, the references given to new orders are
-- different from each other and new to the engine, and the pool and the map have room for one
-- order for each message, then `run` over the bytes of the file returns, and leaves a consistent
-- engine.
pub run-Consistent :
    (k : ℕ) (clock : ℕ → Clock) (is_cycles : Bool) (to_ns : ℕ → ℕ) (e : Engine) (file : List ℕ)
    → Consistent k e
    → Session k e (messages_of (length file) file)
    → (e' : Engine) × (run clock is_cycles to_ns e file ≡ ok e') × Consistent k e'
unfolding run convert
run-Consistent k clock is_cycles to_ns e file c s =
    let (e1, out', done, c') =
      process_all-Consistent k clock 0 e cleared (messages_of (length file) file) c s in
    let all = run_file-all clock (length file) 0 e cleared file (omega arith) ∙ done in
    elim (Bool-cases is_cycles) [
      | inl yes_cycles ↦ (
        timed e1 (map to_ns e1.latencies) (map to_ns e1.wire_latencies),
        ground (arith, all, yes_cycles),
        timed-Consistent k e1 _ _ c',
      )
      | inr no_cycles ↦ (e1, ground (arith, all, no_cycles), c')
    ]
