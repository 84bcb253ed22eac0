-- ===== src/Engine/Add.antt =====
-- The add messages of matching_engine.cpp on a consistent engine.
use orderbook.Prelude.{
  ℕ, ◌+◌, ◌*◌, ◌^◌, ◌≤◌, ◌<◌, ◌≡◌, ap, ◌≢◌, ◌⊎◌, inl, inr, Bool, true, false, List, [], ◌∷◌, ◌++◌,
  none, arith, ◌!=◌, if◌then◌else◌, get_or, has,
}
use orderbook.Run.{ok}
use orderbook.Itch.{Order, read_add_order}
use orderbook.Itch.Range.{Bytes, read_add_order-lt}
use orderbook.Pool.{invalid_index}
use orderbook.Book.{Scratch, ref_of}
use orderbook.Book.Enter.{taker}
use orderbook.Engine.{Clock, Engine, no_ref, process_add, sub64}
use orderbook.Engine.Orders.{location}
use orderbook.Engine.Maps.{map_used}
use orderbook.Engine.Books.{Consistent}
use orderbook.Engine.Enter.{Enters, enter_order-Enters}
use orderbook.Engine.Reduce.{Lessens}

-- The engine is consistent, and has no order but those that it had and the ones in `news`.
pub record Advances (k : ℕ) (e e' : Engine) (news : List ℕ) : Type 0 where
  pub consistent : Consistent k e'
  pub locations :
      (j : ℕ) → j ≢ no_ref → has j news ≡ false → location k e j ≡ none → location k e' j ≡ none
  pub used : map_used k e'.order_map ≤ map_used k e.order_map + 1
  pub size : e'.pool.size ≤ e.pool.size + 1

pub Lessens-Advances : (k : ℕ) (e e' : Engine) → Lessens k e e' → Advances k e e' []
Lessens-Advances k e e' l = record {
  consistent = l.consistent;
  locations = λ j real out h. l.locations j real h;
  used = omega (arith, l.used);
  size = omega (arith, l.size);
}

pub Enters-Advances :
    (k : ℕ) (e e' : Engine) (c : Consistent k e) (b : Bool) (locate : ℕ) (order : Order)
    (out : Scratch)
    → Enters k e c b locate order e' out
    → Advances k e e' (ref_of order ∷ [])
Enters-Advances k e e' c b locate order out h = record {
  consistent = h.consistent;
  locations = λ j real out h'. ground (arith, h.locations j real);
  used = h.used;
  size = h.size;
}

-- The readings of the clock change nothing else.
abbrev pub timed : Engine → List ℕ → List ℕ → Engine
timed e l w = record e { latencies = l; wire_latencies = w }

pub timed-Consistent :
    (k : ℕ) (e : Engine) (l w : List ℕ) → Consistent k e → Consistent k (timed e l w)
timed-Consistent k e l w c = record {
  queue = c.queue;
  free_list = c.free_list;
  map = c.map;
  sides = c.sides;
  apart = c.apart;
  listed = c.listed;
  rests = c.rests;
}

timed-Enters :
    (k : ℕ) (e e' : Engine) (c : Consistent k e) (b : Bool) (locate : ℕ) (order : Order)
    (out : Scratch) (l w : List ℕ)
    → Enters k e c b locate order e' out
    → Enters k e c b locate order (timed e' l w) out
timed-Enters k e e' c b locate order out l w h = record {
  o = h.o;
  handled = h.handled;
  scratch = h.scratch;
  consistent = timed-Consistent k e' l w h.consistent;
  pool = h.pool;
  books = h.books;
  locations = h.locations;
  used = h.used;
  size = h.size;
}

taker_of : (i : ℕ) → (i ≡ b'B') ⊎ (i ≡ b'S') → (b : Bool) × (i ≡ taker b)
taker_of i (inl e) = (false, e)
taker_of i (inr e) = (true, e)

-- An engine that can take a new order under `ref`: no order has it, and there is room.
pub record Ready (k : ℕ) (e : Engine) : Type 0 where
  pub room : e.pool.size < invalid_index
  pub spare : map_used k e.order_map + 1 < 2 ^ k

abbrev pub added : List ℕ → Order
added body = (read_add_order body).0

abbrev pub locate_of : List ℕ → ℕ
locate_of body = get_or body 0 0 * 256 + get_or body 1 0

-- The measured time of the handling, and of the way from the wire if that was measured.
pub record Timed (e e' : Engine) (clock : Clock) : Type 0 where
  pub latencies : e'.latencies ≡ e.latencies ++ (sub64 clock.end_cycles clock.start_cycles ∷ [])
  pub wire_latencies : e'.wire_latencies ≡ (
      if clock.t_wire != 0
      then e.wire_latencies ++ (sub64 clock.start_cycles clock.t_wire ∷ [])
      else e.wire_latencies)

-- If the engine is consistent and has room for one more order, the message is made of bytes, its
-- reference is new and not the empty key, and its order is marked to buy or to sell, then
-- `process_add` returns. It handles the order in the book of the message by `handle_order`, with
-- price-time priority; it takes the references of the filled orders out of the map and puts the
-- location of the order in, if shares of it rest; the other books stay, the engine is consistent,
-- and the measured times are appended.
pub process_add-Enters :
    (k : ℕ) (e : Engine) (c : Consistent k e) (body : List ℕ) (clock : Clock)
    → Ready k e
    → Bytes body
    → ref_of (added body) ≢ no_ref
    → location k e (ref_of (added body)) ≡ none
    → ((added body).buy_sell_indicator ≡ b'B') ⊎ ((added body).buy_sell_indicator ≡ b'S')
    → (e' : Engine) × (out : Scratch) × (b : Bool) × (process_add e body clock ≡ ok (e', out))
      × Enters k e c b (locate_of body) (added body) e' out
      × Timed e e' clock
unfolding process_add
process_add-Enters k e c body clock r bytes real fresh side =
    let (b, mark) = taker_of (added body).buy_sell_indicator side in
    let (e1, out, run, h, l, w) = enter_order-Enters k e c b (locate_of body) (added body) (record {
      real = real;
      fresh = fresh;
      mark = mark;
      price = (read_add_order-lt body bytes).3;
      room = r.room;
      spare = r.spare;
    }) in
    let l' = e1.latencies ++ (sub64 clock.end_cycles clock.start_cycles ∷ []) in
    let w' =
      if clock.t_wire != 0
      then e1.wire_latencies ++ (sub64 clock.start_cycles clock.t_wire ∷ [])
      else e1.wire_latencies in
    (
      timed e1 l' w',
      out,
      b,
      ground (arith, run),
      timed-Enters k e e1 c b (locate_of body) (added body) out l' w' h,
      record {
        latencies = ap (λ z. z ++ (sub64 clock.end_cycles clock.start_cycles ∷ [])) l;
        wire_latencies =
            ap
              (λ z.
                if clock.t_wire != 0 then z ++ (sub64 clock.start_cycles clock.t_wire ∷ []) else z)
              w;
      },
    )
