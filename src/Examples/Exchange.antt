-- ===== src/Examples/Exchange.antt =====
-- An engine whose book 3 has two orders to buy, and messages for it.
use orderbook.Prelude.{
  ℕ, ◌+◌, ◌*◌, ◌≡◌, refl, sym, subst, ◌∙◌, ◌≢◌, ◌⊎◌, Bool, true, false, ◌==◌, if◌then◌else◌, List,
  [], ◌∷◌, none, some, arith, has,
}
use native.Mathlib.Decide.{ℕ_discrete}
use mathlib.Core.Path.{fun_ext}
use orderbook.Book.{OrderBook, new_book}
use orderbook.Book.Departs.{ref_at}
use orderbook.Book.Sides.{Stocked}
use orderbook.Book.Enter.{side_of}
use orderbook.Book.Trade.{new_side-Stocked}
use orderbook.HashMap.Valid.{occupied}
use orderbook.Engine.{Engine, OrderLocation, no_ref}
use orderbook.Engine.Orders.{location}
use orderbook.Engine.Books.{Consistent, Queues, RestsAt, at, maker}
use orderbook.HashMap
use orderbook.Examples.Data.{pool, table}
use orderbook.Examples.Books.{book, queues, bids-Stocked, asks-Stocked, pool-IsFree}
use orderbook.Examples.Orders.{table-IsValid}

abbrev pub exchange : Engine
exchange = record {
  pool = pool;
  order_map = table;
  order_books = λ i. if i == 3 then book else new_book;
  latencies = [];
  wire_latencies = [];
}

abbrev all_queues : Queues
all_queues true i p = if i == 3 then queues p else []
all_queues false i p = []

empty-Stocked : (b : Bool) → Stocked pool b (side_of b new_book) (λ p. []) (2 ∷ [])
unfolding new_book
empty-Stocked true = new_side-Stocked true pool (2 ∷ []) pool-IsFree
empty-Stocked false = new_side-Stocked false pool (2 ∷ []) pool-IsFree

at_book :
    (b : Bool) (bk : OrderBook) (q : ℕ → List ℕ) (i : ℕ)
    → exchange.order_books i ≡ bk
    → all_queues b i ≡ q
    → Stocked pool b (side_of b bk) q (2 ∷ [])
    → Stocked pool b (side_of b (exchange.order_books i)) (all_queues b i) (2 ∷ [])
at_book b bk q i eb eq v =
    subst (λ z. Stocked pool b (side_of b (exchange.order_books i)) z (2 ∷ [])) (sym eq)
      (subst (λ z. Stocked pool b (side_of b z) q (2 ∷ [])) (sym eb) v)

sides :
    (b : Bool) (i : ℕ)
    → Stocked pool b (side_of b (exchange.order_books i)) (all_queues b i) (2 ∷ [])
sides true i = elim (ℕ_discrete i 3) [
  | yes e ↦ at_book true book queues i (ground arith) (fun_ext (λ p. ground arith)) bids-Stocked
  | no ne ↦
      at_book true new_book (λ p. []) i (ground arith) (fun_ext (λ p. ground arith))
        (empty-Stocked true)
]
sides false i = elim (ℕ_discrete i 3) [
  | yes e ↦ at_book false book (λ p. []) i (ground arith) refl asks-Stocked
  | no ne ↦ at_book false new_book (λ p. []) i (ground arith) refl (empty-Stocked false)
]

pub exchange-location :
    (ref : ℕ)
    → ref ≢ no_ref
    → location 3 exchange ref
      ≡ (if ref == 7 then some (at 3 0) else if ref == 15 then some (at 3 1) else none)
unfolding HashMap.Valid.view_below
exchange-location ref real = ground arith

-- The nodes 0 and 1 rest at 50000 in book 3.
members :
    (i p a : ℕ) → has a (all_queues true i p) ≡ true → (i ≡ 3) × (p ≡ 50000) × ((a ≡ 0) ⊎ (a ≡ 1))
members i p a h = ground arith

listed :
    (b : Bool) (i p a : ℕ)
    → has a (all_queues b i p) ≡ true
    → (ref_at pool.nodes a ≢ no_ref)
      × (location 3 exchange (ref_at pool.nodes a) ≡ some (at i a))
      × ((pool.nodes a).order.buy_sell_indicator ≡ maker b)
listed true i p a h =
    let (book_3, price, one) = members i p a h in
    let ref : (ref_at pool.nodes a ≡ 7 + 8 * a) = ground arith in
    (
      omega (arith, ref, one),
      exchange-location (ref_at pool.nodes a) (omega (arith, ref, one))
          ∙ ground (arith, one, book_3),
      ground (arith, one),
    )
listed false i p a h = absurd (ground arith)

rests :
    (ref : ℕ) (loc : OrderLocation)
    → ref ≢ no_ref
    → location 3 exchange ref ≡ some loc
    → RestsAt exchange all_queues ref loc
rests ref loc real found =
    let l = exchange-location ref real in
    elim (ℕ_discrete ref 7) [
      | yes seven ↦
          let e : at 3 0 ≡ loc = ground (arith, l, found, seven) in
          subst (RestsAt exchange all_queues ref) e (true, 50000, refl, sym seven)
      | no not_7 ↦ elim (ℕ_discrete ref 15) [
        | yes fifteen ↦
            let e : at 3 1 ≡ loc = ground (arith, l, found, fifteen) in
            subst (RestsAt exchange all_queues ref) e (true, 50000, refl, sym fifteen)
        | no not_15 ↦ absurd (ground (arith, l, found))
      ]
    ]

pub exchange-Consistent : Consistent 3 exchange
exchange-Consistent = record {
  queue = all_queues;
  free_list = 2 ∷ [];
  map = table-IsValid;
  sides = sides;
  apart = λ i p ne. absurd (ne refl);
  listed = listed;
  rests = rests;
}
