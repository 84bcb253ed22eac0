-- ===== src/Book/Trade.antt =====
-- What holds of a book of orderbook.cpp between its operations.
use orderbook.Prelude.{
  ℕ, ◌≡◌, refl, sym, ap, subst, ◌∙◌, ◌≢◌, ◌⊎◌, inl, inr, Bool, true, false, List, [], ◌∷◌, ◌++◌,
  arith, has,
}
use native.Mathlib.Decide.{ℕ_discrete}
use orderbook.Itch.{Order}
use orderbook.Pool.{OrderPool}
use orderbook.Pool.Reuse.{IsFree}
use orderbook.Ladder.{LadderSide, new_side, price_to_slot}
use orderbook.Ladder.Shape.{level_of}
use orderbook.Ladder.Overflow.{level_at}
use orderbook.Book.{OrderBook, new_book, remove_by_index}
use orderbook.Book.Rounds.{orders_at, orders_at-frame}
use orderbook.Book.Resting.{replaced}
use orderbook.Book.Sides.{Stocked, ladder_at}
use orderbook.Book.Uncrossed.{Apart, Apart-swap, Trading}
use orderbook.Book.Cancel.{Taken, orders_at-append}
use orderbook.Book.Withdraw.{remove_by_index-Withdrawn}

-- A list around one of its members.
pub split_at :
    (a : ℕ) (l : List ℕ) → has a l ≡ true → (xs : List ℕ) × (ys : List ℕ) × (l ≡ xs ++ (a ∷ ys))
split_at a [] h = absurd (ground arith)
split_at a (x ∷ l) h = elim (ℕ_discrete a x) [
  | yes e ↦ ([], l, ap (λ z. z ∷ l) (sym e))
  | no ne ↦ let (xs, ys, e) = split_at a l (ground arith) in (x ∷ xs, ys, ap (λ z. x ∷ z) e)
]

orders-without : (o : List Order) (os : List Order) (x : Order) → o ++ os ≢ [] → o ++ (x ∷ os) ≢ []
orders-without [] os x ne e = ground arith
orders-without (o ∷ rest) os x ne e = ground arith

module _ (b : Bool) (pool pool' : OrderPool) (s' : LadderSide) (q r : ℕ → List ℕ) (fs : List ℕ)
    (price idx : ℕ) (xs ys : List ℕ) (t : Taken b pool pool' s' q fs price idx xs ys)
    (e : q price ≡ xs ++ (idx ∷ ys)) where
  same_orders : (zs : List ℕ) → orders_at pool'.nodes zs ≡ orders_at pool.nodes zs
  same_orders zs = orders_at-frame pool'.nodes pool.nodes zs (λ a i. t.orders a)

  was_there :
      (p : ℕ)
      → ladder_at pool'.nodes (replaced q price (xs ++ ys)) p ≢ []
      → ladder_at pool.nodes q p ≢ []
  was_there p ne = elim (ℕ_discrete price p) [
    | yes at ↦
        let ne' : orders_at pool'.nodes (xs ++ ys) ≢ [] = λ z. ne (ground (arith, z)) in
        let ne'' : orders_at pool.nodes xs ++ orders_at pool.nodes ys ≢ [] =
          λ z. ne' (same_orders (xs ++ ys) ∙ orders_at-append pool.nodes xs ys ∙ z) in
        subst (λ z. orders_at pool.nodes (q z) ≢ []) at
          (subst (λ l. orders_at pool.nodes l ≢ []) (sym e)
            (subst (λ l. l ≢ []) (sym (orders_at-append pool.nodes xs (idx ∷ ys)))
              (orders-without (orders_at pool.nodes xs) (orders_at pool.nodes ys) _ ne'')))
    | no other ↦ λ z. ne (ground (arith, same_orders (q p), z))
  ]

  pub Taken-Apart :
      Apart b (ladder_at pool.nodes q) (ladder_at pool.nodes r)
      → Apart b (ladder_at pool'.nodes (replaced q price (xs ++ ys))) (ladder_at pool'.nodes r)
  Taken-Apart h p ne y ny = h p (λ z. ne (same_orders (r p) ∙ z)) y (was_there y ny)

withdraw_bid :
    (pool : OrderPool) (book : OrderBook) (t : Trading pool book) (price idx : ℕ)
    → has idx (t.bid_queue price) ≡ true
    → Trading (remove_by_index pool book idx).0 (remove_by_index pool book idx).1
withdraw_bid pool book t price idx i =
    let (xs, ys, e) = split_at idx (t.bid_queue price) i in
    let w =
      remove_by_index-Withdrawn true pool book t.bid_queue t.ask_queue t.free_list price idx xs ys
        t.bids t.asks e in
    record {
      bid_queue = replaced t.bid_queue price (xs ++ ys);
      ask_queue = t.ask_queue;
      free_list = idx ∷ t.free_list;
      bids = w.taken.stocked;
      asks = w.other;
      apart =
          Taken-Apart true pool (remove_by_index pool book idx).0 _ t.bid_queue t.ask_queue
            t.free_list price idx xs ys w.taken e t.apart;
    }

withdraw_ask :
    (pool : OrderPool) (book : OrderBook) (t : Trading pool book) (price idx : ℕ)
    → has idx (t.ask_queue price) ≡ true
    → Trading (remove_by_index pool book idx).0 (remove_by_index pool book idx).1
withdraw_ask pool book t price idx i =
    let (xs, ys, e) = split_at idx (t.ask_queue price) i in
    let w =
      remove_by_index-Withdrawn false pool book t.ask_queue t.bid_queue t.free_list price idx xs ys
        t.asks t.bids e in
    record {
      bid_queue = t.bid_queue;
      ask_queue = replaced t.ask_queue price (xs ++ ys);
      free_list = idx ∷ t.free_list;
      bids = w.other;
      asks = w.taken.stocked;
      apart = Apart-swap false _ _ (
          Taken-Apart false pool (remove_by_index pool book idx).0 _ t.ask_queue t.bid_queue
            t.free_list price idx xs ys w.taken e (Apart-swap true _ _ t.apart));
    }

-- On a book whose sides are well formed and apart and whose bids are below its asks,
-- `remove_by_index` of a node that rests at some price of either side leaves such a book.
pub remove_by_index-Trading :
    (pool : OrderPool) (book : OrderBook) (t : Trading pool book) (price idx : ℕ)
    → (has idx (t.bid_queue price) ≡ true) ⊎ (has idx (t.ask_queue price) ≡ true)
    → Trading (remove_by_index pool book idx).0 (remove_by_index pool book idx).1
remove_by_index-Trading pool book t price idx (inl i) = withdraw_bid pool book t price idx i
remove_by_index-Trading pool book t price idx (inr i) = withdraw_ask pool book t price idx i

pub new_side-Stocked :
    (b : Bool) (pool : OrderPool) (fs : List ℕ)
    → IsFree pool fs
    → Stocked pool b (new_side b) (λ p. []) fs
unfolding new_side level_of level_at price_to_slot
new_side-Stocked b pool fs free = record {
  resting = record {
    shape = record {
      sound = record {
        sorted = tt;
        fits = λ i hi p. ground arith;
        best = inl (refl, λ i hi. refl);
      };
      held = λ q l h. ground arith;
      unanchored = λ e. (refl, refl);
    };
    bid = refl;
    chain = λ p. (refl, refl);
    orders = λ p. tt;
  };
  free = free;
  live = λ p a i. absurd (ground arith);
}

-- With any well-formed free list, the two empty sides of a new book are well formed and
-- uncrossed.
pub new_book-Trading : (pool : OrderPool) (fs : List ℕ) → IsFree pool fs → Trading pool new_book
unfolding new_book
new_book-Trading pool fs free = record {
  bid_queue = λ p. [];
  ask_queue = λ p. [];
  free_list = fs;
  bids = new_side-Stocked true pool fs free;
  asks = new_side-Stocked false pool fs free;
  apart = λ p ne. absurd (ne refl);
}
