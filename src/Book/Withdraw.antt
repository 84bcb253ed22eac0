-- ===== src/Book/Withdraw.antt =====
-- `removeByIndex` of orderbook.hpp on a book whose two sides share the pool.
use orderbook.Prelude.{
  ℕ, ◌≡◌, refl, sym, subst, ◌≢◌, inl, inr, Bool, true, false, not, List, ◌∷◌, ◌++◌, arith, has,
  Bool-cases,
}
use orderbook.Pool.{OrderPool}
use orderbook.Pool.Reuse.{IsLive}
use orderbook.Ladder.{LadderSide}
use orderbook.Book.{OrderBook, remove_by_index}
use orderbook.Book.Resting.{Resting-frame, one_price}
use orderbook.Book.Sides.{Stocked}
use orderbook.Book.Enter.{side_of}
use orderbook.Book.Cancel.{Taken, remove-Taken, here, queued, pool', side'}

apart_sides : (b : Bool) → b ≢ not b
apart_sides true e = cc
apart_sides false e = cc

-- The pool and the book after an order was taken out of the side `b`.
pub record Withdrawn (b : Bool) (pool : OrderPool) (book : OrderBook) (q r : ℕ → List ℕ)
    (fs : List ℕ) (price idx : ℕ) (xs ys : List ℕ) (after : OrderPool × OrderBook) : Type 0 where
  pub taken : Taken b pool after.0 (side_of b after.1) q fs price idx xs ys
  pub other_side : side_of (not b) after.1 ≡ side_of (not b) book
  pub other : Stocked after.0 (not b) (side_of (not b) after.1) r (idx ∷ fs)

module _ (b : Bool) (pool : OrderPool) (book : OrderBook) (q r : ℕ → List ℕ) (fs : List ℕ)
    (u : Stocked pool b (side_of b book) q fs)
    (w : Stocked pool (not b) (side_of (not b) book) r fs) (price idx : ℕ) (xs ys : List ℕ)
    (e : q price ≡ xs ++ (idx ∷ ys)) where
  abbrev pool1 : OrderPool
  pool1 = pool' b pool (side_of b book) q fs u price idx xs ys e

  taken1 :
      Taken b pool pool1
        (side' b pool (side_of b book) q fs u price idx xs ys e)
        q
        fs
        price
        idx
        xs
        ys
  taken1 = remove-Taken b pool (side_of b book) q fs u price idx xs ys e

  outside : (p a y : ℕ) → has a (r p) ≡ true → has a (q y) ≡ false
  outside p a y i = elim (Bool-cases (has a (q y))) [
    | inl j ↦ absurd (
        apart_sides b
          (one_price pool.nodes b (not b) (side_of b book) (side_of (not b) book) q r y p a
            u.resting w.resting j i).1)
    | inr out ↦ out
  ]

  kept : (p a : ℕ) → has a (r p) ≡ true → (pool1.nodes a ≡ pool.nodes a) × IsLive pool1 (idx ∷ fs) a
  kept p a i =
      taken1.spares a (w.live p a i)
        (λ z.
          ground
            (arith, outside p a price i, queued b pool (side_of b book) q fs u price idx xs ys e))
        (outside p a price i)

  other1 : Stocked pool1 (not b) (side_of (not b) book) r (idx ∷ fs)
  other1 = record {
    resting =
        Resting-frame pool1.nodes pool.nodes (not b) (side_of (not b) book) r
          (λ p a i. (kept p a i).0) w.resting;
    free = taken1.stocked.free;
    live = λ p a i. (kept p a i).1;
  }

abbrev put_side : Bool → OrderBook → LadderSide → OrderBook
put_side true book s = record book { bids = s }
put_side false book s = record book { asks = s }

remove_by_index-run :
    (b : Bool) (pool : OrderPool) (book : OrderBook) (q r : ℕ → List ℕ) (fs : List ℕ)
    (u : Stocked pool b (side_of b book) q fs) (price idx : ℕ) (xs ys : List ℕ)
    (e : q price ≡ xs ++ (idx ∷ ys))
    → remove_by_index pool book idx ≡ (
      pool' b pool (side_of b book) q fs u price idx xs ys e,
      put_side b book (side' b pool (side_of b book) q fs u price idx xs ys e),
    )
unfolding remove_by_index
remove_by_index-run true pool book q r fs u price idx xs ys e =
    let at = here true pool book.bids q fs u price idx xs ys e in ground (arith, at.0, at.1)
remove_by_index-run false pool book q r fs u price idx xs ys e =
    let at = here false pool book.asks q fs u price idx xs ys e in ground (arith, at.0, at.1)

-- If a well-formed side has the nodes `xs`, `idx` and `ys` in the queue of a price, then
-- `remove_by_index` leaves `xs` and `ys` there and the queues of all other prices of the side as
-- they were, puts `idx` in front of the free list, changes no order, leaves every other node in
-- use outside that queue unchanged and in use, and leaves the other side as it was and well
-- formed.
pub remove_by_index-Withdrawn :
    (b : Bool) (pool : OrderPool) (book : OrderBook) (q r : ℕ → List ℕ) (fs : List ℕ)
    (price idx : ℕ) (xs ys : List ℕ)
    → Stocked pool b (side_of b book) q fs
    → Stocked pool (not b) (side_of (not b) book) r fs
    → q price ≡ xs ++ (idx ∷ ys)
    → Withdrawn b pool book q r fs price idx xs ys (remove_by_index pool book idx)
remove_by_index-Withdrawn true pool book q r fs price idx xs ys u w e =
    subst (Withdrawn true pool book q r fs price idx xs ys)
      (sym (remove_by_index-run true pool book q r fs u price idx xs ys e))
      (record {
        taken = taken1 true pool book q r fs u w price idx xs ys e;
        other_side = refl;
        other = other1 true pool book q r fs u w price idx xs ys e;
      })
remove_by_index-Withdrawn false pool book q r fs price idx xs ys u w e =
    subst (Withdrawn false pool book q r fs price idx xs ys)
      (sym (remove_by_index-run false pool book q r fs u price idx xs ys e))
      (record {
        taken = taken1 false pool book q r fs u w price idx xs ys e;
        other_side = refl;
        other = other1 false pool book q r fs u w price idx xs ys e;
      })
