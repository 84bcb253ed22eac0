-- ===== src/Engine/Books.antt =====
-- What holds of the engine of matching_engine.hpp between two messages: the books share the pool,
-- and the order map leads to the orders that rest.
use orderbook.Prelude.{
  ℕ, ◌≡◌, refl, sym, ap, ◌∙◌, ◌≢◌, Bool, true, false, not, List, some, arith, has,
}
use orderbook.Pool.{Nodes}
use orderbook.Book.Departs.{ref_at}
use orderbook.Book.Sides.{Stocked, ladder_at}
use orderbook.Book.Enter.{side_of, taker}
use orderbook.Book.Uncrossed.{Apart, Apart-swap}
use orderbook.Engine.{Engine, OrderLocation, no_ref}
use orderbook.Engine.Orders.{MapValid, location}

abbrev pub at : ℕ → ℕ → OrderLocation
at locate idx = record { stock_locate = locate; pool_idx = idx }

-- The indicator of the orders that rest on a side.
abbrev pub maker : Bool → ℕ
maker b = taker (not b)

-- The queues of a side (true for bids) of a book, by price.
abbrev pub Queues : Type 0
Queues = Bool → ℕ → ℕ → List ℕ

-- The order with this reference rests at the location.
abbrev pub RestsAt : Engine → Queues → ℕ → OrderLocation → Type 0
RestsAt e queue ref loc =
    (b : Bool) × (p : ℕ) × (has loc.pool_idx (queue b loc.stock_locate p) ≡ true)
    × (ref_at e.pool.nodes loc.pool_idx ≡ ref)

-- Every side of every book is well formed over the one pool and free list, each book has its bids
-- below its asks, and the map has the location of every order that rests, and of no other.
pub record Consistent (k : ℕ) (e : Engine) : Type 0 where
  pub queue : Queues
  pub free_list : List ℕ
  pub map : MapValid k e
  pub sides :
      (b : Bool) (i : ℕ) → Stocked e.pool b (side_of b (e.order_books i)) (queue b i) free_list
  pub apart :
      (i : ℕ)
      → Apart true (ladder_at e.pool.nodes (queue true i)) (ladder_at e.pool.nodes (queue false i))
  pub listed :
      (b : Bool) (i p a : ℕ)
      → has a (queue b i p) ≡ true
      → (ref_at e.pool.nodes a ≢ no_ref)
        × (location k e (ref_at e.pool.nodes a) ≡ some (at i a))
        × ((e.pool.nodes a).order.buy_sell_indicator ≡ maker b)
  pub rests :
      (ref : ℕ) (loc : OrderLocation)
      → ref ≢ no_ref
      → location k e ref ≡ some loc
      → RestsAt e queue ref loc

module _ {k : ℕ} {e : Engine} (c : Consistent k e) where
  -- A node rests in one book.
  pub one_book :
      (b b' : Bool) (i i' p p' a : ℕ)
      → has a (c.queue b i p) ≡ true
      → has a (c.queue b' i' p') ≡ true
      → i ≡ i'
  one_book b b' i i' p p' a h h' =
      let l = (c.listed b i p a h).1 in
      let l' = (c.listed b' i' p' a h').1 in
      let same : some (at i a) ≡ some (at i' a) = sym l ∙ l' in ground (arith, same)

  -- Orders that rest have different references.
  pub one_ref :
      (b b' : Bool) (i i' p p' a a' : ℕ)
      → has a (c.queue b i p) ≡ true
      → has a' (c.queue b' i' p') ≡ true
      → ref_at e.pool.nodes a ≡ ref_at e.pool.nodes a'
      → a ≡ a'
  one_ref b b' i i' p p' a a' h h' same =
      let l = (c.listed b i p a h).1 in
      let l' = (c.listed b' i' p' a' h').1 in
      let both : some (at i a) ≡ some (at i' a') = sym l ∙ ap (location k e) same ∙ l' in
      ground (arith, both)

-- `x` for the side `b` and `y` for the other.
abbrev pub both {ℓ} : {A : Type ℓ} → Bool → A → A → Bool → A
both true x y true = x
both true x y false = y
both false x y true = y
both false x y false = x

pub both-other {ℓ} : {A : Type ℓ} (b : Bool) (x y : A) → both b x y (not b) ≡ y
both-other true x y = refl
both-other false x y = refl

pub both-all {ℓ κ} :
    {A : Type ℓ} (P : Bool → A → Type κ) (b : Bool) (x y : A)
    → P b x
    → P (not b) y
    → (b' : Bool) → P b' (both b x y b')
both-all P true x y h h' true = h
both-all P true x y h h' false = h'
both-all P false x y h h' true = h'
both-all P false x y h h' false = h

pub both-Apart :
    (b : Bool) (ns : Nodes) (q r : ℕ → List ℕ)
    → Apart b (ladder_at ns q) (ladder_at ns r)
    → Apart true (ladder_at ns (both b q r true)) (ladder_at ns (both b q r false))
both-Apart true ns q r h = h
both-Apart false ns q r h = Apart-swap false (ladder_at ns q) (ladder_at ns r) h

pub side-Apart :
    {k : ℕ} {e : Engine} (c : Consistent k e) (b : Bool) (i : ℕ)
    → Apart b (ladder_at e.pool.nodes (c.queue b i)) (ladder_at e.pool.nodes (c.queue (not b) i))
side-Apart c true i = c.apart i
side-Apart c false i = Apart-swap true _ _ (c.apart i)
