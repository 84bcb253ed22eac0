-- ===== src/Engine/Shorten.antt =====
-- An order of the engine of matching_engine.cpp loses shares where it rests.
use orderbook.Prelude.{
  ℕ, ◌<◌, ◌≡◌, refl, sym, ap, ◌∙◌, Bool, true, false, List, [], ◌∷◌, arith, ◌==◌, All,
}
use orderbook.Pool.{Nodes, invalid_index}
use orderbook.Pool.Reuse.{FreeFrom-frame}
use orderbook.Pool.Chain.{Chain-frame}
use orderbook.Ladder.Shape.{level_of}
use orderbook.Book.{with_nodes}
use orderbook.Book.Departs.{SameOrder}
use orderbook.Book.Rounds.{orders_at}
use orderbook.Book.Resting.{OrderAt}
use orderbook.Book.Sides.{Stocked}
use orderbook.Book.Enter.{side_of}
use orderbook.Engine.{Engine}
use orderbook.Engine.Orders.{location}
use orderbook.Engine.Books.{Consistent}

-- The nodes have their links and their orders, but for the shares, of which some are left.
pub record OnlyShares (ns' ns : Nodes) : Type 0 where
  pub links : (a : ℕ) → ((ns' a).next ≡ (ns a).next) × ((ns' a).prev ≡ (ns a).prev)
  pub same : (a : ℕ) → SameOrder ns' ns a
  pub price : (a : ℕ) → (ns' a).order.price ≡ (ns a).order.price
  pub positive : (a : ℕ) → 0 < (ns a).order.shares → 0 < (ns' a).order.shares

module _ (ns' ns : Nodes) (s : OnlyShares ns' ns) where
  still-OrderAt :
      (b : Bool) (p : ℕ) (xs : List ℕ)
      → All (OrderAt b p) (orders_at ns xs)
      → All (OrderAt b p) (orders_at ns' xs)
  still-OrderAt b p [] h = tt
  still-OrderAt b p (x ∷ xs) ((at, side, more, fits), rest) = (
    (s.price x ∙ at, ap (λ i. i == b'B') (s.same x).1 ∙ side, s.positive x more, fits),
    still-OrderAt b p xs rest,
  )

  still_none : (xs : List ℕ) → orders_at ns xs ≡ [] → orders_at ns' xs ≡ []
  still_none [] e = refl
  still_none (x ∷ xs) e = absurd (ground (arith, e))

module _ (k : ℕ) (e : Engine) (c : Consistent k e) (ns : Nodes)
    (s : OnlyShares ns e.pool.nodes) where
  abbrev e' : Engine
  e' = record e { pool = with_nodes e.pool ns }

  still-Stocked :
      (b : Bool) (i : ℕ)
      → Stocked e'.pool b (side_of b (e'.order_books i)) (c.queue b i) c.free_list
  still-Stocked b i = record {
    resting = record {
      shape = (c.sides b i).resting.shape;
      bid = (c.sides b i).resting.bid;
      chain = λ p.
          let lvl = level_of (side_of b (e.order_books i)) p in
          Chain-frame ns e.pool.nodes invalid_index lvl.head lvl.tail (c.queue b i p)
            (λ a h. s.links a) ((c.sides b i).resting.chain p);
      orders =
          λ p. still-OrderAt ns e.pool.nodes s b p (c.queue b i p) ((c.sides b i).resting.orders p);
    };
    free = (
      (c.sides b i).free.0,
      FreeFrom-frame e.pool.nodes ns e.pool.size e.pool.size e.pool.free_head c.free_list
          (omega arith) (λ a h. (s.links a).0) (c.sides b i).free.1,
    );
    live = (c.sides b i).live;
  }

  pub OnlyShares-Consistent : Consistent k e'
  OnlyShares-Consistent = record {
    queue = c.queue;
    free_list = c.free_list;
    map = c.map;
    sides = still-Stocked;
    apart = λ i p np q nq.
        c.apart i p (λ z. np (still_none ns e.pool.nodes s (c.queue false i p) z)) q
          (λ z. nq (still_none ns e.pool.nodes s (c.queue true i q) z));
    listed = λ b i p a h.
        let (real, found, mark) = c.listed b i p a h in
        let same = s.same a in
        (λ z. real (sym same.0 ∙ z), ap (location k e) same.0 ∙ found, same.1 ∙ mark);
    rests = λ ref loc real found.
        let (b, p, i, is) = c.rests ref loc real found in (b, p, i, (s.same loc.pool_idx).0 ∙ is);
  }
