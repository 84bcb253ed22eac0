-- ===== src/Engine/Filled.antt =====
-- Which orders `handleOrder` fills in a book of the engine of matching_engine.cpp.
use orderbook.Prelude.{
  ℕ, ◌≡◌, refl, sym, ap, subst, ◌∙◌, ◌≢◌, inl, inr, Bool, true, false, not, List, none, some, arith,
  has, Bool-cases,
}
use orderbook.Itch.{Order}
use orderbook.Book.{Outcome, ref_of}
use orderbook.Book.Departs.{ref_at}
use orderbook.Book.Enter.{Handled, taker}
use orderbook.Engine.{Engine, no_ref, cleared}
use orderbook.Engine.Orders.{location}
use orderbook.Engine.Books.{Consistent, at, maker, one_ref}

-- The indicator of an order that is matched against a side is that of the orders of the other.
pub taker-maker : (b : Bool) → taker b ≡ maker (not b)
taker-maker true = refl
taker-maker false = refl

two_marks : (b : Bool) → maker b ≢ maker (not b)
two_marks true e = omega (arith, e)
two_marks false e = omega (arith, e)

module _ (k : ℕ) (e : Engine) (c : Consistent k e) (b : Bool) (locate : ℕ) (order : Order)
    (fresh : location k e (ref_of order) ≡ none) (real : ref_of order ≢ no_ref)
    (mark : order.buy_sell_indicator ≡ taker b) (o : Outcome)
    (h : Handled b e.pool
      (e.order_books locate)
      (c.queue b locate)
      (c.queue (not b) locate)
      c.free_list
      order
      cleared
      o) where
  abbrev opp : ℕ → List ℕ
  opp = h.entered.opp_queue

  abbrev own : ℕ → List ℕ
  own = h.entered.own_queue

  -- A filled order rested on the side that the order was matched against.
  pub filled_listed :
      (r : ℕ)
      → has r h.refs ≡ true
      → (r ≢ no_ref) × ((a : ℕ) × (location k e r ≡ some (at locate a)))
  filled_listed r i =
      let (p, a, j, out, is) = h.entered.departs.gone r i in
      let (ok_ref, found, side) = c.listed b locate p a j in
      (λ z. ok_ref (is ∙ z), (a, ap (location k e) (sym is) ∙ found))

  -- What rests afterwards was not filled.
  pub opp_unfilled : (p a : ℕ) → has a (opp p) ≡ true → has (ref_at e.pool.nodes a) h.refs ≡ false
  opp_unfilled p a i = elim (Bool-cases (has (ref_at e.pool.nodes a) h.refs)) [
    | inr out ↦ out
    | inl j ↦
        let (p', a', i', out, is) = h.entered.departs.gone (ref_at e.pool.nodes a) j in
        let same = one_ref c b b locate locate p' p a' a i' (h.entered.departs.subset p a i) is in
        absurd (ground (arith, out p, i, same))
  ]

  pub own_unfilled :
      (p a : ℕ)
      → has a (c.queue (not b) locate p) ≡ true
      → has (ref_at e.pool.nodes a) h.refs ≡ false
  own_unfilled p a i = elim (Bool-cases (has (ref_at e.pool.nodes a) h.refs)) [
    | inr out ↦ out
    | inl j ↦
        let (p', a', i', out, is) = h.entered.departs.gone (ref_at e.pool.nodes a) j in
        let same = one_ref c b (not b) locate locate p' p a' a i' i is in
        let sides =
          subst (λ z. (e.pool.nodes z).order.buy_sell_indicator ≡ maker b) same
            (c.listed b locate p' a' i').2 in
        absurd (two_marks b (sym sides ∙ (c.listed (not b) locate p a i).2))
  ]

  pub known_ref :
      (bo : Bool) (p a : ℕ)
      → has a (c.queue bo locate p) ≡ true
      → ref_at e.pool.nodes a ≢ ref_of order
  known_ref bo p a i z =
      let none_there : some (at locate a) ≡ none =
        sym (c.listed bo locate p a i).1 ∙ ap (location k e) z ∙ fresh in
      ground (arith, none_there)
