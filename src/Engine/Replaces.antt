-- ===== src/Engine/Replaces.antt =====
-- One book of the engine of matching_engine.hpp, the pool and the map change: the other books stay.
use orderbook.Prelude.{
  ℕ, ◌≡◌, sym, ap, subst, ◌∙◌, ◌≢◌, ◌⊎◌, inl, inr, Bool, true, false, List, some, arith, ◌==◌,
  if◌then◌else◌, has, Bool-cases,
}
use native.Mathlib.Decide.{ℕ_discrete}
use orderbook.Pool.{OrderPool}
use orderbook.Pool.Reuse.{IsLive}
use orderbook.HashMap.Valid.{IsValid, view}
use orderbook.Book.{OrderBook, ref_of}
use orderbook.Book.Departs.{ref_at}
use orderbook.Book.Rounds.{orders_at-frame}
use orderbook.Book.Resting.{Resting-frame}
use orderbook.Book.Sides.{Stocked, ladder_at}
use orderbook.Book.Enter.{side_of}
use orderbook.Book.Uncrossed.{Apart}
use orderbook.Engine.{Engine, OrderLocation, OrderMap, no_ref, set_book}
use orderbook.Engine.Orders.{location}
use orderbook.Engine.Books.{Consistent, Queues, RestsAt, at, maker, one_book}

-- The book `locate`, the pool and the map are replaced; the new queues of the book are `after`.
pub record Replaces (k : ℕ) (e : Engine) (c : Consistent k e) (locate : ℕ) (pool : OrderPool)
    (book : OrderBook) (map : OrderMap) (after : Bool → ℕ → List ℕ) (fs : List ℕ) : Type 0 where
  pub valid : IsValid no_ref true k map
  pub sides : (b : Bool) → Stocked pool b (side_of b book) (after b) fs
  pub apart : Apart true (ladder_at pool.nodes (after true)) (ladder_at pool.nodes (after false))
  pub spares :
      (a : ℕ)
      → IsLive e.pool c.free_list a
      → ((b : Bool) (p : ℕ) → has a (c.queue b locate p) ≡ false)
      → (pool.nodes a ≡ e.pool.nodes a) × IsLive pool fs a
  pub listed :
      (b : Bool) (p a : ℕ)
      → has a (after b p) ≡ true
      → (ref_at pool.nodes a ≢ no_ref)
        × (view no_ref true k map (ref_at pool.nodes a) ≡ some (at locate a))
        × ((pool.nodes a).order.buy_sell_indicator ≡ maker b)
  pub elsewhere :
      (ref : ℕ) (loc : OrderLocation)
      → ref ≢ no_ref
      → loc.stock_locate ≢ locate
      → location k e ref ≡ some loc
      → view no_ref true k map ref ≡ some loc
  pub rests :
      (ref : ℕ) (loc : OrderLocation)
      → ref ≢ no_ref
      → view no_ref true k map ref ≡ some loc
      → ((loc.stock_locate ≡ locate)
          × ((b : Bool) × (p : ℕ) × (has loc.pool_idx (after b p) ≡ true)
              × (ref_at pool.nodes loc.pool_idx ≡ ref)))
        ⊎ ((loc.stock_locate ≢ locate) × (location k e ref ≡ some loc))

module _ (k : ℕ) (e : Engine) (c : Consistent k e) (locate : ℕ) (pool : OrderPool)
    (book : OrderBook) (map : OrderMap) (after : Bool → ℕ → List ℕ) (fs : List ℕ)
    (r : Replaces k e c locate pool book map after fs) where
  abbrev queue' : Queues
  queue' b i = if i == locate then after b else c.queue b i

  abbrev e' : Engine
  e' = record (set_book e pool locate book) { order_map = map }

  outside :
      (b : Bool) (i p a : ℕ)
      → i ≢ locate
      → has a (c.queue b i p) ≡ true
      → (pool.nodes a ≡ e.pool.nodes a) × IsLive pool fs a
  outside b i p a ne h = r.spares a ((c.sides b i).live p a h) (λ b' p'.
      elim (Bool-cases (has a (c.queue b' locate p'))) [
        | inl h' ↦ absurd (ne (one_book c b b' i locate p p' a h h'))
        | inr out ↦ out
      ])

  other-Stocked :
      (b : Bool) (i : ℕ)
      → i ≢ locate
      → Stocked pool b (side_of b (e.order_books i)) (c.queue b i) fs
  other-Stocked b i ne = record {
    resting =
        Resting-frame pool.nodes e.pool.nodes b (side_of b (e.order_books i)) (c.queue b i)
          (λ p a h. (outside b i p a ne h).0) (c.sides b i).resting;
    free = (r.sides true).free;
    live = λ p a h. (outside b i p a ne h).1;
  }

  other_ladder :
      (b : Bool) (i : ℕ)
      → i ≢ locate
      → (p : ℕ) → ladder_at pool.nodes (c.queue b i) p ≡ ladder_at e.pool.nodes (c.queue b i) p
  other_ladder b i ne p =
      orders_at-frame pool.nodes e.pool.nodes (c.queue b i p)
        (λ a h. ap (λ n. n.order) (outside b i p a ne h).0)

  put :
      (b : Bool) (i : ℕ) (book' : OrderBook) (q : ℕ → List ℕ)
      → e'.order_books i ≡ book'
      → queue' b i ≡ q
      → Stocked pool b (side_of b book') q fs
      → Stocked pool b (side_of b (e'.order_books i)) (queue' b i) fs
  put b i book' q eb eq v =
      subst (λ z. Stocked pool b (side_of b (e'.order_books i)) z fs) (sym eq)
        (subst (λ z. Stocked pool b (side_of b z) q fs) (sym eb) v)

  replaced-Stocked :
      (b : Bool) (i : ℕ) → Stocked pool b (side_of b (e'.order_books i)) (queue' b i) fs
  replaced-Stocked b i = elim (ℕ_discrete i locate) [
    | yes same ↦ put b i book (after b) (ground arith) (ground arith) (r.sides b)
    | no ne ↦
        put b i (e.order_books i) (c.queue b i) (ground arith) (ground arith) (other-Stocked b i ne)
  ]

  other-Apart :
      (i : ℕ)
      → i ≢ locate
      → Apart true (ladder_at pool.nodes (c.queue true i)) (ladder_at pool.nodes (c.queue false i))
  other-Apart i ne p np q nq =
      c.apart i p (λ z. np (other_ladder false i ne p ∙ z)) q
        (λ z. nq (other_ladder true i ne q ∙ z))

  replaced-Apart :
      (i : ℕ)
      → Apart true (ladder_at pool.nodes (queue' true i)) (ladder_at pool.nodes (queue' false i))
  replaced-Apart i = elim (ℕ_discrete i locate) [
    | yes same ↦
        let t : queue' true i ≡ after true = ground arith in
        let f : queue' false i ≡ after false = ground arith in
        subst (λ z. Apart true (ladder_at pool.nodes z) (ladder_at pool.nodes (queue' false i)))
          (sym t)
          (subst (λ z. Apart true (ladder_at pool.nodes (after true)) (ladder_at pool.nodes z))
            (sym f) r.apart)
    | no ne ↦
        let t : queue' true i ≡ c.queue true i = ground arith in
        let f : queue' false i ≡ c.queue false i = ground arith in
        subst (λ z. Apart true (ladder_at pool.nodes z) (ladder_at pool.nodes (queue' false i)))
          (sym t)
          (subst (λ z. Apart true (ladder_at pool.nodes (c.queue true i)) (ladder_at pool.nodes z))
            (sym f) (other-Apart i ne))
  ]

  Listed : Bool → ℕ → ℕ → Type 0
  Listed b i a =
      (ref_at pool.nodes a ≢ no_ref)
      × (view no_ref true k map (ref_at pool.nodes a) ≡ some (at i a))
      × ((pool.nodes a).order.buy_sell_indicator ≡ maker b)

  replaced-Listed : (b : Bool) (i p a : ℕ) → has a (queue' b i p) ≡ true → Listed b i a
  unfolding Listed
  replaced-Listed b i p a h = elim (ℕ_discrete i locate) [
    | yes same ↦
        let (real, found, mark) = r.listed b p a (ground arith) in
        (real, found ∙ ap (λ z. some (at z a)) (sym same), mark)
    | no ne ↦
        let old : has a (c.queue b i p) ≡ true = ground arith in
        let (real, found, mark) = c.listed b i p a old in
        let kept : ref_at pool.nodes a ≡ ref_at e.pool.nodes a =
          ap (λ n. ref_of n.order) (outside b i p a ne old).0 in
        (
          λ z. real (sym kept ∙ z),
          ap (view no_ref true k map) kept
              ∙ r.elsewhere (ref_at e.pool.nodes a) (at i a) real ne found,
          ap (λ n. n.order.buy_sell_indicator) (outside b i p a ne old).0 ∙ mark,
        )
  ]

  replaced_rests :
      (ref : ℕ) (loc : OrderLocation)
      → ref ≢ no_ref
      → view no_ref true k map ref ≡ some loc
      → RestsAt e' queue' ref loc
  replaced_rests ref loc real found = elim (r.rests ref loc real found) [
    | inl (same, (b, p, h, is)) ↦ (b, p, ground (arith, h, same), is)
    | inr (ne, old) ↦
        let (b, p, h, is) = c.rests ref loc real old in
        let kept = ap (λ n. ref_of n.order) (outside b loc.stock_locate p loc.pool_idx ne h).0 in
        (b, p, ground (arith, h, ne), kept ∙ is)
  ]

  -- The other books do not notice.
  pub Replaces-Consistent : Consistent k e'
  unfolding Listed
  Replaces-Consistent = record {
    queue = queue';
    free_list = fs;
    map = r.valid;
    sides = replaced-Stocked;
    apart = replaced-Apart;
    listed = replaced-Listed;
    rests = replaced_rests;
  }
