-- ===== src/Book/Handle.antt =====
-- `handleOrder` of orderbook.cpp on a well-formed book.
use orderbook.Prelude.{
  ℕ, ◌+◌, ◌≤◌, ◌<◌, ◌^◌, ◌≡◌, refl, sym, ap, subst, ◌∙◌, ◌≢◌, ◌⊎◌, inl, inr, Bool, true, false, not,
  List, [], ◌∷◌, ◌++◌, append-nil, arith, ◌==◌, if◌then◌else◌, has, has-append, Bool-cases,
}
use mathlib.Core.Path.{fun_ext}
use orderbook.Itch.{Order}
use orderbook.Pool.{OrderPool, invalid_index}
use orderbook.Pool.Reuse.{IsFree, IsLive}
use orderbook.Ladder.{LadderSide}
use orderbook.Book.{ItchOrderExecuted, Matching, Scratch, start, with_shares}
use orderbook.Book.Departs.{Departs, Departs-frame}
use orderbook.Book.Rounds.{orders_at-frame}
use orderbook.Book.Resting.{OrderAt, Resting, Resting-frame, one_price, replaced}
use orderbook.Book.Priority.{Matched}
use orderbook.Book.Sides.{Stocked, Swept, Spares, ladder_at}
use orderbook.Book.Rest.{Rests}

not_self : (b : Bool) → b ≢ not b
not_self true e = cc
not_self false e = cc

module _ (pool pool' : OrderPool) (b c : Bool) (s t : LadderSide) (q r : ℕ → List ℕ)
    (fs fs' : List ℕ) (u : Stocked pool b s q fs) (w : Resting pool.nodes c t r) (ne : b ≢ c)
    (spares : Spares pool' pool fs' fs r) where
  outside : (p a : ℕ) → has a (q p) ≡ true → (y : ℕ) → has a (r y) ≡ false
  outside p a i y = elim (Bool-cases (has a (r y))) [
    | inl j ↦ absurd (ne (one_price pool.nodes b c s t q r p y a u.resting w i j).1)
    | inr out ↦ out
  ]

  unmoved : (p a : ℕ) → has a (q p) ≡ true → pool'.nodes a ≡ pool.nodes a
  unmoved p a i = (spares a (u.live p a i) (outside p a i)).0

  -- The side that an operation spares stays as it was.
  pub spared-Stocked : IsFree pool' fs' → Stocked pool' b s q fs'
  spared-Stocked free = record {
    resting = Resting-frame pool'.nodes pool.nodes b s q unmoved u.resting;
    free = free;
    live = λ p a i. (spares a (u.live p a i) (outside p a i)).1;
  }

  pub spared-ladder : (p : ℕ) → ladder_at pool'.nodes q p ≡ ladder_at pool.nodes q p
  spared-ladder p =
      orders_at-frame pool'.nodes pool.nodes (q p) (λ a i. ap (λ n. n.order) (unmoved p a i))

-- What is left of an order joins the queue of its price.
abbrev pub remainder : Order → ℕ → List Order
remainder order left = if left == 0 then [] else with_shares order left ∷ []

-- `pool`, `opp` and `own` become `pool'`, `opp'` and `own'` when `order` is matched against `opp`,
-- the side `b`, and rests on `own`, at `resting_idx` if shares are left.
pub record Entered (b : Bool) (pool pool' : OrderPool) (opp opp' own own' : LadderSide)
    (opp_q own_q : ℕ → List ℕ) (fs : List ℕ) (order : Order) (resting_idx : ℕ) (refs : List ℕ)
    (executed : List ItchOrderExecuted) : Type 0 where
  pub opp_queue : ℕ → List ℕ
  pub own_queue : ℕ → List ℕ
  pub free_list : List ℕ
  pub left : ℕ
  pub opp_stocked : Stocked pool' b opp' opp_queue free_list
  pub own_stocked : Stocked pool' (not b) own' own_queue free_list
  pub matched :
      Matched b order.price
        (ladder_at pool.nodes opp_q)
        order.shares
        (ladder_at pool'.nodes opp_queue)
        left
        refs
        executed
  pub rests :
      (p : ℕ)
      → ladder_at pool'.nodes own_queue p ≡ (
          if order.price == p
          then ladder_at pool.nodes own_q p ++ remainder order left
          else ladder_at pool.nodes own_q p)
  pub resting :
      ((left ≡ 0) × (resting_idx ≡ invalid_index))
      ⊎ ((0 < left)
          × (has resting_idx (own_queue order.price) ≡ true)
          × ((pool'.nodes resting_idx).order ≡ with_shares order left))
  pub spares :
      (a : ℕ)
      → IsLive pool fs a
      → ((p : ℕ) → (has a (opp_q p) ≡ false) × (has a (own_q p) ≡ false))
      → (pool'.nodes a ≡ pool.nodes a) × IsLive pool' free_list a
  pub departs : Departs pool.nodes pool'.nodes opp_q opp_queue refs
  pub joins :
      (p a : ℕ)
      → has a (own_queue p) ≡ true
      → (has a (own_q p) ≡ true) ⊎ ((0 < left) × (a ≡ resting_idx))
  pub keeps :
      (p a : ℕ)
      → has a (own_q p) ≡ true
      → (has a (own_queue p) ≡ true) × ((pool'.nodes a).order ≡ (pool.nodes a).order)
  pub size : pool'.size ≤ pool.size + 1

module _ (b : Bool) (pool : OrderPool) (opp own : LadderSide) (opp_q own_q : ℕ → List ℕ)
    (fs : List ℕ) (order : Order) (out : Scratch) (u : Stocked pool b opp opp_q fs)
    (w : Stocked pool (not b) own own_q fs) (room : pool.size < invalid_index)
    (fits : order.price < 2 ^ 32) (side : (order.buy_sell_indicator == b'B') ≡ not b) (m : Matching)
    (s : Swept b (start pool opp order out) m opp_q fs) where
  pub own_matched : Stocked m.pool (not b) own own_q s.free_list
  own_matched =
      spared-Stocked pool m.pool (not b) b own opp own_q opp_q fs s.free_list w u.resting
        (λ e. not_self b (sym e)) s.spares s.stocked.free

  own_ladder : (p : ℕ) → ladder_at m.pool.nodes own_q p ≡ ladder_at pool.nodes own_q p
  own_ladder =
      spared-ladder pool m.pool (not b) b own opp own_q opp_q fs s.free_list w u.resting
        (λ e. not_self b (sym e)) s.spares

  own_order : (p a : ℕ) → has a (own_q p) ≡ true → (m.pool.nodes a).order ≡ (pool.nodes a).order
  own_order p a i =
      ap (λ n. n.order)
        (unmoved pool m.pool (not b) b own opp own_q opp_q fs s.free_list w u.resting
          (λ e. not_self b (sym e)) s.spares p a i)

  both_spare :
      (a : ℕ)
      → IsLive pool fs a
      → ((p : ℕ) → (has a (opp_q p) ≡ false) × (has a (own_q p) ≡ false))
      → (m.pool.nodes a ≡ pool.nodes a) × IsLive m.pool s.free_list a
  both_spare a live outside = s.spares a live (λ p. (outside p).0)

  -- Nothing is left to rest.
  pub filled-Entered :
      m.order.shares ≡ 0
      → Entered b pool m.pool opp m.side own own opp_q own_q fs order invalid_index s.refs
          s.executed
  filled-Entered e = record {
    opp_queue = s.queue;
    own_queue = own_q;
    free_list = s.free_list;
    left = m.order.shares;
    opp_stocked = s.stocked;
    own_stocked = own_matched;
    matched = s.matched;
    rests = λ p. ground (arith, own_ladder p, append-nil (ladder_at pool.nodes own_q p));
    resting = inl (e, refl);
    spares = both_spare;
    departs = s.departs;
    joins = λ p a i. inl i;
    keeps = λ p a i. (i, own_order p a i);
    size = omega (arith, s.size);
  }

  abbrev price_same : m.order.price ≡ order.price
  price_same = ap (λ o. o.price) s.order

  pub fit : 0 < m.order.shares → OrderAt (not b) m.order.price m.order
  fit more = (
    refl,
    ap (λ o. o.buy_sell_indicator == b'B') s.order ∙ side,
    more,
    subst (λ p. p < 2 ^ 32) (sym price_same) fits,
  )

  -- The remainder rests.
  module _ (pool' : OrderPool) (own' : LadderSide) (i : ℕ) (more : 0 < m.order.shares)
      (end : Rests (not b) m.pool pool' own own' own_q s.free_list m.order i) where
    opp_rested : Stocked pool' b m.side s.queue end.free_list
    opp_rested =
        spared-Stocked m.pool pool' b (not b) m.side own s.queue own_q s.free_list end.free_list
          s.stocked own_matched.resting (not_self b) end.spares end.stocked.free

    opp_ladder : ladder_at pool'.nodes s.queue ≡ ladder_at m.pool.nodes s.queue
    opp_ladder = fun_ext (
        spared-ladder m.pool pool' b (not b) m.side own s.queue own_q s.free_list end.free_list
          s.stocked own_matched.resting (not_self b) end.spares)

    pub rests-Entered :
        Entered b pool pool' opp m.side own own' opp_q own_q fs order i s.refs s.executed
    rests-Entered = record {
      opp_queue = s.queue;
      own_queue = replaced own_q m.order.price (own_q m.order.price ++ (i ∷ []));
      free_list = end.free_list;
      left = m.order.shares;
      opp_stocked = opp_rested;
      own_stocked = end.stocked;
      matched =
          subst
            (λ os.
              Matched b order.price (ladder_at pool.nodes opp_q) order.shares os m.order.shares
                s.refs s.executed)
            (sym opp_ladder) s.matched;
      rests = λ p. ground (arith, end.orders p, own_ladder p, price_same, s.order);
      resting = inr (more, queued (own_q m.order.price), end.stored ∙ s.order);
      spares = λ a live outside.
          let (same, live') = both_spare a live outside in
          let (same', live'') = end.spares a live' (λ p. (outside p).1) in (same' ∙ same, live'');
      departs =
          Departs-frame pool.nodes m.pool.nodes pool'.nodes opp_q s.queue s.refs s.departs
            opp_order;
      joins = λ p a i. joined p a i;
      keeps = λ p a i. (kept_in p a i, end.kept p a i ∙ own_order p a i);
      size = omega (arith, end.size, s.size);
    }
      where
        opp_order :
            (p a : ℕ) → has a (s.queue p) ≡ true → (pool'.nodes a).order ≡ (m.pool.nodes a).order
        opp_order p a i =
            ap (λ n. n.order)
              (unmoved m.pool pool' b (not b) m.side own s.queue own_q s.free_list end.free_list
                s.stocked own_matched.resting (not_self b) end.spares p a i)

        joined :
            (p a : ℕ)
            → has a (replaced own_q m.order.price (own_q m.order.price ++ (i ∷ [])) p) ≡ true
            → (has a (own_q p) ≡ true) ⊎ ((0 < m.order.shares) × (a ≡ i))
        joined p a j = ground (arith, has-append a (own_q m.order.price) (i ∷ []))

        kept_in :
            (p a : ℕ)
            → has a (own_q p) ≡ true
            → has a (replaced own_q m.order.price (own_q m.order.price ++ (i ∷ [])) p) ≡ true
        kept_in p a j = ground (arith, has-append a (own_q m.order.price) (i ∷ []))

        queued :
            (xs : List ℕ)
            → has i (replaced own_q m.order.price (own_q m.order.price ++ (i ∷ [])) order.price)
              ≡ true
        queued xs = ground (arith, price_same, has-append i (own_q m.order.price) (i ∷ []))
