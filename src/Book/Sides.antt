-- ===== src/Book/Sides.antt =====
-- The outer loop of the handlers of orderbook.cpp matches with price-time priority.
use orderbook.Prelude.{
  ℕ, ◌≡◌, refl, sym, ap, subst, ◌≢◌, ◌⊎◌, inl, inr, Bool, true, false, List, [], ◌++◌, none, some,
  arith, ◌==◌, if◌then◌else◌, has, All, append-nil, Bool-cases,
}
use mathlib.Core.Path.{fun_ext}
use native.Mathlib.Decide.{ℕ_discrete}
use orderbook.Pool.{OrderPool, Nodes, invalid_index}
use orderbook.Pool.Reuse.{IsFree, IsLive}
use orderbook.Ladder.{LadderSide, LevelRef, best_level}
use orderbook.Ladder.Top.{NoWorse}
use orderbook.Ladder.Shape.{level_of}
use orderbook.Ladder.Drain.{Finds, best_level-Finds, best_level-null, drained}
use orderbook.Book.{
  ItchOrderExecuted, Matching, Sweep, enter, leave, too_dear, too_cheap, with_shares,
}
use orderbook.Book.Departs.{Departs, Departs-none, Departs-replaced}
use orderbook.Book.Fill.{fill}
use orderbook.Book.Rounds.{Queue, orders_at, orders_at-frame, Filled}
use orderbook.Book.Frees.{Frees}
use orderbook.Book.Resting.{
  OrderAt, Resting, fill-OrderAt, one_price, replaced, Resting-replaced, Queue-Tidy, Queue-full,
}
use orderbook.Book.Priority.{Ladder, Exhausted, Matched, stop}

-- A side with the free list of the pool: each node that rests is in use.
pub record Stocked (pool : OrderPool) (b : Bool) (s : LadderSide) (q : ℕ → List ℕ) (fs : List ℕ)
    : Type 0 where
  pub resting : Resting pool.nodes b s q
  pub free : IsFree pool fs
  pub live : (p a : ℕ) → has a (q p) ≡ true → IsLive pool fs a

abbrev pub ladder_at : Nodes → (ℕ → List ℕ) → Ladder
ladder_at ns q p = orders_at ns (q p)

-- The test that ends the matching against a side.
abbrev pub stops_of : Bool → ℕ → ℕ → Bool
stops_of true = too_cheap
stops_of false = too_dear

-- What the other nodes keep: those in use that do not rest on the side.
abbrev pub Spares : OrderPool → OrderPool → List ℕ → List ℕ → (ℕ → List ℕ) → Type 0
Spares pool' pool fs' fs q =
    (a : ℕ)
    → IsLive pool fs a
    → ((p : ℕ) → has a (q p) ≡ false)
    → (pool'.nodes a ≡ pool.nodes a) × IsLive pool' fs' a

-- The state `m'` that the outer loop makes of `m`.
pub record Swept (b : Bool) (m m' : Matching) (q : ℕ → List ℕ) (fs : List ℕ) : Type 0 where
  pub queue : ℕ → List ℕ
  pub free_list : List ℕ
  pub refs : List ℕ
  pub executed : List ItchOrderExecuted
  pub stocked : Stocked m'.pool b m'.side queue free_list
  pub size : m'.pool.size ≡ m.pool.size
  pub spares : Spares m'.pool m.pool free_list fs q
  pub matched :
      Matched b m.order.price
        (ladder_at m.pool.nodes q)
        m.order.shares
        (ladder_at m'.pool.nodes queue)
        m'.order.shares
        refs
        executed
  pub departs : Departs m.pool.nodes m'.pool.nodes q queue refs
  pub order : m'.order ≡ with_shares m.order m'.order.shares
  pub removed_refs : m'.removed_refs ≡ m.removed_refs ++ refs
  pub executed_orders : m'.executed_orders ≡ m.executed_orders ++ executed

stops-not : (b : Bool) (limit price : ℕ) → stops_of b limit price ≡ true → ¬ NoWorse b price limit
stops-not true limit price h w = ground arith
stops-not false limit price h w = ground arith

pub stops-within :
    (b : Bool) (limit price : ℕ) → stops_of b limit price ≡ false → NoWorse b price limit
stops-within true limit price h = ground arith
stops-within false limit price h = ground arith

NoWorse-trans : (b : Bool) (x y z : ℕ) → NoWorse b x y → NoWorse b y z → NoWorse b x z
NoWorse-trans true x y z p r = omega arith
NoWorse-trans false x y z p r = omega arith

module _ (b : Bool) (m : Matching) (q : ℕ → List ℕ) (fs : List ℕ)
    (v : Stocked m.pool b m.side q fs) where
  pub Swept-stop :
      (m.order.shares ≡ 0) ⊎ Exhausted b m.order.price (ladder_at m.pool.nodes q) → Swept b m m q fs
  Swept-stop h = record {
    queue = q;
    free_list = fs;
    refs = [];
    executed = [];
    stocked = v;
    size = refl;
    spares = λ a live out. (refl, live);
    matched = stop h;
    departs = Departs-none m.pool.nodes q;
    order = refl;
    removed_refs = sym (append-nil _);
    executed_orders = sym (append-nil _);
  }

  -- Orders rest at a price exactly if its level has a head.
  no_orders : (p : ℕ) → (level_of m.side p).head ≡ invalid_index → orders_at m.pool.nodes (q p) ≡ []
  no_orders p e = elim (Queue-full m.pool.nodes (level_of m.side p) (q p) (v.resting.chain p)) [
    | inl (_, is) ↦ ap (orders_at m.pool.nodes) is
    | inr (full, ne) ↦ absurd (full e)
  ]

  full_level :
      (p : ℕ) → orders_at m.pool.nodes (q p) ≢ [] → (level_of m.side p).head ≢ invalid_index
  full_level p ne e = ne (no_orders p e)

  pub null-Exhausted :
      best_level m.side ≡ none → Exhausted b m.order.price (ladder_at m.pool.nodes q)
  null-Exhausted e p ne w = ne (no_orders p (best_level-null m.side v.resting.shape e p))

  module _ (price : ℕ) (ref : LevelRef) (e : best_level m.side ≡ some (price, ref)) where
    abbrev pub finds : Finds m.side price ref
    finds = best_level-Finds m.side v.resting.shape price ref e

    pub best_price : (p : ℕ) → orders_at m.pool.nodes (q p) ≢ [] → NoWorse b price p
    best_price p ne = subst (λ c. NoWorse c price p) v.resting.bid (finds.best p (full_level p ne))

    pub stop-Exhausted :
        stops_of b m.order.price price ≡ true → Exhausted b m.order.price (ladder_at m.pool.nodes q)
    stop-Exhausted h p ne w =
        stops-not b m.order.price price h
          (NoWorse-trans b price p m.order.price (best_price p ne) w)

pub leave-drained :
    (s : LadderSide) (price : ℕ) (ref : LevelRef) (r : Sweep)
    → leave s price ref r ≡ record {
      order = r.order;
      pool = r.pool;
      side = drained s price ref r.level;
      removed_refs = r.removed_refs;
      executed_orders = r.executed_orders;
    }
unfolding leave
leave-drained s price ref r = refl

module _ (b : Bool) (m : Matching) (q : ℕ → List ℕ) (fs : List ℕ) (v : Stocked m.pool b m.side q fs)
    (price : ℕ) (ref : LevelRef) (e : best_level m.side ≡ some (price, ref)) where
  pub enter-Queue : Queue m.pool.nodes (enter m ref).level (q price)
  enter-Queue =
      subst (λ l. Queue m.pool.nodes l (q price)) (sym (finds b m q fs v price ref e).level)
        (v.resting.chain price)

  module _ (r : Sweep) (ys : List ℕ) (f : Filled (enter m ref) r (q price) ys)
      (g : Frees (enter m ref) r (q price) ys) where
    abbrev pub after_level : Matching
    after_level = record {
      order = r.order;
      pool = r.pool;
      side = drained m.side price ref r.level;
      removed_refs = r.removed_refs;
      executed_orders = r.executed_orders;
    }

    -- A node elsewhere is left alone.
    elsewhere : (p a : ℕ) → p ≢ price → has a (q p) ≡ true → has a (q price) ≡ false
    elsewhere p a ne i = elim (Bool-cases (has a (q price))) [
      | inl j ↦
          absurd
            (ne (one_price m.pool.nodes b b m.side m.side q q p price a v.resting v.resting i j).0)
      | inr out ↦ out
    ]

    after_level-Resting : Resting r.pool.nodes b after_level.side (replaced q price ys)
    after_level-Resting =
        Resting-replaced r.pool.nodes m.pool.nodes b m.side after_level.side q price r.level ys
          v.resting
          ((finds b m q fs v price ref e).drained r.level
            (Queue-Tidy r.pool.nodes r.level ys f.queue))
          f.queue
          (subst (All (OrderAt b price)) (sym f.orders) (
            fill-OrderAt b price m.order.shares (orders_at m.pool.nodes (q price))
              (v.resting.orders price)))
          (λ p a ne i. f.frame a (elsewhere p a ne i))

    abbrev pub freed :
        (fs' : List ℕ) × IsFree r.pool fs'
        × (r.pool.size ≡ m.pool.size)
        × ((a : ℕ)
            → has a fs' ≡ true
            → (has a fs ≡ true) ⊎ ((has a (q price) ≡ true) × (has a ys ≡ false)))
    freed = g fs v.free (λ a i. v.live price a i)

    still-IsLive :
        (a : ℕ)
        → IsLive m.pool fs a
        → (has a (q price) ≡ false) ⊎ (has a ys ≡ true)
        → IsLive r.pool freed.0 a
    still-IsLive a live stays = (
      omega (arith, live.0, freed.2),
      elim (Bool-cases (has a freed.0)) [
        | inl i ↦ absurd (ground (arith, freed.3 a i))
        | inr out ↦ out
      ],
    )

    pub after_level-Stocked : Stocked r.pool b after_level.side (replaced q price ys) freed.0
    after_level-Stocked = record {
      resting = after_level-Resting;
      free = freed.1;
      live = λ p a i. elim (ℕ_discrete price p) [
        | yes same ↦
            let j : has a ys ≡ true = ground arith in
            still-IsLive a (v.live price a (f.subset a j)) (inr j)
        | no ne ↦
            let j : has a (q p) ≡ true = ground arith in
            still-IsLive a (v.live p a j) (inl (elsewhere p a (λ z. ne (sym z)) j))
      ];
    }

    pub after_level-Departs :
        Departs m.pool.nodes r.pool.nodes q
          (replaced q price ys)
          (fill m.order.shares (orders_at m.pool.nodes (q price))).refs
    after_level-Departs =
        Departs-replaced m.pool.nodes r.pool.nodes q price ys _ f.departs elsewhere f.frame

    pub after_level-Spares : Spares r.pool m.pool freed.0 fs q
    after_level-Spares a live out = (f.frame a (out price), still-IsLive a live (inl (out price)))

    pub after_level-ladder : ladder_at r.pool.nodes (replaced q price ys) ≡ (λ p.
        if price == p
        then (fill m.order.shares (orders_at m.pool.nodes (q price))).orders
        else orders_at m.pool.nodes (q p))
    after_level-ladder = fun_ext (λ p. elim (ℕ_discrete price p) [
      | yes same ↦ ground (arith, f.orders)
      | no ne ↦ ground (
        arith,
        orders_at-frame r.pool.nodes m.pool.nodes (q p) (λ (a : ℕ) (i : has a (q p) ≡ true).
            ap (λ n. n.order) (f.frame a (elsewhere p a (λ z. ne (sym z)) i))),
      )
    ])
