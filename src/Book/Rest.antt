-- ===== src/Book/Rest.antt =====
-- The remainder of an order rests on its own side: the end of the handlers of orderbook.cpp.
use orderbook.Prelude.{
  ℕ, ◌+◌, ◌≤◌, ◌<◌, ◌≡◌, refl, sym, ap, subst, ◌∙◌, ◌≢◌, inl, inr, Bool, true, false, List, [], ◌∷◌,
  ◌++◌, arith, ◌==◌, if◌then◌else◌, has, has-append, All, Bool-cases,
}
use native.Mathlib.Decide.{ℕ_discrete}
use orderbook.Itch.{Order}
use orderbook.Pool.{OrderPool, Nodes, invalid_index, allocate, take_slot}
use orderbook.Pool.Reuse.{IsFree, IsLive, Allocates, allocate-Allocates, FreeFrom-frame, rest_of}
use orderbook.Ladder.{Level, LadderSide, add, link_at_tail}
use orderbook.Ladder.Link.{Touches, link_at_tail-Chain}
use orderbook.Ladder.Shape.{level_of}
use orderbook.Ladder.Grow.{Adds, add-Adds}
use orderbook.Book.{with_nodes, rest_order}
use orderbook.Book.Rounds.{Queue, orders_at, orders_at-frame}
use orderbook.Book.Resting.{OrderAt, Resting, Resting-frame, Resting-replaced, one_price, replaced}
use orderbook.Book.Sides.{Stocked, Spares, ladder_at}

orders_at-append :
    (ns : Nodes) (xs : List ℕ) (a : ℕ)
    → orders_at ns (xs ++ (a ∷ [])) ≡ orders_at ns xs ++ ((ns a).order ∷ [])
orders_at-append ns [] a = refl
orders_at-append ns (x ∷ xs) a = ap (λ l. (ns x).order ∷ l) (orders_at-append ns xs a)

All-append_one :
    (P : Order → Type 0) (os : List Order) (o : Order) → All P os → P o → All P (os ++ (o ∷ []))
All-append_one P [] o h p = (p, tt)
All-append_one P (x ∷ os) o (hx, h) p = (hx, All-append_one P os o h p)

-- A queue that ends with a node has a head.
ends-full :
    (ns : Nodes) (lvl : Level) (xs : List ℕ) (a : ℕ)
    → Queue ns lvl (xs ++ (a ∷ []))
    → lvl.head ≢ invalid_index
ends-full ns lvl [] a c = ground arith
ends-full ns lvl (x ∷ xs) a (h, valid, back, out, rest) = ground arith

-- What the pool, the side and its queues are after `idx` was linked at the end of a price.
pub record Rests (b : Bool) (pool pool' : OrderPool) (own own' : LadderSide) (q : ℕ → List ℕ)
    (fs : List ℕ) (order : Order) (idx : ℕ) : Type 0 where
  pub free_list : List ℕ
  pub stocked :
      Stocked pool' b own' (replaced q order.price (q order.price ++ (idx ∷ []))) free_list
  pub stored : (pool'.nodes idx).order ≡ order
  pub live : IsLive pool' free_list idx
  pub orders :
      (p : ℕ)
      → ladder_at pool'.nodes (replaced q order.price (q order.price ++ (idx ∷ []))) p ≡ (
          if order.price == p
          then ladder_at pool.nodes q p ++ (order ∷ [])
          else ladder_at pool.nodes q p)
  pub spares : Spares pool' pool free_list fs q
  pub kept : (p a : ℕ) → has a (q p) ≡ true → (pool'.nodes a).order ≡ (pool.nodes a).order
  pub size : pool'.size ≤ pool.size + 1

module _ (b : Bool) (pool : OrderPool) (own : LadderSide) (q : ℕ → List ℕ) (fs : List ℕ)
    (order : Order) (v : Stocked pool b own q fs) (room : pool.size < invalid_index)
    (fit : OrderAt b order.price order) where
  abbrev taken : Allocates pool fs order
  taken = allocate-Allocates pool fs order room v.free

  abbrev pool1 : OrderPool
  pool1 = (allocate pool order).1

  abbrev pub idx : ℕ
  idx = (allocate pool order).0

  other_node : (p a : ℕ) → has a (q p) ≡ true → a ≢ idx
  other_node p a i = taken.unused a (v.live p a i)

  allocated-Resting : Resting pool1.nodes b own q
  allocated-Resting =
      Resting-frame pool1.nodes pool.nodes b own q (λ p a i. taken.frame a (other_node p a i))
        v.resting

  not_queued : (p : ℕ) → has idx (q p) ≡ false
  not_queued p = elim (Bool-cases (has idx (q p))) [
    | inl i ↦ absurd (other_node p idx i refl)
    | inr out ↦ out
  ]

  real : idx ≢ invalid_index
  real e = omega (arith, taken.live.0, taken.free_after.0)

  abbrev linked : Nodes × Level
  linked = link_at_tail pool1.nodes (level_of own order.price) idx

  linked-Queue : Queue linked.0 linked.1 (q order.price ++ (idx ∷ []))
  linked-Queue =
      (link_at_tail-Chain pool1.nodes (level_of own order.price) idx (q order.price) real
        (not_queued order.price) (allocated-Resting.chain order.price)).0

  touches : Touches linked.0 pool1.nodes idx (q order.price)
  touches =
      (link_at_tail-Chain pool1.nodes (level_of own order.price) idx (q order.price) real
        (not_queued order.price) (allocated-Resting.chain order.price)).1

  added : Adds pool1.nodes own order.price idx (add pool1.nodes own order.price idx)
  added =
      add-Adds pool1.nodes own order.price idx v.resting.shape fit.3
        (ends-full linked.0 linked.1 (q order.price) idx linked-Queue)

  same_orders : (xs : List ℕ) → orders_at linked.0 xs ≡ orders_at pool1.nodes xs
  same_orders xs = orders_at-frame linked.0 pool1.nodes xs (λ a i. touches.orders a)

  new_order : (linked.0 idx).order ≡ order
  new_order = touches.orders idx ∙ ap (λ n. n.order) taken.stored

  old_orders : (p : ℕ) → orders_at linked.0 (q p) ≡ orders_at pool.nodes (q p)
  old_orders p =
      same_orders (q p)
      ∙ orders_at-frame pool1.nodes pool.nodes (q p)
          (λ a i. ap (λ n. n.order) (taken.frame a (other_node p a i)))

  linked_orders :
      orders_at linked.0 (q order.price ++ (idx ∷ []))
      ≡ orders_at pool.nodes (q order.price) ++ (order ∷ [])
  linked_orders =
      orders_at-append linked.0 (q order.price) idx
      ∙ ground (arith, old_orders order.price, new_order)

  abbrev pub pool2 : OrderPool
  pool2 = with_nodes pool1 linked.0

  abbrev pub own2 : LadderSide
  own2 = (add pool1.nodes own order.price idx).1

  -- Nodes elsewhere are left alone.
  link_frame : (a : ℕ) → a ≢ idx → has a (q order.price) ≡ false → linked.0 a ≡ pool.nodes a
  link_frame a ne out = touches.frame a ne out ∙ taken.frame a ne

  elsewhere : (p a : ℕ) → p ≢ order.price → has a (q p) ≡ true → has a (q order.price) ≡ false
  elsewhere p a ne i = elim (Bool-cases (has a (q order.price))) [
    | inl j ↦
        absurd (ne (one_price pool.nodes b b own own q q p order.price a v.resting v.resting i j).0)
    | inr out ↦ out
  ]

  linked-Resting : Resting linked.0 b own2 (replaced q order.price (q order.price ++ (idx ∷ [])))
  linked-Resting =
      Resting-replaced linked.0 pool.nodes b own own2 q order.price linked.1
        (q order.price ++ (idx ∷ [])) v.resting added.1 linked-Queue
        (subst (All (OrderAt b order.price)) (sym linked_orders) (
          All-append_one (OrderAt b order.price) (orders_at pool.nodes (q order.price)) order
            (v.resting.orders order.price) fit))
        (λ p a ne i. link_frame a (other_node p a i) (elsewhere p a ne i))

  -- A free node is none of the queue.
  not_free : (a : ℕ) → has a (rest_of fs) ≡ true → has a (q order.price) ≡ false
  not_free a i = elim (Bool-cases (has a (q order.price))) [
    | inl j ↦ absurd (ground (arith, taken.still_live a (v.live order.price a j)))
    | inr out ↦ out
  ]

  linked-IsFree : IsFree pool2 (rest_of fs)
  linked-IsFree = (
    taken.free_after.0,
    FreeFrom-frame pool1.nodes linked.0 pool1.size pool1.size pool1.free_head (rest_of fs)
        (omega arith)
        (λ a i. ap (λ n. n.next) (touches.frame a (λ e. ground (arith, taken.live)) (not_free a i)))
        taken.free_after.1,
  )

  linked-IsLive :
      (p a : ℕ)
      → has a (replaced q order.price (q order.price ++ (idx ∷ [])) p) ≡ true
      → IsLive pool2 (rest_of fs) a
  linked-IsLive p a i = elim (ℕ_discrete a idx) [
    | yes e ↦ subst (IsLive pool2 (rest_of fs)) (sym e) taken.live
    | no ne ↦
        taken.still_live a (v.live p a (ground (arith, has-append a (q order.price) (idx ∷ []))))
  ]

  one_more : pool1.size ≤ pool.size + 1
  unfolding allocate take_slot
  one_more = ground arith

  pub linked-Rests : Rests b pool pool2 own own2 q fs order idx
  linked-Rests = record {
    free_list = rest_of fs;
    stocked = record { resting = linked-Resting; free = linked-IsFree; live = linked-IsLive };
    stored = new_order;
    live = taken.live;
    orders = λ p. elim (ℕ_discrete order.price p) [
      | yes e ↦
          subst
            (λ z. ladder_at linked.0 (replaced q order.price (q order.price ++ (idx ∷ []))) z ≡ (
              if order.price == z
              then ladder_at pool.nodes q z ++ (order ∷ [])
              else ladder_at pool.nodes q z))
            e (ground (arith, linked_orders))
      | no ne ↦ ground (arith, old_orders p)
    ];
    spares = λ a live out.
        (link_frame a (taken.unused a live) (out order.price), taken.still_live a live);
    kept = λ p a i. touches.orders a ∙ ap (λ n. n.order) (taken.frame a (other_node p a i));
    size = one_more;
  }

  pub rest_order-linked : rest_order pool own order ≡ (pool2, own2, idx)
  unfolding rest_order
  rest_order-linked = ground (arith, fit.2, added.0)

pub rest_order-none :
    (pool : OrderPool) (own : LadderSide) (order : Order)
    → order.shares ≡ 0
    → rest_order pool own order ≡ (pool, own, invalid_index)
unfolding rest_order
rest_order-none pool own order e = ground arith
