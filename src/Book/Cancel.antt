-- ===== src/Book/Cancel.antt =====
-- `removeByIndex` of orderbook.hpp takes one order out of its side, wherever it stands.
use orderbook.Prelude.{
  ℕ, ◌≡◌, refl, sym, ap, subst, ◌∙◌, ◌≢◌, inl, inr, Bool, true, false, List, [], ◌∷◌, ◌++◌, arith,
  has, has-append, All, Bool-cases,
}
use native.Mathlib.Decide.{ℕ_discrete}
use orderbook.Itch.{Order}
use orderbook.Pool.{OrderPool, Nodes, invalid_index, free}
use orderbook.Pool.Chain.{Chain}
use orderbook.Pool.Reuse.{IsFree, IsLive, FreeFrom-frame, free-IsFree}
use orderbook.Ladder.{Level, LadderSide, remove, unlink}
use orderbook.Ladder.Link.{Touches}
use orderbook.Ladder.Unlink.{unlink-Chain}
use orderbook.Ladder.Shape.{level_of}
use orderbook.Ladder.Shrink.{Removes, remove-Removes}
use orderbook.Book.{with_nodes}
use orderbook.Book.Rounds.{Queue, orders_at, orders_at-frame}
use orderbook.Book.Resting.{
  OrderAt, Resting, Resting-frame, Resting-replaced, All-at, one_price, replaced, Queue-Tidy,
  Queue-full,
}
use orderbook.Book.Sides.{Stocked}

pub orders_at-append :
    (ns : Nodes) (xs ys : List ℕ) → orders_at ns (xs ++ ys) ≡ orders_at ns xs ++ orders_at ns ys
orders_at-append ns [] ys = refl
orders_at-append ns (x ∷ xs) ys = ap (λ l. (ns x).order ∷ l) (orders_at-append ns xs ys)

All-without :
    (P : Order → Type 0) (ns : Nodes) (xs ys : List ℕ) (a : ℕ)
    → All P (orders_at ns (xs ++ (a ∷ ys)))
    → All P (orders_at ns (xs ++ ys))
All-without P ns [] ys a h = h.1
All-without P ns (x ∷ xs) ys a (h, rest) = (h, All-without P ns xs ys a rest)

distinct :
    (ns : Nodes) (prev head tail idx : ℕ) (xs ys : List ℕ)
    → Chain ns prev head tail (xs ++ (idx ∷ ys))
    → has idx (xs ++ ys) ≡ false
distinct ns prev head tail idx [] ys (h, valid, back, out, rest) = out
distinct ns prev head tail idx (x ∷ xs) ys (h, valid, back, out, rest) =
    ground (arith, distinct ns x (ns x).next tail idx xs ys rest, has-append x xs (idx ∷ ys))

-- `pool'` and `s'` after `idx` was taken out between `xs` and `ys`, and freed.
pub record Taken (b : Bool) (pool pool' : OrderPool) (s' : LadderSide) (q : ℕ → List ℕ)
    (fs : List ℕ) (price idx : ℕ) (xs ys : List ℕ) : Type 0 where
  pub stocked : Stocked pool' b s' (replaced q price (xs ++ ys)) (idx ∷ fs)
  pub orders : (a : ℕ) → (pool'.nodes a).order ≡ (pool.nodes a).order
  pub spares :
      (a : ℕ)
      → IsLive pool fs a
      → a ≢ idx
      → has a (q price) ≡ false
      → (pool'.nodes a ≡ pool.nodes a) × IsLive pool' (idx ∷ fs) a

module _ (b : Bool) (pool : OrderPool) (s : LadderSide) (q : ℕ → List ℕ) (fs : List ℕ)
    (v : Stocked pool b s q fs) (price idx : ℕ) (xs ys : List ℕ)
    (e : q price ≡ xs ++ (idx ∷ ys)) where
  old_queue : Queue pool.nodes (level_of s price) (xs ++ (idx ∷ ys))
  old_queue = subst (Queue pool.nodes (level_of s price)) e (v.resting.chain price)

  abbrev cut : Nodes × Level
  cut = unlink pool.nodes (level_of s price) idx

  cut-Queue : Queue cut.0 cut.1 (xs ++ ys)
  cut-Queue = (unlink-Chain pool.nodes (level_of s price) idx xs ys old_queue).0

  touches : Touches cut.0 pool.nodes idx (xs ++ ys)
  touches = (unlink-Chain pool.nodes (level_of s price) idx xs ys old_queue).1

  pub queued : has idx (q price) ≡ true
  queued = subst (λ l. has idx l ≡ true) (sym e) (ground (arith, has-append idx xs (idx ∷ ys)))

  pub here : OrderAt b price (pool.nodes idx).order
  here = All-at (OrderAt b price) pool.nodes (q price) idx (v.resting.orders price) queued

  full : (level_of s price).head ≢ invalid_index
  full gone = elim (Queue-full pool.nodes (level_of s price) (xs ++ (idx ∷ ys)) old_queue) [
    | inl (_, none_there) ↦ absurd (ground (arith, queued, e, none_there))
    | inr (there, _) ↦ there gone
  ]

  removed : Removes pool.nodes s price idx (remove pool.nodes s price idx)
  removed =
      remove-Removes pool.nodes s price idx v.resting.shape here.3 full
        (Queue-Tidy cut.0 cut.1 (xs ++ ys) cut-Queue)

  abbrev pub pool' : OrderPool
  pool' = free (with_nodes pool (remove pool.nodes s price idx).0) idx

  abbrev pub side' : LadderSide
  side' = (remove pool.nodes s price idx).1

  elsewhere : (p a : ℕ) → p ≢ price → has a (q p) ≡ true → has a (q price) ≡ false
  elsewhere p a ne i = elim (Bool-cases (has a (q price))) [
    | inl j ↦ absurd (ne (one_price pool.nodes b b s s q q p price a v.resting v.resting i j).0)
    | inr out ↦ out
  ]

  -- The nodes that are not in the queue are left alone.
  cut_frame : (a : ℕ) → has a (q price) ≡ false → cut.0 a ≡ pool.nodes a
  cut_frame a out =
      let out' : has a (xs ++ (idx ∷ ys)) ≡ false = subst (λ l. has a l ≡ false) e out in
      touches.frame a (ground (arith, has-append a xs (idx ∷ ys)))
        (ground (arith, has-append a xs (idx ∷ ys), has-append a xs ys))

  cut_orders : (zs : List ℕ) → orders_at cut.0 zs ≡ orders_at pool.nodes zs
  cut_orders zs = orders_at-frame cut.0 pool.nodes zs (λ a i. touches.orders a)

  cut-Resting : Resting cut.0 b side' (replaced q price (xs ++ ys))
  cut-Resting =
      Resting-replaced cut.0 pool.nodes b s side' q price cut.1 (xs ++ ys) v.resting removed.1
        cut-Queue
        (subst (All (OrderAt b price)) (sym (cut_orders (xs ++ ys))) (
          All-without (OrderAt b price) pool.nodes xs ys idx (
            subst (λ l. All (OrderAt b price) (orders_at pool.nodes l)) e
              (v.resting.orders price))))
        (λ p a ne i. cut_frame a (elsewhere p a ne i))

  -- The freed node is in no queue.
  out_of_queue : (p a : ℕ) → has a (replaced q price (xs ++ ys) p) ≡ true → a ≢ idx
  out_of_queue p a i same = elim (ℕ_discrete price p) [
    | yes at ↦ absurd (
        ground (
          arith,
          distinct pool.nodes invalid_index (level_of s price).head (level_of s price).tail idx xs
              ys old_queue,
        ))
    | no ne ↦ absurd (ground (arith, elsewhere p a (λ z. ne (sym z)), queued))
  ]

  free_frame : (a : ℕ) → a ≢ idx → pool'.nodes a ≡ cut.0 a
  unfolding free
  free_frame a ne = ground (arith, ap (λ f. f a) removed.0)

  free_orders : (a : ℕ) → (pool'.nodes a).order ≡ (pool.nodes a).order
  unfolding free
  free_orders a =
      let h : ((remove pool.nodes s price idx).0 a).order ≡ (pool.nodes a).order =
        ap (λ f. (f a).order) removed.0 ∙ touches.orders a in
      ground (arith, h)

  was_queued : (p a : ℕ) → has a (replaced q price (xs ++ ys) p) ≡ true → has a (q p) ≡ true
  was_queued p a i = elim (ℕ_discrete price p) [
    | yes at ↦
        subst (λ z. has a (q z) ≡ true) at
          (subst (λ l. has a l ≡ true) (sym e)
            (ground (arith, has-append a xs (idx ∷ ys), has-append a xs ys)))
    | no ne ↦ ground arith
  ]

  freed-IsFree : IsFree pool' (idx ∷ fs)
  freed-IsFree =
      free-IsFree (with_nodes pool (remove pool.nodes s price idx).0) fs idx
        (v.live price idx queued)
        (
          v.free.0,
          FreeFrom-frame pool.nodes (remove pool.nodes s price idx).0 pool.size pool.size
              pool.free_head fs (omega arith)
              (λ a i.
                ap (λ f. (f a).next) removed.0 ∙ ap (λ n. n.next) (cut_frame a (not_free a i)))
              v.free.1,
        )
    where
      not_free : (a : ℕ) → has a fs ≡ true → has a (q price) ≡ false
      not_free a i = elim (Bool-cases (has a (q price))) [
        | inl j ↦ absurd (ground (arith, (v.live price a j).1))
        | inr out ↦ out
      ]

  still-IsLive : (a : ℕ) → a ≢ idx → IsLive pool fs a → IsLive pool' (idx ∷ fs) a
  unfolding free
  still-IsLive a ne live = (live.0, ground (arith, live.1))

  pub remove-Taken : Taken b pool pool' side' q fs price idx xs ys
  remove-Taken = record {
    stocked = record {
      resting =
          Resting-frame pool'.nodes cut.0 b side' (replaced q price (xs ++ ys))
            (λ p a i. free_frame a (out_of_queue p a i)) cut-Resting;
      free = freed-IsFree;
      live = λ p a i. still-IsLive a (out_of_queue p a i) (v.live p a (was_queued p a i));
    };
    orders = free_orders;
    spares = λ a live ne out. (free_frame a ne ∙ cut_frame a out, still-IsLive a ne live);
  }
