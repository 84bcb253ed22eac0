-- ===== src/Book/Loop.antt =====
-- The outer loop of the handlers of orderbook.cpp, round after round.
use orderbook.Prelude.{
  ℕ, zero, suc, ◌<◌, ◌≡◌, refl, sym, ap, subst, ◌∙◌, ◌≢◌, inl, inr, Bool, List, [], ◌∷◌, ◌++◌, some,
  arith, append_assoc, Option-cases, Bool-cases,
}
use native.Mathlib.Decide.{ℕ_discrete}
use orderbook.Run.{ok}
use orderbook.Ladder.{LevelRef, best_level}
use orderbook.Ladder.Top.{NoWorse}
use orderbook.Ladder.Shape.{level_of}
use orderbook.Book.{ItchOrderExecuted, Matching, Sweep, enter, match_side, with_shares}
use orderbook.Book.Departs.{Departs-then}
use orderbook.Book.Fill.{fill}
use orderbook.Book.Rounds.{orders_at, Filled}
use orderbook.Book.Frees.{Frees}
use orderbook.Book.Queue.{match_level-Sweeps}
use orderbook.Book.Resting.{All-Positive, replaced, Queue-full}
use orderbook.Book.Priority.{Ladder, Matched, fill_best, left-lt}
use orderbook.Book.Sides.{
  Stocked, Swept, stops_of, ladder_at, Swept-stop, null-Exhausted, stop-Exhausted, stops-within,
  best_price, finds, leave-drained, enter-Queue, after_level, after_level-Stocked,
  after_level-Spares, after_level-Departs, after_level-ladder, freed,
}

Matched-eq :
    (b : Bool) (limit limit' : ℕ) (os os' t : Ladder) (n n' k : ℕ) (refs : List ℕ)
    (es : List ItchOrderExecuted)
    → limit' ≡ limit
    → os' ≡ os
    → n' ≡ n
    → Matched b limit' os' n' t k refs es
    → Matched b limit os n t k refs es
Matched-eq b limit limit' os os' t n n' k refs es el eo en h =
    subst (λ l. Matched b l os n t k refs es) el
      (subst (λ o. Matched b limit' o n t k refs es) eo
        (subst (λ z. Matched b limit' os' z t k refs es) en h))

module _ (b : Bool) (m : Matching) (q : ℕ → List ℕ) (fs : List ℕ) (v : Stocked m.pool b m.side q fs)
    (price : ℕ) (ref : LevelRef) (e : best_level m.side ≡ some (price, ref))
    (more : 0 < m.order.shares) (within : NoWorse b price m.order.price) where
  has_orders : orders_at m.pool.nodes (q price) ≢ []
  has_orders none_there =
      elim (Queue-full m.pool.nodes (level_of m.side price) (q price) (v.resting.chain price)) [
        | inl (gone, _) ↦ (finds b m q fs v price ref e).full gone
        | inr (full, ne) ↦ ne (nothing (q price) none_there)
      ]
    where
      nothing : (xs : List ℕ) → orders_at m.pool.nodes xs ≡ [] → xs ≡ []
      nothing [] e = refl
      nothing (x ∷ xs) e = absurd (ground arith)

  module _ (r : Sweep) (ys : List ℕ) (f : Filled (enter m ref) r (q price) ys)
      (g : Frees (enter m ref) r (q price) ys) where
    abbrev next : Matching
    next = after_level b m q fs v price ref e r ys f g

    abbrev next_free : List ℕ
    next_free = (freed b m q fs v price ref e r ys f g).0

    next-shares : next.order.shares ≡ (fill m.order.shares (orders_at m.pool.nodes (q price))).left
    next-shares = ap (λ o. o.shares) f.order

    pub next-lt : next.order.shares < m.order.shares
    next-lt =
        subst (λ n. n < m.order.shares) (sym next-shares)
          (left-lt m.order.shares (orders_at m.pool.nodes (q price))
            (All-Positive b price (orders_at m.pool.nodes (q price)) (v.resting.orders price))
            has_orders more)

    pub Swept-next :
        (m' : Matching) → Swept b next m' (replaced q price ys) next_free → Swept b m m' q fs
    Swept-next m' s = record {
      queue = s.queue;
      free_list = s.free_list;
      refs = (fill m.order.shares (orders_at m.pool.nodes (q price))).refs ++ s.refs;
      executed = (fill m.order.shares (orders_at m.pool.nodes (q price))).executed ++ s.executed;
      stocked = s.stocked;
      size = s.size ∙ (freed b m q fs v price ref e r ys f g).2;
      spares = λ a live out.
          let (same, live') = after_level-Spares b m q fs v price ref e r ys f g a live out in
          let (same', live'') =
            s.spares a live' (λ p. ground (arith, out p, out price, f.subset a)) in
          (same' ∙ same, live'');
      matched = fill_best price more has_orders within (best_price b m q fs v price ref e) (
          Matched-eq b m.order.price next.order.price _ _ (ladder_at m'.pool.nodes s.queue) _ _
            m'.order.shares s.refs s.executed (ap (λ o. o.price) f.order)
            (after_level-ladder b m q fs v price ref e r ys f g) next-shares s.matched);
      departs =
          Departs-then m.pool.nodes r.pool.nodes m'.pool.nodes q (replaced q price ys) s.queue _
            s.refs (after_level-Departs b m q fs v price ref e r ys f g) s.departs;
      order = s.order ∙ ap (λ o. with_shares o m'.order.shares) f.order;
      removed_refs =
          s.removed_refs ∙ ap (λ l. l ++ s.refs) f.refs ∙ append_assoc m.removed_refs _ s.refs;
      executed_orders =
          s.executed_orders
          ∙ ap (λ l. l ++ s.executed) f.executed
          ∙ append_assoc m.executed_orders _ s.executed;
    }

-- If a side and the free list are well formed and the fuel exceeds the shares of the order, the
-- outer loop returns, for bids and for asks. It matches with price-time priority: it ends when no
-- shares are left or no price with orders is within the limit, and each level it visits is the
-- best one and is filled oldest order first. The side and the free list are well formed
-- afterwards, the nodes in use outside the side are unchanged and still in use, and the nodes
-- that leave the side are those with the references appended.
pub match_side-Swept :
    (b : Bool) (fuel : ℕ) (m : Matching) (q : ℕ → List ℕ) (fs : List ℕ)
    → Stocked m.pool b m.side q fs
    → m.order.shares < fuel
    → (m' : Matching) × (match_side (stops_of b) fuel m ≡ ok m') × Swept b m m' q fs
unfolding match_side
match_side-Swept b zero m q fs v enough = absurd (omega arith)
match_side-Swept b (suc fuel) m q fs v enough = elim (ℕ_discrete m.order.shares 0) [
  | yes done ↦ (m, ground arith, Swept-stop b m q fs v (inl done))
  | no more ↦ elim (Option-cases (best_level m.side)) [
    | inl e ↦ (m, ground (arith, e), Swept-stop b m q fs v (inr (null-Exhausted b m q fs v e)))
    | inr ((price, ref), e) ↦ elim (Bool-cases (stops_of b m.order.price price)) [
      | inl h ↦ (
        m,
        ground (arith, e, h),
        Swept-stop b m q fs v (inr (stop-Exhausted b m q fs v price ref e h)),
      )
      | inr h ↦
          let within = stops-within b m.order.price price h in
          let pos =
            All-Positive b price (orders_at m.pool.nodes (q price)) (v.resting.orders price) in
          let (r, ys, run, f, g) =
            match_level-Sweeps (suc m.order.shares) (enter m ref) (q price)
              (enter-Queue b m q fs v price ref e) pos (omega arith) in
          let (m', run', s) =
            match_side-Swept b fuel (next b m q fs v price ref e (omega arith) within r ys f g)
              (replaced q price ys) (next_free b m q fs v price ref e (omega arith) within r ys f g)
              (after_level-Stocked b m q fs v price ref e r ys f g)
              (omega (arith, next-lt b m q fs v price ref e (omega arith) within r ys f g)) in
          (
            m',
            ground (arith, e, h, run, leave-drained m.side price ref r, run'),
            Swept-next b m q fs v price ref e (omega arith) within r ys f g m' s,
          )
    ]
  ]
]
