-- ===== src/Book/Shares.antt =====
-- The shares that the inner loop of the handlers of orderbook.cpp moves.
use orderbook.Prelude.{ℕ, ◌+◌, ◌<◌, ◌≡◌, refl, ap, ◌∙◌, ◌⊎◌, inl, inr, List, [], ◌∷◌, ◌++◌, arith}
use orderbook.Run.{ok}
use orderbook.Book.{Sweep, ItchOrderExecuted, match_level}
use orderbook.Book.Fill.{Positive, fill, fill_conserves, total_executed, total_shares}
use orderbook.Book.Rounds.{Queue, orders_at}
use orderbook.Book.Queue.{match_level-Filled}
use orderbook.Pool.{Nodes}

nothing_at : (ns : Nodes) (ys : List ℕ) → orders_at ns ys ≡ [] → ys ≡ []
nothing_at ns [] e = refl
nothing_at ns (y ∷ ys) e = ground arith

-- If `xs` are the nodes of the level's queue, each with shares left, and the fuel exceeds the
-- incoming shares, then `match_level` returns and no share is lost: those of the executions it
-- appends and those left in the order are the order's, those of the executions and those left in
-- the queue are the queue's, and either the order or the queue is used up.
match_level_conserves :
    (fuel : ℕ) (w : Sweep) (xs : List ℕ)
    → Queue w.pool.nodes w.level xs
    → Positive (orders_at w.pool.nodes xs)
    → w.order.shares < fuel
    → (r : Sweep) × (ys : List ℕ) × (es : List ItchOrderExecuted) × (match_level fuel w ≡ ok r)
      × Queue r.pool.nodes r.level ys
      × (r.executed_orders ≡ w.executed_orders ++ es)
      × (total_executed es + r.order.shares ≡ w.order.shares)
      × (total_executed es + total_shares (orders_at r.pool.nodes ys)
          ≡ total_shares (orders_at w.pool.nodes xs))
      × ((r.order.shares ≡ 0) ⊎ (ys ≡ []))
match_level_conserves fuel w xs q pos enough =
    let (r, ys, run, f) = match_level-Filled fuel w xs q pos enough in
    let (order, queue, done) = fill_conserves w.order.shares (orders_at w.pool.nodes xs) in
    let left = ap (λ o. o.shares) f.order in
    (
      r,
      ys,
      (fill w.order.shares (orders_at w.pool.nodes xs)).executed,
      run,
      f.queue,
      f.executed,
      omega (arith, left, order),
      rw f.orders queue,
      elim done [
        | inl e ↦ inl (left ∙ e)
        | inr e ↦ inr (nothing_at r.pool.nodes ys (f.orders ∙ e))
      ],
    )
