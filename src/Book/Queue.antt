-- ===== src/Book/Queue.antt =====
-- The inner loop of the handlers of orderbook.cpp fills the queue of its level.
use orderbook.Prelude.{
  ℕ, zero, suc, ◌<◌, ◌≡◌, refl, sym, ap, subst, List, [], ◌∷◌, append-nil, arith,
}
use native.Mathlib.Decide.{ℕ_discrete, dec_le}
use orderbook.Run.{ok}
use orderbook.Book.{Sweep, match_head, match_level}
use orderbook.Book.Departs.{Departs-none}
use orderbook.Book.Fill.{fill, Positive}
use orderbook.Book.Rounds.{
  Queue, orders_at, Filled, Filled-zero, Filled-all, Filled-part, filled-Queue, filled_fields,
  partial-Queue, partial_fields, behind_orders,
}
use orderbook.Book.Frees.{Frees, Frees-zero, Frees-all, Frees-part}

-- The loop on the queue `xs`, with the free list it leaves.
pub match_level-Sweeps :
    (fuel : ℕ) (w : Sweep) (xs : List ℕ)
    → Queue w.pool.nodes w.level xs
    → Positive (orders_at w.pool.nodes xs)
    → w.order.shares < fuel
    → (r : Sweep) × (ys : List ℕ) × (match_level fuel w ≡ ok r) × Filled w r xs ys × Frees w r xs ys
unfolding match_level fill
match_level-Sweeps zero w xs q pos enough = absurd (omega arith)
match_level-Sweeps (suc fuel) w [] q pos enough = (
  w,
  [],
  ground arith,
  record {
    queue = q;
    orders = refl;
    order = refl;
    refs = sym (append-nil _);
    executed = sym (append-nil _);
    subset = λ a i. i;
    frame = λ a i. refl;
    departs = Departs-none w.pool.nodes (λ _. []);
  },
  Frees-zero w [],
)
match_level-Sweeps (suc fuel) w (x ∷ xs) q pos enough = elim (ℕ_discrete w.order.shares 0) [
  | yes done ↦ (w, x ∷ xs, ground arith, Filled-zero w (x ∷ xs) q done, Frees-zero w (x ∷ xs))
  | no more ↦ elim (dec_le ((w.pool.nodes x).order.shares) w.order.shares) [
    | yes all ↦
        let n' = ap (λ p. p.shares) (filled_fields w x q.0 all).0 in
        let pos' = subst Positive (sym (behind_orders w x xs q)) pos.1 in
        let (r, ys, run, f, g) =
          match_level-Sweeps fuel (match_head w) xs (filled-Queue w x xs q all) pos'
            (omega (arith, n', pos.0)) in
        (
          r,
          ys,
          ground (arith, run),
          Filled-all w x xs q r ys all (omega arith) f,
          Frees-all w x xs q r ys all f.subset g,
        )
    | no less ↦
        let fields = partial_fields w x q.0 (omega arith) in
        let n' = ap (λ p. p.shares) fields.0 in
        let head = ap (λ p. p.shares) fields.3 in
        let pos' = subst Positive (sym (behind_orders w x xs q)) pos.1 in
        let (r, ys, run, f, g) =
          match_level-Sweeps fuel (match_head w) (x ∷ xs) (partial-Queue w x xs q (omega arith))
            (omega (arith, head), pos') (omega (arith, n')) in
        (
          r,
          ys,
          ground (arith, run),
          Filled-part w x xs q r ys (omega arith) (omega arith) f,
          Frees-part w x xs q r ys (omega arith) g,
        )
  ]
]

-- If `xs` are the nodes of the level's queue, each with shares left, and the fuel exceeds the
-- incoming shares, then `match_level` returns, and its result fills the queue as `fill` says:
-- oldest order first, the order that stays in front reduced, and the filled orders' references
-- and all executions appended to the outputs. The nodes that leave the queue are those with these
-- references.
pub match_level-Filled :
    (fuel : ℕ) (w : Sweep) (xs : List ℕ)
    → Queue w.pool.nodes w.level xs
    → Positive (orders_at w.pool.nodes xs)
    → w.order.shares < fuel
    → (r : Sweep) × (ys : List ℕ) × (match_level fuel w ≡ ok r) × Filled w r xs ys
match_level-Filled fuel w xs q pos enough =
    let (r, ys, run, f, frees) = match_level-Sweeps fuel w xs q pos enough in (r, ys, run, f)
