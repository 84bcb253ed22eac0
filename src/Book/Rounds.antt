-- ===== src/Book/Rounds.antt =====
-- One round of the inner loop of the handlers of orderbook.cpp, on the queue of its level.
use orderbook.Prelude.{
  ℕ, ◌-◌, ◌≤◌, ◌<◌, ◌≡◌, refl, sym, ap, subst, ◌∙◌, ◌≢◌, inl, inr, true, false, List, [], ◌∷◌, ◌++◌,
  append_assoc, append-nil, arith, has,
}
use native.Mathlib.Decide.{ℕ_discrete}
use orderbook.Itch.{Order}
use orderbook.Pool.{Nodes, invalid_index, free}
use orderbook.Pool.Chain.{Chain, SameLinks, Chain-frame, Chain-behind, has-cons_self}
use orderbook.Ladder.{Level}
use orderbook.Book.{Sweep, execution, ref_of, with_shares, match_head}
use orderbook.Book.Departs.{Departs, Departs-none, Departs-then, SameOrder, SameOrder-of}
use orderbook.Book.Fill.{fill, fill-zero, fill_all, fill_part}

-- The nodes `xs` of a level, oldest first.
abbrev pub Queue : Nodes → Level → List ℕ → Type 0
Queue ns level xs = Chain ns invalid_index level.head level.tail xs

abbrev pub orders_at : Nodes → List ℕ → List Order
orders_at ns [] = []
orders_at ns (x ∷ xs) = (ns x).order ∷ orders_at ns xs

pub orders_at-frame :
    (ns' ns : Nodes) (xs : List ℕ)
    → ((a : ℕ) → has a xs ≡ true → (ns' a).order ≡ (ns a).order)
    → orders_at ns' xs ≡ orders_at ns xs
orders_at-frame ns' ns [] same = refl
orders_at-frame ns' ns (x ∷ xs) same =
    let here = same x (has-cons_self x xs) in
    let rest = orders_at-frame ns' ns xs (λ a i. same a (ground arith)) in rw (here, rest)

module _ (w : Sweep) (x : ℕ) where
  abbrev pub o : Order
  o = (w.pool.nodes x).order

  -- The round that fills the oldest order takes it off the queue.
  pub filled-Queue :
      (xs : List ℕ)
      → Queue w.pool.nodes w.level (x ∷ xs)
      → o.shares ≤ w.order.shares
      → Queue (match_head w).pool.nodes (match_head w).level xs
  unfolding match_head free
  filled-Queue [] (h, valid, back, out, last) all = ground arith
  filled-Queue (y ∷ ys) (h, valid, back, out, rest) all =
      let ns' = (match_head w).pool.nodes in
      let first : (ns' y).prev ≡ invalid_index = ground arith in
      let on : (ns' y).next ≡ (w.pool.nodes y).next = ground arith in
      let same : SameLinks ys ns' w.pool.nodes = λ a i. ground arith in
      let c =
        Chain-behind ns' w.pool.nodes invalid_index invalid_index w.level.tail x y ys rest first on
          same in
      ground (arith, c)

  pub filled-frame :
      (xs : List ℕ)
      → Queue w.pool.nodes w.level (x ∷ xs)
      → (a : ℕ) → has a (x ∷ xs) ≡ false
      → (match_head w).pool.nodes a ≡ w.pool.nodes a
  unfolding match_head free
  filled-frame [] (h, valid, back, out, last) a i = ground arith
  filled-frame (y ∷ ys) (h, valid, back, out, rest) a i = ground arith

  pub kept-order :
      w.level.head ≡ x
      → (a : ℕ) → a ≢ x
      → ((match_head w).pool.nodes a).order ≡ (w.pool.nodes a).order
  unfolding match_head free
  kept-order h a ne = ground arith

  -- The fields of the state after the round that fills the oldest order.
  pub filled_fields :
      w.level.head ≡ x
      → o.shares ≤ w.order.shares
      → ((match_head w).order ≡ with_shares w.order (w.order.shares - o.shares))
        × ((match_head w).removed_refs ≡ w.removed_refs ++ (ref_of o ∷ []))
        × ((match_head w).executed_orders
            ≡ w.executed_orders ++ (execution (ref_of o) o.shares ∷ []))
  unfolding match_head
  filled_fields h all = ground arith

  -- The round that exhausts the incoming order leaves the queue.
  pub partial-Queue :
      (xs : List ℕ)
      → Queue w.pool.nodes w.level (x ∷ xs)
      → w.order.shares < o.shares
      → Queue (match_head w).pool.nodes (match_head w).level (x ∷ xs)
  unfolding match_head
  partial-Queue xs q less =
      let c =
        Chain-frame (match_head w).pool.nodes w.pool.nodes invalid_index w.level.head w.level.tail
          (x ∷ xs) (λ a i. ground arith) q in
      ground (arith, c)

  pub partial_fields :
      w.level.head ≡ x
      → w.order.shares < o.shares
      → ((match_head w).order ≡ with_shares w.order 0)
        × ((match_head w).removed_refs ≡ w.removed_refs)
        × ((match_head w).executed_orders
            ≡ w.executed_orders ++ (execution (ref_of o) w.order.shares ∷ []))
        × (((match_head w).pool.nodes x).order ≡ with_shares o (o.shares - w.order.shares))
        × ((a : ℕ) → a ≢ x → (match_head w).pool.nodes a ≡ w.pool.nodes a)
  unfolding match_head
  partial_fields h less =
      (ground arith, ground arith, ground arith, ground arith, λ a ne. ground arith)

-- The state `r` in which the loop, started at `w` with the queue `xs`, leaves the queue `ys`.
pub record Filled (w r : Sweep) (xs ys : List ℕ) : Type 0 where
  pub queue : Queue r.pool.nodes r.level ys
  pub orders : orders_at r.pool.nodes ys ≡ (fill w.order.shares (orders_at w.pool.nodes xs)).orders
  pub order : r.order ≡ with_shares w.order (fill w.order.shares (orders_at w.pool.nodes xs)).left
  pub refs :
      r.removed_refs ≡ w.removed_refs ++ (fill w.order.shares (orders_at w.pool.nodes xs)).refs
  pub executed :
      r.executed_orders
      ≡ w.executed_orders ++ (fill w.order.shares (orders_at w.pool.nodes xs)).executed
  pub subset : (a : ℕ) → has a ys ≡ true → has a xs ≡ true
  pub frame : (a : ℕ) → has a xs ≡ false → r.pool.nodes a ≡ w.pool.nodes a
  pub departs :
      Departs w.pool.nodes r.pool.nodes
        (λ _. xs)
        (λ _. ys)
        (fill w.order.shares (orders_at w.pool.nodes xs)).refs

pub Filled-zero :
    (w : Sweep) (xs : List ℕ)
    → Queue w.pool.nodes w.level xs
    → w.order.shares ≡ 0
    → Filled w w xs xs
Filled-zero w xs q none_left =
    let z : fill w.order.shares (orders_at w.pool.nodes xs)
        ≡ record { left = 0; orders = orders_at w.pool.nodes xs; refs = []; executed = [] } =
      ap (λ n. fill n (orders_at w.pool.nodes xs)) none_left
      ∙ fill-zero (orders_at w.pool.nodes xs) in
    record {
      queue = q;
      orders = ground (arith, z);
      order = ground (arith, z);
      refs = ground (arith, z, append-nil w.removed_refs);
      executed = ground (arith, z, append-nil w.executed_orders);
      subset = λ a i. i;
      frame = λ a i. refl;
      departs =
          subst (Departs w.pool.nodes w.pool.nodes (λ _. xs) (λ _. xs)) (sym (ap (λ z. z.refs) z))
            (Departs-none w.pool.nodes (λ _. xs));
    }

module _ (w : Sweep) (x : ℕ) (xs : List ℕ) (q : Queue w.pool.nodes w.level (x ∷ xs)) where
  pub behind_orders : orders_at (match_head w).pool.nodes xs ≡ orders_at w.pool.nodes xs
  behind_orders =
      orders_at-frame (match_head w).pool.nodes w.pool.nodes xs
        (λ a i. kept-order w x q.0 a (ground arith))

  -- The round that fills the oldest order takes its node off.
  head-Departs :
      Departs w.pool.nodes (match_head w).pool.nodes (λ _. x ∷ xs) (λ _. xs) (ref_of (o w x) ∷ [])
  head-Departs = record {
    subset = λ p a i. ground arith;
    stays = λ p a i. ground arith;
    gone = λ r i. (0, x, has-cons_self x xs, λ y. q.3, ground arith);
    same = λ p a i.
        SameOrder-of (match_head w).pool.nodes w.pool.nodes a
          (kept-order w x q.0 a (ground (arith, q.3)));
  }

  pub Filled-all :
      (r : Sweep) (ys : List ℕ)
      → (o w x).shares ≤ w.order.shares
      → 0 < w.order.shares
      → Filled (match_head w) r xs ys
      → Filled w r (x ∷ xs) ys
  Filled-all r ys all more f =
      let (order, refs, executed) = filled_fields w x q.0 all in
      let n' : (match_head w).order.shares ≡ w.order.shares - (o w x).shares =
        ap (λ p. p.shares) order in
      let rest = fill (w.order.shares - (o w x).shares) (orders_at w.pool.nodes xs) in
      let same : fill (match_head w).order.shares (orders_at (match_head w).pool.nodes xs) ≡ rest =
        rw (n', behind_orders) in
      let (left, stay, gone, log) =
        fill_all w.order.shares (o w x) (orders_at w.pool.nodes xs) all more in
      record {
        queue = f.queue;
        orders = ground (arith, f.orders, same, stay);
        order = ground (arith, f.order, same, left);
        refs = f.refs ∙ (rw (refs, same, gone) (append_assoc w.removed_refs _ _));
        executed = f.executed ∙ (rw (executed, same, log) (append_assoc w.executed_orders _ _));
        subset = λ a i. ground (arith, f.subset a i);
        frame = λ a i. ground (arith, f.frame a, filled-frame w x xs q a i);
        departs =
            subst (Departs w.pool.nodes r.pool.nodes (λ _. x ∷ xs) (λ _. ys))
              (sym (gone ∙ ap (λ l. ref_of (o w x) ∷ l) (sym (ap (λ z. z.refs) same))))
              (Departs-then w.pool.nodes (match_head w).pool.nodes r.pool.nodes (λ _. x ∷ xs)
                (λ _. xs) (λ _. ys) (ref_of (o w x) ∷ []) _ head-Departs f.departs);
      }

  part-Departs :
      (r : Sweep) (ys : List ℕ)
      → w.order.shares < (o w x).shares
      → 0 < w.order.shares
      → Filled (match_head w) r (x ∷ xs) ys
      → Departs w.pool.nodes r.pool.nodes
          (λ _. x ∷ xs)
          (λ _. ys)
          (fill w.order.shares (orders_at w.pool.nodes (x ∷ xs))).refs
  part-Departs r ys less more f =
      let (order, refs, executed, head, same) = partial_fields w x q.0 less in
      let part = fill_part w.order.shares (o w x) (orders_at w.pool.nodes xs) less more in
      let n' : (match_head w).order.shares ≡ 0 = ap (λ p. p.shares) order in
      let os' = orders_at (match_head w).pool.nodes (x ∷ xs) in
      let none_gone : (fill (match_head w).order.shares os').refs ≡ [] =
        ap (λ n. (fill n os').refs) n' ∙ ap (λ z. z.refs) (fill-zero os') in
      let kept : (a : ℕ) → SameOrder (match_head w).pool.nodes w.pool.nodes a = λ a.
        elim (ℕ_discrete a x) [
          | yes e ↦
              subst (SameOrder (match_head w).pool.nodes w.pool.nodes) (sym e)
                (ap ref_of head, ap (λ z. z.buy_sell_indicator) head)
          | no ne ↦
              SameOrder-of (match_head w).pool.nodes w.pool.nodes a (ap (λ n. n.order) (same a ne))
        ] in
      let d =
        subst (Departs (match_head w).pool.nodes r.pool.nodes (λ _. x ∷ xs) (λ _. ys)) none_gone
          f.departs in
      subst (Departs w.pool.nodes r.pool.nodes (λ _. x ∷ xs) (λ _. ys))
        (sym (ap (λ z. z.refs) part))
        (record {
          subset = d.subset;
          stays = λ p a i. inl (elim (d.stays p a i) [ inl j ↦ j | inr j ↦ absurd (ground arith) ]);
          gone = λ r' i. absurd (ground arith);
          same = λ p a i.
              let now = d.same p a i in let before = kept a in (now.0 ∙ before.0, now.1 ∙ before.1);
        })

  pub Filled-part :
      (r : Sweep) (ys : List ℕ)
      → w.order.shares < (o w x).shares
      → 0 < w.order.shares
      → Filled (match_head w) r (x ∷ xs) ys
      → Filled w r (x ∷ xs) ys
  Filled-part r ys less more f =
      let (order, refs, executed, head, same) = partial_fields w x q.0 less in
      let part = fill_part w.order.shares (o w x) (orders_at w.pool.nodes xs) less more in
      let n' : (match_head w).order.shares ≡ 0 = ap (λ p. p.shares) order in
      let os' = orders_at (match_head w).pool.nodes (x ∷ xs) in
      let zero_fill : fill (match_head w).order.shares os'
          ≡ record { left = 0; orders = os'; refs = []; executed = [] } =
        ap (λ n. fill n os') n' ∙ fill-zero os' in
      record {
        queue = f.queue;
        orders = ground (arith, f.orders, zero_fill, part, behind_orders);
        order = ground (arith, f.order, zero_fill, part);
        refs = ground (
          arith,
          f.refs,
          zero_fill,
          part,
          append-nil (match_head w).removed_refs,
          append-nil w.removed_refs,
        );
        executed =
            ground (arith, f.executed, zero_fill, part, append-nil (match_head w).executed_orders);
        subset = f.subset;
        frame = λ a i. f.frame a i ∙ same a (ground arith);
        departs = part-Departs r ys less more f;
      }
