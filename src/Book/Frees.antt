-- ===== src/Book/Frees.antt =====
-- The free list of the pool in the inner loop of the handlers of orderbook.cpp.
use orderbook.Prelude.{
  ℕ, ◌-◌, ◌≤◌, ◌<◌, ◌≡◌, refl, sym, subst, ◌∙◌, ◌⊎◌, inl, true, false, List, ◌∷◌, arith, has, min,
}
use native.Mathlib.Decide.{ℕ_discrete}
use orderbook.Pool.{OrderPool, Nodes, invalid_index, free, set_prev, set_shares}
use orderbook.Pool.Reuse.{IsFree, IsLive, FreeFrom-frame, free-IsFree}
use orderbook.Ladder.{Level}
use orderbook.Book.{Sweep, drop_head, match_head, with_nodes}
use orderbook.Book.Rounds.{Queue}

-- With the free indices `fs` before, and the queue in use, the loop gives back what it takes off
-- the queue: each free index was free, or was in `xs` and is not in `ys`.
abbrev pub Frees : Sweep → Sweep → List ℕ → List ℕ → Type 0
Frees w r xs ys =
    (fs : List ℕ)
    → IsFree w.pool fs
    → ((a : ℕ) → has a xs ≡ true → IsLive w.pool fs a)
    → (fs' : List ℕ) × IsFree r.pool fs'
      × (r.pool.size ≡ w.pool.size)
      × ((a : ℕ) → has a fs' ≡ true → (has a fs ≡ true) ⊎ ((has a xs ≡ true) × (has a ys ≡ false)))

same_links-IsFree :
    (pool : OrderPool) (ns : Nodes) (fs : List ℕ)
    → ((a : ℕ) → (ns a).next ≡ (pool.nodes a).next)
    → IsFree pool fs
    → IsFree (with_nodes pool ns) fs
same_links-IsFree pool ns fs same (small, c) = (
  small,
  FreeFrom-frame pool.nodes ns pool.size pool.size pool.free_head fs (omega arith) (λ a i. same a)
      c,
)

drop_head-IsFree :
    (pool : OrderPool) (level : Level) (fs : List ℕ)
    → IsFree pool fs
    → IsLive pool fs level.head
    → IsFree (drop_head pool level).0 (level.head ∷ fs)
unfolding drop_head
drop_head-IsFree pool level fs c live =
    let next = (pool.nodes level.head).next in
    let ns = set_prev pool.nodes next invalid_index in
    elim (ℕ_discrete next invalid_index) [
      | yes last ↦
          let run : (drop_head pool level).0 ≡ free pool level.head = ground arith in
          subst (λ t. IsFree t (level.head ∷ fs)) (sym run) (free-IsFree pool fs level.head live c)
      | no more ↦
          let run : (drop_head pool level).0 ≡ free (with_nodes pool ns) level.head =
            ground arith in
          subst (λ t. IsFree t (level.head ∷ fs)) (sym run)
            (free-IsFree (with_nodes pool ns) fs level.head live
              (same_links-IsFree pool ns fs (λ a. ground arith) c))
    ]

module _ (w : Sweep) (x : ℕ) (xs : List ℕ) (q : Queue w.pool.nodes w.level (x ∷ xs)) where
  abbrev o_shares : ℕ
  o_shares = (w.pool.nodes x).order.shares

  abbrev reduced : OrderPool
  reduced = with_nodes w.pool (set_shares w.pool.nodes x (o_shares - min w.order.shares o_shares))

  match_head-IsFree_all :
      (fs : List ℕ)
      → o_shares ≤ w.order.shares
      → IsFree w.pool fs
      → IsLive w.pool fs x
      → IsFree (match_head w).pool (x ∷ fs)
  unfolding match_head
  match_head-IsFree_all fs all c live =
      let h : w.level.head ≡ x = q.0 in
      let run : (match_head w).pool ≡ (drop_head reduced w.level).0 = ground arith in
      let d =
        drop_head-IsFree reduced w.level fs
          (same_links-IsFree w.pool reduced.nodes fs (λ a. ground arith) c) (rw h live) in
      subst (λ t. IsFree t (x ∷ fs)) (sym run)
        (subst (λ y. IsFree (drop_head reduced w.level).0 (y ∷ fs)) h d)

  match_head-IsFree_part :
      (fs : List ℕ) → w.order.shares < o_shares → IsFree w.pool fs → IsFree (match_head w).pool fs
  unfolding match_head
  match_head-IsFree_part fs less c =
      let h : w.level.head ≡ x = q.0 in
      let run : (match_head w).pool ≡ reduced = ground arith in
      subst (λ t. IsFree t fs) (sym run)
        (same_links-IsFree w.pool reduced.nodes fs (λ a. ground arith) c)

  match_head-size : (match_head w).pool.size ≡ w.pool.size
  unfolding match_head drop_head free
  match_head-size = ground arith

  pub Frees-all :
      (r : Sweep) (ys : List ℕ)
      → o_shares ≤ w.order.shares
      → ((a : ℕ) → has a ys ≡ true → has a xs ≡ true)
      → Frees (match_head w) r xs ys
      → Frees w r (x ∷ xs) ys
  Frees-all r ys all subset f fs c live =
      let c' = match_head-IsFree_all fs all c (live x (ground arith)) in
      let (fs', free, size, origin) =
        f (x ∷ fs) c' (λ a i. ground (arith, live a, match_head-size)) in
      (fs', free, size ∙ match_head-size, λ a i. ground (arith, origin a i, subset a, q))

  pub Frees-part :
      (r : Sweep) (ys : List ℕ)
      → w.order.shares < o_shares
      → Frees (match_head w) r (x ∷ xs) ys
      → Frees w r (x ∷ xs) ys
  Frees-part r ys less f fs c live =
      let c' = match_head-IsFree_part fs less c in
      let (fs', free, size, origin) = f fs c' (λ a i. ground (arith, live a, match_head-size)) in
      (fs', free, size ∙ match_head-size, origin)

pub Frees-zero : (w : Sweep) (xs : List ℕ) → Frees w w xs xs
Frees-zero w xs fs c live = (fs, c, refl, λ a i. inl i)
