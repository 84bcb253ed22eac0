-- ===== src/Pool/Reuse.antt =====
-- The free list of order_pool.hpp: `allocate` takes an index that no live order has, and `free`
-- gives it back.
use orderbook.Prelude.{ℕ, ◌≡◌, refl, ◌≢◌, true, false, List, [], ◌∷◌, arith, has, ◌<◌, ◌≤◌}
use orderbook.Itch.{Order}
use orderbook.Pool.{OrderPool, Nodes, allocate, free, invalid_index, take_slot, fresh_node}

-- From `head` the `next` indices lead through the distinct indices `fs` below `size`, to none.
abbrev pub FreeFrom : Nodes → (size head : ℕ) → List ℕ → Type 0
FreeFrom ns size head [] = head ≡ invalid_index
FreeFrom ns size head (f ∷ fs) =
    (head ≡ f) × (f < size) × (has f fs ≡ false) × FreeFrom ns size (ns f).next fs

-- The pool has the free indices `fs`, in the order in which they are taken, and not too many nodes.
abbrev pub IsFree : OrderPool → List ℕ → Type 0
IsFree pool fs = (pool.size ≤ invalid_index) × FreeFrom pool.nodes pool.size pool.free_head fs

-- An index in use: of a node, and not free.
abbrev pub IsLive : OrderPool → List ℕ → ℕ → Type 0
IsLive pool fs i = (i < pool.size) × (has i fs ≡ false)

pub FreeFrom-frame :
    (ns ns' : Nodes) (size size' head : ℕ) (fs : List ℕ)
    → size ≤ size'
    → ((a : ℕ) → has a fs ≡ true → (ns' a).next ≡ (ns a).next)
    → FreeFrom ns size head fs
    → FreeFrom ns' size' head fs
FreeFrom-frame ns ns' size size' head [] le same c = c
FreeFrom-frame ns ns' size size' head (f ∷ fs) le same (h, lt, out, rest) =
    let here : (ns' f).next ≡ (ns f).next = same f (ground arith) in
    (
      h,
      ground arith,
      out,
      rw here
          (FreeFrom-frame ns ns' size size' (ns f).next fs le (λ a i. same a (ground arith)) rest),
    )

-- The index that `allocate` takes with the free indices `fs`, and those that remain.
abbrev pub taken : OrderPool → List ℕ → ℕ
taken pool [] = pool.size
taken pool (f ∷ fs) = f

abbrev pub rest_of : List ℕ → List ℕ
rest_of [] = []
rest_of (f ∷ fs) = fs

pub record Allocates (pool : OrderPool) (fs : List ℕ) (order : Order) : Type 0 where
  pub free_after : IsFree (allocate pool order).1 (rest_of fs)
  pub index : (allocate pool order).0 ≡ taken pool fs
  pub unused : (i : ℕ) → IsLive pool fs i → i ≢ (allocate pool order).0
  pub still_live : (i : ℕ) → IsLive pool fs i → IsLive (allocate pool order).1 (rest_of fs) i
  pub live : IsLive (allocate pool order).1 (rest_of fs) (allocate pool order).0
  pub stored : (allocate pool order).1.nodes (allocate pool order).0 ≡ fresh_node order
  pub frame : (a : ℕ) → a ≢ (allocate pool order).0 → (allocate pool order).1.nodes a ≡ pool.nodes a

-- If the free indices of the pool are `fs` and it has fewer nodes than the invalid index,
-- `allocate` takes the first of `fs`, or grows the pool if `fs` is empty. The rest of `fs` stays
-- free, the index is not one that was in use and is in use afterwards, as are all that were, its
-- node holds the order without links, and every other node is unchanged.
pub allocate-Allocates :
    (pool : OrderPool) (fs : List ℕ) (order : Order)
    → pool.size < invalid_index
    → IsFree pool fs
    → Allocates pool fs order
unfolding allocate take_slot
allocate-Allocates pool [] order room (small, none) = record {
  free_after = (ground arith, ground arith);
  index = ground arith;
  unused = λ i l e. ground arith;
  still_live = λ i l. ground arith;
  live = (ground arith, ground arith);
  stored = ground arith;
  frame = λ a ne. ground arith;
}
allocate-Allocates pool (f ∷ fs) order room (small, (h, lt, out, rest)) =
    let now : (allocate pool order).1.free_head ≡ (pool.nodes f).next = ground arith in
    record {
      free_after = (
        ground arith,
        FreeFrom-frame pool.nodes (allocate pool order).1.nodes pool.size
            (allocate pool order).1.size (allocate pool order).1.free_head fs (ground arith)
            (λ a i. ground arith) (rw now rest),
      );
      index = ground arith;
      unused = λ i l e. ground arith;
      still_live = λ i l. ground arith;
      live = (ground arith, ground arith);
      stored = ground arith;
      frame = λ a ne. ground arith;
    }

-- If the free indices of the pool are `fs` and `idx` is in use, then after `free` they are `idx`
-- and then `fs`.
pub free-IsFree :
    (pool : OrderPool) (fs : List ℕ) (idx : ℕ)
    → IsLive pool fs idx
    → IsFree pool fs
    → IsFree (free pool idx) (idx ∷ fs)
unfolding free
free-IsFree pool fs idx (lt, out) (small, c) =
    let link : ((free pool idx).nodes idx).next ≡ pool.free_head = ground arith in
    (
      small,
      (
        refl,
        lt,
        out,
        rw link (
            FreeFrom-frame pool.nodes (free pool idx).nodes pool.size pool.size pool.free_head fs
              (ground arith) (λ a i. ground arith) c),
      ),
    )
