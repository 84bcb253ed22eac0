-- ===== src/Pool/Chain.antt =====
-- The doubly linked chains that a price level threads through the pool of order_pool.hpp.
use orderbook.Prelude.{ℕ, ◌≡◌, ◌∙◌, ◌≢◌, true, false, List, [], ◌∷◌, arith, has}
use orderbook.Pool.{Nodes, invalid_index}

-- From `head` the `next` indices lead through the distinct nodes `xs` to none, the `prev` indices
-- lead back to `prev`, and `tail` is the last node, or `prev` if there is none.
abbrev pub Chain : Nodes → (prev head tail : ℕ) → List ℕ → Type 0
Chain ns prev head tail [] = (head ≡ invalid_index) × (tail ≡ prev)
Chain ns prev head tail (x ∷ xs) =
    (head ≡ x)
    × (x ≢ invalid_index)
    × ((ns x).prev ≡ prev)
    × (has x xs ≡ false)
    × Chain ns x (ns x).next tail xs

-- `ns'` has the links of `ns` at the nodes `xs`.
abbrev pub SameLinks : List ℕ → Nodes → Nodes → Type 0
SameLinks xs ns' ns =
    (a : ℕ) → has a xs ≡ true → ((ns' a).next ≡ (ns a).next) × ((ns' a).prev ≡ (ns a).prev)

pub SameLinks-tail :
    (x : ℕ) (xs : List ℕ) (ns' ns : Nodes) → SameLinks (x ∷ xs) ns' ns → SameLinks xs ns' ns
SameLinks-tail x xs ns' ns same a i = same a (ground arith)

pub has-cons_self : (x : ℕ) (xs : List ℕ) → has x (x ∷ xs) ≡ true
has-cons_self x xs = ground arith

-- A chain stands as long as the links of its own nodes do.
pub Chain-frame :
    (ns' ns : Nodes) (prev head tail : ℕ) (xs : List ℕ)
    → SameLinks xs ns' ns
    → Chain ns prev head tail xs
    → Chain ns' prev head tail xs
Chain-frame ns' ns prev head tail [] same c = c
Chain-frame ns' ns prev head tail (x ∷ xs) same (h, valid, back, out, rest) =
    let here = same x (has-cons_self x xs) in
    (
      h,
      valid,
      here.1 ∙ back,
      out,
      rw here.0 (Chain-frame ns' ns x (ns x).next tail xs (SameLinks-tail x xs ns' ns same) rest),
    )

-- The chain behind its first node, when that is taken off and the new first node has no predecessor.
pub Chain-behind :
    (ns' ns : Nodes) (prev prev' tail x y : ℕ) (ys : List ℕ)
    → Chain ns x (ns x).next tail (y ∷ ys)
    → (ns' y).prev ≡ prev'
    → (ns' y).next ≡ (ns y).next
    → SameLinks ys ns' ns
    → Chain ns' prev' (ns x).next tail (y ∷ ys)
Chain-behind ns' ns prev prev' tail x y ys (h, valid, back, out, rest) first on same =
    (h, valid, first, out, rw on (Chain-frame ns' ns y (ns y).next tail ys same rest))

-- A chain under other names of its ends.
pub Chain-ends :
    (ns : Nodes) (prev head head' tail tail' : ℕ) (xs : List ℕ)
    → head' ≡ head
    → tail' ≡ tail
    → Chain ns prev head tail xs
    → Chain ns prev head' tail' xs
Chain-ends ns prev head head' tail tail' xs e f c = rw e (rw f c)
