-- ===== src/Ladder/Link.antt =====
-- `linkAtTail` of ladder_side.hpp appends to the queue of a level.
use orderbook.Prelude.{
  ℕ, ◌≡◌, refl, ◌∙◌, ◌≢◌, true, false, List, [], ◌∷◌, ◌++◌, arith, has, has-append, ◌==◌,
  if◌then◌else◌,
}
use orderbook.Pool.{Nodes, invalid_index}
use orderbook.Pool.Chain.{Chain, has-cons_self, Chain-ends}
use orderbook.Ladder.{Level, link_at_tail}

-- The last node of a chain is one of its nodes.
pub has_tail :
    (ns : Nodes) (prev head tail x : ℕ) (xs : List ℕ)
    → Chain ns prev head tail (x ∷ xs)
    → has tail (x ∷ xs) ≡ true
has_tail ns prev head tail x [] (h, valid, back, out, last) = ground arith
has_tail ns prev head tail x (y ∷ ys) (h, valid, back, out, rest) =
    ground (arith, has_tail ns x (ns x).next tail y ys rest)

-- The nodes of a chain are indices.
pub has_real :
    (ns : Nodes) (prev head tail a : ℕ) (xs : List ℕ)
    → Chain ns prev head tail xs
    → has a xs ≡ true
    → a ≢ invalid_index
has_real ns prev head tail a [] c i = ground arith
has_real ns prev head tail a (x ∷ xs) (h, valid, back, out, rest) i =
    ground (arith, has_real ns x (ns x).next tail a xs rest)

-- A chain and one more node behind its last.
Chain-append :
    (ns ns' : Nodes) (prev head tail idx x : ℕ) (xs : List ℕ)
    → idx ≢ invalid_index
    → has idx (x ∷ xs) ≡ false
    → (ns' idx).prev ≡ tail
    → (ns' idx).next ≡ invalid_index
    → ((a : ℕ)
        → has a (x ∷ xs) ≡ true
        → ((ns' a).next ≡ (if a == tail then idx else (ns a).next)) × ((ns' a).prev ≡ (ns a).prev))
    → Chain ns prev head tail (x ∷ xs)
    → Chain ns' prev head idx ((x ∷ xs) ++ (idx ∷ []))
Chain-append ns ns' prev head tail idx x [] real new back_to end links (h, valid, back, out, last) =
    let here = links x (has-cons_self x []) in
    (h, valid, here.1 ∙ back, ground arith, (ground arith, real, ground arith, refl, (end, refl)))
Chain-append ns ns' prev head tail idx x (y ∷ ys) real new back_to end links
      (h, valid, back, out, rest) =
    let here = links x (has-cons_self x (y ∷ ys)) in
    let member = has_tail ns x (ns x).next tail y ys rest in
    let on : (ns' x).next ≡ (ns x).next = ground arith in
    let c =
      Chain-append ns ns' x (ns x).next tail idx y ys real (ground arith) back_to end
        (λ a i. links a (ground arith)) rest in
    (h, valid, here.1 ∙ back, ground (arith, has-append x (y ∷ ys) (idx ∷ [])), rw on c)

-- What a link or an unlink leaves alone: the orders, and every node outside the queue and `idx`.
pub record Touches (ns' ns : Nodes) (idx : ℕ) (xs : List ℕ) : Type 0 where
  pub orders : (a : ℕ) → (ns' a).order ≡ (ns a).order
  pub frame : (a : ℕ) → a ≢ idx → has a xs ≡ false → ns' a ≡ ns a

-- If the queue of a level is the nodes `xs`, and `idx` is an index and none of them, then after
-- `link_at_tail` it is `xs` and then `idx`; the orders of all nodes, and all nodes but `xs` and
-- `idx`, are unchanged.
pub link_at_tail-Chain :
    (ns : Nodes) (lvl : Level) (idx : ℕ) (xs : List ℕ)
    → idx ≢ invalid_index
    → has idx xs ≡ false
    → Chain ns invalid_index lvl.head lvl.tail xs
    → let (ns', lvl') = link_at_tail ns lvl idx in
      Chain ns' invalid_index lvl'.head lvl'.tail (xs ++ (idx ∷ [])) × Touches ns' ns idx xs
unfolding link_at_tail
link_at_tail-Chain ns lvl idx [] real new (h, t) =
    (ground arith, record { orders = λ a. ground arith; frame = λ a ne out. ground arith })
link_at_tail-Chain ns lvl idx (x ∷ xs) real new c =
    let member = has_tail ns invalid_index lvl.head lvl.tail x xs c in
    let linked = has_real ns invalid_index lvl.head lvl.tail lvl.tail (x ∷ xs) c member in
    let h : (link_at_tail ns lvl idx).1.head ≡ lvl.head = ground arith in
    let t : (link_at_tail ns lvl idx).1.tail ≡ idx = ground arith in
    let grown =
      Chain-append ns (link_at_tail ns lvl idx).0 invalid_index lvl.head lvl.tail idx x xs real new
        (ground arith) (ground arith) (λ a i. ground arith) c in
    (
      Chain-ends (link_at_tail ns lvl idx).0 invalid_index lvl.head (link_at_tail ns lvl idx).1.head
          idx (link_at_tail ns lvl idx).1.tail ((x ∷ xs) ++ (idx ∷ [])) h t grown,
      record { orders = λ a. ground arith; frame = λ a ne out. ground arith },
    )
