-- ===== src/Ladder/Unlink.antt =====
-- `unlink` of ladder_side.hpp takes an order out of the queue of its level, wherever it stands.
use orderbook.Prelude.{
  ℕ, ◌≡◌, refl, ◌≢◌, ◌⊎◌, inl, inr, true, false, List, [], ◌∷◌, ◌++◌, arith, has, has-append, ◌==◌,
  if◌then◌else◌,
}
use orderbook.Pool.{Nodes, invalid_index}
use orderbook.Pool.Chain.{Chain, Chain-behind, has-cons_self, Chain-ends}
use orderbook.Ladder.{Level, unlink}
use orderbook.Ladder.Link.{Touches}

module _ (ns : Nodes) (idx : ℕ) (ys : List ℕ) where
  abbrev p : ℕ
  p = (ns idx).prev

  abbrev n : ℕ
  n = (ns idx).next

  -- The predecessor of `idx` stands before it.
  has_prev :
      (prev head tail x : ℕ) (xs : List ℕ)
      → Chain ns prev head tail ((x ∷ xs) ++ (idx ∷ ys))
      → has p (x ∷ xs) ≡ true
  has_prev prev head tail x [] (h, valid, back, out, rest) = ground arith
  has_prev prev head tail x (y ∷ xs) (h, valid, back, out, rest) =
      ground (arith, has_prev x (ns x).next tail y xs rest)

  -- Its successor stands behind it, if there is one.
  has_next :
      (prev head tail : ℕ) (xs : List ℕ)
      → Chain ns prev head tail (xs ++ (idx ∷ ys))
      → (n ≡ invalid_index) ⊎ (has n ys ≡ true)
  has_next prev head tail [] (h, valid, back, out, rest) = next_of ys rest
    where
      next_of : (zs : List ℕ) → Chain ns idx n tail zs → (n ≡ invalid_index) ⊎ (has n zs ≡ true)
      next_of [] c = inl c.0
      next_of (z ∷ zs) c = inr (ground arith)
  has_next prev head tail (x ∷ xs) (h, valid, back, out, rest) = has_next x (ns x).next tail xs rest

  module _ (ns' : Nodes) where
    -- The links past `idx`.
    abbrev LinksPast : List ℕ → Type 0
    LinksPast zs =
        (a : ℕ)
        → has a zs ≡ true
        → ((ns' a).next ≡ (if a == p then n else (ns a).next))
          × ((ns' a).prev ≡ (if a == n then p else (ns a).prev))

    Chain-bypass_first :
        (zs : List ℕ) (prev tail : ℕ)
        → p ≡ prev
        → has prev zs ≡ false
        → LinksPast zs
        → Chain ns idx n tail zs
        → Chain ns' prev n (if n == invalid_index then p else tail) zs
    Chain-bypass_first [] prev tail e out links c = (c.0, ground arith)
    Chain-bypass_first (y ∷ zs) prev tail e out links (h, valid, back, new, rest) =
        let first = links y (has-cons_self y zs) in
        let c =
          Chain-behind ns' ns idx prev tail idx y zs (h, valid, back, new, rest) (ground arith)
            (ground arith) (λ a i. ground (arith, links a)) in
        ground (arith, c)

    Chain-bypass :
        (xs : List ℕ) (prev head tail : ℕ)
        → has prev (xs ++ (idx ∷ ys)) ≡ false
        → LinksPast (xs ++ ys)
        → Chain ns prev head tail (xs ++ (idx ∷ ys))
        → Chain ns' prev
            (if p == prev then n else head)
            (if n == invalid_index then p else tail)
            (xs ++ ys)
    Chain-bypass [] prev head tail out links (h, valid, back, new, rest) =
        let c = Chain-bypass_first ys prev tail back (ground arith) links rest in
        let at : (if p == prev then n else head) ≡ n = ground arith in rw at c
    Chain-bypass (x ∷ xs) prev head tail out links (h, valid, back, new, rest) =
        let before = has_prev prev head tail x xs (h, valid, back, new, rest) in
        let behind = has_next x (ns x).next tail xs rest in
        let here = links x (has-cons_self x (xs ++ ys)) in
        let c = Chain-bypass xs x (ns x).next tail new (λ a i. links a (ground arith)) rest in
        let on : (ns' x).next ≡ (if p == x then n else (ns x).next) = ground arith in
        (
          ground (arith, has-append prev xs (idx ∷ ys)),
          valid,
          ground (arith, has-append x xs (idx ∷ ys)),
          ground (arith, has-append x xs (idx ∷ ys), has-append x xs ys),
          rw on c,
        )

abbrev Cut : Nodes → Level → ℕ → Nodes → Level → Type 0
Cut ns lvl idx ns' lvl' =
    (lvl'.head ≡ (if (ns idx).prev == invalid_index then (ns idx).next else lvl.head))
    × (lvl'.tail ≡ (if (ns idx).next == invalid_index then (ns idx).prev else lvl.tail))

unlink_ends :
    (ns : Nodes) (lvl : Level) (idx : ℕ)
    → Cut ns lvl idx (unlink ns lvl idx).0 (unlink ns lvl idx).1
unfolding unlink
unlink_ends ns lvl idx = (ground arith, ground arith)

-- What `unlink` does to the links of another node that is an index.
unlink_links :
    (ns : Nodes) (lvl : Level) (idx a : ℕ)
    → a ≢ invalid_index
    → a ≢ idx
    → (((unlink ns lvl idx).0 a).next ≡ (if a == (ns idx).prev then (ns idx).next else (ns a).next))
      × (((unlink ns lvl idx).0 a).prev
          ≡ (if a == (ns idx).next then (ns idx).prev else (ns a).prev))
unfolding unlink
unlink_links ns lvl idx a real other = (ground arith, ground arith)

unlink-Touches :
    (ns : Nodes) (lvl : Level) (idx : ℕ) (zs : List ℕ)
    → ((ns idx).prev ≡ invalid_index) ⊎ (has (ns idx).prev zs ≡ true)
    → ((ns idx).next ≡ invalid_index) ⊎ (has (ns idx).next zs ≡ true)
    → Touches (unlink ns lvl idx).0 ns idx zs
unfolding unlink
unlink-Touches ns lvl idx zs before behind = record {
  orders = λ a. ground arith;
  frame = λ a ne out. ground arith;
}

-- The nodes of a chain differ.
Chain-distinct :
    (ns : Nodes) (prev head tail idx : ℕ) (xs ys : List ℕ)
    → Chain ns prev head tail (xs ++ (idx ∷ ys))
    → has idx (xs ++ ys) ≡ false
Chain-distinct ns prev head tail idx [] ys (h, valid, back, out, rest) = out
Chain-distinct ns prev head tail idx (x ∷ xs) ys (h, valid, back, out, rest) =
    ground (arith, Chain-distinct ns x (ns x).next tail idx xs ys rest, has-append x xs (idx ∷ ys))

no_invalid :
    (ns : Nodes) (prev head tail : ℕ) (xs : List ℕ)
    → Chain ns prev head tail xs
    → has invalid_index xs ≡ false
no_invalid ns prev head tail [] c = refl
no_invalid ns prev head tail (x ∷ xs) (h, valid, back, out, rest) =
    ground (arith, no_invalid ns x (ns x).next tail xs rest)

-- The predecessor of a node in the queue of a level.
prev_cases :
    (ns : Nodes) (head tail idx : ℕ) (xs ys : List ℕ)
    → Chain ns invalid_index head tail (xs ++ (idx ∷ ys))
    → ((ns idx).prev ≡ invalid_index) ⊎ (has (ns idx).prev (xs ++ ys) ≡ true)
prev_cases ns head tail idx [] ys (h, valid, back, out, rest) = inl back
prev_cases ns head tail idx (x ∷ xs) ys c = inr (
    ground (
      arith,
      has_prev ns idx ys invalid_index head tail x xs c,
      has-append (ns idx).prev (x ∷ xs) ys,
    ))

-- If the queue of a level is the nodes `xs`, `idx` and `ys` in this order, then after `unlink` it
-- is `xs` and `ys`; the orders of all nodes, and all nodes but `idx`, `xs` and `ys`, are
-- unchanged.
pub unlink-Chain :
    (ns : Nodes) (lvl : Level) (idx : ℕ) (xs ys : List ℕ)
    → Chain ns invalid_index lvl.head lvl.tail (xs ++ (idx ∷ ys))
    → let (ns', lvl') = unlink ns lvl idx in
      Chain ns' invalid_index lvl'.head lvl'.tail (xs ++ ys) × Touches ns' ns idx (xs ++ ys)
unlink-Chain ns lvl idx xs ys c =
    let before = prev_cases ns lvl.head lvl.tail idx xs ys c in
    let next = has_next ns idx ys invalid_index lvl.head lvl.tail xs c in
    let behind : ((ns idx).next ≡ invalid_index) ⊎ (has (ns idx).next (xs ++ ys) ≡ true) =
      ground (arith, has-append (ns idx).next xs ys) in
    let none = no_invalid ns invalid_index lvl.head lvl.tail (xs ++ (idx ∷ ys)) c in
    let out = Chain-distinct ns invalid_index lvl.head lvl.tail idx xs ys c in
    let links : LinksPast ns idx ys (unlink ns lvl idx).0 (xs ++ ys) = λ a i.
      unlink_links ns lvl idx a (ground (arith, has-append a xs ys, has-append a xs (idx ∷ ys)))
        (ground arith) in
    let bypassed =
      Chain-bypass ns idx ys (unlink ns lvl idx).0 xs invalid_index lvl.head lvl.tail none links
        c in
    let ends = unlink_ends ns lvl idx in
    (
      Chain-ends (unlink ns lvl idx).0 invalid_index _ (unlink ns lvl idx).1.head _
          (unlink ns lvl idx).1.tail (xs ++ ys) ends.0 ends.1 bypassed,
      unlink-Touches ns lvl idx (xs ++ ys) before behind,
    )
