-- ===== src/Book/Resting.antt =====
-- The orders that rest on a side of a book: the queue of each price, in the nodes of the pool.
use orderbook.Prelude.{
  ℕ, ◌-◌, ◌<◌, ◌^◌, ◌≡◌, refl, sym, ap, subst, ◌∙◌, ◌≢◌, ◌⊎◌, inl, inr, Bool, true, List, [], ◌∷◌,
  arith, ◌==◌, if◌then◌else◌, has, All,
}
use native.Mathlib.Decide.{ℕ_discrete}
use orderbook.Itch.{Order}
use orderbook.Pool.{Nodes, invalid_index}
use orderbook.Pool.Chain.{Chain-frame}
use orderbook.Ladder.{Level, LadderSide}
use orderbook.Ladder.Shape.{Shape, level_of}
use orderbook.Ladder.Shrink.{Tidy}
use orderbook.Ladder.Becomes.{Becomes}
use orderbook.Book.Fill.{fill, Positive}
use orderbook.Book.Rounds.{Queue, orders_at, orders_at-frame}

-- An order that may rest at `price` on the bid or the ask side.
abbrev pub OrderAt : Bool → ℕ → Order → Type 0
OrderAt is_bid price o =
    (o.price ≡ price)
    × ((o.buy_sell_indicator == b'B') ≡ is_bid)
    × (0 < o.shares)
    × (price < 2 ^ 32)

-- `queue price` are the nodes that rest at a price, oldest first.
pub record Resting (ns : Nodes) (is_bid : Bool) (s : LadderSide) (queue : ℕ → List ℕ) : Type 0 where
  pub shape : Shape s
  pub bid : s.bid ≡ is_bid
  pub chain : (p : ℕ) → Queue ns (level_of s p) (queue p)
  pub orders : (p : ℕ) → All (OrderAt is_bid p) (orders_at ns (queue p))

pub All-at :
    (P : Order → Type 0) (ns : Nodes) (xs : List ℕ) (a : ℕ)
    → All P (orders_at ns xs)
    → has a xs ≡ true
    → P (ns a).order
All-at P ns [] a h i = absurd (ground arith)
All-at P ns (x ∷ xs) a h i = elim (ℕ_discrete a x) [
  | yes e ↦ subst (λ y. P (ns y).order) (sym e) h.0
  | no ne ↦ All-at P ns xs a h.1 (ground arith)
]

pub All-Positive : (b : Bool) (p : ℕ) (os : List Order) → All (OrderAt b p) os → Positive os
All-Positive b p [] h = tt
All-Positive b p (o ∷ os) (h, rest) = (h.2, All-Positive b p os rest)

-- Filling a queue leaves orders that may rest there.
pub fill-OrderAt :
    (b : Bool) (p n : ℕ) (os : List Order)
    → All (OrderAt b p) os
    → All (OrderAt b p) (fill n os).orders
unfolding fill
fill-OrderAt b p n [] h = tt
fill-OrderAt b p n (o ∷ os) (h, rest) = ground (arith, fill-OrderAt b p (n - o.shares) os rest)

-- Each node rests at one price of one side.
pub one_price :
    (ns : Nodes) (b c : Bool) (s t : LadderSide) (q r : ℕ → List ℕ) (x y a : ℕ)
    → Resting ns b s q
    → Resting ns c t r
    → has a (q x) ≡ true
    → has a (r y) ≡ true
    → (x ≡ y) × (b ≡ c)
one_price ns b c s t q r x y a u v i j =
    let h = All-at (OrderAt b x) ns (q x) a (u.orders x) i in
    let k = All-at (OrderAt c y) ns (r y) a (v.orders y) j in (sym h.0 ∙ k.0, sym h.1 ∙ k.1)

-- A side stands as long as its nodes do.
pub Resting-frame :
    (ns' ns : Nodes) (b : Bool) (s : LadderSide) (q : ℕ → List ℕ)
    → ((p a : ℕ) → has a (q p) ≡ true → ns' a ≡ ns a)
    → Resting ns b s q
    → Resting ns' b s q
Resting-frame ns' ns b s q same v = record {
  shape = v.shape;
  bid = v.bid;
  chain = λ p.
      Chain-frame ns' ns invalid_index (level_of s p).head (level_of s p).tail (q p)
        (λ a i. (ap (λ n. n.next) (same p a i), ap (λ n. n.prev) (same p a i))) (v.chain p);
  orders = λ p.
      subst (All (OrderAt b p))
        (sym (orders_at-frame ns' ns (q p) (λ a i. ap (λ n. n.order) (same p a i)))) (v.orders p);
}

-- The queue of one price replaced.
abbrev pub replaced : (ℕ → List ℕ) → ℕ → List ℕ → ℕ → List ℕ
replaced q price xs p = if price == p then xs else q p

pub Resting-replaced :
    (ns' ns : Nodes) (b : Bool) (s s' : LadderSide) (q : ℕ → List ℕ) (price : ℕ) (lvl : Level)
    (xs : List ℕ)
    → Resting ns b s q
    → Becomes s s' price lvl
    → Queue ns' lvl xs
    → All (OrderAt b price) (orders_at ns' xs)
    → ((p a : ℕ) → p ≢ price → has a (q p) ≡ true → ns' a ≡ ns a)
    → Resting ns' b s' (replaced q price xs)
Resting-replaced ns' ns b s s' q price lvl xs v c here orders same = record {
  shape = c.shape;
  bid = c.bid ∙ v.bid;
  chain = λ p. elim (ℕ_discrete price p) [
    | yes e ↦
        let l : level_of s' p ≡ lvl = ground (arith, c.level p) in
        let x : replaced q price xs p ≡ xs = ground arith in rw l (rw x here)
    | no ne ↦
        let l : level_of s' p ≡ level_of s p = ground (arith, c.level p) in
        let x : replaced q price xs p ≡ q p = ground arith in
        rw l (
          rw x (
            Chain-frame ns' ns invalid_index (level_of s p).head (level_of s p).tail (q p)
              (λ a i.
                let e = same p a (λ z. ne (sym z)) i in (ap (λ n. n.next) e, ap (λ n. n.prev) e))
              (v.chain p)))
  ];
  orders = λ p. elim (ℕ_discrete price p) [
    | yes e ↦
        let x : replaced q price xs p ≡ xs = ground arith in
        rw x (subst (λ z. All (OrderAt b z) (orders_at ns' xs)) e orders)
    | no ne ↦
        let x : replaced q price xs p ≡ q p = ground arith in
        rw x (
          subst (All (OrderAt b p))
            (sym (
              orders_at-frame ns' ns (q p)
                (λ a i. ap (λ n. n.order) (same p a (λ z. ne (sym z)) i))))
            (v.orders p))
  ];
}

-- The level of a queue names no node if the queue is empty.
pub Queue-Tidy : (ns : Nodes) (lvl : Level) (xs : List ℕ) → Queue ns lvl xs → Tidy lvl
Queue-Tidy ns lvl [] c e = ground arith
Queue-Tidy ns lvl (x ∷ xs) c e = absurd (ground arith)

pub Queue-full :
    (ns : Nodes) (lvl : Level) (xs : List ℕ)
    → Queue ns lvl xs
    → ((lvl.head ≡ invalid_index) × (xs ≡ [])) ⊎ ((lvl.head ≢ invalid_index) × (xs ≢ []))
Queue-full ns lvl [] c = inl (c.0, refl)
Queue-full ns lvl (x ∷ xs) c = inr (ground arith, λ e. cc)
