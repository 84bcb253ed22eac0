-- ===== src/Book/Priority.antt =====
-- Price-time priority: what matching an order against the other side of a book promises.
use orderbook.Prelude.{
  ℕ, ◌-◌, ◌≤◌, ◌<◌, ◌≡◌, refl, ◌≢◌, ◌⊎◌, Bool, ◌++◌, List, [], ◌∷◌, arith, ◌==◌, if◌then◌else◌,
}
use orderbook.Itch.{Order}
use orderbook.Ladder.Top.{NoWorse}
use orderbook.Book.{ItchOrderExecuted}
use orderbook.Book.Fill.{fill, Positive}

-- The orders that rest on a side at each price, oldest first.
abbrev pub Ladder : Type 0
Ladder = ℕ → List Order

-- No price at which orders rest is within the limit.
abbrev pub Exhausted : Bool → ℕ → Ladder → Type 0
Exhausted b limit os = (q : ℕ) → os q ≢ [] → ¬ NoWorse b q limit

-- `n` shares at `limit` against the side `os`: while shares are left and the best price that orders
-- rest at is within the limit, the queue of that price is filled.
pub data Matched (b : Bool) (limit : ℕ)
    : Ladder → ℕ → Ladder → ℕ → List ℕ → List ItchOrderExecuted → Type 0 where
  stop : {os : Ladder} {n : ℕ} → (n ≡ 0) ⊎ Exhausted b limit os → Matched b limit os n os n [] []
  fill_best :
      {os os' : Ladder} {n n' : ℕ} {refs : List ℕ} {es : List ItchOrderExecuted}
      → (price : ℕ) → 0 < n
      → os price ≢ []
      → NoWorse b price limit
      → ((q : ℕ) → os q ≢ [] → NoWorse b price q)
      → Matched b limit
          (λ q. if price == q then (fill n (os price)).orders else os q)
          (fill n (os price)).left
          os'
          n'
          refs
          es
      → Matched b limit os n os' n'
          ((fill n (os price)).refs ++ refs)
          ((fill n (os price)).executed ++ es)

-- Filling uses up shares.
pub left-le : (n : ℕ) (os : List Order) → (fill n os).left ≤ n
unfolding fill
left-le n [] = omega arith
left-le n (o ∷ os) = ground (arith, left-le (n - o.shares) os)

pub left-lt : (n : ℕ) (os : List Order) → Positive os → os ≢ [] → 0 < n → (fill n os).left < n
unfolding fill
left-lt n [] pos ne h = absurd (ne refl)
left-lt n (o ∷ os) pos ne h = ground (arith, left-le (n - o.shares) os)
