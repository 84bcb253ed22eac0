-- ===== src/Book/Fill.antt =====
-- What a price level promises: the incoming shares fill its orders from the oldest on.
use orderbook.Prelude.{
  ℕ, ◌+◌, ◌-◌, ◌≤◌, ◌<◌, ◌≡◌, refl, ◌⊎◌, inr, List, [], ◌∷◌, arith, leb, ◌==◌, if◌then◌else◌, All,
}
use orderbook.Itch.{Order}
use orderbook.Book.{ItchOrderExecuted, execution, ref_of, with_shares}

-- The incoming shares left, the orders that stay, the references of those filled, the executions.
pub record Fill : Type 0 where
  pub left : ℕ
  pub orders : List Order
  pub refs : List ℕ
  pub executed : List ItchOrderExecuted

unfoldable pub fill : ℕ → List Order → Fill
fill n [] = record { left = n; orders = []; refs = []; executed = [] }
fill n (o ∷ os) =
    let rest = fill (n - o.shares) os in
    if n == 0
    then record { left = 0; orders = o ∷ os; refs = []; executed = [] }
    else if leb o.shares n
    then record {
      left = rest.left;
      orders = rest.orders;
      refs = ref_of o ∷ rest.refs;
      executed = execution (ref_of o) o.shares ∷ rest.executed;
    }
    else record {
      left = 0;
      orders = with_shares o (o.shares - n) ∷ os;
      refs = [];
      executed = execution (ref_of o) n ∷ [];
    }

abbrev pub Positive : List Order → Type 0
Positive = All (λ o. 0 < o.shares)

pub total_shares : List Order → ℕ
total_shares [] = 0
total_shares (o ∷ os) = o.shares + total_shares os

unfoldable pub total_executed : List ItchOrderExecuted → ℕ
total_executed [] = 0
total_executed (e ∷ es) = e.executed_shares + total_executed es

-- No share is lost or made up on either side, and matching stops only when one side is exhausted.
pub fill_conserves :
    (n : ℕ) (os : List Order)
    → (total_executed (fill n os).executed + (fill n os).left ≡ n)
      × (total_executed (fill n os).executed + total_shares (fill n os).orders ≡ total_shares os)
      × (((fill n os).left ≡ 0) ⊎ ((fill n os).orders ≡ []))
unfolding fill total_executed total_shares execution
fill_conserves n [] = (omega arith, omega arith, inr refl)
fill_conserves n (o ∷ os) = ground (arith, fill_conserves (n - o.shares) os)

-- The orders that stay have shares left.
pub fill-Positive : (n : ℕ) (os : List Order) → Positive os → Positive (fill n os).orders
unfolding fill
fill-Positive n [] h = tt
fill-Positive n (o ∷ os) h = ground (arith, fill-Positive (n - o.shares) os)

pub fill-zero :
    (os : List Order) → fill 0 os ≡ record { left = 0; orders = os; refs = []; executed = [] }
unfolding fill
fill-zero [] = refl
fill-zero (o ∷ os) = refl

pub fill_all :
    (n : ℕ) (o : Order) (os : List Order)
    → o.shares ≤ n
    → 0 < n
    → ((fill n (o ∷ os)).left ≡ (fill (n - o.shares) os).left)
      × ((fill n (o ∷ os)).orders ≡ (fill (n - o.shares) os).orders)
      × ((fill n (o ∷ os)).refs ≡ ref_of o ∷ (fill (n - o.shares) os).refs)
      × ((fill n (o ∷ os)).executed
          ≡ execution (ref_of o) o.shares ∷ (fill (n - o.shares) os).executed)
unfolding fill
fill_all n o os all more = (ground arith, ground arith, ground arith, ground arith)

pub fill_part :
    (n : ℕ) (o : Order) (os : List Order)
    → n < o.shares
    → 0 < n
    → fill n (o ∷ os) ≡ record {
      left = 0;
      orders = with_shares o (o.shares - n) ∷ os;
      refs = [];
      executed = execution (ref_of o) n ∷ [];
    }
unfolding fill
fill_part n o os less more = ground arith
