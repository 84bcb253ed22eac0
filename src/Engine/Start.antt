-- ===== src/Engine/Start.antt =====
-- The engine that the constructor of matching_engine.cpp makes.
use orderbook.Prelude.{
  ℕ, zero, suc, ◌^◌, ◌≤◌, ◌≡◌, refl, ◌≢◌, Bool, true, false, [], none, arith, pow-pos,
}
use orderbook.Pool.{empty_pool}
use orderbook.HashMap
use orderbook.HashMap.{Entry}
use orderbook.HashMap.Valid.{occupied, view_absent}
use orderbook.Book.{new_book}
use orderbook.Book.Sides.{Stocked}
use orderbook.Book.Enter.{side_of}
use orderbook.Book.Trade.{new_side-Stocked}
use orderbook.Engine.{OrderLocation, no_ref, new_engine}
use orderbook.Engine.Orders.{location}
use orderbook.Engine.Maps.{map_used}
use orderbook.Engine.Books.{Consistent}

no_location : OrderLocation
no_location = record { stock_locate = 0; pool_idx = 0 }

occupied-new : (n : ℕ) → occupied no_ref n (λ _. record { key = no_ref; value = no_location }) ≡ 0
unfolding occupied
occupied-new zero = refl
occupied-new (suc n) = ground (arith, occupied-new n)

module _ (k : ℕ) (wide : k ≤ 63) where
  new_engine-used : map_used k (new_engine (2 ^ k)).order_map ≡ 0
  unfolding new_engine HashMap.new no_location
  new_engine-used = occupied-new (2 ^ k)

  new_engine-location : (j : ℕ) → j ≢ no_ref → location k (new_engine (2 ^ k)) j ≡ none
  unfolding new_engine HashMap.new
  new_engine-location j real =
      view_absent no_ref (2 ^ k) (new_engine (2 ^ k)).order_map.table j
        (λ a lt e. ground (arith, e))

  new-Stocked : (b : Bool) → Stocked empty_pool b (side_of b new_book) (λ p. []) []
  unfolding new_book empty_pool
  new-Stocked true = new_side-Stocked true empty_pool [] (omega arith, refl)
  new-Stocked false = new_side-Stocked false empty_pool [] (omega arith, refl)

  -- For `k` up to 63, a new engine whose map has `2 ^ k` slots is consistent.
  pub new_engine-Consistent : Consistent k (new_engine (2 ^ k))
  unfolding new_engine HashMap.new
  new_engine-Consistent = record {
    queue = λ b i p. [];
    free_list = [];
    map = record {
      width = wide;
      mask = refl;
      path = λ a s ha hs taken lt. absurd (taken refl);
      unique = λ a b ha hb taken e. absurd (taken refl);
      room = omega (arith, new_engine-used, pow-pos k);
    };
    sides = λ b i. new-Stocked b;
    apart = λ i p ne. absurd (ne refl);
    listed = λ b i p a h. absurd (ground arith);
    rests = λ ref loc real found. absurd (ground (arith, new_engine-location ref real, found));
  }
