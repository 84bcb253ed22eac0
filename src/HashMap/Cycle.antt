-- ===== src/HashMap/Cycle.antt =====
-- The masked operations of flat_hash_map.hpp, on the cycle of its slots.
use orderbook.Prelude.{ℕ, ◌-◌, ◌^◌, ◌≤◌, ◌<◌, ◌≡◌}
use orderbook.Prelude.Cycle.{bit_and-after, bit_and-dist}
use orderbook.HashMap.{advance, distance}
pub use orderbook.Prelude.Cycle.{
  dist, after, dist-lt, dist_inj, dist_self, after-lt, dist-after, dist-after_cases, after-dist,
  dist_between, crosses_iff,
}

pub advance-after :
    (k mask i : ℕ) → mask ≡ 2 ^ k - 1 → k ≤ 63 → i < 2 ^ k → advance mask i ≡ after (2 ^ k) i
unfolding advance
advance-after = bit_and-after

pub distance-dist :
    (k mask a b : ℕ)
    → mask ≡ 2 ^ k - 1
    → k ≤ 63
    → a < 2 ^ k
    → b < 2 ^ k
    → distance mask a b ≡ dist (2 ^ k) a b
unfolding distance
distance-dist = bit_and-dist
