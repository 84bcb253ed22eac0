-- ===== src/HashMap/Valid.antt =====
-- What makes a table of flat_hash_map.hpp well formed, and the finite map that it stands for.
use orderbook.Prelude.{
  ℕ, zero, suc, ◌+◌, ◌-◌, ◌^◌, ◌≤◌, ◌<◌, ◌≡◌, refl, ◌≢◌, Bool, true, false, Option, none, some,
  arith, ◌==◌, if◌then◌else◌, bit_and_mask, pow-pos,
}
use native.Mathlib.Nat.{mod-lt}
use native.Mathlib.Decide.{ℕ_discrete}
use orderbook.Prelude.Store.{update}
use orderbook.HashMap.{Entry, FlatHashMap, hash}
use orderbook.HashMap.Cycle.{dist}

-- How many of the first `n` slots are in use.
abbrev bit : ℕ → ℕ → ℕ
bit empty_key key = if key == empty_key then 0 else 1

module _ {ℓ} {V : Type ℓ} (empty_key : ℕ) where
  unfoldable pub occupied : ℕ → (ℕ → Entry V) → ℕ
  occupied zero t = 0
  occupied (suc n) t = occupied n t + bit empty_key (t n).key

  occupied-update_of_le :
      (n i : ℕ) (t : ℕ → Entry V) (e : Entry V) → n ≤ i → occupied n (update t i e) ≡ occupied n t
  unfolding occupied
  occupied-update_of_le zero i t e h = refl
  occupied-update_of_le (suc n) i t e h = ground (arith, occupied-update_of_le n i t e)

  pub occupied-update :
      (n i : ℕ) (t : ℕ → Entry V) (e : Entry V)
      → i < n
      → occupied n (update t i e) + bit empty_key (t i).key ≡ occupied n t + bit empty_key e.key
  unfolding occupied
  occupied-update zero i t e h = absurd (omega arith)
  occupied-update (suc n) i t e h = elim (ℕ_discrete i n) [
    | yes last ↦ ground (arith, occupied-update_of_le n i t e)
    | no other ↦ ground (arith, occupied-update n i t e)
  ]

  -- A table that is not full has an empty slot.
  pub empty_slot :
      (n : ℕ) (t : ℕ → Entry V) → occupied n t < n → (e : ℕ) × (e < n) × ((t e).key ≡ empty_key)
  unfolding occupied
  empty_slot zero t h = absurd (omega arith)
  empty_slot (suc n) t h = elim (ℕ_discrete (t n).key empty_key) [
    | yes here ↦ (n, omega arith, here)
    | no taken ↦ let (e, lt, is) = empty_slot n t (ground arith) in (e, omega arith, is)
  ]

  -- The finite map: the value of the slot that holds the key.
  unfoldable pub view_below : ℕ → (ℕ → Entry V) → ℕ → Option V
  view_below zero t key = none
  view_below (suc n) t key = if (t n).key == key then some (t n).value else view_below n t key

  pub view_absent :
      (n : ℕ) (t : ℕ → Entry V) (key : ℕ)
      → ((a : ℕ) → a < n → (t a).key ≢ key)
      → view_below n t key ≡ none
  unfolding view_below
  view_absent zero t key h = refl
  view_absent (suc n) t key h = ground (arith, h n, view_absent n t key (λ a lt. h a (omega arith)))

  pub view_present :
      (n : ℕ) (t : ℕ → Entry V) (key a : ℕ)
      → a < n
      → (t a).key ≡ key
      → ((b : ℕ) → b < n → (t b).key ≡ key → a ≡ b)
      → view_below n t key ≡ some (t a).value
  unfolding view_below
  view_present zero t key a lt is unique = absurd (omega arith)
  view_present (suc n) t key a lt is unique = elim (ℕ_discrete a n) [
    | yes last ↦ ground arith
    | no other ↦
        ground
          (arith, unique n, view_present n t key a (omega arith) is (λ b h. unique b (omega arith)))
  ]

  -- A write that neither drops nor brings the key does not change what the map holds under it.
  pub view-update_ne :
      (n i : ℕ) (t : ℕ → Entry V) (e : Entry V) (key : ℕ)
      → (t i).key ≢ key
      → e.key ≢ key
      → view_below n (update t i e) key ≡ view_below n t key
  unfolding view_below
  view-update_ne zero i t e key old new = refl
  view-update_ne (suc n) i t e key old new = ground (arith, view-update_ne n i t e key old new)

module _ {ℓ} {V : Type ℓ} (empty_key : ℕ) (identity : Bool) where
  abbrev pub home : FlatHashMap V → ℕ → ℕ
  home m key = hash identity m.mask key

  -- `2 ^ k` slots, one slot for a key, no empty slot between a key's home and its place, and room.
  pub record IsValid (k : ℕ) (m : FlatHashMap V) : Type 0 where
    pub width : k ≤ 63
    pub mask : m.mask ≡ 2 ^ k - 1
    pub path :
        (a s : ℕ)
        → a < 2 ^ k
        → s < 2 ^ k
        → (m.table a).key ≢ empty_key
        → dist (2 ^ k) (home m (m.table a).key) s < dist (2 ^ k) (home m (m.table a).key) a
        → (m.table s).key ≢ empty_key
    pub unique :
        (a b : ℕ)
        → a < 2 ^ k
        → b < 2 ^ k
        → (m.table a).key ≢ empty_key
        → (m.table a).key ≡ (m.table b).key
        → a ≡ b
    pub room : occupied empty_key (2 ^ k) m.table < 2 ^ k

  abbrev pub view : ℕ → FlatHashMap V → ℕ → Option V
  view k m = view_below empty_key (2 ^ k) m.table

pub hash-lt : (identity : Bool) (k mask key : ℕ) → mask ≡ 2 ^ k - 1 → hash identity mask key < 2 ^ k
unfolding hash
hash-lt true k mask key e = rw (e, bit_and_mask) (mod-lt _ (pow-pos k))
hash-lt false k mask key e = rw (e, bit_and_mask) (mod-lt _ (pow-pos k))
