-- ===== src/HashMap/Probe.antt =====
-- Where the loop that `insert`, `find` and `erase` begin with stops.
use orderbook.Prelude.{ℕ, zero, suc, ◌+◌, ◌-◌, ◌^◌, ◌≤◌, ◌<◌, ◌≡◌, ◌≢◌, ◌⊎◌, inl, inr, some, arith}
use native.Mathlib.Decide.{ℕ_discrete, dec_lt}
use orderbook.HashMap.{Entry, FlatHashMap, probe}
use orderbook.HashMap.Cycle.{dist, after, advance-after, dist-lt, dist_inj, after-lt, dist-after}

-- The slots from `h` up to `i` are neither empty nor hold the key.
abbrev pub Passed {ℓ} : {V : Type ℓ} → (empty_key c h key : ℕ) → (ℕ → Entry V) → ℕ → Type 0
Passed empty_key c h key t i =
    (s : ℕ) → s < c → dist c h s < dist c h i → ((t s).key ≢ empty_key) × ((t s).key ≢ key)

-- The slot at which the loop stops.
pub record Located {ℓ} {V : Type ℓ} (empty_key c h key : ℕ) (t : ℕ → Entry V) (i : ℕ) : Type 0 where
  pub bound : i < c
  pub stops : ((t i).key ≡ empty_key) ⊎ ((t i).key ≡ key)
  pub passed : Passed empty_key c h key t i

module _ {ℓ} {V : Type ℓ} (empty_key c h key : ℕ) (t : ℕ → Entry V) (hh : h < c) where
  Passed-after :
      (i : ℕ)
      → i < c
      → dist c h (after c i) ≡ dist c h i + 1
      → (t i).key ≢ empty_key
      → (t i).key ≢ key
      → Passed empty_key c h key t i
      → Passed empty_key c h key t (after c i)
  Passed-after i hi up ne other passed s hs lt = elim (dec_lt (dist c h s) (dist c h i)) [
    | yes before ↦ passed s hs before
    | no here ↦ rw (dist_inj h s i hh hs hi (omega arith)) (ne, other)
  ]

  module _ (empty : (e : ℕ) × (e < c) × ((t e).key ≡ empty_key)) where
    -- The empty slot is not among those passed.
    unpassed : (i : ℕ) → Passed empty_key c h key t i → dist c h i ≤ dist c h empty.0
    unpassed i passed = elim (dec_lt (dist c h empty.0) (dist c h i)) [
      | yes lt ↦ absurd ((passed empty.0 empty.1 lt).0 empty.2)
      | no ge ↦ omega arith
    ]

    before :
        {i : ℕ}
        → i < c
        → (t i).key ≢ empty_key
        → Passed empty_key c h key t i
        → dist c h i < dist c h empty.0
    before {i} hi ne passed = elim (ℕ_discrete (dist c h i) (dist c h empty.0)) [
      | yes e ↦ absurd (ne (rw (dist_inj h i empty.0 hh hi empty.1 e) empty.2))
      | no differs ↦ omega (arith, unpassed i passed)
    ]

module _ {ℓ} {V : Type ℓ} (empty_key : ℕ) (k : ℕ) (w : k ≤ 63) (h : ℕ) (hh : h < 2 ^ k) where
  -- The loop stops within the cycle, at the first slot that is empty or holds the key.
  pub probe-Located :
      (m : FlatHashMap V) (key fuel i : ℕ)
      → m.mask ≡ 2 ^ k - 1
      → (empty : (e : ℕ) × (e < 2 ^ k) × ((m.table e).key ≡ empty_key)) → i < 2 ^ k
      → Passed empty_key (2 ^ k) h key m.table i
      → 2 ^ k ≤ dist (2 ^ k) h i + fuel
      → (j : ℕ) × (probe empty_key m key fuel i ≡ some j)
        × Located empty_key (2 ^ k) h key m.table j
  unfolding probe
  probe-Located m key zero i mask empty hi passed enough = absurd (omega (arith, dist-lt h i hh hi))
  probe-Located m key (suc fuel) i mask empty hi passed enough =
      elim (ℕ_discrete (m.table i).key empty_key) [
        | yes is ↦ (i, ground arith, record { bound = hi; stops = inl is; passed = passed })
        | no taken ↦ elim (ℕ_discrete (m.table i).key key) [
          | yes is ↦ (i, ground arith, record { bound = hi; stops = inr is; passed = passed })
          | no other ↦
              let up =
                dist-after h i empty.0 hh hi empty.1
                  (before empty_key _ h key m.table hh empty hi taken passed) in
              let step = advance-after k m.mask i mask w hi in
              let (j, run, at) =
                probe-Located m key fuel (after (2 ^ k) i) mask empty (after-lt i hi)
                  (Passed-after empty_key _ h key m.table hh i hi up taken other passed)
                  (omega arith) in
              (j, ground (arith, run, step), at)
        ]
      ]
