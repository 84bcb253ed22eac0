-- ===== src/HashMap/Find.antt =====
-- `find` and `insert` against the finite map of the table.
use native.Mathlib.Decide.{ℕ_discrete, dec_lt}
use orderbook.Prelude.{
  ℕ, ◌+◌, ◌^◌, ◌≤◌, ◌<◌, ◌≡◌, sym, ap, ◌∙◌, ◌≢◌, ◌⊎◌, inl, inr, Bool, none, some, arith, ◌==◌,
  if◌then◌else◌, pow-pos,
}
use orderbook.Prelude.Store.{update}
use orderbook.HashMap.{Entry, FlatHashMap, hash, locate, find, insert}
use orderbook.HashMap.Cycle.{dist, dist_self, dist_inj}
use orderbook.HashMap.Valid.{
  IsValid, hash-lt, occupied, occupied-update, empty_slot, view, view_below, view_absent,
  view_present, view-update_ne,
}
use orderbook.HashMap.Probe.{Located, probe-Located}

module _ {ℓ} {V : Type ℓ} {empty_key : ℕ} {identity : Bool} {k : ℕ} {m : FlatHashMap V}
    (v : IsValid empty_key identity k m) (key : ℕ) where
  abbrev pub LocatedIn : ℕ → Type 0
  LocatedIn i = Located empty_key (2 ^ k) (hash identity m.mask key) key m.table i

  pub locate-Located : (i : ℕ) × (locate empty_key identity m key ≡ some i) × LocatedIn i
  unfolding locate
  locate-Located =
      let h = hash identity m.mask key in
      let hh = hash-lt identity k m.mask key v.mask in
      let start : dist (2 ^ k) h h ≡ 0 = dist_self (2 ^ k) h in
      probe-Located empty_key k v.width h hh m key (m.mask + 1) h v.mask
        (empty_slot empty_key (2 ^ k) m.table v.room) hh (λ s hs lt. absurd (omega (arith, start)))
        (omega (arith, v.mask, pow-pos k))

  module _ (real : key ≢ empty_key) (i : ℕ) (at : LocatedIn i) where
    -- The probe stopped at an empty slot: no slot holds the key.
    pub absent : (m.table i).key ≡ empty_key → (a : ℕ) → a < 2 ^ k → (m.table a).key ≢ key
    absent is a ha e =
        let h = hash identity m.mask key in
        let hh = hash-lt identity k m.mask key v.mask in
        elim (dec_lt (dist (2 ^ k) h a) (dist (2 ^ k) h i)) [
          | yes lt ↦ (at.passed a ha lt).1 e
          | no ge ↦ elim (ℕ_discrete (dist (2 ^ k) h a) (dist (2 ^ k) h i)) [
            | yes same ↦
                real (sym e ∙ ap (λ s. (m.table s).key) (dist_inj h a i hh ha at.bound same) ∙ is)
            | no differs ↦
                v.path a i ha at.bound (λ gone. real (sym e ∙ gone)) (rw e (omega arith)) is
          ]
        ]

    pub view_found :
        (m.table i).key ≡ key → view empty_key identity k m key ≡ some (m.table i).value
    view_found is =
        view_present empty_key (2 ^ k) m.table key i at.bound is
          λ b hb e. v.unique i b at.bound hb (λ gone. real (sym is ∙ gone)) (is ∙ sym e)

    pub view_missing : (m.table i).key ≡ empty_key → view empty_key identity k m key ≡ none
    view_missing is = view_absent empty_key (2 ^ k) m.table key (absent is)

  -- On a well-formed table, for a key other than the empty key, `find` returns what the finite
  -- map of the table holds under it.
  pub find-view :
      key ≢ empty_key → find empty_key identity m key ≡ some (view empty_key identity k m key)
  unfolding find
  find-view real =
      let (i, run, at) = locate-Located in
      elim at.stops [
        | inl is ↦ ground (arith, view_missing real i at is, run)
        | inr is ↦ ground (arith, view_found real i at is, run)
      ]

module _ {ℓ} {V : Type ℓ} (empty_key : ℕ) (t : ℕ → Entry V) (e : Entry V) where
  -- A write to a slot that is free or holds the key writes the map at the key.
  view-update :
      (n i j : ℕ)
      → i < n
      → ((t i).key ≡ empty_key) ⊎ ((t i).key ≡ e.key)
      → j ≢ empty_key
      → ((a : ℕ) → a < n → (t a).key ≡ e.key → a ≡ i)
      → view_below empty_key n (update t i e) j
        ≡ (if e.key == j then some e.value else view_below empty_key n t j)
  view-update n i j lt stops real only = elim (ℕ_discrete e.key j) [
    | yes same ↦
        let here : view_below empty_key n (update t i e) j ≡ some (update t i e i).value =
          view_present empty_key n (update t i e) j i lt (ground arith)
            (λ b hb is. ground (arith, only b hb)) in
        ground (arith, here)
    | no other ↦ ground (arith, view-update_ne empty_key n i t e j (ground arith) other)
  ]

module _ {ℓ} {V : Type ℓ} {empty_key : ℕ} {identity : Bool} {k : ℕ} {m : FlatHashMap V}
    (v : IsValid empty_key identity k m) (key : ℕ) (value : V) (real : key ≢ empty_key) where
  -- The slot that an insertion writes is the only one that may hold the key.
  only_slot : (i a : ℕ) → LocatedIn v key i → a < 2 ^ k → (m.table a).key ≡ key → a ≡ i
  only_slot i a at ha is = elim at.stops [
    | inl free ↦ absurd (absent v key real i at free a ha is)
    | inr held ↦ v.unique a i ha at.bound (ground arith) (is ∙ sym held)
  ]

  written : ℕ → FlatHashMap V
  written i = record m { table = update m.table i (record { key = key; value = value }) }

  written-IsValid :
      (i : ℕ)
      → LocatedIn v key i
      → occupied empty_key (2 ^ k) m.table + 1 < 2 ^ k
      → IsValid empty_key identity k (written i)
  unfolding written
  written-IsValid i at spare = record {
    width = v.width;
    mask = v.mask;
    path = λ a s ha hs taken lt. ground (arith, v.path a s ha hs, at.passed s hs);
    unique =
        λ a b ha hb taken e. ground (arith, only_slot i a at ha, only_slot i b at hb, v.unique a b);
    room = ground (
      arith,
      occupied-update empty_key (2 ^ k) i m.table (record { key = key; value = value }) at.bound,
    );
  }

  one_more :
      (i : ℕ)
      → LocatedIn v key i
      → occupied empty_key (2 ^ k) (written i).table ≤ occupied empty_key (2 ^ k) m.table + 1
  unfolding written
  one_more i at = ground (
    arith,
    occupied-update empty_key (2 ^ k) i m.table (record { key = key; value = value }) at.bound,
  )

  -- On a well-formed table with two slots free at least, for a key other than the empty key,
  -- `insert` returns a well-formed table with at most one slot more in use, that holds the value
  -- under this key, and what the table held under every other.
  pub insert-view :
      occupied empty_key (2 ^ k) m.table + 1 < 2 ^ k
      → (m' : FlatHashMap V) × (insert empty_key identity m key value ≡ some m')
        × IsValid empty_key identity k m'
        × (occupied empty_key (2 ^ k) m'.table ≤ occupied empty_key (2 ^ k) m.table + 1)
        × ((j : ℕ)
            → j ≢ empty_key
            → view empty_key identity k m' j
              ≡ (if key == j then some value else view empty_key identity k m j))
  unfolding insert written
  insert-view spare =
      let (i, run, at) = locate-Located v key in
      (
        written i,
        ground (arith, run),
        written-IsValid i at spare,
        one_more i at,
        λ j real_j.
            view-update empty_key m.table _ (2 ^ k) i j at.bound at.stops real_j
              (λ a ha is. only_slot i a at ha is),
      )
