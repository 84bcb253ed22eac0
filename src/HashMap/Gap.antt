-- ===== src/HashMap/Gap.antt =====
-- The loop of `erase` that closes the gap, by Knuth's algorithm R.
use native.Mathlib.Decide.{ℕ_discrete, dec_lt}
use orderbook.Prelude.{
  ℕ, ◌+◌, ◌-◌, ◌^◌, ◌≤◌, ◌<◌, ◌≡◌, sym, ap, ◌∙◌, ◌≢◌, inl, inr, Bool, some, arith,
}
use orderbook.Prelude.Store.{update}
use orderbook.HashMap.{Entry, FlatHashMap, hash, crosses, move}
use orderbook.HashMap.Cycle.{
  dist, after, dist_self, after-lt, dist-after_cases, dist-lt, dist_inj, dist_between,
}
use orderbook.HashMap.Valid.{
  IsValid, home, hash-lt, occupied, occupied-update, view, view_below, view_present, view-update_ne,
}

-- The table has a hole at `i`, and the entries behind it up to `j` need not move.
pub record Gap {ℓ} {V : Type ℓ} (empty_key : ℕ) (identity : Bool) (k : ℕ) (m : FlatHashMap V)
    (i j : ℕ) : Type 0 where
  pub width : k ≤ 63
  pub mask : m.mask ≡ 2 ^ k - 1
  pub hole : i < 2 ^ k
  pub empty : (m.table i).key ≡ empty_key
  pub last : j < 2 ^ k
  pub path :
      (a s : ℕ)
      → a < 2 ^ k
      → s < 2 ^ k
      → (m.table a).key ≢ empty_key
      → dist (2 ^ k) (home empty_key identity m (m.table a).key) s
        < dist (2 ^ k) (home empty_key identity m (m.table a).key) a
      → s ≢ i
      → (m.table s).key ≢ empty_key
  pub settled :
      (a : ℕ)
      → a < 2 ^ k
      → (m.table a).key ≢ empty_key
      → dist (2 ^ k) i a ≤ dist (2 ^ k) i j
      → dist (2 ^ k) (home empty_key identity m (m.table a).key) a
        ≤ dist (2 ^ k) (home empty_key identity m (m.table a).key) i
  pub unique :
      (a b : ℕ)
      → a < 2 ^ k
      → b < 2 ^ k
      → (m.table a).key ≢ empty_key
      → (m.table a).key ≡ (m.table b).key
      → a ≡ b
  pub room : occupied empty_key (2 ^ k) m.table < 2 ^ k

module _ {ℓ} {V : Type ℓ} {empty_key : ℕ} {identity : Bool} {k : ℕ} {m : FlatHashMap V} {i j : ℕ}
    (g : Gap empty_key identity k m i j) where
  abbrev pub h_of : ℕ → ℕ
  h_of a = hash identity m.mask (m.table a).key

  pub home-lt : (a : ℕ) → h_of a < 2 ^ k
  home-lt a = hash-lt identity k m.mask (m.table a).key g.mask

  -- An entry whose way crosses the hole lies behind the last slot read.
  behind :
      (a : ℕ)
      → a < 2 ^ k
      → (m.table a).key ≢ empty_key
      → dist (2 ^ k) (h_of a) i < dist (2 ^ k) (h_of a) a
      → dist (2 ^ k) i j < dist (2 ^ k) i a
  behind a ha taken lt = elim (dec_lt (dist (2 ^ k) i j) (dist (2 ^ k) i a)) [
    | yes far ↦ far
    | no near ↦ absurd (omega (arith, g.settled a ha taken (omega arith)))
  ]

  -- If the next slot is empty, no way crosses the hole.
  none_crosses :
      (a : ℕ)
      → a < 2 ^ k
      → (m.table (after (2 ^ k) j)).key ≡ empty_key
      → (m.table a).key ≢ empty_key
      → ¬ (dist (2 ^ k) (h_of a) i < dist (2 ^ k) (h_of a) a)
  none_crosses a ha stop taken lt =
      let n = after (2 ^ k) j in
      let hn = after-lt j g.last in
      let far = behind a ha taken lt in
      elim (dist-after_cases i j g.hole g.last) [
        | inr (back, full) ↦ absurd (omega (arith, full, far, dist-lt i a g.hole ha))
        | inl up ↦ elim (ℕ_discrete (dist (2 ^ k) i n) (dist (2 ^ k) i a)) [
          | yes same ↦
              taken (ap (λ s. (m.table s).key) (sym (dist_inj i n a g.hole hn ha same)) ∙ stop)
          | no differs ↦
              let past =
                dist_between (h_of a) i n a (home-lt a) g.hole hn ha lt (omega (arith, up, far)) in
              g.path a n ha hn taken past (λ e. no_way up e) stop
        ]
      ]
    where
      no_way : dist (2 ^ k) i (after (2 ^ k) j) ≡ dist (2 ^ k) i j + 1 → after (2 ^ k) j ≢ i
      no_way up e = omega (arith, up, ap (dist (2 ^ k) i) e, dist_self (2 ^ k) i)

  -- The slot behind the last one is empty: the table is well formed.
  pub Gap-IsValid : (m.table (after (2 ^ k) j)).key ≡ empty_key → IsValid empty_key identity k m
  Gap-IsValid stop = record {
    width = g.width;
    mask = g.mask;
    path = λ a s ha hs taken lt. elim (ℕ_discrete s i) [
      | no other ↦ g.path a s ha hs taken lt other
      | yes same ↦ absurd (none_crosses a ha stop taken (rw same at lt))
    ];
    unique = g.unique;
    room = g.room;
  }

  module _ (taken : (m.table (after (2 ^ k) j)).key ≢ empty_key) where
    abbrev pub n : ℕ
    n = after (2 ^ k) j

    pub n-lt : n < 2 ^ k
    n-lt = after-lt j g.last

    pub n-ne : i ≢ n
    n-ne e = taken (ap (λ s. (m.table s).key) (sym e) ∙ g.empty)

    up : dist (2 ^ k) i n ≡ dist (2 ^ k) i j + 1
    up = elim (dist-after_cases i j g.hole g.last) [
      | inl e ↦ e
      | inr (back, full) ↦ absurd (n-ne (sym back))
    ]

    -- The entry stays: the loop goes on to the next slot.
    pub Gap-kept :
        dist (2 ^ k) (h_of n) n ≤ dist (2 ^ k) (h_of n) i → Gap empty_key identity k m i n
    Gap-kept stays = record {
      width = g.width;
      mask = g.mask;
      hole = g.hole;
      empty = g.empty;
      last = n-lt;
      path = g.path;
      settled = λ a ha occ near. elim (ℕ_discrete (dist (2 ^ k) i a) (dist (2 ^ k) i n)) [
        | yes same ↦ rw (dist_inj i a n g.hole ha n-lt same) stays
        | no differs ↦ g.settled a ha occ (omega (arith, up))
      ];
      unique = g.unique;
      room = g.room;
    }

    pub moved_occupied :
        occupied empty_key (2 ^ k) (move empty_key m i n).table ≡ occupied empty_key (2 ^ k) m.table
    moved_occupied =
        let t = update m.table i (m.table n) in
        let blank : Entry V = record { key = empty_key; value = (t n).value } in
        ground (
          arith,
          occupied-update empty_key (2 ^ k) i m.table (m.table n) g.hole,
          occupied-update empty_key (2 ^ k) n t blank n-lt,
          g.empty,
          n-ne,
          taken,
        )

    left_empty :
        (a : ℕ)
        → a < 2 ^ k
        → dist (2 ^ k) n a ≡ dist (2 ^ k) n n
        → ((move empty_key m i n).table a).key ≡ empty_key
    left_empty a ha same = let e = dist_inj n a n n-lt ha n-lt same in ground arith

    -- The entry fills the hole: its slot is the new hole.
    pub Gap-moved :
        dist (2 ^ k) (h_of n) i < dist (2 ^ k) (h_of n) n
        → Gap empty_key identity k (move empty_key m i n) n n
    Gap-moved crosses = record {
      width = g.width;
      mask = g.mask;
      hole = n-lt;
      empty = ground arith;
      last = n-lt;
      path = λ a s ha hs occ lt other.
          ground (arith, g.path a s ha hs, g.path n s n-lt hs, n-ne, taken);
      settled = λ a ha occ near.
          absurd (occ (left_empty a ha (omega (arith, near, dist_self (2 ^ k) n))));
      unique = λ a b ha hb occ e.
          ground (arith, g.unique a b ha hb, g.unique n b n-lt hb, g.unique a n ha n-lt, n-ne);
      room = omega (arith, moved_occupied, g.room);
    }

    -- The move does not change the finite map.
    pub moved_view :
        (key : ℕ)
        → key ≢ empty_key
        → view empty_key identity k (move empty_key m i n) key ≡ view empty_key identity k m key
    moved_view key real = elim (ℕ_discrete (m.table n).key key) [
      | yes here ↦
          let t' = (move empty_key m i n).table in
          let old =
            view_present empty_key (2 ^ k) m.table key n n-lt here
              (λ b hb e. g.unique n b n-lt hb taken (here ∙ sym e)) in
          let new : view_below empty_key (2 ^ k) t' key ≡ some (t' i).value =
            view_present empty_key (2 ^ k) t' key i g.hole (ground arith)
              (λ b hb e. ground (arith, g.unique n b n-lt hb, n-ne)) in
          ground (arith, old, new, n-ne)
      | no other ↦
          let t = update m.table i (m.table n) in
          let blank : Entry V = record { key = empty_key; value = (t n).value } in
          view-update_ne empty_key (2 ^ k) n t blank key (ground (arith, n-ne)) (ground arith)
          ∙ view-update_ne empty_key (2 ^ k) i m.table (m.table n) key (ground (arith, g.empty))
              other
    ]
