-- ===== src/HashMap/Erase.antt =====
-- `erase` against the finite map of the table.
use native.Mathlib.Decide.{ℕ_discrete, dec_lt}
use orderbook.Prelude.{
  ℕ, zero, suc, ◌+◌, ◌^◌, ◌≤◌, ◌<◌, ◌≡◌, refl, sym, ap, ◌∙◌, ◌≢◌, inl, inr, Bool, Option, none,
  some, arith, leb, ◌==◌, if◌then◌else◌, pow-pos,
}
use orderbook.HashMap.{Entry, FlatHashMap, hash, clear_at, move, close_gap, erase}
use orderbook.HashMap.Cycle.{
  dist, after, advance-after, distance-dist, dist_self, after-lt, after-dist, crosses_iff, dist-lt,
  dist_inj,
}
use orderbook.HashMap.Valid.{
  IsValid, occupied, occupied-update, empty_slot, view, view_absent, view-update_ne,
}
use orderbook.HashMap.Find.{locate-Located, view_missing}
use orderbook.HashMap.Gap.{
  Gap, Gap-IsValid, Gap-kept, Gap-moved, moved_view, moved_occupied, n-lt, n-ne, home-lt, h_of,
}

module _ {ℓ} {V : Type ℓ} (empty_key : ℕ) (identity : Bool) (k : ℕ) where
  -- The same finite map under every key but the reserved one.
  abbrev SameView : FlatHashMap V → FlatHashMap V → Type ℓ
  SameView m' m =
      (key : ℕ)
      → key ≢ empty_key
      → view empty_key identity k m' key ≡ view empty_key identity k m key

  abbrev Closed : FlatHashMap V → Option (FlatHashMap V) → Type ℓ
  Closed m r =
      (m' : FlatHashMap V) × (r ≡ some m')
      × IsValid empty_key identity k m'
      × (occupied empty_key (2 ^ k) m'.table ≡ occupied empty_key (2 ^ k) m.table)
      × SameView m' m

  -- One round of the loop, on the cycle.
  close_gap_step :
      (fuel : ℕ) (m : FlatHashMap V) (i j : ℕ)
      → Gap empty_key identity k m i j
      → let n = after (2 ^ k) j in
        let h = hash identity m.mask (m.table n).key in
        close_gap empty_key identity (suc fuel) m i j ≡ (
          if (m.table n).key == empty_key
          then some m
          else if leb (dist (2 ^ k) i n) (dist (2 ^ k) h n)
          then close_gap empty_key identity fuel (move empty_key m i n) n n
          else close_gap empty_key identity fuel m i n)
  unfolding close_gap
  close_gap_step fuel m i j g =
      let n = after (2 ^ k) j in
      let hn = after-lt j g.last in
      let step = advance-after k m.mask j g.mask g.width g.last in
      let d = distance-dist k m.mask i n g.mask g.width g.hole hn in
      let d' = distance-dist k m.mask _ n g.mask g.width (home-lt g n) hn in
      rw (step, d, d') (ground arith)

  close_gap-Closed :
      (fuel : ℕ) (m : FlatHashMap V) (i j e : ℕ)
      → Gap empty_key identity k m i j
      → e < 2 ^ k
      → (m.table e).key ≡ empty_key
      → e ≢ i
      → e ≢ j
      → dist (2 ^ k) j e ≤ fuel
      → Closed m (close_gap empty_key identity fuel m i j)
  close_gap-Closed zero m i j e g he is ne_i ne_j enough =
      absurd (omega (arith, after-dist j e g.last he (λ (q : j ≡ e). ne_j (sym q))))
  close_gap-Closed (suc fuel) m i j e g he is ne_i ne_j enough =
      let n = after (2 ^ k) j in
      let near = after-dist j e g.last he (λ (q : j ≡ e). ne_j (sym q)) in
      rw (close_gap_step fuel m i j g) (elim (ℕ_discrete (m.table n).key empty_key) [
        | yes stop ↦ (m, ground arith, Gap-IsValid g stop, refl, λ key real. refl)
        | no taken ↦
            let ne_n : e ≢ n = λ q. taken (ap (λ s. (m.table s).key) (sym q) ∙ is) in
            let way =
              crosses_iff (h_of g n) i n (home-lt g n) g.hole (n-lt g taken) (n-ne g taken) in
            elim (dec_lt (dist (2 ^ k) (h_of g n) i) (dist (2 ^ k) (h_of g n) n)) [
              | yes on_way ↦
                  let crosses = way.1 on_way in
                  let (m', run, valid, used, same) =
                    close_gap-Closed fuel (move empty_key m i n) n n e (Gap-moved g taken on_way) he
                      (ground arith) ne_n ne_n (omega (arith, near)) in
                  (
                    m',
                    ground (arith, run),
                    valid,
                    used ∙ moved_occupied g taken,
                    λ key real. same key real ∙ moved_view g taken key real,
                  )
              | no off_way ↦
                  let stays : ¬ (dist (2 ^ k) i n ≤ dist (2 ^ k) (h_of g n) n) =
                    λ p. off_way (way.0 p) in
                  let (m', run, valid, used, same) =
                    close_gap-Closed fuel m i n e (Gap-kept g taken (omega arith)) he is ne_i ne_n
                      (omega (arith, near)) in
                  (m', ground (arith, run), valid, used, same)
            ]
      ])

module _ {ℓ} {V : Type ℓ} {empty_key : ℕ} {identity : Bool} {k : ℕ} {m : FlatHashMap V}
    (v : IsValid empty_key identity k m) (key : ℕ) (real : key ≢ empty_key) where
  module _ (i : ℕ) (hi : i < 2 ^ k) (held : (m.table i).key ≡ key) where
    cleared : FlatHashMap V
    cleared = clear_at empty_key m i

    cleared_occupied :
        occupied empty_key (2 ^ k) cleared.table + 1 ≡ occupied empty_key (2 ^ k) m.table
    unfolding cleared
    cleared_occupied =
        let blank : Entry V = record { key = empty_key; value = (m.table i).value } in
        ground (arith, occupied-update empty_key (2 ^ k) i m.table blank hi)

    cleared-Gap : Gap empty_key identity k cleared i i
    unfolding cleared
    cleared-Gap = record {
      width = v.width;
      mask = v.mask;
      hole = hi;
      empty = ground arith;
      last = hi;
      path = λ a s ha hs occ lt other. ground (arith, v.path a s ha hs);
      settled = λ a ha occ near.
          let e = dist_inj i a i hi ha hi (omega (arith, near, dist_self (2 ^ k) i)) in
          absurd (occ (ground arith));
      unique = λ a b ha hb occ e. ground (arith, v.unique a b ha hb);
      room = omega (arith, cleared_occupied, v.room);
    }

    cleared-view :
        (j : ℕ)
        → j ≢ empty_key
        → view empty_key identity k cleared j
          ≡ (if key == j then none else view empty_key identity k m j)
    unfolding cleared
    cleared-view j real_j = elim (ℕ_discrete key j) [
      | yes same ↦
          let gone =
            view_absent empty_key (2 ^ k) (clear_at empty_key m i).table j
              (λ a ha e. ground (arith, v.unique i a hi ha)) in
          ground (arith, gone)
      | no other ↦
          let blank : Entry V = record { key = empty_key; value = (m.table i).value } in
          ground (arith, view-update_ne empty_key (2 ^ k) i m.table blank j)
    ]

    erase_held :
        (m' : FlatHashMap V) × (close_gap empty_key identity (m.mask + 1) cleared i i ≡ some m')
        × IsValid empty_key identity k m'
        × (occupied empty_key (2 ^ k) m'.table ≤ occupied empty_key (2 ^ k) m.table)
        × ((j : ℕ)
            → j ≢ empty_key
            → view empty_key identity k m' j
              ≡ (if key == j then none else view empty_key identity k m j))
    unfolding cleared
    erase_held =
        let (e, he, is) = empty_slot empty_key (2 ^ k) m.table v.room in
        let ne : e ≢ i = λ q. real (sym held ∙ ap (λ s. (m.table s).key) (sym q) ∙ is) in
        let (m', run, valid, used, same) =
          close_gap-Closed empty_key identity k (m.mask + 1) (clear_at empty_key m i) i i e
            cleared-Gap he (ground arith) ne ne
            (omega (arith, v.mask, pow-pos k, dist-lt i e hi he)) in
        (
          m',
          run,
          valid,
          omega (arith, used, cleared_occupied),
          λ j real_j. same j real_j ∙ cleared-view j real_j,
        )

  -- On a well-formed table, for a key other than the empty key, `erase` returns a well-formed
  -- table with no more slots in use, that holds what the table held under every other key, and
  -- nothing under this one.
  pub erase-view :
      (m' : FlatHashMap V) × (erase empty_key identity m key ≡ some m')
      × IsValid empty_key identity k m'
      × (occupied empty_key (2 ^ k) m'.table ≤ occupied empty_key (2 ^ k) m.table)
      × ((j : ℕ)
          → j ≢ empty_key
          → view empty_key identity k m' j
            ≡ (if key == j then none else view empty_key identity k m j))
  unfolding erase cleared
  erase-view =
      let (i, run, at) = locate-Located v key in
      elim at.stops [
        | inl free ↦
            let missing = view_missing v key real i at free in
            (m, ground (arith, run), v, omega arith, λ j real_j. ground (arith, missing))
        | inr held ↦
            let (m', closed, valid, used, same) = erase_held i at.bound held in
            (m', ground (arith, run, closed), valid, used, same)
      ]
