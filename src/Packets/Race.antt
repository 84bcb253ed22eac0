-- ===== src/Packets/Race.antt =====
-- Every interleaving of the two threads of packet_pool.hpp.
use orderbook.Prelude.{
  ℕ, ◌≤◌, ◌≡◌, refl, sym, subst, ◌⊎◌, inl, inr, Bool, true, false, List, [], ◌∷◌, Option, none,
  some, arith, has, ◌==◌, ◌&&◌, not, Bool-cases,
}
use native.Mathlib.Decide.{ℕ_discrete}
use orderbook.Prelude.Store.{update}
use orderbook.Packets.{PacketPool, pool_invalid}
use orderbook.Packets.Threads.{
  Local, idle, acquire_loaded, acquire_linked, release_loaded, release_linked, set_head, go,
  Threads, Action, begin_acquire, begin_release, access, taken_by, is_idle, act, run_actions,
}
use orderbook.Packets.Shared.{
  Shared, Shared-swap, Ready, Releases, returning, head-view, pop-Shared, push-Shared, link-Shared,
}

-- A step that only moves `me`.
moved :
    (n : ℕ → ℕ) (p : PacketPool) (me me' you : Local) (in_use : ℕ → Bool)
    (s : Shared n p me you in_use)
    → Ready p s.free me'
    → ((a : ℕ) → returning a me' ≡ returning a me)
    → Shared n p me' you in_use
moved n p me me' you in_use s v same = record {
  free = s.free;
  is_free = s.is_free;
  my_view = v;
  your_view = s.your_view;
  not_invalid = s.not_invalid;
  owners = λ a real. omega (arith, s.owners a real, same a);
}

module _ (n : ℕ → ℕ) (once : (a : ℕ) → n a ≤ 1) where
  abbrev After : PacketPool × Local × Option ℕ → Local → (ℕ → Bool) → Type 0
  After (p, me, got) you in_use = Shared n p me you (taken_by in_use got)

  go-Shared :
      (p : PacketPool) (me you : Local) (spurious : Bool) (in_use : ℕ → Bool)
      → Releases me ⊎ Releases you
      → Shared n p me you in_use
      → After (go p me spurious) you in_use
  unfolding go
  go-Shared p idle you spurious in_use r s = s
  go-Shared p (acquire_loaded head) you spurious in_use r s = elim (ℕ_discrete head pool_invalid) [
    | yes e ↦
        let run : go p (acquire_loaded head) spurious ≡ (p, idle, none) = ground arith in
        subst (λ t. After t you in_use) (sym run)
          (moved n p (acquire_loaded head) idle you in_use s tt (λ a. refl))
    | no ne ↦
        let run : go p (acquire_loaded head) spurious
            ≡ (p, acquire_linked head (p.slots head).next_free, none) =
          ground arith in
        let there : has head s.free ≡ true = ground (arith, s.my_view) in
        subst (λ t. After t you in_use) (sym run)
          (moved n p (acquire_loaded head) (acquire_linked head (p.slots head).next_free) you in_use
            s (there, refl) (λ a. refl))
  ]
  go-Shared p (acquire_linked head next) you spurious in_use (inl r) s = absurd r
  go-Shared p (acquire_linked head next) you spurious in_use (inr r) s =
      elim (Bool-cases (p.free_head == head && not spurious)) [
        | inl e ↦
            let run : go p (acquire_linked head next) spurious
                ≡ (set_head p next, idle, some head) =
              ground (arith, e) in
            subst (λ t. After t you in_use) (sym run)
              (pop-Shared n once p head next you in_use r (ground (arith, e)) s)
        | inr e ↦
            let run : go p (acquire_linked head next) spurious
                ≡ (p, acquire_loaded p.free_head, none) =
              ground (arith, e) in
            subst (λ t. After t you in_use) (sym run)
              (moved n p (acquire_linked head next) (acquire_loaded p.free_head) you in_use s
                (head-view p s.free s.is_free) (λ a. refl))
      ]
  go-Shared p (release_loaded idx head) you spurious in_use r s =
      link-Shared n once p idx head you in_use s
  go-Shared p (release_linked idx head) you spurious in_use r s =
      elim (Bool-cases (p.free_head == head && not spurious)) [
        | inl e ↦
            let run : go p (release_linked idx head) spurious ≡ (set_head p idx, idle, none) =
              ground (arith, e) in
            subst (λ t. After t you in_use) (sym run)
              (push-Shared n once p idx head you in_use (ground (arith, e)) s)
        | inr e ↦
            let run : go p (release_linked idx head) spurious
                ≡ (p, release_loaded idx p.free_head, none) =
              ground (arith, e) in
            subst (λ t. After t you in_use) (sym run)
              (moved n p (release_linked idx head) (release_loaded idx p.free_head) you in_use s
                s.my_view.0 (λ a. refl))
      ]

  -- The start of `release`: the slot is no longer in use.
  release-Shared :
      (p : PacketPool) (idx : ℕ) (me you : Local) (in_use : ℕ → Bool)
      → is_idle me ≡ true
      → in_use idx ≡ true
      → Shared n p me you in_use
      → Shared n p (release_loaded idx p.free_head) you (update in_use idx false)
  release-Shared p idx idle you in_use e mine s = record {
    free = s.free;
    is_free = s.is_free;
    my_view = λ z. ground (arith, mine, s.not_invalid);
    your_view = s.your_view;
    not_invalid = ground (arith, s.not_invalid);
    owners = λ a real. ground (arith, s.owners a real, mine);
  }
  release-Shared p idx (acquire_loaded head) you in_use e mine s = absurd (ground arith)
  release-Shared p idx (acquire_linked head next) you in_use e mine s = absurd (ground arith)
  release-Shared p idx (release_loaded i head) you in_use e mine s = absurd (ground arith)
  release-Shared p idx (release_linked i head) you in_use e mine s = absurd (ground arith)

-- The matching thread never acquires.
pub record Safe (n : ℕ → ℕ) (t : Threads) : Type 0 where
  pub shared : Shared n t.pool t.network t.matcher t.in_use
  pub releases : Releases t.matcher

still_Releases :
    (p : PacketPool) (l : Local) (spurious : Bool) → Releases l → Releases (go p l spurious).1
unfolding go
still_Releases p idle spurious r = tt
still_Releases p (acquire_loaded head) spurious r = absurd r
still_Releases p (acquire_linked head next) spurious r = absurd r
still_Releases p (release_loaded idx head) spurious r = tt
still_Releases p (release_linked idx head) spurious r =
    elim (Bool-cases (p.free_head == head && not spurious)) [
      | inl e ↦
          let run : (go p (release_linked idx head) spurious).1 ≡ idle = ground (arith, e) in
          subst Releases (sym run) tt
      | inr e ↦
          let run : (go p (release_linked idx head) spurious).1 ≡ release_loaded idx p.free_head =
            ground (arith, e) in
          subst Releases (sym run) tt
    ]

idle-returning : (a : ℕ) (l : Local) → is_idle l ≡ true → returning a l ≡ 0
idle-returning a idle e = refl
idle-returning a (acquire_loaded head) e = refl
idle-returning a (acquire_linked head next) e = refl
idle-returning a (release_loaded idx head) e = absurd (ground arith)
idle-returning a (release_linked idx head) e = absurd (ground arith)

act-Safe :
    (n : ℕ → ℕ) (t : Threads) (a : Action) → ((a : ℕ) → n a ≤ 1) → Safe n t → Safe n (act t a)
unfolding act
act-Safe n t begin_acquire once s = elim (Bool-cases (is_idle t.network)) [
  | inl e ↦
      let run : act t begin_acquire ≡ record t { network = acquire_loaded t.pool.free_head } =
        ground (arith, e) in
      subst (Safe n) (sym run) (record {
        shared =
            moved n t.pool t.network (acquire_loaded t.pool.free_head) t.matcher t.in_use s.shared
              (head-view t.pool s.shared.free s.shared.is_free)
              (λ a. sym (idle-returning a t.network e));
        releases = s.releases;
      })
  | inr e ↦ let run : act t begin_acquire ≡ t = ground (arith, e) in subst (Safe n) (sym run) s
]
act-Safe n t (begin_release true idx) once s =
    elim (Bool-cases (is_idle t.network && t.in_use idx)) [
      | inl e ↦
          let run : act t (begin_release true idx) ≡ record t {
            network = release_loaded idx t.pool.free_head;
            in_use = update t.in_use idx false;
          } =
            ground (arith, e) in
          subst (Safe n) (sym run) (record {
            shared =
                release-Shared n once t.pool idx t.network t.matcher t.in_use (ground (arith, e))
                  (ground (arith, e)) s.shared;
            releases = s.releases;
          })
      | inr e ↦
          let run : act t (begin_release true idx) ≡ t = ground (arith, e) in
          subst (Safe n) (sym run) s
    ]
act-Safe n t (begin_release false idx) once s =
    elim (Bool-cases (is_idle t.matcher && t.in_use idx)) [
      | inl e ↦
          let run : act t (begin_release false idx) ≡ record t {
            matcher = release_loaded idx t.pool.free_head;
            in_use = update t.in_use idx false;
          } =
            ground (arith, e) in
          subst (Safe n) (sym run) (record {
            shared = Shared-swap n t.pool _ t.network _ (
                release-Shared n once t.pool idx t.matcher t.network t.in_use (ground (arith, e))
                  (ground (arith, e)) (Shared-swap n t.pool t.network t.matcher t.in_use s.shared));
            releases = tt;
          })
      | inr e ↦
          let run : act t (begin_release false idx) ≡ t = ground (arith, e) in
          subst (Safe n) (sym run) s
    ]
act-Safe n t (access true spurious) once s = record {
  shared = go-Shared n once t.pool t.network t.matcher spurious t.in_use (inr s.releases) s.shared;
  releases = s.releases;
}
act-Safe n t (access false spurious) once s = record {
  shared =
      Shared-swap n (go t.pool t.matcher spurious).0 (go t.pool t.matcher spurious).1 t.network _ (
        go-Shared n once t.pool t.matcher t.network spurious t.in_use (inl s.releases)
          (Shared-swap n t.pool t.network t.matcher t.in_use s.shared));
  releases = still_Releases t.pool t.matcher spurious s.releases;
}

-- Access by access, with failures of the exchange for no reason, for any sequence of actions of a
-- thread that acquires and releases and one that only releases: if the free list is well formed
-- and each slot is free, in use or being given back by one thread, at most once in all, and the
-- matching thread acquires nothing, then so it is afterwards, and each slot is accounted for as
-- often as before.
pub run_actions-Safe :
    (n : ℕ → ℕ) (t : Threads) (actions : List Action)
    → ((a : ℕ) → n a ≤ 1)
    → Safe n t
    → Safe n (run_actions t actions)
unfolding run_actions
run_actions-Safe n t [] once s = s
run_actions-Safe n t (a ∷ rest) once s =
    run_actions-Safe n (act t a) rest once (act-Safe n t a once s)
