-- ===== src/Packets/Shared.antt =====
-- The free list of packet_pool.hpp under two threads.
use orderbook.Prelude.{
  ℕ, ◌+◌, ◌≤◌, ◌≡◌, refl, sym, subst, ap, ◌∙◌, ◌≢◌, ◌⊎◌, inl, inr, Bool, true, false, List, [], ◌∷◌,
  arith, has, ◌==◌, if◌then◌else◌,
}
use orderbook.Prelude.Store.{update}
use orderbook.Packets.{PacketPool, pool_invalid}
use orderbook.Packets.Free.{IsFree, FreeFrom, FreeFrom-frame, listed, listed-out}
use orderbook.Packets.Threads.{
  Local, idle, acquire_loaded, acquire_linked, release_loaded, release_linked, set_link,
}

-- How often a thread is about to give a slot back.
abbrev pub returning : ℕ → Local → ℕ
returning a idle = 0
returning a (acquire_loaded head) = 0
returning a (acquire_linked head next) = 0
returning a (release_loaded idx head) = if a == idx then 1 else 0
returning a (release_linked idx head) = if a == idx then 1 else 0

abbrev pub used : Bool → ℕ
used true = 1
used false = 0

-- What a thread knows of the free list.
abbrev pub Ready : PacketPool → List ℕ → Local → Type 0
Ready p free idle = Unit
Ready p free (acquire_loaded head) = (head ≡ pool_invalid) ⊎ (has head free ≡ true)
Ready p free (acquire_linked head next) = (has head free ≡ true) × ((p.slots head).next_free ≡ next)
Ready p free (release_loaded idx head) = idx ≢ pool_invalid
Ready p free (release_linked idx head) = (idx ≢ pool_invalid) × ((p.slots idx).next_free ≡ head)

-- Slot `a` is free, in use, or being given back by `me` or `you`: `n a` times in all.
pub record Shared (n : ℕ → ℕ) (p : PacketPool) (me you : Local) (in_use : ℕ → Bool) : Type 0 where
  pub free : List ℕ
  pub is_free : IsFree p free
  pub my_view : Ready p free me
  pub your_view : Ready p free you
  pub not_invalid : in_use pool_invalid ≡ false
  pub owners :
      (a : ℕ)
      → a ≢ pool_invalid
      → listed a free + used (in_use a) + returning a me + returning a you ≡ n a

pub Shared-swap :
    (n : ℕ → ℕ) (p : PacketPool) (me you : Local) (in_use : ℕ → Bool)
    → Shared n p me you in_use
    → Shared n p you me in_use
Shared-swap n p me you in_use s = record {
  free = s.free;
  is_free = s.is_free;
  my_view = s.your_view;
  your_view = s.my_view;
  not_invalid = s.not_invalid;
  owners = λ a real. omega (arith, s.owners a real);
}

abbrev pub Releases : Local → Type 0
Releases idle = Unit
Releases (acquire_loaded head) = ⊥
Releases (acquire_linked head next) = ⊥
Releases (release_loaded idx head) = Unit
Releases (release_linked idx head) = Unit

-- The head of a list that is not empty is a slot of it.
pub head-view :
    (p : PacketPool) (free : List ℕ)
    → IsFree p free
    → (p.free_head ≡ pool_invalid) ⊎ (has p.free_head free ≡ true)
head-view p [] c = inl c
head-view p (x ∷ xs) (h, valid, out, rest) = inr (ground arith)

-- The views of a thread that only releases do not depend on the list.
Releases-Ready :
    (p p' : PacketPool) (free free' : List ℕ) (l : Local)
    → Releases l
    → p'.slots ≡ p.slots
    → Ready p free l
    → Ready p' free' l
Releases-Ready p p' free free' idle r same v = tt
Releases-Ready p p' free free' (acquire_loaded head) r same v = absurd r
Releases-Ready p p' free free' (acquire_linked head next) r same v = absurd r
Releases-Ready p p' free free' (release_loaded idx head) r same v = v
Releases-Ready p p' free free' (release_linked idx head) r same v =
    (v.0, ap (λ f. (f idx).next_free) same ∙ v.1)

module _ (n : ℕ → ℕ) (once : (a : ℕ) → n a ≤ 1) where
  -- A pop: the thread's `next` is the link of the head.
  pub pop-Shared :
      (p : PacketPool) (head next : ℕ) (you : Local) (in_use : ℕ → Bool)
      → Releases you
      → p.free_head ≡ head
      → Shared n p (acquire_linked head next) you in_use
      → Shared n (record p { free_head = next }) idle you (update in_use head true)
  pop-Shared p head next you in_use r at s = from s.free s.is_free s.my_view s.your_view s.owners
    where
      from :
          (free : List ℕ)
          → IsFree p free
          → Ready p free (acquire_linked head next)
          → Ready p free you
          → ((a : ℕ)
              → a ≢ pool_invalid
              → listed a free
                  + used (in_use a)
                  + returning a (acquire_linked head next)
                  + returning a you
                ≡ n a)
          → Shared n (record p { free_head = next }) idle you (update in_use head true)
      from [] c mine yours owners = absurd (ground (arith, mine))
      from (x ∷ rest) (h, valid, out, c) (there, link) yours owners =
          let same : x ≡ head = sym h ∙ at in
          let on : (p.slots x).next_free ≡ next = ap (λ i. (p.slots i).next_free) same ∙ link in
          record {
            free = rest;
            is_free = subst (λ i. FreeFrom p.slots i rest) on c;
            my_view = tt;
            your_view =
                Releases-Ready p (record p { free_head = next }) (x ∷ rest) rest you r refl yours;
            not_invalid = ground (arith, s.not_invalid);
            owners = λ a real. ground (arith, owners a real, once a);
          }

  -- A push: the link of the slot is the head.
  pub push-Shared :
      (p : PacketPool) (idx head : ℕ) (you : Local) (in_use : ℕ → Bool)
      → p.free_head ≡ head
      → Shared n p (release_linked idx head) you in_use
      → Shared n (record p { free_head = idx }) idle you in_use
  push-Shared p idx head you in_use at s =
      let (real, link) = s.my_view in
      let out : has idx s.free ≡ false =
        listed-out idx s.free (ground (arith, s.owners idx real, once idx)) in
      record {
        free = idx ∷ s.free;
        is_free = (
          refl,
          real,
          out,
          subst (λ i. FreeFrom p.slots i s.free) (sym (link ∙ sym at)) s.is_free,
        );
        my_view = tt;
        your_view = more_free you s.your_view;
        not_invalid = s.not_invalid;
        owners = λ a there. ground (arith, s.owners a there);
      }
    where
      more_free :
          (l : Local) → Ready p s.free l → Ready (record p { free_head = idx }) (idx ∷ s.free) l
      more_free idle v = tt
      more_free (acquire_loaded h) v = ground (arith, v)
      more_free (acquire_linked h x) v = (ground (arith, v), v.1)
      more_free (release_loaded i h) v = v
      more_free (release_linked i h) v = v

  -- The link of a slot that is given back, which is no one else's.
  pub link-Shared :
      (p : PacketPool) (idx head : ℕ) (you : Local) (in_use : ℕ → Bool)
      → Shared n p (release_loaded idx head) you in_use
      → Shared n (set_link p idx head) (release_linked idx head) you in_use
  link-Shared p idx head you in_use s =
      let real = s.my_view in
      let out : has idx s.free ≡ false =
        listed-out idx s.free (ground (arith, s.owners idx real, once idx)) in
      record {
        free = s.free;
        is_free =
            FreeFrom-frame (set_link p idx head).slots p.slots p.free_head s.free
              (λ a i. ground arith) s.is_free;
        my_view = (real, ground arith);
        your_view =
            elsewhere you s.your_view (λ e. ground (arith, s.owners idx real, once idx)) out;
        not_invalid = s.not_invalid;
        owners = λ a there. ground (arith, s.owners a there);
      }
    where
      elsewhere :
          (l : Local)
          → Ready p s.free l
          → returning idx l ≢ 1
          → has idx s.free ≡ false
          → Ready (set_link p idx head) s.free l
      elsewhere idle v ne out = tt
      elsewhere (acquire_loaded h) v ne out = v
      elsewhere (acquire_linked h x) v ne out = (v.0, ground (arith, v))
      elsewhere (release_loaded i h) v ne out = v
      elsewhere (release_linked i h) v ne out = (v.0, ground (arith, v))
