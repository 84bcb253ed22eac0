-- ===== src/Ring/Contents.antt =====
-- The values that a ring of spsc_ring.hpp holds, as a queue.
use orderbook.Prelude.{
  ℕ, ◌+◌, ◌-◌, ◌^◌, ◌≤◌, ◌<◌, ◌≡◌, refl, ap, ◌≢◌, inl, inr, ◌%◌, true, false, List, [], ◌∷◌, ◌++◌,
  none, some, arith, bit_and, length, length-append, pow-pos, bit_and_mask,
}
use orderbook.Prelude.Store.{update}
use orderbook.Prelude.Cycle.{
  dist, after, bit_and-after, dist-lt, dist_inj, dist_self, after-lt, after-dist, dist-after_cases,
}
use orderbook.Ring.{SpscRing, next_index, new_ring, push, pop}

pub next_index-after :
    (k mask i : ℕ) → mask ≡ 2 ^ k - 1 → k ≤ 63 → i < 2 ^ k → next_index mask i ≡ after (2 ^ k) i
unfolding next_index
next_index-after = bit_and-after

module _ {ℓ} {T : Type ℓ} where
  -- The cells from `h` on hold `xs`, on a cycle of `c` cells.
  abbrev pub Slots : (ℕ → T) → ℕ → ℕ → List T → Type ℓ
  Slots buffer c h [] = Unit
  Slots buffer c h (x ∷ xs) = (buffer h ≡ x) × Slots buffer c (after c h) xs

  -- The ring holds `xs`, oldest first.
  pub record Holds (k : ℕ) (r : SpscRing T) (xs : List T) : Type ℓ where
    pub width : k ≤ 63
    pub mask : r.mask ≡ 2 ^ k - 1
    pub head : r.head < 2 ^ k
    pub tail : r.tail < 2 ^ k
    pub size : length xs ≡ dist (2 ^ k) r.head r.tail
    pub slots : Slots r.buffer (2 ^ k) r.head xs

  module _ (c t : ℕ) (ht : t < c) (v : T) (buffer : ℕ → T) where
    -- Writing the cell behind the last one appends.
    pub Slots-update :
        (h : ℕ) (xs : List T)
        → h < c
        → length xs ≡ dist c h t
        → Slots buffer c h xs
        → Slots (update buffer t v) c h (xs ++ (v ∷ []))
    Slots-update h [] hh size s =
        let e = dist_inj h h t hh hh ht (omega (arith, size, dist_self c h)) in (ground arith, tt)
    Slots-update h (x ∷ xs) hh size s =
        let ne : h ≢ t = λ e. absurd (omega (arith, size, ap (dist c h) e, dist_self c h)) in
        let rest =
          Slots-update (after c h) xs (after-lt h hh) (omega (arith, size, after-dist h t hh ht ne))
            s.1 in
        (ground arith, rest)

  module _ {k : ℕ} {r : SpscRing T} (xs : List T) (v : T) (m : Holds k r xs) where
    abbrev next : ℕ
    next = after (2 ^ k) r.tail

    step : bit_and ((r.tail + 1) % 2 ^ 64) r.mask ≡ next
    step = bit_and-after k r.mask r.tail m.mask m.width m.tail

    next_free : length xs + 1 < 2 ^ k → dist (2 ^ k) r.head next ≡ length xs + 1
    next_free room = elim (dist-after_cases r.head r.tail m.head m.tail) [
      | inl up ↦ omega (arith, up, m.size)
      | inr (back, full) ↦ absurd (omega (arith, full, m.size))
    ]

    pub next-eq : 2 ^ k ≤ length xs + 1 → next ≡ r.head
    next-eq full = elim (dist-after_cases r.head r.tail m.head m.tail) [
      | inl up ↦
          absurd (omega (arith, up, m.size, dist-lt r.head next m.head (after-lt r.tail m.tail)))
      | inr (back, _) ↦ back
    ]

    next-ne : length xs + 1 < 2 ^ k → next ≢ r.head
    next-ne room e =
        omega (arith, next_free room, ap (dist (2 ^ k) r.head) e, dist_self (2 ^ k) r.head)

    -- If a ring of `2 ^ k` cells holds `xs`, `push` succeeds and the ring holds `xs` and then the
    -- value while `xs` and one more are fewer than `2 ^ k`; otherwise it fails and changes
    -- nothing.
    pub push-Holds :
        (length xs + 1 < 2 ^ k → ((push r v).0 ≡ true) × Holds k (push r v).1 (xs ++ (v ∷ [])))
        × (2 ^ k ≤ length xs + 1 → push r v ≡ (false, r))
    unfolding push
    push-Holds = (
      λ room.
          let ne = next-ne room in
          let pushed : push r v
              ≡ (true, record r { buffer = update r.buffer r.tail v; tail = next }) =
            ground (arith, step, ne) in
          rw pushed (
            refl,
            record {
              width = m.width;
              mask = m.mask;
              head = m.head;
              tail = after-lt r.tail m.tail;
              size = omega (arith, next_free room, length-append xs (v ∷ []));
              slots = Slots-update (2 ^ k) r.tail m.tail v r.buffer r.head xs m.head m.size m.slots;
            },
          ),
      λ full. ground (arith, step, next-eq full),
    )

  -- If a ring holds `x` and then `xs`, `pop` returns `x` and leaves a ring that holds `xs`.
  pub pop-Holds :
      {k : ℕ} (r : SpscRing T) (x : T) (xs : List T)
      → Holds k r (x ∷ xs)
      → ((pop r).0 ≡ some x) × Holds k (pop r).1 xs
  unfolding pop
  pop-Holds {k} r x xs m =
      let step : bit_and ((r.head + 1) % 2 ^ 64) r.mask ≡ after (2 ^ k) r.head =
        bit_and-after k r.mask r.head m.mask m.width m.head in
      let ne : r.head ≢ r.tail =
        λ e. omega (arith, m.size, ap (dist (2 ^ k) r.head) e, dist_self (2 ^ k) r.head) in
      let popped : pop r ≡ (some x, record r { head = after (2 ^ k) r.head }) =
        ground (arith, step, ne, m.slots) in
      rw popped (
        refl,
        record {
          width = m.width;
          mask = m.mask;
          head = after-lt r.head m.head;
          tail = m.tail;
          size = omega (arith, m.size, after-dist r.head r.tail m.head m.tail ne);
          slots = m.slots.1;
        },
      )

  -- On an empty ring `pop` fails and changes nothing.
  pub pop-empty : {k : ℕ} (r : SpscRing T) → Holds k r [] → pop r ≡ (none, r)
  unfolding pop
  pop-empty {k} r m =
      let e =
        dist_inj r.head r.head r.tail m.head m.head m.tail
          (omega (arith, m.size, dist_self (2 ^ k) r.head)) in
      ground arith

  -- For `k` up to 63, a capacity of `2 ^ k` passes the check of the constructor, and the new ring
  -- is empty.
  pub new_ring-Holds :
      (k : ℕ) (blank : T)
      → k ≤ 63
      → (r : SpscRing T) × (new_ring (2 ^ k) blank ≡ some r) × Holds k r []
  unfolding new_ring
  new_ring-Holds k blank w =
      let pos = pow-pos k in
      let zero_and : bit_and (2 ^ k) (2 ^ k - 1) ≡ 0 = rw bit_and_mask (grind arith) in
      (
        record { head = 0; tail = 0; mask = 2 ^ k - 1; buffer = λ _. blank },
        ground (arith, zero_and, pos),
        record {
          width = w;
          mask = refl;
          head = pos;
          tail = pos;
          size = omega (arith, dist_self (2 ^ k) 0);
          slots = tt;
        },
      )
