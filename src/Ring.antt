-- ===== src/Ring.antt =====
-- include/spsc_ring.hpp: the ring between the network thread and the matching thread.
-- `spinPop` waits for the other thread and is left out; `runUdp` calls `pop` in a loop of its own.
pub mod Contents
pub mod Threads
pub mod Order
use orderbook.Prelude.{
  ℕ, ◌+◌, ◌-◌, ◌%◌, ◌^◌, Bool, true, false, Option, none, some, bit_and, ◌==◌, if◌then◌else◌,
}
use orderbook.Prelude.Store.{update}

pub record SpscRing {ℓ} (T : Type ℓ) : Type ℓ where
  pub head : ℕ
  pub tail : ℕ
  pub mask : ℕ
  pub buffer : ℕ → T

-- `(i + 1) & mask`, in 64 bits
unfoldable pub next_index : ℕ → ℕ → ℕ
next_index mask i = bit_and ((i + 1) % 2 ^ 64) mask

module _ {ℓ} {T : Type ℓ} where
  -- `none` is the call of `abort`. The fresh cells hold `blank`.
  unfoldable pub new_ring : ℕ → T → Option (SpscRing T)
  new_ring capacity blank =
      if bit_and capacity (capacity - 1) == 0
      then (if capacity == 0
          then none
          else some (record { head = 0; tail = 0; mask = capacity - 1; buffer = λ _. blank }))
      else none

  -- `false` and no change if the ring is full
  unfoldable pub push : SpscRing T → T → Bool × SpscRing T
  unfolding next_index
  push r value =
      let next = next_index r.mask r.tail in
      if next == r.head
      then (false, r)
      else (true, record r { buffer = update r.buffer r.tail value; tail = next })

  -- `none` is the result `false`; otherwise what is written through `out`.
  unfoldable pub pop : SpscRing T → Option T × SpscRing T
  unfolding next_index
  pop r =
      if r.head == r.tail
      then (none, r)
      else (some (r.buffer r.head), record r { head = next_index r.mask r.head })
