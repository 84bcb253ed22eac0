-- ===== src/Packets/Exchange.antt =====
-- The exchanges of packet_pool.hpp that succeed are `acquire` and `release` in one step.
use orderbook.Prelude.{
  ℕ, ◌≡◌, sym, ap, ◌∙◌, ◌≢◌, Bool, true, false, List, [], ◌∷◌, none, some, arith, has,
}
use native.Mathlib.Decide.{ℕ_discrete}
use orderbook.Prelude.Store.{update}
use mathlib.Core.Path.{fun_ext}
use orderbook.Packets.{BufferSlot, PacketPool, pool_invalid, acquire, release}
use orderbook.Packets.Free.{FreeFrom}
use orderbook.Packets.Threads.{Local, idle, acquire_linked, release_linked, go}
use orderbook.Packets.Shared.{Shared}

FreeFrom-valid :
    (slots : ℕ → BufferSlot) (head : ℕ) (xs : List ℕ) (a : ℕ)
    → FreeFrom slots head xs
    → has a xs ≡ true
    → a ≢ pool_invalid
FreeFrom-valid slots head [] a c i = λ e. ground arith
FreeFrom-valid slots head (x ∷ xs) a (h, valid, out, c) i = elim (ℕ_discrete a x) [
  | yes same ↦ λ e. valid (sym same ∙ e)
  | no ne ↦ FreeFrom-valid slots (slots x).next_free xs a c (ground arith)
]

-- If the threads share the pool well and the head of the free list is still the one the thread
-- has loaded, the exchange of `acquire` has the effect and the result of `acquire` in one step.
pub go-acquire :
    (n : ℕ → ℕ) (p : PacketPool) (head next : ℕ) (you : Local) (in_use : ℕ → Bool)
    → p.free_head ≡ head
    → Shared n p (acquire_linked head next) you in_use
    → go p (acquire_linked head next) false ≡ ((acquire p).1, idle, some (acquire p).0)
unfolding go acquire
go-acquire n p head next you in_use at s =
    let valid = FreeFrom-valid p.slots p.free_head s.free head s.is_free s.my_view.0 in
    let link : (p.slots p.free_head).next_free ≡ next =
      ap (λ i. (p.slots i).next_free) at ∙ s.my_view.1 in
    ground (arith, link)

-- If the threads share the pool well and the head of the free list is still the one the thread
-- has loaded, the exchange of `release` leaves the pool that `release` in one step leaves.
pub go-release :
    (n : ℕ → ℕ) (p : PacketPool) (idx head : ℕ) (you : Local) (in_use : ℕ → Bool)
    → p.free_head ≡ head
    → Shared n p (release_linked idx head) you in_use
    → go p (release_linked idx head) false ≡ (release p idx, idle, none)
unfolding go release
go-release n p idx head you in_use at s =
    let link : (p.slots idx).next_free ≡ p.free_head = s.my_view.1 ∙ sym at in
    let slots : update p.slots idx (record (p.slots idx) { next_free = p.free_head }) ≡ p.slots =
      fun_ext (λ a. ground (arith, link)) in
    ground (arith, slots)
