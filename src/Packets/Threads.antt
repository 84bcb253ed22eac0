-- ===== src/Packets/Threads.antt =====
-- The compare-and-swap loops of packet_pool.hpp, one access to memory at a time. The network thread
-- acquires and releases, the matching thread only releases, as the threads of engine_udp.cpp do.
-- A slot goes from one thread to the other through the ring, so the slots in use are one set.
use orderbook.Prelude.{
  ℕ, Bool, true, false, List, [], ◌∷◌, Option, none, some, ◌==◌, ◌&&◌, if◌then◌else◌, not,
}
use orderbook.Prelude.Store.{update}
use orderbook.Packets.{PacketPool, pool_invalid}

-- Where a thread is in `acquire` or `release`, with its local variables.
pub data Local : Type 0 where
  idle : Local
  acquire_loaded : (head : ℕ) → Local
  acquire_linked : (head next : ℕ) → Local
  release_loaded : (idx head : ℕ) → Local
  release_linked : (idx head : ℕ) → Local

abbrev pub set_head : PacketPool → ℕ → PacketPool
set_head p head = record p { free_head = head }

abbrev pub set_link : PacketPool → ℕ → ℕ → PacketPool
set_link p idx head = record p {
  slots = update p.slots idx (record (p.slots idx) { next_free = head });
}

-- The next access: the pool, where the thread is then, and the slot that `acquire` returns, if it
-- does now. `spurious` is a failure of `compare_exchange_weak` without a reason. A failure loads
-- the head again.
unfoldable pub go : PacketPool → Local → (spurious : Bool) → PacketPool × Local × Option ℕ
go p idle spurious = (p, idle, none)
go p (acquire_loaded head) spurious =
    if head == pool_invalid
    then (p, idle, none)
    else (p, acquire_linked head (p.slots head).next_free, none)
go p (acquire_linked head next) spurious =
    if p.free_head == head && not spurious
    then (set_head p next, idle, some head)
    else (p, acquire_loaded p.free_head, none)
go p (release_loaded idx head) spurious = (set_link p idx head, release_linked idx head, none)
go p (release_linked idx head) spurious =
    if p.free_head == head && not spurious
    then (set_head p idx, idle, none)
    else (p, release_loaded idx p.free_head, none)

-- The pool, the two threads, and the slots that are in use.
pub record Threads : Type 0 where
  pub pool : PacketPool
  pub network : Local
  pub matcher : Local
  pub in_use : ℕ → Bool

pub data Action : Type 0 where
  begin_acquire : Action
  begin_release : (network : Bool) (idx : ℕ) → Action
  access : (network spurious : Bool) → Action

abbrev pub taken_by : (ℕ → Bool) → Option ℕ → ℕ → Bool
taken_by in_use none = in_use
taken_by in_use (some idx) = update in_use idx true

abbrev pub is_idle : Local → Bool
is_idle idle = true
is_idle (acquire_loaded head) = false
is_idle (acquire_linked head next) = false
is_idle (release_loaded idx head) = false
is_idle (release_linked idx head) = false

-- A thread starts a call when it is in none; it releases a slot in use.
unfoldable pub act : Threads → Action → Threads
unfolding go
act t begin_acquire =
    if is_idle t.network then record t { network = acquire_loaded t.pool.free_head } else t
act t (begin_release true idx) =
    if is_idle t.network && t.in_use idx
    then record t {
      network = release_loaded idx t.pool.free_head;
      in_use = update t.in_use idx false;
    }
    else t
act t (begin_release false idx) =
    if is_idle t.matcher && t.in_use idx
    then record t {
      matcher = release_loaded idx t.pool.free_head;
      in_use = update t.in_use idx false;
    }
    else t
act t (access true spurious) =
    let (pool, local, got) = go t.pool t.network spurious in
    record t { pool = pool; network = local; in_use = taken_by t.in_use got }
act t (access false spurious) =
    let (pool, local, got) = go t.pool t.matcher spurious in
    record t { pool = pool; matcher = local; in_use = taken_by t.in_use got }

unfoldable pub run_actions : Threads → List Action → Threads
unfolding act
run_actions t [] = t
run_actions t (a ∷ rest) = run_actions (act t a) rest
