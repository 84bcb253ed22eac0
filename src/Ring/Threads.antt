-- ===== src/Ring/Threads.antt =====
-- `push` and `pop` of spsc_ring.hpp, one access to shared memory at a time. Each thread loads its own
-- index and the other's in one step, as no other thread writes its own.
use orderbook.Prelude.{ℕ, List, [], ◌∷◌, ◌++◌, ◌==◌, if◌then◌else◌}
use orderbook.Prelude.Store.{update}
use orderbook.Ring.{SpscRing, next_index}

-- Where the producer is: in no call, about to write the cell, and about to store `tail`.
pub data Producer {ℓ} (T : Type ℓ) : Type ℓ where
  resting : Producer T
  checked : (value : T) (tail next : ℕ) → Producer T
  written : (value : T) (next : ℕ) → Producer T

-- Where the consumer is: in no call, about to read the cell, and about to store `head`.
pub data Consumer {ℓ} (T : Type ℓ) : Type ℓ where
  waiting : Consumer T
  ready : (head : ℕ) → Consumer T
  loaded : (head : ℕ) (value : T) → Consumer T

-- The ring and the threads, with the values whose `push` and `pop` have returned.
pub record Pair {ℓ} (T : Type ℓ) : Type ℓ where
  pub ring : SpscRing T
  pub producer : Producer T
  pub consumer : Consumer T
  pub pushed : List T
  pub popped : List T

pub data Access {ℓ} (T : Type ℓ) : Type ℓ where
  by_producer : T → Access T
  by_consumer : Access T

module _ {ℓ} {T : Type ℓ} where
  -- The next access of the producer; in no call, it starts `push` of `value`.
  unfoldable pub produce : Pair T → T → Pair T
  unfolding next_index
  produce s value = elim s.producer [
    | resting ↦
        let next = next_index s.ring.mask s.ring.tail in
        if next == s.ring.head then s else record s { producer = checked value s.ring.tail next }
    | checked v tail next ↦ record s {
      ring = record (s.ring) { buffer = update s.ring.buffer tail v };
      producer = written v next;
    }
    | written v next ↦ record s {
      ring = record (s.ring) { tail = next };
      producer = resting;
      pushed = s.pushed ++ (v ∷ []);
    }
  ]

  -- The next access of the consumer; in no call, it starts `pop`.
  unfoldable pub consume : Pair T → Pair T
  unfolding next_index
  consume s = elim s.consumer [
    | waiting ↦ if s.ring.head == s.ring.tail then s else record s { consumer = ready s.ring.head }
    | ready head ↦ record s { consumer = loaded head (s.ring.buffer head) }
    | loaded head v ↦ record s {
      ring = record (s.ring) { head = next_index s.ring.mask head };
      consumer = waiting;
      popped = s.popped ++ (v ∷ []);
    }
  ]

  unfoldable pub run_accesses : Pair T → List (Access T) → Pair T
  unfolding produce consume
  run_accesses s [] = s
  run_accesses s (by_producer v ∷ rest) = run_accesses (produce s v) rest
  run_accesses s (by_consumer ∷ rest) = run_accesses (consume s) rest
