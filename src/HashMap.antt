-- ===== src/HashMap.antt =====
-- include/flat_hash_map.hpp: an open-addressed table with linear probing and Knuth's deletion.
-- The template's EMPTY and Identity are the section's parameters. A probe loop runs on fuel, one
-- round for each slot; `none` is a loop that the source would not leave in that many rounds.
-- `hugepages` and `prefetch` do not change what the program computes and are left out.
use orderbook.Prelude.{
  ℕ, zero, suc, ◌+◌, ◌-◌, ◌*◌, ◌%◌, ◌^◌, Bool, ◌||◌, Option, none, some, bit_and, leb, ◌==◌,
  if◌then◌else◌,
}
pub mod Cycle
pub mod Valid
pub mod Probe
pub mod Find
pub mod Gap
pub mod Erase
use orderbook.Prelude.Store.{update}

pub record Entry {ℓ} (V : Type ℓ) : Type ℓ where
  pub key : ℕ
  pub value : V

pub record FlatHashMap {ℓ} (V : Type ℓ) : Type ℓ where
  pub mask : ℕ
  pub table : ℕ → Entry V

-- Identity hashing, or the multiplication; the mask keeps the low bits.
unfoldable pub hash : Bool → ℕ → ℕ → ℕ
hash identity mask key =
    if identity then bit_and key mask else bit_and (key * 11400714819323198485 % 2 ^ 64) mask

-- `(idx + 1) & mask` and `(to - from) & mask`, in 64 bits
unfoldable pub advance : ℕ → ℕ → ℕ
advance mask idx = bit_and ((idx + 1) % 2 ^ 64) mask

unfoldable pub distance : ℕ → ℕ → ℕ → ℕ
distance mask from to = bit_and ((to + 2 ^ 64 - from) % 2 ^ 64) mask

module _ {ℓ} (empty_key : ℕ) {V : Type ℓ} where
  -- `V()` is the argument `value`. The source asserts that the capacity is a power of two.
  unfoldable pub new : ℕ → V → FlatHashMap V
  new capacity value = record {
    mask = capacity - 1;
    table = λ _. record { key = empty_key; value = value };
  }

  -- The loop that all three operations begin with: to the first slot that is empty or holds `key`.
  unfoldable pub probe : FlatHashMap V → ℕ → ℕ → ℕ → Option ℕ
  unfolding advance
  probe m key zero idx = none
  probe m key (suc fuel) idx =
      let rest = probe m key fuel (advance m.mask idx) in
      let k = (m.table idx).key in if k == empty_key || k == key then some idx else rest

  abbrev pub clear_at : FlatHashMap V → ℕ → FlatHashMap V
  clear_at m i = record m {
    table = update m.table i (record { key = empty_key; value = (m.table i).value });
  }

  abbrev pub move : FlatHashMap V → (i j : ℕ) → FlatHashMap V
  move m i j = clear_at (record m { table = update m.table i (m.table j) }) j

module _ {ℓ} (empty_key : ℕ) (identity : Bool) {V : Type ℓ} where
  unfoldable pub locate : FlatHashMap V → ℕ → Option ℕ
  unfolding probe hash
  locate m key = probe empty_key m key (m.mask + 1) (hash identity m.mask key)

  unfoldable pub insert : FlatHashMap V → ℕ → V → Option (FlatHashMap V)
  insert m key value = elim (locate m key) [
    | none ↦ none
    | some idx ↦
        some (record m { table = update m.table idx (record { key = key; value = value }) })
  ]

  -- The inner `none` is the null pointer.
  unfoldable pub find : FlatHashMap V → ℕ → Option (Option V)
  find m key = elim (locate m key) [
    | none ↦ none
    | some idx ↦ some (
        if (m.table idx).key == empty_key
        then none
        else if (m.table idx).key == key
        then some (m.table idx).value
        else none)
  ]

  -- Whether the entry at `j` may fill the hole at `i`.
  unfoldable pub crosses : FlatHashMap V → (i j : ℕ) → Bool
  unfolding hash distance
  crosses m i j =
      leb (distance m.mask i j) (distance m.mask (hash identity m.mask (m.table j).key) j)

  -- The `while (true)` loop: `i` is the hole, `j` the slot read last.
  unfoldable pub close_gap : ℕ → FlatHashMap V → (i j : ℕ) → Option (FlatHashMap V)
  unfolding advance crosses
  close_gap zero m i j = none
  close_gap (suc fuel) m i j =
      let next = advance m.mask j in
      let moved = close_gap fuel (move empty_key m i next) next next in
      let kept = close_gap fuel m i next in
      if (m.table next).key == empty_key then some m else if crosses m i next then moved else kept

  unfoldable pub erase : FlatHashMap V → ℕ → Option (FlatHashMap V)
  unfolding close_gap
  erase m key = elim (locate m key) [
    | none ↦ none
    | some idx ↦
        let closed = close_gap (m.mask + 1) (clear_at empty_key m idx) idx idx in
        if (m.table idx).key == empty_key then some m else closed
  ]
