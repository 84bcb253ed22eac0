-- ===== src/Prelude/Store.antt =====
-- Memory as a function of the index: a vector's cells, or the slots of a table.
use Prim.Native.Nat.{ℕ}
use orderbook.Prelude.Tests.{◌==◌, if◌then◌else◌}

abbrev pub update {ℓ} : {A : Type ℓ} → (ℕ → A) → ℕ → A → ℕ → A
update f i a j = if i == j then a else f j
