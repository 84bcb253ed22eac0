-- ===== src/Packets/Free.antt =====
-- The free list of packet_pool.hpp.
use orderbook.Prelude.{
  ℕ, ◌+◌, ◌≤◌, ◌<◌, suc, zero, ◌≡◌, refl, ◌≢◌, ◌⊎◌, inl, inr, true, false, List, [], ◌∷◌, arith,
  has, ◌==◌, if◌then◌else◌,
}
use orderbook.Packets.{BufferSlot, PacketPool, pool_invalid, new_pool, acquire, release, fill}

-- From `head` the links lead through the distinct slots `xs` to the end.
abbrev pub FreeFrom : (ℕ → BufferSlot) → ℕ → List ℕ → Type 0
FreeFrom slots head [] = head ≡ pool_invalid
FreeFrom slots head (x ∷ xs) =
    (head ≡ x) × (x ≢ pool_invalid) × (has x xs ≡ false) × FreeFrom slots (slots x).next_free xs

abbrev pub IsFree : PacketPool → List ℕ → Type 0
IsFree p xs = FreeFrom p.slots p.free_head xs

pub FreeFrom-frame :
    (slots' slots : ℕ → BufferSlot) (head : ℕ) (xs : List ℕ)
    → ((a : ℕ) → has a xs ≡ true → (slots' a).next_free ≡ (slots a).next_free)
    → FreeFrom slots head xs
    → FreeFrom slots' head xs
FreeFrom-frame slots' slots head [] same f = f
FreeFrom-frame slots' slots head (x ∷ xs) same (h, valid, out, rest) = (
  h,
  valid,
  out,
  rw (same x (ground arith))
      (FreeFrom-frame slots' slots (slots x).next_free xs (λ a i. same a (ground arith)) rest),
)

-- If the free slots are `xs`, `acquire` either finds `xs` empty, returns the invalid index and
-- changes nothing, or returns the first of `xs`, which is a slot and occurs once, and leaves the
-- rest free.
pub acquire-IsFree :
    (p : PacketPool) (xs : List ℕ)
    → IsFree p xs
    → ((xs ≡ []) × (acquire p ≡ (pool_invalid, p)))
      ⊎ ((x : ℕ) × (rest : List ℕ) × (xs ≡ x ∷ rest)
          × (x ≢ pool_invalid)
          × (has x rest ≡ false)
          × ((acquire p).0 ≡ x)
          × IsFree (acquire p).1 rest)
unfolding acquire
acquire-IsFree p [] f = inl (refl, ground arith)
acquire-IsFree p (x ∷ xs) (h, valid, out, rest) =
    let taken : acquire p ≡ (x, record p { free_head = (p.slots x).next_free }) = ground arith in
    inr (x, xs, refl, valid, out, rw taken refl, rw taken rest)

-- If the free slots are `xs` and `idx` is a slot and none of them, then after `release` they are
-- `idx` and then `xs`.
pub release-IsFree :
    (p : PacketPool) (idx : ℕ) (xs : List ℕ)
    → IsFree p xs
    → idx ≢ pool_invalid
    → has idx xs ≡ false
    → IsFree (release p idx) (idx ∷ xs)
unfolding release
release-IsFree p idx xs f valid out =
    let slots = (release p idx).slots in
    let link : (slots idx).next_free ≡ p.free_head = ground arith in
    (
      refl,
      valid,
      out,
      rw link (FreeFrom-frame slots p.slots p.free_head xs (λ a i. ground arith) f),
    )

-- Writing a datagram into a slot does not change the free list.
pub fill-IsFree :
    (p : PacketPool) (idx : ℕ) (bytes : List ℕ) (n : ℕ) (xs : List ℕ)
    → IsFree p xs
    → IsFree (fill p idx bytes n) xs
unfolding fill
fill-IsFree p idx bytes n xs f =
    FreeFrom-frame (fill p idx bytes n).slots p.slots p.free_head xs (λ a i. ground arith) f

-- The slots from `i` on, `n` of them.
unfoldable pub slots_from : ℕ → ℕ → List ℕ
slots_from zero i = []
slots_from (suc n) i = i ∷ slots_from n (i + 1)

has-slots_from : (n i a : ℕ) → a < i → has a (slots_from n i) ≡ false
unfolding slots_from
has-slots_from zero i a lt = refl
has-slots_from (suc n) i a lt = ground (arith, has-slots_from n (i + 1) a)

new_pool-FreeFrom :
    (left i num : ℕ)
    → i + suc left ≡ num
    → num ≤ pool_invalid
    → FreeFrom (new_pool num).slots i (slots_from (suc left) i)
unfolding new_pool slots_from
new_pool-FreeFrom zero i num e w = (refl, omega arith, refl, ground arith)
new_pool-FreeFrom (suc left) i num e w =
    let link : ((new_pool num).slots i).next_free ≡ i + 1 = ground arith in
    (
      refl,
      omega arith,
      has-slots_from (suc left) (i + 1) i (omega arith),
      rw link (new_pool-FreeFrom left (i + 1) num (omega arith) w),
    )

-- In a new pool of `num` slots, at least one and at most the invalid index, the free slots are
-- those from 0 to `num - 1`, in order.
pub new_pool-IsFree :
    (num : ℕ) → 0 < num → num ≤ pool_invalid → IsFree (new_pool num) (slots_from num 0)
unfolding new_pool
new_pool-IsFree zero pos w = absurd (omega arith)
new_pool-IsFree (suc n) pos w = new_pool-FreeFrom n 0 (suc n) (omega arith) w

-- How often a slot is listed.
abbrev pub listed : ℕ → List ℕ → ℕ
listed a [] = 0
listed a (x ∷ xs) = (if a == x then 1 else 0) + listed a xs

pub listed-out : (a : ℕ) (xs : List ℕ) → listed a xs ≡ 0 → has a xs ≡ false
listed-out a [] e = refl
listed-out a (x ∷ xs) e = ground (arith, listed-out a xs)
