-- ===== src/Itch/Range.antt =====
-- The widths of the fields that the parser of itch.cpp reads.
use orderbook.Prelude.{ℕ, zero, suc, ◌^◌, ◌<◌, List, [], ◌∷◌, arith, get_or, drop, All}
use orderbook.Itch.{skip_header, read_u32, read_ref, read_side, read_add_order, read_order_replace}

abbrev pub Bytes : List ℕ → Type 0
Bytes = All (λ b. b < 256)

get_or-lt : (d : List ℕ) (i : ℕ) → Bytes d → get_or d i 0 < 256
get_or-lt [] i h = omega arith
get_or-lt (x ∷ xs) zero h = h.0
get_or-lt (x ∷ xs) (suc i) h = get_or-lt xs i h.1

drop-Bytes : (n : ℕ) (d : List ℕ) → Bytes d → Bytes (drop n d)
drop-Bytes zero d h = h
drop-Bytes (suc n) [] h = tt
drop-Bytes (suc n) (x ∷ xs) h = drop-Bytes n xs h.1

read_u32-lt : (d : List ℕ) → Bytes d → (read_u32 d).0 < 2 ^ 32
unfolding read_u32
read_u32-lt d h = omega (arith, get_or-lt d 0 h, get_or-lt d 1 h, get_or-lt d 2 h, get_or-lt d 3 h)

read_u32-Bytes : (d : List ℕ) → Bytes d → Bytes (read_u32 d).1
unfolding read_u32
read_u32-Bytes d h = drop-Bytes 4 d h

read_ref-lt : (d : List ℕ) → Bytes d → (read_ref d).0 < 2 ^ 64
unfolding read_ref
read_ref-lt d h = omega (arith, read_u32-lt d h, read_u32-lt (read_u32 d).1 (read_u32-Bytes d h))

read_ref-Bytes : (d : List ℕ) → Bytes d → Bytes (read_ref d).1
unfolding read_ref
read_ref-Bytes d h = read_u32-Bytes (read_u32 d).1 (read_u32-Bytes d h)

-- On bytes, the halves of the reference that `read_add_order` returns, the shares and the price
-- fit 32 bits, and the indicator is a byte.
pub read_add_order-lt :
    (d : List ℕ)
    → Bytes d
    → let o = (read_add_order d).0 in
      (o.order_reference_number_high < 2 ^ 32)
      × (o.order_reference_number_low < 2 ^ 32)
      × (o.shares < 2 ^ 32)
      × (o.price < 2 ^ 32)
      × (o.buy_sell_indicator < 256)
unfolding read_add_order skip_header read_side
read_add_order-lt d h =
    let h0 = drop-Bytes 10 d h in
    let r = read_ref (drop 10 d) in
    let h1 = read_ref-Bytes (drop 10 d) h0 in
    let h2 = drop-Bytes 1 r.1 h1 in
    let h3 = drop-Bytes 8 _ (read_u32-Bytes (drop 1 r.1) h2) in
    let ref = read_ref-lt (drop 10 d) h0 in
    (
      omega (arith, ref),
      omega (arith, ref),
      read_u32-lt (drop 1 r.1) h2,
      read_u32-lt _ h3,
      get_or-lt r.1 0 h1,
    )

-- On bytes, the references that `read_order_replace` returns fit 64 bits, and the shares and the
-- price fit 32 bits.
pub read_order_replace-lt :
    (d : List ℕ)
    → Bytes d
    → let m = (read_order_replace d).0 in
      (m.original_order_ref < 2 ^ 64)
      × (m.new_order_ref < 2 ^ 64)
      × (m.shares < 2 ^ 32)
      × (m.price < 2 ^ 32)
unfolding read_order_replace skip_header
read_order_replace-lt d h =
    let h0 = drop-Bytes 10 d h in
    let h1 = read_ref-Bytes (drop 10 d) h0 in
    let h2 = read_ref-Bytes (read_ref (drop 10 d)).1 h1 in
    let h3 = read_u32-Bytes (read_ref (read_ref (drop 10 d)).1).1 h2 in
    (
      read_ref-lt (drop 10 d) h0,
      read_ref-lt (read_ref (drop 10 d)).1 h1,
      read_u32-lt _ h2,
      read_u32-lt _ h3,
    )
