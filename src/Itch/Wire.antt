-- ===== src/Itch/Wire.antt =====
-- The wire layout of the ITCH messages, written out, and the parser of itch.cpp on it.
use orderbook.Prelude.{
  ℕ, ◌+◌, ◌*◌, ◌/◌, ◌%◌, ◌^◌, ◌<◌, ◌≡◌, refl, List, ◌∷◌, ◌++◌, arith, length, drop-append,
}
use orderbook.Itch.{
  Order, OrderReplaceMsg, join_ref, skip_header, read_u32, read_ref, read_side, read_add_order,
  read_delete_order, read_order_executed, read_order_replace,
}

-- A 32-bit number, most significant byte first, before `rest`; and a 64-bit one.
unfoldable pub put_u32 : ℕ → List ℕ → List ℕ
put_u32 v rest = v / 2 ^ 24 % 256 ∷ v / 2 ^ 16 % 256 ∷ v / 2 ^ 8 % 256 ∷ v % 256 ∷ rest

unfoldable pub put_u64 : ℕ → List ℕ → List ℕ
put_u64 v rest = put_u32 (v / 2 ^ 32) (put_u32 (v % 2 ^ 32) rest)

-- The parts of the layouts that follow the type byte. `header` has ten bytes, `stock` eight.
unfoldable pub add_layout : (header : List ℕ) → Order → (stock rest : List ℕ) → List ℕ
add_layout header o stock rest =
    header
    ++ put_u32 o.order_reference_number_high (
        put_u32 o.order_reference_number_low
          (o.buy_sell_indicator ∷ put_u32 o.shares (stock ++ put_u32 o.price rest)))

unfoldable pub delete_layout : (header : List ℕ) → ℕ → List ℕ → List ℕ
delete_layout header ref rest = header ++ put_u64 ref rest

unfoldable pub executed_layout : (header : List ℕ) → ℕ → ℕ → List ℕ → List ℕ
executed_layout header ref shares rest = header ++ put_u64 ref (put_u32 shares rest)

unfoldable pub replace_layout : (header : List ℕ) → OrderReplaceMsg → List ℕ → List ℕ
replace_layout header msg rest =
    header
    ++ put_u64 msg.original_order_ref
        (put_u64 msg.new_order_ref (put_u32 msg.shares (put_u32 msg.price rest)))

pub read_u32-put_u32 : (v : ℕ) (rest : List ℕ) → v < 2 ^ 32 → read_u32 (put_u32 v rest) ≡ (v, rest)
unfolding read_u32 put_u32
read_u32-put_u32 v rest h = ground arith

pub read_ref-put :
    (high low : ℕ) (rest : List ℕ)
    → high < 2 ^ 32
    → low < 2 ^ 32
    → read_ref (put_u32 high (put_u32 low rest)) ≡ (high * 2 ^ 32 + low, rest)
unfolding read_ref
read_ref-put high low rest hh hl =
    rw (read_u32-put_u32 high (put_u32 low rest) hh, read_u32-put_u32 low rest hl)

pub read_ref-put_u64 : (v : ℕ) (rest : List ℕ) → v < 2 ^ 64 → read_ref (put_u64 v rest) ≡ (v, rest)
unfolding put_u64
read_ref-put_u64 v rest h =
    rw (read_ref-put (v / 2 ^ 32) (v % 2 ^ 32) rest (omega arith) (omega arith)) (ground arith)

skip_header-append :
    (header rest : List ℕ) → length header ≡ 10 → skip_header (header ++ rest) ≡ (tt, rest)
unfolding skip_header
skip_header-append header rest h = rw (drop-append header rest 10 h)

read_side-cons : (b : ℕ) (rest : List ℕ) → read_side (b ∷ rest) ≡ (b, rest)
unfolding read_side
read_side-cons b rest = refl

-- Each field of an order fits its width.
pub record Fits (o : Order) : Type 0 where
  pub high : o.order_reference_number_high < 2 ^ 32
  pub low : o.order_reference_number_low < 2 ^ 32
  pub shares : o.shares < 2 ^ 32
  pub price : o.price < 2 ^ 32

-- Of the bytes of an add message that is laid out with a header of ten bytes, a stock of eight
-- and an order whose fields fit 32 bits, `read_add_order` reads the order and leaves the bytes
-- behind the message.
read_add_order-layout :
    (header : List ℕ) (o : Order) (stock rest : List ℕ)
    → length header ≡ 10
    → length stock ≡ 8
    → Fits o
    → read_add_order (add_layout header o stock rest) ≡ (o, rest)
unfolding read_add_order add_layout
read_add_order-layout header o stock rest h s f =
    let ref = join_ref o.order_reference_number_high o.order_reference_number_low in
    let high : ref / 2 ^ 32 ≡ o.order_reference_number_high = omega (arith, f.low) in
    let low : ref % 2 ^ 32 ≡ o.order_reference_number_low = omega (arith, f.low) in
    rw (
      skip_header-append header _ h,
      read_ref-put o.order_reference_number_high o.order_reference_number_low _ f.high f.low,
      read_side-cons o.buy_sell_indicator _,
      read_u32-put_u32 o.shares _ f.shares,
      drop-append stock _ 8 s,
      read_u32-put_u32 o.price rest f.price,
      high,
      low,
    )

-- Of the bytes of a delete message that is laid out with a header of ten bytes and a reference
-- that fits 64 bits, `read_delete_order` reads the two halves of the reference and leaves the
-- bytes behind the message.
pub read_delete_order-layout :
    (header : List ℕ) (ref : ℕ) (rest : List ℕ)
    → length header ≡ 10
    → ref < 2 ^ 64
    → read_delete_order (delete_layout header ref rest) ≡ (
      record {
        order_reference_number_high = ref / 2 ^ 32;
        order_reference_number_low = ref % 2 ^ 32;
      },
      rest,
    )
unfolding read_delete_order delete_layout
read_delete_order-layout header ref rest h w =
    rw (skip_header-append header _ h, read_ref-put_u64 ref rest w)

-- Of the bytes of an executed message that is laid out with a header of ten bytes, a reference
-- that fits 64 bits and shares that fit 32 bits, `read_order_executed` reads both and leaves the
-- bytes behind them.
pub read_order_executed-layout :
    (header : List ℕ) (ref shares : ℕ) (rest : List ℕ)
    → length header ≡ 10
    → ref < 2 ^ 64
    → shares < 2 ^ 32
    → read_order_executed (executed_layout header ref shares rest)
      ≡ (record { order_ref = ref; shares = shares }, rest)
unfolding read_order_executed executed_layout
read_order_executed-layout header ref shares rest h w f =
    rw (skip_header-append header _ h, read_ref-put_u64 ref _ w, read_u32-put_u32 shares rest f)

-- Of the bytes of a replace message that is laid out with a header of ten bytes and fields that
-- fit their widths, `read_order_replace` reads the fields and leaves the bytes behind the
-- message.
pub read_order_replace-layout :
    (header : List ℕ) (msg : OrderReplaceMsg) (rest : List ℕ)
    → length header ≡ 10
    → msg.original_order_ref < 2 ^ 64
    → msg.new_order_ref < 2 ^ 64
    → msg.shares < 2 ^ 32
    → msg.price < 2 ^ 32
    → read_order_replace (replace_layout header msg rest) ≡ (msg, rest)
unfolding read_order_replace replace_layout
read_order_replace-layout header msg rest h a b c d = rw (
  skip_header-append header _ h,
  read_ref-put_u64 msg.original_order_ref _ a,
  read_ref-put_u64 msg.new_order_ref _ b,
  read_u32-put_u32 msg.shares _ c,
  read_u32-put_u32 msg.price rest d,
)
