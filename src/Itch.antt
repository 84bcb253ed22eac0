-- ===== src/Itch.antt =====
-- include/itch.hpp and src/itch.cpp: the message records and the parser of ITCH messages.
-- A message is a list of bytes. The cursor `data` is the list of the bytes not yet read, and a
-- read past the end, which the source does not check, sees bytes 0.
pub mod Wire
pub mod Range
use orderbook.Prelude.{ℕ, ◌+◌, ◌*◌, ◌/◌, ◌%◌, ◌^◌, List, get_or, drop}

pub record Order : Type 0 where
  pub order_reference_number_high : ℕ
  pub order_reference_number_low : ℕ
  pub shares : ℕ
  pub price : ℕ
  pub buy_sell_indicator : ℕ

pub record DeleteOrder : Type 0 where
  pub order_reference_number_high : ℕ
  pub order_reference_number_low : ℕ

pub record OrderExecutedMsg : Type 0 where
  pub order_ref : ℕ
  pub shares : ℕ

pub record OrderReplaceMsg : Type 0 where
  pub original_order_ref : ℕ
  pub new_order_ref : ℕ
  pub shares : ℕ
  pub price : ℕ

-- A 64-bit reference from its halves: `(uint64_t(high) << 32) | low`, where `low` has 32 bits.
abbrev pub join_ref : ℕ → ℕ → ℕ
join_ref high low = high * 2 ^ 32 + low

-- A read returns its value and the advanced cursor.
abbrev pub Reader : Type 0 → Type 0
Reader A = List ℕ → A × List ℕ

infixl 5 ◌>>=◌ ◌>>◌
abbrev pub ◌>>=◌ : {A B : Type 0} → Reader A → (A → Reader B) → Reader B
◌>>=◌ m f d = let (a, rest) = m d in f a rest

abbrev pub ◌>>◌ : {B : Type 0} → Reader (Unit {0}) → Reader B → Reader B
m >> k = m >>= λ _. k

abbrev pub pure : {A : Type 0} → A → Reader A
pure a d = (a, d)

abbrev pub skip : ℕ → Reader (Unit {0})
skip n d = (tt, drop n d)

-- stock locate (2), tracking number (2) and timestamp (6)
unfoldable pub skip_header : Reader (Unit {0})
skip_header = skip 10

-- `memcpy` of four bytes and `ntohl`
unfoldable pub read_u32 : Reader ℕ
read_u32 d =
    (((get_or d 0 0 * 256 + get_or d 1 0) * 256 + get_or d 2 0) * 256 + get_or d 3 0, drop 4 d)

unfoldable pub read_ref : Reader ℕ
read_ref = do high ← read_u32; low ← read_u32; pure (join_ref high low)

-- `char side = *data++`
unfoldable pub read_side : Reader ℕ
read_side d = (get_or d 0 0, drop 1 d)

unfoldable pub read_delete_order : Reader DeleteOrder
read_delete_order = do
  skip_header
  ref ← read_ref
  pure (record {
    order_reference_number_high = ref / 2 ^ 32;
    order_reference_number_low = ref % 2 ^ 32;
  })

unfoldable pub read_add_order : Reader Order
read_add_order = do
  skip_header
  ref ← read_ref
  side ← read_side
  shares ← read_u32
  skip 8
  price ← read_u32
  pure (record {
    order_reference_number_high = ref / 2 ^ 32;
    order_reference_number_low = ref % 2 ^ 32;
    shares = shares;
    price = price;
    buy_sell_indicator = side;
  })

unfoldable pub read_order_executed : Reader OrderExecutedMsg
read_order_executed = do
  skip_header
  ref ← read_ref
  shares ← read_u32
  pure (record { order_ref = ref; shares = shares })

unfoldable pub read_order_replace : Reader OrderReplaceMsg
read_order_replace = do
  skip_header
  original ← read_ref
  new ← read_ref
  shares ← read_u32
  price ← read_u32
  pure (record {
    original_order_ref = original;
    new_order_ref = new;
    shares = shares;
    price = price;
  })
