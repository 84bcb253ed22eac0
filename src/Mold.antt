-- ===== src/Mold.antt =====
-- include/moldudp64.hpp: the framing of packets. Bytes are numbers below 256. The host is
-- little-endian: `memcpy` into an integer puts the first byte lowest, and the functions ntohs,
-- ntohl, htons and htonl reverse the bytes of their argument.
pub mod Packet
use orderbook.Prelude.{
  ℕ, zero, suc, ◌+◌, ◌*◌, ◌/◌, ◌%◌, ◌^◌, List, [], ◌∷◌, ◌++◌, Option, none, some, ltb,
  if◌then◌else◌, length, get_or, take, drop,
}

abbrev pub header_bytes : ℕ
header_bytes = 20

abbrev pub end_of_session : ℕ
end_of_session = 0xffff

abbrev pub heartbeat : ℕ
heartbeat = 0

pub record MoldHeader : Type 0 where
  pub session : List ℕ
  pub sequence_number : ℕ
  pub message_count : ℕ

unfoldable pub swap_u16 : ℕ → ℕ
swap_u16 v = v % 256 * 256 + v / 256 % 256

unfoldable pub swap_u32 : ℕ → ℕ
swap_u32 v = ((v % 256 * 256 + v / 2 ^ 8 % 256) * 256 + v / 2 ^ 16 % 256) * 256 + v / 2 ^ 24 % 256

-- `memcpy` from the start of `data` into a 16-bit and into a 64-bit integer
unfoldable pub load_u16 : List ℕ → ℕ
load_u16 d = get_or d 0 0 + get_or d 1 0 * 2 ^ 8

unfoldable pub load_u64 : List ℕ → ℕ
load_u64 d =
    get_or d 0 0
    + get_or d 1 0 * 2 ^ 8
    + get_or d 2 0 * 2 ^ 16
    + get_or d 3 0 * 2 ^ 24
    + get_or d 4 0 * 2 ^ 32
    + get_or d 5 0 * 2 ^ 40
    + get_or d 6 0 * 2 ^ 48
    + get_or d 7 0 * 2 ^ 56

-- `memcpy` out of an integer
unfoldable pub store_u16 : ℕ → List ℕ
store_u16 v = v % 256 ∷ v / 2 ^ 8 % 256 ∷ []

unfoldable pub store_u64 : ℕ → List ℕ
store_u64 v =
    v % 256
    ∷ v / 2 ^ 8 % 256
    ∷ v / 2 ^ 16 % 256
    ∷ v / 2 ^ 24 % 256
    ∷ v / 2 ^ 32 % 256
    ∷ v / 2 ^ 40 % 256
    ∷ v / 2 ^ 48 % 256
    ∷ v / 2 ^ 56 % 256
    ∷ []

unfoldable pub parse_mold_header : List ℕ → MoldHeader
parse_mold_header d =
    let seq_be = load_u64 (drop 10 d) in
    let hi = swap_u32 (seq_be % 2 ^ 32) in
    let lo = swap_u32 (seq_be / 2 ^ 32) in
    record {
      session = take 10 d;
      sequence_number = hi * 2 ^ 32 + lo;
      message_count = swap_u16 (load_u16 (drop 18 d));
    }

-- `MoldMessageIterator::next` on the bytes from the cursor to the end: the message, if there is
-- one, and the bytes behind the cursor afterwards.
unfoldable pub next : List ℕ → Option (List ℕ) × List ℕ
next cursor =
    if ltb (length cursor) 2
    then (none, cursor)
    else let len = swap_u16 (load_u16 cursor) in
      let body = drop 2 cursor in
      if ltb (length body) len then (none, body) else (some (take len body), drop len body)

-- `while (msg = it.next(len))`, the messages in order. Each round consumes two bytes at least.
unfoldable pub messages : ℕ → List ℕ → List (List ℕ)
messages zero cursor = []
messages (suc fuel) cursor =
    let (m, rest) = next cursor in elim m [ none ↦ [] | some msg ↦ msg ∷ messages fuel rest ]

-- The loop of `buildMoldPacket`; `out` is what has been written, and `none` is the result 0.
unfoldable pub append_messages : ℕ → List ℕ → List (List ℕ) → Option (List ℕ)
append_messages out_cap out [] = some out
append_messages out_cap out (m ∷ ms) =
    let written = out ++ (store_u16 (swap_u16 (length m)) ++ m) in
    let rest = append_messages out_cap written ms in
    if ltb out_cap (length out + 2 + length m) then none else rest

-- `session` and `sequenceNumber` are written as the header, with the number of the messages.
unfoldable pub build_mold_header : List ℕ → ℕ → ℕ → List ℕ
build_mold_header session seq count =
    let hi = swap_u32 (seq / 2 ^ 32) in
    let lo = swap_u32 (seq % 2 ^ 32) in
    session ++ (store_u64 (lo * 2 ^ 32 + hi) ++ store_u16 (swap_u16 count))

unfoldable pub build_mold_packet : ℕ → List ℕ → ℕ → List (List ℕ) → Option (List ℕ)
build_mold_packet out_cap session seq ms =
    if ltb out_cap header_bytes
    then none
    else append_messages out_cap (build_mold_header session seq (length ms)) ms
