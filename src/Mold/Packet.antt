-- ===== src/Mold/Packet.antt =====
-- Packets built by moldudp64.hpp, parsed by moldudp64.hpp.
use native.Mathlib.Decide.{dec_le}
use orderbook.Prelude.{
  ℕ, zero, suc, ◌+◌, ◌*◌, ◌/◌, ◌%◌, ◌^◌, ◌≤◌, ◌<◌, ◌≡◌, refl, List, [], ◌∷◌, ◌++◌, none, some,
  arith, ltb, if◌then◌else◌, length, length-append, take, drop, drop-append, take-append,
  append_assoc, append-nil, All,
}
use orderbook.Mold.{
  header_bytes, swap_u16, swap_u32, load_u16, load_u64, store_u16, store_u64, parse_mold_header,
  next, messages, append_messages, build_mold_header, build_mold_packet,
}

pub swap_u16-swap : (v : ℕ) → v < 2 ^ 16 → swap_u16 (swap_u16 v) ≡ v
unfolding swap_u16
swap_u16-swap v h = omega arith

swap_u32-swap : (v : ℕ) → v < 2 ^ 32 → swap_u32 (swap_u32 v) ≡ v
unfolding swap_u32
swap_u32-swap v h = omega arith

pub swap_u16-lt : (v : ℕ) → swap_u16 v < 2 ^ 16
unfolding swap_u16
swap_u16-lt v = omega arith

swap_u32-lt : (v : ℕ) → swap_u32 v < 2 ^ 32
unfolding swap_u32
swap_u32-lt v = omega arith

pub load_u16-store : (v : ℕ) (rest : List ℕ) → v < 2 ^ 16 → load_u16 (store_u16 v ++ rest) ≡ v
unfolding load_u16 store_u16
load_u16-store v rest h = omega arith

load_u64-store : (v : ℕ) (rest : List ℕ) → v < 2 ^ 64 → load_u64 (store_u64 v ++ rest) ≡ v
unfolding load_u64 store_u64
load_u64-store v rest h = omega arith

length-store_u64 : (v : ℕ) → length (store_u64 v) ≡ 8
unfolding store_u64
length-store_u64 v = omega arith

pub length-store_u16 : (v : ℕ) → length (store_u16 v) ≡ 2
unfolding store_u16
length-store_u16 v = omega arith

-- The header, and whatever follows it, parsed back: the two halves of the 64-bit number are
-- exchanged and swapped on both ways.
pub parse-build_mold_header :
    (session : List ℕ) (seq count : ℕ) (body : List ℕ)
    → length session ≡ 10
    → seq < 2 ^ 64
    → count < 2 ^ 16
    → parse_mold_header (build_mold_header session seq count ++ body)
      ≡ record { session = session; sequence_number = seq; message_count = count }
unfolding parse_mold_header build_mold_header
parse-build_mold_header session seq count body h hs hc =
    let hi = swap_u32 (seq / 2 ^ 32) in
    let lo = swap_u32 (seq % 2 ^ 32) in
    let word = lo * 2 ^ 32 + hi in
    let tail = store_u16 (swap_u16 count) in
    let hi_lt = swap_u32-lt (seq / 2 ^ 32) in
    let lo_lt = swap_u32-lt (seq % 2 ^ 32) in
    let low : word % 2 ^ 32 ≡ hi = omega (arith, hi_lt) in
    let high : word / 2 ^ 32 ≡ lo = omega (arith, hi_lt) in
    let front : length (session ++ store_u64 word) ≡ 18 =
      omega (arith, length-append session (store_u64 word), length-store_u64 word) in
    let at_10 : drop 10 ((session ++ (store_u64 word ++ tail)) ++ body)
        ≡ store_u64 word ++ (tail ++ body) =
      rw (append_assoc session, append_assoc (store_u64 word)) (drop-append session _ 10 h) in
    let at_18 : drop 18 ((session ++ (store_u64 word ++ tail)) ++ body) ≡ tail ++ body =
      rw (← append_assoc session, append_assoc (session ++ store_u64 word))
        (drop-append (session ++ store_u64 word) _ 18 front) in
    let name : take 10 ((session ++ (store_u64 word ++ tail)) ++ body) ≡ session =
      rw (append_assoc session) (take-append session _ 10 h) in
    let word_lt : word < 2 ^ 64 = omega (arith, hi_lt, lo_lt) in
    rw
      (
        at_10,
        at_18,
        name,
        load_u64-store word (tail ++ body) word_lt,
        low,
        high,
        swap_u32-swap (seq / 2 ^ 32) (omega arith),
        swap_u32-swap (seq % 2 ^ 32) (omega arith),
        load_u16-store (swap_u16 count) body (swap_u16-lt count),
        swap_u16-swap count hc,
      )
      (ground arith)

-- The body of a packet: each message behind its length, most significant byte first.
unfoldable pub frames : List (List ℕ) → List ℕ
frames [] = []
frames (m ∷ ms) = (store_u16 (swap_u16 (length m)) ++ m) ++ frames ms

abbrev pub Short : List (List ℕ) → Type 0
Short = All (λ m. length m < 2 ^ 16)

pub length-frame : (m : List ℕ) → length (store_u16 (swap_u16 (length m)) ++ m) ≡ 2 + length m
length-frame m = omega (
  arith,
  length-append (store_u16 (swap_u16 (length m))) m,
  length-store_u16 (swap_u16 (length m)),
)

next-frame :
    (m : List ℕ) (rest : List ℕ)
    → length m < 2 ^ 16
    → next ((store_u16 (swap_u16 (length m)) ++ m) ++ rest) ≡ (some m, rest)
unfolding next
next-frame m rest h =
    let len = store_u16 (swap_u16 (length m)) in
    let all = len ++ (m ++ rest) in
    let body : drop 2 all ≡ m ++ rest =
      drop-append len (m ++ rest) 2 (length-store_u16 (swap_u16 (length m))) in
    let read : swap_u16 (load_u16 all) ≡ length m =
      rw (load_u16-store (swap_u16 (length m)) (m ++ rest) (swap_u16-lt (length m)))
        (swap_u16-swap (length m) h) in
    let long : length all ≡ 2 + length (m ++ rest) =
      omega (arith, length-append len (m ++ rest), length-store_u16 (swap_u16 (length m))) in
    rw append_assoc (
      ground (
        arith,
        body,
        read,
        long,
        length-append m rest,
        take-append m rest (length m) refl,
        drop-append m rest (length m) refl,
      ))

next-nil : next [] ≡ (none, [])
unfolding next
next-nil = refl

-- The loop over a body that was built gives the messages back.
pub messages-frames :
    (fuel : ℕ) (ms : List (List ℕ)) → Short ms → length ms < fuel → messages fuel (frames ms) ≡ ms
unfolding messages frames
messages-frames zero ms short enough = absurd (omega arith)
messages-frames (suc fuel) [] short enough = ground (arith, next-nil)
messages-frames (suc fuel) (m ∷ ms) short enough =
    ground (arith, next-frame m (frames ms) short.0, messages-frames fuel ms short.1)

-- The loop of the builder: all messages if they fit, and failure if one does not.
append_messages-frames :
    (cap : ℕ) (out : List ℕ) (ms : List (List ℕ))
    → length out ≤ cap
    → append_messages cap out ms
      ≡ (if ltb cap (length out + length (frames ms)) then none else some (out ++ frames ms))
unfolding append_messages frames
append_messages-frames cap out [] fits = rw (append-nil out) (ground arith)
append_messages-frames cap out (m ∷ ms) fits = elim (dec_le (length out + 2 + length m) cap) [
  | yes room ↦
      let frame = store_u16 (swap_u16 (length m)) ++ m in
      let long = length-append out frame in
      let size = length-frame m in
      let rest = append_messages-frames cap (out ++ frame) ms (omega (arith, long, size)) in
      ground (
        arith,
        rest,
        long,
        size,
        length-append frame (frames ms),
        append_assoc out frame (frames ms),
      )
  | no full ↦
      let frame = store_u16 (swap_u16 (length m)) ++ m in
      ground (arith, length-frame m, length-append frame (frames ms))
]

pub length-build_mold_header :
    (session : List ℕ) (seq count : ℕ)
    → length session ≡ 10
    → length (build_mold_header session seq count) ≡ 20
unfolding build_mold_header
length-build_mold_header session seq count h =
    let word = swap_u32 (seq % 2 ^ 32) * 2 ^ 32 + swap_u32 (seq / 2 ^ 32) in
    let tail = store_u16 (swap_u16 count) in
    omega (
      arith,
      length-append session (store_u64 word ++ tail),
      length-append (store_u64 word) tail,
      length-store_u64 word,
      length-store_u16 (swap_u16 count),
    )

-- If the session has ten bytes, `build_mold_packet` fails if the capacity is below 20 bytes and
-- those of the frames, and otherwise writes the header and then the frames of all messages.
pub build_mold_packet-frames :
    (cap : ℕ) (session : List ℕ) (seq : ℕ) (ms : List (List ℕ))
    → length session ≡ 10
    → build_mold_packet cap session seq ms ≡ (
        if ltb cap (20 + length (frames ms))
        then none
        else some (build_mold_header session seq (length ms) ++ frames ms))
unfolding build_mold_packet
build_mold_packet-frames cap session seq ms h =
    let head = build_mold_header session seq (length ms) in
    let size = length-build_mold_header session seq (length ms) h in
    elim (dec_le 20 cap) [
      | yes room ↦ ground (arith, size, append_messages-frames cap head ms (omega (arith, size)))
      | no full ↦ ground arith
    ]

pub length-frames : (ms : List (List ℕ)) → length ms ≤ length (frames ms)
unfolding frames
length-frames [] = omega arith
length-frames (m ∷ ms) =
    let frame = store_u16 (swap_u16 (length m)) ++ m in
    omega (arith, length-append frame (frames ms), length-frame m, length-frames ms)

-- If the session has ten bytes, the sequence number fits 64 bits, the messages are fewer than 2 ^
-- 16 and each shorter than 2 ^ 16 bytes, and the packet fits the capacity, then
-- `build_mold_packet` builds a packet no longer than the capacity, from which the parser reads
-- back the header and the iterator the messages.
pub packet_round_trip :
    (cap : ℕ) (session : List ℕ) (seq : ℕ) (ms : List (List ℕ))
    → length session ≡ 10
    → seq < 2 ^ 64
    → length ms < 2 ^ 16
    → Short ms
    → 20 + length (frames ms) ≤ cap
    → (p : List ℕ) × (build_mold_packet cap session seq ms ≡ some p)
      × (length p ≤ cap)
      × (parse_mold_header p
          ≡ record { session = session; sequence_number = seq; message_count = length ms })
      × (messages (length p) (drop header_bytes p) ≡ ms)
packet_round_trip cap session seq ms h hs few short fits =
    let head = build_mold_header session seq (length ms) in
    let size = length-build_mold_header session seq (length ms) h in
    let long = length-append head (frames ms) in
    (
      head ++ frames ms,
      ground (arith, build_mold_packet-frames cap session seq ms h),
      omega (arith, size, long),
      parse-build_mold_header session seq (length ms) (frames ms) h hs few,
      rw (drop-append head (frames ms) 20 size)
          (messages-frames _ ms short (omega (arith, size, long, length-frames ms))),
    )
