-- ===== src/Replay/Batches.antt =====
-- The packets of replay.cpp carry the messages of the file.
use orderbook.Prelude.{
  ℕ, zero, suc, ◌+◌, ◌^◌, ◌≤◌, ◌<◌, ◌≡◌, refl, ap, List, [], ◌∷◌, ◌++◌, arith, length,
  length-append, take, drop, drop-append, take-append, append_assoc, All, ◌∙◌,
}
use native.Mathlib.Decide.{dec_le}
use orderbook.Mold.{header_bytes, swap_u16, load_u16, store_u16}
use orderbook.Mold.Packet.{
  frames, swap_u16-swap, swap_u16-lt, load_u16-store, length-store_u16, length-frame,
}
use orderbook.Replay.{sent, batch_slots, packet_bytes, put_in_batch, collect}

-- Messages that fit a packet each.
abbrev pub Fit : List (List ℕ) → Type 0
Fit = All (λ m. header_bytes + 2 + length m ≤ packet_bytes)

module _ (m : List ℕ) (rest : List ℕ) (short : length m < 2 ^ 16) where
  abbrev frame : List ℕ
  frame = store_u16 (swap_u16 (length m)) ++ m

  read_length : swap_u16 (load_u16 (frame ++ rest)) ≡ length m
  read_length =
      rw
        (
          append_assoc (store_u16 (swap_u16 (length m))),
          load_u16-store (swap_u16 (length m)) (m ++ rest) (swap_u16-lt (length m)),
        )
        (swap_u16-swap (length m) short)

  read_message : take (length m) (drop 2 (frame ++ rest)) ≡ m
  read_message =
      rw
        (
          append_assoc (store_u16 (swap_u16 (length m))),
          drop-append (store_u16 (swap_u16 (length m))) (m ++ rest) 2
              (length-store_u16 (swap_u16 (length m))),
        )
        (take-append m rest (length m) refl)

  read_rest : drop (2 + length m) (frame ++ rest) ≡ rest
  read_rest = drop-append frame rest (2 + length m) (length-frame m)

abbrev pub first : List (List ℕ) → List ℕ
first [] = []
first (m ∷ ms) = m

-- What `collect` takes from a file of whole messages.
pub record Collected (left used : ℕ) (ms : List (List ℕ)) (c : List (List ℕ) × List ℕ)
    : Type 0 where
  pub others : List (List ℕ)
  pub rest : c.1 ≡ frames others
  pub split : ms ≡ c.0 ++ others
  pub few : length c.0 ≤ left
  pub some_taken :
      0 < length ms → 0 < left → used + 2 + length (first ms) ≤ packet_bytes → 0 < length c.0
  pub fits : used + length (frames c.0) ≤ packet_bytes

-- `collect` returns such a result.
abbrev pub Collects : ℕ → ℕ → ℕ → List (List ℕ) → Type 0
Collects count left used ms =
    (c : List (List ℕ) × List ℕ) × (collect count left used (frames ms) ≡ sent c)
    × Collected left used ms c

-- One round at the frame of a message: it is put in the batch, or it does not fit the packet.
module _ (count left used : ℕ) (m : List ℕ) (ms : List (List ℕ)) (short : length m < 2 ^ 16) where
  pub long : length (frames (m ∷ ms)) ≡ 2 + length m + length (frames ms)
  unfolding frames
  long = omega (arith, length-append (frame m (frames ms) short) (frames ms), length-frame m)

  pub collect-put :
      used + 2 + length m ≤ packet_bytes
      → collect count (suc left) used (frames (m ∷ ms))
        ≡ put_in_batch count m (collect (count + 1) left (used + 2 + length m) (frames ms))
  unfolding collect frames
  collect-put fits =
      let len = read_length m (frames ms) short in
      let msg = read_message m (frames ms) short in
      let behind = read_rest m (frames ms) short in ground (arith, len, msg, behind, long)

  collect-full :
      packet_bytes < used + 2 + length m
      → collect count (suc left) used (frames (m ∷ ms)) ≡ sent ([], frames (m ∷ ms))
  unfolding collect frames
  collect-full full = ground (arith, read_length m (frames ms) short, long)

put_in_batch-sent :
    (count : ℕ) (m : List ℕ) (c : List (List ℕ) × List ℕ)
    → count < batch_slots
    → put_in_batch count m (sent c) ≡ sent (m ∷ c.0, c.1)
unfolding put_in_batch
put_in_batch-sent count m c room = ground arith

pub collect-frames :
    (count left used : ℕ) (ms : List (List ℕ))
    → Fit ms
    → used ≤ packet_bytes
    → count + left ≤ batch_slots
    → Collects count left used ms
unfolding collect frames
collect-frames count zero used ms fit room small = (
  ([], frames ms),
  refl,
  record {
    others = ms;
    rest = refl;
    split = refl;
    few = omega arith;
    some_taken = λ a b c. ground arith;
    fits = omega arith;
  },
)
collect-frames count (suc left) used [] fit room small = (
  ([], frames []),
  refl,
  record {
    others = [];
    rest = refl;
    split = refl;
    few = omega arith;
    some_taken = λ a b c. ground arith;
    fits = omega arith;
  },
)
collect-frames count (suc left) used (m ∷ ms) (here, fit) room small =
    let short : length m < 2 ^ 16 = omega (arith, here) in
    elim (dec_le (used + 2 + length m) packet_bytes) [
      | yes fits ↦
          let (c, run, r) =
            collect-frames (count + 1) left (used + 2 + length m) ms fit fits (omega arith) in
          (
            (m ∷ c.0, c.1),
            collect-put count left used m ms short fits
                ∙ ap (put_in_batch count m) run
                ∙ put_in_batch-sent count m c (omega arith),
            record {
              others = r.others;
              rest = r.rest;
              split = ap (λ l. m ∷ l) r.split;
              few = omega (arith, r.few);
              some_taken = λ a b c. omega arith;
              fits = omega (
                arith,
                r.fits,
                length-append (frame m (frames c.0) short) (frames c.0),
                length-frame m,
              );
            },
          )
      | no full ↦ (
        ([], frames (m ∷ ms)),
        collect-full count left used m ms short (omega arith),
        record {
          others = m ∷ ms;
          rest = refl;
          split = refl;
          few = omega arith;
          some_taken = λ a b c. ground arith;
          fits = omega arith;
        },
      )
    ]
