-- ===== src/Ring/Order.antt =====
-- The ring of spsc_ring.hpp hands over every value once, in order, however its threads interleave.
use orderbook.Prelude.{
  ℕ, ◌+◌, ◌^◌, ◌<◌, ◌≡◌, refl, sym, subst, ap, ◌∙◌, ◌≢◌, ◌⊎◌, inl, inr, List, [], ◌∷◌, ◌++◌, arith,
  length, append_assoc, append-nil,
}
use mathlib.Core.Path.{fun_ext}
use native.Mathlib.Decide.{dec_lt, ℕ_discrete}
use orderbook.Prelude.Store.{update}
use orderbook.Prelude.Cycle.{after}
use orderbook.Ring.{SpscRing, next_index, push, pop}
use orderbook.Ring.Contents.{
  Holds, Slots, next_index-after, Slots-update, next-eq, push-Holds, pop-Holds, pop-empty,
}
use orderbook.Ring.Threads.{
  Producer, resting, checked, written, Consumer, waiting, ready, loaded, Pair, produce, consume,
  Access, by_producer, by_consumer, run_accesses,
}

module _ {T : Type 0} where
  -- What the producer knows of a ring that holds `xs`.
  abbrev pub Pushing : ℕ → SpscRing T → List T → Producer T → Type 0
  Pushing k r xs resting = Unit
  Pushing k r xs (checked v tail next) =
      (tail ≡ r.tail) × (next ≡ next_index r.mask r.tail) × (length xs + 1 < 2 ^ k)
  Pushing k r xs (written v next) =
      (r.buffer r.tail ≡ v) × (next ≡ next_index r.mask r.tail) × (length xs + 1 < 2 ^ k)

  abbrev pub Popping : SpscRing T → List T → Consumer T → Type 0
  Popping r xs waiting = Unit
  Popping r xs (ready head) = (head ≡ r.head) × (xs ≢ [])
  Popping r xs (loaded head v) = (head ≡ r.head) × (rest : List T) × (xs ≡ v ∷ rest)

  -- The ring holds the values pushed and not popped.
  pub record InOrder (k : ℕ) (s : Pair T) : Type 0 where
    pub values : List T
    pub holds : Holds k s.ring values
    pub pushing : Pushing k s.ring values s.producer
    pub popping : Popping s.ring values s.consumer
    pub order : s.pushed ≡ s.popped ++ values

  Slots-prefix :
      (buffer : ℕ → T) (c h : ℕ) (xs ys : List T)
      → Slots buffer c h (xs ++ ys)
      → Slots buffer c h xs
  Slots-prefix buffer c h [] ys s = tt
  Slots-prefix buffer c h (x ∷ xs) ys s = (s.0, Slots-prefix buffer c (after c h) xs ys s.1)

  Producer-cases :
      (p : Producer T)
      → (p ≡ resting)
        ⊎ ((v : T) × (tail : ℕ) × (next : ℕ) × (p ≡ checked v tail next))
        ⊎ ((v : T) × (next : ℕ) × (p ≡ written v next))
  Producer-cases resting = inl refl
  Producer-cases (checked v tail next) = inr (inl (v, tail, next, refl))
  Producer-cases (written v next) = inr (inr (v, next, refl))

  Consumer-cases :
      (c : Consumer T)
      → (c ≡ waiting)
        ⊎ ((head : ℕ) × (c ≡ ready head))
        ⊎ ((head : ℕ) × (v : T) × (c ≡ loaded head v))
  Consumer-cases waiting = inl refl
  Consumer-cases (ready head) = inr (inl (head, refl))
  Consumer-cases (loaded head v) = inr (inr (head, v, refl))

  -- What the consumer knows depends on `head` only, and stays true when values are appended.
  still-Popping :
      (r r' : SpscRing T) (c : Consumer T) (xs ys : List T)
      → r'.head ≡ r.head
      → Popping r xs c
      → Popping r' (xs ++ ys) c
  still-Popping r r' waiting xs ys e p = tt
  still-Popping r r' (ready head) xs ys e (at, ne) = (at ∙ sym e, λ z. ne (ground (arith, z)))
  still-Popping r r' (loaded head v) xs ys e (at, rest, is) =
      (at ∙ sym e, rest ++ ys, ap (λ l. l ++ ys) is)

  module _ (k : ℕ) (s : Pair T) (o : InOrder k s) where
    at_next : next_index s.ring.mask s.ring.tail ≡ after (2 ^ k) s.ring.tail
    at_next = next_index-after k s.ring.mask s.ring.tail o.holds.mask o.holds.width o.holds.tail

    not_full : next_index s.ring.mask s.ring.tail ≢ s.ring.head → length o.values + 1 < 2 ^ k
    not_full ne = elim (dec_lt (length o.values + 1) (2 ^ k)) [
      | yes room ↦ room
      | no full ↦ absurd (ne (at_next ∙ next-eq o.values (s.ring.buffer 0) o.holds (omega arith)))
    ]

    -- Writing the cell behind the last value changes none.
    write-Holds :
        (v : T) → Holds k (record (s.ring) { buffer = update s.ring.buffer s.ring.tail v }) o.values
    write-Holds v = record {
      width = o.holds.width;
      mask = o.holds.mask;
      head = o.holds.head;
      tail = o.holds.tail;
      size = o.holds.size;
      slots =
          Slots-prefix (update s.ring.buffer s.ring.tail v) (2 ^ k) s.ring.head o.values (v ∷ []) (
            Slots-update (2 ^ k) s.ring.tail o.holds.tail v s.ring.buffer s.ring.head o.values
              o.holds.head o.holds.size o.holds.slots);
    }

    store-Holds :
        (v : T)
        → s.ring.buffer s.ring.tail ≡ v
        → length o.values + 1 < 2 ^ k
        → Holds k
            (record (s.ring) { tail = next_index s.ring.mask s.ring.tail })
            (o.values ++ (v ∷ []))
    unfolding push
    store-Holds v e room =
        let same : update s.ring.buffer s.ring.tail v ≡ s.ring.buffer =
          fun_ext (λ a. ground (arith, e)) in
        let (pushed, h) = (push-Holds o.values v o.holds).0 room in
        let run : (push s.ring v).1
            ≡ record (s.ring) { tail = next_index s.ring.mask s.ring.tail } =
          ground (arith, pushed, same) in
        subst (λ r. Holds k r (o.values ++ (v ∷ []))) run h

    produce-InOrder : (value : T) → InOrder k (produce s value)
    unfolding produce
    produce-InOrder value = elim (Producer-cases s.producer) [
      | inl e ↦ elim (ℕ_discrete (next_index s.ring.mask s.ring.tail) s.ring.head) [
        | yes full ↦
            let run : produce s value ≡ s = ground (arith, e, full) in subst (InOrder k) (sym run) o
        | no room ↦
            let run : produce s value ≡ record s {
              producer = checked value s.ring.tail (next_index s.ring.mask s.ring.tail);
            } =
              ground (arith, e, room) in
            subst (InOrder k) (sym run) (record {
              values = o.values;
              holds = o.holds;
              pushing = (refl, refl, not_full room);
              popping = o.popping;
              order = o.order;
            })
      ]
      | inr (inl (v, tail, next, e)) ↦
          let known : Pushing k s.ring o.values (checked v tail next) =
            subst (Pushing k s.ring o.values) e o.pushing in
          let run : produce s value ≡ record s {
            ring = record (s.ring) { buffer = update s.ring.buffer s.ring.tail v };
            producer = written v next;
          } =
            ground (arith, e, known.0) in
          subst (InOrder k) (sym run) (record {
            values = o.values;
            holds = write-Holds v;
            pushing = (ground arith, known.1, known.2);
            popping =
                subst
                  (λ l.
                    Popping (record (s.ring) { buffer = update s.ring.buffer s.ring.tail v }) l
                      s.consumer)
                  (append-nil o.values)
                  (still-Popping s.ring
                    (record (s.ring) { buffer = update s.ring.buffer s.ring.tail v }) s.consumer
                    o.values [] refl o.popping);
            order = o.order;
          })
      | inr (inr (v, next, e)) ↦
          let known : Pushing k s.ring o.values (written v next) =
            subst (Pushing k s.ring o.values) e o.pushing in
          let run : produce s value ≡ record s {
            ring = record (s.ring) { tail = next_index s.ring.mask s.ring.tail };
            producer = resting;
            pushed = s.pushed ++ (v ∷ []);
          } =
            ground (arith, e, known.1) in
          subst (InOrder k) (sym run) (record {
            values = o.values ++ (v ∷ []);
            holds = store-Holds v known.0 known.2;
            pushing = tt;
            popping =
                still-Popping s.ring (record (s.ring) { tail = next_index s.ring.mask s.ring.tail })
                  s.consumer o.values (v ∷ []) refl o.popping;
            order = ap (λ l. l ++ (v ∷ [])) o.order ∙ append_assoc s.popped o.values (v ∷ []);
          })
    ]

    has_values : s.ring.head ≢ s.ring.tail → o.values ≢ []
    unfolding pop
    has_values ne e =
        let empty = pop-empty s.ring (subst (Holds k s.ring) e o.holds) in
        absurd (ground (arith, empty, ne))

    first_value :
        (xs : List T)
        → Holds k s.ring xs
        → xs ≢ []
        → (rest : List T) × (xs ≡ s.ring.buffer s.ring.head ∷ rest)
    first_value [] h ne = absurd (ne refl)
    first_value (x ∷ rest) h ne = (rest, ap (λ y. y ∷ rest) (sym h.slots.0))

    load-Holds :
        (v : T) (rest : List T)
        → o.values ≡ v ∷ rest
        → Holds k (record (s.ring) { head = next_index s.ring.mask s.ring.head }) rest
    unfolding pop
    load-Holds v rest e =
        let (popped, h) = pop-Holds s.ring v rest (subst (Holds k s.ring) e o.holds) in
        let run : (pop s.ring).1 ≡ record (s.ring) { head = next_index s.ring.mask s.ring.head } =
          ground (arith, popped) in
        subst (λ r. Holds k r rest) run h

    still-Pushing :
        (p : Producer T) (v : T) (rest : List T)
        → o.values ≡ v ∷ rest
        → Pushing k s.ring o.values p
        → Pushing k (record (s.ring) { head = next_index s.ring.mask s.ring.head }) rest p
    still-Pushing resting v rest e known = tt
    still-Pushing (checked w tail next) v rest e known =
        (known.0, known.1, omega (arith, known.2, ap length e))
    still-Pushing (written w next) v rest e known =
        (known.0, known.1, omega (arith, known.2, ap length e))

    consume-InOrder : InOrder k (consume s)
    unfolding consume
    consume-InOrder = elim (Consumer-cases s.consumer) [
      | inl e ↦ elim (ℕ_discrete s.ring.head s.ring.tail) [
        | yes empty ↦
            let run : consume s ≡ s = ground (arith, e, empty) in subst (InOrder k) (sym run) o
        | no ne ↦
            let run : consume s ≡ record s { consumer = ready s.ring.head } =
              ground (arith, e, ne) in
            subst (InOrder k) (sym run) (record {
              values = o.values;
              holds = o.holds;
              pushing = o.pushing;
              popping = (refl, has_values ne);
              order = o.order;
            })
      ]
      | inr (inl (head, e)) ↦
          let known : Popping s.ring o.values (ready head) =
            subst (Popping s.ring o.values) e o.popping in
          let run : consume s
              ≡ record s { consumer = loaded s.ring.head (s.ring.buffer s.ring.head) } =
            ground (arith, e, known.0) in
          subst (InOrder k) (sym run) (record {
            values = o.values;
            holds = o.holds;
            pushing = o.pushing;
            popping = let (rest, is) = first_value o.values o.holds known.1 in (refl, rest, is);
            order = o.order;
          })
      | inr (inr (head, v, e)) ↦
          let known : Popping s.ring o.values (loaded head v) =
            subst (Popping s.ring o.values) e o.popping in
          let (at, rest, is) = known in
          let run : consume s ≡ record s {
            ring = record (s.ring) { head = next_index s.ring.mask s.ring.head };
            consumer = waiting;
            popped = s.popped ++ (v ∷ []);
          } =
            ground (arith, e, at) in
          subst (InOrder k) (sym run) (record {
            values = rest;
            holds = load-Holds v rest is;
            pushing = still-Pushing s.producer v rest is o.pushing;
            popping = tt;
            order =
                o.order ∙ ap (λ l. s.popped ++ l) is ∙ sym (append_assoc s.popped (v ∷ []) rest);
          })
    ]

  -- Access by access, in whatever order the two threads take their turns: if a ring of `2 ^ k`
  -- cells holds the values pushed and not yet popped, in the order in which they were pushed, and
  -- the threads are within `push` and `pop` at most, then so it is afterwards. No value is lost,
  -- repeated, overtaken or read before it is written.
  pub run_accesses-InOrder :
      (k : ℕ) (s : Pair T) (accesses : List (Access T))
      → InOrder k s
      → InOrder k (run_accesses s accesses)
  unfolding run_accesses
  run_accesses-InOrder k s [] o = o
  run_accesses-InOrder k s (by_producer v ∷ rest) o =
      run_accesses-InOrder k (produce s v) rest (produce-InOrder k s o v)
  run_accesses-InOrder k s (by_consumer ∷ rest) o =
      run_accesses-InOrder k (consume s) rest (consume-InOrder k s o)
