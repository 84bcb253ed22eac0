-- ===== src/Engine/Process.antt =====
-- `processMessage` of matching_engine.cpp on a consistent engine.
use orderbook.Prelude.{
  ℕ, ◌≡◌, subst, ◌≢◌, ◌⊎◌, inl, inr, true, false, ◌||◌, List, [], ◌∷◌, none, arith, ◌==◌,
  if◌then◌else◌, has, Bool-cases,
}
use orderbook.Run.{ok}
use orderbook.Itch.{read_order_executed}
use orderbook.Itch.Range.{Bytes}
use orderbook.Book.{Scratch, ref_of}
use orderbook.Engine.{Clock, Engine, no_ref, process_message}
use orderbook.Engine.Orders.{location, delete_ref}
use orderbook.Engine.Books.{Consistent}
use orderbook.Engine.Reduce.{process_delete-Lessens, process_executed-Lessens}
use orderbook.Engine.Add.{
  Advances, Ready, Enters-Advances, Lessens-Advances, added, process_add-Enters, locate_of,
}
use orderbook.Engine.Replace.{nothing-Advances, process_replace-Succeeds, replaced_by}

-- The references that a message gives to new orders.
unfoldable pub news_of : ℕ → List ℕ → List ℕ
news_of kind body =
    if kind == b'A' || kind == b'F'
    then ref_of (added body) ∷ []
    else if kind == b'U'
    then (replaced_by body).new_order_ref ∷ []
    else []

-- The references of the orders that a message says should rest already.
unfoldable pub olds_of : ℕ → List ℕ → List ℕ
olds_of kind body =
    if kind == b'D'
    then delete_ref body ∷ []
    else if kind == b'E' || kind == b'C' || kind == b'X'
    then (read_order_executed body).0.order_ref ∷ []
    else if kind == b'U'
    then (replaced_by body).original_order_ref ∷ []
    else []

-- A message of bytes, whose references are none of them the empty key, and whose new order, if it
-- adds one, is marked to buy or to sell. Messages of other types need nothing.
pub record WellFormed (kind : ℕ) (body : List ℕ) : Type 0 where
  pub bytes : Bytes body
  pub news : (r : ℕ) → has r (news_of kind body) ≡ true → r ≢ no_ref
  pub olds : (r : ℕ) → has r (olds_of kind body) ≡ true → r ≢ no_ref
  pub side :
      (kind == b'A' || kind == b'F') ≡ true
      → ((added body).buy_sell_indicator ≡ b'B') ⊎ ((added body).buy_sell_indicator ≡ b'S')

module _ (k : ℕ) (e : Engine) (c : Consistent k e) (r : Ready k e) (kind : ℕ) (body : List ℕ)
    (out : Scratch) (clock : Clock) (w : WellFormed kind body)
    (fresh : (j : ℕ) → has j (news_of kind body) ≡ true → location k e j ≡ none) where
  abbrev Processed : Type 0
  Processed =
      (e' : Engine) × (out' : Scratch) × (process_message e kind body out clock ≡ ok (e', out'))
      × Advances k e e' (news_of kind body)

  adds : (kind == b'A' || kind == b'F') ≡ true → Processed
  unfolding process_message news_of
  adds is =
      let new : has (ref_of (added body)) (news_of kind body) ≡ true = ground arith in
      let (e', out', b, run, h, t) =
        process_add-Enters k e c body clock r w.bytes (w.news (ref_of (added body)) new)
          (fresh (ref_of (added body)) new) (w.side is) in
      let a = Enters-Advances k e e' c b (locate_of body) (added body) out' h in
      (e', out', ground (arith, is, run), subst (Advances k e e') (ground (arith, is)) a)

  module _ (not_add : (kind == b'A' || kind == b'F') ≡ false) where
    deletes : (kind == b'D') ≡ true → Processed
    unfolding process_message news_of olds_of
    deletes is =
        let (e', run, l, done) =
          process_delete-Lessens k e c body (w.olds (delete_ref body) (ground (arith, is))) in
        (
          e',
          out,
          ground (arith, not_add, is, run),
          subst (Advances k e e') (ground (arith, not_add, is)) (Lessens-Advances k e e' l),
        )

    module _ (not_delete : (kind == b'D') ≡ false) where
      executes : (kind == b'E' || kind == b'C' || kind == b'X') ≡ true → Processed
      unfolding process_message news_of olds_of
      executes is =
          let ref = (read_order_executed body).0.order_ref in
          let (e', run, l, done) =
            process_executed-Lessens k e c body (w.olds ref (ground (arith, not_delete, is))) in
          (
            e',
            out,
            ground (arith, not_add, not_delete, is, run),
            subst (Advances k e e') (ground (arith, not_add, is)) (Lessens-Advances k e e' l),
          )

      module _ (not_execute : (kind == b'E' || kind == b'C' || kind == b'X') ≡ false) where
        replaces : (kind == b'U') ≡ true → Processed
        unfolding process_message news_of olds_of
        replaces is =
            let new : has (replaced_by body).new_order_ref (news_of kind body) ≡ true =
              ground (arith, not_add, is) in
            let old : has (replaced_by body).original_order_ref (olds_of kind body) ≡ true =
              ground (arith, not_delete, not_execute, is) in
            let (e', out', run, a, done) =
              process_replace-Succeeds k e c body out r w.bytes (w.olds _ old) (w.news _ new)
                (inl (fresh _ new)) in
            (
              e',
              out',
              ground (arith, not_add, not_delete, not_execute, is, run),
              subst (Advances k e e') (ground (arith, not_add, is)) a,
            )

        ignores : (kind == b'U') ≡ false → Processed
        unfolding process_message news_of
        ignores is = (
          e,
          out,
          ground (arith, not_add, not_delete, not_execute, is),
          subst (Advances k e e) (ground (arith, not_add, is)) (nothing-Advances k e [] c),
        )

  -- If the engine is consistent, there is room for one more order in the pool and in the map, the
  -- message is made of bytes, names no reference that is the empty key and marks an added order
  -- to buy or to sell, and its new reference, if it gives one, is new to the engine, then
  -- `process_message` returns for a message of any type and leaves a consistent engine, in which
  -- no reference is known but those that were known and the new one, with at most one node and
  -- one slot of the map more in use.
  pub process_message-Advances : Processed
  process_message-Advances = elim (Bool-cases (kind == b'A' || kind == b'F')) [
    | inl add ↦ adds add
    | inr not_add ↦ elim (Bool-cases (kind == b'D')) [
      | inl delete ↦ deletes not_add delete
      | inr not_delete ↦ elim (Bool-cases (kind == b'E' || kind == b'C' || kind == b'X')) [
        | inl execute ↦ executes not_add not_delete execute
        | inr not_execute ↦ elim (Bool-cases (kind == b'U')) [
          | inl replace ↦ replaces not_add not_delete not_execute replace
          | inr not_replace ↦ ignores not_add not_delete not_execute not_replace
        ]
      ]
    ]
  ]
