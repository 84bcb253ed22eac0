-- ===== src/Engine/Handled.antt =====
-- What `handleOrder` does to a book of the engine of matching_engine.cpp, seen from the order map.
use orderbook.Prelude.{
  ℕ, ◌<◌, ◌≡◌, sym, ap, subst, ◌∙◌, ◌≢◌, ◌⊎◌, inl, inr, Bool, true, false, not, List, none, some,
  arith, if◌then◌else◌, has, Bool-cases,
}
use native.Mathlib.Decide.{ℕ_discrete}
use orderbook.Itch.{Order}
use orderbook.Book.{Outcome, ref_of, with_shares}
use orderbook.Book.Departs.{ref_at}
use orderbook.Book.Sides.{Stocked}
use orderbook.Book.Enter.{Handled, side_of, taker}
use orderbook.Book.Uncrossed.{Entered-Apart}
use orderbook.Engine.{Engine, OrderLocation, OrderMap, no_ref, cleared}
use orderbook.Engine.Orders.{location}
use orderbook.Engine.Maps.{MapOk, in_map}
use orderbook.Engine.Books.{
  Consistent, at, both, both-all, both-other, both-Apart, maker, side-Apart,
}
use orderbook.Engine.Replaces.{Replaces}
use orderbook.Engine.Filled.{filled_listed, known_ref, opp_unfilled, own_unfilled, taker-maker}

module _ (k : ℕ) (e : Engine) (c : Consistent k e) (b : Bool) (locate : ℕ) (order : Order)
    (fresh : location k e (ref_of order) ≡ none) (real : ref_of order ≢ no_ref)
    (mark : order.buy_sell_indicator ≡ taker b) (o : Outcome)
    (h : Handled b e.pool
      (e.order_books locate)
      (c.queue b locate)
      (c.queue (not b) locate)
      c.free_list
      order
      cleared
      o) where
  abbrev opp : ℕ → List ℕ
  opp = h.entered.opp_queue

  abbrev own : ℕ → List ℕ
  own = h.entered.own_queue

  module _ (m : OrderMap) (valid : MapOk k m)
      (entered : 0 < h.entered.left → in_map k m (ref_of order) ≡ some (at locate o.resting_idx))
      (others : (j : ℕ)
        → j ≢ no_ref
        → (j ≢ ref_of order) ⊎ (h.entered.left ≡ 0)
        → in_map k m j ≡ (if has j h.refs then none else location k e j)) where
    ListedIn : Bool → ℕ → Type 0
    ListedIn bo a =
        (ref_at o.pool.nodes a ≢ no_ref)
        × (in_map k m (ref_at o.pool.nodes a) ≡ some (at locate a))
        × ((o.pool.nodes a).order.buy_sell_indicator ≡ maker bo)

    -- An order that stays is found where it was.
    kept-ListedIn :
        (bo : Bool) (p a : ℕ)
        → has a (c.queue bo locate p) ≡ true
        → has (ref_at e.pool.nodes a) h.refs ≡ false
        → ref_at o.pool.nodes a ≡ ref_at e.pool.nodes a
        → (o.pool.nodes a).order.buy_sell_indicator ≡ (e.pool.nodes a).order.buy_sell_indicator
        → ListedIn bo a
    unfolding ListedIn
    kept-ListedIn bo p a i out same same_mark =
        let (ok_ref, found, side) = c.listed bo locate p a i in
        let there =
          others (ref_at e.pool.nodes a) ok_ref
            (inl (known_ref k e c b locate order fresh real mark o h bo p a i)) in
        (
          λ z. ok_ref (sym same ∙ z),
          ap (in_map k m) same ∙ ground (arith, there, found, out),
          same_mark ∙ side,
        )

    opp-ListedIn : (p a : ℕ) → has a (opp p) ≡ true → ListedIn b a
    opp-ListedIn p a i =
        let same = h.entered.departs.same p a i in
        kept-ListedIn b p a (h.entered.departs.subset p a i)
          (opp_unfilled k e c b locate order fresh real mark o h p a i) same.0 same.1

    new-ListedIn :
        0 < h.entered.left
        → (o.pool.nodes o.resting_idx).order ≡ with_shares order h.entered.left
        → ListedIn (not b) o.resting_idx
    unfolding ListedIn
    new-ListedIn more is = (
      λ z. real (sym (ap ref_of is) ∙ z),
      ap (in_map k m) (ap ref_of is) ∙ entered more,
      ap (λ n. n.buy_sell_indicator) is ∙ mark ∙ taker-maker b,
    )

    own-ListedIn : (p a : ℕ) → has a (own p) ≡ true → ListedIn (not b) a
    own-ListedIn p a i = elim (h.entered.joins p a i) [
      | inl old ↦
          let same = (h.entered.keeps p a old).1 in
          kept-ListedIn (not b) p a old
            (own_unfilled k e c b locate order fresh real mark o h p a old) (ap ref_of same)
            (ap (λ n. n.buy_sell_indicator) same)
      | inr (more, is) ↦ elim h.entered.resting [
        | inl (done, _) ↦ absurd (omega arith)
        | inr (_, _, stored) ↦ subst (ListedIn (not b)) (sym is) (new-ListedIn more stored)
      ]
    ]

    after-ListedIn : (bo : Bool) (p a : ℕ) → has a (both b opp own bo p) ≡ true → ListedIn bo a
    after-ListedIn bo p a =
        both-all (λ d s. has a (s p) ≡ true → ListedIn d a) b opp own (opp-ListedIn p a)
          (own-ListedIn p a) bo

    elsewhere :
        (ref : ℕ) (loc : OrderLocation)
        → ref ≢ no_ref
        → loc.stock_locate ≢ locate
        → location k e ref ≡ some loc
        → in_map k m ref ≡ some loc
    elsewhere ref loc ok_ref ne found = elim (Bool-cases (has ref h.refs)) [
      | inl i ↦
          let (ok_ref', (a, here)) = filled_listed k e c b locate order fresh real mark o h ref i in
          absurd (ground (arith, here, found, ne))
      | inr out ↦
          let new : ref ≢ ref_of order =
            λ z. ground (arith, sym found ∙ ap (location k e) z ∙ fresh) in
          others ref ok_ref (inl new) ∙ ground (arith, out, found)
    ]

    abbrev RestsIn : ℕ → ℕ → Type 0
    RestsIn ref a =
        (bo : Bool) × (p : ℕ) × (has a (both b opp own bo p) ≡ true) × (ref_at o.pool.nodes a ≡ ref)

    still_rests :
        (bo : Bool) (p a : ℕ)
        → has a (c.queue bo locate p) ≡ true
        → has (ref_at e.pool.nodes a) h.refs ≡ false
        → (has a (both b opp own bo p) ≡ true) × (ref_at o.pool.nodes a ≡ ref_at e.pool.nodes a)
    still_rests bo p a i out =
        both-all
          (λ d s.
            has a (c.queue d locate p) ≡ true
            → (has a (s p) ≡ true) × (ref_at o.pool.nodes a ≡ ref_at e.pool.nodes a))
          b opp own
          (λ j. elim (h.entered.departs.stays p a j) [
            | inl stays ↦ (stays, (h.entered.departs.same p a stays).0)
            | inr filled ↦ absurd (ground (arith, filled, out))
          ])
          (λ j. let (stays, same) = h.entered.keeps p a j in (stays, ap ref_of same)) bo i

    OldOrNew : ℕ → OrderLocation → Type 0
    OldOrNew ref loc =
        ((loc.stock_locate ≡ locate) × RestsIn ref loc.pool_idx)
        ⊎ ((loc.stock_locate ≢ locate) × (location k e ref ≡ some loc))

    old-OldOrNew :
        (ref : ℕ) (loc : OrderLocation)
        → ref ≢ no_ref
        → (ref ≢ ref_of order) ⊎ (h.entered.left ≡ 0)
        → in_map k m ref ≡ some loc
        → OldOrNew ref loc
    unfolding OldOrNew
    old-OldOrNew ref loc ok_ref old found =
        let there = others ref ok_ref old in
        let out : has ref h.refs ≡ false = ground (arith, there, found) in
        let was : location k e ref ≡ some loc = ground (arith, there, found) in
        elim (ℕ_discrete loc.stock_locate locate) [
          | no ne ↦ inr (ne, was)
          | yes same ↦
              let (bo, p, i, is) = c.rests ref loc ok_ref was in
              let i' : has loc.pool_idx (c.queue bo locate p) ≡ true = ground (arith, i, same) in
              let (j, kept) = still_rests bo p loc.pool_idx i' (ap (λ z. has z h.refs) is ∙ out) in
              inl (same, (bo, p, j, kept ∙ is))
        ]

    new-OldOrNew :
        (loc : OrderLocation)
        → 0 < h.entered.left
        → in_map k m (ref_of order) ≡ some loc
        → OldOrNew (ref_of order) loc
    unfolding OldOrNew
    new-OldOrNew loc more found =
        let here : some loc ≡ some (at locate o.resting_idx) = sym found ∙ entered more in
        elim h.entered.resting [
          | inl (done, _) ↦ absurd (omega arith)
          | inr (_, i, stored) ↦ inl (
            ground (arith, here),
            (
              not b,
              order.price,
              ap (λ s. has loc.pool_idx (s order.price)) (both-other b opp own)
                  ∙ ground (arith, here, i),
              ap (ref_at o.pool.nodes) (ground (arith, here)) ∙ ap ref_of stored,
            ),
          )
        ]

    pub enter-Replaces : Replaces k e c locate o.pool o.book m (both b opp own) h.entered.free_list
    unfolding ListedIn OldOrNew
    enter-Replaces = record {
      valid = valid;
      sides =
          both-all (λ d s. Stocked o.pool d (side_of d o.book) s h.entered.free_list) b opp own
            h.entered.opp_stocked h.entered.own_stocked;
      apart = both-Apart b o.pool.nodes opp own (
          Entered-Apart b order _ _ _ _ h.entered.left h.refs h.executed h.entered.matched
            h.entered.rests (side-Apart c b locate));
      spares = λ a live out. h.entered.spares a live (λ p. (out b p, out (not b) p));
      listed = after-ListedIn;
      elsewhere = elsewhere;
      rests = λ ref loc ok_ref found. elim (ℕ_discrete ref (ref_of order)) [
        | no ne ↦ old-OldOrNew ref loc ok_ref (inl ne) found
        | yes same ↦ elim (ℕ_discrete h.entered.left 0) [
          | yes done ↦ old-OldOrNew ref loc ok_ref (inr done) found
          | no more ↦
              subst (λ z. OldOrNew z loc) (sym same)
                (new-OldOrNew loc (omega arith) (ap (in_map k m) (sym same) ∙ found))
        ]
      ];
    }
