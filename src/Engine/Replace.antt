-- ===== src/Engine/Replace.antt =====
-- The replace message of matching_engine.cpp on a consistent engine.
use orderbook.Prelude.{
  ℕ, ◌≡◌, refl, sym, ap, subst, ◌∙◌, ◌≢◌, ◌⊎◌, Bool, not, List, [], ◌∷◌, Option, none, some, arith,
}
use orderbook.Run.{ok}
use orderbook.Itch.{Order, OrderReplaceMsg, read_order_replace}
use orderbook.Itch.Range.{Bytes, read_order_replace-lt}
use orderbook.Book.{Scratch, ref_of}
use orderbook.Engine.{Engine, OrderLocation, no_ref, enter_order, process_replace, replacement}
use orderbook.Engine.Orders.{location, map_find-view}
use orderbook.Engine.Books.{Consistent}
use orderbook.Engine.Drop.{Dropped, drop_order-Dropped}
use orderbook.Engine.Enter.{Enters, Fits, enter_order-Enters}
use orderbook.Engine.Add.{Advances, Enters-Advances, Ready}

abbrev pub replaced_by : List ℕ → OrderReplaceMsg
replaced_by body = (read_order_replace body).0

-- The order that takes the place of the one at `loc`.
abbrev pub successor : Engine → OrderReplaceMsg → OrderLocation → Order
successor e msg loc =
    replacement msg.new_order_ref msg.shares msg.price
      (e.pool.nodes loc.pool_idx).order.buy_sell_indicator

ref_of-replacement : (ref shares price side : ℕ) → ref_of (replacement ref shares price side) ≡ ref
ref_of-replacement ref shares price side = omega arith

-- The original order leaves its book, and its successor enters the same book.
pub record Succeeds (k : ℕ) (e e' : Engine) (msg : OrderReplaceMsg) (loc : OrderLocation)
    (out : Scratch) : Type 0 where
  pub between : Engine
  pub side : Bool
  pub dropped : Dropped k e between loc msg.original_order_ref
  pub enters :
      Enters k between dropped.consistent side loc.stock_locate (successor e msg loc) e' out

-- What a replacement leaves, whether or not the engine has the original order.
abbrev pub AfterReplace :
    ℕ → Engine → Engine → OrderReplaceMsg → Scratch → Scratch → Option OrderLocation → Type 0
AfterReplace k e e' msg out out' none = (e' ≡ e) × (out' ≡ out)
AfterReplace k e e' msg out out' (some loc) = Succeeds k e e' msg loc out'

Advances-after :
    (k : ℕ) (e e1 e' : Engine) (loc : OrderLocation) (ref : ℕ) (news : List ℕ)
    → Dropped k e e1 loc ref
    → Advances k e1 e' news
    → Advances k e e' news
Advances-after k e e1 e' loc ref news d a = record {
  consistent = a.consistent;
  locations = λ j real out h. a.locations j real out (d.drops.locations j real ∙ ground (arith, h));
  used = omega (arith, a.used, d.drops.used);
  size = omega (arith, a.size, d.size);
}

pub nothing-Advances : (k : ℕ) (e : Engine) (news : List ℕ) → Consistent k e → Advances k e e news
nothing-Advances k e news c = record {
  consistent = c;
  locations = λ j real out h. h;
  used = omega arith;
  size = omega arith;
}

module _ (k : ℕ) (e : Engine) (c : Consistent k e) (body : List ℕ) (out : Scratch) (r : Ready k e)
    (bytes : Bytes body) (old : (replaced_by body).original_order_ref ≢ no_ref)
    (new : (replaced_by body).new_order_ref ≢ no_ref)
    (fresh : (location k e (replaced_by body).new_order_ref ≡ none)
      ⊎ ((replaced_by body).new_order_ref ≡ (replaced_by body).original_order_ref)) where
  abbrev msg : OrderReplaceMsg
  msg = replaced_by body

  -- The successor is one that the engine can take when the original is gone.
  successor-Fits :
      (loc : OrderLocation) (e1 : Engine)
      → location k e msg.original_order_ref ≡ some loc
      → Dropped k e e1 loc msg.original_order_ref
      → (b : Bool) × Fits k e1 b (successor e msg loc)
  successor-Fits loc e1 found d =
      let side = (e.pool.nodes loc.pool_idx).order.buy_sell_indicator in
      let same = ref_of-replacement msg.new_order_ref msg.shares msg.price side in
      let (bo, p, i, is) = c.rests msg.original_order_ref loc old found in
      let mark = (c.listed bo loc.stock_locate p loc.pool_idx i).2 in
      (
        not bo,
        record {
          real = λ z. new (sym same ∙ z);
          fresh =
              ap (location k e1) same
              ∙ d.drops.locations msg.new_order_ref new
              ∙ ground (arith, fresh);
          mark = mark;
          price = (read_order_replace-lt body bytes).3;
          room = omega (arith, r.room, d.size);
          spare = omega (arith, r.spare, d.drops.used);
        },
      )

  abbrev Outcomes : Option OrderLocation → Type 0
  Outcomes l =
      (e' : Engine) × (out' : Scratch) × (process_replace e body out ≡ ok (e', out'))
      × Advances k e e' (msg.new_order_ref ∷ [])
      × AfterReplace k e e' msg out out' l

  replace_known :
      (loc : OrderLocation) → location k e msg.original_order_ref ≡ some loc → Outcomes (some loc)
  unfolding process_replace
  replace_known loc is =
      let found = map_find-view k e c.map msg.original_order_ref old in
      let (e1, run, d) = drop_order-Dropped k e c msg.original_order_ref loc old is in
      let (b, fits) = successor-Fits loc e1 is d in
      let side = (e.pool.nodes loc.pool_idx).order.buy_sell_indicator in
      let same = ref_of-replacement msg.new_order_ref msg.shares msg.price side in
      let (e', out', run', h, l, w) =
        enter_order-Enters k e1 d.consistent b loc.stock_locate (successor e msg loc) fits in
      let run'' : enter_order e1 loc.stock_locate (successor e msg loc) msg.new_order_ref
          ≡ ok (e', out') =
        ap (enter_order e1 loc.stock_locate (successor e msg loc)) (sym same) ∙ run' in
      let a =
        Enters-Advances k e1 e' d.consistent b loc.stock_locate (successor e msg loc) out' h in
      (
        e',
        out',
        ground (arith, found, is, run, run''),
        Advances-after k e e1 e' loc msg.original_order_ref _ d
            (subst (λ z. Advances k e1 e' (z ∷ [])) same a),
        record { between = e1; side = b; dropped = d; enters = h },
      )

  replace_unknown : location k e msg.original_order_ref ≡ none → Outcomes none
  unfolding process_replace
  replace_unknown is =
      let found = map_find-view k e c.map msg.original_order_ref old in
      (e, out, ground (arith, found, is), nothing-Advances k e _ c, (refl, refl))

  -- If the engine is consistent and has room for one more order, the message is made of bytes,
  -- neither of its references is the empty key, and the new one is unknown or that of the
  -- original, then `process_replace` returns and leaves a consistent engine that knows no
  -- reference but those it knew and the new one. If the original is unknown nothing changes.
  -- Otherwise the original is taken out of its book and of the map, which leaves a consistent
  -- engine, and then an order of the same side with the new reference, shares and price enters
  -- the same book as an added one does.
  pub process_replace-Succeeds : Outcomes (location k e msg.original_order_ref)
  process_replace-Succeeds = by_location (location k e msg.original_order_ref) refl
    where
      by_location :
          (l : Option OrderLocation) → location k e msg.original_order_ref ≡ l → Outcomes l
      by_location none is = replace_unknown is
      by_location (some loc) is = replace_known loc is
