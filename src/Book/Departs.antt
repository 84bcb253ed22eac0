-- ===== src/Book/Departs.antt =====
-- Which nodes of the queues the handlers of orderbook.cpp take off, told by the references that
-- they append to `removedRefs`.
use orderbook.Prelude.{
  ℕ, ◌≡◌, refl, sym, ap, subst, ◌∙◌, ◌≢◌, ◌⊎◌, inl, inr, true, false, List, [], ◌++◌, arith, ◌==◌,
  if◌then◌else◌, has, has-append, Bool-cases,
}
use native.Mathlib.Decide.{ℕ_discrete}
use orderbook.Pool.{Nodes}
use orderbook.Book.{ref_of}

abbrev pub ref_at : Nodes → ℕ → ℕ
ref_at ns a = ref_of (ns a).order

-- The node has its order, perhaps with other shares.
abbrev pub SameOrder : Nodes → Nodes → ℕ → Type 0
SameOrder ns' ns a =
    (ref_at ns' a ≡ ref_at ns a)
    × ((ns' a).order.buy_sell_indicator ≡ (ns a).order.buy_sell_indicator)

pub SameOrder-of : (ns' ns : Nodes) (a : ℕ) → (ns' a).order ≡ (ns a).order → SameOrder ns' ns a
SameOrder-of ns' ns a e = (ap ref_of e, ap (λ o. o.buy_sell_indicator) e)

-- A node with this reference has left the queues `q`, which are now `q'`.
abbrev pub Gone : Nodes → (ℕ → List ℕ) → (ℕ → List ℕ) → ℕ → Type 0
Gone ns q q' r =
    (p : ℕ) × (a : ℕ) × (has a (q p) ≡ true) × ((y : ℕ) → has a (q' y) ≡ false) × (ref_at ns a ≡ r)

-- The queues `q'` have the nodes of `q` but for those with the references `refs`.
pub record Departs (ns ns' : Nodes) (q q' : ℕ → List ℕ) (refs : List ℕ) : Type 0 where
  pub subset : (p a : ℕ) → has a (q' p) ≡ true → has a (q p) ≡ true
  pub stays :
      (p a : ℕ) → has a (q p) ≡ true → (has a (q' p) ≡ true) ⊎ (has (ref_at ns a) refs ≡ true)
  pub gone : (r : ℕ) → has r refs ≡ true → Gone ns q q' r
  pub same : (p a : ℕ) → has a (q' p) ≡ true → SameOrder ns' ns a

pub Departs-none : (ns : Nodes) (q : ℕ → List ℕ) → Departs ns ns q q []
Departs-none ns q = record {
  subset = λ p a i. i;
  stays = λ p a i. inl i;
  gone = λ r i. absurd (ground arith);
  same = λ p a i. (refl, refl);
}

module _ (ns ns' ns'' : Nodes) (q q' q'' : ℕ → List ℕ) (refs refs' : List ℕ)
    (d : Departs ns ns' q q' refs) (d' : Departs ns' ns'' q' q'' refs') where
  outside : (a : ℕ) → ((y : ℕ) → has a (q' y) ≡ false) → (y : ℕ) → has a (q'' y) ≡ false
  outside a out y = elim (Bool-cases (has a (q'' y))) [
    | inl i ↦ absurd (ground (arith, out y, d'.subset y a i))
    | inr h ↦ h
  ]

  later : (r : ℕ) → has r refs' ≡ true → Gone ns q q'' r
  later r i =
      let (p, a, j, out, e) = d'.gone r i in (p, a, d.subset p a j, out, sym (d.same p a j).0 ∙ e)

  earlier : (r : ℕ) → has r refs ≡ true → Gone ns q q'' r
  earlier r i = let (p, a, j, out, e) = d.gone r i in (p, a, j, outside a out, e)

  pub Departs-then : Departs ns ns'' q q'' (refs ++ refs')
  Departs-then = record {
    subset = λ p a i. d.subset p a (d'.subset p a i);
    stays = λ p a i. elim (d.stays p a i) [
      | inl j ↦ elim (d'.stays p a j) [
        | inl k ↦ inl k
        | inr k ↦ inr (ground (arith, has-append (ref_at ns a) refs refs', d.same p a j, k))
      ]
      | inr k ↦ inr (ground (arith, has-append (ref_at ns a) refs refs', k))
    ];
    gone = λ r i. elim (Bool-cases (has r refs)) [
      | inl j ↦ earlier r j
      | inr out ↦ later r (ground (arith, has-append r refs refs', i, out))
    ];
    same = λ p a i.
        let now = d'.same p a i in
        let before = d.same p a (d'.subset p a i) in (now.0 ∙ before.0, now.1 ∙ before.1);
  }

-- What happens to other nodes is no departure.
pub Departs-frame :
    (ns ns' ns'' : Nodes) (q q' : ℕ → List ℕ) (refs : List ℕ)
    → Departs ns ns' q q' refs
    → ((p a : ℕ) → has a (q' p) ≡ true → (ns'' a).order ≡ (ns' a).order)
    → Departs ns ns'' q q' refs
Departs-frame ns ns' ns'' q q' refs d kept = record {
  subset = d.subset;
  stays = d.stays;
  gone = d.gone;
  same = λ p a i.
      let now = SameOrder-of ns'' ns' a (kept p a i) in
      let before = d.same p a i in (now.0 ∙ before.0, now.1 ∙ before.1);
}

-- From the queue of one price to all queues of the side, each node of which rests at one price.
pub Departs-replaced :
    (ns ns' : Nodes) (q : ℕ → List ℕ) (price : ℕ) (ys refs : List ℕ)
    → Departs ns ns' (λ _. q price) (λ _. ys) refs
    → ((p a : ℕ) → p ≢ price → has a (q p) ≡ true → has a (q price) ≡ false)
    → ((a : ℕ) → has a (q price) ≡ false → ns' a ≡ ns a)
    → Departs ns ns' q (λ p. if price == p then ys else q p) refs
Departs-replaced ns ns' q price ys refs d apart frame = record {
  subset = λ p a i. elim (ℕ_discrete price p) [
    | yes e ↦ subst (λ z. has a (q z) ≡ true) e (d.subset p a (ground arith))
    | no ne ↦ ground arith
  ];
  stays = λ p a i. elim (ℕ_discrete price p) [
    | yes e ↦ let s = d.stays p a (subst (λ z. has a (q z) ≡ true) (sym e) i) in ground (arith, s)
    | no ne ↦ inl (ground arith)
  ];
  gone =
      λ r i. let (p, a, j, out, e) = d.gone r i in (price, a, j, λ y. elsewhere y a j (out p), e);
  same = λ p a i. elim (ℕ_discrete price p) [
    | yes e ↦ d.same p a (ground arith)
    | no ne ↦
        SameOrder-of ns' ns a
          (ap (λ n. n.order) (frame a (apart p a (λ z. ne (sym z)) (ground arith))))
  ];
}
  where
    elsewhere :
        (y a : ℕ)
        → has a (q price) ≡ true
        → has a ys ≡ false
        → has a (if price == y then ys else q y) ≡ false
    elsewhere y a j out = elim (ℕ_discrete price y) [
      | yes e ↦ ground arith
      | no ne ↦ elim (Bool-cases (has a (q y))) [
        | inl k ↦ absurd (ground (arith, apart y a (λ z. ne (sym z)) k, j))
        | inr h ↦ ground arith
      ]
    ]
