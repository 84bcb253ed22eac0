-- ===== src/CommandLine/Laws.antt =====
-- What the loops over `argv` of main.cpp and replay.cpp have in common: arguments are read from
-- left to right.
use Prim.Native.String.{String}
use orderbook.Prelude.{◌≡◌, refl, sym, ap, ◌∙◌, ◌⊎◌, inl, inr, List, [], ◌∷◌, ◌++◌, arith}
use orderbook.CommandLine.{
  Parsed, Switch, parsed, exit_1, uncaught, flag, valued, unknown, parse, parse_last, ◌>>=◌,
}

module _ {A : Type 0} where
  Switch-cases :
      (s : Switch A)
      → ((f : A → A) × (s ≡ flag f))
        ⊎ ((f : String → A → Parsed A) × (s ≡ valued f))
        ⊎ (s ≡ unknown)
  Switch-cases (flag f) = inl (f, refl)
  Switch-cases (valued f) = inr (inl (f, refl))
  Switch-cases unknown = inr (inr refl)

  Parsed-cases : (p : Parsed A) → ((a : A) × (p ≡ parsed a)) ⊎ (p ≡ exit_1) ⊎ (p ≡ uncaught)
  Parsed-cases (parsed a) = inl (a, refl)
  Parsed-cases exit_1 = inr (inl refl)
  Parsed-cases uncaught = inr (inr refl)

module _ {A : Type 0} (switch : String → Switch A) where
  pub parse-flag :
      (a : A) (k : String) (f : A → A) (ws : List String)
      → switch k ≡ flag f
      → parse switch a (k ∷ ws) ≡ parse switch (f a) ws
  unfolding parse parse_last
  parse-flag a k f [] e = ground (arith, e)
  parse-flag a k f (w ∷ ws) e = ground (arith, e)

  parse-valued :
      (a : A) (k v : String) (f : String → A → Parsed A) (ws : List String)
      → switch k ≡ valued f
      → parse switch a (k ∷ v ∷ ws) ≡ f v a >>= (λ a'. parse switch a' ws)
  unfolding parse
  parse-valued a k v f ws e = ground (arith, e)

  -- An option without its value, and an unknown argument, end the program.
  parse-valued_last :
      (a : A) (k : String) (f : String → A → Parsed A)
      → switch k ≡ valued f
      → parse switch a (k ∷ []) ≡ exit_1
  unfolding parse parse_last
  parse-valued_last a k f e = ground (arith, e)

  parse-unknown :
      (a : A) (k : String) (ws : List String)
      → switch k ≡ unknown
      → parse switch a (k ∷ ws) ≡ exit_1
  unfolding parse parse_last
  parse-unknown a k [] e = ground (arith, e)
  parse-unknown a k (w ∷ ws) e = ground (arith, e)

  -- If arguments are parsed to settings, then those arguments and others behind them are parsed as
  -- the others alone are from these settings on.
  pub parse-append :
      (a a' : A) (ws ws' : List String)
      → parse switch a ws ≡ parsed a'
      → parse switch a (ws ++ ws') ≡ parse switch a' ws'
  unfolding parse
  parse-append a a' [] ws' h = let e : a ≡ a' = ground (arith, h) in ap (λ z. parse switch z ws') e
  parse-append a a' (k ∷ []) ws' h = elim (Switch-cases (switch k)) [
    | inl (f, e) ↦
        let now : f a ≡ a' = ground (arith, sym (parse-flag a k f [] e) ∙ h) in
        parse-flag a k f ws' e ∙ ap (λ z. parse switch z ws') now
    | inr (inl (f, e)) ↦ absurd (ground (arith, sym (parse-valued_last a k f e) ∙ h))
    | inr (inr e) ↦ absurd (ground (arith, sym (parse-unknown a k [] e) ∙ h))
  ]
  parse-append a a' (k ∷ v ∷ ws) ws' h = elim (Switch-cases (switch k)) [
    | inl (f, e) ↦
        parse-flag a k f (v ∷ (ws ++ ws')) e
        ∙ parse-append (f a) a' (v ∷ ws) ws' (sym (parse-flag a k f (v ∷ ws) e) ∙ h)
    | inr (inl (f, e)) ↦
        let here = sym (parse-valued a k v f ws e) ∙ h in
        elim (Parsed-cases (f v a)) [
          | inl (a1, e1) ↦
              let rest : parse switch a1 ws ≡ parsed a' = ground (arith, here, e1) in
              parse-valued a k v f (ws ++ ws') e
              ∙ ap (λ p. p >>= (λ z. parse switch z (ws ++ ws'))) e1
              ∙ parse-append a1 a' ws ws' rest
          | inr (inl e1) ↦ absurd (ground (arith, here, e1))
          | inr (inr e1) ↦ absurd (ground (arith, here, e1))
        ]
    | inr (inr e) ↦ absurd (ground (arith, sym (parse-unknown a k (v ∷ ws) e) ∙ h))
  ]
