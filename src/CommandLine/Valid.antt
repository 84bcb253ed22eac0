-- ===== src/CommandLine/Valid.antt =====
-- The modes of main.cpp: which options lead to them.
use Prim.Native.String.{String}
use text.Mathlib.Text.{◌==◌ as ◌is◌}
use orderbook.Prelude.{
  ℕ, ◌%◌, ◌^◌, ◌<◌, ◌≡◌, refl, sym, ap, ◌∙◌, true, false, ◌&&◌, List, [], ◌∷◌, ◌++◌, Option, some,
  arith, if◌then◌else◌, Bool-cases, inl, inr,
}
use orderbook.CommandLine.{parsed, exit_1, parse, ◌>>=◌}
use orderbook.CommandLine.Laws.{parse-flag, parse-append}
use orderbook.CommandLine.Main.{
  Options, choose, defaults, main, or_null, switch, file_mode, udp_mode,
}

-- The arguments that give all settings.
unfoldable pub arguments : (ℕ → String) → Options → List String
arguments to_string o =
    (if o.udp_mode then "--udp" ∷ [] else [])
    ++ ((if o.use_xdp then "--afxdp" ∷ [] else [])
        ++ ("--bind"
            ∷ o.bind_addr
            ∷ "--port"
            ∷ to_string o.port
            ∷ "--multicast"
            ∷ o.multicast_group
            ∷ "--net-core"
            ∷ to_string o.net_core
            ∷ "--iface"
            ∷ o.iface
            ∷ []))

module _ (stoi : String → Option ℕ) (to_string : ℕ → String) (o : Options)
    (port : stoi (to_string o.port) ≡ some o.port)
    (core : stoi (to_string o.net_core) ≡ some o.net_core) (fits : o.port < 2 ^ 16) where
  valued_part :
      (o1 : Options)
      → o1.udp_mode ≡ o.udp_mode
      → o1.use_xdp ≡ o.use_xdp
      → parse (switch stoi) o1 (
          "--bind"
          ∷ o.bind_addr
          ∷ "--port"
          ∷ to_string o.port
          ∷ "--multicast"
          ∷ o.multicast_group
          ∷ "--net-core"
          ∷ to_string o.net_core
          ∷ "--iface"
          ∷ o.iface
          ∷ [])
        ≡ parsed o
  unfolding parse switch
  valued_part o1 u x = ground (arith, port, core, u, x, fits)

  abbrev rest : List String
  rest =
      "--bind"
      ∷ o.bind_addr
      ∷ "--port"
      ∷ to_string o.port
      ∷ "--multicast"
      ∷ o.multicast_group
      ∷ "--net-core"
      ∷ to_string o.net_core
      ∷ "--iface"
      ∷ o.iface
      ∷ []

  udp_flag :
      (o1 : Options) (ws : List String)
      → parse (switch stoi) o1 ("--udp" ∷ ws)
        ≡ parse (switch stoi) (record o1 { udp_mode = true }) ws
  unfolding switch
  udp_flag o1 ws = parse-flag (switch stoi) o1 "--udp" _ ws refl

  xdp_flag :
      (o1 : Options) (ws : List String)
      → parse (switch stoi) o1 ("--afxdp" ∷ ws)
        ≡ parse (switch stoi) (record o1 { use_xdp = true }) ws
  unfolding switch
  xdp_flag o1 ws = parse-flag (switch stoi) o1 "--afxdp" _ ws refl

  -- If `stoi` reads back the texts of the port and of the core, and the port fits 16 bits, then
  -- the arguments that give all settings are parsed to these settings.
  pub parsed_arguments : parse (switch stoi) defaults (arguments to_string o) ≡ parsed o
  unfolding arguments defaults
  parsed_arguments = elim (Bool-cases o.udp_mode) [
    | inl u ↦ elim (Bool-cases o.use_xdp) [
      | inl x ↦
          let e : arguments to_string o ≡ "--udp" ∷ "--afxdp" ∷ rest = ground (arith, u, x) in
          ap (parse (switch stoi) defaults) e
          ∙ udp_flag defaults ("--afxdp" ∷ rest)
          ∙ xdp_flag _ rest
          ∙ valued_part _ (sym u) (sym x)
      | inr x ↦
          let e : arguments to_string o ≡ "--udp" ∷ rest = ground (arith, u, x) in
          ap (parse (switch stoi) defaults) e
          ∙ udp_flag defaults rest
          ∙ valued_part _ (sym u) (sym x)
    ]
    | inr u ↦ elim (Bool-cases o.use_xdp) [
      | inl x ↦
          let e : arguments to_string o ≡ "--afxdp" ∷ rest = ground (arith, u, x) in
          ap (parse (switch stoi) defaults) e
          ∙ xdp_flag defaults rest
          ∙ valued_part _ (sym u) (sym x)
      | inr x ↦
          let e : arguments to_string o ≡ rest = ground (arith, u, x) in
          ap (parse (switch stoi) defaults) e ∙ valued_part defaults (sym u) (sym x)
    ]
  ]

  main-choose : main stoi (arguments to_string o) ≡ choose o
  unfolding main
  main-choose = ap (λ p. p >>= choose) parsed_arguments

  -- If `stoi` reads back the texts of the port and of the core, and the port fits 16 bits, then on
  -- the arguments that give all settings the program goes on with the file if these settings are
  -- not for the UDP mode, so that the switch `--udp` is left out. With the switch, it goes on with
  -- the network under these settings, an empty group or interface being none; but it ends by
  -- `exit(1)` if AF_XDP is wanted and the name of the interface is empty.
  pub main-Starts :
      (o.udp_mode ≡ false → main stoi (arguments to_string o) ≡ parsed file_mode)
      × (o.udp_mode ≡ true
          → (o.use_xdp && (o.iface is "")) ≡ false
          → main stoi (arguments to_string o)
            ≡ parsed (
                udp_mode o.bind_addr o.port
                  (or_null o.multicast_group)
                  o.net_core
                  o.use_xdp
                  (or_null o.iface)))
      × (o.udp_mode ≡ true
          → o.use_xdp ≡ true
          → (o.iface is "") ≡ true
          → main stoi (arguments to_string o) ≡ exit_1)
  unfolding choose
  main-Starts = (
    λ file. main-choose ∙ ground (arith, file),
    λ udp named. main-choose ∙ ground (arith, udp, named),
    λ udp xdp no_name. main-choose ∙ ground (arith, udp, xdp, no_name),
  )

-- If arguments are parsed to settings, `o`, then with an option and its value behind them they are
-- parsed to `o` with this value in the option's field, whatever the arguments before gave it, and
-- the other fields as in `o`: a text as it is, and the number that `stoi` reads from a text, of
-- which the port keeps 16 bits.
pub last_value :
    (stoi : String → Option ℕ) (o o' : Options) (ws : List String) (v number : String) (n : ℕ)
    → stoi number ≡ some n
    → parse (switch stoi) o' ws ≡ parsed o
    → (parse (switch stoi) o' (ws ++ ("--bind" ∷ v ∷ [])) ≡ parsed (record o { bind_addr = v }))
      × (parse (switch stoi) o' (ws ++ ("--port" ∷ number ∷ []))
          ≡ parsed (record o { port = n % 2 ^ 16 }))
      × (parse (switch stoi) o' (ws ++ ("--multicast" ∷ v ∷ []))
          ≡ parsed (record o { multicast_group = v }))
      × (parse (switch stoi) o' (ws ++ ("--net-core" ∷ number ∷ []))
          ≡ parsed (record o { net_core = n }))
      × (parse (switch stoi) o' (ws ++ ("--iface" ∷ v ∷ [])) ≡ parsed (record o { iface = v }))
unfolding parse switch
last_value stoi o o' ws v number n read before =
    let behind = λ (ws' : List String). parse-append (switch stoi) o' o ws ws' before in
    (
      behind ("--bind" ∷ v ∷ []) ∙ refl,
      behind ("--port" ∷ number ∷ []) ∙ ground (arith, read),
      behind ("--multicast" ∷ v ∷ []) ∙ refl,
      behind ("--net-core" ∷ number ∷ []) ∙ ground (arith, read),
      behind ("--iface" ∷ v ∷ []) ∙ refl,
    )
