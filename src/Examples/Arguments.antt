-- ===== src/Examples/Arguments.antt =====
-- Arguments of the engine.
use Prim.Native.String.{String}
use text.Mathlib.Text.{◌==◌ as ◌is◌}
use orderbook.Prelude.{
  ℕ, ◌==◌, ◌≡◌, refl, true, false, ◌&&◌, List, [], ◌∷◌, ◌++◌, Option, none, some, arith,
  if◌then◌else◌,
}
use orderbook.CommandLine.{parsed, exit_1, parse}
use orderbook.CommandLine.Main.{Options, choose, defaults, main, switch, file_mode, udp_mode}
use orderbook.CommandLine.Valid.{arguments, last_value, main-Starts, parsed_arguments}

-- Two numbers and their texts.
abbrev to_number : String → Option ℕ
to_number s = if s is "4000" then some 4000 else if s is "2" then some 2 else none

abbrev to_text : ℕ → String
to_text n = if n == 2 then "2" else "4000"

abbrev settings : Options
settings = record {
  udp_mode = true;
  bind_addr = "10.0.0.1";
  port = 4000;
  multicast_group = "";
  net_core = 2;
  use_xdp = true;
  iface = "lo";
}

parsed_arguments_example :
    parse (switch to_number) defaults (arguments to_text settings) ≡ parsed settings
parsed_arguments_example = parsed_arguments to_number to_text settings refl refl (omega arith)

mode :
    main to_number (arguments to_text settings)
    ≡ parsed (udp_mode "10.0.0.1" 4000 none 2 true (some "lo"))
unfolding main arguments parse switch defaults choose
mode = refl

main-Starts_example :
    (settings.udp_mode ≡ false → main to_number (arguments to_text settings) ≡ parsed file_mode)
    × (settings.udp_mode ≡ true
        → (settings.use_xdp && (settings.iface is "")) ≡ false
        → main to_number (arguments to_text settings)
          ≡ parsed (udp_mode "10.0.0.1" 4000 none 2 true (some "lo")))
    × (settings.udp_mode ≡ true
        → settings.use_xdp ≡ true
        → (settings.iface is "") ≡ true
        → main to_number (arguments to_text settings) ≡ exit_1)
main-Starts_example = main-Starts to_number to_text settings refl refl (omega arith)

abbrev first_port : List String
first_port = "--port" ∷ "4000" ∷ []

with_port : Options
unfolding defaults
with_port = record defaults { port = 4000 }

port_parsed : parse (switch to_number) defaults first_port ≡ parsed with_port
unfolding parse switch defaults with_port
port_parsed = refl

last_value_example :
    (parse (switch to_number) defaults (first_port ++ ("--bind" ∷ "lo" ∷ []))
      ≡ parsed (record with_port { bind_addr = "lo" }))
    × (parse (switch to_number) defaults (first_port ++ ("--port" ∷ "2" ∷ []))
        ≡ parsed (record with_port { port = 2 }))
    × (parse (switch to_number) defaults (first_port ++ ("--multicast" ∷ "lo" ∷ []))
        ≡ parsed (record with_port { multicast_group = "lo" }))
    × (parse (switch to_number) defaults (first_port ++ ("--net-core" ∷ "2" ∷ []))
        ≡ parsed (record with_port { net_core = 2 }))
    × (parse (switch to_number) defaults (first_port ++ ("--iface" ∷ "lo" ∷ []))
        ≡ parsed (record with_port { iface = "lo" }))
last_value_example = last_value to_number with_port defaults first_port "lo" "2" 2 refl port_parsed
