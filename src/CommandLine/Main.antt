-- ===== src/CommandLine/Main.antt =====
-- src/main.cpp: the options, and the mode they choose. A negative `int` stands as its 32-bit word.
-- `stoi` is an argument: the word of the number that a text denotes, or `none` where `std::stoi`
-- throws. What is printed, and the files written in the end, are left out.
use Prim.Native.String.{String}
use text.Mathlib.Text.{◌==◌ as ◌is◌}
use orderbook.Prelude.{
  ℕ, ◌-◌, ◌%◌, ◌^◌, Bool, true, false, ◌&&◌, List, Option, none, some, if◌then◌else◌,
}
use orderbook.CommandLine.{
  Parsed, Switch, parsed, exit_1, uncaught, flag, valued, unknown, parse, ◌>>=◌,
}

pub record Options : Type 0 where
  pub udp_mode : Bool
  pub bind_addr : String
  pub port : ℕ
  pub multicast_group : String
  pub net_core : ℕ
  pub use_xdp : Bool
  pub iface : String

unfoldable pub defaults : Options
defaults = record {
  udp_mode = false;
  bind_addr = "0.0.0.0";
  port = 30001;
  multicast_group = "";
  net_core = 2 ^ 32 - 1;
  use_xdp = false;
  iface = "";
}

-- What `main` calls.
pub data Mode : Type 0 where
  file_mode : Mode
  udp_mode :
      (bind_addr : String) (port : ℕ) (multicast_group : Option String) (net_core : ℕ)
      (use_xdp : Bool) (iface : Option String)
      → Mode

abbrev pub number : Option ℕ → (ℕ → Options) → Parsed Options
number none f = uncaught
number (some n) f = parsed (f n)

-- A null pointer for the empty text.
abbrev pub or_null : String → Option String
or_null s = if s is "" then none else some s

unfoldable pub choose : Options → Parsed Mode
choose o =
    if o.udp_mode
    then (if o.use_xdp && (o.iface is "")
        then exit_1
        else parsed (
            udp_mode o.bind_addr o.port (or_null o.multicast_group) o.net_core o.use_xdp
              (or_null o.iface)))
    else parsed file_mode

module _ (stoi : String → Option ℕ) where
  unfoldable pub switch : String → Switch Options
  switch k =
      if k is "--udp"
      then flag (λ o. record o { udp_mode = true })
      else if k is "--bind"
      then valued (λ v o. parsed (record o { bind_addr = v }))
      else if k is "--port"
      then valued (λ v o. number (stoi v) (λ n. record o { port = n % 2 ^ 16 }))
      else if k is "--multicast"
      then valued (λ v o. parsed (record o { multicast_group = v }))
      else if k is "--net-core"
      then valued (λ v o. number (stoi v) (λ n. record o { net_core = n }))
      else if k is "--afxdp"
      then flag (λ o. record o { use_xdp = true })
      else if k is "--iface"
      then valued (λ v o. parsed (record o { iface = v }))
      else unknown

  unfoldable pub main : List String → Parsed Mode
  unfolding switch defaults choose
  main ws = parse switch defaults ws >>= choose
