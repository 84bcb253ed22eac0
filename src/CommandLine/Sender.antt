-- ===== src/CommandLine/Sender.antt =====
-- `parseArgs` of src/replay.cpp. `atoi` and `strtoull` are arguments; an `int` stands as its 32-bit
-- word, a number of 64 bits as itself.
use Prim.Native.String.{String}
use text.Mathlib.Text.{◌==◌ as ◌is◌}
use orderbook.Prelude.{ℕ, ◌%◌, ◌^◌, Bool, true, false, List, if◌then◌else◌}
use orderbook.CommandLine.{Parsed, Switch, parsed, flag, valued, unknown, parse}

pub record Args : Type 0 where
  pub file : String
  pub target : String
  pub port : ℕ
  pub max_per_packet : ℕ
  pub rate_msg_per_sec : ℕ
  pub multicast : Bool

unfoldable pub default_args : Args
default_args = record {
  file = "itch_data.NASDAQ_ITCH50";
  target = "127.0.0.1";
  port = 30001;
  max_per_packet = 16;
  rate_msg_per_sec = 0;
  multicast = false;
}

module _ (atoi strtoull : String → ℕ) where
  unfoldable pub args_switch : String → Switch Args
  args_switch k =
      if k is "--file"
      then valued (λ v a. parsed (record a { file = v }))
      else if k is "--target"
      then valued (λ v a. parsed (record a { target = v }))
      else if k is "--port"
      then valued (λ v a. parsed (record a { port = atoi v % 2 ^ 16 }))
      else if k is "--max-per-packet"
      then valued (λ v a. parsed (record a { max_per_packet = atoi v % 2 ^ 16 }))
      else if k is "--rate"
      then valued
          (λ v a. parsed (record a { rate_msg_per_sec = if v is "max" then 0 else strtoull v }))
      else if k is "--multicast"
      then flag (λ a. record a { multicast = true })
      else unknown

  unfoldable pub parse_args : List String → Parsed Args
  unfolding args_switch default_args
  parse_args ws = parse args_switch default_args ws
