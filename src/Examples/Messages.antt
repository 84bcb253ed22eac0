-- ===== src/Examples/Messages.antt =====
-- Messages for the engine with two orders to buy in its book 3.
use orderbook.Prelude.{
  ℕ, ◌+◌, ◌*◌, ◌≡◌, refl, ap, ◌∙◌, ◌≢◌, ◌⊎◌, inl, inr, Bool, true, List, [], ◌∷◌, none, arith, has,
}
use orderbook.Run.{ok}
use orderbook.Book.{Scratch, ref_of}
use orderbook.Itch.{
  read_add_order, read_order_executed, read_order_replace, read_ref, read_side, read_u32,
  skip_header,
}
use orderbook.Itch.Range.{Bytes}
use orderbook.HashMap.Valid.{occupied}
use orderbook.Engine.{
  Clock, Engine, no_ref, process_add, process_executed, process_message, process_replace,
}
use orderbook.Engine.Enter.{Enters}
use orderbook.Engine.Add.{Advances, Ready, Timed, added, locate_of, process_add-Enters}
use orderbook.Engine.Process.{WellFormed, news_of, olds_of, process_message-Advances}
use orderbook.Engine.Replace.{AfterReplace, process_replace-Succeeds, replaced_by}
use orderbook.Engine.Reduce.{AfterExecution, Lessens, process_executed-Lessens}
use orderbook.Engine.Orders.{location}
use orderbook.Examples.Books.{outputs}
use orderbook.Examples.Orders.{body, known_executed}
use orderbook.Examples.Exchange.{exchange, exchange-Consistent, exchange-location}

abbrev zero_clock : Clock
zero_clock = record { start_cycles = 5; end_cycles = 9; t_wire = 0 }

abbrev pub ticking : ℕ → Clock
ticking n = record { start_cycles = 5 * n; end_cycles = 5 * n + 3; t_wire = 0 }

-- An order to sell 14 shares at 50000 under the reference 9, in book 3.
abbrev pub sell_body : List ℕ
sell_body =
    0 ∷ 3 ∷ 0 ∷ 0 ∷ 0 ∷ 0 ∷ 0 ∷ 0 ∷ 0 ∷ 0 ∷ 0 ∷ 0 ∷ 0 ∷ 0 ∷ 0 ∷ 0 ∷ 0 ∷ 9 ∷ b'S' ∷ 0 ∷ 0 ∷ 0 ∷ 14
    ∷ 0 ∷ 0 ∷ 0 ∷ 0 ∷ 0 ∷ 0 ∷ 0 ∷ 0 ∷ 0 ∷ 0 ∷ 195 ∷ 80 ∷ []

exchange-Ready : Ready 3 exchange
unfolding occupied
exchange-Ready = record { room = omega arith; spare = omega arith }

sell_order : added sell_body ≡ record {
  order_reference_number_high = 0;
  order_reference_number_low = 9;
  shares = 14;
  price = 50000;
  buy_sell_indicator = b'S';
}
unfolding read_add_order skip_header read_ref read_u32 read_side
sell_order = refl

sell_ref : ref_of (added sell_body) ≡ 9
sell_ref = ap ref_of sell_order

sell-Bytes : Bytes sell_body
sell-Bytes = ground arith

sell_real : ref_of (added sell_body) ≢ no_ref
sell_real = omega (arith, sell_ref)

sell_fresh : location 3 exchange (ref_of (added sell_body)) ≡ none
sell_fresh = exchange-location (ref_of (added sell_body)) sell_real ∙ ground (arith, sell_ref)

sell_mark :
    ((added sell_body).buy_sell_indicator ≡ b'B') ⊎ ((added sell_body).buy_sell_indicator ≡ b'S')
sell_mark = inr (ap (λ o. o.buy_sell_indicator) sell_order)

process_add-Enters_example :
    (e' : Engine) × (out : Scratch) × (b : Bool) × (process_add exchange sell_body zero_clock
      ≡ ok (e', out))
    × Enters 3 exchange exchange-Consistent b (locate_of sell_body) (added sell_body) e' out
    × Timed exchange e' zero_clock
process_add-Enters_example =
    process_add-Enters 3 exchange exchange-Consistent sell_body zero_clock exchange-Ready sell-Bytes
      sell_real sell_fresh sell_mark

pub sell_news : news_of b'A' sell_body ≡ 9 ∷ []
unfolding news_of
sell_news = ap (λ n. n ∷ []) sell_ref

pub sell-WellFormed : WellFormed b'A' sell_body
unfolding olds_of
sell-WellFormed = record {
  bytes = sell-Bytes;
  news = λ r h. ground (arith, sell_news, h);
  olds = λ r h. absurd (ground (arith, h));
  side = λ h. sell_mark;
}

pub sell_new : (j : ℕ) → has j (news_of b'A' sell_body) ≡ true → location 3 exchange j ≡ none
sell_new j h =
    let nine : j ≡ 9 = ground (arith, sell_news, h) in
    exchange-location j (omega (arith, nine)) ∙ ground (arith, nine)

process_message-Advances_example :
    (e' : Engine) × (out' : Scratch) × (process_message exchange b'A' sell_body outputs zero_clock
      ≡ ok (e', out'))
    × Advances 3 exchange e' (news_of b'A' sell_body)
process_message-Advances_example =
    process_message-Advances 3 exchange exchange-Consistent exchange-Ready b'A' sell_body outputs
      zero_clock sell-WellFormed sell_new

-- The order 15 is replaced by the order 11, of 4 shares at 60000.
abbrev replace_body : List ℕ
replace_body =
    0 ∷ 3 ∷ 0 ∷ 0 ∷ 0 ∷ 0 ∷ 0 ∷ 0 ∷ 0 ∷ 0 ∷ 0 ∷ 0 ∷ 0 ∷ 0 ∷ 0 ∷ 0 ∷ 0 ∷ 15 ∷ 0 ∷ 0 ∷ 0 ∷ 0 ∷ 0 ∷ 0
    ∷ 0 ∷ 11 ∷ 0 ∷ 0 ∷ 0 ∷ 4 ∷ 0 ∷ 0 ∷ 234 ∷ 96 ∷ []

replace-Bytes : Bytes replace_body
replace-Bytes = ground arith

replace_refs :
    ((replaced_by replace_body).original_order_ref ≡ 15)
    × ((replaced_by replace_body).new_order_ref ≡ 11)
unfolding read_order_replace skip_header read_ref read_u32
replace_refs = (refl, refl)

old_real : (replaced_by replace_body).original_order_ref ≢ no_ref
old_real = omega (arith, replace_refs)

new_real : (replaced_by replace_body).new_order_ref ≢ no_ref
new_real = omega (arith, replace_refs)

new_fresh :
    (location 3 exchange (replaced_by replace_body).new_order_ref ≡ none)
    ⊎ ((replaced_by replace_body).new_order_ref ≡ (replaced_by replace_body).original_order_ref)
new_fresh = inl (exchange-location _ new_real ∙ ground (arith, replace_refs))

process_replace-Succeeds_example :
    (e' : Engine) × (out' : Scratch) × (process_replace exchange replace_body outputs
      ≡ ok (e', out'))
    × Advances 3 exchange e' ((replaced_by replace_body).new_order_ref ∷ [])
    × AfterReplace 3 exchange e'
        (replaced_by replace_body)
        outputs
        out'
        (location 3 exchange (replaced_by replace_body).original_order_ref)
process_replace-Succeeds_example =
    process_replace-Succeeds 3 exchange exchange-Consistent replace_body outputs exchange-Ready
      replace-Bytes old_real new_real new_fresh

process_executed-Lessens_example :
    (e' : Engine) × (process_executed exchange body ≡ ok e')
    × Lessens 3 exchange e'
    × AfterExecution 3 exchange e'
        (read_order_executed body).0.order_ref
        (read_order_executed body).0.shares
        (location 3 exchange (read_order_executed body).0.order_ref)
process_executed-Lessens_example =
    process_executed-Lessens 3 exchange exchange-Consistent body known_executed
