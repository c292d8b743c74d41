-- ===== src/Exchange/Tests.antt =====
-- classes/exchange.go: three requests with two clients, and a loop without clients. exchangeClients.go: a list of
-- two positions, and errors that are not passed on.
use lightspeed_trading_clean.Base.{
  ℕ, ◌≡◌, refl, ◌⊎◌, inl, inr, true, false, ◌==◌, string_eq, if◌then◌else◌, String, none, some,
  List, [], ◌∷◌, arith,
}
use lightspeed_trading_clean.Base.Int.{ℤ, pos}
use lightspeed_trading_clean.Base.Dict.{Dict, lookup}
use lightspeed_trading_clean.Numbers.{DecimalOps, int_decimals}
use lightspeed_trading_clean.Bot.{BotPosition}
use lightspeed_trading_clean.Bot.Close.Keys.{Keyed}
use lightspeed_trading_clean.Exchange.Client.{
  BybPos, set_leverage, get_my_positions, get_price, get_usdt_balance, no_coins, unified,
}
use lightspeed_trading_clean.Exchange.Positions.{
  AllRead, FirstUnread, last_with, lookup-get_my_positions,
}
use lightspeed_trading_clean.Exchange.{ClientLoop, next, next_all, new_client_loop}
use lightspeed_trading_clean.Exchange.Turns.{Serves, map_option, next_all-new_client_loop}

abbrev two : List String
two = "a" ∷ "b" ∷ []

abbrev times : List ℕ
times = 5 ∷ 6 ∷ 7 ∷ []

served :
    map_option (λ r. r.0) (next_all times (new_client_loop 0 two)) ≡ some ("b" ∷ "a" ∷ "b" ∷ [])
unfolding next_all new_client_loop
served = refl

no_clients : (cl : ClientLoop String ℕ) → cl.num_clients ≡ 0 → next 5 cl ≡ none
unfolding next
no_clients cl e = ground (arith, e)

next_all-new_client_loop_example :
    (r : List String × ClientLoop String ℕ) × (next_all times (new_client_loop 0 two) ≡ some r)
    × Serves two 1 times (new_client_loop 0 two) r.0 r.1
next_all-new_client_loop_example = next_all-new_client_loop two 0 times (omega arith)

instance abbrev decimals : DecimalOps ℤ
decimals = int_decimals

abbrev parse : String → String ⊎ ℤ
parse text = if text == "" then inl "can't convert  to decimal" else inr (pos 1)

abbrev entry : String → BybPos
entry size = record {
  symbol = "BTC";
  side = "Buy";
  size = size;
  avg_price = "2";
  leverage = "3";
  take_profit = "4";
  stop_loss = "5";
}

unread :
    get_my_positions parse (λ i. i) (inr (entry "1" ∷ entry "" ∷ []))
    ≡ inl "failed to parse qty  as Decimal, can't convert  to decimal"
unfolding get_my_positions
unread = refl

already_set : set_leverage (λ symbol lev. some "110043, not modified") "BTC" "5" true ≡ none
unfolding set_leverage
already_set = refl

no_symbol :
    get_price parse (λ symbol. inl "10001, params error: symbol invalid") "X" ≡ (pos 0, false, none)
unfolding get_price
no_symbol = refl

no_coin :
    get_usdt_balance parse (inl "EOF") (λ acct_type. inr ([] ∷ [])) none ≡ (unified, inl no_coins)
unfolding get_usdt_balance
no_coin = refl

abbrev two_entries : List BybPos
two_entries = entry "1" ∷ entry "2" ∷ []

lookup-get_my_positions_example :
    ((d : Dict String (BotPosition ℤ)) × (ps : List (BotPosition ℤ)) × (get_my_positions parse
          (λ i. i)
          (inr two_entries)
        ≡ inr d)
      × AllRead parse (λ i. i) 0 two_entries ps
      × Keyed d
      × ((k : String) → lookup k d ≡ last_with k ps))
    ⊎ ((err : String) × (get_my_positions parse (λ i. i) (inr two_entries) ≡ inl err)
        × FirstUnread parse (λ i. i) 0 two_entries err)
lookup-get_my_positions_example = lookup-get_my_positions parse (λ i. i) two_entries
