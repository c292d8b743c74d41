-- ===== src/Handlers/Tests.antt =====
-- A user whose bot is idle while another user starts and stops bots.
use lightspeed_trading_clean.Base.{refl, true, false, some, none, List, [], ◌∷◌, string_eq}
use lightspeed_trading_clean.Base.Int.{ℤ, pos}
use lightspeed_trading_clean.Numbers.{DecimalOps, int_decimals}
use lightspeed_trading_clean.Config.{new_bot_config}
use lightspeed_trading_clean.Monitor.{read}
use lightspeed_trading_clean.Trader.Requests.{body}
use lightspeed_trading_clean.Fleet.{Fleet}
use lightspeed_trading_clean.Fleet.Create.{World}
use lightspeed_trading_clean.Fleet.Others.{Untouched}
use lightspeed_trading_clean.Handlers.Isolation.{
  Request, start_request, stop_request, webhook_request, serve_all, serve_all-Untouched,
}

instance abbrev decimals : DecimalOps ℤ
decimals = int_decimals

abbrev world : World ℤ ℤ
world = record {
  fails = λ q. false;
  exc = record {
    set_leverage = λ symbol leverage both. none;
    place_order = λ symbol side qty reduce tp sl. [];
    get_my_position = λ symbol. none;
    get_my_positions = some [];
    get_usdt_balance = some (pos 300);
  };
  balance_err = "";
  url_is_ok = λ url. true;
  now = 0;
  names = λ i c. body "name";
  readings = λ c. read [];
  in_handler = false;
}

abbrev fleet : Fleet ℤ ℤ
fleet = record {
  running_mons = [];
  available = "h:1" ∷ [];
  configs = new_bot_config "u" 1 ∷ new_bot_config "v" 1 ∷ [];
  users =
      (
        "u",
        record { plan = "p"; renewal_ts = pos 0; alert_webhook = ""; remaining_cpyt_bal = pos 9 },
      )
      ∷ [];
  max_ct_balance = [];
}

abbrev requests : List (Request ℤ ℤ)
requests =
    start_request world (λ key. true) (some "u") (some 1)
    ∷ stop_request (λ q. false) (some "u") (some 1)
    ∷ webhook_request false none (some "hook")
    ∷ []

serve_all-Untouched_example : Untouched "v" fleet (serve_all requests fleet)
serve_all-Untouched_example = serve_all-Untouched requests fleet "v" (refl, (refl, (refl, tt)))
