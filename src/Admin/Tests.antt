-- ===== src/Admin/Tests.antt =====
-- A user with one bot who goes from a small plan to a larger one.
use lightspeed_trading_clean.Base.{◌≡◌, refl, true, false, some, none, List, [], ◌∷◌, string_eq}
use lightspeed_trading_clean.Base.Int.{ℤ, pos}
use lightspeed_trading_clean.Base.Dict.{lookup}
use lightspeed_trading_clean.Numbers.{DecimalOps, int_decimals, int-BalanceLaws}
use lightspeed_trading_clean.Config.{BotConfig, new_bot_config}
use lightspeed_trading_clean.Fleet.{User}
use lightspeed_trading_clean.Fleet.Balance.{read_all_records_cpyt}
use lightspeed_trading_clean.Admin.{
  PlanRow, Tables, SetUserPlanReq, set_num_instances, set_user_plan, write_plan, overwrite_plan,
  account,
}
use lightspeed_trading_clean.Admin.Instances.{rows_of, wanted, set_num_instances-rows}
use lightspeed_trading_clean.Admin.Plans.{set_user_plan-keeps, set_user_plan-wiped}

instance abbrev decimals : DecimalOps ℤ
decimals = int_decimals

abbrev one_bot : List (BotConfig ℤ)
one_bot = new_bot_config "u" 1 ∷ []

abbrev user : User ℤ
user = record {
  plan = "small";
  renewal_ts = pos 0;
  alert_webhook = "w";
  remaining_cpyt_bal = pos 40;
}

abbrev small : PlanRow ℤ
small = record { allowed_ct_instances = 1; max_ct_balance = pos 100 }

abbrev large : PlanRow ℤ
large = record { allowed_ct_instances = 3; max_ct_balance = pos 1000 }

abbrev tables : Tables ℤ
tables = record {
  configs = one_bot;
  users = ("u", user) ∷ [];
  plans = ("small", small) ∷ ("large", large) ∷ [];
}

abbrev request : SetUserPlanReq
request = record {
  target_user_id = "u";
  plan_name = "large";
  overwrite_existing = true;
  days_until_renewal = some (pos 30);
}

set_num_instances-rows_example :
    (rows_of "u" 2 (set_num_instances (λ q. false) "u" 3 one_bot).rows ≡ 1)
    × ((set_num_instances (λ q. false) "u" 3 one_bot).rows ≡ wanted "u" 3 one_bot)
unfolding new_bot_config read_all_records_cpyt set_num_instances
set_num_instances-rows_example = set_num_instances-rows (λ q. false) "u" "u" 3 2 one_bot refl refl

set_user_plan-keeps_example :
    (v : User ℤ) × (lookup "u" (set_user_plan (λ q. false) (pos 0) request tables).tables.users
      ≡ some v)
    × (v.plan ≡ "large")
    × (v.alert_webhook ≡ "w")
    × (decimals.sub (pos 1000) v.remaining_cpyt_bal ≡ decimals.sub (pos 100) (pos 40))
unfolding lookup set_user_plan write_plan set_num_instances new_bot_config read_all_records_cpyt
    overwrite_plan account
set_user_plan-keeps_example =
    set_user_plan-keeps int-BalanceLaws (λ q. false) (pos 0) request user small large tables refl
      refl refl refl refl

set_user_plan-wiped_example :
    ((set_user_plan (λ q. false) (pos 0) (record request { plan_name = "huge" }) tables).status
      ≡ 400)
    × (lookup "u"
          (set_user_plan
            (λ q. false)
            (pos 0)
            (record request { plan_name = "huge" })
            tables).tables.users
        ≡ none)
unfolding lookup
set_user_plan-wiped_example =
    set_user_plan-wiped (λ q. false) (pos 0) (record request { plan_name = "huge" }) user small
      tables refl refl refl refl refl refl refl refl
