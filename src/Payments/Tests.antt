-- ===== src/Payments/Tests.antt =====
-- A transaction of 4 eth at a price of 10, for a plan of 20 a month and 15 at first.
use lightspeed_trading_clean.Base.{
  ◌≡◌, ◌↔◌, refl, String, true, false, Option, none, some, List, [], ◌∷◌, ◌==◌, ◌||◌, inl, inr,
  string_eq, if◌then◌else◌, nat_beq,
}
use lightspeed_trading_clean.Base.Int.{ℤ, pos, negsuc, ◌*ℤ◌, ◌+ℤ◌}
use lightspeed_trading_clean.Base.Dict.{lookup, insert}
use lightspeed_trading_clean.Numbers.{FloatOps, DecimalOps, int_floats, int_decimals}
use lightspeed_trading_clean.Payments.{
  PaymentsHdlr, PaymentSentRequest, not_claimed, try_claim_tx, Chain, claimed, Tick,
  retrieve_failed, pending, completed, check_payment_success, Plan, verdict, verify_payment,
}
use lightspeed_trading_clean.Payments.Claims.{fresh}
use lightspeed_trading_clean.Payments.Owners.{
  Op, sent, verified, owner, after_ops, owner-after_ops, claimed-other_text, claimed-other_text,
}
use lightspeed_trading_clean.Payments.Verdict.{IsPaid, verify_payment-IsPaid}
use lightspeed_trading_clean.Payments.Accounts.{
  AccountPlan, bot_ids, numbers, store_data_on_initial_payment, store_data_on_initial_payment_lem,
  NotificationUser,
}

instance abbrev floats : FloatOps ℤ
floats = int_floats

instance abbrev decimals : DecimalOps ℤ
decimals = int_decimals

-- "0x1" and "0X1" are one transaction, which is found pending by the second request.
abbrev chain : Chain
chain = record {
  hex_to_hash = λ text. if text == "0x1" || text == "0X1" then 1 else 0;
  transaction_by_hash = λ hash i. if nat_beq i 2 then some true else none;
}

abbrev request : PaymentSentRequest
request = record { plan = "pro"; tx_id = "0x1"; is_renewal = false }

abbrev plan : Plan ℤ
plan = record { cost_per_month = pos 20; initial_payment = pos 15 }

abbrev ticks : List (Tick ℤ)
ticks = retrieve_failed ∷ pending ∷ completed (some "wallet") (pos 4) ∷ []

abbrev tracked : PaymentsHdlr ℤ
tracked = ("0x1", fresh "alice" "0x1") ∷ []

abbrev settled : PaymentsHdlr ℤ
settled = ("0x1", record (fresh "alice" "0x1") { is_success = true; received_qty_eth = pos 4 }) ∷ []

verify_payment-IsPaid_example :
    (true ≡ true) ↔ IsPaid request "wallet" ticks (some (pos 10)) (some plan)
unfolding verify_payment check_payment_success verdict lookup insert ◌*ℤ◌ ◌+ℤ◌
verify_payment-IsPaid_example =
    verify_payment-IsPaid tracked request "wallet" ticks (some (pos 10)) (some plan) settled true
      refl

abbrev ops : List (Op ℤ)
ops =
    sent (some "bob") (some request) chain
    ∷ verified request "wallet" ticks (some (pos 10)) (some plan)
    ∷ []

owner-after_ops_example :
    (owner "0x1" (after_ops ops tracked) ≡ some "alice")
    × ((try_claim_tx (after_ops ops tracked) "bob" "0x1" chain).1
        ≡ not_claimed "Payment already claimed by a different user.")
unfolding lookup
owner-after_ops_example = owner-after_ops ops tracked "0x1" "alice" "bob" chain refl refl

claimed-other_text_example :
    ((try_claim_tx tracked "bob" "0X1" chain).1 ≡ claimed)
    × (owner "0x1" (try_claim_tx tracked "bob" "0X1" chain).0 ≡ some "alice")
    × (owner "0X1" (try_claim_tx tracked "bob" "0X1" chain).0 ≡ some "bob")
unfolding lookup
claimed-other_text_example =
    claimed-other_text tracked "alice" "bob" "0x1" "0X1" chain refl refl refl
      (inr (inl (refl, refl)))

abbrev account_plan : AccountPlan ℤ
account_plan = record { max_ct_balance = pos 1000; allowed_ct_instances = 2 }

store_data_on_initial_payment_lem_example :
    (p : AccountPlan ℤ) × (some account_plan ≡ some p)
    × (true ≡ true)
    × (true ≡ true)
    × (bot_ids
          (store_data_on_initial_payment "alice" "pro" (some account_plan) true true (λ i. true)).0
        ≡ numbers 1 p.allowed_ct_instances)
unfolding store_data_on_initial_payment
store_data_on_initial_payment_lem_example =
    store_data_on_initial_payment_lem ℤ "alice" "pro" (some account_plan) true true (λ i. true) refl

abbrev late : NotificationUser
late = record { user_id = "alice"; alert_webhook = ""; days_away = negsuc 0 }

abbrev hooks : Option (List String)
hooks = some ("" ∷ "hook" ∷ [])
