-- ===== src/Payments/Accounts.antt =====
-- payments.go: the account of a user who has paid, and of one whose renewal date approaches.
use lightspeed_trading_clean.Base.{
  ℕ, zero, suc, ◌+◌, String, ◌≡◌, ◌≢◌, ◌⊎◌, inl, inr, refl, Bool, true, false, Option, none, some,
  List, [], ◌∷◌, ◌++◌, ◌==◌, string_eq, arith, if◌then◌else◌, ==_iff, Bool-cases, ap, keep, not,
}
use lightspeed_trading_clean.Base.Int.{ℤ, pos, negsuc, eqb_ℤ}
use lightspeed_trading_clean.Numbers.{DecimalOps}
use lightspeed_trading_clean.Config.{BotConfig, new_bot_config}

-- The fields of a plan that the account is made from.
pub record AccountPlan (D : Type 0) : Type 0 where
  pub max_ct_balance : D
  pub allowed_ct_instances : ℕ

-- What is written to the database. A user is written with the plan, a renewal a month ahead and the
-- balance.
pub data Write (D : Type 0) : Type 0 where
  write_user : String → String → D → Write D
  write_bot : BotConfig D → Write D

pub data StoreError : Type 0 where
  no_plan user_not_written no_connection : StoreError
  bot_not_written : ℕ → StoreError

module _ {D : Type 0} ⦃dec : DecimalOps D⦄ where
  -- The loop over the bots that a plan allows, from the number `iter` on: what is tried, and the error.
  unfoldable pub write_bots : String → ℕ → ℕ → (ℕ → Bool) → List (Write D) × Option StoreError
  write_bots user_id iter zero written = ([], none)
  write_bots user_id iter (suc n) written =
      let rest = write_bots user_id (iter + 1) n written in
      if written iter
      then (write_bot (new_bot_config user_id iter) ∷ rest.0, rest.1)
      else (write_bot (new_bot_config user_id iter) ∷ [], some (bot_not_written iter))

  -- `storeDataOnInitialPayment`: whether the user, the connection and each bot succeed is given.
  unfoldable pub store_data_on_initial_payment :
      String
      → String
      → Option (AccountPlan D)
      → Bool
      → Bool
      → (ℕ → Bool)
      → List (Write D) × Option StoreError
  unfolding write_bots
  store_data_on_initial_payment user_id plan_name none user_written connected written =
      ([], some no_plan)
  store_data_on_initial_payment user_id plan_name (some plan) user_written connected written =
      let bots = write_bots user_id 1 plan.allowed_ct_instances written in
      let user = write_user user_id plan_name plan.max_ct_balance in
      if not user_written
      then (user ∷ [], some user_not_written)
      else if not connected
      then (user ∷ [], some no_connection)
      else (user ∷ bots.0, bots.1)

  -- The numbers of the bots that are written.
  abbrev pub bot_ids : List (Write D) → List ℕ
  bot_ids [] = []
  bot_ids (write_user u p b ∷ ws) = bot_ids ws
  bot_ids (write_bot c ∷ ws) = c.bot_id ∷ bot_ids ws

-- The numbers from `i` on, `n` of them.
abbrev pub numbers : ℕ → ℕ → List ℕ
numbers i zero = []
numbers i (suc n) = i ∷ numbers (i + 1) n

module _ (D : Type 0) ⦃dec : DecimalOps D⦄ where
  write_bots_lem :
      (user_id : String) (iter n : ℕ) (written : ℕ → Bool)
      → (write_bots {D = D} user_id iter n written).1 ≡ none
      → bot_ids (write_bots {D = D} user_id iter n written).0 ≡ numbers iter n
  unfolding write_bots new_bot_config
  write_bots_lem user_id iter zero written e = refl
  write_bots_lem user_id iter (suc n) written e = elim (Bool-cases (written iter)) [
    | inr bad ↦ absurd (ground (arith, bad, e))
    | inl good ↦
        rw (good, write_bots)
          (ap (◌∷◌ iter) (write_bots_lem user_id (iter + 1) n written (ground (arith, good, e))))
  ]

  -- When an account is stored without an error, its plan is known, the user was written, a connection was
  -- acquired, and the bots written are exactly those with the numbers from 1 to what the plan allows.
  pub store_data_on_initial_payment_lem :
      (user_id plan_name : String) (plan? : Option (AccountPlan D)) (user_written connected : Bool)
      (written : ℕ → Bool)
      → (store_data_on_initial_payment user_id plan_name plan? user_written connected written).1
        ≡ none
      → (plan : AccountPlan D) × (plan? ≡ some plan)
        × (user_written ≡ true)
        × (connected ≡ true)
        × (bot_ids
              (store_data_on_initial_payment user_id plan_name plan? user_written connected
                written).0
            ≡ numbers 1 plan.allowed_ct_instances)
  unfolding store_data_on_initial_payment
  store_data_on_initial_payment_lem user_id plan_name none user_written connected written e =
      absurd (ground (arith, e))
  store_data_on_initial_payment_lem user_id plan_name (some plan) false connected written e =
      absurd (ground (arith, e))
  store_data_on_initial_payment_lem user_id plan_name (some plan) true false written e =
      absurd (ground (arith, e))
  store_data_on_initial_payment_lem user_id plan_name (some plan) true true written e =
      (plan, refl, refl, refl, write_bots_lem user_id 1 plan.allowed_ct_instances written e)

-- A user whose renewal date is near: the days left are 3, 2, 1, or -1 when it has passed.
pub record NotificationUser : Type 0 where
  pub user_id : String
  pub alert_webhook : String
  pub days_away : ℤ

-- What happens to such a user, in order.
pub data RenewalEvent : Type 0 where
  staff_alert wipe_user staff_wiped : String → RenewalEvent
  staff_one_day : String → RenewalEvent
  renewal_noti : String → RenewalEvent

-- `findWebhookForUser`, over the bots' webhooks: the first that is set.
unfoldable pub find_webhook : List String → Option String
find_webhook [] = none
find_webhook (w ∷ ws) = let rest = find_webhook ws in if w == "" then rest else some w

-- The webhook of a user: the user's own, or one of the bots'; empty if there is none.
unfoldable pub webhook_of : NotificationUser → Option (List String) → String
unfolding find_webhook
webhook_of user webhooks? =
    let found : Option String = elim webhooks? [ none ↦ none | some ws ↦ find_webhook ws ] in
    if user.alert_webhook == "" then (elim found [ none ↦ "" | some w ↦ w ]) else user.alert_webhook

-- `handleIndividualApproachingRenewal`. `webhooks?` are those of the user's bots, or none if they
-- cannot be read.
unfoldable pub handle_individual_approaching_renewal :
    NotificationUser → Option (List String) → Bool → List RenewalEvent
unfolding find_webhook webhook_of
handle_individual_approaching_renewal user webhooks? wiped =
    let found : Option String = elim webhooks? [ none ↦ none | some ws ↦ find_webhook ws ] in
    let unset = user.alert_webhook == "" in
    let alerts : List RenewalEvent =
      if unset then (elim found [ none ↦ staff_alert user.user_id ∷ [] | some w ↦ [] ]) else [] in
    let last_day : List RenewalEvent =
      if eqb_ℤ user.days_away (pos 1) then staff_one_day user.user_id ∷ [] else [] in
    alerts
    ++ last_day
    ++ (if eqb_ℤ user.days_away (negsuc 0)
        then wipe_user user.user_id ∷ (if wiped then staff_wiped user.user_id ∷ [] else [])
        else renewal_noti (webhook_of user webhooks?) ∷ [])

abbrev pub is_wipe : RenewalEvent → Bool
is_wipe (wipe_user u) = true
is_wipe _ = false

abbrev pub is_noti : RenewalEvent → Bool
is_noti (renewal_noti w) = true
is_noti _ = false

-- A user is wiped, once, exactly when the renewal date has passed; every other user gets exactly one
-- notification, and to the user's own webhook if there is one.
pub handle_individual_approaching_renewal_lem :
    (user : NotificationUser) (webhooks? : Option (List String)) (wiped : Bool)
    → ((user.days_away ≡ negsuc 0)
        × (keep is_wipe (handle_individual_approaching_renewal user webhooks? wiped)
            ≡ wipe_user user.user_id ∷ [])
        × (keep is_noti (handle_individual_approaching_renewal user webhooks? wiped) ≡ []))
      ⊎ ((user.days_away ≢ negsuc 0)
          × (keep is_wipe (handle_individual_approaching_renewal user webhooks? wiped) ≡ [])
          × ((user.alert_webhook ≡ "") ⊎ (webhook_of user webhooks? ≡ user.alert_webhook))
          × (keep is_noti (handle_individual_approaching_renewal user webhooks? wiped)
              ≡ renewal_noti (webhook_of user webhooks?) ∷ []))
unfolding handle_individual_approaching_renewal webhook_of
handle_individual_approaching_renewal_lem user webhooks? wiped =
    elim (Bool-cases (eqb_ℤ user.days_away (negsuc 0))) [
      | inl y ↦ ground (arith, y)
      | inr n ↦ ground (arith, n, ==_iff user.alert_webhook "")
    ]
