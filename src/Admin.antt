-- ===== src/Admin.antt =====
-- handlersAdmin.go: the plan of a user and the number of bots it allows, on the rows of the tables users,
-- plans and copytrading. Times and durations are in nanoseconds. The
-- number of a user's bots and their ids, ints in the code, are natural numbers.
pub mod Instances
pub mod Plans
pub mod Requests
mod Tests
use lightspeed_trading_clean.Base.{
  ℕ, zero, suc, ◌+◌, ◌-◌, ◌*◌, ◌^◌, String, Bool, true, false, Option, none, some, List, [], ◌∷◌,
  ◌++◌, ◌==◌, string_eq, number_eq, if◌then◌else◌, ◌&&◌, not, ltb, length,
}
use lightspeed_trading_clean.Base.Int.{ℤ, pos, negsuc, ◌+ℤ◌, ◌-ℤ◌, ◌*ℤ◌, div_ℤ}
use lightspeed_trading_clean.Base.Dict.{Dict, lookup, insert, erase}
use lightspeed_trading_clean.Numbers.{DecimalOps}
use lightspeed_trading_clean.Config.{BotConfig, new_bot_config}
use lightspeed_trading_clean.Fleet.{User, is_row}
use lightspeed_trading_clean.Fleet.Balance.{read_all_records_cpyt}

-- The columns of the table plans that are read here.
pub record PlanRow (D : Type 0) : Type 0 where
  pub allowed_ct_instances : ℕ
  pub max_ct_balance : D

pub record Tables (D : Type 0) : Type 0 where
  pub configs : List (BotConfig D)
  pub users : Dict String (User D)
  pub plans : Dict String (PlanRow D)

-- The queries that can fail: by the name of a table, or by the id of the bot that is written or deleted.
pub data AdminQuery : Type 0 where
  read_users read_plan wipe_user write_users read_cpyt read_old_plan : AdminQuery
  write_bot delete_bot : ℕ → AdminQuery

-- The rows after a loop, and whether it ended without an error.
pub record Written (D : Type 0) : Type 0 where
  pub ok : Bool
  pub rows : List (BotConfig D)

module _ {D : Type 0} where
  -- DELETE FROM copytrading WHERE user_id=$1 AND bot_id=$2.
  unfoldable pub delete_row : String → ℕ → List (BotConfig D) → List (BotConfig D)
  delete_row user_id bot_id [] = []
  delete_row user_id bot_id (c ∷ cs) =
      if is_row user_id bot_id c
      then delete_row user_id bot_id cs
      else c ∷ delete_row user_id bot_id cs

  -- The loop of deleteInstances: the rows left to delete, from the bot `i` downwards.
  unfoldable pub delete_from : (AdminQuery → Bool) → String → ℕ → ℕ → List (BotConfig D) → Written D
  unfolding delete_row
  delete_from fails user_id zero i rows = record { ok = true; rows = rows }
  delete_from fails user_id (suc left) i rows =
      let rest = delete_from fails user_id left (i - 1) (delete_row user_id i rows) in
      if fails (delete_bot i) then record { ok = false; rows = rows } else rest

  -- `deleteInstances`.
  unfoldable pub delete_instances :
      (AdminQuery → Bool) → String → ℕ → ℕ → List (BotConfig D) → Written D
  unfolding delete_from
  delete_instances fails user_id total_count delete_count rows =
      delete_from fails user_id delete_count total_count rows

module _ {D : Type 0} ⦃dec : DecimalOps D⦄ where
  -- The loop of SetNumInstances that adds bots: the bots left to add, from the bot `i` upwards.
  unfoldable pub add_from : (AdminQuery → Bool) → String → ℕ → ℕ → List (BotConfig D) → Written D
  unfolding new_bot_config
  add_from fails user_id zero i rows = record { ok = true; rows = rows }
  add_from fails user_id (suc left) i rows =
      let rest = add_from fails user_id left (i + 1) (rows ++ new_bot_config user_id i ∷ []) in
      if fails (write_bot i) then record { ok = false; rows = rows } else rest

  -- `SetNumInstances`: `ok` is the status 200, otherwise it is 500.
  unfoldable pub set_num_instances :
      (AdminQuery → Bool) → String → ℕ → List (BotConfig D) → Written D
  unfolding delete_instances add_from read_all_records_cpyt
  set_num_instances fails user_id num_instances rows =
      let existing = length (read_all_records_cpyt user_id rows) in
      if fails read_cpyt
      then record { ok = false; rows = rows }
      else if ltb num_instances existing
      then delete_instances fails user_id existing (existing - num_instances) rows
      else if ltb existing num_instances
      then add_from fails user_id (num_instances - existing) (existing + 1) rows
      else record { ok = true; rows = rows }

pub record SetUserPlanReq : Type 0 where
  pub target_user_id : String
  pub plan_name : String
  pub overwrite_existing : Bool
  pub days_until_renewal : Option ℤ

-- A signed number of 64 bits, with its wrap-around.
unfoldable pub wrap_64 : ℤ → ℤ
wrap_64 x = x -ℤ (pos (2 ^ 64) *ℤ div_ℤ (x +ℤ pos (2 ^ 63)) (pos (2 ^ 64)))

abbrev pub day : ℤ
day = pos 86400000000000

-- The days until a time, rounded up; the code's quotient of floats is taken to be exact.
unfoldable pub days_until : ℤ → ℤ → ℤ
days_until now time = pos 0 -ℤ div_ℤ (pos 0 -ℤ (time -ℤ now)) day

-- A status, and the tables after it.
pub record Served (D : Type 0) : Type 0 where
  pub status : ℕ
  pub tables : Tables D

-- What SetUserPlan has when it comes to the new plan.
pub record Account (D : Type 0) : Type 0 where
  pub days_left : ℤ
  pub old_max : D
  pub alert_webhook : String
  pub remaining : D

module _ {D : Type 0} ⦃dec : DecimalOps D⦄ where
  -- The row that is written: what the bots hold stays reserved.
  abbrev pub new_user : ℤ → SetUserPlanReq → Account D → PlanRow D → User D
  new_user now req a new_plan = record {
    plan = req.plan_name;
    renewal_ts = now +ℤ wrap_64 (day *ℤ a.days_left);
    alert_webhook = a.alert_webhook;
    remaining_cpyt_bal = dec.sub new_plan.max_ct_balance (dec.sub a.old_max a.remaining);
  }

  -- From the reading of the new plan on.
  unfoldable pub write_plan :
      (AdminQuery → Bool) → ℤ → SetUserPlanReq → Account D → Tables D → Served D
  unfolding set_num_instances
  write_plan fails now req a t =
      if fails read_plan
      then record { status = 500; tables = t }
      else elim (lookup req.plan_name t.plans) [
        | none ↦ record { status = 400; tables = t }
        | some new_plan ↦
            (if fails write_users
              then record { status = 500; tables = t }
              else let w =
                  set_num_instances fails req.target_user_id new_plan.allowed_ct_instances
                    t.configs in
                record {
                  status = if w.ok then 200 else 500;
                  tables = record t {
                    users = insert req.target_user_id (new_user now req a new_plan) t.users;
                    configs = w.rows;
                  };
                })
      ]

  -- What is kept of the user's row.
  unfoldable pub account : ℤ → SetUserPlanReq → User D → PlanRow D → Account D
  unfolding days_until
  account now req u old_plan = record {
    days_left = elim req.days_until_renewal [
      | none ↦ days_until now u.renewal_ts
      | some days ↦ days
    ];
    old_max = old_plan.max_ct_balance;
    alert_webhook = u.alert_webhook;
    remaining = u.remaining_cpyt_bal;
  }

  -- The user has a plan already: it is read, and the user's row is deleted.
  unfoldable pub overwrite_plan :
      (AdminQuery → Bool) → ℤ → SetUserPlanReq → User D → Tables D → Served D
  unfolding write_plan account
  overwrite_plan fails now req u t =
      if not req.overwrite_existing
      then record { status = 400; tables = t }
      else (elim (lookup u.plan t.plans) [
        | none ↦ record { status = 400; tables = t }
        | some old_plan ↦
            (if fails read_old_plan
              then record { status = 400; tables = t }
              else if fails wipe_user
              then record { status = 500; tables = t }
              else write_plan fails now req (account now req u old_plan)
                  (record t { users = erase req.target_user_id t.users }))
      ])

  -- The user has no plan, and may have a row with a balance.
  unfoldable pub first_plan : (AdminQuery → Bool) → ℤ → SetUserPlanReq → D → Tables D → Served D
  unfolding write_plan
  first_plan fails now req remaining t = elim req.days_until_renewal [
    | none ↦ record { status = 400; tables = t }
    | some days ↦
        write_plan fails now req
          (record {
            days_left = days;
            old_max = dec.from_int (pos 0);
            alert_webhook = "";
            remaining = remaining;
          })
          t
  ]

  -- `SetUserPlan`.
  unfoldable pub set_user_plan : (AdminQuery → Bool) → ℤ → SetUserPlanReq → Tables D → Served D
  unfolding overwrite_plan first_plan
  set_user_plan fails now req t =
      if fails read_users
      then record { status = 500; tables = t }
      else (elim (lookup req.target_user_id t.users) [
        | none ↦ first_plan fails now req (dec.from_int (pos 0)) t
        | some u ↦
            (if u.plan == ""
              then first_plan fails now req u.remaining_cpyt_bal t
              else overwrite_plan fails now req u t)
      ])
