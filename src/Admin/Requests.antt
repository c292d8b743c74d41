-- ===== src/Admin/Requests.antt =====
-- handlersAdmin.go: the three handlers. `body` is the decoded request, if it can be decoded.
use lightspeed_trading_clean.Base.{
  ℕ, String, ◌≡◌, Bool, false, Option, none, some, ◌==◌, string_eq, if◌then◌else◌, not, arith,
}
use lightspeed_trading_clean.Base.Int.{ℤ}
use lightspeed_trading_clean.Base.Dict.{lookup, insert, erase}
use lightspeed_trading_clean.Numbers.{DecimalOps}
use lightspeed_trading_clean.Admin.{
  AdminQuery, read_plan, PlanRow, Tables, SetUserPlanReq, Served, set_user_plan,
}

pub record CreateNewPlanReq (D : Type 0) : Type 0 where
  pub name : String
  pub plan : PlanRow D
  pub overwrite_existing : Bool

-- The writes of the table plans that can fail.
pub record PlanFaults : Type 0 where
  pub delete_fails : Bool
  pub insert_fails : Bool

module _ {D : Type 0} where
  abbrev pub answer : ℕ → Tables D → Served D
  answer status t = record { status = status; tables = t }

  -- INSERT INTO plans.
  unfoldable pub insert_plan : PlanFaults → CreateNewPlanReq D → Tables D → Served D
  insert_plan faults req t =
      if faults.insert_fails
      then answer 500 t
      else answer 200 (record t { plans = insert req.name req.plan t.plans })

  -- `onAdminCreateNewPlan`.
  unfoldable pub on_admin_create_new_plan :
      (AdminQuery → Bool)
      → PlanFaults
      → String
      → String
      → Option (CreateNewPlanReq D)
      → Tables D
      → Served D
  unfolding insert_plan
  on_admin_create_new_plan fails faults expected_admin_key key body t =
      if not (key == expected_admin_key) then answer 401 t else (elim body [
        | none ↦ answer 400 t
        | some req ↦
            (if fails read_plan then answer 500 t else (elim (lookup req.name t.plans) [
              | none ↦ insert_plan faults req t
              | some old ↦
                  (if not req.overwrite_existing
                    then answer 400 t
                    else if faults.delete_fails
                    then answer 500 t
                    else insert_plan faults req (record t { plans = erase req.name t.plans }))
            ]))
      ])

  -- `onAdminDeletePlan`.
  unfoldable pub on_admin_delete_plan :
      PlanFaults → String → String → Option String → Tables D → Served D
  on_admin_delete_plan faults expected_admin_key key body t =
      if not (key == expected_admin_key) then answer 401 t else (elim body [
        | none ↦ answer 400 t
        | some plan_name ↦
            (if faults.delete_fails
              then answer 500 t
              else answer 200 (record t { plans = erase plan_name t.plans }))
      ])

module _ {D : Type 0} ⦃dec : DecimalOps D⦄ where
  -- `onAdminAddPlanToUser`.
  unfoldable pub on_admin_add_plan_to_user :
      (AdminQuery → Bool) → ℤ → String → String → Option SetUserPlanReq → Tables D → Served D
  unfolding set_user_plan
  on_admin_add_plan_to_user fails now expected_admin_key key body t =
      if not (key == expected_admin_key)
      then answer 401 t
      else (elim body [ none ↦ answer 400 t | some req ↦ set_user_plan fails now req t ])

  -- A request with another key than the admin's changes no table, whichever of the three handlers it reaches and
  -- whatever it holds: the answer is 401.
  pub on_admin-unauthorised :
      (fails : AdminQuery → Bool) (faults : PlanFaults) (now : ℤ) (expected key : String)
      (add : Option SetUserPlanReq) (create : Option (CreateNewPlanReq D)) (delete : Option String)
      (t : Tables D)
      → (key == expected) ≡ false
      → (on_admin_add_plan_to_user fails now expected key add t ≡ answer 401 t)
        × (on_admin_create_new_plan fails faults expected key create t ≡ answer 401 t)
        × (on_admin_delete_plan faults expected key delete t ≡ answer 401 t)
  unfolding on_admin_add_plan_to_user on_admin_create_new_plan on_admin_delete_plan
  on_admin-unauthorised fails faults now expected key add create delete t h =
      (ground (arith, h), ground (arith, h), ground (arith, h))
