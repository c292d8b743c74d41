-- ===== src/Admin/Plans.antt =====
-- What SetUserPlan makes of a user who has a plan.
use lightspeed_trading_clean.Base.{
  ◌≡◌, refl, inl, inr, Bool, true, false, none, some, ◌==◌, string_eq, arith, Bool-cases, ==_refl,
  if◌then◌else◌,
}
use lightspeed_trading_clean.Base.Int.{ℤ}
use lightspeed_trading_clean.Base.Dict.{lookup, erase, lookup-insert, lookup-erase}
use lightspeed_trading_clean.Numbers.{DecimalOps, BalanceLaws}
use lightspeed_trading_clean.Fleet.{User}
use lightspeed_trading_clean.Admin.{
  AdminQuery, read_users, read_plan, read_old_plan, wipe_user, write_users, PlanRow, Tables,
  SetUserPlanReq, Account, new_user, account, write_plan, overwrite_plan, set_user_plan,
}

module _ {D : Type 0} ⦃dec : DecimalOps D⦄ where
  write_plan-user :
      (laws : BalanceLaws dec) (fails : AdminQuery → Bool) (now : ℤ) (req : SetUserPlanReq)
      (a : Account D) (new_plan : PlanRow D) (t : Tables D)
      → lookup req.plan_name t.plans ≡ some new_plan
      → (write_plan fails now req a t).status ≡ 200
      → (v : User D) × (lookup req.target_user_id (write_plan fails now req a t).tables.users
          ≡ some v)
        × (v.plan ≡ req.plan_name)
        × (v.alert_webhook ≡ a.alert_webhook)
        × (dec.sub new_plan.max_ct_balance v.remaining_cpyt_bal ≡ dec.sub a.old_max a.remaining)
  unfolding write_plan
  write_plan-user laws fails now req a new_plan t p ok = elim (Bool-cases (fails read_plan)) [
    | inl f ↦ absurd (ground (arith, p, f, ok))
    | inr f ↦ (elim (Bool-cases (fails write_users)) [
      | inl g ↦ absurd (ground (arith, p, f, g, ok))
      | inr g ↦ (
        new_user now req a new_plan,
        rw
            (
              p,
              f,
              g,
              write_plan,
              lookup-insert req.target_user_id req.target_user_id (new_user now req a new_plan)
                  t.users,
            )
            (ground (arith, ==_refl req.target_user_id)),
        refl,
        refl,
        laws.sub-sub new_plan.max_ct_balance (dec.sub a.old_max a.remaining),
      )
    ])
  ]

  -- Where SetUserPlan succeeds for a user who has a plan, the user has the new plan, keeps the alert webhook, and the
  -- difference of the plan's maximum and of what remains, which is what the user's bots hold, is the same under the new
  -- plan as it was under the old.
  pub set_user_plan-keeps :
      (laws : BalanceLaws dec) (fails : AdminQuery → Bool) (now : ℤ) (req : SetUserPlanReq)
      (u : User D) (old_plan new_plan : PlanRow D) (t : Tables D)
      → lookup req.target_user_id t.users ≡ some u
      → (u.plan == "") ≡ false
      → lookup u.plan t.plans ≡ some old_plan
      → lookup req.plan_name t.plans ≡ some new_plan
      → (set_user_plan fails now req t).status ≡ 200
      → (v : User D) × (lookup req.target_user_id (set_user_plan fails now req t).tables.users
          ≡ some v)
        × (v.plan ≡ req.plan_name)
        × (v.alert_webhook ≡ u.alert_webhook)
        × (dec.sub new_plan.max_ct_balance v.remaining_cpyt_bal
            ≡ dec.sub old_plan.max_ct_balance u.remaining_cpyt_bal)
  unfolding set_user_plan overwrite_plan account
  set_user_plan-keeps laws fails now req u old_plan new_plan t at named old new ok =
      elim (Bool-cases (fails read_users)) [
        | inl e ↦ absurd (ground (arith, e, ok))
        | inr e ↦ (elim (Bool-cases req.overwrite_existing) [
          | inl o ↦ (elim (Bool-cases (fails read_old_plan)) [
            | inl f ↦ absurd (ground (arith, e, at, named, o, old, f, ok))
            | inr f ↦ (elim (Bool-cases (fails wipe_user)) [
              | inl g ↦ absurd (ground (arith, e, at, named, o, old, f, g, ok))
              | inr g ↦
                  let same : set_user_plan fails now req t
                      ≡ write_plan fails now req (account now req u old_plan)
                          (record t { users = erase req.target_user_id t.users }) =
                    ground (arith, e, at, named, o, old, f, g) in
                  rw same (
                    write_plan-user laws fails now req (account now req u old_plan) new_plan
                      (record t { users = erase req.target_user_id t.users }) new (rw same at ok))
            ])
          ])
          | inr o ↦ absurd (ground (arith, e, at, named, o, ok))
        ])
      ]

  -- SetUserPlan for a user who has a plan, with a new plan that does not exist, answers with the status 400, or with 500 if
  -- the new plan cannot be read, but the user's row is deleted; this holds where the existing plan may be overwritten and
  -- can be read, and the user's row can be read and deleted.
  pub set_user_plan-wiped :
      (fails : AdminQuery → Bool) (now : ℤ) (req : SetUserPlanReq) (u : User D)
      (old_plan : PlanRow D) (t : Tables D)
      → fails read_users ≡ false
      → fails read_old_plan ≡ false
      → fails wipe_user ≡ false
      → lookup req.target_user_id t.users ≡ some u
      → (u.plan == "") ≡ false
      → lookup u.plan t.plans ≡ some old_plan
      → req.overwrite_existing ≡ true
      → lookup req.plan_name t.plans ≡ none
      → ((set_user_plan fails now req t).status ≡ (if fails read_plan then 500 else 400))
        × (lookup req.target_user_id (set_user_plan fails now req t).tables.users ≡ none)
  unfolding set_user_plan overwrite_plan write_plan
  set_user_plan-wiped fails now req u old_plan t e f g at named old o new = ground (
    arith,
    e,
    f,
    g,
    at,
    named,
    old,
    o,
    new,
    lookup-erase req.target_user_id req.target_user_id t.users,
    ==_refl req.target_user_id,
  )
