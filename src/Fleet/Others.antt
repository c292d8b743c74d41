-- ===== src/Fleet/Others.antt =====
-- The rows of other users while a bot of one user starts or stops.
use lightspeed_trading_clean.Base.{
  ℕ, String, ◌≡◌, refl, ap, inl, inr, Bool, true, false, none, List, [], ◌∷◌, ◌==◌, string_eq,
  number_eq, arith, Option-cases, ==_iff, ◌∙◌,
}
use lightspeed_trading_clean.Base.Dict.{lookup, lookup-insert}
use lightspeed_trading_clean.Numbers.{DecimalOps}
use lightspeed_trading_clean.Config.{BotConfig, BotStatus}
use lightspeed_trading_clean.Trader.Requests.{Asked, got, refused, crashed}
use lightspeed_trading_clean.Bot.{Bot}
use lightspeed_trading_clean.Bot.Join.{handle_trader_bot_differences}
use lightspeed_trading_clean.Fleet.{
  Fleet, Monitor, Query, set_bot_activity, write_status, get_monitor, give_back,
  add_back_to_cpyt_bal, check_and_reduce_cpyt_balance, reduced, add_monitor,
}
use lightspeed_trading_clean.Fleet.Create.{World, create_new_monitor}
use lightspeed_trading_clean.Fleet.Balance.{read_all_records_cpyt}
use lightspeed_trading_clean.Fleet.Start.{
  StartBotParam, join_monitor, join_new, launch_or_wait, find_monitor,
}

module _ {F D : Type 0} where
  -- A user's row and the rows of that user's bots are the same in two states.
  abbrev pub Untouched : String → Fleet F D → Fleet F D → Type 0
  Untouched v f g =
      (lookup v g.users ≡ lookup v f.users)
      × (read_all_records_cpyt v g.configs ≡ read_all_records_cpyt v f.configs)

  pub Untouched-trans :
      (v : String) (f g h : Fleet F D) → Untouched v f g → Untouched v g h → Untouched v f h
  Untouched-trans v f g h a b = (b.0 ∙ a.0, b.1 ∙ a.1)

  -- The rows of a state are those of another.
  abbrev SameTables : Fleet F D → Fleet F D → Type 0
  SameTables f g = (g.users ≡ f.users) × (g.configs ≡ f.configs)

  pub SameTables-Untouched : (v : String) (f g : Fleet F D) → SameTables f g → Untouched v f g
  SameTables-Untouched v f g s = (ap (lookup v) s.0, ap (read_all_records_cpyt v) s.1)

module _ {D : Type 0} where
  read_all-write_status :
      (user_id v : String) (bot_id : ℕ) (status : BotStatus) (cs : List (BotConfig D))
      → (user_id == v) ≡ false
      → read_all_records_cpyt v (write_status user_id bot_id status cs) ≡ read_all_records_cpyt v cs
  unfolding write_status read_all_records_cpyt
  read_all-write_status user_id v bot_id status [] h = refl
  read_all-write_status user_id v bot_id status (c ∷ cs) h = ground (
    arith,
    h,
    read_all-write_status user_id v bot_id status cs h,
    ==_iff c.user_id user_id,
    ==_iff c.user_id v,
    ==_iff user_id v,
  )

module _ {F D : Type 0} where
  pub activity-Untouched :
      (fails : Query → Bool) (user_id v : String) (bot_id : ℕ) (status : BotStatus)
      (fleet : Fleet F D)
      → (user_id == v) ≡ false
      → Untouched v fleet (set_bot_activity fails user_id bot_id status fleet)
  unfolding set_bot_activity
  activity-Untouched fails user_id v bot_id status fleet h =
      ground (arith, read_all-write_status user_id v bot_id status fleet.configs h)

  join_monitor-SameTables :
      (w : World F D) (req : StartBotParam) (config : BotConfig D) (bot : Bot D) (exists : Bool)
      (mon : Monitor F D) (fleet : Fleet F D)
      → SameTables fleet (join_monitor w req config bot exists mon fleet).fleet
  unfolding join_monitor add_monitor
  join_monitor-SameTables w req config bot exists mon fleet =
      elim (Option-cases
        (handle_trader_bot_differences bot mon.positions config.mode_inverse none w.exc)) [
          | inl d ↦ rw (d, join_monitor) (refl, refl)
          | inr (joined, d) ↦ rw (d, join_monitor) (ground arith)
        ]

  join_new-SameTables :
      (w : World F D) (req : StartBotParam) (config : BotConfig D) (bot : Bot D)
      (asked : Asked (Monitor F D)) (fleet : Fleet F D)
      → SameTables fleet (join_new w req config bot asked fleet).fleet
  unfolding join_new
  join_new-SameTables w req config bot (got mon) fleet =
      join_monitor-SameTables w req config bot false mon fleet
  join_new-SameTables w req config bot (refused err) fleet = ground arith
  join_new-SameTables w req config bot crashed fleet = (refl, refl)

  launch_or_wait-SameTables :
      (w : World F D) (req : StartBotParam) (config : BotConfig D) (bot : Bot D) (fleet : Fleet F D)
      (in_handler : Bool)
      → SameTables fleet (launch_or_wait w req config bot fleet in_handler).fleet
  unfolding launch_or_wait
  launch_or_wait-SameTables w req config bot fleet true = (refl, refl)
  launch_or_wait-SameTables w req config bot fleet false =
      let made = create_new_monitor w req.trader_uid fleet.available in
      join_new-SameTables w req config bot made.0 (record fleet { available = made.1 })

  pub find_monitor-SameTables :
      (w : World F D) (req : StartBotParam) (config : BotConfig D) (bot : Bot D) (fleet : Fleet F D)
      → SameTables fleet (find_monitor w req config bot fleet).fleet
  unfolding find_monitor
  find_monitor-SameTables w req config bot fleet =
      elim (Option-cases (get_monitor req.trader_uid fleet)) [
        | inl g ↦
            rw (g, find_monitor) (launch_or_wait-SameTables w req config bot fleet w.in_handler)
        | inr (mon, g) ↦
            rw (g, find_monitor) (join_monitor-SameTables w req config bot true mon fleet)
      ]

module _ {F D : Type 0} ⦃dec : DecimalOps D⦄ where
  pub give_back-Untouched :
      (fails : Query → Bool) (user_id v : String) (bal : D) (fleet : Fleet F D)
      → (user_id == v) ≡ false
      → Untouched v fleet (give_back fails user_id bal fleet)
  unfolding add_back_to_cpyt_bal
  give_back-Untouched fails user_id v bal fleet h =
      elim (Option-cases (lookup user_id fleet.users)) [
        | inl n ↦ ground (arith, n)
        | inr (u, n) ↦ ground (
          arith,
          n,
          h,
          lookup-insert user_id v
              (record u { remaining_cpyt_bal = dec.add u.remaining_cpyt_bal bal }) fleet.users,
        )
      ]

  pub reduced-Untouched :
      (fails : Query → Bool) (user_id v : String) (bal : D) (fleet less : Fleet F D)
      → (user_id == v) ≡ false
      → check_and_reduce_cpyt_balance fails user_id bal fleet ≡ reduced less
      → Untouched v fleet less
  unfolding check_and_reduce_cpyt_balance
  reduced-Untouched fails user_id v bal fleet less h e =
      elim (Option-cases (lookup user_id fleet.users)) [
        | inl n ↦ absurd (ground (arith, n, e))
        | inr (u, n) ↦ ground (
          arith,
          n,
          e,
          h,
          lookup-insert user_id v
              (record u { remaining_cpyt_bal = dec.sub u.remaining_cpyt_bal bal }) fleet.users,
        )
      ]
