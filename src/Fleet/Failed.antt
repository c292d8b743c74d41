-- ===== src/Fleet/Failed.antt =====
-- A startBot that does not start a bot, on every path of its errors and panics.
use lightspeed_trading_clean.Base.{
  ℕ, String, ◌≡◌, refl, ap, ◌⊎◌, inl, inr, Bool, true, false, none, some, List, [], ◌∷◌, ◌==◌,
  string_eq, number_eq, if◌then◌else◌, arith, Bool-cases, Option-cases, Sum-cases, ==_iff, ==_refl,
  ◌∙◌, sym,
}
use lightspeed_trading_clean.Base.Dict.{lookup, insert, lookup-insert}
use lightspeed_trading_clean.Numbers.{DecimalOps, BalanceLaws}
use lightspeed_trading_clean.Config.{BotConfig, BotStatus, inactive, starting}
use lightspeed_trading_clean.Trader.Requests.{Asked, got, refused, crashed}
use lightspeed_trading_clean.Bot.{Bot}
use lightspeed_trading_clean.Bot.Join.{handle_trader_bot_differences}
use lightspeed_trading_clean.Fleet.{
  Fleet, Monitor, Query, add_back, set_activity, set_bot_activity, write_status, get_monitor,
  Reduced, reduced, too_low, reduce_failed, check_and_reduce_cpyt_balance, give_back,
  add_back_to_cpyt_bal, read_cpyt, read_record_cpyt,
}
use lightspeed_trading_clean.Fleet.Create.{World, create_new_monitor, make_bot}
use lightspeed_trading_clean.Fleet.Start.{
  StartBotParam, Started, is_started, join_monitor, join_new, launch_or_wait, find_monitor,
  return_balance, reset_activity, take_balance, start_checked, start_with, start_bot,
  config_refusal,
}

module _ {F D : Type 0} where
  -- Two states that differ at most in the free proxies.
  abbrev pub SameRows : Fleet F D → Fleet F D → Type 0
  SameRows f g = (g.running_mons ≡ f.running_mons) × (g.configs ≡ f.configs) × (g.users ≡ f.users)

  join_monitor-failed :
      (w : World F D) (req : StartBotParam) (config : BotConfig D) (bot : Bot D) (exists : Bool)
      (mon : Monitor F D) (fleet : Fleet F D)
      → is_started (join_monitor w req config bot exists mon fleet).ending ≡ false
      → (join_monitor w req config bot exists mon fleet).fleet ≡ fleet
  unfolding join_monitor
  join_monitor-failed w req config bot exists mon fleet h =
      elim (Option-cases
        (handle_trader_bot_differences bot mon.positions config.mode_inverse none w.exc)) [
          | inl e ↦ rw (e, join_monitor) refl
          | inr (joined, e) ↦ absurd (ground (arith, e, h))
        ]

  join_new-failed :
      (w : World F D) (req : StartBotParam) (config : BotConfig D) (bot : Bot D)
      (asked : Asked (Monitor F D)) (fleet : Fleet F D)
      → is_started (join_new w req config bot asked fleet).ending ≡ false
      → (join_new w req config bot asked fleet).fleet ≡ fleet
  unfolding join_new
  join_new-failed w req config bot (got mon) fleet h =
      join_monitor-failed w req config bot false mon fleet h
  join_new-failed w req config bot (refused err) fleet h = ground arith
  join_new-failed w req config bot crashed fleet h = refl

  launch_or_wait-failed :
      (w : World F D) (req : StartBotParam) (config : BotConfig D) (bot : Bot D) (fleet : Fleet F D)
      (in_handler : Bool)
      → is_started (launch_or_wait w req config bot fleet in_handler).ending ≡ false
      → SameRows fleet (launch_or_wait w req config bot fleet in_handler).fleet
  unfolding launch_or_wait
  launch_or_wait-failed w req config bot fleet true h = (refl, refl, refl)
  launch_or_wait-failed w req config bot fleet false h =
      let made = create_new_monitor w req.trader_uid fleet.available in
      let same = join_new-failed w req config bot made.0 (record fleet { available = made.1 }) h in
      rw same (refl, refl, refl)

  find_monitor-failed :
      (w : World F D) (req : StartBotParam) (config : BotConfig D) (bot : Bot D) (fleet : Fleet F D)
      → is_started (find_monitor w req config bot fleet).ending ≡ false
      → SameRows fleet (find_monitor w req config bot fleet).fleet
  unfolding find_monitor
  find_monitor-failed w req config bot fleet h =
      elim (Option-cases (get_monitor req.trader_uid fleet)) [
        | inr (mon, e) ↦
            let h' : is_started (join_monitor w req config bot true mon fleet).ending ≡ false =
              ground (arith, e, h) in
            rw (e, find_monitor, join_monitor-failed w req config bot true mon fleet h')
              (refl, refl, refl)
        | inl e ↦
            let h' : is_started (launch_or_wait w req config bot fleet w.in_handler).ending
                ≡ false =
              ground (arith, e, h) in
            rw (e, find_monitor) (launch_or_wait-failed w req config bot fleet w.in_handler h')
      ]

module _ {D : Type 0} where
  pub write_status-twice :
      (user_id : String) (bot_id : ℕ) (a b : BotStatus) (cs : List (BotConfig D))
      → write_status user_id bot_id a (write_status user_id bot_id b cs)
        ≡ write_status user_id bot_id a cs
  unfolding write_status
  write_status-twice user_id bot_id a b [] = refl
  write_status-twice user_id bot_id a b (c ∷ cs) =
      ground (arith, write_status-twice user_id bot_id a b cs)

module _ {F D : Type 0} ⦃dec : DecimalOps D⦄ where
  -- The tables and the monitors are as they were, but for the status of a bot, which is inactive.
  abbrev pub Restored : StartBotParam → Fleet F D → Fleet F D → String → Type 0
  Restored req f g j =
      (g.running_mons ≡ f.running_mons)
      × (lookup j g.users ≡ lookup j f.users)
      × (g.configs ≡ write_status req.user_id req.bot_id inactive f.configs)

  -- What is reduced and given back is what it was.
  give_back-reduced :
      (laws : BalanceLaws dec) (fails : Query → Bool) (user_id j : String) (bal : D)
      (fleet less same : Fleet F D)
      → fails add_back ≡ false
      → check_and_reduce_cpyt_balance fails user_id bal fleet ≡ reduced less
      → same.users ≡ less.users
      → lookup j (give_back fails user_id bal same).users ≡ lookup j fleet.users
  unfolding check_and_reduce_cpyt_balance add_back_to_cpyt_bal
  give_back-reduced laws fails user_id j bal fleet less same h e s =
      elim (Option-cases (lookup user_id fleet.users)) [
        | inl n ↦ absurd (ground (arith, n, e))
        | inr (u, n) ↦ (elim (Bool-cases (dec.ltb u.remaining_cpyt_bal bal)) [
          | inl low ↦ absurd (ground (arith, n, low, e))
          | inr ok ↦
              let lower = record u { remaining_cpyt_bal = dec.sub u.remaining_cpyt_bal bal } in
              let written : insert user_id lower fleet.users ≡ less.users =
                ground (arith, n, ok, e) in
              let at : lookup user_id same.users ≡ some lower =
                rw (s, ← written, lookup-insert user_id user_id lower fleet.users)
                  (ground (arith, ==_refl user_id)) in
              let old : lookup j same.users
                  ≡ (if user_id == j then some lower else lookup j fleet.users) =
                rw (s, ← written) (lookup-insert user_id j lower fleet.users) in
              ground (
                arith,
                at,
                old,
                h,
                n,
                laws.add-sub u.remaining_cpyt_bal bal,
                lookup-insert user_id j
                    (record lower { remaining_cpyt_bal = dec.add lower.remaining_cpyt_bal bal })
                    same.users,
                ==_iff user_id j,
              )
        ])
      ]

  pub Reduced-cases :
      (r : Reduced F D)
      → ((f : Fleet F D) × (r ≡ reduced f)) ⊎ ((d : D) × (r ≡ too_low d)) ⊎ (r ≡ reduce_failed)
  Reduced-cases (reduced f) = inl (f, refl)
  Reduced-cases (too_low d) = inr (inl (d, refl))
  Reduced-cases reduce_failed = inr (inr refl)

  reduced-SameRest :
      (fails : Query → Bool) (user_id : String) (bal : D) (fleet less : Fleet F D)
      → check_and_reduce_cpyt_balance fails user_id bal fleet ≡ reduced less
      → (less.running_mons ≡ fleet.running_mons) × (less.configs ≡ fleet.configs)
  unfolding check_and_reduce_cpyt_balance
  reduced-SameRest fails user_id bal fleet less e =
      elim (Option-cases (lookup user_id fleet.users)) [
        | inl n ↦ absurd (ground (arith, n, e))
        | inr (u, n) ↦ ground (arith, n, e)
      ]

  pub give_back-SameRest :
      (fails : Query → Bool) (user_id : String) (bal : D) (fleet : Fleet F D)
      → ((give_back fails user_id bal fleet).running_mons ≡ fleet.running_mons)
        × ((give_back fails user_id bal fleet).configs ≡ fleet.configs)
  unfolding add_back_to_cpyt_bal
  give_back-SameRest fails user_id bal fleet = ground arith

  set_inactive-Restored :
      (w : World F D) (req : StartBotParam) (fleet g : Fleet F D) (j : String)
      → w.fails (set_activity inactive) ≡ false
      → g.running_mons ≡ fleet.running_mons
      → lookup j g.users ≡ lookup j fleet.users
      → g.configs ≡ fleet.configs
      → Restored req fleet (set_bot_activity w.fails req.user_id req.bot_id inactive g) j
  unfolding set_bot_activity
  set_inactive-Restored w req fleet g j h a b c = rw h (a, b, rw c refl)

  undo-failed :
      (w : World F D) (req : StartBotParam) (bal : D) (found : Started F D)
      → is_started found.ending ≡ false
      → (reset_activity w req (return_balance w req bal found)).fleet
        ≡ set_bot_activity w.fails req.user_id req.bot_id inactive
            (give_back w.fails req.user_id bal found.fleet)
  unfolding reset_activity return_balance
  undo-failed w req bal found h = rw (h, return_balance, h, reset_activity) refl

  pub reset-ending :
      (w : World F D) (req : StartBotParam) (bal : D) (found : Started F D)
      → (reset_activity w req (return_balance w req bal found)).ending ≡ found.ending
  unfolding reset_activity return_balance
  reset-ending w req bal found = ground arith

  take_balance-failed :
      (laws : BalanceLaws dec) (w : World F D) (req : StartBotParam) (config : BotConfig D)
      (bot : Bot D) (fleet : Fleet F D) (j : String)
      → w.fails add_back ≡ false
      → w.fails (set_activity inactive) ≡ false
      → is_started (take_balance none w req config bot fleet).ending ≡ false
      → Restored req fleet (take_balance none w req config bot fleet).fleet j
  unfolding take_balance
  take_balance-failed laws w req config bot fleet j back inact h =
      elim (Reduced-cases
        (check_and_reduce_cpyt_balance w.fails req.user_id bot.initial_balance fleet)) [
          | inl (less, e) ↦
              let found = find_monitor w req config bot less in
              let ended = reset-ending w req bot.initial_balance found in
              let over : is_started found.ending ≡ false =
                ap is_started (sym ended) ∙ (rw (e, take_balance) at h) in
              let same = find_monitor-failed w req config bot less over in
              let rest = reduced-SameRest w.fails req.user_id bot.initial_balance fleet less e in
              let given = give_back-SameRest w.fails req.user_id bot.initial_balance found.fleet in
              let paid =
                give_back-reduced laws w.fails req.user_id j bot.initial_balance fleet less
                  found.fleet back e same.2 in
              rw (e, take_balance, undo-failed w req bot.initial_balance found over)
                (set_inactive-Restored w req fleet
                  (give_back w.fails req.user_id bot.initial_balance found.fleet) j inact
                  (given.0 ∙ same.0 ∙ rest.0) paid (given.1 ∙ same.1 ∙ rest.1))
          | inr (inl (d, e)) ↦
              rw (e, take_balance) (set_inactive-Restored w req fleet fleet j inact refl refl refl)
          | inr (inr e) ↦
              rw (e, take_balance) (set_inactive-Restored w req fleet fleet j inact refl refl refl)
        ]

  Restored-busy :
      (w : World F D) (req : StartBotParam) (fleet g : Fleet F D) (j : String)
      → Restored req (set_bot_activity w.fails req.user_id req.bot_id starting fleet) g j
      → Restored req fleet g j
  unfolding set_bot_activity
  Restored-busy w req fleet g j h = elim (Bool-cases (w.fails (set_activity starting))) [
    | inl e ↦ rw (e, set_bot_activity) at h
    | inr e ↦
        let h' = rw (e, set_bot_activity) at h in
        (
          h'.0,
          h'.1,
          h'.2 ∙ write_status-twice req.user_id req.bot_id inactive starting fleet.configs,
        )
  ]

  start_checked-failed :
      (laws : BalanceLaws dec) (w : World F D) (req : StartBotParam) (config : BotConfig D)
      (fleet : Fleet F D) (j : String)
      → w.fails add_back ≡ false
      → w.fails (set_activity inactive) ≡ false
      → is_started (start_checked none w req config fleet).ending ≡ false
      → Restored req fleet (start_checked none w req config fleet).fleet j
  unfolding start_checked
  start_checked-failed laws w req config fleet j back inact h =
      let busy = set_bot_activity w.fails req.user_id req.bot_id starting fleet in
      Restored-busy w req fleet (start_checked none w req config fleet).fleet j
        (elim (Sum-cases (make_bot w.exc w.balance_err w.now req.user_id req.bot_id req.exchange)) [
          | inl (bot, e) ↦
              rw (e, start_checked)
                (take_balance-failed laws w req config bot busy j back inact
                  (rw (e, start_checked) at h))
          | inr (is_server, e) ↦
              rw (e, start_checked) (set_inactive-Restored w req busy busy j inact refl refl refl)
        ])

  -- A startBot without the correction of balances that does not start the bot leaves the monitors and every
  -- user's row as they were, and the bots' rows too, except that it may leave the bot inactive; this holds where the
  -- writes of the status inactive and of the returned balance succeed.
  pub start_bot-Restored :
      (laws : BalanceLaws dec) (w : World F D) (req : StartBotParam) (fleet : Fleet F D)
      (j : String)
      → w.fails add_back ≡ false
      → w.fails (set_activity inactive) ≡ false
      → is_started (start_bot false w req fleet).ending ≡ false
      → ((start_bot false w req fleet).fleet ≡ fleet)
        ⊎ Restored req fleet (start_bot false w req fleet).fleet j
  unfolding start_bot start_with
  start_bot-Restored laws w req fleet j back inact h = elim (Bool-cases (w.fails read_cpyt)) [
    | inl e ↦ inl (ground (arith, e))
    | inr e ↦ (elim (Option-cases (read_record_cpyt req.user_id req.bot_id fleet.configs)) [
      | inl n ↦ inl (ground (arith, e, n))
      | inr (config, n) ↦ (elim (Option-cases (config_refusal config)) [
        | inr (err, c) ↦ inl (ground (arith, e, n, c))
        | inl c ↦
            let same : start_bot false w req fleet ≡ start_checked none w req config fleet =
              ground (arith, e, n, c) in
            rw same (inr (start_checked-failed laws w req config fleet j back inact (rw same at h)))
      ])
    ])
  ]
