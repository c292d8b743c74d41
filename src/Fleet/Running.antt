-- ===== src/Fleet/Running.antt =====
-- startBot where it starts a bot.
use lightspeed_trading_clean.Base.{
  ℕ, String, ◌≡◌, refl, ap, inl, inr, Bool, true, false, none, some, ◌==◌, string_eq, number_eq,
  if◌then◌else◌, arith, Bool-cases, Option-cases, Sum-cases, ◌∙◌, sym,
}
use lightspeed_trading_clean.Base.Dict.{Dict, lookup, insert, lookup-insert}
use lightspeed_trading_clean.Numbers.{DecimalOps}
use lightspeed_trading_clean.Config.{BotConfig, starting}
use lightspeed_trading_clean.Bot.{Bot}
use lightspeed_trading_clean.Fleet.{
  Fleet, User, Query, read_cpyt, set_bot_activity, get_monitor, get_bot_hash, reduced,
  check_and_reduce_cpyt_balance, webhook_count, read_record_cpyt,
}
use lightspeed_trading_clean.Fleet.Create.{World, create_new_monitor, make_bot, new_empty_bot}
use lightspeed_trading_clean.Fleet.Start.{
  StartBotParam, Started, started, is_started, join_monitor, join_new, launch_or_wait, find_monitor,
  return_balance, reset_activity, take_balance, start_checked, start_with, start_bot,
  config_refusal,
}
use lightspeed_trading_clean.Fleet.Failed.{Reduced-cases, reset-ending}
use lightspeed_trading_clean.Fleet.Stopped.{CanRecover, activity-SameRest}
use lightspeed_trading_clean.Fleet.Started.{
  Sound, Runs, Asked-cases, create_new_monitor-Fresh, join_monitor-started,
}

module _ {F D : Type 0} where
  launch_or_wait-started :
      (w : World F D) (req : StartBotParam) (config : BotConfig D) (bot : Bot D) (fleet : Fleet F D)
      (in_handler : Bool) (n : ℕ) (e : Bool)
      → (launch_or_wait w req config bot fleet in_handler).ending ≡ started n e
      → Runs req.trader_uid
          (get_bot_hash bot.user_id bot.bot_id)
          bot.initial_balance
          n
          (launch_or_wait w req config bot fleet in_handler).fleet
        × ((launch_or_wait w req config bot fleet in_handler).fleet.users ≡ fleet.users)
  unfolding launch_or_wait join_new webhook_count
  launch_or_wait-started w req config bot fleet true n e h = absurd (ground (arith, h))
  launch_or_wait-started w req config bot fleet false n e h =
      let available = (create_new_monitor w req.trader_uid fleet.available).1 in
      let less : Fleet F D = record fleet { available = available } in
      elim (Asked-cases (create_new_monitor w req.trader_uid fleet.available).0) [
        | inr (inl (err, a)) ↦ absurd (ground (arith, a, h))
        | inr (inr a) ↦ absurd (ground (arith, a, h))
        | inl (mon, a) ↦
            let (group, rest, next, (uid, proxies, clients, bots, hooks), left) =
              create_new_monitor-Fresh w req.trader_uid fleet.available mon a in
            let can : CanRecover mon = inl (rw hooks refl) in
            let h' : (join_monitor w req config bot false mon less).ending ≡ started n e =
              ground (arith, a, h) in
            rw (a, join_new) (join_monitor-started w req config bot false mon less n e uid can h')
      ]

  find_monitor-started :
      (w : World F D) (req : StartBotParam) (config : BotConfig D) (bot : Bot D) (fleet : Fleet F D)
      (n : ℕ) (e : Bool)
      → Sound req.trader_uid fleet
      → (find_monitor w req config bot fleet).ending ≡ started n e
      → Runs req.trader_uid
          (get_bot_hash bot.user_id bot.bot_id)
          bot.initial_balance
          n
          (find_monitor w req config bot fleet).fleet
        × ((find_monitor w req config bot fleet).fleet.users ≡ fleet.users)
  unfolding find_monitor
  find_monitor-started w req config bot fleet n e sound h =
      elim (Option-cases (get_monitor req.trader_uid fleet)) [
        | inr (mon, g) ↦
            let known : (mon.uid ≡ req.trader_uid) × CanRecover mon = rw (g, Sound) at sound in
            let h' : (join_monitor w req config bot true mon fleet).ending ≡ started n e =
              ground (arith, g, h) in
            rw (g, find_monitor)
              (join_monitor-started w req config bot true mon fleet n e known.0 known.1 h')
        | inl g ↦
            let h' : (launch_or_wait w req config bot fleet w.in_handler).ending ≡ started n e =
              ground (arith, g, h) in
            rw (g, find_monitor) (launch_or_wait-started w req config bot fleet w.in_handler n e h')
      ]

module _ {F D : Type 0} ⦃dec : DecimalOps D⦄ where
  -- A user had a balance to spare, and has that much less left; other users' rows are as they were.
  abbrev pub Reserved : String → D → Fleet F D → Fleet F D → String → Type 0
  Reserved user_id bal f g j =
      (u : User D) × (lookup user_id f.users ≡ some u)
      × (dec.ltb u.remaining_cpyt_bal bal ≡ false)
      × (lookup j g.users ≡ (
          if user_id == j
          then some (record u { remaining_cpyt_bal = dec.sub u.remaining_cpyt_bal bal })
          else lookup j f.users))

  reduced-Reserved :
      (fails : Query → Bool) (user_id j : String) (bal : D) (fleet less : Fleet F D)
      → check_and_reduce_cpyt_balance fails user_id bal fleet ≡ reduced less
      → Reserved user_id bal fleet less j
  unfolding check_and_reduce_cpyt_balance
  reduced-Reserved fails user_id j bal fleet less e =
      elim (Option-cases (lookup user_id fleet.users)) [
        | inl n ↦ absurd (ground (arith, n, e))
        | inr (u, n) ↦ (elim (Bool-cases (dec.ltb u.remaining_cpyt_bal bal)) [
          | inl low ↦ absurd (ground (arith, n, low, e))
          | inr ok ↦
              let lower = record u { remaining_cpyt_bal = dec.sub u.remaining_cpyt_bal bal } in
              let written : insert user_id lower fleet.users ≡ less.users =
                ground (arith, n, ok, e) in
              (u, n, ok, rw (← written) (lookup-insert user_id j lower fleet.users))
        ])
      ]

  reduced-mons :
      (fails : Query → Bool) (user_id : String) (bal : D) (fleet less : Fleet F D)
      → check_and_reduce_cpyt_balance fails user_id bal fleet ≡ reduced less
      → less.running_mons ≡ fleet.running_mons
  unfolding check_and_reduce_cpyt_balance
  reduced-mons fails user_id bal fleet less e = elim (Option-cases (lookup user_id fleet.users)) [
    | inl n ↦ absurd (ground (arith, n, e))
    | inr (u, n) ↦ ground (arith, n, e)
  ]

  kept-started :
      (w : World F D) (req : StartBotParam) (bal : D) (found : Started F D) (n : ℕ) (e : Bool)
      → (reset_activity w req (return_balance w req bal found)).ending ≡ started n e
      → (found.ending ≡ started n e)
        × ((reset_activity w req (return_balance w req bal found)).fleet ≡ found.fleet)
  unfolding reset_activity return_balance
  kept-started w req bal found n e h =
      let end : found.ending ≡ started n e = sym (reset-ending w req bal found) ∙ h in
      let yes : is_started found.ending ≡ true = ap is_started end in
      (end, rw (yes, return_balance, yes, reset_activity) refl)

  take_balance-started :
      (w : World F D) (req : StartBotParam) (config : BotConfig D) (bot : Bot D) (fleet : Fleet F D)
      (n : ℕ) (e : Bool) (j : String)
      → Sound req.trader_uid fleet
      → (take_balance none w req config bot fleet).ending ≡ started n e
      → Runs req.trader_uid
          (get_bot_hash bot.user_id bot.bot_id)
          bot.initial_balance
          n
          (take_balance none w req config bot fleet).fleet
        × Reserved req.user_id bot.initial_balance fleet
            (take_balance none w req config bot fleet).fleet
            j
  unfolding take_balance get_monitor
  take_balance-started w req config bot fleet n e j sound h =
      elim (Reduced-cases
        (check_and_reduce_cpyt_balance w.fails req.user_id bot.initial_balance fleet)) [
          | inl (less, r) ↦
              let found = find_monitor w req config bot less in
              let (end, same) =
                kept-started w req bot.initial_balance found n e (rw (r, take_balance) at h) in
              let still : Sound req.trader_uid less =
                rw (reduced-mons w.fails req.user_id bot.initial_balance fleet less r) sound in
              let (running, users) = find_monitor-started w req config bot less n e still end in
              rw (r, take_balance, same)
                (
                  running,
                  rw users
                      (reduced-Reserved w.fails req.user_id j bot.initial_balance fleet less r),
                )
          | inr (inl (d, r)) ↦ absurd (ground (arith, r, h))
          | inr (inr r) ↦ absurd (ground (arith, r, h))
        ]

  make_bot-started :
      (w : World F D) (req : StartBotParam) (bot : Bot D)
      → make_bot w.exc w.balance_err w.now req.user_id req.bot_id req.exchange ≡ inl bot
      → (w.exc.get_usdt_balance ≡ some bot.initial_balance)
        × (bot.user_id ≡ req.user_id)
        × (bot.bot_id ≡ req.bot_id)
  unfolding make_bot new_empty_bot
  make_bot-started w req bot e = elim (Option-cases w.exc.get_usdt_balance) [
    | inl n ↦ absurd (ground (arith, n, e))
    | inr (bal, n) ↦ ground (arith, n, e)
  ]

  -- A started bot: what the exchange says is its balance, and it runs and has reserved that balance.
  abbrev pub StartedBot : World F D → StartBotParam → ℕ → Fleet F D → Fleet F D → String → Type 0
  StartedBot w req n f g j =
      (bal : D) × (w.exc.get_usdt_balance ≡ some bal)
      × Runs req.trader_uid (get_bot_hash req.user_id req.bot_id) bal n g
      × Reserved req.user_id bal f g j

  start_checked-started :
      (w : World F D) (req : StartBotParam) (config : BotConfig D) (fleet : Fleet F D) (n : ℕ)
      (e : Bool) (j : String)
      → Sound req.trader_uid fleet
      → (start_checked none w req config fleet).ending ≡ started n e
      → StartedBot w req n fleet (start_checked none w req config fleet).fleet j
  unfolding start_checked get_monitor
  start_checked-started w req config fleet n e j sound h =
      let busy = set_bot_activity w.fails req.user_id req.bot_id starting fleet in
      let (mons, users) = activity-SameRest w.fails req.user_id req.bot_id starting fleet in
      let still : Sound req.trader_uid busy = rw mons sound in
      elim (Sum-cases (make_bot w.exc w.balance_err w.now req.user_id req.bot_id req.exchange)) [
        | inr (is_server, m) ↦ absurd (ground (arith, m, h))
        | inl (bot, m) ↦
            let (balance, user, id) = make_bot-started w req bot m in
            let key : get_bot_hash bot.user_id bot.bot_id ≡ get_bot_hash req.user_id req.bot_id =
              rw (user, id) refl in
            let (running, (u, had, enough, rows)) =
              take_balance-started w req config bot busy n e j still (rw (m, start_checked) at h) in
            rw (m, start_checked)
              (
                bot.initial_balance,
                balance,
                rw key at running,
                (
                  u,
                  ap (lookup req.user_id) (sym users) ∙ had,
                  enough,
                  rows
                      ∙ ap
                          (λ (d : Dict String (User D)).
                            if req.user_id == j
                            then some (record u {
                              remaining_cpyt_bal = dec.sub u.remaining_cpyt_bal bot.initial_balance;
                            })
                            else lookup j d)
                          users,
                ),
              )
      ]

  -- Where startBot without the correction of balances starts a bot, the bot runs on its trader's monitor, which
  -- has the number of bots that postBotLaunch is told, its user had the bot's balance to spare and has that
  -- much less left, and no other user's row changed; this holds where a monitor of the trader that runs
  -- already has the trader's uid and can give its proxies back.
  pub start_bot-StartedBot :
      (w : World F D) (req : StartBotParam) (fleet : Fleet F D) (n : ℕ) (e : Bool) (j : String)
      → Sound req.trader_uid fleet
      → (start_bot false w req fleet).ending ≡ started n e
      → StartedBot w req n fleet (start_bot false w req fleet).fleet j
  unfolding start_bot start_with
  start_bot-StartedBot w req fleet n e j sound h = elim (Bool-cases (w.fails read_cpyt)) [
    | inl f ↦ absurd (ground (arith, f, h))
    | inr f ↦ (elim (Option-cases (read_record_cpyt req.user_id req.bot_id fleet.configs)) [
      | inl r ↦ absurd (ground (arith, f, r, h))
      | inr (config, r) ↦ (elim (Option-cases (config_refusal config)) [
        | inr (err, c) ↦ absurd (ground (arith, f, r, c, h))
        | inl c ↦
            let same : start_bot false w req fleet ≡ start_checked none w req config fleet =
              ground (arith, f, r, c) in
            rw same (start_checked-started w req config fleet n e j sound (rw same at h))
      ])
    ])
  ]
