-- ===== src/Fleet/Apart.antt =====
-- startBot and stopBot seen from another user.
use lightspeed_trading_clean.Base.{
  ℕ, String, ◌≡◌, refl, ◌⊎◌, inl, inr, Bool, true, false, Option, none, some, [], ◌==◌, string_eq,
  number_eq, arith, Bool-cases, Option-cases, Sum-cases, nat_beq, length,
}
use lightspeed_trading_clean.Base.Int.{pos}
use lightspeed_trading_clean.Base.Dict.{lookup, insert, erase, lookup-insert}
use lightspeed_trading_clean.Numbers.{DecimalOps}
use lightspeed_trading_clean.Config.{BotConfig, inactive, starting, stopping}
use lightspeed_trading_clean.Bot.{Bot}
use lightspeed_trading_clean.Monitor.{receive}
use lightspeed_trading_clean.Fleet.{
  Fleet, Monitor, Query, set_bot_activity, get_monitor, get_bot, get_bot_hash, give_back,
  check_and_reduce_cpyt_balance, too_low, read_cpyt, read_record_cpyt, remove_monitor,
  remove_bot_by_hash,
}
use lightspeed_trading_clean.Fleet.Create.{World, make_bot}
use lightspeed_trading_clean.Fleet.Balance.{
  read_all_records_cpyt, Fixed, fixed, fix_failed, fix_panicked, correct_remaining,
  fix_copy_trading_balance, collect_balances, locate, active_total,
}
use lightspeed_trading_clean.Fleet.Start.{
  StartBotParam, Started, find_monitor, return_balance, reset_activity, take_balance, start_checked,
  start_with, start_bot, config_refusal,
}
use lightspeed_trading_clean.Fleet.Stop.{recover_proxies, stop_bot}
use lightspeed_trading_clean.Fleet.Failed.{Reduced-cases}
use lightspeed_trading_clean.Fleet.Others.{
  Untouched, Untouched-trans, activity-Untouched, find_monitor-SameTables, SameTables-Untouched,
  give_back-Untouched, reduced-Untouched,
}

module _ {F D : Type 0} where
  Fixed-cases :
      (r : Fixed F D) → ((f : Fleet F D) × (r ≡ fixed f)) ⊎ (r ≡ fix_failed) ⊎ (r ≡ fix_panicked)
  Fixed-cases (fixed f) = inl (f, refl)
  Fixed-cases fix_failed = inr (inl refl)
  Fixed-cases fix_panicked = inr (inr refl)

module _ {F D : Type 0} where
  recover_proxies-SameTables :
      (uid : String) (mon : Monitor F D) (fleet g : Fleet F D)
      → recover_proxies uid mon fleet ≡ some g
      → (g.users ≡ fleet.users) × (g.configs ≡ fleet.configs)
  unfolding recover_proxies remove_monitor receive
  recover_proxies-SameTables uid mon fleet g e = ground (arith, e)

module _ {F D : Type 0} ⦃dec : DecimalOps D⦄ where
  correct-Untouched :
      (fails : Query → Bool) (user_id v : String) (max_bal total : D) (fleet f : Fleet F D)
      → (user_id == v) ≡ false
      → correct_remaining fails user_id max_bal total fleet ≡ fixed f
      → Untouched v fleet f
  unfolding correct_remaining
  correct-Untouched fails user_id v max_bal total fleet f h e =
      elim (Option-cases (lookup user_id fleet.users)) [
        | inl n ↦ absurd (ground (arith, n, e))
        | inr (u, n) ↦ ground (
          arith,
          n,
          e,
          h,
          lookup-insert user_id v (record u { remaining_cpyt_bal = dec.sub max_bal total })
              fleet.users,
        )
      ]

  fix-Untouched :
      (fails : Query → Bool) (user_id v : String) (fleet f : Fleet F D)
      → (user_id == v) ≡ false
      → fix_copy_trading_balance fails user_id fleet ≡ fixed f
      → Untouched v fleet f
  unfolding fix_copy_trading_balance
  fix-Untouched fails user_id v fleet f h e = elim (Option-cases (lookup user_id fleet.users)) [
    | inl n ↦ absurd (ground (arith, n, e))
    | inr (u, n) ↦ (elim (Option-cases (lookup u.plan fleet.max_ct_balance)) [
      | inl p ↦ absurd (ground (arith, n, p, e))
      | inr (max_bal, p) ↦
          (elim (Option-cases
            (collect_balances fleet (locate (read_all_records_cpyt user_id fleet.configs) []) [])) [
              | inl b ↦ absurd (ground (arith, n, p, b, e))
              | inr (balances, b) ↦
                  correct-Untouched fails user_id v max_bal
                    (active_total (dec.from_int (pos 0)) balances) fleet f h
                    (ground (arith, n, p, b, e))
            ])
    ])
  ]

  undo-Untouched :
      (w : World F D) (req : StartBotParam) (v : String) (bal : D) (found : Started F D)
      → (req.user_id == v) ≡ false
      → Untouched v found.fleet (reset_activity w req (return_balance w req bal found)).fleet
  unfolding reset_activity return_balance
  undo-Untouched w req v bal found h = ground (
    arith,
    activity-Untouched w.fails req.user_id v req.bot_id inactive found.fleet h,
    give_back-Untouched w.fails req.user_id v bal found.fleet h,
    activity-Untouched w.fails req.user_id v req.bot_id inactive
        (give_back w.fails req.user_id bal found.fleet) h,
  )

  -- What a second try of startBot does to the rows of another user.
  abbrev Retries : String → Option (Fleet F D → Started F D) → Type 0
  Retries v none = Unit {0}
  Retries v (some again) = (f : Fleet F D) → Untouched v f (again f).fleet

  low-Untouched :
      (retry : Option (Fleet F D → Started F D)) (w : World F D) (req : StartBotParam)
      (config : BotConfig D) (bot : Bot D) (fleet : Fleet F D) (v : String) (d : D)
      → (req.user_id == v) ≡ false
      → Retries v retry
      → check_and_reduce_cpyt_balance w.fails req.user_id bot.initial_balance fleet ≡ too_low d
      → Untouched v fleet (take_balance retry w req config bot fleet).fleet
  unfolding take_balance
  low-Untouched none w req config bot fleet v d h again e =
      rw (e, take_balance) (activity-Untouched w.fails req.user_id v req.bot_id inactive fleet h)
  low-Untouched (some retry) w req config bot fleet v d h again e =
      let idle = activity-Untouched w.fails req.user_id v req.bot_id inactive fleet h in
      elim (Fixed-cases (fix_copy_trading_balance w.fails req.user_id fleet)) [
        | inl (f, x) ↦
            let later = (retry f).fleet in
            rw (e, x, take_balance)
              (Untouched-trans v fleet later
                (set_bot_activity w.fails req.user_id req.bot_id inactive later)
                (Untouched-trans v fleet f later (fix-Untouched w.fails req.user_id v fleet f h x)
                  (again f))
                (activity-Untouched w.fails req.user_id v req.bot_id inactive later h))
        | inr (inl x) ↦ rw (e, x, take_balance) idle
        | inr (inr x) ↦ rw (e, x, take_balance) idle
      ]

  take_balance-Untouched :
      (retry : Option (Fleet F D → Started F D)) (w : World F D) (req : StartBotParam)
      (config : BotConfig D) (bot : Bot D) (fleet : Fleet F D) (v : String)
      → (req.user_id == v) ≡ false
      → Retries v retry
      → Untouched v fleet (take_balance retry w req config bot fleet).fleet
  unfolding take_balance
  take_balance-Untouched retry w req config bot fleet v h again =
      elim (Reduced-cases
        (check_and_reduce_cpyt_balance w.fails req.user_id bot.initial_balance fleet)) [
          | inl (less, e) ↦
              let found = find_monitor w req config bot less in
              let ended = reset_activity w req (return_balance w req bot.initial_balance found) in
              rw (e, take_balance)
                (Untouched-trans v fleet less ended.fleet
                  (reduced-Untouched w.fails req.user_id v bot.initial_balance fleet less h e)
                  (Untouched-trans v less found.fleet ended.fleet
                    (SameTables-Untouched v less found.fleet
                      (find_monitor-SameTables w req config bot less))
                    (undo-Untouched w req v bot.initial_balance found h)))
          | inr (inl (d, e)) ↦ low-Untouched retry w req config bot fleet v d h again e
          | inr (inr e) ↦
              rw (e, take_balance)
                (activity-Untouched w.fails req.user_id v req.bot_id inactive fleet h)
        ]

  start_checked-Untouched :
      (retry : Option (Fleet F D → Started F D)) (w : World F D) (req : StartBotParam)
      (config : BotConfig D) (fleet : Fleet F D) (v : String)
      → (req.user_id == v) ≡ false
      → Retries v retry
      → Untouched v fleet (start_checked retry w req config fleet).fleet
  unfolding start_checked
  start_checked-Untouched retry w req config fleet v h again =
      let busy = set_bot_activity w.fails req.user_id req.bot_id starting fleet in
      Untouched-trans v fleet busy (start_checked retry w req config fleet).fleet
        (activity-Untouched w.fails req.user_id v req.bot_id starting fleet h)
        (elim (Sum-cases (make_bot w.exc w.balance_err w.now req.user_id req.bot_id req.exchange)) [
          | inl (bot, m) ↦
              rw (m, start_checked) (take_balance-Untouched retry w req config bot busy v h again)
          | inr (is_server, m) ↦
              rw (m, start_checked)
                (activity-Untouched w.fails req.user_id v req.bot_id inactive busy h)
        ])

  start_with-Untouched :
      (retry : Option (Fleet F D → Started F D)) (w : World F D) (req : StartBotParam)
      (fleet : Fleet F D) (v : String)
      → (req.user_id == v) ≡ false
      → Retries v retry
      → Untouched v fleet (start_with retry w req fleet).fleet
  unfolding start_with
  start_with-Untouched retry w req fleet v h again = elim (Bool-cases (w.fails read_cpyt)) [
    | inl f ↦ rw (f, start_with) (refl, refl)
    | inr f ↦ (elim (Option-cases (read_record_cpyt req.user_id req.bot_id fleet.configs)) [
      | inl r ↦ rw (f, r, start_with) (refl, refl)
      | inr (config, r) ↦ (elim (Option-cases (config_refusal config)) [
        | inr (err, c) ↦ rw (f, r, c, start_with) (refl, refl)
        | inl c ↦
            rw (f, r, c, start_with) (start_checked-Untouched retry w req config fleet v h again)
      ])
    ])
  ]

  pub start_bot-Untouched :
      (correct : Bool) (w : World F D) (req : StartBotParam) (fleet : Fleet F D) (v : String)
      → (req.user_id == v) ≡ false
      → Untouched v fleet (start_bot correct w req fleet).fleet
  unfolding start_bot
  start_bot-Untouched false w req fleet v h = start_with-Untouched none w req fleet v h tt
  start_bot-Untouched true w req fleet v h =
      start_with-Untouched (some (start_with none w req)) w req fleet v h
        (λ f. start_with-Untouched none w req f v h tt)

  pub stop_bot-Untouched :
      (fails : Query → Bool) (user_id : String) (bot_id : ℕ) (uid : String) (fleet g : Fleet F D)
      (v : String)
      → (user_id == v) ≡ false
      → stop_bot fails user_id bot_id uid fleet ≡ some g
      → Untouched v fleet g
  unfolding stop_bot remove_bot_by_hash
  stop_bot-Untouched fails user_id bot_id uid fleet g v h e =
      let hash = get_bot_hash user_id bot_id in
      let busy = set_bot_activity fails user_id bot_id stopping fleet in
      let idle = set_bot_activity fails user_id bot_id inactive busy in
      let first = activity-Untouched fails user_id v bot_id stopping fleet h in
      let second =
        Untouched-trans v fleet busy idle first
          (activity-Untouched fails user_id v bot_id inactive busy h) in
      elim (Option-cases (get_monitor uid busy)) [
        | inl m ↦ let same : idle ≡ g = ground (arith, m, e) in rw (← same) second
        | inr (mon, m) ↦ (elim (Option-cases (get_bot hash mon)) [
          | inl b ↦ let same : idle ≡ g = ground (arith, m, b, e) in rw (← same) second
          | inr (bot, b) ↦
              let smaller = (remove_bot_by_hash hash mon).0 in
              let removed : Fleet F D = record busy {
                running_mons = insert uid smaller busy.running_mons;
              } in
              let stopped = set_bot_activity fails user_id bot_id inactive removed in
              let paid = give_back fails user_id bot.initial_balance stopped in
              let third : Untouched v fleet paid =
                Untouched-trans v fleet stopped paid
                  (Untouched-trans v fleet removed stopped first
                    (activity-Untouched fails user_id v bot_id inactive removed h))
                  (give_back-Untouched fails user_id v bot.initial_balance stopped h) in
              elim (Bool-cases (nat_beq (length (erase hash mon.bots)) 0)) [
                | inl z ↦
                    let back : recover_proxies uid smaller paid ≡ some g =
                      ground (arith, m, b, z, e) in
                    Untouched-trans v fleet paid g third (
                      SameTables-Untouched v paid g
                        (recover_proxies-SameTables uid smaller paid g back))
                | inr z ↦ let same : paid ≡ g = ground (arith, m, b, z, e) in rw (← same) third
              ]
        ])
      ]
