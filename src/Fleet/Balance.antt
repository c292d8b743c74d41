-- ===== src/Fleet/Balance.antt =====
-- botStartup.go, fixCopyTradingBalance: what a user's remaining balance should be, from the balances of the
-- bots that run. Maps are walked in the order of their entries.
use lightspeed_trading_clean.Base.{
  String, Bool, true, false, Option, none, some, List, [], ◌∷◌, ◌++◌, ◌==◌, string_eq,
  if◌then◌else◌, not,
}
use lightspeed_trading_clean.Base.Int.{pos}
use lightspeed_trading_clean.Base.Dict.{Dict, lookup, insert}
use lightspeed_trading_clean.Numbers.{DecimalOps}
use lightspeed_trading_clean.Config.{BotConfig, BotStatus, active}
use lightspeed_trading_clean.Fleet.{
  Fleet, Monitor, Query, read_all_cpyt, read_users, read_plan, write_remaining, get_bot,
  get_monitor, get_bot_hash,
}

-- `bot.BotStatus != db.BotActive`, negated.
unfoldable pub is_active : BotStatus → Bool
is_active active = true
is_active _ = false

module _ {D : Type 0} where
  -- `ReadAllRecordsCPYT`: the rows of a user.
  unfoldable pub read_all_records_cpyt : String → List (BotConfig D) → List (BotConfig D)
  read_all_records_cpyt user_id [] = []
  read_all_records_cpyt user_id (c ∷ cs) =
      if c.user_id == user_id
      then c ∷ read_all_records_cpyt user_id cs
      else read_all_records_cpyt user_id cs

  -- The loop that fills botLoc: the hashes of the active bots of each trader.
  unfoldable pub locate : List (BotConfig D) → Dict String (List String) → Dict String (List String)
  unfolding is_active
  locate [] bot_loc = bot_loc
  locate (c ∷ cs) bot_loc = locate cs (
      if not (is_active c.bot_status) then bot_loc else (elim (lookup c.binance_id bot_loc) [
        | none ↦ insert c.binance_id (get_bot_hash c.user_id c.bot_id ∷ []) bot_loc
        | some hashes ↦ insert c.binance_id (hashes ++ get_bot_hash c.user_id c.bot_id ∷ []) bot_loc
      ]))

module _ {F D : Type 0} where
  -- The inner loop: the balances of some bots of a monitor; `none` is "no bot on uid".
  unfoldable pub collect_bots : Monitor F D → List String → Dict String D → Option (Dict String D)
  collect_bots mon [] data_ = some data_
  collect_bots mon (h ∷ hs) data_ = elim (get_bot h mon) [
    | none ↦ none
    | some bot ↦ collect_bots mon hs (insert h bot.initial_balance data_)
  ]

  -- The loop that fills balanceData; `none` is also "no monitor for uid".
  unfoldable pub collect_balances :
      Fleet F D → Dict String (List String) → Dict String D → Option (Dict String D)
  collect_balances fleet [] data_ = some data_
  collect_balances fleet ((uid, hs) ∷ rest) data_ = elim (get_monitor uid fleet) [
    | none ↦ none
    | some mon ↦ (elim (collect_bots mon hs data_) [
      | none ↦ none
      | some more ↦ collect_balances fleet rest more
    ])
  ]

module _ {D : Type 0} ⦃dec : DecimalOps D⦄ where
  -- activeTotal, from a total on.
  unfoldable pub active_total : D → Dict String D → D
  active_total total [] = total
  active_total total ((h, bal) ∷ rest) = active_total (dec.add total bal) rest

-- What fixCopyTradingBalance does; Div panics where the remaining balance is zero.
pub data Fixed (F D : Type 0) : Type 0 where
  fixed : Fleet F D → Fixed F D
  fix_failed : Fixed F D
  fix_panicked : Fixed F D

module _ {F D : Type 0} ⦃dec : DecimalOps D⦄ where
  -- The comparison of the balances, and the write.
  unfoldable pub correct_remaining : (Query → Bool) → String → D → D → Fleet F D → Fixed F D
  correct_remaining fails user_id max_bal total fleet = elim (lookup user_id fleet.users) [
    | none ↦ fix_failed
    | some u ↦
        let correct = dec.sub max_bal total in
        let proportion = dec.div (dec.sub u.remaining_cpyt_bal correct) u.remaining_cpyt_bal in
        let per_mille = dec.div (dec.from_int (pos 1)) (dec.from_int (pos 1000)) in
        if dec.eqb u.remaining_cpyt_bal (dec.from_int (pos 0))
        then fix_panicked
        else if dec.ltb per_mille (dec.abs proportion)
        then if fails write_remaining
          then fix_failed
          else fixed (record fleet {
            users = insert user_id (record u { remaining_cpyt_bal = correct }) fleet.users;
          })
        else fixed fleet
  ]

  -- `fixCopyTradingBalance`.
  unfoldable pub fix_copy_trading_balance : (Query → Bool) → String → Fleet F D → Fixed F D
  unfolding read_all_records_cpyt locate collect_balances active_total correct_remaining
  fix_copy_trading_balance fails user_id fleet =
      if fails read_all_cpyt
      then fix_failed
      else if fails read_users
      then fix_failed
      else (elim (lookup user_id fleet.users) [
        | none ↦ fix_failed
        | some u ↦
            (if fails read_plan then fix_failed else (elim (lookup u.plan fleet.max_ct_balance) [
              | none ↦ fix_failed
              | some max_bal ↦
                  (elim (collect_balances fleet
                    (locate (read_all_records_cpyt user_id fleet.configs) []) []) [
                      | none ↦ fix_failed
                      | some balances ↦
                          correct_remaining fails user_id max_bal
                            (active_total (dec.from_int (pos 0)) balances) fleet
                    ])
            ]))
      ])
