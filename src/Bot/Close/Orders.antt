-- ===== src/Bot/Close/Orders.antt =====
-- What closePosition orders and answers.
use text.Mathlib.TextEquality.{eq_iff}
use lightspeed_trading_clean.Base.{
  starts_with, ◌≡◌, refl, ◌↔◌, ◌⊎◌, inl, inr, Bool, true, false, none, some, List, [], ◌∷◌,
  string_eq, arith, keep, is_some, Bool-cases, if◌then◌else◌, All,
}
use lightspeed_trading_clean.Base.Dict.{lookup}
use lightspeed_trading_clean.Numbers.{DecimalOps}
use lightspeed_trading_clean.Update.{Update, switch_side}
use lightspeed_trading_clean.Config.{BotConfig}
use lightspeed_trading_clean.Bot.{
  Bot, BotPosition, OrderRes, ExchangeClient, is_order, Outcome, returned, make_error_list,
}
use lightspeed_trading_clean.Bot.Hash.{get_pos_hash}
use lightspeed_trading_clean.Bot.Ignore.{is_ignored, un_ignore}
use lightspeed_trading_clean.Bot.Open.{our_side}
use lightspeed_trading_clean.Bot.Close.{
  all_130125, after_close, close_refusal, close_position, close_order, position_at,
}

module _ {F D : Type 0} where
  -- closePosition goes on to trade with a position: the symbol is not ignored, the position is there or
  -- forced, and closes are allowed.
  pub record MayClose (bot : Bot D) (upd : Update F D) (force : Bool) (config : BotConfig D)
      : Type 0 where
    pub heeded : is_ignored bot upd.symbol ≡ false
    pub found :
        (force ≡ true)
        ⊎ (is_some (lookup (get_pos_hash upd.symbol (our_side config upd.side)) bot.positions)
            ≡ true)
    pub closes : config.mode_no_close ≡ false

module _ {D : Type 0} where
  -- The exchange filled an order, or had nothing left to reduce.
  abbrev pub Gone : OrderRes D → Type 0
  Gone r = (r.res_str ≡ "200") ⊎ (starts_with r.res_str "130125" ≡ true)

  -- The result of a close for the results of its orders.
  abbrev pub EndsWith : Outcome D → List (OrderRes D) → Type 0
  EndsWith out results =
      (All Gone results × (out.ending ≡ returned true (none ∷ [])))
      ⊎ ((¬ All Gone results) × (out.ending ≡ returned true (make_error_list results)))

  all_130125_iff : (rs : List (OrderRes D)) → (all_130125 rs ≡ true) ↔ All Gone rs
  unfolding all_130125
  all_130125_iff [] = (λ _. tt, λ _. refl)
  all_130125_iff (r ∷ rs) =
      ground (arith, all_130125_iff rs, eq_iff r.res_str "200", starts_with r.res_str "130125")

module _ {F D : Type 0} ⦃dec : DecimalOps D⦄ where
  pub sent :
      (bot : Bot D) (upd : Update F D) (force : Bool) (config : BotConfig D)
      (exc : ExchangeClient D) (p : BotPosition D)
      → MayClose bot upd force config
      → p ≡ position_at (lookup (get_pos_hash upd.symbol (our_side config upd.side)) bot.positions)
      → close_position bot upd force (some config) exc
        ≡ after_close bot p
            (close_order p ∷ [])
            (exc.place_order p.symbol (switch_side p.side) p.qty true none none)
  unfolding close_position close_refusal
  sent bot upd force config exc p may e = ground (arith, e, may.heeded, may.found, may.closes)

  -- The two outcomes of closePosition: the order, or none.
  abbrev pub CloseOrders : Bot D → Update F D → Bool → BotConfig D → ExchangeClient D → Type 0
  CloseOrders bot upd force config exc =
      (MayClose bot upd force config
        × (keep is_order (close_position bot upd force (some config) exc).events
            ≡ close_order (
                position_at
                  (lookup (get_pos_hash upd.symbol (our_side config upd.side)) bot.positions))
              ∷ [])
        × ((close_position bot upd force (some config) exc).bot ≡ bot))
      ⊎ ((¬ MayClose bot upd force config)
          × (keep is_order (close_position bot upd force (some config) exc).events ≡ [])
          × ((close_position bot upd force (some config) exc).bot
              ≡ (if is_ignored bot upd.symbol then un_ignore bot upd.symbol else bot)))

  -- A close that is sent returns true if the exchange gives a result: with the one error nil where every
  -- order went through or had nothing left to reduce, and otherwise with an entry for each order, nil
  -- where it went through.
  pub close_position-ending :
      (bot : Bot D) (upd : Update F D) (force : Bool) (config : BotConfig D)
      (exc : ExchangeClient D) (p : BotPosition D) (r : OrderRes D) (rs : List (OrderRes D))
      → MayClose bot upd force config
      → p ≡ position_at (lookup (get_pos_hash upd.symbol (our_side config upd.side)) bot.positions)
      → exc.place_order p.symbol (switch_side p.side) p.qty true none none ≡ r ∷ rs
      → EndsWith (close_position bot upd force (some config) exc) (r ∷ rs)
  unfolding after_close
  close_position-ending bot upd force config exc p r rs may e answer =
      rw (sent bot upd force config exc p may e, answer, after_close)
        (elim (Bool-cases (all_130125 (r ∷ rs))) [
          | inl b ↦ rw b (inl ((all_130125_iff (r ∷ rs)).0 b, refl))
          | inr b ↦
              rw b (inr (λ h. absurd (ground (arith, b, (all_130125_iff (r ∷ rs)).1 h)), refl))
        ])
