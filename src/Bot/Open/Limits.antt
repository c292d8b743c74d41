-- ===== src/Bot/Open/Limits.antt =====
-- What openPosition does to the positions of a bot: the limit on their number, and what is stored.
use lightspeed_trading_clean.Base.{
  ℕ, ◌+◌, ◌-◌, ◌≤◌, ◌≡◌, refl, ◌⊎◌, inl, inr, true, false, Option, none, some, List, [], ◌∷◌,
  string_eq, arith, length, Option-cases, Bool-cases,
}
use lightspeed_trading_clean.Base.Int.{pos_part, neg_part, pos}
use lightspeed_trading_clean.Base.Dict.{insert, length-insert}
use lightspeed_trading_clean.Numbers.{FloatOps, Conversions, DecimalOps}
use lightspeed_trading_clean.Config.{BotConfig}
use lightspeed_trading_clean.Bot.{
  Bot, BotPosition, Symbol, OpenUpdate, OrderRes, ExchangeClient, BotError, Refusal, Event, Outcome,
  returned, panicked, make_error_list, no_position_data, no_trade, leverage_failed,
}
use lightspeed_trading_clean.Bot.Hash.{get_pos_hash}
use lightspeed_trading_clean.Bot.Open.{
  our_side, open_leverage, open_panic, open_refusal, send_open, open_position, after_orders,
  qty_ordered, failures,
}
use lightspeed_trading_clean.Bot.Open.Checks.{open_refusal-MayOpen}

module _ {D : Type 0} ⦃dec : DecimalOps D⦄ where
  -- The position that is stored: the exchange's, with the time until which adds are ignored.
  abbrev pub stored_position : BotConfig D → ℕ → BotPosition D → BotPosition D
  stored_position config after got =
      let delay = dec.int_part (dec.mul config.add_delay (dec.from_int (pos 100))) in
      record got { ignore_adds_until = after + pos_part delay - neg_part delay }

module _ {F D : Type 0} ⦃fl : FloatOps F⦄ ⦃conv : Conversions F D⦄ ⦃dec : DecimalOps D⦄ where
  -- What becomes of a bot: nothing, with the result false, or one more position, with the result true.
  abbrev pub Settled :
      Bot D → OpenUpdate F D → BotConfig D → ExchangeClient D → ℕ → Outcome D → Type 0
  Settled bot upd config exc after out =
      ((es : List (Option BotError)) × (out.ending ≡ returned false es) × (out.bot ≡ bot))
      ⊎ ((got : BotPosition D) × (es : List (Option BotError)) × (out.ending ≡ returned true es)
          × (exc.get_my_position upd.upd.symbol ≡ some got)
          × (out.bot ≡ record bot {
            positions =
                insert (get_pos_hash upd.upd.symbol (our_side config upd.upd.side))
                  (stored_position config after got) bot.positions;
          }))

  -- Or it is as before a panic.
  abbrev pub Stored :
      Bot D → OpenUpdate F D → BotConfig D → ExchangeClient D → ℕ → Outcome D → Type 0
  Stored bot upd config exc after out =
      Settled bot upd config exc after out ⊎ ((out.ending ≡ panicked) × (out.bot ≡ bot))

  after_orders-Settled :
      (bot : Bot D) (upd : OpenUpdate F D) (config : BotConfig D) (exc : ExchangeClient D)
      (after : ℕ) (before : List (Event D)) (results : List (OrderRes D))
      → Settled bot upd config exc after (after_orders bot upd config exc after before results)
  unfolding after_orders
  after_orders-Settled bot upd config exc after before results =
      elim (Bool-cases (fl.eqb (qty_ordered F results fl.zero) fl.zero)) [
        | inl e ↦ rw e (inl (failures results, refl, refl))
        | inr e ↦ elim (Option-cases (exc.get_my_position upd.upd.symbol)) [
          | inl n ↦ rw (e, n) (inl (some no_position_data ∷ [], refl, refl))
          | inr (got, g) ↦ rw (e, g) (inr (got, make_error_list results, refl, refl, refl))
        ]
      ]

  send_open-Settled :
      (bot : Bot D) (upd : OpenUpdate F D) (config : BotConfig D) (data_ : Symbol D)
      (exc : ExchangeClient D) (after : ℕ)
      → Settled bot upd config exc after (send_open bot upd config data_ exc after)
  unfolding send_open
  send_open-Settled bot upd config data_ exc after =
      elim (Option-cases (exc.set_leverage upd.upd.symbol (open_leverage config data_) true)) [
        | inr (m, e) ↦ rw (e, send_open) (inl (some leverage_failed ∷ [], refl, refl))
        | inl e ↦ rw (e, send_open) (after_orders-Settled bot upd config exc after _ _)
      ]

  pub open_position-Settled :
      (bot : Bot D) (upd : OpenUpdate F D) (config : BotConfig D) (data_ : Symbol D)
      (exc : ExchangeClient D) (now after : ℕ)
      → open_panic bot upd config data_ exc now ≡ none
      → Settled bot upd config exc after (open_position bot upd (some config) data_ exc now after)
  unfolding open_position
  open_position-Settled bot upd config data_ exc now after p =
      elim (Option-cases (open_refusal bot upd config data_ now)) [
        | inr (r, e) ↦ rw (p, e, open_position) (inl (some (no_trade r) ∷ [], refl, refl))
        | inl e ↦ rw (p, e, open_position) (send_open-Settled bot upd config data_ exc after)
      ]

  -- openPosition panics or reports that no order was submitted, and leaves the bot as it is, or reports that
  -- some were and stores, under the key of the symbol and the bot's side, the position that the exchange
  -- gives, with the time until which adds are ignored, and changes nothing else of the bot.
  pub open_position-Stored :
      (bot : Bot D) (upd : OpenUpdate F D) (config : BotConfig D) (data_ : Symbol D)
      (exc : ExchangeClient D) (now after : ℕ)
      → Stored bot upd config exc after (open_position bot upd (some config) data_ exc now after)
  unfolding open_position
  open_position-Stored bot upd config data_ exc now after =
      elim (Option-cases (open_panic bot upd config data_ exc now)) [
        | inr (events, p) ↦ inr (rw (p, open_position) refl, rw (p, open_position) refl)
        | inl p ↦ inl (open_position-Settled bot upd config data_ exc now after p)
      ]

  refused :
      (bot : Bot D) (upd : OpenUpdate F D) (config : BotConfig D) (data_ : Symbol D)
      (exc : ExchangeClient D) (now after : ℕ) (r : Refusal)
      → open_refusal bot upd config data_ now ≡ some r
      → (open_position bot upd (some config) data_ exc now after).bot ≡ bot
  unfolding open_position
  refused bot upd config data_ exc now after r e =
      elim (Option-cases (open_panic bot upd config data_ exc now)) [
        | inr (events, p) ↦ rw (p, open_position) refl
        | inl p ↦ rw (p, e, open_position) refl
      ]

  -- Where the settings limit the number of open positions and the bot has no more than the limit, it has
  -- no more than the limit after openPosition.
  pub length-open_position :
      (bot : Bot D) (upd : OpenUpdate F D) (config : BotConfig D) (data_ : Symbol D)
      (exc : ExchangeClient D) (now after m : ℕ)
      → config.max_open_positions ≡ pos m
      → length bot.positions ≤ m
      → length (open_position bot upd (some config) data_ exc now after).bot.positions ≤ m
  length-open_position bot upd config data_ exc now after m limit small =
      elim (Option-cases (open_refusal bot upd config data_ now)) [
        | inr (r, e) ↦ rw (refused bot upd config data_ exc now after r e) small
        | inl e ↦
            let may = open_refusal-MayOpen bot upd config data_ now e in
            elim (open_position-Stored bot upd config data_ exc now after) [
              | inl (inl (es, end, same)) ↦ rw same small
              | inr (end, same) ↦ rw same small
              | inl (inr (got, es, end, at, stored)) ↦ rw stored (
                  ground (
                    arith,
                    may.asks.free,
                    may.asks.room,
                    length-insert (get_pos_hash upd.upd.symbol (our_side config upd.upd.side))
                        (stored_position config after got) bot.positions,
                  ))
            ]
      ]
