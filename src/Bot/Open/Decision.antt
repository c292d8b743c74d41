-- ===== src/Bot/Open/Decision.antt =====
-- What openPosition orders.
use lightspeed_trading_clean.Base.{
  ℕ, ◌+◌, ◌-◌, ◌≡◌, refl, ◌⊎◌, inl, inr, true, false, none, some, List, [], ◌∷◌, string_eq, arith,
  keep, keep-append, append-nil_lem, is_some, Option-cases,
}
use lightspeed_trading_clean.Base.Int.{pos_part, neg_part, pos}
use lightspeed_trading_clean.Numbers.{FloatOps, Conversions, DecimalOps}
use lightspeed_trading_clean.Config.{BotConfig}
use lightspeed_trading_clean.Bot.{
  Bot, Symbol, OpenUpdate, OrderRes, ExchangeClient, Event, order, is_order, error_notif, log_line,
  opened_ping, log_success, log_max_leverage, set_leverage, no_position_data, panicked, Refusal,
}
use lightspeed_trading_clean.Bot.Quantity.{get_tpsl}
use lightspeed_trading_clean.Bot.Open.{
  our_side, open_leverage, open_qty, early_refusal, open_refusal, open_panic, send_open,
  open_position, after_orders,
}
use lightspeed_trading_clean.Bot.Open.Checks.{
  MayAsk, MayOpen, Divisible, Indivisible, open_refusal-MayOpen, MayAsk-early_refusal,
  open_panic-Indivisible, open_panic-Divisible,
}

module _ {F D : Type 0} ⦃fl : FloatOps F⦄ ⦃conv : Conversions F D⦄ ⦃dec : DecimalOps D⦄ where
  orders-after_orders :
      (bot : Bot D) (upd : OpenUpdate F D) (config : BotConfig D) (exc : ExchangeClient D)
      (after : ℕ) (before : List (Event D)) (results : List (OrderRes D))
      → keep is_order (after_orders bot upd config exc after before results).events
        ≡ keep is_order before
  unfolding after_orders
  orders-after_orders bot upd config exc after before results =
      let at = exc.get_my_position upd.upd.symbol in
      let delay = dec.int_part (dec.mul config.add_delay (dec.from_int (pos 100))) in
      let until = after + pos_part delay - neg_part delay in
      elim (Option-cases at) [
        | inl e ↦ ground (
          arith,
          e,
          keep-append is_order before
              (error_notif no_position_data ∷ log_line no_position_data ∷ []),
          append-nil_lem (keep is_order before),
        )
        | inr (got, e) ↦ ground (
          arith,
          e,
          keep-append is_order before
              (opened_ping (record got { ignore_adds_until = until }) ∷ log_success ∷ []),
          append-nil_lem (keep is_order before),
        )
      ]

  -- The order that openPosition places.
  abbrev pub open_order : Bot D → OpenUpdate F D → BotConfig D → Symbol D → Event D
  open_order bot upd config data_ =
      let side = our_side config upd.upd.side in
      let tpsl = get_tpsl data_ side (upd.symbol_prices bot.exchange).market config in
      order upd.upd.symbol side (open_qty bot upd config data_) false tpsl.tp tpsl.sl

  orders-send_open :
      (bot : Bot D) (upd : OpenUpdate F D) (config : BotConfig D) (data_ : Symbol D)
      (exc : ExchangeClient D) (after : ℕ)
      → keep is_order (send_open bot upd config data_ exc after).events
        ≡ (elim (exc.set_leverage upd.upd.symbol (open_leverage config data_) true) [
          | none ↦ open_order bot upd config data_ ∷ []
          | some e ↦ []
        ])
  unfolding send_open
  orders-send_open bot upd config data_ exc after = ground (
    arith,
    orders-after_orders bot upd config exc after
        (log_max_leverage
          ∷ set_leverage upd.upd.symbol (open_leverage config data_)
          ∷ open_order bot upd config data_
          ∷ [])
        (exc.place_order upd.upd.symbol (our_side config upd.upd.side)
          (open_qty bot upd config data_) false
          (get_tpsl data_ (our_side config upd.upd.side) (upd.symbol_prices bot.exchange).market
            config).tp
          (get_tpsl data_ (our_side config upd.upd.side) (upd.symbol_prices bot.exchange).market
            config).sl),
    orders-after_orders bot upd config exc after
        (set_leverage upd.upd.symbol (open_leverage config data_)
          ∷ open_order bot upd config data_
          ∷ [])
        (exc.place_order upd.upd.symbol (our_side config upd.upd.side)
          (open_qty bot upd config data_) false
          (get_tpsl data_ (our_side config upd.upd.side) (upd.symbol_prices bot.exchange).market
            config).tp
          (get_tpsl data_ (our_side config upd.upd.side) (upd.symbol_prices bot.exchange).market
            config).sl),
  )

  -- The outcomes of openPosition: the order, a panic, or neither.
  abbrev pub OpenOrders :
      Bot D → OpenUpdate F D → BotConfig D → Symbol D → ExchangeClient D → ℕ → ℕ → Type 0
  OpenOrders bot upd config data_ exc now after =
      let out = open_position bot upd (some config) data_ exc now after in
      (MayOpen bot upd config data_ now
        × Divisible bot upd config data_
        × (exc.set_leverage upd.upd.symbol (open_leverage config data_) true ≡ none)
        × (keep is_order out.events ≡ open_order bot upd config data_ ∷ []))
      ⊎ (MayAsk bot upd config now
          × Indivisible bot upd config data_
          × (out.ending ≡ panicked)
          × (keep is_order out.events ≡ [])
          × (out.bot ≡ bot))
      ⊎ (((¬ MayAsk bot upd config now)
            ⊎ ((dec.eqb (upd.symbol_prices bot.exchange).market (dec.from_int (pos 0)) ≡ false)
                × ((dec.ltb (open_qty bot upd config data_) data_.min_qty ≡ true)
                    ⊎ (is_some (exc.set_leverage upd.upd.symbol (open_leverage config data_) true)
                        ≡ true))))
          × (keep is_order out.events ≡ []))

  calm-priced :
      (bot : Bot D) (upd : OpenUpdate F D) (config : BotConfig D) (data_ : Symbol D)
      (exc : ExchangeClient D) (now : ℕ)
      → open_panic bot upd config data_ exc now ≡ none
      → early_refusal bot upd config now ≡ none
      → dec.eqb (upd.symbol_prices bot.exchange).market (dec.from_int (pos 0)) ≡ false
  unfolding open_panic
  calm-priced bot upd config data_ exc now calm n = ground (arith, n, calm)

  refused-orders :
      (bot : Bot D) (upd : OpenUpdate F D) (config : BotConfig D) (data_ : Symbol D)
      (exc : ExchangeClient D) (now : ℕ) (r : Refusal)
      → open_panic bot upd config data_ exc now ≡ none
      → open_refusal bot upd config data_ now ≡ some r
      → (¬ MayAsk bot upd config now)
        ⊎ ((dec.eqb (upd.symbol_prices bot.exchange).market (dec.from_int (pos 0)) ≡ false)
            × (dec.ltb (open_qty bot upd config data_) data_.min_qty ≡ true))
  unfolding open_refusal
  refused-orders bot upd config data_ exc now r calm e =
      elim (Option-cases (early_refusal bot upd config now)) [
        | inl n ↦ inr (calm-priced bot upd config data_ exc now calm n, ground (arith, n, e))
        | inr (r', n) ↦
            inl (λ m. absurd (ground (arith, n, MayAsk-early_refusal bot upd config now m)))
      ]

  unless_panic :
      (bot : Bot D) (upd : OpenUpdate F D) (config : BotConfig D) (data_ : Symbol D)
      (exc : ExchangeClient D) (now after : ℕ)
      → open_panic bot upd config data_ exc now ≡ none
      → OpenOrders bot upd config data_ exc now after
  unfolding open_position
  unless_panic bot upd config data_ exc now after calm =
      elim (Option-cases (open_refusal bot upd config data_ now)) [
        | inr (r, e) ↦
            let why = refused-orders bot upd config data_ exc now r calm e in
            inr (inr (ground (arith, why), rw (calm, e, open_position) refl))
        | inl e ↦
            let may = open_refusal-MayOpen bot upd config data_ now e in
            let orders = orders-send_open bot upd config data_ exc after in
            elim (Option-cases
              (exc.set_leverage upd.upd.symbol (open_leverage config data_) true)) [
                | inl l ↦ inl (
                  may,
                  open_panic-Divisible bot upd config data_ exc now calm may l,
                  l,
                  rw (calm, e, open_position) (ground (arith, l, orders)),
                )
                | inr (err, l) ↦ inr (
                    inr (
                      inr (
                        calm-priced bot upd config data_ exc now calm
                            (MayAsk-early_refusal bot upd config now may.asks),
                        inr (rw l refl),
                      ),
                      rw (calm, e, open_position) (ground (arith, l, orders)),
                    ))
              ]
      ]

  -- openPosition, with its settings at hand, has one of three outcomes. Every check passes, the exchange accepts
  -- the leverage and no number that it divides by is 0: it places exactly one order, of the computed quantity on
  -- the bot's side and not reduce-only. The checks before the quantity pass, but the market price is 0, or the price
  -- step of a limit is, or the quantity cannot be split into orders: it panics, places no order and leaves the bot
  -- as it is. A check before the quantity fails, or the market price is not 0 and the quantity is below the minimum or
  -- the leverage is refused: it places no order.
  pub orders-open_position :
      (bot : Bot D) (upd : OpenUpdate F D) (config : BotConfig D) (data_ : Symbol D)
      (exc : ExchangeClient D) (now after : ℕ)
      → OpenOrders bot upd config data_ exc now after
  unfolding open_position
  orders-open_position bot upd config data_ exc now after =
      elim (Option-cases (open_panic bot upd config data_ exc now)) [
        | inl calm ↦ unless_panic bot upd config data_ exc now after calm
        | inr (events, e) ↦
            let (asks, zero_, quiet) =
              open_panic-Indivisible bot upd config data_ exc now events e in
            inr (
              inl (
                asks,
                zero_,
                rw (e, open_position) refl,
                rw (e, open_position) quiet,
                rw (e, open_position) refl,
              ))
      ]
