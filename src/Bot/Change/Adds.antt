-- ===== src/Bot/Change/Adds.antt =====
-- The checks of an increase, and the orders of the two kinds of change.
use lightspeed_trading_clean.Base.{
  ℕ, ◌≤◌, String, ◌≡◌, refl, ◌⊎◌, inl, inr, Bool, true, false, none, some, List, [], ◌∷◌, string_eq,
  arith, keep, keep-append, append-nil_lem, Option-cases,
}
use lightspeed_trading_clean.Base.Int.{pos}
use lightspeed_trading_clean.Numbers.{DecimalOps}
use lightspeed_trading_clean.Config.{BotConfig, minus_one, is_setting_enabled}
use lightspeed_trading_clean.Bot.{
  Bot, BotPosition, Symbol, OrderRes, ExchangeClient, Event, is_order, error_notif, log_success,
  added_ping, reduced_ping, no_position_data,
}
use lightspeed_trading_clean.Bot.Open.Checks.{IsOff}
use lightspeed_trading_clean.Bot.Quantity.{tpsl_panics, bulk_panics}
use lightspeed_trading_clean.Bot.Change.{
  price_above_entry, add_refusal, add_panics, add_order_panics, add_order, reduce_order,
  after_change, increase, decrease,
}

module _ {D : Type 0} ⦃dec : DecimalOps D⦄ where
  -- An increase passes the checks of its time, its price and its size.
  pub record MayAdd (bot : Bot D) (p : BotPosition D) (config : BotConfig D) (side : String)
      (price order_qty : D) (now : ℕ) : Type 0 where
    pub late_enough : p.ignore_adds_until ≤ now
    pub far_enough :
        IsOff config.add_prevention_percent
        ⊎ (dec.ltb
              (dec.abs (dec.mul (dec.div (dec.sub price p.entry) price) (dec.from_int (pos 100))))
              config.add_prevention_percent
            ≡ false)
    pub below_entry :
        (config.block_adds_above_entry ≡ false) ⊎ (price_above_entry side price p.entry ≡ false)
    pub small_enough :
        IsOff config.one_coin_max_percent
        ⊎ (dec.ltb
              (dec.div
                (dec.mul bot.initial_balance config.one_coin_max_percent)
                (dec.from_int (pos 100)))
              (dec.div (dec.mul (dec.add order_qty p.qty) price) p.leverage)
            ≡ false)

  pub add_refusal-MayAdd :
      (bot : Bot D) (p : BotPosition D) (config : BotConfig D) (side : String) (price order_qty : D)
      (now : ℕ)
      → add_refusal bot p config side price order_qty now ≡ none
      → MayAdd bot p config side price order_qty now
  unfolding add_refusal is_setting_enabled
  add_refusal-MayAdd bot p config side price order_qty now e = record {
    late_enough = ground arith;
    far_enough = ground arith;
    below_entry = ground arith;
    small_enough = ground arith;
  }

  pub MayAdd-add_refusal :
      (bot : Bot D) (p : BotPosition D) (config : BotConfig D) (side : String) (price order_qty : D)
      (now : ℕ)
      → MayAdd bot p config side price order_qty now
      → add_refusal bot p config side price order_qty now ≡ none
  unfolding add_refusal is_setting_enabled
  MayAdd-add_refusal bot p config side price order_qty now m =
      ground (arith, m.late_enough, m.far_enough, m.below_entry, m.small_enough)

  -- The numbers that an increase divides by are not 0, and its quantity can be split into orders.
  pub record DivisibleAdd (p : BotPosition D) (config : BotConfig D) (data_ : Symbol D)
      (price order_qty : D) : Type 0 where
    pub priced :
        IsOff config.add_prevention_percent ⊎ (dec.eqb price (dec.from_int (pos 0)) ≡ false)
    pub leveraged :
        IsOff config.one_coin_max_percent ⊎ (dec.eqb p.leverage (dec.from_int (pos 0)) ≡ false)
    pub grows : dec.eqb (dec.add p.qty order_qty) (dec.from_int (pos 0)) ≡ false
    pub stepped :
        (IsOff config.auto_tp × IsOff config.auto_sl)
        ⊎ (dec.eqb data_.price_step (dec.from_int (pos 0)) ≡ false)
    pub split : bulk_panics data_ order_qty ≡ false

  -- One of the numbers that an increase divides by is 0, or its quantity cannot be split.
  abbrev pub IndivisibleAdd : BotPosition D → BotConfig D → Symbol D → D → D → Type 0
  IndivisibleAdd p config data_ price order_qty =
      ((dec.eqb config.add_prevention_percent minus_one ≡ false)
        × (dec.eqb price (dec.from_int (pos 0)) ≡ true))
      ⊎ ((dec.eqb config.one_coin_max_percent minus_one ≡ false)
          × (dec.eqb p.leverage (dec.from_int (pos 0)) ≡ true))
      ⊎ (dec.eqb (dec.add p.qty order_qty) (dec.from_int (pos 0)) ≡ true)
      ⊎ (((dec.eqb config.auto_tp minus_one ≡ false) ⊎ (dec.eqb config.auto_sl minus_one ≡ false))
          × (dec.eqb data_.price_step (dec.from_int (pos 0)) ≡ true))
      ⊎ (bulk_panics data_ order_qty ≡ true)

  pub add_panics-Divisible :
      (bot : Bot D) (p : BotPosition D) (config : BotConfig D) (data_ : Symbol D) (side : String)
      (price order_qty : D) (now : ℕ)
      → add_refusal bot p config side price order_qty now ≡ none
      → add_panics p config side price now ≡ false
      → add_order_panics p config data_ order_qty ≡ false
      → DivisibleAdd p config data_ price order_qty
  unfolding add_refusal add_panics add_order_panics tpsl_panics is_setting_enabled
  add_panics-Divisible bot p config data_ side price order_qty now e calm order = record {
    priced = ground (arith, e, calm);
    leveraged = ground (arith, e, calm);
    grows = ground (arith, order);
    stepped = ground (arith, order);
    split = ground (arith, order);
  }

  pub panics-Indivisible :
      (p : BotPosition D) (config : BotConfig D) (data_ : Symbol D) (side : String)
      (price order_qty : D) (now : ℕ)
      → (add_panics p config side price now ≡ true)
        ⊎ (add_order_panics p config data_ order_qty ≡ true)
      → IndivisibleAdd p config data_ price order_qty
  unfolding add_panics add_order_panics tpsl_panics is_setting_enabled
  panics-Indivisible p config data_ side price order_qty now (inl e) = ground (arith, e)
  panics-Indivisible p config data_ side price order_qty now (inr e) = ground (arith, e)

  orders-after_change :
      (bot : Bot D) (p : BotPosition D) (symbol key : String) (is_increase : Bool)
      (exc : ExchangeClient D) (before : List (Event D)) (results : List (OrderRes D))
      → keep is_order (after_change bot p symbol key is_increase exc before results).events
        ≡ keep is_order before
  unfolding after_change
  orders-after_change bot p symbol key is_increase exc before results =
      elim (Option-cases (exc.get_my_position symbol)) [
        | inl e ↦ ground (
          arith,
          e,
          keep-append is_order before (error_notif no_position_data ∷ []),
          append-nil_lem (keep is_order before),
        )
        | inr (api, e) ↦
            let ours = record p { qty = api.qty; entry = api.entry } in
            ground (
              arith,
              e,
              keep-append is_order before (log_success ∷ added_ping ours ∷ []),
              keep-append is_order before (log_success ∷ reduced_ping ours ∷ []),
              append-nil_lem (keep is_order before),
            )
      ]

  pub orders-increase :
      (bot : Bot D) (p : BotPosition D) (symbol side : String) (price order_qty : D)
      (config : BotConfig D) (data_ : Symbol D) (exc : ExchangeClient D) (now : ℕ)
      (before : List (Event D))
      → keep is_order before ≡ []
      → keep is_order
          (increase bot p symbol side price order_qty config data_ exc now before).events
        ≡ (elim (add_refusal bot p config side price order_qty now) [
          | none ↦ add_order p config data_ symbol side price order_qty ∷ []
          | some r ↦ []
        ])
  unfolding increase
  orders-increase bot p symbol side price order_qty config data_ exc now before quiet =
      elim (Option-cases (add_refusal bot p config side price order_qty now)) [
        | inl e ↦ rw (e, increase, orders-after_change, keep-append is_order before, quiet) refl
        | inr (r, e) ↦ rw (e, increase, keep-append is_order before, quiet) refl
      ]

  pub orders-decrease :
      (bot : Bot D) (p : BotPosition D) (symbol side : String) (order_qty : D)
      (exc : ExchangeClient D) (before : List (Event D))
      → keep is_order before ≡ []
      → keep is_order (decrease bot p symbol side order_qty exc before).events
        ≡ reduce_order p symbol side order_qty ∷ []
  unfolding decrease
  orders-decrease bot p symbol side order_qty exc before quiet =
      rw (decrease, orders-after_change, keep-append is_order before, quiet) refl
