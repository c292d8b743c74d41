-- ===== src/Bot/Change/Checks.antt =====
-- The checks and the divisions of changePosition as predicates.
use lightspeed_trading_clean.Base.{
  ℕ, ◌≡◌, ◌≢◌, refl, ◌⊎◌, inl, inr, true, false, none, some, [], ◌∷◌, string_eq, arith, keep,
  is_some, Bool-cases, if◌then◌else◌,
}
use lightspeed_trading_clean.Base.Dict.{lookup}
use lightspeed_trading_clean.Numbers.{FloatOps, Conversions, DecimalOps}
use lightspeed_trading_clean.Config.{BotConfig}
use lightspeed_trading_clean.Bot.{
  Bot, BotPosition, Symbol, ChangeUpdate, ExchangeClient, Event, is_order, log_max_add,
}
use lightspeed_trading_clean.Bot.Hash.{get_pos_hash}
use lightspeed_trading_clean.Bot.Ignore.{is_ignored}
use lightspeed_trading_clean.Bot.Quantity.{bulk_panics}
use lightspeed_trading_clean.Bot.Open.{our_side}
use lightspeed_trading_clean.Bot.Change.{
  change_qty, reduce_qty, change_panics, add_refusal, add_order, reduce_order, change_found,
  change_position,
}
use lightspeed_trading_clean.Bot.Change.Adds.{
  DivisibleAdd, IndivisibleAdd, add_panics-Divisible, panics-Indivisible, MayAdd,
  MayAdd-add_refusal, orders-increase, orders-decrease,
}

module _ {F D : Type 0} ⦃fl : FloatOps F⦄ ⦃conv : Conversions F D⦄ ⦃dec : DecimalOps D⦄ where
  -- What changePosition asks for before it orders, for the stored position.
  pub record MayChange (bot : Bot D) (upd : ChangeUpdate F D) (config : BotConfig D)
      (data_ : Symbol D) (now : ℕ) (p : BotPosition D) : Type 0 where
    pub heeded : is_ignored bot upd.upd.symbol ≡ false
    pub sells : (upd.is_increase ≡ true) ⊎ (config.mode_no_sells ≡ false)
    pub stored :
        lookup (get_pos_hash upd.upd.symbol (our_side config upd.upd.side)) bot.positions ≡ some p
    pub enough : dec.ltb (change_qty p upd config) data_.min_qty ≡ false
    pub adds :
        (upd.is_increase ≡ false)
        ⊎ MayAdd bot p config
            (our_side config upd.upd.side)
            (upd.symbol_prices bot.exchange).market
            (change_qty p upd config)
            now

  -- The order that changePosition places.
  abbrev pub change_order :
      Bot D → ChangeUpdate F D → BotConfig D → Symbol D → BotPosition D → Event D
  change_order bot upd config data_ p =
      let side = our_side config upd.upd.side in
      if upd.is_increase
      then add_order p config data_ upd.upd.symbol side (upd.symbol_prices bot.exchange).market
          (change_qty p upd config)
      else reduce_order p upd.upd.symbol side (change_qty p upd config)

  orders-change_found :
      (bot : Bot D) (upd : ChangeUpdate F D) (config : BotConfig D) (data_ : Symbol D)
      (exc : ExchangeClient D) (now : ℕ) (p : BotPosition D)
      → change_panics bot upd config data_ now p ≡ false
      → keep is_order (change_found bot upd config data_ exc now p).events ≡ (
          if dec.ltb (change_qty p upd config) data_.min_qty
          then []
          else if upd.is_increase
          then (elim (add_refusal bot p config
              (our_side config upd.upd.side)
              (upd.symbol_prices bot.exchange).market
              (change_qty p upd config)
              now) [ none ↦ change_order bot upd config data_ p ∷ [] | some r ↦ [] ])
          else change_order bot upd config data_ p ∷ [])
  unfolding change_found
  orders-change_found bot upd config data_ exc now p calm =
      let side = our_side config upd.upd.side in
      let price = (upd.symbol_prices bot.exchange).market in
      let qty = change_qty p upd config in
      ground (
        arith,
        calm,
        orders-increase bot p upd.upd.symbol side price qty config data_ exc now [] refl,
        orders-increase bot p upd.upd.symbol side price qty config data_ exc now (log_max_add ∷ [])
            refl,
        orders-decrease bot p upd.upd.symbol side qty exc [] refl,
        orders-decrease bot p upd.upd.symbol side qty exc (log_max_add ∷ []) refl,
      )

  pub checks :
      (bot : Bot D) (upd : ChangeUpdate F D) (config : BotConfig D) (data_ : Symbol D)
      (exc : ExchangeClient D) (now : ℕ) (p : BotPosition D)
      → lookup (get_pos_hash upd.upd.symbol (our_side config upd.upd.side)) bot.positions ≡ some p
      → change_panics bot upd config data_ now p ≡ false
      → ((is_ignored bot upd.upd.symbol ≡ false)
          × ((upd.is_increase ≡ true) ⊎ (config.mode_no_sells ≡ false))
          × (dec.ltb (change_qty p upd config) data_.min_qty ≡ false)
          × ((upd.is_increase ≡ false)
              ⊎ (add_refusal bot p config
                    (our_side config upd.upd.side)
                    (upd.symbol_prices bot.exchange).market
                    (change_qty p upd config)
                    now
                  ≡ none))
          × (keep is_order (change_position bot upd (some config) data_ exc now).events
              ≡ change_order bot upd config data_ p ∷ []))
        ⊎ (((is_ignored bot upd.upd.symbol ≡ true)
              ⊎ ((upd.is_increase ≡ false) × (config.mode_no_sells ≡ true))
              ⊎ (dec.ltb (change_qty p upd config) data_.min_qty ≡ true)
              ⊎ ((upd.is_increase ≡ true)
                  × (is_some (
                        add_refusal bot p config
                          (our_side config upd.upd.side)
                          (upd.symbol_prices bot.exchange).market
                          (change_qty p upd config)
                          now)
                      ≡ true)))
            × (keep is_order (change_position bot upd (some config) data_ exc now).events ≡ []))
  unfolding change_position
  checks bot upd config data_ exc now p e calm =
      ground (arith, e, calm, orders-change_found bot upd config data_ exc now p calm)

  pub passes :
      (bot : Bot D) (upd : ChangeUpdate F D) (config : BotConfig D) (data_ : Symbol D)
      (exc : ExchangeClient D) (now : ℕ) (p : BotPosition D)
      → MayChange bot upd config data_ now p
      → change_panics bot upd config data_ now p ≡ false
      → keep is_order (change_position bot upd (some config) data_ exc now).events ≢ []
  passes bot upd config data_ exc now p m calm quiet =
      let side = our_side config upd.upd.side in
      let price = (upd.symbol_prices bot.exchange).market in
      let adds : (upd.is_increase ≡ false)
          ⊎ (add_refusal bot p config side price (change_qty p upd config) now ≡ none) =
        elim m.adds [
          | inl d ↦ inl d
          | inr n ↦ inr (MayAdd-add_refusal bot p config side price (change_qty p upd config) now n)
        ] in
      ground (
        arith,
        checks bot upd config data_ exc now p m.stored calm,
        m.heeded,
        m.sells,
        m.enough,
        adds,
        quiet,
      )

  -- The numbers that changePosition divides by for a stored position are not 0, and its quantity can be split.
  abbrev pub Divisible : Bot D → ChangeUpdate F D → BotConfig D → Symbol D → BotPosition D → Type 0
  Divisible bot upd config data_ p =
      ((upd.is_increase ≡ true)
        × DivisibleAdd p config data_ (upd.symbol_prices bot.exchange).market
            (change_qty p upd config))
      ⊎ ((upd.is_increase ≡ false)
          × (bulk_panics data_ (reduce_qty p (change_qty p upd config)) ≡ false))

  -- One of them is 0, or the quantity cannot be split.
  abbrev pub Indivisible :
      Bot D → ChangeUpdate F D → BotConfig D → Symbol D → BotPosition D → Type 0
  Indivisible bot upd config data_ p =
      ((upd.is_increase ≡ true)
        × IndivisibleAdd p config data_ (upd.symbol_prices bot.exchange).market
            (change_qty p upd config))
      ⊎ ((upd.is_increase ≡ false)
          × (bulk_panics data_ (reduce_qty p (change_qty p upd config)) ≡ true))

  pub change_panics-Divisible :
      (bot : Bot D) (upd : ChangeUpdate F D) (config : BotConfig D) (data_ : Symbol D) (now : ℕ)
      (p : BotPosition D)
      → change_panics bot upd config data_ now p ≡ false
      → ((upd.is_increase ≡ false)
          ⊎ (add_refusal bot p config
                (our_side config upd.upd.side)
                (upd.symbol_prices bot.exchange).market
                (change_qty p upd config)
                now
              ≡ none))
      → Divisible bot upd config data_ p
  unfolding change_panics
  change_panics-Divisible bot upd config data_ now p calm (inl down) =
      inr (down, ground (arith, calm, down))
  change_panics-Divisible bot upd config data_ now p calm (inr n) =
      elim (Bool-cases upd.is_increase) [
        | inl up ↦ inl (
          up,
          add_panics-Divisible bot p config data_ (our_side config upd.upd.side) _ _ now n
              (ground (arith, calm, up, n)) (ground (arith, calm, up, n)),
        )
        | inr down ↦ inr (down, ground (arith, calm, down))
      ]

  pub change_panics-Indivisible :
      (bot : Bot D) (upd : ChangeUpdate F D) (config : BotConfig D) (data_ : Symbol D) (now : ℕ)
      (p : BotPosition D)
      → change_panics bot upd config data_ now p ≡ true
      → Indivisible bot upd config data_ p
  unfolding change_panics
  change_panics-Indivisible bot upd config data_ now p e = elim (Bool-cases upd.is_increase) [
    | inl up ↦ inl (
      up,
      panics-Indivisible p config data_ (our_side config upd.upd.side) _ _ now
          (ground (arith, e, up)),
    )
    | inr down ↦ inr (down, ground (arith, e, down))
  ]
