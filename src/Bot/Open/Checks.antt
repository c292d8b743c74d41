-- ===== src/Bot/Open/Checks.antt =====
-- The checks and the divisions of openPosition as predicates.
use lightspeed_trading_clean.Base.{
  ℕ, ◌≤◌, String, ◌≡◌, refl, ◌⊎◌, inl, inr, ◌↔◌, true, false, none, some, List, [], ◌∷◌, string_eq,
  arith, length, keep, Option-cases,
}
use lightspeed_trading_clean.Base.Int.{pos, negsuc, ltb_ℤ}
use lightspeed_trading_clean.Base.Dict.{lookup}
use lightspeed_trading_clean.Numbers.{DecimalOps}
use lightspeed_trading_clean.Config.{BotConfig, minus_one, is_setting_enabled}
use lightspeed_trading_clean.Bot.{Bot, Symbol, OpenUpdate, ExchangeClient, Event, is_order}
use lightspeed_trading_clean.Bot.Hash.{get_pos_hash}
use lightspeed_trading_clean.Bot.Ignore.{
  In, contains, contains_iff, symbol_is_blacklisted, symbol_is_whitelisted,
}
use lightspeed_trading_clean.Bot.Quantity.{tpsl_panics, bulk_panics}
use lightspeed_trading_clean.Bot.Open.{
  our_side, open_leverage, open_qty, early_refusal, open_refusal, open_panic,
}

module _ {D : Type 0} ⦃dec : DecimalOps D⦄ where
  -- A setting of -1 asks for nothing.
  abbrev pub IsOff : D → Type 0
  IsOff value = dec.eqb value minus_one ≡ true

whitelist_iff :
    (symbol : String) (ss : List String)
    → ((elim ss [ [] ↦ true | s ∷ rest ↦ contains symbol (s ∷ rest) ]) ≡ true)
      ↔ ((ss ≡ []) ⊎ In symbol ss)
whitelist_iff symbol [] = (λ e. inl refl, λ h. refl)
whitelist_iff symbol (s ∷ ss) = ground (arith, contains_iff symbol (s ∷ ss))

module _ {D : Type 0} where
  blacklisted_iff :
      (symbol : String) (config : BotConfig D)
      → (symbol_is_blacklisted symbol config ≡ false) ↔ (¬ In symbol config.blacklist_coins)
  unfolding symbol_is_blacklisted
  blacklisted_iff symbol config = ground (arith, contains_iff symbol config.blacklist_coins)

  whitelisted_iff :
      (symbol : String) (config : BotConfig D)
      → (symbol_is_whitelisted symbol config ≡ true)
        ↔ ((config.whitelist_coins ≡ []) ⊎ In symbol config.whitelist_coins)
  unfolding symbol_is_whitelisted
  whitelisted_iff symbol config = whitelist_iff symbol config.whitelist_coins

module _ {F D : Type 0} ⦃dec : DecimalOps D⦄ where
  -- What the settings and the state of a bot ask for before the quantity is computed.
  pub record MayAsk (bot : Bot D) (upd : OpenUpdate F D) (config : BotConfig D) (now : ℕ)
      : Type 0 where
    pub supported : (upd.symbol_prices bot.exchange).is_supported ≡ true
    pub free :
        lookup (get_pos_hash upd.upd.symbol (our_side config upd.upd.side)) bot.positions ≡ none
    pub opens : config.mode_close_only ≡ false
    pub large_trader :
        IsOff config.min_trader_size ⊎ (dec.ltb upd.trader_size config.min_trader_size ≡ false)
    pub room :
        (config.max_open_positions ≡ negsuc 0)
        ⊎ (ltb_ℤ (pos (length bot.positions)) config.max_open_positions ≡ true)
    pub delay_over : IsOff config.open_delay ⊎ (bot.open_delay_until ≤ now)
    pub not_blacklisted : ¬ In upd.upd.symbol config.blacklist_coins
    pub listed : (config.whitelist_coins ≡ []) ⊎ In upd.upd.symbol config.whitelist_coins
    pub small_spread :
        IsOff config.exc_spread_diff_percent
        ⊎ (dec.ltb (upd.exc_spread_diff_percent bot.exchange) config.exc_spread_diff_percent ≡ true)
    pub funded :
        dec.ltb bot.cur_balance (
          dec.div
            (dec.mul bot.initial_balance config.initial_open_percent)
            (dec.from_int (pos 100)))
        ≡ false

  -- What is asked for before the bot opens.
  pub record MayOpen (bot : Bot D) (upd : OpenUpdate F D) (config : BotConfig D) (data_ : Symbol D)
      (now : ℕ) : Type 0 where
    pub asks : MayAsk bot upd config now
    pub orderable : dec.ltb (open_qty bot upd config data_) data_.min_qty ≡ false

  -- Every number that openPosition divides by is not 0, and the quantity can be split into orders.
  pub record Divisible (bot : Bot D) (upd : OpenUpdate F D) (config : BotConfig D)
      (data_ : Symbol D) : Type 0 where
    pub priced : dec.eqb (upd.symbol_prices bot.exchange).market (dec.from_int (pos 0)) ≡ false
    pub stepped :
        (IsOff config.auto_tp × IsOff config.auto_sl)
        ⊎ (dec.eqb data_.price_step (dec.from_int (pos 0)) ≡ false)
    pub split : bulk_panics data_ (open_qty bot upd config data_) ≡ false

  -- One of the numbers that it divides by is 0, or the quantity cannot be split.
  abbrev pub Indivisible : Bot D → OpenUpdate F D → BotConfig D → Symbol D → Type 0
  Indivisible bot upd config data_ =
      (dec.eqb (upd.symbol_prices bot.exchange).market (dec.from_int (pos 0)) ≡ true)
      ⊎ (((dec.eqb config.auto_tp minus_one ≡ false) ⊎ (dec.eqb config.auto_sl minus_one ≡ false))
          × (dec.eqb data_.price_step (dec.from_int (pos 0)) ≡ true))
      ⊎ (bulk_panics data_ (open_qty bot upd config data_) ≡ true)

  early_refusal-MayAsk :
      (bot : Bot D) (upd : OpenUpdate F D) (config : BotConfig D) (now : ℕ)
      → early_refusal bot upd config now ≡ none
      → MayAsk bot upd config now
  unfolding early_refusal is_setting_enabled
  early_refusal-MayAsk bot upd config now e = record {
    supported = ground arith;
    free = ground arith;
    opens = ground arith;
    large_trader = ground arith;
    room = ground arith;
    delay_over = ground arith;
    not_blacklisted = (blacklisted_iff upd.upd.symbol config).0 (ground arith);
    listed = (whitelisted_iff upd.upd.symbol config).0 (ground arith);
    small_spread = ground arith;
    funded = ground arith;
  }

  pub MayAsk-early_refusal :
      (bot : Bot D) (upd : OpenUpdate F D) (config : BotConfig D) (now : ℕ)
      → MayAsk bot upd config now
      → early_refusal bot upd config now ≡ none
  unfolding early_refusal is_setting_enabled
  MayAsk-early_refusal bot upd config now m =
      let black = (blacklisted_iff upd.upd.symbol config).1 m.not_blacklisted in
      let white = (whitelisted_iff upd.upd.symbol config).1 m.listed in ground (arith, black, white)

  pub open_refusal-MayOpen :
      (bot : Bot D) (upd : OpenUpdate F D) (config : BotConfig D) (data_ : Symbol D) (now : ℕ)
      → open_refusal bot upd config data_ now ≡ none
      → MayOpen bot upd config data_ now
  unfolding open_refusal
  open_refusal-MayOpen bot upd config data_ now e =
      elim (Option-cases (early_refusal bot upd config now)) [
        | inl n ↦ record {
          asks = early_refusal-MayAsk bot upd config now n;
          orderable = ground (arith, n, e);
        }
        | inr (r, n) ↦ absurd (ground (arith, n, e))
      ]

  pub open_panic-Indivisible :
      (bot : Bot D) (upd : OpenUpdate F D) (config : BotConfig D) (data_ : Symbol D)
      (exc : ExchangeClient D) (now : ℕ) (events : List (Event D))
      → open_panic bot upd config data_ exc now ≡ some events
      → MayAsk bot upd config now × Indivisible bot upd config data_ × (keep is_order events ≡ [])
  unfolding open_panic tpsl_panics
  open_panic-Indivisible bot upd config data_ exc now events e =
      elim (Option-cases (early_refusal bot upd config now)) [
        | inl n ↦
            (early_refusal-MayAsk bot upd config now n, ground (arith, n, e), ground (arith, n, e))
        | inr (r, n) ↦ absurd (ground (arith, n, e))
      ]

  pub open_panic-Divisible :
      (bot : Bot D) (upd : OpenUpdate F D) (config : BotConfig D) (data_ : Symbol D)
      (exc : ExchangeClient D) (now : ℕ)
      → open_panic bot upd config data_ exc now ≡ none
      → MayOpen bot upd config data_ now
      → exc.set_leverage upd.upd.symbol (open_leverage config data_) true ≡ none
      → Divisible bot upd config data_
  unfolding open_panic tpsl_panics
  open_panic-Divisible bot upd config data_ exc now e m l =
      let n = MayAsk-early_refusal bot upd config now m.asks in
      record {
        priced = ground (arith, n, e, l, m.orderable);
        stepped = ground (arith, n, e, l, m.orderable);
        split = ground (arith, n, e, l, m.orderable);
      }
