-- ===== src/Bot/Change/Positions.antt =====
-- What changePosition does to the positions, and how much it sells.
use lightspeed_trading_clean.Base.{
  ℕ, String, ◌≡◌, refl, ◌⊎◌, inl, inr, Bool, true, false, some, List, string_eq, arith, length,
  is_some, Option-cases, Bool-cases, ==_iff, not, ◌&&◌,
}
use lightspeed_trading_clean.Base.Dict.{lookup, insert, lookup-insert, length-insert}
use lightspeed_trading_clean.Numbers.{FloatOps, Conversions, DecimalOps, DecimalLaws}
use lightspeed_trading_clean.Config.{BotConfig}
use lightspeed_trading_clean.Bot.{
  Bot, BotPosition, Symbol, ChangeUpdate, OrderRes, ExchangeClient, Event,
}
use lightspeed_trading_clean.Bot.Hash.{get_pos_hash}
use lightspeed_trading_clean.Bot.Ignore.{is_ignored}
use lightspeed_trading_clean.Bot.Open.{our_side}
use lightspeed_trading_clean.Bot.Close.Keys.{Keyed, lookup-Keyed, insert-Keyed}
use lightspeed_trading_clean.Bot.Change.{
  add_refusal, reduce_qty, after_change, increase, decrease, change_qty, change_panics,
  change_found, change_position,
}

module _ {D : Type 0} where
  -- The bot is the same, or its position under one key has the exchange's quantity and entry.
  abbrev pub Changed : Bot D → String → String → ExchangeClient D → BotPosition D → Bot D → Type 0
  Changed bot symbol key exc p after =
      (after ≡ bot)
      ⊎ ((api : BotPosition D) × (exc.get_my_position symbol ≡ some api)
          × (after ≡ record bot {
            positions = insert key (record p { qty = api.qty; entry = api.entry }) bot.positions;
          }))

module _ {D : Type 0} ⦃dec : DecimalOps D⦄ where
  after_change-Changed :
      (bot : Bot D) (p : BotPosition D) (symbol key : String) (is_increase : Bool)
      (exc : ExchangeClient D) (before : List (Event D)) (results : List (OrderRes D))
      → Changed bot symbol key exc p
          (after_change bot p symbol key is_increase exc before results).bot
  unfolding after_change
  after_change-Changed bot p symbol key is_increase exc before results =
      elim (Option-cases (exc.get_my_position symbol)) [
        | inl e ↦ rw (e, after_change) (inl refl)
        | inr (api, e) ↦ rw (e, after_change) (inr (api, refl, refl))
      ]

  increase-Changed :
      (bot : Bot D) (p : BotPosition D) (symbol side : String) (price order_qty : D)
      (config : BotConfig D) (data_ : Symbol D) (exc : ExchangeClient D) (now : ℕ)
      (before : List (Event D))
      → Changed bot symbol
          (get_pos_hash symbol side)
          exc
          p
          (increase bot p symbol side price order_qty config data_ exc now before).bot
  unfolding increase
  increase-Changed bot p symbol side price order_qty config data_ exc now before =
      elim (Option-cases (add_refusal bot p config side price order_qty now)) [
        | inl e ↦
            rw (e, increase)
              (after_change-Changed bot p symbol (get_pos_hash symbol side) true exc _ _)
        | inr (r, e) ↦ rw (e, increase) (inl refl)
      ]

module _ {F D : Type 0} ⦃fl : FloatOps F⦄ ⦃conv : Conversions F D⦄ ⦃dec : DecimalOps D⦄ where
  change_found-Changed :
      (bot : Bot D) (upd : ChangeUpdate F D) (config : BotConfig D) (data_ : Symbol D)
      (exc : ExchangeClient D) (now : ℕ) (p : BotPosition D)
      → Changed bot upd.upd.symbol
          (get_pos_hash upd.upd.symbol (our_side config upd.upd.side))
          exc
          p
          (change_found bot upd config data_ exc now p).bot
  unfolding change_found decrease
  change_found-Changed bot upd config data_ exc now p =
      elim (Bool-cases (dec.ltb (change_qty p upd config) data_.min_qty)) [
        | inl e ↦ rw (e, change_found) (inl refl)
        | inr e ↦ elim (Bool-cases (change_panics bot upd config data_ now p)) [
          | inl c ↦ rw (e, c, change_found) (inl refl)
          | inr c ↦ elim (Bool-cases upd.is_increase) [
            | inl i ↦
                rw (e, c, i, change_found)
                  (increase-Changed bot p upd.upd.symbol (our_side config upd.upd.side) _ _ config
                    data_ exc now _)
            | inr i ↦
                rw (e, c, i, change_found)
                  (after_change-Changed bot p upd.upd.symbol
                    (get_pos_hash upd.upd.symbol (our_side config upd.upd.side)) false exc _ _)
          ]
        ]
      ]

  -- What becomes of the bot in changePosition.
  abbrev pub ChangesOne :
      Bot D → ChangeUpdate F D → BotConfig D → Symbol D → ExchangeClient D → ℕ → Type 0
  ChangesOne bot upd config data_ exc now =
      ((change_position bot upd (some config) data_ exc now).bot ≡ bot)
      ⊎ ((p : BotPosition D) × (lookup (get_pos_hash upd.upd.symbol (our_side config upd.upd.side))
              bot.positions
            ≡ some p)
          × Changed bot upd.upd.symbol (get_pos_hash upd.upd.symbol (our_side config upd.upd.side))
              exc p (change_position bot upd (some config) data_ exc now).bot)

  -- changePosition leaves the bot as it is, or gives one stored position the quantity and the entry that
  -- the exchange reports, and nothing else of it or of the bot changes.
  pub change_position-Changed :
      (bot : Bot D) (upd : ChangeUpdate F D) (config : BotConfig D) (data_ : Symbol D)
      (exc : ExchangeClient D) (now : ℕ)
      → ChangesOne bot upd config data_ exc now
  unfolding change_position
  change_position-Changed bot upd config data_ exc now =
      elim (Bool-cases (is_ignored bot upd.upd.symbol)) [
        | inl e ↦ rw (e, change_position) (inl refl)
        | inr e ↦ elim (Bool-cases (not upd.is_increase && config.mode_no_sells)) [
          | inl s ↦ rw (e, s, change_position) (inl refl)
          | inr s ↦
              elim (Option-cases (
                lookup (get_pos_hash upd.upd.symbol (our_side config upd.upd.side))
                  bot.positions)) [
                    | inl n ↦ rw (e, s, n, change_position) (inl refl)
                    | inr (p, n) ↦
                        rw (e, s, n, change_position)
                          (inr (p, refl, change_found-Changed bot upd config data_ exc now p))
                  ]
        ]
      ]

  -- Where each position stands under its own key: changePosition opens no position and closes none, and
  -- each position still stands under its own key.
  pub change_position-Keyed :
      (bot : Bot D) (upd : ChangeUpdate F D) (config : BotConfig D) (data_ : Symbol D)
      (exc : ExchangeClient D) (now : ℕ) (k : String)
      → Keyed bot.positions
      → Keyed (change_position bot upd (some config) data_ exc now).bot.positions
        × (length (change_position bot upd (some config) data_ exc now).bot.positions
            ≡ length bot.positions)
        × (is_some (lookup k (change_position bot upd (some config) data_ exc now).bot.positions)
            ≡ is_some (lookup k bot.positions))
  change_position-Keyed bot upd config data_ exc now k kd =
      let key = get_pos_hash upd.upd.symbol (our_side config upd.upd.side) in
      elim (change_position-Changed bot upd config data_ exc now) [
        | inl same ↦ rw same (kd, refl, refl)
        | inr (p, at, inl same) ↦ rw same (kd, refl, refl)
        | inr (p, at, inr (api, e, changed)) ↦
            let ours = record p { qty = api.qty; entry = api.entry } in
            rw changed (
              insert-Keyed key ours bot.positions kd (lookup-Keyed key p bot.positions kd at),
              ground (arith, at, length-insert key ours bot.positions),
              ground (arith, at, ==_iff key k, lookup-insert key k ours bot.positions),
            )
      ]

-- For decimals that obey the laws of DecimalLaws, a decrease never sells more than the stored quantity.
pub reduce_qty-bounded :
    {D : Type 0} ⦃dec : DecimalOps D⦄ (law : DecimalLaws dec) (p : BotPosition D) (order_qty : D)
    → dec.ltb p.qty (reduce_qty p order_qty) ≡ false
reduce_qty-bounded ⦃dec⦄ law p order_qty =
    ground (arith, law.ltb_irrefl p.qty, law.ltb-sub p.qty order_qty)
