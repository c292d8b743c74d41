-- ===== src/Bot/Change/Orders.antt =====
-- What changePosition orders.
use lightspeed_trading_clean.Base.{
  ℕ, ◌≡◌, ◌⊎◌, inl, inr, true, false, some, [], ◌∷◌, string_eq, arith, keep, Option-cases,
  Bool-cases,
}
use lightspeed_trading_clean.Base.Dict.{lookup}
use lightspeed_trading_clean.Numbers.{FloatOps, Conversions, DecimalOps}
use lightspeed_trading_clean.Config.{BotConfig}
use lightspeed_trading_clean.Bot.{
  Bot, BotPosition, Symbol, ChangeUpdate, ExchangeClient, is_order, panicked,
}
use lightspeed_trading_clean.Bot.Hash.{get_pos_hash}
use lightspeed_trading_clean.Bot.Ignore.{is_ignored}
use lightspeed_trading_clean.Bot.Open.{our_side}
use lightspeed_trading_clean.Bot.Change.{change_qty, change_panics, change_found, change_position}
use lightspeed_trading_clean.Bot.Change.Adds.{add_refusal-MayAdd}
use lightspeed_trading_clean.Bot.Change.Checks.{
  MayChange, change_order, checks, passes, Divisible, Indivisible, change_panics-Divisible,
  change_panics-Indivisible,
}

module _ {F D : Type 0} ⦃fl : FloatOps F⦄ ⦃conv : Conversions F D⦄ ⦃dec : DecimalOps D⦄ where
  -- A position that the bot has, with a quantity that is large enough.
  pub record Concerns (bot : Bot D) (upd : ChangeUpdate F D) (config : BotConfig D)
      (data_ : Symbol D) (p : BotPosition D) : Type 0 where
    pub heeded : is_ignored bot upd.upd.symbol ≡ false
    pub sells : (upd.is_increase ≡ true) ⊎ (config.mode_no_sells ≡ false)
    pub stored :
        lookup (get_pos_hash upd.upd.symbol (our_side config upd.upd.side)) bot.positions ≡ some p
    pub enough : dec.ltb (change_qty p upd config) data_.min_qty ≡ false

  -- The outcomes of changePosition: the order, a panic, or neither.
  abbrev pub ChangeOrders :
      Bot D → ChangeUpdate F D → BotConfig D → Symbol D → ExchangeClient D → ℕ → Type 0
  ChangeOrders bot upd config data_ exc now =
      let out = change_position bot upd (some config) data_ exc now in
      ((p : BotPosition D) × MayChange bot upd config data_ now p
        × Divisible bot upd config data_ p
        × (keep is_order out.events ≡ change_order bot upd config data_ p ∷ []))
      ⊎ ((p : BotPosition D) × Concerns bot upd config data_ p
          × Indivisible bot upd config data_ p
          × (out.ending ≡ panicked)
          × (keep is_order out.events ≡ [])
          × (out.bot ≡ bot))
      ⊎ ((¬ ((p : BotPosition D) × MayChange bot upd config data_ now p))
          × (keep is_order out.events ≡ []))

  -- With no panic, the order or none.
  calm-orders :
      (bot : Bot D) (upd : ChangeUpdate F D) (config : BotConfig D) (data_ : Symbol D)
      (exc : ExchangeClient D) (now : ℕ) (p : BotPosition D)
      → lookup (get_pos_hash upd.upd.symbol (our_side config upd.upd.side)) bot.positions ≡ some p
      → change_panics bot upd config data_ now p ≡ false
      → ChangeOrders bot upd config data_ exc now
  calm-orders bot upd config data_ exc now p e calm =
      let side = our_side config upd.upd.side in
      let price = (upd.symbol_prices bot.exchange).market in
      elim (checks bot upd config data_ exc now p e calm) [
        | inl (heeded, sells, enough, adds, orders) ↦ inl (
          p,
          record {
            heeded = heeded;
            sells = sells;
            stored = e;
            enough = enough;
            adds = elim adds [
              | inl d ↦ inl d
              | inr n ↦
                  inr (add_refusal-MayAdd bot p config side price (change_qty p upd config) now n)
            ];
          },
          change_panics-Divisible bot upd config data_ now p calm adds,
          orders,
        )
        | inr (failed, none_) ↦ inr (
            inr (
              λ m.
                  let same : m.0 ≡ p = ground (arith, e, m.1.stored) in
                  passes bot upd config data_ exc now m.0 m.1 (rw same calm) none_,
              none_,
            ))
      ]

  -- A position whose change would panic: it does, unless an earlier check fails.
  loud-orders :
      (bot : Bot D) (upd : ChangeUpdate F D) (config : BotConfig D) (data_ : Symbol D)
      (exc : ExchangeClient D) (now : ℕ) (p : BotPosition D)
      → lookup (get_pos_hash upd.upd.symbol (our_side config upd.upd.side)) bot.positions ≡ some p
      → change_panics bot upd config data_ now p ≡ true
      → ((is_ignored bot upd.upd.symbol ≡ false)
          × ((upd.is_increase ≡ true) ⊎ (config.mode_no_sells ≡ false))
          × (dec.ltb (change_qty p upd config) data_.min_qty ≡ false)
          × ((change_position bot upd (some config) data_ exc now).ending ≡ panicked)
          × (keep is_order (change_position bot upd (some config) data_ exc now).events ≡ [])
          × ((change_position bot upd (some config) data_ exc now).bot ≡ bot))
        ⊎ (((is_ignored bot upd.upd.symbol ≡ true)
              ⊎ ((upd.is_increase ≡ false) × (config.mode_no_sells ≡ true))
              ⊎ (dec.ltb (change_qty p upd config) data_.min_qty ≡ true))
            × (keep is_order (change_position bot upd (some config) data_ exc now).events ≡ []))
  unfolding change_position change_found
  loud-orders bot upd config data_ exc now p e loud = ground (arith, e, loud)

  -- changePosition, with its settings at hand, has one of three outcomes. The stored position passes every check and no
  -- number that it divides by is 0: it places exactly one order, for an increase one on the bot's side with limits
  -- around the new entry, for a decrease a reduce-only one on the other side. The symbol is not ignored, sells
  -- are allowed or it is an increase, and the quantity is large enough for a stored position, but a number that is
  -- divided by for an enabled check or for the order is 0, or the quantity cannot be split into orders: it
  -- panics, places no order and leaves the bot as it is. No stored position passes every check: it places none.
  pub orders-change_position :
      (bot : Bot D) (upd : ChangeUpdate F D) (config : BotConfig D) (data_ : Symbol D)
      (exc : ExchangeClient D) (now : ℕ)
      → ChangeOrders bot upd config data_ exc now
  unfolding change_position
  orders-change_position bot upd config data_ exc now =
      let side = our_side config upd.upd.side in
      elim (Option-cases (lookup (get_pos_hash upd.upd.symbol side) bot.positions)) [
        | inl e ↦ inr (inr (λ m. absurd (ground (arith, e, m.1.stored)), ground (arith, e)))
        | inr (p, e) ↦ (elim (Bool-cases (change_panics bot upd config data_ now p)) [
          | inr calm ↦ calm-orders bot upd config data_ exc now p e calm
          | inl loud ↦ (elim (loud-orders bot upd config data_ exc now p e loud) [
            | inl (heeded, sells, enough, end, quiet, same) ↦ inr (
                inl (
                  p,
                  record { heeded = heeded; sells = sells; stored = e; enough = enough },
                  change_panics-Indivisible bot upd config data_ now p loud,
                  end,
                  quiet,
                  same,
                ))
            | inr (failed, quiet) ↦ inr (
                inr (
                  λ m.
                      let stored : m.0 ≡ p = ground (arith, e, m.1.stored) in
                      absurd (ground (arith, failed, stored, m.1.heeded, m.1.sells, m.1.enough)),
                  quiet,
                ))
          ])
        ])
      ]
