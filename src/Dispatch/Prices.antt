-- ===== src/Dispatch/Prices.antt =====
-- botManagement.go: getOpenUpdate and getChangeUpdate, with the prices that getPrices collects.
use lightspeed_trading_clean.Base.{
  String, false, Option, none, some, [], ◌∷◌, string_eq, if◌then◌else◌, not,
}
use lightspeed_trading_clean.Base.Int.{pos}
use lightspeed_trading_clean.Base.Dict.{Dict, lookup}
use lightspeed_trading_clean.Numbers.{FloatOps, Conversions, DecimalOps}
use lightspeed_trading_clean.Update.{Update, is_increase}
use lightspeed_trading_clean.Bot.{Price, OpenUpdate, ChangeUpdate}

abbrev pub or_zero : {A : Type 0} → A → Option A → A
or_zero zero none = zero
or_zero zero (some a) = a

module _ {D : Type 0} ⦃dec : DecimalOps D⦄ where
  -- The zero value of a Price, which a missing exchange reads as.
  abbrev pub zero_price : Price D
  zero_price = record { market = dec.from_int (pos 0); is_supported = false }

  -- The spread against one exchange; `none` is the panic of a division by zero.
  unfoldable pub spread_diff : D → Price D → Option D
  spread_diff entry price =
      if not price.is_supported
      then some (dec.from_int (pos 0))
      else let avg_price = dec.div (dec.add entry price.market) (dec.from_int (pos 2)) in
        if dec.eqb avg_price (dec.from_int (pos 0))
        then none
        else some (
            dec.abs
              (dec.mul (dec.div (dec.sub entry price.market) avg_price) (dec.from_int (pos 100))))

  -- The loop over the prices.
  unfoldable pub spread_diffs : D → Dict String (Price D) → Option (Dict String D)
  unfolding spread_diff
  spread_diffs entry [] = some []
  spread_diffs entry ((exc, price) ∷ prices) = elim (spread_diff entry price) [
    | none ↦ none
    | some d ↦ (elim (spread_diffs entry prices) [ none ↦ none | some ds ↦ some ((exc, d) ∷ ds) ])
  ]

module _ {F D : Type 0} ⦃conv : Conversions F D⦄ ⦃dec : DecimalOps D⦄ where
  -- `getOpenUpdate`, with the prices that getPrices collects; `none` is its error or a panic.
  unfoldable pub get_open_update :
      Update F D → Option (Dict String (Price D)) → Option (OpenUpdate F D)
  unfolding spread_diffs
  get_open_update upd none = none
  get_open_update upd (some prices) = elim (spread_diffs upd.entry prices) [
    | none ↦ none
    | some diffs ↦ some (record {
      upd = upd;
      symbol_prices = λ exc. or_zero zero_price (lookup exc prices);
      trader_size = dec.mul (conv.from_float upd.bin_qty) upd.entry;
      exc_spread_diff_percent = λ exc. or_zero (dec.from_int (pos 0)) (lookup exc diffs);
    })
  ]

module _ {F D : Type 0} ⦃fl : FloatOps F⦄ ⦃dec : DecimalOps D⦄ where
  -- `getChangeUpdate`.
  unfoldable pub get_change_update :
      Update F D → Option (Dict String (Price D)) → Option (ChangeUpdate F D)
  unfolding is_increase
  get_change_update upd none = none
  get_change_update upd (some prices) = some (record {
    upd = upd;
    symbol_prices = λ exc. or_zero zero_price (lookup exc prices);
    is_increase = is_increase upd;
  })
