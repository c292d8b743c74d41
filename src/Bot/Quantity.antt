-- ===== src/Bot/Quantity.antt =====
-- Prices and quantities that the exchange accepts, and placeOrder of exchangeClients.go.
use lightspeed_trading_clean.Base.{
  String, Bool, not, ◌&&◌, ◌||◌, Option, none, some, List, [], ◌∷◌, ◌++◌, ◌==◌, string_eq, map,
  replicate, if◌then◌else◌,
}
use lightspeed_trading_clean.Base.Int.{pos, negsuc, pos_part, ltb_ℤ}
use lightspeed_trading_clean.Numbers.{DecimalOps}
use lightspeed_trading_clean.Config.{BotConfig, minus_one}
use lightspeed_trading_clean.Bot.{Symbol, OrderRes, Tpsl}

module _ {D : Type 0} ⦃dec : DecimalOps D⦄ where
  -- `getValidPrice`, where the price step is not 0: the whole number of price steps nearest to the price.
  unfoldable pub get_valid_price : Symbol D → D → D
  get_valid_price symbol price =
      dec.mul symbol.price_step
        (dec.from_int (dec.int_part (dec.round (dec.div price symbol.price_step))))

  -- The price before it is made valid: above the entry for the take profit of a buy and the stop
  -- loss of a sell, below it for the others.
  unfoldable pub ideal_limit : String → D → D → String → D
  ideal_limit side entry lim_percent limit =
      let delta = dec.mul (dec.div lim_percent (dec.from_int (pos 100))) entry in
      let signed = if limit == "sl" then dec.mul delta (dec.from_int (negsuc 0)) else delta in
      if side == "Sell" then dec.sub entry signed else dec.add entry signed

  -- `getLimitPrice`.
  unfoldable pub get_limit_price : Symbol D → String → D → D → String → D
  unfolding ideal_limit get_valid_price
  get_limit_price symbol side entry lim_percent limit =
      get_valid_price symbol (ideal_limit side entry lim_percent limit)

  -- `getTPSL`, where it does not panic (`tpsl_panics`): a limit that is set to -1 is not placed.
  unfoldable pub get_tpsl : Symbol D → String → D → BotConfig D → Tpsl D
  unfolding get_limit_price
  get_tpsl symbol side entry config = record {
    tp =
        if dec.eqb config.auto_tp minus_one
        then none
        else some (get_limit_price symbol side entry config.auto_tp "tp");
    sl =
        if dec.eqb config.auto_sl minus_one
        then none
        else some (get_limit_price symbol side entry config.auto_sl "sl");
  }

  -- getTPSL panics in getValidPrice: a limit is placed, and the price step is 0.
  unfoldable pub tpsl_panics : Symbol D → BotConfig D → Bool
  tpsl_panics symbol config =
      not (dec.eqb config.auto_tp minus_one && dec.eqb config.auto_sl minus_one)
      && dec.eqb symbol.price_step (dec.from_int (pos 0))

  -- getBulkQtyList panics: on a division by the maximal quantity or by the step, or on a negative
  -- length for `make`.
  unfoldable pub bulk_panics : Symbol D → D → Bool
  bulk_panics symbol qty =
      let zero = dec.from_int (pos 0) in
      let num_max = dec.floor (dec.div qty symbol.max_qty) in
      let remainder = dec.sub qty (dec.mul symbol.max_qty num_max) in
      dec.eqb symbol.max_qty zero
      || ltb_ℤ (dec.int_part num_max) (pos 0)
      || (not (dec.ltb remainder symbol.min_qty) && dec.eqb symbol.qty_step zero)

  -- `getBulkQtyList`, where it does not panic: full orders, and one for what remains if that is not below
  -- the minimum.
  unfoldable pub get_bulk_qty_list : D → Symbol D → List D
  get_bulk_qty_list qty symbol =
      let num_max = dec.floor (dec.div qty symbol.max_qty) in
      let maxes = replicate (pos_part (dec.int_part num_max)) symbol.max_qty in
      let remainder = dec.sub qty (dec.mul symbol.max_qty num_max) in
      let num_steps = dec.floor (dec.div remainder symbol.qty_step) in
      if dec.ltb remainder symbol.min_qty
      then maxes
      else maxes ++ dec.mul num_steps symbol.qty_step ∷ []

  -- `bybitNormalised.placeOrder`: one request for each quantity, answered by nothing or an error. The
  -- results stand in the order of the requests; the code takes them as they arrive.
  unfoldable pub place_order : (D → Option String) → Symbol D → D → List (OrderRes D)
  unfolding get_bulk_qty_list
  place_order create_order symbol qty =
      map (λ q. record { qty = q; res_str = elim (create_order q) [ none ↦ "200" | some e ↦ e ] })
        (get_bulk_qty_list qty symbol)
