-- ===== src/Update.antt =====
-- classes/update.go, and the side of a position (classes/traderPosition.go): what the monitor
-- tells the bots about one position of a trader. Message texts are not modelled.
pub mod Sides
use lightspeed_trading_clean.Base.{
  String, Bool, true, false, ℕ, Option, none, some, ◌==◌, if◌then◌else◌, string_eq,
}
use lightspeed_trading_clean.Numbers.{FloatOps}

pub record Update (F D : Type 0) : Type 0 where
  pub type : String
  pub symbol : String
  pub side : String
  pub bin_qty : F
  pub timestamp : F
  pub old_bin_qty : F
  pub entry : D
  pub pnl : F
  pub mark_price : F

abbrev pub open_ls : String
open_ls = "OPEN"

abbrev pub close_ls : String
close_ls = "CLOSE"

abbrev pub change_ls : String
change_ls = "CHANGE"

-- `SwitchSide(side)`: whatever is not a buy becomes one.
unfoldable pub switch_side : String → String
switch_side side = if side == "Buy" then "Sell" else "Buy"

-- The method `SwitchSide`, which panics on a side that is neither; `none` is the panic.
unfoldable pub switch_side? : String → Option String
switch_side? side =
    if side == "Buy" then some "Sell" else if side == "Sell" then some "Buy" else none

module _ {F D : Type 0} ⦃fl : FloatOps F⦄ where
  -- `IsIncrease`: an open, or a change to a larger quantity.
  unfoldable pub is_increase : Update F D → Bool
  is_increase upd =
      if upd.type == change_ls
      then fl.ltb upd.old_bin_qty upd.bin_qty
      else if upd.type == close_ls
      then false
      else if upd.type == open_ls
      then true
      else false

  -- `FmtTitleColour`: the title of the ping and its colour.
  unfoldable pub fmt_title_colour : Update F D → String × ℕ
  fmt_title_colour upd =
      if upd.type == open_ls
      then ("Position Opened", 16777215)
      else if upd.type == close_ls
      then ("Position Closed", 2303786)
      else if upd.type == change_ls
      then (if fl.ltb upd.old_bin_qty upd.bin_qty
          then ("Position Added To", 5763719)
          else ("Position Partially Sold", 15548997))
      else ("", 0)

module _ {F : Type 0} ⦃fl : FloatOps F⦄ where
  -- `getSide`: a quantity below zero is a short.
  unfoldable pub get_side : F → String
  get_side qty = if fl.ltb fl.zero qty then "Buy" else if fl.ltb qty fl.zero then "Sell" else "Buy"
