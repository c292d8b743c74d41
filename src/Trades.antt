-- ===== src/Trades.antt =====
-- tradeStorage.go: the trades that are stored for a trader's updates.
mod Tests
pub mod Pnl
mod Found
pub mod Watching
mod Starved
use lightspeed_trading_clean.Base.{
  String, ◌≡◌, ◌≢◌, refl, ◌⊎◌, inl, inr, Bool, true, false, List, [], ◌∷◌, ◌==◌, string_eq, arith,
  if◌then◌else◌, not, All, Bool-cases, ==_iff, length, keep, ap, suc,
}
use lightspeed_trading_clean.Numbers.{FloatOps}
use lightspeed_trading_clean.Update.{Update, open_ls, close_ls, change_ls, is_increase}

-- `Trade` of db/trade.go. Its time is the timestamp of the update, which the code cuts to seconds.
pub record Trade (F D : Type 0) : Type 0 where
  pub trader_uid : String
  pub trade_type : String
  pub symbol : String
  pub side : String
  pub qty : F
  pub utc_timestamp : F
  pub entry_price : D
  pub market_price : F
  pub pnl : F

module _ {F D : Type 0} ⦃fl : FloatOps F⦄ where
  -- The type and the quantity of a trade, empty and 0 for a type of update that does not occur.
  unfoldable pub trade_type_qty : Update F D → String × F
  trade_type_qty upd =
      if upd.type == open_ls
      then ("Open", upd.bin_qty)
      else if upd.type == close_ls
      then ("Close", upd.old_bin_qty)
      else if upd.type == change_ls
      then (if fl.ltb upd.old_bin_qty upd.bin_qty
          then ("Increase", fl.sub upd.bin_qty upd.old_bin_qty)
          else ("Decrease", fl.sub upd.old_bin_qty upd.bin_qty))
      else ("", fl.zero)

  -- `newTradeFromUpdate`.
  unfoldable pub new_trade_from_update : Update F D → String → Trade F D
  unfolding trade_type_qty
  new_trade_from_update upd trader_uid = record {
    trader_uid = trader_uid;
    trade_type = (trade_type_qty upd).0;
    symbol = upd.symbol;
    side = upd.side;
    qty = (trade_type_qty upd).1;
    utc_timestamp = upd.timestamp;
    entry_price = upd.entry;
    market_price = upd.mark_price;
    pnl = upd.pnl;
  }

  -- `storeTrades`: what is written, in order. An increase is not stored.
  unfoldable pub store_trades : List (Update F D) → String → List (Trade F D)
  unfolding is_increase new_trade_from_update
  store_trades [] trader_uid = []
  store_trades (upd ∷ updates) trader_uid =
      let rest = store_trades updates trader_uid in
      if not (is_increase upd) then new_trade_from_update upd trader_uid ∷ rest else rest

  -- The update has one of the three types.
  abbrev pub HasType : Update F D → Type 0
  HasType upd = (upd.type ≡ open_ls) ⊎ ((upd.type ≡ close_ls) ⊎ (upd.type ≡ change_ls))

  -- The trade sells: all of a position, or a part of it.
  abbrev pub Sells : Trade F D → Type 0
  Sells t = (t.trade_type ≡ "Close") ⊎ (t.trade_type ≡ "Decrease")

  new_trade_from_update-Sells :
      (upd : Update F D) (trader_uid : String)
      → HasType upd
      → is_increase upd ≡ false
      → Sells (new_trade_from_update upd trader_uid)
  unfolding is_increase new_trade_from_update trade_type_qty
  new_trade_from_update-Sells upd trader_uid h e = elim h [
    | inl p ↦
        let o : (upd.type == open_ls) ≡ true = rw p refl in
        let c : (upd.type == close_ls) ≡ false = rw p refl in
        let d : (upd.type == change_ls) ≡ false = rw p refl in ground (arith, e, o, c, d)
    | inr (inl p) ↦
        let o : (upd.type == open_ls) ≡ false = rw p refl in
        let c : (upd.type == close_ls) ≡ true = rw p refl in
        let d : (upd.type == change_ls) ≡ false = rw p refl in ground (arith, e, o, c, d)
    | inr (inr p) ↦
        let o : (upd.type == open_ls) ≡ false = rw p refl in
        let c : (upd.type == close_ls) ≡ false = rw p refl in
        let d : (upd.type == change_ls) ≡ true = rw p refl in ground (arith, e, o, c, d)
  ]

  -- Of updates of the three types, exactly those that are no increase are stored, and each as a trade that
  -- sells: the switch on the type of an update agrees with IsIncrease.
  pub store_trades_lem :
      (updates : List (Update F D)) (trader_uid : String)
      → All HasType updates
      → All Sells (store_trades updates trader_uid)
        × (length (store_trades updates trader_uid)
            ≡ length (keep (λ u. not (is_increase u)) updates))
  unfolding store_trades
  store_trades_lem [] trader_uid h = (tt, refl)
  store_trades_lem (upd ∷ updates) trader_uid h = elim (Bool-cases (is_increase upd)) [
    | inl up ↦ rw (up, store_trades) (store_trades_lem updates trader_uid h.1)
    | inr down ↦
        let rest = store_trades_lem updates trader_uid h.1 in
        rw (down, store_trades)
          ((new_trade_from_update-Sells upd trader_uid h.0 down, rest.0), ap suc rest.1)
  ]
