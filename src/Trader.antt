-- ===== src/Trader.antt =====
-- trader.go: the positions of a trader on the leaderboard, and the updates between two readings of
-- them. A reading is a list of positions; the request for it is a parameter.
pub mod Keys
pub mod Removal
pub mod Matching
pub mod Updates
pub mod Replay
pub mod Requests
mod Tests
use lightspeed_trading_clean.Base.{
  ℕ, suc, String, Bool, true, false, ◌&&◌, Option, none, some, List, [], ◌∷◌, ◌++◌, map, ◌==◌, set,
  get_last?, drop_last, string_eq,
}
use lightspeed_trading_clean.Numbers.{FloatOps, Conversions}
use lightspeed_trading_clean.Update.{Update, open_ls, close_ls, change_ls, get_side}

pub record TraderPosition (F : Type 0) : Type 0 where
  pub symbol : String
  pub side : String
  pub qty : F
  pub timestamp : F
  pub entry_price : F
  pub pnl : F
  pub mark_price : F

-- `nPs[i] = nPs[upto]; upto -= 1`: the slice `nPs[0..upto]` loses entry `i`.
unfoldable pub swap_remove {ℓ} : {A : Type ℓ} → List A → ℕ → List A
swap_remove live i = elim (get_last? live) [ none ↦ live | some last ↦ drop_last (set live i last) ]

module _ {F : Type 0} where
  -- The test `old.Symbol == nPs[i].Symbol && old.Side == nPs[i].Side`.
  unfoldable pub same_position : TraderPosition F → TraderPosition F → Bool
  same_position old new = old.symbol == new.symbol && old.side == new.side

module _ {F : Type 0} ⦃fl : FloatOps F⦄ where
  -- `NewPosition`: the side of a position is the sign of its quantity.
  unfoldable pub new_position : F → F → String → F → F → F → TraderPosition F
  new_position quantity timestamp coin entry pnl mark = record {
    symbol = coin;
    side = get_side quantity;
    qty = quantity;
    timestamp = timestamp;
    entry_price = entry;
    pnl = pnl;
    mark_price = mark;
  }

module _ {F D : Type 0} ⦃fl : FloatOps F⦄ ⦃conv : Conversions F D⦄ where
  abbrev pub change_update : TraderPosition F → TraderPosition F → Update F D
  change_update old new = record {
    type = change_ls;
    symbol = new.symbol;
    side = new.side;
    bin_qty = fl.abs new.qty;
    timestamp = new.timestamp;
    old_bin_qty = fl.abs old.qty;
    entry = conv.from_float new.entry_price;
    pnl = fl.mul (fl.sub (fl.abs old.qty) (fl.abs new.qty)) (fl.sub old.mark_price old.entry_price);
    mark_price = new.mark_price;
  }

  abbrev pub close_update : TraderPosition F → Update F D
  close_update old = record {
    type = close_ls;
    symbol = old.symbol;
    side = old.side;
    bin_qty = fl.zero;
    timestamp = old.timestamp;
    old_bin_qty = fl.abs old.qty;
    entry = conv.from_float old.entry_price;
    pnl = fl.mul old.qty (fl.sub old.mark_price old.entry_price);
    mark_price = old.mark_price;
  }

  abbrev pub open_update : TraderPosition F → Update F D
  open_update new = record {
    type = open_ls;
    symbol = new.symbol;
    side = new.side;
    bin_qty = fl.abs new.qty;
    timestamp = new.timestamp;
    old_bin_qty = fl.zero;
    entry = conv.from_float new.entry_price;
    pnl = fl.zero;
    mark_price = new.mark_price;
  }

  -- The inner loop, from index `i` on: `found` is `thisPosIndex`, `us` the updates so far. It stops
  -- at a match of equal quantity, and runs on after one of another quantity.
  unfoldable pub match_new :
      TraderPosition F
      → List (TraderPosition F)
      → ℕ
      → Option ℕ
      → List (Update F D)
      → Option ℕ × List (Update F D)
  match_new old [] i found us = (found, us)
  match_new old (new ∷ news) i found us = elim (same_position old new) [
    | false ↦ match_new old news (suc i) found us
    | true ↦ elim (fl.eqb old.qty new.qty) [
      | true ↦ (some i, us)
      | false ↦ match_new old news (suc i) (some i) (us ++ change_update old new ∷ [])
    ]
  ]

  -- What follows the inner loop: no match is a close, a match leaves the new positions.
  unfoldable pub settle :
      TraderPosition F
      → List (TraderPosition F)
      → Option ℕ × List (Update F D)
      → List (Update F D) × List (TraderPosition F)
  settle old news (none, us) = (us ++ close_update old ∷ [], news)
  settle old news (some i, us) = (us, swap_remove news i)

  -- The outer loop: the updates, and the new positions that no old one matched.
  unfoldable pub compare_olds :
      List (TraderPosition F)
      → List (TraderPosition F)
      → List (Update F D)
      → List (Update F D) × List (TraderPosition F)
  compare_olds [] news us = (us, news)
  compare_olds (old ∷ olds) news us =
      let (us', news') = settle old news (match_new old news 0 none us) in
      compare_olds olds news' us'

  -- `comparePositions`: what is left over has been opened.
  unfoldable pub compare_positions :
      List (TraderPosition F) → List (TraderPosition F) → List (Update F D)
  compare_positions olds news =
      let (us, rest) = compare_olds olds news [] in us ++ map open_update rest

  -- `getUpdates`: a failed request gives no updates and no positions.
  unfoldable pub get_updates :
      List (TraderPosition F)
      → Option (List (TraderPosition F))
      → Option (List (Update F D) × List (TraderPosition F))
  get_updates olds none = none
  get_updates olds (some news) = some (compare_positions olds news, news)
