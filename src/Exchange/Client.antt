-- ===== src/Exchange/Client.antt =====
-- exchangeClients.go, the methods of bybitNormalised that ask: what they make of what the exchange answers.
-- The requests, and the parser of decimals, are parameters.
use Prim.Native.String.{◌++◌ as str_append}
use lightspeed_trading_clean.Base.{
  ℕ, suc, ◌⊎◌, inl, inr, String, Bool, true, false, Option, none, some, List, [], ◌∷◌, ◌==◌,
  string_eq, ◌&&◌, if◌then◌else◌, length, starts_with,
}
use lightspeed_trading_clean.Base.Int.{ℤ, pos, eqb_ℤ}
use lightspeed_trading_clean.Base.Dict.{Dict, insert}
use lightspeed_trading_clean.Numbers.{DecimalOps}
use lightspeed_trading_clean.Bot.{BotPosition}
use lightspeed_trading_clean.Bot.Hash.{position_hash}

-- An entry of the exchange's list of positions, with the fields that are read.
pub record BybPos : Type 0 where
  pub symbol : String
  pub side : String
  pub size : String
  pub avg_price : String
  pub leverage : String
  pub take_profit : String
  pub stop_loss : String

pub data AccountType : Type 0 where
  normal unified : AccountType

-- The errors of getUSDTBalance, and those of getPrice.
pub data BalanceError : Type 0 where
  not_sent : String → BalanceError
  no_results no_coins : BalanceError
  no_decimal : String → BalanceError

pub data PriceError : Type 0 where
  request_error : String → PriceError
  results : ℕ → PriceError
  no_price : String → PriceError

infixl 5 ◌>>=◌
abbrev pub ◌>>=◌ : {A B : Type 0} → String ⊎ A → (A → String ⊎ B) → String ⊎ B
◌>>=◌ (inl err) f = inl err
◌>>=◌ (inr a) f = f a

-- `setLeverage`: the error that it returns. A client may ask to ignore that the leverage is set already.
unfoldable pub set_leverage :
    (String → String → Option String) → String → String → Bool → Option String
set_leverage request symbol lev ignore_already_set_error = elim (request symbol lev) [
  | none ↦ none
  | some err ↦ if ignore_already_set_error && starts_with err "110043" then none else some err
]

-- `setAccountType`: the field that it leaves, from the answer about the account.
unfoldable pub set_account_type : String ⊎ ℤ → Option AccountType → AccountType
set_account_type info (some acct_type) = acct_type
set_account_type (inl err) none = unified
set_account_type (inr status) none = if eqb_ℤ status (pos 1) then normal else unified

module _ {D : Type 0} (parse_decimal : String → String ⊎ D) where
  unfoldable pub parse_field : String → String → String ⊎ D
  parse_field name text = elim (parse_decimal text) [
    | inl err ↦ inl (
        str_append "failed to parse "
          (str_append name (str_append " " (str_append text (str_append " as Decimal, " err)))))
    | inr d ↦ inr d
  ]

  -- `botPosFromBybPos`, at a time.
  unfoldable pub bot_pos_from_byb_pos : ℕ → BybPos → String ⊎ BotPosition D
  unfolding parse_field
  bot_pos_from_byb_pos now byb_pos = do
    qty ← parse_field "qty" byb_pos.size
    entry ← parse_field "entry" byb_pos.avg_price
    lev ← parse_field "leverage" byb_pos.leverage
    tp ← parse_field "tp" byb_pos.take_profit
    sl ← parse_field "sl" byb_pos.stop_loss
    inr (record {
      symbol = byb_pos.symbol;
      side = byb_pos.side;
      qty = qty;
      entry = entry;
      leverage = lev;
      ignore_adds_until = now;
      tp = tp;
      sl = sl;
      exchange = "";
    })

  -- The loop of `getMyPositions`, from the i-th entry on.
  unfoldable pub collect_positions :
      (ℕ → ℕ) → ℕ → List BybPos → Dict String (BotPosition D) → String ⊎ Dict String (BotPosition D)
  unfolding bot_pos_from_byb_pos
  collect_positions clock i [] my_positions = inr my_positions
  collect_positions clock i (byb_pos ∷ rest) my_positions = do
    bot_pos ← bot_pos_from_byb_pos (clock i) byb_pos
    collect_positions clock (suc i) rest (insert (position_hash bot_pos) bot_pos my_positions)

  -- `getMyPositions`, with the time at which each entry is read.
  unfoldable pub get_my_positions :
      (ℕ → ℕ) → String ⊎ List BybPos → String ⊎ Dict String (BotPosition D)
  unfolding collect_positions
  get_my_positions clock (inl err) = inl (str_append "failed to get response from bybit, " err)
  get_my_positions clock (inr list) = collect_positions clock 0 list []

  -- `getMyPosition`: the first entry of the symbol.
  unfoldable pub get_my_position :
      ℕ → (String → String ⊎ List BybPos) → String → String ⊎ BotPosition D
  unfolding bot_pos_from_byb_pos
  get_my_position now request symbol = elim (request symbol) [
    | inl err ↦ inl (str_append "failed to get response from bybit, " err)
    | inr [] ↦ inl (str_append "no positions returned for symbol " symbol)
    | inr (byb_pos ∷ rest) ↦ bot_pos_from_byb_pos now byb_pos
  ]

  -- What `getUSDTBalance` makes of the lists of coins, each coin by its wallet balance.
  unfoldable pub read_balance : String ⊎ List (List String) → BalanceError ⊎ D
  read_balance (inl err) = inl (not_sent err)
  read_balance (inr []) = inl no_results
  read_balance (inr ([] ∷ rest)) = inl no_coins
  read_balance (inr ((balance ∷ coins) ∷ rest)) = elim (parse_decimal balance) [
    | inl err ↦ inl (no_decimal err)
    | inr bal ↦ inr bal
  ]

  -- `getUSDTBalance`, with the account type that it leaves.
  unfoldable pub get_usdt_balance :
      String ⊎ ℤ
      → (AccountType → String ⊎ List (List String))
      → Option AccountType
      → AccountType × (BalanceError ⊎ D)
  unfolding set_account_type read_balance
  get_usdt_balance info wallet account_type =
      let acct_type = set_account_type info account_type in
      (acct_type, read_balance (wallet acct_type))

  -- `getPrice`: the price, whether the symbol is supported, the error.
  unfoldable pub get_price :
      ⦃dec : DecimalOps D⦄ → (String → String ⊎ List String) → String → D × Bool × Option PriceError
  get_price ⦃dec⦄ request symbol = elim (request symbol) [
    | inl err ↦
        if err == "10001, params error: symbol invalid"
        then (dec.from_int (pos 0), false, none)
        else (dec.from_int (pos 0), false, some (request_error err))
    | inr [] ↦ (dec.from_int (pos 0), false, some (results 0))
    | inr (last_price ∷ []) ↦ (elim (parse_decimal last_price) [
      | inl err ↦ (dec.from_int (pos 0), true, some (no_price err))
      | inr price ↦ (price, true, none)
    ])
    | inr (a ∷ b ∷ prices) ↦ (dec.from_int (pos 0), false, some (results (length (a ∷ b ∷ prices))))
  ]
