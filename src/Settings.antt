-- ===== src/Settings.antt =====
-- The update of a bot's settings: getUpdateSettingsSQL of handlersUser.go and webhookIsOK of
-- handlersHelpers.go.
mod Columns
pub mod Secrets
pub mod Arguments
mod Tests
unfoldable pub use Columns.*
use lightspeed_trading_clean.Base.{
  ℕ, ◌+◌, String, Bool, true, false, Option, none, some, List, [], ◌∷◌, ◌++◌, ◌==◌, string_eq,
  starts_with, if◌then◌else◌, not, ◌&&◌, ◌||◌, map,
}
use lightspeed_trading_clean.Base.Int.{ℤ}
use lightspeed_trading_clean.Config.{BotConfig}

-- A value of the request. An element of an array is a text or not one; `other` is an object or null.
pub data Value (F : Type 0) : Type 0 where
  text : String → Value F
  number : F → Value F
  integer : ℤ → Value F
  flag : Bool → Value F
  items : List (Option String) → Value F
  other : Value F

-- What the code calls: Go's conversions between float64 and int, db.Encrypt with the key (none is its
-- error), and strings.ToUpper.
pub record Calls (F : Type 0) : Type 0 where
  pub to_float : ℤ → F
  pub to_int : F → ℤ
  pub encrypt : String → Option (List ℕ)
  pub to_upper : String → String

abbrev pub is_filled : List String → Bool
is_filled [] = false
is_filled (s ∷ ss) = true

unfoldable pub webhook_is_ok : String → Bool
webhook_is_ok webhook =
    starts_with webhook "https://discord.com/api/webhooks/"
    || starts_with webhook "https://canary.discord.com/api/webhooks/"

-- An argument of the query: the user, the bot, an encrypted text, a value, an array of texts.
pub data Arg (F : Type 0) : Type 0 where
  user_arg : String → Arg F
  bot_arg : ℕ → Arg F
  encrypted_arg : List ℕ → Arg F
  value_arg : Value F → Arg F
  array_arg : List String → Arg F

-- `key = $placeholder`, with `::text[]` for an array.
pub record Assignment : Type 0 where
  pub key : String
  pub placeholder : ℕ
  pub is_array : Bool

-- The variables of the loop.
pub record Query (F : Type 0) : Type 0 where
  pub assignments : List Assignment
  pub args : List (Arg F)
  pub arg_count : ℕ
  pub update_failed : List String
  pub do_restart_bot : Bool

module _ {F : Type 0} where
  unfoldable pub fail : String → Query F → Query F
  fail json_key u = record u { update_failed = u.update_failed ++ json_key ∷ [] }

  -- Where a number is expected, an int is converted, and the other way round.
  unfoldable pub convert : Calls F → Kind → Value F → Value F
  convert calls number_kind (integer n) = number (calls.to_float n)
  convert calls integer_kind (number x) = integer (calls.to_int x)
  convert calls kind value = value

  unfoldable pub has_kind : Value F → Kind → Bool
  has_kind (text s) text_kind = true
  has_kind (number x) number_kind = true
  has_kind (integer n) integer_kind = true
  has_kind (flag b) flag_kind = true
  has_kind (items xs) items_kind = true
  has_kind value kind = false

  -- The assignment is written, with no argument yet.
  abbrev pub write_key : String → Bool → Query F → Query F
  write_key key is_array u = record u {
    assignments =
        u.assignments ++ record { key = key; placeholder = u.arg_count; is_array = is_array } ∷ [];
  }

  -- Its argument is appended, and counted.
  abbrev pub push_arg : Arg F → Query F → Query F
  push_arg arg u = record u { args = u.args ++ arg ∷ []; arg_count = u.arg_count + 1 }

  -- The texts of an array in capitals, empty where an element is no text.
  unfoldable pub str_array : Calls F → List (Option String) → List String
  str_array calls [] = []
  str_array calls (some s ∷ xs) = calls.to_upper s ∷ str_array calls xs
  str_array calls (none ∷ xs) = "" ∷ str_array calls xs

  -- One failure for each element that is no text.
  unfoldable pub fail_items : String → List (Option String) → Query F → Query F
  unfolding fail
  fail_items json_key [] u = u
  fail_items json_key (some s ∷ xs) u = fail_items json_key xs u
  fail_items json_key (none ∷ xs) u = fail_items json_key xs (fail json_key u)

  -- The argument of a value that is no array: an error for a text that cannot be encrypted or a webhook
  -- that is not valid.
  unfoldable pub scalar_arg : Calls F → String → Value F → Option (Arg F)
  scalar_arg calls json_key value =
      if json_key == "apiKeyRaw" || json_key == "apiSecretRaw"
      then (elim value [
        | text s ↦ (elim (calls.encrypt s) [
          | none ↦ none
          | some bytes ↦ some (encrypted_arg bytes)
        ])
        | _ ↦ none
      ])
      else if json_key == "notifyDest"
      then (elim value [
        | text s ↦ if webhook_is_ok s then some (value_arg (text s)) else none
        | _ ↦ none
      ])
      else some (value_arg value)

  -- The `switch` on the type of the value.
  unfoldable pub assign : Calls F → String → String → Value F → Query F → Query F
  unfolding fail str_array fail_items scalar_arg
  assign calls json_key key (items xs) u =
      push_arg (array_arg (str_array calls xs)) (write_key key true (fail_items json_key xs u))
  assign calls json_key key other u = fail json_key u
  assign calls json_key key value u = elim (scalar_arg calls json_key value) [
    | none ↦ fail json_key (write_key key false u)
    | some arg ↦ push_arg arg (write_key key false u)
  ]

module _ {D : Type 0} where
  -- One of the two lists of coins is set while the other is not empty.
  unfoldable pub breaks_exclusion : String → BotConfig D → Bool
  breaks_exclusion json_key old =
      (json_key == "whitelistCoins" && is_filled old.blacklist_coins)
      || (json_key == "blacklistCoins" && is_filled old.whitelist_coins)

module _ {F D : Type 0} where
  -- The body of the loop.
  unfoldable pub update_setting : Calls F → BotConfig D → String → Value F → Query F → Query F
  unfolding get_sql_key fail convert has_kind assign breaks_exclusion
  update_setting calls old json_key given u = elim (get_sql_key json_key) [
    | none ↦ fail json_key u
    | some key ↦
        let value = convert calls key.expected given in
        if not (has_kind value key.expected)
        then fail json_key u
        else if breaks_exclusion json_key old
        then fail json_key u
        else assign calls json_key key.psql value
            (record u { do_restart_bot = key.requires_restart || u.do_restart_bot })
  ]

  unfoldable pub update_settings :
      Calls F → BotConfig D → List (String × Value F) → Query F → Query F
  unfolding update_setting
  update_settings calls old [] u = u
  update_settings calls old ((json_key, value) ∷ settings) u =
      update_settings calls old settings (update_setting calls old json_key value u)

  -- `getUpdateSettingsSQL`, over the settings in the order of the loop. The text of the query is
  -- "UPDATE copytrading SET", the assignments, and a condition on $1 and $2.
  unfoldable pub get_update_settings_sql :
      Calls F → String → ℕ → List (String × Value F) → BotConfig D → Query F
  unfolding update_settings
  get_update_settings_sql calls user_id bot_id settings old =
      update_settings calls old settings (record {
        assignments = [];
        args = user_arg user_id ∷ bot_arg bot_id ∷ [];
        arg_count = 3;
        update_failed = [];
        do_restart_bot = false;
      })
