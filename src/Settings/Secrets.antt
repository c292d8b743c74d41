-- ===== src/Settings/Secrets.antt =====
-- Which columns hold the keys of the exchange.
use lightspeed_trading_clean.Base.{
  String, ◌≡◌, refl, inl, inr, Bool, true, false, some, List, [], ◌∷◌, ◌==◌, string_eq, arith, not,
  ◌&&◌, ◌||◌, ==_iff, Bool-cases,
}
use lightspeed_trading_clean.Base.Dict.{lookup}
use lightspeed_trading_clean.Settings.{SqlKey, get_sql_key, fields}

-- The columns of the keys of the exchange.
abbrev pub is_secret : String → Bool
is_secret column = column == "api_key_raw" || column == "api_secret_raw"

-- In a table, the secret columns are those of two keys.
abbrev is_guarded : List (String × SqlKey) → Bool
is_guarded [] = true
is_guarded ((k, key) ∷ rows) =
    ((k == "apiKeyRaw" || k == "apiSecretRaw") || not (is_secret key.psql)) && is_guarded rows

guarded :
    (rows : List (String × SqlKey)) (json_key : String) (key : SqlKey)
    → is_guarded rows ≡ true
    → lookup json_key rows ≡ some key
    → (json_key == "apiKeyRaw" || json_key == "apiSecretRaw") ≡ false
    → is_secret key.psql ≡ false
unfolding lookup
guarded [] json_key key g e n = absurd (ground (arith, e))
guarded ((k, row) ∷ rows) json_key key g e n = elim (Bool-cases (k == json_key)) [
  | inl y ↦
      let row_is : row ≡ key = ground (arith, y, e) in
      rw (← row_is) (
        ground (
          arith,
          g,
          n,
          ==_iff k json_key,
          y,
          ==_iff k "apiKeyRaw",
          ==_iff json_key "apiKeyRaw",
          ==_iff k "apiSecretRaw",
          ==_iff json_key "apiSecretRaw",
        ))
  | inr m ↦ guarded rows json_key key (ground (arith, g)) (ground (arith, m, e)) n
]

pub get_sql_key-guarded :
    (json_key : String) (key : SqlKey)
    → get_sql_key json_key ≡ some key
    → (json_key == "apiKeyRaw" || json_key == "apiSecretRaw") ≡ false
    → is_secret key.psql ≡ false
unfolding get_sql_key
get_sql_key-guarded json_key key e n = guarded fields json_key key refl e n
