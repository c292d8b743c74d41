-- ===== src/Handlers/Isolation.antt =====
-- The rows of a user while others make requests.
use lightspeed_trading_clean.Base.{
  ℕ, suc, String, ◌≡◌, refl, ap, inl, inr, Bool, true, false, Option, none, some, List, [], ◌∷◌,
  ◌==◌, string_eq, ◌&&◌, not, arith, Bool-cases, Option-cases, All, length, ◌++◌, replicate, ◌-◌,
  length-append,
}
use lightspeed_trading_clean.Base.Dict.{lookup, lookup-insert}
use lightspeed_trading_clean.Numbers.{DecimalOps}
use lightspeed_trading_clean.Fleet.{Fleet, Query, read_cpyt, read_record_cpyt}
use lightspeed_trading_clean.Fleet.Create.{World}
use lightspeed_trading_clean.Fleet.Balance.{is_active}
use lightspeed_trading_clean.Fleet.Start.{StartBotParam, Started, start_bot}
use lightspeed_trading_clean.Fleet.Stop.{stop_bot}
use lightspeed_trading_clean.Fleet.Others.{Untouched, Untouched-trans}
use lightspeed_trading_clean.Fleet.Apart.{start_bot-Untouched, stop_bot-Untouched}
use lightspeed_trading_clean.Settings.{Value}
use lightspeed_trading_clean.Handlers.Update.{UpdateWorld, on_update_settings}
use lightspeed_trading_clean.Handlers.Restart.{update-Untouched}
use lightspeed_trading_clean.Handlers.{
  Reply, is_inactive, reply_start, start_for_user, on_start_bot, stop_for_user, on_stop_bot,
  on_set_user_alert_webhook, conceal_api_key,
}

-- A request with the user of its token, and what surrounds it.
pub data Request (F D : Type 0) : Type 0 where
  start_request : World F D → (List ℕ → Bool) → Option String → Option ℕ → Request F D
  stop_request : (Query → Bool) → Option String → Option ℕ → Request F D
  webhook_request : Bool → Option String → Option String → Request F D
  settings_request :
      World F D
      → UpdateWorld F D
      → Option String
      → Option (ℕ × List (String × Value F))
      → Request F D

-- The request is not one of a given user.
abbrev pub by_other : String → Option String → Bool
by_other v none = true
by_other v (some u) = not (u == v)

module _ {F D : Type 0} where
  abbrev pub asker : Request F D → Option String
  asker (start_request w decrypts auth body) = auth
  asker (stop_request fails auth body) = auth
  asker (webhook_request fails auth body) = auth
  asker (settings_request w u auth body) = auth

  reply_start-fleet : (r : Started F D) → (reply_start r).fleet ≡ r.fleet
  unfolding reply_start
  reply_start-fleet r = ground arith

module _ {F D : Type 0} ⦃dec : DecimalOps D⦄ where
  unfoldable pub serve : Request F D → Fleet F D → Reply F D
  unfolding on_start_bot on_stop_bot on_set_user_alert_webhook on_update_settings
  serve (start_request w decrypts auth body) fleet = on_start_bot w decrypts auth body fleet
  serve (stop_request fails auth body) fleet = on_stop_bot fails auth body fleet
  serve (webhook_request fails auth body) fleet = on_set_user_alert_webhook fails auth body fleet
  serve (settings_request w u auth body) fleet = on_update_settings w u auth body fleet

  -- Requests one after the other.
  unfoldable pub serve_all : List (Request F D) → Fleet F D → Fleet F D
  unfolding serve
  serve_all [] fleet = fleet
  serve_all (r ∷ rs) fleet = serve_all rs (serve r fleet).fleet

  start-Untouched :
      (w : World F D) (decrypts : List ℕ → Bool) (user_id v : String) (bot_id : ℕ)
      (fleet : Fleet F D)
      → (user_id == v) ≡ false
      → Untouched v fleet (start_for_user w decrypts user_id bot_id fleet).fleet
  unfolding start_for_user
  start-Untouched w decrypts user_id v bot_id fleet h = elim (Bool-cases (w.fails read_cpyt)) [
    | inl f ↦ rw (f, start_for_user) (refl, refl)
    | inr f ↦ (elim (Option-cases (read_record_cpyt user_id bot_id fleet.configs)) [
      | inl r ↦ rw (f, r, start_for_user) (refl, refl)
      | inr (c, r) ↦ (elim (Bool-cases (not (is_inactive c.bot_status))) [
        | inl i ↦ rw (f, r, i, start_for_user) (refl, refl)
        | inr i ↦ (elim (Bool-cases (not (decrypts c.api_key_raw && decrypts c.api_secret_raw))) [
          | inl d ↦ rw (f, r, i, d, start_for_user) (refl, refl)
          | inr d ↦
              let req : StartBotParam = record {
                user_id = user_id;
                bot_id = bot_id;
                exchange = c.exchange;
                trader_uid = c.binance_id;
              } in
              rw (f, r, i, d, start_for_user, reply_start-fleet (start_bot true w req fleet))
                (start_bot-Untouched true w req fleet v h)
        ])
      ])
    ])
  ]

  stop-Untouched :
      (fails : Query → Bool) (user_id v : String) (bot_id : ℕ) (fleet : Fleet F D)
      → (user_id == v) ≡ false
      → Untouched v fleet (stop_for_user fails user_id bot_id fleet).fleet
  unfolding stop_for_user
  stop-Untouched fails user_id v bot_id fleet h = elim (Bool-cases (fails read_cpyt)) [
    | inl f ↦ rw (f, stop_for_user) (refl, refl)
    | inr f ↦ (elim (Option-cases (read_record_cpyt user_id bot_id fleet.configs)) [
      | inl r ↦ rw (f, r, stop_for_user) (refl, refl)
      | inr (c, r) ↦ (elim (Bool-cases (not (is_active c.bot_status))) [
        | inl i ↦ rw (f, r, i, stop_for_user) (refl, refl)
        | inr i ↦ (elim (Option-cases (stop_bot fails user_id bot_id c.binance_id fleet)) [
          | inl s ↦ rw (f, r, i, s, stop_for_user) (refl, refl)
          | inr (after, s) ↦
              rw (f, r, i, s, stop_for_user)
                (stop_bot-Untouched fails user_id bot_id c.binance_id fleet after v h s)
        ])
      ])
    ])
  ]

  serve-Untouched :
      (r : Request F D) (fleet : Fleet F D) (v : String)
      → by_other v (asker r) ≡ true
      → Untouched v fleet (serve r fleet).fleet
  unfolding serve on_start_bot on_stop_bot on_set_user_alert_webhook on_update_settings
  serve-Untouched (start_request w decrypts none body) fleet v h = (refl, refl)
  serve-Untouched (start_request w decrypts (some u) none) fleet v h = (refl, refl)
  serve-Untouched (start_request w decrypts (some u) (some id)) fleet v h =
      start-Untouched w decrypts u v id fleet (ground (arith, h))
  serve-Untouched (stop_request fails none body) fleet v h = (refl, refl)
  serve-Untouched (stop_request fails (some u) none) fleet v h = (refl, refl)
  serve-Untouched (stop_request fails (some u) (some id)) fleet v h =
      stop-Untouched fails u v id fleet (ground (arith, h))
  serve-Untouched (webhook_request fails none body) fleet v h = (refl, refl)
  serve-Untouched (webhook_request fails (some u) none) fleet v h = (refl, refl)
  serve-Untouched (webhook_request fails (some u) (some hook)) fleet v h =
      elim (Option-cases (lookup u fleet.users)) [
        | inl n ↦ ground (arith, n)
        | inr (row, n) ↦
            ground
              (arith, n, h, lookup-insert u v (record row { alert_webhook = hook }) fleet.users)
      ]
  serve-Untouched (settings_request w u none body) fleet v h = (refl, refl)
  serve-Untouched (settings_request w u (some user) none) fleet v h = (refl, refl)
  serve-Untouched (settings_request w u (some user) (some (id, settings))) fleet v h =
      update-Untouched w u user v id settings fleet (ground (arith, h))

  -- Whatever requests others make to start bots, to stop bots, to update settings and to set webhooks, in whatever order, with whatever
  -- answers of the exchange and failures of queries: a user's row and the rows of that user's bots stay as they were.
  pub serve_all-Untouched :
      (rs : List (Request F D)) (fleet : Fleet F D) (v : String)
      → All (λ (r : Request F D). by_other v (asker r) ≡ true) rs
      → Untouched v fleet (serve_all rs fleet)
  unfolding serve_all
  serve_all-Untouched [] fleet v h = (refl, refl)
  serve_all-Untouched (r ∷ rs) fleet v h =
      Untouched-trans v fleet (serve r fleet).fleet (serve_all rs (serve r fleet).fleet)
        (serve-Untouched r fleet v h.0) (serve_all-Untouched rs (serve r fleet).fleet v h.1)

-- The blanks after a key of three bytes and more.
abbrev pad : ℕ → List ℕ
pad n = replicate (8 - suc (suc (suc n))) 32

-- What is shown of an api key depends on its first three bytes and on its length only: two keys with the same length
-- and the same first three bytes look the same.
pub conceal_api_key-same :
    (a b c : ℕ) (xs ys : List ℕ)
    → length xs ≡ length ys
    → conceal_api_key (a ∷ b ∷ c ∷ xs) ≡ conceal_api_key (a ∷ b ∷ c ∷ ys)
unfolding conceal_api_key
conceal_api_key-same a b c xs ys e =
    let same : length (xs ++ pad (length xs)) ≡ length (ys ++ pad (length ys)) = omega (
      arith,
      e,
      length-append xs (pad (length xs)),
      length-append ys (pad (length ys)),
      ap (λ n. length (pad n)) e,
    ) in
    ap (λ n. a ∷ b ∷ c ∷ replicate (suc (suc (suc n)) - 3) 42) same
