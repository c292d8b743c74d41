-- ===== src/Settings/Arguments.antt =====
-- The query that an update of the settings executes.
use lightspeed_trading_clean.Base.{
  ℕ, ◌+◌, String, ◌≡◌, ◌≢◌, ◌⊎◌, inl, inr, refl, Bool, true, false, Option, none, some, List, [],
  ◌∷◌, ◌++◌, ◌==◌, string_eq, arith, ◌||◌, Option-cases, Bool-cases, length, length-append,
}
use lightspeed_trading_clean.Config.{BotConfig}
use lightspeed_trading_clean.Settings.Secrets.{is_secret, get_sql_key-guarded}
use lightspeed_trading_clean.Settings.{
  SqlKey, get_sql_key, Value, text, number, integer, flag, items, other, Calls, Arg, user_arg,
  bot_arg, encrypted_arg, value_arg, array_arg, Assignment, Query, fail, convert, has_kind,
  write_key, push_arg, str_array, fail_items, scalar_arg, assign, breaks_exclusion, update_setting,
  update_settings, get_update_settings_sql,
}

append-nonempty : {A : Type 0} (xs : List A) (x : A) → xs ++ x ∷ [] ≢ []
append-nonempty [] x e = ground (arith, e)
append-nonempty (y ∷ ys) x e = ground (arith, e)

module _ {F : Type 0} where
  -- An argument that an assignment may have: an array for an array, and no plain text for a secret.
  abbrev pub Fits : Assignment → Arg F → Type 0
  Fits a (array_arg xs) = a.is_array ≡ true
  Fits a (encrypted_arg bytes) = a.is_array ≡ false
  Fits a (value_arg v) = (a.is_array ≡ false) × (is_secret a.key ≡ false)
  Fits a _ = ⊥

  -- The placeholders count from `n` on, each with its argument.
  abbrev pub Aligned : ℕ → List Assignment → List (Arg F) → Type 0
  Aligned n [] [] = Unit {0}
  Aligned n (a ∷ sets) (x ∷ xs) = (a.placeholder ≡ n) × Fits a x × Aligned (n + 1) sets xs
  Aligned n _ _ = ⊥

  Aligned-append :
      (n : ℕ) (sets : List Assignment) (xs : List (Arg F)) (a : Assignment) (x : Arg F)
      → Aligned n sets xs
      → a.placeholder ≡ n + length sets
      → Fits a x
      → Aligned n (sets ++ a ∷ []) (xs ++ x ∷ [])
  Aligned-append n [] [] a x h e fits = (omega (arith, e), fits, tt)
  Aligned-append n [] (y ∷ ys) a x h e fits = absurd h
  Aligned-append n (b ∷ bs) [] a x h e fits = absurd h
  Aligned-append n (b ∷ bs) (y ∷ ys) a x h e fits =
      (h.0, h.1, Aligned-append (n + 1) bs ys a x h.2 (omega (arith, e)) fits)

  -- As long as nothing has failed, the arguments are the user, the bot, and one for each assignment.
  abbrev pub Good : String → ℕ → Query F → Type 0
  Good user_id bot_id u =
      (u.update_failed ≢ [])
      ⊎ ((rest : List (Arg F)) × (u.args ≡ user_arg user_id ∷ bot_arg bot_id ∷ rest)
          × Aligned 3 u.assignments rest
          × (u.arg_count ≡ 3 + length u.assignments))

module _ {F : Type 0} (user_id : String) (bot_id : ℕ) where
  fail-Good : (json_key : String) (u : Query F) → Good user_id bot_id (fail json_key u)
  unfolding fail
  fail-Good json_key u = inl (append-nonempty u.update_failed json_key)

  push-Good :
      (key : String) (is_array : Bool) (arg : Arg F) (u : Query F)
      → Good user_id bot_id u
      → Fits (record { key = key; placeholder = u.arg_count; is_array = is_array }) arg
      → Good user_id bot_id (push_arg arg (write_key key is_array u))
  push-Good key is_array arg u (inl bad) fits = inl bad
  push-Good key is_array arg u (inr (rest, args, aligned, count)) fits =
      let a : Assignment = record { key = key; placeholder = u.arg_count; is_array = is_array } in
      inr (
        rest ++ arg ∷ [],
        rw args refl,
        Aligned-append 3 u.assignments rest a arg aligned count fits,
        omega (arith, count, length-append u.assignments (a ∷ [])),
      )

  fail_items-Good :
      (json_key : String) (xs : List (Option String)) (u : Query F)
      → Good user_id bot_id u
      → Good user_id bot_id (fail_items json_key xs u)
  unfolding fail_items
  fail_items-Good json_key [] u g = g
  fail_items-Good json_key (some s ∷ xs) u g = fail_items-Good json_key xs u g
  fail_items-Good json_key (none ∷ xs) u g =
      fail_items-Good json_key xs (fail json_key u) (fail-Good json_key u)

  secret-Fits :
      (calls : Calls F) (json_key : String) (key : SqlKey) (n : ℕ) (value : Value F) (arg : Arg F)
      → (json_key == "apiKeyRaw" || json_key == "apiSecretRaw") ≡ true
      → scalar_arg calls json_key value ≡ some arg
      → Fits (record { key = key.psql; placeholder = n; is_array = false }) arg
  unfolding scalar_arg
  secret-Fits calls json_key key n (text s) arg b e = elim (Option-cases (calls.encrypt s)) [
    | inl none_ ↦ absurd (ground (arith, b, none_, e))
    | inr (bytes, ok) ↦
        let same : encrypted_arg bytes ≡ arg = ground (arith, b, ok, e) in rw (← same) refl
  ]
  secret-Fits calls json_key key n (number x) arg b e = absurd (ground (arith, b, e))
  secret-Fits calls json_key key n (integer x) arg b e = absurd (ground (arith, b, e))
  secret-Fits calls json_key key n (flag x) arg b e = absurd (ground (arith, b, e))
  secret-Fits calls json_key key n (items x) arg b e = absurd (ground (arith, b, e))
  secret-Fits calls json_key key n other arg b e = absurd (ground (arith, b, e))

  webhook-value :
      (calls : Calls F) (json_key : String) (value : Value F) (arg : Arg F)
      → (json_key == "apiKeyRaw" || json_key == "apiSecretRaw") ≡ false
      → (json_key == "notifyDest") ≡ true
      → scalar_arg calls json_key value ≡ some arg
      → value_arg value ≡ arg
  unfolding scalar_arg
  webhook-value calls json_key (text s) arg b d e = ground (arith, b, d, e)
  webhook-value calls json_key (number x) arg b d e = absurd (ground (arith, b, d, e))
  webhook-value calls json_key (integer x) arg b d e = absurd (ground (arith, b, d, e))
  webhook-value calls json_key (flag x) arg b d e = absurd (ground (arith, b, d, e))
  webhook-value calls json_key (items x) arg b d e = absurd (ground (arith, b, d, e))
  webhook-value calls json_key other arg b d e = absurd (ground (arith, b, d, e))

  value-Fits :
      (json_key : String) (key : SqlKey) (n : ℕ) (v : Value F) (arg : Arg F)
      → get_sql_key json_key ≡ some key
      → (json_key == "apiKeyRaw" || json_key == "apiSecretRaw") ≡ false
      → value_arg v ≡ arg
      → Fits (record { key = key.psql; placeholder = n; is_array = false }) arg
  value-Fits json_key key n v arg at open_ e =
      rw (← e) (refl, get_sql_key-guarded json_key key at open_)

  scalar-Fits :
      (calls : Calls F) (json_key : String) (key : SqlKey) (n : ℕ) (value : Value F) (arg : Arg F)
      → get_sql_key json_key ≡ some key
      → scalar_arg calls json_key value ≡ some arg
      → Fits (record { key = key.psql; placeholder = n; is_array = false }) arg
  unfolding scalar_arg
  scalar-Fits calls json_key key n value arg at e =
      elim (Bool-cases (json_key == "apiKeyRaw" || json_key == "apiSecretRaw")) [
        | inl b ↦ secret-Fits calls json_key key n value arg b e
        | inr b ↦ (elim (Bool-cases (json_key == "notifyDest")) [
          | inl d ↦
              value-Fits json_key key n value arg at b
                (webhook-value calls json_key value arg b d e)
          | inr d ↦ value-Fits json_key key n value arg at b (ground (arith, b, d, e))
        ])
      ]

  scalar-Good :
      (calls : Calls F) (json_key : String) (key : SqlKey) (value : Value F) (u : Query F)
      → get_sql_key json_key ≡ some key
      → Good user_id bot_id u
      → Good user_id bot_id (elim (scalar_arg calls json_key value) [
        | none ↦ fail json_key (write_key key.psql false u)
        | some arg ↦ push_arg arg (write_key key.psql false u)
      ])
  scalar-Good calls json_key key value u at g =
      elim (Option-cases (scalar_arg calls json_key value)) [
        | inl e ↦ rw e (fail-Good json_key (write_key key.psql false u))
        | inr (arg, e) ↦ rw e (
            push-Good key.psql false arg u g
              (scalar-Fits calls json_key key u.arg_count value arg at e))
      ]

  assign-Good :
      (calls : Calls F) (json_key : String) (key : SqlKey) (value : Value F) (u : Query F)
      → get_sql_key json_key ≡ some key
      → Good user_id bot_id u
      → Good user_id bot_id (assign calls json_key key.psql value u)
  unfolding assign
  assign-Good calls json_key key (items xs) u at g =
      push-Good key.psql true (array_arg (str_array calls xs)) (fail_items json_key xs u)
        (fail_items-Good json_key xs u g) refl
  assign-Good calls json_key key other u at g = fail-Good json_key u
  assign-Good calls json_key key (text s) u at g = scalar-Good calls json_key key (text s) u at g
  assign-Good calls json_key key (number x) u at g =
      scalar-Good calls json_key key (number x) u at g
  assign-Good calls json_key key (integer n) u at g =
      scalar-Good calls json_key key (integer n) u at g
  assign-Good calls json_key key (flag b) u at g = scalar-Good calls json_key key (flag b) u at g

  update_setting-Good :
      {D : Type 0} (calls : Calls F) (old : BotConfig D) (json_key : String) (given : Value F)
      (u : Query F)
      → Good user_id bot_id u
      → Good user_id bot_id (update_setting calls old json_key given u)
  unfolding update_setting
  update_setting-Good calls old json_key given u g = elim (Option-cases (get_sql_key json_key)) [
    | inl e ↦ rw (e, update_setting) (fail-Good json_key u)
    | inr (key, e) ↦ (elim (Bool-cases (has_kind (convert calls key.expected given) key.expected)) [
      | inr k ↦ rw (e, k, update_setting) (fail-Good json_key u)
      | inl k ↦ (elim (Bool-cases (breaks_exclusion json_key old)) [
        | inl b ↦ rw (e, k, b, update_setting) (fail-Good json_key u)
        | inr b ↦
            rw (e, k, b, update_setting)
              (assign-Good calls json_key key (convert calls key.expected given)
                (record u { do_restart_bot = key.requires_restart || u.do_restart_bot }) e g)
      ])
    ])
  ]

  update_settings-Good :
      {D : Type 0} (calls : Calls F) (old : BotConfig D) (settings : List (String × Value F))
      (u : Query F)
      → Good user_id bot_id u
      → Good user_id bot_id (update_settings calls old settings u)
  unfolding update_settings
  update_settings-Good calls old [] u g = g
  update_settings-Good calls old ((k, v) ∷ settings) u g =
      update_settings-Good calls old settings (update_setting calls old k v u)
        (update_setting-Good calls old k v u g)

  -- An update of which no key failed has a query whose argument $1 is the user and $2 the bot; its
  -- assignments have the placeholders from $3 on, each with exactly one argument, an array just where
  -- one is expected, and the columns of the exchange's keys never get a plain text.
  pub get_update_settings_sql_lem :
      {D : Type 0} (calls : Calls F) (old : BotConfig D) (settings : List (String × Value F))
      → (get_update_settings_sql calls user_id bot_id settings old).update_failed ≡ []
      → (rest : List (Arg F)) × ((get_update_settings_sql calls user_id bot_id settings old).args
          ≡ user_arg user_id ∷ bot_arg bot_id ∷ rest)
        × Aligned 3 (get_update_settings_sql calls user_id bot_id settings old).assignments rest
  unfolding get_update_settings_sql
  get_update_settings_sql_lem calls old settings ok =
      elim (update_settings-Good calls old settings _ (inr ([], refl, tt, refl))) [
        | inl bad ↦ absurd (bad ok)
        | inr (rest, args, aligned, count) ↦ (rest, args, aligned)
      ]
