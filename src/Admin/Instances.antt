-- ===== src/Admin/Instances.antt =====
-- The bots of a user after SetNumInstances.
use lightspeed_trading_clean.Base.{
  ℕ, zero, suc, ◌+◌, ◌-◌, ◌≤◌, String, ◌≡◌, ap, Bool, true, List, [], ◌∷◌, ◌++◌, ◌==◌, string_eq,
  number_eq, if◌then◌else◌, ◌&&◌, ltb, leb, length, arith, ==_iff, not, keep, sym, refl,
  append-nil_lem, ◌∙◌, Bool-cases, inl, inr,
}
use lightspeed_trading_clean.Numbers.{DecimalOps}
use lightspeed_trading_clean.Config.{BotConfig, new_bot_config}
use lightspeed_trading_clean.Fleet.{is_row}
use lightspeed_trading_clean.Fleet.Balance.{read_all_records_cpyt}
use lightspeed_trading_clean.Admin.{
  AdminQuery, read_cpyt, delete_row, delete_from, delete_instances, add_from, set_num_instances,
}

append_regroup :
    {A : Type 0} (xs : List A) (y : A) (ys : List A) → (xs ++ y ∷ []) ++ ys ≡ xs ++ (y ∷ ys)
append_regroup [] y ys = refl
append_regroup (x ∷ xs) y ys = ap (◌∷◌ x) (append_regroup xs y ys)

module _ {D : Type 0} where
  -- How many rows a bot of a user has.
  abbrev pub rows_of : String → ℕ → List (BotConfig D) → ℕ
  rows_of user_id bot_id [] = 0
  rows_of user_id bot_id (c ∷ cs) =
      (if is_row user_id bot_id c then 1 else 0) + rows_of user_id bot_id cs

  rows_of-append :
      (user_id : String) (bot_id : ℕ) (cs ds : List (BotConfig D))
      → rows_of user_id bot_id (cs ++ ds) ≡ rows_of user_id bot_id cs + rows_of user_id bot_id ds
  rows_of-append user_id bot_id [] ds = omega arith
  rows_of-append user_id bot_id (c ∷ cs) ds = omega (arith, rows_of-append user_id bot_id cs ds)

  rows_of-delete_row :
      (user_id v : String) (bot_id i : ℕ) (cs : List (BotConfig D))
      → rows_of v i (delete_row user_id bot_id cs)
        ≡ (if user_id == v && bot_id == i then 0 else rows_of v i cs)
  unfolding delete_row
  rows_of-delete_row user_id v bot_id i [] = ground arith
  rows_of-delete_row user_id v bot_id i (c ∷ cs) = ground (
    arith,
    rows_of-delete_row user_id v bot_id i cs,
    ==_iff user_id v,
    ==_iff bot_id i,
    ==_iff c.user_id user_id,
    ==_iff c.user_id v,
    ==_iff c.bot_id bot_id,
    ==_iff c.bot_id i,
  )

  delete_from-rows :
      (fails : AdminQuery → Bool) (user_id v : String) (left i j : ℕ) (cs : List (BotConfig D))
      → left ≤ i
      → (delete_from fails user_id left i cs).ok ≡ true
      → rows_of v j (delete_from fails user_id left i cs).rows
        ≡ (if user_id == v && (ltb (i - left) j && leb j i) then 0 else rows_of v j cs)
  unfolding delete_from
  delete_from-rows fails user_id v zero i j cs le ok = ground arith
  delete_from-rows fails user_id v (suc left) i j cs le ok = ground (
    arith,
    delete_from-rows fails user_id v left (i - 1) j (delete_row user_id i cs) (omega (arith, le)),
    rows_of-delete_row user_id v i j cs,
    ==_iff i j,
  )

  -- A row that deleting some bots of a user leaves: those from the bot `i` downwards, as many as are `left`.
  abbrev pub outlasts : String → ℕ → ℕ → BotConfig D → Bool
  outlasts user_id left i c =
      not (c.user_id == user_id && (ltb (i - left) c.bot_id && leb c.bot_id i))

  delete_row-keep :
      (user_id : String) (bot_id : ℕ) (cs : List (BotConfig D))
      → delete_row user_id bot_id cs ≡ keep (λ c. not (is_row user_id bot_id c)) cs
  unfolding delete_row
  delete_row-keep user_id bot_id [] = refl
  delete_row-keep user_id bot_id (c ∷ cs) = ground (arith, delete_row-keep user_id bot_id cs)

  keep-outlasts_none :
      (user_id : String) (i : ℕ) (cs : List (BotConfig D)) → keep (outlasts user_id 0 i) cs ≡ cs
  keep-outlasts_none user_id i [] = refl
  keep-outlasts_none user_id i (c ∷ cs) = ground (arith, keep-outlasts_none user_id i cs)

  keep-outlasts_step :
      (user_id : String) (left i : ℕ) (cs : List (BotConfig D))
      → suc left ≤ i
      → keep (outlasts user_id left (i - 1)) (delete_row user_id i cs)
        ≡ keep (outlasts user_id (suc left) i) cs
  unfolding delete_row
  keep-outlasts_step user_id left i [] le = refl
  keep-outlasts_step user_id left i (c ∷ cs) le =
      ground (arith, le, keep-outlasts_step user_id left i cs le, ==_iff c.bot_id i)

  delete_from-keep :
      (fails : AdminQuery → Bool) (user_id : String) (left i : ℕ) (cs : List (BotConfig D))
      → left ≤ i
      → (delete_from fails user_id left i cs).ok ≡ true
      → (delete_from fails user_id left i cs).rows ≡ keep (outlasts user_id left i) cs
  unfolding delete_from
  delete_from-keep fails user_id zero i cs le ok = sym (keep-outlasts_none user_id i cs)
  delete_from-keep fails user_id (suc left) i cs le ok = ground (
    arith,
    ok,
    delete_from-keep fails user_id left (i - 1) (delete_row user_id i cs) (omega (arith, le)),
    keep-outlasts_step user_id left i cs le,
  )

module _ (D : Type 0) ⦃dec : DecimalOps D⦄ where
  rows_of-new :
      (user_id v : String) (i j : ℕ)
      → rows_of {D = D} v j (new_bot_config user_id i ∷ [])
        ≡ (if user_id == v && i == j then 1 else 0)
  unfolding new_bot_config
  rows_of-new user_id v i j = ground arith

module _ {D : Type 0} ⦃dec : DecimalOps D⦄ where
  add_from-rows :
      (fails : AdminQuery → Bool) (user_id v : String) (left i j : ℕ) (cs : List (BotConfig D))
      → (add_from fails user_id left i cs).ok ≡ true
      → rows_of v j (add_from fails user_id left i cs).rows
        ≡ rows_of v j cs + (if user_id == v && (leb i j && ltb j (i + left)) then 1 else 0)
  unfolding add_from
  add_from-rows fails user_id v zero i j cs ok = ground arith
  add_from-rows fails user_id v (suc left) i j cs ok = ground (
    arith,
    add_from-rows fails user_id v left (i + 1) j (cs ++ new_bot_config user_id i ∷ []),
    rows_of-append v j cs (new_bot_config user_id i ∷ []),
    rows_of-new D user_id v i j,
    ==_iff i j,
  )

  -- New rows of a user: so many bots, from the bot `i` upwards.
  abbrev pub new_rows : String → ℕ → ℕ → List (BotConfig D)
  new_rows user_id zero i = []
  new_rows user_id (suc left) i = new_bot_config user_id i ∷ new_rows user_id left (i + 1)

  add_from-new_rows :
      (fails : AdminQuery → Bool) (user_id : String) (left i : ℕ) (cs : List (BotConfig D))
      → (add_from fails user_id left i cs).ok ≡ true
      → (add_from fails user_id left i cs).rows ≡ cs ++ new_rows user_id left i
  unfolding add_from
  add_from-new_rows fails user_id zero i cs ok = sym (append-nil_lem cs)
  add_from-new_rows fails user_id (suc left) i cs ok = ground (
    arith,
    ok,
    add_from-new_rows fails user_id left (i + 1) (cs ++ new_bot_config user_id i ∷ []),
    append_regroup cs (new_bot_config user_id i) (new_rows user_id left (i + 1)),
  )

  -- The rows that SetNumInstances is to leave: without the user's bots above the number, or with new ones
  -- after the rows there are.
  abbrev pub wanted : String → ℕ → List (BotConfig D) → List (BotConfig D)
  wanted user_id n cs =
      let existing = length (read_all_records_cpyt user_id cs) in
      if ltb n existing
      then keep (λ c. not (c.user_id == user_id && (ltb n c.bot_id && leb c.bot_id existing))) cs
      else cs ++ new_rows user_id (n - existing) (existing + 1)

  set_num_instances-count :
      (fails : AdminQuery → Bool) (user_id v : String) (n j : ℕ) (cs : List (BotConfig D))
      → rows_of user_id j cs
        ≡ (if leb 1 j && leb j (length (read_all_records_cpyt user_id cs)) then 1 else 0)
      → (set_num_instances fails user_id n cs).ok ≡ true
      → rows_of v j (set_num_instances fails user_id n cs).rows
        ≡ (if user_id == v then (if leb 1 j && leb j n then 1 else 0) else rows_of v j cs)
  unfolding set_num_instances delete_instances
  set_num_instances-count fails user_id v n j cs h ok =
      let existing = length (read_all_records_cpyt user_id cs) in
      ground (
        arith,
        h,
        ok,
        ==_iff user_id v,
        ap (λ (u : String). rows_of u j cs),
        delete_from-rows fails user_id v (existing - n) existing j cs (omega arith),
        add_from-rows fails user_id v (n - existing) (existing + 1) j cs,
      )

  set_num_instances-wanted :
      (fails : AdminQuery → Bool) (user_id : String) (n : ℕ) (cs : List (BotConfig D))
      → (set_num_instances fails user_id n cs).ok ≡ true
      → (set_num_instances fails user_id n cs).rows ≡ wanted user_id n cs
  unfolding set_num_instances delete_instances
  set_num_instances-wanted fails user_id n cs ok =
      let existing = length (read_all_records_cpyt user_id cs) in
      elim (Bool-cases (fails read_cpyt)) [
        | inl f ↦ absurd (ground (arith, f, ok))
        | inr f ↦ (elim (Bool-cases (ltb n existing)) [
          | inl fewer ↦
              let e : existing - (existing - n) ≡ n = ground (arith, fewer) in
              let kept =
                delete_from-keep fails user_id (existing - n) existing cs (omega arith)
                  (ground (arith, f, fewer, ok)) in
              let kept_above = λ (m : ℕ).
                keep
                  (λ (c : BotConfig D).
                    not (c.user_id == user_id && (ltb m c.bot_id && leb c.bot_id existing)))
                  cs in
              rw (f, fewer, set_num_instances) (kept ∙ ap kept_above e)
          | inr enough ↦ (elim (Bool-cases (ltb existing n)) [
            | inl grows ↦
                rw (f, enough, grows, set_num_instances)
                  (add_from-new_rows fails user_id (n - existing) (existing + 1) cs
                    (ground (arith, f, enough, grows, ok)))
            | inr same ↦
                let e : n - existing ≡ 0 = ground (arith, same) in
                rw (f, enough, same, e, set_num_instances) (sym (append-nil_lem cs))
          ])
        ])
      ]

  -- Where SetNumInstances succeeds for a user whose bots have the ids from 1 on, each once, the user's bots then have the
  -- ids from 1 to the number asked for, each once, and no bot of another user is added or deleted. All rows that stay are
  -- as they were, in their order: if bots are taken away, exactly the user's bots above the number are gone, and
  -- otherwise the missing bots, with the settings of a new bot, follow the rows there were.
  pub set_num_instances-rows :
      (fails : AdminQuery → Bool) (user_id v : String) (n j : ℕ) (cs : List (BotConfig D))
      → rows_of user_id j cs
        ≡ (if leb 1 j && leb j (length (read_all_records_cpyt user_id cs)) then 1 else 0)
      → (set_num_instances fails user_id n cs).ok ≡ true
      → (rows_of v j (set_num_instances fails user_id n cs).rows
          ≡ (if user_id == v then (if leb 1 j && leb j n then 1 else 0) else rows_of v j cs))
        × ((set_num_instances fails user_id n cs).rows ≡ wanted user_id n cs)
  set_num_instances-rows fails user_id v n j cs h ok = (
    set_num_instances-count fails user_id v n j cs h ok,
    set_num_instances-wanted fails user_id n cs ok,
  )
