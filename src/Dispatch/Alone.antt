-- ===== src/Dispatch/Alone.antt =====
-- sendAllUpdates seen from one bot.
use lightspeed_trading_clean.Base.{
  String, ◌≡◌, refl, ap, inl, inr, none, some, List, [], ◌∷◌, ◌==◌, string_eq, arith, Bool-cases,
  Option-cases, ==_iff, ◌∙◌,
}
use lightspeed_trading_clean.Base.Dict.{Dict, lookup}
use lightspeed_trading_clean.Numbers.{FloatOps, Conversions, DecimalOps}
use lightspeed_trading_clean.Update.{Update, open_ls, close_ls, change_ls}
use lightspeed_trading_clean.Bot.{Bot, OpenUpdate, ChangeUpdate}
use lightspeed_trading_clean.Bot.Ignore.{ignore}
use lightspeed_trading_clean.Dispatch.{
  open_for, close_for, change_for, open_positions, close_positions,
}
use lightspeed_trading_clean.Dispatch.Prices.{get_open_update, get_change_update}
use lightspeed_trading_clean.Dispatch.Send.{
  Surround, bot_map_to_slice, write_back, change_positions, dispatch_update, send_to_bots,
  send_all_updates, follow_one, followed,
}

module _ {D : Type 0} where
  -- Each bot of a map goes on by a function of its hash and of itself.
  abbrev each : (String → Bot D → Bot D) → Dict String (Bot D) → Dict String (Bot D)
  each f [] = []
  each f ((hash, bot) ∷ bots) = (hash, f hash bot) ∷ each f bots

  lookup-each :
      (f : String → Bot D → Bot D) (hash : String) (bots : Dict String (Bot D))
      → lookup hash (each f bots)
        ≡ (elim (lookup hash bots) [ none ↦ none | some bot ↦ some (f hash bot) ])
  unfolding lookup
  lookup-each f hash [] = refl
  lookup-each f hash ((j, bot) ∷ bots) = elim (Bool-cases (j == hash)) [
    | inl e ↦ rw (e, lookup) (ap (λ k. some (f k bot)) ((==_iff j hash).0 e))
    | inr n ↦ rw (n, lookup) (lookup-each f hash bots)
  ]

module _ {D : Type 0} where
  each-ext :
      (f g : String → Bot D → Bot D) (bots : Dict String (Bot D))
      → ((hash : String) (bot : Bot D) → f hash bot ≡ g hash bot)
      → each f bots ≡ each g bots
  each-ext f g [] h = refl
  each-ext f g ((hash, bot) ∷ bots) h = rw (h hash bot, each-ext f g bots h) refl

  none-each : (bots : Dict String (Bot D)) → write_back bots [] ≡ each (λ hash bot. bot) bots
  unfolding write_back
  none-each [] = refl
  none-each ((hash, bot) ∷ []) = refl
  none-each ((hash, bot) ∷ b ∷ bots) = ap (◌∷◌ (hash, bot)) (none-each (b ∷ bots))

module _ (F : Type 0) {D : Type 0} ⦃fl : FloatOps F⦄ ⦃conv : Conversions F D⦄
    ⦃dec : DecimalOps D⦄ where
  ignore-each :
      (symbol : String) (s : Surround D) (bots : Dict String (Bot D))
      → write_back bots (open_positions {F = F} symbol none (bot_map_to_slice s bots))
        ≡ each (λ hash bot. ignore bot symbol) bots
  unfolding write_back open_positions bot_map_to_slice
  ignore-each symbol s [] = refl
  ignore-each symbol s ((hash, bot) ∷ bots) = rw (ignore-each symbol s bots) refl

  still-each :
      (s : Surround D) (bots : Dict String (Bot D))
      → write_back bots (change_positions {F = F} none (bot_map_to_slice s bots))
        ≡ each (λ hash bot. bot) bots
  unfolding write_back change_positions bot_map_to_slice
  still-each s [] = refl
  still-each s ((hash, bot) ∷ bots) = rw (still-each s bots) refl

module _ {F D : Type 0} ⦃fl : FloatOps F⦄ ⦃conv : Conversions F D⦄ ⦃dec : DecimalOps D⦄ where
  open-each :
      (symbol : String) (upd : OpenUpdate F D) (s : Surround D) (bots : Dict String (Bot D))
      → write_back bots (open_positions symbol (some upd) (bot_map_to_slice s bots))
        ≡ each (λ hash bot. (open_for upd (s.around hash) bot).bot) bots
  unfolding write_back open_positions bot_map_to_slice
  open-each symbol upd s [] = refl
  open-each symbol upd s ((hash, bot) ∷ bots) = rw (open-each symbol upd s bots) refl

  close-each :
      (upd : Update F D) (s : Surround D) (bots : Dict String (Bot D))
      → write_back bots (close_positions upd (bot_map_to_slice s bots))
        ≡ each (λ hash bot. (close_for upd (s.around hash) bot).bot) bots
  unfolding write_back close_positions bot_map_to_slice
  close-each upd s [] = refl
  close-each upd s ((hash, bot) ∷ bots) = rw (close-each upd s bots) refl

  change-each :
      (upd : ChangeUpdate F D) (s : Surround D) (bots : Dict String (Bot D))
      → write_back bots (change_positions (some upd) (bot_map_to_slice s bots))
        ≡ each (λ hash bot. (change_for upd (s.around hash) bot).bot) bots
  unfolding write_back change_positions bot_map_to_slice
  change-each upd s [] = refl
  change-each upd s ((hash, bot) ∷ bots) = rw (change-each upd s bots) refl

  update-each :
      (upd : Update F D) (s : Surround D) (bots : Dict String (Bot D))
      → write_back bots (dispatch_update upd s (bot_map_to_slice s bots))
        ≡ each (follow_one upd s) bots
  unfolding dispatch_update
  update-each upd s bots = elim (Bool-cases (upd.type == open_ls)) [
    | inl o ↦ (elim (Option-cases (get_open_update upd s.prices)) [
      | inl n ↦
          rw (o, n, dispatch_update) (ignore-each F upd.symbol s bots)
          ∙ each-ext (λ hash bot. ignore bot upd.symbol) (follow_one upd s) bots
              (λ hash bot. ground (arith, o, n))
      | inr (u, n) ↦
          rw (o, n, dispatch_update) (open-each upd.symbol u s bots)
          ∙ each-ext (λ hash bot. (open_for u (s.around hash) bot).bot) (follow_one upd s) bots
              (λ hash bot. ground (arith, o, n))
    ])
    | inr o ↦ (elim (Bool-cases (upd.type == close_ls)) [
      | inl c ↦
          rw (o, c, dispatch_update) (close-each upd s bots)
          ∙ each-ext (λ hash bot. (close_for upd (s.around hash) bot).bot) (follow_one upd s) bots
              (λ hash bot. ground (arith, o, c))
      | inr c ↦ (elim (Bool-cases (upd.type == change_ls)) [
        | inl h ↦ (elim (Option-cases (get_change_update upd s.prices)) [
          | inl n ↦
              rw (o, c, h, n, dispatch_update) (still-each F s bots)
              ∙ each-ext (λ hash bot. bot) (follow_one upd s) bots
                  (λ hash bot. ground (arith, o, c, h, n))
          | inr (u, n) ↦
              rw (o, c, h, n, dispatch_update) (change-each u s bots)
              ∙ each-ext (λ hash bot. (change_for u (s.around hash) bot).bot) (follow_one upd s)
                  bots (λ hash bot. ground (arith, o, c, h, n))
        ])
        | inr h ↦
            rw (o, c, h, dispatch_update) (none-each bots)
            ∙ each-ext (λ hash bot. bot) (follow_one upd s) bots
                (λ hash bot. ground (arith, o, c, h))
      ])
    ])
  ]

  -- After sendAllUpdates each bot of the monitor is as if it alone had followed the updates, one after the other in
  -- their order, and no bot is added or removed: what the other bots do and how many there are makes no difference.
  pub send_all_updates-follow :
      (updates : List (Update F D × Surround D)) (uid hash : String) (bots : Dict String (Bot D))
      → lookup hash (send_all_updates updates uid bots).0 ≡ followed updates hash (lookup hash bots)
  unfolding send_all_updates send_to_bots
  send_all_updates-follow [] uid hash bots = ground arith
  send_all_updates-follow ((upd, s) ∷ updates) uid hash bots = ground (
    arith,
    send_all_updates-follow updates uid hash (each (follow_one upd s) bots),
    lookup-each (follow_one upd s) hash bots,
    update-each upd s bots,
  )
