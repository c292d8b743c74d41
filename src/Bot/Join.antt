-- ===== src/Bot/Join.antt =====
-- Bot.handleTraderBotDifferences (botStartup.go): a bot joins a trader who already has positions.
use lightspeed_trading_clean.Base.{
  String, ◌≡◌, refl, ◌⊎◌, inl, inr, Bool, true, false, Option, none, some, List, [], ◌∷◌, ◌==◌,
  string_eq, arith, if◌then◌else◌, is_some, not, ◌&&◌, ◌||◌, ==_iff, Option-cases,
}
use lightspeed_trading_clean.Base.Dict.{Dict, lookup, insert, lookup-insert}
use lightspeed_trading_clean.Update.{switch_side}
use lightspeed_trading_clean.Trader.{TraderPosition}
use lightspeed_trading_clean.Bot.{Bot, BotPosition, ExchangeClient}
use lightspeed_trading_clean.Bot.Hash.{get_pos_hash}
use lightspeed_trading_clean.Bot.Ignore.{is_ignored, ignore, is_ignored-ignore}

module _ {F : Type 0} where
  -- The key of the bot's position for one of the trader's.
  abbrev pub our_key : Bool → TraderPosition F → String
  our_key inverse t = get_pos_hash t.symbol (if inverse then switch_side t.side else t.side)

module _ {F D : Type 0} where
  -- The loop over the trader's positions: open ones are joined, the others ignored.
  unfoldable pub join_positions :
      Bool → Dict String (BotPosition D) → List (TraderPosition F) → Bot D → Bot D
  join_positions inverse users [] bot = bot
  join_positions inverse users (t ∷ ts) bot =
      join_positions inverse users ts (elim (lookup (our_key inverse t) users) [
        | none ↦ ignore bot t.symbol
        | some p ↦ record bot { positions = insert (our_key inverse t) p bot.positions }
      ])

module _ {F : Type 0} where
  -- The trader has a position of a symbol, on any side.
  unfoldable pub trader_has_open : String → List (TraderPosition F) → Bool
  trader_has_open symbol [] = false
  trader_has_open symbol (t ∷ ts) = if symbol == t.symbol then true else trader_has_open symbol ts

module _ {F D : Type 0} where
  -- The loop over the user's positions: symbols that the trader does not have are ignored.
  unfoldable pub ignore_others :
      List (TraderPosition F) → Dict String (BotPosition D) → Bot D → Bot D
  ignore_others ts [] bot = bot
  ignore_others ts ((k, p) ∷ users) bot =
      ignore_others ts users
        (if not (trader_has_open p.symbol ts) then ignore bot p.symbol else bot)

  -- `handleTraderBotDifferences`; `none` is its error. `users?` may be nil.
  unfoldable pub handle_trader_bot_differences :
      Bot D
      → List (TraderPosition F)
      → Bool
      → Option (Dict String (BotPosition D))
      → ExchangeClient D
      → Option (Bot D)
  unfolding join_positions ignore_others
  handle_trader_bot_differences bot ts inverse users? exc =
      let users : Option (Dict String (BotPosition D)) = elim users? [
        | none ↦ exc.get_my_positions
        | some d ↦ some d
      ] in
      elim users [
        | none ↦ none
        | some d ↦ some (ignore_others ts d (join_positions inverse d ts bot))
      ]

module _ {F : Type 0} where
  -- The bot's key of one of the trader's positions is a given one.
  abbrev pub opens_key : Bool → String → List (TraderPosition F) → Bool
  opens_key inverse key [] = false
  opens_key inverse key (t ∷ ts) = our_key inverse t == key || opens_key inverse key ts

module _ {D : Type 0} where
  -- The user's positions: those that are given, or else what the exchange answers.
  abbrev pub positions_of :
      Option (Dict String (BotPosition D)) → ExchangeClient D → Option (Dict String (BotPosition D))
  positions_of none exc = exc.get_my_positions
  positions_of (some d) exc = some d

module _ {F D : Type 0} where
  -- One of the trader's positions has a given symbol and is not open for the user.
  abbrev pub misses : Bool → Dict String (BotPosition D) → String → List (TraderPosition F) → Bool
  misses inverse users symbol [] = false
  misses inverse users symbol (t ∷ ts) =
      (t.symbol == symbol && not (is_some (lookup (our_key inverse t) users)))
      || misses inverse users symbol ts

  -- One of the user's positions has a given symbol, which the trader does not have.
  abbrev pub exceeds : List (TraderPosition F) → String → Dict String (BotPosition D) → Bool
  exceeds ts symbol [] = false
  exceeds ts symbol ((k, p) ∷ users) =
      (p.symbol == symbol && not (trader_has_open p.symbol ts)) || exceeds ts symbol users

  is_ignored-join_positions :
      (inverse : Bool) (users : Dict String (BotPosition D)) (ts : List (TraderPosition F))
      (bot : Bot D) (symbol : String)
      → is_ignored (join_positions inverse users ts bot) symbol
        ≡ (misses inverse users symbol ts || is_ignored bot symbol)
  unfolding join_positions is_ignored
  is_ignored-join_positions inverse users [] bot symbol = refl
  is_ignored-join_positions inverse users (t ∷ ts) bot symbol =
      elim (Option-cases (lookup (our_key inverse t) users)) [
        | inl e ↦
            rw (e, join_positions)
              (ground (
                arith,
                e,
                is_ignored-join_positions inverse users ts (ignore bot t.symbol) symbol,
                is_ignored-ignore bot t.symbol symbol,
              ))
        | inr (p, e) ↦
            rw (e, join_positions)
              (ground (
                arith,
                e,
                is_ignored-join_positions inverse users ts
                    (record bot { positions = insert (our_key inverse t) p bot.positions }) symbol,
              ))
      ]

  is_ignored-ignore_others :
      (ts : List (TraderPosition F)) (users : Dict String (BotPosition D)) (bot : Bot D)
      (symbol : String)
      → is_ignored (ignore_others ts users bot) symbol
        ≡ (exceeds ts symbol users || is_ignored bot symbol)
  unfolding ignore_others
  is_ignored-ignore_others ts [] bot symbol = refl
  is_ignored-ignore_others ts ((k, p) ∷ users) bot symbol = ground (
    arith,
    is_ignored-ignore_others ts users bot symbol,
    is_ignored-ignore_others ts users (ignore bot p.symbol) symbol,
    is_ignored-ignore bot p.symbol symbol,
  )

  positions-ignore_others :
      (ts : List (TraderPosition F)) (users : Dict String (BotPosition D)) (bot : Bot D)
      → (ignore_others ts users bot).positions ≡ bot.positions
  unfolding ignore_others ignore
  positions-ignore_others ts [] bot = refl
  positions-ignore_others ts ((k, p) ∷ users) bot = ground (
    arith,
    positions-ignore_others ts users bot,
    positions-ignore_others ts users (ignore bot p.symbol),
  )

  lookup-join_positions :
      (inverse : Bool) (users : Dict String (BotPosition D)) (ts : List (TraderPosition F))
      (bot : Bot D) (key : String)
      → lookup key (join_positions inverse users ts bot).positions ≡ (
          if opens_key inverse key ts && is_some (lookup key users)
          then lookup key users
          else lookup key bot.positions)
  unfolding join_positions ignore
  lookup-join_positions inverse users [] bot key = refl
  lookup-join_positions inverse users (t ∷ ts) bot key =
      elim (Option-cases (lookup (our_key inverse t) users)) [
        | inl e ↦
            rw (e, join_positions)
              (ground (
                arith,
                e,
                ==_iff (our_key inverse t) key,
                lookup-join_positions inverse users ts (ignore bot t.symbol) key,
              ))
        | inr (p, e) ↦
            rw (e, join_positions)
              (ground (
                arith,
                e,
                ==_iff (our_key inverse t) key,
                lookup-insert (our_key inverse t) key p bot.positions,
                lookup-join_positions inverse users ts
                    (record bot { positions = insert (our_key inverse t) p bot.positions }) key,
              ))
      ]

  -- What a bot has and ignores once it has joined, under a key and of a symbol.
  abbrev pub Joined :
      Bot D
      → List (TraderPosition F)
      → Bool
      → Dict String (BotPosition D)
      → Bot D
      → String
      → String
      → Type 0
  Joined bot ts inverse users after key symbol =
      (lookup key after.positions ≡ (
        if opens_key inverse key ts && is_some (lookup key users)
        then lookup key users
        else lookup key bot.positions))
      × (is_ignored after symbol
          ≡ (misses inverse users symbol ts || exceeds ts symbol users || is_ignored bot symbol))

  joined :
      (bot : Bot D) (ts : List (TraderPosition F)) (inverse : Bool)
      (users : Dict String (BotPosition D)) (key symbol : String)
      → Joined bot ts inverse users
          (ignore_others ts users (join_positions inverse users ts bot))
          key
          symbol
  joined bot ts inverse users key symbol =
      let bot' = join_positions inverse users ts bot in
      (
        rw (positions-ignore_others ts users bot') (lookup-join_positions inverse users ts bot key),
        rw
            (
              is_ignored-ignore_others ts users bot' symbol,
              is_ignored-join_positions inverse users ts bot symbol,
            )
            (ground arith),
      )

  -- With the user's positions given or, where nil is, read from the exchange: if they cannot be read, joining fails;
  -- otherwise it succeeds. Then the bot has the user's positions that the trader has open on the bot's side and
  -- otherwise the positions it had; and it ignores exactly the symbols of the trader's positions that the
  -- user does not have, those of the user's positions that the trader does not have, and what it ignored.
  pub handle_trader_bot_differences_lem :
      (bot : Bot D) (ts : List (TraderPosition F)) (inverse : Bool)
      (users? : Option (Dict String (BotPosition D))) (exc : ExchangeClient D)
      → ((positions_of users? exc ≡ none)
          × (handle_trader_bot_differences bot ts inverse users? exc ≡ none))
        ⊎ ((users : Dict String (BotPosition D)) × (after : Bot D) × (positions_of users? exc
              ≡ some users)
            × (handle_trader_bot_differences bot ts inverse users? exc ≡ some after)
            × ((key symbol : String) → Joined bot ts inverse users after key symbol))
  unfolding handle_trader_bot_differences
  handle_trader_bot_differences_lem bot ts inverse (some users) exc = inr (
    users,
    ignore_others ts users (join_positions inverse users ts bot),
    refl,
    refl,
    λ key symbol. joined bot ts inverse users key symbol,
  )
  handle_trader_bot_differences_lem bot ts inverse none exc =
      elim (Option-cases exc.get_my_positions) [
        | inl e ↦ inl (e, rw e refl)
        | inr (users, e) ↦ inr (
          users,
          ignore_others ts users (join_positions inverse users ts bot),
          e,
          rw e refl,
          λ key symbol. joined bot ts inverse users key symbol,
        )
      ]
