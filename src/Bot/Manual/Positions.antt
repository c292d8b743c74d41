-- ===== src/Bot/Manual/Positions.antt =====
-- What checkManualChanges leaves of the positions.
use lightspeed_trading_clean.Base.{
  String, ◌≡◌, refl, inl, inr, is_some, Bool-cases, ap, Bool, true, false, none, some, List, [],
  ◌∷◌, ◌++◌, ◌==◌, string_eq, arith, if◌then◌else◌, ==_iff, ◌||◌,
}
use lightspeed_trading_clean.Base.Dict.{Dict, lookup, erase, lookup-erase}
use lightspeed_trading_clean.Numbers.{DecimalOps}
use lightspeed_trading_clean.Bot.{Bot, BotPosition}
use lightspeed_trading_clean.Bot.Ignore.{contains, is_ignored, ignore, is_ignored-ignore}
use lightspeed_trading_clean.Bot.Manual.{
  Effect, remove_from_monitor, crash_alert, deactivate, set_balance, unexpected_sell, answered,
  refreshed, refresh, to_delete, sold, delete_all, sells, run_sells, check_manual_changes,
}

module _ {D : Type 0} ⦃dec : DecimalOps D⦄ where
  lookup-refresh :
      (k : String) (api d : Dict String (BotPosition D))
      → lookup k (refresh api d) ≡ (elim (lookup k d) [
        | none ↦ none
        | some p ↦ some (elim (lookup k api) [ none ↦ p | some a ↦ refreshed p a ])
      ])
  unfolding refresh lookup
  lookup-refresh k api [] = refl
  lookup-refresh k api ((j, p) ∷ d) = ground (arith, ==_iff j k, lookup-refresh k api d)

module _ {D : Type 0} where
  lookup-delete_all :
      (k : String) (ks : List String) (d : Dict String (BotPosition D))
      → lookup k (delete_all ks d) ≡ (if contains k ks then none else lookup k d)
  unfolding delete_all contains
  lookup-delete_all k [] d = refl
  lookup-delete_all k (j ∷ ks) d =
      ground (arith, lookup-delete_all k ks (erase j d), lookup-erase j k d, ==_iff j k, ==_iff k j)

  kept :
      (k : String) (api d : Dict String (BotPosition D))
      → is_some (lookup k api) ≡ true
      → contains k (to_delete api d) ≡ false
  unfolding contains to_delete
  kept k api [] e = refl
  kept k api ((j, q) ∷ d) e = ground (arith, ==_iff k j, kept k api d e)

  deleted :
      (k : String) (api d : Dict String (BotPosition D))
      → is_some (lookup k d) ≡ true
      → is_some (lookup k api) ≡ false
      → contains k (to_delete api d) ≡ true
  unfolding contains to_delete lookup
  deleted k api [] e n = ground arith
  deleted k api ((j, q) ∷ d) e n = ground (arith, ==_iff k j, ==_iff j k, deleted k api d, n)

  -- A position of a symbol is sold, by some effects.
  abbrev pub sells_symbol : String → List (Effect D) → Bool
  sells_symbol symbol [] = false
  sells_symbol symbol (unexpected_sell p ∷ es) = p.symbol == symbol || sells_symbol symbol es
  sells_symbol symbol (_ ∷ es) = sells_symbol symbol es

  is_ignored-run_sells :
      (es : List (Effect D)) (bot : Bot D) (symbol : String)
      → is_ignored (run_sells es bot) symbol ≡ (sells_symbol symbol es || is_ignored bot symbol)
  unfolding run_sells
  is_ignored-run_sells [] bot symbol = refl
  is_ignored-run_sells (unexpected_sell p ∷ es) bot symbol = ground (
    arith,
    is_ignored-run_sells es (ignore bot p.symbol) symbol,
    is_ignored-ignore bot p.symbol symbol,
  )
  is_ignored-run_sells (remove_from_monitor ∷ es) bot symbol = is_ignored-run_sells es bot symbol
  is_ignored-run_sells (crash_alert ∷ es) bot symbol = is_ignored-run_sells es bot symbol
  is_ignored-run_sells (deactivate ∷ es) bot symbol = is_ignored-run_sells es bot symbol
  is_ignored-run_sells (set_balance ∷ es) bot symbol = is_ignored-run_sells es bot symbol

  positions-run_sells :
      (es : List (Effect D)) (bot : Bot D) → (run_sells es bot).positions ≡ bot.positions
  unfolding run_sells ignore
  positions-run_sells [] bot = refl
  positions-run_sells (unexpected_sell p ∷ es) bot =
      ground (arith, positions-run_sells es (ignore bot p.symbol))
  positions-run_sells (remove_from_monitor ∷ es) bot = positions-run_sells es bot
  positions-run_sells (crash_alert ∷ es) bot = positions-run_sells es bot
  positions-run_sells (deactivate ∷ es) bot = positions-run_sells es bot
  positions-run_sells (set_balance ∷ es) bot = positions-run_sells es bot

  sells_symbol-append :
      (symbol : String) (ps : List (BotPosition D)) (es : List (Effect D))
      → sells_symbol symbol (sells ps) ≡ true
      → sells_symbol symbol (sells ps ++ es) ≡ true
  sells_symbol-append symbol [] es h = ground arith
  sells_symbol-append symbol (p ∷ ps) es h = ground (arith, sells_symbol-append symbol ps es)

  sells_symbol-sold :
      (k : String) (p : BotPosition D) (api d : Dict String (BotPosition D))
      → lookup k d ≡ some p
      → lookup k api ≡ none
      → sells_symbol p.symbol (sells (sold api d)) ≡ true
  unfolding sold lookup
  sells_symbol-sold k p api [] e n = ground arith
  sells_symbol-sold k p api ((j, q) ∷ d) e n = elim (Bool-cases (j == k)) [
    | inl y ↦
        let same : q ≡ p = ground (arith, e, y) in
        let gone : lookup j api ≡ none = rw ((==_iff j k).0 y) n in
        ground (arith, gone, ==_iff q.symbol p.symbol, ap (λ (r : BotPosition D). r.symbol) same)
    | inr y ↦ ground (arith, y, e, sells_symbol-sold k p api d, n)
  ]

module _ {D : Type 0} ⦃dec : DecimalOps D⦄ where
  -- When the exchange has answered, the bot has exactly the positions that both had, each with the limits
  -- of the exchange, and with its quantity and entry where the quantities differ.
  pub lookup-check_manual_changes :
      (bot : Bot D) (api : Dict String (BotPosition D)) (k : String)
      → lookup k (check_manual_changes bot false (answered api)).0.positions
        ≡ (elim (lookup k bot.positions) [
          | none ↦ none
          | some p ↦ (elim (lookup k api) [ none ↦ none | some a ↦ some (refreshed p a) ])
        ])
  unfolding check_manual_changes
  lookup-check_manual_changes bot api k = ground (
    arith,
    lookup-delete_all k (to_delete api bot.positions) (refresh api bot.positions),
    lookup-refresh k api bot.positions,
    kept k api bot.positions,
    deleted k api bot.positions,
  )

  sells_symbol-check_manual_changes :
      (bot : Bot D) (api : Dict String (BotPosition D)) (k : String) (p : BotPosition D)
      → lookup k bot.positions ≡ some p
      → lookup k api ≡ none
      → sells_symbol p.symbol (check_manual_changes bot false (answered api)).1 ≡ true
  unfolding check_manual_changes
  sells_symbol-check_manual_changes bot api k p e n =
      sells_symbol-append p.symbol (sold api bot.positions) _
        (sells_symbol-sold k p api bot.positions e n)

  -- Once the goroutines that checkManualChanges starts have run, the symbol of every position that the
  -- exchange no longer has is ignored, and the position is gone.
  pub is_ignored-check_manual_changes :
      (bot : Bot D) (api : Dict String (BotPosition D)) (k : String) (p : BotPosition D)
      → lookup k bot.positions ≡ some p
      → lookup k api ≡ none
      → (is_ignored
            (run_sells
              (check_manual_changes bot false (answered api)).1
              (check_manual_changes bot false (answered api)).0)
            p.symbol
          ≡ true)
        × (lookup k
              (run_sells
                (check_manual_changes bot false (answered api)).1
                (check_manual_changes bot false (answered api)).0).positions
            ≡ none)
  is_ignored-check_manual_changes bot api k p e n =
      let after = (check_manual_changes bot false (answered api)).0 in
      let es = (check_manual_changes bot false (answered api)).1 in
      (
        ground (
          arith,
          is_ignored-run_sells es after p.symbol,
          sells_symbol-check_manual_changes bot api k p e n,
        ),
        rw (positions-run_sells es after)
            (ground (arith, lookup-check_manual_changes bot api k, e, n)),
      )
