-- ===== src/Dispatch/Cycle.antt =====
-- A bot through an open and a close of its trader.
use lightspeed_trading_clean.Base.{
  ℕ, ◌+◌, String, ◌≡◌, refl, ◌⊎◌, inl, inr, Bool, true, false, Option, none, some, List, [], ◌∷◌,
  string_eq, arith, length, is_some, Option-cases, Bool-cases, ==_refl, not, ◌&&◌,
}
use lightspeed_trading_clean.Base.Dict.{lookup, lookup-insert}
use lightspeed_trading_clean.Numbers.{FloatOps, Conversions, DecimalOps}
use lightspeed_trading_clean.Update.{Update}
use lightspeed_trading_clean.Config.{BotConfig}
use lightspeed_trading_clean.Bot.{
  Bot, BotPosition, OpenUpdate, OrderRes, ExchangeClient, Event, BotError, Ending, returned,
  panicked, Outcome,
}
use lightspeed_trading_clean.Bot.Hash.{get_pos_hash}
use lightspeed_trading_clean.Bot.Ignore.{is_ignored, is_ignored-ignore, un_ignore_lem, Unique}
use lightspeed_trading_clean.Bot.Open.{our_side, open_panic, open_position}
use lightspeed_trading_clean.Bot.Open.Checks.{MayAsk, Indivisible, open_panic-Indivisible}
use lightspeed_trading_clean.Bot.Open.Limits.{stored_position, open_position-Settled}
use lightspeed_trading_clean.Bot.Close.{
  close_position, close_refusal, after_close, position_at, close_order,
}
use lightspeed_trading_clean.Dispatch.{
  Around, DispatchError, Dispatched, after_open, is_failure, after_close_dispatch, open_for,
  close_for, Tally, tally_errs, collect_results, returned_error, panic_error,
}

module _ {F D : Type 0} ⦃fl : FloatOps F⦄ ⦃conv : Conversions F D⦄ ⦃dec : DecimalOps D⦄ where
  -- The bot is as it was, since openPosition panicked.
  abbrev pub OpenPanicked : OpenUpdate F D → Around D → BotConfig D → Bot D → Type 0
  OpenPanicked upd a config bot =
      MayAsk bot upd config a.now
      × Indivisible bot upd config a.data_
      × ((open_for upd a bot).errs ≡ some panic_error ∷ [])
      × ((open_for upd a bot).bot ≡ bot)

  panicked-open_for :
      (upd : OpenUpdate F D) (a : Around D) (config : BotConfig D) (bot : Bot D)
      (events : List (Event D))
      → a.config ≡ some config
      → open_panic bot upd config a.data_ a.exc a.now ≡ some events
      → OpenPanicked upd a config bot
  unfolding open_for after_open open_position
  panicked-open_for upd a config bot events e p =
      let (asks, zero_, quiet) =
        open_panic-Indivisible bot upd config a.data_ a.exc a.now events p in
      (asks, zero_, rw (e, p, open_position) refl, rw (e, p, open_position) refl)

  -- After a trader's open has reached a bot whose settings can be read, the bot has the position under
  -- the key of the symbol and its side, or ignores the symbol, or openPosition panicked: that happens only
  -- where the checks before the quantity pass and the market price is 0, or the price step of a limit is, or
  -- the quantity cannot be split into orders; then the bot is as it was, and the result is the panic.
  pub open_for_lem :
      (upd : OpenUpdate F D) (a : Around D) (config : BotConfig D) (bot : Bot D)
      → a.config ≡ some config
      → (is_some (
            lookup
              (get_pos_hash upd.upd.symbol (our_side config upd.upd.side))
              (open_for upd a bot).bot.positions)
          ≡ true)
        ⊎ (is_ignored (open_for upd a bot).bot upd.upd.symbol ≡ true)
        ⊎ OpenPanicked upd a config bot
  unfolding open_for after_open
  open_for_lem upd a config bot e =
      let key = get_pos_hash upd.upd.symbol (our_side config upd.upd.side) in
      elim (Option-cases (open_panic bot upd config a.data_ a.exc a.now)) [
        | inr (events, p) ↦ inr (inr (panicked-open_for upd a config bot events e p))
        | inl p ↦ (elim (open_position-Settled bot upd config a.data_ a.exc a.now a.after p) [
          | inl (es, end, same) ↦ inr (
              inl (
                rw (e, end, after_open)
                  (ground (
                    arith,
                    is_ignored-ignore
                        (open_position bot upd (some config) a.data_ a.exc a.now a.after).bot
                        upd.upd.symbol upd.upd.symbol,
                    ==_refl upd.upd.symbol,
                  ))))
          | inr (got, es, end, at, stored) ↦ inl (
              rw e (
                rw (end, after_open, stored)
                  (ground (
                    arith,
                    ==_refl key,
                    lookup-insert key key (stored_position config a.after got) bot.positions,
                  ))))
        ])
      ]

-- A result that closePositions takes for a failure.
abbrev failed_close : Ending → Bool
failed_close panicked = false
failed_close (returned closed errs) = not closed && is_failure errs

Ending-cases :
    (e : Ending)
    → (e ≡ panicked) ⊎ ((ok : Bool) × (errs : List (Option BotError)) × (e ≡ returned ok errs))
Ending-cases panicked = inl refl
Ending-cases (returned ok errs) = inr (ok, errs, refl)

module _ {D : Type 0} where
  heeds-dispatch :
      (symbol : String) (out : Outcome D)
      → is_ignored out.bot symbol ≡ false
      → failed_close out.ending ≡ false
      → is_ignored (after_close_dispatch symbol out).bot symbol ≡ false
  unfolding after_close_dispatch
  heeds-dispatch symbol out h f = elim (Ending-cases out.ending) [
    | inl e ↦ rw (e, after_close_dispatch) h
    | inr (closed, errs, e) ↦ ground (arith, e, h, f)
  ]

  after_close-heeds :
      (bot : Bot D) (p : BotPosition D) (before : List (Event D)) (results : List (OrderRes D))
      (symbol : String)
      → is_ignored bot symbol ≡ false
      → (is_ignored (after_close bot p before results).bot symbol ≡ false)
        × (failed_close (after_close bot p before results).ending ≡ false)
  unfolding after_close
  after_close-heeds bot p before [] symbol h = (h, refl)
  after_close-heeds bot p before (r ∷ rs) symbol h = (h, refl)

module _ {F D : Type 0} ⦃dec : DecimalOps D⦄ where
  close_position-heeds :
      (upd : Update F D) (config : BotConfig D) (bot : Bot D) (exc : ExchangeClient D)
      → Unique bot.ignore_list
      → (is_ignored (close_position bot upd false (some config) exc).bot upd.symbol ≡ false)
        × (failed_close (close_position bot upd false (some config) exc).ending ≡ false)
  unfolding close_position
  close_position-heeds upd config bot exc u =
      let found = lookup (get_pos_hash upd.symbol (our_side config upd.side)) bot.positions in
      elim (Bool-cases (is_ignored bot upd.symbol)) [
        | inl i ↦ rw (i, close_position) ((un_ignore_lem bot upd.symbol upd.symbol u).0, refl)
        | inr h ↦ (elim (Option-cases (close_refusal found false config)) [
          | inr (r, c) ↦ rw (h, c, close_position) (h, refl)
          | inl c ↦
              rw (h, c, close_position)
                (after_close-heeds bot (position_at found) (close_order (position_at found) ∷ []) _
                  upd.symbol h)
        ])
      ]

  -- After a trader's close has reached a bot whose settings can be read and whose ignore list has no
  -- symbol twice, the bot does not ignore the symbol.
  pub close_for_lem :
      (upd : Update F D) (a : Around D) (config : BotConfig D) (bot : Bot D)
      → a.config ≡ some config
      → Unique bot.ignore_list
      → is_ignored (close_for upd a bot).bot upd.symbol ≡ false
  unfolding close_for
  close_for_lem upd a config bot e u =
      let heeds = close_position-heeds upd config bot a.exc u in
      rw e (
        heeds-dispatch upd.symbol (close_position bot upd false (some config) a.exc) heeds.0
          heeds.1)

tally_errs_lem :
    (es : List (Option DispatchError)) (t : Tally)
    → (tally_errs es t).num_err
        + (tally_errs es t).num_order
        + (tally_errs es t).num_no_trade_decision
      ≡ length es + (t.num_err + t.num_order + t.num_no_trade_decision)
unfolding tally_errs
tally_errs_lem [] t = omega arith
tally_errs_lem (none ∷ es) t =
    omega (arith, tally_errs_lem es (record t { num_order = t.num_order + 1 }))
tally_errs_lem (some panic_error ∷ es) t =
    omega (arith, tally_errs_lem es (record t { num_err = t.num_err + 1 }))
tally_errs_lem (some (returned_error e) ∷ es) t = ground (
  arith,
  tally_errs_lem es (record t { num_no_trade_decision = t.num_no_trade_decision + 1 }),
  tally_errs_lem es (record t { num_err = t.num_err + 1 }),
)

module _ {D : Type 0} where
  abbrev pub num_errs : List (Dispatched D) → ℕ
  num_errs [] = 0
  num_errs (r ∷ rs) = length r.errs + num_errs rs

  -- The counters of logAndCollectResults add up to the number of results of all bots.
  pub collect_results_lem :
      (rs : List (Dispatched D)) (t : Tally)
      → (collect_results rs t).num_err
          + (collect_results rs t).num_order
          + (collect_results rs t).num_no_trade_decision
        ≡ num_errs rs + (t.num_err + t.num_order + t.num_no_trade_decision)
  unfolding collect_results
  collect_results_lem [] t = omega arith
  collect_results_lem (r ∷ rs) t =
      omega (arith, collect_results_lem rs (tally_errs r.errs t), tally_errs_lem r.errs t)
