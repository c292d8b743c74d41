-- ===== src/Bot/Close/Keys.antt =====
-- The keys of a bot's positions, and what a close leaves of them.
use lightspeed_trading_clean.Base.{
  ℕ, String, ◌≡◌, refl, inl, inr, Bool, true, none, some, List, [], ◌∷◌, ◌==◌, string_eq, arith,
  ==_iff, if◌then◌else◌,
}
use lightspeed_trading_clean.Base.Dict.{Dict, lookup, insert, erase, lookup-erase}
use lightspeed_trading_clean.Numbers.{FloatOps, Conversions, DecimalOps}
use lightspeed_trading_clean.Update.{Update, switch_side}
use lightspeed_trading_clean.Config.{BotConfig}
use lightspeed_trading_clean.Bot.{Bot, BotPosition, Symbol, OpenUpdate, OrderRes, ExchangeClient}
use lightspeed_trading_clean.Bot.Hash.{get_pos_hash, position_hash}
use lightspeed_trading_clean.Bot.Open.{our_side, open_position}
use lightspeed_trading_clean.Bot.Open.Limits.{stored_position, open_position-Stored}
use lightspeed_trading_clean.Bot.Close.{
  after_close, close_position, close_order, on_successfull_close, run_closes,
}
use lightspeed_trading_clean.Bot.Close.Orders.{MayClose, sent}

module _ {D : Type 0} where
  -- Each position stands under its own key.
  abbrev pub Keyed : Dict String (BotPosition D) → Type 0
  Keyed [] = Unit {0}
  Keyed ((k, p) ∷ d) = (position_hash p ≡ k) × Keyed d

  pub lookup-Keyed :
      (k : String) (p : BotPosition D) (d : Dict String (BotPosition D))
      → Keyed d
      → lookup k d ≡ some p
      → position_hash p ≡ k
  unfolding lookup
  lookup-Keyed k p [] kd e = ground arith
  lookup-Keyed k p ((j, q) ∷ d) kd e = ground (arith, ==_iff j k, lookup-Keyed k p d kd.1)

  pub insert-Keyed :
      (k : String) (p : BotPosition D) (d : Dict String (BotPosition D))
      → Keyed d
      → position_hash p ≡ k
      → Keyed (insert k p d)
  unfolding insert
  insert-Keyed k p [] kd e = (e, tt)
  insert-Keyed k p ((j, q) ∷ d) kd e = ground (arith, ==_iff j k, insert-Keyed k p d kd.1 e)

  pub erase-Keyed : (k : String) (d : Dict String (BotPosition D)) → Keyed d → Keyed (erase k d)
  unfolding erase
  erase-Keyed k [] kd = tt
  erase-Keyed k ((j, q) ∷ d) kd = ground (arith, erase-Keyed k d kd.1)

  -- When a close has run, its position is gone from the bot, every other is as it was, and each position
  -- still stands under its own key.
  pub on_successfull_close_lem :
      (bot : Bot D) (exc : ExchangeClient D) (p : BotPosition D) (ping : Bool) (k : String)
      → Keyed bot.positions
      → (lookup k (on_successfull_close bot exc p ping).0.positions
          ≡ (if position_hash p == k then none else lookup k bot.positions))
        × Keyed (on_successfull_close bot exc p ping).0.positions
  unfolding on_successfull_close
  on_successfull_close_lem bot exc p ping k kd = (
    lookup-erase (position_hash p) k bot.positions,
    erase-Keyed (position_hash p) bot.positions kd,
  )

module _ {D : Type 0} ⦃dec : DecimalOps D⦄ where
  run_closes-after_close :
      (bot : Bot D) (exc : ExchangeClient D) (p : BotPosition D) (r : OrderRes D)
      (rs : List (OrderRes D))
      → (run_closes exc (after_close bot p (close_order p ∷ []) (r ∷ rs)).events bot).positions
        ≡ erase (position_hash p) bot.positions
  unfolding run_closes after_close on_successfull_close
  run_closes-after_close bot exc p r rs = refl

module _ {F D : Type 0} ⦃dec : DecimalOps D⦄ where
  -- Where each position stands under its own key: after a close of a stored position is sent and the
  -- exchange gives a result, and once the goroutine it starts has run, exactly that position is gone.
  pub lookup-run_closes :
      (bot : Bot D) (upd : Update F D) (force : Bool) (config : BotConfig D)
      (exc : ExchangeClient D) (p : BotPosition D) (r : OrderRes D) (rs : List (OrderRes D))
      (k : String)
      → Keyed bot.positions
      → MayClose bot upd force config
      → lookup (get_pos_hash upd.symbol (our_side config upd.side)) bot.positions ≡ some p
      → exc.place_order p.symbol (switch_side p.side) p.qty true none none ≡ r ∷ rs
      → lookup k
          (run_closes exc (close_position bot upd force (some config) exc).events bot).positions
        ≡ (if get_pos_hash upd.symbol (our_side config upd.side) == k
            then none
            else lookup k bot.positions)
  lookup-run_closes bot upd force config exc p r rs k kd may at answer =
      rw
        (
          sent bot upd force config exc p may (rw at refl),
          answer,
          run_closes-after_close bot exc p r rs,
          lookup-Keyed (get_pos_hash upd.symbol (our_side config upd.side)) p bot.positions kd at,
        )
        (lookup-erase (get_pos_hash upd.symbol (our_side config upd.side)) k bot.positions)

module _ {F D : Type 0} ⦃fl : FloatOps F⦄ ⦃conv : Conversions F D⦄ ⦃dec : DecimalOps D⦄ where
  -- openPosition stores its position under that position's own key, where the exchange answers a request
  -- for a symbol with a position of that symbol on the side that was ordered.
  pub open_position-Keyed :
      (bot : Bot D) (upd : OpenUpdate F D) (config : BotConfig D) (data_ : Symbol D)
      (exc : ExchangeClient D) (now after : ℕ) (got : BotPosition D)
      → Keyed bot.positions
      → exc.get_my_position upd.upd.symbol ≡ some got
      → got.symbol ≡ upd.upd.symbol
      → got.side ≡ our_side config upd.upd.side
      → Keyed (open_position bot upd (some config) data_ exc now after).bot.positions
  open_position-Keyed bot upd config data_ exc now after got kd at symbol side =
      elim (open_position-Stored bot upd config data_ exc now after) [
        | inl (inl (es, end, same)) ↦ rw same kd
        | inr (end, same) ↦ rw same kd
        | inl (inr (got', es, end, at', stored)) ↦ rw stored (
            insert-Keyed (get_pos_hash upd.upd.symbol (our_side config upd.upd.side))
              (stored_position config after got') bot.positions kd
              (ground (arith, at, at', symbol, side)))
      ]
