-- ===== src/Bot/Hash.antt =====
-- classes/funcs.go: the keys of a bot's positions.
use Prim.Native.String.{◌++◌ as str_append}
use text.Mathlib.TextLemmas.{append_cancel_left, cons-append}
use Prim.Native.Char.{code}
use lightspeed_trading_clean.Base.{String, ◌≡◌, ap, ◌∙◌, sym, inl, inr, ℕ, arith}
use lightspeed_trading_clean.Update.Sides.{IsSide}
use lightspeed_trading_clean.Bot.{BotPosition}

-- `GetPosHash`.
unfoldable pub get_pos_hash : String → String → String
get_pos_hash symbol side = str_append side symbol

module _ {D : Type 0} where
  -- `BotPosition.GetHash`.
  abbrev pub position_hash : BotPosition D → String
  position_hash p = get_pos_hash p.symbol p.side

first_code : String → ℕ
first_code String.[] = 0
first_code (String.◌∷◌ c s) = code c

buy_head : (s : String) → first_code (str_append "Buy" s) ≡ b'B'
unfolding first_code
buy_head s = ap first_code (cons-append _ "uy" s)

sell_head : (s : String) → first_code (str_append "Sell" s) ≡ b'S'
unfolding first_code
sell_head s = ap first_code (cons-append _ "ell" s)

heads :
    (x y a b s t : String)
    → s ≡ a
    → t ≡ b
    → str_append s x ≡ str_append t y
    → str_append a x ≡ str_append b y
heads x y a b s t p q e = cc

-- Two positions on a buy or a sell side have one key only if they have one symbol and one side.
pub get_pos_hash-injective :
    (symbol symbol' side side' : String)
    → IsSide side
    → IsSide side'
    → get_pos_hash symbol side ≡ get_pos_hash symbol' side'
    → (symbol ≡ symbol') × (side ≡ side')
unfolding get_pos_hash
get_pos_hash-injective x y s t (inl p) (inl q) e =
    (append_cancel_left "Buy" x y (heads x y "Buy" "Buy" s t p q e), p ∙ sym q)
get_pos_hash-injective x y s t (inr p) (inr q) e =
    (append_cancel_left "Sell" x y (heads x y "Sell" "Sell" s t p q e), p ∙ sym q)
get_pos_hash-injective x y s t (inl p) (inr q) e =
    absurd
      (omega (arith, buy_head x, sell_head y, ap first_code (heads x y "Buy" "Sell" s t p q e)))
get_pos_hash-injective x y s t (inr p) (inl q) e =
    absurd
      (omega (arith, sell_head x, buy_head y, ap first_code (heads x y "Sell" "Buy" s t p q e)))
