-- ===== src/Trades/Pnl.antt =====
-- pnlFinder.go, and getClosedPNL of exchangeClients.go: the pnl of a position that has been closed. What the
-- exchange answers is a function of the attempt.
use Prim.Native.String.{◌++◌ as str_append}
use lightspeed_trading_clean.Base.{
  ℕ, zero, suc, ◌+◌, ◌-◌, ◌%◌, ◌^◌, ◌⊎◌, inl, inr, String, Bool, Option, none, some, List, [], ◌∷◌,
  if◌then◌else◌, not, ltb,
}
use lightspeed_trading_clean.Base.Int.{ℤ, pos, negsuc, pos_part, neg_part, ◌*ℤ◌}
use lightspeed_trading_clean.Numbers.{FloatOps, DecimalOps, Conversions}

-- `ClosedPNL`.
pub record ClosedPnl (F D : Type 0) : Type 0 where
  pub symbol : String
  pub pnl : F
  pub qty : D
  pub avg_exit_price : D

-- An entry of the exchange's answer, with the fields that are read.
pub record CloPnl : Type 0 where
  pub closed_pnl : String
  pub qty : String
  pub avg_exit_price : String

-- An integer as an int64 holds it.
unfoldable pub wrap_int64 : ℤ → ℤ
wrap_int64 z =
    let u : ℕ = (pos_part z % 2 ^ 64 + 2 ^ 64 - neg_part z % 2 ^ 64) % 2 ^ 64 in
    if ltb u (2 ^ 63) then pos u else negsuc (2 ^ 64 - u - 1)

module _ {F D : Type 0} (parse_float : String → String ⊎ F)
    (parse_decimal : String → String ⊎ D) where
  -- The body of the loop of `getClosedPNL`.
  unfoldable pub closed_pnl_of : String → CloPnl → String ⊎ ClosedPnl F D
  closed_pnl_of symbol clo_pnl = elim (parse_float clo_pnl.closed_pnl) [
    | inl err ↦ inl (str_append "failed to parse pnl as float, " err)
    | inr pnl ↦ (elim (parse_decimal clo_pnl.qty) [
      | inl err ↦ inl (str_append "failed to parse qty as decimal, " err)
      | inr qty ↦ (elim (parse_decimal clo_pnl.avg_exit_price) [
        | inl err ↦ inl (str_append "failed to parse avg exit price as decimal, " err)
        | inr avg_exit ↦
            inr (record { symbol = symbol; pnl = pnl; qty = qty; avg_exit_price = avg_exit })
      ])
    ])
  ]

  unfoldable pub parse_closed : String → List CloPnl → String ⊎ List (ClosedPnl F D)
  unfolding closed_pnl_of
  parse_closed symbol [] = inr []
  parse_closed symbol (clo_pnl ∷ rest) = elim (closed_pnl_of symbol clo_pnl) [
    | inl err ↦ inl err
    | inr pnl ↦ (elim (parse_closed symbol rest) [
      | inl err ↦ inl err
      | inr pnls ↦ inr (pnl ∷ pnls)
    ])
  ]

  -- `getClosedPNL`: the seconds are sent as milliseconds.
  unfoldable pub get_closed_pnl :
      (String → Option ℤ → String ⊎ List CloPnl) → String → Option ℤ → String ⊎ List (ClosedPnl F D)
  unfolding parse_closed wrap_int64
  get_closed_pnl request symbol closed_after =
      let start : Option ℤ = elim closed_after [
        | none ↦ none
        | some seconds ↦ some (wrap_int64 (seconds *ℤ pos 1000))
      ] in
      elim (request symbol start) [
        | inl err ↦ inl (str_append "failed to make request, " err)
        | inr entries ↦ parse_closed symbol entries
      ]

module _ {D : Type 0} ⦃dec : DecimalOps D⦄ where
  -- `isClose`.
  unfoldable pub is_close : D → D → D → Bool
  is_close a b tolerance = not (dec.ltb tolerance (dec.abs (dec.sub a b)))

module _ {F D : Type 0} ⦃fl : FloatOps F⦄ ⦃dec : DecimalOps D⦄ ⦃conv : Conversions F D⦄ where
  -- The first pnl whose quantity is within 0.01 of the position's.
  unfoldable pub find_close : D → List (ClosedPnl F D) → Option (ClosedPnl F D)
  unfolding is_close
  find_close qty [] = none
  find_close qty (pnl ∷ pnls) =
      let rest = find_close qty pnls in
      if is_close pnl.qty qty (conv.from_float (fl.hundredths 1)) then some pnl else rest

  -- The loop `for i := 1; i <= 10; i++` of `getPnl`, with the attempts left and the error that is held.
  unfoldable pub pnl_loop :
      (ℕ → String ⊎ List (ClosedPnl F D)) → D → ℕ → ℕ → Option String → String ⊎ ClosedPnl F D
  unfolding find_close
  pnl_loop answers qty zero i none = inl "failed to get pnl, timeout"
  pnl_loop answers qty zero i (some err) = inl (str_append "failed to get pnl, " err)
  pnl_loop answers qty (suc left) i held = elim (answers i) [
    | inl err ↦ pnl_loop answers qty left (suc i) (some err)
    | inr pnls ↦ (elim (find_close qty pnls) [
      | some pnl ↦ inr pnl
      | none ↦ pnl_loop answers qty left (suc i) none
    ])
  ]

  -- What `getPnl` returns once the symbol is free.
  unfoldable pub get_pnl : (ℕ → String ⊎ List (ClosedPnl F D)) → D → String ⊎ ClosedPnl F D
  unfolding pnl_loop
  get_pnl answers qty = pnl_loop answers qty 10 1 none
