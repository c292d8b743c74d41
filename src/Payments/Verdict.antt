-- ===== src/Payments/Verdict.antt =====
-- When VerifyPayment finds a payment good.
use lightspeed_trading_clean.Base.{
  String, ◌≡◌, ◌↔◌, inl, inr, refl, Bool, true, false, Option, none, some, List, [], ◌∷◌, string_eq,
  arith, ==_iff, Option-cases,
}
use lightspeed_trading_clean.Numbers.{FloatOps}
use lightspeed_trading_clean.Payments.{
  PaymentsHdlr, PaymentSentRequest, Tick, retrieve_failed, pending, completed, received,
  check_payment_success, Plan, expected_usd, verdict, verify_payment,
}
use lightspeed_trading_clean.Payments.Claims.{Check-cases}

module _ {F : Type 0} where
  -- The first tick that finds the transaction completed finds it sent to the wallet, with a value.
  abbrev pub Completes : List (Tick F) → String → F → Type 0
  Completes [] wallet value = ⊥
  Completes (retrieve_failed ∷ ticks) wallet value = Completes ticks wallet value
  Completes (pending ∷ ticks) wallet value = Completes ticks wallet value
  Completes (completed none v ∷ ticks) wallet value = ⊥
  Completes (completed (some recipient) v ∷ ticks) wallet value = (recipient ≡ wallet) × (v ≡ value)

  check_iff :
      (ticks : List (Tick F)) (wallet : String) (value : F)
      → (check_payment_success ticks wallet ≡ received value) ↔ Completes ticks wallet value
  unfolding check_payment_success
  check_iff [] wallet value = ground arith
  check_iff (retrieve_failed ∷ ticks) wallet value = check_iff ticks wallet value
  check_iff (pending ∷ ticks) wallet value = check_iff ticks wallet value
  check_iff (completed none v ∷ ticks) wallet value = ground arith
  check_iff (completed (some recipient) v ∷ ticks) wallet value =
      ground (arith, ==_iff recipient wallet)

module _ {F : Type 0} ⦃fl : FloatOps F⦄ where
  -- At least 95 percent of what the plan costs went to the wallet, at a known price of a known plan.
  abbrev pub IsPaid :
      PaymentSentRequest → String → List (Tick F) → Option F → Option (Plan F) → Type 0
  IsPaid req wallet ticks price? plan? =
      (value : F) × (price : F) × (plan : Plan F) × Completes ticks wallet value
      × (price? ≡ some price)
      × (plan? ≡ some plan)
      × (fl.ltb (fl.mul value price) (fl.mul (expected_usd plan req.is_renewal) (fl.hundredths 95))
          ≡ false)

  verdict_iff :
      (qty : F) (price? : Option F) (plan? : Option (Plan F)) (is_renewal : Bool)
      → verdict qty price? plan? is_renewal ≡ none
      → (price : F) × (plan : Plan F) × (price? ≡ some price)
        × (plan? ≡ some plan)
        × (fl.ltb (fl.mul qty price) (fl.mul (expected_usd plan is_renewal) (fl.hundredths 95))
            ≡ false)
  unfolding verdict
  verdict_iff qty none plan? is_renewal e = absurd (ground (arith, e))
  verdict_iff qty (some price) none is_renewal e = absurd (ground (arith, e))
  verdict_iff qty (some price) (some plan) is_renewal e =
      (price, plan, refl, refl, ground (arith, e))

  good :
      (payments : PaymentsHdlr F) (req : PaymentSentRequest) (wallet : String)
      (ticks : List (Tick F)) (price? : Option F) (plan? : Option (Plan F)) (after : PaymentsHdlr F)
      → verify_payment payments req wallet ticks price? plan? ≡ some (after, true)
      → (qty : F) × (check_payment_success ticks wallet ≡ received qty)
        × (verdict qty price? plan? req.is_renewal ≡ none)
  unfolding verify_payment
  good payments req wallet ticks price? plan? after e =
      elim (Check-cases (check_payment_success ticks wallet)) [
        | inl (qty, c) ↦ (elim (Option-cases (verdict qty price? plan? req.is_renewal)) [
          | inl v ↦ (qty, c, v)
          | inr (err, v) ↦ absurd (ground (arith, c, v, e))
        ])
        | inr (inl (err, c)) ↦ absurd (ground (arith, c, e))
        | inr (inr c) ↦ absurd (ground (arith, c, e))
      ]

  paid :
      (payments : PaymentsHdlr F) (req : PaymentSentRequest) (wallet : String)
      (ticks : List (Tick F)) (price? : Option F) (plan? : Option (Plan F)) (after : PaymentsHdlr F)
      (ok : Bool) (qty : F)
      → verify_payment payments req wallet ticks price? plan? ≡ some (after, ok)
      → check_payment_success ticks wallet ≡ received qty
      → verdict qty price? plan? req.is_renewal ≡ none
      → ok ≡ true
  unfolding verify_payment
  paid payments req wallet ticks price? plan? after ok qty e c v = ground (arith, e, c, v)

  -- VerifyPayment, where it does not crash, finds a payment good just where the price and the plan are
  -- known, the first tick with a completed transaction finds it sent to the wallet, and its value at
  -- that price is not below 95 percent of what the plan costs.
  pub verify_payment-IsPaid :
      (payments : PaymentsHdlr F) (req : PaymentSentRequest) (wallet : String)
      (ticks : List (Tick F)) (price? : Option F) (plan? : Option (Plan F)) (after : PaymentsHdlr F)
      (ok : Bool)
      → verify_payment payments req wallet ticks price? plan? ≡ some (after, ok)
      → (ok ≡ true) ↔ IsPaid req wallet ticks price? plan?
  unfolding verdict
  verify_payment-IsPaid payments req wallet ticks price? plan? after ok e = (
    λ yes.
        let (qty, c, v) = good payments req wallet ticks price? plan? after (rw (← yes) e) in
        let (price, plan, a, b, enough) = verdict_iff qty price? plan? req.is_renewal v in
        (qty, price, plan, (check_iff ticks wallet qty).0 c, a, b, enough),
    λ h.
        let (qty, price, plan, completes, a, b, enough) = h in
        paid payments req wallet ticks price? plan? after ok qty e
          ((check_iff ticks wallet qty).1 completes) (rw (a, b, verdict) (ground (arith, enough))),
  )
