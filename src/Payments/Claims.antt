-- ===== src/Payments/Claims.antt =====
-- Who owns a payment, and how a claim ends.
use lightspeed_trading_clean.Base.{
  ℕ, String, ◌≡◌, ◌≢◌, ◌↔◌, ◌⊎◌, inl, inr, refl, Bool, true, false, Option, none, some, List, [],
  ◌∷◌, ◌==◌, string_eq, arith, if◌then◌else◌, ==_iff, ==_refl, Option-cases, ap,
}
use lightspeed_trading_clean.Base.Dict.{lookup, insert, lookup-insert, lookup-erase}
use lightspeed_trading_clean.Numbers.{FloatOps}
use lightspeed_trading_clean.Payments.{
  Payment, PaymentsHdlr, PaymentSentRequest, Chain, answers_of, claimed, find_tx, try_claim_tx,
  Tick, retrieve_failed, pending, completed, Check, received, failed, crashed,
  check_payment_success, Plan, verdict, zero_payment, verify_payment, status_of,
  on_check_payment_status,
}

nonempty : (s : String) → (s == "") ≡ false → s ≢ ""
nonempty s e h = ground (arith, ==_iff s "", e)

-- The first of three attempts that does not fail finds a pending transaction.
abbrev pub FoundPending : (ℕ → Option Bool) → Type 0
FoundPending answers =
    (answers 1 ≡ some true)
    ⊎ ((answers 1 ≡ none) × (answers 2 ≡ some true))
    ⊎ ((answers 1 ≡ none) × (answers 2 ≡ none) × (answers 3 ≡ some true))

module _ {F : Type 0} ⦃fl : FloatOps F⦄ where
  -- The payment that a claim stores.
  abbrev pub fresh : String → String → Payment F
  fresh user_id tx_id = record zero_payment { user_id = user_id; tx_id = tx_id }

  -- A claim succeeds just where nobody has the transaction and the first of three attempts that does not
  -- fail finds it pending. Then it is stored for the user, with no other payment changed; a claim
  -- that does not succeed changes nothing.
  pub try_claim_tx_lem :
      (payments : PaymentsHdlr F) (user_id tx_id : String) (chain : Chain) (k : String)
      → (((try_claim_tx payments user_id tx_id chain).1 ≡ claimed)
          ↔ ((lookup tx_id payments ≡ none) × FoundPending (answers_of chain tx_id)))
        × (lookup k (try_claim_tx payments user_id tx_id chain).0
            ≡ (elim (try_claim_tx payments user_id tx_id chain).1 [
              | claimed ↦ if tx_id == k then some (fresh user_id tx_id) else lookup k payments
              | _ ↦ lookup k payments
            ]))
  unfolding try_claim_tx find_tx
  try_claim_tx_lem payments user_id tx_id chain k =
      (ground arith, ground (arith, lookup-insert tx_id k (fresh user_id tx_id) payments))

  pub at-key :
      {j k : String} (payments : PaymentsHdlr F) → j ≡ k → lookup j payments ≡ lookup k payments
  at-key payments e = ap (λ t. lookup t payments) e

  -- The stored payment of a request.
  abbrev pub stored_at : String → PaymentsHdlr F → Payment F
  stored_at tx_id payments = elim (lookup tx_id payments) [ none ↦ zero_payment | some p ↦ p ]

  pub Check-cases :
      (c : Check F)
      → ((qty : F) × (c ≡ received qty)) ⊎ (((err : String) × (c ≡ failed err)) ⊎ (c ≡ crashed))
  Check-cases (received qty) = inl (qty, refl)
  Check-cases (failed err) = inr (inl (err, refl))
  Check-cases crashed = inr (inr refl)

  failed-nonempty :
      (ticks : List (Tick F)) (wallet err : String)
      → check_payment_success ticks wallet ≡ failed err
      → err ≢ ""
  unfolding check_payment_success
  failed-nonempty [] wallet err e =
      ground (arith, e, nonempty "payment timeout, took too long to be confirmed" refl)
  failed-nonempty (retrieve_failed ∷ ticks) wallet err e = failed-nonempty ticks wallet err e
  failed-nonempty (pending ∷ ticks) wallet err e = failed-nonempty ticks wallet err e
  failed-nonempty (completed none value ∷ ticks) wallet err e = ground (arith, e)
  failed-nonempty (completed (some recipient) value ∷ ticks) wallet err e =
      ground (arith, e, nonempty "payment sent to the incorrect wallet" refl)

  verdict-nonempty :
      (qty : F) (price : Option F) (plan : Option (Plan F)) (is_renewal : Bool) (err : String)
      → verdict qty price plan is_renewal ≡ some err
      → err ≢ ""
  unfolding verdict
  verdict-nonempty qty none plan is_renewal err e =
      ground (arith, e, nonempty "Internal server error" refl)
  verdict-nonempty qty (some price) none is_renewal err e =
      ground (arith, e, nonempty "Internal server error" refl)
  verdict-nonempty qty (some price) (some p) is_renewal err e =
      ground (arith, e, nonempty "Insufficient payment received" refl)

  pub verified-cases :
      (payments : PaymentsHdlr F) (req : PaymentSentRequest) (wallet : String)
      (ticks : List (Tick F)) (price : Option F) (plan : Option (Plan F)) (after : PaymentsHdlr F)
      (ok : Bool)
      → verify_payment payments req wallet ticks price plan ≡ some (after, ok)
      → (q : Payment F) × (after ≡ insert req.tx_id q payments)
        × (q.user_id ≡ (stored_at req.tx_id payments).user_id)
        × (((ok ≡ true) × (q.is_success ≡ true))
            ⊎ ((ok ≡ false)
                × (q.is_success ≡ (stored_at req.tx_id payments).is_success)
                × (q.err_str ≢ "")))
  unfolding verify_payment
  verified-cases payments req wallet ticks price plan after ok e =
      let p = stored_at req.tx_id payments in
      elim (Check-cases (check_payment_success ticks wallet)) [
        | inl (qty, c) ↦ (elim (Option-cases (verdict qty price plan req.is_renewal)) [
          | inl v ↦
              let q = record p { received_qty_eth = qty; is_success = true } in
              let same : ◌≡◌ {A = Option (PaymentsHdlr F × Bool)}
                  (some (insert req.tx_id q payments, true)) (some (after, ok)) =
                rw (c, v, verify_payment) at e in
              (q, ground (arith, same), refl, inl (ground (arith, same), refl))
          | inr (err, v) ↦
              let q = record p { received_qty_eth = qty; err_str = err } in
              let same : ◌≡◌ {A = Option (PaymentsHdlr F × Bool)}
                  (some (insert req.tx_id q payments, false)) (some (after, ok)) =
                rw (c, v, verify_payment) at e in
              (
                q,
                ground (arith, same),
                refl,
                inr (
                  ground (arith, same),
                  refl,
                  verdict-nonempty qty price plan req.is_renewal err v,
                ),
              )
        ])
        | inr (inl (err, c)) ↦
            let q = record p { received_qty_eth = fl.zero; err_str = err } in
            let same : ◌≡◌ {A = Option (PaymentsHdlr F × Bool)}
                (some (insert req.tx_id q payments, false)) (some (after, ok)) =
              rw (c, verify_payment) at e in
            (
              q,
              ground (arith, same),
              refl,
              inr (ground (arith, same), refl, failed-nonempty ticks wallet err c),
            )
        | inr (inr c) ↦
            let no : ◌≡◌ {A = Option (PaymentsHdlr F × Bool)} none (some (after, ok)) =
              rw (c, verify_payment) at e in
            absurd (ground (arith, no))
      ]

  -- A stored payment that was no success is settled by a verification that does not crash: its owner is
  -- then told success or fail, as the verification found, and with that the payment is forgotten.
  pub status-verify_payment :
      (payments : PaymentsHdlr F) (p : Payment F) (req : PaymentSentRequest) (wallet : String)
      (ticks : List (Tick F)) (price : Option F) (plan : Option (Plan F)) (after : PaymentsHdlr F)
      (ok : Bool)
      → lookup req.tx_id payments ≡ some p
      → p.is_success ≡ false
      → verify_payment payments req wallet ticks price plan ≡ some (after, ok)
      → ((on_check_payment_status after (some p.user_id) (some req)).1.code ≡ 200)
        × ((on_check_payment_status after (some p.user_id) (some req)).1.status
            ≡ (if ok then "success" else "fail"))
        × (lookup req.tx_id (on_check_payment_status after (some p.user_id) (some req)).0 ≡ none)
  unfolding on_check_payment_status status_of
  status-verify_payment payments p req wallet ticks price plan after ok h unpaid e =
      let (q, stored, same, outcome) =
        verified-cases payments req wallet ticks price plan after ok e in
      rw stored (
        ground (
          arith,
          h,
          unpaid,
          same,
          outcome,
          ==_iff q.err_str "",
          ==_iff q.user_id p.user_id,
          ==_refl req.tx_id,
          lookup-insert req.tx_id req.tx_id q payments,
          lookup-erase req.tx_id req.tx_id (insert req.tx_id q payments),
        ))
