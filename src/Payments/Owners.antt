-- ===== src/Payments/Owners.antt =====
-- Who has a transaction (payments.go, handlersPayments.go).
use lightspeed_trading_clean.Base.{
  String, ◌≡◌, inl, inr, Bool, true, false, Option, none, some, List, [], ◌∷◌, ◌==◌, string_eq,
  arith, not, ◌&&◌, ==_iff, Option-cases, Bool-cases,
}
use lightspeed_trading_clean.Base.Dict.{lookup, lookup-insert, lookup-erase}
use lightspeed_trading_clean.Numbers.{FloatOps}
use lightspeed_trading_clean.Payments.{
  Payment, PaymentsHdlr, PaymentSentRequest, Chain, answers_of, claimed, not_claimed, try_claim_tx,
  Tick, Plan, verify_payment, on_payment_sent, on_check_payment_status,
}
use lightspeed_trading_clean.Payments.Claims.{
  FoundPending, try_claim_tx_lem, at-key, verified-cases,
}

-- Three kinds of events: a payment is sent, its verification ends, its status is asked for.
pub data Op (F : Type 0) : Type 0 where
  sent : Option String → Option PaymentSentRequest → Chain → Op F
  verified : PaymentSentRequest → String → List (Tick F) → Option F → Option (Plan F) → Op F
  asked : Option String → Option PaymentSentRequest → Op F

module _ {F : Type 0} where
  -- A user asks for the status of a transaction.
  abbrev pub asks : String → String → Op F → Bool
  asks user_id tx_id (asked (some u) (some req)) = u == user_id && req.tx_id == tx_id
  asks user_id tx_id _ = false

  abbrev pub never_asks : String → String → List (Op F) → Bool
  never_asks user_id tx_id [] = true
  never_asks user_id tx_id (op ∷ ops) = not (asks user_id tx_id op) && never_asks user_id tx_id ops

  -- The user who has a transaction.
  abbrev pub owner : String → PaymentsHdlr F → Option String
  owner tx_id payments = elim (lookup tx_id payments) [ none ↦ none | some p ↦ some p.user_id ]

module _ {F : Type 0} ⦃fl : FloatOps F⦄ where
  -- The payments after an event; a crash leaves them as they are.
  unfoldable pub after_op : Op F → PaymentsHdlr F → PaymentsHdlr F
  after_op (sent user_id? req? chain) payments = (on_payment_sent payments user_id? req? chain).0
  after_op (verified req wallet ticks price plan) payments =
      elim (verify_payment payments req wallet ticks price plan) [ none ↦ payments | some r ↦ r.0 ]
  after_op (asked user_id? req?) payments = (on_check_payment_status payments user_id? req?).0

  unfoldable pub after_ops : List (Op F) → PaymentsHdlr F → PaymentsHdlr F
  after_ops [] payments = payments
  after_ops (op ∷ ops) payments = after_ops ops (after_op op payments)

  owner-sent :
      (payments : PaymentsHdlr F) (user_id? : Option String) (req? : Option PaymentSentRequest)
      (chain : Chain) (tx_id user_id : String)
      → owner tx_id payments ≡ some user_id
      → owner tx_id (on_payment_sent payments user_id? req? chain).0 ≡ some user_id
  unfolding on_payment_sent
  owner-sent payments none req? chain tx_id user_id h = h
  owner-sent payments (some u) none chain tx_id user_id h = h
  owner-sent payments (some u) (some req) chain tx_id user_id h =
      ground (arith, h, ==_iff req.tx_id tx_id, try_claim_tx_lem payments u req.tx_id chain tx_id)

  owner-verified :
      (payments : PaymentsHdlr F) (req : PaymentSentRequest) (wallet : String)
      (ticks : List (Tick F)) (price : Option F) (plan : Option (Plan F)) (after : PaymentsHdlr F)
      (ok : Bool) (tx_id user_id : String)
      → owner tx_id payments ≡ some user_id
      → verify_payment payments req wallet ticks price plan ≡ some (after, ok)
      → owner tx_id after ≡ some user_id
  owner-verified payments req wallet ticks price plan after ok tx_id user_id h e =
      let (q, stored, same, outcome) =
        verified-cases payments req wallet ticks price plan after ok e in
      rw stored (elim (Bool-cases (req.tx_id == tx_id)) [
        | inl y ↦ ground (
          arith,
          y,
          h,
          same,
          at-key payments ((==_iff req.tx_id tx_id).0 y),
          lookup-insert req.tx_id tx_id q payments,
        )
        | inr n ↦ ground (arith, n, h, lookup-insert req.tx_id tx_id q payments)
      ])

  owner-asked :
      (payments : PaymentsHdlr F) (user_id? : Option String) (req? : Option PaymentSentRequest)
      (tx_id user_id : String)
      → owner tx_id payments ≡ some user_id
      → asks {F = F} user_id tx_id (asked user_id? req?) ≡ false
      → owner tx_id (on_check_payment_status payments user_id? req?).0 ≡ some user_id
  unfolding on_check_payment_status
  owner-asked payments none req? tx_id user_id h quiet = h
  owner-asked payments (some u) none tx_id user_id h quiet = h
  owner-asked payments (some u) (some req) tx_id user_id h quiet =
      elim (Bool-cases (req.tx_id == tx_id)) [
        | inl y ↦ ground (
          arith,
          y,
          h,
          quiet,
          ==_iff u user_id,
          ==_iff user_id u,
          at-key payments ((==_iff req.tx_id tx_id).0 y),
          λ (p : Payment F). ==_iff p.user_id u,
        )
        | inr n ↦ ground (arith, n, h, lookup-erase req.tx_id tx_id payments)
      ]

  owner-after_op :
      (op : Op F) (payments : PaymentsHdlr F) (tx_id user_id : String)
      → owner tx_id payments ≡ some user_id
      → asks user_id tx_id op ≡ false
      → owner tx_id (after_op op payments) ≡ some user_id
  unfolding after_op
  owner-after_op (sent u r chain) payments tx_id user_id h quiet =
      owner-sent payments u r chain tx_id user_id h
  owner-after_op (asked u r) payments tx_id user_id h quiet =
      owner-asked payments u r tx_id user_id h quiet
  owner-after_op (verified req wallet ticks price plan) payments tx_id user_id h quiet =
      elim (Option-cases (verify_payment payments req wallet ticks price plan)) [
        | inl e ↦ rw (e, after_op) h
        | inr ((after, ok), e) ↦
            rw (e, after_op)
              (owner-verified payments req wallet ticks price plan after ok tx_id user_id h e)
      ]

  -- Whatever claims, verifications and questions follow, the text of a transaction id stays with the user whose payment
  -- is kept under it until that user asks for the status of that text, and until then everybody else's claim of
  -- the same text is turned down. (Another text that stands for the same transaction is another key.)
  pub owner-after_ops :
      (ops : List (Op F)) (payments : PaymentsHdlr F) (tx_id user_id other : String) (chain : Chain)
      → owner tx_id payments ≡ some user_id
      → never_asks user_id tx_id ops ≡ true
      → (owner tx_id (after_ops ops payments) ≡ some user_id)
        × ((try_claim_tx (after_ops ops payments) other tx_id chain).1
            ≡ not_claimed "Payment already claimed by a different user.")
  unfolding after_ops try_claim_tx
  owner-after_ops [] payments tx_id user_id other chain h quiet = (h, ground (arith, h))
  owner-after_ops (op ∷ ops) payments tx_id user_id other chain h quiet =
      owner-after_ops ops (after_op op payments) tx_id user_id other chain
        (owner-after_op op payments tx_id user_id h (ground (arith, quiet))) (ground (arith, quiet))

  -- Two texts that stand for the same transaction, such as in capitals and in small letters, are claimed one by one: while one
  -- user has a pending transaction under one text, another user's claim of it under another text, which
  -- nobody has, is accepted, and then both have it.
  pub claimed-other_text :
      (payments : PaymentsHdlr F) (user_id other tx_id text : String) (chain : Chain)
      → owner tx_id payments ≡ some user_id
      → lookup text payments ≡ none
      → chain.hex_to_hash text ≡ chain.hex_to_hash tx_id
      → FoundPending (answers_of chain tx_id)
      → ((try_claim_tx payments other text chain).1 ≡ claimed)
        × (owner tx_id (try_claim_tx payments other text chain).0 ≡ some user_id)
        × (owner text (try_claim_tx payments other text chain).0 ≡ some other)
  claimed-other_text payments user_id other tx_id text chain h free same pending_ =
      let found : FoundPending (answers_of chain text) = rw (same, answers_of) pending_ in
      let claim : (try_claim_tx payments other text chain).1 ≡ claimed =
        (try_claim_tx_lem payments other text chain text).0.1 (free, found) in
      (
        claim,
        ground (
          arith,
          claim,
          h,
          free,
          ==_iff text tx_id,
          at-key {F = F} {j = text} {k = tx_id} payments,
          try_claim_tx_lem payments other text chain tx_id,
        ),
        ground (arith, claim, ==_iff text text, try_claim_tx_lem payments other text chain text),
      )
