-- ===== src/Payments.antt =====
-- payments.go and handlersPayments.go: a user claims a transaction, the server waits for it on the
-- chain, and the user asks how it went. What the chain, the price service and the database answer
-- is given.
pub mod Claims
pub mod Owners
pub mod Verdict
pub mod Accounts
mod Tests
use lightspeed_trading_clean.Base.{
  ℕ, zero, suc, ◌+◌, String, Bool, true, false, Option, none, some, List, [], ◌∷◌, ◌==◌, string_eq,
  if◌then◌else◌, not, ◌&&◌,
}
use lightspeed_trading_clean.Base.Dict.{Dict, lookup, insert, erase}
use lightspeed_trading_clean.Numbers.{FloatOps}

-- `Payment` of classes/payments.go.
pub record Payment (F : Type 0) : Type 0 where
  pub user_id : String
  pub tx_id : String
  pub is_success : Bool
  pub received_qty_eth : F
  pub err_str : String

-- `PaymentsHdlr`: the payments by their key. The mutex orders the operations.
abbrev pub PaymentsHdlr : Type 0 → Type 0
PaymentsHdlr F = Dict String (Payment F)

abbrev pub get_payments_key : String → String
get_payments_key tx_id = tx_id

pub record PaymentSentRequest : Type 0 where
  pub plan : String
  pub tx_id : String
  pub is_renewal : Bool

pub data Claim : Type 0 where
  claimed : Claim
  not_claimed : String → Claim
  claim_failed : Claim

-- The loop of TryClaimTx over `retries` attempts, of which the first has the number `i`: whether the
-- transaction is pending, or none where every attempt fails.
unfoldable pub find_tx : (ℕ → Option Bool) → ℕ → ℕ → Option Bool
find_tx answers i zero = none
find_tx answers i (suc retries) =
    let rest = find_tx answers (i + 1) retries in
    elim (answers i) [ none ↦ rest | some pending ↦ some pending ]

-- What the chain client answers: HexToHash reads a text as a number of 32 bytes, and TransactionByHash says, at each
-- attempt, whether the transaction is pending.
pub record Chain : Type 0 where
  pub hex_to_hash : String → ℕ
  pub transaction_by_hash : ℕ → ℕ → Option Bool

abbrev pub answers_of : Chain → String → ℕ → Option Bool
answers_of chain tx_id = chain.transaction_by_hash (chain.hex_to_hash tx_id)

module _ {F : Type 0} ⦃fl : FloatOps F⦄ where
  -- `TryClaimTx`. Payments are kept under the text of the id, and the chain is asked for the
  -- hash that this text stands for.
  unfoldable pub try_claim_tx : PaymentsHdlr F → String → String → Chain → PaymentsHdlr F × Claim
  unfolding find_tx
  try_claim_tx payments user_id tx_id chain = elim (lookup (get_payments_key tx_id) payments) [
    | some p ↦ (payments, not_claimed "Payment already claimed by a different user.")
    | none ↦ (elim (find_tx (answers_of chain tx_id) 1 3) [
      | none ↦ (payments, claim_failed)
      | some false ↦ (payments, not_claimed "Payment cannot be claimed")
      | some true ↦ (
        insert (get_payments_key tx_id)
            (record {
              user_id = user_id;
              tx_id = tx_id;
              is_success = false;
              received_qty_eth = fl.zero;
              err_str = "";
            })
            payments,
        claimed,
      )
    ])
  ]

-- What a tick of checkPaymentSuccess finds: an error, a pending transaction, or a completed one with
-- its recipient (none for a contract creation) and its value in eth.
pub data Tick (F : Type 0) : Type 0 where
  retrieve_failed pending : Tick F
  completed : Option String → F → Tick F

pub data Check (F : Type 0) : Type 0 where
  received : F → Check F
  failed : String → Check F
  crashed : Check F

module _ {F : Type 0} where
  -- `checkPaymentSuccess`, over the ticks before the timeout. The address of a recipient that is nil
  -- panics.
  unfoldable pub check_payment_success : List (Tick F) → String → Check F
  check_payment_success [] wallet = failed "payment timeout, took too long to be confirmed"
  check_payment_success (retrieve_failed ∷ ticks) wallet = check_payment_success ticks wallet
  check_payment_success (pending ∷ ticks) wallet = check_payment_success ticks wallet
  check_payment_success (completed none value ∷ ticks) wallet = crashed
  check_payment_success (completed (some recipient) value ∷ ticks) wallet =
      if recipient == wallet then received value else failed "payment sent to the incorrect wallet"

-- The costs of a plan.
pub record Plan (F : Type 0) : Type 0 where
  pub cost_per_month : F
  pub initial_payment : F

module _ {F : Type 0} ⦃fl : FloatOps F⦄ where
  -- What a plan costs: the first time, the initial payment is added.
  abbrev pub expected_usd : Plan F → Bool → F
  expected_usd p is_renewal =
      if is_renewal then p.cost_per_month else fl.add p.cost_per_month p.initial_payment

  -- The end of VerifyPayment for an eth quantity: the error to store, or none.
  unfoldable pub verdict : F → Option F → Option (Plan F) → Bool → Option String
  verdict qty none plan is_renewal = some "Internal server error"
  verdict qty (some price) none is_renewal = some "Internal server error"
  verdict qty (some price) (some p) is_renewal =
      if fl.ltb (fl.mul qty price) (fl.mul (expected_usd p is_renewal) (fl.hundredths 95))
      then some "Insufficient payment received"
      else none

  -- The zero value of Payment, which a read of a missing key gives.
  abbrev pub zero_payment : Payment F
  zero_payment = record {
    user_id = "";
    tx_id = "";
    is_success = false;
    received_qty_eth = fl.zero;
    err_str = "";
  }

  -- `VerifyPayment`: the payments afterwards and whether the payment is good; none if the check
  -- crashed.
  unfoldable pub verify_payment :
      PaymentsHdlr F
      → PaymentSentRequest
      → String
      → List (Tick F)
      → Option F
      → Option (Plan F)
      → Option (PaymentsHdlr F × Bool)
  unfolding check_payment_success verdict
  verify_payment payments req wallet ticks price plan =
      let key = get_payments_key req.tx_id in
      let p : Payment F = elim (lookup key payments) [ none ↦ zero_payment | some p ↦ p ] in
      elim (check_payment_success ticks wallet) [
        | crashed ↦ none
        | failed err ↦
            some
              (insert key (record p { received_qty_eth = fl.zero; err_str = err }) payments, false)
        | received qty ↦ (elim (verdict qty price plan req.is_renewal) [
          | some err ↦
              some (insert key (record p { received_qty_eth = qty; err_str = err }) payments, false)
          | none ↦
              some
                (insert key (record p { received_qty_eth = qty; is_success = true }) payments, true)
        ])
      ]

-- A response: the status code and the fields that both responses have.
pub record Response : Type 0 where
  pub code : ℕ
  pub status : String
  pub err : String

-- `PaymentSentResponse`.
pub record SentResponse : Type 0 where
  pub code : ℕ
  pub in_progress : Bool
  pub err : String

module _ {F : Type 0} ⦃fl : FloatOps F⦄ where
  -- `onPaymentSent` up to its response, and whether the verification starts. `user_id?` and `req?` are
  -- the results of the authorisation and of the decoder.
  unfoldable pub on_payment_sent :
      PaymentsHdlr F
      → Option String
      → Option PaymentSentRequest
      → Chain
      → PaymentsHdlr F × SentResponse × Bool
  unfolding try_claim_tx
  on_payment_sent payments none req? chain =
      (payments, record { code = 401; in_progress = false; err = "Authorization error" }, false)
  on_payment_sent payments (some user_id) none chain =
      (payments, record { code = 400; in_progress = false; err = "Badly formatted request" }, false)
  on_payment_sent payments (some user_id) (some req) chain =
      let tried = try_claim_tx payments user_id req.tx_id chain in
      elim tried.1 [
        | claim_failed ↦ (
          tried.0,
          record { code = 500; in_progress = false; err = "Internal server error" },
          false,
        )
        | not_claimed reason ↦ (
          tried.0,
          record { code = 400; in_progress = false; err = "Can't verify payment" },
          false,
        )
        | claimed ↦ (tried.0, record { code = 200; in_progress = true; err = "" }, true)
      ]

module _ {F : Type 0} where
  -- The status of a payment.
  unfoldable pub status_of : Payment F → String
  status_of p =
      if not p.is_success && p.err_str == ""
      then "pending"
      else if p.is_success
      then "success"
      else "fail"

  -- `onCheckPaymentStatus`.
  unfoldable pub on_check_payment_status :
      PaymentsHdlr F → Option String → Option PaymentSentRequest → PaymentsHdlr F × Response
  unfolding status_of
  on_check_payment_status payments none req? =
      (payments, record { code = 401; status = "null"; err = "Authorization error" })
  on_check_payment_status payments (some user_id) none =
      (payments, record { code = 400; status = "null"; err = "Badly formatted request" })
  on_check_payment_status payments (some user_id) (some req) =
      let key = get_payments_key req.tx_id in
      elim (lookup key payments) [
        | none ↦ (payments, record { code = 200; status = "null"; err = "" })
        | some p ↦
            if not (p.user_id == user_id)
            then (
              payments,
              record {
                code = 400;
                status = "null";
                err = "This payment is claimed by another user.";
              },
            )
            else if not p.is_success && p.err_str == ""
            then (payments, record { code = 200; status = status_of p; err = "" })
            else (
              erase key payments,
              record {
                code = 200;
                status = status_of p;
                err = if p.is_success then "" else p.err_str;
              },
            )
      ]
