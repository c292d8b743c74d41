-- ===== src/Trader/Matching.antt =====
-- The inner loop of comparePositions: what it finds for an old position.
use lightspeed_trading_clean.Base.{
  ℕ, suc, ◌+◌, ◌≡◌, refl, Option, none, some, List, [], ◌∷◌, ◌++◌, arith, if◌then◌else◌,
  append-nil_lem, ◌⊎◌, inl, inr, Bool-cases,
}
use native.Mathlib.Nat.{zero-add}
use lightspeed_trading_clean.Numbers.{FloatOps, Conversions}
use lightspeed_trading_clean.Update.{Update}
use lightspeed_trading_clean.Trader.{TraderPosition, match_new, settle, change_update, close_update}
use lightspeed_trading_clean.Trader.Keys.{
  Key, key_eq, key_eq_iff, position_key, same_position-eq, find, Distinct,
}
use lightspeed_trading_clean.Trader.Removal.{index_of, find-swap_remove, swap_remove-Distinct}

-- `thisPosIndex` after a loop from index `i`, by where the match stands.
abbrev located : ℕ → Option ℕ → Option ℕ → Option ℕ
located i found none = found
located i found (some j) = some (i + j)

module _ {F : Type 0} where
  found-index_of :
      (k : Key) (ps : List (TraderPosition F))
      → ((find k ps ≡ none) × (index_of k ps ≡ none))
        ⊎ ((p : TraderPosition F) × (j : ℕ) × (find k ps ≡ some p) × (index_of k ps ≡ some j))
  unfolding find index_of
  found-index_of k [] = inl (refl, refl)
  found-index_of k (p ∷ ps) = elim (Bool-cases (key_eq (position_key p) k)) [
    | inl here ↦ inr (p, 0, rw here, rw here)
    | inr there ↦ elim (found-index_of k ps) [
      | inl (e, f) ↦ inl (rw there e, ground arith)
      | inr (q, j, e, f) ↦ inr (q, suc j, rw there e, ground arith)
    ]
  ]

module _ {F D : Type 0} ⦃fl : FloatOps F⦄ ⦃conv : Conversions F D⦄ where
  -- The update for one old position, by what has become of it.
  abbrev pub outcome : TraderPosition F → Option (TraderPosition F) → List (Update F D)
  outcome old none = close_update old ∷ []
  outcome old (some new) = if fl.eqb old.qty new.qty then [] else change_update old new ∷ []

  abbrev changes : TraderPosition F → Option (TraderPosition F) → List (Update F D)
  changes old none = []
  changes old (some new) = if fl.eqb old.qty new.qty then [] else change_update old new ∷ []

  -- A key that is not among the new positions leaves the loop's variables alone.
  match_new_absent :
      (old : TraderPosition F) (news : List (TraderPosition F)) (i : ℕ) (found : Option ℕ)
      (us : List (Update F D))
      → find (position_key old) news ≡ none
      → match_new old news i found us ≡ (found, us)
  unfolding match_new find
  match_new_absent old [] i found us h = refl
  match_new_absent old (n ∷ news) i found us h = ground (
    arith,
    same_position-eq old n,
    key_eq_iff (position_key old) (position_key n),
    key_eq_iff (position_key n) (position_key old),
    match_new_absent old news (suc i) found us,
  )

  match_new_lem :
      (old : TraderPosition F) (news : List (TraderPosition F)) (i : ℕ) (found : Option ℕ)
      (us : List (Update F D))
      → Distinct news
      → match_new old news i found us ≡ (
        located i found (index_of (position_key old) news),
        us ++ changes old (find (position_key old) news),
      )
  unfolding match_new find index_of
  match_new_lem old [] i found us d = rw append-nil_lem refl
  match_new_lem old (n ∷ news) i found us d = ground (
    arith,
    append-nil_lem us,
    same_position-eq old n,
    key_eq_iff (position_key old) (position_key n),
    key_eq_iff (position_key n) (position_key old),
    match_new_lem old news (suc i) found us d.1,
    match_new_absent old news (suc i) (some i) (us ++ change_update old n ∷ []),
  )

  -- One round of the outer loop adds the outcome for `old`, and takes its key off the new positions.
  pub settle_updates :
      (old : TraderPosition F) (news : List (TraderPosition F)) (us : List (Update F D))
      → Distinct news
      → (settle old news (match_new old news 0 none us)).0
        ≡ us ++ outcome old (find (position_key old) news)
  unfolding settle
  settle_updates old news us d = elim (found-index_of (position_key old) news) [
    | inl (e, f) ↦ rw (match_new_absent old news 0 none us e, e)
    | inr (p, j, e, f) ↦ rw (match_new_lem old news 0 none us d, f, e)
  ]

  pub settle_rest :
      (old : TraderPosition F) (news : List (TraderPosition F)) (us : List (Update F D)) (q : Key)
      → Distinct news
      → find q (settle old news (match_new old news 0 none us)).1
        ≡ (if key_eq (position_key old) q then none else find q news)
  unfolding settle
  settle_rest old news us q d = elim (found-index_of (position_key old) news) [
    | inl (e, f) ↦
        rw (match_new_absent old news 0 none us e) (ground (arith, key_eq_iff (position_key old) q))
    | inr (p, j, e, f) ↦
        rw (match_new_lem old news 0 none us d, f, zero-add j)
          (find-swap_remove (position_key old) q news j d f)
  ]

  pub settle_rest-Distinct :
      (old : TraderPosition F) (news : List (TraderPosition F)) (us : List (Update F D))
      → Distinct news
      → Distinct (settle old news (match_new old news 0 none us)).1
  unfolding settle
  settle_rest-Distinct old news us d = elim (found-index_of (position_key old) news) [
    | inl (e, f) ↦ rw (match_new_absent old news 0 none us e) d
    | inr (p, j, e, f) ↦
        rw (match_new_lem old news 0 none us d, f, zero-add j)
          (swap_remove-Distinct (position_key old) news j d f)
  ]
