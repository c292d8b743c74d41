-- ===== src/Trader/Updates.antt =====
-- The list that comparePositions makes, against a specification by key.
use lightspeed_trading_clean.Base.{
  ◌≡◌, refl, ap, ◌∙◌, Option, none, some, List, [], ◌∷◌, ◌++◌, map, arith, if◌then◌else◌,
  append-nil_lem, Option-cases, inl, inr, keep, keep-append,
}
use lightspeed_trading_clean.Numbers.{FloatOps, Conversions}
use lightspeed_trading_clean.Update.{Update}
use lightspeed_trading_clean.Trader.{
  TraderPosition, match_new, settle, compare_olds, compare_positions, open_update,
}
use lightspeed_trading_clean.Trader.Keys.{
  Key, key_eq, key_eq_iff, position_key, update_key, find, find_key, Distinct,
}
use lightspeed_trading_clean.Trader.Matching.{
  outcome, settle_updates, settle_rest, settle_rest-Distinct,
}

module _ {F D : Type 0} where
  -- The updates about one key, in order.
  abbrev pub about : Key → List (Update F D) → List (Update F D)
  about k us = keep (λ u. key_eq (update_key u) k) us

module _ {F D : Type 0} ⦃fl : FloatOps F⦄ ⦃conv : Conversions F D⦄ where
  -- What one key calls for: nothing, one open, one close, or one change if the quantity differs.
  abbrev pub expected : Option (TraderPosition F) → Option (TraderPosition F) → List (Update F D)
  expected none none = []
  expected none (some new) = open_update new ∷ []
  expected (some old) new = outcome old new

  about-outcome :
      (k : Key) (old : TraderPosition F) (news : List (TraderPosition F))
      → about {D = D} k (outcome old (find (position_key old) news))
        ≡ (if key_eq (position_key old) k then outcome old (find k news) else [])
  about-outcome k old news = elim (Option-cases (find (position_key old) news)) [
    | inl e ↦ rw e (ground (arith, key_eq_iff (position_key old) k))
    | inr (p, e) ↦ rw e (
        ground (
          arith,
          find_key (position_key old) news p e,
          key_eq_iff (position_key p) (position_key old),
          key_eq_iff (position_key old) k,
        ))
  ]

  about_opened :
      (k : Key) (ps : List (TraderPosition F))
      → Distinct ps
      → about {D = D} k (map open_update ps) ≡ expected none (find k ps)
  unfolding find
  about_opened k [] d = refl
  about_opened k (p ∷ ps) d = ground (arith, about_opened k ps d.1, key_eq_iff (position_key p) k)

  -- One round, seen at one key.
  round :
      (k : Key) (old : TraderPosition F) (olds news : List (TraderPosition F))
      (us : List (Update F D))
      → find (position_key old) olds ≡ none
      → Distinct news
      → (let r = settle old news (match_new old news 0 none us) in
          about k r.0 ++ expected (find k olds) (find k r.1))
        ≡ about k us ++ expected (find k (old ∷ olds)) (find k news)
  unfolding find
  round k old olds news us d e =
      rw (settle_updates old news us e, settle_rest old news us k e)
        (rw
          (
            keep-append (λ (u : Update F D). key_eq (update_key u) k) us
                (outcome old (find (position_key old) news)),
            about-outcome k old news,
          )
          (ground (
            arith,
            key_eq_iff (position_key old) k,
            append-nil_lem (about k us),
            append-nil_lem (about k us ++ outcome old (find k news)),
          )))

  compare_olds-about :
      (k : Key) (olds news : List (TraderPosition F)) (us : List (Update F D))
      → Distinct olds
      → Distinct news
      → (let r = compare_olds olds news us in about k (r.0 ++ map open_update r.1))
        ≡ about k us ++ expected (find k olds) (find k news)
  unfolding compare_olds find
  compare_olds-about k [] news us d e =
      keep-append (λ u. key_eq (update_key u) k) us _
      ∙ ap (◌++◌ (about k us)) (about_opened k news e)
  compare_olds-about k (old ∷ olds) news us d e =
      let r = settle old news (match_new old news 0 none us) in
      compare_olds-about k olds r.1 r.0 d.1 (settle_rest-Distinct old news us e)
      ∙ round k old olds news us d.0 e

  -- For old and new positions with no key twice, the updates about a key are those that its old
  -- and its new position call for, and no others.
  pub about-compare_positions :
      (k : Key) (olds news : List (TraderPosition F))
      → Distinct olds
      → Distinct news
      → about k (compare_positions olds news) ≡ expected (find k olds) (find k news)
  unfolding compare_positions
  about-compare_positions k olds news d e = compare_olds-about k olds news [] d e
