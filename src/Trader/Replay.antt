-- ===== src/Trader/Replay.antt =====
-- The updates of comparePositions as seen by a copier that replays them.
use lightspeed_trading_clean.Base.{
  ◌≡◌, refl, Option, none, some, List, [], ◌∷◌, ◌++◌, arith, ◌==◌, ◌∙◌, if◌then◌else◌, string_eq,
  Bool-cases, inl, inr, sym,
}
use lightspeed_trading_clean.Numbers.{FloatOps, FloatLaws, Conversions}
use lightspeed_trading_clean.Update.{Update, close_ls}
use lightspeed_trading_clean.Trader.{TraderPosition, compare_positions}
use lightspeed_trading_clean.Trader.Keys.{
  Key, key_eq, key_eq_iff, position_key, update_key, find, find_key, Distinct,
}
use lightspeed_trading_clean.Trader.Updates.{about, expected, about-compare_positions}

-- What is held under each key, as an absolute quantity.
abbrev pub Holdings : Type 0 → Type 0
Holdings F = Key → Option F

module _ {F D : Type 0} where
  -- A close forgets the key, an open or a change sets its quantity.
  abbrev pub follow : Update F D → Holdings F → Holdings F
  follow u h k =
      if key_eq (update_key u) k then (if u.type == close_ls then none else some u.bin_qty) else h k

  abbrev pub replay : List (Update F D) → Holdings F → Holdings F
  replay [] h = h
  replay (u ∷ us) h = replay us (follow u h)

  pub replay-append :
      (us vs : List (Update F D)) (h : Holdings F) → replay (us ++ vs) h ≡ replay vs (replay us h)
  replay-append [] vs h = refl
  replay-append (u ∷ us) vs h = replay-append us vs (follow u h)

  -- Only the updates about a key bear on it, and only what was held under it.
  replay-about :
      (k : Key) (us : List (Update F D)) (g h : Holdings F)
      → g k ≡ h k
      → replay us g k ≡ replay (about k us) h k
  replay-about k [] g h e = e
  replay-about k (u ∷ us) g h e = elim (Bool-cases (key_eq (update_key u) k)) [
    | inl hit ↦ rw hit (replay-about k us (follow u g) (follow u h) (rw hit))
    | inr miss ↦ rw miss (replay-about k us (follow u g) h (rw miss e))
  ]

  pub replay_agrees :
      (k : Key) (us : List (Update F D)) (g h : Holdings F)
      → g k ≡ h k
      → replay us g k ≡ replay us h k
  replay_agrees k us g h e = replay-about k us g h e ∙ sym (replay-about k us h h refl)

module _ {F : Type 0} ⦃fl : FloatOps F⦄ where
  abbrev pub amount : Option (TraderPosition F) → Option F
  amount none = none
  amount (some p) = some (fl.abs p.qty)

  abbrev pub holdings : List (TraderPosition F) → Holdings F
  holdings ps k = amount (find k ps)

module _ {F : Type 0} (D : Type 0) ⦃fl : FloatOps F⦄ ⦃conv : Conversions F D⦄
    (law : FloatLaws fl) where
  replay-expected :
      (k : Key) (h : Holdings F) (o n : Option (TraderPosition F))
      → ((p : TraderPosition F) → o ≡ some p → position_key p ≡ k)
      → ((p : TraderPosition F) → n ≡ some p → position_key p ≡ k)
      → h k ≡ amount o
      → replay (expected {D = D} o n) h k ≡ amount n
  replay-expected k h none none ko kn e = e
  replay-expected k h none (some n) ko kn e =
      ground (arith, kn n refl, key_eq_iff (position_key n) k)
  replay-expected k h (some o) none ko kn e =
      ground (arith, ko o refl, key_eq_iff (position_key o) k)
  replay-expected k h (some o) (some n) ko kn e =
      ground (arith, kn n refl, key_eq_iff (position_key n) k, law.eqb-abs o.qty n.qty)

  -- For two readings with no key twice, and floats that have one absolute value where they compare
  -- equal: replaying the updates between the readings turns the holdings of the first into those of
  -- the second, at every key.
  pub replay-compare_positions :
      (k : Key) (olds news : List (TraderPosition F))
      → Distinct olds
      → Distinct news
      → replay (compare_positions {D = D} olds news) (holdings olds) k ≡ holdings news k
  replay-compare_positions k olds news d e =
      replay-about k (compare_positions olds news) (holdings olds) (holdings olds) refl
      ∙ rw (about-compare_positions {D = D} k olds news d e) (
          replay-expected k (holdings olds) (find k olds) (find k news) (find_key k olds)
            (find_key k news) refl)
