-- ===== src/Exchange/Positions.antt =====
-- exchangeClients.go: what getMyPositions makes of the entries that the exchange lists.
use lightspeed_trading_clean.Base.{
  ℕ, suc, ◌≡◌, refl, ◌∙◌, ◌⊎◌, inl, inr, String, Option, none, some, List, [], ◌∷◌, ◌==◌, string_eq,
  arith, if◌then◌else◌, Sum-cases,
}
use lightspeed_trading_clean.Base.Dict.{Dict, lookup, insert, lookup-insert}
use lightspeed_trading_clean.Bot.{BotPosition}
use lightspeed_trading_clean.Bot.Hash.{position_hash}
use lightspeed_trading_clean.Bot.Close.Keys.{Keyed, insert-Keyed}
use lightspeed_trading_clean.Exchange.Client.{
  BybPos, ◌>>=◌, bot_pos_from_byb_pos, collect_positions, get_my_positions,
}

module _ {D : Type 0} where
  -- The last position of a list with a hash.
  abbrev pub last_with : String → List (BotPosition D) → Option (BotPosition D)
  last_with k [] = none
  last_with k (p ∷ ps) = elim (last_with k ps) [
    | some q ↦ some q
    | none ↦ if position_hash p == k then some p else none
  ]

  abbrev or_else : Option (BotPosition D) → Option (BotPosition D) → Option (BotPosition D)
  or_else none o = o
  or_else (some p) o = some p

  or_else-none : (o : Option (BotPosition D)) → or_else o none ≡ o
  or_else-none none = refl
  or_else-none (some p) = refl

module _ {D : Type 0} (parse_decimal : String → String ⊎ D) (clock : ℕ → ℕ) where
  -- Each entry, from the i-th on, reads as the position in its place.
  abbrev pub AllRead : ℕ → List BybPos → List (BotPosition D) → Type 0
  AllRead i [] [] = Unit
  AllRead i [] (p ∷ ps) = ⊥
  AllRead i (b ∷ bs) [] = ⊥
  AllRead i (b ∷ bs) (p ∷ ps) =
      (bot_pos_from_byb_pos parse_decimal (clock i) b ≡ inr p) × AllRead (suc i) bs ps

  -- The first entry, from the i-th on, that cannot be read gives this error.
  abbrev pub FirstUnread : ℕ → List BybPos → String → Type 0
  FirstUnread i [] err = ⊥
  FirstUnread i (b ∷ bs) err =
      (bot_pos_from_byb_pos parse_decimal (clock i) b ≡ inl err)
      ⊎ ((p : BotPosition D) × (bot_pos_from_byb_pos parse_decimal (clock i) b ≡ inr p)
          × FirstUnread (suc i) bs err)

  -- The map that the loop ends with, from the map that it starts with.
  abbrev Collected :
      ℕ → List BybPos → Dict String (BotPosition D) → Dict String (BotPosition D) → Type 0
  Collected i list start d =
      (ps : List (BotPosition D)) × AllRead i list ps
      × Keyed d
      × ((k : String) → lookup k d ≡ or_else (last_with k ps) (lookup k start))

  lookup-collected :
      (k : String) (p : BotPosition D) (ps : List (BotPosition D))
      (start : Dict String (BotPosition D))
      → or_else (last_with k ps) (lookup k (insert (position_hash p) p start))
        ≡ or_else (last_with k (p ∷ ps)) (lookup k start)
  lookup-collected k p ps start = ground (arith, lookup-insert (position_hash p) k p start)

  collect_positions_lem :
      (i : ℕ) (list : List BybPos) (start : Dict String (BotPosition D))
      → Keyed start
      → ((d : Dict String (BotPosition D)) × (collect_positions parse_decimal clock i list start
            ≡ inr d)
          × Collected i list start d)
        ⊎ ((err : String) × (collect_positions parse_decimal clock i list start ≡ inl err)
            × FirstUnread i list err)
  unfolding collect_positions
  collect_positions_lem i [] start keyed = inl (start, refl, ([], tt, keyed, λ k. refl))
  collect_positions_lem i (b ∷ bs) start keyed =
      elim (Sum-cases (bot_pos_from_byb_pos parse_decimal (clock i) b)) [
        | inl (err, e) ↦ inr (err, rw (e, ◌>>=◌) refl, inl e)
        | inr (p, e) ↦
            (elim (collect_positions_lem (suc i) bs (insert (position_hash p) p start)
              (insert-Keyed (position_hash p) p start keyed refl)) [
                | inl (d, same, c) ↦ inl (
                  d,
                  rw (e, ◌>>=◌) same,
                  (p ∷ c.0, (e, c.1), c.2, λ k. c.3 k ∙ lookup-collected k p c.0 start),
                )
                | inr (err, same, bad) ↦ inr (err, rw (e, ◌>>=◌) same, inr (p, e, bad))
              ])
      ]

  -- What getMyPositions returns for the entries of an answer: where all can be read, a map in which each
  -- position stands under its own hash, and which holds under every hash the last entry with it and
  -- nothing else; where one cannot, the error of the first such entry.
  pub lookup-get_my_positions :
      (list : List BybPos)
      → ((d : Dict String (BotPosition D)) × (ps : List (BotPosition D)) × (get_my_positions
              parse_decimal clock
              (inr list)
            ≡ inr d)
          × AllRead 0 list ps
          × Keyed d
          × ((k : String) → lookup k d ≡ last_with k ps))
        ⊎ ((err : String) × (get_my_positions parse_decimal clock (inr list) ≡ inl err)
            × FirstUnread 0 list err)
  unfolding get_my_positions lookup
  lookup-get_my_positions list = elim (collect_positions_lem 0 list [] tt) [
    | inl (d, same, c) ↦ inl (d, c.0, same, c.1, c.2, λ k. c.3 k ∙ or_else-none (last_with k c.0))
    | inr (err, same, bad) ↦ inr (err, same, bad)
  ]
