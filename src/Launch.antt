-- ===== src/Launch.antt =====
-- launch.go, findStartupMonitors: the bots and the signals of each trader, from the rows of the database.
mod Tests
use lightspeed_trading_clean.Base.{
  String, ◌≡◌, refl, ◌⊎◌, inl, inr, Bool, true, false, Option, none, some, List, [], ◌∷◌, ◌++◌,
  ◌==◌, string_eq, arith, if◌then◌else◌, not, ◌&&◌, ◌||◌, keep, get_last?, append-nil_lem, ==_iff,
  ==_refl, Bool-cases, Option-cases, ap,
}
use lightspeed_trading_clean.Base.Dict.{Dict, lookup, insert, lookup-insert}
use lightspeed_trading_clean.Config.{BotConfig, BotStatus, active, inactive, starting, stopping}

-- `SignalConfig` of db/signalConfig.go.
pub record SignalConfig : Type 0 where
  pub user_id : String
  pub binance_id : String
  pub target_url : String

abbrev is_active : BotStatus → Bool
is_active active = true
is_active _ = false

module _ {A : Type 0} where
  -- `m[key]` of a map of lists: a missing key reads as nil.
  abbrev pub list_at : String → Dict String (List A) → List A
  list_at k d = elim (lookup k d) [ none ↦ [] | some xs ↦ xs ]

module _ {D : Type 0} where
  -- The loop over the bots: the active ones with a trader, by trader.
  unfoldable pub group_bots :
      List (BotConfig D) → Dict String (List (BotConfig D)) → Dict String (List (BotConfig D))
  group_bots [] groups = groups
  group_bots (b ∷ bots) groups = group_bots bots (
      if not (is_active b.bot_status) || b.binance_id == ""
      then groups
      else (elim (lookup b.binance_id groups) [
        | none ↦ insert b.binance_id (b ∷ []) groups
        | some bs ↦ insert b.binance_id (bs ++ b ∷ []) groups
      ]))

  -- A bot is to be started for a trader.
  abbrev pub starts_for : String → BotConfig D → Bool
  starts_for uid b = not (not (is_active b.bot_status) || b.binance_id == "") && b.binance_id == uid

-- The loop over the signals, with the branches as they stand in the code.
unfoldable pub group_signals :
    List SignalConfig → Dict String (List SignalConfig) → Dict String (List SignalConfig)
group_signals [] groups = groups
group_signals (s ∷ signals) groups = group_signals signals (
    if s.binance_id == "" then groups else (elim (lookup s.binance_id groups) [
      | none ↦ insert s.binance_id (list_at s.binance_id groups ++ s ∷ []) groups
      | some ss ↦ insert s.binance_id (s ∷ []) groups
    ]))

-- A signal is for a trader.
abbrev pub is_for : String → SignalConfig → Bool
is_for uid s = not (s.binance_id == "") && s.binance_id == uid

module _ {D : Type 0} where
  append_assoc_lem :
      (xs ys : List (BotConfig D)) (b : BotConfig D) → (xs ++ b ∷ []) ++ ys ≡ xs ++ b ∷ ys
  append_assoc_lem [] ys b = refl
  append_assoc_lem (x ∷ xs) ys b = ap (◌∷◌ x) (append_assoc_lem xs ys b)

  grown :
      (b : BotConfig D) (bots bs : List (BotConfig D)) (groups : Dict String (List (BotConfig D)))
      (uid : String)
      → bs ≡ list_at b.binance_id groups ++ b ∷ []
      → list_at uid (group_bots bots (insert b.binance_id bs groups))
        ≡ list_at uid (insert b.binance_id bs groups) ++ keep (starts_for uid) bots
      → list_at uid (group_bots bots (insert b.binance_id bs groups))
        ≡ list_at uid groups
          ++ (if b.binance_id == uid
              then b ∷ keep (starts_for uid) bots
              else keep (starts_for uid) bots)
  grown b bots bs groups uid added h = elim (Bool-cases (b.binance_id == uid)) [
    | inl y ↦
        let same : b.binance_id ≡ uid = (==_iff b.binance_id uid).0 y in
        let at : list_at b.binance_id groups ≡ list_at uid groups =
          ap (λ k. list_at k groups) same in
        ground (
          arith,
          y,
          added,
          at,
          h,
          lookup-insert b.binance_id uid bs groups,
          append_assoc_lem (list_at uid groups) (keep (starts_for uid) bots) b,
        )
    | inr n ↦ ground (arith, n, h, lookup-insert b.binance_id uid bs groups)
  ]

  -- Each trader's group holds exactly the active bots on that trader, in the order of the rows, after
  -- those that were there before.
  pub group_bots_lem :
      (bots : List (BotConfig D)) (groups : Dict String (List (BotConfig D))) (uid : String)
      → list_at uid (group_bots bots groups) ≡ list_at uid groups ++ keep (starts_for uid) bots
  unfolding group_bots
  group_bots_lem [] groups uid = ground (arith, append-nil_lem (list_at uid groups))
  group_bots_lem (b ∷ bots) groups uid =
      elim (Bool-cases (not (is_active b.bot_status) || b.binance_id == "")) [
        | inl skip ↦ rw (skip, group_bots) (ground (arith, skip, group_bots_lem bots groups uid))
        | inr take_it ↦ (elim (Option-cases (lookup b.binance_id groups)) [
          | inl n ↦
              rw (take_it, n, group_bots)
                (grown b bots (b ∷ []) groups uid (ground (arith, n))
                  (group_bots_lem bots (insert b.binance_id (b ∷ []) groups) uid))
          | inr (bs, n) ↦
              rw (take_it, n, group_bots)
                (grown b bots (bs ++ b ∷ []) groups uid (ground (arith, n))
                  (group_bots_lem bots (insert b.binance_id (bs ++ b ∷ []) groups) uid))
        ])
      ]

-- The list of the one signal that there may be.
abbrev pub one : Option SignalConfig → Option (List SignalConfig)
one none = none
one (some s) = some (s ∷ [])

-- The last signal for a trader, or the one before.
last_from : String → Option SignalConfig → List SignalConfig → Option SignalConfig
last_from uid o [] = o
last_from uid o (t ∷ ts) = last_from uid (if is_for uid t then some t else o) ts

get_last?-cons :
    (x : SignalConfig) (xs : List SignalConfig)
    → get_last? (x ∷ xs) ≡ (elim (get_last? xs) [ none ↦ some x | some y ↦ some y ])
get_last?-cons x [] = refl
get_last?-cons x (y ∷ ys) = ground (arith, get_last?-cons y ys)

last_from-keep :
    (uid : String) (o : Option SignalConfig) (ts : List SignalConfig)
    → last_from uid o ts ≡ (elim (get_last? (keep (is_for uid) ts)) [ none ↦ o | some t ↦ some t ])
unfolding last_from
last_from-keep uid o [] = refl
last_from-keep uid o (t ∷ ts) = ground (
  arith,
  get_last?-cons t (keep (is_for uid) ts),
  last_from-keep uid (some t) ts,
  last_from-keep uid o ts,
)

step-signals :
    (t : SignalConfig) (signals : List SignalConfig) (groups : Dict String (List SignalConfig))
    (uid : String) (o : Option SignalConfig)
    → lookup uid groups ≡ one o
    → (elim (lookup t.binance_id groups) [
      | none ↦ lookup uid (insert t.binance_id (list_at t.binance_id groups ++ t ∷ []) groups)
      | some ss ↦ lookup uid (insert t.binance_id (t ∷ []) groups)
    ])
      ≡ one (if t.binance_id == uid then some t else o)
step-signals t signals groups uid o h = ground (
  arith,
  h,
  ==_iff t.binance_id uid,
  lookup-insert t.binance_id uid (t ∷ []) groups,
  lookup-insert t.binance_id uid (list_at t.binance_id groups ++ t ∷ []) groups,
)

group_signals-last :
    (signals : List SignalConfig) (groups : Dict String (List SignalConfig)) (uid : String)
    (o : Option SignalConfig)
    → lookup uid groups ≡ one o
    → lookup uid (group_signals signals groups) ≡ one (last_from uid o signals)
unfolding group_signals last_from
group_signals-last [] groups uid o h = h
group_signals-last (t ∷ signals) groups uid o h = elim (Bool-cases (t.binance_id == "")) [
  | inl skip ↦
      rw (skip, group_signals) (ground (arith, skip, group_signals-last signals groups uid o h))
  | inr full ↦ (elim (Option-cases (lookup t.binance_id groups)) [
    | inl n ↦
        rw (full, n, group_signals)
          (group_signals-last signals
            (insert t.binance_id (list_at t.binance_id groups ++ t ∷ []) groups) uid
            (if t.binance_id == uid then some t else o)
            (ground (arith, n, step-signals t signals groups uid o h)))
    | inr (ss, n) ↦
        rw (full, n, group_signals)
          (group_signals-last signals (insert t.binance_id (t ∷ []) groups) uid
            (if t.binance_id == uid then some t else o)
            (ground (arith, n, step-signals t signals groups uid o h)))
  ])
]

-- Of a trader's signals, only the one of the last row is found: the others are lost.
pub group_signals_lem :
    (signals : List SignalConfig) (uid : String)
    → lookup uid (group_signals signals []) ≡ one (get_last? (keep (is_for uid) signals))
unfolding lookup
group_signals_lem signals uid =
    ground (arith, group_signals-last signals [] uid none refl, last_from-keep uid none signals)
