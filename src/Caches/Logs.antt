-- ===== src/Caches/Logs.antt =====
-- classes/botLogs.go: the lines of a bot's log of the last 48 hours. Times are milliseconds.
use lightspeed_trading_clean.Base.{
  ℕ, ◌+◌, ◌-◌, ◌≤◌, ◌<◌, String, ◌≡◌, refl, Bool, List, [], ◌∷◌, ◌++◌, arith, if◌then◌else◌, ltb,
  keep,
}

pub record BotLog : Type 0 where
  pub ts : ℕ
  pub msg : String

-- The loop: the lines from the first that is younger than the cutoff on. `whole` is what remains if
-- there is none.
unfoldable pub trim : ℕ → List BotLog → List BotLog → List BotLog
trim cutoff whole [] = whole
trim cutoff whole (l ∷ ls) =
    let rest = trim cutoff whole ls in if ltb cutoff l.ts then l ∷ ls else rest

-- 48 hours.
abbrev pub max_age : ℕ
max_age = 172800000

-- `Logf`, with its two readings of the clock.
unfoldable pub logf : List BotLog → String → ℕ → ℕ → List BotLog
unfolding trim
logf logs msg now later =
    let all = logs ++ record { ts = now; msg = msg } ∷ [] in trim (later - max_age) all all

-- The lines are in the order of their times, none earlier than `since` and none later than `now`.
abbrev pub Ordered : ℕ → List BotLog → ℕ → Type 0
Ordered since [] now = since ≤ now
Ordered since (l ∷ ls) now = (since ≤ l.ts) × Ordered l.ts ls now

abbrev pub is_young : ℕ → BotLog → Bool
is_young cutoff l = ltb cutoff l.ts

keep-all :
    (cutoff since now : ℕ) (ls : List BotLog)
    → cutoff < since
    → Ordered since ls now
    → keep (is_young cutoff) ls ≡ ls
keep-all cutoff since now [] h o = refl
keep-all cutoff since now (l ∷ ls) h o = ground (arith, keep-all cutoff l.ts now ls, o)

trim-keep :
    (cutoff since now : ℕ) (whole ls : List BotLog) (msg : String)
    → cutoff < now
    → Ordered since ls now
    → trim cutoff whole (ls ++ record { ts = now; msg = msg } ∷ [])
      ≡ keep (is_young cutoff) ls ++ record { ts = now; msg = msg } ∷ []
unfolding trim
trim-keep cutoff since now whole [] msg h o = ground (arith, h)
trim-keep cutoff since now whole (l ∷ ls) msg h o =
    ground (arith, h, trim-keep cutoff l.ts now whole ls msg h o.1, keep-all cutoff l.ts now ls, o)

Ordered-earlier :
    (early since now : ℕ) (ls : List BotLog)
    → early ≤ since
    → Ordered since ls now
    → Ordered early ls now
Ordered-earlier early since now [] h o = omega (arith, h, o)
Ordered-earlier early since now (l ∷ ls) h o = (omega (arith, h, o.0), o.1)

Ordered-keep :
    (cutoff since now : ℕ) (ls : List BotLog) (msg : String)
    → Ordered since ls now
    → Ordered since (keep (is_young cutoff) ls ++ record { ts = now; msg = msg } ∷ []) now
Ordered-keep cutoff since now [] msg o = (o, omega arith)
Ordered-keep cutoff since now (l ∷ ls) msg o = ground (
  arith,
  o,
  Ordered-keep cutoff l.ts now ls msg o.1,
  Ordered-earlier since l.ts now (keep (is_young cutoff) ls ++ record { ts = now; msg = msg } ∷ [])
      o.0,
)

-- On lines in the order of their times, and with less than 48 hours between its readings of the clock,
-- Logf keeps exactly the lines of the last 48 hours and adds the new one, and the lines stay ordered.
pub logf_lem :
    (logs : List BotLog) (msg : String) (now later : ℕ)
    → Ordered 0 logs now
    → later < now + max_age
    → 0 < now
    → (logf logs msg now later
        ≡ keep (is_young (later - max_age)) logs ++ record { ts = now; msg = msg } ∷ [])
      × Ordered 0 (logf logs msg now later) now
unfolding logf
logf_lem logs msg now later o small positive =
    let kept =
      trim-keep (later - max_age) 0 now (logs ++ record { ts = now; msg = msg } ∷ []) logs msg
        (omega (arith, small, positive)) o in
    (kept, rw kept (Ordered-keep (later - max_age) 0 now logs msg o))
