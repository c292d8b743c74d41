-- ===== src/Caches/Launching.antt =====
-- classes/launchingMonitorsCache.go, for one trader, with the calls of it in startBot (botStartup.go). A goroutine that
-- launches calls Finished when it ends; after a success it calls it twice, the second time with false, since
-- that call is deferred. A Finished that finds goroutines it has told already, before the first of them has emptied the
-- list, sends to a channel that nobody reads and stops everything; here it is no step, while the others go on.
use lightspeed_trading_clean.Base.{
  ℕ, zero, suc, ◌+◌, ◌≤◌, ◌≡◌, ◌⊎◌, inl, Bool, true, false, Option, none, some, arith,
  if◌then◌else◌, is_some,
}

-- The entry of the trader, with the number of goroutines that wait on it, and whether they were told of a failure;
-- how many goroutines have been told to launch; how many of these have a deferred Finished still to call, after
-- a success; how many were woken by a failure: as the first of those that waited on the entry, as the first
-- of those that waited on an entry that is gone, or as another; and how many launches have succeeded.
pub record Lmc : Type 0 where
  pub entry : Option ℕ
  pub told : Bool
  pub launchers : ℕ
  pub deferred : ℕ
  pub firsts : ℕ
  pub stale : ℕ
  pub others : ℕ
  pub successes : ℕ

-- `Wait`, up to its wait: a goroutine launches if there is no entry.
unfoldable pub wait : Lmc → Lmc
wait s = elim s.entry [
  | none ↦ record s { entry = some 0; told = false; launchers = s.launchers + 1 }
  | some waiting ↦ record s { entry = some (waiting + 1) }
]

-- The first of those that waited empties the list and launches.
unfoldable pub wake_first : ℕ → Lmc → Lmc
wake_first firsts s = record s {
  entry = some 0;
  told = false;
  launchers = s.launchers + 1;
  firsts = firsts;
}

-- `Finished`: everybody who waits is told.
unfoldable pub tell : Bool → Lmc → Lmc
tell is_success s = elim s.entry [
  | none ↦ s
  | some waiting ↦ (elim is_success [
    | true ↦ record s { entry = none; told = false; stale = s.stale + s.firsts; firsts = 0 }
    | false ↦ (elim waiting [
      | zero ↦ s
      | suc more ↦ record s { told = true; firsts = s.firsts + 1; others = s.others + more }
    ])
  ])
]

-- `Finished` by one launcher, with `launchers` others.
unfoldable pub finished : Bool → ℕ → Lmc → Lmc
unfolding tell
finished is_success launchers s =
    let t = tell is_success (record s { launchers = launchers }) in
    if is_success then record t { deferred = t.deferred + 1; successes = t.successes + 1 } else t

-- The deferred call after a success, with `deferred` others to come.
unfoldable pub finished_again : ℕ → Lmc → Lmc
unfolding tell
finished_again deferred s = tell false (record s { deferred = deferred })

-- Nobody is told twice.
abbrev pub Tellable : Lmc → Type 0
Tellable s = (s.told ≡ false) ⊎ (s.entry ≡ some 0)

-- One step of some goroutine.
pub data Step (s : Lmc) : Lmc → Type 0 where
  arrives : Step s (wait s)
  finishes :
      (is_success : Bool) (launchers : ℕ)
      → s.launchers ≡ suc launchers
      → Tellable s
      → Step s (finished is_success launchers s)
  finishes_again :
      (deferred : ℕ) → s.deferred ≡ suc deferred → Tellable s → Step s (finished_again deferred s)
  wakes_first : (firsts : ℕ) → s.firsts ≡ suc firsts → Step s (wake_first firsts s)
  wakes_stale :
      (stale : ℕ)
      → s.stale ≡ suc stale
      → Step s (record s { stale = stale; launchers = s.launchers + 1 })
  wakes_other : (others : ℕ) → s.others ≡ suc others → Step s (wait (record s { others = others }))

pub data Steps (s : Lmc) : Lmc → Type 0 where
  done : Steps s s
  more : {t u : Lmc} → Steps s t → Step t u → Steps s u

-- No goroutine has come yet.
abbrev pub empty : Lmc
empty = record {
  entry = none;
  told = false;
  launchers = 0;
  deferred = 0;
  firsts = 0;
  stale = 0;
  others = 0;
  successes = 0;
}

-- Beyond one goroutine for an entry, every success lets one more launch, through its second call of Finished.
abbrev pub Bounded : Lmc → Type 0
Bounded s =
    s.launchers + s.firsts + s.stale + s.deferred ≤ (if is_some s.entry then 1 else 0) + s.successes

Step-Bounded : (s t : Lmc) → Step s t → Bounded s → Bounded t
unfolding wait wake_first finished finished_again
Step-Bounded s t arrives h = ground (arith, h)
Step-Bounded s t (finishes true launchers e tellable) h = ground (arith, h, e)
Step-Bounded s t (finishes false launchers e tellable) h = ground (arith, h, e)
Step-Bounded s t (finishes_again deferred e tellable) h = ground (arith, h, e)
Step-Bounded s t (wakes_first firsts e) h = ground (arith, h, e)
Step-Bounded s t (wakes_stale stale e) h = ground (arith, h, e)
Step-Bounded s t (wakes_other others e) h = ground (arith, h, e)

Steps-Bounded : (s : Lmc) → Steps empty s → Bounded s
Steps-Bounded s done = omega arith
Steps-Bounded s (more {t = m} r step) = Step-Bounded m s step (Steps-Bounded m r)

-- In whatever order goroutines wait, launch, finish and wake, the number that launch is at most one more than the
-- number of launches that have succeeded.
pub launchers-le-successes : (s : Lmc) → Steps empty s → s.launchers ≤ s.successes + 1
launchers-le-successes s r = ground (arith, Steps-Bounded s r)

-- Where a launch has succeeded and its deferred Finished is still to come, two goroutines that come then can both
-- launch the trader's monitor, whoever launches already: the deferred call wakes the second of them, though the first
-- is launching.
pub launchers-deferred :
    (s : Lmc) (deferred : ℕ)
    → s.entry ≡ none
    → s.told ≡ false
    → s.deferred ≡ suc deferred
    → (t : Lmc) × Steps s t × (t.launchers ≡ s.launchers + 2)
unfolding wait wake_first finished_again
launchers-deferred s deferred e calm d =
    let one = wait s in
    let two = wait one in
    let woken = finished_again deferred two in
    (
      wake_first s.firsts woken,
      more
          (more (more (more done arrives) arrives)
            (finishes_again deferred (ground (arith, e, d)) (inl (ground (arith, e)))))
          (wakes_first s.firsts (ground (arith, e))),
      ground (arith, e),
    )

-- An entry that nobody works for.
abbrev pub Abandoned : Lmc → Type 0
Abandoned s =
    (is_some s.entry ≡ true)
    × (s.launchers ≡ 0)
    × (s.deferred ≡ 0)
    × (s.firsts ≡ 0)
    × (s.stale ≡ 0)
    × (s.others ≡ 0)

Step-Abandoned : (s t : Lmc) → Step s t → Abandoned s → Abandoned t
unfolding wait
Step-Abandoned s t arrives h = ground (arith, h)
Step-Abandoned s t (finishes is_success launchers e tellable) h = absurd (omega (arith, h, e))
Step-Abandoned s t (finishes_again deferred e tellable) h = absurd (omega (arith, h, e))
Step-Abandoned s t (wakes_first firsts e) h = absurd (omega (arith, h, e))
Step-Abandoned s t (wakes_stale stale e) h = absurd (omega (arith, h, e))
Step-Abandoned s t (wakes_other others e) h = absurd (omega (arith, h, e))

Steps-Abandoned : (s t : Lmc) → Steps s t → Abandoned s → Abandoned t
Steps-Abandoned s t done h = h
Steps-Abandoned s t (more {t = m} r step) h = Step-Abandoned m t step (Steps-Abandoned s m r h)

-- A launch that fails while nobody waits leaves the entry, and from then on nobody launches that trader's
-- monitor: all who come wait. This holds where no other goroutine launches or has been woken, and no earlier
-- success has its deferred Finished still to call.
pub finished-Abandoned :
    (s t : Lmc)
    → s.entry ≡ some 0
    → s.launchers ≡ 1
    → s.deferred ≡ 0
    → s.firsts ≡ 0
    → s.stale ≡ 0
    → s.others ≡ 0
    → Steps (finished false 0 s) t
    → Abandoned t
unfolding finished
finished-Abandoned s t entry launchers deferred firsts stale others r =
    Steps-Abandoned (finished false 0 s) t r
      (ground (arith, entry, launchers, deferred, firsts, stale, others))
