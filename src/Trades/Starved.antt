-- ===== src/Trades/Starved.antt =====
-- pnlFinder.go: what a call of getPnl leaves behind for the calls after it.
use lightspeed_trading_clean.Base.{
  ℕ, zero, suc, ◌≡◌, refl, ◌⊎◌, inl, inr, String, Bool, true, false, none, some, List, [], ◌∷◌,
  ◌++◌, arith, if◌then◌else◌, string_eq, ==_iff, nat_beq, nat_beq_iff, get_elem?, set,
  get_elem?-set, Bool-cases, Option-cases, ap, sym, ◌∙◌,
}
use lightspeed_trading_clean.Numbers.{FloatOps, DecimalOps, Conversions}
use lightspeed_trading_clean.Trades.Pnl.{ClosedPnl}
use lightspeed_trading_clean.Trades.Watching.{
  Stage, waits, passes, asks, returned, Call, PnlWatch, exists, take_turn, run_call, call_get_pnl,
  Turn, calls_it, runs, Turns, done, more, quiet,
}

get_elem?-append_old :
    {A : Type 0} (xs ys : List A) (i : ℕ) (x : A)
    → get_elem? xs i ≡ some x
    → get_elem? (xs ++ ys) i ≡ some x
get_elem?-append_old [] ys i x h = cc
get_elem?-append_old (y ∷ xs) ys zero x h = h
get_elem?-append_old (y ∷ xs) ys (suc i) x h = get_elem?-append_old xs ys i x h

get_elem?-append_new :
    {A : Type 0} (xs : List A) (y : A) (i : ℕ) (x : A)
    → get_elem? (xs ++ y ∷ []) i ≡ some x
    → (get_elem? xs i ≡ some x) ⊎ (x ≡ y)
get_elem?-append_new [] y zero x h = inr (cc)
get_elem?-append_new [] y (suc i) x h = absurd (cc)
get_elem?-append_new (z ∷ xs) y zero x h = inl h
get_elem?-append_new (z ∷ xs) y (suc i) x h = get_elem?-append_new xs y i x h

exists-append_old :
    (symbol : String) (xs ys : List String)
    → exists symbol xs ≡ true
    → exists symbol (xs ++ ys) ≡ true
unfolding exists
exists-append_old symbol [] ys h = cc
exists-append_old symbol (x ∷ xs) ys h = ground (arith, exists-append_old symbol xs ys)

exists-append_self : (symbol : String) (xs : List String) → exists symbol (xs ++ symbol ∷ []) ≡ true
unfolding exists
exists-append_self symbol [] = ground (arith, ==_iff symbol symbol)
exists-append_self symbol (x ∷ xs) = ground (arith, exists-append_self symbol xs)

-- The call has put its symbol in the list.
abbrev pub has_entered : {F D : Type 0} → Stage F D → Bool
has_entered waits = false
has_entered passes = false
has_entered asks = true
has_entered (returned r) = true

module _ {F D : Type 0} ⦃fl : FloatOps F⦄ ⦃dec : DecimalOps D⦄ ⦃conv : Conversions F D⦄ where
  take_turn-exists :
      (answers : ℕ → String ⊎ List (ClosedPnl F D)) (stage : Stage F D) (call : Call F D)
      (watching : List String) (symbol : String)
      → exists symbol watching ≡ true
      → exists symbol (take_turn answers stage call watching).0 ≡ true
  unfolding take_turn
  take_turn-exists answers waits call watching symbol h = ground arith
  take_turn-exists answers passes call watching symbol h =
      exists-append_old symbol watching (call.symbol ∷ []) h
  take_turn-exists answers asks call watching symbol h = h
  take_turn-exists answers (returned r) call watching symbol h = h

  take_turn-waits :
      (answers : ℕ → String ⊎ List (ClosedPnl F D)) (stage : Stage F D) (call : Call F D)
      (watching : List String)
      → stage ≡ waits
      → exists call.symbol watching ≡ true
      → (take_turn answers stage call watching).1 ≡ call
  unfolding take_turn
  take_turn-waits answers waits call watching w h = rw (h, take_turn) refl
  take_turn-waits answers passes call watching w h = absurd (cc)
  take_turn-waits answers asks call watching w h = absurd (cc)
  take_turn-waits answers (returned r) call watching w h = absurd (cc)

  take_turn-entered :
      (answers : ℕ → String ⊎ List (ClosedPnl F D)) (stage : Stage F D) (call : Call F D)
      (watching : List String)
      → call.stage ≡ stage
      → (has_entered stage ≡ true → exists call.symbol watching ≡ true)
      → has_entered (take_turn answers stage call watching).1.stage ≡ true
      → exists
          (take_turn answers stage call watching).1.symbol
          (take_turn answers stage call watching).0
        ≡ true
  unfolding take_turn
  take_turn-entered answers waits call watching at old h =
      elim (Bool-cases (exists call.symbol watching)) [
        | inl watched ↦ rw (watched, take_turn) watched
        | inr free ↦ let no : false ≡ true = rw (free, take_turn) at h in absurd (cc)
      ]
  take_turn-entered answers passes call watching at old h = exists-append_self call.symbol watching
  take_turn-entered answers asks call watching at old h = old refl
  take_turn-entered answers (returned r) call watching at old h = old refl

  -- Each call that has entered has its symbol in the list.
  abbrev AllWatched : PnlWatch F D → Type 0
  AllWatched s =
      (n : ℕ) (call : Call F D)
      → get_elem? s.calls n ≡ some call
      → has_entered call.stage ≡ true
      → exists call.symbol s.pnl_watching ≡ true

  run_call-none :
      (answers : ℕ → String ⊎ List (ClosedPnl F D)) (n : ℕ) (s : PnlWatch F D)
      → get_elem? s.calls n ≡ none
      → run_call answers n s ≡ s
  unfolding run_call
  run_call-none answers n s e = rw (e, run_call) refl

  run_call-some :
      (answers : ℕ → String ⊎ List (ClosedPnl F D)) (n : ℕ) (s : PnlWatch F D) (mine : Call F D)
      → get_elem? s.calls n ≡ some mine
      → run_call answers n s ≡ record {
        pnl_watching = (take_turn answers mine.stage mine s.pnl_watching).0;
        calls = set s.calls n (take_turn answers mine.stage mine s.pnl_watching).1;
      }
  unfolding run_call
  run_call-some answers n s mine e = rw (e, run_call) refl

  -- What the m-th call is after a turn of the n-th.
  run_call-at :
      (answers : ℕ → String ⊎ List (ClosedPnl F D)) (n m : ℕ) (s : PnlWatch F D) (mine : Call F D)
      → get_elem? s.calls n ≡ some mine
      → get_elem? (run_call answers n s).calls m ≡ (
          if nat_beq n m
          then some (take_turn answers mine.stage mine s.pnl_watching).1
          else get_elem? s.calls m)
  run_call-at answers n m s mine e =
      rw (run_call-some answers n s mine e) (get_elem?-set s.calls n m mine _ e)

  run_call-exists :
      (answers : ℕ → String ⊎ List (ClosedPnl F D)) (n : ℕ) (s : PnlWatch F D) (symbol : String)
      → exists symbol s.pnl_watching ≡ true
      → exists symbol (run_call answers n s).pnl_watching ≡ true
  run_call-exists answers n s symbol h = elim (Option-cases (get_elem? s.calls n)) [
    | inl no_call ↦ rw (run_call-none answers n s no_call) h
    | inr (mine, e) ↦
        rw (run_call-some answers n s mine e)
          (take_turn-exists answers mine.stage mine s.pnl_watching symbol h)
  ]

  run_call-AllWatched :
      (answers : ℕ → String ⊎ List (ClosedPnl F D)) (n : ℕ) (s : PnlWatch F D)
      → AllWatched s
      → AllWatched (run_call answers n s)
  run_call-AllWatched answers n s h m call at entered = elim (Option-cases (get_elem? s.calls n)) [
    | inl no_call ↦
        let same = run_call-none answers n s no_call in rw same (h m call (rw same at at) entered)
    | inr (mine, e) ↦
        let at' = sym (run_call-at answers n m s mine e) ∙ at in
        elim (Bool-cases (nat_beq n m)) [
          | inl own ↦
              let is_call : (take_turn answers mine.stage mine s.pnl_watching).1 ≡ call =
                let p : some (take_turn answers mine.stage mine s.pnl_watching).1 ≡ some call =
                  rw own at at' in
                cc in
              rw (run_call-some answers n s mine e) (
                rw (← is_call) (
                  take_turn-entered answers mine.stage mine s.pnl_watching refl (h n mine e)
                    (rw is_call entered)))
          | inr other ↦
              let old : get_elem? s.calls m ≡ some call = rw other at at' in
              run_call-exists answers n s call.symbol (h m call old entered)
        ]
  ]

  Turn-AllWatched : (s t : PnlWatch F D) → Turn s t → AllWatched s → AllWatched t
  unfolding call_get_pnl
  Turn-AllWatched s t (calls_it symbol qty) h = λ n call at entered.
      elim (get_elem?-append_new s.calls _ n call at) [
        | inl old ↦ h n call old entered
        | inr new ↦
            let no : false ≡ true =
              sym (ap (λ (c : Call F D). has_entered c.stage) new) ∙ entered in
            absurd (cc)
      ]
  Turn-AllWatched s t (runs answers n) h = run_call-AllWatched answers n s h

  Turns-AllWatched : (s : PnlWatch F D) → Turns quiet s → AllWatched s
  Turns-AllWatched s done = λ n call at entered. absurd (cc)
  Turns-AllWatched s (more {t = m} r step) = Turn-AllWatched m s step (Turns-AllWatched m r)

  -- The n-th call waits for a symbol that is in the list.
  abbrev Starved : ℕ → Call F D → PnlWatch F D → Type 0
  Starved n call s = (get_elem? s.calls n ≡ some call) × (exists call.symbol s.pnl_watching ≡ true)

  run_call-Starved :
      (answers : ℕ → String ⊎ List (ClosedPnl F D)) (k n : ℕ) (call : Call F D) (s : PnlWatch F D)
      → call.stage ≡ waits
      → Starved n call s
      → Starved n call (run_call answers k s)
  run_call-Starved answers k n call s w h = (
    elim (Option-cases (get_elem? s.calls k)) [
      | inl no_call ↦ rw (run_call-none answers k s no_call) h.0
      | inr (mine, e) ↦ (elim (Bool-cases (nat_beq k n)) [
        | inl own ↦
            let same : k ≡ n = (nat_beq_iff k n).0 own in
            let is_call : mine ≡ call = cc in
            run_call-at answers k n s mine e
            ∙ rw own (
                rw is_call (ap some (take_turn-waits answers call.stage call s.pnl_watching w h.1)))
        | inr other ↦ run_call-at answers k n s mine e ∙ rw other h.0
      ])
    ],
    run_call-exists answers k s call.symbol h.1,
  )

  Turn-Starved :
      (n : ℕ) (call : Call F D) (s t : PnlWatch F D)
      → call.stage ≡ waits
      → Turn s t
      → Starved n call s
      → Starved n call t
  unfolding call_get_pnl
  Turn-Starved n call s t w (calls_it symbol qty) h =
      (get_elem?-append_old s.calls _ n call h.0, h.1)
  Turn-Starved n call s t w (runs answers k) h = run_call-Starved answers k n call s w h

  Turns-Starved :
      (n : ℕ) (call : Call F D) (s t : PnlWatch F D)
      → call.stage ≡ waits
      → Turns s t
      → Starved n call s
      → Starved n call t
  Turns-Starved n call s t w done h = h
  Turns-Starved n call s t w (more {t = m} r step) h =
      Turn-Starved n call m t w step (Turns-Starved n call s m w r h)

  -- Where one call of getPnl has entered its symbol in the list of the bot, whether or not it has returned,
  -- a call that waits for the same symbol waits for ever: after any further steps of any calls it still waits.
  pub waits-ever :
      (s t : PnlWatch F D) (m n : ℕ) (first second : Call F D)
      → Turns quiet s
      → get_elem? s.calls m ≡ some first
      → has_entered first.stage ≡ true
      → get_elem? s.calls n ≡ some second
      → second.stage ≡ waits
      → second.symbol ≡ first.symbol
      → Turns s t
      → get_elem? t.calls n ≡ some second
  waits-ever s t m n first second r is_first entered is_second w same more_steps =
      (Turns-Starved n second s t w more_steps
        (is_second, rw same (Turns-AllWatched s r m first is_first entered))).0
