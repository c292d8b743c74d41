-- ===== src/Caches/Tests.antt =====
-- Two groups of proxies, a log with an old line, and two goroutines that want one monitor.
use lightspeed_trading_clean.Base.{◌≡◌, refl, inl, String, true, false, List, [], ◌∷◌}
use lightspeed_trading_clean.Caches.Proxies.{
  next_group, return_group, Reached, start, take_group, give_group,
}
use lightspeed_trading_clean.Caches.Logs.{BotLog}
use lightspeed_trading_clean.Caches.Launching.{
  Lmc, wait, finished, arrives, finishes, Steps, done, more, empty, launchers-deferred, Abandoned,
  finished-Abandoned,
}

abbrev proxies : List String
proxies = "a" ∷ "b" ∷ "c" ∷ []

abbrev reached : Reached proxies (return_group ("c" ∷ []) ("a" ∷ [])) (("b" ∷ []) ∷ [])
unfolding next_group return_group
reached =
    give_group ("a" ∷ []) (("b" ∷ []) ∷ []) []
      (take_group ("b" ∷ []) 1 (take_group ("a" ∷ []) 1 start refl) refl)

abbrev logs : List BotLog
logs = record { ts = 5; msg = "old" } ∷ record { ts = 172800010; msg = "young" } ∷ []

-- One launch has succeeded.
abbrev launched : Lmc
launched = finished true 0 (wait empty)

launched-Steps : Steps empty launched
unfolding wait
launched-Steps = more (more done arrives) (finishes true 0 refl (inl refl))

launchers-deferred_example : (t : Lmc) × Steps launched t × (t.launchers ≡ 2)
unfolding wait finished
launchers-deferred_example = launchers-deferred launched 0 refl refl refl

finished-Abandoned_example : Abandoned (wait (finished false 0 (wait empty)))
unfolding wait
finished-Abandoned_example =
    finished-Abandoned (wait empty) (wait (finished false 0 (wait empty))) refl refl refl refl refl
      refl (more done arrives)
