-- ===== src/Caches/Proxies.antt =====
-- classes/proxies.go: the proxies that no monitor uses.
use lightspeed_trading_clean.Base.{
  ℕ, ◌+◌, String, ◌≡◌, Option, none, some, List, [], ◌∷◌, ◌++◌, ◌==◌, string_eq, arith,
  if◌then◌else◌, ltb, length, take, drop, take-append-drop, length-take, Bool-cases, inl, inr, ap,
}

-- `NextGroup`: the group and what remains, or the error that there are too few.
unfoldable pub next_group : List String → ℕ → Option (List String × List String)
next_group available want_num =
    if ltb (length available) want_num
    then none
    else some (take want_num available, drop want_num available)

-- `ReturnGroup`.
unfoldable pub return_group : List String → List String → List String
return_group available group = available ++ group

-- How often a proxy is in a list, and in some groups.
abbrev pub count : String → List String → ℕ
count p [] = 0
count p (q ∷ qs) = (if q == p then 1 else 0) + count p qs

abbrev pub count_groups : String → List (List String) → ℕ
count_groups p [] = 0
count_groups p (g ∷ gs) = count p g + count_groups p gs

-- What can come of `all` proxies: those available, and the groups that are out.
pub data Reached (all : List String) : List String → List (List String) → Type 0 where
  start : Reached all all []
  take_group :
      {available rest : List String} {out : List (List String)} (group : List String) (want_num : ℕ)
      → Reached all available out
      → next_group available want_num ≡ some (group, rest)
      → Reached all rest (group ∷ out)
  give_group :
      {available : List String} (group : List String) (before after : List (List String))
      → Reached all available (before ++ group ∷ after)
      → Reached all (return_group available group) (before ++ after)

pub count-append : (p : String) (xs ys : List String) → count p (xs ++ ys) ≡ count p xs + count p ys
count-append p [] ys = omega arith
count-append p (x ∷ xs) ys = omega (arith, count-append p xs ys)

count_groups-append :
    (p : String) (gs hs : List (List String))
    → count_groups p (gs ++ hs) ≡ count_groups p gs + count_groups p hs
count_groups-append p [] hs = omega arith
count_groups-append p (g ∷ gs) hs = omega (arith, count_groups-append p gs hs)

pub next_group-append :
    (available rest group : List String) (want_num : ℕ)
    → next_group available want_num ≡ some (group, rest)
    → (group ++ rest ≡ available) × (length group ≡ want_num)
unfolding next_group
next_group-append available rest group want_num e =
    elim (Bool-cases (ltb (length available) want_num)) [
      | inl few ↦ absurd (ground (arith, few, e))
      | inr enough ↦
          let parts : (take want_num available ≡ group) × (drop want_num available ≡ rest) =
            ground (arith, enough, e) in
          (
            rw (← parts.0, ← parts.1) (take-append-drop want_num available),
            rw (← parts.0) (length-take want_num available (ground (arith, enough))),
          )
    ]

-- However groups are taken and given back, each proxy is as often available or out as it was at the
-- start: none is lost, and none is in two groups unless it was there twice.
pub Reached-count :
    (all available : List String) (out : List (List String)) (p : String)
    → Reached all available out
    → count p available + count_groups p out ≡ count p all
unfolding return_group
Reached-count all available out p start = omega arith
Reached-count all available out p (take_group {available = had} {out = outs} group want_num r e) =
    omega (
      arith,
      Reached-count all had outs p r,
      count-append p group available,
      ap (count p) (next_group-append had available group want_num e).0,
    )
Reached-count all available out p (give_group {available = had} group before after r) = omega (
  arith,
  Reached-count all had (before ++ group ∷ after) p r,
  count_groups-append p before (group ∷ after),
  count_groups-append p before after,
  count-append p had group,
)
