-- ===== src/Bot/Ignore.antt =====
-- The ignore list of a bot, and the lists of its settings.
use text.Mathlib.TextEquality.{eq_iff}
use lightspeed_trading_clean.Base.{
  String, ◌≡◌, refl, ◌≢◌, ◌⊎◌, ◌↔◌, Bool, true, false, List, [], ◌∷◌, ◌++◌, ◌==◌, string_eq,
  if◌then◌else◌, arith, ◌||◌,
}
use lightspeed_trading_clean.Config.{BotConfig}
use lightspeed_trading_clean.Bot.{Bot}

-- The loops of isIgnored, symbolIsBlacklisted and symbolIsWhitelisted.
unfoldable pub contains : String → List String → Bool
contains symbol [] = false
contains symbol (s ∷ ss) = if symbol == s then true else contains symbol ss

-- The loop of unIgnore: everything before and everything after the first occurrence.
unfoldable pub remove_first : String → List String → List String
remove_first symbol [] = []
remove_first symbol (s ∷ ss) = if s == symbol then ss else s ∷ remove_first symbol ss

module _ {D : Type 0} where
  unfoldable pub is_ignored : Bot D → String → Bool
  unfolding contains
  is_ignored bot symbol = contains symbol bot.ignore_list

  unfoldable pub ignore : Bot D → String → Bot D
  unfolding contains
  ignore bot symbol =
      if contains symbol bot.ignore_list
      then bot
      else record bot { ignore_list = bot.ignore_list ++ symbol ∷ [] }

  unfoldable pub un_ignore : Bot D → String → Bot D
  un_ignore bot symbol = record bot { ignore_list = remove_first symbol bot.ignore_list }

  unfoldable pub symbol_is_blacklisted : String → BotConfig D → Bool
  symbol_is_blacklisted symbol config = contains symbol config.blacklist_coins

  -- An empty whitelist is no whitelist.
  unfoldable pub symbol_is_whitelisted : String → BotConfig D → Bool
  symbol_is_whitelisted symbol config = elim config.whitelist_coins [
    | [] ↦ true
    | s ∷ ss ↦ contains symbol (s ∷ ss)
  ]

-- A symbol stands in a list.
abbrev pub In : String → List String → Type 0
In symbol [] = ⊥
In symbol (s ∷ ss) = (symbol ≡ s) ⊎ In symbol ss

pub contains_iff : (symbol : String) (ss : List String) → (contains symbol ss ≡ true) ↔ In symbol ss
unfolding contains
contains_iff symbol [] = (λ e. cc, λ h. absurd h)
contains_iff symbol (s ∷ ss) = ground (arith, eq_iff symbol s, contains_iff symbol ss)

-- No symbol stands twice.
abbrev pub Unique : List String → Type 0
Unique [] = Unit {0}
Unique (s ∷ ss) = (contains s ss ≡ false) × Unique ss

pub contains-append :
    (k : String) (xs ys : List String) → contains k (xs ++ ys) ≡ (contains k xs || contains k ys)
unfolding contains
contains-append k [] ys = refl
contains-append k (x ∷ xs) ys = ground (arith, contains-append k xs ys)

contains-remove_first_ne :
    (k j : String) (xs : List String) → k ≢ j → contains k (remove_first j xs) ≡ contains k xs
unfolding contains remove_first
contains-remove_first_ne k j [] h = refl
contains-remove_first_ne k j (x ∷ xs) h =
    ground (arith, eq_iff k x, eq_iff x j, contains-remove_first_ne k j xs h)

contains-remove_first_self :
    (k : String) (xs : List String) → Unique xs → contains k (remove_first k xs) ≡ false
unfolding contains remove_first
contains-remove_first_self k [] u = refl
contains-remove_first_self k (x ∷ xs) u =
    ground (arith, eq_iff x k, eq_iff k x, contains-remove_first_self k xs u.1)

remove_first-Unique : (k : String) (xs : List String) → Unique xs → Unique (remove_first k xs)
unfolding contains remove_first
remove_first-Unique k [] u = tt
remove_first-Unique k (x ∷ xs) u =
    ground (arith, eq_iff x k, remove_first-Unique k xs u.1, contains-remove_first_ne x k xs)

append-Unique :
    (k : String) (xs : List String) → Unique xs → contains k xs ≡ false → Unique (xs ++ k ∷ [])
unfolding contains
append-Unique k [] u h = (refl, tt)
append-Unique k (x ∷ xs) u h =
    ground (arith, eq_iff k x, eq_iff x k, append-Unique k xs u.1, contains-append x xs (k ∷ []))

remove_first-append :
    (k : String) (xs : List String) → contains k xs ≡ false → remove_first k (xs ++ k ∷ []) ≡ xs
unfolding contains remove_first
remove_first-append k [] h = ground (arith, eq_iff k k)
remove_first-append k (x ∷ xs) h = ground (arith, eq_iff k x, eq_iff x k, remove_first-append k xs)

module _ {D : Type 0} where
  -- What ignore does to any symbol.
  pub is_ignored-ignore :
      (bot : Bot D) (symbol other : String)
      → is_ignored (ignore bot symbol) other ≡ (symbol == other || is_ignored bot other)
  unfolding ignore is_ignored
  is_ignored-ignore bot symbol other = ground (
    arith,
    eq_iff symbol other,
    eq_iff other symbol,
    contains-append other bot.ignore_list (symbol ∷ []),
  )

  -- On a list free of duplicates, ignore makes the symbol ignored, changes no other symbol, and keeps
  -- the list free of duplicates.
  pub ignore_lem :
      (bot : Bot D) (symbol other : String)
      → Unique bot.ignore_list
      → (is_ignored (ignore bot symbol) symbol ≡ true)
        × (is_ignored (ignore bot symbol) other ≡ (symbol == other || is_ignored bot other))
        × Unique (ignore bot symbol).ignore_list
  unfolding ignore is_ignored
  ignore_lem bot symbol other u = ground (
    arith,
    eq_iff symbol symbol,
    eq_iff symbol other,
    eq_iff other symbol,
    contains-append symbol bot.ignore_list (symbol ∷ []),
    contains-append other bot.ignore_list (symbol ∷ []),
    append-Unique symbol bot.ignore_list u,
  )

  -- On a list free of duplicates, unIgnore makes the symbol not ignored, changes no other symbol, and
  -- keeps the list free of duplicates.
  pub un_ignore_lem :
      (bot : Bot D) (symbol other : String)
      → Unique bot.ignore_list
      → (is_ignored (un_ignore bot symbol) symbol ≡ false)
        × (is_ignored (un_ignore bot symbol) other
            ≡ (if symbol == other then false else is_ignored bot other))
        × Unique (un_ignore bot symbol).ignore_list
  unfolding un_ignore is_ignored
  un_ignore_lem bot symbol other u = ground (
    arith,
    eq_iff symbol other,
    contains-remove_first_self symbol bot.ignore_list u,
    contains-remove_first_ne other symbol bot.ignore_list,
    remove_first-Unique symbol bot.ignore_list u,
  )

  -- Ignoring a symbol that is not ignored, and then no longer, gives the bot back.
  pub un_ignore-ignore :
      (bot : Bot D) (symbol : String)
      → is_ignored bot symbol ≡ false
      → un_ignore (ignore bot symbol) symbol ≡ bot
  unfolding un_ignore ignore is_ignored
  un_ignore-ignore bot symbol h = ground (arith, remove_first-append symbol bot.ignore_list h)
