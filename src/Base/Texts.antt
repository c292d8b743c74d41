-- ===== src/Base/Texts.antt =====
-- The functions of Go's strings, strconv and fmt that the code calls, on texts as lists of characters.
use Prim.Native.Char.{code}
use Prim.Native.String.{◌++◌ as str_append, slice}
use Prim.Native.Nat.{ℕ, zero, suc, ◌+◌, ◌-◌, ◌*◌, ◌/◌, ◌%◌, ◌^◌}
use Prim.Native.String.{String}
use mathlib.Core.Bool.{Bool, true, false, ◌||◌, ◌&&◌}
use mathlib.Core.Option.{Option, none, some}
use mathlib.Core.List.{List, [], ◌∷◌}
use lightspeed_trading_clean.Base.Tests.{ltb, leb, nat_beq, if◌then◌else◌}
use lightspeed_trading_clean.Base.Keys.{◌==◌, string_eq}
use lightspeed_trading_clean.Base.Int.{ℤ, pos, negsuc}

-- `strings.HasSuffix`.
unfoldable pub ends_with : String → String → Bool
ends_with String.[] suffix = "" == suffix
ends_with (String.◌∷◌ c s) suffix = String.◌∷◌ c s == suffix || ends_with s suffix

-- `strings.TrimSuffix`, for a suffix of one character.
unfoldable pub trim_char : ℕ → String → String
trim_char n String.[] = ""
trim_char n (String.◌∷◌ c s) =
    if s == "" && nat_beq (code c) n then "" else String.◌∷◌ c (trim_char n s)

-- `strings.Split` at a character: never an empty list.
unfoldable pub split_from : ℕ → String → String → List String
split_from n before String.[] = before ∷ []
split_from n before (String.◌∷◌ c s) =
    let fresh = split_from n "" s in
    let longer = split_from n (str_append before (String.◌∷◌ c "")) s in
    if nat_beq (code c) n then before ∷ fresh else longer

abbrev pub split : ℕ → String → List String
split n s = split_from n "" s

-- The digits of `strconv.Atoi`, after `n`.
unfoldable pub digits_from : ℕ → String → Option ℕ
digits_from n String.[] = some n
digits_from n (String.◌∷◌ c s) =
    let more = digits_from (10 * n + (code c - 48)) s in
    if leb 48 (code c) && leb (code c) 57 then more else none

-- The number with its sign, if it is an int64.
abbrev signed : Bool → Option ℕ → Option ℤ
signed minus none = none
signed true (some zero) = some (pos 0)
signed true (some (suc n)) = if ltb n (2 ^ 63) then some (negsuc n) else none
signed false (some n) = if ltb n (2 ^ 63) then some (pos n) else none

abbrev digits? : String → Option ℕ
digits? s = if s == "" then none else digits_from 0 s

-- `strconv.Atoi`.
unfoldable pub atoi : String → Option ℤ
unfolding digits_from
atoi String.[] = none
atoi (String.◌∷◌ c s) =
    if nat_beq (code c) 45
    then signed true (digits? s)
    else if nat_beq (code c) 43
    then signed false (digits? s)
    else signed false (digits? (String.◌∷◌ c s))

-- The digits that `%d` writes, for a number below 10 ^ fuel.
unfoldable pub show_digits : ℕ → ℕ → String
show_digits zero n = ""
show_digits (suc fuel) n =
    let rest = show_digits fuel (n / 10) in
    str_append (if ltb n 10 then "" else rest) (slice "0123456789" (n % 10) (n % 10 + 1))

-- `%d`: a number n is below 10 ^ (n + 1).
abbrev pub show_number : ℕ → String
show_number n = show_digits (suc n) n
