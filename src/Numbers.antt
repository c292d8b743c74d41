-- ===== src/Numbers.antt =====
-- The numbers the program computes with and does not implement: Go's float64, and the Decimal of
-- github.com/shopspring/decimal. Both are parameters: a type with the operations that the code
-- calls. What a theorem relies on is a hypothesis, a record of laws below.
use lightspeed_trading_clean.Base.{ℕ, ◌/◌, ◌≡◌, Bool, true, false, arith}
use lightspeed_trading_clean.Base.Int.{ℤ, pos, negsuc, ◌+ℤ◌, ◌-ℤ◌, ◌*ℤ◌, ltb_ℤ, eqb_ℤ, abs_ℤ, div_ℤ}

-- float64: `+`, `-`, `*`, `/`, math.Abs, the tests `==`, `<`, and the literals with two decimals.
pub record FloatOps (F : Type 0) : Type 0 where
  pub zero : F
  pub add : F → F → F
  pub sub : F → F → F
  pub mul : F → F → F
  pub div : F → F → F
  pub abs : F → F
  pub eqb : F → F → Bool
  pub ltb : F → F → Bool
  pub hundredths : ℕ → F

-- IEEE 754: floats that compare equal have one absolute value (a NaN equals nothing, and 0 and -0
-- have the absolute value 0).
pub record FloatLaws {F : Type 0} (fl : FloatOps F) : Type 0 where
  pub eqb-abs : (a b : F) → fl.eqb a b ≡ true → fl.abs a ≡ fl.abs b

-- Between the two: NewFromFloat and InexactFloat64.
pub record Conversions (F D : Type 0) : Type 0 where
  pub from_float : F → D
  pub to_float : D → F

-- Decimal: the methods of the same names. `from_int` is NewFromInt, `int_part` IntPart, `round` is
-- Round(0), and `same` is Go's `==` on the two structs, which compares a pointer.
pub record DecimalOps (D : Type 0) : Type 0 where
  pub from_int : ℤ → D
  pub int_part : D → ℤ
  pub add : D → D → D
  pub sub : D → D → D
  pub mul : D → D → D
  pub div : D → D → D
  pub abs : D → D
  pub floor : D → D
  pub round : D → D
  pub eqb : D → D → Bool
  pub ltb : D → D → Bool
  pub same : D → D → Bool

-- Decimals are exact: no value is less than itself, and a difference is negative just where its first
-- argument is less.
pub record DecimalLaws {D : Type 0} (dec : DecimalOps D) : Type 0 where
  pub ltb_irrefl : (a : D) → dec.ltb a a ≡ false
  pub ltb-sub : (a b : D) → dec.ltb (dec.sub a b) (dec.from_int (pos 0)) ≡ dec.ltb a b

-- Decimals are exact: what is taken away and given back makes no difference.
pub record BalanceLaws {D : Type 0} (dec : DecimalOps D) : Type 0 where
  pub add-sub : (a b : D) → dec.add (dec.sub a b) b ≡ a
  pub sub-sub : (a b : D) → dec.sub a (dec.sub a b) ≡ b

-- Instances over the integers, which the examples run on.
abbrev pub int_floats : FloatOps ℤ
int_floats = record {
  zero = pos 0;
  add = ◌+ℤ◌;
  sub = ◌-ℤ◌;
  mul = ◌*ℤ◌;
  div = div_ℤ;
  abs = abs_ℤ;
  eqb = eqb_ℤ;
  ltb = ltb_ℤ;
  hundredths = λ n. pos (n / 100);
}

int_eqb-abs : (a b : ℤ) → eqb_ℤ a b ≡ true → abs_ℤ a ≡ abs_ℤ b
unfolding abs_ℤ
int_eqb-abs a b h = ground arith

pub int_floats_laws : FloatLaws int_floats
int_floats_laws = record { eqb-abs = int_eqb-abs }

abbrev pub int_conversions : Conversions ℤ ℤ
int_conversions = record { from_float = λ a. a; to_float = λ a. a }

abbrev pub int_decimals : DecimalOps ℤ
int_decimals = record {
  from_int = λ a. a;
  int_part = λ a. a;
  add = ◌+ℤ◌;
  sub = ◌-ℤ◌;
  mul = ◌*ℤ◌;
  div = div_ℤ;
  abs = abs_ℤ;
  floor = λ a. a;
  round = λ a. a;
  eqb = eqb_ℤ;
  ltb = ltb_ℤ;
  same = eqb_ℤ;
}

int_ltb_irrefl : (a : ℤ) → ltb_ℤ a a ≡ false
int_ltb_irrefl a = ground arith

int_ltb-sub : (a b : ℤ) → ltb_ℤ (a -ℤ b) (pos 0) ≡ ltb_ℤ a b
unfolding ◌-ℤ◌ ltb_ℤ
int_ltb-sub a b = ground arith

pub int_decimals_laws : DecimalLaws int_decimals
int_decimals_laws = record { ltb_irrefl = int_ltb_irrefl; ltb-sub = int_ltb-sub }

int_add-sub : (a b : ℤ) → (a -ℤ b) +ℤ b ≡ a
unfolding ◌-ℤ◌ ◌+ℤ◌
int_add-sub (pos a) b = ground arith
int_add-sub (negsuc a) b = ground arith

int_sub-sub : (a b : ℤ) → a -ℤ (a -ℤ b) ≡ b
unfolding ◌-ℤ◌
int_sub-sub a (pos b) = ground arith
int_sub-sub a (negsuc b) = ground arith

pub int-BalanceLaws : BalanceLaws int_decimals
int-BalanceLaws = record { add-sub = int_add-sub; sub-sub = int_sub-sub }
