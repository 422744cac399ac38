-- ===== src/Decimal.antt =====
-- The `Decimal` numbers of the program, as an interface: a type, its operations, and the laws of
-- their documented arithmetic, which rounds each result to the nearest representable number.
pub mod Laws
pub mod Fixed
use bot_trading.Prelude.{ℕ, Bool, true, not, ◌&&◌, if◌then◌else◌}

pub record Decimals : Type 1 where
  pub Carrier : Type 0
  -- The literal `n * 10 ** -k`.
  pub scaled : ℕ → ℕ → Carrier
  pub add : Carrier → Carrier → Carrier
  pub sub : Carrier → Carrier → Carrier
  pub mul : Carrier → Carrier → Carrier
  pub div : Carrier → Carrier → Carrier
  pub le : Carrier → Carrier → Bool
  pub is_finite : Carrier → Bool
  -- `int(x.to_integral_value(rounding=ROUND_FLOOR))`, and 0 for a negative `x`.
  pub floor : Carrier → ℕ

module _ ⦃dec : Decimals⦄ where
  abbrev pub Decimal : Type 0
  Decimal = dec.Carrier

  infixl 65 ◌+D◌ ◌-D◌
  infixl 70 ◌*D◌ ◌/D◌
  infix 50 ◌≤D◌ ◌<D◌ ◌=D◌
  abbrev pub ◌+D◌ : Decimal → Decimal → Decimal
  a +D b = dec.add a b

  abbrev pub ◌-D◌ : Decimal → Decimal → Decimal
  a -D b = dec.sub a b

  abbrev pub ◌*D◌ : Decimal → Decimal → Decimal
  a *D b = dec.mul a b

  abbrev pub ◌/D◌ : Decimal → Decimal → Decimal
  a /D b = dec.div a b

  -- The comparisons, as the Boolean tests of the program.
  abbrev pub ◌≤D◌ : Decimal → Decimal → Bool
  a ≤D b = dec.le a b

  abbrev pub ◌<D◌ : Decimal → Decimal → Bool
  a <D b = not (dec.le b a)

  abbrev pub ◌=D◌ : Decimal → Decimal → Bool
  a =D b = dec.le a b && dec.le b a

  abbrev pub of_ℕ : ℕ → Decimal
  of_ℕ n = dec.scaled n 0

  abbrev pub zero_D : Decimal
  zero_D = of_ℕ 0

  abbrev pub neg_D : Decimal → Decimal
  neg_D a = zero_D -D a

  -- Python's `min` and `max` keep the first of two equal values.
  abbrev pub min_D : Decimal → Decimal → Decimal
  min_D a b = if b <D a then b else a

  abbrev pub max_D : Decimal → Decimal → Decimal
  max_D a b = if a <D b then b else a

  abbrev pub abs_D : Decimal → Decimal
  abs_D a = if a <D zero_D then neg_D a else a
