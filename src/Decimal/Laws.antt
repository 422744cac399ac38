-- ===== src/Decimal/Laws.antt =====
-- What the program relies on of `Decimal` arithmetic, and what follows for `min` and `max`.
use bot_trading.Prelude.{ℕ, ◌≤◌, ◌≡◌, ◌⊎◌, true, arith}
use bot_trading.Decimal.{Decimals, Decimal, ◌+D◌, ◌*D◌, ◌≤D◌, ◌<D◌, zero_D, min_D, max_D}

-- The order is total, and correctly rounded operations are monotone: rounding never swaps two
-- results. Two ways to write one number are one value. Nothing is said of exactness.
pub record IsOrdered (dec : Decimals) : Type 0 where
  pub le_refl : (a : dec.Carrier) → dec.le a a ≡ true
  pub le_trans : (a b c : dec.Carrier) → dec.le a b ≡ true → dec.le b c ≡ true → dec.le a c ≡ true
  pub le_antisym : (a b : dec.Carrier) → dec.le a b ≡ true → dec.le b a ≡ true → a ≡ b
  pub le_total : (a b : dec.Carrier) → (dec.le a b ≡ true) ⊎ (dec.le b a ≡ true)
  pub add_mono :
      (a b c d : dec.Carrier)
      → dec.le a b ≡ true
      → dec.le c d ≡ true
      → dec.le (dec.add a c) (dec.add b d) ≡ true
  pub mul_mono :
      (a b c d : dec.Carrier)
      → dec.le (dec.scaled 0 0) a ≡ true
      → dec.le a b ≡ true
      → dec.le (dec.scaled 0 0) c ≡ true
      → dec.le c d ≡ true
      → dec.le (dec.mul a c) (dec.mul b d) ≡ true
  pub sub_nonneg :
      (a b : dec.Carrier) → dec.le b a ≡ true → dec.le (dec.scaled 0 0) (dec.sub a b) ≡ true
  pub sub_self : (a : dec.Carrier) → dec.sub a a ≡ dec.scaled 0 0
  pub scaled_mono : (m n k : ℕ) → m ≤ n → dec.le (dec.scaled m k) (dec.scaled n k) ≡ true
  pub mul_zero : (a : dec.Carrier) → dec.mul a (dec.scaled 0 0) ≡ dec.scaled 0 0
  pub add_zero_zero : dec.add (dec.scaled 0 0) (dec.scaled 0 0) ≡ dec.scaled 0 0

module _ ⦃dec : Decimals⦄ (ord : IsOrdered dec) where
  pub le_of_lt : (a b : Decimal) → (a <D b) ≡ true → (a ≤D b) ≡ true
  le_of_lt a b h = ground (arith, ord.le_total a b)

  pub lt_of_le_of_lt : (a b c : Decimal) → (a ≤D b) ≡ true → (b <D c) ≡ true → (a <D c) ≡ true
  lt_of_le_of_lt a b c h k = ground (arith, ord.le_trans c a b)

  pub min_D-le_left : (a b : Decimal) → (min_D a b ≤D a) ≡ true
  min_D-le_left a b = ground (arith, ord.le_refl a, ord.le_total a b)

  pub min_D-le_right : (a b : Decimal) → (min_D a b ≤D b) ≡ true
  min_D-le_right a b = ground (arith, ord.le_refl b, ord.le_total a b)

  pub le-max_D_left : (a b : Decimal) → (a ≤D max_D a b) ≡ true
  le-max_D_left a b = ground (arith, ord.le_refl a, ord.le_total a b)

  pub le-max_D_right : (a b : Decimal) → (b ≤D max_D a b) ≡ true
  le-max_D_right a b = ground (arith, ord.le_refl b, ord.le_total a b)

  pub max_D_mono :
      (a b c d : Decimal) → (a ≤D b) ≡ true → (c ≤D d) ≡ true → (max_D a c ≤D max_D b d) ≡ true
  max_D_mono a b c d h k = ground (
    arith,
    ord.le_total a c,
    ord.le_total b d,
    ord.le_trans a b d,
    ord.le_trans c d b,
    ord.le_total d b,
    ord.le_total c a,
  )

  pub add_nonneg :
      (a b : Decimal) → (zero_D ≤D a) ≡ true → (zero_D ≤D b) ≡ true → (zero_D ≤D (a +D b)) ≡ true
  add_nonneg a b h k = rw ord.add_zero_zero at (ord.add_mono zero_D a zero_D b h k)

  pub mul_nonneg :
      (a b : Decimal) → (zero_D ≤D a) ≡ true → (zero_D ≤D b) ≡ true → (zero_D ≤D (a *D b)) ≡ true
  mul_nonneg a b h k =
      rw (ord.mul_zero zero_D) at
        (ord.mul_mono zero_D a zero_D b (ord.le_refl zero_D) h (ord.le_refl zero_D) k)
