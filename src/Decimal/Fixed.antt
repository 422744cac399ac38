-- ===== src/Decimal/Fixed.antt =====
-- Decimals with six places after the point, as a value of the interface: products and quotients
-- are cut off. It serves the tests and shows that the laws can be met together.
use native.Mathlib.Nat.{mul-le-mul, le-div_iff_mul-le, le_refl, le_trans}
use bot_trading.Prelude.{ℕ, zero, suc, ◌+◌, ◌*◌, ◌/◌, ◌^◌, ◌≤◌, ◌≡◌, ◌⊎◌, refl, true, arith}
use bot_trading.Prelude.Int.{ℤ, pos, negsuc, pos_part, neg_part, sub_ℕ, ◌+ℤ◌, ◌-ℤ◌, leb_ℤ}
use bot_trading.Decimal.{Decimals}
use bot_trading.Decimal.Laws.{IsOrdered}

abbrev pub scale : ℕ
scale = 1_000_000

abbrev mul_fixed : ℤ → ℤ → ℤ
mul_fixed a b =
    sub_ℕ ((pos_part a * pos_part b + neg_part a * neg_part b) / scale)
      ((pos_part a * neg_part b + neg_part a * pos_part b) / scale)

abbrev div_fixed : ℤ → ℤ → ℤ
div_fixed a b =
    sub_ℕ (pos_part a * scale / pos_part b + neg_part a * scale / neg_part b)
      (pos_part a * scale / neg_part b + neg_part a * scale / pos_part b)

instance abbrev pub fixed : Decimals
fixed = record {
  Carrier = ℤ;
  scaled = λ n k. pos (n * scale / 10 ^ k);
  add = ◌+ℤ◌;
  sub = ◌-ℤ◌;
  mul = mul_fixed;
  div = div_fixed;
  le = leb_ℤ;
  is_finite = λ _. true;
  floor = λ a. pos_part a / scale;
}

-- `m` thousandths.
abbrev pub milli : ℕ → ℤ
milli m = pos (m * 1000)

leb_ℤ_trans : (a b c : ℤ) → leb_ℤ a b ≡ true → leb_ℤ b c ≡ true → leb_ℤ a c ≡ true
leb_ℤ_trans a b c h k = ground arith

add_fixed_mono :
    (a b c d : ℤ) → leb_ℤ a b ≡ true → leb_ℤ c d ≡ true → leb_ℤ (a +ℤ c) (b +ℤ d) ≡ true
add_fixed_mono a b c d h k = ground arith

leb_ℤ_total : (a b : ℤ) → (leb_ℤ a b ≡ true) ⊎ (leb_ℤ b a ≡ true)
leb_ℤ_total a b = ground arith

leb_ℤ_antisym : (a b : ℤ) → leb_ℤ a b ≡ true → leb_ℤ b a ≡ true → a ≡ b
leb_ℤ_antisym a b h k = ground arith

leb_ℤ_refl : (a : ℤ) → leb_ℤ a a ≡ true
leb_ℤ_refl a = ground arith

mul_nat_mono : (a b c d : ℕ) → a ≤ b → c ≤ d → a * c / scale ≤ b * d / scale
mul_nat_mono a b c d h k = let m : a * c ≤ b * d = mul-le-mul h k in omega arith

mul_fixed_mono :
    (a b c d : ℤ)
    → leb_ℤ (pos 0) a ≡ true
    → leb_ℤ a b ≡ true
    → leb_ℤ (pos 0) c ≡ true
    → leb_ℤ c d ≡ true
    → leb_ℤ (mul_fixed a c) (mul_fixed b d) ≡ true
mul_fixed_mono (pos a) (pos b) (pos c) (pos d) _ h _ k = ground (arith, mul_nat_mono a b c d)
mul_fixed_mono (negsuc a) b c d ha h hc k = absurd (ground arith)
mul_fixed_mono (pos a) (negsuc b) c d ha h hc k = absurd (ground arith)
mul_fixed_mono (pos a) (pos b) (negsuc c) d ha h hc k = absurd (ground arith)
mul_fixed_mono (pos a) (pos b) (pos c) (negsuc d) ha h hc k = absurd (ground arith)

div_mono : (m n p : ℕ) → m ≤ n → m / p ≤ n / p
div_mono m n zero h = omega arith
div_mono m n (suc p) h =
    (le-div_iff_mul-le {k = suc p} (omega arith)).1
      (le_trans ((le-div_iff_mul-le {k = suc p} (omega arith)).0 (le_refl _)) h)

scaled_fixed_mono :
    (m n k : ℕ) → m ≤ n → leb_ℤ (pos (m * scale / 10 ^ k)) (pos (n * scale / 10 ^ k)) ≡ true
scaled_fixed_mono m n k h =
    let q : m * scale / 10 ^ k ≤ n * scale / 10 ^ k =
      div_mono (m * scale) (n * scale) (10 ^ k) (omega arith) in
    ground arith

sub_fixed_nonneg : (a b : ℤ) → leb_ℤ b a ≡ true → leb_ℤ (pos 0) (a -ℤ b) ≡ true
sub_fixed_nonneg a b h = ground arith

sub_fixed_self : (a : ℤ) → a -ℤ a ≡ pos 0
sub_fixed_self a = ground arith

pub fixed-IsOrdered : IsOrdered fixed
fixed-IsOrdered = record {
  le_refl = leb_ℤ_refl;
  le_trans = leb_ℤ_trans;
  le_antisym = leb_ℤ_antisym;
  le_total = leb_ℤ_total;
  add_mono = add_fixed_mono;
  mul_mono = mul_fixed_mono;
  sub_nonneg = sub_fixed_nonneg;
  sub_self = sub_fixed_self;
  scaled_mono = scaled_fixed_mono;
  mul_zero = λ a. ground arith;
  add_zero_zero = refl;
}
