-- ===== src/Float64.antt =====
-- Go's `float64`: the operations that the program uses, over any type of numbers, and the facts of
-- IEEE 754 arithmetic that the theorems on prices rest on. `Fixed` is a number type that has them.
use native.Mathlib.Nat.{mul-le-mul, le_refl}
use bingwa.Prelude.{
  ℕ, zero, suc, ◌%◌, Text, [], ◌∷◌, if◌then◌else◌, ◌+◌, ◌-◌, ◌*◌, ◌/◌, ◌≤◌, ◌≡◌, Bool, true, false,
  arith, ltb,
}

pub record Float64 (F : Type 0) : Type 0 where
  pub nought : F
  pub one : F
  pub hundred : F
  pub plus : F → F → F
  pub minus : F → F → F
  pub times : F → F → F
  pub over : F → F → F
  -- `a < b`
  pub lt : F → F → Bool
  -- the conversion `float64(n)` of an integer that is not negative
  pub of_nat : ℕ → F
  -- `fmt.Sprintf("%.0f", a)`
  pub whole : F → Text

module _ {F : Type 0} ⦃fl : Float64 F⦄ where
  infixl 65 ◌+f◌ ◌-f◌
  infixl 70 ◌*f◌ ◌/f◌
  infix 50 ◌<f◌ ◌≼◌
  abbrev pub ◌+f◌ : F → F → F
  ◌+f◌ = fl.plus

  abbrev pub ◌-f◌ : F → F → F
  ◌-f◌ = fl.minus

  abbrev pub ◌*f◌ : F → F → F
  ◌*f◌ = fl.times

  abbrev pub ◌/f◌ : F → F → F
  ◌/f◌ = fl.over

  abbrev pub ◌<f◌ : F → F → Bool
  ◌<f◌ = fl.lt

  -- `a ≤ b`, for numbers that are not NaN: `b < a` is false.
  abbrev pub ◌≼◌ : F → F → Type 0
  a ≼ b = (b <f a) ≡ false

-- What IEEE 754 says of numbers that are not NaN: the order is a total order, rounding is
-- monotone, and a product with 1 is exact.
pub record IsIeee {F : Type 0} (fl : Float64 F) : Type 0 where
  pub lt_irrefl : (a : F) → fl.lt a a ≡ false
  pub le_of_lt : (a b : F) → fl.lt a b ≡ true → fl.lt b a ≡ false
  pub le_trans : (a b c : F) → fl.lt b a ≡ false → fl.lt c b ≡ false → fl.lt c a ≡ false
  pub div_le_one :
      (v : F) → fl.lt fl.hundred v ≡ false → fl.lt fl.one (fl.over v fl.hundred) ≡ false
  pub times_mono :
      (p a b : F)
      → fl.lt p fl.nought ≡ false
      → fl.lt b a ≡ false
      → fl.lt (fl.times p b) (fl.times p a) ≡ false
  pub times_one : (p : F) → fl.times p fl.one ≡ p
  pub minus_nonneg : (a b : F) → fl.lt b a ≡ false → fl.lt (fl.minus b a) fl.nought ≡ false
  pub nonneg_times :
      (a b : F)
      → fl.lt a fl.nought ≡ false
      → fl.lt b fl.nought ≡ false
      → fl.lt (fl.times a b) fl.nought ≡ false
  pub nonneg_over_hundred :
      (a : F) → fl.lt a fl.nought ≡ false → fl.lt (fl.over a fl.hundred) fl.nought ≡ false

-- Numbers with four decimals, as the multiples of 1/10000.
abbrev pub Fixed : Type 0
Fixed = ℕ

-- The decimal digits of a number in front of a text, with a digit for each unit of fuel at most.
abbrev decimal : ℕ → ℕ → Text → Text
decimal zero n rest = rest
decimal (suc fuel) n rest =
    let more = decimal fuel (n / 10) ((b'0' + n % 10) ∷ rest) in
    if ltb n 10 then (b'0' + n) ∷ rest else more

instance abbrev pub fixed : Float64 Fixed
fixed = record {
  nought = 0;
  one = 10_000;
  hundred = 1_000_000;
  plus = ◌+◌;
  minus = ◌-◌;
  times = λ a b. a * b / 10_000;
  over = λ a b. a * 10_000 / b;
  lt = ltb;
  of_nat = λ n. n * 10_000;
  whole = λ a. decimal 20 ((a + 5000) / 10_000) [];
}

fixed_times_mono : (p a b : ℕ) → a ≤ b → p * a / 10_000 ≤ p * b / 10_000
fixed_times_mono p a b h = omega (arith, mul-le-mul (le_refl p) h)

pub fixed-IsIeee : IsIeee fixed
fixed-IsIeee = record {
  lt_irrefl = λ a. ground arith;
  le_of_lt = λ a b h. ground arith;
  le_trans = λ a b c h k. ground arith;
  div_le_one = λ v h. ground arith;
  times_mono = λ p a b n h. ground (arith, fixed_times_mono p a b);
  times_one = λ p. omega arith;
  minus_nonneg = λ a b h. ground arith;
  nonneg_times = λ a b h k. ground arith;
  nonneg_over_hundred = λ a h. ground arith;
}
