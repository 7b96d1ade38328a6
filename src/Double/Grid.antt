-- ===== src/Double/Grid.antt =====
-- An exact instance of `Double`: the multiples of 1/1024, counted in ticks, and NaN. A `double` holds
-- these values exactly up to 2^43, and its sums, differences, remainders and comparisons of them are
-- exact. Products and quotients are cut off at a tick. There is one zero, and no infinity.
use frc.Double.{Double, IsOrdered}
use frc.Prelude.{
  ◌≡◌, ℕ, ◌*◌, ◌/◌, ◌%◌, refl, Bool, false, Option, none, some, arith, ◌==◌, if◌then◌else◌,
}
use frc.Prelude.Int.{ℤ, pos, negsuc, sub_ℕ, ◌+ℤ◌, ◌-ℤ◌, neg_ℤ, abs_ℕ, ltb_ℤ, leb_ℤ, eqb_ℤ}

-- Ticks in one unit.
abbrev pub unit : ℕ
unit = 1024

abbrev pub Grid : Type 0
Grid = Option ℤ

abbrev pub lift₂ : (ℤ → ℤ → Grid) → Grid → Grid → Grid
lift₂ f (some a) (some b) = f a b
lift₂ f _ _ = none

abbrev pub test₂ : (ℤ → ℤ → Bool) → Grid → Grid → Bool
test₂ f (some a) (some b) = f a b
test₂ f _ _ = false

abbrev pub lift₁ : (ℤ → ℤ) → Grid → Grid
lift₁ f (some a) = some (f a)
lift₁ f none = none

-- The number `n`, with the sign of `a`.
abbrev pub with_sign : ℤ → ℕ → ℤ
with_sign (pos _) n = pos n
with_sign (negsuc _) n = sub_ℕ 0 n

-- C's remainder keeps the sign of the dividend.
abbrev pub rem_ℤ : ℤ → ℕ → ℤ
rem_ℤ a m = with_sign a (abs_ℕ a % m)

-- A magnitude with the product of two signs.
abbrev pub signed : ℤ → ℤ → ℕ → ℤ
signed (pos _) b n = with_sign b n
signed (negsuc _) (pos _) n = sub_ℕ 0 n
signed (negsuc _) (negsuc _) n = pos n

abbrev pub fmod_ℤ : ℤ → ℤ → Grid
fmod_ℤ a b = if abs_ℕ b == 0 then none else some (rem_ℤ a (abs_ℕ b))

abbrev pub mul_ℤ : ℤ → ℤ → ℤ
mul_ℤ a b = signed a b (abs_ℕ a * abs_ℕ b / unit)

abbrev pub div_ℤ : ℤ → ℤ → Grid
div_ℤ a b = if abs_ℕ b == 0 then none else some (signed a b (abs_ℕ a * unit / abs_ℕ b))

instance abbrev pub grid : Double Grid
grid = record {
  of_int = λ a. some (with_sign a (abs_ℕ a * unit));
  add = lift₂ λ a b. some (a +ℤ b);
  sub = lift₂ λ a b. some (a -ℤ b);
  mul = lift₂ λ a b. some (mul_ℤ a b);
  div = lift₂ div_ℤ;
  fmod = lift₂ fmod_ℤ;
  neg = lift₁ neg_ℤ;
  abs = lift₁ λ a. pos (abs_ℕ a);
  lt = test₂ ltb_ℤ;
  le = test₂ leb_ℤ;
  eq = test₂ eqb_ℤ;
}

-- The grid's comparisons meet the laws.
pub Grid-IsOrdered : IsOrdered Grid
Grid-IsOrdered = record {
  number_of_le = λ x y h. ground arith;
  number_of_lt = λ x y h. ground arith;
  lt-eq-not-le = λ x y h k. ground arith;
  le_trans = λ x y z h k. ground arith;
  minus_one_le_one = refl;
}

-- Equality does not depend on the order of the two values.
pub eq_comm : (x y : Grid) → grid.eq x y ≡ grid.eq y x
eq_comm x y = ground arith
