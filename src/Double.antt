-- ===== src/Double.antt =====
-- The `double` arithmetic that the robot's code uses, as an interface. The code's definitions are
-- generic in it; what a theorem needs of the comparisons is `IsOrdered`, which IEEE 754 comparisons
-- meet with NaN included. `Double.Grid` is an exact instance.
pub mod Grid
use frc.Prelude.{Bool, true, not, ◌≡◌, ℕ}
use frc.Prelude.Int.{ℤ, pos, negsuc}

pub record Double (D : Type 0) : Type 0 where
  pub of_int : ℤ → D
  pub add : D → D → D
  pub sub : D → D → D
  pub mul : D → D → D
  pub div : D → D → D
  pub fmod : D → D → D
  pub neg : D → D
  pub abs : D → D
  pub lt : D → D → Bool
  pub le : D → D → Bool
  pub eq : D → D → Bool

-- A literal with an integral value.
abbrev pub lit : {D : Type 0} ⦃d : Double D⦄ → ℕ → D
lit ⦃d⦄ n = d.of_int (pos n)

abbrev pub minus_one : {D : Type 0} ⦃d : Double D⦄ → D
minus_one ⦃d⦄ = d.of_int (negsuc 0)

-- A decimal literal, as a correctly rounded quotient: `ratio 1 5` is the source's 0.2.
abbrev pub ratio : {D : Type 0} ⦃d : Double D⦄ → ℕ → ℕ → D
ratio ⦃d⦄ n m = d.div (lit n) (lit m)

-- NaN is the value that is not `<=` itself.
abbrev pub IsNumber : {D : Type 0} ⦃d : Double D⦄ → D → Type 0
IsNumber ⦃d⦄ x = d.le x x ≡ true

-- Comparisons with NaN are false, and the order is total away from it.
pub record IsOrdered (D : Type 0) ⦃d : Double D⦄ : Type 0 where
  pub number_of_le : (x y : D) → d.le x y ≡ true → IsNumber x × IsNumber y
  pub number_of_lt : (x y : D) → d.lt x y ≡ true → IsNumber x × IsNumber y
  pub lt-eq-not-le : (x y : D) → IsNumber x → IsNumber y → d.lt x y ≡ not (d.le y x)
  pub le_trans : (x y z : D) → d.le x y ≡ true → d.le y z ≡ true → d.le x z ≡ true
  pub minus_one_le_one : d.le minus_one (lit 1) ≡ true
