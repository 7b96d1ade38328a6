-- ===== src/RobotMath/Turns.antt =====
-- What normalizeAngle, angleDistance and getMotorDirToTarget promise, on the grid of exact angles,
-- and makeValidPower over every `double`.
use frc.Prelude.{◌∙◌, ap, sym, ◌≤◌, ◌≡◌, some, arith, ltb, if◌then◌else◌, ◌==◌}
use frc.Prelude.Int.{ℤ, pos_part, neg_part, ◌+ℤ◌, ◌-ℤ◌, abs_ℕ, one_sign, +ℤ_parts}
use frc.Double.{Double, IsOrdered, minus_one, lit}
use frc.Double.Grid.{Grid, grid}
use frc.RobotMath.{
  normalize_angle, angle_distance, get_motor_dir_to_target, MotorDir, dir_cw, dir_ccw, dir_none,
  is_valid_power, make_valid_power,
}
use frc.RobotMath.Angles.{
  half, SameDirection, IsPrincipal, principal, principal_lem, normalize_angle-principal, turn,
  turn_lem, angle_distance-turn,
}

principal_unique : (a b : ℤ) → SameDirection a b → principal a ≡ principal b
unfolding principal
principal_unique a b h = ground arith

-- On the exact grid, for angles on it that differ by whole turns, normalizeAngle returns one and the
-- same angle, which has their direction and is in the range from -180 degrees (exclusive) to 180
-- degrees (inclusive). It is not stated of other values of `double`, whose sums are rounded.
pub normalize_angle_lem :
    (a b : ℤ)
    → SameDirection a b
    → (r : ℤ) × (normalize_angle (some a) ≡ some r)
      × (normalize_angle (some b) ≡ some r)
      × IsPrincipal r
      × SameDirection a r
normalize_angle_lem a b h =
    let (range, same) = principal_lem a in
    (
      principal a,
      normalize_angle-principal a,
      normalize_angle-principal b ∙ ap some (sym (principal_unique a b h)),
      range,
      same,
    )

turn-shortest : (a b u : ℤ) → SameDirection (a +ℤ u) b → abs_ℕ (turn a b) ≤ abs_ℕ u
turn-shortest a b u h =
    let (low, high, leads) = turn_lem a b in
    omega (
      arith,
      +ℤ_parts a u,
      +ℤ_parts a (turn a b),
      one_sign u,
      one_sign (turn a b),
      low,
      high,
      leads,
    )

-- On the exact grid, for angles on it: for every turn that leads from the first angle to the direction
-- of the second, angleDistance returns a turn that does so too, that is at most half a turn, and that
-- is no longer.
pub angle_distance-shortest :
    (a b u : ℤ)
    → SameDirection (a +ℤ u) b
    → (t : ℤ) × (angle_distance (some a) (some b) ≡ some t)
      × (abs_ℕ t ≤ half)
      × SameDirection (a +ℤ t) b
      × (abs_ℕ t ≤ abs_ℕ u)
angle_distance-shortest a b u h =
    let (low, high, leads) = turn_lem a b in
    (
      turn a b,
      angle_distance-turn a b,
      omega (arith, one_sign (turn a b)),
      leads,
      turn-shortest a b u h,
    )

-- The direction of a turn. Half a turn to the left, or none at all, has no direction.
abbrev pub direction_of : ℤ → MotorDir
direction_of t =
    if ltb 0 (pos_part t)
    then dir_cw
    else (if neg_part t == 0 then dir_none else (if neg_part t == half then dir_none else dir_ccw))

-- getMotorDirToTarget names the direction of the turn that angleDistance returns: clockwise where it
-- is positive, counterclockwise where it is negative, and none for no turn and for exactly half a
-- turn back.
pub get_motor_dir_to_target-angle_distance :
    (a b : ℤ)
    → (t : ℤ) × (angle_distance (some a) (some b) ≡ some t)
      × (get_motor_dir_to_target {D = Grid} (some a) (some b) ≡ direction_of t)
unfolding get_motor_dir_to_target turn ◌-ℤ◌
get_motor_dir_to_target-angle_distance a b = (
  turn a b,
  angle_distance-turn a b,
  rw (normalize_angle-principal a, normalize_angle-principal b)
      (ground (arith, principal_lem a, principal_lem b)),
)

-- makeValidPower returns a valid power for every number, NaN alone stays invalid, and a power that is
-- valid is returned as it is.
pub make_valid_power-is_valid_power :
    {D : Type 0} ⦃d : Double D⦄
    → IsOrdered D
    → (pow : D)
    → (is_valid_power (make_valid_power pow) ≡ d.le pow pow)
      × ((if is_valid_power pow then make_valid_power pow else pow) ≡ pow)
unfolding is_valid_power make_valid_power
make_valid_power-is_valid_power ⦃d⦄ laws pow =
    let low = minus_one ⦃d = d⦄ in
    let high = lit ⦃d = d⦄ 1 in
    let bounds = number_of_le low high minus_one_le_one in
    ground (
      arith,
      bounds,
      minus_one_le_one,
      number_of_lt pow low,
      number_of_lt high pow,
      number_of_le low pow,
      number_of_le pow high,
      lt-eq-not-le pow low,
      lt-eq-not-le high pow,
    )
  where
    open laws use {number_of_le, number_of_lt, lt-eq-not-le, minus_one_le_one}
