-- ===== src/Tests/Angles.antt =====
-- Runs of src/RobotMovement/RobotMath.cpp and the wheels' optimization on whole degrees.
use frc.Prelude.{◌≡◌, refl, ◌*◌, ◌≤◌, ◌⊎◌, ℕ, true, some, if◌then◌else◌}
use frc.Prelude.Int.{ℤ, pos, negsuc, neg_ℤ, ◌+ℤ◌, ◌-ℤ◌, abs_ℕ}
use frc.Double.Grid.{Grid, grid, Grid-IsOrdered}
use frc.RobotMath.{
  normalize_angle, angle_distance, get_motor_dir_to_target, sgn, is_valid_power, make_valid_power,
}
use frc.RobotMath.Angles.{half, IsPrincipal, SameDirection}
use frc.RobotMath.Turns.{
  direction_of, normalize_angle_lem, angle_distance-shortest,
  get_motor_dir_to_target-angle_distance, make_valid_power-is_valid_power,
}
use frc.SwerveDrive.{optimize_swerve}
use frc.SwerveDrive.Optimize.{quarter, optimize_swerve_lem}

-- Whole degrees.
abbrev deg : ℕ → ℤ
deg n = pos (n * 1024)

angle_distance_test : angle_distance {D = Grid} (some (deg 350)) (some (deg 20)) ≡ some (deg 30)
unfolding angle_distance normalize_angle ◌-ℤ◌ ◌+ℤ◌
angle_distance_test = refl

sgn_test : sgn {D = Grid} (some (neg_ℤ (deg 3))) ≡ some (negsuc 1023)
unfolding sgn
sgn_test = refl

normalize_angle_example :
    (r : ℤ) × (normalize_angle (some (deg 370)) ≡ some r)
    × (normalize_angle (some (deg 10)) ≡ some r)
    × IsPrincipal r
    × SameDirection (deg 370) r
normalize_angle_example = normalize_angle_lem (deg 370) (deg 10) refl

angle_distance_example :
    (t : ℤ) × (angle_distance (some (deg 350)) (some (deg 20)) ≡ some t)
    × (abs_ℕ t ≤ half)
    × SameDirection (deg 350 +ℤ t) (deg 20)
    × (abs_ℕ t ≤ abs_ℕ (deg 30))
unfolding ◌+ℤ◌
angle_distance_example = angle_distance-shortest (deg 350) (deg 20) (deg 30) refl

get_motor_dir_to_target_test :
    (t : ℤ) × (angle_distance (some (deg 350)) (some (deg 20)) ≡ some t)
    × (get_motor_dir_to_target {D = Grid} (some (deg 350)) (some (deg 20)) ≡ direction_of t)
get_motor_dir_to_target_test = get_motor_dir_to_target-angle_distance (deg 350) (deg 20)

make_valid_power_test :
    (is_valid_power {D = Grid} (make_valid_power (some (deg 3))) ≡ true)
    × ((if is_valid_power {D = Grid} (some (deg 3))
          then make_valid_power (some (deg 3))
          else some (deg 3))
        ≡ some (deg 3))
make_valid_power_test = make_valid_power-is_valid_power Grid-IsOrdered (some (deg 3))

optimize_swerve_example :
    (ang : ℤ) × (v : ℤ) × (t : ℤ) × (optimize_swerve {D = Grid}
        (some (deg 170))
        (some (deg 10))
        (some (deg 1))
      ≡ (some ang, some v))
    × (((ang ≡ deg 10) × (v ≡ deg 1)) ⊎ ((ang ≡ deg 10 +ℤ pos half) × (v ≡ neg_ℤ (deg 1))))
    × (angle_distance {D = Grid} (some ang) (some (deg 170)) ≡ some t)
    × (abs_ℕ t ≤ quarter)
optimize_swerve_example = optimize_swerve_lem (deg 170) (deg 10) (deg 1)
