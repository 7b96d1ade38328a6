-- ===== src/SwerveDrive/Optimize.antt =====
-- What optimizeSwerve promises, on the grid of exact angles.
use native.Mathlib.Decide.{dec_lt}
use frc.Prelude.{◌<◌, ℕ, ◌≤◌, ◌≡◌, refl, ◌⊎◌, inl, inr, some, arith}
use frc.Prelude.Int.{ℤ, pos, ◌+ℤ◌, neg_ℤ, abs_ℕ, one_sign, +ℤ_parts}
use frc.Double.Grid.{Grid, grid}
use frc.RobotMath.{angle_distance}
use frc.RobotMath.Angles.{half, turn, turn_lem, angle_distance-turn}
use frc.SwerveDrive.{optimize_swerve}

-- A quarter turn, in ticks.
abbrev pub quarter : ℕ
quarter = 92160

opposite-near : (a b : ℤ) → quarter < abs_ℕ (turn a b) → abs_ℕ (turn (a +ℤ pos half) b) ≤ quarter
opposite-near a b far =
    let (low, high, leads) = turn_lem a b in
    let opposite = a +ℤ pos half in
    let (low', high', leads') = turn_lem opposite b in
    omega (
      arith,
      +ℤ_parts a (pos half),
      +ℤ_parts a (turn a b),
      +ℤ_parts opposite (turn opposite b),
      one_sign (turn a b),
      one_sign (turn opposite b),
      low,
      high,
      leads,
      low',
      high',
      leads',
    )

-- On the exact grid, for angles on it: optimizeSwerve either keeps the wanted angle and speed, or
-- turns the wheel to the opposite direction and negates the speed; and from the angle that it returns
-- to where the wheel stands there are at most 90 degrees.
pub optimize_swerve_lem :
    (ang1 ang2 vel : ℤ)
    → (ang : ℤ) × (v : ℤ) × (t : ℤ) × (optimize_swerve {D = Grid} (some ang1) (some ang2) (some vel)
        ≡ (some ang, some v))
      × (((ang ≡ ang2) × (v ≡ vel)) ⊎ ((ang ≡ ang2 +ℤ pos half) × (v ≡ neg_ℤ vel)))
      × (angle_distance {D = Grid} (some ang) (some ang1) ≡ some t)
      × (abs_ℕ t ≤ quarter)
unfolding optimize_swerve
optimize_swerve_lem ang1 ang2 vel = elim (dec_lt quarter (abs_ℕ (turn ang2 ang1))) [
  | yes far ↦ (
    ang2 +ℤ pos half,
    neg_ℤ vel,
    turn (ang2 +ℤ pos half) ang1,
    rw (angle_distance-turn ang2 ang1) (ground arith),
    inr (refl, refl),
    angle_distance-turn (ang2 +ℤ pos half) ang1,
    opposite-near ang2 ang1 far,
  )
  | no near ↦ (
    ang2,
    vel,
    turn ang2 ang1,
    rw (angle_distance-turn ang2 ang1) (ground arith),
    inl (refl, refl),
    angle_distance-turn ang2 ang1,
    omega arith,
  )
]
