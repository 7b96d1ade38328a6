-- ===== src/SwerveDrive.antt =====
-- src/RobotMovement/SwerveDrive.cpp: the choice between turning a wheel and reversing it.
pub mod Optimize
pub mod Steer
use frc.Prelude.{Bool, if◌then◌else◌}
use frc.Double.{Double, lit}
use frc.RobotMath.{angle_distance}

module _ {D : Type 0} ⦃d : Double D⦄ where
  open d use {add, neg, abs, lt}

  -- The angle to turn the wheel to, and the speed to drive it at.
  unfoldable pub optimize_swerve : D → D → D → D × D
  optimize_swerve ang1 ang2 vel =
      let a = angle_distance ang2 ang1 in
      if lt (lit 90) (abs a) then (add ang2 (lit 180), neg vel) else (ang2, vel)
