-- ===== src/ArcadeDrive.antt =====
-- src/RobotMovement/ArcadeDrive.h and .cpp: the two drive motors from the first joystick.
pub mod Asked
pub mod Steering
use frc.Prelude.{◌≡◌, List, []}
use frc.LogMacros.{Severity, Outcome, returns, ◌>>=◌}
use frc.Prelude.{◌++◌, if◌then◌else◌, arith, ltb, some}
use frc.Prelude.Int.{ℤ, pos, ◌+ℤ◌, ◌-ℤ◌, abs_ℕ}
use frc.Double.{Double, lit, ratio}
use frc.Double.Grid.{Grid, grid}
use frc.ListenerManager.{ListenerManager, get_raw_double}
use frc.ListenerManager.Keys.{joy1x, joy1y}
use frc.Motor.Link.{MotorLink, set_speed}

pub record ArcadeDrive (D : Type 0) : Type 0 where
  pub spd_l : D
  pub spd_r : D

module _ {D : Type 0} ⦃d : Double D⦄ where
  open d use {add, sub, neg, abs, lt}

  abbrev thresh : D
  thresh = ratio 1 5

  unfoldable pub new_arcade_drive : ArcadeDrive D
  new_arcade_drive = record { spd_l = lit 0; spd_r = lit 0 }

  -- The two fields.
  unfoldable pub steer_speeds : D → D → ArcadeDrive D
  steer_speeds raw_x raw_y =
      let x1 = if lt thresh (abs raw_x) then raw_x else lit 0 in
      let y1 = if lt thresh (abs raw_y) then neg raw_y else lit 0 in
      record { spd_l = sub x1 y1; spd_r = add x1 y1 }

  -- `steerHandler`, with the messages that the reads log: the fields, the left and the right motor.
  -- One pass reads one poll of the controller.
  unfoldable pub steer_handler :
      ListenerManager D
      → MotorLink D × MotorLink D
      → Outcome (ArcadeDrive D × (MotorLink D × MotorLink D) × List Severity)
  steer_handler m (left, right) = do
    (x, log_x) ← get_raw_double m joy1x
    (y, log_y) ← get_raw_double m joy1y
    let a = steer_speeds x y
    left' ← set_speed a.spd_l left
    right' ← set_speed a.spd_r right
    returns (a, (left', right'), log_x ++ log_y)

-- An axis position with the dead zone cut out: 204 ticks are the threshold, 0.2 on the grid.
abbrev pub live : ℤ → ℤ
live a = if ltb 204 (abs_ℕ a) then a else pos 0

-- On the exact grid the speeds are the sum and the difference of the two positions, each taken as 0 in
-- its dead zone.
pub steer_speeds_lem :
    (x y : ℤ)
    → steer_speeds {D = Grid} (some x) (some y)
      ≡ record { spd_l = some (live x +ℤ live y); spd_r = some (live x -ℤ live y) }
unfolding steer_speeds ◌+ℤ◌ ◌-ℤ◌
steer_speeds_lem x y = ground arith
