-- ===== src/Motor/Regulation.antt =====
-- src/HardwareLink/Motor: a speed controller that drives its motor (MotorControl::execute,
-- LinearSpeedTarget, MotorLink and its processor). What Talon::Get returns is WPILib's, and a parameter.
pub mod Windows
pub mod Powers
pub mod Standstill
use frc.Prelude.{ℕ, List, [], ◌∷◌, some}
use frc.LogMacros.{Outcome, returns, ◌>>=◌}
use frc.Double.{Double}
use frc.Motor.Control.{Readings}
use frc.Motor.Link.{MotorLink, TalonCall, process, control_fires}

-- A run of the controller: when it happens, the milliseconds since the last one, and what the encoder
-- reads.
pub record Round (D : Type 0) : Type 0 where
  pub now : ℕ
  pub dt : D
  pub encoder : D

-- `get` is Talon::Get after the calls to the Talon.
module _ {D : Type 0} ⦃d : Double D⦄ (get : List (TalonCall D) → D) where
  -- The controller's timer goes off, and the motor's processor then executes a command.
  unfoldable pub regulate : Round D → MotorLink D → Outcome (MotorLink D)
  regulate x m =
      let r : Readings D = record { encoder_angle = some x.encoder; talon_speed = get m.talon } in
      do m' ← control_fires r x.now x.dt m; process r m'

  unfoldable pub regulate_all : List (Round D) → MotorLink D → Outcome (MotorLink D)
  regulate_all [] m = returns m
  regulate_all (x ∷ xs) m = do m' ← regulate x m; regulate_all xs m'
