-- ===== src/Motor/Link/Thread.antt =====
-- The processor of a motor (src/HardwareLink/Motor/MotorLink.h), as often as it executes a command.
use frc.Prelude.{ℕ, zero, suc}
use frc.LogMacros.{Outcome, returns, ◌>>=◌}
use frc.Double.{Double}
use frc.Motor.Control.{Readings}
use frc.Motor.Link.{MotorLink, process}

module _ {D : Type 0} ⦃d : Double D⦄ where
  -- So many commands, the oldest first.
  unfoldable pub process_all : Readings D → ℕ → MotorLink D → Outcome (MotorLink D)
  process_all r zero m = returns m
  process_all r (suc n) m = process r m >>= λ m'. process_all r n m'
