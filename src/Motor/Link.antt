-- ===== src/Motor/Link.antt =====
-- src/HardwareLink/Motor/MotorLink.h and .cpp: a motor whose changes are commands on its own
-- CmdProcessor. The commands that wait are a list, oldest first;
-- setSpeed, setSpeedForce and setControlTarget run on the caller's thread.
pub mod Ownership
pub mod Thread
use frc.Prelude.{ℕ, Bool, true, false, not, List, [], ◌∷◌, ◌++◌, Option, none, some, if◌then◌else◌}
use frc.LogMacros.{Severity, recoverable, unusual, Outcome, returns, null_access, log_fatal, ◌>>=◌}
use frc.Double.{Double, lit, minus_one}
use frc.Motor.Control.{
  MotorControl, Readings, cancel, start, set_control_target, clear_control_run,
  set_controlled_motor, execute,
}

-- The commands that the public methods enqueue.
pub data MotorCmd (D : Type 0) : Type 0 where
  set_speed_impl : D → MotorCmd D
  set_encoder_impl : Option ℕ → MotorCmd D
  reverse_motor_impl : MotorCmd D
  set_speed_scalar_impl : D → MotorCmd D
  start_speed_control_impl : D → MotorCmd D
  set_speed_controller_impl : Option (MotorControl D) → MotorCmd D
  stop_speed_control_impl : MotorCmd D

-- The calls to the Talon.
pub data TalonCall (D : Type 0) : Type 0 where
  pid_write : D → TalonCall D
  set : D → TalonCall D

-- An encoder is an address. The latest call and the latest message stand first.
pub record MotorLink (D : Type 0) : Type 0 where
  pub encoder : Option ℕ
  pub spd_control : Option (MotorControl D)
  pub spd_control_enabled : Bool
  pub motor_reversed : Bool
  pub speed_scalar : D
  pub queue : List (MotorCmd D)
  pub talon : List (TalonCall D)
  pub log : List Severity

module _ {D : Type 0} ⦃d : Double D⦄ where
  open d use {mul}

  unfoldable pub new_motor_link : Option ℕ → Option (MotorControl D) → D → MotorLink D
  new_motor_link enc control powscl = record {
    encoder = enc;
    spd_control = control;
    spd_control_enabled = false;
    motor_reversed = false;
    speed_scalar = powscl;
    queue = [];
    talon = [];
    log = [];
  }

  -- The constructors that delegate to it. The one with an encoder and a scalar passes 1.
  unfoldable pub new_motor_link_plain : MotorLink D
  new_motor_link_plain = new_motor_link none none (lit 1)

  unfoldable pub new_motor_link_scaled : D → MotorLink D
  new_motor_link_scaled powscl = new_motor_link none none powscl

  unfoldable pub new_motor_link_encoder : Option ℕ → MotorLink D
  new_motor_link_encoder enc = new_motor_link enc none (lit 1)

  unfoldable pub new_motor_link_encoder_scaled : Option ℕ → D → MotorLink D
  new_motor_link_encoder_scaled enc powscl = new_motor_link enc none (lit 1)

  unfoldable pub new_motor_link_controlled : Option ℕ → Option (MotorControl D) → MotorLink D
  new_motor_link_controlled enc control = new_motor_link enc control (lit 1)

  unfoldable pub enqueue : MotorCmd D → MotorLink D → MotorLink D
  enqueue c m = record m { queue = m.queue ++ c ∷ [] }

  unfoldable pub reverse_motor : MotorLink D → MotorLink D
  reverse_motor = enqueue reverse_motor_impl

  unfoldable pub set_speed_scalar : D → MotorLink D → MotorLink D
  set_speed_scalar pow_scl = enqueue (set_speed_scalar_impl pow_scl)

  unfoldable pub set_encoder : Option ℕ → MotorLink D → MotorLink D
  set_encoder enc = enqueue (set_encoder_impl enc)

  unfoldable pub set_speed_controller : Option (MotorControl D) → MotorLink D → MotorLink D
  set_speed_controller control = enqueue (set_speed_controller_impl control)

  unfoldable pub start_speed_control : D → MotorLink D → MotorLink D
  start_speed_control target = enqueue (start_speed_control_impl target)

  unfoldable pub stop_speed_control : MotorLink D → MotorLink D
  stop_speed_control = enqueue stop_speed_control_impl

  unfoldable pub set_speed_force : D → MotorLink D → MotorLink D
  set_speed_force pow = enqueue (set_speed_impl pow)

  -- `_spdControl->cancel()`.
  unfoldable pub cancel_control : MotorLink D → Outcome (MotorLink D)
  cancel_control m = elim m.spd_control [
    | none ↦ null_access
    | some c ↦ do c' ← cancel c; returns (record m { spd_control = some c' })
  ]

  -- Cancels a controller that is enabled, with a message.
  unfoldable pub disable_control : Severity → MotorLink D → Outcome (MotorLink D)
  disable_control message m = do
    m' ← cancel_control m
    returns (record m' { spd_control_enabled = false; log = message ∷ m'.log })

  -- A speed from outside the controller cancels it.
  unfoldable pub set_speed : D → MotorLink D → Outcome (MotorLink D)
  set_speed pow m = do
    m' ← (if m.spd_control_enabled then disable_control unusual m else returns m)
    returns (enqueue (set_speed_impl pow) m')

  unfoldable pub set_target : Readings D → D → MotorLink D → Outcome (MotorLink D)
  set_target r target m = elim m.spd_control [
    | none ↦ log_fatal
    | some c ↦
        if m.spd_control_enabled
        then (do c' ← set_control_target r target c; returns (record m { spd_control = some c' }))
        else returns (record m { log = recoverable ∷ m.log })
  ]

  -- What a command does on the processor's thread.
  unfoldable pub run_cmd : Readings D → MotorCmd D → MotorLink D → Outcome (MotorLink D)
  run_cmd r (set_speed_impl pow) m =
      let sign = if m.motor_reversed then minus_one else lit 1 in
      returns (record m { talon = pid_write (mul (mul pow m.speed_scalar) sign) ∷ m.talon })
  run_cmd r (set_encoder_impl enc) m = elim m.encoder [
    | none ↦ returns (record m { encoder = enc })
    | some _ ↦ returns (record m { encoder = enc; log = recoverable ∷ m.log })
  ]
  run_cmd r reverse_motor_impl m = returns (record m { motor_reversed = not m.motor_reversed })
  run_cmd r (set_speed_scalar_impl pow_scl) m = returns (record m { speed_scalar = pow_scl })
  run_cmd r (start_speed_control_impl target) m = elim m.spd_control [
    | none ↦ null_access
    | some c ↦ do
      c1 ← clear_control_run r c
      c2 ← set_control_target r target c1
      returns (record m {
        spd_control = some (start (set_controlled_motor c2));
        spd_control_enabled = true;
      })
  ]
  run_cmd r (set_speed_controller_impl control) m = do
    m' ← (if m.spd_control_enabled then disable_control recoverable m else returns m)
    returns (record m' { spd_control = control })
  run_cmd r stop_speed_control_impl m = do
    m' ← cancel_control (record m { talon = set (lit 0) ∷ m.talon })
    returns (record m' { spd_control_enabled = false })

  -- The processor executes the oldest command, if there is one.
  unfoldable pub process : Readings D → MotorLink D → Outcome (MotorLink D)
  process r m = elim m.queue [ [] ↦ returns m | c ∷ rest ↦ run_cmd r c (record m { queue = rest }) ]

  -- The controller's timer goes off: `execute` forces a speed on the motor.
  unfoldable pub control_fires : Readings D → ℕ → D → MotorLink D → Outcome (MotorLink D)
  control_fires r now dt m = elim m.spd_control [
    | none ↦ returns m
    | some c ↦ do
      (c', v) ← execute r now dt c
      returns (set_speed_force v (record m { spd_control = some c' }))
  ]
