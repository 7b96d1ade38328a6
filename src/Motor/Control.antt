-- ===== src/Motor/Control.antt =====
-- src/HardwareLink/Motor/MotorControl.h and .cpp, and SpeedControl/LinearAngleTarget and
-- LinearSpeedTarget: the two speed controllers. A controller belongs to one motor, so the pointer to
-- the motor that it controls is a flag: set, or null. The scheduler's requests to the platform's timer
-- are kept: the delay it was started with, or `none` after a cancel that returned. How the Cancel of the
-- timer's class ends is the build's, and a part of the controller.
use frc.Prelude.{ℕ, Bool, true, false, Option, none, some, if◌then◌else◌}
use frc.LogMacros.{Outcome, returns, throws, null_access, robo_exception, log_fatal, ◌>>=◌}
use frc.Double.{Double, lit, minus_one, ratio}
use frc.RobotMath.{
  MotorDir, dir_ccw, dir_none, dir_cw, sgn, is_valid_power, make_valid_power, angle_distance,
  get_motor_dir_to_target,
}

pub record LinearAngleTarget (D : Type 0) : Type 0 where
  pub min_speed : D
  pub target_angle : D
  pub threshold : D
  pub k_p : D

pub record LinearSpeedTarget (D : Type 0) : Type 0 where
  pub tgt_speed : D
  pub dt_accum : D
  pub refresh_time : D
  pub last_encoder_angle : D

-- The two subclasses of MotorControl.
pub data Target (D : Type 0) : Type 0 where
  angle : LinearAngleTarget D → Target D
  speed : LinearSpeedTarget D → Target D

pub record MotorControl (D : Type 0) : Type 0 where
  pub target : Target D
  pub last_runtime : Option ℕ
  pub controlled_motor : Bool
  pub scheduled : Option ℕ
  pub platform_cancel : Option ℕ → Outcome Unit

-- What a handler reads from the motor's devices: the encoder's angle, if there is an encoder, and the
-- speed of the Talon. One handler reads the same values throughout.
pub record Readings (D : Type 0) : Type 0 where
  pub encoder_angle : Option D
  pub talon_speed : D

module _ {D : Type 0} ⦃d : Double D⦄ where
  open d use {of_int, add, sub, mul, div, fmod, neg, abs, lt, le, eq}

  unfoldable pub new_control : (Option ℕ → Outcome Unit) → Target D → MotorControl D
  new_control platform_cancel t = record {
    target = t;
    last_runtime = none;
    controlled_motor = false;
    scheduled = none;
    platform_cancel = platform_cancel;
  }

  -- The constructor of LinearAngleTarget: the target angle starts at 0.
  unfoldable pub new_linear_angle_target : D → D → D → Outcome (LinearAngleTarget D)
  new_linear_angle_target min_speed threshold k_p =
      if is_valid_power min_speed
      then returns (record {
        min_speed = abs min_speed;
        target_angle = lit 0;
        threshold = threshold;
        k_p = k_p;
      })
      else throws robo_exception

  unfoldable pub new_linear_speed_target : D → D → LinearSpeedTarget D
  new_linear_speed_target tgt_speed refresh_time = record {
    tgt_speed = tgt_speed;
    dt_accum = refresh_time;
    refresh_time = lit 50;
    last_encoder_angle = minus_one;
  }

  unfoldable pub new_linear_speed_target_default : D → LinearSpeedTarget D
  new_linear_speed_target_default tgt_speed = new_linear_speed_target tgt_speed (ratio 1 20)

  unfoldable pub set_refresh_time : D → LinearSpeedTarget D → LinearSpeedTarget D
  set_refresh_time refresh_time c = record c { refresh_time = div refresh_time (lit 1000) }

  -- MotorLink::getEncoderAngle.
  unfoldable pub get_encoder_angle : Readings D → Outcome D
  get_encoder_angle r = elim r.encoder_angle [ none ↦ log_fatal | some a ↦ returns a ]

  unfoldable pub get_linked_encoder_angle : Readings D → Bool → Outcome D
  get_linked_encoder_angle r linked = if linked then get_encoder_angle r else null_access

  unfoldable pub get_linked_motor_speed : Readings D → Bool → Outcome D
  get_linked_motor_speed r linked = if linked then returns r.talon_speed else null_access

  unfoldable pub set_control_target_impl : Readings D → Bool → D → Target D → Outcome (Target D)
  set_control_target_impl r linked val (angle c) =
      returns
        (angle (if eq (fmod val (lit 180)) (lit 0) then c else record c { target_angle = val }))
  set_control_target_impl r linked val (speed c) = do
    a ← get_linked_encoder_angle r linked
    returns (speed (record c { tgt_speed = val; last_encoder_angle = a }))

  unfoldable pub clear_control_run_impl : Readings D → Bool → Target D → Outcome (Target D)
  clear_control_run_impl r linked (angle c) = returns (angle c)
  clear_control_run_impl r linked (speed c) = do
    a ← get_linked_encoder_angle r linked
    returns (speed (record c { tgt_speed = lit 0; last_encoder_angle = a }))

  unfoldable pub is_complete : Readings D → Bool → Target D → Outcome Bool
  is_complete r linked (angle c) = do
    a ← get_linked_encoder_angle r linked
    returns (lt (abs (angle_distance a c.target_angle)) c.threshold)
  is_complete r linked (speed c) = returns false

  -- A MotorDir as a number.
  abbrev pub dir_value : MotorDir → D
  dir_value dir_ccw = minus_one
  dir_value dir_none = lit 0
  dir_value dir_cw = lit 1

  -- LinearAngleTarget::speedControlStep, from the encoder's angle.
  unfoldable pub angle_step : LinearAngleTarget D → D → D
  angle_step c encoder =
      let error = angle_distance encoder c.target_angle in
      let gain =
        add (mul (mul (sgn error) (abs error)) (div (sub (lit 1) c.min_speed) (lit 90)))
          c.min_speed in
      let p_gain =
        if lt c.min_speed (abs gain)
        then gain
        else mul (dir_value (get_motor_dir_to_target encoder c.target_angle)) c.min_speed in
      if lt (abs error) c.threshold then lit 0 else p_gain

  -- LinearSpeedTarget::speedControlStep, from the readings and the milliseconds since the last run.
  unfoldable pub speed_step : LinearSpeedTarget D → D → D → D → LinearSpeedTarget D × D
  speed_step c motor_speed encoder dt =
      let accum = add c.dt_accum dt in
      if lt accum c.refresh_time then (record c { dt_accum = accum }, motor_speed) else (
        record c { dt_accum = lit 0; last_encoder_angle = encoder },
        make_valid_power
            (mul (div motor_speed c.tgt_speed) (div (sub encoder c.last_encoder_angle) accum)),
      )

  unfoldable pub speed_control_step : Readings D → Bool → D → Target D → Outcome (Target D × D)
  speed_control_step r linked dt (angle c) = do
    a ← get_linked_encoder_angle r linked
    returns (angle c, angle_step c a)
  speed_control_step r linked dt (speed c) = do
    v ← get_linked_motor_speed r linked
    if lt (add c.dt_accum dt) c.refresh_time
        then returns (speed (speed_step c v (lit 0) dt).0, v)
        else do
          a ← get_linked_encoder_angle r linked
          returns (speed (speed_step c v a dt).0, (speed_step c v a dt).1)

  unfoldable pub set_control_target : Readings D → D → MotorControl D → Outcome (MotorControl D)
  set_control_target r val c = do
    t ← set_control_target_impl r c.controlled_motor val c.target
    returns (record c { target = t })

  unfoldable pub clear_control_run : Readings D → MotorControl D → Outcome (MotorControl D)
  clear_control_run r c = do
    t ← clear_control_run_impl r c.controlled_motor c.target
    returns (record c { target = t })

  unfoldable pub set_controlled_motor : MotorControl D → MotorControl D
  set_controlled_motor c = record c { controlled_motor = true }

  unfoldable pub cancel : MotorControl D → Outcome (MotorControl D)
  cancel c = do ended ← c.platform_cancel c.scheduled; returns (record c { scheduled = none })

  unfoldable pub start : MotorControl D → MotorControl D
  start c = record c { scheduled = some 100 }

  -- `execute`: the controller afterwards, and the speed that it forces on its motor.
  unfoldable pub execute : Readings D → ℕ → D → MotorControl D → Outcome (MotorControl D × D)
  execute r now dt c = do
    done ← is_complete r c.controlled_motor c.target
    (t, v) ←
        if done
        then returns (c.target, lit 0)
        else speed_control_step r c.controlled_motor dt c.target
    if c.controlled_motor
        then returns (record c { target = t; last_runtime = some now; scheduled = some 100 }, v)
        else null_access
