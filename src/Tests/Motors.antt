-- ===== src/Tests/Motors.antt =====
-- Runs of a motor with an angle controller.
use frc.Prelude.{
  ◌⊎◌, Option, arith, ℕ, ◌≡◌, ◌*◌, refl, [], ◌∷◌, true, false, none, some, if◌then◌else◌,
}
use frc.Prelude.Int.{ℤ, pos, negsuc, ◌-ℤ◌, ◌+ℤ◌}
use frc.LogMacros.{Outcome, unusual, exits, returns, throws, robo_exception, recoverable, ◌>>=◌}
use frc.Double.{lit}
use frc.Double.Grid.{Grid, grid}
use frc.RobotMath.{
  angle_distance, normalize_angle, sgn, make_valid_power, is_valid_power, get_motor_dir_to_target,
}
use frc.RobotMath.Angles.{turn, principal}
use frc.Motor.Control.{
  LinearAngleTarget, angle, MotorControl, Readings, new_control, clear_control_run,
  clear_control_run_impl, set_controlled_motor, start, new_linear_angle_target,
  new_linear_speed_target, new_linear_speed_target_default, set_refresh_time, angle_step,
  speed_step, execute, is_complete, cancel, set_control_target, set_control_target_impl,
}
use frc.Motor.Link.{
  disable_control, cancel_control, MotorLink, set_speed_impl, start_speed_control_impl,
  new_motor_link, new_motor_link_plain, new_motor_link_scaled, new_motor_link_encoder,
  new_motor_link_encoder_scaled, new_motor_link_controlled, enqueue, reverse_motor,
  set_speed_scalar, set_encoder, set_speed_controller, start_speed_control, stop_speed_control,
  set_speed, set_speed_force, set_target, run_cmd, process, control_fires,
}
use frc.Motor.Link.Ownership.{
  ask, execute_one, after, Reachable, created, happened, HasControl, is_driven,
  Reachable-HasControl, set_speed-Reachable, set_speed-start_speed_control,
}
use frc.Motor.Direction.{Powers, execute-Powers}
use frc.Motor.Starts.{aimed, start_speed_control_impl_lem, execute-angle_step}

abbrev deg : ℕ → Grid
deg n = some (pos (n * 1024))

abbrev target : LinearAngleTarget Grid
target = record {
  min_speed = some (pos 400);
  target_angle = deg 0;
  threshold = deg 4;
  k_p = some (pos 5);
}

-- A Cancel that returns.
abbrev stop : Option ℕ → Outcome Unit
stop s = returns tt

abbrev control : MotorControl Grid
control = new_control stop (angle target)

abbrev linked : MotorControl Grid
linked = record {
  target = angle target;
  last_runtime = none;
  controlled_motor = true;
  scheduled = some 100;
  platform_cancel = stop;
}

abbrev fresh : MotorLink Grid
fresh = new_motor_link (some 1) (some control) (deg 1)

abbrev idle : MotorLink Grid
idle = record {
  encoder = some 1;
  spd_control = some control;
  spd_control_enabled = false;
  motor_reversed = false;
  speed_scalar = deg 1;
  queue = [];
  talon = [];
  log = [];
}

abbrev readings : Readings Grid
readings = record { encoder_angle = some (deg 30); talon_speed = deg 0 }

-- The motor with the start command waiting, and after its execution.
abbrev asked : MotorLink Grid
asked = record idle { queue = start_speed_control_impl (deg 90) ∷ [] }

abbrev driven : MotorLink Grid
driven = record idle {
  spd_control = some (record {
    target = angle (record target { target_angle = deg 90 });
    last_runtime = none;
    controlled_motor = true;
    scheduled = some 100;
    platform_cancel = stop;
  });
  spd_control_enabled = true;
}

fresh_lem : fresh ≡ idle
unfolding new_motor_link new_control
fresh_lem = refl

asked_lem : after fresh (ask (start_speed_control_impl (deg 90))) ≡ returns asked
unfolding after enqueue new_motor_link new_control
asked_lem = refl

driven_lem : after asked (execute_one readings) ≡ returns driven
unfolding after process run_cmd clear_control_run clear_control_run_impl set_control_target
    set_control_target_impl set_controlled_motor start new_control
driven_lem = refl

driven-Reachable : Reachable driven
driven-Reachable =
    happened asked driven (execute_one readings)
      (happened fresh asked (ask (start_speed_control_impl (deg 90)))
        (created (some 1) (some control) (deg 1)) asked_lem)
      driven_lem

driven_example : HasControl driven
driven_example = Reachable-HasControl driven driven-Reachable

abbrev driver : MotorControl Grid
driver = record {
  target = angle (record target { target_angle = deg 90 });
  last_runtime = none;
  controlled_motor = true;
  scheduled = some 100;
  platform_cancel = stop;
}

set_speed_example :
    let waits = enqueue (set_speed_impl (deg 1)) driven in
    (driven.spd_control_enabled ≡ false) × (set_speed (deg 1) driven ≡ returns waits)
    ⊎ (driven.spd_control_enabled ≡ true)
      × ((c : MotorControl Grid) × (driven.spd_control ≡ some c)
          × (set_speed (deg 1) driven ≡ (
              c.platform_cancel c.scheduled >>= λ ended. returns (record waits {
                spd_control = some (record c { scheduled = none });
                spd_control_enabled = false;
                log = unusual ∷ driven.log;
              }))))
set_speed_example = set_speed-Reachable (deg 1) driven driven-Reachable

-- Where the Cancel of the timer ends the process, setSpeed does.
set_speed_exits_test :
    set_speed
      (deg 1)
      (record driven { spd_control = some (record driver { platform_cancel = λ s. exits 2 }) })
    ≡ exits 2
unfolding set_speed disable_control cancel_control cancel
set_speed_exits_test = refl

race_example :
    is_driven (
      set_speed (deg 1) (start_speed_control (deg 90) idle)
      >>= process readings
      >>= process readings)
    ≡ true
unfolding new_control
race_example =
    set_speed-start_speed_control readings (deg 90) (deg 1) idle target control refl refl refl refl

start_speed_control_impl_example :
    run_cmd readings (start_speed_control_impl (deg 90)) idle
    ≡ returns (record idle {
      spd_control = some (record {
        target = aimed (deg 90) (deg 90) (angle target);
        last_runtime = none;
        controlled_motor = true;
        scheduled = some 100;
        platform_cancel = stop;
      });
      spd_control_enabled = true;
    })
unfolding new_control
start_speed_control_impl_example = start_speed_control_impl_lem readings (deg 90) idle control refl

execute-angle_step_test :
    let done = grid.lt (grid.abs (angle_distance (deg 30) target.target_angle)) target.threshold in
    (is_complete readings true (angle target) ≡ returns done)
    × ((if done then angle_step target (deg 30) else lit 0) ≡ lit 0)
    × (execute readings 7 (deg 0) linked
        ≡ returns (
          record linked { last_runtime = some 7; scheduled = some 100 },
          angle_step target (deg 30),
        ))
execute-angle_step_test =
    execute-angle_step readings 7 (deg 0) (deg 30) linked target refl refl refl

-- From 30 degrees to 0 the motor turns back, with at least the smallest speed.
execute-Powers_example :
    (is_complete readings true (angle target) ≡ returns false)
    × ((p : ℤ) × (execute readings 7 (deg 0) linked
          ≡ returns (record linked { last_runtime = some 7; scheduled = some 100 }, some p))
        × Powers false (negsuc 30719) 400 p)
unfolding turn principal ◌-ℤ◌
execute-Powers_example =
    execute-Powers target (pos 30720) (pos 0) 400 4096 refl refl (omega arith) refl (omega arith)
      readings 7 (deg 0) linked refl refl refl

-- Half a turn back, the smallest speed is taken off the step.
angle_step_test : angle_step target (deg 180) ≡ some (negsuc 679)
unfolding angle_step angle_distance normalize_angle sgn get_motor_dir_to_target ◌-ℤ◌ ◌+ℤ◌
angle_step_test = refl

speed_step_test :
    (speed_step (new_linear_speed_target (deg 2) (deg 0)) (deg 1) (deg 5) (deg 60)).1
    ≡ some (pos 51)
unfolding speed_step new_linear_speed_target make_valid_power ◌-ℤ◌ ◌+ℤ◌
speed_step_test = refl

new_linear_angle_target_test :
    new_linear_angle_target {D = Grid} (deg 3) (deg 4) (deg 0) ≡ throws robo_exception
unfolding new_linear_angle_target is_valid_power
new_linear_angle_target_test = refl

refresh_test :
    (set_refresh_time (deg 50) (new_linear_speed_target_default (deg 1))).refresh_time
    ≡ some (pos 51)
unfolding set_refresh_time
refresh_test = refl

-- The constructor with an encoder and a scalar drops the scalar.
new_motor_link_test :
    (new_motor_link_encoder_scaled (some 1) (deg 3) ≡ new_motor_link_encoder (some 1))
    × (new_motor_link_plain {D = Grid} ≡ new_motor_link_scaled (deg 1))
    × (new_motor_link_controlled {D = Grid} (some 1) none ≡ new_motor_link_encoder (some 1))
unfolding new_motor_link_plain new_motor_link_scaled new_motor_link_encoder
    new_motor_link_encoder_scaled new_motor_link_controlled
new_motor_link_test = (refl, refl, refl)

queue_test :
    (set_speed_force (deg 1) (
      stop_speed_control (
        set_speed_controller none
          (set_encoder none (set_speed_scalar (deg 2) (reverse_motor idle)))))).log
    ≡ []
unfolding set_speed_force stop_speed_control set_speed_controller set_encoder set_speed_scalar
    reverse_motor enqueue
queue_test = refl

set_target_test :
    (set_target readings (deg 90) idle ≡ returns (record idle { log = recoverable ∷ [] }))
    × (control_fires readings 7 (deg 0) (record idle { spd_control = none })
        ≡ returns (record idle { spd_control = none }))
unfolding set_target control_fires new_control
set_target_test = (refl, refl)
