-- ===== src/Tests/Regulation.antt =====
-- A speed controller that drives a reversed motor.
use frc.Prelude.{All, ◌*◌, arith, ℕ, ◌≡◌, refl, List, [], ◌∷◌, ◌++◌, true, some, none, Option}
use frc.Prelude.Int.{pos, ◌-ℤ◌, ◌+ℤ◌}
use frc.LogMacros.{returns}
use frc.Double.{lit, minus_one}
use frc.Double.Grid.{Grid, grid}
use frc.RobotMath.{make_valid_power}
use frc.Motor.Control.{
  LinearSpeedTarget, MotorControl, speed, speed_step, new_control, execute, is_complete,
  speed_control_step, get_linked_motor_speed, get_linked_encoder_angle, get_encoder_angle,
}
use frc.Motor.Link.{
  MotorLink, TalonCall, pid_write, set, new_motor_link_controlled, new_motor_link, run_cmd, process,
  control_fires, set_speed_force, enqueue,
}
use frc.Motor.Regulation.{Round, regulate, regulate_all}
use frc.Motor.Regulation.Windows.{Window, rounds, Splits}
use frc.Motor.Regulation.Standstill.{IsExact, Regulates, regulate_all-stands}
use frc.Motor.Regulation.Powers.{driven, calls_after, target_after, regulate_all_lem}

-- A Talon that starts at 0, over values that floats have.
abbrev get : List (TalonCall Grid) → Grid
get [] = lit 0
get (pid_write v ∷ calls) = v
get (set v ∷ calls) = v

abbrev target : LinearSpeedTarget Grid
target = record {
  tgt_speed = lit 2;
  dt_accum = lit 0;
  refresh_time = lit 50;
  last_encoder_angle = lit 0;
}

abbrev control : MotorControl Grid
control = new_control (λ s. returns tt) (speed target)

abbrev reversed : MotorLink Grid
reversed = record (new_motor_link_controlled (some 1) (some control)) {
  motor_reversed = true;
  spd_control_enabled = true;
}

abbrev run_at : ℕ → ℕ → ℕ → Round Grid
run_at now dt angle = record { now = now; dt = lit dt; encoder = lit angle }

abbrev runs : List (Round Grid)
runs = run_at 30 30 10 ∷ run_at 60 30 120 ∷ run_at 90 30 130 ∷ []

abbrev calls : List (TalonCall Grid)
calls = pid_write (lit 1) ∷ []

-- The runs turn the motor round each time: the powers are 1, -1, 1 and -1.
regulate_all_test :
    regulate_all get runs (driven reversed control target calls none)
    ≡ returns (
        driven reversed control
          (record target { dt_accum = lit 30; last_encoder_angle = lit 120 })
          (pid_write minus_one ∷ pid_write (lit 1) ∷ pid_write minus_one ∷ calls)
          (some 90))
unfolding new_motor_link_controlled new_motor_link new_control regulate_all regulate control_fires
    process set_speed_force enqueue run_cmd execute is_complete speed_control_step
    get_linked_motor_speed get_linked_encoder_angle get_encoder_angle speed_step make_valid_power
    ◌-ℤ◌ ◌+ℤ◌
regulate_all_test = refl

regulate_all_example :
    (ws : List (Window Grid)) × (later : List (Round Grid)) × (last : Option ℕ) × (runs
      ≡ rounds ws ++ later)
    × Splits (lit 50) (lit 0) ws later
    × (regulate_all get runs (driven reversed control target calls none)
        ≡ returns (
            driven reversed control
              (target_after reversed control target ws later)
              (calls_after reversed control (λ v. v) target (lit 1) ws later calls)
              last))
regulate_all_example =
    regulate_all_lem reversed control (λ v. v) get (λ v calls. refl) runs target calls none

regulates : Regulates target
regulates = (pos 2048, 51200, pos 0, pos 0, omega arith, omega arith, refl, refl, refl, refl)

IsExact-runs : All IsExact runs
IsExact-runs = (
  (pos (30 * 1024), pos (10 * 1024), refl, refl),
  (
    (pos (30 * 1024), pos (120 * 1024), refl, refl),
    ((pos (30 * 1024), pos (130 * 1024), refl, refl), tt),
  ),
)

regulate_all_stands_example :
    (t : LinearSpeedTarget Grid) × (last : Option ℕ) × (regulate_all get runs
        (driven reversed control target [] none)
      ≡ returns (
          driven reversed control t
            (pid_write (lit 0) ∷ pid_write (lit 0) ∷ pid_write (lit 0) ∷ [])
            last))
unfolding new_motor_link_controlled new_motor_link
regulate_all_stands_example =
    regulate_all-stands reversed control (pos 1024) refl (λ v. v) get (λ v calls. refl) refl runs
      target [] none IsExact-runs regulates refl
