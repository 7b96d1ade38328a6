-- ===== src/Tests/Steering.antt =====
-- Runs of the swerve drive's handler, over first approximations of the functions of <cmath>.
use frc.Prelude.{
  ℕ, zero, suc, false, ◌*◌, ◌/◌, ◌≤◌, ◌≡◌, refl, [], ◌∷◌, true, none, some, arith, leb, replicate,
  if◌then◌else◌,
}
use frc.Prelude.Int.{ℤ, pos, negsuc, abs_ℕ, ◌+ℤ◌, ◌-ℤ◌}
use frc.LogMacros.{returns}
use frc.Double.Grid.{Grid, grid, unit}
use frc.ListenerManager.{ListenerManager, get_raw_double, at_or_log}
use frc.RobotMath.{angle_distance, normalize_angle}
use frc.SwerveDrive.{optimize_swerve}
use frc.SwerveDrive.Steer.{
  Cmath, SwerveDrive, Wheels, new_swerve_drive, scale_speeds, d_tr, r_td, wheel_speed, wheel_angle,
  compute, compute_at, outputs, steer_handler,
}
use frc.SwerveDrive.Steer.Limits.{wheels}
use frc.SwerveDrive.Steer.Numbers.{IsCmath, is_number, steer_handler-speeds}
use frc.SwerveDrive.Steer.Thread.{Shared, steer_command, steer, Steered, run_loop-speeds}
use frc.ThreadSafeQueue.{list_queue}
use frc.CmdProcessor.{Cmd, CmdProcessor, waiting, run_loop, enqueue}
use frc.SwerveDrive.Steer.Rest.{steer_handler-rest}

-- The largest number up to `k` whose square is at most `n`.
root_from : ℕ → ℕ → ℕ
root_from zero n = 0
root_from (suc k) n = let rest = root_from k n in if leb (suc k * suc k) n then suc k else rest

abbrev grid_sqrt : Grid → Grid
grid_sqrt (some (pos n)) = some (pos (root_from (n * unit) (n * unit)))
grid_sqrt _ = none

abbrev first_order : Cmath Grid
first_order = record {
  sqrt = grid_sqrt;
  pow = λ x y. grid.mul x x;
  sin = λ x. x;
  cos = λ x. some (pos unit);
  atan2 = λ y x. y;
  pi = some (pos 3217);
}

square_of : (a : ℤ) → (n : ℕ) × (grid.mul (some a) (some a) ≡ some (pos n))
square_of (pos a) = (a * a / unit, ground arith)
square_of (negsuc a) = (suc a * suc a / unit, ground arith)

first_order-IsCmath : IsCmath first_order
unfolding root_from
first_order-IsCmath = record {
  square = square_of;
  root = λ n. (root_from (n * unit) (n * unit), refl);
  sine = λ a. (a, refl);
  cosine = λ a. (pos unit, refl);
  arctangent = λ a b. (a, refl);
  pi_positive = (3216, refl);
  square_zero = refl;
  root_zero = refl;
}

-- The first joystick at `x` and `y`, and the second at `z`.
abbrev sticks : ℤ → ℤ → ℤ → ListenerManager Grid
sticks x y z = record {
  listeners = [];
  joystick_values =
      some (pos 0)
      ∷ some (pos 0)
      ∷ some (pos 0)
      ∷ some (pos 0)
      ∷ some (pos 0)
      ∷ some (pos 0)
      ∷ some (pos 0)
      ∷ some (pos 0)
      ∷ some (pos 0)
      ∷ some (pos 0)
      ∷ some (pos 0)
      ∷ some x
      ∷ some z
      ∷ some (pos 0)
      ∷ some y
      ∷ some (pos 0)
      ∷ [];
  button_values = replicate 11 true;
}

abbrev state : SwerveDrive Grid
state = new_swerve_drive

speeds_test :
    (s' : SwerveDrive Grid) × (targets : Wheels Grid) × (r : ℤ) × (l : ℤ) × (b : ℤ) × (steer_handler
        first_order
        (sticks (pos 1024) (pos 512) (pos 900))
        (some (pos 0))
        (returns (wheels (pos 0) (pos 0) (pos 0)))
        state
      ≡ returns (s', (targets, wheels r l b), []))
    × (is_number s'.theta ≡ true)
    × (abs_ℕ r ≤ unit)
    × (abs_ℕ l ≤ unit)
    × (abs_ℕ b ≤ unit)
unfolding get_raw_double at_or_log new_swerve_drive
speeds_test =
    steer_handler-speeds first_order first_order-IsCmath (sticks (pos 1024) (pos 512) (pos 900))
      (pos 1024) (pos 512) (pos 900) (pos 0) (pos 0) (pos 0) (pos 0) state refl refl refl refl

rest_example :
    (s' : SwerveDrive Grid) × (targets : Wheels Grid) × (steer_handler first_order
        (sticks (pos 100) (negsuc 30) (pos 204))
        (some (pos 0))
        (returns (wheels (pos 0) (pos 0) (pos 0)))
        state
      ≡ returns (s', (targets, wheels (pos 0) (pos 0) (pos 0)), []))
    × (s'.theta ≡ state.theta)
unfolding get_raw_double at_or_log new_swerve_drive
rest_example =
    steer_handler-rest first_order first_order-IsCmath (sticks (pos 100) (negsuc 30) (pos 204))
      (pos 100) (negsuc 30) (pos 204) (pos 0) (pos 0) (pos 0) (pos 0) state refl refl refl
      (omega arith) (omega arith) (omega arith) refl

scale_speeds_test :
    scale_speeds (wheels (pos 2048) (negsuc 1023) (pos 512))
    ≡ wheels (pos 1024) (negsuc 511) (pos 256)
unfolding scale_speeds
scale_speeds_test = refl

conversion_test :
    (d_tr first_order (some (pos 184320)) ≡ some (pos 3217))
    × (r_td first_order (some (pos 0)) ≡ some (pos 0))
unfolding d_tr r_td
conversion_test = (refl, refl)

outputs_test :
    (outputs (some (pos 0)) (some (pos 900)) (wheels (pos 0) (pos 0) (pos 0)) state).1
    ≡ wheels (pos 0) (pos 0) (pos 0)
unfolding outputs new_swerve_drive scale_speeds optimize_swerve angle_distance normalize_angle ◌+ℤ◌
    ◌-ℤ◌
outputs_test = refl

compute_test :
    (compute first_order (some (pos 0)) (some (pos 0)) (some (pos 0)) (some (pos 9)) state).vel
    ≡ some (pos 0)
unfolding compute compute_at root_from ◌+ℤ◌
compute_test = refl

wheel_test :
    (wheel_speed first_order
        (some (pos 0))
        (some (pos 0))
        (some (pos 0))
        (some (pos 9))
        (some (pos 9))
      ≡ some (pos 0))
    × (wheel_angle first_order
          (some (pos 0))
          (some (pos 0))
          (some (pos 0))
          (some (pos 9))
          (some (pos 9))
        ≡ some (pos 0))
unfolding wheel_speed wheel_angle r_td root_from ◌+ℤ◌ ◌-ℤ◌
wheel_test = (refl, refl)

-- Two calls of steer wait.
abbrev waiting_calls : CmdProcessor (list_queue (Cmd (Shared Grid)))
waiting_calls = record {
  queue = (steer_command first_order ∷ steer_command first_order ∷ [], false);
  errors = 0;
}

run_loop_speeds_example :
    let m = sticks (pos 1024) (pos 512) (pos 900) in
    let (status, p, s) = run_loop (list_queue (Cmd (Shared Grid))) 3 waiting_calls (record {
      manager = m;
      gyro = some (pos 0);
      encoders = returns (wheels (pos 0) (pos 0) (pos 0));
      drive = state;
      set_to = [];
    }) in
    (status ≡ waiting) × (p.errors ≡ 0) × Steered m (pos 0) (pos 0) (pos 0) (pos 0) 2 [] s
unfolding get_raw_double at_or_log new_swerve_drive
run_loop_speeds_example =
    run_loop-speeds first_order first_order-IsCmath (sticks (pos 1024) (pos 512) (pos 900))
      (pos 1024) (pos 512) (pos 900) (pos 0) (pos 0) (pos 0) (pos 0) refl refl refl
      (list_queue (Cmd (Shared Grid))) 2 3 waiting_calls state [] refl refl (omega arith) refl

steer_test :
    (steer first_order
      (list_queue (Cmd (Shared Grid)))
      (record { queue = ([], false); errors = 0 })).queue.0
    ≡ steer_command first_order ∷ []
unfolding steer enqueue
steer_test = refl
