-- ===== src/Tests/Robot.antt =====
-- A run of the whole robot: teleop mode starts, the left bumper is pressed, and the motors of the arm
-- execute what waits for them.
use frc.Prelude.{ℕ, ◌≡◌, refl, some, true, false, List, [], ◌∷◌, All, ◌==◌, if◌then◌else◌}
use frc.LogMacros.{returns}
use frc.Double.{lit, ratio}
use frc.Double.Grid.{Grid, grid}
use frc.Options.{default_options}
use frc.HardwareLink.Lights.{Relay, RelayValue, forward}
use frc.ListenerManager.{Joystick}
use frc.Motor.Control.{Readings}
use frc.CockArm.{Timer}
use frc.RobotMath.{is_valid_power}
use frc.Global.{m_arm_roll, m_arm_move, rot_bk}
use frc.Global.Modes.{robot, teleop, poll}
use frc.Global.Robot.{Robot, Happening, mode, drives, processes, controls, cocks, built, run}
use frc.Global.Robot.Arms.{IsArmCall, IsArmCmd}
use frc.Global.Robot.Returns.{run_built_lem}

abbrev relays : Relay (ℕ → RelayValue)
relays = record { set = λ a v o b. if a == b then v else o b; value = λ a o. o a }

abbrev timers : Timer ℕ
timers = record {
  start_relative = λ n t. n;
  cancel = λ t. returns 0;
  timer_is_running = λ t. if t == 0 then false else true;
}

-- The left bumper is button 5.
abbrev left_bumper : Joystick Grid
left_bumper = record { raw_button = λ n. n == 5; raw_axis = λ n. lit 0 }

abbrev resting : Readings Grid
resting = record { encoder_angle = some (lit 0); talon_speed = lit 0 }

abbrev happenings : List (Happening Grid ℕ)
happenings =
    mode robot
    ∷ mode teleop
    ∷ mode (poll left_bumper)
    ∷ processes m_arm_roll resting
    ∷ processes m_arm_move resting
    ∷ controls rot_bk resting 7 (lit 3)
    ∷ drives
    ∷ cocks false
    ∷ []

valid_lem : is_valid_power {D = Grid} (ratio 2 5) ≡ true
unfolding is_valid_power
valid_lem = refl

robot_example :
    (s : Robot Grid ℕ (ℕ → RelayValue)) × (s' : Robot Grid ℕ (ℕ → RelayValue)) × (built timers
        relays default_options
        (λ ls. ls)
        (λ s. returns tt)
        0
        (λ a. forward)
      ≡ returns s)
    × (run timers relays default_options (λ ls. ls) s happenings ≡ returns s')
    × All IsArmCall (s'.devices.motors m_arm_roll).talon
    × All IsArmCmd (s'.devices.motors m_arm_roll).queue
    × All IsArmCall (s'.devices.motors m_arm_move).talon
    × All IsArmCmd (s'.devices.motors m_arm_move).queue
robot_example =
    run_built_lem timers (λ t. (0, refl)) relays default_options (λ ls. ls) valid_lem
      (λ s. returns tt) (λ s. refl) 0 (λ a. forward) happenings
      (tt, (tt, (tt, (tt, (tt, ((lit 0, refl), (tt, (tt, tt))))))))
