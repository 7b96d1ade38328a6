-- ===== src/Tests/Host.antt =====
-- Runs of the robot with its devices, of the autonomous sequence on them, and of a build for the host.
use frc.Prelude.{
  Option, Bool, ℕ, ◌+◌, ◌≡◌, ◌⊎◌, refl, true, false, List, [], ◌∷◌, none, some, arith,
  if◌then◌else◌, ◌==◌,
}
use frc.Prelude.Int.{pos}
use frc.LogMacros.{Outcome, returns, exits}
use frc.Double.{lit}
use frc.Double.Grid.{Grid, grid}
use frc.RobotMath.{is_valid_power}
use frc.Options.{default_options}
use frc.HardwareLink.Lights.{Relay, IsRelay, RelayValue, forward, reverse}
use frc.HardwareLink.Encoders.{get_angle}
use frc.ListenerManager.{run_cycle}
use frc.Motor.Control.{Readings, new_control}
use frc.Motor.Link.{
  set_target, process, new_motor_link, new_motor_link_plain, new_motor_link_controlled,
}
use frc.Motor.Link.Ownership.{Reachable, created}
use frc.Global.{Motor, rot_fr, rot_fl, rot_bk, drv_fr, Global, new_global}
use frc.Global as Modes
use frc.Global.Modes.{Event, robot, disabled, teleop, teleop_period, disabled_period, poll, run}
use frc.Global.Devices.{Devices, new_devices, new_motors}
use frc.Global.Devices.Start.{is_turning, IsDrivenTo, turning, initialized, initialize_robot_lem}
use frc.AutoConfig.{Auto, set_control_target, initialize, spin_until}
use frc.AutoConfig.Calls.{make_call, run_calls}
use frc.CockArm.{CockArm, Timer}
use frc.AutoConfig.Safety.{Cancels, IsReady, has_angle, initialize-run_calls}
use frc.WpiMock.{get_voltage}
use frc.WpiMock.HostBuild.{mock_joystick, host_cycle, host_get_angle}
use frc.CrioTest.{main}
use frc.CrioTest as Crio
use frc.CrioTest.Flags.{SameFlags, crio_run, crio_run-SameFlags}

abbrev modes : List (Event Grid)
modes = robot ∷ disabled ∷ teleop ∷ teleop_period ∷ poll mock_joystick ∷ disabled_period ∷ []

host_cycle_example :
    (run_cycle (run (Modes.new_robot) modes).global.listener_manager mock_joystick).1 ≡ []
host_cycle_example = host_cycle refl modes (refl, tt)

host_get_angle_test :
    get_angle (λ channel. get_voltage) (record { enc = (pos 1, pos 2); offset = some (pos 17) }) []
    ≡ (some (pos 17), [])
host_get_angle_test = host_get_angle (pos 1, pos 2) (pos 17) []

crio_run_example : SameFlags (crio_run false Crio.new_robot modes) (run Modes.new_robot modes)
crio_run_example = crio_run-SameFlags false modes

main_test : main.1.teleop_has_been_init ≡ true
unfolding main Crio.new_robot Crio.emit Crio.robot_init Crio.autonomous_init Crio.teleop_init
    Crio.disabled_init Crio.autonomous_periodic Crio.teleop_periodic Crio.disabled_periodic
main_test = refl

abbrev relays : Relay (ℕ → RelayValue)
relays = record { set = λ a v o b. if a == b then v else o b; value = λ a o. o a }

relays-IsRelay : IsRelay relays
relays-IsRelay = record {
  value-set = λ a v o. ground arith;
  value-set_other = λ a b v o apart. ground arith;
}

-- A Cancel that returns.
abbrev stop : Option ℕ → Outcome Unit
stop s = returns tt

abbrev lit_up : ℕ → RelayValue
lit_up a = forward

abbrev start_of_day : Global Grid
start_of_day = new_global

-- An encoder that reads 30 degrees, and a motor at rest.
abbrev thirty : Readings Grid
thirty = record { encoder_angle = some (some (pos 30720)); talon_speed = some (pos 0) }

initialize_robot_example :
    let after = initialized relays default_options start_of_day in
    (v : Devices Grid (ℕ → RelayValue)) × (new_devices stop lit_up ≡ returns v)
    × ((is_turning rot_bk ≡ true)
          × IsDrivenTo stop (lit 90) (process thirty ((after v).motors rot_bk))
        ⊎ (is_turning rot_bk ≡ false) × ((after v).motors rot_bk ≡ v.motors rot_bk))
    × (relays.value 1 (after v).relays ≡ reverse)
    × (relays.value 2 (after v).relays ≡ reverse)
unfolding is_valid_power
initialize_robot_example =
    initialize_robot_lem relays relays-IsRelay default_options stop lit_up refl refl start_of_day
      rot_bk thirty

-- A clock on which a sleep takes three seconds, and a gyroscope at rest.
abbrev sleep : ℕ → ℕ → ℕ
sleep n now = now + 3000

abbrev still : Motor → ℕ → Grid
still m now = some (pos 0)

abbrev made : Devices Grid (ℕ → RelayValue)
made = record { motors = new_motors stop turning turning turning; relays = lit_up }

new_motors-Reachable : (m : Motor) → Reachable (made.motors m)
unfolding new_motors new_motor_link_controlled new_motor_link_plain
new_motors-Reachable rot_fr = created (some 0) _ _
new_motors-Reachable rot_fl = created (some 1) _ _
new_motors-Reachable rot_bk = created (some 2) _ _
new_motors-Reachable _ = created none none _

new_motors-has_angle :
    (m : Motor) → is_turning m ≡ true → has_angle (made.motors m).spd_control ≡ true
unfolding new_motors new_motor_link_controlled new_motor_link_plain new_motor_link new_control
new_motors-has_angle rot_fr e = refl
new_motors-has_angle rot_fl e = refl
new_motors-has_angle rot_bk e = refl
new_motors-has_angle _ e = absurd (cc)

new_motors-Cancels : (m : Motor) → Cancels (made.motors m).spd_control
unfolding new_motors new_motor_link_controlled new_motor_link_plain new_motor_link new_control
new_motors-Cancels rot_fr = λ s. refl
new_motors-Cancels rot_fl = λ s. refl
new_motors-Cancels rot_bk = λ s. refl
new_motors-Cancels _ = tt

made-IsReady : IsReady made
made-IsReady = record {
  reachable = new_motors-Reachable;
  steered = new_motors-has_angle;
  stopped = new_motors-Cancels;
}

-- A timer that is a flag, and an arm whose timer runs.
abbrev flag : Timer Bool
flag = record {
  start_relative = λ n t. true;
  cancel = λ t. returns false;
  timer_is_running = λ t. t;
}

abbrev arm : CockArm Grid Bool
arm = record { warned = false; cock_arm_active = true; timer = true; m_shooter = [] }

abbrev from_zero : Auto Grid
from_zero = record { now = 0; calls = [] }

abbrev finished : Auto Grid
finished = elim (initialize sleep still 3 true from_zero) [ none ↦ from_zero | some b ↦ b ]

ends : initialize sleep still 3 true from_zero ≡ some finished
unfolding initialize spin_until
ends = refl

run_calls_example :
    (v : Devices Grid (ℕ → RelayValue) × CockArm Grid Bool) × (run_calls flag relays default_options
        (λ n. thirty)
        (λ n w. w)
        finished.calls
        (made, arm)
      ≡ returns v)
    × IsReady v.0
run_calls_example =
    initialize-run_calls flag (λ t. (false, refl)) relays default_options (λ n. thirty) (λ n w. w)
      (λ n w h. h) sleep still 3 true 0 finished (made, arm) ends made-IsReady

-- A target for a drive motor, which has no controller, ends the process.
make_call_test :
    make_call flag relays default_options thirty
      (set_control_target drv_fr (some (pos 92160)))
      (made, arm)
    ≡ exits 2
unfolding make_call set_target new_motors new_motor_link_plain new_motor_link
make_call_test = refl
