-- ===== src/Tests/Devices.antt =====
-- Runs of the devices, the arm and the drive over hardware that remembers what was set.
use frc.Prelude.{
  sym, ℕ, ◌≡◌, ◌≢◌, ◌*◌, refl, [], ◌∷◌, Bool, true, false, some, arith, ◌==◌, if◌then◌else◌,
  replicate,
}
use frc.Prelude.Int.{ℤ, pos, ◌+ℤ◌, ◌-ℤ◌, ◌≤ℤ◌}
use frc.LogMacros.{returns}
use frc.Global.Robot.Arms.{returned}
use frc.Double.{minus_one}
use frc.Double.Grid.{Grid, grid}
use frc.Options.{Options, red, blue, default_options}
use frc.HardwareLink.Piston.{
  Solenoid, IsSolenoid, Piston, new_piston, new_piston_set, invert_piston, lock_piston,
  unlock_piston, set_piston_on, set_piston_off, invert_solenoids, position, set_piston_lem,
  invert_solenoids_lem,
}
use frc.HardwareLink.Lights.{
  Relay, IsRelay, RelayValue, forward, reverse, light_change, light_change_current, lights,
  light_change_lem,
}
use frc.HardwareLink.Encoders.{
  get_angle, get_raw_value, get_disk_angle, new_magnetic_pot_encoder,
  new_magnetic_pot_encoder_forwarding, get_angle_bounds,
}
use frc.ListenerManager.{ListenerManager, get_raw_double, at_or_log}
use frc.ArcadeDrive.{new_arcade_drive, steer_handler, steer_speeds}
use frc.Motor.Link.{new_motor_link, new_motor_link_plain, set_speed, set_speed_force}
use frc.CockArm.{
  CockArm, Timer, IsTimer, new_cock_arm, execute, start_arm, cancel_arm, stop_arm_cock,
  start_arm_cock, execute-start_arm_cock,
}

-- Two devices, 1 and any other.
abbrev put : {A : Type 0} → ℕ → A → A × A → A × A
put a v (x, y) = if a == 1 then (v, y) else (x, v)

abbrev read : {A : Type 0} → ℕ → A × A → A
read a (x, y) = if a == 1 then x else y

abbrev solenoids : Solenoid (ℕ → Bool)
solenoids = record { set = λ a v o b. if a == b then v else o b; get = λ a o. o a }

solenoids-IsSolenoid : IsSolenoid solenoids
solenoids-IsSolenoid = record {
  get-set = λ a v o. ground arith;
  get-set_other = λ a b v o apart. ground arith;
}

abbrev piston : Piston
piston = record { sol_a = 1; sol_b = 2; inversion = false }

abbrev at_rest : ℕ → Bool
at_rest a = false

one-ne-two : ◌≢◌ {A = ℕ} 1 2
one-ne-two = omega arith

set_piston_test :
    (position solenoids piston (set_piston_on solenoids piston at_rest) ≡ (true, false))
    × (position solenoids piston (set_piston_off solenoids piston at_rest) ≡ (false, true))
    × (set_piston_on solenoids (invert_piston piston) at_rest
        ≡ set_piston_off solenoids piston at_rest)
    × (set_piston_off solenoids (invert_piston piston) at_rest
        ≡ set_piston_on solenoids piston at_rest)
set_piston_test = set_piston_lem solenoids solenoids-IsSolenoid piston at_rest one-ne-two

invert_solenoids_test :
    (position solenoids piston
        (invert_solenoids solenoids piston (lock_piston solenoids piston at_rest))
      ≡ position solenoids piston (unlock_piston solenoids piston at_rest))
    × (position solenoids piston
          (invert_solenoids solenoids piston (set_piston_on solenoids piston at_rest))
        ≡ position solenoids piston (set_piston_off solenoids piston at_rest))
    × (position solenoids piston
          (invert_solenoids solenoids piston (invert_solenoids solenoids piston at_rest))
        ≡ position solenoids piston at_rest)
invert_solenoids_test =
    invert_solenoids_lem solenoids solenoids-IsSolenoid piston at_rest one-ne-two

new_piston_set_test :
    position solenoids piston (new_piston_set solenoids 1 2 true false at_rest).1 ≡ (true, false)
unfolding new_piston_set new_piston
new_piston_set_test = refl

abbrev relays : Relay (ℕ → RelayValue)
relays = record { set = λ a v o b. if a == b then v else o b; value = λ a o. o a }

relays-IsRelay : IsRelay relays
relays-IsRelay = record {
  value-set = λ a v o. ground arith;
  value-set_other = λ a b v o apart. ground arith;
}

abbrev dark : ℕ → RelayValue
dark a = reverse

light_change_example :
    let after = light_change relays default_options red 1 2 dark in
    (lights relays 1 2 after ≡ (reverse, forward))
    × (light_change_current relays default_options 1 2 dark ≡ after)
unfolding default_options
light_change_example =
    light_change_lem relays relays-IsRelay default_options red 1 2 dark one-ne-two

-- An analog input that always reads 2 volts.
abbrev two_volts : ℤ × ℤ → ℕ → Grid × ℕ
two_volts enc o = (some (pos 2048), o)

get_angle_example :
    let a = pos (409 * 360) +ℤ pos 17408 in
    ((get_angle two_volts (record { enc = (pos 1, pos 2); offset = some (pos 17408) }) 0).0
      ≡ some a)
    × (pos 17408 ≤ℤ a)
    × (a ≤ℤ pos 17408 +ℤ pos (360 * 1024))
get_angle_example =
    get_angle_bounds two_volts (pos 1, pos 2) (pos 17408) 2048 0 (λ r. refl) (omega arith)

-- The forwarding constructor makes its first number the offset.
forwarding_test :
    new_magnetic_pot_encoder_forwarding {D = Grid} (pos 3) (pos 4)
    ≡ record { enc = (pos 4, pos 0); offset = some (pos 3072) }
unfolding new_magnetic_pot_encoder_forwarding new_magnetic_pot_encoder
forwarding_test = refl

raw_test :
    ((get_raw_value two_volts (record { enc = (pos 1, pos 2); offset = some (pos 0) }) 0).0
      ≡ some (pos 2048))
    × (get_disk_angle {D = Grid} (pos 8) ≡ some (pos 2048))
unfolding get_raw_value get_disk_angle
raw_test = (refl, refl)

-- The first joystick half way to the right.
abbrev manager : ListenerManager Grid
manager = record {
  listeners = [];
  joystick_values =
      some (pos 0)
      ∷ some (pos 0)
      ∷ some (pos 0)
      ∷ some (pos 0)
      ∷ some (pos 0)
      ∷ some (pos 0)
      ∷ some (pos 0)
      ∷ some (pos 0)
      ∷ some (pos 0)
      ∷ some (pos 0)
      ∷ some (pos 0)
      ∷ some (pos 512)
      ∷ some (pos 0)
      ∷ some (pos 0)
      ∷ some (pos 100)
      ∷ some (pos 0)
      ∷ [];
  button_values = replicate 11 false;
}

steer_handler_test :
    steer_handler manager (new_motor_link_plain, new_motor_link_plain)
    ≡ returns (
      record { spd_l = some (pos 512); spd_r = some (pos 512) },
      (
        set_speed_force (some (pos 512)) new_motor_link_plain,
        set_speed_force (some (pos 512)) new_motor_link_plain,
      ),
      [],
    )
unfolding steer_handler steer_speeds get_raw_double at_or_log set_speed set_speed_force
    new_motor_link_plain new_motor_link ◌+ℤ◌ ◌-ℤ◌
steer_handler_test = refl

new_arcade_drive_test : (new_arcade_drive {D = Grid}).spd_l ≡ some (pos 0)
unfolding new_arcade_drive
new_arcade_drive_test = refl

-- A timer that is a flag.
abbrev flag : Timer Bool
flag = record {
  start_relative = λ n t. true;
  cancel = λ t. returns false;
  timer_is_running = λ t. t;
}

flag-IsTimer : IsTimer flag
flag-IsTimer = record {
  running-start_relative = λ n t. refl;
  running-cancel = λ t t' e. sym (returned false t' e);
}

abbrev disarmed : Options
disarmed = record { alliance = blue; arm_enabled = false; controller_port = 1 }

abbrev arm : CockArm Grid Bool
arm = record { warned = false; cock_arm_active = true; timer = false; m_shooter = [] }

execute_test :
    let next = execute flag disarmed false (start_arm_cock flag arm) in
    (next.m_shooter ≡ minus_one ∷ [])
    × (next.timer ≡ true)
    × (execute flag disarmed false (stop_arm_cock flag arm) ≡ stop_arm_cock flag arm)
    × ((start_arm flag arm).timer ≡ true)
    × (start_arm flag (start_arm flag arm) ≡ start_arm flag arm)
    × ((a : _) → cancel_arm flag arm ≡ returns a → a.timer ≡ false)
execute_test = execute-start_arm_cock flag flag-IsTimer disarmed false arm refl

new_cock_arm_test : new_cock_arm {D = Grid} flag false ≡ arm
unfolding new_cock_arm
new_cock_arm_test = refl
