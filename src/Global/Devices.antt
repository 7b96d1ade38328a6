-- ===== src/Global/Devices.antt =====
-- The devices that the constructor of src/Global.cpp makes, and what the requests of a mode and the
-- calls of src/Util/AutoConfig.cpp do to them. WPILib's relays are a parameter, with state `O`.
pub mod Start
use frc.Prelude.{ℕ, Bool, true, false, List, [], ◌∷◌, Option, none, some, if◌then◌else◌, ◌==◌}
use frc.Prelude.Int.{pos, negsuc}
use frc.LogMacros.{Outcome, returns, ◌>>=◌}
use frc.Double.{Double, lit, ratio}
use frc.Options.{Options}
use frc.HardwareLink.Encoders.{MagneticPotEncoder, new_magnetic_pot_encoder}
use frc.HardwareLink.Lights.{Relay, light_change_current}
use frc.HardwareLink.Lights as LightSet
use frc.Motor.Control.{LinearAngleTarget, angle, Readings, new_control, new_linear_angle_target}
use frc.Motor.Link.{MotorLink, new_motor_link_plain, new_motor_link_controlled, start_speed_control}
use frc.Global.{
  Motor, rot_fr, rot_fl, rot_bk, drv_fr, drv_fl, drv_bk, m_shooter, m_arm_roll, m_arm_move, Lights,
  red_lights, blue_lights, Request, set_off, light_change, run_auto_config, feed_watchdog,
  sleep_for,
}
use frc.Global as Modes

-- The relays' channels, and the places of the three encoders.
abbrev pub relay_of : Lights → ℕ
relay_of red_lights = 1
relay_of blue_lights = 2

abbrev pub motor_code : Motor → ℕ
motor_code rot_fr = 0
motor_code rot_fl = 1
motor_code rot_bk = 2
motor_code drv_fr = 3
motor_code drv_fl = 4
motor_code drv_bk = 5
motor_code m_shooter = 6
motor_code m_arm_roll = 7
motor_code m_arm_move = 8

pub record Devices (D O : Type 0) : Type 0 where
  pub motors : Motor → MotorLink D
  pub relays : O

-- A call of a method of one motor.
abbrev pub put_motor :
    {D : Type 0} → Motor → MotorLink D → (Motor → MotorLink D) → Motor → MotorLink D
put_motor m x motors n = if motor_code m == motor_code n then x else motors n

module _ {D : Type 0} ⦃d : Double D⦄ where
  open d use {of_int}

  unfoldable pub enc_fr : MagneticPotEncoder D
  enc_fr = new_magnetic_pot_encoder (of_int (negsuc 59)) (pos 1) (pos 2)

  unfoldable pub enc_fl : MagneticPotEncoder D
  enc_fl = new_magnetic_pot_encoder (lit 17) (pos 1) (pos 3)

  unfoldable pub enc_bk : MagneticPotEncoder D
  enc_bk = new_magnetic_pot_encoder (of_int (negsuc 34)) (pos 1) (pos 4)

  -- The controller of each turning motor.
  unfoldable pub new_turning_target : Outcome (LinearAngleTarget D)
  new_turning_target = new_linear_angle_target (ratio 2 5) (lit 4) (ratio 5 1000)

  -- The motors, from the controllers of the three that turn the wheels and what the Cancel of the
  -- build's timers does.
  unfoldable pub new_motors :
      (Option ℕ → Outcome Unit) → (fr fl bk : LinearAngleTarget D) → Motor → MotorLink D
  new_motors stop fr fl bk rot_fr =
      new_motor_link_controlled (some 0) (some (new_control stop (angle fr)))
  new_motors stop fr fl bk rot_fl =
      new_motor_link_controlled (some 1) (some (new_control stop (angle fl)))
  new_motors stop fr fl bk rot_bk =
      new_motor_link_controlled (some 2) (some (new_control stop (angle bk)))
  new_motors stop fr fl bk _ = new_motor_link_plain

  unfoldable pub new_devices : {O : Type 0} → (Option ℕ → Outcome Unit) → O → Outcome (Devices D O)
  new_devices stop o = do
    fr ← new_turning_target
    fl ← new_turning_target
    bk ← new_turning_target
    returns (record { motors = new_motors stop fr fl bk; relays = o })

  module _ {O : Type 0} (relay : Relay O) (options : Options) where
    -- What a request does. The thread that runs the autonomous sequence makes its calls later.
    unfoldable pub carry_out : Request D → Devices D O → Devices D O
    carry_out (set_off l) v = record v { relays = LightSet.set_off relay (relay_of l) v.relays }
    carry_out (Request.start_speed_control m target) v = record v {
      motors = put_motor m (start_speed_control target (v.motors m)) v.motors;
    }
    carry_out light_change v = record v {
      relays =
          light_change_current relay options (relay_of red_lights) (relay_of blue_lights) v.relays;
    }
    carry_out run_auto_config v = v
    carry_out feed_watchdog v = v
    carry_out (sleep_for n) v = v

    -- Requests, the latest first.
    unfoldable pub carry_out_all : List (Request D) → Devices D O → Devices D O
    carry_out_all [] v = v
    carry_out_all (q ∷ qs) v = carry_out q (carry_out_all qs v)
