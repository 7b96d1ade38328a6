-- ===== src/Global/Devices/Start.antt =====
-- What initializeRobot of src/Global.cpp leaves: the three turning motors under control, the lights
-- off.
use frc.Prelude.{
  Option, ℕ, ◌≡◌, ◌⊎◌, inl, inr, refl, Bool, true, false, [], none, some, arith, if◌then◌else◌,
}
use frc.LogMacros.{Outcome, returns}
use frc.Double.{Double, lit, ratio}
use frc.Options.{Options}
use frc.RobotMath.{is_valid_power}
use frc.HardwareLink.Lights.{Relay, IsRelay, RelayValue, reverse}
use frc.HardwareLink.Lights as LightSet
use frc.Motor.Control.{
  LinearAngleTarget, angle, Readings, new_control, new_linear_angle_target, start,
  clear_control_run, clear_control_run_impl, set_control_target, set_control_target_impl,
  set_controlled_motor,
}
use frc.Motor.Link.{
  MotorLink, new_motor_link, new_motor_link_controlled, start_speed_control, enqueue, process,
  run_cmd,
}
use frc.Global.{
  Motor, rot_fr, rot_fl, rot_bk, drv_fr, drv_fl, drv_bk, m_shooter, Global, initialize_robot,
  request,
}
use frc.Global.Devices.{
  Devices, new_turning_target, new_motors, new_devices, carry_out, carry_out_all,
}

-- The motors that turn the wheels.
abbrev pub is_turning : Motor → Bool
is_turning rot_fr = true
is_turning rot_fl = true
is_turning rot_bk = true
is_turning _ = false

-- The motors that the autonomous sequence gives a speed: those that drive the robot, and the shooter.
abbrev pub is_run_by_auto : Motor → Bool
is_run_by_auto drv_fr = true
is_run_by_auto drv_fl = true
is_run_by_auto drv_bk = true
is_run_by_auto m_shooter = true
is_run_by_auto _ = false

module _ {D : Type 0} ⦃d : Double D⦄ where
  -- An angle controller that drives its motor to the angle.
  abbrev pub IsDrivenTo : (Option ℕ → Outcome Unit) → D → Outcome (MotorLink D) → Type 0
  IsDrivenTo stop a r =
      (m : MotorLink D) × (t : LinearAngleTarget D) × (r ≡ returns m)
      × (m.spd_control_enabled ≡ true)
      × (m.queue ≡ [])
      × (m.spd_control
          ≡ some (record {
            target = angle (record t { target_angle = a });
            last_runtime = none;
            controlled_motor = true;
            scheduled = some 100;
            platform_cancel = stop;
          }))

  -- The controller that each turning motor is made with.
  abbrev pub turning : LinearAngleTarget D
  turning = record {
    min_speed = d.abs (ratio 2 5);
    target_angle = lit 0;
    threshold = lit 4;
    k_p = ratio 5 1000;
  }

  -- After the requests of initializeRobot on the devices that the constructor made.
  abbrev pub initialized : {O : Type 0} → Relay O → Options → Global D → Devices D O → Devices D O
  initialized relay options g v =
      carry_out_all relay options (initialize_robot (record g { requests = [] })).requests v

  module _ {O : Type 0} (relay : Relay O) (laws : IsRelay relay) (options : Options)
      (stop : Option ℕ → Outcome Unit) (o : O) (valid : is_valid_power {D = D} (ratio 2 5) ≡ true)
      (no_half_turn : d.eq (d.fmod (lit {D = D} 90) (lit 180)) (lit 0) ≡ false) where
    made :
        new_devices stop o
        ≡ returns (record { motors = new_motors stop turning turning turning; relays = o })
    unfolding new_devices new_turning_target new_linear_angle_target
    made = rw valid refl

    started :
        (r : Readings D) (enc : ℕ)
        → IsDrivenTo stop (lit 90) (
            process r (
              start_speed_control
                (lit 90)
                (new_motor_link_controlled (some enc) (some (new_control stop (angle turning))))))
    unfolding process start_speed_control enqueue new_motor_link_controlled new_motor_link run_cmd
        new_control clear_control_run clear_control_run_impl set_control_target
        set_control_target_impl start set_controlled_motor
    started r enc = rw no_half_turn (_, turning, refl, refl, refl, refl)

    motors_initialized :
        (g : Global D) (m : Motor) (v : Devices D O)
        → (initialized relay options g v).motors m
          ≡ (if is_turning m then start_speed_control (lit 90) (v.motors m) else v.motors m)
    unfolding initialize_robot request carry_out_all carry_out
    motors_initialized g rot_fr v = refl
    motors_initialized g rot_fl v = refl
    motors_initialized g rot_bk v = refl
    motors_initialized g _ v = refl

    relays_initialized :
        (g : Global D) (v : Devices D O)
        → (initialized relay options g v).relays
          ≡ relay.set 2 reverse (relay.set 1 reverse v.relays)
    unfolding initialize_robot request carry_out_all carry_out LightSet.set_off
    relays_initialized g v = refl

    driven :
        (m : Motor) (r : Readings D)
        → (is_turning m ≡ true)
            × IsDrivenTo stop (lit 90) (
                process r
                  (start_speed_control (lit 90) (new_motors stop turning turning turning m)))
          ⊎ (is_turning m ≡ false)
    unfolding new_motors
    driven rot_fr r = inl (refl, started r 0)
    driven rot_fl r = inl (refl, started r 1)
    driven rot_bk r = inl (refl, started r 2)
    driven _ r = inr refl

    -- The constructor of Global makes its devices, if 0.4 is a valid power; and if 90 is no
    -- multiple of 180, then after initializeRobot and the one command that waits for it each of the
    -- three turning motors is driven by its controller to 90 degrees, whatever the encoders read,
    -- and the others are as they were made. Both lights are off.
    pub initialize_robot_lem :
        (g : Global D) (m : Motor) (r : Readings D)
        → (v : Devices D O) × (new_devices stop o ≡ returns v)
          × ((is_turning m ≡ true)
                × IsDrivenTo stop (lit 90) (process r ((initialized relay options g v).motors m))
              ⊎ (is_turning m ≡ false) × ((initialized relay options g v).motors m ≡ v.motors m))
          × (relay.value 1 (initialized relay options g v).relays ≡ reverse)
          × (relay.value 2 (initialized relay options g v).relays ≡ reverse)
    initialize_robot_lem g m r =
        let v : Devices D O = record {
          motors = new_motors stop turning turning turning;
          relays = o;
        } in
        (
          v,
          made,
          elim (driven m r) [
            | inl (turns, is_driven) ↦ inl (turns, rw (motors_initialized g m v, turns) is_driven)
            | inr fixed ↦ inr (fixed, rw (motors_initialized g m v, fixed) refl)
          ],
          rw
              (
                relays_initialized g v,
                laws.value-set_other 2 1 reverse (relay.set 1 reverse o) (omega arith),
              )
              (laws.value-set 1 reverse o),
          rw (relays_initialized g v) (laws.value-set 2 reverse (relay.set 1 reverse o)),
        )
