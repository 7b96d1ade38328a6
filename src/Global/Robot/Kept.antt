-- ===== src/Global/Robot/Kept.antt =====
-- The calls on the devices that the robot makes return, and keep its motors as it uses them.
use frc.Prelude.{◌≡◌, refl, sym, inl, inr, true, List, [], ◌∷◌, ◌==◌, arith, All, Bool-cases}
use mathlib.Core.Path.{subst}
use frc.LogMacros.{Outcome, returns}
use frc.Double.{Double}
use frc.Options.{Options}
use frc.HardwareLink.Lights.{Relay}
use frc.Motor.Control.{Readings}
use frc.Motor.Link.{
  MotorLink, new_motor_link_plain, new_motor_link, process, control_fires, start_speed_control,
}
use frc.Motor.Link as Link
use frc.AutoConfig.{AutoCall}
use frc.AutoConfig as Auto
use frc.AutoConfig.Calls.{on_motor, make_call, allowed, on_devices}
use frc.Global.{Motor, Request}
use frc.Global.Devices.{Devices, put_motor, carry_out, carry_out_all}
use frc.Global.Devices.Start.{is_turning}
use frc.Global.Devices.{motor_code}
use frc.Global.Robot.Tame.{IsMild}
use frc.AutoConfig.Safety.{turning_code, cancel_arm_lem}
use frc.CockArm.{CockArm, Timer}
use frc.Global.Robot.Motors.{
  IsMotor, Makes, set_speed-Makes, start_speed_control-IsMotor, set_target-Makes,
}

same_kind : (m n : Motor) → (motor_code m == motor_code n) ≡ true → is_turning m ≡ is_turning n
same_kind m n e = ground (arith, turning_code m, turning_code n)

module _ {D : Type 0} ⦃d : Double D⦄ where
  -- Every motor is as the robot uses it.
  abbrev pub AreMotors : (Motor → MotorLink D) → Type 0
  AreMotors motors = (m : Motor) → IsMotor (is_turning m) (motors m)

  pub put_motor-AreMotors :
      (m : Motor) (x : MotorLink D) (motors : Motor → MotorLink D)
      → IsMotor (is_turning m) x
      → AreMotors motors
      → AreMotors (put_motor m x motors)
  put_motor-AreMotors m x motors k ms n = elim (Bool-cases (motor_code m == motor_code n)) [
    | inl same ↦ rw (same, put_motor) (subst (λ b. IsMotor b x) (same_kind m n same) k)
    | inr other ↦ rw (other, put_motor) (ms n)
  ]

  -- A call on the devices that returns and keeps the motors so.
  abbrev pub Gives : {O : Type 0} → Outcome (Devices D O) → Type 0
  Gives {O} r = (v : Devices D O) × (r ≡ returns v) × AreMotors v.motors

  pub on_motor-Gives :
      {O : Type 0} (m : Motor) (method : MotorLink D → Outcome (MotorLink D)) (v : Devices D O)
      → AreMotors v.motors
      → Makes (is_turning m) (method (v.motors m))
      → Gives (on_motor m method v)
  on_motor-Gives m method v ms (x, e, k) = (
    record v { motors = put_motor m x v.motors },
    rw e refl,
    put_motor-AreMotors m x v.motors k ms,
  )

  pub set_speed-Gives :
      {O : Type 0} (m : Motor) (p : D) (v : Devices D O)
      → AreMotors v.motors
      → Gives (on_motor m (Link.set_speed p) v)
  set_speed-Gives m p v ms =
      on_motor-Gives m (Link.set_speed p) v ms
        (set_speed-Makes (is_turning m) p (v.motors m) (ms m))

  module _ {O : Type 0} (relay : Relay O) (options : Options) where
    carry_out-AreMotors :
        (q : Request D) (v : Devices D O)
        → IsMild q
        → AreMotors v.motors
        → AreMotors (carry_out relay options q v).motors
    unfolding carry_out
    carry_out-AreMotors (Request.start_speed_control m a) v mild ms =
        put_motor-AreMotors m _ v.motors
          (subst (λ b. IsMotor b (start_speed_control a (v.motors m))) (sym mild)
            (start_speed_control-IsMotor a (v.motors m)
              (subst (λ b. IsMotor b (v.motors m)) mild (ms m))))
          ms
    carry_out-AreMotors _ v mild ms = ms

    pub carry_out_all-AreMotors :
        (qs : List (Request D)) (v : Devices D O)
        → All IsMild qs
        → AreMotors v.motors
        → AreMotors (carry_out_all relay options qs v).motors
    unfolding carry_out_all
    carry_out_all-AreMotors [] v mild ms = ms
    carry_out_all-AreMotors (q ∷ qs) v (m, mild) ms =
        carry_out-AreMotors q _ m (carry_out_all-AreMotors qs v mild ms)

    -- A call of the autonomous thread on the devices and the arm.
    module _ {T : Type 0} (timer : Timer T)
        (cancels : (t : T) → (t' : T) × (timer.cancel t ≡ returns t')) where
      abbrev pub Calls : Outcome (Devices D O × CockArm D T) → Type 0
      Calls r = (w : Devices D O × CockArm D T) × (r ≡ returns w) × AreMotors w.0.motors

      on_devices-Calls :
          (arm : CockArm D T) (r : Outcome (Devices D O)) → Gives r → Calls (on_devices arm r)
      on_devices-Calls arm r (v, e, ms) = ((v, arm), rw e refl, ms)

      pub make_call-Calls :
          (r : Readings D) (c : AutoCall D) (v : Devices D O) (arm : CockArm D T)
          → allowed c ≡ true
          → AreMotors v.motors
          → Calls (make_call timer relay options r c (v, arm))
      unfolding make_call
      make_call-Calls r Auto.cock_cancel v arm can ms =
          let (arm', e) = cancel_arm_lem timer cancels relay options arm in
          ((v, arm'), rw e refl, ms)
      make_call-Calls r Auto.cock_start v arm can ms = (_, refl, ms)
      make_call-Calls r (Auto.set_control_target m a) v arm can ms = on_devices-Calls arm _ (
          on_motor-Gives m (Link.set_target r a) v ms (
            subst (λ b. Makes b (Link.set_target r a (v.motors m))) (sym can)
              (set_target-Makes r a (v.motors m) (subst (λ b. IsMotor b (v.motors m)) can (ms m)))))
      make_call-Calls r (Auto.set_speed m p) v arm can ms =
          on_devices-Calls arm _ (set_speed-Gives m p v ms)
      make_call-Calls r (Auto.light_change alliance) v arm can ms = (_, refl, ms)
