-- ===== src/Global/Robot/Returns.antt =====
-- Nothing that happens to the robot ends its process.
use frc.Prelude.{
  Option, get_elem?, ℕ, zero, suc, ◌≡◌, refl, inl, inr, true, false, List, [], ◌∷◌, ◌++◌, All,
  Option-cases, Bool-cases,
}
use frc.LogMacros.{Outcome, returns, Severity, recoverable}
use frc.Double.{Double, lit, ratio}
use frc.Options.{Options}
use frc.HardwareLink.Lights.{Relay}
use frc.ListenerManager.{ListenerManager}
use frc.Motor.Control.{Readings}
use frc.Motor.Link.{MotorLink, new_motor_link_plain, new_motor_link, process, control_fires}
use frc.CockArm.{Timer, new_cock_arm, execute}
use frc.ArcadeDrive.{ArcadeDrive, steer_handler, steer_speeds}
use frc.AutoConfig.{AutoCall}
use frc.AutoConfig.Calls.{allowed}
use frc.Global.{
  rot_fr, rot_fl, rot_bk, drv_fl, drv_fr, m_shooter, m_arm_roll, m_arm_move, new_robot,
}
use frc.Global.Devices.{Devices, put_motor, new_devices, new_motors, new_turning_target}
use frc.Global.Devices.Start.{is_turning}
use frc.Global.Modes.{poll}
use frc.Global.Robot.{
  Robot, Happening, mode, drives, processes, controls, cocks, elapses, auto_calls, drive_waiting,
  drive_pass, ask_shooter, cocks_arm, auto_call, after, built, CanHappen, run, timer_runs,
}
use frc.Global.Robot.Arms.{IsArmCall, IsArmCmd}
use frc.Global.Robot.Motors.{IsMotor, set_speed-Makes, process-Makes, control_fires-Makes}
use frc.Global.Robot.ArmSpeeds.{Inv, after-Keeps, built-Inv, run-IsArmSpeed}
use frc.Global.Devices.Start.{turning}
use frc.Motor.Control.{LinearAngleTarget, new_control, new_linear_angle_target}
use frc.Motor.Link.{new_motor_link_controlled}
use frc.RobotMath.{is_valid_power}
use frc.Global.Robot.Kept.{
  AreMotors, put_motor-AreMotors, Gives, on_motor-Gives, set_speed-Gives, make_call-Calls,
}
use frc.ListenerManager.{get_raw_double, at_or_log}
use frc.ListenerManager.Keys.{joy1x, joy1y}
use frc.Global.Robot.Listeners.{Goes, with_devices-Goes, polls-Goes, in_mode-AreMotors}

module _ {D : Type 0} ⦃d : Double D⦄ where
  -- The reads of the first joystick return.
  abbrev Reads : Outcome (D × List Severity) → Type 0
  Reads r = (x : D) × (log : List Severity) × (r ≡ returns (x, log))

  at_or_log-Reads : (xs : List D) (i : ℕ) (z : D) → Reads (at_or_log xs i z)
  unfolding at_or_log
  at_or_log-Reads xs i z = elim (Option-cases (get_elem? xs i)) [
    | inl missing ↦ (z, recoverable ∷ [], rw (missing, at_or_log) refl)
    | inr (x, there) ↦ (x, [], rw (there, at_or_log) refl)
  ]

  joy1x-Reads : (m : ListenerManager D) → Reads (get_raw_double m joy1x)
  unfolding get_raw_double
  joy1x-Reads m = at_or_log-Reads m.joystick_values 11 (lit 0)

  joy1y-Reads : (m : ListenerManager D) → Reads (get_raw_double m joy1y)
  unfolding get_raw_double
  joy1y-Reads m = at_or_log-Reads m.joystick_values 14 (lit 0)

  -- The drive's handler returns, with motors that are as the robot uses them.
  steer_handler-Makes :
      (m : ListenerManager D) (l r : MotorLink D)
      → IsMotor false l
      → IsMotor false r
      → (a : ArcadeDrive D) × (l' : MotorLink D) × (r' : MotorLink D) × (log : List Severity)
        × (steer_handler m (l, r) ≡ returns (a, (l', r'), log))
        × IsMotor false l'
        × IsMotor false r'
  unfolding steer_handler
  steer_handler-Makes m l r vl vr =
      let (x, log_x, read_x) = joy1x-Reads m in
      let (y, log_y, read_y) = joy1y-Reads m in
      let a = steer_speeds x y in
      let (l', el, kl) = set_speed-Makes false a.spd_l l vl in
      let (r', er, kr) = set_speed-Makes false a.spd_r r vr in
      (a, l', r', log_x ++ log_y, rw (read_x, read_y, el, er) refl, kl, kr)

  new_motors-AreMotors :
      (stop : Option ℕ → Outcome Unit)
      → ((s : Option ℕ) → stop s ≡ returns tt)
      → (fr fl bk : LinearAngleTarget D) → AreMotors (new_motors stop fr fl bk)
  unfolding new_motors new_motor_link_controlled new_motor_link_plain new_motor_link new_control
  new_motors-AreMotors stop returned fr fl bk rot_fr = ((_, fr, refl, refl, returned, refl), tt)
  new_motors-AreMotors stop returned fr fl bk rot_fl = ((_, fl, refl, refl, returned, refl), tt)
  new_motors-AreMotors stop returned fr fl bk rot_bk = ((_, bk, refl, refl, returned, refl), tt)
  new_motors-AreMotors stop returned fr fl bk _ = (refl, refl, tt)

module _ {D T O : Type 0} ⦃d : Double D⦄ where
  module _ (timer : Timer T) (cancels : (t : T) → (t' : T) × (timer.cancel t ≡ returns t'))
      (relay : Relay O) (options : Options) (order : List ℕ → List ℕ) where
    drive_waiting-Goes :
        (n : ℕ) (s : Robot D T O)
        → AreMotors s.devices.motors
        → Goes (drive_waiting timer relay options order n s)
    drive_waiting-Goes zero s ms = (s, refl, ms)
    drive_waiting-Goes (suc n) s ms =
        let (a, l, r, log, e, kl, kr) =
          steer_handler-Makes s.template.global.listener_manager (s.devices.motors drv_fl)
            (s.devices.motors drv_fr) (ms drv_fl) (ms drv_fr) in
        let motors = put_motor drv_fl l (put_motor drv_fr r s.devices.motors) in
        (
          record s { steers = n; devices = record s.devices { motors = motors } },
          rw e refl,
          put_motor-AreMotors drv_fl l _ kl (put_motor-AreMotors drv_fr r s.devices.motors kr ms),
        )

    ask_shooter-Gives :
        (xs : List D) (v : Devices D O)
        → AreMotors v.motors
        → Gives (ask_shooter timer relay options order xs v)
    unfolding ask_shooter
    ask_shooter-Gives [] v ms = (v, refl, ms)
    ask_shooter-Gives (x ∷ xs) v ms =
        let (v1, e1, ms1) = ask_shooter-Gives xs v ms in
        let (v2, e2, ms2) = set_speed-Gives m_shooter x v1 ms1 in (v2, rw e1 e2, ms2)

    auto_call-Goes :
        (r : Readings D) (c : AutoCall D) (s : Robot D T O)
        → allowed c ≡ true
        → AreMotors s.devices.motors
        → Goes (auto_call timer relay options order r c s)
    unfolding auto_call
    auto_call-Goes r c s can ms =
        let ((v, a), e, ms') =
          make_call-Calls relay options timer cancels r c s.devices s.cock_shooter can ms in
        (record s { devices = v; cock_shooter = a }, rw e refl, ms')

    after-Goes :
        (s : Robot D T O) (h : Happening D T)
        → CanHappen h
        → Inv s
        → AreMotors s.devices.motors
        → Goes (after timer relay options order s h)
    unfolding after drive_pass cocks_arm
    after-Goes s (mode (poll j)) can v ms = polls-Goes timer cancels relay options order j s ms
    after-Goes s (mode e) can v ms =
        (_, refl, in_mode-AreMotors timer cancels relay options order e s v.1 ms)
    after-Goes s drives can v ms = drive_waiting-Goes s.steers s ms
    after-Goes s (processes m r) can v ms = with_devices-Goes s _ (
        on_motor-Gives m (process r) s.devices ms
          (process-Makes (is_turning m) r (s.devices.motors m) (ms m)))
    after-Goes s (controls m r now dt) (a, read) v ms =
        elim (Bool-cases (timer_runs (s.devices.motors m))) [
          | inl runs ↦
              rw (runs, after)
                (with_devices-Goes s _ (
                  on_motor-Gives m (control_fires r now dt) s.devices ms (
                    control_fires-Makes (is_turning m) r now dt a (s.devices.motors m) (ms m) runs
                      read)))
          | inr off ↦ rw (off, after) (s, refl, ms)
        ]
    after-Goes s (cocks sensor) can v ms =
        let a = execute timer options sensor s.cock_shooter in
        with_devices-Goes (record s { cock_shooter = record a { m_shooter = [] } }) _
          (ask_shooter-Gives a.m_shooter s.devices ms)
    after-Goes s (elapses t) can v ms = (_, refl, ms)
    after-Goes s (auto_calls r c) can v ms = auto_call-Goes r c s can ms

    run-Goes :
        (hs : List (Happening D T)) (s : Robot D T O)
        → All CanHappen hs
        → Inv s
        → AreMotors s.devices.motors
        → Goes (run timer relay options order s hs)
    unfolding run
    run-Goes [] s can v ms = (s, refl, ms)
    run-Goes (h ∷ hs) s (can, later) v ms =
        let (s1, e1, ms1) = after-Goes s h can v ms in
        let v1 = after-Keeps timer relay options order s h can v s1 e1 in
        let (s2, e2, ms2) = run-Goes hs s1 later v1 ms1 in (s2, rw e1 e2, ms2)

    module _ (valid : is_valid_power {D = D} (ratio 2 5) ≡ true) (stop : Option ℕ → Outcome Unit)
        (stops : (s : Option ℕ) → stop s ≡ returns tt) (t : T) (o : O) where
      built-Goes : Goes {D = D} (built timer relay options order stop t o)
      unfolding built new_devices new_turning_target new_linear_angle_target
      built-Goes =
          let made : Robot D T O = record {
            template = new_robot;
            devices = record { motors = new_motors stop turning turning turning; relays = o };
            cock_shooter = new_cock_arm timer t;
            gyro_resets = 0;
            steers = 0;
          } in
          (made, rw valid refl, new_motors-AreMotors stop stops turning turning turning)

      -- Suppose that the Cancel of the build's timers returns, for the motors and for the arm, as
      -- CmdTimer.h has it. If 0.4 is a valid power, the robot's constructors return, and nothing that happens to it
      -- afterwards ends the process or gets stuck on a null pointer: no interleaving of modes, polls
      -- with the calls of their listeners, passes of the drive's and the motors' threads, runs of the
      -- controllers whose timers run, runs of the arm's loop, and calls that the autonomous thread can
      -- make; where a motor whose controller runs has an encoder. The Talons of the arm's two motors
      -- are then given no speed but a tenth of the full one, forwards or backwards, and no other
      -- command waits for them; so nothing ever asks one of them for speed 0.
      pub run_built_lem :
          (hs : List (Happening D T))
          → All CanHappen hs
          → (s : Robot D T O) × (s' : Robot D T O) × (built timer relay options order stop t o
              ≡ returns s)
            × (run timer relay options order s hs ≡ returns s')
            × All IsArmCall (s'.devices.motors m_arm_roll).talon
            × All IsArmCmd (s'.devices.motors m_arm_roll).queue
            × All IsArmCall (s'.devices.motors m_arm_move).talon
            × All IsArmCmd (s'.devices.motors m_arm_move).queue
      run_built_lem hs can =
          let (s, made, ms) = built-Goes in
          let v = built-Inv timer relay options order stop t o s made in
          let (s', done, ms') = run-Goes hs s can v ms in
          let (roll, roll_waits, move, move_waits) =
            run-IsArmSpeed timer relay options order stop t o hs s s' can made done in
          (s, s', made, done, roll, roll_waits, move, move_waits)
