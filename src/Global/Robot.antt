-- ===== src/Global/Robot.antt =====
-- The robot as a whole: the modes of src/RobotTemplate.cpp and src/Global.cpp, the polling thread with
-- what its listeners do, and the threads and timers of the devices. A step is one handler; a sequence
-- of steps is an interleaving of the threads.
pub mod Arms
pub mod Tame
pub mod Motors
pub mod Kept
pub mod Listeners
pub mod Returns
pub mod ArmSpeeds
use frc.Prelude.{
  ◌≡◌, true, false, if◌then◌else◌, ℕ, zero, suc, Bool, List, [], ◌∷◌, Option, none, some, contains,
}
use frc.LogMacros.{
  Outcome, returns, throws, exits, null_access, Severity, Exception, other_exception, ◌>>=◌,
}
use frc.Double.{Double}
use frc.Options.{Options}
use frc.HardwareLink.Lights.{Relay}
use frc.ListenerManager.{ListenerManager, Joystick}
use frc.ListenerManager.Invocations.{cycle}
use frc.Motor.Control.{Readings}
use frc.Motor.Link.{MotorLink, process, control_fires}
use frc.Motor.Link as Link
use frc.CockArm
use frc.CockArm.{CockArm, Timer, new_cock_arm, execute, start_arm, cancel_arm}
use frc.ArcadeDrive.{ArcadeDrive, steer_handler}
use frc.AutoConfig.{AutoCall}
use frc.AutoConfig.Calls.{on_motor, make_call, allowed}
use frc.Global.{
  Motor, drv_fl, drv_fr, m_shooter, Action, gyro_reset, cock_cancel, cock_start, stop_arm_cock,
  start_arm_cock, steer, set_speed, Global, RobotTemplate, new_robot,
}
use frc.Global as Modes
use frc.Global.Devices.{Devices, put_motor, carry_out_all, new_devices}
use frc.Global.Modes.{Event, poll, step, action_at}

-- The arm's class keeps the speeds that it asked for; here they are passed on to the shooter's motor
-- at once, and the list is empty. `steers` are the calls of ArcadeDrive::steer that wait on its thread.
pub record Robot (D T O : Type 0) : Type 0 where
  pub template : RobotTemplate D
  pub devices : Devices D O
  pub cock_shooter : CockArm D T
  pub gyro_resets : ℕ
  pub steers : ℕ

-- What happens: an event of the modes or a poll, a pass of the drive's thread, a command on a motor's
-- thread, a run of a motor's controller, the arm's timer fires or changes by itself, or the autonomous
-- thread makes a call.
pub data Happening (D T : Type 0) : Type 0 where
  mode : Event D → Happening D T
  drives : Happening D T
  processes : Motor → Readings D → Happening D T
  controls : Motor → Readings D → (now : ℕ) → (dt : D) → Happening D T
  cocks : (sensor : Bool) → Happening D T
  elapses : T → Happening D T
  auto_calls : Readings D → AutoCall D → Happening D T

-- When something can happen: a motor whose controller runs has an encoder, and the calls of the
-- autonomous thread are those that its sequence can make.
abbrev pub CanHappen : {D T : Type 0} → Happening D T → Type 0
CanHappen {D} (controls m r now dt) = (a : D) × (r.encoder_angle ≡ some a)
CanHappen (auto_calls r c) = allowed c ≡ true
CanHappen other = Unit

-- The timer of the motor's controller runs.
abbrev pub timer_runs : {D : Type 0} → MotorLink D → Bool
timer_runs x = elim x.spd_control [
  | none ↦ false
  | some c ↦ elim c.scheduled [ none ↦ false | some delay ↦ true ]
]

module _ {D T O : Type 0} where
  abbrev pub with_devices : Robot D T O → Outcome (Devices D O) → Outcome (Robot D T O)
  with_devices s r = r >>= λ v. returns (record s { devices = v })

  -- How a listener's call ends. One that throws leaves the robot as it was, and the exception goes to
  -- the caller; the other two ends are no exceptions, and no handler catches them.
  abbrev pub as_call :
      ListenerManager D
      → Robot D T O
      → Outcome (Robot D T O)
      → (ListenerManager D × Outcome (Robot D T O)) × Option Exception
  as_call m s (returns s') = ((m, returns s'), none)
  as_call m s (throws e) = ((m, returns s), some e)
  as_call m s (exits n) = ((m, exits n), none)
  as_call m s null_access = ((m, null_access), none)

module _ {D T O : Type 0} ⦃d : Double D⦄ (timer : Timer T) (relay : Relay O) (options : Options)
    (order : List ℕ → List ℕ) where
  -- The bound functions that initializeTeleop registers.
  unfoldable pub perform : Action D → Robot D T O → Outcome (Robot D T O)
  perform gyro_reset s = returns (record s { gyro_resets = suc s.gyro_resets })
  perform cock_cancel s =
      cancel_arm timer s.cock_shooter >>= λ a. returns (record s { cock_shooter = a })
  perform cock_start s = returns (record s { cock_shooter = start_arm timer s.cock_shooter })
  perform stop_arm_cock s =
      returns (record s { cock_shooter = CockArm.stop_arm_cock timer s.cock_shooter })
  perform start_arm_cock s =
      returns (record s { cock_shooter = CockArm.start_arm_cock timer s.cock_shooter })
  perform steer s = returns (record s { steers = suc s.steers })
  perform (set_speed m v) s = with_devices s (on_motor m (Link.set_speed v) s.devices)

  -- A listener is called, on what the calls before it made of the robot. After one that did not come
  -- back there are no more.
  unfoldable pub call :
      ℕ
      → ListenerManager D × Outcome (Robot D T O)
      → (ListenerManager D × Outcome (Robot D T O)) × Option Exception
  call l (m, returns s) = elim (action_at l s.template.global.actions) [
    | none ↦ ((m, returns s), none)
    | some x ↦ as_call m s (perform x s)
  ]
  call l (m, throws e) = ((m, throws e), none)
  call l (m, exits n) = ((m, exits n), none)
  call l (m, null_access) = ((m, null_access), none)

  abbrev pub with_manager : ListenerManager D → Robot D T O → Robot D T O
  with_manager m s = record s {
    template = record s.template { global = record s.template.global { listener_manager = m } };
  }

  -- The drive's thread executes a waiting call, with `n` left. An exception of the handler is caught
  -- there.
  abbrev pub steered :
      ℕ
      → Robot D T O
      → Outcome (ArcadeDrive D × (MotorLink D × MotorLink D) × List Severity)
      → Outcome (Robot D T O)
  steered n s (returns (a, (l, r), log)) = returns (record s {
    steers = n;
    devices = record s.devices {
      motors = put_motor drv_fl l (put_motor drv_fr r s.devices.motors);
    };
  })
  steered n s (throws e) = returns (record s { steers = n })
  steered n s (exits code) = exits code
  steered n s null_access = null_access

  abbrev pub drive_waiting : ℕ → Robot D T O → Outcome (Robot D T O)
  drive_waiting zero s = returns s
  drive_waiting (suc n) s = steered n s (
      steer_handler s.template.global.listener_manager
        (s.devices.motors drv_fl, s.devices.motors drv_fr))

  unfoldable pub drive_pass : Robot D T O → Outcome (Robot D T O)
  drive_pass s = drive_waiting s.steers s

  -- The speeds, the latest first, that the arm asks the shooter's motor for.
  unfoldable pub ask_shooter : List D → Devices D O → Outcome (Devices D O)
  ask_shooter [] v = returns v
  ask_shooter (x ∷ xs) v = ask_shooter xs v >>= on_motor m_shooter (Link.set_speed x)

  unfoldable pub cocks_arm : Bool → Robot D T O → Outcome (Robot D T O)
  cocks_arm sensor s =
      let a = execute timer options sensor s.cock_shooter in
      with_devices (record s { cock_shooter = record a { m_shooter = [] } })
        (ask_shooter a.m_shooter s.devices)

  -- A mode starts or goes on: its requests are carried out.
  unfoldable pub in_mode : Event D → Robot D T O → Robot D T O
  in_mode e s =
      let t = step (record s.template { global = record s.template.global { requests = [] } }) e in
      record s { template = t; devices = carry_out_all relay options t.global.requests s.devices }

  -- A poll ends the process where a listener does.
  unfoldable pub polls : Joystick D → Robot D T O → Outcome (Robot D T O)
  polls j s =
      let ((m, r), log) = cycle order call j (s.template.global.listener_manager, returns s) in
      r >>= λ s'. returns (with_manager m s')

  -- A call of the autonomous thread.
  unfoldable pub auto_call : Readings D → AutoCall D → Robot D T O → Outcome (Robot D T O)
  auto_call r c s = make_call timer relay options r c (s.devices, s.cock_shooter) >>= λ (v, a).
      returns (record s { devices = v; cock_shooter = a })

  unfoldable pub after : Robot D T O → Happening D T → Outcome (Robot D T O)
  after s (mode (poll j)) = polls j s
  after s (mode e) = returns (in_mode e s)
  after s drives = drive_pass s
  after s (processes m r) = with_devices s (on_motor m (process r) s.devices)
  after s (controls m r now dt) =
      if timer_runs (s.devices.motors m)
      then with_devices s (on_motor m (control_fires r now dt) s.devices)
      else returns s
  after s (cocks sensor) = cocks_arm sensor s
  after s (elapses t) = returns (record s { cock_shooter = record s.cock_shooter { timer = t } })
  after s (auto_calls r c) = auto_call r c s

  -- The robot as it is constructed. `stop` is what the Cancel of the motors' timers does.
  unfoldable pub built : (stop : Option ℕ → Outcome Unit) → T → O → Outcome (Robot D T O)
  built stop t o = do
    v ← new_devices stop o
    returns (record {
      template = new_robot;
      devices = v;
      cock_shooter = new_cock_arm timer t;
      gyro_resets = 0;
      steers = 0;
    })

  unfoldable pub run : Robot D T O → List (Happening D T) → Outcome (Robot D T O)
  run s [] = returns s
  run s (h ∷ hs) = after s h >>= λ s'. run s' hs
