-- ===== src/AutoConfig/Safety.antt =====
-- The calls of src/Util/AutoConfig.cpp on the motors of src/Global.cpp, while the motors' threads,
-- their timers and other callers go on between them.
use frc.Prelude.{
  length, List, ℕ, ◌≡◌, refl, ap, ◌∙◌, Bool, true, false, ◌⊎◌, inl, inr, [], ◌∷◌, Option, none,
  some, arith, Bool-cases, Option-cases, ◌==◌, if◌then◌else◌, ltb, if_both,
}
use mathlib.Core.Path.{subst}
use frc.CockArm.{CockArm, Timer, cancel_arm}
use frc.LogMacros.{Outcome, returns, recoverable, unusual, ◌>>=◌}
use frc.Double.{Double, lit}
use frc.Options.{Options}
use frc.HardwareLink.Lights.{Relay}
use frc.Motor.Control.{MotorControl, Target, angle, speed, Readings, cancel}
use frc.Motor.Control as Control
use frc.Motor.Link.{MotorLink, set_target}
use frc.Motor.Link as Link
use frc.Motor.Link.Ownership.{
  Reachable, happened, call_set_speed, call_set_target, after, set_speed-Reachable,
}
use frc.Global.{Motor, rot_fr}
use frc.Global.Devices.{Devices, motor_code, put_motor}
use frc.Global.Devices.Start.{is_turning}
use frc.AutoConfig.Calls.{
  make_call, run_calls, allowed, all_allowed, initialize-allowed, on_motor, on_devices,
}
use frc.AutoConfig.{
  AutoCall, set_control_target, set_speed, cock_cancel, cock_start, light_change, Auto, initialize,
}

pub turning_code : (m : Motor) → is_turning m ≡ ltb (motor_code m) 3
turning_code rot_fr = refl
turning_code _ = refl

module _ {D : Type 0} where
  abbrev pub has_angle : Option (MotorControl D) → Bool
  has_angle none = false
  has_angle (some c) = elim c.target [ angle t ↦ true | speed t ↦ false ]

  -- The Cancel of the controller's timer returns, as CmdTimer.h has it.
  abbrev pub Cancels : Option (MotorControl D) → Type 0
  Cancels none = Unit
  Cancels (some c) = (s : Option ℕ) → c.platform_cancel s ≡ returns tt

  target_cases : (t : Target D) → ((u : _) × (t ≡ angle u)) ⊎ ((u : _) × (t ≡ speed u))
  target_cases (angle u) = inl (u, refl)
  target_cases (speed u) = inr (u, refl)

module _ {D : Type 0} ⦃d : Double D⦄ where
  -- A call of setControlTarget returns where the controller is one of angles.
  set_target_angle :
      (r : Readings D) (a : D) (x : MotorLink D)
      → has_angle x.spd_control ≡ true
      → Cancels x.spd_control
      → (x' : MotorLink D) × (set_target r a x ≡ returns x')
        × (has_angle x'.spd_control ≡ true)
        × Cancels x'.spd_control
  unfolding set_target Control.set_control_target Control.set_control_target_impl
  set_target_angle r a x h stops = elim (Option-cases x.spd_control) [
    | inl missing ↦ absurd (ground arith)
    | inr (c, there) ↦ elim (target_cases c.target) [
      | inr (u, is_speed) ↦ absurd (ground arith)
      | inl (u, is_angle) ↦ elim (Bool-cases x.spd_control_enabled) [
        | inl on ↦
            let u' =
              if d.eq (d.fmod a (lit 180)) (lit 0) then u else record u { target_angle = a } in
            (
              record x { spd_control = some (record c { target = angle u' }) },
              rw (there, on, is_angle) refl,
              refl,
              subst Cancels there stops,
            )
        | inr off ↦ (record x { log = recoverable ∷ x.log }, rw (there, off) refl, h, stops)
      ]
    ]
  ]

  -- Every motor came to be by events on a new one, and those that turn a wheel have a controller of
  -- angles. The Cancel of every controller's timer returns.
  pub record IsReady {O : Type 0} (v : Devices D O) : Type 0 where
    pub reachable : (m : Motor) → Reachable (v.motors m)
    pub steered : (m : Motor) → is_turning m ≡ true → has_angle (v.motors m).spd_control ≡ true
    pub stopped : (m : Motor) → Cancels (v.motors m).spd_control

  put-IsReady :
      {O : Type 0} (m : Motor) (x : MotorLink D) (v : Devices D O)
      → IsReady v
      → Reachable x
      → (is_turning m ≡ true → has_angle x.spd_control ≡ true)
      → Cancels x.spd_control
      → IsReady (record v { motors = put_motor m x v.motors })
  put-IsReady m x v ready reach steered stops = record {
    reachable = λ n.
        if_both Reachable (motor_code m == motor_code n) x (v.motors n) reach (ready.reachable n);
    steered =
        λ n turns. ground (arith, turning_code m, turning_code n, steered, ready.steered n turns);
    stopped = λ n.
        if_both (λ y. Cancels y.spd_control) (motor_code m == motor_code n) x (v.motors n) stops
          (ready.stopped n);
  }

  set_target-IsReady :
      {O : Type 0} (r : Readings D) (m : Motor) (a : D) (v : Devices D O)
      → is_turning m ≡ true
      → IsReady v
      → (v' : Devices D O) × (on_motor m (set_target r a) v ≡ returns v') × IsReady v'
  unfolding after
  set_target-IsReady r m a v turns ready =
      let (x', e, h, stops) =
        set_target_angle r a (v.motors m) (ready.steered m turns) (ready.stopped m) in
      let reach = happened (v.motors m) x' (call_set_target r a) (ready.reachable m) e in
      (
        record v { motors = put_motor m x' v.motors },
        rw e refl,
        put-IsReady m x' v ready reach (λ t. h) stops,
      )

  set_speed-IsReady :
      {O : Type 0} (m : Motor) (pow : D) (v : Devices D O)
      → IsReady v
      → (v' : Devices D O) × (on_motor m (Link.set_speed pow) v ≡ returns v') × IsReady v'
  unfolding after Link.enqueue
  set_speed-IsReady {O = O} m pow v ready =
      let x = v.motors m in
      let into : (x' : MotorLink D)
          → Link.set_speed pow x ≡ returns x'
          → (is_turning m ≡ true → has_angle x'.spd_control ≡ true)
          → Cancels x'.spd_control
          → (v' : Devices D O) × (on_motor m (Link.set_speed pow) v ≡ returns v') × IsReady v' =
        λ x' e angles stops. (
          record v { motors = put_motor m x' v.motors },
          rw e refl,
          put-IsReady m x' v ready (happened x x' (call_set_speed pow) (ready.reachable m) e) angles
              stops,
        ) in
      elim (set_speed-Reachable pow x (ready.reachable m)) [
        | inl (off, e) ↦ into _ e (ready.steered m) (ready.stopped m)
        | inr (on, (c, there, e)) ↦
            let stops : Cancels (some c) = subst Cancels there (ready.stopped m) in
            let x' : MotorLink D = record (Link.enqueue (Link.set_speed_impl pow) x) {
              spd_control = some (record c { scheduled = none });
              spd_control_enabled = false;
              log = unusual ∷ x.log;
            } in
            into x' (e ∙ ap (λ o. o >>= λ ended. returns x') (stops c.scheduled))
              (λ turns. subst (λ o. has_angle o ≡ true) there (ready.steered m turns)) stops
      ]

  module _ {O T : Type 0} (timer : Timer T)
      (cancels : (t : T) → (t' : T) × (timer.cancel t ≡ returns t')) (relay : Relay O)
      (options : Options) where
    on_devices-IsReady :
        (arm : CockArm D T) (r : Outcome (Devices D O))
        → (v' : Devices D O) × (r ≡ returns v') × IsReady v'
        → (w' : Devices D O × CockArm D T) × (on_devices arm r ≡ returns w') × IsReady w'.0
    on_devices-IsReady arm r (v', e, ready) = ((v', arm), rw e refl, ready)

    pub cancel_arm_lem :
        (arm : CockArm D T) → (arm' : CockArm D T) × (cancel_arm timer arm ≡ returns arm')
    unfolding cancel_arm
    cancel_arm_lem arm = elim (Bool-cases (timer.timer_is_running arm.timer)) [
      | inl on ↦ let (t, e) = cancels arm.timer in (record arm { timer = t }, rw (on, e) refl)
      | inr off ↦ (arm, rw off refl)
    ]

    allowed-IsReady :
        (r : Readings D) (c : AutoCall D) (w : Devices D O × CockArm D T)
        → allowed c ≡ true
        → IsReady w.0
        → (w' : Devices D O × CockArm D T) × (make_call timer relay options r c w ≡ returns w')
          × IsReady w'.0
    unfolding make_call
    allowed-IsReady r (set_control_target m a) (v, arm) h ready =
        on_devices-IsReady arm _ (set_target-IsReady r m a v h ready)
    allowed-IsReady r (set_speed m pow) (v, arm) h ready =
        on_devices-IsReady arm _ (set_speed-IsReady m pow v ready)
    allowed-IsReady r cock_cancel (v, arm) h ready =
        let (arm', e) = cancel_arm_lem arm in ((v, arm'), rw e refl, ready)
    allowed-IsReady r cock_start (v, arm) h ready = (_, refl, ready)
    allowed-IsReady r (light_change alliance) (v, arm) h ready = (
      _,
      refl,
      record { reachable = ready.reachable; steered = ready.steered; stopped = ready.stopped },
    )

    module _ (readings : ℕ → Readings D)
        (between : ℕ → Devices D O × CockArm D T → Devices D O × CockArm D T)
        (kept : (n : ℕ) (w : Devices D O × CockArm D T)
          → IsReady w.0
          → IsReady (between n w).0) where
      run_calls-IsReady :
          (cs : List (AutoCall D)) (v : Devices D O × CockArm D T)
          → all_allowed cs ≡ true
          → IsReady v.0
          → (v' : Devices D O × CockArm D T) × (run_calls timer relay options readings between cs v
              ≡ returns v')
            × IsReady v'.0
      unfolding run_calls
      run_calls-IsReady [] v h ready = (v, refl, ready)
      run_calls-IsReady (c ∷ cs) v h ready =
          let (v1, e1, ready1) = run_calls-IsReady cs v (ground arith) ready in
          let n = length cs in
          let (v2, e2, ready2) =
            allowed-IsReady (readings n) c (between n v1) (ground arith) (kept n v1 ready1) in
          (v2, rw (e1, e2) refl, ready2)

      -- Where the autonomous sequence ends, after whatever rounds of its loops, its calls return,
      -- one after the other, whatever the sensors read: on all devices whose motors came to be by
      -- events on new ones and whose turning motors have a controller of angles, and whatever
      -- happens to the devices and the arm before each call that keeps the devices so. It leaves
      -- such devices. This supposes that the build's timers keep what CmdTimer.h has of Cancel: for
      -- the controllers and for the arm it returns.
      pub initialize-run_calls :
          (sleep : ℕ → ℕ → ℕ) (get_angle : Motor → ℕ → D) (fuel : ℕ) (sensor_is_set : Bool)
          (now : ℕ) (b : Auto D) (v : Devices D O × CockArm D T)
          → initialize sleep get_angle fuel sensor_is_set (record { now = now; calls = [] })
            ≡ some b
          → IsReady v.0
          → (v' : Devices D O × CockArm D T) × (run_calls timer relay options readings between
                b.calls v
              ≡ returns v')
            × IsReady v'.0
      initialize-run_calls sleep get_angle fuel sensor_is_set now b v e ready =
          run_calls-IsReady b.calls v
            (initialize-allowed sleep get_angle fuel sensor_is_set _ b refl e) ready
