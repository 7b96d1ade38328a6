-- ===== src/Global/Robot/ArmSpeeds.antt =====
-- Which speeds the motors of the arm get, over everything that can happen to the robot.
use frc.Prelude.{
  Option, ℕ, zero, suc, ◌≡◌, refl, inl, inr, true, List, [], ◌∷◌, All, Option-cases, if_both,
}
use mathlib.Core.Path.{subst}
use frc.LogMacros.{
  Outcome, returns, throws, exits, null_access, ◌>>=◌, returns_parts, bind_parts, Severity,
}
use frc.Double.{Double}
use frc.Options.{Options}
use frc.HardwareLink.Lights.{Relay}
use frc.ListenerManager.{ListenerManager, Joystick}
use frc.ListenerManager.Invocations.{cycle, invoke_all}
use frc.Motor.Control.{Readings}
use frc.Motor.Link.{
  MotorLink, new_motor_link_plain, new_motor_link, process, control_fires, start_speed_control,
}
use frc.Motor.Link as Link
use frc.CockArm.{CockArm, Timer, cancel_arm}
use frc.ArcadeDrive.{ArcadeDrive}
use frc.AutoConfig.{AutoCall}
use frc.AutoConfig as Auto
use frc.AutoConfig.Calls.{make_call, allowed, on_devices}
use frc.Global.{
  Motor, m_shooter, m_arm_roll, m_arm_move, Action, gyro_reset, cock_cancel, cock_start,
  stop_arm_cock, start_arm_cock, steer, set_speed, new_robot, new_global,
}
use frc.Global.Devices.{Devices, new_devices, new_motors, new_turning_target}
use frc.Global.Devices.Start.{is_turning, is_run_by_auto}
use frc.Global.Modes.{Event, poll, action_at}
use frc.Global.Robot.{
  with_manager, Robot, Happening, mode, drives, processes, controls, cocks, elapses, auto_calls,
  perform, call, as_call, with_devices, steered, drive_waiting, drive_pass, ask_shooter, cocks_arm,
  in_mode, polls, auto_call, after, built, CanHappen, run, timer_runs,
}
use frc.Global.Robot.Arms.{IsArmCall, IsArmCmd, IsArm, IsKept, AreArms, on_motor-AreArms, returned}
use frc.Global.Robot.Tame.{
  IsArmAction, HasArmActions, IsFor, set_speed-AreArms, process-AreArms, control_fires-AreArms,
  action_at-IsArmAction, step-Tame, carry_out_all-AreArms,
}

module _ {D T O : Type 0} ⦃d : Double D⦄ where
  -- The arm's motors are as they should be, and the listeners' actions leave them so.
  abbrev pub Inv : Robot D T O → Type 0
  Inv s = AreArms s.devices.motors × HasArmActions s.template.global.actions

  -- A step that returns keeps the property.
  abbrev pub Keeps : Outcome (Robot D T O) → Type 0
  Keeps r = (s' : Robot D T O) → r ≡ returns s' → Inv s'

  returned-Keeps : (s : Robot D T O) → Inv s → Keeps (returns s)
  returned-Keeps s v s' e = subst Inv (returned s s' e) v

  with_devices-Keeps :
      (s : Robot D T O) (r : Outcome (Devices D O))
      → Inv s
      → ((v : Devices D O) → r ≡ returns v → AreArms v.motors)
      → Keeps (with_devices s r)
  with_devices-Keeps s r (arms, actions) keeps s' e =
      let (v, done, same) = returns_parts r _ s' e in rw same (keeps v done, actions)

  as_call-Keeps :
      (m : ListenerManager D) (s : Robot D T O) (r : Outcome (Robot D T O))
      → Inv s
      → Keeps r
      → Keeps (as_call m s r).0.1
  as_call-Keeps m s (returns s') v keeps = keeps
  as_call-Keeps m s (throws e) v keeps = returned-Keeps s v
  as_call-Keeps m s (exits n) v keeps = keeps
  as_call-Keeps m s null_access v keeps = keeps

  module _ (timer : Timer T) (relay : Relay O) (options : Options) (order : List ℕ → List ℕ) where
    perform-Keeps :
        (x : Action D) (s : Robot D T O)
        → IsArmAction x
        → Inv s
        → Keeps (perform timer relay options order x s)
    unfolding perform
    perform-Keeps gyro_reset s f v = returned-Keeps _ v
    perform-Keeps cock_cancel s f v = λ s' e.
        let (a, done, same) = returns_parts (cancel_arm timer s.cock_shooter) _ s' e in rw same v
    perform-Keeps cock_start s f v = returned-Keeps _ v
    perform-Keeps stop_arm_cock s f v = returned-Keeps _ v
    perform-Keeps start_arm_cock s f v = returned-Keeps _ v
    perform-Keeps steer s f v = returned-Keeps _ v
    perform-Keeps (set_speed m p) s f v =
        with_devices-Keeps s _ v λ w done. set_speed-AreArms m p s.devices w f v.0 done

    call-Keeps :
        (l : ℕ) (m : ListenerManager D) (r : Outcome (Robot D T O))
        → Keeps r
        → Keeps (call timer relay options order l (m, r)).0.1
    unfolding call
    call-Keeps l m (returns s) keeps = elim (Option-cases (action_at l s.template.global.actions)) [
      | inl missing ↦ rw (missing, call) keeps
      | inr (x, there) ↦
          let v = keeps s refl in
          let f = action_at-IsArmAction l x s.template.global.actions v.1 there in
          rw (there, call) (as_call-Keeps m s _ v (perform-Keeps x s f v))
    ]
    call-Keeps l m (throws e) keeps = keeps
    call-Keeps l m (exits n) keeps = keeps
    call-Keeps l m null_access keeps = keeps

    invoke_all-Keeps :
        (ls : List ℕ) (m : ListenerManager D) (r : Outcome (Robot D T O))
        → Keeps r
        → Keeps (invoke_all (call timer relay options order) ls (m, r)).0.1
    unfolding invoke_all
    invoke_all-Keeps [] m r keeps = keeps
    invoke_all-Keeps (l ∷ ls) m r keeps = invoke_all-Keeps ls _ _ (call-Keeps l m r keeps)

    with_manager-Keeps :
        (m : ListenerManager D) (r : Outcome (Robot D T O))
        → Keeps r
        → Keeps (r >>= λ s'. returns (with_manager timer relay options order m s'))
    with_manager-Keeps m r keeps s' e =
        let (s1, done, same) = returns_parts r _ s' e in rw same (keeps s1 done)

    polls-Keeps :
        (j : Joystick D) (s : Robot D T O) → Inv s → Keeps (polls timer relay options order j s)
    unfolding polls cycle
    polls-Keeps j s v = with_manager-Keeps _ _ (invoke_all-Keeps _ _ _ (returned-Keeps s v))

    in_mode-Inv :
        (e : Event D) (s : Robot D T O) → Inv s → Inv (in_mode timer relay options order e s)
    unfolding in_mode
    in_mode-Inv e s (arms, actions) =
        let (kept, mild) =
          step-Tame (record s.template { global = record s.template.global { requests = [] } }) e
            (actions, tt) in
        (carry_out_all-AreArms relay options _ s.devices mild arms, kept)

    steered-Keeps :
        (n : ℕ) (s : Robot D T O)
        (r : Outcome (ArcadeDrive D × (MotorLink D × MotorLink D) × List Severity))
        → Inv s
        → Keeps (steered timer relay options order n s r)
    steered-Keeps n s (returns (a, (x, y), log)) v = returned-Keeps _ v
    steered-Keeps n s (throws e) v = returned-Keeps _ v
    steered-Keeps n s (exits code) v = λ s' e. absurd (cc)
    steered-Keeps n s null_access v = λ s' e. absurd (cc)

    drive_waiting-Keeps :
        (n : ℕ) (s : Robot D T O) → Inv s → Keeps (drive_waiting timer relay options order n s)
    drive_waiting-Keeps zero s v = returned-Keeps s v
    drive_waiting-Keeps (suc n) s v = steered-Keeps n s _ v

    ask_shooter-AreArms :
        (xs : List D) (w w' : Devices D O)
        → AreArms w.motors
        → ask_shooter timer relay options order xs w ≡ returns w'
        → AreArms w'.motors
    unfolding ask_shooter
    ask_shooter-AreArms [] w w' arms e = subst (λ u. AreArms u.motors) (returned w w' e) arms
    ask_shooter-AreArms (x ∷ xs) w w' arms e =
        let (w1, done, last) = bind_parts (ask_shooter timer relay options order xs w) _ w' e in
        set_speed-AreArms m_shooter x w1 w' tt (ask_shooter-AreArms xs w w1 arms done) last

    set_target-IsKept : (m : Motor) (x : MotorLink D) → is_turning m ≡ true → IsKept m x
    set_target-IsKept m_arm_roll x turns = absurd (cc)
    set_target-IsKept m_arm_move x turns = absurd (cc)
    set_target-IsKept _ x turns = tt

    run_by_auto-IsFor : (m : Motor) (p : D) → is_run_by_auto m ≡ true → IsFor m p
    run_by_auto-IsFor m_arm_roll p auto = absurd (cc)
    run_by_auto-IsFor m_arm_move p auto = absurd (cc)
    run_by_auto-IsFor _ p auto = tt

    -- A call of the autonomous thread.
    abbrev Spares : Outcome (Devices D O × CockArm D T) → Type 0
    Spares r = (w : Devices D O × CockArm D T) → r ≡ returns w → AreArms w.0.motors

    on_devices-Spares :
        (a : CockArm D T) (r : Outcome (Devices D O))
        → ((v : Devices D O) → r ≡ returns v → AreArms v.motors)
        → Spares (on_devices a r)
    on_devices-Spares a r keeps w e =
        let (v, done, same) = returns_parts r _ w e in rw same (keeps v done)

    make_call-Spares :
        (r : Readings D) (c : AutoCall D) (v : Devices D O) (a : CockArm D T)
        → allowed c ≡ true
        → AreArms v.motors
        → Spares (make_call timer relay options r c (v, a))
    unfolding make_call
    make_call-Spares r Auto.cock_cancel v a can arms w e =
        let (a', done, same) = returns_parts (cancel_arm timer a) _ w e in rw same arms
    make_call-Spares r Auto.cock_start v a can arms w e =
        subst (λ u. AreArms u.0.motors) (returned _ w e) arms
    make_call-Spares r (Auto.set_control_target m x) v a can arms w e =
        on_devices-Spares a _
          (λ w done.
            on_motor-AreArms m (Link.set_target r x) v w arms (λ y e. set_target-IsKept m y can)
              done)
          w e
    make_call-Spares r (Auto.set_speed m p) v a can arms w e =
        on_devices-Spares a _
          (λ w done. set_speed-AreArms m p v w (run_by_auto-IsFor m p can) arms done) w e
    make_call-Spares r (Auto.light_change alliance) v a can arms w e =
        subst (λ u. AreArms u.0.motors) (returned _ w e) arms

    auto_call-Keeps :
        (r : Readings D) (c : AutoCall D) (s : Robot D T O)
        → allowed c ≡ true
        → Inv s
        → Keeps (auto_call timer relay options order r c s)
    unfolding auto_call
    auto_call-Keeps r c s can v s' e =
        let (w, done, same) =
          returns_parts (make_call timer relay options r c (s.devices, s.cock_shooter)) _ s' e in
        rw same (make_call-Spares r c s.devices s.cock_shooter can v.0 w done, v.1)

    -- Everything that can happen.
    pub after-Keeps :
        (s : Robot D T O) (h : Happening D T)
        → CanHappen h
        → Inv s
        → Keeps (after timer relay options order s h)
    unfolding after drive_pass cocks_arm
    after-Keeps s (mode (poll j)) can v = polls-Keeps j s v
    after-Keeps s (mode e) can v = returned-Keeps _ (in_mode-Inv e s v)
    after-Keeps s drives can v = drive_waiting-Keeps s.steers s v
    after-Keeps s (processes m r) can v =
        with_devices-Keeps s _ v λ w done. process-AreArms m r s.devices w v.0 done
    after-Keeps s (controls m r now dt) can v =
        if_both Keeps (timer_runs (s.devices.motors m)) _ (returns s)
          (with_devices-Keeps s _ v λ w done. control_fires-AreArms m r now dt s.devices w v.0 done)
          (returned-Keeps s v)
    after-Keeps s (cocks sensor) can v =
        with_devices-Keeps (record s { cock_shooter = _ }) _ v
          λ w done. ask_shooter-AreArms _ s.devices w v.0 done
    after-Keeps s (elapses t) can v = returned-Keeps _ v
    after-Keeps s (auto_calls r c) can v = auto_call-Keeps r c s can v

    new_devices-AreArms :
        (stop : Option ℕ → Outcome Unit) (o : O) (v : Devices D O)
        → new_devices stop o ≡ returns v
        → AreArms v.motors
    unfolding new_devices new_motors new_motor_link_plain new_motor_link
    new_devices-AreArms stop o v e =
        let (fr, e1, f1) = bind_parts new_turning_target _ v e in
        let (fl, e2, f2) = bind_parts new_turning_target _ v f1 in
        let (bk, e3, same) = returns_parts new_turning_target _ v f2 in
        let new : IsArm new_motor_link_plain = (refl, refl, refl, refl, tt, tt) in
        rw same (new, new)

    pub built-Inv :
        (stop : Option ℕ → Outcome Unit) (t : T) (o : O) (s : Robot D T O)
        → built timer relay options order stop t o ≡ returns s
        → Inv s
    unfolding built new_robot new_global
    built-Inv stop t o s e =
        let (v, done, same) = returns_parts (new_devices stop o) _ s e in
        rw same (new_devices-AreArms stop o v done, tt)

    run-Inv :
        (hs : List (Happening D T)) (s s' : Robot D T O)
        → All CanHappen hs
        → Inv s
        → run timer relay options order s hs ≡ returns s'
        → Inv s'
    unfolding run
    run-Inv [] s s' can v e = subst Inv (returned s s' e) v
    run-Inv (h ∷ hs) s s' (can, later) v e =
        let (s1, done, rest) = bind_parts (after timer relay options order s h) _ s' e in
        run-Inv hs s1 s' later (after-Keeps s h can v s1 done) rest

    -- From the constructors on, through every interleaving of modes, polls with the calls of their
    -- listeners, passes of the drive's and the motors' threads, runs of controllers and of the arm's
    -- loop, and calls of the autonomous thread, that return: the Talons of the two motors of the arm
    -- were given no speed but a tenth of the full one, forwards or backwards, and no other command
    -- waits for them. So nothing that the controller or a mode does ever asks one of them for speed 0.
    pub run-IsArmSpeed :
        (stop : Option ℕ → Outcome Unit) (t : T) (o : O) (hs : List (Happening D T))
        (s s' : Robot D T O)
        → All CanHappen hs
        → built timer relay options order stop t o ≡ returns s
        → run timer relay options order s hs ≡ returns s'
        → All IsArmCall (s'.devices.motors m_arm_roll).talon
          × All IsArmCmd (s'.devices.motors m_arm_roll).queue
          × All IsArmCall (s'.devices.motors m_arm_move).talon
          × All IsArmCmd (s'.devices.motors m_arm_move).queue
    run-IsArmSpeed stop t o hs s s' can made e =
        let ((roll, move), actions) = run-Inv hs s s' can (built-Inv stop t o s made) e in
        (roll.5, roll.4, move.5, move.4)
