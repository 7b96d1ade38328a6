-- ===== src/Global/Robot/Listeners.antt =====
-- The listeners of the robot return, and its modes and polls keep the motors as it uses them.
use mathlib.Core.Path.{subst}
use frc.AutoConfig.Safety.{cancel_arm_lem}
use frc.Prelude.{sym, Option, ℕ, ◌≡◌, refl, inl, inr, List, [], ◌∷◌, none, Option-cases}
use frc.LogMacros.{Outcome, returns, Exception, ◌>>=◌}
use frc.Double.{Double}
use frc.Options.{Options}
use frc.HardwareLink.Lights.{Relay}
use frc.ListenerManager.{ListenerManager, Joystick}
use frc.ListenerManager.Invocations.{cycle, invoke_all}
use frc.CockArm.{Timer}
use frc.Global.{
  Action, gyro_reset, cock_cancel, cock_start, stop_arm_cock, start_arm_cock, steer, set_speed,
}
use frc.Global.Devices.{Devices}
use frc.Global.Modes.{Event, action_at}
use frc.Global.Robot.{with_manager, Robot, perform, call, with_devices, in_mode, polls}
use frc.Global.Robot.Tame.{HasArmActions, step-Tame}
use frc.Global.Robot.Kept.{AreMotors, Gives, set_speed-Gives, carry_out_all-AreMotors}

module _ {D T O : Type 0} ⦃d : Double D⦄ where
  -- A step that returns, with the motors as the robot uses them.
  abbrev pub Goes : Outcome (Robot D T O) → Type 0
  Goes r = (s' : Robot D T O) × (r ≡ returns s') × AreMotors s'.devices.motors

  pub with_devices-Goes :
      (s : Robot D T O) (r : Outcome (Devices D O)) → Gives r → Goes (with_devices s r)
  with_devices-Goes s r (v, e, ms) = (record s { devices = v }, rw e refl, ms)

  module _ (timer : Timer T) (cancels : (t : T) → (t' : T) × (timer.cancel t ≡ returns t'))
      (relay : Relay O) (options : Options) (order : List ℕ → List ℕ) where
    pub perform-Goes :
        (x : Action D) (s : Robot D T O)
        → AreMotors s.devices.motors
        → Goes (perform timer relay options order x s)
    unfolding perform
    perform-Goes (set_speed m p) s ms = with_devices-Goes s _ (set_speed-Gives m p s.devices ms)
    perform-Goes gyro_reset s ms = (_, refl, ms)
    perform-Goes cock_cancel s ms =
        let (a, e) = cancel_arm_lem timer cancels relay options s.cock_shooter in
        (record s { cock_shooter = a }, rw e refl, ms)
    perform-Goes cock_start s ms = (_, refl, ms)
    perform-Goes stop_arm_cock s ms = (_, refl, ms)
    perform-Goes start_arm_cock s ms = (_, refl, ms)
    perform-Goes steer s ms = (_, refl, ms)

    -- The robot goes on after listeners, and its motors are as it uses them.
    abbrev GoesOn : (ListenerManager D × Outcome (Robot D T O)) × Option Exception → Type 0
    GoesOn w = (w.1 ≡ none) × Goes w.0.1

    -- A listener throws nothing.
    call-Goes :
        (l : ℕ) (m : ListenerManager D) (s : Robot D T O)
        → AreMotors s.devices.motors
        → GoesOn (call timer relay options order l (m, returns s))
    unfolding call
    call-Goes l m s ms = elim (Option-cases (action_at l s.template.global.actions)) [
      | inl missing ↦ rw (missing, call) (refl, (s, refl, ms))
      | inr (x, there) ↦
          let (s', e, ms') = perform-Goes x s ms in rw (there, call, e) (refl, (s', refl, ms'))
    ]

    invoke_all-Goes :
        (ls : List ℕ) (m : ListenerManager D) (r : Outcome (Robot D T O))
        → Goes r
        → Goes (invoke_all (call timer relay options order) ls (m, r)).0.1
    unfolding invoke_all
    invoke_all-Goes [] m r goes = goes
    invoke_all-Goes (l ∷ ls) m r (s, e, ms) =
        let goes = (call-Goes l m s ms).1 in
        subst (λ q. Goes (invoke_all (call timer relay options order) (l ∷ ls) (m, q)).0.1) (sym e)
          (invoke_all-Goes ls _ _ goes)

    with_manager-Goes :
        (m : ListenerManager D) (r : Outcome (Robot D T O))
        → Goes r
        → Goes (r >>= λ s'. returns (with_manager timer relay options order m s'))
    with_manager-Goes m r (s', e, ms) = (with_manager timer relay options order m s', rw e refl, ms)

    pub polls-Goes :
        (j : Joystick D) (s : Robot D T O)
        → AreMotors s.devices.motors
        → Goes (polls timer relay options order j s)
    unfolding polls cycle
    polls-Goes j s ms = with_manager-Goes _ _ (invoke_all-Goes _ _ (returns s) (s, refl, ms))

    pub in_mode-AreMotors :
        (e : Event D) (s : Robot D T O)
        → HasArmActions s.template.global.actions
        → AreMotors s.devices.motors
        → AreMotors (in_mode timer relay options order e s).devices.motors
    unfolding in_mode
    in_mode-AreMotors e s actions ms =
        let (kept, mild) =
          step-Tame (record s.template { global = record s.template.global { requests = [] } }) e
            (actions, tt) in
        carry_out_all-AreMotors relay options _ s.devices mild ms
