-- ===== src/Global/Robot/Tame.antt =====
-- What the modes register and request, as far as it concerns the motors of the arm.
use frc.Prelude.{
  ℕ, ◌≡◌, refl, inl, inr, true, List, [], ◌∷◌, some, ◌==◌, arith, All, Bool-cases, if_both,
}
use mathlib.Core.Path.{subst}
use frc.LogMacros.{returns}
use frc.Double.{Double}
use frc.Options.{Options}
use frc.HardwareLink.Lights.{Relay}
use frc.Motor.Control.{Readings}
use frc.Motor.Link.{MotorLink, process, control_fires, start_speed_control}
use frc.Motor.Link as Link
use frc.AutoConfig.Calls.{on_motor}
use frc.Global.{
  Motor, rot_fr, rot_fl, rot_bk, m_arm_roll, m_arm_move, Action, set_speed, Global, RobotTemplate,
  Request, request, add_command, add_commands, teleop_commands, robot_init, disabled_init,
  autonomous_init, teleop_init, disabled_periodic, autonomous_periodic, teleop_periodic,
  initialize_robot, initialize_disabled, initialize_auto, initialize_teleop, clear_listeners,
}
use frc.Global.Devices.{Devices, carry_out, carry_out_all}
use frc.ListenerManager.Keys.{Listenable}
use frc.Global.Devices.Start.{is_turning}
use frc.Global.Modes.{
  Event, robot, disabled, autonomous, teleop, disabled_period, autonomous_period, teleop_period,
  poll, step, action_at,
}
use frc.Global.Robot.Arms.{
  IsArmSpeed, set_speed-IsArm, process-IsArm, control_fires-IsArm, IsKept, AreArms,
  on_motor-AreArms,
}

module _ {D : Type 0} ⦃d : Double D⦄ where
  -- An action gives the arm's motors no other speeds.
  abbrev pub IsArmAction : Action D → Type 0
  IsArmAction (set_speed m_arm_roll v) = IsArmSpeed v
  IsArmAction (set_speed m_arm_move v) = IsArmSpeed v
  IsArmAction other = Unit

  abbrev pub HasArmActions : List (ℕ × Action D) → Type 0
  HasArmActions t = All (λ a. IsArmAction a.1) t

  pub action_at-IsArmAction :
      (l : ℕ) (x : Action D) (t : List (ℕ × Action D))
      → HasArmActions t
      → action_at l t ≡ some x
      → IsArmAction x
  action_at-IsArmAction l x [] h e = absurd (cc)
  action_at-IsArmAction l x ((k, y) ∷ t) (hy, h) e = elim (Bool-cases (k == l)) [
    | inl here ↦ let same : y ≡ x = ground arith in subst IsArmAction same hy
    | inr there ↦ action_at-IsArmAction l x t h (ground arith)
  ]

  -- A request that starts no controller but a turning motor's.
  abbrev pub IsMild : Request D → Type 0
  IsMild (Request.start_speed_control m v) = is_turning m ≡ true
  IsMild other = Unit

  -- The actions and the requests of the modes.
  abbrev pub Tame : Global D → Type 0
  Tame g = HasArmActions g.actions × All IsMild g.requests

  add_commands-Tame :
      (cs : List (Listenable × Action D)) (g : Global D)
      → All (λ c. IsArmAction c.1) cs
      → Tame g
      → Tame (add_commands cs g)
  unfolding add_commands add_command
  add_commands-Tame [] g h v = v
  add_commands-Tame ((key, x) ∷ cs) g (hx, h) (a, q) =
      add_commands-Tame cs (add_command key x g) h ((hx, a), q)

  teleop_commands-arm : All (λ c. IsArmAction c.1) (teleop_commands {D = D})
  teleop_commands-arm = (
    tt,
    (
      tt,
      (
        tt,
        (
          tt,
          (
            tt,
            (
              tt,
              (
                tt,
                (
                  tt,
                  (tt, (inl refl, (inl refl, (inr refl, (inr refl, (tt, (tt, (tt, (tt, tt))))))))),
                ),
              ),
            ),
          ),
        ),
      ),
    ),
  )

  pub step-Tame : (t : RobotTemplate D) (e : Event D) → Tame t.global → Tame (step t e).global
  unfolding step robot_init initialize_robot request disabled_init initialize_disabled
      autonomous_init initialize_auto teleop_init initialize_teleop clear_listeners
      disabled_periodic autonomous_periodic teleop_periodic
  step-Tame t robot (a, q) = (a, (refl, (refl, (refl, (tt, (tt, q))))))
  step-Tame t disabled (a, q) = (a, (tt, (tt, q)))
  step-Tame t autonomous (a, q) =
      if_both (λ t'. Tame t'.global) t.autonomous_has_been_init t _ (a, q) (a, (tt, q))
  step-Tame t teleop (a, q) =
      if_both (λ t'. Tame t'.global) t.teleop_has_been_init t _ (a, q)
        (add_commands-Tame teleop_commands _ teleop_commands-arm (a, (tt, q)))
  step-Tame t disabled_period (a, q) = (a, (tt, q))
  step-Tame t autonomous_period (a, q) = (a, (tt, (tt, q)))
  step-Tame t teleop_period (a, q) = (a, (tt, q))
  step-Tame t (poll j) v = v

  module _ {O : Type 0} (relay : Relay O) (options : Options) where
    carry_out-AreArms :
        (q : Request D) (v : Devices D O)
        → IsMild q
        → AreArms v.motors
        → AreArms (carry_out relay options q v).motors
    unfolding carry_out
    carry_out-AreArms (Request.start_speed_control rot_fr a) v mild arms = arms
    carry_out-AreArms (Request.start_speed_control rot_fl a) v mild arms = arms
    carry_out-AreArms (Request.start_speed_control rot_bk a) v mild arms = arms
    carry_out-AreArms (Request.start_speed_control _ a) v mild arms = absurd (cc)
    carry_out-AreArms _ v mild arms = arms

    pub carry_out_all-AreArms :
        (qs : List (Request D)) (v : Devices D O)
        → All IsMild qs
        → AreArms v.motors
        → AreArms (carry_out_all relay options qs v).motors
    unfolding carry_out_all
    carry_out_all-AreArms [] v mild arms = arms
    carry_out_all-AreArms (q ∷ qs) v (m, mild) arms =
        carry_out-AreArms q _ m (carry_out_all-AreArms qs v mild arms)

module _ {D : Type 0} ⦃d : Double D⦄ where
  -- A speed for a motor: for the arm's, one of the two.
  abbrev pub IsFor : Motor → D → Type 0
  IsFor m v = IsArmAction (set_speed m v)

  set_speed-IsKept :
      {O : Type 0} (m : Motor) (v : D) (w : Devices D O) (x : MotorLink D)
      → IsFor m v
      → AreArms w.motors
      → Link.set_speed v (w.motors m) ≡ returns x
      → IsKept m x
  set_speed-IsKept m_arm_roll v w x f arms e = set_speed-IsArm v (w.motors m_arm_roll) x f arms.0 e
  set_speed-IsKept m_arm_move v w x f arms e = set_speed-IsArm v (w.motors m_arm_move) x f arms.1 e
  set_speed-IsKept _ v w x f arms e = tt

  pub set_speed-AreArms :
      {O : Type 0} (m : Motor) (v : D) (w w' : Devices D O)
      → IsFor m v
      → AreArms w.motors
      → on_motor m (Link.set_speed v) w ≡ returns w'
      → AreArms w'.motors
  set_speed-AreArms m v w w' f arms e =
      on_motor-AreArms m (Link.set_speed v) w w' arms
        (λ x done. set_speed-IsKept m v w x f arms done) e

  -- A motor's thread executes a command, and a controller runs.
  process-IsKept :
      {O : Type 0} (m : Motor) (r : Readings D) (w : Devices D O) (x : MotorLink D)
      → AreArms w.motors
      → process r (w.motors m) ≡ returns x
      → IsKept m x
  process-IsKept m_arm_roll r w x arms e = process-IsArm r (w.motors m_arm_roll) x arms.0 e
  process-IsKept m_arm_move r w x arms e = process-IsArm r (w.motors m_arm_move) x arms.1 e
  process-IsKept _ r w x arms e = tt

  pub process-AreArms :
      {O : Type 0} (m : Motor) (r : Readings D) (w w' : Devices D O)
      → AreArms w.motors
      → on_motor m (process r) w ≡ returns w'
      → AreArms w'.motors
  process-AreArms m r w w' arms e =
      on_motor-AreArms m (process r) w w' arms (λ x done. process-IsKept m r w x arms done) e

  control_fires-IsKept :
      {O : Type 0} (m : Motor) (r : Readings D) (now : ℕ) (dt : D) (w : Devices D O)
      (x : MotorLink D)
      → AreArms w.motors
      → control_fires r now dt (w.motors m) ≡ returns x
      → IsKept m x
  control_fires-IsKept m_arm_roll r now dt w x arms e =
      control_fires-IsArm r now dt (w.motors m_arm_roll) x arms.0 e
  control_fires-IsKept m_arm_move r now dt w x arms e =
      control_fires-IsArm r now dt (w.motors m_arm_move) x arms.1 e
  control_fires-IsKept _ r now dt w x arms e = tt

  pub control_fires-AreArms :
      {O : Type 0} (m : Motor) (r : Readings D) (now : ℕ) (dt : D) (w w' : Devices D O)
      → AreArms w.motors
      → on_motor m (control_fires r now dt) w ≡ returns w'
      → AreArms w'.motors
  control_fires-AreArms m r now dt w w' arms e =
      on_motor-AreArms m (control_fires r now dt) w w' arms
        (λ x done. control_fires-IsKept m r now dt w x arms done) e
