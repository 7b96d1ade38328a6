-- ===== src/Global/Robot/Arms.antt =====
-- The two motors of the arm, through everything that can happen to the robot.
use frc.Prelude.{ℕ, ◌≡◌, refl, sym, ◌∙◌, ◌⊎◌, false, List, [], ◌∷◌, ◌++◌, none, All}
use mathlib.Core.Path.{subst}
use frc.LogMacros.{Outcome, returns, returns_parts}
use frc.Double.{Double, lit, ratio}
use frc.Motor.Control.{Readings}
use frc.Motor.Link.{
  MotorLink, MotorCmd, set_speed_impl, TalonCall, pid_write, enqueue, process, run_cmd,
  control_fires, new_motor_link,
}
use frc.Motor.Link as Link
use frc.Global.{Motor, m_arm_roll, m_arm_move}
use frc.Global.Devices.{Devices, put_motor}
use frc.AutoConfig.Calls.{on_motor}

pub All-snoc :
    {A : Type 0} (P : A → Type 0) (xs : List A) (x : A) → All P xs → P x → All P (xs ++ x ∷ [])
All-snoc P [] x h p = (p, tt)
All-snoc P (y ∷ xs) x (q, h) p = (q, All-snoc P xs x h p)

pub returned : {A : Type 0} (a b : A) → returns a ≡ returns b → a ≡ b
returned a b e = cc

module _ {D : Type 0} ⦃d : Double D⦄ where
  open d use {mul, neg}

  -- A tenth of the full power, one way or the other.
  abbrev pub IsArmSpeed : D → Type 0
  IsArmSpeed v = (v ≡ ratio 1 10) ⊎ (v ≡ neg (ratio 1 10))

  -- The Talon's call for the speed of a motor that is not reversed and has the scalar 1.
  abbrev pub IsArmCall : TalonCall D → Type 0
  IsArmCall (pid_write p) = (v : D) × (p ≡ mul (mul v (lit 1)) (lit 1)) × IsArmSpeed v
  IsArmCall other = ⊥

  abbrev pub IsArmCmd : MotorCmd D → Type 0
  IsArmCmd (set_speed_impl v) = IsArmSpeed v
  IsArmCmd other = ⊥

  -- No controller, not reversed, with the scalar 1, and asked for nothing but these speeds.
  abbrev pub IsArm : MotorLink D → Type 0
  IsArm x =
      (x.spd_control ≡ none)
      × (x.spd_control_enabled ≡ false)
      × (x.motor_reversed ≡ false)
      × (x.speed_scalar ≡ lit 1)
      × All IsArmCmd x.queue
      × All IsArmCall x.talon

  pub set_speed-IsArm :
      (v : D) (x x' : MotorLink D)
      → IsArmSpeed v
      → IsArm x
      → Link.set_speed v x ≡ returns x'
      → IsArm x'
  unfolding Link.set_speed enqueue
  set_speed-IsArm v x x' s (none_there, off, forwards, scalar, waiting, called) e =
      let queued = All-snoc IsArmCmd x.queue (set_speed_impl v) waiting s in
      let done : Link.set_speed v x ≡ returns (enqueue (set_speed_impl v) x) = rw off refl in
      subst IsArm (returned _ x' (sym done ∙ e)) (none_there, off, forwards, scalar, queued, called)

  process_queue :
      (r : Readings D) (x x' : MotorLink D) (q : List (MotorCmd D))
      → x.queue ≡ q
      → All IsArmCmd q
      → IsArm x
      → process r x ≡ returns x'
      → IsArm x'
  unfolding process run_cmd
  process_queue r x x' [] empty h v e =
      let done : process r x ≡ returns x = rw empty refl in
      subst IsArm (returned x x' (sym done ∙ e)) v
  process_queue r x x' (set_speed_impl p ∷ rest) first (s, h)
        (none_there, off, forwards, scalar, waiting, called) e =
      let y : MotorLink D = record x {
        queue = rest;
        talon = pid_write (mul (mul p (lit 1)) (lit 1)) ∷ x.talon;
      } in
      let done : process r x ≡ returns y = rw (first, forwards, scalar) refl in
      subst IsArm (returned y x' (sym done ∙ e))
        (none_there, off, forwards, scalar, h, ((p, refl, s), called))
  process_queue r x x' (_ ∷ rest) first (h, _) v e = absurd h

  pub process-IsArm :
      (r : Readings D) (x x' : MotorLink D) → IsArm x → process r x ≡ returns x' → IsArm x'
  process-IsArm r x x' v e = process_queue r x x' x.queue refl v.4 v e

  pub control_fires-IsArm :
      (r : Readings D) (now : ℕ) (dt : D) (x x' : MotorLink D)
      → IsArm x
      → control_fires r now dt x ≡ returns x'
      → IsArm x'
  unfolding control_fires
  control_fires-IsArm r now dt x x' v e =
      let done : control_fires r now dt x ≡ returns x = rw v.0 refl in
      subst IsArm (returned x x' (sym done ∙ e)) v

  -- What an event may do to a motor, which for the arm's is to keep it one.
  abbrev pub IsKept : Motor → MotorLink D → Type 0
  IsKept m_arm_roll x = IsArm x
  IsKept m_arm_move x = IsArm x
  IsKept other x = Unit

  abbrev pub AreArms : (Motor → MotorLink D) → Type 0
  AreArms motors = IsArm (motors m_arm_roll) × IsArm (motors m_arm_move)

  pub put_motor-AreArms :
      (m : Motor) (x : MotorLink D) (motors : Motor → MotorLink D)
      → IsKept m x
      → AreArms motors
      → AreArms (put_motor m x motors)
  put_motor-AreArms m_arm_roll x motors k (roll, move) = (k, move)
  put_motor-AreArms m_arm_move x motors k (roll, move) = (roll, k)
  put_motor-AreArms _ x motors k v = v

  pub on_motor-AreArms :
      {O : Type 0} (m : Motor) (method : MotorLink D → Outcome (MotorLink D)) (v v' : Devices D O)
      → AreArms v.motors
      → ((x : MotorLink D) → method (v.motors m) ≡ returns x → IsKept m x)
      → on_motor m method v ≡ returns v'
      → AreArms v'.motors
  on_motor-AreArms m method v v' arms keeps e =
      let (x, r, same) = returns_parts (method (v.motors m)) _ v' e in
      rw same (put_motor-AreArms m x v.motors (keeps x r) arms)
