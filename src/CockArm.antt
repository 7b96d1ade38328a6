-- ===== src/CockArm.antt =====
-- src/RobotMovement/CockArm.h and .cpp: the loop that pulls the shooter's arm back. The timer's class
-- is chosen by the build and is a parameter with state `T`; the touch sensor's reading is an argument.
use frc.Prelude.{
  Bool-cases, inl, inr, sym, ℕ, ◌≡◌, refl, List, [], ◌∷◌, Bool, true, false, not, ◌||◌, arith,
  if◌then◌else◌,
}
use frc.LogMacros.{Outcome, returns, ◌>>=◌, returns_parts}
use frc.Options.{Options}
use frc.Double.{Double, lit, minus_one}

-- The interface of src/EventManager/CmdTimer.h that the arm uses.
pub record Timer (T : Type 0) : Type 0 where
  pub start_relative : ℕ → T → T
  pub cancel : T → Outcome T
  pub timer_is_running : T → Bool

-- What CmdTimer.h documents: a timer that was started runs, and one that was cancelled does not.
pub record IsTimer {T : Type 0} (timer : Timer T) : Type 0 where
  pub running-start_relative :
      (n : ℕ) (t : T) → timer.timer_is_running (timer.start_relative n t) ≡ true
  pub running-cancel : (t t' : T) → timer.cancel t ≡ returns t' → timer.timer_is_running t' ≡ false

-- The motor's calls, the latest first, are the speeds that setSpeed was called with.
pub record CockArm (D T : Type 0) : Type 0 where
  pub warned : Bool
  pub cock_arm_active : Bool
  pub timer : T
  pub m_shooter : List D

module _ {D T : Type 0} ⦃d : Double D⦄ (timer : Timer T) where
  open timer use {start_relative, cancel, timer_is_running}

  unfoldable pub new_cock_arm : T → CockArm D T
  new_cock_arm t = record { warned = false; cock_arm_active = true; timer = t; m_shooter = [] }

  -- `sensor` is what the touch sensor's Get returns.
  unfoldable pub execute : Options → Bool → CockArm D T → CockArm D T
  execute options sensor a = if not a.cock_arm_active || options.arm_enabled then a else record a {
    m_shooter = (if not sensor then minus_one else lit 0) ∷ a.m_shooter;
    timer = start_relative 200 a.timer;
  }

  unfoldable pub start_arm : CockArm D T → CockArm D T
  start_arm a =
      if not (timer_is_running a.timer) then record a { timer = start_relative 200 a.timer } else a

  -- It ends as the timer's Cancel ends.
  unfoldable pub cancel_arm : CockArm D T → Outcome (CockArm D T)
  cancel_arm a =
      if timer_is_running a.timer
      then (cancel a.timer >>= λ t. returns (record a { timer = t }))
      else returns a

  unfoldable pub stop_arm_cock : CockArm D T → CockArm D T
  stop_arm_cock a = record a { cock_arm_active = false }

  unfoldable pub start_arm_cock : CockArm D T → CockArm D T
  start_arm_cock a = record a { cock_arm_active = true }

  -- Where the options do not enable the arm and cocking is active, the loop goes on by itself: each
  -- run sets one speed on the motor, backwards exactly if the sensor reads false, and leaves the
  -- timer running. After stopArmCock a run does nothing. A start of a timer that runs does nothing,
  -- and after start the timer runs; after a cancel that returns it does not.
  pub execute-start_arm_cock :
      IsTimer timer
      → (options : Options) (sensor : Bool) (a : CockArm D T) → options.arm_enabled ≡ false
      → let next = execute options sensor (start_arm_cock a) in
        (next.m_shooter ≡ (if sensor then lit 0 else minus_one) ∷ a.m_shooter)
        × (timer_is_running next.timer ≡ true)
        × (execute options sensor (stop_arm_cock a) ≡ stop_arm_cock a)
        × (timer_is_running (start_arm a).timer ≡ true)
        × (start_arm (start_arm a) ≡ start_arm a)
        × ((a' : CockArm D T) → cancel_arm a ≡ returns a' → timer_is_running a'.timer ≡ false)
  unfolding execute start_arm_cock stop_arm_cock start_arm cancel_arm
  execute-start_arm_cock laws options sensor a h = (
    ground arith,
    ground (arith, laws.running-start_relative 200 a.timer),
    refl,
    ground (arith, laws.running-start_relative 200 a.timer),
    ground (arith, laws.running-start_relative 200 a.timer),
    λ a' e. elim (Bool-cases (timer_is_running a.timer)) [
      | inl on ↦
          let (t, done, same) = returns_parts (cancel a.timer) _ a' (rw on at e) in
          rw same (laws.running-cancel a.timer t done)
      | inr off ↦ let same : a ≡ a' = cc (rw off at e) in rw (sym same) off
    ],
  )
