-- ===== src/AutoConfig.antt =====
-- src/Util/AutoConfig.cpp: the sequence of the autonomous mode. What it asks of the motors, the arm
-- and the lights is a trace, the latest first. The clock and the gyroscope are parameters: the time
-- after a sleep that began at a time, in milliseconds, and the angle read for a motor at a time.
pub mod Calls
pub mod Finish
pub mod Safety
use frc.Prelude.{
  ℕ, zero, suc, ◌+◌, Bool, true, false, List, [], ◌∷◌, ◌++◌, Option, none, some, if◌then◌else◌, leb,
}
use frc.Double.{Double, lit, minus_one}
use frc.Options.{Alliance, red, blue}
use frc.Global.{Motor, rot_fr, rot_fl, rot_bk, drv_fr, drv_fl, drv_bk, m_shooter}

pub data AutoCall (D : Type 0) : Type 0 where
  set_control_target : Motor → D → AutoCall D
  set_speed : Motor → D → AutoCall D
  cock_cancel cock_start : AutoCall D
  light_change : Alliance → AutoCall D

pub record Auto (D : Type 0) : Type 0 where
  pub now : ℕ
  pub calls : List (AutoCall D)

-- Calls that follow, the latest first.
abbrev pub then_calls : {D : Type 0} → List (AutoCall D) → Auto D → Auto D
then_calls cs a = record a { calls = cs ++ a.calls }

-- The rest of the sequence, if the loop before it ended.
infixl 5 ◌>>=◌
abbrev pub ◌>>=◌ : {A B : Type 0} → Option A → (A → Option B) → Option B
none >>= f = none
some a >>= f = f a

module _ {D : Type 0} ⦃d : Double D⦄ where
  abbrev pub drive : D → List (AutoCall D)
  drive v = set_speed drv_fr v ∷ set_speed drv_fl v ∷ set_speed drv_bk v ∷ []

  abbrev pub turn_to : D → D → D → List (AutoCall D)
  turn_to bk fl fr =
      set_control_target rot_fr fr
      ∷ set_control_target rot_fl fl
      ∷ set_control_target rot_bk bk
      ∷ []

module _ {D : Type 0} ⦃d : Double D⦄ (sleep : ℕ → ℕ → ℕ) (get_angle : Motor → ℕ → D) where
  open d use {add}

  -- A `while(true)` around SPINLOCK_UNTIL, for at most so many rounds: the calls of a round, and the
  -- condition that ends the loop.
  unfoldable pub spin_until : ℕ → (ℕ → List (AutoCall D)) → (ℕ → Bool) → Auto D → Option (Auto D)
  spin_until zero calls done a = none
  spin_until (suc fuel) calls done a =
      let a' = then_calls (calls a.now) a in
      let rest = spin_until fuel calls done (record a' { now = sleep 100 a'.now }) in
      if done a'.now then some a' else rest

  abbrev pub forward_calls : ℕ → List (AutoCall D)
  forward_calls now =
      drive (lit 1)
      ++ turn_to (add (lit 90) (get_angle rot_bk now)) (add (lit 90) (get_angle rot_fl now))
          (add (lit 90) (get_angle rot_fr now))

  -- `initialize`. The sensor's argument is whether the shared pointer to the sensor is set: the
  -- source tests the pointer, and does not read the sensor.
  unfoldable pub initialize : ℕ → (sensor_is_set : Bool) → Auto D → Option (Auto D)
  initialize fuel sensor_is_set a0 = do
    a1 ←
        spin_until fuel (λ now. drive (lit 1) ++ turn_to (lit 90) (lit 90) (lit 90))
          (λ now. leb (a0.now + 750) now) a0
    a2 ← spin_until fuel (λ now. drive (lit 0)) (λ now. leb (a0.now + 2000) now) a1
    a3 ←
        spin_until fuel (λ now. set_speed m_shooter minus_one ∷ []) (λ now. sensor_is_set)
          (then_calls (cock_cancel ∷ []) a2)
    let a4 : Auto D = then_calls (cock_start ∷ []) a3
    a5 ← spin_until fuel forward_calls (λ now. leb (a4.now + 2500) now) a4
    let a6 : Auto D = then_calls (light_change blue ∷ drive (lit 0)) a5
    let a7 : Auto D = then_calls (light_change red ∷ []) (record a6 { now = sleep 1000 a6.now })
    some (record a7 { now = sleep 1000 a7.now })
