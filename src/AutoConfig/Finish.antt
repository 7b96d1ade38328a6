-- ===== src/AutoConfig/Finish.antt =====
-- The end of the autonomous sequence, and how it leaves the drive motors.
use frc.Prelude.{
  ℕ, zero, suc, ◌+◌, ◌*◌, ◌≤◌, ◌≡◌, refl, true, List, [], ◌∷◌, ◌++◌, some, leb, arith,
}
use native.Mathlib.Decide.{dec_le}
use frc.Double.{Double, lit, minus_one}
use frc.Options.{red, blue}
use frc.Global.{Motor, m_shooter}
use frc.AutoConfig.{
  AutoCall, set_speed, light_change, cock_start, cock_cancel, Auto, then_calls, spin_until,
  initialize, drive, turn_to, forward_calls,
}

module _ {D : Type 0} ⦃d : Double D⦄ (sleep : ℕ → ℕ → ℕ) (get_angle : Motor → ℕ → D)
    (rests : (n now : ℕ) → now + n ≤ sleep n now) where
  -- A loop that waits for a time ends within one round for each 100 milliseconds, and one more.
  spin_until-deadline :
      (fuel deadline : ℕ) (calls : ℕ → List (AutoCall D)) (a : Auto D)
      → deadline ≤ a.now + 100 * fuel
      → (b : Auto D) × (spin_until sleep get_angle (suc fuel) calls (λ now. leb deadline now) a
          ≡ some b)
        × (a.now ≤ b.now)
        × (deadline ≤ b.now)
  unfolding spin_until
  spin_until-deadline zero deadline calls a h =
      (then_calls (calls a.now) a, ground arith, omega arith, omega arith)
  spin_until-deadline (suc fuel) deadline calls a h = elim (dec_le deadline a.now) [
    | yes late ↦ (then_calls (calls a.now) a, ground arith, omega arith, late)
    | no early ↦
        let waited : a.now + 100 ≤ sleep 100 a.now = rests 100 a.now in
        let a' : Auto D = record { now = sleep 100 a.now; calls = calls a.now ++ a.calls } in
        let (b, e, later, reached) = spin_until-deadline fuel deadline calls a' (omega arith) in
        (b, ground arith, omega arith, reached)
  ]

  spin_until-true :
      (fuel : ℕ) (calls : ℕ → List (AutoCall D)) (a : Auto D)
      → spin_until sleep get_angle (suc fuel) calls (λ now. true) a
        ≡ some (then_calls (calls a.now) a)
  unfolding spin_until
  spin_until-true fuel calls a = refl

  -- With 26 rounds for each loop the sequence of the autonomous mode ends, whatever the sensor would
  -- read, if a sleep takes at least as long as it was asked for and the pointer to the sensor is set.
  -- It takes at least 6.5 seconds, and of the trace it leaves the last calls stop the three drive
  -- motors, show the blue and then the red lights, and nothing else.
  pub initialize_lem :
      (a : Auto D)
      → (b : Auto D) × (earlier : List (AutoCall D)) × (initialize sleep get_angle 26 true a
          ≡ some b)
        × (b.calls ≡ light_change red ∷ light_change blue ∷ (drive (lit 0) ++ earlier))
        × (a.now + 6500 ≤ b.now)
  unfolding initialize
  initialize_lem a =
      let (a1, e1, l1, r1) =
        spin_until-deadline 25 (a.now + 750)
          (λ now. drive (lit 1) ++ turn_to (lit 90) (lit 90) (lit 90)) a (omega arith) in
      let (a2, e2, l2, r2) =
        spin_until-deadline 25 (a.now + 2000) (λ now. drive (lit 0)) a1 (omega arith) in
      let a3 = then_calls (set_speed m_shooter minus_one ∷ cock_cancel ∷ []) a2 in
      let a4 = then_calls (cock_start ∷ []) a3 in
      let (a5, e5, l5, r5) =
        spin_until-deadline 25 (a4.now + 2500) (forward_calls sleep get_angle) a4 (omega arith) in
      let s1 : a5.now + 1000 ≤ sleep 1000 a5.now = rests 1000 a5.now in
      let s2 : sleep 1000 a5.now + 1000 ≤ sleep 1000 (sleep 1000 a5.now) =
        rests 1000 (sleep 1000 a5.now) in
      (
        record {
          now = sleep 1000 (sleep 1000 a5.now);
          calls = light_change red ∷ light_change blue ∷ (drive (lit 0) ++ a5.calls);
        },
        a5.calls,
        rw
            (
              e1,
              e2,
              spin_until-true 25 (λ now. set_speed m_shooter minus_one ∷ [])
                  (then_calls (cock_cancel ∷ []) a2),
              e5,
            )
            refl,
        refl,
        omega arith,
      )
