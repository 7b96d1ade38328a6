-- ===== src/AutoConfig/Calls.antt =====
-- What the calls of src/Util/AutoConfig.cpp do to the devices of src/Global.cpp, and which calls the
-- sequence makes.
use frc.Prelude.{
  length, ℕ, zero, suc, ◌≡◌, refl, ◌∙◌, Bool, true, ◌&&◌, inl, inr, List, [], ◌∷◌, ◌++◌, Option,
  none, some, arith, Bool-cases,
}
use mathlib.Core.Path.{subst}
use frc.LogMacros.{Outcome, returns}
use frc.LogMacros as Log
use frc.Double.{Double}
use frc.Options.{Options}
use frc.HardwareLink.Lights.{Relay}
use frc.HardwareLink.Lights as LightSet
use frc.Motor.Control.{Readings}
use frc.Motor.Link.{MotorLink, set_target}
use frc.Motor.Link as Link
use frc.CockArm.{CockArm, Timer, cancel_arm, start_arm}
use frc.Global.{Motor, red_lights, blue_lights}
use frc.Global.Devices.{Devices, relay_of, put_motor}
use frc.Global.Devices.Start.{is_turning, is_run_by_auto}
use frc.AutoConfig.{
  AutoCall, set_control_target, set_speed, cock_cancel, cock_start, light_change, Auto, ◌>>=◌,
  then_calls, spin_until, initialize,
}

module _ {D O : Type 0} where
  -- A motor's method, where it returns.
  abbrev pub on_motor :
      Motor → (MotorLink D → Outcome (MotorLink D)) → Devices D O → Outcome (Devices D O)
  on_motor m method v =
      Log.◌>>=◌ (method (v.motors m)) (λ x. returns (record v { motors = put_motor m x v.motors }))

  -- A call on the devices alone.
  abbrev pub on_devices :
      {T : Type 0} → CockArm D T → Outcome (Devices D O) → Outcome (Devices D O × CockArm D T)
  on_devices a r = Log.◌>>=◌ r (λ v. returns (v, a))

module _ {D : Type 0} ⦃d : Double D⦄ {O T : Type 0} (timer : Timer T) (relay : Relay O)
    (options : Options) where
  -- What a call does to the motors, the lights and the arm that is cocked.
  unfoldable pub make_call :
      Readings D → AutoCall D → Devices D O × CockArm D T → Outcome (Devices D O × CockArm D T)
  make_call r (set_control_target m a) (v, arm) = on_devices arm (on_motor m (set_target r a) v)
  make_call r (set_speed m pow) (v, arm) = on_devices arm (on_motor m (Link.set_speed pow) v)
  make_call r cock_cancel (v, arm) = Log.◌>>=◌ (cancel_arm timer arm) (λ arm'. returns (v, arm'))
  make_call r cock_start (v, arm) = returns (v, start_arm timer arm)
  make_call r (light_change alliance) (v, arm) = returns (
    record v {
      relays =
          LightSet.light_change relay options alliance (relay_of red_lights) (relay_of blue_lights)
            v.relays;
    },
    arm,
  )

  -- Calls one after the other, the latest first. Before each, the rest of the program changes the
  -- devices, and the motors' sensors read what they read: both depend on how many calls came before.
  unfoldable pub run_calls :
      (readings : ℕ → Readings D)
      (between : ℕ → Devices D O × CockArm D T → Devices D O × CockArm D T)
      → List (AutoCall D)
      → Devices D O × CockArm D T
      → Outcome (Devices D O × CockArm D T)
  run_calls readings between [] v = returns v
  run_calls readings between (c ∷ cs) v =
      Log.◌>>=◌ (run_calls readings between cs v)
        (λ v'. make_call (readings (length cs)) c (between (length cs) v'))

module _ {D : Type 0} where
  -- setControlTarget is called on motors that turn a wheel alone, and setSpeed on those
  -- that drive one and on the shooter.
  abbrev pub allowed : AutoCall D → Bool
  allowed (set_control_target m a) = is_turning m
  allowed (set_speed m pow) = is_run_by_auto m
  allowed _ = true

  abbrev pub all_allowed : List (AutoCall D) → Bool
  all_allowed [] = true
  all_allowed (c ∷ cs) = allowed c && all_allowed cs

  all_allowed-append :
      (cs ds : List (AutoCall D)) → all_allowed (cs ++ ds) ≡ (all_allowed cs && all_allowed ds)
  all_allowed-append [] ds = refl
  all_allowed-append (c ∷ cs) ds = ground (arith, all_allowed-append cs ds)

  then_calls-allowed :
      (cs : List (AutoCall D)) (a : Auto D)
      → all_allowed cs ≡ true
      → all_allowed a.calls ≡ true
      → all_allowed (then_calls cs a).calls ≡ true
  then_calls-allowed cs a h v = all_allowed-append cs a.calls ∙ ground arith

  allowed_result :
      (a b : Auto D) → some a ≡ some b → all_allowed a.calls ≡ true → all_allowed b.calls ≡ true
  allowed_result a b e v =
      subst (λ o. elim o [ none ↦ Unit {0} | some x ↦ all_allowed x.calls ≡ true ]) e v

  -- The sequence goes on after a part that ended.
  ended :
      (r : Option (Auto D)) (f : Auto D → Option (Auto D)) (b : Auto D)
      → (r >>= f) ≡ some b
      → (a : Auto D) × (r ≡ some a) × (f a ≡ some b)
  ended none f b e = absurd (cc)
  ended (some a) f b e = (a, refl, e)

module _ {D : Type 0} ⦃d : Double D⦄ (sleep : ℕ → ℕ → ℕ) (get_angle : Motor → ℕ → D) where
  spin_until-allowed :
      (fuel : ℕ) (calls : ℕ → List (AutoCall D)) (done : ℕ → Bool) (a b : Auto D)
      → ((now : ℕ) → all_allowed (calls now) ≡ true)
      → all_allowed a.calls ≡ true
      → spin_until sleep get_angle fuel calls done a ≡ some b
      → all_allowed b.calls ≡ true
  unfolding spin_until
  spin_until-allowed zero calls done a b h v e = absurd (cc)
  spin_until-allowed (suc fuel) calls done a b h v e =
      let a' = then_calls (calls a.now) a in
      let v' = then_calls-allowed (calls a.now) a (h a.now) v in
      elim (Bool-cases (done a.now)) [
        | inl stop ↦ let same : some a' ≡ some b = rw stop at e in allowed_result a' b same v'
        | inr go ↦
            spin_until-allowed fuel calls done (record a' { now = sleep 100 a.now }) b h v'
              (rw go at e)
      ]

  pub initialize-allowed :
      (fuel : ℕ) (sensor_is_set : Bool) (a b : Auto D)
      → all_allowed a.calls ≡ true
      → initialize sleep get_angle fuel sensor_is_set a ≡ some b
      → all_allowed b.calls ≡ true
  unfolding initialize
  initialize-allowed fuel sensor_is_set a b v e =
      let (a1, e1, f1) = ended (spin_until sleep get_angle fuel _ _ a) _ b e in
      let v1 = spin_until-allowed fuel _ _ a a1 (λ now. refl) v e1 in
      let (a2, e2, f2) = ended (spin_until sleep get_angle fuel _ _ a1) _ b f1 in
      let v2 = spin_until-allowed fuel _ _ a1 a2 (λ now. refl) v1 e2 in
      let (a3, e3, f3) =
        ended (spin_until sleep get_angle fuel _ _ (then_calls (cock_cancel ∷ []) a2)) _ b f2 in
      let v3 =
        spin_until-allowed fuel _ _ (then_calls (cock_cancel ∷ []) a2) a3 (λ now. refl) v2 e3 in
      let (a5, e5, f5) =
        ended (spin_until sleep get_angle fuel _ _ (then_calls (cock_start ∷ []) a3)) _ b f3 in
      let v5 =
        spin_until-allowed fuel _ _ (then_calls (cock_start ∷ []) a3) a5 (λ now. refl) v3 e5 in
      allowed_result _ b f5 v5
