-- ===== src/Motor/Link/Ownership.antt =====
-- Who drives a motor: the callers of setSpeed or its speed controller.
use frc.Prelude.{
  ◌⊎◌, ◌==◌, ◌&&◌, Option-cases, Bool-cases, ℕ, ◌≡◌, not, ◌||◌, inl, inr, refl, Bool, true, false,
  List, [], ◌∷◌, Option, none, some, arith,
}
use frc.LogMacros.{Exception, throws, exits, null_access, unusual, Outcome, returns, ◌>>=◌}
use frc.Double.{Double}
use frc.Motor.Control.{
  MotorControl, angle, LinearAngleTarget, Readings, set_control_target, set_control_target_impl,
  clear_control_run, clear_control_run_impl, set_controlled_motor, start, cancel, execute,
}
use frc.Motor.Link.{
  MotorLink, MotorCmd, set_speed_impl, set_encoder_impl, reverse_motor_impl, set_speed_scalar_impl,
  start_speed_control_impl, set_speed_controller_impl, stop_speed_control_impl, new_motor_link,
  enqueue, start_speed_control, set_speed, set_speed_force, cancel_control, disable_control,
  set_target, run_cmd, process, control_fires,
}

-- The controller is there, and has its motor.
abbrev pub has_motor : {D : Type 0} → Option (MotorControl D) → Bool
has_motor none = false
has_motor (some c) = c.controlled_motor

-- A controller that is enabled is there, and has its motor.
abbrev pub HasControl : {D : Type 0} → MotorLink D → Type 0
HasControl {D} m = (not m.spd_control_enabled || has_motor m.spd_control) ≡ true

-- The controller is enabled, and its timer runs.
abbrev pub is_scheduled : {D : Type 0} → Option (MotorControl D) → Bool
is_scheduled none = false
is_scheduled (some c) = elim c.scheduled [ none ↦ false | some delay ↦ delay == 100 ]

abbrev pub is_driven : {D : Type 0} → Outcome (MotorLink D) → Bool
is_driven (returns m) = m.spd_control_enabled && is_scheduled m.spd_control
is_driven _ = false

-- What happens to a motor: a command is enqueued, a thread calls setSpeed or setControlTarget, the
-- processor executes a command, or the controller's timer goes off.
pub data Event (D : Type 0) : Type 0 where
  ask : MotorCmd D → Event D
  call_set_speed : D → Event D
  call_set_target : Readings D → D → Event D
  execute_one : Readings D → Event D
  timer : Readings D → ℕ → D → Event D

-- How a call can end.
end_cases :
    {A : Type 0} (r : Outcome A)
    → ((a : A) × (r ≡ returns a))
      ⊎ ((e : Exception) × (r ≡ throws e))
      ⊎ ((n : ℕ) × (r ≡ exits n))
      ⊎ (r ≡ null_access)
end_cases (returns a) = inl (a, refl)
end_cases (throws e) = inr (inl (e, refl))
end_cases (exits n) = inr (inr (inl (n, refl)))
end_cases null_access = inr (inr (inr refl))

module _ {D : Type 0} ⦃d : Double D⦄ where
  run_cmd-HasControl :
      (r : Readings D) (c : MotorCmd D) (m m' : MotorLink D)
      → HasControl m
      → run_cmd r c m ≡ returns m'
      → HasControl m'
  unfolding run_cmd disable_control cancel_control clear_control_run set_control_target start
      set_controlled_motor
  run_cmd-HasControl r (set_speed_impl pow) m m' v e = ground arith
  run_cmd-HasControl r (set_encoder_impl enc) m m' v e = ground arith
  run_cmd-HasControl r reverse_motor_impl m m' v e = ground arith
  run_cmd-HasControl r (set_speed_scalar_impl p) m m' v e = ground arith
  run_cmd-HasControl r (start_speed_control_impl t) m m' v e = ground arith
  run_cmd-HasControl r (set_speed_controller_impl c) m m' v e = ground arith
  run_cmd-HasControl r stop_speed_control_impl m m' v e = ground arith

  set_speed-HasControl :
      (pow : D) (m m' : MotorLink D) → HasControl m → set_speed pow m ≡ returns m' → HasControl m'
  unfolding set_speed enqueue disable_control cancel_control
  set_speed-HasControl pow m m' v e = ground arith

  set_target-HasControl :
      (r : Readings D) (target : D) (m m' : MotorLink D)
      → HasControl m
      → set_target r target m ≡ returns m'
      → HasControl m'
  unfolding set_target set_control_target
  set_target-HasControl r target m m' v e = ground arith

  process_queue-HasControl :
      (r : Readings D) (q : List (MotorCmd D)) (m m' : MotorLink D)
      → HasControl m
      → elim q [ [] ↦ returns m | c ∷ rest ↦ run_cmd r c (record m { queue = rest }) ] ≡ returns m'
      → HasControl m'
  process_queue-HasControl r [] m m' v e = ground arith
  process_queue-HasControl r (c ∷ rest) m m' v e =
      run_cmd-HasControl r c (record m { queue = rest }) m' v e

  process-HasControl :
      (r : Readings D) (m m' : MotorLink D)
      → HasControl m
      → process r m ≡ returns m'
      → HasControl m'
  unfolding process
  process-HasControl r m m' v e = process_queue-HasControl r m.queue m m' v e

  control_fires-HasControl :
      (r : Readings D) (now : ℕ) (dt : D) (m m' : MotorLink D)
      → HasControl m
      → control_fires r now dt m ≡ returns m'
      → HasControl m'
  unfolding control_fires execute set_speed_force enqueue
  control_fires-HasControl r now dt m m' v e = ground arith

  unfoldable pub after : MotorLink D → Event D → Outcome (MotorLink D)
  after m (ask c) = returns (enqueue c m)
  after m (call_set_speed pow) = set_speed pow m
  after m (call_set_target r target) = set_target r target m
  after m (execute_one r) = process r m
  after m (timer r now dt) = control_fires r now dt m

  after-HasControl :
      (m m' : MotorLink D) (e : Event D) → HasControl m → after m e ≡ returns m' → HasControl m'
  unfolding after enqueue
  after-HasControl m m' (ask c) v h = ground arith
  after-HasControl m m' (call_set_speed pow) v h = set_speed-HasControl pow m m' v h
  after-HasControl m m' (call_set_target r target) v h = set_target-HasControl r target m m' v h
  after-HasControl m m' (execute_one r) v h = process-HasControl r m m' v h
  after-HasControl m m' (timer r now dt) v h = control_fires-HasControl r now dt m m' v h

  -- The motors that a sequence of events leads to, from a new one.
  pub data Reachable : MotorLink D → Type 0 where
    created :
        (enc : Option ℕ) (control : Option (MotorControl D)) (powscl : D)
        → Reachable (new_motor_link enc control powscl)
    happened :
        (m m' : MotorLink D) (e : Event D) → Reachable m → after m e ≡ returns m' → Reachable m'

  -- However a motor came to be, its controller is there and has its motor whenever it is enabled.
  pub Reachable-HasControl : (m : MotorLink D) → Reachable m → HasControl m
  unfolding new_motor_link
  Reachable-HasControl m (created enc control powscl) = refl
  Reachable-HasControl m (happened m0 m1 e before h) =
      after-HasControl m0 m e (Reachable-HasControl m0 before) h

  -- On every motor that can come to be, and whatever the Cancel of the build's timer does: if the
  -- controller is not enabled, setSpeed returns, and the speed waits behind all earlier commands. If it
  -- is enabled, there is a controller, and setSpeed ends as the Cancel of its timer ends; where that
  -- returns, setSpeed does too, the controller is disabled and its timer does not run, a message is
  -- logged, and the speed waits all the same.
  pub set_speed-Reachable :
      (pow : D) (m : MotorLink D)
      → Reachable m
      → let asked = enqueue (set_speed_impl pow) m in
        (m.spd_control_enabled ≡ false) × (set_speed pow m ≡ returns asked)
        ⊎ (m.spd_control_enabled ≡ true)
          × ((c : MotorControl D) × (m.spd_control ≡ some c)
              × (set_speed pow m ≡ (
                  c.platform_cancel c.scheduled >>= λ ended. returns (record asked {
                    spd_control = some (record c { scheduled = none });
                    spd_control_enabled = false;
                    log = unusual ∷ m.log;
                  }))))
  unfolding set_speed disable_control cancel_control enqueue cancel
  set_speed-Reachable pow m reachable = elim (Bool-cases m.spd_control_enabled) [
    | inr off ↦ inl (off, rw off refl)
    | inl on ↦ elim (Option-cases m.spd_control) [
      | inl none_there ↦ absurd (ground (arith, on, none_there, Reachable-HasControl m reachable))
      | inr (c, there) ↦ inr (
        on,
        (
          c,
          there,
          elim (end_cases (c.platform_cancel c.scheduled)) [
            | inl (u, e) ↦ rw (on, there, e) refl
            | inr (inl (x, e)) ↦ rw (on, there, e) refl
            | inr (inr (inl (n, e))) ↦ rw (on, there, e) refl
            | inr (inr (inr e)) ↦ rw (on, there, e) refl
          ],
        ),
      )
    ]
  ]

  -- A call of setSpeed does not stop a start that still waits: where the queue was empty and an angle
  -- controller idle, and startSpeedControl and then setSpeed are called, the controller is enabled
  -- and its timer runs after both commands were executed.
  pub set_speed-start_speed_control :
      (r : Readings D) (target pow : D) (m : MotorLink D) (t : LinearAngleTarget D)
      (c : MotorControl D)
      → m.queue ≡ []
      → m.spd_control_enabled ≡ false
      → m.spd_control ≡ some c
      → c.target ≡ angle t
      → is_driven (set_speed pow (start_speed_control target m) >>= process r >>= process r) ≡ true
  unfolding set_speed start_speed_control enqueue process run_cmd clear_control_run
      set_control_target start set_controlled_motor clear_control_run_impl set_control_target_impl
  set_speed-start_speed_control r target pow m t c q off there is_angle =
      rw (q, off, there, is_angle) refl
