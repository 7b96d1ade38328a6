-- ===== src/Global/Robot/Motors.antt =====
-- The motors as the robot uses them: no call, command or controller's run ends the process.
use frc.Prelude.{
  ℕ, ◌≡◌, refl, inl, inr, Bool, true, false, List, [], ◌∷◌, ◌++◌, Option, none, some, arith, All,
  Bool-cases, Option-cases, if◌then◌else◌,
}
use frc.LogMacros.{Outcome, returns, unusual, recoverable}
use frc.Double.{Double, lit, minus_one}
use frc.Motor.Control.{
  LinearAngleTarget, angle, MotorControl, Readings, cancel, start, set_control_target,
  set_control_target_impl, clear_control_run, clear_control_run_impl, set_controlled_motor,
  angle_step,
}
use frc.Motor.Starts.{execute-angle_step}
use frc.Motor.Link.{
  MotorLink, MotorCmd, set_speed_impl, start_speed_control_impl, pid_write, enqueue, set_speed,
  set_speed_force, cancel_control, disable_control, set_target, process, run_cmd, control_fires,
  start_speed_control,
}
use frc.Global.Robot.{timer_runs}
use frc.Global.Robot.Arms.{All-snoc}

module _ {D : Type 0} ⦃d : Double D⦄ where
  -- The commands that wait on a motor; only on a turning one its controller may be started.
  abbrev pub IsFit : Bool → MotorCmd D → Type 0
  IsFit turning (set_speed_impl v) = Unit
  IsFit true (start_speed_control_impl a) = Unit
  IsFit turning other = ⊥

  -- A controller of angles, that has its motor where its timer runs, and whose timer's Cancel returns.
  abbrev pub IsAngle : Option (MotorControl D) → Type 0
  IsAngle o =
      (c : MotorControl D) × (t : LinearAngleTarget D) × (o ≡ some c)
      × (c.target ≡ angle t)
      × ((s : Option ℕ) → c.platform_cancel s ≡ returns tt)
      × (elim c.scheduled [ none ↦ true | some delay ↦ c.controlled_motor ] ≡ true)

  -- A turning motor has such a controller, and any other has none.
  abbrev pub IsMotor : Bool → MotorLink D → Type 0
  IsMotor true x = IsAngle x.spd_control × All (IsFit true) x.queue
  IsMotor false x =
      (x.spd_control ≡ none) × (x.spd_control_enabled ≡ false) × All (IsFit false) x.queue

  abbrev pub Makes : Bool → Outcome (MotorLink D) → Type 0
  Makes b r = (x : MotorLink D) × (r ≡ returns x) × IsMotor b x

  pub set_speed-Makes : (b : Bool) (v : D) (x : MotorLink D) → IsMotor b x → Makes b (set_speed v x)
  unfolding set_speed disable_control cancel_control cancel enqueue
  set_speed-Makes true v x ((c, t, there, is_angle, stops, linked), waiting) =
      let queued = All-snoc (IsFit true) x.queue (set_speed_impl v) waiting tt in
      elim (Bool-cases x.spd_control_enabled) [
        | inl on ↦ (
          record x {
            spd_control = some (record c { scheduled = none });
            spd_control_enabled = false;
            log = unusual ∷ x.log;
            queue = x.queue ++ set_speed_impl v ∷ [];
          },
          rw (on, there, stops c.scheduled) refl,
          ((record c { scheduled = none }, t, refl, is_angle, stops, refl), queued),
        )
        | inr off ↦ (
          record x { queue = x.queue ++ set_speed_impl v ∷ [] },
          rw off refl,
          ((c, t, there, is_angle, stops, linked), queued),
        )
      ]
  set_speed-Makes false v x (missing, off, waiting) = (
    record x { queue = x.queue ++ set_speed_impl v ∷ [] },
    rw off refl,
    (missing, off, All-snoc (IsFit false) x.queue (set_speed_impl v) waiting tt),
  )

  pub start_speed_control-IsMotor :
      (a : D) (x : MotorLink D) → IsMotor true x → IsMotor true (start_speed_control a x)
  unfolding start_speed_control enqueue
  start_speed_control-IsMotor a x (control, waiting) =
      (control, All-snoc (IsFit true) x.queue (start_speed_control_impl a) waiting tt)

  -- What a target makes of an angle controller.
  abbrev aimed_at : D → LinearAngleTarget D → LinearAngleTarget D
  aimed_at a t = if d.eq (d.fmod a (lit 180)) (lit 0) then t else record t { target_angle = a }

  -- The motor after a command to set a speed, with the commands that are left.
  abbrev spoken : Readings D → D → MotorLink D → List (MotorCmd D) → MotorLink D
  spoken r p x rest =
      let sign = if x.motor_reversed then minus_one else lit 1 in
      record x { queue = rest; talon = pid_write (d.mul (d.mul p x.speed_scalar) sign) ∷ x.talon }

  process_queue :
      (b : Bool) (r : Readings D) (x : MotorLink D) (q : List (MotorCmd D))
      → x.queue ≡ q
      → All (IsFit b) q
      → IsMotor b x
      → Makes b (process r x)
  unfolding process run_cmd clear_control_run clear_control_run_impl set_control_target
      set_control_target_impl start set_controlled_motor
  process_queue b r x [] empty fit v = (x, rw empty refl, v)
  process_queue true r x (set_speed_impl p ∷ rest) first (u, fit) (control, w) =
      (spoken r p x rest, rw first refl, (control, fit))
  process_queue false r x (set_speed_impl p ∷ rest) first (u, fit) (missing, off, w) =
      (spoken r p x rest, rw first refl, (missing, off, fit))
  process_queue true r x (start_speed_control_impl a ∷ rest) first (u, fit)
        ((c, t, there, is_angle, stops, linked), w) =
      let c' : MotorControl D = record c {
        target = angle (aimed_at a t);
        controlled_motor = true;
        scheduled = some 100;
      } in
      (
        record x { queue = rest; spd_control = some c'; spd_control_enabled = true },
        rw (first, there, is_angle) refl,
        ((c', aimed_at a t, refl, refl, stops, refl), fit),
      )
  process_queue false r x (start_speed_control_impl a ∷ rest) first (h, fit) v = absurd h
  process_queue true r x (_ ∷ rest) first (h, fit) v = absurd h
  process_queue false r x (_ ∷ rest) first (h, fit) v = absurd h

  pub process-Makes :
      (b : Bool) (r : Readings D) (x : MotorLink D) → IsMotor b x → Makes b (process r x)
  process-Makes true r x v = process_queue true r x x.queue refl v.1 v
  process-Makes false r x v = process_queue false r x x.queue refl v.2 v

  pub set_target-Makes :
      (r : Readings D) (a : D) (x : MotorLink D) → IsMotor true x → Makes true (set_target r a x)
  unfolding set_target set_control_target set_control_target_impl
  set_target-Makes r a x ((c, t, there, is_angle, stops, linked), waiting) =
      elim (Bool-cases x.spd_control_enabled) [
        | inl on ↦ (
          record x { spd_control = some (record c { target = angle (aimed_at a t) }) },
          rw (there, on, is_angle) refl,
          (
            (record c { target = angle (aimed_at a t) }, aimed_at a t, refl, refl, stops, linked),
            waiting,
          ),
        )
        | inr off ↦ (
          record x { log = recoverable ∷ x.log },
          rw (there, off) refl,
          ((c, t, there, is_angle, stops, linked), waiting),
        )
      ]

  -- A run of the controller, where its timer runs and the motor has an encoder.
  linked_of_running :
      (c : MotorControl D)
      → elim c.scheduled [ none ↦ true | some delay ↦ c.controlled_motor ] ≡ true
      → elim c.scheduled [ none ↦ false | some delay ↦ true ] ≡ true
      → c.controlled_motor ≡ true
  linked_of_running c linked runs = elim (Option-cases c.scheduled) [
    | inl off ↦ absurd (ground arith)
    | inr (delay, on) ↦ ground arith
  ]

  pub control_fires-Makes :
      (b : Bool) (r : Readings D) (now : ℕ) (dt a : D) (x : MotorLink D)
      → IsMotor b x
      → timer_runs x ≡ true
      → r.encoder_angle ≡ some a
      → Makes b (control_fires r now dt x)
  unfolding control_fires set_speed_force enqueue
  control_fires-Makes false r now dt a x (missing, off, waiting) runs read =
      absurd (ground (arith, missing))
  control_fires-Makes true r now dt a x ((c, t, there, is_angle, stops, linked), waiting) runs
        read =
      let on = linked_of_running c linked (rw there at runs) in
      let (complete, halts, e) = execute-angle_step r now dt a c t is_angle on read in
      let c' : MotorControl D = record c { last_runtime = some now; scheduled = some 100 } in
      let p = angle_step t a in
      (
        record x { spd_control = some c'; queue = x.queue ++ set_speed_impl p ∷ [] },
        rw (there, e) refl,
        (
          (c', t, refl, is_angle, stops, on),
          All-snoc (IsFit true) x.queue (set_speed_impl p) waiting tt,
        ),
      )
