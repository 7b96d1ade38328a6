-- ===== src/Motor/Starts.antt =====
-- How the start of a speed controller ends, and what a run of the angle controller does.
use frc.Prelude.{ℕ, ◌≡◌, refl, Bool, true, false, none, some, arith, if◌then◌else◌}
use frc.LogMacros.{Outcome, returns, null_access, log_fatal}
use frc.Double.{Double, lit}
use frc.RobotMath.{angle_distance}
use frc.Motor.Control.{
  LinearAngleTarget, Target, angle, speed, MotorControl, Readings, angle_step, execute, is_complete,
  get_linked_encoder_angle, get_encoder_angle, speed_control_step, start, clear_control_run,
  clear_control_run_impl, set_control_target, set_control_target_impl, set_controlled_motor,
}
use frc.Motor.Link.{MotorLink, run_cmd, start_speed_control_impl}

module _ {D : Type 0} ⦃d : Double D⦄ where
  -- What a controller aims at after a start: an angle controller ignores multiples of half a turn.
  abbrev pub aimed : D → D → Target D → Target D
  aimed target a (angle t) =
      angle
        (if d.eq (d.fmod target (lit 180)) (lit 0) then t else record t { target_angle = target })
  aimed target a (speed t) = speed (record t { tgt_speed = target; last_encoder_angle = a })

  abbrev pub needs_encoder : Target D → Bool
  needs_encoder (angle t) = false
  needs_encoder (speed t) = true

  -- The start command's whole behaviour, for a motor with a controller. An angle controller starts
  -- in every case. A speed controller starts if it has its motor already and the motor has an
  -- encoder; without the encoder the process exits, and without the motor, as on its first start,
  -- the command uses a null pointer.
  pub start_speed_control_impl_lem :
      (r : Readings D) (target : D) (m : MotorLink D) (c : MotorControl D)
      → m.spd_control ≡ some c
      → let started : D → Outcome (MotorLink D) = λ a. returns (record m {
        spd_control = some (record c {
          target = aimed target a c.target;
          controlled_motor = true;
          scheduled = some 100;
        });
        spd_control_enabled = true;
      }) in
        run_cmd r (start_speed_control_impl target) m ≡ (
          if needs_encoder c.target
          then (if c.controlled_motor
              then elim r.encoder_angle [ none ↦ log_fatal | some a ↦ started a ]
              else null_access)
          else started target)
  unfolding run_cmd clear_control_run clear_control_run_impl set_control_target
      set_control_target_impl start set_controlled_motor get_linked_encoder_angle get_encoder_angle
  start_speed_control_impl_lem r target m c there = rw there (ground arith)

  -- A run of an angle controller that has its motor and an encoder returns: it forces the
  -- proportional speed on the motor, which is 0 where the run finds the controller complete, and it
  -- schedules the next run in either case.
  pub execute-angle_step :
      (r : Readings D) (now : ℕ) (dt a : D) (c : MotorControl D) (t : LinearAngleTarget D)
      → c.target ≡ angle t
      → c.controlled_motor ≡ true
      → r.encoder_angle ≡ some a
      → let done = d.lt (d.abs (angle_distance a t.target_angle)) t.threshold in
        (is_complete r true (angle t) ≡ returns done)
        × ((if done then angle_step t a else lit 0) ≡ lit 0)
        × (execute r now dt c
            ≡ returns (record c { last_runtime = some now; scheduled = some 100 }, angle_step t a))
  unfolding angle_step execute is_complete get_linked_encoder_angle get_encoder_angle
      speed_control_step
  execute-angle_step r now dt a c t is_angle linked read =
      (rw read refl, ground arith, rw (is_angle, linked, read) (ground arith))
