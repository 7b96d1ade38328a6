-- ===== src/Motor/Regulation/Powers.antt =====
-- The powers of a motor that a speed controller drives (MotorControl, LinearSpeedTarget and MotorLink).
use mathlib.Core.List.{append-nil, append_assoc}
use frc.Prelude.{
  sym, ap, length, ℕ, zero, suc, ◌≡◌, refl, ◌∙◌, true, false, List, [], ◌∷◌, ◌++◌, Option, some,
  if◌then◌else◌,
}
use frc.LogMacros.{returns}
use frc.Double.{Double, lit, minus_one}
use frc.RobotMath.{make_valid_power}
use frc.Motor.Control.{
  LinearSpeedTarget, MotorControl, speed, speed_step, execute, is_complete, speed_control_step,
  get_linked_motor_speed, get_linked_encoder_angle, get_encoder_angle,
}
use frc.Motor.Link.{
  MotorLink, TalonCall, pid_write, run_cmd, process, control_fires, set_speed_force, enqueue,
}
use frc.Motor.Regulation.{Round, regulate, regulate_all}
use frc.Motor.Regulation.Windows.{Window, rounds, total, IsShort, Splits, splits}

module _ {D : Type 0} ⦃d : Double D⦄ (m : MotorLink D) (c : MotorControl D) where
  open d use {add, sub, mul, div, lt}

  -- What a power becomes on its way to the Talon.
  abbrev pub scaled : D → D
  scaled p = mul (mul p m.speed_scalar) (if m.motor_reversed then minus_one else lit 1)

  -- The motor `m` driven by `c`, as a speed controller with its motor.
  abbrev pub driven : LinearSpeedTarget D → List (TalonCall D) → Option ℕ → MotorLink D
  driven t calls last = record m {
    spd_control = some (record c {
      target = speed t;
      last_runtime = last;
      controlled_motor = true;
      scheduled = some 100;
    });
    queue = [];
    talon = calls;
  }

  -- The power that the last run of a window computes, from the Talon's speed.
  abbrev pub computed : LinearSpeedTarget D → (p angle acc : D) → D
  computed t p angle acc =
      make_valid_power (mul (div p t.tgt_speed) (div (sub angle t.last_encoder_angle) acc))

  -- The controller's numbers after a window.
  abbrev pub next_window : LinearSpeedTarget D → Window D → LinearSpeedTarget D
  next_window t w = record t { dt_accum = lit 0; last_encoder_angle = w.last.encoder }

  abbrev pub target_after :
      LinearSpeedTarget D → List (Window D) → List (Round D) → LinearSpeedTarget D
  target_after t [] later = record t { dt_accum = total t.dt_accum later }
  target_after t (w ∷ ws) later = target_after (next_window t w) ws later

  module _ (to_float : D → D) where
    -- What Talon::Get returns after the power was forced.
    abbrev sent : D → D
    sent p = to_float (scaled p)

    abbrev sent_again : ℕ → D → D
    sent_again zero p = p
    sent_again (suc n) p = sent_again n (sent p)

    -- The calls to the Talon, the latest first, after runs that hold the power.
    abbrev hold : ℕ → D → List (TalonCall D) → List (TalonCall D)
    hold zero p calls = calls
    hold (suc n) p calls = hold n (sent p) (pid_write (scaled p) ∷ calls)

    -- The power that a window computes, from the Talon's speed before it.
    abbrev window_power : LinearSpeedTarget D → D → Window D → D
    window_power t p w =
        computed t (sent_again (length w.held) p) w.last.encoder
          (add (total t.dt_accum w.held) w.last.dt)

    -- What a list of windows and later runs makes of the calls.
    abbrev pub calls_after :
        LinearSpeedTarget D
        → D
        → List (Window D)
        → List (Round D)
        → List (TalonCall D)
        → List (TalonCall D)
    calls_after t p [] later calls = hold (length later) p calls
    calls_after t p (w ∷ ws) later calls =
        let q = window_power t p w in
        calls_after (next_window t w) (sent q) ws later
          (pid_write (scaled q) ∷ hold (length w.held) p calls)

    module _ (get : List (TalonCall D) → D)
        (get_pid_write : (v : D) (calls : List (TalonCall D))
          → get (pid_write v ∷ calls) ≡ to_float v) where
      get-hold :
          (n : ℕ) (p : D) (calls : List (TalonCall D))
          → get calls ≡ p
          → get (hold n p calls) ≡ sent_again n p
      get-hold zero p calls e = e
      get-hold (suc n) p calls e = get-hold n (sent p) _ (get_pid_write (scaled p) calls)

      pub regulate_short :
          (x : Round D) (t : LinearSpeedTarget D) (calls : List (TalonCall D)) (last : Option ℕ)
          → lt (add t.dt_accum x.dt) t.refresh_time ≡ true
          → regulate get x (driven t calls last)
            ≡ returns (
                driven
                  (record t { dt_accum = add t.dt_accum x.dt })
                  (pid_write (scaled (get calls)) ∷ calls)
                  (some x.now))
      unfolding regulate control_fires process set_speed_force enqueue run_cmd execute is_complete
          speed_control_step get_linked_motor_speed speed_step
      regulate_short x t calls last h = rw h refl

      pub regulate_last :
          (x : Round D) (t : LinearSpeedTarget D) (calls : List (TalonCall D)) (last : Option ℕ)
          → lt (add t.dt_accum x.dt) t.refresh_time ≡ false
          → regulate get x (driven t calls last)
            ≡ returns (
                driven
                  (record t { dt_accum = lit 0; last_encoder_angle = x.encoder })
                  (pid_write (scaled (computed t (get calls) x.encoder (add t.dt_accum x.dt)))
                    ∷ calls)
                  (some x.now))
      unfolding regulate control_fires process set_speed_force enqueue run_cmd execute is_complete
          speed_control_step get_linked_motor_speed get_linked_encoder_angle get_encoder_angle
          speed_step
      regulate_last x t calls last h = rw h refl

      regulate_held :
          (xs rest : List (Round D)) (t : LinearSpeedTarget D) (p : D) (calls : List (TalonCall D))
          (last : Option ℕ)
          → get calls ≡ p
          → IsShort t.refresh_time t.dt_accum xs
          → (last' : Option ℕ) × (regulate_all get (xs ++ rest) (driven t calls last)
              ≡ regulate_all get rest (
                  driven
                    (record t { dt_accum = total t.dt_accum xs })
                    (hold (length xs) p calls)
                    last'))
      unfolding regulate_all
      regulate_held [] rest t p calls last e short = (last, refl)
      regulate_held (x ∷ xs) rest t p calls last e (h, short) =
          let t' = record t { dt_accum = add t.dt_accum x.dt } in
          let (last', done) =
            regulate_held xs rest t' (sent p) (pid_write (scaled p) ∷ calls) (some x.now)
              (get_pid_write (scaled p) calls) short in
          (last', rw (regulate_short x t calls last h, e) done)

      regulate_all-Splits :
          (ws : List (Window D)) (later : List (Round D)) (t : LinearSpeedTarget D) (p : D)
          (calls : List (TalonCall D)) (last : Option ℕ)
          → get calls ≡ p
          → Splits t.refresh_time t.dt_accum ws later
          → (last' : Option ℕ) × (regulate_all get (rounds ws ++ later) (driven t calls last)
              ≡ returns (driven (target_after t ws later) (calls_after t p ws later calls) last'))
      unfolding regulate_all
      regulate_all-Splits [] later t p calls last e short =
          let (last', done) = regulate_held later [] t p calls last e short in
          (
            last',
            ap (λ ys. regulate_all get ys (driven t calls last)) (sym (append-nil later)) ∙ done,
          )
      regulate_all-Splits (w ∷ ws) later t p calls last e (short, reached, split) =
          let t' = record t { dt_accum = total t.dt_accum w.held } in
          let (last1, held) =
            regulate_held w.held (w.last ∷ rounds ws ++ later) t p calls last e short in
          let q = window_power t p w in
          let (last', done) =
            regulate_all-Splits ws later (next_window t w) (sent q)
              (pid_write (scaled q) ∷ hold (length w.held) p calls) (some w.last.now)
              (get_pid_write (scaled q) _) split in
          (
            last',
            ap (λ ys. regulate_all get ys (driven t calls last))
                  (append_assoc w.held (w.last ∷ rounds ws) later)
                ∙ held
                ∙ rw
                    (
                      regulate_last w.last t' (hold (length w.held) p calls) last1 reached,
                      get-hold (length w.held) p calls e,
                    )
                    done,
          )

      -- Where Talon::Get returns what the last PIDWrite was given, as a float: whatever the runs of a
      -- speed controller that has its motor and an encoder, if the motor's processor executes what each
      -- of them enqueued, they all return. They fall into windows: a window ends with the first run at
      -- which the accumulated milliseconds reach the refresh time. A run before that forces the Talon's
      -- own speed on the motor, which scales and reverses it once more. The last run of a window forces
      -- the nearest valid power to the Talon's speed, divided by the target speed, times the turn since
      -- the last window, divided by the accumulated milliseconds; and the next window starts from there.
      pub regulate_all_lem :
          (xs : List (Round D)) (t : LinearSpeedTarget D) (calls : List (TalonCall D))
          (last : Option ℕ)
          → (ws : List (Window D)) × (later : List (Round D)) × (last' : Option ℕ) × (xs
              ≡ rounds ws ++ later)
            × Splits t.refresh_time t.dt_accum ws later
            × (regulate_all get xs (driven t calls last)
                ≡ returns (
                    driven
                      (target_after t ws later)
                      (calls_after t (get calls) ws later calls)
                      last'))
      regulate_all_lem xs t calls last =
          let (ws, later, e, split) = splits t.refresh_time t.dt_accum xs in
          let (last', done) = regulate_all-Splits ws later t (get calls) calls last refl split in
          (
            ws,
            later,
            last',
            e,
            split,
            ap (λ ys. regulate_all get ys (driven t calls last)) e ∙ done,
          )
