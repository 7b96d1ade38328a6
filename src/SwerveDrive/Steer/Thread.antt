-- ===== src/SwerveDrive/Steer/Thread.antt =====
-- `steer` of src/RobotMovement/SwerveDrive.cpp, and its handler on the thread of
-- src/EventManager/CmdProcessor.cpp.
use frc.Prelude.{
  ℕ, zero, suc, ◌<◌, ◌≤◌, ◌≡◌, refl, ap, sym, ◌∙◌, true, false, List, [], ◌∷◌, ◌++◌, none, some,
  arith, length, length-append, replicate, length-replicate, All,
}
use mathlib.Core.List.{append_assoc}
use mathlib.Core.Path.{subst}
use frc.Prelude.Int.{ℤ, abs_ℕ}
use frc.LogMacros.{Outcome, returns, throws, exits, null_access, other_exception}
use frc.Double.{Double}
use frc.Double.Grid.{Grid, grid, unit}
use frc.ListenerManager.{ListenerManager, get_raw_double}
use frc.ListenerManager.Keys.{joy1x, joy1y, joy2x}
use frc.ThreadSafeQueue.{ThreadSafeQueue}
use frc.CmdProcessor.{Cmd, waiting, CmdProcessor, enqueue, run_loop}
use frc.CmdProcessor.Order.{execute_all, execute_all-empty, execute_all-next, run_loop-execute_all}
use frc.SwerveDrive.Steer.{Cmath, SwerveDrive, Wheels, steer_handler}
use frc.SwerveDrive.Steer.Limits.{wheels}
use frc.SwerveDrive.Steer.Numbers.{IsCmath, is_number, steer_handler-speeds}

-- What the handler reads and changes. `set_to` is what it set the motors to, the latest first: the
-- targets of the three that turn the wheels and the speeds of the three that drive them.
pub record Shared (D : Type 0) : Type 0 where
  pub manager : ListenerManager D
  pub gyro : D
  pub encoders : Outcome (Wheels D)
  pub drive : SwerveDrive D
  pub set_to : List (Wheels D × Wheels D)

module _ {D : Type 0} ⦃d : Double D⦄ (c : Cmath D) where
  -- `steerHandler` as a command. Where it does not return it set no motor; the last two ends end the
  -- process, as an exception does that no handler takes.
  abbrev pub steer_command : Cmd (Shared D)
  steer_command s = elim (steer_handler c s.manager s.gyro s.encoders s.drive) [
    | returns (drive', motors, log) ↦
        (record s { drive = drive'; set_to = motors ∷ s.set_to }, none)
    | throws e ↦ (s, some e)
    | exits code ↦ (s, some other_exception)
    | null_access ↦ (s, some other_exception)
  ]

  unfoldable pub steer :
      (queues : ThreadSafeQueue (Cmd (Shared D))) → CmdProcessor queues → CmdProcessor queues
  steer queues p = enqueue queues steer_command p

-- No speed is over 1.
abbrev pub IsSlow : Wheels Grid × Wheels Grid → Type 0
IsSlow (targets, speeds) =
    (r : ℤ) × (l : ℤ) × (b : ℤ) × (speeds ≡ wheels r l b)
    × (abs_ℕ r ≤ unit)
    × (abs_ℕ l ≤ unit)
    × (abs_ℕ b ≤ unit)

All-append-one :
    (xs : List (Wheels Grid × Wheels Grid)) (x : Wheels Grid × Wheels Grid)
    → All IsSlow xs
    → IsSlow x
    → All IsSlow (xs ++ x ∷ [])
All-append-one [] x v h = (h, tt)
All-append-one (y ∷ xs) x (g, v) h = (g, All-append-one xs x v h)

module _ (m : ListenerManager Grid) (gyro e1 e2 e3 : ℤ) where
  -- The state of the thread, before and after each command.
  abbrev pub at : SwerveDrive Grid → List (Wheels Grid × Wheels Grid) → Shared Grid
  at s set_to = record {
    manager = m;
    gyro = some gyro;
    encoders = returns (wheels e1 e2 e3);
    drive = s;
    set_to = set_to;
  }

  -- So many commands later.
  abbrev pub Steered : ℕ → List (Wheels Grid × Wheels Grid) → Shared Grid → Type 0
  Steered n before s' =
      (s : SwerveDrive Grid) × (new : List (Wheels Grid × Wheels Grid)) × (s'
        ≡ at s (new ++ before))
      × (length new ≡ n)
      × All IsSlow new

module _ (c : Cmath Grid) (laws : IsCmath c) (m : ListenerManager Grid) (x y z gyro e1 e2 e3 : ℤ)
    (ex : get_raw_double m joy1x ≡ returns (some x, []))
    (ey : get_raw_double m joy1y ≡ returns (some y, []))
    (ez : get_raw_double m joy2x ≡ returns (some z, [])) where
  execute_all-steer_command :
      (n errors : ℕ) (s : SwerveDrive Grid) (before : List (Wheels Grid × Wheels Grid))
      → is_number s.theta ≡ true
      → (s' : Shared Grid) × (execute_all
            (replicate n (steer_command c))
            errors
            (at m gyro e1 e2 e3 s before)
          ≡ (waiting, errors, s'))
        × Steered m gyro e1 e2 e3 n before s'
  execute_all-steer_command zero errors s before h = (
    at m gyro e1 e2 e3 s before,
    execute_all-empty errors (at m gyro e1 e2 e3 s before),
    (s, [], refl, refl, tt),
  )
  execute_all-steer_command (suc n) errors s before h =
      let (s1, targets, r, l, b, e, h1, hr, hl, hb) =
        steer_handler-speeds c laws m x y z gyro e1 e2 e3 s ex ey ez h in
      let now : Wheels Grid × Wheels Grid = (targets, wheels r l b) in
      let first : steer_command c (at m gyro e1 e2 e3 s before)
          ≡ (at m gyro e1 e2 e3 s1 (now ∷ before), none) =
        rw (steer_command, e) refl in
      let (s', ran, (s2, new, is_at, many, slow)) =
        execute_all-steer_command n errors s1 (now ∷ before) h1 in
      (
        s',
        execute_all-next (steer_command c) (replicate n (steer_command c)) errors
              (at m gyro e1 e2 e3 s before) (at m gyro e1 e2 e3 s1 (now ∷ before)) first
            ∙ ran,
        (
          s2,
          new ++ now ∷ [],
          is_at ∙ ap (at m gyro e1 e2 e3 s2) (sym (append_assoc new (now ∷ []) before)),
          omega (arith, many, length-append new (now ∷ [])),
          All-append-one new now slow (r, l, b, refl, hr, hl, hb),
        ),
      )

  pub run_loop-speeds :
      (queues : ThreadSafeQueue (Cmd (Shared Grid))) (n fuel : ℕ) (p : CmdProcessor queues)
      (s : SwerveDrive Grid) (before : List (Wheels Grid × Wheels Grid))
      → queues.is_interrupted p.queue ≡ false
      → queues.items p.queue ≡ replicate n (steer_command c)
      → n < fuel
      → is_number s.theta ≡ true
      → let (status, p', s') = run_loop queues fuel p (at m gyro e1 e2 e3 s before) in
        (status ≡ waiting) × (p'.errors ≡ p.errors) × Steered m gyro e1 e2 e3 n before s'
  run_loop-speeds queues n fuel p s before open_ queued enough h =
      let (expected, run, steered) = execute_all-steer_command n p.errors s before h in
      let executed =
        run_loop-execute_all queues fuel p (at m gyro e1 e2 e3 s before) open_
          (omega (arith, ap length queued, length-replicate n (steer_command c))) in
      let ran = sym executed ∙ rw queued run in
      (
        ap (λ t. t.0) ran,
        ap (λ t. t.1) ran,
        subst (λ s'. Steered m gyro e1 e2 e3 n before s') (sym (ap (λ t. t.2) ran)) steered,
      )
