-- ===== src/ArcadeDrive/Steering.antt =====
-- From the polled joystick to the two drive motors: src/EventManager/ListenerManager.cpp, the queue of
-- src/EventManager/CmdProcessor.h, and the handler of src/RobotMovement/ArcadeDrive.cpp on its thread.
use frc.Prelude.{
  ℕ, zero, suc, ◌<◌, ◌≡◌, refl, ap, sym, ◌∙◌, false, [], ◌++◌, none, some, arith, length, inl, inr,
  true, replicate, length-replicate,
}
use frc.Prelude.Int.{ℤ, eq_of_parts, ◌+ℤ◌, ◌-ℤ◌}
use frc.LogMacros.{◌>>=◌, returns, throws, exits, null_access, other_exception}
use frc.Double.{Double}
use frc.Double.Grid.{Grid, grid}
use frc.ListenerManager.{ListenerManager, Joystick, run_cycle, get_raw_double}
use frc.ListenerManager.Keys.{joy1x, joy1y}
use frc.ListenerManager.Readings.{IsSized, Reads, get_raw_double-run_cycle}
use frc.ThreadSafeQueue.{ThreadSafeQueue}
use frc.CmdProcessor.{Cmd, Status, waiting, CmdProcessor, new_processor, enqueue, run_loop}
use frc.CmdProcessor.Progress.{enqueue_all, items-enqueue_all, kept_by_enqueue_all}
use frc.CmdProcessor.Order.{execute_all, execute_all-empty, execute_all-next, run_loop-execute_all}
use frc.ArcadeDrive.{ArcadeDrive, steer_handler, live, steer_speeds_lem}
use frc.Motor.Control.{Readings}
use frc.Motor.Link.{MotorLink, set_speed, set_speed_force}
use frc.ArcadeDrive.Asked.{
  asked, set_speed-off, set_speed_force-enabled, IsPlain, Drives, asked-Drives,
}

-- The state that the commands of the drive's thread change: the manager that they read, the drive, and
-- the left and the right motor.
abbrev pub Shared : Type 0 → Type 0
Shared D = ListenerManager D × ArcadeDrive D × (MotorLink D × MotorLink D)

module _ {D : Type 0} ⦃d : Double D⦄ where
  -- `steerHandler` as a command. An exception comes from a read of an axis and leaves the rest as
  -- it was. The other two ends would end the process, as an exception does that no handler takes.
  abbrev pub steer_command : Cmd (Shared D)
  steer_command (m, a, motors) = elim (steer_handler m motors) [
    | returns (a', motors', log) ↦ ((m, a', motors'), none)
    | throws e ↦ ((m, a, motors), some e)
    | exits code ↦ ((m, a, motors), some other_exception)
    | null_access ↦ ((m, a, motors), some other_exception)
  ]

  module _ (m : ListenerManager D) (a' : ArcadeDrive D)
      (reads : (left right : MotorLink D)
        → steer_handler m (left, right) ≡ (
            set_speed a'.spd_l left >>= λ l.
            set_speed a'.spd_r right >>= λ r. returns (a', (l, r), []))) where
    handled :
        (a : ArcadeDrive D) (l r : MotorLink D)
        → l.spd_control_enabled ≡ false
        → r.spd_control_enabled ≡ false
        → steer_command (m, a, (l, r))
          ≡ ((m, a', (set_speed_force a'.spd_l l, set_speed_force a'.spd_r r)), none)
    handled a l r off_l off_r =
        rw
          (steer_command, reads l r, set_speed-off a'.spd_l l off_l, set_speed-off a'.spd_r r off_r)
          refl

    execute_all-steer_command :
        (n errors : ℕ) (a : ArcadeDrive D) (l r : MotorLink D)
        → l.spd_control_enabled ≡ false
        → r.spd_control_enabled ≡ false
        → execute_all (replicate (suc n) steer_command) errors (m, a, (l, r))
          ≡ (waiting, errors, (m, a', (asked (suc n) a'.spd_l l, asked (suc n) a'.spd_r r)))
    execute_all-steer_command zero errors a l r off_l off_r =
        execute_all-next steer_command [] errors (m, a, (l, r)) _ (handled a l r off_l off_r)
        ∙ execute_all-empty errors _
    execute_all-steer_command (suc n) errors a l r off_l off_r =
        execute_all-next steer_command (replicate (suc n) steer_command) errors (m, a, (l, r)) _
          (handled a l r off_l off_r)
        ∙ execute_all-steer_command n errors a' (set_speed_force a'.spd_l l)
            (set_speed_force a'.spd_r r) (set_speed_force-enabled a'.spd_l l ∙ off_l)
            (set_speed_force-enabled a'.spd_r r ∙ off_r)

  module _ (queues : ThreadSafeQueue (Cmd (Shared D))) where
    open queues use {items, is_interrupted}

    unfoldable pub steer : CmdProcessor queues → CmdProcessor queues
    steer p = enqueue queues steer_command p

    abbrev pub steers : ℕ → CmdProcessor queues → CmdProcessor queues
    steers zero p = p
    steers (suc n) p = steers n (steer p)

    steers-enqueue_all :
        (n : ℕ) (p : CmdProcessor queues)
        → steers n p ≡ enqueue_all queues (replicate n steer_command) p
    unfolding steer enqueue_all
    steers-enqueue_all zero p = refl
    steers-enqueue_all (suc n) p = steers-enqueue_all n (steer p)

    -- The queue of the new processor after `n` calls of steer.
    queued :
        (n : ℕ)
        → (items (steers n (new_processor queues)).queue ≡ replicate n steer_command)
          × (is_interrupted (steers n (new_processor queues)).queue ≡ false)
          × ((steers n (new_processor queues)).errors ≡ 0)
    unfolding new_processor
    queued n =
        let cs = replicate n steer_command in
        let p = new_processor queues in
        let (errors, open_) = kept_by_enqueue_all queues cs p in
        rw (steers-enqueue_all n p) (
          items-enqueue_all queues cs p ∙ ap (λ xs. xs ++ cs) queues.items-empty,
          open_ ∙ queues.is_interrupted-empty,
          errors,
        )

grid_eq : (x y : Grid) → grid.eq x y ≡ true → y ≡ x
grid_eq (some x) (some y) h = ap some (eq_of_parts y x (ground arith))
grid_eq (some x) none h = cc
grid_eq none y h = cc

Reads-eq : (x y : Grid) → Reads x y → y ≡ x
Reads-eq x y (inl e) = e
Reads-eq x y (inr e) = grid_eq x y e

-- Where the manager returns the two axes of the first joystick and logs nothing.
steer_handler_lem :
    (m : ListenerManager Grid) (x y : ℤ)
    → get_raw_double m joy1x ≡ returns (some x, [])
    → get_raw_double m joy1y ≡ returns (some y, [])
    → let a' : ArcadeDrive Grid = record {
      spd_l = some (live x +ℤ live y);
      spd_r = some (live x -ℤ live y);
    } in
      (left right : MotorLink Grid)
      → steer_handler m (left, right) ≡ (
          set_speed a'.spd_l left >>= λ l.
          set_speed a'.spd_r right >>= λ r. returns (a', (l, r), []))
unfolding steer_handler
steer_handler_lem m x y ex ey left right = rw (ex, ey, steer_speeds_lem x y) refl

-- On the exact grid, from the joystick to the Talons: after a poll that finds the first joystick at
-- `x` and `y`, and after any number of calls of steer but none, as many passes of the drive's
-- thread as there were calls, and one more, leave it waiting, with nothing logged; and where the
-- two motors were plain, after as many commands on each motor's thread the latest calls of its
-- Talon are the sum of the two positions on the left and the difference on the right, once for each
-- call of steer. A position in its dead zone counts as 0.
pub steer_lem :
    (queues : ThreadSafeQueue (Cmd (Shared Grid))) (n fuel : ℕ) (m : ListenerManager Grid)
    (j : Joystick Grid) (x y : ℤ) (a : ArcadeDrive Grid) (l r : MotorLink Grid)
    (readings_l readings_r : Readings Grid)
    → IsSized m
    → j.raw_axis 1 ≡ some x
    → j.raw_axis 4 ≡ some y
    → suc n < fuel
    → IsPlain l
    → IsPlain r
    → let m' = (run_cycle m j).0 in
      let (status, p, (m'', a', (l', r'))) =
        run_loop queues fuel (steers queues (suc n) (new_processor queues)) (m', a, (l, r)) in
      (status ≡ waiting)
      × (p.errors ≡ 0)
      × (m'' ≡ m')
      × Drives readings_l (suc n) (live x +ℤ live y) l.talon l'
      × Drives readings_r (suc n) (live x -ℤ live y) r.talon r'
steer_lem queues n fuel m j x y a l r readings_l readings_r sized ex ey enough plain_l plain_r =
    let (x', read_x, is_x) = get_raw_double-run_cycle m j joy1x sized in
    let (y', read_y, is_y) = get_raw_double-run_cycle m j joy1y sized in
    let reads =
      steer_handler_lem (run_cycle m j).0 x y
        (read_x ∙ ap (λ v. returns (v, [])) (Reads-eq _ _ is_x ∙ ex))
        (read_y ∙ ap (λ v. returns (v, [])) (Reads-eq _ _ is_y ∙ ey)) in
    let (as_queued, running, none_logged) = queued queues (suc n) in
    let executed =
      run_loop-execute_all queues fuel (steers queues (suc n) (new_processor queues))
        ((run_cycle m j).0, a, (l, r)) running
        (omega (arith, ap length as_queued, length-replicate (suc n) steer_command)) in
    let a' : ArcadeDrive Grid = record {
      spd_l = some (live x +ℤ live y);
      spd_r = some (live x -ℤ live y);
    } in
    let expected =
      execute_all-steer_command (run_cycle m j).0 a' reads n 0 a l r plain_l.1 plain_r.1 in
    let end =
      run_loop queues fuel (steers queues (suc n) (new_processor queues))
        ((run_cycle m j).0, a, (l, r)) in
    let ran : ◌≡◌ {A = Status × ℕ × Shared Grid} (end.0, end.1.errors, end.2)
        (
          waiting,
          0,
          ((run_cycle m j).0, a', (asked (suc n) a'.spd_l l, asked (suc n) a'.spd_r r)),
        ) =
      sym executed ∙ rw (as_queued, none_logged) expected in
    (
      ap (λ t. t.0) ran,
      ap (λ t. t.1) ran,
      ap (λ t. t.2.0) ran,
      rw (ap (λ t. t.2.2.0) ran) (asked-Drives readings_l (suc n) (live x +ℤ live y) l plain_l),
      rw (ap (λ t. t.2.2.1) ran) (asked-Drives readings_r (suc n) (live x -ℤ live y) r plain_r),
    )
