-- ===== src/Tests/Threads.antt =====
-- Runs of the threads: the polling thread in teleop mode and until it is joined, and the processors'.
use frc.Prelude.{ℕ, ◌+◌, ◌≡◌, refl, ◌↔◌, List, [], ◌∷◌, true, false, none, some, arith, ◌==◌}
use frc.Prelude.Int.{pos, negsuc, ◌+ℤ◌, ◌-ℤ◌}
use frc.LogMacros.{returns, robo_exception}
use frc.Double.Grid.{Grid, grid, eq_comm}
use frc.ThreadSafeQueue.{list_queue}
use frc.CmdProcessor.{Cmd, waiting, handle, new_processor, enqueue, loop_pass, run_loop}
use frc.CmdProcessor.Progress.{enqueue_all, run_shared, Reaches, run_shared-Reaches}
use frc.ListenerManager.{Joystick, new_manager, poll_controls, run_cycle}
use frc.ListenerManager.Readings.{IsSized}
use frc.ListenerManager.Invoke.{is_triggered}
use frc.ListenerManager.Invocations.{record_call}
use frc.ListenerManager.Thread.{
  flag_waiter, Pass, up_to_last, any_last, destroy_if, run_thread, cycles, run_thread_lem,
}
use frc.Global.{new_robot, robot_init, teleop_init, teleop_commands, cock_start}
use frc.Global.Modes.{Event, robot, teleop, step, run}
use frc.Global.Teleop.{IsAmong, IsDone, teleop_iff}
use frc.ArcadeDrive.{new_arcade_drive, live}
use frc.ArcadeDrive.Asked.{IsPlain, Drives}
use frc.Motor.Control.{Readings}
use frc.Motor.Link.{
  MotorLink, new_motor_link, new_motor_link_plain, reverse_motor_impl, set_speed_scalar_impl,
  set_speed_impl, pid_write, process, run_cmd,
}
use frc.Motor.Link.Thread.{process_all}
use frc.ArcadeDrive.Steering.{Shared, steer, steers, steer_lem}

abbrev a_held : Joystick Grid
a_held = record { raw_button = λ b. b == 1; raw_axis = λ a. some (pos 512) }

abbrev started : List (Event Grid)
started = robot ∷ teleop ∷ []

teleop_example :
    IsDone eq_comm
      (λ ls. ls)
      (λ ls l. refl)
      (λ l. some robo_exception)
      a_held
      (run new_robot started)
      cock_start
    ↔ ((k : ℕ) × (is_triggered
            (run new_robot started).global.listener_manager
            (poll_controls a_held).0
            (poll_controls a_held).1
            k
          ≡ true)
        × IsAmong {D = Grid} k cock_start teleop_commands)
unfolding run step teleop_init new_robot robot_init
teleop_example =
    teleop_iff eq_comm (λ ls. ls) (λ ls l. refl) (λ l. some robo_exception) started a_held
      cock_start refl

abbrev double : Cmd ℕ
double n = (n + n, none)

abbrev fail : Cmd ℕ
fail n = (n + 1, some robo_exception)

shared_example : Reaches (list_queue (Cmd ℕ)) (fail ∷ double ∷ []) 0 3 (
    run_shared
      (list_queue (Cmd ℕ))
      ((fail ∷ []) ∷ [] ∷ [])
      (record { queue = (fail ∷ double ∷ fail ∷ [], false); errors = 0 })
      3)
shared_example =
    run_shared-Reaches (list_queue (Cmd ℕ)) ((fail ∷ []) ∷ [] ∷ []) (fail ∷ double ∷ []) (fail ∷ [])
      (record { queue = (fail ∷ double ∷ fail ∷ [], false); errors = 0 }) 3 refl refl refl

shared_test :
    (run_shared
      (list_queue (Cmd ℕ))
      ((fail ∷ []) ∷ [] ∷ [])
      (record { queue = (double ∷ double ∷ [], false); errors = 0 })
      3).2
    ≡ 12
unfolding run_shared enqueue_all enqueue loop_pass handle
shared_test = refl

abbrev passes : List (Pass Grid)
passes =
    record { joystick = a_held; is_last = false }
    ∷ record { joystick = a_held; is_last = true }
    ∷ record { joystick = a_held; is_last = false }
    ∷ []

thread_example :
    let run =
      run_thread (λ ls. ls) (record_call (λ l. none)) flag_waiter passes false (new_manager, []) in
    let expected =
      cycles
        (λ ls. ls)
        (record_call (λ l. none))
        flag_waiter
        (up_to_last passes)
        (new_manager, []) in
    (run.has_returned ≡ any_last passes) × (run.state ≡ expected.0) × (run.log ≡ expected.1)
thread_example =
    run_thread_lem (λ ls. ls) (record_call (λ l. none)) flag_waiter passes false (new_manager, [])
      refl

thread_test :
    (run_thread
      (λ ls. ls)
      (record_call (λ l. none))
      flag_waiter
      passes
      false
      (new_manager, [])).has_returned
    ≡ true
unfolding run_thread destroy_if
thread_test = refl

new_manager-IsSized : IsSized (new_manager {D = Grid})
unfolding new_manager
new_manager-IsSized = record { buttons = refl; axes = refl }

abbrev quiet : Readings Grid
quiet = record { encoder_angle = none; talon_speed = some (pos 0) }

new_motor-IsPlain : IsPlain new_motor_link_plain
unfolding new_motor_link_plain new_motor_link
new_motor-IsPlain = (refl, refl, refl, refl)

drive_example :
    let m = (run_cycle new_manager a_held).0 in
    let (status, p, (m', a, (l, r))) =
      run_loop
        (list_queue (Cmd (Shared Grid)))
        4
        (steers (list_queue (Cmd (Shared Grid))) 2 (new_processor (list_queue (Cmd (Shared Grid)))))
        (m, new_arcade_drive, (new_motor_link_plain, new_motor_link_plain)) in
    (status ≡ waiting)
    × (p.errors ≡ 0)
    × (m' ≡ m)
    × Drives quiet 2 (live (pos 512) +ℤ live (pos 512)) (new_motor_link_plain {D = Grid}).talon l
    × Drives quiet 2 (live (pos 512) -ℤ live (pos 512)) (new_motor_link_plain {D = Grid}).talon r
drive_example =
    steer_lem (list_queue (Cmd (Shared Grid))) 1 4 new_manager a_held (pos 512) (pos 512)
      new_arcade_drive new_motor_link_plain new_motor_link_plain quiet quiet new_manager-IsSized
      refl refl (omega arith) new_motor-IsPlain new_motor-IsPlain

steer_test :
    (steer (list_queue (Cmd (Shared Grid))) (new_processor (list_queue (Cmd (Shared Grid))))).errors
    ≡ 0
unfolding steer enqueue new_processor
steer_test = refl

-- Three commands wait on a motor: it is reversed, scaled by a half, and set to full speed.
abbrev asked_motor : MotorLink Grid
asked_motor = record (new_motor_link_plain {D = Grid}) {
  queue =
      reverse_motor_impl
      ∷ set_speed_scalar_impl (some (pos 512))
      ∷ set_speed_impl (some (pos 1024))
      ∷ [];
}

abbrev processed : MotorLink Grid
processed = record {
  encoder = none;
  spd_control = none;
  spd_control_enabled = false;
  motor_reversed = true;
  speed_scalar = some (pos 512);
  queue = [];
  talon = pid_write (some (negsuc 511)) ∷ [];
  log = [];
}

process_all_test : process_all quiet 3 asked_motor ≡ returns processed
unfolding process_all process run_cmd new_motor_link_plain new_motor_link
process_all_test = refl
