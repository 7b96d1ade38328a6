-- ===== src/Tests/Listeners.antt =====
-- Runs of the listener manager: a controller on which the button A is held.
use frc.Prelude.{
  ℕ, ◌≡◌, ◌≤◌, refl, ◌↔◌, ◌⊎◌, List, [], ◌∷◌, Bool, true, false, arith, ◌==◌, replicate, contains,
  Distinct, get_or, ◌+◌, if◌then◌else◌, some,
}
use frc.Prelude.Int.{pos}
use frc.LogMacros.{recoverable, returns, throws, robo_exception}
use frc.ListenerManager.Invocations.{invoke_all, cycle, record_call, cycle_iff}
use frc.Double.Grid.{eq_comm, Grid, grid}
use frc.ListenerManager.{
  Joystick, ListenerManager, find_listeners, insert_all, erase_listeners, is_pressed, has_moved,
  collect_buttons, collect_axes, bools_ne, doubles_ne, listeners_to_invoke, new_manager,
  add_listener, remove_all_listeners, remove_all_listeners_for_control, get_raw_bool,
  get_raw_double, poll_controls, run_cycle, fill, at_or_log,
}
use frc.ListenerManager.Keys.{code, adown, aup, joy1x}
use frc.ListenerManager.Invoke.{is_triggered, listeners_to_invoke_iff, listeners_to_invoke-Distinct}
use frc.ListenerManager.Readings.{
  IsSized, ReadsAxis, axis_of, get_raw_bool-run_cycle, get_raw_double-run_cycle,
}
use frc.ListenerManager.History.{
  poll, add, clear, run, run-new_manager-IsSized, find-remove_all_listeners_for_control,
  release_invokes_nothing,
}

abbrev a_held : Joystick Grid
a_held = record { raw_button = λ b. b == 1; raw_axis = λ a. some (pos 0) }

abbrev nothing_held : Joystick Grid
nothing_held = record { raw_button = λ b. false; raw_axis = λ a. some (pos 0) }

-- Listeners on the press and on the release of A, and on an axis.
abbrev manager : ListenerManager Grid
manager = record {
  listeners = (1, 7) ∷ (21, 8) ∷ (11, 9) ∷ [];
  joystick_values = replicate 16 (some (pos 0));
  button_values = replicate 11 false;
}

-- The same when A is held already.
abbrev holding : ListenerManager Grid
holding = record {
  listeners = (1, 7) ∷ (21, 8) ∷ (11, 9) ∷ [];
  joystick_values = replicate 16 (some (pos 0));
  button_values = false ∷ true ∷ replicate 9 false;
}

manager-IsSized : IsSized manager
manager-IsSized = record { buttons = refl; axes = refl }

abbrev buttons : List Bool
buttons = false ∷ true ∷ replicate 9 false

abbrev axes : List Grid
axes = replicate 16 (some (pos 0))

-- A press runs the listeners of the press and of the release.
run_cycle_test : (run_cycle manager a_held).1 ≡ 8 ∷ 7 ∷ []
unfolding run_cycle poll_controls fill bools_ne doubles_ne listeners_to_invoke collect_buttons
    collect_axes is_pressed has_moved find_listeners insert_all contains
run_cycle_test = refl

listeners_to_invoke_test : (contains (listeners_to_invoke manager (buttons, axes)) 8 ≡ true) ↔ (
    (k : ℕ) × (is_triggered manager buttons axes k ≡ true)
    × (contains (find_listeners k manager.listeners) 8 ≡ true))
listeners_to_invoke_test = listeners_to_invoke_iff manager buttons axes 8

listeners_to_invoke-Distinct_test : Distinct (listeners_to_invoke manager (buttons, axes))
listeners_to_invoke-Distinct_test = listeners_to_invoke-Distinct manager buttons axes

get_raw_bool_example : get_raw_bool (run_cycle manager a_held).0 aup ≡ returns (true, [])
get_raw_bool_example = get_raw_bool-run_cycle manager a_held aup

get_raw_double_example :
    ReadsAxis a_held (get_raw_double (run_cycle manager a_held).0 joy1x) (axis_of joy1x)
get_raw_double_example = get_raw_double-run_cycle manager a_held joy1x manager-IsSized

run_test : IsSized (run (new_manager {D = Grid}) (add adown 7 ∷ poll a_held ∷ clear ∷ []))
run_test = run-new_manager-IsSized (add adown 7 ∷ poll a_held ∷ clear ∷ [])

remove_all_listeners_for_control_test :
    find_listeners (code aup) (remove_all_listeners_for_control manager adown).listeners
    ≡ (if code adown == code aup then [] else find_listeners (code aup) manager.listeners)
remove_all_listeners_for_control_test = find-remove_all_listeners_for_control manager adown aup

one_to_five : (a : ℕ) → 1 ≤ a → a ≤ 5 → (a ≡ 1) ⊎ (a ≡ 2) ⊎ (a ≡ 3) ⊎ (a ≡ 4) ⊎ (a ≡ 5)
one_to_five a low high = omega arith

still :
    (a : ℕ)
    → 1 ≤ a
    → a ≤ 5
    → grid.eq (get_or holding.joystick_values (a + 10) (some (pos 0))) (nothing_held.raw_axis a)
      ≡ true
still a low high = ground (arith, one_to_five a low high)

-- The registrations of a manager, and the getters' errors.
add_listener_test :
    (remove_all_listeners (add_listener {D = Grid} new_manager adown 7)).listeners ≡ []
unfolding remove_all_listeners
add_listener_test = refl

erase_test :
    (remove_all_listeners_for_control (add_listener {D = Grid} new_manager adown 7) adown).listeners
    ≡ []
unfolding remove_all_listeners_for_control erase_listeners add_listener new_manager
erase_test = refl

get_raw_test :
    (get_raw_bool manager joy1x ≡ throws robo_exception)
    × (get_raw_double manager adown ≡ throws robo_exception)
unfolding get_raw_bool get_raw_double
get_raw_test = (refl, refl)

at_or_log_test : at_or_log {A = ℕ} (1 ∷ []) 3 0 ≡ returns (0, recoverable ∷ [])
unfolding at_or_log
at_or_log_test = refl

release_example : (run_cycle holding nothing_held).1 ≡ []
release_example = release_invokes_nothing holding nothing_held (λ b low high h. ground arith) still

-- Both listeners are called although the first throws.
cycle_test :
    (cycle (λ ls. ls) (record_call (λ l. some robo_exception)) a_held (manager, [])).1
    ≡ recoverable ∷ recoverable ∷ []
unfolding cycle invoke_all run_cycle poll_controls fill bools_ne doubles_ne listeners_to_invoke
    collect_buttons collect_axes is_pressed has_moved find_listeners insert_all contains
cycle_test = refl

cycle_example :
    (contains (cycle (λ ls. ls) (record_call (λ l. some robo_exception)) a_held (manager, [])).0.1 8
      ≡ true)
    ↔ ((k : ℕ) × (is_triggered manager (poll_controls a_held).0 (poll_controls a_held).1 k ≡ true)
        × (contains (find_listeners k manager.listeners) 8 ≡ true))
cycle_example =
    cycle_iff eq_comm (λ ls. ls) (λ l. some robo_exception) manager a_held 8 (λ ls. refl)
