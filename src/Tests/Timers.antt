-- ===== src/Tests/Timers.antt =====
-- Runs of the timers, over a system that gives the identifier that it is asked for.
use frc.Prelude.{
  ℕ, ◌≡◌, ◌+◌, refl, ◌↔◌, [], ◌∷◌, true, false, Option, none, some, ◌==◌, if◌then◌else◌, contains,
}
use frc.Prelude.Int.{pos}
use frc.LogMacros.{Outcome, returns, exits, Exception}
use frc.CmdTimerWin32.{
  TimerOs, Timers, Impl, Call, next_unused, find_timer, init_timers, timer_set_time, cancel,
  timer_is_running, fire, timer_handler, start_relative, new_impl, insert_timer, insert_id,
  register, erase_id, erase_timer,
}
use frc.CmdTimerWin32.Ids.{init_timers-Inv}
use frc.CmdTimerWin32.Dispatch.{timer_handler-timer_set_time, timer_handler-cancel, cancel-exits}
use frc.CmdTimerMultiplex.{CmdTimerMultiplex, start_timer, on_timer_fire, lookup}
use frc.CmdTimerMultiplex.Map.{IsMap, Forgets, on_timer_fire-Forgets, start_timer_lem}

-- The system counts its calls, and KillTimer fails.
abbrev calls : TimerOs ℕ
calls = record { set_timer = λ id milliseconds o. (id, o + 1); kill_timer = λ id o. (false, o + 1) }

abbrev timers : Timers ℕ
timers = init_timers 0

abbrev idle : Impl
idle = new_impl 4 (some 6) none

abbrev running : Impl
running = record idle { timer_id = 1 }

abbrev one_running : Timers ℕ
one_running = record {
  guaranteed_unused_id = 2;
  used_ids = 1 ∷ 0 ∷ [];
  id_to_timer_map = (1, 4) ∷ [];
  os = 1;
}

-- A command adds its address to the state.
abbrev call : Call ℕ
call c s = (s + c, none)

abbrev multiplex_fires : ℕ → ℕ → Option ℕ → ℕ → Outcome ℕ
multiplex_fires m p c s = returns s

next_unused_test : next_unused 4 (2 ∷ 1 ∷ 0 ∷ []) 1 ≡ 3
unfolding next_unused contains
next_unused_test = refl

timer_set_time_test : timer_set_time calls timers idle 100 ≡ (one_running, running)
unfolding timer_set_time register init_timers next_unused insert_id insert_timer find_timer contains
    new_impl
timer_set_time_test = refl

start_relative_test : start_relative calls timers idle (pos 100) ≡ returns (one_running, running)
unfolding start_relative timer_set_time register init_timers next_unused insert_id insert_timer
    find_timer contains new_impl
start_relative_test = refl

cancelled_lem :
    cancel calls one_running running
    ≡ returns
        (record { guaranteed_unused_id = 2; used_ids = 0 ∷ []; id_to_timer_map = []; os = 2 }, idle)
unfolding cancel erase_id erase_timer new_impl
cancelled_lem = refl

abbrev after_cancel : Timers ℕ
after_cancel = record { guaranteed_unused_id = 2; used_ids = 0 ∷ []; id_to_timer_map = []; os = 2 }

timer_handler_test :
    let started = timer_set_time calls timers idle 100 in
    (started.1.timer_id ≡ 1)
    × (timer_handler true call multiplex_fires (λ t. idle) started.0.id_to_timer_map 1 5 ≡ (
        if 1 == 1
        then fire true call multiplex_fires idle 5
        else timer_handler true call multiplex_fires (λ t. idle) timers.id_to_timer_map 1 5))
unfolding init_timers new_impl contains
timer_handler_test =
    timer_handler-timer_set_time calls true call multiplex_fires timers idle (λ t. idle) 100 1 1 5
      (init_timers-Inv 0) refl refl refl

timer_handler_cancel_test :
    (timer_is_running idle ≡ false)
    × (timer_handler true call multiplex_fires (λ t. idle) after_cancel.id_to_timer_map 1 5 ≡ (
        if 1 == 1
        then returns 5
        else timer_handler true call multiplex_fires (λ t. idle) one_running.id_to_timer_map 1 5))
timer_handler_cancel_test =
    timer_handler-cancel calls true call multiplex_fires one_running running (λ t. idle)
      after_cancel idle 1 5 cancelled_lem

cancel_exits_test :
    (cancel calls one_running running ≡ exits 2)
    ↔ ((calls.kill_timer running.timer_id one_running.os).0 ≡ true)
cancel_exits_test = cancel-exits calls one_running running

abbrev multiplex : CmdTimerMultiplex
multiplex = record { timer_map = (4, 9) ∷ []; log = [] }

abbrev call_of_multiplex : ℕ → CmdTimerMultiplex × ℕ → (CmdTimerMultiplex × ℕ) × Option Exception
call_of_multiplex c (x, s) = ((x, s + c), none)

on_timer_fire_example :
    (y : CmdTimerMultiplex) × (on_timer_fire true call_of_multiplex 4 (some 6) (multiplex, 1)
      ≡ returns (y, 7))
    × Forgets 4 multiplex y
unfolding lookup
on_timer_fire_example =
    on_timer_fire-Forgets true call_of_multiplex 4 6 (multiplex, 1) (multiplex, 7) refl (refl, tt)

start_timer_result_test :
    (y : CmdTimerMultiplex) × (start_timer {S = ℕ} (λ s. returns (s + 1)) 9 5 (multiplex, 1)
      ≡ returns (y, 2))
    × IsMap y.timer_map
    × ((q : ℕ) → lookup q y.timer_map ≡ (if 5 == q then some 9 else lookup q multiplex.timer_map))
unfolding lookup
start_timer_result_test =
    start_timer_lem {S = ℕ} (λ s. returns (s + 1)) 9 5 multiplex 1 2 (refl, tt) refl
