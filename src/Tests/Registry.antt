-- ===== src/Tests/Registry.antt =====
-- A history of two timers, over a system that keeps the identifiers that it gave.
use frc.Prelude.{
  ℕ, ◌+◌, ◌≡◌, ◌≢◌, refl, ◌⊎◌, inl, inr, List, [], ◌∷◌, Bool, true, false, Option, none, some,
  arith, contains,
}
use frc.Prelude.Int.{pos, ◌-ℤ◌}
use frc.LogMacros.{Outcome, returns, throws, robo_exception, null_access, Exception}
use frc.CmdTimerWin32.{
  TimerOs, Call, new_impl, timer_handler, fire, start_relative, start_absolute, timer_set_time,
  register, insert_id, insert_timer, next_unused, find_timer, init_timers, cancel, erase_timer,
  set_cmd, timer_is_running,
}
use frc.CmdTimerMultiplex.{CmdTimerMultiplex, new_multiplex, assign, lookup}
use frc.CmdTimerMultiplex.OnWin32.{start_on_win32, callbacks, works}
use frc.CmdTimerMultiplex.OnWin32.Repeats.{begun, start_on_win32-callbacks}
use frc.CmdTimerWin32.Objects.{
  World, put_impl, new_world, new_timer, set_cmd_of, get_cmd, is_running, start_relative_at,
  start_absolute_at, cancel_at, destroy, new_timer_started,
}
use frc.CmdTimerWin32.Registry.{IsTimerOs, IsConsistent}
use frc.CmdTimerWin32.History.{
  makes, starts_relative, after, Reachable, first, next, Reachable-IsConsistent,
  timer_handler-Reachable,
}

abbrev calls : TimerOs (List ℕ)
calls = record { set_timer = λ id milliseconds o. (id, id ∷ o); kill_timer = λ id o. (false, o) }

abbrev live : List ℕ → ℕ → Bool
live = contains

calls-IsTimerOs : IsTimerOs calls live
unfolding contains
calls-IsTimerOs = record {
  given = λ n ms o. inr (inl refl);
  made = λ n ms o nonzero. ground arith;
  kept = λ n ms k o h. ground arith;
  not_killed = λ id k o e h. h;
}

abbrev fresh : World (List ℕ)
fresh = new_world []

abbrev made : World (List ℕ)
made = new_timer 4 (some 6) none fresh

abbrev started : World (List ℕ)
started = record {
  timers = record {
    guaranteed_unused_id = 2;
    used_ids = 1 ∷ 0 ∷ [];
    id_to_timer_map = (1, 4) ∷ [];
    os = 1 ∷ [];
  };
  impls =
      put_impl 4 (record { address = 4; multiplex = none; cmd_to_invoke = some 6; timer_id = 1 })
        made.impls;
}

made_lem : after calls fresh (makes 4 (some 6) none) ≡ returns made
unfolding after
made_lem = refl

started_lem : after calls made (starts_relative 4 (pos 100)) ≡ returns started
unfolding after start_relative_at start_relative timer_set_time register insert_id insert_timer
    next_unused find_timer init_timers contains new_world new_timer new_impl
started_lem = refl

started-Reachable : Reachable calls started
unfolding new_world new_impl init_timers new_timer
started-Reachable =
    next made started (starts_relative 4 (pos 100))
      (next fresh made (makes 4 (some 6) none) (first []) refl made_lem) (omega arith) started_lem

history_example : IsConsistent live started
history_example = Reachable-IsConsistent calls live calls-IsTimerOs started started-Reachable

-- A command adds its address to the state.
abbrev call : Call ℕ
call c s = (s + c, none)

abbrev multiplex_fires : ℕ → ℕ → Option ℕ → ℕ → Outcome ℕ
multiplex_fires m p c s = returns s

callback_example :
    let called =
      timer_handler true call multiplex_fires started.impls started.timers.id_to_timer_map 1 5 in
    ((t : ℕ) × ((started.impls t).timer_id ≡ 1)
      × (called ≡ fire true call multiplex_fires (started.impls t) 5))
    ⊎ (((t : ℕ) → (started.impls t).timer_id ≢ 1) × (called ≡ returns 5))
callback_example =
    timer_handler-Reachable calls live calls-IsTimerOs true call multiplex_fires started 1 5
      started-Reachable (omega arith)

-- The running timer's methods: a second start moves it, a cancel that returns stops it.
methods_test :
    (is_running 4 started ≡ true)
    × (get_cmd 4 (set_cmd_of 4 (some 9) started) ≡ some 9)
    × (start_absolute_at calls 4 (pos 7) (pos 3) started ≡ throws robo_exception)
    × (new_timer_started calls null_access 5 (some 6) (pos 10) started ≡ null_access)
unfolding is_running timer_is_running get_cmd set_cmd_of set_cmd start_absolute_at start_absolute
    start_relative new_timer_started start_relative_at new_timer new_impl ◌-ℤ◌
methods_test = (refl, refl, refl, refl)

destroyed_os : Outcome (World (List ℕ)) → Option (List (ℕ × ℕ))
destroyed_os (returns w) = some w.timers.id_to_timer_map
destroyed_os _ = none

destroy_test :
    (destroyed_os (destroy calls 4 started) ≡ some [])
    × (destroyed_os (cancel_at calls 4 started) ≡ some [])
unfolding destroy cancel_at cancel erase_timer destroyed_os
destroy_test = (refl, refl)

-- A multiplex at 3 with no entries starts a timer at 4 that the system then calls back five times.
abbrev add_to : ℕ → ℕ → ℕ × Option Exception
add_to c s = (s + c, none)

repeats_example :
    let x = new_multiplex in
    let x1 = record x { timer_map = assign 4 8 x.timer_map } in
    let w1 = begun calls 3 4 6 100 fresh in
    (start_on_win32 {R = ℕ} calls 3 8 4 6 100 (x, (fresh, 0)) ≡ returns (x1, (w1, 0)))
    × (lookup 4 x1.timer_map ≡ some 8)
    × (is_running 4 w1 ≡ true)
    × ((y : CmdTimerMultiplex) × (callbacks true add_to 5 1 (x1, (w1, 0))
          ≡ returns (y, (w1, works add_to 5 6 0)))
        × (lookup 4 y.timer_map ≡ none))
unfolding new_multiplex new_world new_impl init_timers
repeats_example =
    start_on_win32-callbacks calls 3 4 6 100 fresh (first []) (omega arith) refl live
      calls-IsTimerOs (omega arith) true add_to (λ r. refl) 8 4 new_multiplex 0 tt

works_test : works add_to 5 6 0 ≡ 30
unfolding works
works_test = refl
