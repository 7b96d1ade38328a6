-- ===== src/CmdTimerMultiplex/OnWin32/Repeats.antt =====
-- A timer of a multiplex over the timers of Win32 goes on to fire.
use frc.Prelude.{ℕ, zero, suc, ◌≡◌, ◌≢◌, refl, ◌∙◌, Bool, true, false, Option, none, some, arith}
use frc.Prelude.Int.{pos}
use frc.LogMacros.{
  returns, Exception, robo_exception, std_exception, thread_interrupted, other_exception, catch_std,
}
use frc.CmdTimerWin32.{
  TimerOs, find_timer, uint, new_impl, timer_set_time, register, start_relative, timer_handler,
  fire, timer_is_running,
}
use frc.CmdTimerWin32.Objects.{World, put_impl, new_timer, start_relative_at, is_running}
use frc.CmdTimerWin32.Registry.{IsTimerOs}
use frc.CmdTimerWin32.History.{
  makes, starts_relative, after, Reachable, next, HasRoom, Reachable-IsConsistent,
}
use frc.CmdTimerMultiplex.{
  CmdTimerMultiplex, log_caught, assign, lookup, forget, start_timer, on_timer_fire,
}
use frc.CmdTimerMultiplex.Map.{log_caught-IsMap, IsMap, forget-Forgets, assign-IsMap, lookup-assign}
use frc.CmdTimerMultiplex.OnWin32.{State, start_on_win32, call, callback, callbacks, works}

-- Whether an exception is caught does not depend on the state.
caught :
    {S T : Type 0} (is_std : Bool) (s : S) (t : T) (e : Option Exception)
    → catch_std is_std (s, e) ≡ returns s
    → catch_std is_std (t, e) ≡ returns t
caught is_std s t none h = refl
caught is_std s t (some robo_exception) h = refl
caught is_std s t (some std_exception) h = refl
caught true s t (some thread_interrupted) h = refl
caught false s t (some thread_interrupted) h = absurd (cc)
caught is_std s t (some other_exception) h = absurd (cc)

module _ {O R : Type 0} (interrupt_is_std : Bool) (work : ℕ → R → R × Option Exception) where
  module _ (c : ℕ)
      (std : (r : R) → catch_std interrupt_is_std (work c r) ≡ returns (work c r).0) where
    -- The handler gets to the multiplex.
    fires :
        (p m : ℕ) (w : World O)
        → find_timer (w.impls p).timer_id w.timers.id_to_timer_map ≡ some p
        → (w.impls p).address ≡ p
        → (w.impls p).multiplex ≡ some m
        → (w.impls p).cmd_to_invoke ≡ some c
        → (s : State O R)
        → timer_handler interrupt_is_std
            (call work)
            (λ m' p' c' s'. on_timer_fire interrupt_is_std (call work) p' c' s')
            w.impls
            w.timers.id_to_timer_map
            (w.impls p).timer_id
            s
          ≡ on_timer_fire interrupt_is_std (call work) p (some c) s
    unfolding timer_handler fire
    fires p m w registered placed has_multiplex has_command s = ground arith

    on_fire :
        (p : ℕ) (x : CmdTimerMultiplex) (w : World O) (r : R)
        → on_timer_fire interrupt_is_std (call work) p (some c) (x, (w, r))
          ≡ returns (forget p (log_caught (work c r).1 x), (w, (work c r).0))
    unfolding on_timer_fire
    on_fire p x w r =
        let s' : State O R = (x, (w, (work c r).0)) in
        rw (caught interrupt_is_std (work c r).0 s' (work c r).1 (std r)) refl

    -- A callback for a timer of the multiplex.
    callback_fires :
        (p m : ℕ) (w : World O)
        → find_timer (w.impls p).timer_id w.timers.id_to_timer_map ≡ some p
        → (w.impls p).address ≡ p
        → (w.impls p).multiplex ≡ some m
        → (w.impls p).cmd_to_invoke ≡ some c
        → (x : CmdTimerMultiplex) (r : R)
        → callback interrupt_is_std work (w.impls p).timer_id (x, (w, r))
          ≡ returns (forget p (log_caught (work c r).1 x), (w, (work c r).0))
    unfolding callback
    callback_fires p m w registered placed has_multiplex has_command x r =
        fires p m w registered placed has_multiplex has_command (x, (w, r)) ∙ on_fire p x w r

    module _ (p m : ℕ) (w : World O)
        (registered : find_timer (w.impls p).timer_id w.timers.id_to_timer_map ≡ some p)
        (placed : (w.impls p).address ≡ p) (has_multiplex : (w.impls p).multiplex ≡ some m)
        (has_command : (w.impls p).cmd_to_invoke ≡ some c) where
      pub callbacks_lem :
          (n : ℕ) (x : CmdTimerMultiplex) (r : R)
          → IsMap x.timer_map
          → (y : CmdTimerMultiplex) × (callbacks interrupt_is_std work
                (suc n)
                (w.impls p).timer_id
                (x, (w, r))
              ≡ returns (y, (w, works work (suc n) c r)))
            × (lookup p y.timer_map ≡ none)
      unfolding callbacks works
      callbacks_lem zero x r v =
          let x1 = log_caught (work c r).1 x in
          let (v1, gone, log) = forget-Forgets p x1 (log_caught-IsMap (work c r).1 x v) in
          let fired = callback_fires p m w registered placed has_multiplex has_command x r in
          (forget p x1, rw fired refl, gone p ∙ ground arith)
      callbacks_lem (suc n) x r v =
          let x1 = log_caught (work c r).1 x in
          let (v1, gone, log) = forget-Forgets p x1 (log_caught-IsMap (work c r).1 x v) in
          let fired = callback_fires p m w registered placed has_multiplex has_command x r in
          let (y, done, empty) = callbacks_lem n (forget p x1) (work c r).0 v1 in
          (y, rw fired done, empty)

module _ {O : Type 0} (calls : TimerOs O) (self p command delay : ℕ) (w : World O) where
  abbrev made : World O
  made = new_timer p (some command) (some self) w

  abbrev asked : ℕ × O
  asked = calls.set_timer w.timers.guaranteed_unused_id (uint delay) w.timers.os

  -- The timers after the start.
  abbrev pub begun : World O
  begun =
      let i = new_impl p (some command) (some self) in
      record {
        timers = (register calls w.timers i asked.0 asked.1).0;
        impls = put_impl p (record i { timer_id = asked.0 }) made.impls;
      }

  begun_lem : start_relative_at calls p (pos delay) made ≡ returns begun
  unfolding start_relative_at start_relative timer_set_time new_timer new_impl register
  begun_lem = ground arith

  begin_lem :
      {R : Type 0} (timer : ℕ) (x : CmdTimerMultiplex) (r : R)
      → start_on_win32 calls self timer p command delay (x, (w, r))
        ≡ returns (record x { timer_map = assign p timer x.timer_map }, (begun, r))
  unfolding start_on_win32 start_timer
  begin_lem timer x r = rw begun_lem refl

  begun_parts :
      ((begun.impls p).timer_id ≡ asked.0)
      × ((begun.impls p).address ≡ p)
      × ((begun.impls p).multiplex ≡ some self)
      × ((begun.impls p).cmd_to_invoke ≡ some command)
  unfolding new_impl
  begun_parts = ground arith

  module _ (before : Reachable calls w) (room : HasRoom w) (idle : (w.impls p).timer_id ≡ 0) where
    begun-Reachable : Reachable calls begun
    unfolding after new_timer
    begun-Reachable =
        next made begun (starts_relative p (pos delay))
          (next w made (makes p (some command) (some self)) before idle refl) room begun_lem

    module _ (live : O → ℕ → Bool) (laws : IsTimerOs calls live) (given : asked.0 ≢ 0) where
      begun_registered : find_timer asked.0 begun.timers.id_to_timer_map ≡ some p
      unfolding new_timer new_impl
      begun_registered =
          let v = Reachable-IsConsistent calls live laws begun begun-Reachable in
          ground (arith, v.running p)

      begun_running : is_running p begun ≡ true
      unfolding is_running timer_is_running new_timer new_impl
      begun_running = ground arith

      -- A timer that a multiplex starts on Win32 is not a timer for one time. In every state of a
      -- history of the timers, where the object is new and the system makes the timer, startTimer
      -- returns, with the timer in the multiplex's map. Where the command throws nothing but standard
      -- exceptions and uses neither timers nor the multiplex, each callback of the system with the
      -- timer's identifier then invokes the command once more: after `suc n` callbacks it was invoked
      -- `suc n` times. From the first on the multiplex has no entry for the timer, but the timer runs,
      -- and the registry is what it was.
      pub start_on_win32-callbacks :
          {R : Type 0} (interrupt_is_std : Bool) (work : ℕ → R → R × Option Exception)
          (std : (r : R) → catch_std interrupt_is_std (work command r) ≡ returns (work command r).0)
          (timer n : ℕ) (x : CmdTimerMultiplex) (r : R)
          → IsMap x.timer_map
          → let x1 = record x { timer_map = assign p timer x.timer_map } in
            (start_on_win32 calls self timer p command delay (x, (w, r)) ≡ returns (x1, (begun, r)))
            × (lookup p x1.timer_map ≡ some timer)
            × (is_running p begun ≡ true)
            × ((y : CmdTimerMultiplex) × (callbacks interrupt_is_std work
                    (suc n)
                    asked.0
                    (x1, (begun, r))
                  ≡ returns (y, (begun, works work (suc n) command r)))
                × (lookup p y.timer_map ≡ none))
      start_on_win32-callbacks interrupt_is_std work std timer n x r v =
          let (same_id, placed, has_multiplex, has_command) = begun_parts in
          let x1 : CmdTimerMultiplex = record x { timer_map = assign p timer x.timer_map } in
          let v1 : IsMap x1.timer_map = assign-IsMap p timer x.timer_map v in
          let (y, done, gone) =
            callbacks_lem interrupt_is_std work command std p self begun
              (rw same_id begun_registered) placed has_multiplex has_command n x1 r v1 in
          (
            begin_lem timer x r,
            lookup-assign p timer p x.timer_map ∙ ground arith,
            begun_running,
            (y, rw same_id at done, gone),
          )
