-- ===== src/CmdTimerWin32/Objects.antt =====
-- src/EventManager/CmdTimerWin32.h: the class CmdTimerWin32, a shared pointer to an implementation.
-- Copies of a timer are the same address, so an operation on one is seen by all.
use frc.Prelude.{ℕ, Bool, Option, none, ◌==◌, if◌then◌else◌}
use frc.Prelude.Int.{ℤ}
use frc.LogMacros.{Outcome, returns, ◌>>=◌}
use frc.CmdTimerWin32.{
  TimerOs, Timers, Impl, init_timers, new_impl, set_cmd, timer_is_running, start_relative,
  start_absolute, cancel,
}

-- The statics, the system, and the implementations at their addresses. Where no object was made yet
-- stands a timer that does not run.
pub record World (O : Type 0) : Type 0 where
  pub timers : Timers O
  pub impls : ℕ → Impl

abbrev pub put_impl : ℕ → Impl → (ℕ → Impl) → ℕ → Impl
put_impl p i impls q = if p == q then i else impls q

unfoldable pub new_world : {O : Type 0} → O → World O
new_world o = record { timers = init_timers o; impls = λ p. new_impl p none none }

-- The constructors without a duration, for an object at the address `p`.
unfoldable pub new_timer : {O : Type 0} → ℕ → Option ℕ → Option ℕ → World O → World O
new_timer p command multiplex w = record w {
  impls = put_impl p (new_impl p command multiplex) w.impls;
}

unfoldable pub set_cmd_of : {O : Type 0} → ℕ → Option ℕ → World O → World O
set_cmd_of p command w = record w { impls = put_impl p (set_cmd (w.impls p) command) w.impls }

unfoldable pub get_cmd : {O : Type 0} → ℕ → World O → Option ℕ
get_cmd p w = (w.impls p).cmd_to_invoke

unfoldable pub is_running : {O : Type 0} → ℕ → World O → Bool
is_running p w = timer_is_running (w.impls p)

-- A method of the implementation at `p`.
abbrev pub with_impl :
    {O : Type 0} → ℕ → (Timers O → Impl → Outcome (Timers O × Impl)) → World O → Outcome (World O)
with_impl p method w = do
  (t, i) ← method w.timers (w.impls p)
  returns (record { timers = t; impls = put_impl p i w.impls })

module _ {O : Type 0} (calls : TimerOs O) where
  unfoldable pub start_relative_at : ℕ → ℤ → World O → Outcome (World O)
  start_relative_at p delay = with_impl p λ t i. start_relative calls t i delay

  unfoldable pub start_absolute_at : ℕ → ℤ → ℤ → World O → Outcome (World O)
  start_absolute_at p now time = with_impl p λ t i. start_absolute calls t i now time

  unfoldable pub cancel_at : ℕ → World O → Outcome (World O)
  cancel_at p = with_impl p (cancel calls)

  -- The implementation's destructor. The memory then holds no running timer.
  unfoldable pub destroy : ℕ → World O → Outcome (World O)
  destroy p w = do
    w' ← cancel_at p w
    returns (record w' { impls = put_impl p (new_impl p none none) w'.impls })

  -- The constructor with a duration starts the timer. Where the start gets to `shared_from_this`,
  -- no shared pointer owns the object yet; the C++ of the source leaves open what happens then:
  -- `unowned`.
  unfoldable pub new_timer_started :
      Outcome (World O) → ℕ → Option ℕ → ℤ → World O → Outcome (World O)
  new_timer_started unowned p command delay w = do
    w' ← start_relative_at p delay (new_timer p command none w)
    unowned
