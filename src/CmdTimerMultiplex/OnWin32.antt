-- ===== src/CmdTimerMultiplex/OnWin32.antt =====
-- A CmdTimerMultiplex over the timers of CmdTimerWin32, from startTimer to the system's callbacks.
pub mod Repeats
use frc.Prelude.{ℕ, zero, suc, Bool, Option, some}
use frc.Prelude.Int.{pos}
use frc.LogMacros.{Outcome, returns, Exception, ◌>>=◌}
use frc.CmdTimerWin32.{TimerOs, timer_handler}
use frc.CmdTimerWin32.Objects.{World, new_timer, start_relative_at}
use frc.CmdTimerMultiplex.{CmdTimerMultiplex, start_timer, on_timer_fire}

-- The rest of a program over the timers and the state that commands act on, `R`.
abbrev pub State : Type 0 → Type 0 → Type 0
State O R = CmdTimerMultiplex × (World O × R)

-- startTimer with a delay, for a multiplex at `self`: a new timer with it, at `p`, is started.
unfoldable pub start_on_win32 :
    {O R : Type 0} → TimerOs O → (self timer p command delay : ℕ) → State O R → Outcome (State O R)
start_on_win32 calls self timer p command delay =
    start_timer
      (λ (w, r). do
        w' ← start_relative_at calls p (pos delay) (new_timer p (some command) (some self) w)
        returns (w', r))
      timer p

-- What a command does in as many calls.
unfoldable pub works : {R : Type 0} → (ℕ → R → R × Option Exception) → ℕ → ℕ → R → R
works work zero c r = r
works work (suc n) c r = works work n c (work c r).0

-- A command that uses neither timers nor the multiplex.
abbrev pub call :
    {O R : Type 0} → (ℕ → R → R × Option Exception) → ℕ → State O R → State O R × Option Exception
call work c (x, (w, r)) = ((x, (w, (work c r).0)), (work c r).1)

module _ {O R : Type 0} (interrupt_is_std : Bool) (work : ℕ → R → R × Option Exception) where
  -- The system's callback with an identifier, as often as given, for timers of one multiplex.
  unfoldable pub callback : ℕ → State O R → Outcome (State O R)
  callback id (x, (w, r)) =
      timer_handler interrupt_is_std (call work)
        (λ m p c s. on_timer_fire interrupt_is_std (call work) p c s) w.impls
        w.timers.id_to_timer_map id (x, (w, r))

  unfoldable pub callbacks : ℕ → ℕ → State O R → Outcome (State O R)
  callbacks zero id s = returns s
  callbacks (suc n) id s = callback id s >>= callbacks n id
