-- ===== src/CmdTimerMultiplex.antt =====
-- src/EventManager/CmdTimerMultiplex.h and .cpp: a map from the timers that have not fired yet. The
-- timers' own class, `PlatformCmdTimer`, is chosen by a header of the build, and is a parameter: how
-- the start of a new timer ends. Timers and commands are addresses.
pub mod Map
pub mod OnWin32
use frc.Prelude.{ℕ, Bool, List, [], ◌∷◌, Option, none, some, ◌==◌, if◌then◌else◌}
use frc.Prelude.Int.{ℤ}
use frc.LogMacros.{
  Outcome, returns, throws, ◌>>=◌, Exception, catch_std, Severity, recoverable, null_access,
}

-- The map, and the messages logged.
pub record CmdTimerMultiplex : Type 0 where
  pub timer_map : List (ℕ × ℕ)
  pub log : List Severity

unfoldable pub new_multiplex : CmdTimerMultiplex
new_multiplex = record { timer_map = []; log = [] }

-- `_timerMap[p] = timer`.
unfoldable pub assign : ℕ → ℕ → List (ℕ × ℕ) → List (ℕ × ℕ)
assign p t [] = (p, t) ∷ []
assign p t ((q, u) ∷ m) = let rest = assign p t m in if q == p then (p, t) ∷ m else (q, u) ∷ rest

unfoldable pub lookup : ℕ → List (ℕ × ℕ) → Option ℕ
lookup p [] = none
lookup p ((q, u) ∷ m) = let rest = lookup p m in if q == p then some u else rest

-- `erase`, with the number of entries erased.
unfoldable pub erase : ℕ → List (ℕ × ℕ) → ℕ × List (ℕ × ℕ)
erase p [] = (0, [])
erase p ((q, u) ∷ m) = let (n, rest) = erase p m in if q == p then (1, m) else (n, (q, u) ∷ rest)

-- The tail of onTimerFire, under the lock. The message reports a failure, and the test is passed
-- where `erase` erased an entry.
unfoldable pub forget : ℕ → CmdTimerMultiplex → CmdTimerMultiplex
forget p x =
    let (n, m) = erase p x.timer_map in
    if n == 0
    then record x { timer_map = m }
    else record { timer_map = m; log = recoverable ∷ x.log }

-- The handler's message, where the command threw.
abbrev pub log_caught : Option Exception → CmdTimerMultiplex → CmdTimerMultiplex
log_caught none x = x
log_caught (some e) x = record x { log = recoverable ∷ x.log }

-- The rest of the program, `S`, and the multiplex, which commands may use as well.
module _ {S : Type 0} where
  -- Both overloads of startTimer: `start` is StartRelative or StartAbsolute of the new timer with the
  -- address `timer`, whose implementation has the address `impl`.
  unfoldable pub start_timer :
      (start : S → Outcome S) (timer impl : ℕ)
      → CmdTimerMultiplex × S
      → Outcome (CmdTimerMultiplex × S)
  start_timer start timer impl (x, s) = do
    s' ← start s
    returns (record x { timer_map = assign impl timer x.timer_map }, s')

  -- A null command is undefined behaviour.
  unfoldable pub on_timer_fire :
      (interrupt_is_std : Bool)
      (call : ℕ → CmdTimerMultiplex × S → (CmdTimerMultiplex × S) × Option Exception)
      → ℕ
      → Option ℕ
      → CmdTimerMultiplex × S
      → Outcome (CmdTimerMultiplex × S)
  on_timer_fire interrupt_is_std call p none s = null_access
  on_timer_fire interrupt_is_std call p (some c) s = do
    let (left, thrown) = call c s
    (x, s') ← catch_std interrupt_is_std (left, thrown)
    returns (forget p (log_caught thrown x), s')
