-- ===== src/CmdTimerWin32.antt =====
-- src/EventManager/CmdTimerWin32.h and .cpp, the timers over the Win32 API, with the interface of
-- CmdTimer.h. The system's timers are a parameter: SetTimer returns an identifier, or 0 if it fails,
-- and KillTimer whether it succeeded. A duration is in whole milliseconds.
pub mod Ids
pub mod Dispatch
pub mod Objects
pub mod Registry
pub mod History
use frc.Prelude.{
  ℕ, zero, suc, ◌+◌, ◌%◌, ◌^◌, Bool, true, false, List, [], ◌∷◌, Option, none, some, ◌==◌,
  if◌then◌else◌, contains, length,
}
use frc.Prelude.Int.{ℤ, pos, negsuc, ◌-ℤ◌}
use frc.LogMacros.{
  Outcome, returns, throws, null_access, robo_exception, log_fatal, Exception, catch_std,
}

-- What the code calls of the operating system, whose state is `O`.
pub record TimerOs (O : Type 0) : Type 0 where
  pub set_timer : ℕ → ℕ → O → ℕ × O
  pub kill_timer : ℕ → O → Bool × O

-- The static members, and the system. A timer object is an address.
pub record Timers (O : Type 0) : Type 0 where
  pub guaranteed_unused_id : ℕ
  pub used_ids : List ℕ
  pub id_to_timer_map : List (ℕ × ℕ)
  pub os : O

-- The members of one timer. A command and a multiplex are addresses; `none` is a null pointer.
pub record Impl : Type 0 where
  pub address : ℕ
  pub multiplex : Option ℕ
  pub cmd_to_invoke : Option ℕ
  pub timer_id : ℕ

-- UINT_PTR and UINT.
abbrev pub uint_ptr : ℕ → ℕ
uint_ptr n = n % 2 ^ 64

abbrev pub uint : ℕ → ℕ
uint n = n % 2 ^ 32

unfoldable pub init_timers : {O : Type 0} → O → Timers O
init_timers o = record { guaranteed_unused_id = 1; used_ids = 0 ∷ []; id_to_timer_map = []; os = o }

-- `while(_usedIDs.find(id) != _usedIDs.end()) ++id;`, for at most `fuel` rounds.
unfoldable pub next_unused : ℕ → List ℕ → ℕ → ℕ
next_unused zero used id = id
next_unused (suc fuel) used id =
    let rest = next_unused fuel used (uint_ptr (id + 1)) in if contains used id then rest else id

-- `insert` into the set.
unfoldable pub insert_id : ℕ → List ℕ → List ℕ
insert_id id used = if contains used id then used else id ∷ used

-- `erase` from the set.
unfoldable pub erase_id : ℕ → List ℕ → List ℕ
erase_id id [] = []
erase_id id (x ∷ used) = let rest = erase_id id used in if x == id then rest else x ∷ rest

unfoldable pub find_timer : ℕ → List (ℕ × ℕ) → Option ℕ
find_timer id [] = none
find_timer id ((j, t) ∷ m) = let rest = find_timer id m in if j == id then some t else rest

-- `insert` into the map, which keeps an entry that is there.
unfoldable pub insert_timer : ℕ → ℕ → List (ℕ × ℕ) → List (ℕ × ℕ)
insert_timer id t m = elim (find_timer id m) [ none ↦ (id, t) ∷ m | some _ ↦ m ]

unfoldable pub erase_timer : ℕ → List (ℕ × ℕ) → List (ℕ × ℕ)
erase_timer id [] = []
erase_timer id ((j, t) ∷ m) = let rest = erase_timer id m in if j == id then rest else (j, t) ∷ rest

unfoldable pub timer_is_running : Impl → Bool
timer_is_running self = if self.timer_id == 0 then false else true

unfoldable pub set_cmd : Impl → Option ℕ → Impl
set_cmd self c = record self { cmd_to_invoke = c }

module _ {O : Type 0} (calls : TimerOs O) where
  open calls use {set_timer, kill_timer}

  -- Steps 1 to 3 of TimerSetTime, for the identifier that the system gave.
  unfoldable pub register : Timers O → Impl → ℕ → O → Timers O × Impl
  register t self id o =
      let used = insert_id id t.used_ids in
      (
        record {
          guaranteed_unused_id = next_unused (length used + 1) used t.guaranteed_unused_id;
          used_ids = used;
          id_to_timer_map = insert_timer id self.address t.id_to_timer_map;
          os = o;
        },
        record self { timer_id = id },
      )

  unfoldable pub timer_set_time : Timers O → Impl → ℕ → Timers O × Impl
  timer_set_time t self milliseconds =
      if self.timer_id == 0
      then (let (id, o) = set_timer t.guaranteed_unused_id milliseconds t.os in
          register t self id o)
      else (record t { os = (set_timer self.timer_id milliseconds t.os).1 }, self)

  -- The source treats the success of KillTimer as the failure.
  unfoldable pub cancel : Timers O → Impl → Outcome (Timers O × Impl)
  cancel t self =
      let (killed, o) = kill_timer self.timer_id t.os in
      if killed
      then log_fatal
      else returns (
        record t {
          id_to_timer_map = erase_timer self.timer_id t.id_to_timer_map;
          used_ids = erase_id self.timer_id t.used_ids;
          os = o;
        },
        record self { timer_id = 0 },
      )

  -- Both assertions throw a RoboException.
  unfoldable pub start_relative : Timers O → Impl → ℤ → Outcome (Timers O × Impl)
  start_relative t self (negsuc _) = throws robo_exception
  start_relative t self (pos delay) = elim self.cmd_to_invoke [
    | none ↦ throws robo_exception
    | some _ ↦ returns (timer_set_time t self (uint delay))
  ]

  unfoldable pub start_absolute : Timers O → Impl → ℤ → ℤ → Outcome (Timers O × Impl)
  start_absolute t self now invocation_time = start_relative t self (invocation_time -ℤ now)

-- The constructors without a duration. (The one with a duration starts the timer before a shared
-- pointer to it exists, where `shared_from_this` is not defined.)
unfoldable pub new_impl : ℕ → Option ℕ → Option ℕ → Impl
new_impl address command multiplex = record {
  address = address;
  multiplex = multiplex;
  cmd_to_invoke = command;
  timer_id = 0;
}

-- The state that a command acts on, and how its call ends.
abbrev pub Call : Type 0 → Type 0
Call S = ℕ → S → S × Option Exception

module _ {S : Type 0} (interrupt_is_std : Bool) (call : Call S)
    (on_timer_fire : ℕ → ℕ → Option ℕ → S → Outcome S) where
  -- `operator()` of a timer.
  unfoldable pub fire : Impl → S → Outcome S
  fire self s = elim self.multiplex [
    | some m ↦ on_timer_fire m self.address self.cmd_to_invoke s
    | none ↦ elim self.cmd_to_invoke [
      | none ↦ null_access
      | some c ↦ catch_std interrupt_is_std (call c s)
    ]
  ]

  -- TimerHandler, which the system calls with an identifier. `impl` reads the timer at an address.
  unfoldable pub timer_handler : (impl : ℕ → Impl) → List (ℕ × ℕ) → ℕ → S → Outcome S
  timer_handler impl m id s = elim (find_timer id m) [ none ↦ returns s | some t ↦ fire (impl t) s ]
