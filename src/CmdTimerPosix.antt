-- ===== src/CmdTimerPosix.antt =====
-- src/EventManager/CmdTimerPosix.h and .cpp, the timers over the POSIX API, which no build of the
-- repository compiles. The system's timers are a parameter, and so are the durations of another
-- repository's Util/Time.h.
pub mod Events
pub mod Owned
pub mod Running
pub mod Lifetime
pub mod Handles
use frc.Prelude.{
  ℕ, ◌*◌, ◌<◌, ◌≡◌, ◌≢◌, Bool, true, false, not, ◌&&◌, ◌||◌, Option, none, some, ◌==◌,
  if◌then◌else◌,
}
use frc.LogMacros.{
  Outcome, returns, throws, null_access, robo_exception, log_fatal, Exception, catch_std, ◌>>=◌,
}

-- What the code calls of the operating system, whose state is `O`. `none` is a result that is not 0.
-- A timer is created with the address that its callback gets. Seconds come before nanoseconds.
pub record PosixOs (O : Type 0) : Type 0 where
  pub timer_create : ℕ → O → Option (ℕ × O)
  pub timer_settime : ℕ → ℕ → ℕ → O → Option O
  pub timer_gettime : ℕ → O → ℕ × ℕ
  pub timer_delete : ℕ → O → Option O

-- The operations of a duration `T` and a time `P` that the code uses.
pub record Times (T P : Type 0) : Type 0 where
  pub is_negative : T → Bool
  pub total_seconds : T → ℕ
  pub fractional_seconds : T → ℕ
  pub difference : P → P → T

-- The members of a timer. A command and a multiplex are addresses; `none` is a null pointer.
pub record PosixImpl : Type 0 where
  pub address : ℕ
  pub multiplex : Option ℕ
  pub cmd_to_invoke : Option ℕ
  pub timer_id : ℕ

unfoldable pub set_cmd : PosixImpl → Option ℕ → PosixImpl
set_cmd self c = record self { cmd_to_invoke = c }

-- LOG_FATAL where a call of the system fails.
abbrev pub or_fatal : {A : Type 0} → Option A → Outcome A
or_fatal none = log_fatal
or_fatal (some a) = returns a

module _ {O : Type 0} (calls : PosixOs O) where
  open calls use {timer_create, timer_settime, timer_gettime, timer_delete}

  -- TimerCreate: the identifier of the new timer.
  unfoldable pub timer_create_impl : ℕ → O → Outcome (ℕ × O)
  timer_create_impl address o = or_fatal (timer_create address o)

  -- The base constructor. Those without a command or a multiplex pass null pointers to it.
  unfoldable pub new_impl : ℕ → Option ℕ → Option ℕ → O → Outcome (PosixImpl × O)
  unfolding timer_create_impl
  new_impl address command multiplex o = do
    (id, o') ← timer_create_impl address o
    returns (
      record { address = address; multiplex = multiplex; cmd_to_invoke = command; timer_id = id },
      o',
    )

  -- The constructor with a duration, which does nothing with it.
  unfoldable pub new_impl_with_duration :
      {T : Type 0} → ℕ → Option ℕ → T → O → Outcome (PosixImpl × O)
  unfolding new_impl
  new_impl_with_duration address command time_relative o = new_impl address command none o

  unfoldable pub timer_set_time : ℕ → ℕ → PosixImpl → O → Outcome (PosixImpl × O)
  timer_set_time seconds nanoseconds self o = do
    o' ← or_fatal (timer_settime self.timer_id seconds nanoseconds o)
    returns (self, o')

  unfoldable pub timer_is_running : PosixImpl → O → Bool
  timer_is_running self o =
      let (seconds, nanoseconds) = timer_gettime self.timer_id o in
      not (nanoseconds == 0) || not (seconds == 0)

  unfoldable pub cancel : PosixImpl → O → Outcome (PosixImpl × O)
  cancel self o = timer_set_time 0 0 self o

  unfoldable pub timer_delete_impl : PosixImpl → O → Outcome O
  timer_delete_impl self o = or_fatal (timer_delete self.timer_id o)

  -- The destructor.
  unfoldable pub destroy : PosixImpl → O → Outcome O
  unfolding timer_delete_impl
  destroy self o = do (self', o') ← cancel self o; timer_delete_impl self' o'

  module _ {T P : Type 0} (times : Times T P) where
    open times use {is_negative, total_seconds, fractional_seconds, difference}

    -- Both assertions throw a RoboException.
    unfoldable pub start_relative : T → PosixImpl → O → Outcome (PosixImpl × O)
    start_relative delay self o =
        if is_negative delay then throws robo_exception else elim self.cmd_to_invoke [
          | none ↦ throws robo_exception
          | some _ ↦ timer_set_time (total_seconds delay) (fractional_seconds delay * 1000) self o
        ]

    unfoldable pub start_absolute : P → P → PosixImpl → O → Outcome (PosixImpl × O)
    start_absolute now invocation_time self o =
        start_relative (difference invocation_time now) self o

module _ {S : Type 0} (interrupt_is_std : Bool) (call : ℕ → S → S × Option Exception)
    (on_timer_fire : ℕ → ℕ → Option ℕ → S → Outcome S) where
  -- `operator()` of a timer.
  unfoldable pub fire : PosixImpl → S → Outcome S
  fire self s = elim self.multiplex [
    | some m ↦ on_timer_fire m self.address self.cmd_to_invoke s
    | none ↦ elim self.cmd_to_invoke [
      | none ↦ null_access
      | some c ↦ catch_std interrupt_is_std (call c s)
    ]
  ]

  -- TimerHandler, which gets the address that the timer was created with.
  unfoldable pub timer_handler : (impl : ℕ → PosixImpl) → ℕ → S → Outcome S
  timer_handler impl sival s = fire (impl sival) s

-- What POSIX documents: `has` says which timers there are.
pub record IsPosixOs {O : Type 0} (calls : PosixOs O) (has : ℕ → O → Bool) : Type 0 where
  pub create_lem :
      (a id : ℕ) (o o' : O)
      → calls.timer_create a o ≡ some (id, o')
      → (has id o ≡ false) × ((k : ℕ) → has k o' ≡ (k == id || has k o))
  pub settime_lem :
      (id seconds nanoseconds : ℕ) (o : O)
      → has id o ≡ true
      → nanoseconds < 1000000000
      → (o' : O) × (calls.timer_settime id seconds nanoseconds o ≡ some o')
        × ((k : ℕ) → has k o' ≡ has k o)
        × (((calls.timer_gettime id o').0 == 0 && (calls.timer_gettime id o').1 == 0)
            ≡ (seconds == 0 && nanoseconds == 0))
        × ((k : ℕ) → (k == id) ≡ false → calls.timer_gettime k o' ≡ calls.timer_gettime k o)
  pub delete_lem :
      (id : ℕ) (o : O)
      → has id o ≡ true
      → (o' : O) × (calls.timer_delete id o ≡ some o')
        × ((k : ℕ) → has k o' ≡ (not (k == id) && has k o))

-- What Util/Time.h documents: a duration's fraction is in microseconds, less than a second of them.
pub record IsTimes {T P : Type 0} (times : Times T P) : Type 0 where
  pub fraction_small : (d : T) → times.fractional_seconds d < 1000000

-- The system does not run out of timers.
pub record HasRoom {O : Type 0} (calls : PosixOs O) : Type 0 where
  pub created : (a : ℕ) (o : O) → (id : ℕ) × (o' : O) × (calls.timer_create a o ≡ some (id, o'))
