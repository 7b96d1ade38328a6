-- ===== src/CmdTimerPosix/Running.antt =====
-- Which calls make a POSIX timer run.
use frc.Prelude.{
  ℕ, ◌*◌, ◌<◌, ◌≡◌, refl, Bool, true, false, not, ◌&&◌, ◌||◌, none, some, ◌==◌, arith, Bool-cases,
  inl, inr, if◌then◌else◌,
}
use frc.LogMacros.{Outcome, returns, throws, robo_exception}
use frc.CmdTimerPosix.{
  PosixOs, Times, PosixImpl, IsPosixOs, IsTimes, timer_set_time, timer_is_running, cancel,
  start_relative,
}

module _ {O : Type 0} (calls : PosixOs O) (has : ℕ → O → Bool) (os : IsPosixOs calls has) where
  -- After a call that returns the same timer, it runs or not, and the others run as they did.
  abbrev pub Runs : Bool → PosixImpl → O → O → Type 0
  Runs running self o o' =
      (timer_is_running calls self o' ≡ running)
      × ((other : PosixImpl)
          → (other.timer_id == self.timer_id) ≡ false
          → timer_is_running calls other o' ≡ timer_is_running calls other o)

  timer_set_time-Runs :
      (seconds nanoseconds : ℕ) (self : PosixImpl) (o : O)
      → has self.timer_id o ≡ true
      → nanoseconds < 1000000000
      → (o' : O) × (timer_set_time calls seconds nanoseconds self o ≡ returns (self, o'))
        × Runs (not (seconds == 0 && nanoseconds == 0)) self o o'
  unfolding timer_set_time timer_is_running
  timer_set_time-Runs seconds nanoseconds self o there small =
      let (o', e, kept, zero_time, others) =
        os.settime_lem self.timer_id seconds nanoseconds o there small in
      (o', rw e refl, (ground (arith, zero_time), λ other ne. rw (others other.timer_id ne) refl))

  -- Cancel returns, and the timer does not run then.
  pub cancel-Runs :
      (self : PosixImpl) (o : O)
      → has self.timer_id o ≡ true
      → (o' : O) × (cancel calls self o ≡ returns (self, o')) × Runs false self o o'
  unfolding cancel
  cancel-Runs self o there = timer_set_time-Runs 0 0 self o there (omega arith)

  module _ {T P : Type 0} (times : Times T P) (laws : IsTimes times) where
    -- What StartRelative refuses: a negative delay, or a timer with no command.
    abbrev pub is_refused : T → PosixImpl → Bool
    is_refused delay self =
        times.is_negative delay || elim self.cmd_to_invoke [ none ↦ true | some _ ↦ false ]

    -- A delay of no seconds and no microseconds.
    abbrev pub is_zero : T → Bool
    is_zero delay = times.total_seconds delay == 0 && times.fractional_seconds delay == 0

    -- What StartRelative may do.
    pub data Starts (delay : T) (self : PosixImpl) (o : O) : Outcome (PosixImpl × O) → Type 0 where
      refused : is_refused delay self ≡ true → Starts delay self o (throws robo_exception)
      started :
          {o' : O}
          → is_refused delay self ≡ false
          → Runs (not (is_zero delay)) self o o'
          → Starts delay self o (returns (self, o'))

    as_nanoseconds : (n : ℕ) → (n * 1000 == 0) ≡ (n == 0)
    as_nanoseconds n = ground arith

    set_by_delay :
        (delay : T) (self : PosixImpl) (o : O)
        → has self.timer_id o ≡ true
        → is_refused delay self ≡ false
        → Starts delay self o (
            timer_set_time calls
              (times.total_seconds delay)
              (times.fractional_seconds delay * 1000)
              self
              o)
    set_by_delay delay self o there taken =
        let n = times.fractional_seconds delay in
        let (o', e, (runs, others)) =
          timer_set_time-Runs (times.total_seconds delay) (n * 1000) self o there
            (omega (arith, laws.fraction_small delay)) in
        rw e (started taken (rw (as_nanoseconds n) at runs, others))

    pub start_relative_lem :
        (delay : T) (self : PosixImpl) (o : O)
        → start_relative calls times delay self o ≡ (
            if is_refused delay self
            then throws robo_exception
            else timer_set_time calls
                (times.total_seconds delay)
                (times.fractional_seconds delay * 1000)
                self
                o)
    unfolding start_relative
    start_relative_lem delay self o = ground arith

    pub start_relative-Starts :
        (delay : T) (self : PosixImpl) (o : O)
        → has self.timer_id o ≡ true
        → Starts delay self o (start_relative calls times delay self o)
    start_relative-Starts delay self o there = elim (Bool-cases (is_refused delay self)) [
      | inl bad ↦ rw (start_relative_lem delay self o, bad) (refused bad)
      | inr good ↦ rw (start_relative_lem delay self o, good) (set_by_delay delay self o there good)
    ]
