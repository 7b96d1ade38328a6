-- ===== src/LogMacros.antt =====
-- src/LogMacros.h and src/Exception.h: the severities of log messages, and what a call can end in.
-- Outside the unit tests LOG_FATAL ends the process with status 2.
use frc.Prelude.{ℕ, ◌≡◌, refl, Bool, Option, none, some, if◌then◌else◌}

pub data Severity : Type 0 where
  debug info unusual recoverable fatal : Severity

-- The exceptions that the code tells apart: its own, the one that stops a waiting thread, any other
-- `std::exception`, and anything else.
pub data Exception : Type 0 where
  robo_exception thread_interrupted std_exception other_exception : Exception

-- How a call ends: with a value, by an exception, by the end of the process, or by the use of a null
-- pointer, which C++ leaves undefined.
pub data Outcome (A : Type 0) : Type 0 where
  returns : A → Outcome A
  throws : Exception → Outcome A
  exits : ℕ → Outcome A
  null_access : Outcome A

infixl 5 ◌>>=◌
abbrev pub ◌>>=◌ : {A B : Type 0} → Outcome A → (A → Outcome B) → Outcome B
returns a >>= f = f a
throws e >>= f = throws e
exits n >>= f = exits n
null_access >>= f = null_access

-- LOG_FATAL in a build of the robot.
abbrev pub log_fatal : {A : Type 0} → Outcome A
log_fatal = exits 2

-- A call inside `try … catch(std::exception &)`, which takes a RoboException too. Whether the
-- exception of an interrupted wait is a `std::exception` is decided in another repository.
abbrev pub catch_std : {S : Type 0} → Bool → S × Option Exception → Outcome S
catch_std is_std (s, none) = returns s
catch_std is_std (s, some robo_exception) = returns s
catch_std is_std (s, some std_exception) = returns s
catch_std is_std (s, some thread_interrupted) =
    if is_std then returns s else throws thread_interrupted
catch_std is_std (s, some other_exception) = throws other_exception

-- A call that goes on to a total step returned, if the whole did.
pub returns_parts :
    {A B : Type 0} (r : Outcome A) (f : A → B) (b : B)
    → (r >>= λ a. returns (f a)) ≡ returns b
    → (a : A) × (r ≡ returns a) × (b ≡ f a)
returns_parts (returns a) f b e = (a, refl, cc)
returns_parts (throws x) f b e = absurd (cc)
returns_parts (exits n) f b e = absurd (cc)
returns_parts null_access f b e = absurd (cc)

-- The same, where the second step is a call too.
pub bind_parts :
    {A B : Type 0} (r : Outcome A) (f : A → Outcome B) (b : B)
    → (r >>= f) ≡ returns b
    → (a : A) × (r ≡ returns a) × (f a ≡ returns b)
bind_parts (returns a) f b e = (a, refl, e)
bind_parts (throws x) f b e = absurd (cc)
bind_parts (exits n) f b e = absurd (cc)
bind_parts null_access f b e = absurd (cc)
