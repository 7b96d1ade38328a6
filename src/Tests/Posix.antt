-- ===== src/Tests/Posix.antt =====
-- Runs of POSIX timers, over a system that is a list of its timers with the times they are set to.
use frc.Prelude.{
  ℕ, suc, ◌/◌, ◌%◌, ◌<◌, ◌≡◌, refl, Bool, true, false, not, ◌&&◌, ◌||◌, List, [], ◌∷◌, none, some,
  arith, ◌==◌, ltb, contains, Distinct, if◌then◌else◌,
}
use frc.Prelude.Int.{ℤ, pos, negsuc, ◌-ℤ◌}
use frc.LogMacros.{returns, throws, robo_exception}
use frc.CmdTimerPosix.{
  PosixOs, Times, PosixImpl, IsPosixOs, IsTimes, HasRoom, new_impl, timer_create_impl,
  timer_delete_impl, new_impl_with_duration, timer_is_running, timer_set_time, start_relative,
  start_absolute, cancel, destroy,
}
use frc.CmdTimerPosix.Running.{Starts, start_relative-Starts}
use frc.CmdTimerPosix.Events.{
  Event, create, starts, starts_at, cancels, destroys, ids, Owns, run, step, at_timer,
  destroy_timer,
}
use frc.CmdTimerPosix.Lifetime.{run-Owns}
use frc.CmdTimerPosix.Owned.{is_other}
use frc.CmdTimerPosix.Handles.{
  Program, Use, constructs, copies, assigns, ends, targets, addresses, run_uses, find_target,
  drop_handle, retarget, release, after_use,
}
use frc.CmdTimerPosix.Handles.Shared.{run_uses-targets}

abbrev Os : Type 0
Os = List (ℕ × ℕ × ℕ)

has : ℕ → Os → Bool
has id [] = false
has id ((i, s, n) ∷ o) = (i == id) || has id o

gettime : ℕ → Os → ℕ × ℕ
gettime id [] = (0, 0)
gettime id ((i, s, n) ∷ o) = let rest = gettime id o in if i == id then (s, n) else rest

put : ℕ → ℕ → ℕ → Os → Os
put id s n [] = []
put id s n ((i, s', n') ∷ o) = (if i == id then (i, s, n) else (i, s', n')) ∷ put id s n o

remove : ℕ → Os → Os
remove id [] = []
remove id ((i, s, n) ∷ o) = let rest = remove id o in if i == id then rest else (i, s, n) ∷ rest

-- An identifier above all others.
fresh : Os → ℕ
fresh [] = 1
fresh ((i, s, n) ∷ o) = let rest = fresh o in if ltb i rest then rest else suc i

has-lt-fresh : (k : ℕ) (o : Os) → has k o ≡ true → k < fresh o
unfolding has fresh
has-lt-fresh k [] h = absurd (cc)
has-lt-fresh k ((i, s, n) ∷ o) h = ground (arith, has-lt-fresh k o)

has-fresh : (o : Os) → has (fresh o) o ≡ false
has-fresh o = ground (arith, has-lt-fresh (fresh o) o)

has-put : (k id s n : ℕ) (o : Os) → has k (put id s n o) ≡ has k o
unfolding has put
has-put k id s n [] = refl
has-put k id s n ((i, s', n') ∷ o) = ground (arith, has-put k id s n o)

gettime-put_other :
    (k id s n : ℕ) (o : Os) → (k == id) ≡ false → gettime k (put id s n o) ≡ gettime k o
unfolding put gettime
gettime-put_other k id s n [] other = refl
gettime-put_other k id s n ((i, s', n') ∷ o) other =
    ground (arith, gettime-put_other k id s n o other)

gettime-put_self : (id s n : ℕ) (o : Os) → has id o ≡ true → gettime id (put id s n o) ≡ (s, n)
unfolding has put gettime
gettime-put_self id s n [] h = absurd (cc)
gettime-put_self id s n ((i, s', n') ∷ o) h = ground (arith, gettime-put_self id s n o)

has-remove : (k id : ℕ) (o : Os) → has k (remove id o) ≡ (not (k == id) && has k o)
unfolding has remove
has-remove k id [] = ground arith
has-remove k id ((i, s, n) ∷ o) = ground (arith, has-remove k id o)

abbrev calls : PosixOs Os
calls = record {
  timer_create = λ address o. some (fresh o, (fresh o, 0, 0) ∷ o);
  timer_settime = λ id s n o. if has id o then some (put id s n o) else none;
  timer_gettime = gettime;
  timer_delete = λ id o. if has id o then some (remove id o) else none;
}

calls-IsPosixOs : IsPosixOs calls has
unfolding has
calls-IsPosixOs = record {
  create_lem = λ a id o o' e.
      let new : fresh o ≡ id = ground arith in
      let entered : ((fresh o, 0, 0) ∷ o) ≡ o' = ground arith in
      (ground (arith, has-fresh o), λ k. rw (← entered, ← new) (ground arith));
  settime_lem = λ id s n o there small. (
    put id s n o,
    rw there refl,
    λ k. has-put k id s n o,
    rw (gettime-put_self id s n o there) refl,
    λ k other. gettime-put_other k id s n o other,
  );
  delete_lem = λ id o there. (remove id o, rw there refl, λ k. has-remove k id o);
}

calls-HasRoom : HasRoom calls
calls-HasRoom = record { created = λ a o. (fresh o, (fresh o, 0, 0) ∷ o, refl) }

-- A duration is in microseconds.
abbrev microseconds : ℤ → ℕ
microseconds (pos n) = n
microseconds (negsuc n) = 0

abbrev is_negative : ℤ → Bool
is_negative (pos n) = false
is_negative (negsuc n) = true

abbrev times : Times ℤ ℤ
times = record {
  is_negative = is_negative;
  total_seconds = λ d. microseconds d / 1000000;
  fractional_seconds = λ d. microseconds d % 1000000;
  difference = λ a b. a -ℤ b;
}

times-IsTimes : IsTimes times
times-IsTimes = record { fraction_small = λ d. omega arith }

abbrev armed : PosixImpl
armed = record { address = 4; multiplex = none; cmd_to_invoke = some 6; timer_id = 1 }

-- A timer that runs is stopped by Cancel, and gone after its destructor.
destroy_test :
    (timer_is_running calls armed ((1, 2, 0) ∷ []) ≡ true)
    × (cancel calls armed ((1, 2, 0) ∷ []) ≡ returns (armed, (1, 0, 0) ∷ []))
    × (destroy calls armed ((1, 2, 0) ∷ []) ≡ returns [])
    × (start_absolute calls times (pos 7) (pos 3) armed [] ≡ throws robo_exception)
    × (new_impl_with_duration calls 4 (some 6) (pos 9) [] ≡ returns (armed, (1, 0, 0) ∷ []))
unfolding timer_is_running cancel timer_set_time destroy start_absolute start_relative
    new_impl_with_duration has put gettime remove fresh ◌-ℤ◌
destroy_test = (refl, refl, refl, refl, refl)

start_example :
    Starts calls has calls-IsPosixOs times times-IsTimes
      (pos 2500000)
      armed
      ((1, 0, 0) ∷ [])
      (start_relative calls times (pos 2500000) armed ((1, 0, 0) ∷ []))
unfolding has
start_example =
    start_relative-Starts calls has calls-IsPosixOs times times-IsTimes (pos 2500000) armed
      ((1, 0, 0) ∷ []) refl

abbrev lives : List (Event ℤ ℤ)
lives =
    create 4 (some 6) none
    ∷ starts 4 (pos 100)
    ∷ create 5 none (some 3)
    ∷ starts 5 (pos 100)
    ∷ cancels 4
    ∷ starts_at (pos 7) 4 (pos 3)
    ∷ destroys 4
    ∷ []

lives_example :
    (xs : List PosixImpl) × (o : Os) × (run calls times ([], []) lives ≡ returns (xs, o))
    × Owns has (ids xs) o
    × ((k : ℕ) → is_other has xs o k ≡ is_other has [] [] k)
lives_example = run-Owns has calls times calls-IsPosixOs times-IsTimes calls-HasRoom lives [] [] tt

-- An address above those of all timers.
next_address : List PosixImpl → ℕ
next_address [] = 1
next_address (x ∷ xs) =
    let rest = next_address xs in if ltb x.address rest then rest else suc x.address

contains-lt-next_address :
    (a : ℕ) (xs : List PosixImpl) → contains (addresses xs) a ≡ true → a < next_address xs
unfolding contains next_address
contains-lt-next_address a [] h = absurd (cc)
contains-lt-next_address a (x ∷ xs) h = ground (arith, contains-lt-next_address a xs)

next_address-fresh : (xs : List PosixImpl) → contains (addresses xs) (next_address xs) ≡ false
next_address-fresh xs = ground (arith, contains-lt-next_address (next_address xs) xs)

-- Two variables share the first timer; the second timer goes when its only variable gets the first.
abbrev uses : List (Use ℤ ℤ)
uses =
    constructs 10 (some 6) none
    ∷ copies 11 10
    ∷ constructs 12 (some 7) none
    ∷ Use.starts 10 (pos 100)
    ∷ assigns 12 11
    ∷ ends 10
    ∷ ends 11
    ∷ []

uses_test :
    run_uses calls times next_address (record { handles = []; timers = []; os = [] }) uses
    ≡ returns (record {
      handles = (12, 1) ∷ [];
      timers = record { address = 1; multiplex = none; cmd_to_invoke = some 6; timer_id = 1 } ∷ [];
      os = (1, 0, 100000) ∷ [];
    })
unfolding run_uses after_use find_target drop_handle retarget release contains next_address step
    at_timer destroy_timer new_impl timer_create_impl start_relative timer_set_time cancel destroy
    timer_delete_impl has put remove fresh
uses_test = refl

shared_timer_example :
    (p : Program Os) × (run_uses calls times next_address
        (record { handles = []; timers = []; os = [] })
        uses
      ≡ returns p)
    × ((a : ℕ) → contains (addresses p.timers) a ≡ contains (targets p.handles) a)
    × Distinct (addresses p.timers)
    × Owns has (ids p.timers) p.os
    × ((k : ℕ) → is_other has p.timers p.os k ≡ has k [])
shared_timer_example =
    run_uses-targets has calls times calls-IsPosixOs times-IsTimes calls-HasRoom next_address
      next_address-fresh uses []
