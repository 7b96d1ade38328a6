-- ===== src/CmdTimerPosix/Events.antt =====
-- What happens to POSIX timers between their constructors and their destructors: the class
-- CmdTimerPosix of src/EventManager/CmdTimerPosix.h, over the implementation.
use frc.Prelude.{ℕ, ◌≡◌, Bool, true, false, List, [], ◌∷◌, Option, ◌==◌, if◌then◌else◌, contains}
use frc.LogMacros.{Outcome, returns, throws, ◌>>=◌}
use frc.CmdTimerPosix.{
  PosixOs, Times, PosixImpl, set_cmd, new_impl, cancel, destroy, start_relative, start_absolute,
}

-- What happens to the timers; the address of one selects it.
pub data Event (T P : Type 0) : Type 0 where
  create : (address : ℕ) (command multiplex : Option ℕ) → Event T P
  sets_cmd : ℕ → Option ℕ → Event T P
  starts : ℕ → T → Event T P
  starts_at : (now : P) → ℕ → P → Event T P
  cancels destroys : ℕ → Event T P

-- An exception leaves the timers as they were: both assertions come before the first call of the
-- system.
abbrev pub after_throw : {A : Type 0} → A → Outcome A → Outcome A
after_throw old (throws e) = returns old
after_throw old r = r

module _ {O : Type 0} where
  abbrev pub at_head : List PosixImpl → PosixImpl × O → List PosixImpl × O
  at_head xs (x, o) = (x ∷ xs, o)

  abbrev pub behind : PosixImpl → List PosixImpl × O → List PosixImpl × O
  behind x (xs, o) = (x ∷ xs, o)

  -- An operation on the timer at an address, where there is one.
  unfoldable pub at_timer :
      ℕ
      → (PosixImpl → O → Outcome (PosixImpl × O))
      → List PosixImpl
      → O
      → Outcome (List PosixImpl × O)
  at_timer a f [] o = returns ([], o)
  at_timer a f (x ∷ xs) o =
      let rest = at_timer a f xs o in
      if x.address == a
      then (f x o >>= λ r. returns (at_head xs r))
      else (rest >>= λ r. returns (behind x r))

module _ {O T P : Type 0} (calls : PosixOs O) (times : Times T P) where
  unfoldable pub destroy_timer : ℕ → List PosixImpl → O → Outcome (List PosixImpl × O)
  destroy_timer a [] o = returns ([], o)
  destroy_timer a (x ∷ xs) o =
      let rest = destroy_timer a xs o in
      if x.address == a
      then (destroy calls x o >>= λ o'. returns (xs, o'))
      else (rest >>= λ r. returns (behind x r))

  unfoldable pub step : List PosixImpl × O → Event T P → Outcome (List PosixImpl × O)
  step (xs, o) (create a command multiplex) =
      new_impl calls a command multiplex o >>= λ r. returns (at_head xs r)
  step (xs, o) (sets_cmd a c) = at_timer a (λ x o1. returns (set_cmd x c, o1)) xs o
  step (xs, o) (starts a delay) = at_timer a (start_relative calls times delay) xs o
  step (xs, o) (starts_at now a t) = at_timer a (start_absolute calls times now t) xs o
  step (xs, o) (cancels a) = at_timer a (cancel calls) xs o
  step (xs, o) (destroys a) = destroy_timer a xs o

  unfoldable pub run : List PosixImpl × O → List (Event T P) → Outcome (List PosixImpl × O)
  run w [] = returns w
  run w (e ∷ es) = after_throw w (step w e) >>= λ w'. run w' es

-- The identifiers of the timers.
abbrev pub ids : List PosixImpl → List ℕ
ids [] = []
ids (x ∷ xs) = x.timer_id ∷ ids xs

-- Each of the timers has a timer of the system, and no two the same.
abbrev pub Owns : {O : Type 0} → (ℕ → O → Bool) → List ℕ → O → Type 0
Owns has [] o = Unit
Owns has (i ∷ is) o = (has i o ≡ true) × (contains is i ≡ false) × Owns has is o
