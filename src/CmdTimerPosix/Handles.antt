-- ===== src/CmdTimerPosix/Handles.antt =====
-- src/EventManager/CmdTimerPosix.h: the class CmdTimerPosix, a shared pointer to an implementation.
-- Its copies share the implementation, and the last pointer that goes destroys it.
pub mod Addresses
pub mod Shared
use frc.Prelude.{ℕ, Bool, List, [], ◌∷◌, Option, none, some, ◌==◌, if◌then◌else◌, contains}
use frc.LogMacros.{Outcome, returns, ◌>>=◌}
use frc.CmdTimerPosix.{PosixOs, Times, PosixImpl, timer_is_running}
use frc.CmdTimerPosix.Events.{Event, after_throw, step}

-- The variables of the class with the addresses in their `_pImpl`, the implementations, and the
-- system. A variable hides an older one of its name.
pub record Program (O : Type 0) : Type 0 where
  pub handles : List (ℕ × ℕ)
  pub timers : List PosixImpl
  pub os : O

-- What a program does with variables of the class; the name of one comes first.
pub data Use (T P : Type 0) : Type 0 where
  constructs : ℕ → (command multiplex : Option ℕ) → Use T P
  copies assigns : ℕ → (other : ℕ) → Use T P
  sets_cmd : ℕ → Option ℕ → Use T P
  starts : ℕ → T → Use T P
  starts_at : ℕ → (now : P) → P → Use T P
  cancels ends : ℕ → Use T P

unfoldable pub find_target : ℕ → List (ℕ × ℕ) → Option ℕ
find_target h [] = none
find_target h ((k, a) ∷ hs) = let rest = find_target h hs in if k == h then some a else rest

unfoldable pub drop_handle : ℕ → List (ℕ × ℕ) → List (ℕ × ℕ)
drop_handle h [] = []
drop_handle h ((k, a) ∷ hs) = let rest = drop_handle h hs in if k == h then hs else (k, a) ∷ rest

unfoldable pub retarget : ℕ → ℕ → List (ℕ × ℕ) → List (ℕ × ℕ)
retarget h b [] = []
retarget h b ((k, a) ∷ hs) =
    let rest = retarget h b hs in if k == h then (k, b) ∷ hs else (k, a) ∷ rest

-- The implementations that variables point to.
abbrev pub targets : List (ℕ × ℕ) → List ℕ
targets [] = []
targets ((h, a) ∷ hs) = a ∷ targets hs

abbrev pub addresses : List PosixImpl → List ℕ
addresses [] = []
addresses (x ∷ xs) = x.address ∷ addresses xs

-- A program after an event on the implementations, where `hs` are its variables.
abbrev pub with_handles :
    {O : Type 0}
    → List (ℕ × ℕ)
    → Program O
    → (List PosixImpl × O → Outcome (List PosixImpl × O))
    → Outcome (Program O)
with_handles hs p f = do
  (xs, o) ← f (p.timers, p.os)
  returns (record { handles = hs; timers = xs; os = o })

-- A method of the implementation that a variable points to. No program uses a name that is not a
-- variable's; here nothing happens then.
abbrev pub on_target :
    {O : Type 0} → ℕ → Program O → (ℕ → Outcome (Program O)) → Outcome (Program O)
on_target h p f = elim (find_target h p.handles) [ none ↦ returns p | some a ↦ f a ]

module _ {O T P : Type 0} (calls : PosixOs O) (times : Times T P) where
  -- A shared pointer to `a` goes, and `hs` are the variables that are left.
  unfoldable pub release : ℕ → List (ℕ × ℕ) → List PosixImpl × O → Outcome (List PosixImpl × O)
  release a hs w =
      if contains (targets hs) a then returns w else step calls times w (Event.destroys a)

-- `allocate` gives the address of a new implementation.
module _ {O T P : Type 0} (calls : PosixOs O) (times : Times T P)
    (allocate : List PosixImpl → ℕ) where
  unfoldable pub after_use : Program O → Use T P → Outcome (Program O)
  after_use p (constructs h command multiplex) =
      let a = allocate p.timers in
      with_handles ((h, a) ∷ p.handles) p λ w. step calls times w (Event.create a command multiplex)
  after_use p (copies h other) =
      on_target other p λ a. returns (record p { handles = (h, a) ∷ p.handles })
  after_use p (assigns h other) = on_target other p λ b.
      on_target h p
        λ a. let hs = retarget h b p.handles in with_handles hs p (release calls times a hs)
  after_use p (sets_cmd h c) =
      on_target h p λ a. with_handles p.handles p λ w. step calls times w (Event.sets_cmd a c)
  after_use p (starts h delay) =
      on_target h p λ a. with_handles p.handles p λ w. step calls times w (Event.starts a delay)
  after_use p (starts_at h now t) =
      on_target h p λ a. with_handles p.handles p λ w. step calls times w (Event.starts_at now a t)
  after_use p (cancels h) =
      on_target h p λ a. with_handles p.handles p λ w. step calls times w (Event.cancels a)
  after_use p (ends h) =
      on_target h p
        λ a. let hs = drop_handle h p.handles in with_handles hs p (release calls times a hs)

  unfoldable pub run_uses : Program O → List (Use T P) → Outcome (Program O)
  run_uses p [] = returns p
  run_uses p (u ∷ us) = after_throw p (after_use p u) >>= λ p'. run_uses p' us
