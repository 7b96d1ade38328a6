-- ===== src/CmdTimerPosix/Handles/Shared.antt =====
-- The lives of POSIX timers that variables share.
use native.Mathlib.Decide.{ℕ_discrete}
use frc.Prelude.{
  ℕ, ◌≡◌, refl, ◌∙◌, sym, ap, Bool, true, false, not, ◌&&◌, ◌||◌, List, [], ◌∷◌, some, ◌==◌, arith,
  contains, Distinct, Bool-cases, inl, inr, Option-cases,
}
use frc.LogMacros.{Outcome, returns, throws, exits, null_access, ◌>>=◌}
use frc.CmdTimerPosix.{PosixOs, Times, PosixImpl, IsPosixOs, IsTimes, HasRoom}
use frc.CmdTimerPosix.Events.{Event, create, destroys, after_throw, step, ids, Owns}
use frc.CmdTimerPosix.Owned.{Safe, value, thrown, Safe-then, Safe-map, is_other}
use frc.CmdTimerPosix.Lifetime.{Holds, step-Holds}
use frc.CmdTimerPosix.Handles.{
  Program, Use, constructs, copies, assigns, sets_cmd, starts, starts_at, cancels, ends,
  find_target, drop_handle, retarget, targets, addresses, with_handles, on_target, release,
  after_use, run_uses,
}
use frc.CmdTimerPosix.Handles.Addresses.{
  contains-erase_first, erase_first-Distinct, addresses_after, addresses-step, targets-drop_handle,
  targets-retarget,
}

Safe-also :
    {A : Type 0} (P Q : A → Type 0) (r : Outcome A)
    → Safe P r
    → ((a : A) → r ≡ returns a → Q a)
    → Safe (λ a. P a × Q a) r
Safe-also P Q (returns a) (value good) f = value (good, f a refl)
Safe-also P Q (throws e) thrown f = thrown
Safe-also P Q (exits n) never f = elim never [ ]
Safe-also P Q null_access never f = elim never [ ]

-- A pointer that goes leaves the targets as they are, if another one has its target.
kept :
    (a b : ℕ) (hs : List (ℕ × ℕ))
    → contains (targets hs) a ≡ true
    → (a == b || contains (targets hs) b) ≡ contains (targets hs) b
kept a b hs shared = elim (ℕ_discrete a b) [
  | yes same ↦ rw (← same, shared) (ground arith)
  | no ne ↦ ground arith
]

-- A copy of a pointer.
copied :
    (h a b : ℕ) (hs : List (ℕ × ℕ))
    → find_target h hs ≡ some a
    → (a == b || contains (targets hs) b) ≡ contains (targets hs) b
copied h a b hs there = rw (targets-drop_handle h a b hs there) (ground arith)

-- A pointer to `a` that gets the target `a'` of another.
assigned :
    (h other a a' b : ℕ) (hs : List (ℕ × ℕ))
    → find_target h hs ≡ some a
    → find_target other hs ≡ some a'
    → contains (targets hs) b ≡ (a == b || contains (targets (retarget h a' hs)) b)
assigned h other a a' b hs there there' = ground (
  arith,
  targets-drop_handle h a b hs there,
  targets-retarget h a a' b hs there,
  copied other a' b hs there',
)

left :
    (a b : ℕ) (hs : List (ℕ × ℕ))
    → contains (targets hs) a ≡ false
    → (not (b == a) && (a == b || contains (targets hs) b)) ≡ contains (targets hs) b
left a b hs last = elim (ℕ_discrete a b) [
  | yes same ↦ rw (← same, last) (ground arith)
  | no ne ↦ ground arith
]

module _ {O T P : Type 0} (has : ℕ → O → Bool) (calls : PosixOs O) (times : Times T P)
    (os : IsPosixOs calls has) (laws : IsTimes times) (base : ℕ → Bool) (room : HasRoom calls) where
  -- The implementations have different addresses, and `live` are these.
  abbrev Lives : (ℕ → Bool) → List PosixImpl × O → Type 0
  Lives live w =
      Holds has calls times os laws base w
      × Distinct (addresses w.0)
      × ((b : ℕ) → contains (addresses w.0) b ≡ live b)

  step-Lives :
      (e : Event T P) (live live' : ℕ → Bool) (w : List PosixImpl × O)
      → Lives live w
      → Distinct (addresses_after calls times (addresses w.0) e)
      → ((b : ℕ) → contains (addresses_after calls times (addresses w.0) e) b ≡ live' b)
      → Safe (Lives live') (step calls times w e)
  step-Lives e live live' w (v, d, l) d' l' =
      Safe-map _ (Lives live') (step calls times w e)
        (Safe-also (Holds has calls times os laws base)
          (λ w'. addresses w'.0 ≡ addresses_after calls times (addresses w.0) e)
          (step calls times w e) (step-Holds has calls times os laws base room w e v)
          λ w' r. addresses-step calls times w w' e r)
        λ w' (v', same). (v', rw same d', λ b. rw same (l' b))

  -- Where `hs` are the variables left after one that points to `a` went.
  release-Lives :
      (a : ℕ) (hs : List (ℕ × ℕ)) (live : ℕ → Bool) (w : List PosixImpl × O)
      → Lives live w
      → ((b : ℕ) → live b ≡ (a == b || contains (targets hs) b))
      → Safe (Lives (contains (targets hs))) (release calls times a hs w)
  unfolding release
  release-Lives a hs live w (v, d, l) split = elim (Bool-cases (contains (targets hs) a)) [
    | inl shared ↦ rw shared (value (v, d, λ b. l b ∙ split b ∙ kept a b hs shared))
    | inr last ↦ rw last (
        step-Lives (destroys a) live (contains (targets hs)) w (v, d, l)
          (erase_first-Distinct a (addresses w.0) d)
          λ b.
            contains-erase_first a b (addresses w.0) d
            ∙ ap (λ t. not (b == a) && t) (l b ∙ split b)
            ∙ left a b hs last)
  ]

  -- An implementation lives exactly while a variable points to it.
  abbrev Shares : Program O → Type 0
  Shares p = Lives (contains (targets p.handles)) (p.timers, p.os)

  with_handles-Shares :
      (hs : List (ℕ × ℕ)) (p : Program O) (f : List PosixImpl × O → Outcome (List PosixImpl × O))
      → Safe (Lives (contains (targets hs))) (f (p.timers, p.os))
      → Safe Shares (with_handles hs p f)
  with_handles-Shares hs p f good =
      Safe-then (Lives (contains (targets hs))) Shares _ (f (p.timers, p.os)) good (λ w v. v)

  on_target-Shares :
      (h : ℕ) (p : Program O) (f : ℕ → Outcome (Program O))
      → Shares p
      → ((a : ℕ) → find_target h p.handles ≡ some a → Safe Shares (f a))
      → Safe Shares (on_target h p f)
  on_target-Shares h p f v good = elim (Option-cases (find_target h p.handles)) [
    | inl missing ↦ rw (missing, on_target) (value v)
    | inr (a, there) ↦ rw (there, on_target) (good a there)
  ]

  method-Shares :
      (h : ℕ) (p : Program O) (e : ℕ → Event T P)
      → ((a : ℕ) → addresses_after calls times (addresses p.timers) (e a) ≡ addresses p.timers)
      → Shares p
      → Safe Shares (on_target h p λ a. with_handles p.handles p λ w. step calls times w (e a))
  method-Shares h p e same (v, d, l) =
      let live = contains (targets p.handles) in
      on_target-Shares h p _ (v, d, l)
        λ a there.
          with_handles-Shares p.handles p (λ w. step calls times w (e a))
            (step-Lives (e a) live live (p.timers, p.os) (v, d, l) (rw (same a) d)
              (λ b. rw (same a) (l b)))

  release-Shares :
      (a : ℕ) (hs : List (ℕ × ℕ)) (p : Program O)
      → Shares p
      → ((b : ℕ) → contains (targets p.handles) b ≡ (a == b || contains (targets hs) b))
      → Safe Shares (with_handles hs p (release calls times a hs))
  release-Shares a hs p v split =
      with_handles-Shares hs p (release calls times a hs)
        (release-Lives a hs (contains (targets p.handles)) (p.timers, p.os) v split)

  module _ (allocate : List PosixImpl → ℕ)
      (fresh : (xs : List PosixImpl) → contains (addresses xs) (allocate xs) ≡ false) where
    after_use-Shares :
        (p : Program O) (u : Use T P) → Shares p → Safe Shares (after_use calls times allocate p u)
    unfolding after_use contains
    after_use-Shares p (constructs h c m) (v, d, l) =
        let a = allocate p.timers in
        with_handles-Shares ((h, a) ∷ p.handles) p (λ w. step calls times w (create a c m))
          (step-Lives (create a c m) (contains (targets p.handles)) _ (p.timers, p.os) (v, d, l)
            (fresh p.timers, d) (λ b. ap (λ t. a == b || t) (l b)))
    after_use-Shares p (copies h other) (v, d, l) =
        on_target-Shares other p _ (v, d, l)
          λ a there. value (v, d, λ b. l b ∙ sym (copied other a b p.handles there))
    after_use-Shares p (assigns h other) (v, d, l) =
        on_target-Shares other p _ (v, d, l)
          λ a' there'.
            on_target-Shares h p _ (v, d, l)
              λ a there.
                release-Shares a (retarget h a' p.handles) p (v, d, l)
                  λ b. assigned h other a a' b p.handles there there'
    after_use-Shares p (sets_cmd h c) v = method-Shares h p (λ a. Event.sets_cmd a c) (λ a. refl) v
    after_use-Shares p (starts h delay) v =
        method-Shares h p (λ a. Event.starts a delay) (λ a. refl) v
    after_use-Shares p (starts_at h now t) v =
        method-Shares h p (λ a. Event.starts_at now a t) (λ a. refl) v
    after_use-Shares p (cancels h) v = method-Shares h p Event.cancels (λ a. refl) v
    after_use-Shares p (ends h) (v, d, l) =
        on_target-Shares h p _ (v, d, l)
          λ a there.
            release-Shares a (drop_handle h p.handles) p (v, d, l)
              λ b. targets-drop_handle h a b p.handles there

    after_caught :
        (p : Program O) (r : Outcome (Program O)) (k : Program O → Outcome (Program O))
        → Shares p
        → Safe Shares r
        → ((p' : Program O) → Shares p' → (q : Program O) × (k p' ≡ returns q) × Shares q)
        → (q : Program O) × ((after_throw p r >>= k) ≡ returns q) × Shares q
    after_caught p (returns q) k v (value good) next = next q good
    after_caught p (throws e) k v thrown next = next p v
    after_caught p (exits n) k v never next = elim never [ ]
    after_caught p null_access k v never next = elim never [ ]

    pub run_uses-Shares :
        (us : List (Use T P)) (p : Program O)
        → Shares p
        → (q : Program O) × (run_uses calls times allocate p us ≡ returns q) × Shares q
    unfolding run_uses
    run_uses-Shares [] p v = (p, refl, v)
    run_uses-Shares (u ∷ us) p v =
        after_caught p (after_use calls times allocate p u)
          (λ p'. run_uses calls times allocate p' us) v (after_use-Shares p u v)
          λ p' v'. run_uses-Shares us p' v'

module _ {O T P : Type 0} (has : ℕ → O → Bool) (calls : PosixOs O) (times : Times T P)
    (os : IsPosixOs calls has) (laws : IsTimes times) (room : HasRoom calls)
    (allocate : List PosixImpl → ℕ)
    (fresh : (xs : List PosixImpl) → contains (addresses xs) (allocate xs) ≡ false) where
  -- Copies of a timer share one implementation, and the last that goes destroys it. Where the system
  -- does what POSIX documents and does not run out of timers, and a new object stands where none
  -- lives: whatever variables a program constructs, copies, assigns, uses and lets go, from none on
  -- and in whatever order, no use ends the process. An implementation is there exactly while a
  -- variable points to it, at an address of its own; each has a timer of the system, no two the same;
  -- and the system's other timers are the ones that it had before.
  pub run_uses-targets :
      (us : List (Use T P)) (o : O)
      → (p : Program O) × (run_uses calls times allocate
            (record { handles = []; timers = []; os = o })
            us
          ≡ returns p)
        × ((a : ℕ) → contains (addresses p.timers) a ≡ contains (targets p.handles) a)
        × Distinct (addresses p.timers)
        × Owns has (ids p.timers) p.os
        × ((k : ℕ) → is_other has p.timers p.os k ≡ has k o)
  unfolding contains
  run_uses-targets us o =
      let (p, r, ((owned, others), d, live)) =
        run_uses-Shares has calls times os laws (λ k. has k o) room allocate fresh us
          (record { handles = []; timers = []; os = o }) ((tt, λ k. ground arith), tt, λ b. refl) in
      (p, r, live, d, owned, others)
