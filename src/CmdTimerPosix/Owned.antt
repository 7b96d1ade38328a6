-- ===== src/CmdTimerPosix/Owned.antt =====
-- The identifiers that POSIX timers own, and what an operation on one timer does to them.
use native.Mathlib.Decide.{ℕ_discrete}
use frc.Prelude.{
  ℕ, ◌≡◌, refl, ◌∙◌, Bool, true, false, not, ◌&&◌, ◌||◌, List, [], ◌∷◌, ◌==◌, arith, contains, ap,
  if_both,
}
use frc.LogMacros.{Exception, Outcome, returns, throws, exits, null_access, ◌>>=◌}
use frc.CmdTimerPosix.{PosixImpl}
use frc.CmdTimerPosix.Events.{at_head, behind, at_timer, ids, Owns}

-- A call that returns a value with the property, or throws.
pub data Safe {A : Type 0} (Good : A → Type 0) : Outcome A → Type 0 where
  value : {a : A} → Good a → Safe Good (returns a)
  thrown : {e : Exception} → Safe Good (throws e)

pub Safe-then :
    {A B : Type 0} (P : A → Type 0) (Q : B → Type 0) (f : A → B) (r : Outcome A)
    → Safe P r
    → ((a : A) → P a → Q (f a))
    → Safe Q (r >>= λ a. returns (f a))
Safe-then P Q f (returns a) (value good) step_good = value (step_good a good)
Safe-then P Q f (throws e) thrown step_good = thrown
Safe-then P Q f (exits n) never step_good = elim never [ ]
Safe-then P Q f null_access never step_good = elim never [ ]

pub Safe-map :
    {A : Type 0} (P Q : A → Type 0) (r : Outcome A) → Safe P r → ((a : A) → P a → Q a) → Safe Q r
Safe-map P Q (returns a) (value good) f = value (f a good)
Safe-map P Q (throws e) thrown f = thrown
Safe-map P Q (exits n) never f = elim never [ ]
Safe-map P Q null_access never f = elim never [ ]

module _ {O : Type 0} (has : ℕ → O → Bool) where
  abbrev Same : O → O → Type 0
  Same o o' = (k : ℕ) → has k o' ≡ has k o

  pub Owns-Same : (is : List ℕ) (o o' : O) → Same o o' → Owns has is o → Owns has is o'
  Owns-Same [] o o' same v = tt
  Owns-Same (i ∷ is) o o' same (there, fresh, v) = (same i ∙ there, fresh, Owns-Same is o o' same v)

  differ : (k i : ℕ) (o : O) → has k o ≡ true → has i o ≡ false → (k == i) ≡ false
  differ k i o there missing = elim (ℕ_discrete k i) [
    | yes same ↦ absurd (cc)
    | no ne ↦ ground arith
  ]

  pub Owns-added :
      (i : ℕ) (is : List ℕ) (o o' : O)
      → ((k : ℕ) → has k o' ≡ (k == i || has k o))
      → Owns has is o
      → Owns has is o'
  Owns-added i [] o o' added v = tt
  Owns-added i (k ∷ is) o o' added (there, distinct, v) =
      (ground (arith, added k), distinct, Owns-added i is o o' added v)

  -- An identifier that the system does not have is none of the timers'.
  pub fresh_of_missing :
      (i : ℕ) (is : List ℕ) (o : O) → has i o ≡ false → Owns has is o → contains is i ≡ false
  unfolding contains
  fresh_of_missing i [] o missing v = refl
  fresh_of_missing i (k ∷ is) o missing (there, distinct, v) =
      let other : (k == i) ≡ false = differ k i o there missing in
      rw other (fresh_of_missing i is o missing v)

  -- The timer keeps its identifier, and the system its timers.
  abbrev pub Keeps : PosixImpl → O → PosixImpl × O → Type 0
  Keeps x o (x', o') = (x'.timer_id ≡ x.timer_id) × Same o o'

  abbrev pub KeepsAll : List PosixImpl → O → List PosixImpl × O → Type 0
  KeepsAll xs o (xs', o') = (ids xs' ≡ ids xs) × Same o o'

  pub at_timer-KeepsAll :
      (a : ℕ) (f : PosixImpl → O → Outcome (PosixImpl × O)) (xs : List PosixImpl) (o : O)
      → ((x : PosixImpl) → has x.timer_id o ≡ true → Safe (Keeps x o) (f x o))
      → Owns has (ids xs) o
      → Safe (KeepsAll xs o) (at_timer a f xs o)
  unfolding at_timer
  at_timer-KeepsAll a f [] o keeps v = value (refl, λ k. refl)
  at_timer-KeepsAll a f (x ∷ xs) o keeps (there, fresh, v) =
      if_both (Safe (KeepsAll (x ∷ xs) o)) (x.address == a) _ _
        (Safe-then (Keeps x o) (KeepsAll (x ∷ xs) o) (at_head xs) (f x o) (keeps x there)
          λ (x', o') (same_id, same). (ap (λ i. i ∷ ids xs) same_id, same))
        (Safe-then (KeepsAll xs o) (KeepsAll (x ∷ xs) o) (behind x) (at_timer a f xs o)
          (at_timer-KeepsAll a f xs o keeps v)
          λ (xs', o') (same_ids, same). (ap (◌∷◌ x.timer_id) same_ids, same))

  -- The system has lost the timer of this identifier, and no other.
  abbrev pub Loses : ℕ → O → O → Type 0
  Loses i o o' = (k : ℕ) → has k o' ≡ (not (k == i) && has k o)

  Owns-Loses :
      (i : ℕ) (is : List ℕ) (o o' : O)
      → Loses i o o'
      → contains is i ≡ false
      → Owns has is o
      → Owns has is o'
  unfolding contains
  Owns-Loses i [] o o' lost fresh v = tt
  Owns-Loses i (k ∷ is) o o' lost fresh (there, distinct, v) =
      (ground (arith, lost k), distinct, Owns-Loses i is o o' lost (ground arith) v)

  -- A timer of the system that belongs to none of the timers.
  abbrev pub is_other : List PosixImpl → O → ℕ → Bool
  is_other xs o k = has k o && not (contains (ids xs) k)

  -- What is left after a destruction: no new identifiers, and the system's other timers.
  abbrev pub Leaves : List PosixImpl → O → List PosixImpl × O → Type 0
  Leaves xs o (ys, o') =
      Owns has (ids ys) o'
      × ((k : ℕ) → contains (ids xs) k ≡ false → contains (ids ys) k ≡ false)
      × ((k : ℕ) → contains (ids xs) k ≡ false → has k o' ≡ has k o)
      × ((k : ℕ) → is_other ys o' k ≡ is_other xs o k)

  pub Leaves-head :
      (x : PosixImpl) (xs : List PosixImpl) (o o' : O)
      → Loses x.timer_id o o'
      → contains (ids xs) x.timer_id ≡ false
      → Owns has (ids xs) o
      → Leaves (x ∷ xs) o (xs, o')
  unfolding contains
  Leaves-head x xs o o' lost fresh v = (
    Owns-Loses x.timer_id (ids xs) o o' lost fresh v,
    λ k h. ground arith,
    λ k h. ground (arith, lost k),
    λ k. ground (arith, lost k),
  )

  pub Leaves-behind :
      (x : PosixImpl) (xs : List PosixImpl) (o : O) (w : List PosixImpl × O)
      → has x.timer_id o ≡ true
      → contains (ids xs) x.timer_id ≡ false
      → Leaves xs o w
      → Leaves (x ∷ xs) o (behind x w)
  unfolding contains
  Leaves-behind x xs o (ys, o') there fresh (v, fewer, same, others) = (
    (same x.timer_id fresh ∙ there, fewer x.timer_id fresh, v),
    λ k h. ground (arith, fewer k),
    λ k h. same k (ground arith),
    λ k. ground (arith, others k),
  )

  -- A timer of the system that is new is not among the others, once it belongs to a new timer.
  pub is_other-added :
      (x : PosixImpl) (xs : List PosixImpl) (o o' : O) (k : ℕ)
      → has x.timer_id o ≡ false
      → has k o' ≡ (k == x.timer_id || has k o)
      → is_other (x ∷ xs) o' k ≡ is_other xs o k
  unfolding contains
  is_other-added x xs o o' k missing added = elim (ℕ_discrete k x.timer_id) [
    | yes same ↦ let gone : has k o ≡ false = ap (λ i. has i o) same ∙ missing in ground arith
    | no ne ↦ ground arith
  ]
