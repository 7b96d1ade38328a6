-- ===== src/CmdTimerPosix/Handles/Addresses.antt =====
-- What the operations of POSIX timers do to the addresses of the implementations, and what the
-- operations on variables do to the addresses that these hold.
use native.Mathlib.Decide.{ℕ_discrete}
use frc.Prelude.{
  ℕ, ◌*◌, ◌≡◌, refl, ◌∙◌, ap, false, not, ◌&&◌, ◌||◌, List, [], ◌∷◌, Option, some, ◌==◌,
  if◌then◌else◌, arith, contains, Distinct, Bool-cases, inl, inr, Option-cases,
}
use frc.LogMacros.{Outcome, returns, returns_parts}
use frc.CmdTimerPosix.{
  PosixOs, Times, PosixImpl, new_impl, timer_create_impl, timer_set_time, set_cmd, cancel, destroy,
  start_relative, start_absolute,
}
use frc.CmdTimerPosix.Events.{
  Event, create, destroys, at_head, behind, at_timer, destroy_timer, step,
}
use frc.CmdTimerPosix.Handles.{find_target, drop_handle, retarget, targets, addresses}

-- Where a variable points to `a`, dropping it takes away one pointer to `a`, and giving it another
-- target takes that one's place.
pub targets-drop_handle :
    (h a b : ℕ) (hs : List (ℕ × ℕ))
    → find_target h hs ≡ some a
    → contains (targets hs) b ≡ (a == b || contains (targets (drop_handle h hs)) b)
unfolding find_target drop_handle contains
targets-drop_handle h a b [] e = ground arith
targets-drop_handle h a b ((k, c) ∷ hs) e = ground (arith, targets-drop_handle h a b hs)

pub targets-retarget :
    (h a a' b : ℕ) (hs : List (ℕ × ℕ))
    → find_target h hs ≡ some a
    → contains (targets (retarget h a' hs)) b ≡ (a' == b || contains (targets (drop_handle h hs)) b)
unfolding find_target drop_handle retarget contains
targets-retarget h a a' b [] e = ground arith
targets-retarget h a a' b ((k, c) ∷ hs) e = ground (arith, targets-retarget h a a' b hs)

-- The list without the first place where `a` stands.
abbrev pub erase_first : ℕ → List ℕ → List ℕ
erase_first a [] = []
erase_first a (x ∷ xs) = let rest = erase_first a xs in if x == a then xs else x ∷ rest

pub contains-erase_first :
    (a b : ℕ) (xs : List ℕ)
    → Distinct xs
    → contains (erase_first a xs) b ≡ (not (b == a) && contains xs b)
unfolding contains
contains-erase_first a b [] d = ground arith
contains-erase_first a b (x ∷ xs) (fresh, d) = elim (ℕ_discrete b x) [
  | yes same ↦
      let f : contains xs b ≡ false = ap (contains xs) same ∙ fresh in
      ground (arith, contains-erase_first a b xs d)
  | no ne ↦ ground (arith, contains-erase_first a b xs d)
]

pub erase_first-Distinct : (a : ℕ) (xs : List ℕ) → Distinct xs → Distinct (erase_first a xs)
unfolding contains
erase_first-Distinct a [] d = tt
erase_first-Distinct a (x ∷ xs) (fresh, d) =
    ground (arith, contains-erase_first a x xs d, erase_first-Distinct a xs d)

-- A method keeps the timer's address.
abbrev pub KeepsAddress : {O : Type 0} → (PosixImpl → O → Outcome (PosixImpl × O)) → Type 0
KeepsAddress {O} f =
    (x x' : PosixImpl) (o o' : O) → f x o ≡ returns (x', o') → x'.address ≡ x.address

module _ {O : Type 0} where
  pub at_timer-addresses :
      (a : ℕ) (f : PosixImpl → O → Outcome (PosixImpl × O)) (xs : List PosixImpl) (o : O)
      (w : List PosixImpl × O)
      → KeepsAddress f
      → at_timer a f xs o ≡ returns w
      → addresses w.0 ≡ addresses xs
  unfolding at_timer
  at_timer-addresses a f [] o w keeps e = ground arith
  at_timer-addresses a f (x ∷ xs) o w keeps e = elim (Bool-cases (x.address == a)) [
    | inl here ↦
        let ((x', o'), r, same) = returns_parts (f x o) (at_head xs) w (ground arith) in
        rw same (ap (λ i. i ∷ addresses xs) (keeps x x' o o' r))
    | inr there ↦
        let ((xs', o'), r, same) = returns_parts (at_timer a f xs o) (behind x) w (ground arith) in
        rw same (ap (◌∷◌ x.address) (at_timer-addresses a f xs o (xs', o') keeps r))
  ]

module _ {O T P : Type 0} (calls : PosixOs O) (times : Times T P) where
  set_time-KeepsAddress : (s n : ℕ) → KeepsAddress (timer_set_time calls s n)
  unfolding timer_set_time
  set_time-KeepsAddress s n x x' o o' e =
      elim (Option-cases (calls.timer_settime x.timer_id s n o)) [
        | inl failed ↦ ground arith
        | inr (o1, done) ↦ ground arith
      ]

  pub cancel-KeepsAddress : KeepsAddress (cancel calls)
  unfolding cancel
  cancel-KeepsAddress x x' o o' e = set_time-KeepsAddress 0 0 x x' o o' e

  pub start_relative-KeepsAddress : (delay : T) → KeepsAddress (start_relative calls times delay)
  unfolding start_relative
  start_relative-KeepsAddress delay x x' o o' e = ground (
    arith,
    set_time-KeepsAddress (times.total_seconds delay) (times.fractional_seconds delay * 1000) x x' o
        o',
  )

  pub destroy_timer-addresses :
      (a : ℕ) (xs : List PosixImpl) (o : O) (w : List PosixImpl × O)
      → destroy_timer calls times a xs o ≡ returns w
      → addresses w.0 ≡ erase_first a (addresses xs)
  unfolding destroy_timer
  destroy_timer-addresses a [] o w e = ground arith
  destroy_timer-addresses a (x ∷ xs) o w e = elim (Bool-cases (x.address == a)) [
    | inl here ↦
        let (o', r, same) = returns_parts (destroy calls x o) (λ o1. (xs, o1)) w (ground arith) in
        rw (same, here) refl
    | inr there ↦
        let ((xs', o'), r, same) =
          returns_parts (destroy_timer calls times a xs o) (behind x) w (ground arith) in
        rw (same, there) (ap (◌∷◌ x.address) (destroy_timer-addresses a xs o (xs', o') r))
  ]

  create_addresses :
      (a : ℕ) (c m : Option ℕ) (xs : List PosixImpl) (o : O) (w : List PosixImpl × O)
      → step calls times (xs, o) (create a c m) ≡ returns w
      → addresses w.0 ≡ a ∷ addresses xs
  unfolding step new_impl timer_create_impl
  create_addresses a c m xs o w e = elim (Option-cases (calls.timer_create a o)) [
    | inl failed ↦ ground arith
    | inr (r, done) ↦ ground arith
  ]

  -- The addresses after an event.
  abbrev pub addresses_after : List ℕ → Event T P → List ℕ
  addresses_after xs (create a c m) = a ∷ xs
  addresses_after xs (destroys a) = erase_first a xs
  addresses_after xs other = xs

  pub addresses-step :
      (w w' : List PosixImpl × O) (e : Event T P)
      → step calls times w e ≡ returns w'
      → addresses w'.0 ≡ addresses_after (addresses w.0) e
  unfolding step set_cmd start_absolute
  addresses-step (xs, o) w' (create a c m) h = create_addresses a c m xs o w' h
  addresses-step (xs, o) w' (Event.sets_cmd a c) h =
      at_timer-addresses a _ xs o w' (λ x x' o1 o2 r. ground arith) h
  addresses-step (xs, o) w' (Event.starts a delay) h =
      at_timer-addresses a _ xs o w' (start_relative-KeepsAddress delay) h
  addresses-step (xs, o) w' (Event.starts_at now a t) h =
      at_timer-addresses a _ xs o w' (start_relative-KeepsAddress (times.difference t now)) h
  addresses-step (xs, o) w' (Event.cancels a) h =
      at_timer-addresses a _ xs o w' cancel-KeepsAddress h
  addresses-step (xs, o) w' (destroys a) h = destroy_timer-addresses a xs o w' h
