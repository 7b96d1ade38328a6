-- ===== src/CmdTimerWin32/Ids.antt =====
-- The identifiers of CmdTimerWin32: the search for one that no timer uses, and the bookkeeping.
use frc.Prelude.{
  ℕ, zero, suc, ◌+◌, ◌^◌, ◌≤◌, ◌<◌, ◌≡◌, ◌≢◌, refl, true, false, ◌||◌, List, [], ◌∷◌, none, some,
  ◌==◌, if◌then◌else◌, arith, contains, length, leb, Bool-cases, inl, inr, Option-cases, ◌⊎◌,
}
use native.Mathlib.Decide.{ℕ_discrete}
use frc.LogMacros.{returns}
use frc.CmdTimerWin32.{
  TimerOs, Timers, Impl, uint_ptr, init_timers, next_unused, insert_id, erase_id, find_timer,
  insert_timer, erase_timer, register, timer_set_time, cancel,
}

-- How many of the identifiers are `id` or above it.
count_from : ℕ → List ℕ → ℕ
count_from id [] = 0
count_from id (x ∷ used) = (if leb id x then 1 else 0) + count_from id used

count_from-suc-le : (id : ℕ) (used : List ℕ) → count_from (id + 1) used ≤ count_from id used
unfolding count_from
count_from-suc-le id [] = omega arith
count_from-suc-le id (x ∷ used) = ground (arith, count_from-suc-le id used)

count_from-suc-lt :
    (id : ℕ) (used : List ℕ)
    → contains used id ≡ true
    → count_from (id + 1) used < count_from id used
unfolding count_from contains
count_from-suc-lt id [] h = cc
count_from-suc-lt id (x ∷ used) h =
    ground (arith, count_from-suc-lt id used, count_from-suc-le id used)

count_from-le-length : (id : ℕ) (used : List ℕ) → count_from id used ≤ length used
unfolding count_from
count_from-le-length id [] = omega arith
count_from-le-length id (x ∷ used) = ground (arith, count_from-le-length id used)

-- What the loop's result `r` is: the first number from `id` on that is not used.
pub record IsNextUnused (used : List ℕ) (id r : ℕ) : Type 0 where
  pub unused : contains used r ≡ false
  pub above : id ≤ r
  pub first : (k : ℕ) → id ≤ k → k < r → contains used k ≡ true

next_unused_loop :
    (fuel : ℕ) (used : List ℕ) (id : ℕ)
    → count_from id used < fuel
    → id + fuel ≤ 2 ^ 64
    → IsNextUnused used id (next_unused fuel used id)
unfolding next_unused
next_unused_loop zero used id h room = absurd (omega arith)
next_unused_loop (suc fuel) used id h room = elim (Bool-cases (contains used id)) [
  | inl taken ↦
      let fewer : count_from (id + 1) used < count_from id used = count_from-suc-lt id used taken in
      let no_wrap : uint_ptr (id + 1) ≡ id + 1 = omega arith in
      let rest = next_unused_loop fuel used (id + 1) (omega arith) (omega arith) in
      rw (taken, no_wrap)
        (record {
          unused = rest.unused;
          above = omega (arith, rest.above);
          first = λ k low high. elim (ℕ_discrete id k) [
            | yes e ↦ rw e at taken
            | no ne ↦ rest.first k (omega arith) high
          ];
        })
  | inr free ↦
      rw free
        (record { unused = free; above = omega arith; first = λ k low high. absurd (omega arith) })
]

-- The search of TimerSetTime ends: with one round more than there are used identifiers it finds the
-- first number from its start on that none of them is, provided that it does not run past the width
-- of an identifier.
pub next_unused_lem :
    (used : List ℕ) (id : ℕ)
    → id + length used + 1 ≤ 2 ^ 64
    → IsNextUnused used id (next_unused (length used + 1) used id)
next_unused_lem used id room =
    let few : count_from id used < length used + 1 = omega (arith, count_from-le-length id used) in
    next_unused_loop (length used + 1) used id few (omega arith)

-- The next identifier to ask for is not used, and every identifier of the map is.
pub record Inv {O : Type 0} (t : Timers O) : Type 0 where
  pub fresh : contains t.used_ids t.guaranteed_unused_id ≡ false
  pub known : (id : ℕ) → find_timer id t.id_to_timer_map ≢ none → contains t.used_ids id ≡ true

contains-insert_id :
    (id k : ℕ) (used : List ℕ) → contains (insert_id id used) k ≡ ((id == k) || contains used k)
unfolding insert_id contains
contains-insert_id id k used = elim (ℕ_discrete id k) [
  | yes e ↦ ground arith
  | no ne ↦ ground arith
]

length-insert_id-le : (id : ℕ) (used : List ℕ) → length (insert_id id used) ≤ length used + 1
unfolding insert_id
length-insert_id-le id used = ground arith

contains-erase_id :
    (id k : ℕ) (used : List ℕ)
    → contains (erase_id id used) k ≡ (if id == k then false else contains used k)
unfolding erase_id contains
contains-erase_id id k [] = ground arith
contains-erase_id id k (x ∷ used) = ground (arith, contains-erase_id id k used)

pub find_timer-insert_timer :
    (id t k : ℕ) (m : List (ℕ × ℕ))
    → find_timer id m ≡ none
    → find_timer k (insert_timer id t m) ≡ (if id == k then some t else find_timer k m)
unfolding find_timer insert_timer
find_timer-insert_timer id t k m h = ground arith

find_timer-insert_known :
    (id t k : ℕ) (m : List (ℕ × ℕ))
    → find_timer k (insert_timer id t m) ≢ none
    → (id ≡ k) ⊎ (find_timer k m ≢ none)
unfolding find_timer insert_timer
find_timer-insert_known id t k m h = elim (ℕ_discrete id k) [
  | yes e ↦ inl e
  | no ne ↦ inr (λ gone. h (ground arith))
]

pub find_timer-erase_timer :
    (id k : ℕ) (m : List (ℕ × ℕ))
    → find_timer k (erase_timer id m) ≡ (if id == k then none else find_timer k m)
unfolding find_timer erase_timer
find_timer-erase_timer id k [] = ground arith
find_timer-erase_timer id k ((j, t) ∷ m) = ground (arith, find_timer-erase_timer id k m)

pub find_timer_unknown :
    {O : Type 0} (t : Timers O) (id : ℕ)
    → Inv t
    → contains t.used_ids id ≡ false
    → find_timer id t.id_to_timer_map ≡ none
find_timer_unknown t id v h = elim (Option-cases (find_timer id t.id_to_timer_map)) [
  | inl e ↦ e
  | inr (a, e) ↦ absurd (cc (v.known id (λ gone. cc)))
]

-- The statics start in the invariant.
pub init_timers-Inv : {O : Type 0} (o : O) → Inv (init_timers o)
unfolding init_timers contains find_timer
init_timers-Inv o = record { fresh = refl; known = λ id h. absurd (h refl) }

module _ {O : Type 0} (calls : TimerOs O) where
  register-Inv :
      (t : Timers O) (self : Impl) (id : ℕ) (o : O)
      → Inv t
      → t.guaranteed_unused_id + length t.used_ids + 2 ≤ 2 ^ 64
      → Inv (register calls t self id o).0
  unfolding register
  register-Inv t self id o v room = record {
    fresh =
        (next_unused_lem (insert_id id t.used_ids) t.guaranteed_unused_id
          (omega (arith, length-insert_id-le id t.used_ids))).unused;
    known = λ k h. elim (find_timer-insert_known id self.address k t.id_to_timer_map h) [
      | inl e ↦ ground (arith, contains-insert_id id k t.used_ids)
      | inr old ↦ ground (arith, contains-insert_id id k t.used_ids, v.known k old)
    ];
  }

  -- TimerSetTime keeps the invariant that the next identifier to ask for is not used and that every
  -- identifier in the map is used: whatever identifier the system gives, and also when it gives none,
  -- as long as the identifiers do not run past their width.
  pub timer_set_time-Inv :
      (t : Timers O) (self : Impl) (milliseconds : ℕ)
      → Inv t
      → t.guaranteed_unused_id + length t.used_ids + 2 ≤ 2 ^ 64
      → Inv (timer_set_time calls t self milliseconds).0
  unfolding timer_set_time
  timer_set_time-Inv t self milliseconds v room =
      let (id, o) = set_timer t.guaranteed_unused_id milliseconds t.os in
      elim (ℕ_discrete self.timer_id 0) [
        | yes e ↦ let v' = register-Inv t self id o v room in ground arith
        | no ne ↦ record {
          fresh = ground (arith, v.fresh);
          known = λ k h. ground (arith, v.known k);
        }
      ]
    where
      open calls use {set_timer}

  pub cancel_parts :
      (t t' : Timers O) (self self' : Impl)
      → cancel calls t self ≡ returns (t', self')
      → (t'.guaranteed_unused_id ≡ t.guaranteed_unused_id)
        × (t'.used_ids ≡ erase_id self.timer_id t.used_ids)
        × (t'.id_to_timer_map ≡ erase_timer self.timer_id t.id_to_timer_map)
        × (self'.timer_id ≡ 0)
  unfolding cancel
  cancel_parts t t' self self' h = ground arith

  -- A call of Cancel that returns keeps the invariant that the next identifier to ask for is not used
  -- and that every identifier in the map is used.
  pub cancel-Inv :
      (t t' : Timers O) (self self' : Impl)
      → Inv t
      → cancel calls t self ≡ returns (t', self')
      → Inv t'
  cancel-Inv t t' self self' v h =
      let (same, used, timers, off) = cancel_parts t t' self self' h in
      record {
        fresh =
            rw (used, same, contains-erase_id self.timer_id t.guaranteed_unused_id t.used_ids)
              (ground (arith, v.fresh));
        known = λ k there. ground (
          arith,
          there,
          v.known k,
          contains-erase_id self.timer_id k t.used_ids,
          find_timer-erase_timer self.timer_id k t.id_to_timer_map,
        );
      }
