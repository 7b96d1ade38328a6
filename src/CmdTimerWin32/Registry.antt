-- ===== src/CmdTimerWin32/Registry.antt =====
-- The registry of the timers that run: which identifier leads to which object.
use native.Mathlib.Decide.{ℕ_discrete}
use frc.Prelude.{
  ℕ, ◌+◌, ◌^◌, ◌≤◌, ◌≡◌, ◌≢◌, refl, ap, ◌∙◌, ◌⊎◌, inl, inr, Bool, true, false, List, none, some,
  arith, ◌==◌, if◌then◌else◌, length, Option-cases,
}
use frc.LogMacros.{returns}
use frc.CmdTimerWin32.{
  TimerOs, Timers, Impl, find_timer, insert_timer, register, timer_set_time, cancel,
}
use frc.CmdTimerWin32.Ids.{
  Inv, timer_set_time-Inv, cancel-Inv, cancel_parts, find_timer_unknown, find_timer-insert_timer,
  find_timer-erase_timer,
}
use frc.CmdTimerWin32.Objects.{World, put_impl}

-- What the documentation of SetTimer and KillTimer says of the timers that exist, `live`: SetTimer
-- fails, or gives the identifier asked for or one that no timer had; the timer then exists, and so do
-- the others; and a call of KillTimer that fails deletes none.
pub record IsTimerOs {O : Type 0} (calls : TimerOs O) (live : O → ℕ → Bool) : Type 0 where
  pub given :
      (n milliseconds : ℕ) (o : O)
      → let id = (calls.set_timer n milliseconds o).0 in (id ≡ 0) ⊎ (id ≡ n) ⊎ (live o id ≡ false)
  pub made :
      (n milliseconds : ℕ) (o : O)
      → (calls.set_timer n milliseconds o).0 ≢ 0
      → live (calls.set_timer n milliseconds o).1 (calls.set_timer n milliseconds o).0 ≡ true
  pub kept :
      (n milliseconds k : ℕ) (o : O)
      → live o k ≡ true
      → live (calls.set_timer n milliseconds o).1 k ≡ true
  pub not_killed :
      (id k : ℕ) (o : O)
      → (calls.kill_timer id o).0 ≡ false
      → live o k ≡ true
      → live (calls.kill_timer id o).1 k ≡ true

-- A timer runs exactly if the registry leads from its identifier to it, and the registered timers
-- exist. The identifier 0 stands for a timer that the system did not make.
pub record IsConsistent {O : Type 0} (live : O → ℕ → Bool) (w : World O) : Type 0 where
  pub ids : Inv w.timers
  pub registered :
      (id t : ℕ)
      → id ≢ 0
      → find_timer id w.timers.id_to_timer_map ≡ some t
      → (w.impls t).timer_id ≡ id
  pub running :
      (t : ℕ)
      → (w.impls t).timer_id ≢ 0
      → find_timer (w.impls t).timer_id w.timers.id_to_timer_map ≡ some t
  pub placed : (t : ℕ) → (w.impls t).address ≡ t
  pub existing :
      (id : ℕ) → id ≢ 0 → find_timer id w.timers.id_to_timer_map ≢ none → live w.timers.os id ≡ true

find-insert_nonzero :
    (id t k : ℕ) (m : List (ℕ × ℕ))
    → (id ≡ 0) ⊎ (find_timer id m ≡ none)
    → k ≢ 0
    → find_timer k (insert_timer id t m) ≡ (if id == k then some t else find_timer k m)
unfolding find_timer insert_timer
find-insert_nonzero id t k m (inl e) nonzero = ground (arith, Option-cases (find_timer id m))
find-insert_nonzero id t k m (inr e) nonzero = find_timer-insert_timer id t k m e

-- The parts of a registration.
register_parts :
    {O : Type 0} (calls : TimerOs O) (t : Timers O) (self : Impl) (id : ℕ) (o : O)
    → let (t', self') = register calls t self id o in
      (t'.id_to_timer_map ≡ insert_timer id self.address t.id_to_timer_map)
      × (t'.os ≡ o)
      × (self'.timer_id ≡ id)
      × (self'.address ≡ self.address)
unfolding register
register_parts calls t self id o = (refl, refl, refl, refl)

module _ {O : Type 0} (calls : TimerOs O) (live : O → ℕ → Bool) (laws : IsTimerOs calls live)
    (w : World O) (v : IsConsistent live w) (p : ℕ) where
  -- An identifier that the system gives to a new timer is none that is registered.
  unregistered :
      (milliseconds : ℕ)
      → let id = (calls.set_timer w.timers.guaranteed_unused_id milliseconds w.timers.os).0 in
        (id ≡ 0) ⊎ (find_timer id w.timers.id_to_timer_map ≡ none)
  unregistered milliseconds =
      let n = w.timers.guaranteed_unused_id in
      let id = (calls.set_timer n milliseconds w.timers.os).0 in
      let free = find_timer_unknown w.timers n v.ids v.ids.fresh in
      ground (
        arith,
        laws.given n milliseconds w.timers.os,
        free,
        v.existing id,
        Option-cases (find_timer id w.timers.id_to_timer_map),
      )

  module _ (milliseconds : ℕ) where
    abbrev asked : ℕ × O
    asked = calls.set_timer w.timers.guaranteed_unused_id milliseconds w.timers.os

    abbrev result : Timers O × Impl
    result = timer_set_time calls w.timers (w.impls p) milliseconds

    abbrev started : World O
    started = record { timers = result.0; impls = put_impl p result.1 w.impls }

    idle_parts :
        (w.impls p).timer_id ≡ 0
        → (result.0.id_to_timer_map ≡ insert_timer asked.0 p w.timers.id_to_timer_map)
          × (result.0.os ≡ asked.1)
          × (result.1.timer_id ≡ asked.0)
          × (result.1.address ≡ p)
    unfolding timer_set_time register
    idle_parts idle = ground (arith, v.placed p)

    running_parts :
        (w.impls p).timer_id ≢ 0
        → (result.0.id_to_timer_map ≡ w.timers.id_to_timer_map)
          × (result.0.os ≡ (calls.set_timer (w.impls p).timer_id milliseconds w.timers.os).1)
          × (result.1.timer_id ≡ (w.impls p).timer_id)
          × (result.1.address ≡ p)
    unfolding timer_set_time
    running_parts busy = ground (arith, v.placed p)

    find_started :
        (k : ℕ)
        → (w.impls p).timer_id ≡ 0
        → k ≢ 0
        → find_timer k result.0.id_to_timer_map
          ≡ (if asked.0 == k then some p else find_timer k w.timers.id_to_timer_map)
    find_started k idle nonzero =
        ap (find_timer k) (idle_parts idle).0
        ∙ find-insert_nonzero asked.0 p k w.timers.id_to_timer_map (unregistered milliseconds)
            nonzero

    idle-IsConsistent : (w.impls p).timer_id ≡ 0 → Inv result.0 → IsConsistent live started
    idle-IsConsistent idle ids = record {
      ids = ids;
      registered = λ id t nonzero e.
          ground (arith, find_started id idle nonzero, idle_parts idle, v.registered id t nonzero);
      running = λ t nonzero. ground (
        arith,
        find_started asked.0 idle,
        find_started (w.impls t).timer_id idle,
        idle_parts idle,
        v.running t,
        unregistered milliseconds,
      );
      placed = λ t. ground (arith, idle_parts idle, v.placed t);
      existing = λ id nonzero e. ground (
        arith,
        find_started id idle nonzero,
        idle_parts idle,
        v.existing id nonzero,
        laws.made w.timers.guaranteed_unused_id milliseconds w.timers.os,
        laws.kept w.timers.guaranteed_unused_id milliseconds id w.timers.os,
      );
    }

    running-IsConsistent : (w.impls p).timer_id ≢ 0 → Inv result.0 → IsConsistent live started
    running-IsConsistent busy ids =
        let (same, os_after, kept, there) = running_parts busy in
        record {
          ids = ids;
          registered =
              λ id t nonzero e. ground (arith, ap (find_timer id) same, v.registered id t nonzero);
          running = λ t nonzero. ground (arith, same, v.running t, v.running p);
          placed = λ t. ground (arith, v.placed t);
          existing = λ id nonzero e. ground (
            arith,
            ap (find_timer id) same,
            v.existing id nonzero,
            laws.kept (w.impls p).timer_id milliseconds id w.timers.os,
          );
        }

    pub timer_set_time-IsConsistent :
        w.timers.guaranteed_unused_id + length w.timers.used_ids + 2 ≤ 2 ^ 64
        → IsConsistent live started
    timer_set_time-IsConsistent room =
        let ids = timer_set_time-Inv calls w.timers (w.impls p) milliseconds v.ids room in
        elim (ℕ_discrete (w.impls p).timer_id 0) [
          | yes idle ↦ idle-IsConsistent idle ids
          | no busy ↦ running-IsConsistent busy ids
        ]

  cancel_result :
      (t' : Timers O) (i' : Impl)
      → cancel calls w.timers (w.impls p) ≡ returns (t', i')
      → (i'.address ≡ p)
        × (t'.os ≡ (calls.kill_timer (w.impls p).timer_id w.timers.os).1)
        × ((calls.kill_timer (w.impls p).timer_id w.timers.os).0 ≡ false)
  unfolding cancel
  cancel_result t' i' e = ground (arith, v.placed p)

  pub cancel-IsConsistent :
      (t' : Timers O) (i' : Impl)
      → cancel calls w.timers (w.impls p) ≡ returns (t', i')
      → IsConsistent live (record { timers = t'; impls = put_impl p i' w.impls })
  cancel-IsConsistent t' i' e =
      let (same, used, map, off) = cancel_parts calls w.timers t' (w.impls p) i' e in
      let (there, os_after, failed) = cancel_result t' i' e in
      let gone = (w.impls p).timer_id in
      let find : (k : ℕ)
          → find_timer k t'.id_to_timer_map
            ≡ (if gone == k then none else find_timer k w.timers.id_to_timer_map) =
        λ k. ap (find_timer k) map ∙ find_timer-erase_timer gone k w.timers.id_to_timer_map in
      record {
        ids = cancel-Inv calls w.timers t' (w.impls p) i' v.ids e;
        registered = λ id t nonzero h. ground (arith, find id, v.registered id t nonzero);
        running = λ t nonzero. ground (arith, find (w.impls t).timer_id, v.running t, v.running p);
        placed = λ t. ground (arith, v.placed t);
        existing = λ id nonzero h.
            ground (arith, find id, v.existing id nonzero, laws.not_killed gone id w.timers.os);
      }

  -- A change of an object that keeps its identifier and its place.
  pub put-IsConsistent :
      (i' : Impl)
      → i'.timer_id ≡ (w.impls p).timer_id
      → i'.address ≡ p
      → IsConsistent live (record w { impls = put_impl p i' w.impls })
  put-IsConsistent i' same there = record {
    ids = v.ids;
    registered = λ id t nonzero h. ground (arith, v.registered id t nonzero);
    running = λ t nonzero. ground (arith, v.running t, v.running p);
    placed = λ t. ground (arith, v.placed t);
    existing = v.existing;
  }
