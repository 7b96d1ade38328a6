-- ===== src/CmdTimerWin32/History.antt =====
-- Timers over a history of calls, and what the system's callback does in it.
use frc.Prelude.{
  ℕ, ◌+◌, ◌^◌, ◌≤◌, ◌≡◌, ◌≢◌, refl, sym, ◌⊎◌, inl, inr, Bool, Option, none, some, arith, length,
  Option-cases,
}
use frc.Prelude.Int.{ℤ, pos, negsuc, ◌-ℤ◌}
use frc.LogMacros.{Outcome, returns, returns_parts}
use mathlib.Core.Path.{subst}
use frc.CmdTimerWin32.{
  TimerOs, Timers, Impl, Call, find_timer, cancel, uint, start_relative, start_absolute,
  init_timers, new_impl, set_cmd, timer_set_time, timer_handler, fire,
}
use frc.CmdTimerWin32.Ids.{init_timers-Inv, cancel_parts}
use frc.CmdTimerWin32.Objects.{
  World, put_impl, new_world, new_timer, set_cmd_of, start_relative_at, start_absolute_at,
  cancel_at, destroy,
}
use frc.CmdTimerWin32.Registry.{
  IsTimerOs, IsConsistent, timer_set_time-IsConsistent, cancel-IsConsistent, put-IsConsistent,
}

-- The calls on timer objects; an object is destroyed when the last pointer to it is.
pub data Event : Type 0 where
  makes : (p : ℕ) (command multiplex : Option ℕ) → Event
  sets_cmd : (p : ℕ) (command : Option ℕ) → Event
  starts_relative : (p : ℕ) (delay : ℤ) → Event
  starts_absolute : (p : ℕ) (now time : ℤ) → Event
  cancels : (p : ℕ) → Event
  destroys : (p : ℕ) → Event

-- The identifiers do not reach their width.
abbrev pub HasRoom : {O : Type 0} → World O → Type 0
HasRoom w = w.timers.guaranteed_unused_id + length w.timers.used_ids + 2 ≤ 2 ^ 64

-- When a call can happen. A new object is not where a running one is, and an object that the registry
-- points to is not destroyed.
abbrev pub CanHappen : {O : Type 0} → World O → Event → Type 0
CanHappen w (makes p command multiplex) = (w.impls p).timer_id ≡ 0
CanHappen w (sets_cmd p command) = Unit
CanHappen w (starts_relative p delay) = HasRoom w
CanHappen w (starts_absolute p now time) = HasRoom w
CanHappen w (cancels p) = Unit
CanHappen w (destroys p) = (id : ℕ) → find_timer id w.timers.id_to_timer_map ≢ some p

module _ {O : Type 0} (calls : TimerOs O) where
  unfoldable pub after : World O → Event → Outcome (World O)
  after w (makes p command multiplex) = returns (new_timer p command multiplex w)
  after w (sets_cmd p command) = returns (set_cmd_of p command w)
  after w (starts_relative p delay) = start_relative_at calls p delay w
  after w (starts_absolute p now time) = start_absolute_at calls p now time w
  after w (cancels p) = cancel_at calls p w
  after w (destroys p) = destroy calls p w

  -- What a history of calls that return leads to. (A call that throws changes nothing.)
  pub data Reachable : World O → Type 0 where
    first : (o : O) → Reachable (new_world o)
    next :
        (w w' : World O) (e : Event)
        → Reachable w
        → CanHappen w e
        → after w e ≡ returns w'
        → Reachable w'

  module _ (live : O → ℕ → Bool) (laws : IsTimerOs calls live) where
    new_world-IsConsistent : (o : O) → IsConsistent live (new_world o)
    unfolding new_world new_impl init_timers find_timer
    new_world-IsConsistent o = record {
      ids = init_timers-Inv o;
      registered = λ id t nonzero h. absurd (cc);
      running = λ t nonzero. absurd (nonzero refl);
      placed = λ t. refl;
      existing = λ id nonzero h. absurd (h refl);
    }

    start_relative-IsConsistent :
        (w : World O) (p : ℕ) (delay : ℤ) (t' : Timers O) (i' : Impl)
        → IsConsistent live w
        → HasRoom w
        → start_relative calls w.timers (w.impls p) delay ≡ returns (t', i')
        → IsConsistent live (record { timers = t'; impls = put_impl p i' w.impls })
    unfolding start_relative
    start_relative-IsConsistent w p (negsuc n) t' i' v room e = absurd (cc)
    start_relative-IsConsistent w p (pos n) t' i' v room e =
        elim (Option-cases (w.impls p).cmd_to_invoke) [
          | inl missing ↦ absurd (ground arith)
          | inr (c, there) ↦
              let same : timer_set_time calls w.timers (w.impls p) (uint n) ≡ (t', i') =
                ground arith in
              subst
                (λ r. IsConsistent live (record { timers = r.0; impls = put_impl p r.1 w.impls }))
                same (timer_set_time-IsConsistent calls live laws w v p (uint n) room)
        ]

    cancel_at-IsConsistent :
        (w w' : World O) (p : ℕ)
        → IsConsistent live w
        → cancel_at calls p w ≡ returns w'
        → IsConsistent live w'
    unfolding cancel_at
    cancel_at-IsConsistent w w' p v e =
        let ((t', i'), r, same) = returns_parts (cancel calls w.timers (w.impls p)) _ w' e in
        rw same (cancel-IsConsistent calls live laws w v p t' i' r)

    cancel_at_off :
        (w w' : World O) (p : ℕ) → cancel_at calls p w ≡ returns w' → (w'.impls p).timer_id ≡ 0
    unfolding cancel_at
    cancel_at_off w w' p e =
        let ((t', i'), r, same) = returns_parts (cancel calls w.timers (w.impls p)) _ w' e in
        let (ids, used, map, off) = cancel_parts calls w.timers t' (w.impls p) i' r in
        rw same (ground arith)

    start_relative_at-IsConsistent :
        (w w' : World O) (p : ℕ) (delay : ℤ)
        → IsConsistent live w
        → HasRoom w
        → start_relative_at calls p delay w ≡ returns w'
        → IsConsistent live w'
    unfolding start_relative_at
    start_relative_at-IsConsistent w w' p delay v room e =
        let ((t', i'), r, same) =
          returns_parts (start_relative calls w.timers (w.impls p) delay) _ w' e in
        rw same (start_relative-IsConsistent w p delay t' i' v room r)

    -- The destructor's cancel, and then the memory is free.
    destroy_parts :
        (w w' : World O) (p : ℕ)
        → destroy calls p w ≡ returns w'
        → (w1 : World O) × (cancel_at calls p w ≡ returns w1)
          × (w' ≡ record w1 { impls = put_impl p (new_impl p none none) w1.impls })
    unfolding destroy
    destroy_parts w w' p e = returns_parts (cancel_at calls p w) _ w' e

    after-IsConsistent :
        (w w' : World O) (e : Event)
        → IsConsistent live w
        → CanHappen w e
        → after w e ≡ returns w'
        → IsConsistent live w'
    unfolding after new_timer new_impl set_cmd_of set_cmd start_absolute_at start_absolute
        start_relative_at
    after-IsConsistent w w' (makes p command multiplex) v free e =
        let made =
          put-IsConsistent calls live laws w v p (new_impl p command multiplex) (sym free) refl in
        subst (IsConsistent live) (cc) made
    after-IsConsistent w w' (sets_cmd p command) v u e =
        let made =
          put-IsConsistent calls live laws w v p (set_cmd (w.impls p) command) refl (v.placed p) in
        subst (IsConsistent live) (cc) made
    after-IsConsistent w w' (starts_relative p delay) v room e =
        start_relative_at-IsConsistent w w' p delay v room e
    after-IsConsistent w w' (starts_absolute p now time) v room e =
        start_relative_at-IsConsistent w w' p (time -ℤ now) v room e
    after-IsConsistent w w' (cancels p) v u e = cancel_at-IsConsistent w w' p v e
    after-IsConsistent w w' (destroys p) v unreferenced e =
        let (w1, cancelled, same) = destroy_parts w w' p e in
        let v1 = cancel_at-IsConsistent w w1 p v cancelled in
        rw same (
          put-IsConsistent calls live laws w1 v1 p (new_impl p none none)
            (sym (cancel_at_off w w1 p cancelled)) refl)

    -- Over any history of calls that return, as long as the identifiers do not run past their width
    -- and the system behaves as documented, a timer runs exactly if the registry leads from its
    -- identifier to it; the next identifier to ask for is unused, every registered one is used, and
    -- its timer exists in the system.
    pub Reachable-IsConsistent : (w : World O) → Reachable w → IsConsistent live w
    Reachable-IsConsistent w (first o) = new_world-IsConsistent o
    Reachable-IsConsistent w (next w0 w1 e before can h) =
        after-IsConsistent w0 w1 e (Reachable-IsConsistent w0 before) can h

    -- In every state of such a history the system's callback with an identifier fires the timer that
    -- runs with it, with the command that the timer has now; where no timer runs with it, as after a
    -- Cancel, the callback does nothing.
    pub timer_handler-Reachable :
        {S : Type 0} (interrupt_is_std : Bool) (call : Call S)
        (on_timer_fire : ℕ → ℕ → Option ℕ → S → Outcome S) (w : World O) (id : ℕ) (s : S)
        → Reachable w
        → id ≢ 0
        → let called =
            timer_handler interrupt_is_std call on_timer_fire w.impls w.timers.id_to_timer_map id
              s in
          ((t : ℕ) × ((w.impls t).timer_id ≡ id)
            × (called ≡ fire interrupt_is_std call on_timer_fire (w.impls t) s))
          ⊎ (((t : ℕ) → (w.impls t).timer_id ≢ id) × (called ≡ returns s))
    unfolding timer_handler
    timer_handler-Reachable is_std call on_timer_fire w id s before nonzero =
        let v = Reachable-IsConsistent w before in
        elim (Option-cases (find_timer id w.timers.id_to_timer_map)) [
          | inl missing ↦ inr (λ t runs. ground (arith, v.running t), ground arith)
          | inr (t, there) ↦ inl (t, v.registered id t nonzero there, ground arith)
        ]
