-- ===== src/CmdTimerMultiplex/Map.antt =====
-- What startTimer and onTimerFire do to the map of a CmdTimerMultiplex.
use frc.Prelude.{ℕ, ◌≡◌, refl, Bool, List, [], ◌∷◌, Option, none, some, arith, ◌==◌, if◌then◌else◌}
use frc.LogMacros.{Outcome, returns, Exception, recoverable, catch_std}
use frc.CmdTimerMultiplex.{
  CmdTimerMultiplex, log_caught, assign, lookup, erase, start_timer, forget, on_timer_fire,
}

pub lookup-assign :
    (p t q : ℕ) (m : List (ℕ × ℕ))
    → lookup q (assign p t m) ≡ (if p == q then some t else lookup q m)
unfolding lookup assign
lookup-assign p t q [] = refl
lookup-assign p t q ((r, u) ∷ m) = ground (arith, lookup-assign p t q m)

-- No pointer has two entries, as in a `std::map`.
abbrev pub IsMap : List (ℕ × ℕ) → Type 0
IsMap [] = Unit
IsMap ((p, t) ∷ m) = (lookup p m ≡ none) × IsMap m

pub assign-IsMap : (p t : ℕ) (m : List (ℕ × ℕ)) → IsMap m → IsMap (assign p t m)
unfolding assign lookup
assign-IsMap p t [] v = (refl, tt)
assign-IsMap p t ((q, u) ∷ m) v = ground (arith, lookup-assign p t q m, assign-IsMap p t m v.1)

lookup-erase :
    (p q : ℕ) (m : List (ℕ × ℕ))
    → IsMap m
    → lookup q (erase p m).1 ≡ (if p == q then none else lookup q m)
unfolding lookup erase
lookup-erase p q [] v = ground arith
lookup-erase p q ((r, u) ∷ m) v = ground (arith, lookup-erase p q m v.1)

erased_lem :
    (p : ℕ) (m : List (ℕ × ℕ)) → (erase p m).0 ≡ elim (lookup p m) [ none ↦ 0 | some _ ↦ 1 ]
unfolding lookup erase
erased_lem p [] = refl
erased_lem p ((q, u) ∷ m) = ground (arith, erased_lem p m)

erase-IsMap : (p : ℕ) (m : List (ℕ × ℕ)) → IsMap m → IsMap (erase p m).1
unfolding lookup erase
erase-IsMap p [] v = tt
erase-IsMap p ((q, u) ∷ m) v = ground (arith, v.0, v.1, lookup-erase p q m v.1, erase-IsMap p m v.1)

forget_map : (p : ℕ) (x : CmdTimerMultiplex) → (forget p x).timer_map ≡ (erase p x.timer_map).1
unfolding forget
forget_map p x = ground arith

-- What `forget` leaves in the map and the log.
abbrev pub Forgets : ℕ → CmdTimerMultiplex → CmdTimerMultiplex → Type 0
Forgets p x y =
    IsMap y.timer_map
    × ((q : ℕ) → lookup q y.timer_map ≡ (if p == q then none else lookup q x.timer_map))
    × (y.log ≡ elim (lookup p x.timer_map) [ none ↦ x.log | some _ ↦ recoverable ∷ x.log ])

pub forget-Forgets : (p : ℕ) (x : CmdTimerMultiplex) → IsMap x.timer_map → Forgets p x (forget p x)
forget-Forgets p x v = (
  rw (forget_map p x) (erase-IsMap p x.timer_map v),
  λ q. rw (forget_map p x) (lookup-erase p q x.timer_map v),
  unfold forget in ground (arith, erased_lem p x.timer_map),
)

pub log_caught-IsMap :
    (e : Option Exception) (x : CmdTimerMultiplex)
    → IsMap x.timer_map
    → IsMap (log_caught e x).timer_map
log_caught-IsMap none x v = v
log_caught-IsMap (some e) x v = v

module _ {S : Type 0} where
  -- Where a timer of the multiplex fires and its command returns or throws a standard exception,
  -- onTimerFire returns with the timer taken out of the map as the command left it and every other
  -- entry kept. It logs the handler's message exactly if the command threw, and after that the message
  -- that the timer could not be erased exactly if it was there and was erased.
  pub on_timer_fire-Forgets :
      (interrupt_is_std : Bool)
      (call : ℕ → CmdTimerMultiplex × S → (CmdTimerMultiplex × S) × Option Exception) (p c : ℕ)
      (s s' : CmdTimerMultiplex × S)
      → catch_std interrupt_is_std (call c s) ≡ returns s'
      → IsMap s'.0.timer_map
      → (y : CmdTimerMultiplex) × (on_timer_fire interrupt_is_std call p (some c) s
          ≡ returns (y, s'.1))
        × Forgets p (log_caught (call c s).1 s'.0) y
  unfolding on_timer_fire
  on_timer_fire-Forgets is_std call p c s s' e v =
      let x = log_caught (call c s).1 s'.0 in
      (forget p x, rw e refl, forget-Forgets p x (log_caught-IsMap (call c s).1 s'.0 v))

  -- startTimer enters the new timer under its implementation's address and keeps every other entry,
  -- if the start of the timer returns.
  pub start_timer_lem :
      (start : S → Outcome S) (timer impl : ℕ) (x : CmdTimerMultiplex) (s s' : S)
      → IsMap x.timer_map
      → start s ≡ returns s'
      → (y : CmdTimerMultiplex) × (start_timer start timer impl (x, s) ≡ returns (y, s'))
        × IsMap y.timer_map
        × ((q : ℕ)
            → lookup q y.timer_map ≡ (if impl == q then some timer else lookup q x.timer_map))
  unfolding start_timer
  start_timer_lem start timer impl x s s' v e = (
    record x { timer_map = assign impl timer x.timer_map },
    rw e refl,
    assign-IsMap impl timer x.timer_map v,
    λ q. lookup-assign impl timer q x.timer_map,
  )
