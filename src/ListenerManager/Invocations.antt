-- ===== src/ListenerManager/Invocations.antt =====
-- src/EventManager/ListenerManager.cpp: a whole cycle of `run` up to its wait, the calls of the
-- listeners included. The set of listeners is an `std::unordered_set`, whose order is not specified:
-- it is a parameter. A listener changes the manager and the rest of the program, `S`.
use frc.Prelude.{
  ℕ, ◌≡◌, refl, ◌∙◌, Bool, true, false, ◌||◌, ◌↔◌, List, [], ◌∷◌, Option, none, some, arith, ◌-◌,
  contains, length, get_or, Bool-cases, ◌<◌, ◌≤◌,
}
use frc.LogMacros.{Exception, Severity, recoverable}
use frc.Double.{Double, lit}
use frc.ListenerManager.{
  Joystick, ListenerManager, find_listeners, poll_controls, listeners_to_invoke, bools_ne,
  doubles_ne, run_cycle,
}
use frc.ListenerManager.Invoke.{is_triggered, goes_down, differs, listeners_to_invoke_iff}
use frc.ListenerManager.Readings.{bools_ne-eq, doubles_ne-get_or, length-poll_controls}

module _ {S : Type 0} (call : ℕ → S → S × Option Exception) where
  -- The loop of the invocations. Both handlers log a message and go on.
  unfoldable pub invoke_all : List ℕ → S → S × List Severity
  invoke_all [] s = (s, [])
  invoke_all (l ∷ ls) s =
      let (s', thrown) = call l s in
      let (s'', log) = invoke_all ls s' in
      (s'', elim thrown [ none ↦ log | some e ↦ recoverable ∷ log ])

module _ {D S : Type 0} ⦃d : Double D⦄ (order : List ℕ → List ℕ)
    (call : ℕ → ListenerManager D × S → (ListenerManager D × S) × Option Exception) where
  unfoldable pub cycle :
      Joystick D → ListenerManager D × S → (ListenerManager D × S) × List Severity
  cycle j (m, s) = let (m', to_invoke) = run_cycle m j in invoke_all call (order to_invoke) (m', s)

module _ {D : Type 0} ⦃d : Double D⦄ (eq_comm : (x y : D) → d.eq x y ≡ d.eq y x)
    (m : ListenerManager D) (j : Joystick D) where
  quiet_buttons :
      (k : ℕ)
      → bools_ne (poll_controls j).0 m.button_values ≡ false
      → goes_down m (poll_controls j).0 (poll_controls j).1 k ≡ false
  quiet_buttons k h = rw (bools_ne-eq _ _ h) (ground arith)

  quiet_axes :
      (k : ℕ)
      → doubles_ne (poll_controls j).1 m.joystick_values ≡ false
      → k ≤ 15
      → differs m (poll_controls j).0 (poll_controls j).1 k ≡ false
  quiet_axes k h room =
      let inside : k < length (poll_controls j).1 = omega (arith, length-poll_controls j) in
      let same = doubles_ne-get_or (poll_controls j).1 m.joystick_values k (lit 0) h inside in
      rw (eq_comm (get_or m.joystick_values k (lit 0)) (get_or (poll_controls j).1 k (lit 0)), same)
        refl

  quiet :
      (k : ℕ)
      → bools_ne (poll_controls j).0 m.button_values ≡ false
      → doubles_ne (poll_controls j).1 m.joystick_values ≡ false
      → is_triggered m (poll_controls j).0 (poll_controls j).1 k ≡ false
  quiet k b a = ground (arith, quiet_buttons k b, quiet_buttons (k - 20) b, quiet_axes k a)

  silent_or_collected :
      (l : ℕ)
      → contains (run_cycle m j).1 l ≡ true
      → contains (listeners_to_invoke m (poll_controls j)) l ≡ true
  unfolding run_cycle contains
  silent_or_collected l h = ground arith

  collected_or_silent :
      (l k : ℕ)
      → is_triggered m (poll_controls j).0 (poll_controls j).1 k ≡ true
      → contains (listeners_to_invoke m (poll_controls j)) l ≡ true
      → contains (run_cycle m j).1 l ≡ true
  unfolding run_cycle
  collected_or_silent l k trigger h = ground (
    arith,
    quiet k,
    Bool-cases (bools_ne (poll_controls j).0 m.button_values),
    Bool-cases (doubles_ne (poll_controls j).1 m.joystick_values),
  )

  pub run_cycle_iff :
      (l : ℕ)
      → (contains (run_cycle m j).1 l ≡ true) ↔ (
          (k : ℕ) × (is_triggered m (poll_controls j).0 (poll_controls j).1 k ≡ true)
          × (contains (find_listeners k m.listeners) l ≡ true))
  run_cycle_iff l = (
    λ h.
        (listeners_to_invoke_iff m (poll_controls j).0 (poll_controls j).1 l).0
          (silent_or_collected l h),
    λ (k, trigger, registered). collected_or_silent l k trigger (
        (listeners_to_invoke_iff m (poll_controls j).0 (poll_controls j).1 l).1
          (k, trigger, registered)),
  )

-- Listeners that leave their address in a trace and then end as `thrown` says.
abbrev pub record_call :
    {M : Type 0} → (ℕ → Option Exception) → ℕ → M × List ℕ → (M × List ℕ) × Option Exception
record_call thrown l (m, trace) = ((m, l ∷ trace), thrown l)

or_false : (b : Bool) → (b || false) ≡ b
or_false true = refl
or_false false = refl

contains-invoke_all :
    {M : Type 0} (thrown : ℕ → Option Exception) (ls : List ℕ) (m : M) (trace : List ℕ) (l : ℕ)
    → contains (invoke_all (record_call thrown) ls (m, trace)).0.1 l
      ≡ (contains ls l || contains trace l)
unfolding invoke_all contains
contains-invoke_all thrown [] m trace l = refl
contains-invoke_all thrown (x ∷ ls) m trace l =
    ground (arith, contains-invoke_all thrown ls m (x ∷ trace) l)

module _ {D : Type 0} ⦃d : Double D⦄ (eq_comm : (x y : D) → d.eq x y ≡ d.eq y x) where
  -- Where the comparison of two values for equality does not depend on their order, and in whatever
  -- order the set of listeners is gone through, a cycle calls a listener exactly if it is registered
  -- under a key that the poll triggers, whatever exceptions this and the other listeners throw; a
  -- cycle that finds nothing changed included.
  pub cycle_iff :
      (order : List ℕ → List ℕ) (thrown : ℕ → Option Exception) (m : ListenerManager D)
      (j : Joystick D) (l : ℕ)
      → ((ls : List ℕ) → contains (order ls) l ≡ contains ls l)
      → (contains (cycle order (record_call thrown) j (m, [])).0.1 l ≡ true) ↔ (
          (k : ℕ) × (is_triggered m (poll_controls j).0 (poll_controls j).1 k ≡ true)
          × (contains (find_listeners k m.listeners) l ≡ true))
  unfolding cycle contains
  cycle_iff order thrown m j l all =
      let ls = (run_cycle m j).1 in
      let called : contains (invoke_all (record_call thrown) (order ls) ((run_cycle m j).0, [])).0.1
            l
          ≡ contains ls l =
        contains-invoke_all thrown (order ls) (run_cycle m j).0 [] l ∙ or_false _ ∙ all ls in
      rw called (run_cycle_iff eq_comm m j l)
