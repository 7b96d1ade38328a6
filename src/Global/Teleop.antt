-- ===== src/Global/Teleop.antt =====
-- What the controller does in teleop mode: from src/Global.cpp and src/RobotTemplate.cpp, that
-- register the listeners, to src/EventManager/ListenerManager.cpp, that polls and calls them.
use frc.Prelude.{
  ℕ, ◌≡◌, ap, ◌∙◌, true, ◌&&◌, ◌↔◌, ◌⊎◌, inl, inr, List, [], ◌∷◌, Option, some, arith, contains,
  Bool-cases, ◌==◌,
}
use frc.LogMacros.{Exception}
use frc.Double.{Double}
use frc.ListenerManager.{Joystick, ListenerMap, find_listeners, poll_controls}
use frc.ListenerManager.Keys.{Listenable, code}
use frc.ListenerManager.Invoke.{is_triggered}
use frc.ListenerManager.Invocations.{cycle, record_call, cycle_iff}
use frc.Global.{RobotTemplate, Action, teleop_commands, new_robot}
use frc.Global.Modes.{Event, action_at, bound, bind_all, run, run-new_robot-IsConsistent}

module _ {D : Type 0} where
  -- The action `x` is among the commands, under the key of number `k`.
  abbrev pub IsAmong : ℕ → Action D → List (Listenable × Action D) → Type 0
  IsAmong k x [] = ⊥
  IsAmong k x ((key, action) ∷ rest) = ((code key ≡ k) × (action ≡ x)) ⊎ IsAmong k x rest

  abbrev IsIn : ℕ → Option (Action D) → List (ℕ × Option (Action D)) → Type 0
  IsIn k o [] = ⊥
  IsIn k o ((i, p) ∷ rest) = ((i ≡ k) × (p ≡ o)) ⊎ IsIn k o rest

  IsIn-bind_all :
      (k : ℕ) (x : Action D) (cs : List (Listenable × Action D)) (b : List (ℕ × Option (Action D)))
      → IsAmong k x cs ⊎ IsIn k (some x) b
      → IsIn k (some x) (bind_all cs b)
  IsIn-bind_all k x [] b (inl none_left) = absurd none_left
  IsIn-bind_all k x [] b (inr old) = old
  IsIn-bind_all k x ((key, action) ∷ rest) b (inl (inl (e, f))) =
      IsIn-bind_all k x rest ((code key, some action) ∷ b) (inr (inl (e, ap some f)))
  IsIn-bind_all k x ((key, action) ∷ rest) b (inl (inr later)) =
      IsIn-bind_all k x rest ((code key, some action) ∷ b) (inl later)
  IsIn-bind_all k x ((key, action) ∷ rest) b (inr old) =
      IsIn-bind_all k x rest ((code key, some action) ∷ b) (inr (inr old))

  IsAmong-bind_all :
      (k : ℕ) (x : Action D) (cs : List (Listenable × Action D)) (b : List (ℕ × Option (Action D)))
      → IsIn k (some x) (bind_all cs b)
      → IsAmong k x cs ⊎ IsIn k (some x) b
  IsAmong-bind_all k x [] b h = inr h
  IsAmong-bind_all k x ((key, action) ∷ rest) b h =
      elim (IsAmong-bind_all k x rest ((code key, some action) ∷ b) h) [
        | inl later ↦ inl (inr later)
        | inr (inl (e, f)) ↦ inl (inl (e, cc))
        | inr (inr old) ↦ inr old
      ]

  -- A listener under the key whose action is `o`.
  abbrev IsHeard : ℕ → Option (Action D) → List (ℕ × Action D) → ListenerMap → Type 0
  IsHeard k o t m = (l : ℕ) × (contains (find_listeners k m) l ≡ true) × (action_at l t ≡ o)

  IsHeard-bound :
      (k : ℕ) (o : Option (Action D)) (t : List (ℕ × Action D)) (m : ListenerMap)
      → IsIn k o (bound t m)
      → IsHeard k o t m
  unfolding find_listeners contains
  IsHeard-bound k o t [] h = absurd h
  IsHeard-bound k o t ((i, l) ∷ m) (inl (e, f)) = (l, ground arith, f)
  IsHeard-bound k o t ((i, l) ∷ m) (inr h) =
      let (l', e, f) = IsHeard-bound k o t m h in (l', ground arith, f)

  bound-IsHeard :
      (k l : ℕ) (o : Option (Action D)) (t : List (ℕ × Action D)) (m : ListenerMap)
      → contains (find_listeners k m) l ≡ true
      → action_at l t ≡ o
      → IsIn k o (bound t m)
  unfolding find_listeners contains
  bound-IsHeard k l o t [] h f = absurd (ground arith)
  bound-IsHeard k l o t ((i, x) ∷ m) h f = elim (Bool-cases (i == k && x == l)) [
    | inl here ↦
        let e : i ≡ k = ground arith in
        let same : x ≡ l = ground arith in inl (e, ap (λ y. action_at y t) same ∙ f)
    | inr there ↦ inr (bound-IsHeard k l o t m (ground arith) f)
  ]

  -- Where the bindings are those of the commands, a listener is under a key with an action exactly if
  -- the commands have the action under the key.
  IsHeard-iff :
      (k : ℕ) (x : Action D) (cs : List (Listenable × Action D)) (t : List (ℕ × Action D))
      (m : ListenerMap)
      → bound t m ≡ bind_all cs []
      → IsHeard k (some x) t m ↔ IsAmong k x cs
  IsHeard-iff k x cs t m e = (
    λ (l, found, f).
        let bound_to : IsIn k (some x) (bind_all cs []) =
          rw (← e) (bound-IsHeard k l (some x) t m found f) in
        elim (IsAmong-bind_all k x cs [] bound_to) [ inl h ↦ h | inr none_left ↦ absurd none_left ],
    λ h. IsHeard-bound k (some x) t m (rw e (IsIn-bind_all k x cs [] (inl h))),
  )

module _ {D : Type 0} ⦃d : Double D⦄ (eq_comm : (x y : D) → d.eq x y ≡ d.eq y x)
    (order : List ℕ → List ℕ) (all : (ls : List ℕ) (l : ℕ) → contains (order ls) l ≡ contains ls l)
    (thrown : ℕ → Option Exception) where
  -- The action `x` is carried out by a listener that the cycle calls.
  abbrev pub IsDone : Joystick D → RobotTemplate D → Action D → Type 0
  IsDone j r x =
      (l : ℕ) × (contains (cycle order (record_call thrown) j (r.global.listener_manager, [])).0.1 l
        ≡ true)
      × (action_at l r.global.actions ≡ some x)

  -- Where the comparison of two values for equality does not depend on their order: whatever modes
  -- were started and whatever was polled before, while teleop mode is entered, a cycle of the
  -- polling thread carries out an action exactly if initializeTeleop registers it under a control
  -- that the poll triggers, whatever the order of the set of listeners and whatever exceptions the
  -- listeners throw. A press triggers the control of the press and the one of the release.
  pub teleop_iff :
      (es : List (Event D)) (j : Joystick D) (x : Action D)
      → (run new_robot es).teleop_has_been_init ≡ true
      → IsDone j (run new_robot es) x ↔ (
          (k : ℕ) × (is_triggered
              (run new_robot es).global.listener_manager
              (poll_controls j).0
              (poll_controls j).1
              k
            ≡ true)
          × IsAmong k x teleop_commands)
  teleop_iff es j x entered =
      let r = run new_robot es in
      let v = run-new_robot-IsConsistent es in
      let as_bound : bound r.global.actions r.global.listener_manager.listeners
          ≡ bind_all teleop_commands [] =
        rw entered at v.listening.as_bound in
      let heard = λ (k : ℕ).
        IsHeard-iff k x teleop_commands r.global.actions r.global.listener_manager.listeners
          as_bound in
      let called =
        λ (l : ℕ). cycle_iff eq_comm order thrown r.global.listener_manager j l (λ ls. all ls l) in
      (
        λ (l, c, f).
            let (k, trigger, found) = (called l).0 c in (k, trigger, (heard k).0 (l, found, f)),
        λ (k, trigger, among).
            let (l, found, f) = (heard k).1 among in (l, (called l).1 (k, trigger, found), f),
      )
