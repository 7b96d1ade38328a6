-- ===== src/Global/Modes.antt =====
-- The robot over a history of modes: which listeners it has, and what they do.
use frc.Prelude.{
  ℕ, suc, ◌<◌, if_both, ◌≡◌, refl, false, ◌&&◌, List, [], ◌∷◌, Option, none, some, arith,
  if◌then◌else◌, ◌==◌,
}
use frc.Double.{Double}
use frc.ListenerManager.{
  ListenerManager, Joystick, ListenerMap, run_cycle, add_listener, remove_all_listeners,
  new_manager,
}
use frc.ListenerManager.Keys.{Listenable, code}
use frc.Global.{
  Global, RobotTemplate, Action, Request, teleop_commands, new_robot, new_global, robot_init,
  disabled_init, autonomous_init, teleop_init, disabled_periodic, autonomous_periodic,
  teleop_periodic, initialize_robot, initialize_disabled, initialize_auto, initialize_teleop,
  add_command, add_commands, request, clear_listeners,
}

-- A mode starts, goes on for a period, or the controller is polled.
pub data Event (D : Type 0) : Type 0 where
  robot disabled autonomous teleop : Event D
  disabled_period autonomous_period teleop_period : Event D
  poll : Joystick D → Event D

-- The actions registered under each key, by the table of actions, the latest registration first.
abbrev pub action_at : {D : Type 0} → ℕ → List (ℕ × Action D) → Option (Action D)
action_at a [] = none
action_at a ((b, x) ∷ t) = let rest = action_at a t in if b == a then some x else rest

abbrev pub bound : {D : Type 0} → List (ℕ × Action D) → ListenerMap → List (ℕ × Option (Action D))
bound t [] = []
bound t ((k, l) ∷ m) = (k, action_at l t) ∷ bound t m

-- The bindings after registrations in a row.
abbrev pub bind_all :
    {D : Type 0}
    → List (Listenable × Action D)
    → List (ℕ × Option (Action D))
    → List (ℕ × Option (Action D))
bind_all [] b = b
bind_all ((key, action) ∷ rest) b = bind_all rest ((code key, some action) ∷ b)

abbrev pub IsBelow : ℕ → ListenerMap → Type 0
IsBelow n [] = Unit
IsBelow n ((k, l) ∷ m) = (l < n) × IsBelow n m

IsBelow-suc : (n : ℕ) (m : ListenerMap) → IsBelow n m → IsBelow (suc n) m
IsBelow-suc n [] v = tt
IsBelow-suc n ((k, l) ∷ m) (low, v) = (omega arith, IsBelow-suc n m v)

bound-below :
    {D : Type 0} (n : ℕ) (x : Action D) (t : List (ℕ × Action D)) (m : ListenerMap)
    → IsBelow n m
    → bound ((n, x) ∷ t) m ≡ bound t m
bound-below n x t [] v = refl
bound-below n x t ((k, l) ∷ m) (low, v) = ground (arith, bound-below n x t m v)

module _ {D : Type 0} ⦃d : Double D⦄ where
  abbrev pub bindings : Global D → List (ℕ × Option (Action D))
  bindings g = bound g.actions g.listener_manager.listeners

  -- The bindings are `b`, and no listener has an address that is still to be given.
  pub record Binds (g : Global D) (b : List (ℕ × Option (Action D))) : Type 0 where
    pub as_bound : bindings g ≡ b
    pub below : IsBelow g.next_address g.listener_manager.listeners

  add_command-Binds :
      (key : Listenable) (action : Action D) (g : Global D) (b : List (ℕ × Option (Action D)))
      → Binds g b
      → Binds (add_command key action g) ((code key, some action) ∷ b)
  unfolding add_command add_listener
  add_command-Binds key action g b v = record {
    as_bound =
        rw
          (
            bound-below g.next_address action g.actions g.listener_manager.listeners v.below,
            v.as_bound,
          )
          (ground arith);
    below = (omega arith, IsBelow-suc g.next_address g.listener_manager.listeners v.below);
  }

  add_commands-Binds :
      (cs : List (Listenable × Action D)) (g : Global D) (b : List (ℕ × Option (Action D)))
      → Binds g b
      → Binds (add_commands cs g) (bind_all cs b)
  unfolding add_commands
  add_commands-Binds [] g b v = v
  add_commands-Binds ((key, action) ∷ rest) g b v =
      add_commands-Binds rest (add_command key action g) ((code key, some action) ∷ b)
        (add_command-Binds key action g b v)

  unfoldable pub step : RobotTemplate D → Event D → RobotTemplate D
  step r robot = robot_init r
  step r disabled = disabled_init r
  step r autonomous = autonomous_init r
  step r teleop = teleop_init r
  step r disabled_period = disabled_periodic r
  step r autonomous_period = autonomous_periodic r
  step r teleop_period = teleop_periodic r
  step r (poll j) = record r {
    global = record r.global { listener_manager = (run_cycle r.global.listener_manager j).0 };
  }

  unfoldable pub run : RobotTemplate D → List (Event D) → RobotTemplate D
  run r [] = r
  run r (e ∷ es) = run (step r e) es

  -- At most one mode is entered, and the listeners are those of teleop mode, or none.
  pub record IsConsistent (r : RobotTemplate D) : Type 0 where
    pub one_mode : (r.autonomous_has_been_init && r.teleop_has_been_init) ≡ false
    pub listening :
        Binds r.global (if r.teleop_has_been_init then bind_all teleop_commands [] else [])

  listeners_kept :
      (m : ListenerManager D) (j : Joystick D) → (run_cycle m j).0.listeners ≡ m.listeners
  unfolding run_cycle
  listeners_kept m j = ground arith

  cleared-Binds : (g : Global D) → Binds (clear_listeners g) []
  unfolding clear_listeners remove_all_listeners
  cleared-Binds g = record { as_bound = refl; below = tt }

  request-Binds :
      (q : Request D) (g : Global D) (b : List (ℕ × Option (Action D)))
      → Binds g b
      → Binds (request q g) b
  unfolding request
  request-Binds q g b v = record { as_bound = v.as_bound; below = v.below }

  autonomous-IsConsistent :
      (r : RobotTemplate D) → IsConsistent r → IsConsistent (autonomous_init r)
  unfolding autonomous_init initialize_auto
  autonomous-IsConsistent r v = if_both IsConsistent r.autonomous_has_been_init r _ v (record {
    one_mode = refl;
    listening = request-Binds _ (clear_listeners r.global) [] (cleared-Binds r.global);
  })

  teleop-IsConsistent : (r : RobotTemplate D) → IsConsistent r → IsConsistent (teleop_init r)
  unfolding teleop_init initialize_teleop
  teleop-IsConsistent r v = if_both IsConsistent r.teleop_has_been_init r _ v (record {
    one_mode = refl;
    listening =
        add_commands-Binds teleop_commands _ []
          (request-Binds _ (clear_listeners r.global) [] (cleared-Binds r.global));
  })

  -- A change of the requests alone.
  same_listeners :
      (r : RobotTemplate D) (g : Global D)
      → IsConsistent r
      → g.listener_manager ≡ r.global.listener_manager
      → g.next_address ≡ r.global.next_address
      → g.actions ≡ r.global.actions
      → IsConsistent (record r { global = g })
  same_listeners r g v m n a = record {
    one_mode = v.one_mode;
    listening = record {
      as_bound = rw (m, a) v.listening.as_bound;
      below = rw (m, n) v.listening.below;
    };
  }

  step-IsConsistent : (r : RobotTemplate D) (e : Event D) → IsConsistent r → IsConsistent (step r e)
  unfolding step robot_init initialize_robot request disabled_init initialize_disabled
      disabled_periodic autonomous_periodic teleop_periodic
  step-IsConsistent r robot v = same_listeners r _ v refl refl refl
  step-IsConsistent r disabled v = same_listeners r _ v refl refl refl
  step-IsConsistent r autonomous v = autonomous-IsConsistent r v
  step-IsConsistent r teleop v = teleop-IsConsistent r v
  step-IsConsistent r disabled_period v = same_listeners r _ v refl refl refl
  step-IsConsistent r autonomous_period v = same_listeners r _ v refl refl refl
  step-IsConsistent r teleop_period v = same_listeners r _ v refl refl refl
  step-IsConsistent r (poll j) v = record {
    one_mode = v.one_mode;
    listening = record {
      as_bound = rw (listeners_kept r.global.listener_manager j) v.listening.as_bound;
      below = rw (listeners_kept r.global.listener_manager j) v.listening.below;
    };
  }

  run-IsConsistent :
      (r : RobotTemplate D) (es : List (Event D)) → IsConsistent r → IsConsistent (run r es)
  unfolding run
  run-IsConsistent r [] v = v
  run-IsConsistent r (e ∷ es) v = run-IsConsistent (step r e) es (step-IsConsistent r e v)

  -- However often and in whatever order the modes start and the controller is polled, a new robot has
  -- never both modes entered; and while teleop mode is entered the listeners are bound to exactly the
  -- actions that initializeTeleop registers, once each, and otherwise there is no listener.
  pub run-new_robot-IsConsistent : (es : List (Event D)) → IsConsistent (run new_robot es)
  unfolding new_robot new_global new_manager
  run-new_robot-IsConsistent es =
      run-IsConsistent new_robot es
        (record { one_mode = refl; listening = record { as_bound = refl; below = tt } })
