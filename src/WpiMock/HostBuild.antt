-- ===== src/WpiMock/HostBuild.antt =====
-- The robot's code over src/WPIMock.cpp: what a build for the host can do without a controller.
use frc.Prelude.{
  ◌+◌, ◌≡◌, refl, ◌∙◌, true, List, [], ◌∷◌, some, arith, replicate, get_or-replicate, if_both,
}
use frc.Double.{Double, lit}
use frc.Double.Grid.{Grid, grid}
use frc.Prelude.Int.{ℤ, ◌+ℤ◌}
use frc.ListenerManager.{
  Joystick, ListenerManager, new_manager, run_cycle, poll_controls, add_listener,
  remove_all_listeners,
}
use frc.ListenerManager.History.{release_invokes_nothing}
use frc.Global.{
  RobotTemplate, Global, new_robot, new_global, robot_init, disabled_init, autonomous_init,
  teleop_init, disabled_periodic, autonomous_periodic, teleop_periodic, initialize_robot,
  initialize_disabled, initialize_auto, initialize_teleop, request, add_command, add_commands,
  clear_listeners, teleop_commands, Action,
}
use frc.ListenerManager.Keys.{Listenable}
use frc.Global.Modes.{
  Event, robot, disabled, autonomous, teleop, disabled_period, autonomous_period, teleop_period,
  poll, step, run,
}
use frc.WpiMock.{MockLog, get_raw_button, get_raw_axis, get_voltage}
use frc.HardwareLink.Encoders.{get_angle, add_reads}

module _ {D : Type 0} ⦃d : Double D⦄ where
  -- What a poll reads from the mock of the joystick.
  pub mock_joystick : Joystick D
  mock_joystick = record {
    raw_button = λ b. (get_raw_button {D = D} b []).0;
    raw_axis = λ a. (get_raw_axis a []).0;
  }

  -- What the mode events of a host's robot are: every poll is one of the mock.
  abbrev pub IsHost : List (Event D) → Type 0
  IsHost [] = Unit
  IsHost (poll j ∷ es) = (j ≡ mock_joystick) × IsHost es
  IsHost (e ∷ es) = IsHost es

  -- The axes as the constructor set them.
  abbrev AtRest : RobotTemplate D → Type 0
  AtRest r = r.global.listener_manager.joystick_values ≡ replicate 16 (lit 0)

  polled_at_rest : (poll_controls mock_joystick).1 ≡ replicate 16 (lit 0)
  unfolding poll_controls mock_joystick get_raw_axis
  polled_at_rest = refl

  cycle-AtRest :
      (m : ListenerManager D)
      → m.joystick_values ≡ replicate 16 (lit 0)
      → (run_cycle m mock_joystick).0.joystick_values ≡ replicate 16 (lit 0)
  unfolding run_cycle
  cycle-AtRest m v = ground (arith, polled_at_rest)

  add_commands_values :
      (cs : List (Listenable × Action D)) (g : Global D)
      → (add_commands cs g).listener_manager.joystick_values ≡ g.listener_manager.joystick_values
  unfolding add_commands add_command add_listener
  add_commands_values [] g = refl
  add_commands_values ((key, action) ∷ rest) g = add_commands_values rest (add_command key action g)

  step-AtRest : (r : RobotTemplate D) (e : Event D) → IsHost (e ∷ []) → AtRest r → AtRest (step r e)
  unfolding step robot_init disabled_init autonomous_init teleop_init disabled_periodic
      autonomous_periodic teleop_periodic initialize_robot initialize_disabled initialize_auto
      initialize_teleop request clear_listeners remove_all_listeners
  step-AtRest r robot h v = v
  step-AtRest r disabled h v = v
  step-AtRest r autonomous h v = if_both AtRest r.autonomous_has_been_init r _ v v
  step-AtRest r teleop h v =
      if_both AtRest r.teleop_has_been_init r _ v (add_commands_values teleop_commands _ ∙ v)
  step-AtRest r disabled_period h v = v
  step-AtRest r autonomous_period h v = v
  step-AtRest r teleop_period h v = v
  step-AtRest r (poll j) h v = rw (h.0) (cycle-AtRest r.global.listener_manager v)

  run-AtRest :
      (r : RobotTemplate D) (es : List (Event D)) → IsHost es → AtRest r → AtRest (run r es)
  unfolding run
  run-AtRest r [] h v = v
  run-AtRest r (robot ∷ es) h v = run-AtRest (step r robot) es h (step-AtRest r robot tt v)
  run-AtRest r (disabled ∷ es) h v = run-AtRest (step r disabled) es h (step-AtRest r disabled tt v)
  run-AtRest r (autonomous ∷ es) h v =
      run-AtRest (step r autonomous) es h (step-AtRest r autonomous tt v)
  run-AtRest r (teleop ∷ es) h v = run-AtRest (step r teleop) es h (step-AtRest r teleop tt v)
  run-AtRest r (disabled_period ∷ es) h v =
      run-AtRest (step r disabled_period) es h (step-AtRest r disabled_period tt v)
  run-AtRest r (autonomous_period ∷ es) h v =
      run-AtRest (step r autonomous_period) es h (step-AtRest r autonomous_period tt v)
  run-AtRest r (teleop_period ∷ es) h v =
      run-AtRest (step r teleop_period) es h (step-AtRest r teleop_period tt v)
  run-AtRest r (poll j ∷ es) (e, h) v =
      run-AtRest (step r (poll j)) es h (step-AtRest r (poll j) (e, tt) v)

  -- In a build for the host, where zero compares equal to itself: whatever modes were started and
  -- however often the controller was polled, a cycle of the polling thread invokes no listener, so
  -- nothing that initializeTeleop registers is ever carried out.
  pub host_cycle :
      d.eq (lit 0) (lit 0) ≡ true
      → (es : List (Event D)) → IsHost es
      → (run_cycle (run new_robot es).global.listener_manager mock_joystick).1 ≡ []
  unfolding new_robot new_global new_manager mock_joystick get_raw_button get_raw_axis
  host_cycle zero_eq es h =
      let at_rest = run-AtRest new_robot es h refl in
      release_invokes_nothing (run new_robot es).global.listener_manager mock_joystick
        (λ b low high pressed. absurd (cc))
        (λ a low high. rw (at_rest, get_or-replicate 16 (a + 10) (lit {D = D} 0)) zero_eq)

-- A magnetic encoder over the mock of the analog channel stands at its offset, on the exact grid, and
-- reading it leaves no message.
pub host_get_angle :
    (enc : ℤ × ℤ) (offset : ℤ) (log : MockLog Grid)
    → get_angle (λ channel. get_voltage) (record { enc = enc; offset = some offset }) log
      ≡ (some offset, log)
unfolding get_angle add_reads get_voltage ◌+ℤ◌
host_get_angle enc offset log = ground arith
