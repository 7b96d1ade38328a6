-- ===== src/CrioTest/Flags.antt =====
-- The modes of the robot of src/CrioTest.cpp beside those of the robot of src/RobotTemplate.cpp.
use frc.Prelude.{◌≡◌, refl, Bool, List, [], ◌∷◌, arith}
use frc.Double.{Double}
use frc.Global.{
  RobotTemplate, new_robot, robot_init, disabled_init, autonomous_init, teleop_init,
  disabled_periodic, autonomous_periodic, teleop_periodic,
}
use frc.Global.Modes.{
  Event, robot, disabled, autonomous, teleop, disabled_period, autonomous_period, teleop_period,
  poll, step, run,
}
use frc.CrioTest as Crio

-- The handler of an event. The program does not read the controller.
unfoldable pub crio_step : {D : Type 0} → Bool → Crio.RobotTemplate → Event D → Crio.RobotTemplate
crio_step is_host r robot = Crio.robot_init r
crio_step is_host r disabled = Crio.disabled_init r
crio_step is_host r autonomous = Crio.autonomous_init r
crio_step is_host r teleop = Crio.teleop_init r
crio_step is_host r disabled_period = Crio.disabled_periodic is_host r
crio_step is_host r autonomous_period = Crio.autonomous_periodic is_host r
crio_step is_host r teleop_period = Crio.teleop_periodic is_host r
crio_step is_host r (poll j) = r

unfoldable pub crio_run :
    {D : Type 0} → Bool → Crio.RobotTemplate → List (Event D) → Crio.RobotTemplate
crio_run is_host r [] = r
crio_run is_host r (e ∷ es) = crio_run is_host (crio_step is_host r e) es

module _ {D : Type 0} ⦃d : Double D⦄ where
  -- The two robots are in the same mode.
  abbrev pub SameFlags : Crio.RobotTemplate → RobotTemplate D → Type 0
  SameFlags c r =
      (c.autonomous_has_been_init ≡ r.autonomous_has_been_init)
      × (c.teleop_has_been_init ≡ r.teleop_has_been_init)

  step-SameFlags :
      (is_host : Bool) (c : Crio.RobotTemplate) (r : RobotTemplate D) (e : Event D)
      → SameFlags c r
      → SameFlags (crio_step is_host c e) (step r e)
  unfolding crio_step Crio.robot_init Crio.disabled_init Crio.autonomous_init Crio.teleop_init
      Crio.emit Crio.disabled_periodic Crio.autonomous_periodic Crio.teleop_periodic step robot_init
      disabled_init autonomous_init teleop_init disabled_periodic autonomous_periodic
      teleop_periodic
  step-SameFlags is_host c r robot v = v
  step-SameFlags is_host c r (poll j) v = v
  step-SameFlags is_host c r _ v = ground arith

  run-SameFlags :
      (is_host : Bool) (c : Crio.RobotTemplate) (r : RobotTemplate D) (es : List (Event D))
      → SameFlags c r
      → SameFlags (crio_run is_host c es) (run r es)
  unfolding crio_run run
  run-SameFlags is_host c r [] v = v
  run-SameFlags is_host c r (e ∷ es) v =
      run-SameFlags is_host (crio_step is_host c e) (step r e) es (step-SameFlags is_host c r e v)

  -- From their constructors on, through every sequence of modes and periods, in a build for the host
  -- and in one for the robot, the test program's robot and the robot itself have the same two flags.
  pub crio_run-SameFlags :
      (is_host : Bool) (es : List (Event D))
      → SameFlags (crio_run is_host Crio.new_robot es) (run new_robot es)
  unfolding Crio.new_robot new_robot
  crio_run-SameFlags is_host es = run-SameFlags is_host Crio.new_robot new_robot es (refl, refl)
