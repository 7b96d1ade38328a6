-- ===== src/CrioTest.antt =====
-- src/CrioTest.cpp: a robot with no devices, to try the toolchain with. `is_host` is whether
-- HOST_BUILD is defined, where the program has a `main` of its own and no watchdog.
pub mod Flags
use frc.Prelude.{ℕ, Bool, true, false, List, [], ◌∷◌, if◌then◌else◌}

-- What the program prints and waits for, and the watchdog's calls.
pub data Output : Type 0 where
  welcome autonomous_running disabled_running teleop_running : Output
  got_char : Output
  fed_watchdog : Output

-- The latest output stands first.
pub record RobotTemplate : Type 0 where
  pub autonomous_has_been_init : Bool
  pub teleop_has_been_init : Bool
  pub output : List Output

unfoldable pub new_robot : RobotTemplate
new_robot = record { autonomous_has_been_init = false; teleop_has_been_init = false; output = [] }

unfoldable pub emit : Output → RobotTemplate → RobotTemplate
emit o r = record r { output = o ∷ r.output }

unfoldable pub robot_init : RobotTemplate → RobotTemplate
robot_init r = emit welcome r

-- It is empty in the source.
unfoldable pub disabled_init : RobotTemplate → RobotTemplate
disabled_init r = r

unfoldable pub autonomous_init : RobotTemplate → RobotTemplate
autonomous_init r =
    if r.autonomous_has_been_init
    then r
    else record r { autonomous_has_been_init = true; teleop_has_been_init = false }

unfoldable pub teleop_init : RobotTemplate → RobotTemplate
teleop_init r =
    if r.teleop_has_been_init
    then r
    else record r { autonomous_has_been_init = false; teleop_has_been_init = true }

unfoldable pub disabled_periodic : (is_host : Bool) → RobotTemplate → RobotTemplate
disabled_periodic is_host r = if is_host then r else emit fed_watchdog r

unfoldable pub autonomous_periodic : (is_host : Bool) → RobotTemplate → RobotTemplate
autonomous_periodic is_host r = if is_host then r else emit fed_watchdog r

unfoldable pub teleop_periodic : (is_host : Bool) → RobotTemplate → RobotTemplate
teleop_periodic is_host r = if is_host then r else emit fed_watchdog r

-- `main`, which a build for the host alone has: the status that it returns, and the robot then.
unfoldable pub main : ℕ × RobotTemplate
main =
    let r1 = robot_init new_robot in
    let r2 = autonomous_periodic true (autonomous_init (emit autonomous_running r1)) in
    let r3 = disabled_periodic true (disabled_init (emit disabled_running (emit got_char r2))) in
    let r4 = teleop_periodic true (teleop_init (emit teleop_running r3)) in (0, emit got_char r4)
