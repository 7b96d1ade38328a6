-- ===== src/Global.antt =====
-- src/Global.h, src/Global.cpp and src/RobotTemplate.cpp: what each mode of the robot registers and
-- starts. A registered command is a fresh shared pointer, so it gets the next free address; the table
-- of actions says what each does. What the modes ask of the devices is a trace, the latest first.
pub mod Devices
pub mod Modes
pub mod Robot
pub mod Teleop
use frc.Prelude.{ℕ, suc, ◌+◌, Bool, true, false, List, [], ◌∷◌, if◌then◌else◌}
use frc.Double.{Double, lit, minus_one, ratio}
use frc.ListenerManager.{ListenerManager, new_manager, add_listener, remove_all_listeners}
use frc.ListenerManager.Keys.{
  Listenable, adown, bdown, xdown, lbdown, rbdown, backdown, startdown, joy1x, joy1y, aup, bup,
}

-- The motors and the commands that `initializeTeleop` binds.
pub data Motor : Type 0 where
  rot_fr rot_fl rot_bk drv_fr drv_fl drv_bk m_shooter m_arm_roll m_arm_move : Motor

pub data Action (D : Type 0) : Type 0 where
  gyro_reset cock_cancel cock_start stop_arm_cock start_arm_cock steer : Action D
  set_speed : Motor → D → Action D

pub data Lights : Type 0 where
  red_lights blue_lights : Lights

-- What the modes ask of the rest of the robot.
pub data Request (D : Type 0) : Type 0 where
  set_off : Lights → Request D
  start_speed_control : Motor → D → Request D
  light_change : Request D
  run_auto_config : Request D
  feed_watchdog : Request D
  sleep_for : (milliseconds : ℕ) → Request D

pub record Global (D : Type 0) : Type 0 where
  pub listener_manager : ListenerManager D
  pub next_address : ℕ
  pub actions : List (ℕ × Action D)
  pub requests : List (Request D)

pub record RobotTemplate (D : Type 0) : Type 0 where
  pub autonomous_has_been_init : Bool
  pub teleop_has_been_init : Bool
  pub global : Global D

module _ {D : Type 0} ⦃d : Double D⦄ where
  open d use {neg}

  unfoldable pub new_global : Global D
  new_global = record {
    listener_manager = new_manager;
    next_address = 0;
    actions = [];
    requests = [];
  }

  unfoldable pub request : Request D → Global D → Global D
  request q g = record g { requests = q ∷ g.requests }

  -- `_listenerManager.addListener(key, Cmd::MakeShared(…))`.
  unfoldable pub add_command : Listenable → Action D → Global D → Global D
  add_command key action g = record g {
    listener_manager = add_listener g.listener_manager key g.next_address;
    next_address = suc g.next_address;
    actions = (g.next_address, action) ∷ g.actions;
  }

  unfoldable pub add_commands : List (Listenable × Action D) → Global D → Global D
  add_commands [] g = g
  add_commands ((key, action) ∷ rest) g = add_commands rest (add_command key action g)

  unfoldable pub initialize_robot : Global D → Global D
  initialize_robot g = request (start_speed_control rot_fr (lit 90)) (
      request (start_speed_control rot_fl (lit 90)) (
        request (start_speed_control rot_bk (lit 90))
          (request (set_off blue_lights) (request (set_off red_lights) g))))

  unfoldable pub initialize_disabled : Global D → Global D
  initialize_disabled g = request (set_off blue_lights) (request (set_off red_lights) g)

  unfoldable pub initialize_auto : Global D → Global D
  initialize_auto = request run_auto_config

  -- The registrations of `initializeTeleop`, in their order.
  abbrev pub teleop_commands : List (Listenable × Action D)
  teleop_commands =
      (xdown, gyro_reset)
      ∷ (adown, cock_cancel)
      ∷ (adown, set_speed m_shooter minus_one)
      ∷ (aup, cock_start)
      ∷ (aup, set_speed m_shooter (lit 0))
      ∷ (bdown, cock_cancel)
      ∷ (bdown, set_speed m_shooter minus_one)
      ∷ (bup, cock_start)
      ∷ (bup, set_speed m_shooter (lit 0))
      ∷ (lbdown, set_speed m_arm_move (ratio 1 10))
      ∷ (lbdown, set_speed m_arm_roll (ratio 1 10))
      ∷ (rbdown, set_speed m_arm_move (neg (ratio 1 10)))
      ∷ (rbdown, set_speed m_arm_roll (neg (ratio 1 10)))
      ∷ (backdown, stop_arm_cock)
      ∷ (startdown, start_arm_cock)
      ∷ (joy1x, steer)
      ∷ (joy1y, steer)
      ∷ []

  unfoldable pub initialize_teleop : Global D → Global D
  initialize_teleop g = add_commands teleop_commands (request light_change g)

  -- It is empty in the source.
  unfoldable pub robot_stop : Global D → Global D
  robot_stop g = g

  unfoldable pub new_robot : RobotTemplate D
  new_robot = record {
    autonomous_has_been_init = false;
    teleop_has_been_init = false;
    global = new_global;
  }

  unfoldable pub clear_listeners : Global D → Global D
  clear_listeners g = record g { listener_manager = remove_all_listeners g.listener_manager }

  unfoldable pub robot_init : RobotTemplate D → RobotTemplate D
  robot_init r = record r { global = initialize_robot r.global }

  unfoldable pub disabled_init : RobotTemplate D → RobotTemplate D
  disabled_init r = record r { global = initialize_disabled r.global }

  unfoldable pub autonomous_init : RobotTemplate D → RobotTemplate D
  autonomous_init r = if r.autonomous_has_been_init then r else record {
    autonomous_has_been_init = true;
    teleop_has_been_init = false;
    global = initialize_auto (clear_listeners r.global);
  }

  unfoldable pub teleop_init : RobotTemplate D → RobotTemplate D
  teleop_init r = if r.teleop_has_been_init then r else record {
    autonomous_has_been_init = false;
    teleop_has_been_init = true;
    global = initialize_teleop (clear_listeners r.global);
  }

  unfoldable pub disabled_periodic : RobotTemplate D → RobotTemplate D
  disabled_periodic r = record r { global = request feed_watchdog r.global }

  unfoldable pub autonomous_periodic : RobotTemplate D → RobotTemplate D
  autonomous_periodic r = record r {
    global = request (sleep_for 150) (request feed_watchdog r.global);
  }

  unfoldable pub teleop_periodic : RobotTemplate D → RobotTemplate D
  teleop_periodic r = record r { global = request (sleep_for 150) r.global }
