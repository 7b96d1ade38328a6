-- ===== src/Lib.antt =====
-- The control program of a competition robot, as definitions with theorems on them. The program's
-- parts and how they interact:
--
-- * The polling thread of EventManager/ListenerManager reads the controller, compares it with what
--   it read before, and invokes the listeners of what changed (ListenerManager: `run_cycle` is one
--   round of `run` up to the calls, `cycle` with them, and ListenerManager/Thread the loop with its
--   wait and its end). A listener is the address of a command.
-- * Long work is enqueued on a CmdProcessor, a thread that executes commands from a queue
--   (CmdProcessor: `run_loop` is operator(), and `run_shared` the same while other threads
--   enqueue). The queue is another repository's class: ThreadSafeQueue is its interface, with the
--   laws that the processor relies on, and a list that meets them.
-- * Timers call commands later. CmdTimerWin32 is the registry of the system's timers, with the
--   timer objects in its Objects and their histories in its History; CmdTimerPosix is the same
--   class over the POSIX timers, which no build compiles (CmdTimerPosix/Handles: the variables of
--   the class, that share implementations). A CmdTimerMultiplex keeps the timers that have not
--   fired; CmdTimerMultiplex/OnWin32 sets it on the Win32 timers.
-- * RobotMovement/RobotMath computes with angles and powers (RobotMath). SwerveDrive.cpp chooses
--   between turning a wheel and reversing it (SwerveDrive), and computes the angles and speeds of
--   three wheels (SwerveDrive/Steer). ArcadeDrive steers two motors; ArcadeDrive/Steering takes the
--   joystick through the poll, the queue, the handler and the motors to their Talons.
-- * The motors, in HardwareLink/Motor: a MotorLink scales and reverses what a Talon gets, and hands
--   the motor to a speed controller (Motor/Link, Motor/Control). Its changes are commands on its
--   own CmdProcessor; here they wait in a list and `process` executes the oldest. setSpeed,
--   setSpeedForce and setControlTarget run on the caller's thread, so a sequence of such steps is
--   an interleaving. Motor/Regulation closes the loop: a controller's runs, each followed by a pass
--   of the motor's processor.
-- * The other devices are in HardwareLink (Piston, Lights, Encoders), the arm's loop in CockArm,
--   and the configuration in Options.
-- * Global.cpp and RobotTemplate.cpp bind all this to the modes of the robot (Global: the modes
--   leave requests; Global/Devices: the devices as they are constructed, and what the requests do
--   to them; Global/Teleop: which actions a poll carries out). Util/AutoConfig.cpp is the sequence
--   of the autonomous mode, a trace of calls (AutoConfig), and AutoConfig/Calls is what the calls
--   do to the devices and to the arm. Global/Robot puts all of these threads, timers and devices
--   together: its `after` is one step of any of them, and `run` an interleaving.
-- * WPIMock.cpp stands for WPILib in a build for the host (WpiMock), and CrioTest.cpp is a robot
--   without devices (CrioTest).
--
-- Source paths are from the repository's root, below its directory src. Functions keep their names
-- in snake case: `setSpeedControllerImpl` is the command `set_speed_controller_impl`.
--
-- Conventions. `double` is the interface Double; what is proved for every instance holds of IEEE
-- arithmetic, and what is proved on Double/Grid holds of the multiples of 1/1024, which a `double`
-- holds exactly and adds, subtracts, compares and takes remainders of exactly up to 2^43. How a
-- call ends is an Outcome (LogMacros): a value, an exception, the end of the process, or the use of
-- a null pointer. Objects shared by pointers are addresses. The class of the timers of the motors
-- and of the arm is chosen by the build: how its Cancel ends is a parameter, and
-- CmdTimerWin32/Dispatch shows that the Cancel of CmdTimerWin32 ends the process where the system
-- deletes the timer. WPILib, the operating system, the clock, the functions of <cmath> and the
-- sensors are parameters, with their documented behaviour as named hypotheses.
--
-- Loops. `run_loop` takes the number of passes: one more than the queued commands is enough.
-- `run_shared` and `run_thread` take a schedule: what happens before or in each pass. `next_unused`
-- takes one round more than there are used identifiers. `spin_until` takes rounds of 100
-- milliseconds: 26 are enough for every loop of the sequence, the longest of 2.5 seconds.
--
-- Not modelled: the locks (a handler of one thread is one step), the text of log messages, what
-- shared_from_this does where no shared pointer owns the object (a parameter), the variant of the
-- mock that reads a USB joystick, and the tests.
pub mod ArcadeDrive
pub mod AutoConfig
pub mod CmdProcessor
pub mod CmdTimerMultiplex
pub mod CmdTimerPosix
pub mod CmdTimerWin32
pub mod CockArm
pub mod CrioTest
pub mod Double
pub mod Global
pub mod HardwareLink
pub mod ListenerManager
pub mod LogMacros
pub mod Motor
pub mod Options
pub mod Prelude
pub mod RobotMath
pub mod SwerveDrive
pub mod Tests
pub mod ThreadSafeQueue
pub mod WpiMock
