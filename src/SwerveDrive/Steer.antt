-- ===== src/SwerveDrive/Steer.antt =====
-- src/RobotMovement/SwerveDrive.h and .cpp: the steering handler, and the conversions of RobotMath.h.
-- The functions of <cmath> and Boost's pi are parameters. The handler reads one poll of the joystick;
-- it is the same for each of the two reads of an axis.
pub mod Numbers
pub mod Thread
pub mod Rest
pub mod Limits
use frc.Prelude.{Bool, List, ◌++◌, ◌&&◌, ◌||◌, not, if◌then◌else◌}
use frc.LogMacros.{Severity, Outcome, returns, ◌>>=◌}
use frc.Double.{Double, lit, ratio}
use frc.ListenerManager.{ListenerManager, get_raw_double}
use frc.ListenerManager.Keys.{joy1x, joy1y, joy2x}
use frc.SwerveDrive.{optimize_swerve}

pub record Cmath (D : Type 0) : Type 0 where
  pub sqrt : D → D
  pub pow : D → D → D
  pub sin : D → D
  pub cos : D → D
  pub atan2 : D → D → D
  pub pi : D

-- The fields that the handler computes.
pub record SwerveDrive (D : Type 0) : Type 0 where
  pub vel : D
  pub theta : D
  pub rot : D
  pub x_vel : D
  pub y_vel : D
  pub spd_l : D
  pub spd_r : D
  pub spd_b : D
  pub ang_l : D
  pub ang_r : D
  pub ang_b : D

-- The values for the three wheels: front right, front left, back.
pub record Wheels (D : Type 0) : Type 0 where
  pub fr : D
  pub fl : D
  pub bk : D

module _ {D : Type 0} ⦃d : Double D⦄ where
  open d use {add, sub, mul, div, neg, abs, lt, eq}

  unfoldable pub new_swerve_drive : SwerveDrive D
  new_swerve_drive = record {
    vel = lit 0;
    theta = lit 0;
    rot = lit 0;
    x_vel = lit 0;
    y_vel = lit 0;
    spd_l = lit 0;
    spd_r = lit 0;
    spd_b = lit 0;
    ang_l = lit 0;
    ang_r = lit 0;
    ang_b = lit 0;
  }

  -- The places of the wheels. The one in the middle is at 0.0 / 10.
  abbrev pub x_pos_l : D
  x_pos_l = div (neg (ratio 1277374 100000)) (lit 10)

  abbrev pub x_pos_r : D
  x_pos_r = div (ratio 1277374 100000) (lit 10)

  abbrev pub x_pos_b : D
  x_pos_b = div (lit 0) (lit 10)

  abbrev pub y_pos_l : D
  y_pos_l = div (ratio 7375 1000) (lit 10)

  abbrev pub y_pos_r : D
  y_pos_r = div (ratio 7375 1000) (lit 10)

  abbrev pub y_pos_b : D
  y_pos_b = div (neg (ratio 1475 100)) (lit 10)

  -- `std::max`.
  abbrev pub max : D → D → D
  max a b = if lt a b then b else a

  -- An axis with its dead zone.
  abbrev pub beyond_thresh : D → D → D
  beyond_thresh raw value = if lt (ratio 1 5) (abs raw) then value else lit 0

  -- The last step of the handler: no speed over 1.
  unfoldable pub scale_speeds : Wheels D → Wheels D
  scale_speeds w =
      if lt (lit 1) (abs w.fr) || lt (lit 1) (abs w.fl) || lt (lit 1) (abs w.bk)
      then (let scl = max (abs w.fr) (max (abs w.fl) (abs w.bk)) in
          record { fr = div w.fr scl; fl = div w.fl scl; bk = div w.bk scl })
      else w

  -- What the motors are set to: the targets of the three that turn the wheels, in the order
  -- rotFR, rotFL, rotBk, and then the speeds of the three that drive them.
  unfoldable pub outputs : (x1 x2 : D) → Wheels D → SwerveDrive D → Wheels D × Wheels D
  outputs x1 x2 encoders s =
      let r = optimize_swerve encoders.fr s.ang_r s.spd_r in
      let l = optimize_swerve encoders.fl s.ang_l s.spd_l in
      let b = optimize_swerve encoders.bk s.ang_b s.spd_b in
      let extra = if eq x1 (lit 0) && not (eq x2 (lit 0)) then ratio 1 10 else lit 0 in
      let speeds = scale_speeds (record { fr = r.1; fl = l.1; bk = b.1 }) in
      (
        record { fr = add r.0 extra; fl = add l.0 extra; bk = add b.0 extra },
        record speeds { fl = neg speeds.fl },
      )

  module _ (c : Cmath D) where
    open c use {sqrt, pow, sin, cos, atan2, pi}

    unfoldable pub d_tr : D → D
    d_tr angle = div (mul pi angle) (lit 180)

    unfoldable pub r_td : D → D
    r_td rad = mul rad (div (lit 180) pi)

    -- The speed and the angle of the wheel at a place.
    unfoldable pub wheel_speed : (x_vel y_vel rot x_pos y_pos : D) → D
    wheel_speed x_vel y_vel rot x_pos y_pos =
        sqrt
          (add (pow (add x_vel (mul rot y_pos)) (lit 2)) (pow (sub y_vel (mul rot x_pos)) (lit 2)))

    unfoldable pub wheel_angle : (x_vel y_vel rot x_pos y_pos : D) → D
    wheel_angle x_vel y_vel rot x_pos y_pos =
        r_td (atan2 (add y_vel (mul rot x_pos)) (sub x_vel (mul rot y_pos)))

    -- The assignments up to the angles, from the first value of `vel`, the axes and the gyroscope.
    unfoldable pub compute_at : (speed x1 y1 x2 gyro : D) → SwerveDrive D → SwerveDrive D
    compute_at speed x1 y1 x2 gyro s =
        let moving = lt (ratio 1 10) (abs speed) in
        let vel = if moving then speed else lit 0 in
        let theta = if moving then add (r_td (atan2 y1 x1)) gyro else s.theta in
        let x_vel = mul vel (cos (d_tr theta)) in
        let y_vel = mul vel (sin (d_tr theta)) in
        record {
          vel = vel;
          theta = theta;
          rot = x2;
          x_vel = x_vel;
          y_vel = y_vel;
          spd_l = wheel_speed x_vel y_vel x2 x_pos_l y_pos_l;
          spd_r = wheel_speed x_vel y_vel x2 x_pos_r y_pos_r;
          spd_b = wheel_speed x_vel y_vel x2 x_pos_b y_pos_b;
          ang_l = wheel_angle x_vel y_vel x2 x_pos_l y_pos_l;
          ang_r = wheel_angle x_vel y_vel x2 x_pos_r y_pos_r;
          ang_b = wheel_angle x_vel y_vel x2 x_pos_b y_pos_b;
        }

    unfoldable pub compute : (x1 y1 x2 gyro : D) → SwerveDrive D → SwerveDrive D
    compute x1 y1 x2 gyro =
        compute_at (neg (sqrt (add (pow x1 (lit 2)) (pow y1 (lit 2))))) x1 y1 x2 gyro

    -- `steerHandler`. `encoders` is what getEncoderAngle of the three turning motors returns, or how
    -- the first of the calls ends that does not.
    unfoldable pub steer_handler :
        ListenerManager D
        → D
        → Outcome (Wheels D)
        → SwerveDrive D
        → Outcome (SwerveDrive D × (Wheels D × Wheels D) × List Severity)
    steer_handler m gyro encoders s = do
      (raw_x1, log_x1) ← get_raw_double m joy1x
      (raw_y1, log_y1) ← get_raw_double m joy1y
      (raw_x2, log_x2) ← get_raw_double m joy2x
      let x1 = beyond_thresh raw_x1 raw_x1
      let y1 = beyond_thresh raw_y1 (neg raw_y1)
      let x2 = beyond_thresh raw_x2 raw_x2
      let s' = compute x1 y1 x2 gyro s
      angles ← encoders
      returns (s', outputs x1 x2 angles s', log_x1 ++ (log_y1 ++ log_x2))
