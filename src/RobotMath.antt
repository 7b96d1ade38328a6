-- ===== src/RobotMath.antt =====
-- src/RobotMovement/RobotMath.cpp and HardwareLink/Motor/MotorDir.h: angles, powers and the direction
-- of a turn.
pub mod Angles
pub mod Turns
use frc.Prelude.{Bool, ◌&&◌, ◌||◌, true, false, if◌then◌else◌}
use frc.Double.{Double, lit, minus_one}

-- `enum MotorDir`: -1, 0 and 1.
pub data MotorDir : Type 0 where
  dir_ccw dir_none dir_cw : MotorDir

module _ {D : Type 0} ⦃d : Double D⦄ where
  open d use {add, sub, mul, div, fmod, neg, abs, lt, le, eq}

  unfoldable pub sgn : D → D
  sgn n = div (abs n) n

  unfoldable pub is_valid_power : D → Bool
  is_valid_power pow = le minus_one pow && le pow (lit 1)

  unfoldable pub make_valid_power : D → D
  make_valid_power pow =
      if lt pow minus_one then minus_one else if lt (lit 1) pow then lit 1 else pow

  unfoldable pub normalize_angle : D → D
  normalize_angle angle =
      let theta = fmod (add (fmod angle (lit 360)) (lit 360)) (lit 360) in
      if lt (lit 180) theta then sub theta (lit 360) else theta

  unfoldable pub angle_distance : D → D → D
  angle_distance angle1 angle2 =
      let dist = sub (normalize_angle angle2) (normalize_angle angle1) in
      if lt (lit 180) (abs dist) then mul (neg (sgn dist)) (sub (lit 360) (abs dist)) else dist

  -- `retDir` is the product of two signs: 1 if they agree.
  unfoldable pub get_motor_dir_to_target : D → D → MotorDir
  get_motor_dir_to_target current_angle target_angle =
      let diff = sub (normalize_angle current_angle) (normalize_angle target_angle) in
      let far = lt (lit 180) (abs diff) in
      let behind = lt diff (lit 0) in
      let same_sign = if far then (if behind then false else true) else behind in
      if eq diff (lit 0) || eq diff (lit 180)
      then dir_none
      else (if same_sign then dir_cw else dir_ccw)
