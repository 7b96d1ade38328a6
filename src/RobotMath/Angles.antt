-- ===== src/RobotMath/Angles.antt =====
-- normalizeAngle and angleDistance on the grid of angles that a `double` holds exactly.
use frc.Prelude.{ℕ, zero, suc, ◌+◌, ◌-◌, ◌%◌, ◌≤◌, ◌<◌, ◌≡◌, refl, some, arith, ltb, if◌then◌else◌}
use frc.Prelude.Int.{ℤ, pos, negsuc, pos_part, neg_part, sub_ℕ, ◌+ℤ◌, ◌-ℤ◌}
use native.Mathlib.Nat.{mul-div_cancel_left}
use frc.Double.{lit}
use frc.Double.Grid.{unit, Grid, grid}
use frc.RobotMath.{sgn, normalize_angle, angle_distance}

-- A full and a half turn, in ticks.
abbrev pub full : ℕ
full = 368640

abbrev pub half : ℕ
half = 184320

-- The two angles differ by whole turns.
abbrev pub SameDirection : ℤ → ℤ → Type 0
SameDirection a b = (pos_part a + neg_part b) % full ≡ (pos_part b + neg_part a) % full

-- From -180 degrees, exclusive, to 180, inclusive.
abbrev pub IsPrincipal : ℤ → Type 0
IsPrincipal a = (neg_part a < half) × (pos_part a ≤ half)

-- The angle of a direction that lies in that range.
unfoldable pub principal : ℤ → ℤ
principal a =
    let r = (pos_part a + (full - neg_part a % full)) % full in
    if ltb half r then sub_ℕ r full else pos r

pub principal_lem : (a : ℤ) → IsPrincipal (principal a) × SameDirection a (principal a)
unfolding principal
principal_lem a = ground arith

pub normalize_angle-principal : (a : ℤ) → normalize_angle (some a) ≡ some (principal a)
unfolding normalize_angle principal ◌+ℤ◌ ◌-ℤ◌
normalize_angle-principal (pos n) = ground arith
normalize_angle-principal (negsuc n) = ground arith

-- A difference of two principal angles, taken the short way round.
pub shorten : ℤ → ℤ
shorten dist =
    if ltb half (pos_part dist)
    then sub_ℕ (pos_part dist) full
    else (if ltb half (neg_part dist) then sub_ℕ full (neg_part dist) else dist)

unfoldable pub turn : ℤ → ℤ → ℤ
unfolding shorten
turn a b = shorten (principal b -ℤ principal a)

pub sgn_pos : (n : ℕ) → 0 < n → sgn {D = Grid} (some (pos n)) ≡ some (pos unit)
unfolding sgn
sgn_pos n h = ground (arith, mul-div_cancel_left unit {n = n} h)

pub sgn_neg : (n : ℕ) → sgn {D = Grid} (some (negsuc n)) ≡ some (negsuc 1023)
unfolding sgn
sgn_neg n = ground (arith, mul-div_cancel_left unit {n = suc n} (omega arith))

open grid use {sub, mul, neg, abs, lt}

shorten-code :
    (x : ℤ)
    → (if lt (lit 180) (abs (some x))
        then mul (neg (sgn (some x))) (sub (lit 360) (abs (some x)))
        else some x)
      ≡ some (shorten x)
unfolding shorten ◌-ℤ◌
shorten-code (pos zero) = refl
shorten-code (pos (suc n)) = rw (sgn_pos (suc n) (omega arith)) (ground arith)
shorten-code (negsuc n) = rw (sgn_neg n) (ground arith)

module _ (a b : ℤ) where
  pub turn_lem :
      (pos_part (turn a b) ≤ half) × (neg_part (turn a b) ≤ half) × SameDirection (a +ℤ turn a b) b
  unfolding turn ◌-ℤ◌ ◌+ℤ◌
  turn_lem = ground (arith, principal_lem a, principal_lem b)

  pub angle_distance-turn : angle_distance (some a) (some b) ≡ some (turn a b)
  unfolding angle_distance turn
  angle_distance-turn =
      rw (normalize_angle-principal a, normalize_angle-principal b)
        (unfold shorten in shorten-code (principal b -ℤ principal a))
