-- ===== src/Motor/Direction.antt =====
-- The power that the angle controller of Motor/Control computes (LinearAngleTarget), on the grid of exact
-- values: its direction and its least size.
use frc.Prelude.{
  Option, sym, ℕ, zero, suc, ◌-◌, ◌+◌, ◌*◌, ◌/◌, ◌≤◌, ◌<◌, ◌≡◌, refl, ap, ◌∙◌, some, arith,
  if◌then◌else◌, ltb, true, false, Bool, ◌==◌,
}
use frc.Prelude.Int.{ℤ, pos, negsuc, sub_ℕ, abs_ℕ, ◌+ℤ◌, ◌-ℤ◌, ◌≤ℤ◌}
use frc.Double.{lit}
use frc.Double.Grid.{Grid, grid, unit}
use frc.RobotMath.{sgn}
use frc.RobotMath.Angles.{half, turn, angle_distance-turn, sgn_pos, sgn_neg}
use frc.RobotMath.Turns.{direction_of, get_motor_dir_to_target-angle_distance}
use frc.LogMacros.{returns}
use frc.Motor.Control.{
  LinearAngleTarget, MotorControl, Readings, angle, angle_step, dir_value, execute, is_complete,
}
use frc.Motor.Starts.{execute-angle_step}

-- The gain for each degree is not negative where the smallest speed is at most 1.
slope :
    (m : ℕ)
    → m ≤ unit
    → (s : ℕ) × (grid.div (grid.sub (lit 1) (some (pos m))) (lit 90) ≡ some (pos s))
unfolding ◌-ℤ◌ ◌+ℤ◌
slope m h = ((unit - m) * unit / (90 * unit), ground arith)

-- The part of the power that is proportional to the turn has its sign.
proportional_pos :
    (n s : ℕ)
    → (q : ℕ) × (grid.mul
          (grid.mul (sgn (some (pos (suc n)))) (grid.abs (some (pos (suc n)))))
          (some (pos s))
        ≡ some (pos q))
proportional_pos n s = rw (sgn_pos (suc n) (omega arith)) (_, refl)

minus_scaled : (x s : ℕ) → (q : ℕ) × (grid.mul (some (sub_ℕ 0 x)) (some (pos s)) ≡ some (sub_ℕ 0 q))
minus_scaled zero s = (0, ground arith)
minus_scaled (suc x) s = (abs_ℕ (sub_ℕ 0 (suc x)) * abs_ℕ (pos s) / unit, ground arith)

proportional_neg :
    (n s : ℕ)
    → (q : ℕ) × (grid.mul
          (grid.mul (sgn (some (negsuc n))) (grid.abs (some (negsuc n))))
          (some (pos s))
        ≡ some (sub_ℕ 0 q))
proportional_neg n s = rw (sgn_neg n) (minus_scaled _ s)

-- The power for a turn: at least the smallest speed in its direction. For exactly half a turn back it is
-- not forwards.
abbrev pub Points : ℤ → ℕ → ℤ → Type 0
Points (pos n) m p = pos m ≤ℤ p
Points (negsuc n) m p = p ≤ℤ (if suc n == half then pos 0 else sub_ℕ 0 m)

proportional :
    (t : ℤ) (s : ℕ)
    → 0 < abs_ℕ t
    → (q : ℕ) × (grid.mul (grid.mul (sgn (some t)) (grid.abs (some t))) (some (pos s))
        ≡ elim t [ pos n ↦ some (pos q) | negsuc n ↦ some (sub_ℕ 0 q) ])
proportional (pos zero) s h = absurd (omega (arith, h))
proportional (pos (suc n)) s h = proportional_pos n s
proportional (negsuc n) s h = proportional_neg n s

open grid use {add, mul, div, sub, abs, lt}

-- The power before the test for the end, from its proportional part.
with_least : ℕ → Grid → ℤ → Grid
with_least m part t =
    let gain = add part (some (pos m)) in
    if lt (some (pos m)) (abs gain) then gain else mul (dir_value (direction_of t)) (some (pos m))

with_least-Points :
    (m : ℕ) (part : Grid) (t : ℤ)
    → 0 < abs_ℕ t
    → (q : ℕ) × (part ≡ elim t [ pos n ↦ some (pos q) | negsuc n ↦ some (sub_ℕ 0 q) ])
    → (p : ℤ) × (with_least m part t ≡ some p) × Points t m p
unfolding with_least ◌+ℤ◌
with_least-Points m part (pos n) moves (q, e) = rw e (pos (q + m), ground arith, omega arith)
with_least-Points m part (negsuc n) moves (q, e) = rw e (
  if ltb m (abs_ℕ (sub_ℕ m q)) then sub_ℕ m q else if suc n == half then pos 0 else sub_ℕ 0 m,
  ground arith,
  ground arith,
)

-- The power of a run: 0 near the target, and otherwise the power for the turn.
abbrev pub Powers : Bool → ℤ → ℕ → ℤ → Type 0
Powers true t m p = p ≡ pos 0
Powers false t m p = Points t m p

by_nearness :
    (near : Bool) (t : ℤ) (m threshold : ℕ) (far : Grid)
    → near ≡ ltb (abs_ℕ t) threshold
    → 0 < threshold
    → (0 < abs_ℕ t → (p : ℤ) × (far ≡ some p) × Points t m p)
    → (p : ℤ) × ((if near then some (pos 0) else far) ≡ some p) × Powers near t m p
by_nearness true t m threshold far e positive points = (pos 0, refl, refl)
by_nearness false t m threshold far e positive points = points (ground arith)

some_inj : (x y : ℤ) → Option.some x ≡ some y → x ≡ y
some_inj x y h = cc

add_zero : (n : ℕ) → n + 0 ≡ n
add_zero n = omega arith

module _ (c : LinearAngleTarget Grid) (a b : ℤ) (m threshold : ℕ) (aims : c.target_angle ≡ some b)
    (least : c.min_speed ≡ some (pos m)) (small : m ≤ unit)
    (within : c.threshold ≡ some (pos threshold)) (positive : 0 < threshold) where
  angle_step_lem : angle_step c (some a) ≡ (
      if ltb (abs_ℕ (turn a b)) threshold
      then some (pos 0)
      else with_least m
          (mul (mul (sgn (some (turn a b))) (abs (some (turn a b)))) (some (pos (slope m small).0)))
          (turn a b))
  unfolding angle_step with_least
  angle_step_lem =
      let (t, e, towards) = get_motor_dir_to_target-angle_distance a b in
      let same : t ≡ turn a b = some_inj t (turn a b) (sym e ∙ angle_distance-turn a b) in
      rw (aims, least, within, angle_distance-turn a b, (slope m small).1, towards, same)
        (ground arith)

  angle_step-Powers :
      (p : ℤ) × (angle_step c (some a) ≡ some p)
      × Powers (ltb (abs_ℕ (turn a b)) threshold) (turn a b) m p
  angle_step-Powers =
      let (p, e, powers) = by_nearness _ (turn a b) m threshold _ refl positive (λ moves.
        with_least-Points m _ (turn a b) moves (proportional (turn a b) (slope m small).0 moves)) in
      (p, angle_step_lem ∙ e, powers)

  -- A run of an angle controller never turns the motor the wrong way. With its motor, an encoder, exact
  -- values for all angles, a smallest speed of at most 1 and a positive threshold, the run returns and
  -- schedules the next one. It finds the controller complete exactly where the signed turn from the
  -- encoder's angle to the target is shorter than the threshold. The power that it forces is then 0, and
  -- otherwise it is at least the smallest speed in the turn's direction; for a turn of exactly minus
  -- half a circle it is only known not to be forwards.
  pub execute-Powers :
      (r : Readings Grid) (now : ℕ) (dt : Grid) (control : MotorControl Grid)
      → control.target ≡ angle c
      → control.controlled_motor ≡ true
      → r.encoder_angle ≡ some (some a)
      → let near = ltb (abs_ℕ (turn a b)) threshold in
        (is_complete r true (angle c) ≡ returns near)
        × ((p : ℤ) × (execute r now dt control
              ≡ returns (record control { last_runtime = some now; scheduled = some 100 }, some p))
            × Powers near (turn a b) m p)
  execute-Powers r now dt control is_angle linked read =
      let (complete, is_zero, run) =
        execute-angle_step r now dt (some a) control c is_angle linked read in
      let (p, e, powers) = angle_step-Powers in
      (
        complete ∙ rw (aims, within, angle_distance-turn a b) (ground arith),
        (
          p,
          run
              ∙ ap
                  (λ v.
                    returns (record control { last_runtime = some now; scheduled = some 100 }, v))
                  e,
          powers,
        ),
      )
