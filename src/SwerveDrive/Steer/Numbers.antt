-- ===== src/SwerveDrive/Steer/Numbers.antt =====
-- The end of the handler and its speeds, on the grid of exact values, over functions of <cmath> that
-- return numbers for numbers.
use frc.Prelude.{
  Bool, true, false, ◌&&◌, not, none, ◌+◌, ◌≡◌, refl, ℕ, suc, ◌≤◌, some, [], arith, if_both,
  if◌then◌else◌, ap,
}
use frc.Prelude.Int.{ℤ, pos_add, pos, neg_ℤ, abs_ℕ}
use frc.LogMacros.{returns}
use frc.Double.{lit, ratio}
use frc.Double.Grid.{Grid, grid, unit}
use frc.ListenerManager.{ListenerManager, get_raw_double}
use frc.ListenerManager.Keys.{joy1x, joy1y, joy2x}
use frc.SwerveDrive.{optimize_swerve}
use frc.SwerveDrive.Optimize.{optimize_swerve_lem}
use frc.SwerveDrive.Steer.{
  Cmath, SwerveDrive, Wheels, beyond_thresh, d_tr, r_td, wheel_speed, wheel_angle, compute,
  compute_at, outputs, steer_handler, x_pos_l, y_pos_l, x_pos_r, y_pos_r, x_pos_b, y_pos_b,
}
use frc.SwerveDrive.Steer.Limits.{wheels, scale_speeds_lem}

-- What C says of the functions: a square is not negative, and neither is a root; the square and the
-- root of 0 are 0.
pub record IsCmath (c : Cmath Grid) : Type 0 where
  pub square : (a : ℤ) → (n : ℕ) × (c.pow (some a) (lit 2) ≡ some (pos n))
  pub root : (n : ℕ) → (m : ℕ) × (c.sqrt (some (pos n)) ≡ some (pos m))
  pub sine : (a : ℤ) → (b : ℤ) × (c.sin (some a) ≡ some b)
  pub cosine : (a : ℤ) → (b : ℤ) × (c.cos (some a) ≡ some b)
  pub arctangent : (a b : ℤ) → (r : ℤ) × (c.atan2 (some a) (some b) ≡ some r)
  pub pi_positive : (n : ℕ) × (c.pi ≡ some (pos (suc n)))
  pub square_zero : c.pow (some (pos 0)) (lit 2) ≡ some (pos 0)
  pub root_zero : c.sqrt (some (pos 0)) ≡ some (pos 0)

abbrev pub is_number : Grid → Bool
is_number (some a) = true
is_number none = false

pub number_lem : (x : Grid) → is_number x ≡ true → (a : ℤ) × (x ≡ some a)
number_lem (some a) h = (a, refl)
number_lem none h = absurd (cc)

is_number-add :
    (x y : Grid) → is_number x ≡ true → is_number y ≡ true → is_number (grid.add x y) ≡ true
is_number-add x y hx hy = ground arith

is_number-sub :
    (x y : Grid) → is_number x ≡ true → is_number y ≡ true → is_number (grid.sub x y) ≡ true
is_number-sub x y hx hy = ground arith

is_number-mul :
    (x y : Grid) → is_number x ≡ true → is_number y ≡ true → is_number (grid.mul x y) ≡ true
is_number-mul x y hx hy = ground arith

pub abs-neg : (a : ℤ) → abs_ℕ (neg_ℤ a) ≡ abs_ℕ a
abs-neg a = ground arith

-- An axis after its dead zone is a number.
beyond_value : (raw v : ℤ) → (a : ℤ) × (beyond_thresh {D = Grid} (some raw) (some v) ≡ some a)
beyond_value raw v = number_lem _ (ground arith)

module _ (c : Cmath Grid) (laws : IsCmath c) where
  open laws use {square, root, sine, cosine, arctangent, pi_positive, square_zero, root_zero}

  is_number-r_td : (x : Grid) → is_number x ≡ true → is_number (r_td c x) ≡ true
  unfolding r_td
  is_number-r_td x h = let (n, p) = pi_positive in rw p (ground arith)

  pub is_number-d_tr : (x : Grid) → is_number x ≡ true → is_number (d_tr c x) ≡ true
  unfolding d_tr
  is_number-d_tr x h = let (n, p) = pi_positive in rw p (ground arith)

  -- The length of a vector.
  abbrev length_of : Grid → Grid → Grid
  length_of x y = c.sqrt (grid.add (c.pow x (lit 2)) (c.pow y (lit 2)))

  length_value :
      (a b : ℤ)
      → (k : ℕ) × (c.sqrt (grid.add (c.pow (some a) (lit 2)) (c.pow (some b) (lit 2)))
          ≡ some (pos k))
  length_value a b =
      let (n, en) = square a in
      let (m, em) = square b in let (k, ek) = root (n + m) in (k, rw (en, em, pos_add n m, ek) refl)

  is_number-length_of :
      (x y : Grid) → is_number x ≡ true → is_number y ≡ true → is_number (length_of x y) ≡ true
  is_number-length_of (some a) (some b) hx hy = ap is_number (length_value a b).1
  is_number-length_of (some a) none hx hy = absurd (cc)
  is_number-length_of none y hx hy = absurd (cc)

  is_number-atan2 :
      (x y : Grid) → is_number x ≡ true → is_number y ≡ true → is_number (c.atan2 x y) ≡ true
  is_number-atan2 (some a) (some b) hx hy = rw (arctangent a b).1 refl
  is_number-atan2 (some a) none hx hy = absurd (cc)
  is_number-atan2 none y hx hy = absurd (cc)

  pub is_number-turned :
      (x : Grid) → is_number x ≡ true → (is_number (c.sin x) ≡ true) × (is_number (c.cos x) ≡ true)
  is_number-turned (some a) h = (rw (sine a).1 refl, rw (cosine a).1 refl)
  is_number-turned none h = absurd (cc)

  module _ (x_vel y_vel rot x_pos y_pos : Grid) (hx : is_number x_vel ≡ true)
      (hy : is_number y_vel ≡ true) (hr : is_number rot ≡ true) (px : is_number x_pos ≡ true)
      (py : is_number y_pos ≡ true) where
    is_number-wheel_speed : is_number (wheel_speed c x_vel y_vel rot x_pos y_pos) ≡ true
    unfolding wheel_speed
    is_number-wheel_speed = is_number-length_of _ _ (ground arith) (ground arith)

    pub is_number-wheel_angle : is_number (wheel_angle c x_vel y_vel rot x_pos y_pos) ≡ true
    unfolding wheel_angle
    is_number-wheel_angle = is_number-r_td _ (is_number-atan2 _ _ (ground arith) (ground arith))

  -- The fields that the outputs are computed from are numbers.
  pub record IsNumeric (s : SwerveDrive Grid) : Type 0 where
    pub theta : is_number s.theta ≡ true
    pub spd_l : is_number s.spd_l ≡ true
    pub spd_r : is_number s.spd_r ≡ true
    pub spd_b : is_number s.spd_b ≡ true
    pub ang_l : is_number s.ang_l ≡ true
    pub ang_r : is_number s.ang_r ≡ true
    pub ang_b : is_number s.ang_b ≡ true

  pub compute-IsNumeric :
      (x1 y1 x2 gyro : ℤ) (s : SwerveDrive Grid)
      → is_number s.theta ≡ true
      → IsNumeric (compute c (some x1) (some y1) (some x2) (some gyro) s)
  unfolding compute compute_at
  compute-IsNumeric x1 y1 x2 gyro s h =
      let P : Grid → Type 0 = λ g. is_number g ≡ true in
      let speed = grid.neg (length_of (some x1) (some y1)) in
      let moving = grid.lt (ratio 1 10) (grid.abs speed) in
      let vel = if moving then speed else lit 0 in
      let heading = grid.add (r_td c (c.atan2 (some y1) (some x1))) (some gyro) in
      let theta = if moving then heading else s.theta in
      let h_speed : is_number speed ≡ true =
        ap (λ g. is_number (grid.neg g)) (length_value x1 y1).1 in
      let h_vel : is_number vel ≡ true = if_both P moving speed (lit 0) h_speed refl in
      let h_heading : is_number heading ≡ true =
        is_number-add _ _ (is_number-r_td _ (is_number-atan2 (some y1) (some x1) refl refl)) refl in
      let h_theta : is_number theta ≡ true = if_both P moving heading s.theta h_heading h in
      let (h_sin, h_cos) = is_number-turned (d_tr c theta) (is_number-d_tr theta h_theta) in
      let x_vel = grid.mul vel (c.cos (d_tr c theta)) in
      let y_vel = grid.mul vel (c.sin (d_tr c theta)) in
      let hx : is_number x_vel ≡ true = is_number-mul _ _ h_vel h_cos in
      let hy : is_number y_vel ≡ true = is_number-mul _ _ h_vel h_sin in
      record {
        theta = h_theta;
        spd_l = is_number-wheel_speed x_vel y_vel (some x2) x_pos_l y_pos_l hx hy refl refl refl;
        spd_r = is_number-wheel_speed x_vel y_vel (some x2) x_pos_r y_pos_r hx hy refl refl refl;
        spd_b = is_number-wheel_speed x_vel y_vel (some x2) x_pos_b y_pos_b hx hy refl refl refl;
        ang_l = is_number-wheel_angle x_vel y_vel (some x2) x_pos_l y_pos_l hx hy refl refl refl;
        ang_r = is_number-wheel_angle x_vel y_vel (some x2) x_pos_r y_pos_r hx hy refl refl refl;
        ang_b = is_number-wheel_angle x_vel y_vel (some x2) x_pos_b y_pos_b hx hy refl refl refl;
      }

  optimized :
      (e : ℤ) (ang spd : Grid)
      → is_number ang ≡ true
      → is_number spd ≡ true
      → (a : ℤ) × (v : ℤ) × (optimize_swerve (some e) ang spd ≡ (some a, some v))
  optimized e (some a) (some v) ha hv =
      let (a', v', t, same, kept, near, small) = optimize_swerve_lem e a v in (a', v', same)
  optimized e (some a) none ha hv = absurd (cc)
  optimized e none spd ha hv = absurd (cc)

  outputs_lem :
      (x1 x2 e1 e2 e3 : ℤ) (s : SwerveDrive Grid)
      → IsNumeric s
      → (targets : Wheels Grid) × (r : ℤ) × (l : ℤ) × (b : ℤ) × (outputs
            (some x1)
            (some x2)
            (wheels e1 e2 e3)
            s
          ≡ (targets, wheels r l b))
        × (abs_ℕ r ≤ unit)
        × (abs_ℕ l ≤ unit)
        × (abs_ℕ b ≤ unit)
  unfolding outputs
  outputs_lem x1 x2 e1 e2 e3 s v =
      let (ar, vr, er) = optimized e1 s.ang_r s.spd_r v.ang_r v.spd_r in
      let (al, vl, el) = optimized e2 s.ang_l s.spd_l v.ang_l v.spd_l in
      let (ab, vb, eb) = optimized e3 s.ang_b s.spd_b v.ang_b v.spd_b in
      let (r, l, b, scaled, hr, hl, hb, same) = scale_speeds_lem vr vl vb in
      let extra =
        if grid.eq (some x1) (lit 0) && not (grid.eq (some x2) (lit 0))
        then ratio 1 10
        else lit 0 in
      (
        record {
          fr = grid.add (some ar) extra;
          fl = grid.add (some al) extra;
          bk = grid.add (some ab) extra;
        },
        r,
        neg_ℤ l,
        b,
        rw (er, el, eb, scaled) refl,
        hr,
        omega (arith, abs-neg l),
        hb,
      )

  -- Where the three axes, the gyroscope, the encoders and the heading kept from before are numbers,
  -- on the exact grid and over functions of <cmath> that return numbers, the handler returns and logs
  -- nothing; the heading that it keeps is a number again, and none of the three speeds that the drive
  -- motors are set to is over 1.
  pub steer_handler-speeds :
      (m : ListenerManager Grid) (x y z gyro e1 e2 e3 : ℤ) (s : SwerveDrive Grid)
      → get_raw_double m joy1x ≡ returns (some x, [])
      → get_raw_double m joy1y ≡ returns (some y, [])
      → get_raw_double m joy2x ≡ returns (some z, [])
      → is_number s.theta ≡ true
      → (s' : SwerveDrive Grid) × (targets : Wheels Grid) × (r : ℤ) × (l : ℤ) × (b : ℤ)
        × (steer_handler c m (some gyro) (returns (wheels e1 e2 e3)) s
            ≡ returns (s', (targets, wheels r l b), []))
        × (is_number s'.theta ≡ true)
        × (abs_ℕ r ≤ unit)
        × (abs_ℕ l ≤ unit)
        × (abs_ℕ b ≤ unit)
  unfolding steer_handler
  steer_handler-speeds m x y z gyro e1 e2 e3 s ex ey ez h =
      let (x1, hx) = beyond_value x x in
      let (y1, hy) = beyond_value y (neg_ℤ y) in
      let (x2, hz) = beyond_value z z in
      let s' = compute c (some x1) (some y1) (some x2) (some gyro) s in
      let v = compute-IsNumeric x1 y1 x2 gyro s h in
      let (targets, r, l, b, e, hr, hl, hb) = outputs_lem x1 x2 e1 e2 e3 s' v in
      (s', targets, r, l, b, rw (ex, ey, ez, hx, hy, hz, e) refl, v.theta, hr, hl, hb)
