-- ===== src/SwerveDrive/Steer/Rest.antt =====
-- The handler with the joysticks in their dead zones.
use mathlib.Core.Path.{ap₂, subst}
use frc.Prelude.{◌≡◌, none, refl, ◌≤◌, some, [], arith, true, ap, ◌∙◌}
use frc.Prelude.Int.{ℤ, ◌+ℤ◌, ◌-ℤ◌, pos, neg_ℤ, abs_ℕ}
use frc.LogMacros.{returns}
use frc.Double.{lit}
use frc.Double.Grid.{Grid, grid}
use frc.ListenerManager.{ListenerManager, get_raw_double}
use frc.ListenerManager.Keys.{joy1x, joy1y, joy2x}
use frc.SwerveDrive.{optimize_swerve}
use frc.SwerveDrive.Optimize.{optimize_swerve_lem}
use frc.SwerveDrive.Steer.{
  Cmath, SwerveDrive, Wheels, beyond_thresh, scale_speeds, d_tr, wheel_speed, compute, compute_at,
  outputs, steer_handler,
}
use frc.SwerveDrive.Steer.Limits.{wheels}
use frc.SwerveDrive.Steer.Numbers.{
  IsCmath, IsNumeric, compute-IsNumeric, is_number, number_lem, is_number-turned, is_number-d_tr,
}

-- The threshold, 0.2, is 204 ticks.
dead : (raw : ℤ) (v : Grid) → abs_ℕ raw ≤ 204 → beyond_thresh {D = Grid} (some raw) v ≡ some (pos 0)
dead raw v h = ground arith

mul_zero : (b : ℤ) → grid.mul (some (pos 0)) (some b) ≡ some (pos 0)
mul_zero b = ground arith

still_optimized :
    (e : ℤ) (ang : Grid)
    → is_number ang ≡ true
    → (a : Grid) × (optimize_swerve (some e) ang (some (pos 0)) ≡ (a, some (pos 0)))
still_optimized e (some a) h =
    let (a', v', t, same, kept, near, small) = optimize_swerve_lem e a (pos 0) in
    let still : v' ≡ pos 0 = ground arith in (some a', same ∙ ap (λ v. (some a', some v)) still)
still_optimized e none h = absurd (cc)

add_still :
    (v : Grid) (b : ℤ)
    → v ≡ some (pos 0)
    → grid.add v (grid.mul (some (pos 0)) (some b)) ≡ some (pos 0)
unfolding ◌+ℤ◌
add_still v b e = rw e (ground arith)

sub_still :
    (v : Grid) (b : ℤ)
    → v ≡ some (pos 0)
    → grid.sub v (grid.mul (some (pos 0)) (some b)) ≡ some (pos 0)
unfolding ◌-ℤ◌
sub_still v b e = rw e (ground arith)

outputs_still :
    (s : SwerveDrive Grid) (e1 e2 e3 : ℤ)
    → is_number s.ang_l ≡ true
    → is_number s.ang_r ≡ true
    → is_number s.ang_b ≡ true
    → s.spd_l ≡ some (pos 0)
    → s.spd_r ≡ some (pos 0)
    → s.spd_b ≡ some (pos 0)
    → (targets : Wheels Grid) × (outputs (some (pos 0)) (some (pos 0)) (wheels e1 e2 e3) s
        ≡ (targets, wheels (pos 0) (pos 0) (pos 0)))
unfolding outputs scale_speeds
outputs_still s e1 e2 e3 hl hr hb zl zr zb =
    let (ar, er) = still_optimized e1 s.ang_r hr in
    let (al, el) = still_optimized e2 s.ang_l hl in
    let (ab, eb) = still_optimized e3 s.ang_b hb in
    (
      record { fr = grid.add ar (lit 0); fl = grid.add al (lit 0); bk = grid.add ab (lit 0) },
      rw (zr, zl, zb, er, el, eb) refl,
    )

module _ (c : Cmath Grid) (laws : IsCmath c) where
  open laws use {square_zero, root_zero}

  still_length :
      c.sqrt (grid.add (c.pow (some (pos 0)) (lit 2)) (c.pow (some (pos 0)) (lit 2))) ≡ some (pos 0)
  unfolding ◌+ℤ◌
  still_length = rw square_zero root_zero

  still_speed :
      (x_vel y_vel : Grid) (x_pos y_pos : ℤ)
      → x_vel ≡ some (pos 0)
      → y_vel ≡ some (pos 0)
      → wheel_speed c x_vel y_vel (some (pos 0)) (some x_pos) (some y_pos) ≡ some (pos 0)
  unfolding wheel_speed
  still_speed x_vel y_vel x_pos y_pos ex ey =
      ap₂ (λ p q. c.sqrt (grid.add (c.pow p (lit 2)) (c.pow q (lit 2)))) (add_still x_vel y_pos ex)
        (sub_still y_vel x_pos ey)
      ∙ still_length

  module _ (gyro : ℤ) (s : SwerveDrive Grid) (h : is_number s.theta ≡ true) where
    still_turned :
        (grid.mul (some (pos 0)) (c.cos (d_tr c s.theta)) ≡ some (pos 0))
        × (grid.mul (some (pos 0)) (c.sin (d_tr c s.theta)) ≡ some (pos 0))
    still_turned =
        let (h_sin, h_cos) =
          is_number-turned c laws (d_tr c s.theta) (is_number-d_tr c laws s.theta h) in
        let (sin_value, es) = number_lem _ h_sin in
        let (cos_value, ec) = number_lem _ h_cos in
        (rw ec (mul_zero cos_value), rw es (mul_zero sin_value))

    abbrev still : SwerveDrive Grid
    still = compute_at c (some (pos 0)) (some (pos 0)) (some (pos 0)) (some (pos 0)) (some gyro) s

    compute-still : compute c (some (pos 0)) (some (pos 0)) (some (pos 0)) (some gyro) s ≡ still
    unfolding compute
    compute-still =
        ap (λ speed. compute_at c speed (some (pos 0)) (some (pos 0)) (some (pos 0)) (some gyro) s)
          (ap grid.neg still_length)

    still_fields :
        (still.theta ≡ s.theta)
        × (still.spd_l ≡ some (pos 0))
        × (still.spd_r ≡ some (pos 0))
        × (still.spd_b ≡ some (pos 0))
    unfolding compute_at
    still_fields =
        let (ex, ey) = still_turned in
        (refl, still_speed _ _ _ _ ex ey, still_speed _ _ _ _ ex ey, still_speed _ _ _ _ ex ey)

pub steer_handler-rest :
    (c : Cmath Grid) (laws : IsCmath c) (m : ListenerManager Grid) (x y z gyro e1 e2 e3 : ℤ)
    (s : SwerveDrive Grid)
    → get_raw_double m joy1x ≡ returns (some x, [])
    → get_raw_double m joy1y ≡ returns (some y, [])
    → get_raw_double m joy2x ≡ returns (some z, [])
    → abs_ℕ x ≤ 204
    → abs_ℕ y ≤ 204
    → abs_ℕ z ≤ 204
    → is_number s.theta ≡ true
    → (s' : SwerveDrive Grid) × (targets : Wheels Grid) × (steer_handler c m
          (some gyro)
          (returns (wheels e1 e2 e3))
          s
        ≡ returns (s', (targets, wheels (pos 0) (pos 0) (pos 0)), []))
      × (s'.theta ≡ s.theta)
unfolding steer_handler
steer_handler-rest c laws m x y z gyro e1 e2 e3 s ex ey ez hx hy hz h =
    let (same, zl, zr, zb) = still_fields c laws gyro s h in
    let v : IsNumeric c laws (still c laws gyro s h) =
      subst (IsNumeric c laws) (compute-still c laws gyro s h)
        (compute-IsNumeric c laws (pos 0) (pos 0) (pos 0) gyro s h) in
    let (targets, e) =
      outputs_still (still c laws gyro s h) e1 e2 e3 v.ang_l v.ang_r v.ang_b zl zr zb in
    let dx = dead x (some x) hx in
    let dy = dead y (some (neg_ℤ y)) hy in
    let dz = dead z (some z) hz in
    (
      still c laws gyro s h,
      targets,
      rw (ex, ey, ez, dx, dy, dz, compute-still c laws gyro s h, e) refl,
      same,
    )
