-- ===== src/Motor/Regulation/Standstill.antt =====
-- A speed controller whose motor stands still (LinearSpeedTarget and MotorLink), on exact values: its new
-- power is a multiple of the Talon's speed.
use frc.Prelude.{
  ℕ, zero, suc, ◌≡◌, refl, ◌∙◌, false, List, [], ◌∷◌, Option, some, arith, Bool-cases, inl, inr,
  All, length, ◌<◌, ◌*◌, ◌/◌,
}
use frc.Prelude.Int.{ℤ, pos, negsuc, abs_ℕ, ◌+ℤ◌, ◌-ℤ◌}
use frc.LogMacros.{returns}
use frc.Double.{lit}
use frc.Double.Grid.{Grid, grid, unit, signed}
use frc.RobotMath.{make_valid_power}
use frc.Motor.Control.{LinearSpeedTarget, MotorControl}
use frc.Motor.Link.{MotorLink, TalonCall, pid_write}
use frc.Motor.Regulation.{Round, regulate, regulate_all}
use frc.Motor.Regulation.Powers.{scaled, driven, computed, regulate_short, regulate_last}
open grid use {add, sub, mul, div, lt}

-- What the clock and the encoder give is a number.
abbrev pub IsExact : Round Grid → Type 0
IsExact x = (n : ℤ) × (a : ℤ) × (x.dt ≡ some n) × (x.encoder ≡ some a)

-- A controller with a target that is not 0, a refresh time over 0, and numbers.
abbrev pub Regulates : LinearSpeedTarget Grid → Type 0
Regulates t =
    (b : ℤ) × (k : ℕ) × (a : ℤ) × (e : ℤ) × (0 < abs_ℕ b)
    × (0 < k)
    × (t.tgt_speed ≡ some b)
    × (t.refresh_time ≡ some (pos k))
    × (t.dt_accum ≡ some a)
    × (t.last_encoder_angle ≡ some e)

mul_zero : (s : ℤ) → mul (some (pos 0)) (some s) ≡ some (pos 0)
mul_zero s = ground arith

div_zero : (b : ℤ) → 0 < abs_ℕ b → div (some (pos 0)) (some b) ≡ some (pos 0)
div_zero b h = ground arith

div-some : (a b : ℤ) → 0 < abs_ℕ b → (q : ℤ) × (div (some a) (some b) ≡ some q)
div-some a b h = (signed a b (abs_ℕ a * unit / abs_ℕ b), ground arith)

make_valid_power-zero : make_valid_power (lit {D = Grid} 0) ≡ lit 0
unfolding make_valid_power
make_valid_power-zero = refl

reached-positive : (z : ℤ) (k : ℕ) → 0 < k → lt (some z) (some (pos k)) ≡ false → 0 < abs_ℕ z
reached-positive (pos n) k h e = ground arith
reached-positive (negsuc n) k h e = absurd (ground arith)

module _ (m : MotorLink Grid) (c : MotorControl Grid) (s : ℤ)
    (exact : m.speed_scalar ≡ some s) where
  scaled_zero : scaled m c (lit 0) ≡ lit 0
  scaled_zero =
      rw (exact, mul_zero s)
        (elim (Bool-cases m.motor_reversed) [
          | inl h ↦ rw h (mul_zero (negsuc 1023))
          | inr h ↦ rw h (mul_zero (pos 1024))
        ])

  computed_zero :
      (t : LinearSpeedTarget Grid) (b e a n : ℤ)
      → 0 < abs_ℕ b
      → 0 < abs_ℕ n
      → t.tgt_speed ≡ some b
      → t.last_encoder_angle ≡ some e
      → computed m c t (lit 0) (some a) (some n) ≡ lit 0
  computed_zero t b e a n hb hn is_b is_e =
      let (q, d) = div-some (a -ℤ e) n hn in
      rw (is_b, is_e, div_zero b hb, d, mul_zero q) make_valid_power-zero

  module _ (to_float : Grid → Grid) (get : List (TalonCall Grid) → Grid)
      (get_pid_write : (v : Grid) (calls : List (TalonCall Grid))
        → get (pid_write v ∷ calls) ≡ to_float v)
      (to_float-zero : to_float (lit 0) ≡ lit 0) where
    -- A run of the controller forces the power 0.
    regulate-stands :
        (x : Round Grid) (t : LinearSpeedTarget Grid) (calls : List (TalonCall Grid))
        (last : Option ℕ)
        → IsExact x
        → Regulates t
        → get calls ≡ lit 0
        → (t' : LinearSpeedTarget Grid) × (last' : Option ℕ) × Regulates t'
          × (regulate get x (driven m c t calls last)
              ≡ returns (driven m c t' (pid_write (lit 0) ∷ calls) last'))
    regulate-stands x t calls last (n, angle, dt, reads)
          (b, k, a, e, hb, hk, is_b, is_k, is_a, is_e) stands =
        elim (Bool-cases (lt (some (a +ℤ n)) (some (pos k)))) [
          | inl h ↦ (
            record t { dt_accum = add t.dt_accum x.dt },
            some x.now,
            (b, k, a +ℤ n, e, hb, hk, is_b, is_k, rw (is_a, dt) refl, is_e),
            regulate_short m c to_float get get_pid_write x t calls last (rw (is_a, dt, is_k) h)
                ∙ rw (stands, scaled_zero) refl,
          )
          | inr h ↦ (
            record t { dt_accum = lit 0; last_encoder_angle = x.encoder },
            some x.now,
            (b, k, pos 0, angle, hb, hk, is_b, is_k, refl, reads),
            regulate_last m c to_float get get_pid_write x t calls last (rw (is_a, dt, is_k) h)
                ∙ rw
                    (
                      stands,
                      is_a,
                      dt,
                      reads,
                      computed_zero t b e angle (a +ℤ n) hb (reached-positive (a +ℤ n) k hk h) is_b
                          is_e,
                      scaled_zero,
                    )
                    refl,
          )
        ]

    -- The calls after so many runs that force the power 0.
    abbrev pub stops : ℕ → List (TalonCall Grid) → List (TalonCall Grid)
    stops zero calls = calls
    stops (suc n) calls = stops n (pid_write (lit 0) ∷ calls)

    -- A speed controller never starts a motor that stands still. Where Talon::Get returns what the last
    -- PIDWrite was given, as a float, a float keeps 0, and the controller has its motor, an encoder, a
    -- target speed other than 0, a refresh time over 0, and exact values for all that it reads: if the
    -- Talon's speed is 0 when the runs begin, then all of them return, each followed by a pass of the
    -- motor's processor, and each sets the Talon to 0, whatever the target is.
    pub regulate_all-stands :
        (xs : List (Round Grid)) (t : LinearSpeedTarget Grid) (calls : List (TalonCall Grid))
        (last : Option ℕ)
        → All IsExact xs
        → Regulates t
        → get calls ≡ lit 0
        → (t' : LinearSpeedTarget Grid) × (last' : Option ℕ) × (regulate_all get xs
              (driven m c t calls last)
            ≡ returns (driven m c t' (stops (length xs) calls) last'))
    unfolding regulate_all
    regulate_all-stands [] t calls last exact_all regulates stands = (t, last, refl)
    regulate_all-stands (x ∷ xs) t calls last (is, exact_all) regulates stands =
        let (t1, last1, regulates1, run) = regulate-stands x t calls last is regulates stands in
        let (t', last', done) =
          regulate_all-stands xs t1 (pid_write (lit 0) ∷ calls) last1 exact_all regulates1
            (get_pid_write (lit 0) calls ∙ to_float-zero) in
        (t', last', rw run done)
