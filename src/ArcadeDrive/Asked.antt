-- ===== src/ArcadeDrive/Asked.antt =====
-- A motor of src/HardwareLink/Motor/MotorLink.h that is asked for a speed again and again: what its
-- Talon gets.
use mathlib.Core.List.{append-nil, append_assoc}
use frc.Prelude.{
  ℕ, zero, suc, ◌≡◌, refl, ap, sym, ◌∙◌, false, List, [], ◌∷◌, ◌++◌, some, arith, if◌then◌else◌,
  replicate,
}
use frc.Prelude.Int.{ℤ}
use frc.LogMacros.{◌>>=◌, returns}
use frc.Double.{Double, lit, minus_one}
use frc.Double.Grid.{Grid, grid}
use frc.Motor.Control.{Readings}
use frc.Motor.Link.{
  MotorLink, TalonCall, pid_write, set_speed_impl, set_speed, set_speed_force, process, run_cmd,
}
use frc.Motor.Link as Link
use frc.Motor.Link.Thread.{process_all}

module _ {D : Type 0} ⦃d : Double D⦄ where
  -- A motor that was asked so many times for a speed, while its controller does not drive it.
  abbrev pub asked : ℕ → D → MotorLink D → MotorLink D
  asked zero v x = x
  asked (suc n) v x = asked n v (set_speed_force v x)

  pub set_speed-off :
      (v : D) (x : MotorLink D)
      → x.spd_control_enabled ≡ false
      → set_speed v x ≡ returns (set_speed_force v x)
  unfolding set_speed set_speed_force
  set_speed-off v x off = rw off refl

  pub set_speed_force-enabled :
      (v : D) (x : MotorLink D) → (set_speed_force v x).spd_control_enabled ≡ x.spd_control_enabled
  unfolding set_speed_force Link.enqueue
  set_speed_force-enabled v x = refl

-- The motor has no command waiting and no controller that drives it, is not reversed, and has the
-- scalar 1, as the constructor makes a motor without a controller.
abbrev pub IsPlain : MotorLink Grid → Type 0
IsPlain x =
    (x.queue ≡ [])
    × (x.spd_control_enabled ≡ false)
    × (x.motor_reversed ≡ false)
    × (x.speed_scalar ≡ lit 1)

-- The commands that wait on the motor return, and give its Talon a speed so many times.
abbrev pub Drives : Readings Grid → ℕ → ℤ → List (TalonCall Grid) → MotorLink Grid → Type 0
Drives r n v before x =
    (y : MotorLink Grid) × (process_all r n x ≡ returns y)
    × (y.queue ≡ [])
    × (y.talon ≡ replicate n (pid_write (some v)) ++ before)

scaled : (v : ℤ) → grid.mul (grid.mul (some v) (lit 1)) (lit 1) ≡ some v
scaled v = ground arith

-- What the Talon gets.
power :
    (v : ℤ) (x : MotorLink Grid)
    → x.motor_reversed ≡ false
    → x.speed_scalar ≡ lit 1
    → grid.mul (grid.mul (some v) x.speed_scalar) (if x.motor_reversed then minus_one else lit 1)
      ≡ some v
power v x straight one = rw (straight, one) (scaled v)

replicate-append :
    {A : Type 0} (n : ℕ) (v : A) (xs : List A) → replicate n v ++ v ∷ xs ≡ replicate (suc n) v ++ xs
replicate-append zero v xs = refl
replicate-append (suc n) v xs = ap (◌∷◌ v) (replicate-append n v xs)

Drives-queue :
    (r : Readings Grid) (n : ℕ) (v : ℤ) (x : MotorLink Grid)
    → x.motor_reversed ≡ false
    → x.speed_scalar ≡ lit 1
    → Drives r n v x.talon (record x { queue = replicate n (set_speed_impl (some v)) })
unfolding process_all process run_cmd
Drives-queue r zero v x straight one = (_, refl, refl, refl)
Drives-queue r (suc n) v x straight one =
    let sent : TalonCall Grid = pid_write (some v) in
    let (y, e, none_left, talon) =
      Drives-queue r n v (record x { talon = sent ∷ x.talon }) straight one in
    let first =
      ap
        (λ w. returns (record x {
          queue = replicate n (set_speed_impl (some v));
          talon = pid_write w ∷ x.talon;
        }))
        (power v x straight one) in
    (
      y,
      ap (λ o. o >>= λ m. process_all r n m) first ∙ e,
      none_left,
      talon ∙ replicate-append n sent x.talon,
    )

asked-queue :
    (n : ℕ) (v : Grid) (x : MotorLink Grid)
    → asked n v x ≡ record x { queue = x.queue ++ replicate n (set_speed_impl v) }
unfolding set_speed_force Link.enqueue
asked-queue zero v x = ap (λ q. record x { queue = q }) (sym (append-nil x.queue))
asked-queue (suc n) v x =
    asked-queue n v (set_speed_force v x)
    ∙ ap (λ q. record x { queue = q })
        (append_assoc x.queue (set_speed_impl v ∷ []) (replicate n (set_speed_impl v)))

pub asked-Drives :
    (r : Readings Grid) (n : ℕ) (v : ℤ) (x : MotorLink Grid)
    → IsPlain x
    → Drives r n v x.talon (asked n (some v) x)
asked-Drives r n v x (idle, off, straight, one) =
    rw (asked-queue n (some v) x, idle) (Drives-queue r n v x straight one)
