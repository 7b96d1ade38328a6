-- ===== src/HardwareLink/Encoders.antt =====
-- src/HardwareLink/Encoder: the two encoders. WPILib's AnalogChannel and Encoder are parameters: the
-- voltage and the raw count that a call reads, and the hardware `O` after the call.
use frc.Prelude.{ℕ, zero, suc, ◌+◌, ◌*◌, ◌/◌, ◌≤◌, ◌≡◌, ap, some, arith}
use frc.Prelude.Int.{pos_add, ℤ, pos, ◌+ℤ◌, ◌≤ℤ◌, +ℤ_parts}
use frc.Double.{Double, lit}
use frc.Double.Grid.{Grid, grid}

-- The channel is the two numbers that the analog input was made with.
pub record MagneticPotEncoder (D : Type 0) : Type 0 where
  pub enc : ℤ × ℤ
  pub offset : D

module _ {D : Type 0} ⦃d : Double D⦄ where
  open d use {of_int, add, mul, div}

  unfoldable pub new_magnetic_pot_encoder : D → ℤ → ℤ → MagneticPotEncoder D
  new_magnetic_pot_encoder offset a b = record { enc = (a, b); offset = offset }

  -- The constructor with two arguments delegates with (a, b, 0) in this order.
  unfoldable pub new_magnetic_pot_encoder_forwarding : ℤ → ℤ → MagneticPotEncoder D
  new_magnetic_pot_encoder_forwarding a b = new_magnetic_pot_encoder (of_int a) b (pos 0)

  module _ {O : Type 0} (get_voltage : ℤ × ℤ → O → D × O) where
    -- `for(char i = 0; i<n; i++) voltage += _enc.GetVoltage();`
    unfoldable pub add_reads : ℕ → ℤ × ℤ → D → O → D × O
    add_reads zero enc voltage o = (voltage, o)
    add_reads (suc n) enc voltage o =
        let (v, o') = get_voltage enc o in add_reads n enc (add voltage v) o'

    unfoldable pub get_angle : MagneticPotEncoder D → O → D × O
    get_angle m o =
        let (total, o') = add_reads 10 m.enc (lit 0) o in
        (add (mul (div (div total (lit 10)) (lit 5)) (lit 360)) m.offset, o')

    unfoldable pub get_raw_value : MagneticPotEncoder D → O → D × O
    get_raw_value m o = get_voltage m.enc o

  -- OpticalDiskEncoder::getAngle, from the count that GetRaw returns.
  unfoldable pub get_disk_angle : ℤ → D
  get_disk_angle raw = div (of_int raw) (lit 4)

-- On the exact grid, reads of one voltage add up to a multiple of it.
total_lem :
    {O : Type 0} (get_voltage : ℤ × ℤ → O → Grid × O) (enc : ℤ × ℤ) (v : ℕ)
    → ((r : O) → (get_voltage enc r).0 ≡ some (pos v))
    → (n acc : ℕ) (o : O)
    → (add_reads get_voltage n enc (some (pos acc)) o).0 ≡ some (pos (acc + n * v))
unfolding add_reads
total_lem get_voltage enc v same zero acc o = ground arith
total_lem get_voltage enc v same (suc n) acc o =
    let step : acc + v + n * v ≡ acc + suc n * v = omega arith in
    rw (add_reads, same o, pos_add acc v, ← step)
      (total_lem get_voltage enc v same n (acc + v) (get_voltage enc o).1)

-- Where every read of the channel returns the same voltage from 0 to 5 volts, on the exact grid, the
-- angle is the encoder's offset and 360 degrees times the part of 5 volts that was read, rounded down
-- to the grid. So it is at least the offset and at most 360 degrees more.
pub get_angle_bounds :
    {O : Type 0} (get_voltage : ℤ × ℤ → O → Grid × O) (enc : ℤ × ℤ) (offset : ℤ) (v : ℕ) (o : O)
    → ((r : O) → (get_voltage enc r).0 ≡ some (pos v))
    → v ≤ 5 * 1024
    → let a = pos (v / 5 * 360) +ℤ offset in
      ((get_angle get_voltage (record { enc = enc; offset = some offset }) o).0 ≡ some a)
      × (offset ≤ℤ a)
      × (a ≤ℤ offset +ℤ pos (360 * 1024))
unfolding get_angle
get_angle_bounds get_voltage enc offset v o same range = (
  rw (total_lem get_voltage enc v same 10 0 o) (ap (λ k. some (pos k +ℤ offset)) (omega arith)),
  omega (arith, +ℤ_parts (pos (v / 5 * 360)) offset, +ℤ_parts offset (pos (360 * 1024))),
  omega (arith, +ℤ_parts (pos (v / 5 * 360)) offset, +ℤ_parts offset (pos (360 * 1024))),
)
