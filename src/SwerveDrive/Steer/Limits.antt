-- ===== src/SwerveDrive/Steer/Limits.antt =====
-- The speeds of the swerve drive, on the grid of exact values.
use frc.Prelude.{
  ◌≡◌, refl, ap, ◌∙◌, ℕ, ◌≤◌, ◌<◌, ◌*◌, ◌/◌, some, arith, Bool, true, ◌||◌, ltb, Bool-cases, inl,
  inr, if◌then◌else◌,
}
use native.Mathlib.Nat.{div-le_of_le-mul}
use frc.Prelude.Int.{ℤ, pos, negsuc, abs_ℕ}
use frc.Double.Grid.{Grid, grid, unit, signed}
use frc.SwerveDrive.Steer.{Wheels, max, scale_speeds}

abbrev pub wheels : ℤ → ℤ → ℤ → Wheels Grid
wheels r l b = record { fr = some r; fl = some l; bk = some b }

-- The largest of three magnitudes.
abbrev larger : ℕ → ℕ → ℕ
larger a b = if ltb a b then b else a

abbrev largest : ℤ → ℤ → ℤ → ℕ
largest r l b = larger (abs_ℕ r) (larger (abs_ℕ l) (abs_ℕ b))

max-larger : (a b : ℕ) → max {D = Grid} (some (pos a)) (some (pos b)) ≡ some (pos (larger a b))
max-larger a b = ground arith

abs-signed : (a : ℤ) (m n : ℕ) → abs_ℕ (signed a (pos m) n) ≡ n
abs-signed (pos a) m n = ground arith
abs-signed (negsuc a) m n = ground arith

quotient_le : (a m : ℕ) → 0 < m → a ≤ m → a * unit / m ≤ unit
quotient_le a m h k = div-le_of_le-mul m (omega arith)

-- A value divided by a larger magnitude is at most 1.
div_lem :
    (a : ℤ) (m : ℕ)
    → 0 < m
    → abs_ℕ a ≤ m
    → (q : ℤ) × (grid.div (some a) (some (pos m)) ≡ some q) × (abs_ℕ q ≤ unit)
div_lem a m h k = (
  signed a (pos m) (abs_ℕ a * unit / m),
  ground arith,
  omega (arith, abs-signed a m (abs_ℕ a * unit / m), quotient_le (abs_ℕ a) m h k),
)

abbrev is_over : ℤ → ℤ → ℤ → Bool
is_over r l b = ltb unit (abs_ℕ r) || ltb unit (abs_ℕ l) || ltb unit (abs_ℕ b)

scl_lem :
    (r l b : ℤ)
    → max {D = Grid}
        (some (pos (abs_ℕ r)))
        (max {D = Grid} (some (pos (abs_ℕ l))) (some (pos (abs_ℕ b))))
      ≡ some (pos (largest r l b))
scl_lem r l b =
    ap (max {D = Grid} (some (pos (abs_ℕ r)))) (max-larger (abs_ℕ l) (abs_ℕ b))
    ∙ max-larger (abs_ℕ r) (larger (abs_ℕ l) (abs_ℕ b))

over_parts :
    (r l b : ℤ)
    → is_over r l b ≡ true
    → scale_speeds (wheels r l b) ≡ record {
      fr = grid.div (some r) (some (pos (largest r l b)));
      fl = grid.div (some l) (some (pos (largest r l b)));
      bk = grid.div (some b) (some (pos (largest r l b)));
    }
unfolding scale_speeds
over_parts r l b h = ground (arith, scl_lem r l b)

-- Three speeds divided by a magnitude that is not smaller.
divided_lem :
    (r l b : ℤ) (m : ℕ)
    → 0 < m
    → abs_ℕ r ≤ m
    → abs_ℕ l ≤ m
    → abs_ℕ b ≤ m
    → (r' : ℤ) × (l' : ℤ) × (b' : ℤ) × (◌≡◌ {A = Wheels Grid}
        (record {
          fr = grid.div (some r) (some (pos m));
          fl = grid.div (some l) (some (pos m));
          bk = grid.div (some b) (some (pos m));
        })
        (wheels r' l' b'))
      × (abs_ℕ r' ≤ unit)
      × (abs_ℕ l' ≤ unit)
      × (abs_ℕ b' ≤ unit)
divided_lem r l b m h hr hl hb =
    let (r', er, r_le) = div_lem r m h hr in
    let (l', el, l_le) = div_lem l m h hl in
    let (b', eb, b_le) = div_lem b m h hb in (r', l', b', rw (er, el, eb) refl, r_le, l_le, b_le)

largest_lem :
    (r l b : ℤ)
    → is_over r l b ≡ true
    → (0 < largest r l b)
      × (abs_ℕ r ≤ largest r l b)
      × (abs_ℕ l ≤ largest r l b)
      × (abs_ℕ b ≤ largest r l b)
largest_lem r l b over = ground arith

-- Whatever speeds are computed for the three wheels, none that the motors get is over 1, and where
-- none was over 1 they get the speeds unchanged.
pub scale_speeds_lem :
    (r l b : ℤ)
    → (r' : ℤ) × (l' : ℤ) × (b' : ℤ) × (scale_speeds (wheels r l b) ≡ wheels r' l' b')
      × (abs_ℕ r' ≤ unit)
      × (abs_ℕ l' ≤ unit)
      × (abs_ℕ b' ≤ unit)
      × ((if is_over r l b then wheels r' l' b' else wheels r l b) ≡ wheels r' l' b')
unfolding scale_speeds
scale_speeds_lem r l b = elim (Bool-cases (is_over r l b)) [
  | inl over ↦
      let (some_speed, hr, hl, hb) = largest_lem r l b over in
      let (r', l', b', e, r_le, l_le, b_le) =
        divided_lem r l b (largest r l b) some_speed hr hl hb in
      (r', l', b', over_parts r l b over ∙ e, r_le, l_le, b_le, ground arith)
  | inr within ↦ (r, l, b, ground arith, ground arith, ground arith, ground arith, ground arith)
]
