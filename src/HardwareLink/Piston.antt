-- ===== src/HardwareLink/Piston.antt =====
-- src/HardwareLink/Piston.h and .cpp: a piston over two solenoids. The class Solenoid of WPILib is a
-- parameter: what Set and Get do to the hardware, whose state is `O`. A solenoid is an address.
use frc.Prelude.{ℕ, ◌≡◌, ◌≢◌, sym, Bool, true, false, not, arith}

pub record Solenoid (O : Type 0) : Type 0 where
  pub set : ℕ → Bool → O → O
  pub get : ℕ → O → Bool

-- What WPILib documents of two different solenoids: Get returns what was Set last.
pub record IsSolenoid {O : Type 0} (s : Solenoid O) : Type 0 where
  pub get-set : (a : ℕ) (v : Bool) (o : O) → s.get a (s.set a v o) ≡ v
  pub get-set_other : (a b : ℕ) (v : Bool) (o : O) → a ≢ b → s.get b (s.set a v o) ≡ s.get b o

pub record Piston : Type 0 where
  pub sol_a : ℕ
  pub sol_b : ℕ
  pub inversion : Bool

abbrev pub xor : Bool → Bool → Bool
xor true b = not b
xor false b = b

unfoldable pub new_piston : ℕ → ℕ → Piston
new_piston a b = record { sol_a = a; sol_b = b; inversion = false }

unfoldable pub invert_piston : Piston → Piston
invert_piston p = record p { inversion = not p.inversion }

module _ {O : Type 0} (sol : Solenoid O) where
  open sol use {set, get}

  -- The constructor with states.
  unfoldable pub new_piston_set : ℕ → ℕ → Bool → Bool → O → Piston × O
  new_piston_set a b state_a state_b o = (new_piston a b, set b state_b (set a state_a o))

  unfoldable pub lock_piston : Piston → O → O
  lock_piston p o = set p.sol_b true (set p.sol_a true o)

  unfoldable pub unlock_piston : Piston → O → O
  unlock_piston p o = set p.sol_b false (set p.sol_a false o)

  unfoldable pub set_piston_on : Piston → O → O
  set_piston_on p o = set p.sol_b (xor false p.inversion) (set p.sol_a (xor true p.inversion) o)

  unfoldable pub set_piston_off : Piston → O → O
  set_piston_off p o = set p.sol_b (xor true p.inversion) (set p.sol_a (xor false p.inversion) o)

  unfoldable pub invert_solenoids : Piston → O → O
  invert_solenoids p o =
      let o1 = set p.sol_a (not (get p.sol_a o)) o in set p.sol_b (not (get p.sol_b o1)) o1

  -- What the two solenoids read.
  abbrev pub position : Piston → O → Bool × Bool
  position p o = (get p.sol_a o, get p.sol_b o)

  module _ (laws : IsSolenoid sol) (p : Piston) (o : O) (apart : p.sol_a ≢ p.sol_b) where
    open laws use {get-set, get-set_other}

    position-set : (x y : Bool) (r : O) → position p (set p.sol_b y (set p.sol_a x r)) ≡ (x, y)
    position-set x y r = rw (
      get-set_other p.sol_b p.sol_a y (set p.sol_a x r) (λ e. apart (sym e)),
      get-set p.sol_a x r,
      get-set p.sol_b y (set p.sol_a x r),
    )

    position-invert_solenoids :
        (r : O) → position p (invert_solenoids p r) ≡ (not (get p.sol_a r), not (get p.sol_b r))
    unfolding invert_solenoids
    position-invert_solenoids r = rw (
      position-set (not (get p.sol_a r)) (not (get p.sol_b (set p.sol_a (not (get p.sol_a r)) r)))
          r,
      get-set_other p.sol_a p.sol_b (not (get p.sol_a r)) r apart,
    )

    -- Where the solenoids of a piston are two, setPistonOn and setPistonOff put them in opposite
    -- positions, in each of which the one solenoid is the opposite of the other, and
    -- inverting the piston swaps the two calls.
    pub set_piston_lem :
        (position p (set_piston_on p o) ≡ (not p.inversion, p.inversion))
        × (position p (set_piston_off p o) ≡ (p.inversion, not p.inversion))
        × (set_piston_on (invert_piston p) o ≡ set_piston_off p o)
        × (set_piston_off (invert_piston p) o ≡ set_piston_on p o)
    unfolding set_piston_on set_piston_off invert_piston
    set_piston_lem = (
      ground (arith, position-set (not p.inversion) p.inversion o),
      ground (arith, position-set p.inversion (not p.inversion) o),
      ground arith,
      ground arith,
    )

    -- Where the solenoids of a piston are two, invertSolenoids turns each of the four positions into
    -- its opposite: locked into unlocked and on into off, and twice gives the position back.
    pub invert_solenoids_lem :
        (position p (invert_solenoids p (lock_piston p o)) ≡ position p (unlock_piston p o))
        × (position p (invert_solenoids p (set_piston_on p o)) ≡ position p (set_piston_off p o))
        × (position p (invert_solenoids p (invert_solenoids p o)) ≡ position p o)
    unfolding set_piston_on set_piston_off lock_piston unlock_piston
    invert_solenoids_lem = (
      ground (
        arith,
        position-set true true o,
        position-set false false o,
        position-invert_solenoids (lock_piston p o),
      ),
      ground (
        arith,
        position-set (not p.inversion) p.inversion o,
        position-set p.inversion (not p.inversion) o,
        position-invert_solenoids (set_piston_on p o),
      ),
      ground (arith, position-invert_solenoids o, position-invert_solenoids (invert_solenoids p o)),
    )
