-- ===== src/HardwareLink/Lights.antt =====
-- src/HardwareLink/RelayLink.h and LightChangeEvent.cpp: the lights of the alliances. The class Relay
-- of WPILib is a parameter: what Set does, and the value that a relay's outputs have. A relay is an
-- address.
use frc.Prelude.{ℕ, ◌≡◌, ◌≢◌, sym, Bool, true, false, if◌then◌else◌, arith}
use frc.Options.{Options, Alliance, red, blue}

pub data RelayValue : Type 0 where
  forward reverse : RelayValue

pub record Relay (O : Type 0) : Type 0 where
  pub set : ℕ → RelayValue → O → O
  pub value : ℕ → O → RelayValue

-- What WPILib documents of two different relays: the outputs are those that were set last.
pub record IsRelay {O : Type 0} (r : Relay O) : Type 0 where
  pub value-set : (a : ℕ) (v : RelayValue) (o : O) → r.value a (r.set a v o) ≡ v
  pub value-set_other :
      (a b : ℕ) (v : RelayValue) (o : O) → a ≢ b → r.value b (r.set a v o) ≡ r.value b o

abbrev pub is_blue : Alliance → Bool
is_blue blue = true
is_blue red = false

module _ {O : Type 0} (relay : Relay O) where
  open relay use {set, value}

  unfoldable pub set_on : ℕ → O → O
  set_on rel o = set rel forward o

  unfoldable pub set_off : ℕ → O → O
  set_off rel o = set rel reverse o

  -- The first overload, which does not read the alliance that it is given.
  unfoldable pub light_change : Options → Alliance → ℕ → ℕ → O → O
  light_change options alliance red_lights blue_lights o =
      if is_blue options.alliance
      then set_on blue_lights (set_off red_lights o)
      else set_off blue_lights (set_on red_lights o)

  unfoldable pub light_change_current : Options → ℕ → ℕ → O → O
  light_change_current options red_lights blue_lights o =
      light_change options options.alliance red_lights blue_lights o

  abbrev pub lights_of : Alliance → RelayValue × RelayValue
  lights_of red = (forward, reverse)
  lights_of blue = (reverse, forward)

  abbrev pub lights : ℕ → ℕ → O → RelayValue × RelayValue
  lights r b o = (value r o, value b o)

  values-set :
      IsRelay relay
      → (r b : ℕ) (x y : RelayValue) (o : O) → r ≢ b
      → lights r b (set b y (set r x o)) ≡ (x, y)
  values-set laws r b x y o apart = rw (
    laws.value-set_other b r y (set r x o) (λ e. apart (sym e)),
    laws.value-set r x o,
    laws.value-set b y (set r x o),
  )

  -- Where the lights have two relays, both overloads of lightChange switch the lights of the alliance
  -- in the options on and those of the other off, whatever alliance the first is given.
  pub light_change_lem :
      IsRelay relay
      → (options : Options) (alliance : Alliance) (red_lights blue_lights : ℕ) (o : O)
      → red_lights ≢ blue_lights
      → let after = light_change options alliance red_lights blue_lights o in
        (lights red_lights blue_lights after ≡ lights_of options.alliance)
        × (light_change_current options red_lights blue_lights o ≡ after)
  unfolding light_change light_change_current set_on set_off
  light_change_lem laws options alliance r b o apart = ground (
    arith,
    values-set laws r b forward reverse o apart,
    values-set laws r b reverse forward o apart,
  )
