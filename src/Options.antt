-- ===== src/Options.antt =====
-- src/Options.h, src/Options.cpp and src/Configuration.h: the options that all parts read, as the
-- singleton is constructed.
use frc.Prelude.{ℕ, Bool, true}

pub data Alliance : Type 0 where
  red blue : Alliance

pub record Options : Type 0 where
  pub alliance : Alliance
  pub arm_enabled : Bool
  pub controller_port : ℕ

abbrev pub current_alliance : Alliance
current_alliance = blue

abbrev pub arm_enabled_default : Bool
arm_enabled_default = true

unfoldable pub default_options : Options
default_options = record {
  alliance = current_alliance;
  arm_enabled = arm_enabled_default;
  controller_port = 1;
}
