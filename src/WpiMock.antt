-- ===== src/WpiMock.antt =====
-- src/WPIMock.cpp: the functions that stand for WPILib in a build for the host, without
-- LIBJOYSTICK_ENABLED, as the file has it. Each leaves a debug message, the latest first, except
-- GetVoltage. The constructors also set fields of WPILib's classes, which nothing here reads; the
-- destructors are empty. A base class of WPILib may add its own messages; they are left out.
pub mod HostBuild
use frc.Prelude.{ℕ, Bool, false, List, ◌∷◌}
use frc.Double.{Double, lit}
use frc.HardwareLink.Lights.{RelayValue}

-- The messages, with the arguments that they print.
pub data Message (D : Type 0) : Type 0 where
  digital_input_get_called sensor_base_called encoder_get_raw_called : Message D
  gyro_get_angle_called gyro_get_rate_called gyro_reset_called talon_get_called : Message D
  analog_channel_called gyro_called digital_input_called talon_called :
      (module_number channel : ℕ) → Message D
  relay_called : (module_number channel direction : ℕ) → Message D
  joystick_called : (port : ℕ) → Message D
  relay_set_called : RelayValue → Message D
  talon_set_called talon_pid_write_called : D → Message D
  joystick_get_raw_button_called joystick_get_raw_axis_called : ℕ → Message D

abbrev pub MockLog : Type 0 → Type 0
MockLog D = List (Message D)

module _ {D : Type 0} where
  unfoldable pub digital_input_get : MockLog D → ℕ × MockLog D
  digital_input_get log = (0, digital_input_get_called ∷ log)

  unfoldable pub new_sensor_base : MockLog D → MockLog D
  new_sensor_base log = sensor_base_called ∷ log

  unfoldable pub new_analog_channel : (module_number channel : ℕ) → MockLog D → MockLog D
  new_analog_channel module_number channel log = analog_channel_called module_number channel ∷ log

  unfoldable pub encoder_get_raw : MockLog D → ℕ × MockLog D
  encoder_get_raw log = (0, encoder_get_raw_called ∷ log)

  unfoldable pub relay_set : RelayValue → MockLog D → MockLog D
  relay_set value log = relay_set_called value ∷ log

  unfoldable pub new_gyro : (module_number channel : ℕ) → MockLog D → MockLog D
  new_gyro module_number channel log = gyro_called module_number channel ∷ log

  unfoldable pub gyro_reset : MockLog D → MockLog D
  gyro_reset log = gyro_reset_called ∷ log

  unfoldable pub new_digital_input : (module_number channel : ℕ) → MockLog D → MockLog D
  new_digital_input module_number channel log = digital_input_called module_number channel ∷ log

  unfoldable pub new_talon : (module_number channel : ℕ) → MockLog D → MockLog D
  new_talon module_number channel log = talon_called module_number channel ∷ log

  unfoldable pub talon_set : D → MockLog D → MockLog D
  talon_set value log = talon_set_called value ∷ log

  unfoldable pub talon_pid_write : D → MockLog D → MockLog D
  talon_pid_write output log = talon_pid_write_called output ∷ log

  unfoldable pub new_relay : (module_number channel direction : ℕ) → MockLog D → MockLog D
  new_relay module_number channel direction log = relay_called module_number channel direction ∷ log

  unfoldable pub new_joystick : (port : ℕ) → MockLog D → MockLog D
  new_joystick port log = joystick_called port ∷ log

  unfoldable pub get_raw_button : ℕ → MockLog D → Bool × MockLog D
  get_raw_button button log = (false, joystick_get_raw_button_called button ∷ log)

module _ {D : Type 0} ⦃d : Double D⦄ where
  unfoldable pub get_voltage : MockLog D → D × MockLog D
  get_voltage log = (lit 0, log)

  unfoldable pub gyro_get_angle : MockLog D → D × MockLog D
  gyro_get_angle log = (lit 0, gyro_get_angle_called ∷ log)

  unfoldable pub gyro_get_rate : MockLog D → D × MockLog D
  gyro_get_rate log = (lit 0, gyro_get_rate_called ∷ log)

  unfoldable pub talon_get : MockLog D → D × MockLog D
  talon_get log = (lit 0, talon_get_called ∷ log)

  unfoldable pub get_raw_axis : ℕ → MockLog D → D × MockLog D
  get_raw_axis axis log = (lit 0, joystick_get_raw_axis_called axis ∷ log)
