-- ===== src/Config/DeviceId.antt =====
-- internal/config/config.go: `generateDeviceID`, whose random bytes (`rand.Read`) are a parameter.
pub mod Suggested
use iptv2hdhr.Base.{ℕ, ◌/◌, ◌%◌, Option, none, some, [], ◌∷◌, ◌++◌, Bytes}
use iptv2hdhr.Base.Net.Escapes.{hex_digit}

-- The four bytes that are read.
pub record Random : Type 0 where
  pub b0 : ℕ
  pub b1 : ℕ
  pub b2 : ℕ
  pub b3 : ℕ

-- `%02X` of a byte.
abbrev pub hex_byte : ℕ → Bytes
hex_byte b = hex_digit (b / 16) ∷ hex_digit (b % 16) ∷ []

abbrev pub device_id_of : Random → Bytes
device_id_of r = hex_byte r.b0 ++ (hex_byte r.b1 ++ (hex_byte r.b2 ++ hex_byte r.b3))

-- `generateDeviceID`; `none` is an error.
unfoldable pub generate_device_id : Option Random → Option Bytes
generate_device_id none = none
generate_device_id (some r) = some (device_id_of r)
