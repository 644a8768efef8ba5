-- ===== src/Beacon/Payload.antt =====
-- internal/beacon/payload.go: what a node broadcasts of itself. A float64 is kept as its IEEE 754
-- bit pattern.
use lanmon.Prelude.{ℕ, ◌/◌, ◌%◌, ◌^◌, ◌<◌, Bool, not, ◌==◌, Text}
use lanmon.Go.Int.{ℤ, IsInt64}

pub record OsInfo : Type 0 where
  pub name : Text
  pub kernel : Text
  pub arch : Text

pub record HwInfo : Type 0 where
  pub cpu_model : Text
  pub cpu_cores : ℤ
  pub memory_gb : ℕ
  pub disk_count : ℤ

pub record BeaconPayload : Type 0 where
  pub version : ℕ
  pub timestamp : ℤ
  pub mac_address : Text
  pub ip_address : Text
  pub hostname : Text
  pub os : OsInfo
  pub hardware : HwInfo

-- The numbers fit the field types of the Go struct.
pub record IsTyped (p : BeaconPayload) : Type 0 where
  pub version : p.version < 256
  pub timestamp : IsInt64 p.timestamp
  pub cpu_cores : IsInt64 p.hardware.cpu_cores
  pub memory_gb : p.hardware.memory_gb < 2 ^ 64
  pub disk_count : IsInt64 p.hardware.disk_count

-- Neither an infinity nor a NaN: the exponent is not all ones.
unfoldable pub is_finite : ℕ → Bool
is_finite w = not (w / 2 ^ 52 % 2 ^ 11 == 2047)
