-- ===== src/Sysinfo.antt =====
-- internal/sysinfo: what a node knows of itself.
pub mod Net
pub mod Broadcast
pub mod Interfaces
pub mod Usable
pub mod Os
use lanmon.Prelude.{ℕ, Text}
use lanmon.Go.Int.{ℤ}

pub record SystemInfo : Type 0 where
  pub mac_address : Text
  pub ip_address : Text
  pub hostname : Text
  pub os_name : Text
  pub kernel : Text
  pub arch : Text
  pub cpu_model : Text
  pub cpu_cores : ℤ
  pub memory_gb : ℕ
  pub disk_count : ℤ
