-- ===== src/Store/Record.antt =====
-- The host record, and its JSON text in the bucket. A `time.Time` is kept as the nanoseconds since
-- year 1, the zero time; a stored text as what `json.Unmarshal` makes of it.
use lanmon.Prelude.{ℕ, ◌*◌, ◌^◌, Bool, true, ◌&&◌, Option, none, some, ltb, if◌then◌else◌}
use lanmon.Go.Utf8.{to_valid}
use lanmon.Beacon.Payload.{BeaconPayload, is_finite}

pub record HostRecord : Type 0 where
  pub beacon : BeaconPayload
  pub first_seen : ℕ
  pub last_seen : ℕ
  pub packet_count : ℕ
  pub ssh_key_pushed : Bool
  pub ssh_key_pushed_at : Option ℕ
  pub active : Bool

-- A value of the bucket.
pub data Stored : Type 0 where
  -- a text that `json.Unmarshal` reads without error, as this record
  json : HostRecord → Stored
  -- a text that it refuses, and what it has filled into a zero record before it gives up
  broken : HostRecord → Stored

-- `MarshalJSON` of a time refuses a year past 9999; this is the start of year 10000.
abbrev pub year_10000 : ℕ
year_10000 = 315537897600 * 10 ^ 9

abbrev has_year : Option ℕ → Bool
has_year none = true
has_year (some t) = ltb t year_10000

-- `json.Marshal` fails on a float that is no number and on a time out of range.
unfoldable pub is_encodable : HostRecord → Bool
unfolding is_finite
is_encodable r =
    is_finite r.beacon.hardware.memory_gb
    && ltb r.first_seen year_10000
    && ltb r.last_seen year_10000
    && has_year r.ssh_key_pushed_at

-- JSON keeps the valid UTF-8 of a string.
abbrev pub clean_beacon : BeaconPayload → BeaconPayload
clean_beacon p = record {
  version = p.version;
  timestamp = p.timestamp;
  mac_address = to_valid p.mac_address;
  ip_address = to_valid p.ip_address;
  hostname = to_valid p.hostname;
  os = record {
    name = to_valid p.os.name;
    kernel = to_valid p.os.kernel;
    arch = to_valid p.os.arch;
  };
  hardware = record {
    cpu_model = to_valid p.hardware.cpu_model;
    cpu_cores = p.hardware.cpu_cores;
    memory_gb = p.hardware.memory_gb;
    disk_count = p.hardware.disk_count;
  };
}

abbrev pub clean : HostRecord → HostRecord
clean r = record r { beacon = clean_beacon r.beacon }

-- `json.Marshal(record)`
unfoldable pub marshal : HostRecord → Option Stored
unfolding is_encodable
marshal r = if is_encodable r then some (json (clean r)) else none

-- The `record` that `json.Unmarshal` has filled in, whether or not it returned an error.
abbrev pub filled : Stored → HostRecord
filled (json r) = r
filled (broken r) = r
