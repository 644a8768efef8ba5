-- ===== src/Beacon/Packet.antt =====
-- The packet of a beacon: `sendBeacon` of internal/beacon/broadcast.go and `broadcast` of
-- internal/discovery/discovery.go build it alike. msgpack is a parameter.
use lanmon.Prelude.{
  refl, true, ◌<◌, length, ◌≡◌, Option, none, some, ◌++◌, Bytes, Text, Bool, if◌then◌else◌,
}
use lanmon.Go.Int.{ℤ}
use lanmon.Sysinfo.{SystemInfo}
use lanmon.Beacon.Payload.{BeaconPayload, IsTyped}
use lanmon.Beacon.Hmac.{Mac, compute_hmac}

-- github.com/vmihailenco/msgpack, on the payload: `Unmarshal` of what `Marshal` wrote gives the
-- struct back, and what it wrote has a byte at least. On other bytes it may fail.
pub record Msgpack : Type 0 where
  pub marshal : BeaconPayload → Option Bytes
  pub unmarshal : Bytes → Option BeaconPayload
  pub unmarshal-marshal :
      (p : BeaconPayload) (d : Bytes) → IsTyped p → marshal p ≡ some d → unmarshal d ≡ some p
  pub marshal_nonempty : (p : BeaconPayload) (d : Bytes) → marshal p ≡ some d → 0 < length d

-- The struct literal of both senders.
unfoldable pub payload_of : SystemInfo → ℤ → BeaconPayload
payload_of info now = record {
  version = 1;
  timestamp = now;
  mac_address = info.mac_address;
  ip_address = info.ip_address;
  hostname = info.hostname;
  os = record { name = info.os_name; kernel = info.kernel; arch = info.arch };
  hardware = record {
    cpu_model = info.cpu_model;
    cpu_cores = info.cpu_cores;
    memory_gb = info.memory_gb;
    disk_count = info.disk_count;
  };
}

pub data SendError : Type 0 where
  collecting marshaling writing : SendError

-- What a sender has put on the wire, or why it gave up.
pub data Sent : Type 0 where
  sent : Bytes → Sent
  failed : SendError → Sent

module _ (mac : Mac) (msgpack : Msgpack) where
  -- `append(hmacSig, data...)`
  unfoldable pub packet_of : Bytes → Text → Bytes
  packet_of bytes secret = compute_hmac mac bytes secret ++ bytes

  -- `info` is what `sysinfo.Collect` returned and `writes` whether `WriteToUDP` succeeds.
  unfoldable pub send_beacon : Option SystemInfo → ℤ → Text → Bool → Sent
  send_beacon none now secret writes = failed collecting
  send_beacon (some info) now secret writes = elim (msgpack.marshal (payload_of info now)) [
    | none ↦ failed marshaling
    | some bytes ↦ if writes then sent (packet_of bytes secret) else failed writing
  ]

  -- A payload that is marshalled and written goes out signed.
  pub send_beacon-sent :
      (info : SystemInfo) (now : ℤ) (secret : Text) (bytes : Bytes)
      → msgpack.marshal (payload_of info now) ≡ some bytes
      → send_beacon (some info) now secret true ≡ sent (packet_of bytes secret)
  unfolding send_beacon
  send_beacon-sent info now secret bytes marshalled = rw (marshalled, send_beacon) refl
