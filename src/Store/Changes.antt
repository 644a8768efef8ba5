-- ===== src/Store/Changes.antt =====
-- What a beacon, a key push and an expiry check make of the record of a host, field by field, without
-- the code of internal/store/store.go that builds the records.
use lanmon.Prelude.{
  ℕ, suc, ◌+◌, ◌%◌, ◌^◌, ◌<◌, ◌≤◌, ◌≡◌, ◌⊎◌, Bool, true, false, Option, none, some, Text, length,
}
use lanmon.Go.Int.{ℤ, pos, negsuc}
use lanmon.Beacon.Payload.{BeaconPayload}
use lanmon.Store.Record.{HostRecord, Stored, json, broken, clean_beacon, is_encodable}

-- Everything but the push, behind a beacon, with the first time and the count.
pub record IsSeen (at : ℕ) (p : BeaconPayload) (since count : ℕ) (r : HostRecord) : Type 0 where
  pub beacon : r.beacon ≡ clean_beacon p
  pub first_seen : r.first_seen ≡ since
  pub last_seen : r.last_seen ≡ at
  pub packet_count : r.packet_count ≡ count
  pub active : r.active ≡ true

pub record HasPush (on : Bool) (at : Option ℕ) (r : HostRecord) : Type 0 where
  pub ssh_key_pushed : r.ssh_key_pushed ≡ on
  pub ssh_key_pushed_at : r.ssh_key_pushed_at ≡ at

-- The record behind a beacon: of a new host, of one that is known, and of one whose text is broken,
-- of which as much is kept as could be read.
abbrev pub IsHeard : ℕ → BeaconPayload → Option Stored → HostRecord → Type 0
IsHeard at p none r = IsSeen at p at 1 r × HasPush false none r
IsHeard at p (some (json old)) r =
    IsSeen at p old.first_seen ((old.packet_count + 1) % 2 ^ 64) r
    × HasPush old.ssh_key_pushed old.ssh_key_pushed_at r
IsHeard at p (some (broken old)) r =
    IsSeen at p old.first_seen ((old.packet_count + 1) % 2 ^ 64) r
    × HasPush old.ssh_key_pushed old.ssh_key_pushed_at r

-- All that a push and a check leave alone.
pub record IsAkin (old r : HostRecord) : Type 0 where
  pub beacon : r.beacon ≡ clean_beacon old.beacon
  pub first_seen : r.first_seen ≡ old.first_seen
  pub last_seen : r.last_seen ≡ old.last_seen
  pub packet_count : r.packet_count ≡ old.packet_count

-- The record behind the mark of a push.
abbrev pub IsMarked : ℕ → HostRecord → HostRecord → Type 0
IsMarked at old r = IsAkin old r × HasPush true (some at) r × (r.active ≡ old.active)

-- The record of a host that is no longer active.
abbrev pub IsRetired : HostRecord → HostRecord → Type 0
IsRetired old r =
    IsAkin old r × HasPush old.ssh_key_pushed old.ssh_key_pushed_at r × (r.active ≡ false)

-- More than the threshold has passed since the host was last seen.
abbrev pub HasPassed : ℕ → ℤ → ℕ → Type 0
HasPassed now (pos d) seen = seen + d < now
HasPassed now (negsuc d) seen = seen < now + suc d

abbrev pub IsOverdue : ℕ → ℤ → HostRecord → Type 0
IsOverdue now threshold r =
    (r.active ≡ true) × HasPassed now threshold r.last_seen × (is_encodable r ≡ true)

-- What a check makes of the text under a key.
abbrev pub IsChecked : ℕ → ℤ → Option Stored → Option Stored → Type 0
IsChecked now threshold none o = o ≡ none
IsChecked now threshold (some (broken r)) o = o ≡ some (broken r)
IsChecked now threshold (some (json r)) o =
    (IsOverdue now threshold r × ((r' : HostRecord) × IsRetired r r' × (o ≡ some (json r'))))
    ⊎ ((¬ IsOverdue now threshold r) × (o ≡ some (json r)))

-- BoltDB takes the key, and the text of every record of a kind.
abbrev pub Takes : (Stored → Bool) → Text → (HostRecord → Type 0) → Type 0
Takes fits k P =
    (0 < length k) × (length k ≤ 32768) × ((r : HostRecord) → P r → fits (json r) ≡ true)
