-- ===== src/Store/Described.antt =====
-- The records that the methods of `Store` build are the described ones.
use mathlib.Core.Option
use lanmon.Prelude.{ℕ, ◌≡◌, refl, ◌&&◌, Option, none, some, true, arith, Bool-cases, inl, inr}
use lanmon.Go.Int.{ℤ, pos, negsuc}
use lanmon.Beacon.Payload.{BeaconPayload}
use lanmon.Store.Record.{HostRecord, Stored, json, broken, clean, is_encodable}
use lanmon.Store.Ops.{next_record, pushed, cutoff_at}
use lanmon.Store.Expiry.{is_stale, retired, expire_value, retired-is_encodable}
use lanmon.Store.Changes.{IsHeard, IsMarked, IsRetired, IsOverdue, IsChecked}

pub next_record-IsHeard :
    (at : ℕ) (p : BeaconPayload) (o : Option Stored) → IsHeard at p o (clean (next_record p at o))
next_record-IsHeard at p none = (
  record { beacon = refl; first_seen = refl; last_seen = refl; packet_count = refl; active = refl },
  record { ssh_key_pushed = refl; ssh_key_pushed_at = refl },
)
next_record-IsHeard at p (some (json r)) = (
  record { beacon = refl; first_seen = refl; last_seen = refl; packet_count = refl; active = refl },
  record { ssh_key_pushed = refl; ssh_key_pushed_at = refl },
)
next_record-IsHeard at p (some (broken r)) = (
  record { beacon = refl; first_seen = refl; last_seen = refl; packet_count = refl; active = refl },
  record { ssh_key_pushed = refl; ssh_key_pushed_at = refl },
)

pub pushed-IsMarked : (at : ℕ) (r : HostRecord) → IsMarked at r (clean (pushed at r))
pushed-IsMarked at r = (
  record { beacon = refl; first_seen = refl; last_seen = refl; packet_count = refl },
  record { ssh_key_pushed = refl; ssh_key_pushed_at = refl },
  refl,
)

pub retired-IsRetired : (r : HostRecord) → IsRetired r (clean (retired r))
retired-IsRetired r = (
  record { beacon = refl; first_seen = refl; last_seen = refl; packet_count = refl },
  record { ssh_key_pushed = refl; ssh_key_pushed_at = refl },
  refl,
)

stale-IsOverdue :
    (now : ℕ) (threshold : ℤ) (r : HostRecord)
    → (is_stale (cutoff_at now threshold) r && is_encodable (retired r)) ≡ true
    → IsOverdue now threshold r
stale-IsOverdue now (pos d) r h = ground (arith, retired-is_encodable r)
stale-IsOverdue now (negsuc d) r h = ground (arith, retired-is_encodable r)

IsOverdue-stale :
    (now : ℕ) (threshold : ℤ) (r : HostRecord)
    → IsOverdue now threshold r
    → (is_stale (cutoff_at now threshold) r && is_encodable (retired r)) ≡ true
IsOverdue-stale now (pos d) r (on, passed, fine) = ground (arith, retired-is_encodable r)
IsOverdue-stale now (negsuc d) r (on, passed, fine) = ground (arith, retired-is_encodable r)

pub expire_value-IsChecked :
    (now : ℕ) (threshold : ℤ) (o : Option Stored)
    → IsChecked now threshold o (Option.map (expire_value (cutoff_at now threshold)) o)
unfolding expire_value
expire_value-IsChecked now threshold none = refl
expire_value-IsChecked now threshold (some (broken r)) = refl
expire_value-IsChecked now threshold (some (json r)) =
    elim (Bool-cases (is_stale (cutoff_at now threshold) r && is_encodable (retired r))) [
      | inl stale ↦ rw stale (
          inl
            (stale-IsOverdue now threshold r stale, (clean (retired r), retired-IsRetired r, refl)))
      | inr fresh ↦
          rw fresh (inr (λ overdue. cc (IsOverdue-stale now threshold r overdue, fresh), refl))
    ]
