-- ===== src/Network/Replay.antt =====
-- What replayed datagrams cannot do: keep a host active that has stopped to send.
use mathlib.Core.Option
use mathlib.Core.Option.{some-injective}
use lanmon.Prelude.{
  ℕ, ◌+◌, ◌*◌, ◌≤◌, ◌<◌, ◌≡◌, refl, sym, ◌∙◌, Bool, false, List, Option, none, some, Text, Among,
  arith, ok,
}
use lanmon.Go.Int.{ℤ, pos, negsuc}
use lanmon.Beacon.Payload.{BeaconPayload}
use lanmon.Beacon.Hmac.{Mac}
use lanmon.Beacon.Packet.{Msgpack}
use lanmon.Store.Record.{HostRecord, Stored, json, broken}
use lanmon.Store.Bolt.{Bolt}
use lanmon.Store.Ops.{cutoff_at, expire_stale_hosts}
use lanmon.Store.Expiry.{expire_value, get-expire}
use lanmon.Store.History.{expired, expire_value-json}
use lanmon.Network.Lan.{second, unix_epoch, Lan, Reach}
use lanmon.Network.Traced.{IsTimely, IsTracedText}
use lanmon.Network.Stations.{IsFreshLan, stored_was_sent}

abbrev pub IsUpTo : ℕ → ℤ → Type 0
IsUpTo last (pos t) = t ≤ last
IsUpTo last (negsuc t) = Unit

abbrev IsOff : Stored → Type 0
IsOff (json r) = r.active ≡ false
IsOff (broken r) = ⊥

late_expired :
    (lag last d now : ℕ) (stamp : ℤ) (r : HostRecord)
    → IsTimely lag stamp r.last_seen
    → IsUpTo last stamp
    → (last + unix_epoch + 61 + lag) * second + d ≤ now
    → (expired (cutoff_at now (pos d)) r).active ≡ false
late_expired lag last d now (negsuc t) r timely old late = absurd timely
late_expired lag last d now (pos t) r timely old late =
    let seen : r.last_seen + d < now = omega arith in ground arith

module _ (mac : Mac) (msgpack : Msgpack) (secret : Text) (bolt : Bolt) (lag : ℕ) where
  open bolt use {Bucket, get}

  -- What a late check makes of a traced text.
  late-IsOff :
      (log : List BeaconPayload) (k : Text) (last d now : ℕ) (s : Stored)
      → ((p : BeaconPayload) → Among p log → p.mac_address ≡ k → IsUpTo last p.timestamp)
      → (last + unix_epoch + 61 + lag) * second + d ≤ now
      → IsTracedText lag log k s
      → IsOff (expire_value (cutoff_at now (pos d)) s)
  late-IsOff log k last d now (broken r) quiet late t = absurd t
  late-IsOff log k last d now (json r) quiet late t =
      rw (expire_value-json (cutoff_at now (pos d)) r t.encodable) (
        late_expired lag last d now t.origin.timestamp r t.in_time (quiet t.origin t.among t.keyed)
          late)

  found_off :
      (cutoff : ℕ) (o : Option Stored) (r : HostRecord)
      → ((s : Stored) → o ≡ some s → IsOff (expire_value cutoff s))
      → Option.map (expire_value cutoff) o ≡ some (json r)
      → r.active ≡ false
  found_off cutoff none r off e = cc
  found_off cutoff (some s) r off e =
      let same = some-injective (expire_value cutoff s) (json r) e in rw same at (off s refl)

  -- If no holder of the secret has sent a beacon with the key and a stamp after `last`, an expiry
  -- check at any station that succeeds, its threshold and 61 seconds and the lag or more after
  -- `last`, leaves no active host under the key, whatever has been replayed, delayed or invented.
  pub replays_expire :
      {u v : Lan mac msgpack secret bolt lag} (i : ℕ) (k : Text) (last d now : ℕ) (io : Bool)
      (r : HostRecord)
      → IsFreshLan mac msgpack secret bolt lag u
      → Reach mac msgpack secret bolt lag u v
      → ((p : BeaconPayload) → Among p v.log → p.mac_address ≡ k → IsUpTo last p.timestamp)
      → (last + unix_epoch + 61 + lag) * second + d ≤ now
      → (expire_stale_hosts bolt io now (pos d) (v.station i).0).1 ≡ ok tt
      → get (expire_stale_hosts bolt io now (pos d) (v.station i).0).0 k ≡ some (json r)
      → r.active ≡ false
  replays_expire {v} i k last d now io r fresh reach quiet late done found =
      found_off (cutoff_at now (pos d)) (get (v.station i).0 k) r
        (λ s there.
          late-IsOff v.log k last d now s quiet late
            (stored_was_sent mac msgpack secret bolt lag i k s fresh reach there))
        (sym (get-expire bolt io now (pos d) (v.station i).0 k done) ∙ found)
