-- ===== src/Tests/Expiry.antt =====
-- A host that beacons once, a push in between, and checks around the threshold.
use mathlib.Core.List.Perm
use lanmon.Prelude.{
  Text, ℕ, ◌<◌, List, [], ◌∷◌, All, ◌+◌, ◌*◌, ◌≡◌, ◌≢◌, refl, true, codes, text_eq, text_ne, arith,
  ok,
}
use lanmon.Prelude.Assoc.{lookup, insert}
use lanmon.Go.Int.{pos}
use lanmon.Go.Utf8.{to_valid}
use lanmon.Beacon.Payload.{BeaconPayload}
use lanmon.Store.Record.{marshal, is_encodable}
use lanmon.Store.Ops.{upsert, expire_stale_hosts}
use lanmon.Store.Sorted.{sorted_bolt, empty_bucket}
use lanmon.Store.Upsert.{IsStorable}
use lanmon.Store.Invariant.{World, here, next, beacon, wait}
use lanmon.Store.Progress.{AllRewritable, every, run_expiry_expires}
use lanmon.Store.Rests.{Rests}
use lanmon.Store.Silence.{run_expiry, fresh_Rests, IsInactive, silent_host_expires}
use lanmon.Store.Registry.{done, perform_all}
use lanmon.Store.Heard.{Heard, calls}
use lanmon.Store.Shuffle.{untimed, perform_all-perm}
use lanmon.Tests.Store.{t0, second, mac1, host1, sample, one_host, first_upsert}

abbrev host2 : BeaconPayload
host2 = sample (codes "aa:bb:cc:dd:ee:02") (codes "host2") (codes "192.168.1.2")

abbrev heard : World sorted_bolt
heard = record { clock = t0; bucket = one_host }

abbrev waited : World sorted_bolt
waited = record { clock = t0 + 91 * second; bucket = one_host }

-- The state behind a beacon of the other host.
abbrev other_heard : World sorted_bolt
other_heard = record {
  clock = t0 + 91 * second;
  bucket = (expire_stale_hosts sorted_bolt true (t0 + 91 * second) (pos (90 * second)) one_host).0;
}

late_check_done :
    (expire_stale_hosts sorted_bolt true (t0 + 91 * second) (pos (90 * second)) one_host).1 ≡ ok tt
unfolding expire_stale_hosts upsert marshal to_valid insert text_eq lookup
late_check_done = refl

other_host : host2.mac_address ≢ mac1
unfolding text_eq
other_host = text_ne host2.mac_address mac1 refl

silent_host_expires_example :
    Rests sorted_bolt mac1 t0
      (IsInactive sorted_bolt)
      (upsert sorted_bolt true other_heard.clock host2 other_heard.bucket).0
silent_host_expires_example =
    silent_host_expires sorted_bolt t0 (90 * second) true true host1 empty_bucket {v = waited}
      first_upsert (next here (wait heard (91 * second))) (tt, tt) (omega arith) late_check_done
      (next here (beacon other_heard true host2)) (tt, other_host)

abbrev waited_less : World sorted_bolt
waited_less = record { clock = t0 + 89 * second; bucket = one_host }

IsStorable-host1 :
    (late : ℕ) → late < 10 → IsStorable sorted_bolt (t0 + late * second) host1 empty_bucket
unfolding is_encodable lookup
IsStorable-host1 late soon = record {
  encodable = ground (arith, soon);
  named = omega arith;
  short = omega arith;
  small = refl;
}

IsStorable-host2 :
    (late : ℕ) → late < 10 → IsStorable sorted_bolt (t0 + late * second) host2 empty_bucket
unfolding is_encodable lookup
IsStorable-host2 late soon = record {
  encodable = ground (arith, soon);
  named = omega arith;
  short = omega arith;
  small = refl;
}

two_hosts : host1.mac_address ≢ host2.mac_address
unfolding text_eq
two_hosts = text_ne host1.mac_address host2.mac_address refl

abbrev first_order : List Heard
first_order = (t0 + 0 * second, host1) ∷ (t0 + 1 * second, host2) ∷ []

-- The other handler is first, and the clock goes on.
abbrev second_order : List Heard
second_order = (t0 + 2 * second, host2) ∷ (t0 + 3 * second, host1) ∷ []

perform_all-perm_example :
    All (λ a. a ≡ done) (perform_all sorted_bolt (calls second_order) empty_bucket).1
    × ((k : Text)
        → untimed (lookup k (perform_all sorted_bolt (calls first_order) empty_bucket).0.items)
          ≡ untimed (lookup k (perform_all sorted_bolt (calls second_order) empty_bucket).0.items))
perform_all-perm_example =
    perform_all-perm sorted_bolt first_order second_order empty_bucket ((two_hosts, tt), (tt, tt))
      (IsStorable-host1 0 (omega arith), (IsStorable-host2 1 (omega arith), tt))
      (IsStorable-host2 2 (omega arith), (IsStorable-host1 3 (omega arith), tt))
      (Perm.swap host2 host1 [])

AllRewritable-one_host : AllRewritable sorted_bolt one_host.items
unfolding upsert marshal insert lookup
AllRewritable-one_host = ((omega arith, omega arith, refl), tt)

-- Nineteen checks, one every five seconds.
run_expiry_expires_example :
    Rests sorted_bolt mac1 t0
      (IsInactive sorted_bolt)
      (run_expiry sorted_bolt (pos (90 * second)) (every sorted_bolt (5 * second) 19) heard).bucket
run_expiry_expires_example =
    run_expiry_expires sorted_bolt (5 * second) 18 (90 * second) t0 mac1 heard
      AllRewritable-one_host (fresh_Rests sorted_bolt t0 true host1 empty_bucket first_upsert)
      (omega arith)
