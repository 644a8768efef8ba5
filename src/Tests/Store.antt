-- ===== src/Tests/Store.antt =====
-- The store on the hosts of internal/store/store_test.go.
use lanmon.Prelude.{ℕ, ◌+◌, ◌*◌, ◌^◌, ◌≡◌, refl, true, [], ◌∷◌, Text, codes, text_eq, ok, err}
use lanmon.Prelude.Assoc.{lookup, insert}
use lanmon.Go.Int.{pos}
use lanmon.Go.Utf8.{to_valid}
use lanmon.Beacon.Payload.{BeaconPayload}
use lanmon.Store.Record.{HostRecord, clean, marshal}
use lanmon.Store.Ops.{
  put_refused, first_record, upsert, get_active, mark_key_pushed, expire_stale_hosts,
}
use lanmon.Store.Sorted.{sorted_bolt, SortedBucket, empty_bucket}
use lanmon.Store.Upsert.{upsert_err}
use lanmon.Store.Expiry.{AllEncodable}
use lanmon.Store.Invariant.{
  IsWellFormed, World, Reach, here, next, beacon, mark, expire, wait, Reach-IsWellFormed,
}
use lanmon.Store.History.{Remembers, Reach-Remembers}

abbrev pub sample : Text → Text → Text → BeaconPayload
sample mac hostname ip = record {
  version = 1;
  timestamp = pos 1700000000;
  mac_address = mac;
  ip_address = ip;
  hostname = hostname;
  os = record { name = codes "Ubuntu 22.04"; kernel = codes "5.15.0"; arch = codes "amd64" };
  hardware = record {
    cpu_model = codes "Test CPU";
    cpu_cores = pos 4;
    memory_gb = 0x4030000000000000;
    disk_count = pos 1;
  };
}

abbrev pub mac1 : Text
mac1 = codes "aa:bb:cc:dd:ee:01"

abbrev pub host1 : BeaconPayload
host1 = sample mac1 (codes "host1") (codes "192.168.1.1")

-- Nanoseconds since year 1, and a second.
abbrev pub second : ℕ
second = 10 ^ 9

abbrev pub t0 : ℕ
t0 = 63835596800 * second

abbrev pub one_host : SortedBucket
one_host = (upsert sorted_bolt true t0 host1 empty_bucket).0

pub first_upsert : (upsert sorted_bolt true t0 host1 empty_bucket).1 ≡ ok tt
unfolding upsert marshal lookup insert text_eq
first_upsert = refl

-- A host without a MAC address is refused by BoltDB.
pub nameless_upsert :
    (upsert sorted_bolt true t0 (sample [] (codes "x") (codes "1.2.3.4")) one_host).1
    ≡ err put_refused
unfolding upsert marshal lookup insert text_eq
nameless_upsert = refl

upsert_err_example :
    (upsert sorted_bolt true t0 (sample [] (codes "x") (codes "1.2.3.4")) one_host).0 ≡ one_host
upsert_err_example =
    upsert_err sorted_bolt true t0 (sample [] (codes "x") (codes "1.2.3.4")) one_host
      nameless_upsert

pub later_check :
    (expire_stale_hosts sorted_bolt true (t0 + 91 * second) (pos (90 * second)) one_host).1 ≡ ok tt
unfolding expire_stale_hosts upsert marshal to_valid insert text_eq lookup
later_check = refl

abbrev record1 : HostRecord
record1 = clean (first_record host1 t0)

one_active : get_active sorted_bolt true one_host ≡ ok (record1 ∷ [])
unfolding get_active upsert marshal to_valid insert text_eq lookup
one_active = refl

encodable1 : AllEncodable one_host.items
unfolding upsert marshal insert lookup
encodable1 = (refl, tt)

pub empty-IsWellFormed : IsWellFormed sorted_bolt t0 empty_bucket
unfolding lookup
empty-IsWellFormed = record { at = λ k s h. cc }

abbrev start : World sorted_bolt
start = record { clock = t0; bucket = empty_bucket }

abbrev after_beacon : World sorted_bolt
after_beacon = record { clock = t0; bucket = one_host }

abbrev after_push : World sorted_bolt
after_push = record { clock = t0; bucket = (mark_key_pushed sorted_bolt true t0 mac1 one_host).0 }

abbrev after_wait : World sorted_bolt
after_wait = record { clock = t0 + 91 * second; bucket = after_push.bucket }

abbrev after_check : World sorted_bolt
after_check = record {
  clock = after_wait.clock;
  bucket =
      (expire_stale_hosts sorted_bolt true after_wait.clock (pos (90 * second))
        after_push.bucket).0;
}

one_day : Reach sorted_bolt start after_check
one_day =
    next
      (next (next (next here (beacon start true host1)) (mark after_beacon true mac1))
        (wait after_push (91 * second)))
      (expire after_wait true (pos (90 * second)))

Reach-IsWellFormed_example : IsWellFormed sorted_bolt after_check.clock after_check.bucket
Reach-IsWellFormed_example = Reach-IsWellFormed sorted_bolt one_day empty-IsWellFormed

Reach-Remembers_example :
    Remembers (lookup mac1 start.bucket.items) (lookup mac1 after_check.bucket.items)
Reach-Remembers_example = Reach-Remembers sorted_bolt mac1 one_day

pub one-IsWellFormed : IsWellFormed sorted_bolt t0 one_host
one-IsWellFormed =
    Reach-IsWellFormed sorted_bolt (next here (beacon start true host1)) empty-IsWellFormed

first_push : (mark_key_pushed sorted_bolt true t0 mac1 one_host).1 ≡ ok tt
unfolding mark_key_pushed upsert marshal insert lookup text_eq to_valid
first_push = refl
