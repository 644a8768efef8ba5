-- ===== src/Tests/Registries.antt =====
-- Calls of the methods of `Store` in a row, one of which finds no host.
use lanmon.Prelude.{◌+◌, ◌*◌, ◌≡◌, refl, true, false, List, [], ◌∷◌, codes, text_eq, text_lt}
use lanmon.Prelude.Assoc.{lookup, insert}
use lanmon.Go.Int.{pos}
use lanmon.Store.Record.{marshal, is_encodable}
use lanmon.Store.Ops.{
  database, not_found, upsert, mark_key_pushed, get_all, get_active, expire_stale_hosts,
}
use lanmon.Store.Sorted.{sorted_bolt, empty_bucket}
use lanmon.Store.Registry.{
  Call, upserting, marking, expiring, listing, listing_active, done, failed, hosts, perform_all,
  MeetsAll,
}
use lanmon.Store.Refines.{perform_all-MeetsAll}
use lanmon.Tests.Store.{t0, second, host1}

abbrev calls : List Call
calls =
    upserting true t0 host1
    ∷ marking true (t0 + second) (codes "no such host")
    ∷ listing false
    ∷ marking true (t0 + second) host1.mac_address
    ∷ expiring true (t0 + 200 * second) (pos (120 * second))
    ∷ listing_active true
    ∷ []

answers :
    (perform_all sorted_bolt calls empty_bucket).1
    ≡ done
      ∷ failed (not_found (codes "no such host"))
      ∷ failed database
      ∷ done
      ∷ done
      ∷ hosts []
      ∷ []
unfolding perform_all upsert mark_key_pushed get_all expire_stale_hosts get_active marshal lookup
    insert is_encodable text_eq text_lt
answers = refl

perform_all-MeetsAll_example :
    MeetsAll sorted_bolt.fits calls
      (λ k. lookup k empty_bucket.items)
      (perform_all sorted_bolt calls empty_bucket).1
      (λ k. lookup k (perform_all sorted_bolt calls empty_bucket).0.items)
perform_all-MeetsAll_example = perform_all-MeetsAll sorted_bolt calls empty_bucket
