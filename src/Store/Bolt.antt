-- ===== src/Store/Bolt.antt =====
-- The part of go.etcd.io/bbolt that the store uses, with its documented behaviour: a bucket holds
-- each key once, in byte order, and `Put` refuses an empty key, a key over 32768 bytes and a value
-- that is too large.
use lanmon.Prelude.{
  ◌≤◌, ◌<◌, ◌≡◌, Bool, true, Option, none, some, List, [], Text, length, if◌then◌else◌, text_eq,
}
use lanmon.Prelude.Assoc.{lookup, insert, IsSorted, lookup-insert}
use lanmon.Store.Record.{Stored}

pub record Bolt : Type 1 where
  pub Bucket : Type 0
  -- the pairs that `ForEach` visits
  pub entries : Bucket → List (Text × Stored)
  pub get : Bucket → Text → Option Stored
  -- `none` is an error of `Put`
  pub put : Text → Stored → Bucket → Option Bucket
  -- the value is not too large
  pub fits : Stored → Bool
  pub sorted : (b : Bucket) → IsSorted (entries b)
  pub get-entries : (b : Bucket) (k : Text) → get b k ≡ lookup k (entries b)
  pub entries-put :
      (k : Text) (v : Stored) (b b' : Bucket)
      → put k v b ≡ some b'
      → entries b' ≡ insert k v (entries b)
  pub put_empty : (v : Stored) (b : Bucket) → put [] v b ≡ none
  pub put_fits :
      (k : Text) (v : Stored) (b : Bucket)
      → 0 < length k
      → length k ≤ 32768
      → fits v ≡ true
      → (b' : Bucket) × (put k v b ≡ some b')

module _ (bolt : Bolt) where
  open bolt use {Bucket, entries, get, put, get-entries, entries-put}

  -- What a successful `Put` does to `Get`.
  pub get-put :
      (k j : Text) (v : Stored) (b b' : Bucket)
      → put k v b ≡ some b'
      → get b' j ≡ (if text_eq j k then some v else get b j)
  get-put k j v b b' h =
      rw
        (get-entries b' j, entries-put k v b b' h, lookup-insert k j v (entries b), get-entries b j)
