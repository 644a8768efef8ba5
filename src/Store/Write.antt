-- ===== src/Store/Write.antt =====
-- What the end of each writing method does to the bucket, and what a method does on an error.
use lanmon.Prelude.{
  ◌<◌, ◌≤◌, ◌≡◌, refl, Bool, true, some, Text, if◌then◌else◌, text_eq, arith, length, Result, ok,
  err,
}
use lanmon.Store.Record.{HostRecord, json, clean, marshal, is_encodable}
use lanmon.Store.Bolt.{Bolt, get-put}
use lanmon.Store.Ops.{StoreError, update, write}

module _ (bolt : Bolt) where
  open bolt use {Bucket, entries, get, put, fits, entries-put, put_fits}

  -- A write that returns no error.
  pub record Written (k : Text) (r : HostRecord) (b b' : Bucket) : Type 0 where
    pub encodable : is_encodable r ≡ true
    pub stored : put k (json (clean r)) b ≡ some b'
    pub here : (j : Text) → get b' j ≡ (if text_eq j k then some (json (clean r)) else get b j)

  pub write-Written :
      (k : Text) (r : HostRecord) (b b' : Bucket) → write bolt k r b ≡ ok b' → Written k r b b'
  unfolding write marshal
  write-Written k r b b' h =
      let stored : put k (json (clean r)) b ≡ some b' = ground arith in
      record {
        encodable = ground arith;
        stored = stored;
        here = λ j. get-put bolt k j (json (clean r)) b b' stored;
      }

  -- A record that can be marshalled is written under every key that BoltDB takes.
  pub write_fits :
      (k : Text) (r : HostRecord) (b : Bucket)
      → is_encodable r ≡ true
      → 0 < length k
      → length k ≤ 32768
      → fits (json (clean r)) ≡ true
      → (b' : Bucket) × (write bolt k r b ≡ ok b')
  unfolding write marshal
  write_fits k r b e h l f =
      let (b', p) = put_fits k (json (clean r)) b h l f in (b', rw (e, p) refl)

  -- A method that returns an error has left the bucket as it was.
  pub update_err :
      (io : Bool) (f : Bucket → Result StoreError Bucket) (b : Bucket) {e : StoreError}
      → (update bolt io f b).1 ≡ err e
      → (update bolt io f b).0 ≡ b
  unfolding update
  update_err io f b h = ground arith

  -- One that returns none is its body, committed.
  pub update_ok :
      (io : Bool) (f : Bucket → Result StoreError Bucket) (b : Bucket)
      → (update bolt io f b).1 ≡ ok tt
      → (io ≡ true) × (f b ≡ ok (update bolt io f b).0)
  unfolding update
  update_ok io f b h = ground arith
