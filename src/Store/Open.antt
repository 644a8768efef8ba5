-- ===== src/Store/Open.antt =====
-- `New` and `Close` of internal/store/store.go: the database file and its handle.
use lanmon.Prelude.{
  ◌≡◌, ◌≢◌, refl, Bool, true, false, Option, none, some, Result, ok, err, if◌then◌else◌,
}
use lanmon.Store.Bolt.{Bolt}

pub data OpenError : Type 0 where
  opening creating_bucket : OpenError

-- The handle that `bolt.Open` gives, which locks the file until it is closed.
pub data Handle : Type 0 where
  no_handle held released : Handle

module _ (bolt : Bolt) where
  open bolt use {Bucket}

  -- The file: whether it holds a bucket of hosts, and the handle.
  pub record Database : Type 0 where
    pub hosts : Option Bucket
    pub handle : Handle

  -- `CreateBucketIfNotExists`; `blank` is the bucket that it creates.
  abbrev pub existing_or : Bucket → Option Bucket → Bucket
  existing_or blank none = blank
  existing_or blank (some b) = b

  -- `New`: whether the file opens within five seconds, and whether the transaction commits.
  unfoldable pub new_store :
      Bool → Bool → Bucket → Option Bucket → Database × Result OpenError (Unit {0})
  new_store opens creates blank hosts =
      if opens
      then if creates
        then (record { hosts = some (existing_or blank hosts); handle = held }, ok tt)
        else (record { hosts = hosts; handle = released }, err creating_bucket)
      else (record { hosts = hosts; handle = no_handle }, err opening)

  -- `Close`; whether BoltDB reports an error is an argument, the handle is given up either way.
  unfoldable pub close_store : Database → Database
  close_store db = record db { handle = released }

  -- How a file ends up: a store that opens holds the handle and the hosts that were there; an error
  -- leaves the hosts as they were and holds no handle.
  pub record IsOpened (blank : Bucket) (hosts : Option Bucket) (db : Database)
      (r : Result OpenError (Unit {0})) : Type 0 where
    pub kept : (b : Bucket) → hosts ≡ some b → db.hosts ≡ some b
    pub usable : r ≡ ok tt → (db.handle ≡ held) × (db.hosts ≡ some (existing_or blank hosts))
    pub let_go : (e : OpenError) → r ≡ err e → (db.handle ≢ held) × (db.hosts ≡ hosts)

  pub new_store-IsOpened :
      (opens creates : Bool) (blank : Bucket) (hosts : Option Bucket)
      → IsOpened blank hosts
          (new_store opens creates blank hosts).0
          (new_store opens creates blank hosts).1
  unfolding new_store
  new_store-IsOpened true true blank hosts = record {
    kept = λ b h. rw h refl;
    usable = λ h. (refl, refl);
    let_go = λ e h. absurd cc;
  }
  new_store-IsOpened true false blank hosts = record {
    kept = λ b h. h;
    usable = λ h. absurd cc;
    let_go = λ e h. (λ x. cc, refl);
  }
  new_store-IsOpened false creates blank hosts = record {
    kept = λ b h. h;
    usable = λ h. absurd cc;
    let_go = λ e h. (λ x. cc, refl);
  }
