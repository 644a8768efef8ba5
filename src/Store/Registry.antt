-- ===== src/Store/Registry.antt =====
-- What `Store` promises, without BoltDB: a registry of texts by MAC address, the calls of its methods
-- with their answers, and which answers and changes the registry allows.
use lanmon.Prelude.{
  ℕ, ◌≡◌, Bool, true, false, List, [], ◌∷◌, Option, none, some, Text, Result, ok, err, text_eq,
  if◌then◌else◌,
}
use lanmon.Prelude.Assoc.{lookup, IsSorted}
use lanmon.Go.Int.{ℤ}
use lanmon.Beacon.Payload.{BeaconPayload}
use lanmon.Store.Record.{HostRecord, Stored, json, broken, is_encodable}
use lanmon.Store.Bolt.{Bolt}
use lanmon.Store.Changes.{IsHeard, IsMarked, IsRetired, IsChecked, Takes}
use lanmon.Store.Ops.{
  StoreError, database, marshaling, unmarshaling, put_refused, not_found, upsert, get_all,
  get_active, mark_key_pushed, expire_stale_hosts,
}

abbrev pub Registry : Type 0
Registry = Text → Option Stored

-- A call of a method: whether BoltDB works then, the clock, and the arguments.
pub data Call : Type 0 where
  upserting : Bool → ℕ → BeaconPayload → Call
  marking : Bool → ℕ → Text → Call
  expiring : Bool → ℕ → ℤ → Call
  listing : Bool → Call
  listing_active : Bool → Call

pub data Answer : Type 0 where
  done : Answer
  failed : StoreError → Answer
  hosts : List HostRecord → Answer

abbrev pub written : Result StoreError (Unit {0}) → Answer
written (err e) = failed e
written (ok _) = done

abbrev pub listed : Result StoreError (List HostRecord) → Answer
listed (err e) = failed e
listed (ok rs) = hosts rs

module _ (bolt : Bolt) where
  open bolt use {Bucket}

  -- The methods.
  unfoldable pub perform : Call → Bucket → Bucket × Answer
  perform (upserting io at p) b = let (b', r) = upsert bolt io at p b in (b', written r)
  perform (marking io at k) b = let (b', r) = mark_key_pushed bolt io at k b in (b', written r)
  perform (expiring io now threshold) b =
      let (b', r) = expire_stale_hosts bolt io now threshold b in (b', written r)
  perform (listing io) b = (b, listed (get_all bolt io b))
  perform (listing_active io) b = (b, listed (get_active bolt io b))

  unfoldable pub perform_all : List Call → Bucket → Bucket × List Answer
  unfolding perform
  perform_all [] b = (b, [])
  perform_all (c ∷ cs) b =
      let (b', a) = perform c b in let (b'', answers) = perform_all cs b' in (b'', a ∷ answers)

-- The registry with a text written.
abbrev pub put_at : Text → HostRecord → Registry → Registry
put_at k r m j = if text_eq j k then some (json r) else m j

-- The record under a key that a listing shows, if it passes the test.
abbrev pub visible : (HostRecord → Bool) → Option Stored → Option HostRecord
visible shows none = none
visible shows (some (broken r)) = none
visible shows (some (json r)) = if shows r then some r else none

abbrev pub values : List (Text × HostRecord) → List HostRecord
values [] = []
values ((k, r) ∷ l) = r ∷ values l

-- The records that are visible, once each, in the order of their keys.
pub record Lists (shows : HostRecord → Bool) (m : Registry) (rs : List HostRecord) : Type 0 where
  pub by_key : List (Text × HostRecord)
  pub rising : IsSorted by_key
  pub shown : (k : Text) → lookup k by_key ≡ visible shows (m k)
  pub values_of : rs ≡ values by_key

module _ (fits : Stored → Bool) where
  -- Why a call may fail: BoltDB does not work, a record cannot be marshalled, or BoltDB does not take
  -- a key or a text.
  abbrev pub Excuses : Call → Registry → StoreError → Type 0
  Excuses (upserting io at p) m database = io ≡ false
  Excuses (upserting io at p) m marshaling =
      (r : HostRecord) × IsHeard at p (m p.mac_address) r × (is_encodable r ≡ false)
  Excuses (upserting io at p) m put_refused =
      ¬ Takes fits p.mac_address (IsHeard at p (m p.mac_address))
  Excuses (upserting io at p) m unmarshaling = ⊥
  Excuses (upserting io at p) m (not_found j) = ⊥
  Excuses (marking io at k) m database = io ≡ false
  Excuses (marking io at k) m marshaling =
      (old : HostRecord) × (m k ≡ some (json old))
      × ((r : HostRecord) × IsMarked at old r × (is_encodable r ≡ false))
  Excuses (marking io at k) m put_refused =
      (old : HostRecord) × (m k ≡ some (json old)) × (¬ Takes fits k (IsMarked at old))
  Excuses (marking io at k) m unmarshaling = (r : HostRecord) × (m k ≡ some (broken r))
  Excuses (marking io at k) m (not_found j) = (j ≡ k) × (m k ≡ none)
  Excuses (expiring io now threshold) m database = io ≡ false
  Excuses (expiring io now threshold) m put_refused =
      ¬ ((k : Text) (r : HostRecord) → m k ≡ some (json r) → Takes fits k (IsRetired r))
  Excuses (expiring io now threshold) m _ = ⊥
  Excuses (listing io) m database = io ≡ false
  Excuses (listing io) m _ = ⊥
  Excuses (listing_active io) m database = io ≡ false
  Excuses (listing_active io) m _ = ⊥

  -- The registry behind a call that is done, or the hosts that it lists.
  abbrev pub Meets : Call → Registry → Answer → Registry → Type 0
  Meets c m (failed e) m' = Excuses c m e × ((j : Text) → m' j ≡ m j)
  Meets (upserting io at p) m done m' =
      (r : HostRecord) × IsHeard at p (m p.mac_address) r
      × ((j : Text) → m' j ≡ put_at p.mac_address r m j)
  Meets (marking io at k) m done m' =
      (old : HostRecord) × (m k ≡ some (json old))
      × ((r : HostRecord) × IsMarked at old r × ((j : Text) → m' j ≡ put_at k r m j))
  Meets (expiring io now threshold) m done m' = (j : Text) → IsChecked now threshold (m j) (m' j)
  Meets (listing io) m (hosts rs) m' = Lists (λ r. true) m rs × ((j : Text) → m' j ≡ m j)
  Meets (listing_active io) m (hosts rs) m' = Lists (λ r. r.active) m rs × ((j : Text) → m' j ≡ m j)
  Meets (upserting io at p) m (hosts rs) m' = ⊥
  Meets (marking io at k) m (hosts rs) m' = ⊥
  Meets (expiring io now threshold) m (hosts rs) m' = ⊥
  Meets (listing io) m done m' = ⊥
  Meets (listing_active io) m done m' = ⊥

  -- A run of calls with their answers, through registries in between.
  abbrev pub MeetsAll : List Call → Registry → List Answer → Registry → Type 0
  MeetsAll [] m [] m' = (j : Text) → m' j ≡ m j
  MeetsAll [] m (a ∷ answers) m' = ⊥
  MeetsAll (c ∷ cs) m [] m' = ⊥
  MeetsAll (c ∷ cs) m (a ∷ answers) m' =
      (between : Registry) × Meets c m a between × MeetsAll cs between answers m'
