-- ===== src/Receive/Effects.antt =====
-- What the receivers do to the store and to /etc/hosts, and why the store stays well-formed.
use lanmon.Prelude.{
  ℕ, ◌≤◌, ◌≡◌, refl, Bool, none, some, List, [], ◌∷◌, Bytes, Text, Result, ok, err,
}
use lanmon.Go.Int.{ℤ}
use lanmon.Beacon.Payload.{BeaconPayload}
use lanmon.Beacon.Hmac.{Mac}
use lanmon.Beacon.Packet.{Msgpack}
use lanmon.Store.Bolt.{Bolt}
use lanmon.Store.Ops.{StoreError, upsert}
use lanmon.Store.Upsert.{Upserted, upsert-Upserted, upsert_err}
use lanmon.Store.Invariant.{upsert-IsWellFormed, later-IsWellFormed, IsWellFormed}
use lanmon.Hosts.Sync.{sync}
use lanmon.Receive.Listener
use lanmon.Receive.Discovery
use lanmon.Receive.Listener.{
  Verdict, accepted, dropped, Outcome, handled, rejected, not_stored, received, Delivery,
}
use lanmon.Receive.Discovery.{SyncMachine}

-- The handlers come to the store one behind the other.
abbrev pub IsInOrder : ℕ → List Delivery → Type 0
IsInOrder clock [] = Unit
IsInOrder clock (d ∷ ds) = (clock ≤ d.at) × IsInOrder d.at ds

abbrev pub last_clock : ℕ → List Delivery → ℕ
last_clock clock [] = clock
last_clock clock (d ∷ ds) = last_clock d.at ds

module _ (mac : Mac) (msgpack : Msgpack) (secret : Text) (bolt : Bolt) where
  open bolt use {Bucket}

  -- What an outcome says of the bucket before and behind.
  abbrev pub Explains : ℕ → Bucket → Bucket → Outcome → Type 0
  Explains at b b' (handled p) = Upserted bolt at p b b'
  Explains at b b' (rejected r) = b' ≡ b
  Explains at b b' (not_stored e) = b' ≡ b

  stored_Explains :
      (at : ℕ) (p : BeaconPayload) (b b' : Bucket) (r : Result StoreError (Unit {0}))
      → (r ≡ ok tt → Upserted bolt at p b b')
      → ((e : StoreError) → r ≡ err e → b' ≡ b)
      → Explains at b b' (Listener.outcome_of p r)
  stored_Explains at p b b' (ok tt) good bad = good refl
  stored_Explains at p b b' (err e) good bad = bad e refl

  verdict_Explains :
      (io : Bool) (at : ℕ) (v : Verdict) (b : Bucket)
      → Explains at b
          (Listener.store_beacon mac msgpack secret bolt io at v b).0
          (Listener.store_beacon mac msgpack secret bolt io at v b).1
  verdict_Explains io at (dropped r) b = refl
  verdict_Explains io at (accepted p) b =
      stored_Explains at p b (upsert bolt io at p b).0 (upsert bolt io at p b).1
        (upsert-Upserted bolt io at p b) (λ e. upsert_err bolt io at p b)

  -- The server handles a packet by the change that `Upsert` makes, or leaves the bucket alone: a
  -- packet that is dropped, or that cannot be stored, changes nothing.
  pub handle_packet-Explains :
      (io : Bool) (now : ℤ) (at : ℕ) (packet : Bytes) (b : Bucket)
      → Explains at b
          (Listener.handle_packet mac msgpack secret bolt io now at packet b).0
          (Listener.handle_packet mac msgpack secret bolt io now at packet b).1
  unfolding Listener.handle_packet
  handle_packet-Explains io now at packet b =
      verdict_Explains io at (Listener.check_packet mac msgpack secret now packet) b

  verdict-IsWellFormed :
      (io : Bool) (at : ℕ) (v : Verdict) (b : Bucket)
      → IsWellFormed bolt at b
      → IsWellFormed bolt at (Listener.store_beacon mac msgpack secret bolt io at v b).0
  verdict-IsWellFormed io at (dropped r) b h = h
  verdict-IsWellFormed io at (accepted p) b h = upsert-IsWellFormed bolt io at p b h

  deliver-IsWellFormed :
      (d : Delivery) (b : Bucket)
      → IsWellFormed bolt d.at b
      → IsWellFormed bolt d.at (Listener.deliver mac msgpack secret bolt d b)
  unfolding Listener.handle_packet
  deliver-IsWellFormed d b h =
      elim d.datagram
        as (λ o. IsWellFormed bolt d.at (elim o [
          | none ↦ b
          | some bytes ↦
              (Listener.handle_packet mac msgpack secret bolt d.io d.now d.at (received bytes) b).0
        ])) [
          | none ↦ h
          | some bytes ↦
              verdict-IsWellFormed d.io d.at
                (Listener.check_packet mac msgpack secret d.now (received bytes)) b h
        ]

  -- Whatever datagrams come, failed reads among them, in the order in which their handlers come to
  -- the store, a well-formed bucket is well-formed behind them all.
  pub listen-IsWellFormed :
      (ds : List Delivery) (clock : ℕ) (b : Bucket)
      → IsInOrder clock ds
      → IsWellFormed bolt clock b
      → IsWellFormed bolt (last_clock clock ds) (Listener.listen mac msgpack secret bolt ds b)
  unfolding Listener.listen
  listen-IsWellFormed [] clock b o h = h
  listen-IsWellFormed (d ∷ ds) clock b o h =
      listen-IsWellFormed ds d.at (Listener.deliver mac msgpack secret bolt d b) o.1
        (deliver-IsWellFormed d b (later-IsWellFormed bolt clock d.at b o.0 h))

module _ (mac : Mac) (msgpack : Msgpack) (secret self : Text) (bolt : Bolt) where
  open bolt use {Bucket}

  -- What an outcome of a node says of the bucket and of /etc/hosts.
  abbrev pub NodeExplains : SyncMachine → ℕ → Bucket → Text → Bucket × Text × Outcome → Type 0
  NodeExplains m at b file (b', file', handled p) =
      Upserted bolt at p b b'
      × (file' ≡ (sync bolt m.root m.reads m.opens_file m.outcome b' file).0)
  NodeExplains m at b file (b', file', rejected r) = (b' ≡ b) × (file' ≡ file)
  NodeExplains m at b file (b', file', not_stored e) = (b' ≡ b) × (file' ≡ file)

  Upserted-NodeExplains :
      (m : SyncMachine) (at : ℕ) (p : BeaconPayload) (b b' : Bucket) (file : Text)
      (r : Result StoreError (Unit {0}))
      → (r ≡ ok tt → Upserted bolt at p b b')
      → ((e : StoreError) → r ≡ err e → b' ≡ b)
      → NodeExplains m at b file
          (Discovery.after_upsert mac msgpack secret self bolt m p (b', r) file)
  Upserted-NodeExplains m at p b b' file (ok tt) good bad = (good refl, refl)
  Upserted-NodeExplains m at p b b' file (err e) good bad = (bad e refl, refl)

  node_verdict_Explains :
      (m : SyncMachine) (io : Bool) (at : ℕ) (v : Verdict) (b : Bucket) (file : Text)
      → NodeExplains m at b file
          (Discovery.store_and_sync mac msgpack secret self bolt m io at v b file)
  node_verdict_Explains m io at (dropped r) b file = (refl, refl)
  node_verdict_Explains m io at (accepted p) b file =
      Upserted-NodeExplains m at p b (upsert bolt io at p b).0 file (upsert bolt io at p b).1
        (upsert-Upserted bolt io at p b) (λ e. upsert_err bolt io at p b)

  -- A node stores a beacon that it takes, and then rewrites /etc/hosts for the bucket as it is with
  -- the beacon in it. A packet that is dropped or cannot be stored touches neither.
  pub node-handle_packet-Explains :
      (m : SyncMachine) (io : Bool) (now : ℤ) (at : ℕ) (packet : Bytes) (b : Bucket) (file : Text)
      → NodeExplains m at b file
          (Discovery.handle_packet mac msgpack secret self bolt m io now at packet b file)
  unfolding Discovery.handle_packet
  node-handle_packet-Explains m io now at packet b file =
      node_verdict_Explains m io at (Discovery.check_packet mac msgpack secret self now packet) b
        file
