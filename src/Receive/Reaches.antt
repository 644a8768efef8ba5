-- ===== src/Receive/Reaches.antt =====
-- What the two loops of a node do to the store: broadcasts nothing, its own beacons nothing, and a
-- peer's beacon for good, until the peer expires.
use lanmon.Prelude.{
  ℕ, ◌≡◌, ◌≢◌, refl, ap, ◌∙◌, Bool, true, false, List, [], ◌∷◌, ◌++◌, Option, none, some, Bytes,
  Text, text_eq, text_eq_iff, text_eq_refl, Result, ok, err, Result-cases, Bool-cases, inl, inr,
  arith,
}
use lanmon.Sysinfo.Net.{IpNet}
use lanmon.Beacon.Payload.{BeaconPayload}
use lanmon.Beacon.Hmac.{Mac}
use lanmon.Beacon.Packet.{Msgpack}
use lanmon.Store.Record.{HostRecord, json, clean}
use lanmon.Store.Bolt.{Bolt}
use lanmon.Store.Ops.{StoreError, upsert, next_record}
use lanmon.Store.Upsert.{Upserted, upsert-Upserted, upsert_err}
use lanmon.Store.History.{next_record_fresh}
use lanmon.Receive.Listener.{Verdict, accepted, dropped, received}
use lanmon.Receive.Discovery.{
  SyncMachine, check_packet, handle_packet, store_and_sync, after_upsert,
}
use lanmon.Receive.Accept.{node-check_packet_iff}
use lanmon.Receive.Node.{
  NodeDelivery, NodeEvent, tick, arrival, NodeState, arrive, arrive_bytes, node_listen, node_step,
  node_run,
}

abbrev pub arrivals : List NodeEvent → List NodeDelivery
arrivals [] = []
arrivals (tick t ∷ es) = arrivals es
arrivals (arrival d ∷ es) = d ∷ arrivals es

-- A host that is stored under the key and active.
pub record IsKnown (bolt : Bolt) (k : Text) (b : bolt.Bucket) : Type 0 where
  pub host : HostRecord
  pub found : bolt.get b k ≡ some (json host)
  pub active : host.active ≡ true

module _ (mac : Mac) (msgpack : Msgpack) (secret : Text) (bolt : Bolt) (self : Text) where
  open bolt use {Bucket, get}

  -- Whatever the interleaving of the two loops, the store and /etc/hosts are what the listening
  -- loop alone makes of the datagrams in their order.
  pub node_run-listen :
      (parse_cidr : Text → Option IpNet) (range address : Text) (es : List NodeEvent)
      (s : NodeState mac msgpack secret bolt)
      → (
        (node_run mac msgpack secret bolt self parse_cidr range address es s).bucket,
        (node_run mac msgpack secret bolt self parse_cidr range address es s).hosts_file,
      )
        ≡ node_listen mac msgpack secret bolt self (arrivals es) (s.bucket, s.hosts_file)
  unfolding node_run node_listen
  node_run-listen parse_cidr range address [] s = refl
  node_run-listen parse_cidr range address (tick t ∷ es) s =
      node_run-listen parse_cidr range address es
        (node_step mac msgpack secret bolt self parse_cidr range address (tick t) s)
  node_run-listen parse_cidr range address (arrival d ∷ es) s =
      node_run-listen parse_cidr range address es
        (node_step mac msgpack secret bolt self parse_cidr range address (arrival d) s)

  -- The bucket behind a handler is the one behind its upsert.
  pub after_upsert-bucket :
      (m : SyncMachine) (p : BeaconPayload) (b : Bucket) (r : Result StoreError (Unit {0}))
      (file : Text)
      → (after_upsert mac msgpack secret self bolt m p (b, r) file).0 ≡ b
  after_upsert-bucket m p b (ok _) file = refl
  after_upsert-bucket m p b (err e) file = refl

  -- What every verdict keeps of the bucket, if an upsert of an accepted beacon keeps it.
  pub stored_keeps :
      (P : Bucket → Type 0) (m : SyncMachine) (io : Bool) (at : ℕ) (v : Verdict) (b : Bucket)
      (file : Text)
      → P b
      → ((p : BeaconPayload)
          → v ≡ accepted p
          → Upserted bolt at p b (upsert bolt io at p b).0
          → P (upsert bolt io at p b).0)
      → P (store_and_sync mac msgpack secret self bolt m io at v b file).0
  stored_keeps P m io at (dropped r) b file h keeps = h
  stored_keeps P m io at (accepted p) b file h keeps =
      rw (after_upsert-bucket m p (upsert bolt io at p b).0 (upsert bolt io at p b).1 file)
        (elim (Result-cases (upsert bolt io at p b).1) [
          | inl done ↦ keeps p refl (upsert-Upserted bolt io at p b done)
          | inr (e, failed) ↦ rw (upsert_err bolt io at p b failed) h
        ])

  -- What a round of `listen` keeps.
  arrive_keeps :
      (P : Bucket → Type 0) (d : NodeDelivery) (o : Option Bytes) (b : Bucket) (file : Text)
      → P b
      → ((p : BeaconPayload)
          → p.mac_address ≢ self
          → Upserted bolt d.at p b (upsert bolt d.io d.at p b).0
          → P (upsert bolt d.io d.at p b).0)
      → P (arrive_bytes mac msgpack secret bolt self d o b file).0
  unfolding handle_packet
  arrive_keeps P d none b file h keeps = h
  arrive_keeps P d (some bytes) b file h keeps =
      stored_keeps P d.machine d.io d.at
        (check_packet mac msgpack secret self d.now (received bytes)) b file h
        (λ p taken.
          keeps p
            ((node-check_packet_iff mac msgpack secret self d.now (received bytes) p).0 taken).1)

  -- What an upsert keeps in any bucket, the loop keeps.
  node_listen_keeps :
      (P : Bucket → Type 0) (ds : List NodeDelivery) (b : Bucket) (file : Text)
      → ((at : ℕ) (p : BeaconPayload) (b b' : Bucket)
          → p.mac_address ≢ self
          → Upserted bolt at p b b'
          → P b
          → P b')
      → P b
      → P (node_listen mac msgpack secret bolt self ds (b, file)).0
  unfolding node_listen
  node_listen_keeps P [] b file keeps h = h
  node_listen_keeps P (d ∷ ds) b file keeps h =
      let s = arrive mac msgpack secret bolt self d (b, file) in
      node_listen_keeps P ds s.0 s.1 keeps (
        arrive_keeps P d d.datagram b file h
          (λ p other u. keeps d.at p b (upsert bolt d.io d.at p b).0 other u h))

  -- No run of a node changes what its store holds under the node's own MAC address.
  pub node_run-self :
      (parse_cidr : Text → Option IpNet) (range address : Text) (es : List NodeEvent)
      (s : NodeState mac msgpack secret bolt)
      → get (node_run mac msgpack secret bolt self parse_cidr range address es s).bucket self
        ≡ get s.bucket self
  node_run-self parse_cidr range address es s =
      ap (λ t. get t.0 self) (node_run-listen parse_cidr range address es s)
      ∙ node_listen_keeps (λ b. get b self ≡ get s.bucket self) (arrivals es) s.bucket s.hosts_file
          (λ at p b b' other u h.
            let foreign : text_eq self p.mac_address ≡ false =
              ground (arith, text_eq_iff self p.mac_address) in
            u.here self ∙ rw foreign h)
          refl

  pub Upserted-IsKnown :
      (at : ℕ) (p : BeaconPayload) (b b' : Bucket)
      → Upserted bolt at p b b'
      → IsKnown bolt p.mac_address b'
  Upserted-IsKnown at p b b' u = record {
    host = clean (next_record p at (get b p.mac_address));
    found = u.here p.mac_address ∙ rw (text_eq_refl p.mac_address) refl;
    active = (next_record_fresh p at (get b p.mac_address)).0;
  }

  IsKnown-stays :
      (k : Text) (at : ℕ) (p : BeaconPayload) (b b' : Bucket)
      → Upserted bolt at p b b'
      → IsKnown bolt k b
      → IsKnown bolt k b'
  IsKnown-stays k at p b b' u h = elim (Bool-cases (text_eq k p.mac_address)) [
    | inl same ↦ rw ((text_eq_iff k p.mac_address).0 same) (Upserted-IsKnown at p b b' u)
    | inr other ↦ record { host = h.host; found = u.here k ∙ rw other h.found; active = h.active }
  ]

  -- A host that is known stays known through everything that arrives.
  pub node_listen-IsKnown :
      (k : Text) (ds : List NodeDelivery) (b : Bucket) (file : Text)
      → IsKnown bolt k b
      → IsKnown bolt k (node_listen mac msgpack secret bolt self ds (b, file)).0
  node_listen-IsKnown k ds b file h =
      node_listen_keeps (IsKnown bolt k) ds b file
        (λ at p b b' other u known. IsKnown-stays k at p b b' u known) h

  pub node_listen-append :
      (early late : List NodeDelivery) (s : Bucket × Text)
      → node_listen mac msgpack secret bolt self (early ++ late) s
        ≡ node_listen mac msgpack secret bolt self late
            (node_listen mac msgpack secret bolt self early s)
  unfolding node_listen
  node_listen-append [] late s = refl
  node_listen-append (d ∷ early) late s =
      node_listen-append early late (arrive mac msgpack secret bolt self d s)
