-- ===== src/Receive/Resolved.antt =====
-- What a started node puts on the wire, and that a node that takes a beacon can resolve its sender.
use mathlib.Core.Path.{subst}
use lanmon.Prelude.{
  ℕ, suc, ◌≡◌, refl, ◌∙◌, true, false, Option, Result, err, List, [], ◌∷◌, ◌++◌, map, some, Bytes,
  Text, text_eq_refl, if◌then◌else◌, ok, Among, first, later, Among-append, Among-append_front,
}
use lanmon.Go.Int.{ℤ, pos}
use lanmon.Go.Strings.{unlines}
use lanmon.Go.Scanner.{scan_lines}
use lanmon.Sysinfo.Net.{IpNet}
use lanmon.Sysinfo.{SystemInfo}
use lanmon.Sysinfo.Os.{Facts, collect}
use lanmon.Beacon.Payload.{BeaconPayload}
use lanmon.Beacon.Hmac.{Mac}
use lanmon.Beacon.Packet.{Msgpack, Sent, sent, send_beacon-sent, payload_of, packet_of}
use lanmon.Beacon.Loop.{running}
use lanmon.Store.Record.{HostRecord, json, clean}
use lanmon.Store.Bolt.{Bolt}
use lanmon.Store.Ops.{StoreError, next_record, upsert, read_all}
use lanmon.Store.Upsert.{IsStorable, upsert-IsStorable, upsert-Upserted}
use lanmon.Store.Listing.{Among-read_all}
use lanmon.Hosts.Sync.{
  is_named, entry_of, entries_of, managed, new_lines, separated, preserved, wrote, sync,
}
use lanmon.Hosts.Rewrite.{rewritten-unlines}
use lanmon.Receive.Listener.{accepted}
use lanmon.Receive.Discovery.{SyncMachine, check_packet, handle_packet, after_upsert}
use lanmon.Receive.Node.{
  NodeNetwork, NodeAttempt, NodeDelivery, NodeEvent, tick, arrival, NodeState, node_step,
  node_broadcast, node_run, set_up, start_node,
}

Among-cons_if :
    (e : Text) (x : HostRecord) (rest : List Text)
    → Among e rest
    → Among e (if is_named x then entry_of x ∷ rest else rest)
Among-cons_if e x rest a =
    elim (is_named x) as (λ b. Among e (if b then entry_of x ∷ rest else rest)) [
      | true ↦ later a
      | false ↦ a
    ]

-- A named host that is listed has its entry.
Among-entries_of :
    (r : HostRecord) (rs : List HostRecord)
    → is_named r ≡ true
    → Among r rs
    → Among (entry_of r) (entries_of rs)
unfolding entries_of
Among-entries_of r [] named a = elim a [ ]
Among-entries_of r (s ∷ rs) named first = rw named first
Among-entries_of r (s ∷ rs) named (later a) =
    Among-cons_if (entry_of r) s (entries_of rs) (Among-entries_of r rs named a)

Among-new_lines :
    (r : HostRecord) (rs : List HostRecord) (ls : List Text)
    → is_named r ≡ true
    → Among r rs
    → Among (entry_of r) (new_lines rs ls)
unfolding new_lines managed
Among-new_lines r rs ls named a =
    Among-append (entry_of r) (separated (preserved false ls)) (managed rs)
      (later (Among-append_front (entry_of r) (entries_of rs) _ (Among-entries_of r rs named a)))

module _ (bolt : Bolt) where
  open bolt use {Bucket, get, entries}

  -- A text of lines, one of them the entry of the host.
  pub record IsResolvable (host : HostRecord) (file : Text) : Type 0 where
    pub lines : List Text
    pub written : file ≡ unlines lines
    pub among : Among (entry_of host) lines

  sync-IsResolvable :
      (k : Text) (host : HostRecord) (b : Bucket) (file : Text)
      → get b k ≡ some (json host)
      → is_named host ≡ true
      → IsResolvable host (sync bolt true true true wrote b file).0
  unfolding sync
  sync-IsResolvable k host b file found named = record {
    lines = new_lines (read_all (entries b)) (scan_lines file);
    written = rewritten-unlines (read_all (entries b)) file;
    among =
        Among-new_lines host (read_all (entries b)) (scan_lines file) named
          (Among-read_all bolt 0 b k host found);
  }

module _ (mac : Mac) (msgpack : Msgpack) (secret : Text) (bolt : Bolt) (self : Text) where
  open bolt use {Bucket, get}

  abbrev all_works : SyncMachine
  all_works = record { root = true; reads = true; opens_file = true; outcome = wrote }

  after_upsert-ok :
      (p : BeaconPayload) (b : Bucket) (r : Result StoreError (Unit {0})) (file : Text)
      → r ≡ ok tt
      → (after_upsert mac msgpack secret self bolt all_works p (b, r) file).1
        ≡ (sync bolt true true true wrote b file).0
  after_upsert-ok p b (ok _) file h = refl
  after_upsert-ok p b (err e) file h = absurd cc

  -- A node that takes a beacon and can store it, and on whose machine the sync of /etc/hosts works,
  -- ends with a file of lines, one of which is the entry of the sender, its address in front of its
  -- name, if both are not empty.
  pub handle_packet-IsResolvable :
      (now : ℤ) (at : ℕ) (packet : Bytes) (p : BeaconPayload) (b : Bucket) (file : Text)
      → check_packet mac msgpack secret self now packet ≡ accepted p
      → IsStorable bolt at p b
      → is_named (clean (next_record p at (get b p.mac_address))) ≡ true
      → IsResolvable bolt
          (clean (next_record p at (get b p.mac_address)))
          (handle_packet mac msgpack secret self bolt all_works true now at packet b file).1
  unfolding handle_packet
  handle_packet-IsResolvable now at packet p b file taken can named =
      let host = clean (next_record p at (get b p.mac_address)) in
      let done = upsert-IsStorable bolt at p b can in
      let stored : get (upsert bolt true at p b).0 p.mac_address ≡ some (json host) =
        (upsert-Upserted bolt true at p b done).here p.mac_address
        ∙ rw (text_eq_refl p.mac_address) refl in
      rw
        (taken, after_upsert-ok p (upsert bolt true at p b).0 (upsert bolt true at p b).1 file done)
        (sync-IsResolvable bolt p.mac_address host (upsert bolt true at p b).0 file stored named)

  wire_kept :
      (parse_cidr : Text → Option IpNet) (range address : Text) (es : List NodeEvent)
      (s : NodeState mac msgpack secret bolt) (x : Text × Sent)
      → Among x s.wire
      → Among x (node_run mac msgpack secret bolt self parse_cidr range address es s).wire
  unfolding node_run
  wire_kept parse_cidr range address [] s x a = a
  wire_kept parse_cidr range address (tick t ∷ es) s x a =
      wire_kept parse_cidr range address es
        (node_step mac msgpack secret bolt self parse_cidr range address (tick t) s) x (later a)
  wire_kept parse_cidr range address (arrival d ∷ es) s x a =
      wire_kept parse_cidr range address es
        (node_step mac msgpack secret bolt self parse_cidr range address (arrival d) s) x a

  ticks_sent :
      (parse_cidr : Text → Option IpNet) (range address : Text) (es : List NodeEvent)
      (s : NodeState mac msgpack secret bolt) (t : NodeAttempt)
      → Among (tick t) es
      → Among
          (address, node_broadcast mac msgpack secret parse_cidr range t)
          (node_run mac msgpack secret bolt self parse_cidr range address es s).wire
  unfolding node_run
  ticks_sent parse_cidr range address [] s t a = elim a [ ]
  ticks_sent parse_cidr range address (e ∷ es) s t first =
      wire_kept parse_cidr range address es
        (node_step mac msgpack secret bolt self parse_cidr range address (tick t) s)
        (address, node_broadcast mac msgpack secret parse_cidr range t) first
  ticks_sent parse_cidr range address (e ∷ es) s t (later a) =
      ticks_sent parse_cidr range address es
        (node_step mac msgpack secret bolt self parse_cidr range address e s) t a

module _ (mac : Mac) (msgpack : Msgpack) (secret : Text) (bolt : Bolt) where
  -- A broadcast with nothing in its way puts a signed packet on the wire.
  node_broadcast-sent :
      (parse_cidr : Text → Option IpNet) (range : Text) (t : NodeAttempt) (info : SystemInfo)
      (bytes : Bytes)
      → collect parse_cidr t.facts range ≡ ok info
      → msgpack.marshal (payload_of info t.stamp) ≡ some bytes
      → t.writes ≡ true
      → node_broadcast mac msgpack secret parse_cidr range t
        ≡ sent (packet_of mac msgpack bytes secret)
  unfolding node_broadcast
  node_broadcast-sent parse_cidr range t info bytes collected marshalled written =
      rw (collected, written) (send_beacon-sent mac msgpack info t.stamp secret bytes marshalled)

  -- A node whose set-up succeeds and whose interval is positive runs, and at once and at every tick,
  -- whatever arrives in between and became of the other broadcasts, sends the signed payload of the
  -- machine to its broadcast address, if its facts can be collected and marshalled and the write
  -- works.
  pub start_node-broadcasts :
      (net : NodeNetwork) (facts : Facts) (range : Text) (port : ℤ) (n : ℕ)
      (early : List NodeDelivery) (first_attempt : NodeAttempt) (events : List NodeEvent)
      (s : NodeState mac msgpack secret bolt) (self address : Text) (t : NodeAttempt)
      (info : SystemInfo) (bytes : Bytes)
      → set_up net facts range port ≡ ok (self, address)
      → Among (tick t) (tick first_attempt ∷ events)
      → collect net.parse_cidr t.facts range ≡ ok info
      → msgpack.marshal (payload_of info t.stamp) ≡ some bytes
      → t.writes ≡ true
      → (s' : NodeState mac msgpack secret bolt) × (start_node mac msgpack secret bolt net facts
            range port
            (pos (suc n))
            early
            first_attempt
            events
            s
          ≡ running s')
        × Among (address, sent (packet_of mac msgpack bytes secret)) s'.wire
  unfolding start_node
  start_node-broadcasts net facts range port n early first_attempt events s self address t info
        bytes ready a collected marshalled written =
      let all = map arrival early ++ tick first_attempt ∷ events in
      let there =
        ticks_sent mac msgpack secret bolt self net.parse_cidr range address all s t
          (Among-append (tick t) (map arrival early) (tick first_attempt ∷ events) a) in
      (
        node_run mac msgpack secret bolt self net.parse_cidr range address all s,
        rw ready refl,
        subst
            (λ x.
              Among (address, x)
                (node_run mac msgpack secret bolt self net.parse_cidr range address all s).wire)
            (node_broadcast-sent net.parse_cidr range t info bytes collected marshalled written)
            there,
      )
