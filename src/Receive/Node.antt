-- ===== src/Receive/Node.antt =====
-- `StartNode`, `broadcast` and `listen` of internal/discovery/discovery.go: the set-up of a node, and
-- its two loops, which share the store and /etc/hosts.
use lanmon.Prelude.{
  ℕ, Bool, List, [], ◌∷◌, ◌++◌, map, Option, none, some, Bytes, Text, codes, Result, ok, err, ◌>>=◌,
  or_error, if◌then◌else◌,
}
use lanmon.Go.Int.{ℤ}
use lanmon.Sysinfo.{SystemInfo}
use lanmon.Sysinfo.Net.{IpNet, ip_string}
use lanmon.Sysinfo.Broadcast.{get_broadcast_ip}
use lanmon.Sysinfo.Interfaces.{NetworkError}
use lanmon.Sysinfo.Os.{Facts, collect}
use lanmon.Beacon.Hmac.{Mac}
use lanmon.Beacon.Packet.{Msgpack, Sent, send_beacon}
use lanmon.Beacon.Loop.{endpoint, Course, ticking, course_of}
use lanmon.Store.Bolt.{Bolt}
use lanmon.Receive.Listener.{received}
use lanmon.Receive.Discovery.{SyncMachine, handle_packet}

pub data NodeError : Type 0 where
  detecting : NetworkError → NodeError
  parsing_network resolving_broadcast listening_port : NodeError

-- What the system answers to the set-up.
pub record NodeNetwork : Type 0 where
  pub parse_cidr : Text → Option IpNet
  pub resolve : Text → Option Text
  pub listens : Bool

-- One broadcast: what the machine is then, the clock, and whether the write succeeds.
pub record NodeAttempt : Type 0 where
  pub facts : Facts
  pub stamp : ℤ
  pub writes : Bool

-- One round of `listen`: a failed read is logged, a datagram is handled by a goroutine, whose turn
-- at the store this is.
pub record NodeDelivery : Type 0 where
  pub datagram : Option Bytes
  pub io : Bool
  pub now : ℤ
  pub at : ℕ
  pub machine : SyncMachine

pub data NodeEvent : Type 0 where
  tick : NodeAttempt → NodeEvent
  arrival : NodeDelivery → NodeEvent

-- `IP.String`, with the text of a nil address.
abbrev pub ip_text : Option Bytes → Text
ip_text none = codes "<nil>"
ip_text (some ip) = ip_string ip

abbrev pub detected : {A : Type 0} → Result NetworkError A → Result NodeError A
detected (err e) = err (detecting e)
detected (ok a) = ok a

abbrev pub info_or_none : Result NetworkError SystemInfo → Option SystemInfo
info_or_none (err e) = none
info_or_none (ok info) = some info

-- The node's own MAC address, and the address that it broadcasts to.
unfoldable pub set_up : NodeNetwork → Facts → Text → ℤ → Result NodeError (Text × Text)
unfolding collect get_broadcast_ip endpoint
set_up net facts range port = do
  info ← detected (collect net.parse_cidr facts range)
  network ← or_error parsing_network (net.parse_cidr range)
  address ←
      or_error resolving_broadcast
        (net.resolve (endpoint (ip_text (get_broadcast_ip network)) port))
  if net.listens then ok (info.mac_address, address) else err listening_port

module _ (mac : Mac) (msgpack : Msgpack) (secret : Text) where
  -- `broadcast`
  unfoldable pub node_broadcast : (Text → Option IpNet) → Text → NodeAttempt → Sent
  unfolding collect
  node_broadcast parse_cidr range t =
      send_beacon mac msgpack (info_or_none (collect parse_cidr t.facts range)) t.stamp secret
        t.writes

  module _ (bolt : Bolt) where
    open bolt use {Bucket}

    -- The store, /etc/hosts, and how each broadcast to an address has ended, the last first.
    pub record NodeState : Type 0 where
      pub bucket : Bucket
      pub hosts_file : Text
      pub wire : List (Text × Sent)

    module _ (self : Text) where
      abbrev pub arrive_bytes : NodeDelivery → Option Bytes → Bucket → Text → Bucket × Text
      arrive_bytes d none b file = (b, file)
      arrive_bytes d (some bytes) b file =
          let (b', file', outcome) =
            handle_packet mac msgpack secret self bolt d.machine d.io d.now d.at (received bytes) b
              file in
          (b', file')

      abbrev pub arrive : NodeDelivery → Bucket × Text → Bucket × Text
      arrive d (b, file) = arrive_bytes d d.datagram b file

      -- `listen`, for as many rounds as there are reads.
      unfoldable pub node_listen : List NodeDelivery → Bucket × Text → Bucket × Text
      node_listen [] s = s
      node_listen (d ∷ ds) s = node_listen ds (arrive d s)

      module _ (parse_cidr : Text → Option IpNet) (range address : Text) where
        abbrev pub node_step : NodeEvent → NodeState → NodeState
        node_step (tick t) s = record s {
          wire = (address, node_broadcast parse_cidr range t) ∷ s.wire;
        }
        node_step (arrival d) s =
            let (b, file) = arrive d (s.bucket, s.hosts_file) in
            record { bucket = b; hosts_file = file; wire = s.wire }

        -- The two goroutines, in any interleaving of their rounds.
        unfoldable pub node_run : List NodeEvent → NodeState → NodeState
        unfolding node_broadcast
        node_run [] s = s
        node_run (e ∷ es) s = node_run es (node_step e s)

    -- `StartNode`: what arrives before the first broadcast, the broadcast in front of the ticker's
    -- loop, and then the events of both loops.
    unfoldable pub start_node :
        NodeNetwork
        → Facts
        → Text
        → ℤ
        → ℤ
        → List NodeDelivery
        → NodeAttempt
        → List NodeEvent
        → NodeState
        → Course NodeError NodeState
    unfolding set_up node_run
    start_node net facts range port interval early first_attempt events s =
        course_of
          (λ (self, address). ticking interval (
            node_run self net.parse_cidr range address
              (map arrival early ++ tick first_attempt ∷ events) s))
          (set_up net facts range port)
