-- ===== src/Tests/Beacons.antt =====
-- A beacon with a server, two rounds of which the first fails at the server.
use lanmon.Prelude.{
  text_eq, ℕ, zero, suc, ◌≡◌, refl, true, false, some, List, [], ◌∷◌, Text, codes, inl,
}
use lanmon.Go.Int.{pos}
use lanmon.Beacon.Packet.{payload_of, packet_of, Sent}
use lanmon.Beacon.Loop.{
  Network, Attempt, endpoint, running, start_beacon, IsSending, start_beacon-IsSending,
}
use lanmon.Tests.Codec.{encode, toy_mac, toy_msgpack}
use lanmon.Tests.Receive.{info, secret}

abbrev net : Network
net = record {
  resolve = λ host_port. some host_port;
  listens = true;
  has_interface = λ name. false;
}

abbrev writes_first : ℕ → Attempt
writes_first zero = record { info = some info; stamp = pos 1700000000; writes = true }
writes_first (suc i) = record { info = some info; stamp = pos 1700000000; writes = false }

abbrev writes_all : ℕ → Attempt
writes_all i = record { info = some info; stamp = pos 1700000030; writes = true }

resolved :
    net.resolve (endpoint (codes "239.255.255.250") (pos 5678))
    ≡ some (codes "239.255.255.250:5678")
unfolding endpoint
resolved = refl

-- The server in the round of the first tick.
start_beacon-IsSending_example :
    (rounds : List (List (Text × Sent))) × (start_beacon toy_mac toy_msgpack secret net []
        (codes "239.255.255.250")
        (codes "10.0.0.1")
        (pos 5678)
        (pos 30)
        writes_first
        (writes_all ∷ [])
      ≡ running rounds)
    × IsSending toy_mac toy_msgpack secret 1 rounds 1 1
        (codes "10.0.0.1:5678")
        (packet_of toy_mac toy_msgpack (encode (payload_of info (pos 1700000030))) secret)
unfolding endpoint text_eq
start_beacon-IsSending_example =
    start_beacon-IsSending toy_mac toy_msgpack secret net [] (codes "239.255.255.250")
      (codes "10.0.0.1") (pos 5678) 29 writes_first (writes_all ∷ []) (codes "239.255.255.250:5678")
      1 1 writes_all (codes "10.0.0.1:5678") info (encode (payload_of info (pos 1700000030)))
      resolved refl (inl refl) refl refl refl refl refl
