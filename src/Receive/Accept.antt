-- ===== src/Receive/Accept.antt =====
-- Which packets the receivers take, what they do to the store, and that they take what the senders
-- send.
use lanmon.Prelude.{
  ℕ, zero, suc, ◌≤◌, ◌<◌, ◌≡◌, ◌≢◌, refl, ap, sym, ◌∙◌, ◌↔◌, ◌+◌, true, false, some, [], ◌∷◌, ◌++◌,
  leb, Bytes, Text, text_eq_iff, length, take, drop, take-append, drop-append, length-append, arith,
}
use lanmon.Go.Int.{ℤ}
use lanmon.Sysinfo.{SystemInfo}
use lanmon.Beacon.Payload.{BeaconPayload, IsTyped}
use lanmon.Beacon.Hmac.{
  Mac, hmac_size, compute_hmac, verify_hmac, verify-compute, length-compute_hmac,
}
use lanmon.Beacon.Packet.{Msgpack, payload_of, packet_of, send_beacon, sent}
use lanmon.Receive.Stamp.{is_stale_stamp}
use lanmon.Receive.Listener
use lanmon.Receive.Discovery
use lanmon.Receive.Listener.{
  Reason, own_beacon, stale, Verdict, accepted, dropped, received, received_whole, max_packet_size,
}

take-append-drop : (n : ℕ) (xs : Bytes) → take n xs ++ drop n xs ≡ xs
take-append-drop zero xs = refl
take-append-drop (suc n) [] = refl
take-append-drop (suc n) (x ∷ xs) = ap (◌∷◌ x) (take-append-drop n xs)

length-drop : (n : ℕ) (xs : Bytes) → n < length xs → 0 < length (drop n xs)
length-drop zero xs h = h
length-drop (suc n) [] h = absurd (omega arith)
length-drop (suc n) (x ∷ xs) h = length-drop n xs (omega arith)

module _ (mac : Mac) (msgpack : Msgpack) (secret : Text) where
  -- A packet of a holder of the secret: the signature of some bytes and the bytes, which decode to
  -- `p` and carry a time that is not too far from the clock.
  pub record IsSigned (now : ℤ) (packet : Bytes) (p : BeaconPayload) : Type 0 where
    pub bytes : Bytes
    pub splits : packet ≡ packet_of mac msgpack bytes secret
    pub nonempty : 0 < length bytes
    pub decoded : msgpack.unmarshal bytes ≡ some p
    pub in_time : is_stale_stamp now p.timestamp ≡ false

  -- The two cuts of a packet that is long enough.
  split_packet :
      (packet : Bytes)
      → verify_hmac mac (take hmac_size packet) (drop hmac_size packet) secret ≡ true
      → packet ≡ packet_of mac msgpack (drop hmac_size packet) secret
  unfolding verify_hmac packet_of
  split_packet packet h =
      sym (take-append-drop hmac_size packet)
      ∙ ap (λ s. s ++ drop hmac_size packet) ((text_eq_iff _ _).0 h)

  take-packet_of :
      (bytes : Bytes)
      → take hmac_size (packet_of mac msgpack bytes secret) ≡ compute_hmac mac bytes secret
  unfolding packet_of
  take-packet_of bytes =
      rw (← length-compute_hmac mac bytes secret)
        (take-append (compute_hmac mac bytes secret) bytes)

  pub drop-packet_of : (bytes : Bytes) → drop hmac_size (packet_of mac msgpack bytes secret) ≡ bytes
  unfolding packet_of
  drop-packet_of bytes =
      rw (← length-compute_hmac mac bytes secret)
        (drop-append (compute_hmac mac bytes secret) bytes)

  pub length-packet_of :
      (bytes : Bytes) → length (packet_of mac msgpack bytes secret) ≡ hmac_size + length bytes
  unfolding packet_of
  length-packet_of bytes = omega (
    arith,
    length-append (compute_hmac mac bytes secret) bytes,
    length-compute_hmac mac bytes secret,
  )

  verify-packet_of :
      (bytes : Bytes)
      → verify_hmac mac
          (take hmac_size (packet_of mac msgpack bytes secret))
          (drop hmac_size (packet_of mac msgpack bytes secret))
          secret
        ≡ true
  verify-packet_of bytes =
      rw (take-packet_of bytes, drop-packet_of bytes) (verify-compute mac bytes secret)

  long_enough :
      (bytes : Bytes)
      → 0 < length bytes
      → leb (length (packet_of mac msgpack bytes secret)) hmac_size ≡ false
  long_enough bytes h = let l = length-packet_of bytes in ground arith

  check-IsSigned :
      (now : ℤ) (packet : Bytes) (p : BeaconPayload)
      → Listener.check_packet mac msgpack secret now packet ≡ accepted p
      → IsSigned now packet p
  unfolding Listener.check_packet
  check-IsSigned now packet p h = record {
    bytes = drop hmac_size packet;
    splits = split_packet packet (ground arith);
    nonempty = length-drop hmac_size packet (ground arith);
    decoded = ground arith;
    in_time = ground arith;
  }

  IsSigned-check :
      (now : ℤ) (packet : Bytes) (p : BeaconPayload)
      → IsSigned now packet p
      → Listener.check_packet mac msgpack secret now packet ≡ accepted p
  unfolding Listener.check_packet
  IsSigned-check now packet p s =
      rw
        (
          s.splits,
          long_enough s.bytes s.nonempty,
          verify-packet_of s.bytes,
          drop-packet_of s.bytes,
          s.decoded,
          s.in_time,
        )
        refl

  -- The server takes a packet as `p` exactly if the packet is the signature, under the server's
  -- secret, of some bytes, and those bytes; and the bytes decode to `p` with a time that passes.
  pub check_packet_iff :
      (now : ℤ) (packet : Bytes) (p : BeaconPayload)
      → (Listener.check_packet mac msgpack secret now packet ≡ accepted p) ↔ IsSigned now packet p
  check_packet_iff now packet p = (check-IsSigned now packet p, IsSigned-check now packet p)

  -- A node takes the packets that the server takes, but for those with its own MAC address.
  pub node-check_packet_iff :
      (self : Text) (now : ℤ) (packet : Bytes) (p : BeaconPayload)
      → (Discovery.check_packet mac msgpack secret self now packet ≡ accepted p) ↔ (
          (Listener.check_packet mac msgpack secret now packet ≡ accepted p)
          × (p.mac_address ≢ self))
  unfolding Discovery.check_packet Listener.check_packet
  node-check_packet_iff self now packet p = (
    λ h. (ground arith, λ own. ground (arith, text_eq_iff p.mac_address self)),
    λ h. ground (arith, text_eq_iff p.mac_address self, h.1),
  )

  pub sent_packet :
      (info : SystemInfo) (stamp : ℤ) (packet : Bytes)
      → send_beacon mac msgpack (some info) stamp secret true ≡ sent packet
      → (d : Bytes) × (msgpack.marshal (payload_of info stamp) ≡ some d)
        × (packet ≡ packet_of mac msgpack d secret)
  unfolding send_beacon
  sent_packet info stamp packet h = ground arith

  -- What a sender puts on the wire is taken by every receiver with the same secret, as the payload
  -- that was sent, if the datagram fits the receiver's buffer and the clocks agree well enough.
  pub check-send_beacon :
      (info : SystemInfo) (stamp now : ℤ) (packet : Bytes)
      → IsTyped (payload_of info stamp)
      → send_beacon mac msgpack (some info) stamp secret true ≡ sent packet
      → length packet ≤ max_packet_size
      → is_stale_stamp now stamp ≡ false
      → Listener.check_packet mac msgpack secret now (received packet)
        ≡ accepted (payload_of info stamp)
  unfolding payload_of
  check-send_beacon info stamp now packet typed h fits fresh =
      let (d, marshalled, e) = sent_packet info stamp packet h in
      ap (Listener.check_packet mac msgpack secret now) (received_whole packet fits)
      ∙ IsSigned-check now packet (payload_of info stamp) (record {
        bytes = d;
        splits = e;
        nonempty = msgpack.marshal_nonempty (payload_of info stamp) d marshalled;
        decoded = msgpack.unmarshal-marshal (payload_of info stamp) d typed marshalled;
        in_time = fresh;
      })
