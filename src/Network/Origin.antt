-- ===== src/Network/Origin.antt =====
-- Whatever is put on the wire, a receiver takes only payloads that a holder of the secret has sent.
use lanmon.Prelude.{
  ℕ, ◌≤◌, ◌≡◌, sym, ap, ◌∙◌, ◌⊎◌, true, false, List, ◌∷◌, some, Bytes, Text, Among, first, later,
  length, drop, arith, inl, inr,
}
use lanmon.Go.Int.{ℤ, pos, negsuc, IsInt64}
use lanmon.Sysinfo.{SystemInfo}
use lanmon.Beacon.Payload.{BeaconPayload, IsTyped}
use lanmon.Beacon.Hmac.{Mac, hmac_size}
use lanmon.Beacon.Packet.{Msgpack, payload_of, packet_of, send_beacon, sent}
use lanmon.Receive.Stamp.{is_stale_stamp, is_stale_stamp_iff}
use lanmon.Receive.Listener
use lanmon.Receive.Listener.{
  Verdict, accepted, dropped, received, received_whole, max_packet_size, Delivery,
}
use lanmon.Receive.Accept.{drop-packet_of, sent_packet, check_packet_iff}
use lanmon.Network.Lan.{IsClocked, IsUnsigned}
use lanmon.Network.Traced.{IsTimely}

-- A stamp that passes the age test, with the clock that the write reads.
pub stamp-IsTimely :
    (lag : ℕ) (now stamp : ℤ) (at : ℕ)
    → IsClocked lag now at
    → IsInt64 stamp
    → is_stale_stamp now stamp ≡ false
    → IsTimely lag stamp at
stamp-IsTimely lag (negsuc n) stamp at clocked typed fresh = absurd clocked
stamp-IsTimely lag (pos n) (negsuc t) at clocked typed fresh =
    absurd ((is_stale_stamp_iff n (negsuc t) clocked.0 clocked.1 typed).0 fresh)
stamp-IsTimely lag (pos n) (pos t) at clocked typed fresh =
    let near = (is_stale_stamp_iff n (pos t) clocked.0 clocked.1 typed).0 fresh in omega arith

module _ (mac : Mac) (msgpack : Msgpack) (secret : Text) where
  -- The signature, with its bytes, of a payload that a holder of the secret has sent.
  pub record IsSent (log : List BeaconPayload) (packet : Bytes) : Type 0 where
    pub payload : BeaconPayload
    pub among : Among payload log
    pub typed : IsTyped payload
    pub bytes : Bytes
    pub marshalled : msgpack.marshal payload ≡ some bytes
    pub signed : received packet ≡ packet_of mac msgpack bytes secret

  abbrev pub IsExplained : List BeaconPayload → Bytes → Type 0
  IsExplained log packet = IsUnsigned mac msgpack secret packet ⊎ IsSent log packet

  pub IsExplained-later :
      (log : List BeaconPayload) (p : BeaconPayload) (packet : Bytes)
      → IsExplained log packet
      → IsExplained (p ∷ log) packet
  IsExplained-later log p packet (inl unsigned) = inl unsigned
  IsExplained-later log p packet (inr s) = inr (record {
    payload = s.payload;
    among = later s.among;
    typed = s.typed;
    bytes = s.bytes;
    marshalled = s.marshalled;
    signed = s.signed;
  })

  -- A payload that is taken has been sent, if the datagram is explained.
  pub taken_IsSent :
      (log : List BeaconPayload) (now : ℤ) (packet : Bytes) (p : BeaconPayload)
      → IsExplained log packet
      → Listener.check_packet mac msgpack secret now (received packet) ≡ accepted p
      → Among p log × IsTyped p × (is_stale_stamp now p.timestamp ≡ false)
  taken_IsSent log now packet p (inl unsigned) taken =
      let s = (check_packet_iff mac msgpack secret now (received packet) p).0 taken in
      absurd (unsigned s.bytes s.splits)
  taken_IsSent log now packet p (inr h) taken =
      let s = (check_packet_iff mac msgpack secret now (received packet) p).0 taken in
      let same : s.bytes ≡ h.bytes =
        sym (drop-packet_of mac msgpack secret s.bytes)
        ∙ ap (λ q. drop hmac_size q) (sym s.splits ∙ h.signed)
        ∙ drop-packet_of mac msgpack secret h.bytes in
      let again = msgpack.unmarshal-marshal h.payload h.bytes h.typed h.marshalled in
      let whose : h.payload ≡ p = cc (s.decoded, same, again) in
      (rw (← whose) h.among, rw (← whose) h.typed, s.in_time)

  pub broadcast_IsExplained :
      (log : List BeaconPayload) (info : SystemInfo) (stamp : ℤ) (packet : Bytes)
      → IsTyped (payload_of info stamp)
      → send_beacon mac msgpack (some info) stamp secret true ≡ sent packet
      → (length packet ≤ max_packet_size) ⊎ IsUnsigned mac msgpack secret packet
      → IsExplained (payload_of info stamp ∷ log) packet
  broadcast_IsExplained log info stamp packet typed h (inr unsigned) = inl unsigned
  broadcast_IsExplained log info stamp packet typed h (inl short) =
      let (d, marshalled, e) = sent_packet mac msgpack secret info stamp packet h in
      inr (record {
        payload = payload_of info stamp;
        among = first;
        typed = typed;
        bytes = d;
        marshalled = marshalled;
        signed = received_whole packet short ∙ e;
      })
