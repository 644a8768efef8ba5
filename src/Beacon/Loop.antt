-- ===== src/Beacon/Loop.antt =====
-- `StartBeacon` of internal/beacon/broadcast.go: the targets, the set-up, and the loop over the ticks.
use mathlib.Core.Option.{some-injective}
use lanmon.Prelude.{
  Bytes, ℕ, zero, suc, ◌+◌, ◌≡◌, refl, ap, ◌∙◌, Bool, true, List, [], ◌∷◌, ◌++◌, Option, none, some,
  Text, text_eq, if◌then◌else◌, length, get_elem?, arith, ◌||◌, ◌⊎◌, inl, inr, Result, ok, err,
  ◌>>=◌, or_error,
}
use lanmon.Go.Int.{ℤ, pos, negsuc}
use lanmon.Go.Decimal.{format_int}
use lanmon.Sysinfo.{SystemInfo}
use lanmon.Beacon.Hmac.{Mac}
use lanmon.Beacon.Packet.{Msgpack, Sent, sent, send_beacon, send_beacon-sent, payload_of, packet_of}

-- What the system answers: `net.ResolveUDPAddr`, which gives the address by its text, whether a UDP
-- socket opens, and which interfaces there are.
pub record Network : Type 0 where
  pub resolve : Text → Option Text
  pub listens : Bool
  pub has_interface : Text → Bool

-- The answers to one sending: `sysinfo.Collect`, the clock, and whether the write succeeds.
pub record Attempt : Type 0 where
  pub info : Option SystemInfo
  pub stamp : ℤ
  pub writes : Bool

pub data BeaconError : Type 0 where
  resolving_group listening no_interface : BeaconError

-- `fmt.Sprintf("%s:%d", host, port)`
unfoldable pub endpoint : Text → ℤ → Text
unfolding format_int
endpoint host port = host ++ (b':' ∷ format_int port)

-- How a starting loop ends up: an error, a panic, or rounds of sendings by target.
pub data Course (E A : Type 0) : Type 0 where
  refused : E → Course E A
  panicked : Course E A
  running : A → Course E A

-- `time.NewTicker` panics unless the interval is positive.
abbrev pub ticking : {E A : Type 0} → ℤ → A → Course E A
ticking (pos zero) rounds = panicked
ticking (pos (suc n)) rounds = running rounds
ticking (negsuc n) rounds = panicked

abbrev pub course_of : {E A B : Type 0} → (A → Course E B) → Result E A → Course E B
course_of next (err e) = refused e
course_of next (ok a) = next a

module _ (net : Network) where
  -- The server is optional, and left out with a warning where it does not resolve.
  abbrev pub server_target : Text → ℤ → List Text
  server_target server port =
      if text_eq server []
      then []
      else elim (net.resolve (endpoint server port)) [ none ↦ [] | some a ↦ a ∷ [] ]

  unfoldable pub beacon_targets : Text → Text → ℤ → Result BeaconError (List Text)
  unfolding endpoint
  beacon_targets group server port = do
    m ← or_error resolving_group (net.resolve (endpoint group port))
    ok (m ∷ server_target server port)

  -- The socket, and the interface if one is named; its options are only logged.
  abbrev pub opened : Text → List Text → Result BeaconError (List Text)
  opened iface targets =
      if net.listens
      then if text_eq iface [] || net.has_interface iface then ok targets else err no_interface
      else err listening

module _ (mac : Mac) (msgpack : Msgpack) (secret : Text) where
  abbrev pub sending : Attempt → Sent
  sending t = send_beacon mac msgpack t.info t.stamp secret t.writes

  -- `broadcast`: one sending to each target in turn; a failed one is logged.
  unfoldable pub broadcast_from : (ℕ → Attempt) → ℕ → List Text → List (Text × Sent)
  broadcast_from attempt i [] = []
  broadcast_from attempt i (a ∷ targets) =
      (a, sending (attempt i)) ∷ broadcast_from attempt (suc i) targets

  -- `for range ticker.C`
  unfoldable pub tick_rounds : List Text → List (ℕ → Attempt) → List (List (Text × Sent))
  unfolding broadcast_from
  tick_rounds targets [] = []
  tick_rounds targets (attempt ∷ ticks) =
      broadcast_from attempt 0 targets ∷ tick_rounds targets ticks

  -- One round in front of the ticker's loop, whether or not it ever ticks, and one for each tick.
  unfoldable pub beacon_loop :
      List Text → (ℕ → Attempt) → List (ℕ → Attempt) → List (List (Text × Sent))
  unfolding tick_rounds
  beacon_loop targets first ticks = broadcast_from first 0 targets ∷ tick_rounds targets ticks

  -- `StartBeacon`, for as many ticks as there are answers.
  unfoldable pub start_beacon :
      Network
      → Text
      → Text
      → Text
      → ℤ
      → ℤ
      → (ℕ → Attempt)
      → List (ℕ → Attempt)
      → Course BeaconError (List (List (Text × Sent)))
  unfolding beacon_targets beacon_loop
  start_beacon net iface group server port interval first ticks =
      course_of (λ targets. ticking interval (beacon_loop targets first ticks))
        (beacon_targets net group server port >>= opened net iface)

  get_elem?-broadcast_from :
      (attempt : ℕ → Attempt) (i j : ℕ) (targets : List Text) (a : Text)
      → get_elem? targets j ≡ some a
      → get_elem? (broadcast_from attempt i targets) j ≡ some (a, sending (attempt (i + j)))
  unfolding broadcast_from
  get_elem?-broadcast_from attempt i j [] a at = absurd cc
  get_elem?-broadcast_from attempt i zero (b ∷ targets) a at =
      let same : i ≡ i + 0 = omega arith in
      ap (λ n. some (b, sending (attempt n))) same
      ∙ ap (λ c. some (c, sending (attempt (i + 0)))) (some-injective b a at)
  get_elem?-broadcast_from attempt i (suc j) (b ∷ targets) a at =
      let same : suc i + j ≡ i + suc j = omega arith in
      get_elem?-broadcast_from attempt (suc i) j targets a at
      ∙ ap (λ n. some (a, sending (attempt n))) same

  get_elem?-tick_rounds :
      (k : ℕ) (targets : List Text) (ticks : List (ℕ → Attempt)) (attempt : ℕ → Attempt)
      → get_elem? ticks k ≡ some attempt
      → get_elem? (tick_rounds targets ticks) k ≡ some (broadcast_from attempt 0 targets)
  unfolding tick_rounds
  get_elem?-tick_rounds k targets [] attempt at = absurd cc
  get_elem?-tick_rounds zero targets (t ∷ ticks) attempt at =
      ap (λ f. some (broadcast_from f 0 targets)) (some-injective t attempt at)
  get_elem?-tick_rounds (suc k) targets (t ∷ ticks) attempt at =
      get_elem?-tick_rounds k targets ticks attempt at

  get_elem?-beacon_loop :
      (k : ℕ) (targets : List Text) (first : ℕ → Attempt) (ticks : List (ℕ → Attempt))
      (attempt : ℕ → Attempt)
      → get_elem? (first ∷ ticks) k ≡ some attempt
      → get_elem? (beacon_loop targets first ticks) k ≡ some (broadcast_from attempt 0 targets)
  unfolding beacon_loop
  get_elem?-beacon_loop zero targets first ticks attempt at =
      ap (λ f. some (broadcast_from f 0 targets)) (some-injective first attempt at)
  get_elem?-beacon_loop (suc k) targets first ticks attempt at =
      get_elem?-tick_rounds k targets ticks attempt at

  length-tick_rounds :
      (targets : List Text) (ticks : List (ℕ → Attempt))
      → length (tick_rounds targets ticks) ≡ length ticks
  unfolding tick_rounds
  length-tick_rounds targets [] = refl
  length-tick_rounds targets (t ∷ ticks) = ap suc (length-tick_rounds targets ticks)

  length-beacon_loop :
      (targets : List Text) (first : ℕ → Attempt) (ticks : List (ℕ → Attempt))
      → length (beacon_loop targets first ticks) ≡ suc (length ticks)
  unfolding beacon_loop
  length-beacon_loop targets first ticks = ap suc (length-tick_rounds targets ticks)

  -- What a beacon that has been started has done: one round more than there were ticks, and in the
  -- round `k`, where 0 is the one in front of the ticks, the packet went out to the target `j`.
  pub record IsSending (ticks : ℕ) (rounds : List (List (Text × Sent))) (k j : ℕ) (target : Text)
      (packet : Bytes) : Type 0 where
    pub rounds_made : length rounds ≡ suc ticks
    pub round : List (Text × Sent)
    pub made : get_elem? rounds k ≡ some round
    pub out : get_elem? round j ≡ some (target, sent packet)

  -- An attempt with nothing in its way puts a signed packet on the wire.
  sending-sent :
      (t : Attempt) (info : SystemInfo) (bytes : Bytes)
      → t.info ≡ some info
      → msgpack.marshal (payload_of info t.stamp) ≡ some bytes
      → t.writes ≡ true
      → sending t ≡ sent (packet_of mac msgpack bytes secret)
  sending-sent t info bytes collected marshalled written =
      ap (λ o. send_beacon mac msgpack o t.stamp secret t.writes) collected
      ∙ ap (send_beacon mac msgpack (some info) t.stamp secret) written
      ∙ send_beacon-sent mac msgpack info t.stamp secret bytes marshalled

  -- Where the group resolves, a socket opens, the interface is there and the interval is positive,
  -- the beacon runs and makes a round at the start and one at every tick. In each of them, whatever
  -- became of the other sendings, the group and the server, if there is one that resolves, are sent
  -- the signed payload of the machine, if its facts can be collected and marshalled and the write
  -- works.
  pub start_beacon-IsSending :
      (net : Network) (iface group server : Text) (port : ℤ) (n : ℕ) (first : ℕ → Attempt)
      (ticks : List (ℕ → Attempt)) (m : Text) (k j : ℕ) (attempt : ℕ → Attempt) (target : Text)
      (info : SystemInfo) (bytes : Bytes)
      → net.resolve (endpoint group port) ≡ some m
      → net.listens ≡ true
      → (iface ≡ []) ⊎ (net.has_interface iface ≡ true)
      → get_elem? (first ∷ ticks) k ≡ some attempt
      → get_elem? (m ∷ server_target net server port) j ≡ some target
      → (attempt j).info ≡ some info
      → msgpack.marshal (payload_of info (attempt j).stamp) ≡ some bytes
      → (attempt j).writes ≡ true
      → (rounds : List (List (Text × Sent))) × (start_beacon net iface group server port
            (pos (suc n))
            first
            ticks
          ≡ running rounds)
        × IsSending (length ticks) rounds k j target (packet_of mac msgpack bytes secret)
  unfolding start_beacon beacon_targets text_eq
  start_beacon-IsSending net iface group server port n first ticks m k j attempt target info bytes
        resolved listens there at_round at_target collected marshalled written =
      let targets = m ∷ server_target net server port in
      let same : 0 + j ≡ j = omega arith in
      (
        beacon_loop targets first ticks,
        rw (resolved, listens, has_one there) refl,
        record {
          rounds_made = length-beacon_loop targets first ticks;
          round = broadcast_from attempt 0 targets;
          made = get_elem?-beacon_loop k targets first ticks attempt at_round;
          out =
              get_elem?-broadcast_from attempt 0 j targets target at_target
              ∙ ap (λ n. some (target, sending (attempt n))) same
              ∙ ap (λ s. some (target, s))
                  (sending-sent (attempt j) info bytes collected marshalled written);
        },
      )
    where
      has_one :
          (iface ≡ []) ⊎ (net.has_interface iface ≡ true)
          → (text_eq iface [] || net.has_interface iface) ≡ true
      has_one (inl unnamed) = rw unnamed refl
      has_one (inr found) = ground arith
