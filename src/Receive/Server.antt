-- ===== src/Receive/Server.antt =====
-- `StartListener` of internal/listener/listener.go: the socket and the multicast group in front of
-- the read loop.
use Prim.Native.Nat.{bit_and}
use lanmon.Prelude.{
  ℕ, ◌≡◌, ◌↔◌, ◌⊎◌, refl, Bool, true, false, ◌||◌, ◌&&◌, List, [], ◌∷◌, Option, none, some, Bytes,
  Text, text_eq, text_eq_iff, length, ◌==◌, Result, ok, err, ◌>>=◌, or_error, if◌then◌else◌, arith,
  inl, inr, Bool-cases, if-elim, guarded-ok, or_error-ok, >>=-eq-ok,
}
use lanmon.Sysinfo.Net.{to4}
use lanmon.Beacon.Hmac.{Mac}
use lanmon.Beacon.Packet.{Msgpack}
use lanmon.Beacon.Loop.{Course, running, course_of}
use lanmon.Store.Bolt.{Bolt}
use lanmon.Receive.Listener.{Delivery, listen}

pub data ListenError : Type 0 where
  invalid_group finding_interface binding joining : ListenError

-- What the system answers: `net.ParseIP`, which interfaces there are, whether the socket binds, and
-- whether the group can be joined.
pub record GroupNetwork : Type 0 where
  pub parse_ip : Text → Option Bytes
  pub has_interface : Text → Bool
  pub binds : Bool
  pub joins : Bool

abbrev first_byte : Bytes → ℕ
first_byte [] = 0
first_byte (a ∷ ip) = a

abbrev multicast_of : Bytes → Option Bytes → Bool
multicast_of ip (some v4) = bit_and (first_byte v4) 0xF0 == 0xE0
multicast_of ip none = length ip == 16 && first_byte ip == 0xFF

-- `IP.IsMulticast`
unfoldable pub is_multicast : Bytes → Bool
is_multicast ip = multicast_of ip (to4 ip)

module _ (net : GroupNetwork) where
  -- An empty name is no interface, which leaves the choice to the system.
  abbrev pub interface_found : Text → Bool
  interface_found iface = text_eq iface [] || net.has_interface iface

  abbrev pub joined : Bytes → Result ListenError (Unit {0})
  joined group = if is_multicast group then if net.joins then ok tt else err joining else ok tt

  abbrev pub prepared : Text → Bytes → Result ListenError (Unit {0})
  prepared iface group =
      if interface_found iface
      then if net.binds then joined group else err binding
      else err finding_interface

  -- The steps in front of the loop, in their order.
  unfoldable pub join_group : Text → Text → Result ListenError (Unit {0})
  unfolding is_multicast
  join_group iface multicast_group =
      or_error invalid_group (net.parse_ip multicast_group) >>= prepared iface

  or_joined :
      (group : Bytes) → joined group ≡ ok tt → (is_multicast group ≡ false) ⊎ (net.joins ≡ true)
  or_joined group h = elim (Bool-cases (is_multicast group)) [
    | inl multicast ↦ inr (guarded-ok net.joins (ok tt) joining tt (rw multicast at h)).0
    | inr unicast ↦ inl unicast
  ]

  joined_or :
      (group : Bytes) → (is_multicast group ≡ false) ⊎ (net.joins ≡ true) → joined group ≡ ok tt
  joined_or group (inl unicast) = rw unicast refl
  joined_or group (inr joins) =
      rw joins (if-elim (λ r. r ≡ ok tt) (is_multicast group) (λ _. refl) (λ _. refl))

  has_one :
      (iface : Text)
      → (interface_found iface ≡ true) ↔ ((iface ≡ []) ⊎ (net.has_interface iface ≡ true))
  has_one iface = ground (arith, text_eq_iff iface [])

  pub join_group_iff :
      (iface multicast_group : Text)
      → (join_group iface multicast_group ≡ ok tt) ↔ (
          (group : Bytes) × (net.parse_ip multicast_group ≡ some group)
          × ((iface ≡ []) ⊎ (net.has_interface iface ≡ true))
          × (net.binds ≡ true)
          × ((is_multicast group ≡ false) ⊎ (net.joins ≡ true)))
  unfolding join_group
  join_group_iff iface multicast_group = (
    λ h.
        let (group, parsed, ready) =
          >>=-eq-ok (or_error invalid_group (net.parse_ip multicast_group)) (prepared iface) h in
        let (there, more) = guarded-ok (interface_found iface) _ finding_interface tt ready in
        let (binds, joins) = guarded-ok net.binds (joined group) binding tt more in
        (
          group,
          or_error-ok invalid_group (net.parse_ip multicast_group) group parsed,
          (has_one iface).0 there,
          binds,
          or_joined group joins,
        ),
    λ (group, parsed, there, binds, joins).
        rw (parsed, (has_one iface).1 there, binds) (joined_or group joins),
  )

course_running :
    {A : Type 0} (r : Result ListenError (Unit {0})) (x : A)
    → course_of (λ _. running x) r ≡ running x
    → r ≡ ok tt
course_running (err e) x h = absurd cc
course_running (ok _) x h = refl

module _ (net : GroupNetwork) (mac : Mac) (msgpack : Msgpack) (secret : Text) (bolt : Bolt) where
  open bolt use {Bucket}

  -- `StartListener`, for as many rounds as there are deliveries.
  unfoldable pub start_listener : Text → Text → List Delivery → Bucket → Course ListenError Bucket
  unfolding join_group listen
  start_listener iface multicast_group deliveries b =
      course_of (λ _. running (listen mac msgpack secret bolt deliveries b))
        (join_group net iface multicast_group)

  -- The server listens exactly if the group is an address, the interface is there where one is
  -- named, the port is free, and the group can be joined where it is a multicast one; it then
  -- handles every datagram.
  pub start_listener_iff :
      (iface multicast_group : Text) (deliveries : List Delivery) (b : Bucket)
      → (start_listener iface multicast_group deliveries b
          ≡ running (listen mac msgpack secret bolt deliveries b))
        ↔ ((group : Bytes) × (net.parse_ip multicast_group ≡ some group)
            × ((iface ≡ []) ⊎ (net.has_interface iface ≡ true))
            × (net.binds ≡ true)
            × ((is_multicast group ≡ false) ⊎ (net.joins ≡ true)))
  unfolding start_listener
  start_listener_iff iface multicast_group deliveries b = (
    λ h. (join_group_iff net iface multicast_group).0 (
        course_running (join_group net iface multicast_group)
          (listen mac msgpack secret bolt deliveries b) h),
    λ ready. rw ((join_group_iff net iface multicast_group).1 ready) refl,
  )
