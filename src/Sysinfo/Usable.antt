-- ===== src/Sysinfo/Usable.antt =====
-- Which interface `getNetworkInfo` takes.
use mathlib.Core.Option.{some-injective}
use mathlib.Core.Path.{subst}
use lanmon.Prelude.{
  ◌≡◌, ◌≢◌, ◌⊎◌, refl, sym, ap, ◌∙◌, Bool, true, false, List, [], ◌∷◌, Bytes, Text, text_eq, Option,
  none, some, ok, err, Bool-cases, Option-cases, inl, inr, Among, first, later,
}
use lanmon.Sysinfo.Net.{IpNet, to4, ip_string, mac_string}
use lanmon.Sysinfo.Interfaces.{
  Addr, ip_net, other_addr, Interface, no_interface, fits, first_address, visit, first_interface,
  target_of, get_network_info,
}

-- The address is an IPv4 one of the list, and lies in the range, if there is one.
pub data HasAddress (target : Option IpNet) (ip : Bytes) : List Addr → Type 0 where
  here_address :
      (a : Bytes) (rest : List Addr)
      → to4 a ≡ some ip
      → fits target ip ≡ true
      → HasAddress target ip (ip_net a ∷ rest)
  next_address :
      (a : Addr) (rest : List Addr) → HasAddress target ip rest → HasAddress target ip (a ∷ rest)

-- The interface may be used, and has such an address.
pub record IsUsable (target : Option IpNet) (ip : Bytes) (i : Interface) : Type 0 where
  pub not_loopback : i.is_loopback ≡ false
  pub is_running : i.is_up ≡ true
  pub has_mac : i.hardware_addr ≢ []
  pub list : List Addr
  pub readable : i.addrs ≡ some list
  pub has_address : HasAddress target ip list

first_address-HasAddress :
    (target : Option IpNet) (addrs : List Addr) (ip : Bytes)
    → first_address target addrs ≡ some ip
    → HasAddress target ip addrs
unfolding first_address
first_address-HasAddress target [] ip h = absurd cc
first_address-HasAddress target (other_addr ∷ rest) ip h =
    next_address other_addr rest (first_address-HasAddress target rest ip h)
first_address-HasAddress target (ip_net a ∷ rest) ip h = elim (Option-cases (to4 a)) [
  | inl long ↦ next_address (ip_net a) rest (first_address-HasAddress target rest ip (rw long at h))
  | inr (v4, short) ↦ elim (Bool-cases (fits target v4)) [
    | inl fine ↦
        let same : v4 ≡ ip = some-injective v4 ip (rw (short, fine) at h) in
        here_address a rest (short ∙ ap some same) (ap (fits target) (sym same) ∙ fine)
    | inr outside ↦
        next_address (ip_net a) rest
          (first_address-HasAddress target rest ip (rw (short, outside) at h))
  ]
]

HasAddress-found :
    (target : Option IpNet) (ip : Bytes) (addrs : List Addr)
    → HasAddress target ip addrs
    → first_address target addrs ≢ none
unfolding first_address
HasAddress-found target ip _ (here_address a rest short fine) = rw (short, fine) (λ h. cc)
HasAddress-found target ip _ (next_address other_addr rest behind) =
    HasAddress-found target ip rest behind
HasAddress-found target ip _ (next_address (ip_net a) rest behind) = elim (Option-cases (to4 a)) [
  | inl long ↦ rw long (HasAddress-found target ip rest behind)
  | inr (v4, short) ↦ elim (Bool-cases (fits target v4)) [
    | inl fine ↦ rw (short, fine) (λ h. cc)
    | inr outside ↦ rw (short, outside) (HasAddress-found target ip rest behind)
  ]
]

-- A round takes a usable interface, or passes over one that is not.
visit-cases :
    (target : Option IpNet) (i : Interface) (behind : Option (Text × Text)) (lo up : Bool)
    (mac : Bytes) (addrs : Option (List Addr))
    → i.is_loopback ≡ lo
    → i.is_up ≡ up
    → i.hardware_addr ≡ mac
    → i.addrs ≡ addrs
    → ((ip : Bytes) × IsUsable target ip i
        × (visit target lo up mac addrs behind ≡ some (mac_string i.hardware_addr, ip_string ip)))
      ⊎ (((ip : Bytes) → ¬ IsUsable target ip i) × (visit target lo up mac addrs behind ≡ behind))
unfolding text_eq
visit-cases target i behind true up mac addrs e1 e2 e3 e4 =
    inr ((λ ip u. let n = u.not_loopback in cc), refl)
visit-cases target i behind false false mac addrs e1 e2 e3 e4 =
    inr ((λ ip u. let n = u.is_running in cc), refl)
visit-cases target i behind false true [] addrs e1 e2 e3 e4 = inr ((λ ip u. u.has_mac e3), refl)
visit-cases target i behind false true (c ∷ mac) none e1 e2 e3 e4 =
    inr ((λ ip u. let n = u.readable in cc), refl)
visit-cases target i behind false true (c ∷ mac) (some addrs) e1 e2 e3 e4 =
    elim (Option-cases (first_address target addrs)) [
      | inl none_fits ↦ inr (unusable none_fits, rw none_fits refl)
      | inr (ip, found) ↦ inl (
        ip,
        record {
          not_loopback = e1;
          is_running = e2;
          has_mac = λ h. let n = e3 in cc;
          list = addrs;
          readable = e4;
          has_address = first_address-HasAddress target addrs ip found;
        },
        rw (found, e3) refl,
      )
    ]
  where
    unusable : first_address target addrs ≡ none → (ip : Bytes) → ¬ IsUsable target ip i
    unusable none_fits ip u =
        let same : u.list ≡ addrs = some-injective u.list addrs (sym u.readable ∙ e4) in
        HasAddress-found target ip addrs (subst (HasAddress target ip) same u.has_address) none_fits

-- The loop finds the first usable interface, or there is none.
first_interface-exact :
    (target : Option IpNet) (interfaces : List Interface)
    → ((i : Interface) × (ip : Bytes) × Among i interfaces
        × IsUsable target ip i
        × (first_interface target interfaces ≡ some (mac_string i.hardware_addr, ip_string ip)))
      ⊎ (((i : Interface) (ip : Bytes) → Among i interfaces → ¬ IsUsable target ip i)
          × (first_interface target interfaces ≡ none))
unfolding first_interface
first_interface-exact target [] = inr ((λ i ip a. no_member a), refl)
  where
    no_member : {i : Interface} {A : Type 0} → Among i [] → A
    no_member a = elim a [ ]
first_interface-exact target (j ∷ rest) =
    elim (visit-cases target j (first_interface target rest) j.is_loopback j.is_up j.hardware_addr
      j.addrs refl refl refl refl) [
        | inl (ip, usable, taken) ↦ inl (j, ip, first, usable, taken)
        | inr (unusable, passed) ↦ elim (first_interface-exact target rest) [
          | inl (i, ip, among, usable, taken) ↦ inl (i, ip, later among, usable, passed ∙ taken)
          | inr (none_there, nothing) ↦ inr (extend rest none_there unusable, passed ∙ nothing)
        ]
      ]
  where
    extend :
        (rest : List Interface)
        → ((i : Interface) (ip : Bytes) → Among i rest → ¬ IsUsable target ip i)
        → ((ip : Bytes) → ¬ IsUsable target ip j)
        → (i : Interface) (ip : Bytes) → Among i (j ∷ rest)
        → ¬ IsUsable target ip i
    extend rest none_there unusable i ip first = unusable ip
    extend rest none_there unusable i ip (later among) = none_there i ip among

-- With a range that is empty or parses, and interfaces that can be listed, the addresses are those
-- of an interface that is up, no loopback, has a hardware address and an IPv4 address inside the
-- range; only where there is no such interface is it an error.
pub get_network_info_exact :
    (parse_cidr : Text → Option IpNet) (interfaces : List Interface) (range : Text)
    (target : Option IpNet)
    → target_of parse_cidr range ≡ ok target
    → ((i : Interface) × (ip : Bytes) × Among i interfaces
        × IsUsable target ip i
        × (get_network_info parse_cidr (some interfaces) range
            ≡ ok (mac_string i.hardware_addr, ip_string ip)))
      ⊎ (((i : Interface) (ip : Bytes) → Among i interfaces → ¬ IsUsable target ip i)
          × (get_network_info parse_cidr (some interfaces) range ≡ err no_interface))
unfolding get_network_info
get_network_info_exact parse_cidr interfaces range target parsed =
    elim (first_interface-exact target interfaces) [
      | inl (i, ip, among, usable, taken) ↦ inl (i, ip, among, usable, rw (parsed, taken) refl)
      | inr (none_there, nothing) ↦ inr (none_there, rw (parsed, nothing) refl)
    ]
