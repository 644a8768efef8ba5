-- ===== src/Store/Shuffle.antt =====
-- The order in which the handlers of many hosts come to the store makes no difference.
use mathlib.Core.Logic.{∥∥₁_elim}
use mathlib.Core.HLevel.{×_prop}
use mathlib.Core.List.{Perm, Permᴰ, head-eq_of_cons-eq, tail-eq_of_cons-eq}
use mathlib.Core.Option
use lanmon.Prelude.{
  Option, some, none, if◌then◌else◌, text_eq, Bool-cases, inl, inr, ℕ, ◌≡◌, refl, sym, ap, ◌∙◌,
  true, List, [], ◌∷◌, Text, All,
}
use lanmon.Prelude.Assoc.{lookup}
use lanmon.Beacon.Payload.{BeaconPayload}
use lanmon.Store.Record.{HostRecord, Stored, json, broken, clean}
use lanmon.Store.Bolt.{Bolt}
use lanmon.Store.Ops.{next_record, upsert}
use lanmon.Store.Upsert.{Upserted, upsert-Upserted, IsStorable, upsert-IsStorable}
use lanmon.Store.Registry.{Answer, done, perform, perform_all}
use lanmon.Store.Commute.{still_IsStorable, upsert-upsert}
use lanmon.Store.Heard.{
  Heard, calls, beacons, Differs, IsDistinct, All-Permᴰ, IsDistinct-Permᴰ, lift_perm, All-Differs,
  IsDistinct-beacons,
}

-- A text without the times of the beacons.
abbrev untimed_record : HostRecord → HostRecord
untimed_record r = record r { first_seen = 0; last_seen = 0 }

abbrev untimed_text : Stored → Stored
untimed_text (json r) = json (untimed_record r)
untimed_text (broken r) = broken (untimed_record r)

abbrev pub untimed : Option Stored → Option Stored
untimed = Option.map untimed_text

-- The clock of a beacon comes into nothing but the times.
next_record-untimed :
    (p : BeaconPayload) (at : ℕ) (o : Option Stored)
    → untimed_record (clean (next_record p at o))
      ≡ untimed_record (clean (next_record p 0 (untimed o)))
next_record-untimed p at none = refl
next_record-untimed p at (some (json r)) = refl
next_record-untimed p at (some (broken r)) = refl

Text-IsSet : IsSet (Option Stored)
Text-IsSet = hlevel

Answer-IsSet : IsSet Answer
Answer-IsSet = hlevel

All-IsProp {ℓ κ} :
    {A : Type ℓ} (P : A → Type κ) (xs : List A) → ((x : A) → IsProp (P x)) → IsProp (All P xs)
All-IsProp P [] each = hlevel
All-IsProp P (x ∷ xs) each = ×_prop (each x) (All-IsProp P xs each)

module _ (bolt : Bolt) where
  open bolt use {Bucket, entries, get, get-entries}

  abbrev Alike : Bucket → Bucket → Type 0
  Alike b c = (k : Text) → get b k ≡ get c k

  -- BoltDB takes the record that a beacon makes of its host.
  abbrev pub CanStore : Bucket → Heard → Type 0
  CanStore b (at, p) = IsStorable bolt at p b

  -- The bucket behind the beacons.
  abbrev behind : List Heard → Bucket → Bucket
  behind hs b = (perform_all bolt (calls hs) b).0

  abbrev stored : Heard → Bucket → Bucket
  stored (at, p) b = (upsert bolt true at p b).0

  behind-cons :
      (h : Heard) (hs : List Heard) (b : Bucket) → behind (h ∷ hs) b ≡ behind hs (stored h b)
  unfolding perform_all perform
  behind-cons h hs b = refl

  stored-Upserted : (h : Heard) (b : Bucket) → CanStore b h → Upserted bolt h.0 h.1 b (stored h b)
  stored-Upserted (at, p) b can =
      upsert-Upserted bolt true at p b (upsert-IsStorable bolt at p b can)

  -- The others can still be stored behind one of them.
  All-CanStore :
      (h : Heard) (hs : List Heard) (b : Bucket)
      → All (Differs h) hs
      → CanStore b h
      → All (CanStore b) hs
      → All (CanStore (stored h b)) hs
  All-CanStore h [] b others can all = tt
  All-CanStore h (g ∷ hs) b others can all = (
    still_IsStorable bolt h.1 g.1 h.0 g.0 b (stored h b) others.0 (stored-Upserted h b can) all.0,
    All-CanStore h hs b others.1 can all.1,
  )

  Alike-CanStore : (h : Heard) (b c : Bucket) → Alike b c → CanStore b h → CanStore c h
  Alike-CanStore (at, p) b c same can = record {
    encodable = rw (← same p.mac_address) can.encodable;
    named = can.named;
    short = can.short;
    small = rw (← same p.mac_address) can.small;
  }

  All-Alike-CanStore :
      (hs : List Heard) (b c : Bucket) → Alike b c → All (CanStore b) hs → All (CanStore c) hs
  All-Alike-CanStore [] b c same all = tt
  All-Alike-CanStore (h ∷ hs) b c same all =
      (Alike-CanStore h b c same all.0, All-Alike-CanStore hs b c same all.1)

  stored-Alike :
      (h : Heard) (b c : Bucket) → Alike b c → CanStore b h → Alike (stored h b) (stored h c)
  stored-Alike h b c same can k =
      (stored-Upserted h b can).here k
      ∙ rw (same k, same h.1.mac_address) refl
      ∙ sym ((stored-Upserted h c (Alike-CanStore h b c same can)).here k)

  behind-Alike :
      (hs : List Heard) (b c : Bucket)
      → IsDistinct hs
      → All (CanStore b) hs
      → Alike b c
      → Alike (behind hs b) (behind hs c)
  unfolding perform_all perform
  behind-Alike [] b c distinct all same = same
  behind-Alike (h ∷ hs) b c distinct all same =
      behind-Alike hs (stored h b) (stored h c) distinct.1
        (All-CanStore h hs b distinct.0 all.0 all.1) (stored-Alike h b c same all.0)

  swapped-Alike :
      (h g : Heard) (b : Bucket)
      → Differs h g
      → CanStore b h
      → CanStore b g
      → Alike (stored g (stored h b)) (stored h (stored g b))
  swapped-Alike (at, p) (at', q) b other can_p can_q k =
      let c = (upsert bolt true at' q (upsert bolt true at p b).0).0 in
      let d = (upsert bolt true at p (upsert bolt true at' q b).0).0 in
      get-entries c k
      ∙ ap (lookup k) (upsert-upsert bolt p q at at' b other can_p can_q).2
      ∙ sym (get-entries d k)

  behind-Permᴰ :
      {hs gs : List Heard} (b : Bucket)
      → Permᴰ hs gs
      → IsDistinct hs
      → All (CanStore b) hs
      → Alike (behind hs b) (behind gs b)
  unfolding perform_all perform
  behind-Permᴰ b Permᴰ.nil d all = λ k. refl
  behind-Permᴰ b (Permᴰ.cons {a = h} e r) d all =
      rw (← e) (behind-Permᴰ (stored h b) r d.1 (All-CanStore h _ b d.0 all.0 all.1))
  behind-Permᴰ b (Permᴰ.swap {a = h} {b = g} {l = hs} e f) d all =
      rw (← e, ← f)
        (behind-Alike hs (stored g (stored h b)) (stored h (stored g b)) d.1.1
          (All-CanStore g hs (stored h b) d.1.0 (All-CanStore h (g ∷ hs) b d.0 all.0 all.1).0
            (All-CanStore h (g ∷ hs) b d.0 all.0 all.1).1)
          (swapped-Alike h g b d.0.0 all.0 all.1.0))
  behind-Permᴰ b (Permᴰ.trans r s) d all = λ k.
      behind-Permᴰ b r d all k
      ∙ behind-Permᴰ b s (IsDistinct-Permᴰ r d) (All-Permᴰ (CanStore b) r all) k

  storable_done :
      (hs : List Heard) (b : Bucket)
      → IsDistinct hs
      → All (CanStore b) hs
      → All (λ a. a ≡ done) (perform_all bolt (calls hs) b).1
  unfolding perform_all perform
  storable_done [] b d all = tt
  storable_done ((at, p) ∷ hs) b d all = (
    rw (upsert-IsStorable bolt at p b all.0) refl,
    storable_done hs (stored (at, p) b) d.1 (All-CanStore (at, p) hs b d.0 all.0 all.1),
  )

  abbrev Near : Bucket → Bucket → Type 0
  Near b c = (k : Text) → untimed (get b k) ≡ untimed (get c k)

  -- What is found behind a beacon, but for the times.
  stored-untimed :
      (h : Heard) (b : Bucket) (k : Text)
      → CanStore b h
      → untimed (get (stored h b) k) ≡ (
          if text_eq k h.1.mac_address
          then some
              (json (untimed_record (clean (next_record h.1 0 (untimed (get b h.1.mac_address))))))
          else untimed (get b k))
  stored-untimed h b k can =
      ap untimed ((stored-Upserted h b can).here k)
      ∙ elim (Bool-cases (text_eq k h.1.mac_address)) [
        | inl same ↦
            rw same (ap (λ r. some (json r)) (next_record-untimed h.1 h.0 (get b h.1.mac_address)))
        | inr other ↦ rw other refl
      ]

  stored-Near :
      (h g : Heard) (b c : Bucket)
      → h.1 ≡ g.1
      → Near b c
      → CanStore b h
      → CanStore c g
      → Near (stored h b) (stored g c)
  stored-Near (at, p) (at', q) b c same near can can' k =
      stored-untimed (at, p) b k can
      ∙ rw (same, near q.mac_address, near k) refl
      ∙ sym (stored-untimed (at', q) c k can')

  behind-Near :
      (hs gs : List Heard) (b c : Bucket)
      → beacons hs ≡ beacons gs
      → Near b c
      → IsDistinct hs
      → All (CanStore b) hs
      → All (CanStore c) gs
      → Near (behind hs b) (behind gs c)
  unfolding perform_all perform
  behind-Near [] [] b c same near d can can' = near
  behind-Near [] (g ∷ gs) b c same near d can can' = absurd cc
  behind-Near (h ∷ hs) [] b c same near d can can' = absurd cc
  behind-Near (h ∷ hs) (g ∷ gs) b c same near d can can' =
      let rest = tail-eq_of_cons-eq same in
      behind-Near hs gs (stored h b) (stored g c) rest
        (stored-Near h g b c (head-eq_of_cons-eq same) near can.0 can'.0) d.1
        (All-CanStore h hs b d.0 can.0 can.1)
        (All-CanStore g gs c (All-Differs h g hs gs (head-eq_of_cons-eq same) rest d.0) can'.0
          can'.1)

  -- Where BoltDB works and takes the records of the beacons of any number of hosts, one of each,
  -- their handlers can come to the store in any order, whatever the clock shows to each of them:
  -- every upsert is done, and behind every order the bucket holds the same under every key, but for
  -- the times at which the hosts were first and last seen.
  pub perform_all-perm :
      (hs gs : List Heard) (b : Bucket)
      → IsDistinct hs
      → All (CanStore b) hs
      → All (CanStore b) gs
      → Perm (beacons hs) (beacons gs)
      → All (λ a. a ≡ done) (perform_all bolt (calls gs) b).1
        × ((k : Text)
            → untimed (get (perform_all bolt (calls hs) b).0 k)
              ≡ untimed (get (perform_all bolt (calls gs) b).0 k))
  perform_all-perm hs gs b d can can' shuffled = (
    ∥∥₁_elim shuffled (All-IsProp _ _ (λ a. Answer-IsSet a done)) (λ r.
        let (fs, moved, same) = lift_perm hs r refl in
        storable_done gs b (IsDistinct-beacons fs gs same (IsDistinct-Permᴰ moved d)) can'),
    λ k. ∥∥₁_elim shuffled (Text-IsSet _ _) (λ r.
        let (fs, moved, same) = lift_perm hs r refl in
        ap untimed (behind-Permᴰ b moved d can k)
        ∙ behind-Near fs gs b b same (λ j. refl) (IsDistinct-Permᴰ moved d)
            (All-Permᴰ (CanStore b) moved can) can' k),
  )
