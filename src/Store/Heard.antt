-- ===== src/Store/Heard.antt =====
-- Beacons with the clocks at which they come to the store, and the orders in which they can come.
use mathlib.Core.Path.{subst}
use mathlib.Core.List.{Permᴰ, head-eq_of_cons-eq, tail-eq_of_cons-eq}
use mathlib.Core.List.Permᴰ
use lanmon.Prelude.{map, ℕ, ◌≡◌, ◌≢◌, refl, sym, true, List, [], ◌∷◌, All}
use lanmon.Beacon.Payload.{BeaconPayload}
use lanmon.Store.Registry.{Call, upserting}

-- A beacon, and the clock when its handler comes to the store.
abbrev pub Heard : Type 0
Heard = ℕ × BeaconPayload

abbrev pub calls : List Heard → List Call
calls [] = []
calls ((at, p) ∷ hs) = upserting true at p ∷ calls hs

abbrev pub beacons : List Heard → List BeaconPayload
beacons = map (λ h. h.1)

abbrev pub Differs : Heard → Heard → Type 0
Differs g h = g.1.mac_address ≢ h.1.mac_address

-- No two of the beacons are of the same host.
abbrev pub IsDistinct : List Heard → Type 0
IsDistinct [] = Unit
IsDistinct (h ∷ hs) = All (Differs h) hs × IsDistinct hs

pub All-Permᴰ {κ} : (P : Heard → Type κ) {hs gs : List Heard} → Permᴰ hs gs → All P hs → All P gs
All-Permᴰ P Permᴰ.nil all = tt
All-Permᴰ P (Permᴰ.cons e r) all = (rw (← e) all.0, All-Permᴰ P r all.1)
All-Permᴰ P (Permᴰ.swap e f) all = (rw (← f) all.1.0, (rw (← e) all.0, all.1.1))
All-Permᴰ P (Permᴰ.trans r s) all = All-Permᴰ P s (All-Permᴰ P r all)

pub IsDistinct-Permᴰ : {hs gs : List Heard} → Permᴰ hs gs → IsDistinct hs → IsDistinct gs
IsDistinct-Permᴰ Permᴰ.nil d = tt
IsDistinct-Permᴰ (Permᴰ.cons {a = h} e r) d =
    (rw (← e) (All-Permᴰ (Differs h) r d.0), IsDistinct-Permᴰ r d.1)
IsDistinct-Permᴰ (Permᴰ.swap {l = l} e f) d = (
  (rw (← e, ← f) (λ same. d.0.0 (sym same)), subst (λ h. All (Differs h) l) f d.1.0),
  (subst (λ h. All (Differs h) l) e d.0.1, d.1.1),
)
IsDistinct-Permᴰ (Permᴰ.trans r s) d = IsDistinct-Permᴰ s (IsDistinct-Permᴰ r d)

-- The same beacons as in a permutation of them, each with its clock.
pub lift_perm :
    {ps qs : List BeaconPayload} (hs : List Heard)
    → Permᴰ ps qs
    → beacons hs ≡ ps
    → (gs : List Heard) × Permᴰ hs gs × (beacons gs ≡ qs)
lift_perm hs Permᴰ.nil e = (hs, Permᴰ.refl hs, e)
lift_perm [] (Permᴰ.cons f r) e = absurd cc
lift_perm (h ∷ hs) (Permᴰ.cons f r) e =
    let (gs, shuffled, same) = lift_perm hs r (tail-eq_of_cons-eq e) in
    (h ∷ gs, Permᴰ.cons refl shuffled, cc (head-eq_of_cons-eq e, f, same))
lift_perm [] (Permᴰ.swap f g) e = absurd cc
lift_perm (h ∷ []) (Permᴰ.swap f g) e = absurd (cc (tail-eq_of_cons-eq e))
lift_perm (h ∷ i ∷ hs) (Permᴰ.swap f g) e =
    let rest = tail-eq_of_cons-eq e in
    (
      i ∷ h ∷ hs,
      Permᴰ.swap refl refl,
      cc (head-eq_of_cons-eq e, head-eq_of_cons-eq rest, tail-eq_of_cons-eq rest, f, g),
    )
lift_perm hs (Permᴰ.trans r t) e =
    let (gs, one, same) = lift_perm hs r e in
    let (fs, two, there) = lift_perm gs t same in (fs, Permᴰ.trans one two, there)

-- The same beacons with other clocks are of different hosts too.
pub All-Differs :
    (h g : Heard) (hs gs : List Heard)
    → h.1 ≡ g.1
    → beacons hs ≡ beacons gs
    → All (Differs h) hs
    → All (Differs g) gs
All-Differs h g [] [] e same all = tt
All-Differs h g [] (j ∷ gs) e same all = absurd cc
All-Differs h g (i ∷ hs) [] e same all = absurd cc
All-Differs h g (i ∷ hs) (j ∷ gs) e same all = (
  subst (λ q. q.mac_address ≢ j.1.mac_address) e
      (subst (λ q. h.1.mac_address ≢ q.mac_address) (head-eq_of_cons-eq same) all.0),
  All-Differs h g hs gs e (tail-eq_of_cons-eq same) all.1,
)

pub IsDistinct-beacons :
    (hs gs : List Heard) → beacons hs ≡ beacons gs → IsDistinct hs → IsDistinct gs
IsDistinct-beacons [] [] same d = tt
IsDistinct-beacons [] (g ∷ gs) same d = absurd cc
IsDistinct-beacons (h ∷ hs) [] same d = absurd cc
IsDistinct-beacons (h ∷ hs) (g ∷ gs) same d = (
  All-Differs h g hs gs (head-eq_of_cons-eq same) (tail-eq_of_cons-eq same) d.0,
  IsDistinct-beacons hs gs (tail-eq_of_cons-eq same) d.1,
)
