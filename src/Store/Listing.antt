-- ===== src/Store/Listing.antt =====
-- `GetAll` and `GetActive` on a well-formed bucket: what a client learns of each host it is given.
use mathlib.Core.Option.{some-injective}
use lanmon.Prelude.{
  ℕ, ◌≡◌, refl, sym, ◌∙◌, Bool, true, false, some, List, [], ◌∷◌, Text, if◌then◌else◌, text_eq,
  text_eq_iff, text_eq_refl, arith, select, All, Bool-cases, inl, inr, ok, Among, first, later,
}
use lanmon.Prelude.Assoc.{lookup, IsSorted, IsAbove, lookup-IsAbove}
use lanmon.Store.Record.{HostRecord, Stored, json, broken}
use lanmon.Store.Bolt.{Bolt}
use lanmon.Store.Ops.{read_all, get_active}
use lanmon.Store.Invariant.{IsSound, IsSoundAt, IsWellFormed}

-- Each entry of a sorted list is the one that its key finds.
abbrev AllEntries : (Text → Stored → Type 0) → List (Text × Stored) → Type 0
AllEntries P [] = Unit
AllEntries P ((k, s) ∷ m) = P k s × AllEntries P m

lookup_head : (j : Text) (s : Stored) (m : List (Text × Stored)) → lookup j ((j, s) ∷ m) ≡ some s
unfolding lookup
lookup_head j s m = rw (text_eq_refl j) refl

behind_head :
    (j k : Text) (s t : Stored) (m : List (Text × Stored))
    → IsAbove j m
    → lookup k m ≡ some t
    → lookup k ((j, s) ∷ m) ≡ some t
unfolding lookup
behind_head j k s t m above h = elim (Bool-cases (text_eq k j)) [
  | inl same ↦ cc (rw ((text_eq_iff k j).0 same) at h, lookup-IsAbove j m above)
  | inr other ↦ rw other h
]

AllEntries-lookup :
    (P : Text → Stored → Type 0) (m : List (Text × Stored))
    → IsSorted m
    → ((k : Text) (s : Stored) → lookup k m ≡ some s → P k s)
    → AllEntries P m
AllEntries-lookup P [] sorted h = tt
AllEntries-lookup P ((j, s) ∷ m) sorted h = (
  h j s (lookup_head j s m),
  AllEntries-lookup P m sorted.1 (λ k t e. h k t (behind_head j k s t m sorted.0 e)),
)

-- What a listed record is known for: sound, and named by the key that finds it.
pub record IsListed (bolt : Bolt) (now : ℕ) (b : bolt.Bucket) (r : HostRecord) : Type 0 where
  pub sound : IsSound now r
  pub key : Text
  pub found : bolt.get b key ≡ some (json r)

Among-cons_select :
    (r s : HostRecord) (rest : List HostRecord)
    → Among r rest
    → Among r (if s.active then s ∷ rest else rest)
Among-cons_select r s rest a = elim s.active as (λ b. Among r (if b then s ∷ rest else rest)) [
  | true ↦ later a
  | false ↦ a
]

abbrev active_of : List (Text × Stored) → List HostRecord
active_of m = select (λ r. r.active) (read_all m)

Among-active_of :
    (k : Text) (r : HostRecord) (m : List (Text × Stored))
    → lookup k m ≡ some (json r)
    → r.active ≡ true
    → Among r (active_of m)
unfolding lookup
Among-active_of k r [] h a = cc
Among-active_of k r ((j, s) ∷ m) h a = elim (Bool-cases (text_eq k j)) [
  | inl same ↦ let e = some-injective s (json r) (rw same at h) in rw e (rw a first)
  | inr other ↦ Among-entry r s m (Among-active_of k r m (rw other at h) a)
]
  where
    Among-entry :
        (r : HostRecord) (s : Stored) (m : List (Text × Stored))
        → Among r (active_of m)
        → Among r (active_of ((j, s) ∷ m))
    Among-entry r (json t) m i = Among-cons_select r t (active_of m) i
    Among-entry r (broken t) m i = i

record_listed :
    (k : Text) (r : HostRecord) (m : List (Text × Stored))
    → lookup k m ≡ some (json r)
    → Among r (read_all m)
unfolding lookup
record_listed k r [] h = cc
record_listed k r ((j, s) ∷ m) h = elim (Bool-cases (text_eq k j)) [
  | inl same ↦ let e = some-injective s (json r) (rw same at h) in rw e first
  | inr other ↦ behind s (record_listed k r m (rw other at h))
]
  where
    behind : (s : Stored) → Among r (read_all m) → Among r (read_all ((j, s) ∷ m))
    behind (json t) i = later i
    behind (broken t) i = i

All-cons_if :
    (P : HostRecord → Type 0) (on : Bool) (r : HostRecord) (rest : List HostRecord)
    → (on ≡ true → P r)
    → All P rest
    → All P (if on then r ∷ rest else rest)
All-cons_if P true r rest h all = (h refl, all)
All-cons_if P false r rest h all = all

module _ (bolt : Bolt) (now : ℕ) (b : bolt.Bucket) where
  open bolt use {entries, get, get-entries}

  abbrev pub IsActive : HostRecord → Type 0
  IsActive r = (r.active ≡ true) × IsListed bolt now b r

  All-active_of :
      (m : List (Text × Stored))
      → AllEntries (λ k s. (get b k ≡ some s) × IsSoundAt now k s) m
      → All IsActive (active_of m)
  All-active_of [] h = tt
  All-active_of ((k, broken r) ∷ m) h = All-active_of m h.1
  All-active_of ((k, json r) ∷ m) h =
      All-cons_if IsActive r.active r (active_of m)
        (λ on. (on, record { sound = h.0.1.0; key = k; found = h.0.0 })) (All-active_of m h.1)

  -- `GetActive` gives exactly the active hosts: each record it returns is active, sound and the one
  -- stored under its key, and each active record of the bucket that decodes is returned.
  pub get_active_exact :
      (rs : List HostRecord)
      → IsWellFormed bolt now b
      → get_active bolt true b ≡ ok rs
      → All IsActive rs
        × ((k : Text) (r : HostRecord) → get b k ≡ some (json r) → r.active ≡ true → Among r rs)
  unfolding get_active
  get_active_exact rs h e =
      let listed : active_of (entries b) ≡ rs = ground arith in
      let all =
        AllEntries-lookup (λ k s. (get b k ≡ some s) × IsSoundAt now k s) (entries b)
          (bolt.sorted b)
          (λ k s found. let there = get-entries b k ∙ found in (there, h.at k s there)) in
      rw (← listed) (
        All-active_of (entries b) all,
        λ k r found on. Among-active_of k r (entries b) (sym (get-entries b k) ∙ found) on,
      )

  -- An active record that is found is among those that `GetActive` returns, which does not fail.
  pub get_active-lists :
      (k : Text) (r : HostRecord)
      → get b k ≡ some (json r)
      → r.active ≡ true
      → (rs : List HostRecord) × (get_active bolt true b ≡ ok rs) × Among r rs
  unfolding get_active
  get_active-lists k r found on = (
    active_of (entries b),
    refl,
    Among-active_of k r (entries b) (sym (get-entries b k) ∙ found) on,
  )

  -- `GetAll` returns every record that is found, active or not.
  pub Among-read_all :
      (k : Text) (r : HostRecord) → get b k ≡ some (json r) → Among r (read_all (entries b))
  Among-read_all k r found = record_listed k r (entries b) (sym (get-entries b k) ∙ found)
