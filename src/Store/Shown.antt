-- ===== src/Store/Shown.antt =====
-- A listing of the bucket has the hosts of the registry, once each and in the order of their keys.
use lanmon.Prelude.{
  ◌≡◌, refl, sym, ap, ◌∙◌, Bool, true, List, [], ◌∷◌, Text, text_eq, text_eq_iff, if◌then◌else◌,
  arith, select, Bool-cases, inl, inr,
}
use lanmon.Prelude.Assoc.{lookup, IsSorted, IsAbove, lookup-IsAbove, assoc_ext}
use lanmon.Store.Record.{HostRecord, Stored, json, broken}
use lanmon.Store.Bolt.{Bolt}
use lanmon.Store.Ops.{read_all}
use lanmon.Store.Registry.{Registry, visible, values, Lists}

-- The entries whose records are visible.
abbrev pub shown_entry :
    (HostRecord → Bool) → Text → Stored → List (Text × HostRecord) → List (Text × HostRecord)
shown_entry shows k (broken r) l = l
shown_entry shows k (json r) l = if shows r then (k, r) ∷ l else l

abbrev pub shown_entries : (HostRecord → Bool) → List (Text × Stored) → List (Text × HostRecord)
shown_entries shows [] = []
shown_entries shows ((k, s) ∷ m) = shown_entry shows k s (shown_entries shows m)

values-shown_entries :
    (shows : HostRecord → Bool) (m : List (Text × Stored))
    → values (shown_entries shows m) ≡ select shows (read_all m)
values-shown_entries shows [] = refl
values-shown_entries shows ((k, broken r) ∷ m) = values-shown_entries shows m
values-shown_entries shows ((k, json r) ∷ m) = ground (arith, values-shown_entries shows m)

IsAbove-shown_entries :
    (shows : HostRecord → Bool) (k : Text) (m : List (Text × Stored))
    → IsAbove k m
    → IsAbove k (shown_entries shows m)
IsAbove-shown_entries shows k [] a = tt
IsAbove-shown_entries shows k ((j, broken r) ∷ m) a = IsAbove-shown_entries shows k m a.1
IsAbove-shown_entries shows k ((j, json r) ∷ m) a =
    ground (arith, IsAbove-shown_entries shows k m a.1, a.0)

shown_entries-IsSorted :
    (shows : HostRecord → Bool) (m : List (Text × Stored))
    → IsSorted m
    → IsSorted (shown_entries shows m)
shown_entries-IsSorted shows [] s = tt
shown_entries-IsSorted shows ((j, broken r) ∷ m) s = shown_entries-IsSorted shows m s.1
shown_entries-IsSorted shows ((j, json r) ∷ m) s =
    ground (arith, IsAbove-shown_entries shows j m s.0, shown_entries-IsSorted shows m s.1)

lookup-shown_entries :
    (shows : HostRecord → Bool) (k : Text) (m : List (Text × Stored))
    → IsSorted m
    → lookup k (shown_entries shows m) ≡ visible shows (lookup k m)
unfolding lookup
lookup-shown_entries shows k [] s = refl
lookup-shown_entries shows k ((j, broken r) ∷ m) s = elim (Bool-cases (text_eq k j)) [
  | inl same ↦ rw same (
      lookup-IsAbove k (shown_entries shows m)
        (rw ((text_eq_iff k j).0 same) (IsAbove-shown_entries shows j m s.0)))
  | inr other ↦ rw other (lookup-shown_entries shows k m s.1)
]
lookup-shown_entries shows k ((j, json r) ∷ m) s = elim (Bool-cases (shows r)) [
  | inl on ↦ rw on (ground (arith, lookup-shown_entries shows k m s.1))
  | inr off ↦ elim (Bool-cases (text_eq k j)) [
    | inl same ↦
        rw (off, same, off)
          (lookup-IsAbove k (shown_entries shows m)
            (rw ((text_eq_iff k j).0 same) (IsAbove-shown_entries shows j m s.0)))
    | inr other ↦ rw (off, other) (lookup-shown_entries shows k m s.1)
  ]
]

pub select_all : (rs : List HostRecord) → select (λ r. true) rs ≡ rs
select_all [] = refl
select_all (r ∷ rs) = ap (◌∷◌ r) (select_all rs)

module _ (bolt : Bolt) where
  open bolt use {Bucket, entries, get, get-entries, sorted}

  pub entries-Lists :
      (shows : HostRecord → Bool) (b : Bucket)
      → Lists shows (get b) (select shows (read_all (entries b)))
  entries-Lists shows b = record {
    by_key = shown_entries shows (entries b);
    rising = shown_entries-IsSorted shows (entries b) (sorted b);
    shown = λ k.
        lookup-shown_entries shows k (entries b) (sorted b)
        ∙ ap (visible shows) (sym (get-entries b k));
    values_of = sym (values-shown_entries shows (entries b));
  }

-- A registry has one listing only.
pub Lists-unique :
    (shows : HostRecord → Bool) (m : Registry) (rs rs' : List HostRecord)
    → Lists shows m rs
    → Lists shows m rs'
    → rs ≡ rs'
Lists-unique shows m rs rs' a b =
    a.values_of
    ∙ ap values (assoc_ext a.by_key b.by_key a.rising b.rising (λ k. a.shown k ∙ sym (b.shown k)))
    ∙ sym b.values_of
