-- ===== src/Store/Sorted.antt =====
-- A bucket as a sorted association list: the documented behaviour of BoltDB can be met.
use lanmon.Prelude.{
  ◌≤◌, ◌<◌, ◌≡◌, refl, Bool, true, false, ◌||◌, Option, none, some, List, [], Text, ltb, ◌==◌,
  length, if◌then◌else◌, arith, Bool-cases, inl, inr, sym, ap,
}
use lanmon.Prelude.Assoc.{lookup, insert, IsSorted, insert-IsSorted}
use lanmon.Store.Record.{Stored}
use lanmon.Store.Bolt.{Bolt}

pub record SortedBucket : Type 0 where
  pub items : List (Text × Stored)
  pub rising : IsSorted items

abbrev refused : Text → Bool
refused k = length k == 0 || ltb 32768 (length k)

abbrev inserted : Text → Stored → SortedBucket → SortedBucket
inserted k v b = record {
  items = insert k v b.items;
  rising = insert-IsSorted k v b.items b.rising;
}

abbrev pub put : Text → Stored → SortedBucket → Option SortedBucket
put k v b = if refused k then none else some (inserted k v b)

abbrev items_or : List (Text × Stored) → Option SortedBucket → List (Text × Stored)
items_or d none = d
items_or d (some b) = b.items

pub entries-put :
    (k : Text) (v : Stored) (b b' : SortedBucket)
    → put k v b ≡ some b'
    → b'.items ≡ insert k v b.items
entries-put k v b b' h = elim (Bool-cases (refused k)) [
  | inl bad ↦ cc (rw bad at h)
  | inr good ↦ sym (ap (items_or []) (rw good at h))
]

pub put_empty : (v : Stored) (b : SortedBucket) → put [] v b ≡ none
put_empty v b = refl

pub put_fits :
    (k : Text) (v : Stored) (b : SortedBucket)
    → 0 < length k
    → length k ≤ 32768
    → (b' : SortedBucket) × (put k v b ≡ some b')
put_fits k v b h l = let good : refused k ≡ false = ground arith in (inserted k v b, rw good)

abbrev pub sorted_bolt : Bolt
sorted_bolt = record {
  Bucket = SortedBucket;
  entries = λ b. b.items;
  get = λ b k. lookup k b.items;
  put = put;
  fits = λ v. true;
  sorted = λ b. b.rising;
  get-entries = λ b k. refl;
  entries-put = entries-put;
  put_empty = put_empty;
  put_fits = λ k v b h l f. put_fits k v b h l;
}

abbrev pub empty_bucket : SortedBucket
empty_bucket = record { items = []; rising = tt }
