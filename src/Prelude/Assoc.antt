-- ===== src/Prelude/Assoc.antt =====
-- Sorted association lists over texts: the documented content of a bucket, in key order.
use mathlib.Core.Path.{◌≡◌, refl, sym, ap, ◌∙◌}
use mathlib.Core.Bool.{true}
use mathlib.Core.List.{List, [], ◌∷◌}
use mathlib.Core.Logic.{inl, inr}
use mathlib.Core.Option.{Option, none, some, some-injective}
use native.Mathlib.Omega.{arith}
use lanmon.Prelude.Tests.{if◌then◌else◌, Bool-cases}
use lanmon.Prelude.Strings.{
  Text, text_eq, text_lt, text_eq_iff, text_lt_irrefl, text_lt_trans, text_lt_total, text_eq_refl,
}

module _ {ℓ} {V : Type ℓ} where
  unfoldable pub lookup : Text → List (Text × V) → Option V
  lookup k [] = none
  lookup k ((j, v) ∷ m) = if text_eq k j then some v else lookup k m

  -- Writes at the key, or in front of the first greater one.
  unfoldable pub insert : Text → V → List (Text × V) → List (Text × V)
  insert k v [] = (k, v) ∷ []
  insert k v ((j, w) ∷ m) =
      if text_eq k j
      then (k, v) ∷ m
      else if text_lt k j
      then (k, v) ∷ (j, w) ∷ m
      else (j, w) ∷ insert k v m

  -- Every key lies above `k`.
  abbrev pub IsAbove : Text → List (Text × V) → Type 0
  IsAbove k [] = Unit
  IsAbove k ((j, w) ∷ m) = (text_lt k j ≡ true) × IsAbove k m

  -- Keys rise strictly, so no key stands twice.
  abbrev pub IsSorted : List (Text × V) → Type 0
  IsSorted [] = Unit
  IsSorted ((j, w) ∷ m) = IsAbove j m × IsSorted m

  pub lookup-insert :
      (k j : Text) (v : V) (m : List (Text × V))
      → lookup j (insert k v m) ≡ (if text_eq j k then some v else lookup j m)
  unfolding lookup insert
  lookup-insert k j v [] = refl
  lookup-insert k j v ((i, w) ∷ m) = ground (
    arith,
    text_eq_iff k j,
    text_eq_iff j k,
    text_eq_iff k i,
    text_eq_iff j i,
    lookup-insert k j v m,
  )

  IsAbove-weaken :
      (k j : Text) (m : List (Text × V)) → text_lt k j ≡ true → IsAbove j m → IsAbove k m
  IsAbove-weaken k j [] h a = tt
  IsAbove-weaken k j ((i, w) ∷ m) h a = (text_lt_trans k j i h a.0, IsAbove-weaken k j m h a.1)

  IsAbove-insert :
      (j k : Text) (v : V) (m : List (Text × V))
      → text_lt j k ≡ true
      → IsAbove j m
      → IsAbove j (insert k v m)
  unfolding insert
  IsAbove-insert j k v [] h a = (h, tt)
  IsAbove-insert j k v ((i, w) ∷ m) h a = elim (Bool-cases (text_eq k i)) [
    | inl same ↦ rw same (h, a.1)
    | inr other ↦ elim (Bool-cases (text_lt k i)) [
      | inl low ↦ rw (other, low) (h, a)
      | inr high ↦ rw (other, high) (a.0, IsAbove-insert j k v m h a.1)
    ]
  ]

  pub insert-IsSorted :
      (k : Text) (v : V) (m : List (Text × V)) → IsSorted m → IsSorted (insert k v m)
  unfolding insert
  insert-IsSorted k v [] s = (tt, tt)
  insert-IsSorted k v ((j, w) ∷ m) s = elim (Bool-cases (text_eq k j)) [
    | inl same ↦ rw (same, (text_eq_iff k j).0 same) s
    | inr other ↦ elim (Bool-cases (text_lt k j)) [
      | inl low ↦ rw (other, low) ((low, IsAbove-weaken k j m low s.0), s)
      | inr high ↦
          rw (other, high)
            (IsAbove-insert j k v m (text_lt_total k j other high) s.0, insert-IsSorted k v m s.1)
    ]
  ]

  pub lookup-IsAbove : (k : Text) (m : List (Text × V)) → IsAbove k m → lookup k m ≡ none
  unfolding lookup
  lookup-IsAbove k [] a = refl
  lookup-IsAbove k ((j, w) ∷ m) a =
      ground (arith, lookup-IsAbove k m, text_eq_iff k j, text_lt_irrefl k)

  lookup-nil : (k : Text) → lookup k [] ≡ none
  unfolding lookup
  lookup-nil k = refl

  lookup_below :
      (k j : Text) (w : V) (m : List (Text × V))
      → text_lt k j ≡ true
      → IsAbove j m
      → lookup k ((j, w) ∷ m) ≡ none
  lookup_below k j w m low a = lookup-IsAbove k ((j, w) ∷ m) (low, IsAbove-weaken k j m low a)

  lookup_head : (j : Text) (w : V) (m : List (Text × V)) → lookup j ((j, w) ∷ m) ≡ some w
  unfolding lookup
  lookup_head j w m = rw (text_eq_refl j) refl

  lookup_tail :
      (k j : Text) (v w : V) (m n : List (Text × V))
      → IsAbove j m
      → IsAbove j n
      → lookup k ((j, v) ∷ m) ≡ lookup k ((j, w) ∷ n)
      → lookup k m ≡ lookup k n
  unfolding lookup
  lookup_tail k j v w m n a c same = elim (Bool-cases (text_eq k j)) [
    | inl at ↦ rw ((text_eq_iff k j).0 at) (lookup-IsAbove j m a ∙ sym (lookup-IsAbove j n c))
    | inr other ↦ rw other at same
  ]

  -- A sorted association list is what its lookups say.
  pub assoc_ext :
      (m n : List (Text × V))
      → IsSorted m
      → IsSorted n
      → ((k : Text) → lookup k m ≡ lookup k n)
      → m ≡ n
  assoc_ext [] [] s t same = refl
  assoc_ext [] ((j, w) ∷ n) s t same = absurd (cc (same j, lookup_head j w n, lookup-nil j))
  assoc_ext ((i, v) ∷ m) [] s t same = absurd (cc (same i, lookup_head i v m, lookup-nil i))
  assoc_ext ((i, v) ∷ m) ((j, w) ∷ n) s t same = elim (Bool-cases (text_eq i j)) [
    | inl at ↦
        let key = (text_eq_iff i j).0 at in
        let moved : (k : Text) → lookup k ((j, w) ∷ n) ≡ lookup k ((i, w) ∷ n) =
          λ k. ap (λ x. lookup k ((x, w) ∷ n)) (sym key) in
        let value : v ≡ w =
          some-injective v w (sym (lookup_head i v m) ∙ same i ∙ moved i ∙ lookup_head i w n) in
        let above : IsAbove i n = rw key t.0 in
        let tails =
          assoc_ext m n s.1 t.1 (λ k. lookup_tail k i v w m n s.0 above (same k ∙ moved k)) in
        cc (key, value, tails)
    | inr other ↦ elim (Bool-cases (text_lt i j)) [
      | inl low ↦ absurd (cc (same i, lookup_head i v m, lookup_below i j w n low t.0))
      | inr high ↦
          absurd (
            cc (same j, lookup_head j w n, lookup_below j i v m (text_lt_total i j other high) s.0))
    ]
  ]
