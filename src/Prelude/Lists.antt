-- ===== src/Prelude/Lists.antt =====
-- Lists measured and cut by native numbers, under the library's names, and predicates on them.
use Prim.Native.Nat.{ℕ, zero, suc, ◌+◌, ◌≤◌}
use mathlib.Core.Path.{◌≡◌, refl, ap}
use mathlib.Core.Bool.{Bool}
use mathlib.Core.List.{List, [], ◌∷◌, ◌++◌}
use mathlib.Core.Option.{Option, none, some}
use native.Mathlib.Omega.{arith}
use lanmon.Prelude.Tests.{if◌then◌else◌}

module _ {ℓ} {A : Type ℓ} where
  abbrev pub length : List A → ℕ
  length [] = 0
  length (x ∷ xs) = suc (length xs)

  abbrev pub take : ℕ → List A → List A
  take zero xs = []
  take (suc n) [] = []
  take (suc n) (x ∷ xs) = x ∷ take n xs

  abbrev pub drop : ℕ → List A → List A
  drop zero xs = xs
  drop (suc n) [] = []
  drop (suc n) (x ∷ xs) = drop n xs

  abbrev pub get_elem? : List A → ℕ → Option A
  get_elem? [] i = none
  get_elem? (x ∷ xs) zero = some x
  get_elem? (x ∷ xs) (suc i) = get_elem? xs i

  -- Keeps the elements that pass a Boolean test, in order.
  abbrev pub select : (A → Bool) → List A → List A
  select p [] = []
  select p (x ∷ xs) = if p x then x ∷ select p xs else select p xs

  abbrev pub All {κ} : (A → Type κ) → List A → Type κ
  All P [] = Unit
  All P (x ∷ xs) = P x × All P xs

  pub length-append : (xs ys : List A) → length (xs ++ ys) ≡ length xs + length ys
  length-append [] ys = omega arith
  length-append (x ∷ xs) ys = omega (arith, length-append xs ys)

  pub take-append : (xs ys : List A) → take (length xs) (xs ++ ys) ≡ xs
  take-append [] ys = refl
  take-append (x ∷ xs) ys = ap (◌∷◌ x) (take-append xs ys)

  pub drop-append : (xs ys : List A) → drop (length xs) (xs ++ ys) ≡ ys
  drop-append [] ys = refl
  drop-append (x ∷ xs) ys = drop-append xs ys

  pub get_elem?-append :
      (n i : ℕ) (front rest : List A)
      → n ≡ length front + i
      → get_elem? (front ++ rest) n ≡ get_elem? rest i
  get_elem?-append n i [] rest at = let same : n ≡ i = omega arith in ap (get_elem? rest) same
  get_elem?-append zero i (x ∷ front) rest at = absurd (omega arith)
  get_elem?-append (suc n) i (x ∷ front) rest at = get_elem?-append n i front rest (omega arith)

  pub drop_more-append :
      (n i : ℕ) (front rest : List A) → n ≡ length front + i → drop n (front ++ rest) ≡ drop i rest
  drop_more-append n i [] rest at = let same : n ≡ i = omega arith in ap (λ j. drop j rest) same
  drop_more-append zero i (x ∷ front) rest at = absurd (omega arith)
  drop_more-append (suc n) i (x ∷ front) rest at = drop_more-append n i front rest (omega arith)

  -- A cut that is wide enough takes all.
  pub take_of_length-le : (n : ℕ) (whole : List A) → length whole ≤ n → take n whole ≡ whole
  take_of_length-le zero [] fits = refl
  take_of_length-le (suc n) [] fits = refl
  take_of_length-le zero (x ∷ rest) fits = absurd (omega arith)
  take_of_length-le (suc n) (x ∷ rest) fits = ap (◌∷◌ x) (take_of_length-le n rest (omega arith))

  pub All-append {κ} :
      (P : A → Type κ) (front behind : List A)
      → All P front
      → All P behind
      → All P (front ++ behind)
  All-append P [] behind hf hb = hb
  All-append P (x ∷ front) behind hf hb = (hf.0, All-append P front behind hf.1 hb)

  pub select-append :
      (p : A → Bool) (xs ys : List A) → select p (xs ++ ys) ≡ select p xs ++ select p ys
  select-append p [] ys = refl
  select-append p (x ∷ xs) ys = ground (arith, select-append p xs ys)

-- `x` stands in the list.
pub data Among {ℓ} {A : Type ℓ} (x : A) : List A → Type ℓ where
  first : {rest : List A} → Among x (x ∷ rest)
  later : {y : A} {rest : List A} → Among x rest → Among x (y ∷ rest)

module _ {ℓ} {A : Type ℓ} where
  pub Among-append : (x : A) (front behind : List A) → Among x behind → Among x (front ++ behind)
  Among-append x [] behind h = h
  Among-append x (y ∷ front) behind h = later (Among-append x front behind h)

  pub Among-append_front :
      (x : A) (front behind : List A) → Among x front → Among x (front ++ behind)
  Among-append_front x [] behind h = elim h [ ]
  Among-append_front x (y ∷ front) behind first = first
  Among-append_front x (y ∷ front) behind (later h) = later (Among-append_front x front behind h)
