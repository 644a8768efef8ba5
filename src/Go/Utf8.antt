-- ===== src/Go/Utf8.antt =====
-- `unicode/utf8`: the size of the first rune, the number of runes, and the text that
-- `encoding/json` keeps of a string, where each byte that is no UTF-8 is replaced by U+FFFD.
use lanmon.Prelude.{
  ℕ, zero, suc, ◌-◌, ◌<◌, ◌≡◌, refl, ap, Bool, true, false, ◌&&◌, [], ◌∷◌, arith, ltb, leb, ◌==◌,
  if◌then◌else◌, Bytes, Text, All, Option, none, some, Bool-cases, inl, inr, ◌⊎◌, ◌∙◌, length, ◌++◌,
  ◌+◌,
}

abbrev within : ℕ → ℕ → ℕ → Bool
within lo hi c = leb lo c && leb c hi

-- `n` continuation bytes, the first of them between `lo` and `hi`.
continues : ℕ → ℕ → ℕ → Bytes → Bool
continues zero lo hi s = true
continues (suc n) lo hi [] = false
continues (suc n) lo hi (c ∷ s) = within lo hi c && continues n 0x80 0xBF s

-- What the first byte says: how many continuation bytes follow, and the range of the first.
record Lead : Type 0 where
  more : ℕ
  lo : ℕ
  hi : ℕ

lead : ℕ → Option Lead
lead a =
    if ltb a 0x80
    then some (record { more = 0; lo = 0x80; hi = 0xBF })
    else if within 0xC2 0xDF a
    then some (record { more = 1; lo = 0x80; hi = 0xBF })
    else if a == 0xE0
    then some (record { more = 2; lo = 0xA0; hi = 0xBF })
    else if a == 0xED
    then some (record { more = 2; lo = 0x80; hi = 0x9F })
    else if within 0xE1 0xEF a
    then some (record { more = 2; lo = 0x80; hi = 0xBF })
    else if a == 0xF0
    then some (record { more = 3; lo = 0x90; hi = 0xBF })
    else if within 0xF1 0xF3 a
    then some (record { more = 3; lo = 0x80; hi = 0xBF })
    else if a == 0xF4
    then some (record { more = 3; lo = 0x80; hi = 0x8F })
    else none

abbrev sized : Option Lead → Bytes → ℕ
sized none s = 0
sized (some l) s = if continues l.more l.lo l.hi s then suc l.more else 0

-- `utf8.DecodeRune`: the width of the rune in front, and 0 where it reports an invalid byte.
rune_size : Bytes → ℕ
unfolding continues lead
rune_size [] = 0
rune_size (a ∷ s) = sized (lead a) s

-- The number counts the bytes of the current rune that are left.
valid_from : ℕ → Text → Text
valid_from k [] = []
valid_from (suc k) (a ∷ s) = a ∷ valid_from k s
valid_from zero (a ∷ s) =
    let n = rune_size (a ∷ s) in
    let rest = valid_from (n - 1) s in if n == 0 then 0xEF ∷ 0xBF ∷ 0xBD ∷ rest else a ∷ rest

unfoldable pub to_valid : Text → Text
unfolding valid_from rune_size
to_valid s = valid_from 0 s

runes_from : ℕ → Text → ℕ
runes_from k [] = 0
runes_from (suc k) (a ∷ s) = runes_from k s
runes_from zero (a ∷ s) = suc (runes_from (rune_size (a ∷ s) - 1) s)

-- `utf8.RuneCountInString`
unfoldable pub rune_count : Text → ℕ
unfolding runes_from rune_size
rune_count s = runes_from 0 s

-- An ASCII text loses nothing.
pub to_valid_ascii : (s : Text) → All (λ c. c < 0x80) s → to_valid s ≡ s
unfolding to_valid
to_valid_ascii [] h = refl
to_valid_ascii (a ∷ s) h = ground (arith, to_valid_ascii s h.1)

-- Every byte of an ASCII text is a rune.
pub rune_count-append :
    (s t : Text) → All (λ c. c < 0x80) s → rune_count (s ++ t) ≡ length s + rune_count t
unfolding rune_count runes_from rune_size lead continues
rune_count-append [] t h = omega arith
rune_count-append (a ∷ s) t h = ground (arith, rune_count-append s t h.1)

-- The bytes that are left of a rune are kept.
continues-valid_from :
    (n lo hi : ℕ) (s : Bytes)
    → continues n lo hi s ≡ true
    → continues n lo hi (valid_from n s) ≡ true
unfolding continues valid_from
continues-valid_from zero lo hi s h = refl
continues-valid_from (suc n) lo hi [] h = cc
continues-valid_from (suc n) lo hi (c ∷ s) h = ground (arith, continues-valid_from n 0x80 0xBF s)

sized-valid_from :
    (n : ℕ) (l : Option Lead) (s : Bytes) → sized l s ≡ suc n → sized l (valid_from n s) ≡ suc n
sized-valid_from n none s h = absurd (omega arith)
sized-valid_from n (some l) s h = elim (Bool-cases (continues l.more l.lo l.hi s)) [
  | inl good ↦
      let e : l.more ≡ n = ground arith in
      rw (← e) (rw (continues-valid_from l.more l.lo l.hi s good) refl)
  | inr bad ↦ absurd (ground arith)
]

valid_from_bad :
    (a : ℕ) (s : Text)
    → rune_size (a ∷ s) ≡ 0
    → valid_from 0 (a ∷ s) ≡ 0xEF ∷ 0xBF ∷ 0xBD ∷ valid_from 0 s
unfolding valid_from
valid_from_bad a s h = rw h

valid_from_good :
    (n a : ℕ) (s : Text) → rune_size (a ∷ s) ≡ suc n → valid_from 0 (a ∷ s) ≡ a ∷ valid_from n s
unfolding valid_from
valid_from_good n a s h =
    let e : suc n - 1 ≡ n = omega arith in
    let pos : (suc n == 0) ≡ false = ground arith in rw h (rw (pos, e) refl)

-- U+FFFD is valid itself.
valid_from_mark :
    (s : Text) → valid_from 0 (0xEF ∷ 0xBF ∷ 0xBD ∷ s) ≡ 0xEF ∷ 0xBF ∷ 0xBD ∷ valid_from 0 s
unfolding valid_from rune_size
valid_from_mark s = refl

valid_from_idem_bad :
    (a : ℕ) (s : Text)
    → rune_size (a ∷ s) ≡ 0
    → valid_from 0 (valid_from 0 s) ≡ valid_from 0 s
    → valid_from 0 (valid_from 0 (a ∷ s)) ≡ valid_from 0 (a ∷ s)
valid_from_idem_bad a s h ih = rw (valid_from_bad a s h) (rw valid_from_mark (rw ih refl))

valid_from_idem_good :
    (n a : ℕ) (s : Text)
    → rune_size (a ∷ s) ≡ suc n
    → valid_from n (valid_from n s) ≡ valid_from n s
    → valid_from 0 (valid_from 0 (a ∷ s)) ≡ valid_from 0 (a ∷ s)
valid_from_idem_good n a s h ih = rw (valid_from_good n a s h) (
    valid_from_good n a (valid_from n s) (unfold rune_size in sized-valid_from n (lead a) s h)
    ∙ ap (◌∷◌ a) ih)

size_cases : (n : ℕ) → (n ≡ 0) ⊎ ((m : ℕ) × (n ≡ suc m))
size_cases zero = inl refl
size_cases (suc m) = inr (m, refl)

valid_from_idem_suc :
    (k a : ℕ) (s : Text)
    → valid_from k (valid_from k s) ≡ valid_from k s
    → valid_from (suc k) (valid_from (suc k) (a ∷ s)) ≡ valid_from (suc k) (a ∷ s)
unfolding valid_from
valid_from_idem_suc k a s ih = ap (◌∷◌ a) ih

valid_from_idem : (s : Text) (k : ℕ) → valid_from k (valid_from k s) ≡ valid_from k s
valid_from_idem [] zero = unfold valid_from in refl
valid_from_idem [] (suc k) = unfold valid_from in refl
valid_from_idem (a ∷ s) (suc k) = valid_from_idem_suc k a s (valid_from_idem s k)
valid_from_idem (a ∷ s) zero = elim (size_cases (rune_size (a ∷ s))) [
  | inl h ↦ valid_from_idem_bad a s h (valid_from_idem s 0)
  | inr (n, h) ↦ valid_from_idem_good n a s h (valid_from_idem s n)
]

-- The text that JSON keeps is kept as it is the next time.
pub to_valid_idem : (s : Text) → to_valid (to_valid s) ≡ to_valid s
unfolding to_valid
to_valid_idem s = valid_from_idem s 0
