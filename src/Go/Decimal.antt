-- ===== src/Go/Decimal.antt =====
-- Integers in decimal, as `%d` of `fmt` prints them, and `strconv.Atoi` on what it printed.
use lanmon.Prelude.{
  ℕ, zero, suc, ◌+◌, ◌-◌, ◌*◌, ◌/◌, ◌%◌, ◌^◌, ◌<◌, ◌≡◌, refl, sym, ap, ◌∙◌, true, [], ◌∷◌, Text,
  some, All, arith,
}
use lanmon.Go.Int.{ℤ, pos, negsuc}
use lanmon.Go.Strconv.{is_digit, digits_from, digits, atoi, positive}
use lanmon.Go.Strings.{trim_space, trim_left_from, trim_right, all_space_from, space_size}

-- The digits of `n` in front of `out`, the last first; a round for each, so `suc n` is fuel enough.
unfoldable pub emit : ℕ → ℕ → Text → Text
emit zero n out = out
emit (suc fuel) zero out = out
emit (suc fuel) (suc n) out = emit fuel (suc n / 10) ((b'0' + suc n % 10) ∷ out)

unfoldable pub itoa : ℕ → Text
unfolding emit
itoa zero = b'0' ∷ []
itoa (suc n) = emit (suc (suc n)) (suc n) []

unfoldable pub format_int : ℤ → Text
unfolding itoa
format_int (pos n) = itoa n
format_int (negsuc n) = b'-' ∷ itoa (suc n)

last_digit : (n : ℕ) (out : Text) → digits_from (n / 10) ((b'0' + n % 10) ∷ out) ≡ digits_from n out
unfolding digits_from
last_digit n out =
    let same : n / 10 * 10 + (b'0' + n % 10 - b'0') ≡ n = omega arith in ground (arith, same)

-- The fuel lasts: the digits that are printed are read as the number.
digits_from-emit :
    (fuel n : ℕ) (out : Text) → n < fuel → digits_from 0 (emit fuel n out) ≡ digits_from n out
unfolding emit
digits_from-emit zero n out h = absurd (omega arith)
digits_from-emit (suc fuel) zero out h = refl
digits_from-emit (suc fuel) (suc n) out h =
    digits_from-emit fuel (suc n / 10) ((b'0' + suc n % 10) ∷ out) (omega arith)
    ∙ last_digit (suc n) out

abbrev pub IsDigit : ℕ → Type 0
IsDigit c = is_digit c ≡ true

emit_digits : (fuel n : ℕ) (out : Text) → All IsDigit out → All IsDigit (emit fuel n out)
unfolding emit
emit_digits zero n out h = h
emit_digits (suc fuel) zero out h = h
emit_digits (suc fuel) (suc n) out h =
    emit_digits fuel (suc n / 10) ((b'0' + suc n % 10) ∷ out) (ground arith, h)

-- What is printed has a first digit.
emit-cons :
    (fuel n c : ℕ) (out : Text) → (d : ℕ) × (rest : Text) × (emit fuel n (c ∷ out) ≡ d ∷ rest)
unfolding emit
emit-cons zero n c out = (c, out, refl)
emit-cons (suc fuel) zero c out = (c, out, refl)
emit-cons (suc fuel) (suc n) c out = emit-cons fuel (suc n / 10) (b'0' + suc n % 10) (c ∷ out)

-- A text of digits, one at least.
pub record IsDecimal (s : Text) : Type 0 where
  pub first : ℕ
  pub rest : Text
  pub splits : s ≡ first ∷ rest
  pub all_digits : All IsDigit s

pub itoa-IsDecimal : (n : ℕ) → IsDecimal (itoa n)
unfolding itoa emit
itoa-IsDecimal zero = record { first = b'0'; rest = []; splits = refl; all_digits = (refl, tt) }
itoa-IsDecimal (suc n) =
    let (d, rest, e) = emit-cons (suc n) (suc n / 10) (b'0' + suc n % 10) [] in
    record {
      first = d;
      rest = rest;
      splits = e;
      all_digits = emit_digits (suc (suc n)) (suc n) [] tt;
    }

digits_from-itoa : (n : ℕ) → digits_from 0 (itoa n) ≡ some n
unfolding itoa digits_from
digits_from-itoa zero = refl
digits_from-itoa (suc n) = digits_from-emit (suc (suc n)) (suc n) [] (omega arith)

digits-cons : (c : ℕ) (s : Text) → digits (c ∷ s) ≡ digits_from 0 (c ∷ s)
unfolding digits
digits-cons c s = refl

-- The printed digits are the number.
pub digits-itoa : (n : ℕ) → digits (itoa n) ≡ some n
digits-itoa n =
    let printed = itoa-IsDecimal n in
    ap digits printed.splits
    ∙ digits-cons printed.first printed.rest
    ∙ ap (digits_from 0) (sym printed.splits)
    ∙ digits_from-itoa n

-- No byte of a digit is white space.
space_size-digit : (c : ℕ) (s : Text) → IsDigit c → space_size (c ∷ s) ≡ 0
unfolding space_size
space_size-digit c [] h = ground arith
space_size-digit c (d ∷ []) h = ground arith
space_size-digit c (d ∷ e ∷ s) h = ground arith

trim_right-digits : (s : Text) → All IsDigit s → trim_right s ≡ s
unfolding trim_right all_space_from
trim_right-digits [] h = refl
trim_right-digits (c ∷ s) h = rw (space_size-digit c s h.0) (ap (◌∷◌ c) (trim_right-digits s h.1))

trim_left-digits : (s : Text) → All IsDigit s → trim_left_from 0 s ≡ s
unfolding trim_left_from
trim_left-digits [] h = refl
trim_left-digits (c ∷ s) h = rw (space_size-digit c s h.0) refl

pub trim_space-itoa : (n : ℕ) → trim_space (itoa n) ≡ itoa n
unfolding trim_space
trim_space-itoa n =
    let printed = itoa-IsDecimal n in
    ap trim_right (trim_left-digits (itoa n) printed.all_digits)
    ∙ trim_right-digits (itoa n) printed.all_digits

atoi-digits : (c : ℕ) (s : Text) → IsDigit c → atoi (c ∷ s) ≡ positive (digits (c ∷ s))
unfolding atoi
atoi-digits c s h = ground arith

-- `Atoi` reads back every number that fits that was printed.
pub atoi-itoa : (n : ℕ) → n < 2 ^ 63 → atoi (itoa n) ≡ some (pos n)
atoi-itoa n fits =
    let printed = itoa-IsDecimal n in
    ap atoi printed.splits
    ∙ atoi-digits printed.first printed.rest (rw printed.splits at printed.all_digits).0
    ∙ ap (λ s. positive (digits s)) (sym printed.splits)
    ∙ ap positive (digits-itoa n)
    ∙ ground arith
