-- ===== src/Go/Hex.antt =====
-- `hex.DecodeString`: on malformed input it returns what it had decoded before the error.
use lanmon.Prelude.{
  ℕ, ◌+◌, ◌*◌, ◌-◌, ◌≡◌, refl, ◌&&◌, Option, none, some, [], ◌∷◌, ◌++◌, leb, if◌then◌else◌, Bytes,
  Text,
}

unfoldable pub hex_digit : ℕ → Option ℕ
hex_digit c =
    if leb b'0' c && leb c b'9'
    then some (c - b'0')
    else if leb b'a' c && leb c b'f'
    then some (c - b'a' + 10)
    else if leb b'A' c && leb c b'F'
    then some (c - b'A' + 10)
    else none

abbrev pub push_pair : Option ℕ → Option ℕ → Bytes → Bytes
push_pair (some a) (some b) rest = (a * 16 + b) ∷ rest
push_pair _ _ rest = []

unfoldable pub decode_string : Text → Bytes
decode_string (p ∷ q ∷ s) = push_pair (hex_digit p) (hex_digit q) (decode_string s)
decode_string _ = []

-- Pairs of hexadecimal digits.
pub data IsHex : Text → Type 0 where
  nil : IsHex []
  pair :
      {p q a b : ℕ} {s : Text}
      → hex_digit p ≡ some a
      → hex_digit q ≡ some b
      → IsHex s
      → IsHex (p ∷ q ∷ s)

-- What stands behind the first byte that is no digit is never read.
pub decode_string-append :
    {p : Text}
    → IsHex p
    → (c : ℕ) (rest : Text) → hex_digit c ≡ none
    → decode_string (p ++ c ∷ rest) ≡ decode_string p
unfolding decode_string
decode_string-append nil c [] bad = refl
decode_string-append nil c (d ∷ rest) bad = rw bad
decode_string-append (pair hp hq h) c rest bad = rw (hp, hq, decode_string-append h c rest bad)
