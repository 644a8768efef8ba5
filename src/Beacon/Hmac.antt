-- ===== src/Beacon/Hmac.antt =====
-- internal/beacon/hmac.go: the key that a secret stands for, and the signature of a packet's data.
use lanmon.Prelude.{
  ℕ, ◌≡◌, ◌≢◌, refl, Bool, true, false, [], ◌∷◌, ◌++◌, none, length, if◌then◌else◌, ◌==◌, Bytes,
  Text, text_eq, text_eq_refl, arith, ap, sym, ◌∙◌,
}
use lanmon.Go.Hex.{decode_string, hex_digit, IsHex, nil, pair, decode_string-append}

abbrev pub hmac_size : ℕ
hmac_size = 32

-- HMAC-SHA256, of which only the length of its output matters here: `sum key bytes`.
pub record Mac : Type 0 where
  pub sum : Bytes → Bytes → Bytes
  pub length-sum : (key bytes : Bytes) → length (sum key bytes) ≡ hmac_size

-- The key of a secret: its hex decoding, or its own bytes where that is empty.
unfoldable pub key_of : Text → Bytes
key_of secret = let key = decode_string secret in if length key == 0 then secret else key

length-decode_string : {p : Text} → IsHex p → p ≢ [] → (length (decode_string p) == 0) ≡ false
unfolding decode_string
length-decode_string nil ne = absurd (ne refl)
length-decode_string (pair hp hq h) ne = rw (hp, hq) (ground arith)

key_of-append :
    (p : Text) (c : ℕ) (rest : Text)
    → IsHex p
    → p ≢ []
    → hex_digit c ≡ none
    → key_of (p ++ c ∷ rest) ≡ decode_string p
unfolding key_of
key_of-append p c rest h ne bad = rw (decode_string-append h c rest bad, length-decode_string h ne)

module _ (mac : Mac) where
  unfoldable pub compute_hmac : Bytes → Text → Bytes
  compute_hmac bytes secret = mac.sum (key_of secret) bytes

  -- `hmac.Equal` compares the lengths and every byte.
  unfoldable pub verify_hmac : Bytes → Bytes → Text → Bool
  verify_hmac sig bytes secret = text_eq sig (compute_hmac bytes secret)

  pub length-compute_hmac : (bytes secret : Bytes) → length (compute_hmac bytes secret) ≡ hmac_size
  unfolding compute_hmac
  length-compute_hmac bytes secret = mac.length-sum (key_of secret) bytes

  pub verify-compute :
      (bytes secret : Bytes) → verify_hmac (compute_hmac bytes secret) bytes secret ≡ true
  unfolding verify_hmac
  verify-compute bytes secret = text_eq_refl (compute_hmac bytes secret)

  -- Two secrets that begin with the same pairs of hexadecimal digits, and go on with any byte that
  -- is no digit and any rest, sign alike: the rest adds nothing to the key.
  pub hex_prefix_collision :
      (p : Text) (c d : ℕ) (rest rest' : Text) (bytes : Bytes)
      → IsHex p
      → p ≢ []
      → hex_digit c ≡ none
      → hex_digit d ≡ none
      → compute_hmac bytes (p ++ c ∷ rest) ≡ compute_hmac bytes (p ++ d ∷ rest')
  unfolding compute_hmac
  hex_prefix_collision p c d rest rest' bytes h ne bad bad' =
      ap (λ key. mac.sum key bytes)
        (key_of-append p c rest h ne bad ∙ sym (key_of-append p d rest' h ne bad'))
