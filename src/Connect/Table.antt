-- ===== src/Connect/Table.antt =====
-- cmd/connect/connect.go: the table of the hosts that `displayHostTable` prints, line by line.
use lanmon.Prelude.{
  ℕ, zero, suc, ◌+◌, ◌-◌, ◌<◌, ◌≤◌, ◌≡◌, refl, ap, ◌∙◌, List, [], ◌∷◌, ◌++◌, if◌then◌else◌, Text,
  codes, length, take, leb, All, arith, Bool-cases, inl, inr, sym, append-nil, append_assoc,
}
use lanmon.Go.Utf8.{rune_count, rune_count-append}
use lanmon.Go.Strings.{pad_right, spaces}
use lanmon.Go.Decimal.{itoa}
use lanmon.Store.Record.{HostRecord}
use lanmon.Connect.Choose.{truncate}

-- The columns of a line, each padded to its width, with a space between.
unfoldable pub columns : List (ℕ × Text) → Text
columns [] = []
columns ((width, cell) ∷ []) = pad_right width cell
columns ((width, cell) ∷ next ∷ rest) = pad_right width cell ++ (b' ' ∷ columns (next ∷ rest))

-- `strings.Repeat("─", n)`
abbrev rule_of : ℕ → Text
rule_of zero = []
rule_of (suc n) = 0xE2 ∷ 0x94 ∷ 0x80 ∷ rule_of n

-- "✓" and "✗"
abbrev pub key_status : HostRecord → Text
key_status r = if r.ssh_key_pushed then 0xE2 ∷ 0x9C ∷ 0x93 ∷ [] else 0xE2 ∷ 0x9C ∷ 0x97 ∷ []

abbrev pub title_line : Text
title_line =
    codes "  "
    ++ columns (
        (4, codes "#")
        ∷ (20, codes "Hostname")
        ∷ (16, codes "IP Address")
        ∷ (18, codes "MAC Address")
        ∷ (25, codes "OS")
        ∷ (10, codes "Last Seen")
        ∷ (5, codes "Key")
        ∷ [])

abbrev pub rule_line : Text
rule_line =
    codes "  "
    ++ columns (
        (4, rule_of 4)
        ∷ (20, rule_of 20)
        ∷ (16, rule_of 16)
        ∷ (18, rule_of 18)
        ∷ (25, rule_of 25)
        ∷ (10, rule_of 10)
        ∷ (5, rule_of 5)
        ∷ [])

module _ (clock : ℕ → Text) where
  -- The line of a host; `clock` is `Format("15:04:05")` in the local time zone.
  unfoldable pub host_row : ℕ → HostRecord → Text
  host_row number r =
      codes "  "
      ++ columns (
          (4, itoa number)
          ∷ (20, truncate r.beacon.hostname 20)
          ∷ (16, r.beacon.ip_address)
          ∷ (18, r.beacon.mac_address)
          ∷ (25, truncate r.beacon.os.name 25)
          ∷ (10, clock r.last_seen)
          ∷ (5, key_status r)
          ∷ [])

  -- The loop over the hosts; the number is the index and 1.
  unfoldable pub rows_from : ℕ → List HostRecord → List Text
  unfolding host_row
  rows_from number [] = []
  rows_from number (r ∷ rs) = host_row number r ∷ rows_from (suc number) rs

  unfoldable pub host_table : List HostRecord → List Text
  unfolding rows_from columns
  host_table hosts = title_line ∷ rule_line ∷ rows_from 1 hosts

abbrev pub IsAscii : Text → Type 0
IsAscii s = All (λ c. c < 0x80) s

take-IsAscii : (n : ℕ) (s : Text) → IsAscii s → IsAscii (take n s)
take-IsAscii zero s h = tt
take-IsAscii (suc n) [] h = tt
take-IsAscii (suc n) (c ∷ s) h = (h.0, take-IsAscii n s h.1)

spaces-IsAscii : (n : ℕ) → IsAscii (spaces n)
spaces-IsAscii zero = tt
spaces-IsAscii (suc n) = (omega arith, spaces-IsAscii n)

length-take : (n : ℕ) (s : Text) → n ≤ length s → length (take n s) ≡ n
length-take zero s h = refl
length-take (suc n) [] h = absurd (omega arith)
length-take (suc n) (c ∷ s) h = omega (arith, length-take n s (omega arith))

length-spaces : (n : ℕ) → length (spaces n) ≡ n
length-spaces zero = refl
length-spaces (suc n) = ap suc (length-spaces n)

no_runes : rune_count [] ≡ 0
unfolding rune_count
no_runes = refl

-- The runes in front of any text, from the runes in front of none.
alone :
    (m : ℕ) (s : Text) → ((t : Text) → rune_count (s ++ t) ≡ m + rune_count t) → rune_count s ≡ m
alone m s parts = ap rune_count (sym (append-nil s)) ∙ parts [] ∙ omega (arith, no_runes)

rune_count-spaces : (n : ℕ) → rune_count (spaces n) ≡ n
rune_count-spaces n =
    alone (length (spaces n)) (spaces n) (λ t. rune_count-append (spaces n) t (spaces-IsAscii n))
    ∙ length-spaces n

-- A text that ends with a whole rune and is no wider than its column is padded to the width.
rune_count-pad_right :
    (n m : ℕ) (s : Text)
    → m ≤ n
    → ((t : Text) → rune_count (s ++ t) ≡ m + rune_count t)
    → rune_count (pad_right n s) ≡ n
unfolding pad_right
rune_count-pad_right n m s fits parts =
    let k = n - rune_count s in
    let width = alone m s parts in omega (arith, parts (spaces k), rune_count-spaces k)

-- The ellipsis is one rune, whatever stands behind it.
rune_count-ellipsis : (t : Text) → rune_count (0xE2 ∷ 0x80 ∷ 0xA6 ∷ t) ≡ 1 + rune_count t
unfolding rune_count
rune_count-ellipsis t = omega arith

rune_count-cut :
    (n : ℕ) (s t : Text)
    → 0 < n
    → n ≤ length s
    → IsAscii s
    → rune_count ((take (n - 1) s ++ (0xE2 ∷ 0x80 ∷ 0xA6 ∷ [])) ++ t) ≡ n + rune_count t
rune_count-cut n s t positive long ascii =
    ap rune_count (append_assoc (take (n - 1) s) (0xE2 ∷ 0x80 ∷ 0xA6 ∷ []) t)
    ∙ rune_count-append (take (n - 1) s) (0xE2 ∷ 0x80 ∷ 0xA6 ∷ t) (take-IsAscii (n - 1) s ascii)
    ∙ omega (arith, rune_count-ellipsis t, length-take (n - 1) s (omega arith))

-- The cell of an ASCII name fills its column, neither more nor less.
pub cell_width :
    (n : ℕ) (s : Text) → 0 < n → IsAscii s → rune_count (pad_right n (truncate s n)) ≡ n
unfolding truncate
cell_width n s positive ascii = elim (Bool-cases (leb (length s) n)) [
  | inl fits ↦
      rw fits
        (rune_count-pad_right n (length s) s (ground arith) (λ t. rune_count-append s t ascii))
  | inr long ↦ rw long (
      rune_count-pad_right n n (take (n - 1) s ++ (0xE2 ∷ 0x80 ∷ 0xA6 ∷ [])) (omega arith)
        (λ t. rune_count-cut n s t positive (ground arith) ascii))
]
