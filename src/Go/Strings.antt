-- ===== src/Go/Strings.antt =====
-- What the program uses of `strings` and `fmt`, on the bytes of a text.
use lanmon.Prelude.{
  ℕ, zero, suc, ◌-◌, ◌≡◌, refl, sym, ap, ◌∙◌, Bool, true, false, ◌&&◌, ◌||◌, List, [], ◌∷◌, ◌++◌,
  leb, ◌==◌, if◌then◌else◌, Text, text_eq, length, take, drop, append_assoc,
}
use lanmon.Go.Utf8.{rune_count}

-- `strings.HasPrefix(s, p)`
unfoldable pub has_prefix : Text → Text → Bool
has_prefix s [] = true
has_prefix [] (y ∷ p) = false
has_prefix (x ∷ s) (y ∷ p) = x == y && has_prefix s p

-- `strings.TrimPrefix(s, p)`
unfoldable pub trim_prefix : Text → Text → Text
unfolding has_prefix
trim_prefix s p = if has_prefix s p then drop (length p) s else s

-- `strings.HasSuffix(s, p)`
unfoldable pub has_suffix : Text → Text → Bool
has_suffix s p = leb (length p) (length s) && text_eq (drop (length s - length p) s) p

-- `strings.TrimSuffix(s, p)`
unfoldable pub trim_suffix : Text → Text → Text
unfolding has_suffix
trim_suffix s p = if has_suffix s p then take (length s - length p) s else s

abbrev is_space : ℕ → Bool
is_space c = (leb 9 c && leb c 13) || c == 32

abbrev is_space2 : ℕ → ℕ → Bool
is_space2 a b = a == 0xC2 && (b == 0x85 || b == 0xA0)

abbrev is_space3 : ℕ → ℕ → ℕ → Bool
is_space3 a b c =
    (a == 0xE1 && b == 0x9A && c == 0x80)
    || (a == 0xE2 && b == 0x80 && (leb c 0x8A && leb 0x80 c || c == 0xA8 || c == 0xA9 || c == 0xAF))
    || (a == 0xE2 && b == 0x81 && c == 0x9F)
    || (a == 0xE3 && b == 0x80 && c == 0x80)

-- The bytes of the rune in front, if `unicode.IsSpace` holds of it, and 0 otherwise.
unfoldable pub space_size : Text → ℕ
space_size [] = 0
space_size (a ∷ []) = if is_space a then 1 else 0
space_size (a ∷ b ∷ []) = if is_space a then 1 else if is_space2 a b then 2 else 0
space_size (a ∷ b ∷ c ∷ s) =
    if is_space a then 1 else if is_space2 a b then 2 else if is_space3 a b c then 3 else 0

-- The number counts the bytes of the current space that are left.
unfoldable pub trim_left_from : ℕ → Text → Text
unfolding space_size
trim_left_from k [] = []
trim_left_from (suc k) (c ∷ s) = trim_left_from k s
trim_left_from zero (c ∷ s) =
    let n = space_size (c ∷ s) in
    let rest = trim_left_from (n - 1) s in if n == 0 then c ∷ s else rest

unfoldable pub all_space_from : ℕ → Text → Bool
unfolding space_size
all_space_from k [] = true
all_space_from (suc k) (c ∷ s) = all_space_from k s
all_space_from zero (c ∷ s) =
    let n = space_size (c ∷ s) in
    let rest = all_space_from (n - 1) s in if n == 0 then false else rest

unfoldable pub trim_right : Text → Text
unfolding all_space_from
trim_right [] = []
trim_right (c ∷ s) = let rest = trim_right s in if all_space_from 0 (c ∷ s) then [] else c ∷ rest

-- `strings.TrimSpace`
unfoldable pub trim_space : Text → Text
unfolding trim_left_from trim_right
trim_space s = trim_right (trim_left_from 0 s)

abbrev pub spaces : ℕ → Text
spaces zero = []
spaces (suc n) = b' ' ∷ spaces n

-- `fmt.Sprintf("%-<n>s", s)`: the width counts runes.
unfoldable pub pad_right : ℕ → Text → Text
unfolding rune_count
pad_right n s = s ++ spaces (n - rune_count s)

-- `strings.Join(parts, "\n")`
unfoldable pub join_lines : List Text → Text
join_lines [] = []
join_lines (p ∷ []) = p
join_lines (p ∷ q ∷ ps) = p ++ (b'\n' ∷ join_lines (q ∷ ps))

-- Every part with a newline behind it.
unfoldable pub unlines : List Text → Text
unlines [] = []
unlines (p ∷ ps) = p ++ (b'\n' ∷ unlines ps)

pub join_lines-unlines :
    (p : Text) (ps : List Text) → join_lines (p ∷ ps) ++ b'\n' ∷ [] ≡ unlines (p ∷ ps)
unfolding join_lines unlines
join_lines-unlines p [] = refl
join_lines-unlines p (q ∷ ps) =
    append_assoc p (b'\n' ∷ join_lines (q ∷ ps)) (b'\n' ∷ [])
    ∙ ap (λ s. p ++ (b'\n' ∷ s)) (join_lines-unlines q ps)

pub unlines-append : (ls ms : List Text) → unlines (ls ++ ms) ≡ unlines ls ++ unlines ms
unfolding unlines
unlines-append [] ms = refl
unlines-append (l ∷ ls) ms =
    ap (λ s. l ++ (b'\n' ∷ s)) (unlines-append ls ms)
    ∙ sym (append_assoc l (b'\n' ∷ unlines ls) (unlines ms))
