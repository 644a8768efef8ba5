-- ===== src/Go/Scanner.antt =====
-- `bufio.Scanner` with the default split function: lines without their ends, up to the first that
-- does not fit the buffer of 64 kB. `Scan` returns false there, as at the end of the input.
use lanmon.Prelude.{
  ℕ, ◌*◌, ◌<◌, ◌≤◌, ◌≡◌, ◌≢◌, refl, ap, sym, ◌∙◌, Bool, true, false, List, [], ◌∷◌, ◌++◌, ltb, ◌==◌,
  if◌then◌else◌, Text, length, All, arith, lt→ltb, ltb→lt, Bool-cases, inl, inr, append_assoc,
  append-nil,
}
use lanmon.Go.Strings.{unlines}

abbrev pub max_token : ℕ
max_token = 64 * 1024

abbrev push_byte : ℕ → List Text → List Text
push_byte c [] = (c ∷ []) ∷ []
push_byte c (l ∷ ls) = (c ∷ l) ∷ ls

-- The pieces between newlines; nothing follows a final newline.
unfoldable pub raw_lines : Text → List Text
raw_lines [] = []
raw_lines (c ∷ s) = let rest = raw_lines s in if c == b'\n' then [] ∷ rest else push_byte c rest

-- `dropCR`
unfoldable pub drop_cr : Text → Text
drop_cr [] = []
drop_cr (c ∷ []) = if c == b'\r' then [] else c ∷ []
drop_cr (c ∷ d ∷ s) = c ∷ drop_cr (d ∷ s)

unfoldable pub readable : List Text → List Text
unfolding drop_cr
readable [] = []
readable (l ∷ ls) =
    let rest = readable ls in if ltb (length l) max_token then drop_cr l ∷ rest else []

unfoldable pub scan_lines : Text → List Text
unfolding raw_lines readable
scan_lines s = readable (raw_lines s)

-- A line with no newline in it.
abbrev pub IsLine : Text → Type 0
IsLine = All (λ c. c ≢ b'\n')

-- A line that the scanner hands over as it is.
pub record IsPlainLine (l : Text) : Type 0 where
  pub one_line : IsLine l
  pub short : length l < max_token
  pub no_cr : drop_cr l ≡ l

raw_lines-append : (l : Text) (s : Text) → IsLine l → raw_lines (l ++ (b'\n' ∷ s)) ≡ l ∷ raw_lines s
unfolding raw_lines
raw_lines-append [] s h = refl
raw_lines-append (c ∷ l) s h =
    let ih = raw_lines-append l s h.1 in
    let other : (c == b'\n') ≡ false = ground (arith, h.0) in rw (other, ih) refl

raw_lines-unlines :
    (ls : List Text) (s : Text) → All IsLine ls → raw_lines (unlines ls ++ s) ≡ ls ++ raw_lines s
unfolding unlines
raw_lines-unlines [] s h = refl
raw_lines-unlines (l ∷ ls) s h =
    ap raw_lines (append_assoc l (b'\n' ∷ unlines ls) s)
    ∙ raw_lines-append l (unlines ls ++ s) h.0
    ∙ ap (◌∷◌ l) (raw_lines-unlines ls s h.1)

readable-append : (ls ms : List Text) → All IsPlainLine ls → readable (ls ++ ms) ≡ ls ++ readable ms
unfolding readable
readable-append [] ms h = refl
readable-append (l ∷ ls) ms h =
    let ih = readable-append ls ms h.1 in
    rw (lt→ltb (length l) max_token h.0.short, h.0.no_cr, ih) refl

All-IsLine : (ls : List Text) → All IsPlainLine ls → All IsLine ls
All-IsLine [] h = tt
All-IsLine (l ∷ ls) h = (h.0.one_line, All-IsLine ls h.1)

-- Plain lines are read back as they were written.
pub scan_lines-unlines : (ls : List Text) → All IsPlainLine ls → scan_lines (unlines ls) ≡ ls
unfolding scan_lines
scan_lines-unlines ls h =
    ap (λ s. readable (raw_lines s)) (sym (append-nil (unlines ls)))
    ∙ ap readable (raw_lines-unlines ls [] (All-IsLine ls h))
    ∙ readable-append ls [] h
    ∙ append-nil ls

readable_long : (l : Text) (ls : List Text) → max_token ≤ length l → readable (l ∷ ls) ≡ []
unfolding readable
readable_long l ls h = let no : ltb (length l) max_token ≡ false = ground arith in rw no refl

-- The scanner stops in front of a line that is too long, and hands over nothing behind it.
pub scan_lines_long :
    (ls : List Text) (l rest : Text)
    → All IsPlainLine ls
    → IsLine l
    → max_token ≤ length l
    → scan_lines (unlines ls ++ (l ++ (b'\n' ∷ rest))) ≡ ls
unfolding scan_lines
scan_lines_long ls l rest h line long =
    ap readable (raw_lines-unlines ls (l ++ (b'\n' ∷ rest)) (All-IsLine ls h))
    ∙ readable-append ls (raw_lines (l ++ (b'\n' ∷ rest))) h
    ∙ ap (λ ms. ls ++ readable ms) (raw_lines-append l rest line)
    ∙ ap (λ ms. ls ++ ms) (readable_long l (raw_lines rest) long)
    ∙ append-nil ls

push_byte-IsLine :
    (c : ℕ) (ls : List Text) → c ≢ b'\n' → All IsLine ls → All IsLine (push_byte c ls)
push_byte-IsLine c [] h a = ((h, tt), tt)
push_byte-IsLine c (l ∷ ls) h a = ((h, a.0), a.1)

All-if :
    (same : Bool) (xs ys : List Text)
    → (same ≡ true → All IsLine xs)
    → (same ≡ false → All IsLine ys)
    → All IsLine (if same then xs else ys)
All-if true xs ys h k = h refl
All-if false xs ys h k = k refl

raw_lines-IsLine : (s : Text) → All IsLine (raw_lines s)
unfolding raw_lines
raw_lines-IsLine [] = tt
raw_lines-IsLine (c ∷ s) =
    let ih = raw_lines-IsLine s in
    All-if (c == b'\n') ([] ∷ raw_lines s) (push_byte c (raw_lines s)) (λ same. (tt, ih))
      (λ other. push_byte-IsLine c (raw_lines s) (ground arith) ih)

drop_cr-IsLine : (l : Text) → IsLine l → IsLine (drop_cr l)
unfolding drop_cr
drop_cr-IsLine [] h = tt
drop_cr-IsLine (c ∷ []) h = ground arith
drop_cr-IsLine (c ∷ d ∷ s) h = (h.0, drop_cr-IsLine (d ∷ s) h.1)

length-drop_cr : (l : Text) → length (drop_cr l) ≤ length l
unfolding drop_cr
length-drop_cr [] = omega arith
length-drop_cr (c ∷ []) = ground arith
length-drop_cr (c ∷ d ∷ s) = omega (arith, length-drop_cr (d ∷ s))

-- A line that is handed over: no newline in it, and it fits the buffer.
abbrev pub IsShortLine : Text → Type 0
IsShortLine l = IsLine l × (length l < max_token)

readable-IsShortLine : (ls : List Text) → All IsLine ls → All IsShortLine (readable ls)
unfolding readable
readable-IsShortLine [] h = tt
readable-IsShortLine (l ∷ ls) h =
    let ih = readable-IsShortLine ls h.1 in
    elim (Bool-cases (ltb (length l) max_token)) [
      | inl fits ↦ rw fits (
        (drop_cr-IsLine l h.0, omega (arith, length-drop_cr l, ltb→lt (length l) max_token fits)),
        ih,
      )
      | inr long ↦ rw long tt
    ]

pub scan_lines-IsShortLine : (s : Text) → All IsShortLine (scan_lines s)
unfolding scan_lines
scan_lines-IsShortLine s = readable-IsShortLine (raw_lines s) (raw_lines-IsLine s)
