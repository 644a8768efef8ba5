-- ===== src/Hosts/Rewrite.antt =====
-- The text that `Sync` writes, and what the next run reads of it.
use lanmon.Prelude.{
  ◌≡◌, ◌≢◌, refl, ap, sym, ◌∙◌, false, List, [], ◌∷◌, ◌++◌, Text, All, All-append, arith,
}
use lanmon.Go.Strings.{join_lines, unlines, join_lines-unlines}
use lanmon.Go.Scanner.{
  scan_lines, drop_cr, IsPlainLine, IsShortLine, scan_lines-unlines, scan_lines-IsShortLine,
}
use lanmon.Store.Record.{HostRecord}
use lanmon.Hosts.Sync.{
  begin_marker, end_marker, preserved, entries_of, managed, separated, new_lines, rewritten,
}
use lanmon.Hosts.Lines.{IsOther, All-preserved, All-separated, split_pairs, new_lines-new_lines}

-- An entry that is one line, is read back as it was written, and is no marker.
pub record IsTame (entry : Text) : Type 0 where
  pub plain : IsPlainLine entry
  pub is_other : IsOther entry

-- No line ends in a carriage return once the scanner has dropped one.
abbrev pub HasNoCr : Text → Type 0
HasNoCr l = drop_cr l ≡ l

pub plain_lines : (ls : List Text) → All IsShortLine ls → All HasNoCr ls → All IsPlainLine ls
plain_lines [] h k = tt
plain_lines (l ∷ ls) h k =
    (record { one_line = h.0.0; short = h.0.1; no_cr = k.0 }, plain_lines ls h.1 k.1)

pub tame_plain : (es : List Text) → All IsTame es → All IsPlainLine es × All IsOther es
tame_plain [] h = (tt, tt)
tame_plain (e ∷ es) h = let (ps, os) = tame_plain es h.1 in ((h.0.plain, ps), (h.0.is_other, os))

pub begin_plain : IsPlainLine begin_marker
unfolding drop_cr
begin_plain = record { one_line = omega arith; short = omega arith; no_cr = refl }

pub end_plain : IsPlainLine end_marker
unfolding drop_cr
end_plain = record { one_line = omega arith; short = omega arith; no_cr = refl }

pub nil_plain : IsPlainLine []
unfolding drop_cr
nil_plain = record { one_line = tt; short = omega arith; no_cr = refl }

new_lines_plain :
    (hosts : List HostRecord) (ls : List Text)
    → All IsPlainLine ls
    → All IsPlainLine (entries_of hosts)
    → All IsPlainLine (new_lines hosts ls)
unfolding new_lines managed
new_lines_plain hosts ls h k =
    let kept =
      (split_pairs IsOther IsPlainLine (preserved false ls)
        (All-preserved IsPlainLine ls h false)).1 in
    All-append IsPlainLine (separated (preserved false ls)) (managed hosts)
      (All-separated IsPlainLine (preserved false ls) nil_plain kept)
      (begin_plain, All-append IsPlainLine (entries_of hosts) (end_marker ∷ []) k (end_plain, tt))

append-ne-nil : (xs : List Text) (y : Text) (ys : List Text) → xs ++ y ∷ ys ≢ []
append-ne-nil [] y ys h = cc
append-ne-nil (x ∷ xs) y ys h = cc

terminated : (ls : List Text) → ls ≢ [] → join_lines ls ++ b'\n' ∷ [] ≡ unlines ls
terminated [] h = absurd (h refl)
terminated (l ∷ ls) h = join_lines-unlines l ls

-- The text that `Sync` writes is its lines, each with a newline behind it.
pub rewritten-unlines :
    (hosts : List HostRecord) (file : Text)
    → rewritten hosts file ≡ unlines (new_lines hosts (scan_lines file))
unfolding rewritten new_lines managed
rewritten-unlines hosts file = terminated (new_lines hosts (scan_lines file)) (
    append-ne-nil (separated (preserved false (scan_lines file))) begin_marker
      (entries_of hosts ++ end_marker ∷ []))

module _ (hosts : List HostRecord) (file : Text) (tame : All IsTame (entries_of hosts))
    (no_cr : All HasNoCr (scan_lines file)) where
  -- The next run reads exactly the lines that were written: the kept lines, a blank line where they
  -- do not end with one, and the section.
  pub scan_lines-rewritten : scan_lines (rewritten hosts file) ≡ new_lines hosts (scan_lines file)
  scan_lines-rewritten =
      ap scan_lines (rewritten-unlines hosts file)
      ∙ scan_lines-unlines (new_lines hosts (scan_lines file)) (
          new_lines_plain hosts (scan_lines file)
            (plain_lines (scan_lines file) (scan_lines-IsShortLine file) no_cr)
            (tame_plain (entries_of hosts) tame).0)

  -- A later run for other hosts gives what it gives on the file as it was before: nothing of the
  -- earlier section stays, and nothing else is lost or repeated.
  pub rewritten-rewritten :
      (later : List HostRecord) → rewritten later (rewritten hosts file) ≡ rewritten later file
  rewritten-rewritten later =
      let short = scan_lines-IsShortLine file in
      rewritten-unlines later (rewritten hosts file)
      ∙ ap (λ ls. unlines (new_lines later ls)) scan_lines-rewritten
      ∙ ap unlines (
          new_lines-new_lines hosts later (scan_lines file) short
            (tame_plain (entries_of hosts) tame).1)
      ∙ sym (rewritten-unlines later file)
