-- ===== src/Hosts/Faults.antt =====
-- Where `Sync` loses or leaks lines: a long line, a host name with line breaks; and which hosts it
-- lists; and what it leaves in the file on an error.
use lanmon.Prelude.{
  ◌≤◌, ◌≡◌, refl, ap, sym, ◌∙◌, Bool, true, false, List, [], ◌∷◌, ◌++◌, none, some, Text, length,
  All, All-append, map, append_assoc, if◌then◌else◌, ◌⊎◌, inl, inr,
}
use lanmon.Go.Strings.{unlines, unlines-append, pad_right}
use lanmon.Go.Scanner.{
  scan_lines, IsPlainLine, IsLine, max_token, scan_lines-unlines, scan_lines_long, IsShortLine,
  scan_lines-IsShortLine,
}
use lanmon.Store.Record.{HostRecord}
use lanmon.Store.Bolt.{Bolt}
use lanmon.Store.Ops.{read_all, database}
use lanmon.Store.Expiry.{retired}
use lanmon.Hosts.Sync.{
  begin_marker, end_marker, entry_of, entries_of, managed, preserved, separated, new_lines,
  rewritten, is_named, sync, WriteOutcome, wrote, broke_off, SyncError, not_root, opening, writing,
  from_store,
}
use lanmon.Hosts.Lines.{
  IsOther, begin-opens, end-closes, preserved_other, preserved_opens, preserved_closes,
  preserved-append, IsShortLine-IsOther, All-separated, All-preserved, split_pairs,
}
use lanmon.Hosts.Rewrite.{
  IsTame, HasNoCr, rewritten-unlines, begin_plain, end_plain, nil_plain, plain_lines,
}

-- From the first line that does not fit the scanner's buffer on, the file is dropped, if a line break
-- ends that line and the lines before it are plain: the result is that for the file cut off in front
-- of the line.
pub rewritten_long :
    (hosts : List HostRecord) (ls : List Text) (l rest : Text)
    → All IsPlainLine ls
    → IsLine l
    → max_token ≤ length l
    → rewritten hosts (unlines ls ++ (l ++ (b'\n' ∷ rest))) ≡ rewritten hosts (unlines ls)
rewritten_long hosts ls l rest h line long =
    rewritten-unlines hosts (unlines ls ++ (l ++ (b'\n' ∷ rest)))
    ∙ ap (λ ms. unlines (new_lines hosts ms))
        (scan_lines_long ls l rest h line long ∙ sym (scan_lines-unlines ls h))
    ∙ sym (rewritten-unlines hosts (unlines ls))

entries_of-retired : (hosts : List HostRecord) → entries_of (map retired hosts) ≡ entries_of hosts
unfolding entries_of
entries_of-retired [] = refl
entries_of-retired (r ∷ rs) =
    ap (λ rest. if is_named r then entry_of r ∷ rest else rest) (entries_of-retired rs)

-- The section lists a host whether or not it is active.
pub managed-retired : (hosts : List HostRecord) → managed (map retired hosts) ≡ managed hosts
unfolding managed
managed-retired hosts = ap (λ es. begin_marker ∷ (es ++ end_marker ∷ [])) (entries_of-retired hosts)

-- A part with newlines in it is several lines.
unlines_broken :
    (a b c : Text) (ls : List Text)
    → unlines ((a ++ (b'\n' ∷ (b ++ (b'\n' ∷ c)))) ∷ ls) ≡ unlines (a ∷ b ∷ c ∷ ls)
unfolding unlines
unlines_broken a b c ls =
    append_assoc a (b'\n' ∷ (b ++ (b'\n' ∷ c))) (b'\n' ∷ unlines ls)
    ∙ ap (λ s. a ++ (b'\n' ∷ s)) (append_assoc b (b'\n' ∷ c) (b'\n' ∷ unlines ls))

-- What a line of its own, an end marker and another line leave of the section.
preserved_leak :
    (e line : Text)
    → IsOther e
    → IsOther line
    → preserved false (begin_marker ∷ e ∷ end_marker ∷ line ∷ end_marker ∷ []) ≡ line ∷ []
preserved_leak e line he hl =
    preserved_opens false begin_marker _ begin-opens
    ∙ preserved_other true e _ he
    ∙ preserved_closes true end_marker _ end-closes
    ∙ preserved_other false line _ hl
    ∙ ap (◌∷◌ line) (preserved_closes false end_marker [] end-closes ∙ (unfold preserved in refl))

module _ (r : HostRecord) (name line file : Text) (named : is_named r ≡ true)
    (broken_name : r.beacon.hostname ≡ name ++ (b'\n' ∷ (end_marker ++ (b'\n' ∷ line))))
    (front : IsTame (pad_right 16 r.beacon.ip_address ++ (b' ' ∷ name))) (behind : IsTame line)
    (no_cr : All HasNoCr (scan_lines file)) where
  abbrev front_line : Text
  front_line = pad_right 16 r.beacon.ip_address ++ (b' ' ∷ name)

  entry_of_broken : entry_of r ≡ front_line ++ (b'\n' ∷ (end_marker ++ (b'\n' ∷ line)))
  unfolding entry_of
  entry_of_broken =
      ap (λ h. pad_right 16 r.beacon.ip_address ++ (b' ' ∷ h)) broken_name
      ∙ sym (
          append_assoc (pad_right 16 r.beacon.ip_address) (b' ' ∷ name)
            (b'\n' ∷ (end_marker ++ (b'\n' ∷ line))))

  entries_of_broken : entries_of (r ∷ []) ≡ entry_of r ∷ []
  unfolding entries_of
  entries_of_broken = rw named refl

  abbrev kept : List Text
  kept = separated (preserved false (scan_lines file))

  -- The section as the next run reads it.
  abbrev leak : List Text
  leak = begin_marker ∷ front_line ∷ end_marker ∷ line ∷ end_marker ∷ []

  abbrev all_lines : List Text
  all_lines = kept ++ leak

  short : All IsShortLine (scan_lines file)
  short = scan_lines-IsShortLine file

  all_lines-IsPlainLine : All IsPlainLine all_lines
  all_lines-IsPlainLine =
      let ls = scan_lines file in
      let pairs = All-preserved IsPlainLine ls (plain_lines ls short no_cr) false in
      All-append IsPlainLine kept leak
        (All-separated IsPlainLine (preserved false ls) nil_plain
          (split_pairs IsOther IsPlainLine (preserved false ls) pairs).1)
        (begin_plain, (front.plain, (end_plain, (behind.plain, (end_plain, tt)))))

  section_lines : unlines (managed (r ∷ [])) ≡ unlines leak
  unfolding managed unlines
  section_lines =
      ap (λ es. unlines (begin_marker ∷ (es ++ end_marker ∷ []))) entries_of_broken
      ∙ ap (λ e. unlines (begin_marker ∷ e ∷ end_marker ∷ [])) entry_of_broken
      ∙ ap (λ s. begin_marker ++ (b'\n' ∷ s))
          (unlines_broken front_line end_marker line (end_marker ∷ []))

  written_lines : rewritten (r ∷ []) file ≡ unlines all_lines
  unfolding new_lines
  written_lines =
      rewritten-unlines (r ∷ []) file
      ∙ unlines-append kept (managed (r ∷ []))
      ∙ ap (λ s. unlines kept ++ s) section_lines
      ∙ sym (unlines-append kept leak)

  -- The one host that is stored has a name with an end marker on a line of its own, and a line behind
  -- it, both parts tame, and the lines of the file end in no carriage return: the next run reads the
  -- line as one of the administrator's, behind those that were there.
  pub injected_line :
      preserved false (scan_lines (rewritten (r ∷ []) file))
      ≡ separated (preserved false (scan_lines file)) ++ line ∷ []
  injected_line =
      ap (preserved false)
        (ap scan_lines written_lines ∙ scan_lines-unlines all_lines all_lines-IsPlainLine)
      ∙ preserved-append kept leak (IsShortLine-IsOther (scan_lines file) short)
      ∙ ap (λ ms. kept ++ ms) (preserved_leak front_line line front.is_other behind.is_other)

module _ (bolt : Bolt) where
  open bolt use {entries}

  -- Without an error `Sync` has run as root, and the file is the rewritten one for all records that
  -- decode. With an error the file is as it was, or holds what a failed write left.
  pub sync_exact :
      (root io opens_file : Bool) (outcome : WriteOutcome) (b : bolt.Bucket) (file : Text)
      → ((root ≡ true)
          × ((sync bolt root io opens_file outcome b file).1 ≡ none)
          × ((sync bolt root io opens_file outcome b file).0
              ≡ rewritten (read_all (entries b)) file))
        ⊎ ((e : SyncError) × ((sync bolt root io opens_file outcome b file).1 ≡ some e)
            × (((sync bolt root io opens_file outcome b file).0 ≡ file)
                ⊎ ((left : Text) × (outcome ≡ broke_off left)
                    × ((sync bolt root io opens_file outcome b file).0 ≡ left))))
  unfolding sync
  sync_exact false io opens_file outcome b file = inr (not_root, refl, inl refl)
  sync_exact true false opens_file outcome b file = inr (from_store database, refl, inl refl)
  sync_exact true true false outcome b file = inr (opening, refl, inl refl)
  sync_exact true true true wrote b file = inl (refl, refl, refl)
  sync_exact true true true (broke_off left) b file = inr (writing, refl, inr (left, refl, refl))
