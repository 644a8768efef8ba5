-- ===== src/Hosts/Sync.antt =====
-- `Sync`: the lines outside the managed section, a new section for the hosts of the store, and the
-- text that is written back.
use lanmon.Prelude.{
  Bool, true, false, not, ◌&&◌, List, [], ◌∷◌, ◌++◌, Option, none, some, if◌then◌else◌, Text, codes,
  text_eq, Result, ok, err,
}
use lanmon.Go.Strings.{has_prefix, trim_space, pad_right, join_lines}
use lanmon.Go.Scanner.{scan_lines}
use lanmon.Store.Record.{HostRecord}
use lanmon.Store.Bolt.{Bolt}
use lanmon.Store.Ops.{StoreError, get_all}

abbrev pub begin_marker : Text
begin_marker = codes "# BEGIN LANMON MANAGED HOSTS"

abbrev pub end_marker : Text
end_marker = codes "# END LANMON MANAGED HOSTS"

pub data LineKind : Type 0 where
  opens closes other : LineKind

-- The two tests on the trimmed line, in the order of the loop.
unfoldable pub line_kind : Text → LineKind
unfolding has_prefix trim_space
line_kind line =
    let trimmed = trim_space line in
    if has_prefix trimmed begin_marker
    then opens
    else if has_prefix trimmed end_marker
    then closes
    else other

abbrev pub keep : Bool → Text → List Text → List Text
keep in_managed line rest = if in_managed then rest else line ∷ rest

-- The loop over the scanner's lines; the flag is `inManagedSection`.
unfoldable pub preserved : Bool → List Text → List Text
preserved in_managed [] = []
preserved in_managed (line ∷ lines) = elim (line_kind line) [
  | opens ↦ preserved true lines
  | closes ↦ preserved false lines
  | other ↦ keep in_managed line (preserved in_managed lines)
]

-- `fmt.Sprintf("%-16s %s", ip, hostname)`
unfoldable pub entry_of : HostRecord → Text
unfolding pad_right
entry_of r = pad_right 16 r.beacon.ip_address ++ (b' ' ∷ r.beacon.hostname)

abbrev pub is_named : HostRecord → Bool
is_named r = not (text_eq r.beacon.hostname []) && not (text_eq r.beacon.ip_address [])

unfoldable pub entries_of : List HostRecord → List Text
unfolding entry_of
entries_of [] = []
entries_of (r ∷ rs) = let rest = entries_of rs in if is_named r then entry_of r ∷ rest else rest

unfoldable pub managed : List HostRecord → List Text
unfolding entries_of
managed hosts = begin_marker ∷ (entries_of hosts ++ (end_marker ∷ []))

-- A blank line behind the kept lines, unless they end with one or there are none.
unfoldable pub separated : List Text → List Text
separated [] = []
separated (line ∷ []) = if text_eq line [] then line ∷ [] else line ∷ [] ∷ []
separated (line ∷ next ∷ lines) = line ∷ separated (next ∷ lines)

unfoldable pub new_lines : List HostRecord → List Text → List Text
unfolding preserved separated managed
new_lines hosts lines = separated (preserved false lines) ++ managed hosts

-- The text that replaces the file's.
unfoldable pub rewritten : List HostRecord → Text → Text
unfolding new_lines join_lines scan_lines
rewritten hosts file = join_lines (new_lines hosts (scan_lines file)) ++ (b'\n' ∷ [])

pub data SyncError : Type 0 where
  not_root opening writing : SyncError
  from_store : StoreError → SyncError

-- `os.WriteFile` succeeds, or leaves some text in the file and returns an error.
pub data WriteOutcome : Type 0 where
  wrote : WriteOutcome
  broke_off : Text → WriteOutcome

abbrev pub written : WriteOutcome → Text → Text × Option SyncError
written wrote new = (new, none)
written (broke_off left) new = (left, some writing)

abbrev pub with_hosts :
    Bool → WriteOutcome → Text → Result StoreError (List HostRecord) → Text × Option SyncError
with_hosts opens_file outcome file (err e) = (file, some (from_store e))
with_hosts opens_file outcome file (ok hosts) =
    if opens_file then written outcome (rewritten hosts file) else (file, some opening)

module _ (bolt : Bolt) where
  open bolt use {Bucket}

  -- The file behind, and the error. The flags say whether the process is root, whether BoltDB can
  -- be read, and whether the file can be opened.
  unfoldable pub sync : Bool → Bool → Bool → WriteOutcome → Bucket → Text → Text × Option SyncError
  unfolding get_all
  sync root io opens_file outcome b file =
      if root then with_hosts opens_file outcome file (get_all bolt io b) else (file, some not_root)
