-- ===== src/Hosts/Race.antt =====
-- `Sync` in several handlers at once: internal/discovery/discovery.go starts a goroutine for each
-- datagram, and no lock covers the reading and the writing of /etc/hosts.
use mathlib.Core.Path.{subst}
use lanmon.Prelude.{
  ap, ◌∙◌, ◌++◌, drop, length, append-nil, zero, suc, ℕ, ◌≡◌, ◌≢◌, refl, true, false, List, [],
  Text, All, ◌==◌, if◌then◌else◌, arith,
}
use lanmon.Store.Record.{HostRecord}
use lanmon.Store.Bolt.{Bolt}
use lanmon.Store.Ops.{read_all}
use lanmon.Hosts.Sync.{rewritten, entries_of, sync, wrote}
use lanmon.Hosts.Rewrite.{IsTame}

-- Where a handler stands in `Sync`: it has the hosts of the store, the text of the file too, or has
-- truncated the file, as `os.WriteFile` does when it opens it.
pub data Turn : Type 0 where
  idle : Turn
  listed : List HostRecord → Turn
  has_read : List HostRecord → Text → Turn
  truncated : List HostRecord → Text → Turn

-- The hosts in the store, /etc/hosts, and the handlers.
pub record Shared : Type 0 where
  pub hosts : List HostRecord
  pub hosts_file : Text
  pub turn : ℕ → Turn

abbrev pub set_turn : (ℕ → Turn) → ℕ → Turn → ℕ → Turn
set_turn f i t j = if i == j then t else f j

-- A write at the start of a file leaves what stands behind its end.
unfoldable pub overwritten : Text → Text → Text
overwritten text file = text ++ drop (length text) file

pub overwritten_empty : (text : Text) → overwritten text [] ≡ text
unfolding overwritten
overwritten_empty text = ap (λ rest. text ++ rest) (drop_empty (length text)) ∙ append-nil text
  where
    drop_empty : (n : ℕ) → ◌≡◌ {A = Text} (drop n []) []
    drop_empty zero = refl
    drop_empty (suc n) = refl

pub data Step (s : Shared) : Shared → Type 0 where
  stores : (hosts : List HostRecord) → Step s (record s { hosts = hosts })
  -- `db.GetAll()`
  lists :
      (i : ℕ) → s.turn i ≡ idle → Step s (record s { turn = set_turn s.turn i (listed s.hosts) })
  -- the loop of the scanner
  reads :
      (i : ℕ) (hosts : List HostRecord)
      → s.turn i ≡ listed hosts
      → Step s (record s { turn = set_turn s.turn i (has_read hosts s.hosts_file) })
  -- `os.WriteFile`, in two steps: the descriptor that it writes to stands at the start of the file,
  -- whatever has come into the file since the truncation.
  truncates :
      (i : ℕ) (hosts : List HostRecord) (text : Text)
      → s.turn i ≡ has_read hosts text
      → Step s (record s { hosts_file = []; turn = set_turn s.turn i (truncated hosts text) })
  writes :
      (i : ℕ) (hosts : List HostRecord) (text : Text)
      → s.turn i ≡ truncated hosts text
      → Step s (record s {
        hosts_file = overwritten (rewritten hosts text) s.hosts_file;
        turn = set_turn s.turn i idle;
      })

-- A write into the file as the handler's own truncation left it.
pub writes_alone :
    {s : Shared} (i : ℕ) (hosts : List HostRecord) (text : Text)
    → s.turn i ≡ truncated hosts text
    → s.hosts_file ≡ []
    → Step s (record s { hosts_file = rewritten hosts text; turn = set_turn s.turn i idle })
writes_alone {s} i hosts text at empty =
    subst (λ file. Step s (record s { hosts_file = file; turn = set_turn s.turn i idle }))
      (ap (overwritten (rewritten hosts text)) empty ∙ overwritten_empty (rewritten hosts text))
      (writes i hosts text at)

-- Every entry is one line that is read back as it was written, and no marker.
abbrev pub AllTame : List HostRecord → Type 0
AllTame hosts = All IsTame (entries_of hosts)

pub data Reach (s : Shared) : Shared → Type 0 where
  here : Reach s s
  next : {t u : Shared} → Reach s t → Step t u → Reach s u

pub set_turn_self : (f : ℕ → Turn) (i : ℕ) (t : Turn) → set_turn f i t i ≡ t
set_turn_self f i t = let same : (i == i) ≡ true = ground arith in rw same refl

pub set_turn_other : (f : ℕ → Turn) (i j : ℕ) (t : Turn) → i ≢ j → set_turn f i t j ≡ f j
set_turn_other f i j t ne = let other : (i == j) ≡ false = ground arith in rw other refl

-- A handler that nothing comes in between of does what `sync` does.
pub undisturbed-sync :
    (bolt : Bolt) (b : bolt.Bucket) (s : Shared) (i : ℕ)
    → s.turn i ≡ idle
    → read_all (bolt.entries b) ≡ s.hosts
    → (s' : Shared) × Reach s s'
      × (s'.hosts_file ≡ (sync bolt true true true wrote b s.hosts_file).0)
      × (s'.turn i ≡ idle)
unfolding sync
undisturbed-sync bolt b s i free found =
    let one = set_turn s.turn i (listed s.hosts) in
    let two = set_turn one i (has_read s.hosts s.hosts_file) in
    let three = set_turn two i (truncated s.hosts s.hosts_file) in
    (
      record s { hosts_file = rewritten s.hosts s.hosts_file; turn = set_turn three i idle },
      next
          (next
            (next (next here (lists i free))
              (reads i s.hosts (set_turn_self s.turn i (listed s.hosts))))
            (truncates i s.hosts s.hosts_file
              (set_turn_self one i (has_read s.hosts s.hosts_file))))
          (writes_alone i s.hosts s.hosts_file
            (set_turn_self two i (truncated s.hosts s.hosts_file)) refl),
      rw found refl,
      set_turn_self three i idle,
    )
