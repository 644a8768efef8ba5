-- ===== src/Hosts/Races.antt =====
-- Handlers that run at once lose nothing of /etc/hosts while none of them reads or truncates the file
-- between the truncation and the write of another.
use mathlib.Core.Path.{subst}
use lanmon.Prelude.{
  refl, sym, ◌≢◌, [], arith, ℕ, ◌≡◌, ap, ◌∙◌, List, Text, All, inl, inr, ◌==◌, ==_iff, Bool-cases,
}
use lanmon.Go.Scanner.{scan_lines}
use lanmon.Store.Record.{HostRecord}
use lanmon.Hosts.Sync.{rewritten}
use lanmon.Hosts.Rewrite.{HasNoCr, rewritten-rewritten}
use lanmon.Hosts.Race.{
  AllTame, Turn, idle, listed, has_read, truncated, Shared, set_turn, Step, stores, lists, reads,
  truncates, writes, Reach, here, next, set_turn_self, overwritten, overwritten_empty,
}

abbrev pub IsTruncated : Turn → Type 0
IsTruncated idle = ⊥
IsTruncated (listed hosts) = ⊥
IsTruncated (has_read hosts text) = ⊥
IsTruncated (truncated hosts text) = Unit

-- No handler reads or truncates the file while one has truncated it, and the names that are stored are tame.
abbrev pub IsCalm : {s t : Shared} → Step s t → Type 0
IsCalm (stores hosts) = AllTame hosts
IsCalm (lists i free) = Unit
IsCalm {s} (reads i hosts at) = (j : ℕ) → ¬ IsTruncated (s.turn j)
IsCalm {s} (truncates i hosts text at) = (j : ℕ) → ¬ IsTruncated (s.turn j)
IsCalm (writes i hosts text at) = Unit

abbrev pub AllCalm : {s t : Shared} → Reach s t → Type 0
AllCalm here = Unit
AllCalm (next r st) = AllCalm r × IsCalm st

-- The file as it was first, or as a sync for some hosts makes it from that.
pub data IsVersion (first : Text) (text : Text) : Type 0 where
  original : text ≡ first → IsVersion first text
  synced :
      (hosts : List HostRecord)
      → AllTame hosts
      → text ≡ rewritten hosts first
      → IsVersion first text

module _ (first : Text) (no_cr : All HasNoCr (scan_lines first)) where
  rewritten-IsVersion :
      (hosts : List HostRecord) (text : Text)
      → AllTame hosts
      → IsVersion first text
      → IsVersion first (rewritten hosts text)
  rewritten-IsVersion hosts text tame (original same) =
      synced hosts tame (ap (rewritten hosts) same)
  rewritten-IsVersion hosts text tame (synced before tame' same) =
      synced hosts tame
        (ap (rewritten hosts) same ∙ rewritten-rewritten before first tame' no_cr hosts)

  abbrev IsFine : Turn → Type 0
  IsFine idle = Unit
  IsFine (listed hosts) = AllTame hosts
  IsFine (has_read hosts text) = AllTame hosts × IsVersion first text
  IsFine (truncated hosts text) = AllTame hosts × IsVersion first text

  -- The file is empty between the truncation and the write of a handler, and a version otherwise.
  data IsKept (s : Shared) : Type 0 where
    whole : ((j : ℕ) → ¬ IsTruncated (s.turn j)) → IsVersion first s.hosts_file → IsKept s
    cut :
        (i : ℕ)
        → IsTruncated (s.turn i)
        → ((j : ℕ) → IsTruncated (s.turn j) → j ≡ i)
        → s.hosts_file ≡ []
        → IsKept s

  -- What calm steps keep.
  record IsSafe (s : Shared) : Type 0 where
    tame : AllTame s.hosts
    turns : (i : ℕ) → IsFine (s.turn i)
    kept : IsKept s

  set_turn-IsFine :
      (f : ℕ → Turn) (i : ℕ) (t : Turn)
      → ((j : ℕ) → IsFine (f j))
      → IsFine t
      → (j : ℕ) → IsFine (set_turn f i t j)
  set_turn-IsFine f i t old new j = elim (Bool-cases (i == j)) [
    | inl same ↦ rw same new
    | inr other ↦ rw other (old j)
  ]

  -- Who has truncated the file behind a step of one handler to a turn that is none.
  still_IsTruncated :
      (f : ℕ → Turn) (i j : ℕ) (t : Turn)
      → ¬ IsTruncated t
      → IsTruncated (set_turn f i t j)
      → (i ≢ j) × IsTruncated (f j)
  still_IsTruncated f i j t other now = elim (Bool-cases (i == j)) [
    | inl same ↦ absurd (other (rw same at now))
    | inr differs ↦ (λ e. absurd (ground (arith, e, differs)), rw differs at now)
  ]

  -- A handler that has truncated the file stands there when another takes a step.
  others_IsTruncated :
      (f : ℕ → Turn) (i j : ℕ) (t : Turn)
      → ¬ IsTruncated (f i)
      → IsTruncated (f j)
      → IsTruncated (set_turn f i t j)
  others_IsTruncated f i j t no_cut stands = elim (Bool-cases (i == j)) [
    | inl same ↦ absurd (no_cut (rw ((==_iff i j).0 same) stands))
    | inr other ↦ rw other stands
  ]

  -- A step between two turns that are not truncations, which leaves the file.
  steps_on :
      (s : Shared) (i : ℕ) (t : Turn)
      → ¬ IsTruncated (s.turn i)
      → ¬ IsTruncated t
      → IsKept s
      → IsKept (record s { turn = set_turn s.turn i t })
  steps_on s i t before other (whole none_cut version) =
      whole (λ j now. none_cut j (still_IsTruncated s.turn i j t other now).1) version
  steps_on s i t before other (cut k stands only empty) =
      cut k (others_IsTruncated s.turn i k t before stands)
        (λ j now. only j (still_IsTruncated s.turn i j t other now).1) empty

  stays : (s : Shared) (hosts : List HostRecord) → IsKept s → IsKept (record s { hosts = hosts })
  stays s hosts (whole none_cut version) = whole none_cut version
  stays s hosts (cut k stands only empty) = cut k stands only empty

  whole_now :
      (s : Shared) → ((j : ℕ) → ¬ IsTruncated (s.turn j)) → IsKept s → IsVersion first s.hosts_file
  whole_now s none_cut (whole _ version) = version
  whole_now s none_cut (cut i stands only empty) = absurd (none_cut i stands)

  -- Only the handler itself has truncated the file.
  first_cut :
      (f : ℕ → Turn) (i j : ℕ) (t : Turn)
      → ((j : ℕ) → ¬ IsTruncated (f j))
      → IsTruncated (set_turn f i t j)
      → j ≡ i
  first_cut f i j t none_cut now = elim (Bool-cases (i == j)) [
    | inl same ↦ sym ((==_iff i j).0 same)
    | inr other ↦ absurd (none_cut j (rw other at now))
  ]

  -- The write of the one handler that has truncated the file.
  writes-IsKept :
      (s : Shared) (i : ℕ) (hosts : List HostRecord) (text : Text)
      → IsTruncated (s.turn i)
      → IsVersion first (rewritten hosts text)
      → IsKept s
      → IsKept (record s {
        hosts_file = overwritten (rewritten hosts text) s.hosts_file;
        turn = set_turn s.turn i idle;
      })
  writes-IsKept s i hosts text stands version (whole none_cut _) = absurd (none_cut i stands)
  writes-IsKept s i hosts text stands version (cut k _ only empty) =
      whole
        (λ j now.
          let (other, at) = still_IsTruncated s.turn i j idle (λ c. c) now in
          other (only i stands ∙ sym (only j at)))
        (subst (IsVersion first)
          (sym (
            ap (overwritten (rewritten hosts text)) empty
            ∙ overwritten_empty (rewritten hosts text)))
          version)

  turn-IsFine : (s : Shared) (i : ℕ) (t : Turn) → s.turn i ≡ t → IsSafe s → IsFine t
  turn-IsFine s i t at h = let fine = h.turns i in rw at at fine

  Step-IsSafe : {s t : Shared} (st : Step s t) → IsCalm st → IsSafe s → IsSafe t
  Step-IsSafe {s} (stores hosts) calm h = record {
    tame = calm;
    turns = h.turns;
    kept = stays s hosts h.kept;
  }
  Step-IsSafe {s} (lists i free) calm h = record {
    tame = h.tame;
    turns = set_turn-IsFine s.turn i (listed s.hosts) h.turns h.tame;
    kept = steps_on s i (listed s.hosts) (rw free (λ c. c)) (λ c. c) h.kept;
  }
  Step-IsSafe {s} (reads i hosts at) calm h = record {
    tame = h.tame;
    turns =
        set_turn-IsFine s.turn i (has_read hosts s.hosts_file) h.turns
          (turn-IsFine s i (listed hosts) at h, whole_now s calm h.kept);
    kept = steps_on s i (has_read hosts s.hosts_file) (calm i) (λ c. c) h.kept;
  }
  Step-IsSafe {s} (truncates i hosts text at) calm h = record {
    tame = h.tame;
    turns =
        set_turn-IsFine s.turn i (truncated hosts text) h.turns
          (turn-IsFine s i (has_read hosts text) at h);
    kept =
        cut i (rw (set_turn_self s.turn i (truncated hosts text)) tt)
          (λ j now. first_cut s.turn i j (truncated hosts text) calm now) refl;
  }
  Step-IsSafe {s} (writes i hosts text at) calm h =
      let fine = turn-IsFine s i (truncated hosts text) at h in
      record {
        tame = h.tame;
        turns = set_turn-IsFine s.turn i idle h.turns tt;
        kept =
            writes-IsKept s i hosts text (rw at tt) (rewritten-IsVersion hosts text fine.0 fine.1)
              h.kept;
      }

  Reach-IsSafe : {s t : Shared} (r : Reach s t) → AllCalm r → IsSafe s → IsSafe t
  Reach-IsSafe here calm h = h
  Reach-IsSafe (next r st) calm h = Step-IsSafe st calm.1 (Reach-IsSafe r calm.0 h)

  -- Where handlers begin on a file whose lines end in no carriage return, the names that are stored
  -- are tame, and none of them reads or truncates the file while one has it truncated: whenever the
  -- file is not truncated, it is the first one or what one sync for some hosts makes of that.
  pub calm_syncs_keep :
      {s t : Shared}
      → ((i : ℕ) → s.turn i ≡ idle)
      → s.hosts_file ≡ first
      → AllTame s.hosts
      → (r : Reach s t) → AllCalm r
      → ((j : ℕ) → ¬ IsTruncated (t.turn j))
      → IsVersion first t.hosts_file
  calm_syncs_keep {s} {t} free starts tame r calm none_cut =
      whole_now t none_cut (Reach-IsSafe r calm begins).kept
    where
      begins : IsSafe s
      begins = record {
        tame = tame;
        turns = λ i. rw (free i) tt;
        kept = whole (λ j. rw (free j) (λ c. c)) (original starts);
      }
