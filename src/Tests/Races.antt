-- ===== src/Tests/Races.antt =====
-- Two handlers that sync /etc/hosts at once.
use lanmon.Prelude.{ℕ, ◌≡◌, refl, false, [], ◌==◌, Bool-cases, inl, inr, arith}
use lanmon.Go.Scanner.{scan_lines}
use lanmon.Hosts.Sync.{rewritten, preserved}
use lanmon.Hosts.Race.{
  Turn, idle, listed, has_read, truncated, Shared, set_turn, lists, reads, truncates, writes, Reach,
  overwritten, here, next,
}
use lanmon.Hosts.Loses.{two_syncs_lose}
use lanmon.Hosts.Races.{IsTruncated, AllCalm, IsVersion, calm_syncs_keep}
use lanmon.Tests.Hosts.{hosts, file, tame1, no_cr1}

abbrev resting : Shared
resting = record { hosts = hosts; hosts_file = file; turn = λ i. idle }

two_syncs_lose_example :
    (s : Shared) × Reach resting s
    × (s.turn 0 ≡ idle)
    × (s.turn 1 ≡ idle)
    × (s.hosts_file ≡ rewritten hosts [])
    × (preserved false (scan_lines s.hosts_file) ≡ [])
two_syncs_lose_example = two_syncs_lose resting 0 1 (λ e. absurd (omega arith)) refl refl tame1

not_cut :
    (f : ℕ → Turn) (i : ℕ) (t : Turn)
    → ¬ IsTruncated t
    → ((j : ℕ) → ¬ IsTruncated (f j))
    → (j : ℕ) → ¬ IsTruncated (set_turn f i t j)
not_cut f i t new old j = elim (Bool-cases (i == j)) [
  | inl same ↦ rw same new
  | inr other ↦ rw other (old j)
]

-- Both handlers have listed and read before the first one writes.
abbrev turn1 : ℕ → Turn
turn1 = set_turn (λ i. idle) 0 (listed hosts)

abbrev turn2 : ℕ → Turn
turn2 = set_turn turn1 1 (listed hosts)

abbrev turn3 : ℕ → Turn
turn3 = set_turn turn2 0 (has_read hosts file)

abbrev turn4 : ℕ → Turn
turn4 = set_turn turn3 1 (has_read hosts file)

abbrev turn5 : ℕ → Turn
turn5 = set_turn turn4 0 (truncated hosts file)

abbrev turn6 : ℕ → Turn
turn6 = set_turn turn5 0 idle

abbrev ended : Shared
ended = record resting { hosts_file = overwritten (rewritten hosts file) []; turn = turn6 }

both_read : Reach resting ended
both_read =
    next
      (next
        (next (next (next (next here (lists 0 refl)) (lists 1 refl)) (reads 0 hosts refl))
          (reads 1 hosts refl))
        (truncates 0 hosts file refl))
      (writes 0 hosts file refl)

no_cut2 : (j : ℕ) → ¬ IsTruncated (turn2 j)
no_cut2 =
    not_cut turn1 1 (listed hosts) (λ c. c)
      (not_cut (λ i. idle) 0 (listed hosts) (λ c. c) (λ j c. c))

no_cut3 : (j : ℕ) → ¬ IsTruncated (turn3 j)
no_cut3 = not_cut turn2 0 (has_read hosts file) (λ c. c) no_cut2

no_cut4 : (j : ℕ) → ¬ IsTruncated (turn4 j)
no_cut4 = not_cut turn3 1 (has_read hosts file) (λ c. c) no_cut3

calm : AllCalm both_read
unfolding both_read
calm = ((((((tt, tt), tt), no_cut2), no_cut3), no_cut4), tt)

no_cut6 : (j : ℕ) → ¬ IsTruncated (turn6 j)
no_cut6 j = elim (Bool-cases (0 == j)) [
  | inl same ↦ rw same (λ c. c)
  | inr other ↦ let before = no_cut4 j in rw other (rw other at before)
]

calm_syncs_keep_example : IsVersion file (overwritten (rewritten hosts file) [])
calm_syncs_keep_example =
    calm_syncs_keep file no_cr1 {s = resting} {t = ended} (λ i. refl) refl tame1 both_read calm
      no_cut6
