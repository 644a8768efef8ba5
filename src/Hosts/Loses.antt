-- ===== src/Hosts/Loses.antt =====
-- Handlers that run at once can lose every line of /etc/hosts outside the section, or an entry of it.
use lanmon.Prelude.{ℕ, ◌≡◌, ◌≢◌, refl, sym, ap, ◌∙◌, false, List, []}
use lanmon.Go.Scanner.{scan_lines}
use lanmon.Store.Record.{HostRecord}
use lanmon.Hosts.Sync.{rewritten, entries_of, preserved, separated}
use lanmon.Hosts.Lines.{preserved-new_lines}
use lanmon.Hosts.Rewrite.{scan_lines-rewritten, tame_plain}
use lanmon.Hosts.Race.{
  AllTame, idle, listed, has_read, truncated, Shared, set_turn, lists, reads, truncates,
  writes_alone, Reach, here, next, set_turn_self, set_turn_other,
}

-- What a sync makes of an empty file is the section alone.
keeps_nothing :
    (hosts : List HostRecord)
    → AllTame hosts
    → preserved false (scan_lines (rewritten hosts [])) ≡ []
unfolding scan_lines preserved separated
keeps_nothing hosts tame =
    ap (preserved false) (scan_lines-rewritten hosts [] tame tt)
    ∙ preserved-new_lines hosts [] tt (tame_plain (entries_of hosts) tame).1

-- Two handlers can end with a file of which nothing outside the section is left, whatever was in it,
-- if the names that are stored are tame: the second one reads the file when the first has truncated
-- it and not yet written.
pub two_syncs_lose :
    (s : Shared) (i j : ℕ)
    → i ≢ j
    → s.turn i ≡ idle
    → s.turn j ≡ idle
    → AllTame s.hosts
    → (s' : Shared) × Reach s s'
      × (s'.turn i ≡ idle)
      × (s'.turn j ≡ idle)
      × (s'.hosts_file ≡ rewritten s.hosts [])
      × (preserved false (scan_lines s'.hosts_file) ≡ [])
two_syncs_lose s i j ne free_i free_j tame =
    let ne' : j ≢ i = λ e. ne (sym e) in
    let f1 = set_turn s.turn i (listed s.hosts) in
    let f2 = set_turn f1 i (has_read s.hosts s.hosts_file) in
    let f3 = set_turn f2 i (truncated s.hosts s.hosts_file) in
    let f4 = set_turn f3 j (listed s.hosts) in
    let f5 = set_turn f4 j (has_read s.hosts []) in
    let f6 = set_turn f5 i idle in
    let f7 = set_turn f6 j (truncated s.hosts []) in
    let f8 = set_turn f7 j idle in
    let still_idle : f3 j ≡ idle =
      set_turn_other f2 i j _ ne
      ∙ set_turn_other f1 i j _ ne
      ∙ set_turn_other s.turn i j _ ne
      ∙ free_j in
    let still_truncated : f5 i ≡ truncated s.hosts s.hosts_file =
      set_turn_other f4 j i _ ne' ∙ set_turn_other f3 j i _ ne' ∙ set_turn_self f2 i _ in
    let still_read : f6 j ≡ has_read s.hosts [] =
      set_turn_other f5 i j _ ne ∙ set_turn_self f4 j _ in
    (
      record s { hosts_file = rewritten s.hosts []; turn = f8 },
      next
          (next
            (next
              (next
                (next
                  (next
                    (next (next here (lists i free_i)) (reads i s.hosts (set_turn_self s.turn i _)))
                    (truncates i s.hosts s.hosts_file (set_turn_self f1 i _)))
                  (lists j still_idle))
                (reads j s.hosts (set_turn_self f3 j _)))
              (writes_alone i s.hosts s.hosts_file still_truncated refl))
            (truncates j s.hosts [] still_read))
          (writes_alone j s.hosts [] (set_turn_self f6 j _) refl),
      set_turn_other f7 j i _ ne' ∙ set_turn_other f6 j i _ ne' ∙ set_turn_self f5 i _,
      set_turn_self f7 j _,
      refl,
      keeps_nothing s.hosts tame,
    )
