-- ===== src/Tests/Cli.antt =====
-- Command lines.
use lanmon.Prelude.{◌≡◌, refl, true, List, [], ◌∷◌, Text, codes, text_eq}
use lanmon.Cli.Args.{scan, is_flag, is_assignment}
use lanmon.Cli.Scan.{split_flags, scan-split_flags}
use lanmon.Cli.Dispatch.{node, run, choose, main_action, main_action_iff}

abbrev pub line : List Text
line =
    codes "--config"
    ∷ codes "a.toml"
    ∷ codes "node"
    ∷ codes "--config=b.toml"
    ∷ codes "--config"
    ∷ []

scan-split_flags_example : scan line ≡ split_flags [] line
scan-split_flags_example = scan-split_flags line

split_line : split_flags [] line ≡ (codes "b.toml", codes "node" ∷ codes "--config" ∷ [])
unfolding split_flags is_flag is_assignment text_eq
split_line = refl

main_action_iff_example : main_action true line ≡ run node (codes "b.toml")
main_action_iff_example =
    (main_action_iff true line node (codes "b.toml")).1
      (codes "b.toml", codes "--config" ∷ [], split_line, refl)

pub line_asks : main_action true line ≡ run node (codes "b.toml")
unfolding main_action scan choose is_flag is_assignment text_eq
line_asks = refl
