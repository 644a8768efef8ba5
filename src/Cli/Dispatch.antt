-- ===== src/Cli/Dispatch.antt =====
-- main.go: the choice of the configuration file and of the command, and the exit code.
use lanmon.Prelude.{
  ℕ, ◌≡◌, ◌↔◌, refl, sym, ap, ◌∙◌, Bool, ◌||◌, List, [], ◌∷◌, if◌then◌else◌, Text, codes, text_eq,
  text_eq_iff, arith,
}
use lanmon.Cli.Args.{scan}
use lanmon.Cli.Scan.{split_flags, scan-split_flags}

pub data Command : Type 0 where
  node agent server connect edit : Command

-- What `main` comes to: one of the commands with the configuration path, a text printed, or a
-- message and exit code 1.
pub data Action : Type 0 where
  run : Command → Text → Action
  print_version print_usage usage_error : Action
  unknown_command : Text → Action

-- `config.toml` if it can be seen, else the system's file, where no flag names one.
abbrev pub config_path : Bool → Text → Text
config_path here [] = if here then codes "config.toml" else codes "/etc/lanmon/config.toml"
config_path here (c ∷ path) = c ∷ path

unfoldable pub choose : Text → Text → Action
choose path word =
    if text_eq word (codes "node")
    then run node path
    else if text_eq word (codes "agent")
    then run agent path
    else if text_eq word (codes "server")
    then run server path
    else if text_eq word (codes "connect")
    then run connect path
    else if text_eq word (codes "edit")
    then run edit path
    else if text_eq word (codes "version")
    then print_version
    else if text_eq word (codes "help")
        || text_eq word (codes "--help")
        || text_eq word (codes "-h")
    then print_usage
    else unknown_command word

abbrev pub dispatch : Text → List Text → Action
dispatch path [] = usage_error
dispatch path (word ∷ rest) = choose path word

-- `main` on the arguments behind the program's name; the first argument says whether
-- `config.toml` can be seen.
unfoldable pub main_action : Bool → List Text → Action
main_action here [] = usage_error
main_action here (a ∷ args) =
    let found = scan (a ∷ args) in dispatch (config_path here found.0) found.1

-- The exit code, by whether the command returned no error.
unfoldable pub exit_code : Bool → Action → ℕ
exit_code fine (run c path) = if fine then 0 else 1
exit_code fine print_version = 0
exit_code fine print_usage = 0
exit_code fine usage_error = 1
exit_code fine (unknown_command word) = 1

abbrev pub word_of : Command → Text
word_of node = codes "node"
word_of agent = codes "agent"
word_of server = codes "server"
word_of connect = codes "connect"
word_of edit = codes "edit"

choose-word_of : (c : Command) (path : Text) → choose path (word_of c) ≡ run c path
unfolding choose text_eq
choose-word_of node path = refl
choose-word_of agent path = refl
choose-word_of server path = refl
choose-word_of connect path = refl
choose-word_of edit path = refl

choose-run :
    (c : Command) (path p word : Text)
    → choose path word ≡ run c p
    → (word ≡ word_of c) × (p ≡ path)
unfolding choose
choose-run c path p word h = ground (
  arith,
  text_eq_iff word (codes "node"),
  text_eq_iff word (codes "agent"),
  text_eq_iff word (codes "server"),
  text_eq_iff word (codes "connect"),
  text_eq_iff word (codes "edit"),
)

dispatch-run :
    (c : Command) (path p : Text) (words : List Text)
    → dispatch path words ≡ run c p
    → (rest : List Text) × (words ≡ word_of c ∷ rest) × (p ≡ path)
dispatch-run c path p [] h = absurd cc
dispatch-run c path p (word ∷ rest) h =
    let (same, taken) = choose-run c path p word h in (rest, ap (λ w. w ∷ rest) same, taken)

main_action-split :
    (here : Bool) (args : List Text)
    → main_action here args
      ≡ dispatch (config_path here (split_flags [] args).0) (split_flags [] args).1
unfolding main_action split_flags
main_action-split here [] = refl
main_action-split here (a ∷ args) =
    ap (λ found. dispatch (config_path here found.0) found.1) (scan-split_flags (a ∷ args))

-- A command runs with a path exactly if its word is the first argument that is no part of a flag,
-- and the path is that of the last flag or, where no flag gives one, the default.
pub main_action_iff :
    (here : Bool) (args : List Text) (c : Command) (p : Text)
    → (main_action here args ≡ run c p) ↔ (
        (q : Text) × (rest : List Text) × (split_flags [] args ≡ (q, word_of c ∷ rest))
        × (p ≡ config_path here q))
main_action_iff here args c p = (
  (λ h.
      let r = split_flags [] args in
      let (rest, words, path) =
        dispatch-run c (config_path here r.0) p r.1 (sym (main_action-split here args) ∙ h) in
      (r.0, rest, ap (λ l. (r.0, l)) words, path)),
  (λ (q, rest, found, path).
      main_action-split here args
      ∙ ap (λ r. dispatch (config_path here r.0) r.1) found
      ∙ choose-word_of c (config_path here q)
      ∙ ap (run c) (sym path)),
)
