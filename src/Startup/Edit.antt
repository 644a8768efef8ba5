-- ===== src/Startup/Edit.antt =====
-- `EditConfig` of cmd/node/edit.go, on the text of the configuration file, if there is one.
use lanmon.Prelude.{
  if-elim, text_eq_iff, ◌≢◌, ◌≡◌, ◌⊎◌, refl, Bool, not, List, [], ◌∷◌, ◌++◌, ◌&&◌, if◌then◌else◌,
  Text, codes, text_eq, Option, none, some, Result, ok, err, inl, inr,
}

-- What the system answers: whether the directory is there or can be made, whether the file can be
-- written, the value of `EDITOR`, which editors are found, and whether the editor exits with 0.
pub record EditSystem : Type 0 where
  pub has_dir : Bool
  pub makes_dir : Bool
  pub writes : Bool
  pub editor_variable : Text
  pub finds : Text → Bool
  pub exits_fine : Bool

pub data EditError : Type 0 where
  making_dir writing_default no_editor editor_failed : EditError

-- `defaultConfigTemplate`
abbrev pub default_config_template : Text
default_config_template =
    codes "[node]\n  network_range   = \"10.51.240.0/23\"\n  port            = 5678\n"
    ++ codes "  interval        = \"30s\"\n  shared_secret   = \"CHANGE_ME\"\n"
    ++ codes "  db_path         = \"/var/lib/lanmon/hosts.db\"\n"
    ++ codes "  rpc_socket      = \"/run/lanmon/server.sock\"\n"
    ++ codes "  stale_threshold = \"90s\"\n  log_level       = \"info\"\n\n[connect]\n"
    ++ codes "  rpc_socket     = \"/run/lanmon/server.sock\"\n"
    ++ codes "  server_pubkey  = \"~/.ssh/id_rsa.pub\"\n"
    ++ codes "  known_hosts    = \"/etc/lanmon/known_hosts\"\n"

-- The first of the editors that is found.
unfoldable pub first_found : (Text → Bool) → List Text → Text
first_found finds [] = []
first_found finds (e ∷ rest) = let later = first_found finds rest in if finds e then e else later

unfoldable pub editor_of : EditSystem → Text
unfolding first_found
editor_of sys =
    if text_eq sys.editor_variable []
    then first_found sys.finds (codes "vi" ∷ codes "nano" ∷ codes "vim" ∷ [])
    else sys.editor_variable

abbrev pub open_editor : EditSystem → Result EditError Text
open_editor sys =
    if text_eq (editor_of sys) []
    then err no_editor
    else if sys.exits_fine
    then ok (editor_of sys)
    else err editor_failed

abbrev pub with_file : EditSystem → Option Text → Option Text × Result EditError Text
with_file sys (some text) = (some text, open_editor sys)
with_file sys none =
    if sys.writes
    then (some default_config_template, open_editor sys)
    else (none, err writing_default)

-- `EditConfig`: the file behind it, before the editor changes it, and the editor that ran.
unfoldable pub edit_config : EditSystem → Option Text → Option Text × Result EditError Text
unfolding editor_of
edit_config sys file =
    if not sys.has_dir && not sys.makes_dir then (file, err making_dir) else with_file sys file

-- How `EditConfig` may end: without a directory, with a missing file that cannot be written, or with
-- a file, the one that was there or the default, and then only behind an editor that has a name.
pub data IsEdited (file : Option Text) : Option Text × Result EditError Text → Type 0 where
  no_dir : IsEdited file (file, err making_dir)
  unwritten : file ≡ none → IsEdited file (none, err writing_default)
  edited :
      (text : Text) (r : Result EditError Text)
      → (file ≡ some text) ⊎ ((file ≡ none) × (text ≡ default_config_template))
      → ((e : Text) → r ≡ ok e → e ≢ [])
      → IsEdited file (some text, r)

open_editor-named : (sys : EditSystem) (e : Text) → open_editor sys ≡ ok e → e ≢ []
open_editor-named sys =
    if-elim (λ r. (e : Text) → r ≡ ok e → e ≢ []) (text_eq (editor_of sys) [])
      (λ none_named e h. absurd cc)
      (λ named.
        if-elim (λ r. (e : Text) → r ≡ ok e → e ≢ []) sys.exits_fine
          (λ fine e h empty.
            let same : editor_of sys ≡ [] = cc in
            let yes = (text_eq_iff (editor_of sys) []).1 same in cc)
          (λ fails e h. absurd cc))

with_file-IsEdited : (sys : EditSystem) (file : Option Text) → IsEdited file (with_file sys file)
with_file-IsEdited sys (some text) = edited text _ (inl refl) (open_editor-named sys)
with_file-IsEdited sys none =
    if-elim (IsEdited none) sys.writes
      (λ works. edited default_config_template _ (inr (refl, refl)) (open_editor-named sys))
      (λ fails. unwritten refl)

-- An existing configuration file is kept as it is; a missing one stays missing or becomes the
-- default template. No error means that a file is there and that an editor with a name ran on it.
pub edit_config-IsEdited :
    (sys : EditSystem) (file : Option Text) → IsEdited file (edit_config sys file)
unfolding edit_config
edit_config-IsEdited sys file =
    if-elim (IsEdited file) (not sys.has_dir && not sys.makes_dir) (λ fails. no_dir)
      (λ there. with_file-IsEdited sys file)
