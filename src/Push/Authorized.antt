-- ===== src/Push/Authorized.antt =====
-- What a push leaves in the authorized_keys file of the host.
use mathlib.Core.Path.{subst}
use lanmon.Prelude.{
  ◌≡◌, ◌⊎◌, inl, inr, refl, sym, ap, ◌∙◌, Bool, true, false, ◌&&◌, Option, none, some, [], ◌++◌,
  Text, codes, if◌then◌else◌,
}
use lanmon.Push.Run.{ssh_dir, auth_keys}
use lanmon.Push.Remote.{
  Host, Files, Ended, with_file, content_of, Command, both, make_dir, set_mode, search_file, print,
  either, group, and_then, or_else, add_key, append_to, grep_fixed, meaning, key_command,
}

-- The combined output of a command that exits with 0.
abbrev pub answer : Ended → Option Text
answer (files, out, true) = some out
answer (files, out, false) = none

-- The file behind a key that is added.
abbrev pub added_to : Files → Text → Text → Files
added_to files user key =
    with_file files (auth_keys user) (content_of (files (auth_keys user)) ++ key ++ codes "\n")

module _ (host : Host) (user key : Text) (files : Files) where
  -- The directory of the keys is there and has its mode.
  pub record IsReady : Type 0 where
    pub makes_dir : host.makes_dir (ssh_dir user) ≡ true
    pub sets_mode : host.sets_mode (codes "700") (ssh_dir user) ≡ true

  -- The key can be added, with the mode and the owner of the file.
  pub record IsAddable : Type 0 where
    pub appends : host.appends (auth_keys user) ≡ true
    pub sets_mode : host.sets_mode (codes "600") (auth_keys user) ≡ true
    pub sets_owner : host.sets_owner user (ssh_dir user) ≡ true

  abbrev pub is_there : Bool
  is_there = grep_fixed key (files (auth_keys user))

  abbrev set_up : Command
  set_up = both (make_dir (ssh_dir user)) (set_mode (codes "700") (ssh_dir user))

  abbrev search_key : Command
  search_key = both (search_file key (auth_keys user)) (print (codes "KEY_EXISTS"))

  -- The ways in which the command can end.
  pub data Ends : Ended → Type 0 where
    found : IsReady → is_there ≡ true → Ends (files, codes "KEY_EXISTS\n", true)
    added :
        IsReady
        → is_there ≡ false
        → IsAddable
        → Ends (added_to files user key, codes "KEY_ADDED\n", true)
    fails :
        (left : Files) → (left ≡ files) ⊎ (left ≡ added_to files user key) → Ends (left, [], false)

  set_up_ended :
      (dir mode : Bool)
      → host.makes_dir (ssh_dir user) ≡ dir
      → host.sets_mode (codes "700") (ssh_dir user) ≡ mode
      → meaning host set_up files ≡ (files, [], dir && mode)
  unfolding meaning
  set_up_ended true mode e f = rw (e, f) refl
  set_up_ended false mode e f = rw e refl

  search_ended :
      (there : Bool)
      → is_there ≡ there
      → meaning host search_key files
        ≡ (if there then (files, codes "KEY_EXISTS\n", true) else (files, [], false))
  unfolding meaning
  search_ended true e = rw e refl
  search_ended false e = rw e refl

  abbrev then_mode : Ended → Ended
  then_mode x = and_then x (λ fs. (fs, [], host.sets_mode (codes "600") (auth_keys user)))

  abbrev then_owner : Ended → Ended
  then_owner x =
      and_then (and_then x (λ fs. (fs, [], host.sets_owner user (ssh_dir user))))
        (λ fs. (fs, codes "KEY_ADDED\n", true))

  append_ended :
      (appends : Bool)
      → host.appends (auth_keys user) ≡ appends
      → meaning host (append_to key (auth_keys user)) files
        ≡ (if appends then (added_to files user key, [], true) else (files, [], false))
  unfolding meaning
  append_ended appends e =
      ap (λ b. if b then (added_to files user key, [], true) else (files, [], false)) e

  mode_ended :
      (mode : Bool)
      → host.sets_mode (codes "600") (auth_keys user) ≡ mode
      → then_mode (added_to files user key, [], true) ≡ (added_to files user key, [], mode)
  mode_ended mode e = ap (λ b. (added_to files user key, [], b)) e

  owner_ended :
      (owned : Bool)
      → host.sets_owner user (ssh_dir user) ≡ owned
      → then_owner (added_to files user key, [], true) ≡ (
          if owned
          then (added_to files user key, codes "KEY_ADDED\n", true)
          else (added_to files user key, [], false))
  owner_ended true e =
      ap (λ b. and_then (added_to files user key, [], b) (λ fs. (fs, codes "KEY_ADDED\n", true))) e
  owner_ended false e =
      ap (λ b. and_then (added_to files user key, [], b) (λ fs. (fs, codes "KEY_ADDED\n", true))) e

  add_ended :
      (appends mode owned : Bool)
      → host.appends (auth_keys user) ≡ appends
      → host.sets_mode (codes "600") (auth_keys user) ≡ mode
      → host.sets_owner user (ssh_dir user) ≡ owned
      → meaning host (add_key user key) files ≡ (
          if appends
          then if mode && owned
            then (added_to files user key, codes "KEY_ADDED\n", true)
            else (added_to files user key, [], false)
          else (files, [], false))
  unfolding meaning
  add_ended false mode owned e f g = ap (λ x. then_owner (then_mode x)) (append_ended false e)
  add_ended true false owned e f g =
      ap (λ x. then_owner (then_mode x)) (append_ended true e) ∙ ap then_owner (mode_ended false f)
  add_ended true true true e f g =
      ap (λ x. then_owner (then_mode x)) (append_ended true e)
      ∙ ap then_owner (mode_ended true f)
      ∙ owner_ended true g
  add_ended true true false e f g =
      ap (λ x. then_owner (then_mode x)) (append_ended true e)
      ∙ ap then_owner (mode_ended true f)
      ∙ owner_ended false g

  -- The command by its three parts.
  pub key_command_parts :
      (there : Bool)
      → IsReady
      → is_there ≡ there
      → meaning host (key_command user key) files ≡ (
          if there
          then (files, codes "KEY_EXISTS\n", true)
          else meaning host (add_key user key) files)
  unfolding meaning key_command
  key_command_parts there ready e =
      ap (λ x. and_then x (meaning host (group (either search_key (group (add_key user key))))))
        (set_up_ended true true ready.makes_dir ready.sets_mode)
      ∙ ap (λ x. or_else x (meaning host (add_key user key))) (search_ended there e)
      ∙ by_search there
    where
      by_search :
          (there : Bool)
          → or_else
              (if there then (files, codes "KEY_EXISTS\n", true) else (files, [], false))
              (meaning host (add_key user key))
            ≡ (if there
                then (files, codes "KEY_EXISTS\n", true)
                else meaning host (add_key user key) files)
      by_search true = refl
      by_search false = refl

  not_set_up :
      (dir mode : Bool)
      → host.makes_dir (ssh_dir user) ≡ dir
      → host.sets_mode (codes "700") (ssh_dir user) ≡ mode
      → (dir && mode) ≡ false
      → meaning host (key_command user key) files ≡ (files, [], false)
  unfolding meaning key_command
  not_set_up dir mode d m neither =
      ap (λ x. and_then x (meaning host (group (either search_key (group (add_key user key))))))
        (set_up_ended dir mode d m ∙ ap (λ b. (files, [], b)) neither)

  Ends-from :
      (dir mode there appends own_mode owned : Bool)
      → host.makes_dir (ssh_dir user) ≡ dir
      → host.sets_mode (codes "700") (ssh_dir user) ≡ mode
      → is_there ≡ there
      → host.appends (auth_keys user) ≡ appends
      → host.sets_mode (codes "600") (auth_keys user) ≡ own_mode
      → host.sets_owner user (ssh_dir user) ≡ owned
      → Ends (meaning host (key_command user key) files)
  Ends-from false mode there appends own_mode owned d m t a n o =
      subst Ends (sym (not_set_up false mode d m refl)) (fails files (inl refl))
  Ends-from true false there appends own_mode owned d m t a n o =
      subst Ends (sym (not_set_up true false d m refl)) (fails files (inl refl))
  Ends-from true true true appends own_mode owned d m t a n o =
      let ready : IsReady = record { makes_dir = d; sets_mode = m } in
      subst Ends (sym (key_command_parts true ready t)) (found ready t)
  Ends-from true true false appends own_mode owned d m t a n o =
      let ready : IsReady = record { makes_dir = d; sets_mode = m } in
      subst Ends (sym (key_command_parts false ready t ∙ add_ended appends own_mode owned a n o))
        (adding appends own_mode owned ready t a n o)
    where
      adding :
          (appends own_mode owned : Bool)
          → IsReady
          → is_there ≡ false
          → host.appends (auth_keys user) ≡ appends
          → host.sets_mode (codes "600") (auth_keys user) ≡ own_mode
          → host.sets_owner user (ssh_dir user) ≡ owned
          → Ends (
              if appends
              then if own_mode && owned
                then (added_to files user key, codes "KEY_ADDED\n", true)
                else (added_to files user key, [], false)
              else (files, [], false))
      adding false own_mode owned ready t a n o = fails files (inl refl)
      adding true false owned ready t a n o = fails (added_to files user key) (inr refl)
      adding true true false ready t a n o = fails (added_to files user key) (inr refl)
      adding true true true ready t a n o =
          added ready t (record { appends = a; sets_mode = n; sets_owner = o })

  -- The command ends in one of these ways, and in no other.
  pub key_command-Ends : Ends (meaning host (key_command user key) files)
  key_command-Ends = Ends-from _ _ _ _ _ _ refl refl refl refl refl refl
