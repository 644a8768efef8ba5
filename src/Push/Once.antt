-- ===== src/Push/Once.antt =====
-- A push of the key by its outcomes: what it says, and what is in the authorized_keys file then.
use mathlib.Core.Path.{subst}
use lanmon.Prelude.{
  ◌≡◌, ◌⊎◌, refl, sym, ap, ◌∙◌, true, false, Option, some, List, [], ◌∷◌, ◌++◌, ℕ, Text, codes,
  text_eq, text_eq_refl, ok, err, arith, append_assoc, Result,
}
use lanmon.Go.Strings.{has_prefix, trim_space, unlines, unlines-append}
use lanmon.Push.Run.{
  Connection, PushError, key_exists, remote_command, auth_keys, push_command, push_session,
  pushed_output, from_output,
}
use lanmon.Push.Remote.{Host, Files, Ended, content_of, has_infix, grep_fixed, meaning, key_command}
use lanmon.Push.Authorized.{
  answer, added_to, IsReady, Ends, found, added, fails, is_there, key_command-Ends,
  key_command_parts,
}

-- The connection runs the command as the shell of the host does, on the files that it has.
abbrev pub Runs : Host → Files → Text → Text → Connection → Type 0
Runs host files user key c =
    (c.session ≡ true)
    × (c.combined_output (push_command user key)
        ≡ answer (meaning host (key_command user key) files))

module _ (host : Host) (user key : Text) (files : Files) where
  -- What `PushKey` learns of the session, and the files that it leaves.
  pub data Pushes : Result PushError (Unit {0}) → Files → Type 0 where
    is_new : is_there host user key files ≡ false → Pushes (ok tt) (added_to files user key)
    is_old : is_there host user key files ≡ true → Pushes (err key_exists) files
    gives_up :
        (left : Files)
        → (left ≡ files) ⊎ (left ≡ added_to files user key)
        → Pushes (err remote_command) left

  judged : Option Text → Result PushError (Unit {0})
  judged = from_output remote_command (λ output. pushed_output (trim_space output))

  Ends-Pushes : (e : Ended) → Ends host user key files e → Pushes (judged (answer e)) e.0
  unfolding judged trim_space text_eq
  Ends-Pushes _ (found ready there) = is_old there
  Ends-Pushes _ (added ready missing addable) = is_new missing
  Ends-Pushes _ (fails left which) = gives_up left which

  judged_exists : judged (some (codes "KEY_EXISTS\n")) ≡ err key_exists
  unfolding judged trim_space text_eq
  judged_exists = refl

  Pushes-ok :
      (r : Result PushError (Unit {0})) (left : Files)
      → Pushes r left
      → r ≡ ok tt
      → left ≡ added_to files user key
  Pushes-ok _ _ (is_new missing) h = refl
  Pushes-ok _ left (is_old there) h = absurd cc
  Pushes-ok _ _ (gives_up left which) h = absurd cc

  session_judged :
      (c : Connection)
      → Runs host files user key c
      → push_session user key c ≡ judged (answer (meaning host (key_command user key) files))
  unfolding push_session judged
  session_judged c (begins, output) = rw (begins, output) refl

  -- On a connection that runs the command, the session is judged to be good only where the key was not
  -- in the file, and it is appended then; to have met the key only where it was there, and the files
  -- are as they were then; and otherwise to have failed, with the files as they were or with the key
  -- appended.
  pub push_session-Pushes :
      (c : Connection)
      → Runs host files user key c
      → Pushes (push_session user key c) (meaning host (key_command user key) files).0
  push_session-Pushes c runs =
      subst (λ r. Pushes r (meaning host (key_command user key) files).0)
        (sym (session_judged c runs))
        (Ends-Pushes (meaning host (key_command user key) files)
          (key_command-Ends host user key files))

has_prefix-append : (k b : Text) → has_prefix (k ++ b) k ≡ true
unfolding has_prefix
has_prefix-append [] [] = refl
has_prefix-append [] (c ∷ b) = refl
has_prefix-append (c ∷ k) b = ground (arith, has_prefix-append k b)

has_prefix-has_infix : (s k : Text) → has_prefix s k ≡ true → has_infix s k ≡ true
unfolding has_infix
has_prefix-has_infix [] k h = h
has_prefix-has_infix (c ∷ s) k h = rw h refl

has_infix-append : (a k b : Text) → has_infix (a ++ k ++ b) k ≡ true
unfolding has_infix
has_infix-append [] k b = has_prefix-has_infix (k ++ b) k (has_prefix-append k b)
has_infix-append (c ∷ a) k b = ground (arith, has_infix-append a k b)

-- A text that contains the pattern and is not empty.
grep_fixed-append : (a k : Text) (c : ℕ) (b : Text) → grep_fixed k (some (a ++ k ++ c ∷ b)) ≡ true
unfolding grep_fixed
grep_fixed-append [] [] c b = has_infix-append [] [] (c ∷ b)
grep_fixed-append [] (d ∷ k) c b = has_infix-append [] (d ∷ k) (c ∷ b)
grep_fixed-append (d ∷ a) k c b = has_infix-append (d ∷ a) k (c ∷ b)

-- A file that contains the key, wherever it stands, makes the session say that the key exists.
pub contained_exists :
    (host : Host) (user key before rest : Text) (c : ℕ) (files : Files) (conn : Connection)
    → files (auth_keys user) ≡ some (before ++ key ++ c ∷ rest)
    → IsReady host user key files
    → Runs host files user key conn
    → push_session user key conn ≡ err key_exists
contained_exists host user key before rest c files conn content ready runs =
    let there : is_there host user key files ≡ true =
      rw content (grep_fixed-append before key c rest) in
    session_judged host user key files conn runs
    ∙ ap (λ e. judged host user key files (answer e))
        (key_command_parts host user key files true ready there)
    ∙ judged_exists host user key files

-- Behind a push that added the key, the next push of the key on the files that it left says that the
-- key exists, if the directory of the keys is there; both connections run the command.
pub second_push_exists :
    (host host' : Host) (user key : Text) (files : Files) (conn conn' : Connection)
    → Runs host files user key conn
    → push_session user key conn ≡ ok tt
    → IsReady host' user key (meaning host (key_command user key) files).0
    → Runs host' (meaning host (key_command user key) files).0 user key conn'
    → push_session user key conn' ≡ err key_exists
second_push_exists host host' user key files conn conn' runs pushed ready runs' =
    let left = (meaning host (key_command user key) files).0 in
    let same =
      Pushes-ok host user key files (push_session user key conn) left
        (push_session-Pushes host user key files conn runs) pushed in
    let content : left (auth_keys user)
        ≡ some (content_of (files (auth_keys user)) ++ key ++ codes "\n") =
      ap (λ fs. fs (auth_keys user)) same ∙ rw (text_eq_refl (auth_keys user)) refl in
    contained_exists host' user key (content_of (files (auth_keys user))) [] b'\n' left conn'
      content ready runs'

-- A key that is added, on a connection that runs the command, stands behind what the file holds after
-- its last line break: on a line of its own exactly if that is nothing.
pub appended_line :
    (host : Host) (user key last : Text) (lines : List Text) (files : Files) (conn : Connection)
    → content_of (files (auth_keys user)) ≡ unlines lines ++ last
    → Runs host files user key conn
    → push_session user key conn ≡ ok tt
    → (meaning host (key_command user key) files).0 (auth_keys user)
      ≡ some (unlines (lines ++ (last ++ key) ∷ []))
unfolding unlines
appended_line host user key last lines files conn content runs pushed =
    let same =
      Pushes-ok host user key files (push_session user key conn)
        (meaning host (key_command user key) files).0
        (push_session-Pushes host user key files conn runs) pushed in
    ap (λ fs. fs (auth_keys user)) same ∙ rw (text_eq_refl (auth_keys user)) (ap some placed)
  where
    placed :
        content_of (files (auth_keys user)) ++ key ++ codes "\n"
        ≡ unlines (lines ++ (last ++ key) ∷ [])
    placed =
        ap (λ s. s ++ key ++ codes "\n") content
        ∙ ap (λ s. s ++ codes "\n") (append_assoc (unlines lines) last key)
        ∙ append_assoc (unlines lines) (last ++ key) (codes "\n")
        ∙ sym (unlines-append lines ((last ++ key) ∷ []))
