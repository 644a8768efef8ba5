-- ===== src/Push/Remote.antt =====
-- The remote command of `PushKey` in internal/sshpush/sshpush.go, as a command of the shell: its
-- parts, its text, and what POSIX says that the parts do.
use lanmon.Prelude.{
  ◌≡◌, Bool, true, false, ◌||◌, Option, none, some, [], ◌∷◌, ◌++◌, Text, codes, text_eq,
  if◌then◌else◌, append_assoc,
}
use lanmon.Go.Strings.{has_prefix}
use lanmon.Push.Run.{ssh_dir, auth_keys, push_command}

pub data Command : Type 0 where
  -- `mkdir -p dir`
  make_dir : Text → Command
  -- `chmod mode path`
  set_mode : Text → Text → Command
  -- `grep -qF 'pattern' file 2>/dev/null`
  search_file : Text → Text → Command
  -- `echo 'text'`
  print : Text → Command
  -- `echo 'text' >> file`
  append_to : Text → Text → Command
  -- `chown -R user:user path`
  set_owner : Text → Text → Command
  -- `a && b`, `a || b` and `(a)`
  both either : Command → Command → Command
  group : Command → Command

unfoldable pub render : Command → Text
render (make_dir dir) = codes "mkdir -p " ++ dir
render (set_mode mode path) = codes "chmod " ++ mode ++ codes " " ++ path
render (search_file pattern file) =
    codes "grep -qF '" ++ pattern ++ codes "' " ++ file ++ codes " 2>/dev/null"
render (print text) = codes "echo '" ++ text ++ codes "'"
render (append_to text file) = codes "echo '" ++ text ++ codes "' >> " ++ file
render (set_owner user path) = codes "chown -R " ++ user ++ codes ":" ++ user ++ codes " " ++ path
render (both a b) = render a ++ codes " && " ++ render b
render (either a b) = render a ++ codes " || " ++ render b
render (group a) = codes "(" ++ render a ++ codes ")"

-- The files of the host by their paths, and which calls succeed.
abbrev pub Files : Type 0
Files = Text → Option Text

pub record Host : Type 0 where
  pub makes_dir : Text → Bool
  pub sets_mode : Text → Text → Bool
  pub sets_owner : Text → Text → Bool
  pub appends : Text → Bool

abbrev pub with_file : Files → Text → Text → Files
with_file files path content = λ p. if text_eq p path then some content else files p

-- The pattern stands somewhere in the text.
unfoldable pub has_infix : Text → Text → Bool
unfolding has_prefix
has_infix [] pattern = has_prefix [] pattern
has_infix (c ∷ s) pattern = has_prefix (c ∷ s) pattern || has_infix s pattern

-- `grep -F` of a pattern without line breaks: a line of the file contains it. A file that is
-- missing or empty has no line.
unfoldable pub grep_fixed : Text → Option Text → Bool
unfolding has_infix
grep_fixed pattern none = false
grep_fixed pattern (some []) = false
grep_fixed pattern (some (c ∷ s)) = has_infix (c ∷ s) pattern

abbrev pub content_of : Option Text → Text
content_of none = []
content_of (some s) = s

-- The files behind a command, its output, and whether it exits with 0.
abbrev pub Ended : Type 0
Ended = Files × Text × Bool

abbrev pub printed_before : Text → Ended → Ended
printed_before out (files, more, done) = (files, out ++ more, done)

abbrev pub and_then : Ended → (Files → Ended) → Ended
and_then (files, out, true) next = printed_before out (next files)
and_then (files, out, false) next = (files, out, false)

abbrev pub or_else : Ended → (Files → Ended) → Ended
or_else (files, out, true) next = (files, out, true)
or_else (files, out, false) next = printed_before out (next files)

unfoldable pub meaning : Host → Command → Files → Ended
unfolding grep_fixed
meaning host (make_dir dir) files = (files, [], host.makes_dir dir)
meaning host (set_mode mode path) files = (files, [], host.sets_mode mode path)
meaning host (search_file pattern file) files = (files, [], grep_fixed pattern (files file))
meaning host (print text) files = (files, text ++ codes "\n", true)
meaning host (append_to text file) files =
    if host.appends file
    then (with_file files file (content_of (files file) ++ text ++ codes "\n"), [], true)
    else (files, [], false)
meaning host (set_owner user path) files = (files, [], host.sets_owner user path)
meaning host (both a b) files = and_then (meaning host a files) (meaning host b)
meaning host (either a b) files = or_else (meaning host a files) (meaning host b)
meaning host (group a) files = meaning host a files

-- The commands that add the key and print that it is there now.
abbrev pub add_key : Text → Text → Command
add_key user key =
    both
      (both (both (append_to key (auth_keys user)) (set_mode (codes "600") (auth_keys user)))
        (set_owner user (ssh_dir user)))
      (print (codes "KEY_ADDED"))

unfoldable pub key_command : Text → Text → Command
key_command user key =
    both (both (make_dir (ssh_dir user)) (set_mode (codes "700") (ssh_dir user))) (
      group (
        either (both (search_file key (auth_keys user)) (print (codes "KEY_EXISTS")))
          (group (add_key user key))))

-- The text that `PushKey` sends is that of the command.
pub push_command-render : (user key : Text) → push_command user key ≡ render (key_command user key)
unfolding push_command render key_command
push_command-render user key = simp append_assoc
