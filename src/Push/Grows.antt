-- ===== src/Push/Grows.antt =====
-- A push only adds to the known_hosts file.
use lanmon.Prelude.{
  ◌≡◌, refl, ap, ◌∙◌, [], ◌∷◌, ◌++◌, Text, codes, Option, none, some, Result, ok, err, Bool-cases,
  Option-cases, inl, inr, text_eq, append_assoc,
}
use lanmon.Go.Strings.{trim_space}
use lanmon.Push.HostKeys.{
  Knownhosts, Disk, Appending, not_opened, appended, torn, KnownFile, missing, directory, file,
  HostKeyError, Callback, append_line, tofu_callback, wrap_callback, wrapped, Checked, known,
  key_error, other_error, first_use, get_host_key_callback, known_dir, loaded,
}
use lanmon.Push.Run.{
  private_path, Connection, Site, PushError, dial, push_session, after_dial, then_verify,
  with_callback, verify_pub_key_auth, verify_session_of, push_key, dialing, verify_dial,
}
use lanmon.Push.Exact.{after_dial_file}

-- What stands at the path now has all that stood there before: a file may have more text behind it.
pub data Extends : KnownFile → KnownFile → Type 0 where
  same : (f : KnownFile) → Extends f f
  made : (f : KnownFile) → Extends missing f
  longer : (s t u : Text) → u ≡ s ++ t → Extends (file s) (file u)

Extends-trans : {f g h : KnownFile} → Extends f g → Extends g h → Extends f h
Extends-trans (same f) e = e
Extends-trans (made f) e = made _
Extends-trans (longer s t u h) (same _) = longer s t u h
Extends-trans (longer s t u h) (longer _ t' u' h') =
    longer s (t ++ t') u' (h' ∙ ap (λ x. x ++ t') h ∙ append_assoc s t t')

append_line-Extends :
    (a : Appending) (line : Text) (f : KnownFile) → Extends f (append_line a line f).0
unfolding append_line
append_line-Extends not_opened line f = same f
append_line-Extends appended line missing = made _
append_line-Extends appended line directory = same _
append_line-Extends appended line (file s) = longer s (line ++ codes "\n") _ refl
append_line-Extends (torn part) line missing = made _
append_line-Extends (torn part) line directory = same _
append_line-Extends (torn part) line (file s) = longer s part _ refl

IsAppending : Callback → Type 0
IsAppending callback =
    (host remote : Text) (key : Text) (f : KnownFile) → Extends f (callback host remote key f).0

abbrev IsAppendingSetUp : Result HostKeyError Callback → Type 0
IsAppendingSetUp (err e) = Unit
IsAppendingSetUp (ok callback) = IsAppending callback

dial-Extends :
    (callback : Callback) (addr : Text) (c : Connection) (f : KnownFile)
    → IsAppending callback
    → Extends f (dial callback addr c f).0
unfolding dial IsAppending
dial-Extends callback addr c f h = elim (Option-cases c.reached) [
  | inl no_host ↦ rw (no_host, dial) (same f)
  | inr (shown, reached) ↦ rw (reached, dial) (h addr shown.0 shown.1 f)
]

module _ (kh : Knownhosts) (disk : Disk) where
  wrapped-Extends :
      (c : Checked) (remote : Text) (key : Text) (f : KnownFile)
      → Extends f (wrapped kh disk c remote key f).0
  wrapped-Extends known remote key f = same f
  wrapped-Extends (key_error []) remote key f =
      append_line-Extends disk.appends (kh.line remote key) f
  wrapped-Extends (key_error (k ∷ want)) remote key f = same f
  wrapped-Extends other_error remote key f = same f

  -- The set-up and the callback it gives.
  set_up-Extends :
      (path : Text) (f : KnownFile) → Extends f (get_host_key_callback kh disk path f).0
  unfolding get_host_key_callback
  set_up-Extends [] f = same f
  set_up-Extends (c ∷ path) missing = made _
  set_up-Extends (c ∷ path) directory = same _
  set_up-Extends (c ∷ path) (file s) = same _

  loaded-IsAppending : (o : Option kh.Db) → IsAppendingSetUp (loaded kh disk o)
  unfolding IsAppending wrap_callback
  loaded-IsAppending none = tt
  loaded-IsAppending (some db) =
      λ host remote key f. wrapped-Extends (kh.check db host remote key) remote key f

  first_use-IsAppending : (path : Text) → IsAppendingSetUp (first_use kh disk path).1
  unfolding first_use IsAppending tofu_callback
  first_use-IsAppending path = elim (Bool-cases disk.makes_dir) [
    | inr fails ↦ rw fails tt
    | inl makes ↦ elim (Bool-cases (text_eq (known_dir path) path)) [
      | inl taken ↦ rw (makes, taken) tt
      | inr free ↦ elim (Bool-cases disk.creates) [
        | inr fails ↦ rw (makes, free, fails) tt
        | inl creates ↦
            rw (makes, free, creates)
              (λ host remote key f. append_line-Extends disk.appends (kh.line remote key) f)
      ]
    ]
  ]

  set_up-IsAppending :
      (path : Text) (f : KnownFile) → IsAppendingSetUp (get_host_key_callback kh disk path f).1
  unfolding get_host_key_callback IsAppending
  set_up-IsAppending [] f = λ host remote key f. same f
  set_up-IsAppending (c ∷ path) missing = first_use-IsAppending (c ∷ path)
  set_up-IsAppending (c ∷ path) directory = tt
  set_up-IsAppending (c ∷ path) (file s) = loaded-IsAppending (kh.load s)

  module _ (addr user pub_path : Text) (site : Site) where
    verify-Extends :
        (callback : Callback) (f : KnownFile)
        → IsAppending callback
        → Extends f (verify_pub_key_auth callback addr pub_path site f).0
    unfolding verify_pub_key_auth
    verify-Extends callback f h = elim (Option-cases (site.read_file (private_path pub_path))) [
      | inl no_key ↦ rw (no_key, verify_pub_key_auth) (same f)
      | inr (private, has) ↦ elim (Bool-cases (site.parses private)) [
        | inr fails ↦ rw (has, verify_pub_key_auth, fails) (same f)
        | inl parsed ↦
            rw
              (
                has,
                verify_pub_key_auth,
                parsed,
                after_dial_file verify_dial (verify_session_of site.verifying)
                    (dial callback addr site.verifying f),
              )
              (dial-Extends callback addr site.verifying f h)
      ]
    ]

    then_verify-Extends :
        (callback : Callback) (f : KnownFile) (d : KnownFile × Result PushError (Unit {0}))
        → IsAppending callback
        → Extends f d.0
        → Extends f (then_verify (verify_pub_key_auth callback addr pub_path site) d).0
    then_verify-Extends callback f (g, err e) h x = x
    then_verify-Extends callback f (g, ok tt) h x = Extends-trans x (verify-Extends callback g h)

    with_callback-Extends :
        (key : Text) (f : KnownFile) (p : KnownFile × Result HostKeyError Callback)
        → IsAppendingSetUp p.1
        → Extends f p.0
        → Extends f (with_callback addr user pub_path key site p).0
    with_callback-Extends key f (g, err e) h x = x
    with_callback-Extends key f (g, ok callback) h x =
        let d = dial callback addr site.pushing g in
        let r = push_session user key site.pushing in
        then_verify-Extends callback f (after_dial dialing r d) h (
          rw (after_dial_file dialing r d)
            (Extends-trans x (dial-Extends callback addr site.pushing g h)))

    -- However a push ends, the known_hosts file keeps the text that it had: lines are only added
    -- behind it.
    pub push_key-Extends :
        (path : Text) (f : KnownFile)
        → Extends f (push_key kh disk addr user pub_path path site f).0
    unfolding push_key verify_pub_key_auth
    push_key-Extends path f = elim (Option-cases (site.read_file pub_path)) [
      | inl no_key ↦ rw (no_key, push_key) (same f)
      | inr (key, has) ↦
          rw (has, push_key)
            (with_callback-Extends (trim_space key) f (get_host_key_callback kh disk path f)
              (set_up-IsAppending path f) (set_up-Extends path f))
    ]
