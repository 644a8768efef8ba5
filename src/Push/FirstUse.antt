-- ===== src/Push/FirstUse.antt =====
-- A push without a known_hosts file: which names of the file work, and which keys are accepted.
use lanmon.Prelude.{
  ℕ, ◌≡◌, ◌≢◌, refl, ap, true, false, [], ◌∷◌, Text, Bytes, codes, some, Result, ok, err,
  Bool-cases, Option-cases, inl, inr, text_eq, text_eq_refl,
}
use lanmon.Go.Strings.{trim_space, has_suffix, trim_suffix}
use lanmon.Push.HostKeys.{
  Knownhosts, Disk, Appending, not_opened, appended, torn, KnownFile, missing, directory, file,
  HostKeyError, Callback, append_line, tofu_callback, first_use, get_host_key_callback, known_dir,
  creating, making_dir, loading,
}
use lanmon.Push.Run.{
  private_path, Site, DialError, PushError, dial, push_session, after_dial, then_verify,
  with_callback, verify_pub_key_auth, verify_session_of, push_key, dialing, verify_dial, after_auth,
}

-- What stands at the path is no file.
pub data IsNoFile : KnownFile → Type 0 where
  none_yet : IsNoFile missing
  a_directory : IsNoFile directory

module _ (kh : Knownhosts) (disk : Disk) where
  first_use_other_name :
      (path : Text)
      → text_eq (known_dir path) path ≡ true
      → (g : KnownFile) × (e : HostKeyError) × (first_use kh disk path ≡ (g, err e)) × IsNoFile g
  unfolding first_use
  first_use_other_name path same = elim (Bool-cases disk.makes_dir) [
    | inl makes ↦ (directory, creating, rw (makes, same) refl, a_directory)
    | inr fails ↦ (missing, making_dir, rw fails refl, none_yet)
  ]

  known_dir_same :
      (path : Text)
      → has_suffix path (codes "/known_hosts") ≡ false
      → text_eq (known_dir path) path ≡ true
  unfolding trim_suffix
  known_dir_same path name = rw name (text_eq_refl path)

  set_up_other_name :
      (path : Text) (c : ℕ) (f : KnownFile)
      → has_suffix (c ∷ path) (codes "/known_hosts") ≡ false
      → IsNoFile f
      → (g : KnownFile) × (e : HostKeyError) × (get_host_key_callback kh disk (c ∷ path) f
          ≡ (g, err e))
        × IsNoFile g
  unfolding get_host_key_callback
  set_up_other_name path c missing name none_yet =
      first_use_other_name (c ∷ path) (known_dir_same (c ∷ path) name)
  set_up_other_name path c directory name a_directory = (directory, loading, refl, a_directory)
  set_up_other_name path c (file s) name present = elim present [ ]

  -- Where the path of the known_hosts file is set and does not end in `/known_hosts`, and no file is
  -- there, no push succeeds, and none of them makes the file: the first makes a directory of that
  -- name.
  pub push_key_other_name :
      (addr user pub_path path : Text) (c : ℕ) (site : Site) (f : KnownFile)
      → has_suffix (c ∷ path) (codes "/known_hosts") ≡ false
      → IsNoFile f
      → ((push_key kh disk addr user pub_path (c ∷ path) site f).1 ≢ ok tt)
        × IsNoFile (push_key kh disk addr user pub_path (c ∷ path) site f).0
  unfolding push_key verify_pub_key_auth
  push_key_other_name addr user pub_path path c site f name no_file =
      elim (Option-cases (site.read_file pub_path)) [
        | inl no_key ↦ rw (no_key, push_key) ((λ h. cc), no_file)
        | inr (key, has) ↦
            let (g, e, set_up, still) = set_up_other_name path c f name no_file in
            rw (has, push_key, set_up) ((λ h. cc), still)
      ]

-- The site as it is, with a host that shows this key at the verification.
abbrev pub showing : Text → Bytes → Site → Site
showing remote key site = record site {
  verifying = record (site.verifying) { reached = some (remote, key) };
}

-- The answer does not depend on the key.
IsBlind : Callback → Type 0
IsBlind callback =
    (host remote : Text) (key remote' key' : Bytes) (f : KnownFile)
    → (callback host remote key f).1 ≡ (callback host remote' key' f).1

abbrev IsBlindSetUp : Result HostKeyError Callback → Type 0
IsBlindSetUp (err e) = Unit
IsBlindSetUp (ok callback) = IsBlind callback

append_line_blind :
    (a : Appending) (line line' : Text) (f : KnownFile)
    → (append_line a line f).1 ≡ (append_line a line' f).1
unfolding append_line
append_line_blind not_opened line line' f = refl
append_line_blind appended line line' missing = refl
append_line_blind appended line line' directory = refl
append_line_blind appended line line' (file s) = refl
append_line_blind (torn part) line line' missing = refl
append_line_blind (torn part) line line' directory = refl
append_line_blind (torn part) line line' (file s) = refl

module _ (kh : Knownhosts) (disk : Disk) where
  first_use-IsBlind : (path : Text) → IsBlindSetUp (first_use kh disk path).1
  unfolding first_use tofu_callback IsBlind
  first_use-IsBlind path = elim (Bool-cases disk.makes_dir) [
    | inr fails ↦ rw fails tt
    | inl makes ↦ elim (Bool-cases (text_eq (known_dir path) path)) [
      | inl taken ↦ rw (makes, taken) tt
      | inr free ↦ elim (Bool-cases disk.creates) [
        | inr fails ↦ rw (makes, free, fails) tt
        | inl creates ↦
            rw (makes, free, creates)
              (λ host remote key remote' key' f.
                append_line_blind disk.appends (kh.line remote key) (kh.line remote' key') f)
      ]
    ]
  ]

  set_up-IsBlind : (path : Text) → IsBlindSetUp (get_host_key_callback kh disk path missing).1
  unfolding get_host_key_callback IsBlind
  set_up-IsBlind [] = λ host remote key remote' key' f. refl
  set_up-IsBlind (c ∷ path) = first_use-IsBlind (c ∷ path)

  after_dial_result :
      (wrap : DialError → PushError) (r : Result PushError (Unit {0}))
      (d d' : KnownFile × Result DialError (Unit {0}))
      → d.1 ≡ d'.1
      → (after_dial wrap r d).1 ≡ (after_dial wrap r d').1
  after_dial_result wrap r (f, err e) (g, err e') h = ap (after_error) h
    where
      after_error : Result DialError (Unit {0}) → Result PushError (Unit {0})
      after_error (err x) = err (wrap x)
      after_error (ok x) = r
  after_dial_result wrap r (f, err e) (g, ok _) h = absurd cc
  after_dial_result wrap r (f, ok _) (g, err e) h = absurd cc
  after_dial_result wrap r (f, ok _) (g, ok _) h = refl

  then_verify_result :
      (v v' : KnownFile → KnownFile × Result PushError (Unit {0}))
      (d : KnownFile × Result PushError (Unit {0}))
      → ((f : KnownFile) → (v f).1 ≡ (v' f).1)
      → (then_verify v d).1 ≡ (then_verify v' d).1
  then_verify_result v v' (f, err e) h = refl
  then_verify_result v v' (f, ok tt) h = h f

  module _ (addr remote pub_path : Text) (key key' : Bytes) (site : Site) where
    verify_blind :
        (callback : Callback) (f : KnownFile)
        → IsBlind callback
        → (verify_pub_key_auth callback addr pub_path (showing remote key site) f).1
          ≡ (verify_pub_key_auth callback addr pub_path (showing remote key' site) f).1
    unfolding verify_pub_key_auth dial IsBlind verify_session_of
    verify_blind callback f h = elim (Option-cases (site.read_file (private_path pub_path))) [
      | inl no_key ↦ rw (no_key, verify_pub_key_auth) refl
      | inr (private, has) ↦ elim (Bool-cases (site.parses private)) [
        | inr fails ↦ rw (has, verify_pub_key_auth, fails) refl
        | inl parsed ↦
            rw (has, verify_pub_key_auth, parsed)
              (after_dial_result verify_dial (verify_session_of site.verifying)
                (dial callback addr ((showing remote key site).verifying) f)
                (dial callback addr ((showing remote key' site).verifying) f)
                (ap (after_auth site.verifying.lets_in) (h addr remote key remote key' f)))
      ]
    ]

    with_callback_blind :
        (user sent : Text) (p : KnownFile × Result HostKeyError Callback)
        → IsBlindSetUp p.1
        → (with_callback addr user pub_path sent (showing remote key site) p).1
          ≡ (with_callback addr user pub_path sent (showing remote key' site) p).1
    with_callback_blind user sent (f, err e) h = refl
    with_callback_blind user sent (f, ok callback) h =
        then_verify_result (verify_pub_key_auth callback addr pub_path (showing remote key site))
          (verify_pub_key_auth callback addr pub_path (showing remote key' site))
          (after_dial dialing (push_session user sent site.pushing)
            (dial callback addr site.pushing f))
          (λ g. verify_blind callback g h)

    -- On a push that makes the known_hosts file, the verification accepts every key: the result is
    -- the same whichever key the host shows there.
    pub first_push_any_key :
        (user path : Text)
        → (push_key kh disk addr user pub_path path (showing remote key site) missing).1
          ≡ (push_key kh disk addr user pub_path path (showing remote key' site) missing).1
    unfolding push_key verify_pub_key_auth
    first_push_any_key user path = elim (Option-cases (site.read_file pub_path)) [
      | inl no_key ↦ rw (no_key, push_key) refl
      | inr (sent, has) ↦
          rw (has, push_key)
            (with_callback_blind user (trim_space sent) (get_host_key_callback kh disk path missing)
              (set_up-IsBlind path))
    ]
