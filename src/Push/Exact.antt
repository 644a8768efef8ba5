-- ===== src/Push/Exact.antt =====
-- `PushKey` returns no error exactly if each of its steps went well.
use lanmon.Prelude.{
  ◌≡◌, ◌↔◌, inl, inr, refl, sym, ap, ◌∙◌, true, Bytes, Text, some, Result, ok, err, arith,
  Bool-cases, Option-cases,
}
use lanmon.Go.Strings.{trim_space}
use lanmon.Push.HostKeys.{
  Knownhosts, Disk, KnownFile, HostKeyError, Callback, get_host_key_callback,
}
use lanmon.Push.Run.{
  private_path, Site, DialError, PushError, dial, push_session, verify_session_of, after_dial,
  verify_dial, dialing, then_verify, with_callback, verify_pub_key_auth, push_key,
}
use lanmon.Push.Session.{IsAdded, IsOk, push_session_iff, verify_session_iff}

after_dial-ok :
    (wrap : DialError → PushError) (r : Result PushError (Unit {0}))
    (d : KnownFile × Result DialError (Unit {0}))
    → (after_dial wrap r d).1 ≡ ok tt
    → (d.1 ≡ ok tt) × (r ≡ ok tt)
after_dial-ok wrap r (f, err e) h = absurd cc
after_dial-ok wrap r (f, ok tt) h = (refl, h)

pub after_dial_file :
    (wrap : DialError → PushError) (r : Result PushError (Unit {0}))
    (d : KnownFile × Result DialError (Unit {0}))
    → (after_dial wrap r d).0 ≡ d.0
after_dial_file wrap r (f, err e) = refl
after_dial_file wrap r (f, ok tt) = refl

then_verify-ok :
    (verify : KnownFile → KnownFile × Result PushError (Unit {0}))
    (d : KnownFile × Result PushError (Unit {0}))
    → (then_verify verify d).1 ≡ ok tt
    → (d.1 ≡ ok tt) × ((verify d.0).1 ≡ ok tt)
then_verify-ok verify (f, err e) h = absurd cc
then_verify-ok verify (f, ok tt) h = (refl, h)

after_dial-intro :
    (wrap : DialError → PushError) (r : Result PushError (Unit {0}))
    (d : KnownFile × Result DialError (Unit {0}))
    → d.1 ≡ ok tt
    → r ≡ ok tt
    → (after_dial wrap r d).1 ≡ ok tt
after_dial-intro wrap r (f, err e) h k = absurd cc
after_dial-intro wrap r (f, ok tt) h k = k

then_verify-intro :
    (verify : KnownFile → KnownFile × Result PushError (Unit {0}))
    (d : KnownFile × Result PushError (Unit {0}))
    → d.1 ≡ ok tt
    → (verify d.0).1 ≡ ok tt
    → (then_verify verify d).1 ≡ ok tt
then_verify-intro verify (f, err e) h k = absurd cc
then_verify-intro verify (f, ok tt) h k = k

module _ (callback : Callback) (addr pub_path : Text) (site : Site) (f : KnownFile) where
  -- The verification went well.
  pub record IsVerified : Type 0 where
    pub private : Bytes
    pub has_private : site.read_file (private_path pub_path) ≡ some private
    pub parsed : site.parses private ≡ true
    pub dialed_again : (dial callback addr site.verifying f).1 ≡ ok tt
    pub answered : IsOk site.verifying

  verify-dial :
      (private : Bytes)
      → site.read_file (private_path pub_path) ≡ some private
      → site.parses private ≡ true
      → verify_pub_key_auth callback addr pub_path site f
        ≡ after_dial verify_dial
            (verify_session_of site.verifying)
            (dial callback addr site.verifying f)
  unfolding verify_pub_key_auth
  verify-dial private has parsed = rw (has, verify_pub_key_auth, parsed) refl

  verify-inv : (verify_pub_key_auth callback addr pub_path site f).1 ≡ ok tt → IsVerified
  unfolding verify_pub_key_auth
  verify-inv h = elim (Option-cases (site.read_file (private_path pub_path))) [
    | inl missing ↦ absurd (ground arith)
    | inr (private, has) ↦ elim (Bool-cases (site.parses private)) [
      | inr fails ↦ absurd (ground arith)
      | inl parsed ↦
          let (dialed, session) =
            after_dial-ok verify_dial (verify_session_of site.verifying)
              (dial callback addr site.verifying f)
              (sym (ap (λ r. r.1) (verify-dial private has parsed)) ∙ h) in
          record {
            private = private;
            has_private = has;
            parsed = parsed;
            dialed_again = dialed;
            answered = (verify_session_iff site.verifying).0 session;
          }
    ]
  ]

  verify-intro : IsVerified → (verify_pub_key_auth callback addr pub_path site f).1 ≡ ok tt
  verify-intro v =
      ap (λ r. r.1) (verify-dial v.private v.has_private v.parsed)
      ∙ after_dial-intro verify_dial (verify_session_of site.verifying)
          (dial callback addr site.verifying f) v.dialed_again
          ((verify_session_iff site.verifying).1 v.answered)

module _ (kh : Knownhosts) (disk : Disk) (addr user pub_path path : Text) (site : Site)
    (f : KnownFile) where
  -- The steps of a push that went well, in their order.
  pub record IsPushed : Type 0 where
    pub key : Bytes
    pub callback : Callback
    pub known : KnownFile
    pub has_key : site.read_file pub_path ≡ some key
    pub set_up : get_host_key_callback kh disk path f ≡ (known, ok callback)
    pub dialed : (dial callback addr site.pushing known).1 ≡ ok tt
    pub added : IsAdded user (trim_space key) site.pushing
    pub verified : IsVerified callback addr pub_path site (dial callback addr site.pushing known).0

  with_callback-inv :
      (key : Bytes) (p : KnownFile × Result HostKeyError Callback)
      → site.read_file pub_path ≡ some key
      → get_host_key_callback kh disk path f ≡ p
      → (with_callback addr user pub_path (trim_space key) site p).1 ≡ ok tt
      → IsPushed
  with_callback-inv key (g, err e) has set_up h = absurd cc
  with_callback-inv key (g, ok callback) has set_up h =
      let d = dial callback addr site.pushing g in
      let r = push_session user (trim_space key) site.pushing in
      let (pushed, verified) =
        then_verify-ok (verify_pub_key_auth callback addr pub_path site) (after_dial dialing r d)
          h in
      let (dialed, added) = after_dial-ok dialing r d pushed in
      record {
        key = key;
        callback = callback;
        known = g;
        has_key = has;
        set_up = set_up;
        dialed = dialed;
        added = (push_session_iff user (trim_space key) site.pushing).0 added;
        verified = verify-inv callback addr pub_path site d.0 (
            ap (λ k. (verify_pub_key_auth callback addr pub_path site k).1)
              (sym (after_dial_file dialing r d))
            ∙ verified);
      }

  -- `PushKey` returns no error exactly if the public key can be read, the check of host keys can be
  -- set up, the host is reached with an accepted key and lets the user in, the remote command says
  -- that the key was added, and the private key then opens a second connection that answers OK.
  pub push_key_iff : ((push_key kh disk addr user pub_path path site f).1 ≡ ok tt) ↔ IsPushed
  unfolding push_key
  push_key_iff = (
    (λ h. elim (Option-cases (site.read_file pub_path)) [
      | inl missing ↦ absurd (ground arith)
      | inr (key, has) ↦
          with_callback-inv key (get_host_key_callback kh disk path f) has refl
            (sym (ap (λ r. r.1) (key_read key has)) ∙ h)
    ]),
    (λ p.
        ap (λ r. r.1) (key_read p.key p.has_key)
        ∙ ap (λ q. (with_callback addr user pub_path (trim_space p.key) site q).1) p.set_up
        ∙ then_verify-intro (verify_pub_key_auth p.callback addr pub_path site) _
            (after_dial-intro dialing _ _ p.dialed
              ((push_session_iff user (trim_space p.key) site.pushing).1 p.added))
            (ap (λ k. (verify_pub_key_auth p.callback addr pub_path site k).1)
                (after_dial_file dialing _ _)
              ∙ verify-intro p.callback addr pub_path site _ p.verified)),
  )
    where
      key_read :
          (key : Bytes)
          → site.read_file pub_path ≡ some key
          → push_key kh disk addr user pub_path path site f
            ≡ with_callback addr user pub_path
                (trim_space key)
                site
                (get_host_key_callback kh disk path f)
      key_read key has = rw (has, push_key) refl
