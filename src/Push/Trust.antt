-- ===== src/Push/Trust.antt =====
-- Which keys of a host a push accepts.
use lanmon.Prelude.{
  ℕ, ◌≡◌, ◌⊎◌, refl, sym, ap, ◌∙◌, [], ◌∷◌, Text, Bytes, some, Result, ok, err, arith, Option-cases,
  inl, inr, Bool,
}
use lanmon.Push.HostKeys.{
  Knownhosts, Disk, KnownFile, file, HostKeyError, Callback, wrap_callback, wrapped, Checked, known,
  key_error, other_error, get_host_key_callback, loaded,
}
use lanmon.Push.Run.{Connection, Site, dial, push_key, after_auth}
use lanmon.Push.Exact.{push_key_iff}

after_auth-ok :
    (lets_in : Bool) (r : Result HostKeyError (Unit {0})) → after_auth lets_in r ≡ ok tt → r ≡ ok tt
after_auth-ok lets_in (err e) h = absurd cc
after_auth-ok lets_in (ok tt) h = refl

dial-ok :
    (callback : Callback) (addr : Text) (c : Connection) (f : KnownFile)
    → (dial callback addr c f).1 ≡ ok tt
    → (remote : Text) × (key : Bytes) × (c.reached ≡ some (remote, key))
      × ((callback addr remote key f).1 ≡ ok tt)
unfolding dial
dial-ok callback addr c f h = elim (Option-cases c.reached) [
  | inl no_host ↦ absurd (ground arith)
  | inr ((remote, key), reached) ↦
      let shown : (dial callback addr c f).1 ≡ after_auth c.lets_in (callback addr remote key f).1 =
        rw (reached, dial) refl in
      (remote, key, reached, after_auth-ok c.lets_in (callback addr remote key f).1 (sym shown ∙ h))
]

ok_injective : {a b : Callback} → Path (Result HostKeyError Callback) (ok a) (ok b) → a ≡ b
ok_injective {a} h = ap (or_else a) h
  where
    or_else : Callback → Result HostKeyError Callback → Callback
    or_else d (err e) = d
    or_else d (ok x) = x

module _ (kh : Knownhosts) (disk : Disk) where
  -- The database knows the key for the host, or knows no key for it.
  abbrev pub IsTrusted : kh.Db → Text → Connection → Type 0
  IsTrusted db addr c =
      (remote : Text) × (key : Bytes) × (c.reached ≡ some (remote, key))
      × ((kh.check db addr remote key ≡ known) ⊎ (kh.check db addr remote key ≡ key_error []))

  wrapped-ok :
      (c : Checked) (remote : Text) (key : Bytes) (f : KnownFile)
      → (wrapped kh disk c remote key f).1 ≡ ok tt
      → (c ≡ known) ⊎ (c ≡ key_error [])
  wrapped-ok known remote key f h = inl refl
  wrapped-ok (key_error []) remote key f h = inr refl
  wrapped-ok (key_error (k ∷ want)) remote key f h = absurd cc
  wrapped-ok other_error remote key f h = absurd cc

  dial-IsTrusted :
      (db : kh.Db) (addr : Text) (c : Connection) (f : KnownFile)
      → (dial (wrap_callback kh disk db) addr c f).1 ≡ ok tt
      → IsTrusted db addr c
  unfolding wrap_callback
  dial-IsTrusted db addr c f h =
      let (remote, key, reached, accepted) = dial-ok (wrap_callback kh disk db) addr c f h in
      (remote, key, reached, wrapped-ok (kh.check db addr remote key) remote key f accepted)

  -- A push with a known_hosts file that can be loaded succeeds only if neither connection shows a
  -- key in the place of another one that the file lists for the host.
  pub push_key-IsTrusted :
      (db : kh.Db) (addr user pub_path path s : Text) (c : ℕ) (site : Site)
      → kh.load s ≡ some db
      → (push_key kh disk addr user pub_path (c ∷ path) site (file s)).1 ≡ ok tt
      → IsTrusted db addr site.pushing × IsTrusted db addr site.verifying
  unfolding get_host_key_callback
  push_key-IsTrusted db addr user pub_path path s c site loads h =
      let p = (push_key_iff kh disk addr user pub_path (c ∷ path) site (file s)).0 h in
      let same : wrap_callback kh disk db ≡ p.callback =
        ok_injective (sym (ap (loaded kh disk) loads) ∙ ap (λ r. r.1) p.set_up) in
      (
        dial-IsTrusted db addr site.pushing p.known
            (ap (λ cb. (dial cb addr site.pushing p.known).1) same ∙ p.dialed),
        dial-IsTrusted db addr site.verifying (dial p.callback addr site.pushing p.known).0 (
            ap (λ cb. (dial cb addr site.verifying (dial p.callback addr site.pushing p.known).0).1)
              same
            ∙ p.verified.dialed_again),
      )
