-- ===== src/Connect/Keys.antt =====
-- Which key a push sends that was generated by the same run.
use mathlib.Core.Path.{subst}
use mathlib.Core.Option.{some-injective}
use lanmon.Prelude.{
  ok, ℕ, suc, zero, ◌-◌, ◌<◌, ◌≡◌, refl, sym, ap, ◌∙◌, true, false, [], ◌∷◌, ◌++◌, Bytes, Text,
  codes, some, text_eq, text_eq_iff, text_eq_refl, length, length-append, take, drop, if◌then◌else◌,
  arith, Bool-cases, inl, inr,
}
use lanmon.Go.Strings.{has_suffix, trim_suffix, trim_space}
use lanmon.Push.HostKeys.{Knownhosts, Disk, KnownFile}
use lanmon.Push.Run.{Site, private_path, push_key}
use lanmon.Push.Session.{IsAdded}
use lanmon.Push.Exact.{push_key_iff}
use lanmon.Connect.Ssh.{Files, write_file, KeyPair, SshKeygen, keygen_args}

take-append-drop : (n : ℕ) (xs : Text) → take n xs ++ drop n xs ≡ xs
take-append-drop zero xs = refl
take-append-drop (suc n) [] = refl
take-append-drop (suc n) (x ∷ xs) = ap (◌∷◌ x) (take-append-drop n xs)

-- A text with the suffix is what stands before it, and the suffix.
trim_suffix-append : (s p : Text) → has_suffix s p ≡ true → trim_suffix s p ++ p ≡ s
unfolding trim_suffix has_suffix
trim_suffix-append s p h =
    let ends : drop (length s - length p) s ≡ p =
      (text_eq_iff (drop (length s - length p) s) p).0 (ground arith) in
    rw h (
      ap (λ q. take (length s - length p) s ++ q) (sym ends)
      ∙ take-append-drop (length s - length p) s)

trim_suffix_other : (s p : Text) → has_suffix s p ≡ false → trim_suffix s p ≡ s
unfolding trim_suffix
trim_suffix_other s p h = rw h refl

append-ne : (s p : Text) → 0 < length p → text_eq s (s ++ p) ≡ false
append-ne s p h = elim (Bool-cases (text_eq s (s ++ p))) [
  | inr other ↦ other
  | inl same ↦
      let e = ap (λ (t : Text). length t) ((text_eq_iff s (s ++ p)).0 same) in
      absurd (omega (arith, length-append s p))
]

-- The key that stands at the path of the public key.
abbrev pub key_at : KeyPair → Text → Bytes
key_at pair pub_path =
    if has_suffix pub_path (codes ".pub") then pair.public_key else pair.private_key

module _ (keygen : SshKeygen) (pub_path : Text) (files : Files) where
  abbrev pub generated : Files
  generated = keygen.made (keygen_args pub_path) files

  generated-write :
      (p : Text)
      → generated p
        ≡ write_file
            (private_path pub_path ++ codes ".pub")
            keygen.pair.public_key
            (write_file (private_path pub_path) keygen.pair.private_key files)
            p
  unfolding keygen_args
  generated-write p = keygen.writes (private_path pub_path) files p

  private_generated : generated (private_path pub_path) ≡ some keygen.pair.private_key
  private_generated =
      generated-write (private_path pub_path)
      ∙ rw
          (
            append-ne (private_path pub_path) (codes ".pub") (omega arith),
            text_eq_refl (private_path pub_path),
          )
          refl

  public_generated : generated pub_path ≡ some (key_at keygen.pair pub_path)
  public_generated = elim (Bool-cases (has_suffix pub_path (codes ".pub"))) [
    | inl named ↦
        let whole = trim_suffix-append pub_path (codes ".pub") named in
        generated-write pub_path ∙ rw (whole, text_eq_refl pub_path, named) refl
    | inr other ↦
        rw other
          (ap generated (sym (trim_suffix_other pub_path (codes ".pub") other)) ∙ private_generated)
  ]

  -- What a push has done that found these files: the host has run the command with the key that
  -- stands at the path of the public key, and said that it was added, and the private key was parsed
  -- for the second connection.
  pub record Sends (user : Text) (site : Site) : Type 0 where
    pub added : IsAdded user (trim_space (key_at keygen.pair pub_path)) site.pushing
    pub signs : site.parses keygen.pair.private_key ≡ true

  -- A push that succeeds behind the generation of a key has sent the public key to the host, if the
  -- path that is set for it ends in `.pub`, and the private key otherwise; and for its second
  -- connection it has parsed the private key.
  pub generated_key-Sends :
      (kh : Knownhosts) (disk : Disk) (addr user known_path : Text) (site : Site) (f : KnownFile)
      → ((p : Text) → site.read_file p ≡ generated p)
      → (push_key kh disk addr user pub_path known_path site f).1 ≡ ok tt
      → Sends user site
  generated_key-Sends kh disk addr user known_path site f reads done =
      let p = (push_key_iff kh disk addr user pub_path known_path site f).0 done in
      let key : key_at keygen.pair pub_path ≡ p.key =
        some-injective (key_at keygen.pair pub_path) p.key
          (sym (reads pub_path ∙ public_generated) ∙ p.has_key) in
      let private : keygen.pair.private_key ≡ p.verified.private =
        some-injective keygen.pair.private_key p.verified.private
          (sym (reads (private_path pub_path) ∙ private_generated) ∙ p.verified.has_private) in
      record {
        added = subst (λ k. IsAdded user (trim_space k) site.pushing) (sym key) p.added;
        signs = ap site.parses private ∙ p.verified.parsed;
      }
