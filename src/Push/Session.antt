-- ===== src/Push/Session.antt =====
-- What the two sessions of a push say when they go well.
use lanmon.Prelude.{
  ◌≡◌, ◌↔◌, inl, inr, refl, true, Text, codes, text_eq, text_eq_iff, Option, none, some, Result, ok,
  arith, Bool-cases,
}
use lanmon.Go.Strings.{trim_space}
use lanmon.Push.Run.{
  Connection, PushError, push_command, push_session, verify_session_of, remote_command,
  verify_command, from_output, pushed_output, verified_output,
}

-- The session ran the command that adds the key, and it answered KEY_ADDED.
abbrev pub IsAdded : Text → Text → Connection → Type 0
IsAdded user key c =
    (output : Text) × (c.session ≡ true)
    × (c.combined_output (push_command user key) ≡ some output)
    × (trim_space output ≡ codes "KEY_ADDED")

-- The session answered OK.
abbrev pub IsOk : Connection → Type 0
IsOk c =
    (output : Text) × (c.session ≡ true)
    × (c.combined_output (codes "echo OK") ≡ some output)
    × (trim_space output ≡ codes "OK")

from_output-ok :
    (e : PushError) (judge : Text → Result PushError (Unit {0})) (o : Option Text)
    → from_output e judge o ≡ ok tt
    → (output : Text) × (o ≡ some output) × (judge output ≡ ok tt)
from_output-ok e judge none h = absurd cc
from_output-ok e judge (some output) h = (output, refl, h)

pushed_output-ok : (result : Text) → pushed_output result ≡ ok tt → result ≡ codes "KEY_ADDED"
pushed_output-ok result h =
    ground (arith, text_eq_iff result (codes "KEY_EXISTS"), text_eq_iff result (codes "KEY_ADDED"))

verified_output-ok :
    (output : Text) → verified_output output ≡ ok tt → trim_space output ≡ codes "OK"
verified_output-ok output h = ground (arith, text_eq_iff (trim_space output) (codes "OK"))

pub push_session_iff :
    (user key : Text) (c : Connection) → (push_session user key c ≡ ok tt) ↔ IsAdded user key c
unfolding push_session text_eq
push_session_iff user key c = (
  (λ h. elim (Bool-cases c.session) [
    | inl begins ↦
        let (output, ran, judged) =
          from_output-ok remote_command (λ o. pushed_output (trim_space o))
            (c.combined_output (push_command user key)) (subst_session begins h) in
        (output, begins, ran, pushed_output-ok (trim_space output) judged)
    | inr fails ↦ absurd (ground arith)
  ]),
  (λ (output, begins, ran, said). rw (begins, ran, said) refl),
)
  where
    subst_session :
        c.session ≡ true
        → push_session user key c ≡ ok tt
        → from_output remote_command
            (λ o. pushed_output (trim_space o))
            (c.combined_output (push_command user key))
          ≡ ok tt
    subst_session begins h = ground arith

pub verify_session_iff : (c : Connection) → (verify_session_of c ≡ ok tt) ↔ IsOk c
unfolding verify_session_of text_eq
verify_session_iff c = (
  (λ h. elim (Bool-cases c.session) [
    | inl begins ↦
        let (output, ran, judged) =
          from_output-ok verify_command verified_output (c.combined_output (codes "echo OK"))
            (subst_session begins h) in
        (output, begins, ran, verified_output-ok output judged)
    | inr fails ↦ absurd (ground arith)
  ]),
  (λ (output, begins, ran, said). rw (begins, ran, said) refl),
)
  where
    subst_session :
        c.session ≡ true
        → verify_session_of c ≡ ok tt
        → from_output verify_command verified_output (c.combined_output (codes "echo OK")) ≡ ok tt
    subst_session begins h = ground arith
