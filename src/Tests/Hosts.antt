-- ===== src/Tests/Hosts.antt =====
-- `Sync` on a small /etc/hosts.
use lanmon.Prelude.{
  ℕ, zero, suc, ◌≡◌, refl, text_eq, true, false, none, some, List, [], ◌∷◌, ◌++◌, Text, codes,
  length, All, arith, ◌⊎◌, ap,
}
use lanmon.Go.Strings.{unlines, pad_right}
use lanmon.Go.Scanner.{scan_lines, IsPlainLine, IsLine, max_token, drop_cr}
use lanmon.Store.Record.{HostRecord}
use lanmon.Store.Ops.{first_record, read_all}
use lanmon.Store.Sorted.{sorted_bolt, empty_bucket}
use lanmon.Hosts.Sync.{
  end_marker, entries_of, line_kind, preserved, separated, rewritten, sync, wrote, SyncError,
  broke_off,
}
use lanmon.Hosts.Rewrite.{IsTame, HasNoCr, rewritten-rewritten}
use lanmon.Hosts.Faults.{rewritten_long, injected_line, sync_exact}
use lanmon.Tests.Store.{sample, mac1, t0}

abbrev named : Text → HostRecord
named hostname = first_record (sample mac1 hostname (codes "192.168.1.1")) t0

abbrev pub hosts : List HostRecord
hosts = named (codes "host1") ∷ []

abbrev pub file : Text
file =
    codes
      "127.0.0.1 localhost\n# BEGIN LANMON MANAGED HOSTS\n10.0.0.9 old\n# END LANMON MANAGED HOSTS\n::1 ip6\n"

rewritten-file :
    rewritten hosts file
    ≡ codes
        "127.0.0.1 localhost\n::1 ip6\n\n# BEGIN LANMON MANAGED HOSTS\n192.168.1.1      host1\n# END LANMON MANAGED HOSTS\n"
unfolding rewritten entries_of line_kind text_eq
rewritten-file = refl

pub tame1 : All IsTame (entries_of hosts)
unfolding entries_of text_eq drop_cr line_kind
tame1 = (
  record {
    plain = record { one_line = omega arith; short = omega arith; no_cr = refl };
    is_other = refl;
  },
  tt,
)

pub no_cr1 : All HasNoCr (scan_lines file)
unfolding scan_lines
no_cr1 = (refl, (refl, (refl, (refl, (refl, tt)))))

rewritten-rewritten_example : rewritten [] (rewritten hosts file) ≡ rewritten [] file
rewritten-rewritten_example = rewritten-rewritten hosts file tame1 no_cr1 []

abbrev evil : HostRecord
evil = named (codes "x" ++ (b'\n' ∷ (end_marker ++ (b'\n' ∷ codes "10.6.6.6 bank.example"))))

IsTame-front : IsTame (pad_right 16 evil.beacon.ip_address ++ (b' ' ∷ codes "x"))
unfolding pad_right drop_cr line_kind
IsTame-front = record {
  plain = record { one_line = omega arith; short = omega arith; no_cr = refl };
  is_other = refl;
}

IsTame-behind : IsTame (codes "10.6.6.6 bank.example")
unfolding drop_cr line_kind
IsTame-behind = record {
  plain = record { one_line = omega arith; short = omega arith; no_cr = refl };
  is_other = refl;
}

injected_line_example :
    preserved false (scan_lines (rewritten (evil ∷ []) file))
    ≡ separated (preserved false (scan_lines file)) ++ codes "10.6.6.6 bank.example" ∷ []
unfolding text_eq
injected_line_example =
    injected_line evil (codes "x") (codes "10.6.6.6 bank.example") file refl refl IsTame-front
      IsTame-behind no_cr1

letters : ℕ → Text
letters zero = []
letters (suc n) = b'a' ∷ letters n

letters-IsLine : (n : ℕ) → IsLine (letters n)
unfolding letters
letters-IsLine zero = tt
letters-IsLine (suc n) = (λ h. omega arith, letters-IsLine n)

length-letters : (n : ℕ) → length (letters n) ≡ n
unfolding letters
length-letters zero = refl
length-letters (suc n) = ap suc (length-letters n)

localhost_plain : IsPlainLine (codes "127.0.0.1 localhost")
unfolding drop_cr
localhost_plain = record { one_line = omega arith; short = omega arith; no_cr = refl }

rewritten_long_example :
    rewritten hosts (
      unlines (codes "127.0.0.1 localhost" ∷ [])
      ++ (letters max_token ++ (b'\n' ∷ codes "::1 ip6\n")))
    ≡ rewritten hosts (unlines (codes "127.0.0.1 localhost" ∷ []))
rewritten_long_example =
    rewritten_long hosts (codes "127.0.0.1 localhost" ∷ []) (letters max_token) (codes "::1 ip6\n")
      (localhost_plain, tt) (letters-IsLine max_token) (omega (arith, length-letters max_token))

sync_exact_example :
    ((true ≡ true)
      × ((sync sorted_bolt true true true wrote empty_bucket file).1 ≡ none)
      × ((sync sorted_bolt true true true wrote empty_bucket file).0
          ≡ rewritten (read_all []) file))
    ⊎ ((e : SyncError) × ((sync sorted_bolt true true true wrote empty_bucket file).1 ≡ some e)
        × (((sync sorted_bolt true true true wrote empty_bucket file).0 ≡ file)
            ⊎ ((left : Text) × (wrote ≡ broke_off left)
                × ((sync sorted_bolt true true true wrote empty_bucket file).0 ≡ left))))
sync_exact_example = sync_exact sorted_bolt true true true wrote empty_bucket file
