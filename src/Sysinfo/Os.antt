-- ===== src/Sysinfo/Os.antt =====
-- internal/sysinfo/sysinfo.go: `readOSReleasePrettyName`, `getOSInfo` and `Collect`.
use lanmon.Prelude.{
  ℕ, ◌≡◌, refl, ap, ◌∙◌, false, not, ◌&&◌, List, [], ◌∷◌, ◌++◌, ◌==◌, if◌then◌else◌, Text, codes,
  text_eq, Option, none, some, Result, ok, ◌>>=◌, All,
}
use lanmon.Go.Int.{pos}
use lanmon.Go.Strings.{has_prefix, trim_prefix}
use lanmon.Sysinfo.{SystemInfo}
use lanmon.Sysinfo.Net.{IpNet}
use lanmon.Sysinfo.Interfaces.{Interface, NetworkError, get_network_info}

abbrev in_front : ℕ → List Text → List Text
in_front c [] = []
in_front c (p ∷ ps) = if c == b'\n' then [] ∷ p ∷ ps else (c ∷ p) ∷ ps

-- `strings.Split(s, "\n")`
unfoldable pub split_lines : Text → List Text
split_lines [] = [] ∷ []
split_lines (c ∷ s) = in_front c (split_lines s)

unfoldable pub trim_left_quotes : Text → Text
trim_left_quotes [] = []
trim_left_quotes (c ∷ s) = let rest = trim_left_quotes s in if c == b'"' then rest else c ∷ s

abbrev quote_before : ℕ → Text → Text
quote_before c [] = if c == b'"' then [] else c ∷ []
quote_before c (d ∷ s) = c ∷ d ∷ s

unfoldable pub trim_right_quotes : Text → Text
trim_right_quotes [] = []
trim_right_quotes (c ∷ s) = quote_before c (trim_right_quotes s)

-- `strings.Trim(s, "\"")`
unfoldable pub trim_quotes : Text → Text
unfolding trim_left_quotes trim_right_quotes
trim_quotes s = trim_right_quotes (trim_left_quotes s)

abbrev pub pretty_key : Text
pretty_key = codes "PRETTY_NAME="

unfoldable pub pretty_name : List Text → Text
unfolding has_prefix trim_prefix trim_quotes
pretty_name [] = []
pretty_name (line ∷ rest) =
    let later = pretty_name rest in
    if has_prefix line pretty_key then trim_quotes (trim_prefix line pretty_key) else later

-- `readOSReleasePrettyName`, on the text of /etc/os-release, if it can be read.
unfoldable pub read_os_release_pretty_name : Option Text → Text
unfolding pretty_name split_lines
read_os_release_pretty_name none = []
read_os_release_pretty_name (some text) = pretty_name (split_lines text)

-- What `host.Info` says.
pub record HostInfo : Type 0 where
  pub platform : Text
  pub platform_version : Text
  pub kernel_version : Text

abbrev pub host_names : Text → Option HostInfo → Text × Text
host_names goos none = (goos, [])
host_names goos (some h) = (
  (if text_eq h.platform_version [] then h.platform else h.platform ++ (b' ' ∷ h.platform_version)),
  h.kernel_version,
)

-- `getOSInfo`: the operating system's name and the kernel.
unfoldable pub get_os_info : Text → Option HostInfo → Option Text → Text × Text
get_os_info goos host release =
    let names = host_names goos host in
    let pretty = read_os_release_pretty_name release in
    if text_eq goos (codes "linux") && not (text_eq pretty []) then (pretty, names.1) else names

-- What the machine tells of itself; `memory` is the rounded number of gigabytes as a float64.
pub record Facts : Type 0 where
  pub interfaces : Option (List Interface)
  pub hostname : Text
  pub goos : Text
  pub goarch : Text
  pub host : Option HostInfo
  pub os_release : Option Text
  pub cpus : ℕ
  pub cpu_models : Option (List Text)
  pub memory : Option ℕ
  pub partitions : Option ℕ

abbrev pub first_model : Option (List Text) → Text
first_model none = []
first_model (some []) = []
first_model (some (m ∷ models)) = m

abbrev pub or_zero : Option ℕ → ℕ
or_zero none = 0
or_zero (some n) = n

abbrev pub info_of : Facts → Text × Text → SystemInfo
info_of m addresses =
    let names = get_os_info m.goos m.host m.os_release in
    record {
      mac_address = addresses.0;
      ip_address = addresses.1;
      hostname = m.hostname;
      os_name = names.0;
      kernel = names.1;
      arch = m.goarch;
      cpu_model = first_model m.cpu_models;
      cpu_cores = pos m.cpus;
      memory_gb = or_zero m.memory;
      disk_count = pos (or_zero m.partitions);
    }

-- `Collect`
unfoldable pub collect : (Text → Option IpNet) → Facts → Text → Result NetworkError SystemInfo
unfolding get_os_info
collect parse_cidr m range = do
  addresses ← get_network_info parse_cidr m.interfaces range
  ok (info_of m addresses)

trim_right_quotes-append : (s : Text) → trim_right_quotes (s ++ b'"' ∷ []) ≡ trim_right_quotes s
unfolding trim_right_quotes
trim_right_quotes-append [] = refl
trim_right_quotes-append (c ∷ s) = ap (quote_before c) (trim_right_quotes-append s)

trim_quotes-quoted :
    (c : ℕ) (name : Text)
    → (c == b'"') ≡ false
    → trim_right_quotes (c ∷ name) ≡ c ∷ name
    → trim_quotes (b'"' ∷ c ∷ name ++ b'"' ∷ []) ≡ c ∷ name
unfolding trim_quotes trim_left_quotes
trim_quotes-quoted c name front behind = rw front (trim_right_quotes-append (c ∷ name) ∙ behind)

-- The name in /etc/os-release is read back from the first line `PRETTY_NAME="…"`, whatever stands
-- in front and behind, if no line in front begins so, and the name is not empty and neither begins
-- nor ends with a quote.
pub pretty_name-quoted :
    (front rest : List Text) (c : ℕ) (name : Text)
    → All (λ line. has_prefix line pretty_key ≡ false) front
    → (c == b'"') ≡ false
    → trim_right_quotes (c ∷ name) ≡ c ∷ name
    → pretty_name (front ++ (pretty_key ++ b'"' ∷ c ∷ name ++ b'"' ∷ []) ∷ rest) ≡ c ∷ name
unfolding pretty_name has_prefix trim_prefix
pretty_name-quoted [] rest c name h begins ends = trim_quotes-quoted c name begins ends
pretty_name-quoted (line ∷ front) rest c name h begins ends =
    rw (h.0) (pretty_name-quoted front rest c name h.1 begins ends)
