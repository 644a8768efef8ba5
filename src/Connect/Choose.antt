-- ===== src/Connect/Choose.antt =====
-- cmd/connect/connect.go: the choice of the host by its number in the table.
use lanmon.Prelude.{
  ℕ, zero, suc, ◌-◌, ◌≡◌, ◌↔◌, ◌≤◌, refl, false, ◌||◌, List, [], ◌∷◌, ◌++◌, if◌then◌else◌, Text,
  Option, none, some, length, take, get_elem?, leb, ltb, arith,
}
use lanmon.Go.Int.{ℤ, pos, negsuc}
use lanmon.Go.Strings.{trim_space}
use lanmon.Go.Strconv.{atoi}
use lanmon.Store.Record.{HostRecord}

-- `index < 1 || index > len(hosts)`, and the host in front of that index.
unfoldable pub host_at : List HostRecord → Option ℤ → Option HostRecord
host_at hosts none = none
host_at hosts (some (negsuc n)) = none
host_at hosts (some (pos n)) =
    if ltb n 1 || ltb (length hosts) n then none else get_elem? hosts (n - 1)

unfoldable pub choose_host : List HostRecord → Text → Option HostRecord
unfolding host_at
choose_host hosts line = host_at hosts (atoi (trim_space line))

-- `truncate`: the cut is in bytes.
unfoldable pub truncate : Text → ℕ → Text
truncate s n = if leb (length s) n then s else take (n - 1) s ++ (0xE2 ∷ 0x80 ∷ 0xA6 ∷ [])

pub lt-get_elem? :
    (i : ℕ) (hosts : List HostRecord) (h : HostRecord)
    → get_elem? hosts i ≡ some h
    → suc i ≤ length hosts
lt-get_elem? i [] h e = absurd cc
lt-get_elem? zero (g ∷ hosts) h e = omega arith
lt-get_elem? (suc i) (g ∷ hosts) h e = omega (arith, lt-get_elem? i hosts h e)

get_elem?-lt :
    (i : ℕ) (hosts : List HostRecord)
    → suc i ≤ length hosts
    → (h : HostRecord) × (get_elem? hosts i ≡ some h)
get_elem?-lt i [] l = absurd (omega arith)
get_elem?-lt zero (h ∷ hosts) l = (h, refl)
get_elem?-lt (suc i) (h ∷ hosts) l = get_elem?-lt i hosts (omega arith)

pub choose_host_iff :
    (hosts : List HostRecord) (line : Text) (h : HostRecord)
    → (choose_host hosts line ≡ some h)
      ↔ ((i : ℕ) × (atoi (trim_space line) ≡ some (pos (suc i))) × (get_elem? hosts i ≡ some h))
unfolding choose_host
choose_host_iff hosts line h = (chosen (atoi (trim_space line)), λ (i, n, at). back i n at)
  where
    chosen :
        (o : Option ℤ)
        → host_at hosts o ≡ some h
        → (i : ℕ) × (o ≡ some (pos (suc i))) × (get_elem? hosts i ≡ some h)
    chosen none e = absurd cc
    chosen (some (negsuc n)) e = absurd cc
    chosen (some (pos zero)) e = absurd (ground arith)
    chosen (some (pos (suc n))) e = (n, refl, ground arith)

    back :
        (i : ℕ)
        → atoi (trim_space line) ≡ some (pos (suc i))
        → get_elem? hosts i ≡ some h
        → host_at hosts (atoi (trim_space line)) ≡ some h
    back i n at =
        let l = lt-get_elem? i hosts h at in
        let in_range : ltb (length hosts) (suc i) ≡ false = ground arith in
        let positive : ltb (suc i) 1 ≡ false = ground arith in
        let before : suc i - 1 ≡ i = omega arith in rw (n, positive, in_range, before) at

-- A host is chosen exactly if the line, without white space around it, is a number that counts it
-- from 1 in the list; and every number from 1 to the length of the list chooses a host, so the
-- index that passes the guard is in range.
pub choose_host_exact :
    (hosts : List HostRecord) (line : Text)
    → ((h : HostRecord)
        → (choose_host hosts line ≡ some h) ↔ (
            (i : ℕ) × (atoi (trim_space line) ≡ some (pos (suc i))) × (get_elem? hosts i ≡ some h)))
      × ((i : ℕ)
          → atoi (trim_space line) ≡ some (pos (suc i))
          → suc i ≤ length hosts
          → (h : HostRecord) × (choose_host hosts line ≡ some h))
choose_host_exact hosts line = (
  choose_host_iff hosts line,
  λ i number in_range.
      let (h, at) = get_elem?-lt i hosts in_range in
      (h, (choose_host_iff hosts line h).1 (i, number, at)),
)
