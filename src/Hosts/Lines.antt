-- ===== src/Hosts/Lines.antt =====
-- What `Sync` keeps and what it replaces, over the lines of the file.
use lanmon.Prelude.{
  ◌≡◌, ◌≢◌, refl, ap, sym, ◌∙◌, Bool, true, false, List, [], ◌∷◌, ◌++◌, Text, text_eq, All, arith,
  append_assoc, append-nil, if◌then◌else◌, Bool-cases, inl, inr,
}
use lanmon.Go.Scanner.{IsShortLine}
use lanmon.Store.Record.{HostRecord}
use lanmon.Hosts.Sync.{
  begin_marker, end_marker, LineKind, opens, closes, other, line_kind, preserved, entries_of,
  managed, separated, new_lines,
}

abbrev pub IsOther : Text → Type 0
IsOther l = line_kind l ≡ other

pub begin-opens : line_kind begin_marker ≡ opens
unfolding line_kind
begin-opens = refl

pub end-closes : line_kind end_marker ≡ closes
unfolding line_kind
end-closes = refl

pub nil-IsOther : IsOther []
unfolding line_kind
nil-IsOther = refl

-- One step of the loop, by the kind of the line.
pub preserved_other :
    (m : Bool) (l : Text) (ls : List Text)
    → IsOther l
    → preserved m (l ∷ ls) ≡ (if m then preserved m ls else l ∷ preserved m ls)
unfolding preserved
preserved_other m l ls h = rw (h, preserved) refl

pub preserved_opens :
    (m : Bool) (l : Text) (ls : List Text)
    → line_kind l ≡ opens
    → preserved m (l ∷ ls) ≡ preserved true ls
unfolding preserved
preserved_opens m l ls h = rw (h, preserved) refl

pub preserved_closes :
    (m : Bool) (l : Text) (ls : List Text)
    → line_kind l ≡ closes
    → preserved m (l ∷ ls) ≡ preserved false ls
unfolding preserved
preserved_closes m l ls h = rw (h, preserved) refl

pub preserved-append :
    (ls ms : List Text) → All IsOther ls → preserved false (ls ++ ms) ≡ ls ++ preserved false ms
preserved-append [] ms h = refl
preserved-append (l ∷ ls) ms h =
    preserved_other false l (ls ++ ms) h.0 ∙ ap (◌∷◌ l) (preserved-append ls ms h.1)

preserved_inside :
    (ls ms : List Text) → All IsOther ls → preserved true (ls ++ ms) ≡ preserved true ms
preserved_inside [] ms h = refl
preserved_inside (l ∷ ls) ms h = preserved_other true l (ls ++ ms) h.0 ∙ preserved_inside ls ms h.1

-- The lines of a section with no marker among its entries are all dropped.
pub preserved-managed :
    (hosts : List HostRecord) (rest : List Text)
    → All IsOther (entries_of hosts)
    → preserved false (managed hosts ++ rest) ≡ preserved false rest
unfolding managed
preserved-managed hosts rest h =
    preserved_opens false begin_marker ((entries_of hosts ++ end_marker ∷ []) ++ rest) begin-opens
    ∙ ap (preserved true) (append_assoc (entries_of hosts) (end_marker ∷ []) rest)
    ∙ preserved_inside (entries_of hosts) (end_marker ∷ rest) h
    ∙ preserved_closes true end_marker rest end-closes

-- What the loop keeps is no marker, and satisfies what every line satisfies.
All-preserved_step :
    (P : Text → Type 0) (m : Bool) (l : Text) (ls : List Text) (k : LineKind)
    → line_kind l ≡ k
    → P l
    → ((n : Bool) → All (λ l. IsOther l × P l) (preserved n ls))
    → All (λ l. IsOther l × P l) (preserved m (l ∷ ls))
All-preserved_step P m l ls opens e p ih = rw (preserved_opens m l ls e) (ih true)
All-preserved_step P m l ls closes e p ih = rw (preserved_closes m l ls e) (ih false)
All-preserved_step P true l ls other e p ih = rw (preserved_other true l ls e) (ih true)
All-preserved_step P false l ls other e p ih = rw (preserved_other false l ls e) ((e, p), ih false)

pub All-preserved :
    (P : Text → Type 0) (ls : List Text)
    → All P ls
    → (m : Bool) → All (λ l. IsOther l × P l) (preserved m ls)
All-preserved P [] h m = unfold preserved in tt
All-preserved P (l ∷ ls) h m =
    All-preserved_step P m l ls (line_kind l) refl h.0 (All-preserved P ls h.1)

pub All-separated : (P : Text → Type 0) (ls : List Text) → P [] → All P ls → All P (separated ls)
unfolding separated
All-separated P [] e h = tt
All-separated P (l ∷ []) e h = elim (Bool-cases (text_eq l [])) [
  | inl blank ↦ rw blank h
  | inr full ↦ rw full (h.0, (e, tt))
]
All-separated P (l ∷ k ∷ ls) e h = (h.0, All-separated P (k ∷ ls) e h.1)

separated-cons : (l : Text) (ls : List Text) → ls ≢ [] → separated (l ∷ ls) ≡ l ∷ separated ls
unfolding separated
separated-cons l [] h = absurd (h refl)
separated-cons l (k ∷ ls) h = refl

separated-ne-nil : (l : Text) (ls : List Text) → separated (l ∷ ls) ≢ []
unfolding separated
separated-ne-nil l [] h = ground arith
separated-ne-nil l (k ∷ ls) h = cc

separated_idem : (ls : List Text) → separated (separated ls) ≡ separated ls
unfolding separated text_eq
separated_idem [] = refl
separated_idem (l ∷ []) = elim (Bool-cases (text_eq l [])) [
  | inl blank ↦ rw blank (rw blank refl)
  | inr full ↦ rw full refl
]
separated_idem (l ∷ k ∷ ls) =
    separated-cons l (separated (k ∷ ls)) (separated-ne-nil k ls)
    ∙ ap (◌∷◌ l) (separated_idem (k ∷ ls))

pub split_pairs :
    (P Q : Text → Type 0) (ls : List Text) → All (λ l. P l × Q l) ls → All P ls × All Q ls
split_pairs P Q [] h = (tt, tt)
split_pairs P Q (l ∷ ls) h = let (ps, qs) = split_pairs P Q ls h.1 in ((h.0.0, ps), (h.0.1, qs))

pub IsShortLine-IsOther :
    (ls : List Text) → All IsShortLine ls → All IsOther (separated (preserved false ls))
IsShortLine-IsOther ls h =
    All-separated IsOther (preserved false ls) nil-IsOther
      (split_pairs IsOther IsShortLine (preserved false ls)
        (All-preserved IsShortLine ls h false)).0

-- The lines that a run writes, read by the next run: the kept lines, and nothing of the section.
pub preserved-new_lines :
    (hosts : List HostRecord) (ls : List Text)
    → All IsShortLine ls
    → All IsOther (entries_of hosts)
    → preserved false (new_lines hosts ls) ≡ separated (preserved false ls)
unfolding new_lines
preserved-new_lines hosts ls short h =
    preserved-append (separated (preserved false ls)) (managed hosts) (IsShortLine-IsOther ls short)
    ∙ ap (λ ms. separated (preserved false ls) ++ preserved false ms)
        (sym (append-nil (managed hosts)))
    ∙ ap (λ ms. separated (preserved false ls) ++ ms)
        (preserved-managed hosts [] h ∙ (unfold preserved in refl))
    ∙ append-nil (separated (preserved false ls))

-- Two runs over lines give what the second gives alone.
pub new_lines-new_lines :
    (hosts later : List HostRecord) (ls : List Text)
    → All IsShortLine ls
    → All IsOther (entries_of hosts)
    → new_lines later (new_lines hosts ls) ≡ new_lines later ls
unfolding new_lines
new_lines-new_lines hosts later ls short h =
    ap (λ ms. separated ms ++ managed later) (preserved-new_lines hosts ls short h)
    ∙ ap (λ ms. ms ++ managed later) (separated_idem (preserved false ls))
