-- ===== src/Cli/Scan.antt =====
-- The index loop of main.go does what reading the arguments from the left does.
use lanmon.Prelude.{
  ℕ, zero, suc, ◌+◌, ◌≤◌, ◌≡◌, refl, sym, ap, ◌∙◌, true, false, List, [], ◌∷◌, ◌++◌, if◌then◌else◌,
  Text, Option, none, some, length, drop, get_elem?-append, drop_more-append, take-append,
  length-append, ltb, arith, Bool-cases, inl, inr, append_assoc, take-append,
}
use lanmon.Cli.Args.{is_assignment, is_flag, round, scan_from, scan}

-- The path, that of the last flag, and the arguments that are no flag. A last argument `--config`
-- has no value and is kept.
unfoldable pub split_flags : Text → List Text → Text × List Text
split_flags path [] = (path, [])
split_flags path (a ∷ []) = if is_assignment a then (drop 9 a, []) else (path, a ∷ [])
split_flags path (a ∷ b ∷ rest) =
    let valued = split_flags b rest in
    let assigned = split_flags (drop 9 a) (b ∷ rest) in
    let kept = split_flags path (b ∷ rest) in
    if is_flag a then valued else if is_assignment a then assigned else (kept.0, a ∷ kept.1)

abbrev behind : List Text → Text × List Text → Text × List Text
behind kept r = (r.0, kept ++ r.1)

-- The round behind the kept arguments.
abbrev step_at : List Text → List Text → Option (Text × List Text)
step_at kept [] = none
step_at kept (a ∷ []) = if is_assignment a then some (drop 9 a, kept ++ []) else none
step_at kept (a ∷ b ∷ rest) =
    if is_flag a
    then some (b, kept ++ rest)
    else if is_assignment a
    then some (drop 9 a, kept ++ b ∷ rest)
    else none

round-append : (kept rest : List Text) → round (length kept) (kept ++ rest) ≡ step_at kept rest
unfolding round
round-append kept [] = rw (get_elem?-append (length kept) 0 kept [] (omega arith)) refl
round-append kept (a ∷ []) =
    rw
      (
        get_elem?-append (length kept) 0 kept (a ∷ []) (omega arith),
        get_elem?-append (length kept + 1) 1 kept (a ∷ []) (omega arith),
        take-append kept (a ∷ []),
        drop_more-append (length kept + 1) 1 kept (a ∷ []) (omega arith),
      )
      refl
round-append kept (a ∷ b ∷ rest) =
    rw
      (
        get_elem?-append (length kept) 0 kept (a ∷ b ∷ rest) (omega arith),
        get_elem?-append (length kept + 1) 1 kept (a ∷ b ∷ rest) (omega arith),
        take-append kept (a ∷ b ∷ rest),
        drop_more-append (length kept + 1) 1 kept (a ∷ b ∷ rest) (omega arith),
        drop_more-append (length kept + 2) 2 kept (a ∷ b ∷ rest) (omega arith),
      )
      refl

-- One argument more that is kept.
scan_from-keep :
    (fuel : ℕ) (path a : Text) (kept rest : List Text) (r : Text × List Text)
    → scan_from fuel (length (kept ++ a ∷ [])) path ((kept ++ a ∷ []) ++ rest)
      ≡ behind (kept ++ a ∷ []) r
    → scan_from fuel (length kept + 1) path (kept ++ a ∷ rest) ≡ behind kept (r.0, a ∷ r.1)
scan_from-keep fuel path a kept rest r h =
    ap (λ n. scan_from fuel n path (kept ++ a ∷ rest)) (sym (length-append kept (a ∷ [])))
    ∙ ap (scan_from fuel (length (kept ++ a ∷ [])) path) (sym (append_assoc kept (a ∷ []) rest))
    ∙ h
    ∙ ap (λ l. (r.0, l)) (append_assoc kept (a ∷ []) r.1)

inside :
    (kept : List Text) (a : Text) (rest : List Text)
    → ltb (length kept) (length (kept ++ a ∷ rest)) ≡ true
inside kept a rest = ground (arith, length-append kept (a ∷ rest))

outside : (kept : List Text) → ltb (length kept) (length (kept ++ [])) ≡ false
outside kept = ground (arith, length-append kept [])

scan_from-split :
    (fuel : ℕ) (path : Text) (kept rest : List Text)
    → length rest ≤ fuel
    → scan_from fuel (length kept) path (kept ++ rest) ≡ behind kept (split_flags path rest)
unfolding scan_from split_flags
scan_from-split zero path kept [] h = refl
scan_from-split zero path kept (a ∷ rest) h = absurd (omega arith)
scan_from-split (suc fuel) path kept [] h = rw (round-append kept [], scan_from, outside kept) refl
scan_from-split (suc fuel) path kept (a ∷ []) h = elim (Bool-cases (is_assignment a)) [
  | inl taken ↦
      rw (round-append kept (a ∷ []), scan_from, taken)
        (scan_from-split fuel (drop 9 a) kept [] (omega arith))
  | inr other ↦
      rw (round-append kept (a ∷ []), scan_from, other, inside kept a [])
        (scan_from-keep fuel path a kept [] (path, [])
          (scan_from-split fuel path (kept ++ a ∷ []) [] (omega arith)))
]
scan_from-split (suc fuel) path kept (a ∷ b ∷ rest) h = elim (Bool-cases (is_flag a)) [
  | inl flag ↦
      rw (round-append kept (a ∷ b ∷ rest), scan_from, flag)
        (scan_from-split fuel b kept rest (omega arith))
  | inr other ↦ elim (Bool-cases (is_assignment a)) [
    | inl taken ↦
        rw (round-append kept (a ∷ b ∷ rest), scan_from, other, taken)
          (scan_from-split fuel (drop 9 a) kept (b ∷ rest) (omega arith))
    | inr plain ↦
        rw (round-append kept (a ∷ b ∷ rest), scan_from, other, plain, inside kept a (b ∷ rest))
          (scan_from-keep fuel path a kept (b ∷ rest) (split_flags path (b ∷ rest))
            (scan_from-split fuel path (kept ++ a ∷ []) (b ∷ rest) (omega arith)))
  ]
]

-- The scan with its index finds the path of the last flag and leaves the arguments that are no
-- part of a flag, in their order: what a reading from the left finds.
pub scan-split_flags : (args : List Text) → scan args ≡ split_flags [] args
unfolding scan
scan-split_flags args = scan_from-split (length args) [] [] args (omega arith)
