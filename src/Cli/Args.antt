-- ===== src/Cli/Args.antt =====
-- main.go: the scan of the arguments for the flag --config.
use lanmon.Prelude.{
  ℕ, zero, suc, ◌+◌, Bool, ◌&&◌, List, [], ◌++◌, if◌then◌else◌, Text, codes, text_eq, Option, none,
  some, length, take, drop, get_elem?, ltb,
}
use lanmon.Go.Strings.{has_prefix}

-- `len(arg) > 9 && arg[:9] == "--config="`
unfoldable pub is_assignment : Text → Bool
unfolding has_prefix
is_assignment arg = ltb 9 (length arg) && has_prefix arg (codes "--config=")

unfoldable pub is_flag : Text → Bool
is_flag arg = text_eq arg (codes "--config")

abbrev pub assigned : ℕ → List Text → Text → Option (Text × List Text)
assigned i args arg =
    if is_assignment arg then some (drop 9 arg, take i args ++ drop (i + 1) args) else none

abbrev pub at_arg : ℕ → List Text → Option Text → Option Text → Option (Text × List Text)
at_arg i args none next = none
at_arg i args (some arg) none = assigned i args arg
at_arg i args (some arg) (some value) =
    if is_flag arg then some (value, take i args ++ drop (i + 2) args) else assigned i args arg

-- What one round does at index `i`: the path to take and the arguments that are left, or nothing
-- for an argument that stays.
unfoldable pub round : ℕ → List Text → Option (Text × List Text)
unfolding is_assignment is_flag
round i args = at_arg i args (get_elem? args i) (get_elem? args (i + 1))

-- The loop from index `i`, with the path found so far; every round ends it, steps on or shortens
-- the arguments, so their number is enough fuel.
unfoldable pub scan_from : ℕ → ℕ → Text → List Text → Text × List Text
unfolding round
scan_from zero i path args = (path, args)
scan_from (suc fuel) i path args = elim (round i args) [
  | none ↦ if ltb i (length args) then scan_from fuel (i + 1) path args else (path, args)
  | some found ↦ scan_from fuel i found.0 found.1
]

unfoldable pub scan : List Text → Text × List Text
unfolding scan_from
scan args = scan_from (length args) 0 [] args
