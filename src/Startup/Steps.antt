-- ===== src/Startup/Steps.antt =====
-- What a command does to the system while it starts and stops, as a trace of steps.
use lanmon.Prelude.{
  zero, suc, ok, ℕ, Bool, true, false, List, [], ◌∷◌, ◌++◌, if◌then◌else◌, Text, codes, text_eq,
  Result, err, ◌||◌,
}
use lanmon.Go.Int.{ℤ, pos, negsuc}

-- The steps that have succeeded. Periods are in seconds, thresholds and intervals in nanoseconds.
pub data Step : Type 0 where
  make_dir : Text → Step
  open_store : Text → Step
  sync_hosts : Step
  run_expiry : ℕ → ℤ → Step
  start_rpc : Text → Step
  start_node : Text → ℤ → ℤ → Text → Step
  start_listener : ℤ → Text → Step
  start_beacon : ℤ → ℤ → Text → Step
  remove_socket : Text → Step
  close_store : Step

-- Why a command has ended; `crashed` is the panic of `time.NewTicker`, which ends the process.
pub data StartError : Type 0 where
  no_secret no_range making_db_dir making_socket_dir opening_store stale_threshold : StartError
  starting_rpc starting_beacon interval discovery crashed : StartError

abbrev pub Log : Type 0
Log = List Step × Result StartError (Unit {0})

abbrev pub after : Step → Log → Log
after s log = (s ∷ log.0, log.1)

-- A call that returns an error ends the command.
abbrev pub attempt : Bool → StartError → Step → Log → Log
attempt true e s log = after s log
attempt false e s log = ([], err e)

unfoldable pub is_crash : StartError → Bool
is_crash crashed = true
is_crash _ = false

unfoldable pub crashes : Result StartError (Unit {0}) → Bool
unfolding is_crash
crashes (ok _) = false
crashes (err e) = is_crash e

abbrev pub closed : Result StartError (Unit {0}) → List Step → List Step
closed r steps = if crashes r then steps else steps ++ close_store ∷ []

-- `defer db.Close()`, which a panic in another goroutine does not get to.
abbrev pub closing : Log → Log
closing log = (closed log.1 log.0, log.1)

-- `time.NewTicker` takes no other interval.
unfoldable pub is_positive : ℤ → Bool
is_positive (pos zero) = false
is_positive (pos (suc n)) = true
is_positive (negsuc n) = false

-- The secret is not set, or is the sample's.
unfoldable pub is_unset : Text → Bool
is_unset secret = text_eq secret [] || text_eq secret (codes "CHANGE_ME")

-- `logger.Init`: the level by its name.
pub data Level : Type 0 where
  debug info warn error : Level

unfoldable pub level_of : Text → Level
level_of name =
    if text_eq name (codes "debug")
    then debug
    else if text_eq name (codes "info")
    then info
    else if text_eq name (codes "warn")
    then warn
    else if text_eq name (codes "error")
    then error
    else info
