-- ===== src/Rpc.antt =====
-- internal/rpc/rpc.go: the two methods of the service and the client's calls of them.
pub mod Server
pub mod Started
use lanmon.Prelude.{ℕ, Bool, List, if◌then◌else◌, Text, ◌≡◌, refl, Result, ok, err}
use lanmon.Store.Record.{HostRecord}
use lanmon.Store.Bolt.{Bolt}
use lanmon.Store.Ops.{StoreError, get_active, mark_key_pushed}

pub data RpcError : Type 0 where
  transport : RpcError
  fetching marking : StoreError → RpcError

abbrev pub fetched : Result StoreError (List HostRecord) → Result RpcError (List HostRecord)
fetched (err e) = err (fetching e)
fetched (ok hosts) = ok hosts

abbrev marked : Result StoreError (Unit {0}) → Result RpcError (Unit {0})
marked (err e) = err (marking e)
marked (ok _) = ok tt

pub fetched-ok :
    (r : Result StoreError (List HostRecord)) (hosts : List HostRecord)
    → fetched r ≡ ok hosts
    → r ≡ ok hosts
fetched-ok (err e) hosts h = absurd cc
fetched-ok (ok found) hosts h = cc

pub marked-ok : (r : Result StoreError (Unit {0})) → marked r ≡ ok tt → r ≡ ok tt
marked-ok (err e) h = absurd cc
marked-ok (ok _) h = refl

module _ (bolt : Bolt) where
  open bolt use {Bucket}

  -- `Service.ListActiveHosts`
  unfoldable pub serve_list : Bool → Bucket → Result RpcError (List HostRecord)
  serve_list io b = fetched (get_active bolt io b)

  -- `Service.MarkKeyPushed`
  unfoldable pub serve_mark : Bool → ℕ → Text → Bucket → Bucket × Result RpcError (Unit {0})
  serve_mark io now mac b = let done = mark_key_pushed bolt io now mac b in (done.0, marked done.1)

  -- `Client.ListActiveHosts`; the first argument says whether the call reaches the service and its
  -- reply comes back.
  unfoldable pub list_active_hosts : Bool → Bool → Bucket → Result RpcError (List HostRecord)
  unfolding serve_list
  list_active_hosts reaches io b = if reaches then serve_list io b else err transport

  -- `Client.MarkKeyPushed`
  unfoldable pub call_mark : Bool → Bool → ℕ → Text → Bucket → Bucket × Result RpcError (Unit {0})
  unfolding serve_mark
  call_mark reaches io now mac b = if reaches then serve_mark io now mac b else (b, err transport)
