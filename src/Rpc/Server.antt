-- ===== src/Rpc/Server.antt =====
-- The socket of internal/rpc/rpc.go: StartServer, NewClient and Close, and a sequence of calls.
use lanmon.Prelude.{
  ℕ, ◌*◌, ◌+◌, Bool, true, false, List, [], ◌∷◌, Text, Result, ok, err, if◌then◌else◌, ◌&&◌,
}
use lanmon.Store.Record.{HostRecord}
use lanmon.Store.Bolt.{Bolt}
use lanmon.Rpc.{RpcError, transport, serve_list, serve_mark, list_active_hosts}

-- What stands at the socket's path: nothing, something that nobody listens on, or the socket of a
-- running server with its permission bits.
pub data AtPath : Type 0 where
  absent : AtPath
  left_over : AtPath
  bound : ℕ → AtPath

pub data ServerError : Type 0 where
  registering listening : ServerError

-- Whether the service registers, the path can be removed, the socket binds to a free path, and its
-- mode can be set; and the mode that it has otherwise.
pub record SocketSystem : Type 0 where
  pub registers : Bool
  pub removes : Bool
  pub binds : Bool
  pub sets_mode : Bool
  pub default_mode : ℕ

-- `0660`
abbrev pub socket_mode : ℕ
socket_mode = 6 * 64 + 6 * 8

module _ (sys : SocketSystem) where
  -- An error of `os.Remove` is not looked at.
  abbrev pub removed : AtPath → AtPath
  removed at = if sys.removes then absent else at

  -- A socket binds only where nothing stands.
  abbrev pub listened : AtPath → AtPath × Result ServerError (Unit {0})
  listened absent =
      if sys.binds
      then (bound (if sys.sets_mode then socket_mode else sys.default_mode), ok tt)
      else (absent, err listening)
  listened left_over = (left_over, err listening)
  listened (bound mode) = (bound mode, err listening)

  unfoldable pub start_server : AtPath → AtPath × Result ServerError (Unit {0})
  start_server at = if sys.registers then listened (removed at) else (at, err registering)

-- `net.Dial` on the path.
unfoldable pub dial_socket : AtPath → Bool
dial_socket absent = false
dial_socket left_over = false
dial_socket (bound mode) = true

-- A client is its connection, which `Close` ends.
pub data Client : Type 0 where
  connected closed : Client

unfoldable pub new_client : AtPath → Result RpcError Client
unfolding dial_socket
new_client at = if dial_socket at then ok connected else err transport

-- A second `Close` is an error.
unfoldable pub close_client : Client → Client × Result RpcError (Unit {0})
close_client connected = (closed, ok tt)
close_client closed = (closed, err transport)

-- A call over a closed connection does not reach the server.
abbrev pub is_connected : Client → Bool
is_connected connected = true
is_connected closed = false

-- The accept loop and the connections it serves, call by call: the lock of the store makes each one
-- step. A failed accept is logged.
pub data Served : Type 0 where
  failed_accept : Served
  list_call : Bool → Served
  mark_call : Bool → ℕ → Text → Served

pub data Reply : Type 0 where
  hosts_reply : Result RpcError (List HostRecord) → Reply
  mark_reply : Result RpcError (Unit {0}) → Reply

module _ (bolt : Bolt) where
  open bolt use {Bucket, get}

  -- The bucket behind the calls, and the replies in their order.
  unfoldable pub serve : List Served → Bucket → Bucket × List Reply
  unfolding serve_list serve_mark
  serve [] b = (b, [])
  serve (failed_accept ∷ calls) b = serve calls b
  serve (list_call io ∷ calls) b =
      let (b', replies) = serve calls b in (b', hosts_reply (serve_list bolt io b) ∷ replies)
  serve (mark_call io now mac ∷ calls) b =
      let done = serve_mark bolt io now mac b in
      let (b', replies) = serve calls done.0 in (b', mark_reply done.1 ∷ replies)

  -- Whether a call of a client gets through: it is connected, and the transport works.
  abbrev pub client_list : Client → Bool → Bool → Bucket → Result RpcError (List HostRecord)
  client_list c works io b = list_active_hosts bolt (is_connected c && works) io b
