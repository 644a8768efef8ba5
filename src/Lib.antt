-- ===== src/Lib.antt =====
-- lanmon: LAN discovery of hosts by signed UDP beacons, a store of host records, the managed section
-- of /etc/hosts, and the distribution of an SSH key to the hosts found.
--
-- A node collects what it knows of itself, signs it with a shared secret and broadcasts it. A
-- receiver (the deprecated server, or a node) checks the size, the signature, the coding and the
-- time stamp of a packet and stores the beacon under the sender's MAC address; a node then rewrites
-- the managed section of /etc/hosts. Expiry checks mark hosts inactive. `lanmon connect` asks the
-- node for the active hosts over RPC, lets the user choose one, pushes the SSH key where ssh does not
-- get in without a password, and has the node mark the push.
--
-- Files, and the code that they are about:
--   Prelude    shared names, Boolean tests, lists, byte texts, results, sorted association lists
--   Go         what the code uses of Go: int64 (Int), unicode/utf8 (Utf8), encoding/hex (Hex),
--              strings and fmt (Strings), strconv.Atoi (Strconv), decimal printing (Decimal),
--              path/filepath (Path), bufio.Scanner (Scanner)
--   Sysinfo    internal/sysinfo/sysinfo.go: the record; To4, Contains and the texts of addresses (Net);
--              getNetworkInfo (Interfaces, its proof in Usable); getOSInfo, readOSReleasePrettyName
--              and Collect (Os); getBroadcastIP of internal/discovery/discovery.go (Broadcast)
--   Beacon     internal/beacon: payload.go (Payload), hmac.go (Hmac), sendBeacon of broadcast.go and
--              broadcast of internal/discovery/discovery.go (Packet), StartBeacon (Loop)
--   Store      internal/store/store.go: records and their JSON (Record), BoltDB as a parameter (Bolt),
--              Upsert, GetAll, GetActive, MarkKeyPushed and expireStaleHosts as upsert, get_all,
--              get_active, mark_key_pushed and expire_stale_hosts (Ops), New and Close (Open), RunExpiry as
--              run_expiry (Silence); what the methods promise without BoltDB, and without the code that
--              builds the records (Registry and Changes); proofs in Write, Upsert, Expiry, Invariant,
--              History, Listing, Rests, Silence, Alive, Progress, Commute, Heard, Shuffle, Shown,
--              Described, Excused and Refines; a bucket that meets the parameter in Sorted
--   Hosts      internal/hosts/hosts.go: Sync as sync and rewritten (Sync), and as the steps of handlers
--              that call it at once (Race); proofs in Lines, Rewrite, Faults, Loses and Races
--   Receive    internal/listener/listener.go (Listener), internal/discovery/discovery.go (Discovery),
--              the time stamp test of both (Stamp), StartListener (Server), StartNode with broadcast and
--              listen (Node); proofs in Accept, Effects, Reaches, Discovered, Resolved
--              and Starting
--   Network    senders, receivers with their stores and an attacker on one network (Lan); proofs in
--              Traced, Origin, Arrivals, Stations, Replay, Lasting and Listed
--   Config     pkg/config/config.go: the records and applyDefaults (Settings), ExpandPath and Load
--              (Load); proofs in Complete
--   Rpc        internal/rpc/rpc.go: the two methods of the service and the client's calls; StartServer,
--              NewClient and Close (Server); proofs in Started
--   Push       internal/sshpush/sshpush.go: the host key callbacks (HostKeys), PushKey and
--              verifyPubKeyAuth (Run), the remote command as a command of the shell (Remote); proofs in
--              Session, Exact, Trust, FirstUse, Grows, Authorized and Once
--   Connect    cmd/connect/connect.go: the choice of a host and truncate (Choose),
--              displayHostTable (Table), Run and generateSSHKey (Run), the processes that are started
--              (Ssh); proofs in Marks and Keys
--   Cli        main.go: the scan for --config (Args), the command and the exit code (Dispatch), a whole
--              run with the loading of the configuration at the start of each Run (Main); proofs in
--              Scan and Exits
--   Startup    pkg/logger/logger.go and the steps (Steps), cmd/node/node.go, cmd/server/server.go and
--              cmd/agent/agent.go (Run), cmd/node/edit.go (Edit); proofs in Order and Ready
--   Tests      the theorems at concrete inputs, with a toy signature and coding in Codec
--
-- How the state is kept. A Go string is its bytes. A bucket is a value of the parameter Bolt, which
-- states what the documentation of BoltDB says: each key once, in byte order, and which puts are
-- refused. A stored JSON text is kept as what json.Unmarshal makes of it: the record, or the record
-- as far as it was filled in before an error; json.Marshal fails on a float that is no number and on
-- a year past 9999, and keeps the valid UTF-8 of a string. A time is the nanoseconds since year 1, a
-- duration an integer of nanoseconds, a float64 its bit pattern. What the machine or the user decides
-- (whether BoltDB, a file or a socket works, what the clock shows, what is typed) is an argument of
-- each operation, often a record of such answers. The lock of the store makes each method one step,
-- so concurrent handlers are a sequence of steps in any order; a run of connect reads one bucket and
-- marks the host in the bucket that it has become by then. No lock covers a sync of /etc/hosts: a
-- handler of Receive syncs in one step, as it does when nothing comes in between, and Hosts/Race has
-- the steps of several syncs in any interleaving. On the network of Network/Lan a datagram may be
-- repeated, delayed, dropped or made up by anyone, but not signed without the secret, and a datagram
-- that is cut at the end of a buffer carries no signature either; the write of a beacon comes less than
-- a parameter `lag` of seconds behind the test of its age. /etc/hosts and known_hosts are texts, and
-- what stands at the path of known_hosts may be a directory, at that of the RPC socket the socket of
-- an earlier run. A command that starts leaves a trace of
-- the steps that succeeded. A nil pointer that would be read is the outcome panicked, and so is
-- a ticker with an interval that is not positive; in the trace of a command it is the error crashed,
-- behind which no deferred call runs in `lanmon node`. A loop that runs for ever is run for as many rounds
-- as the list of what the system answers has: a tick of a sender with the answers to its sendings, a
-- read of a receiver, the time to the next expiry check. The two loops of a node are a list of their
-- rounds in any interleaving.
--
-- Parameters that stand for other code: HMAC-SHA256 (32 bytes of output), msgpack (unmarshalling
-- undoes marshalling), BoltDB, knownhosts (load, check and line, of which nothing is assumed), the
-- go-toml unmarshalling, time.ParseDuration and net.ParseCIDR, net.ParseIP
-- and net.ResolveUDPAddr. That a host runs the remote command as its shell does, on the files that it
-- has, is a hypothesis on the connection. The expiry loop runs over the entries
-- at the start of its transaction. strings.ToLower is that of ASCII, since its result is only compared
-- with ASCII texts.
--
-- Loops run over lists, so there is no fuel but in the scan of the arguments, whose rounds each step
-- on or shorten the list, so that the number of arguments is enough, and in decimal printing, where a
-- round divides the number by ten, so that the number and 1 is enough.
--
-- Not modelled: logging, the usage text and the other printed texts but the table of the hosts, the
-- bytes on a socket and the options of sockets (buffers, multicast interface and TTL, whose errors are
-- only logged), the time zone of a stored time, the processes that ssh and ssh-keygen run in, and the
-- scripts, units and firewall rules of the repository.
pub mod Beacon
pub mod Cli
pub mod Config
pub mod Connect
pub mod Go
pub mod Hosts
pub mod Network
pub mod Prelude
pub mod Push
pub mod Receive
pub mod Rpc
pub mod Startup
pub mod Store
pub mod Sysinfo
pub mod Tests
