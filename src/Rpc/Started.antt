-- ===== src/Rpc/Started.antt =====
-- When the RPC server starts, and what a client sees of a mark.
use lanmon.Prelude.{
  ℕ, ◌≡◌, ◌↔◌, ◌⊎◌, refl, ap, ◌∙◌, Bool, true, List, some, Text, ok, if◌then◌else◌, arith, inl, inr,
  Among, sym, Bool-cases, text_eq_refl, if-elim,
}
use lanmon.Store.Record.{HostRecord, json, clean}
use lanmon.Store.Bolt.{Bolt}
use lanmon.Store.Ops.{pushed, mark_key_pushed}
use lanmon.Store.Upsert.{mark_key_pushed-Marked}
use lanmon.Store.Listing.{get_active-lists}
use lanmon.Store.Rests.{record_or}
use lanmon.Rpc.{serve_list, serve_mark, list_active_hosts, call_mark, marked-ok}
use lanmon.Rpc.Server.{
  AtPath, absent, left_over, bound, SocketSystem, socket_mode, removed, listened, start_server,
  new_client, connected,
}

-- What stands at the path when the socket is bound.
removed-absent :
    (sys : SocketSystem) (at : AtPath)
    → (sys.removes ≡ true) ⊎ (at ≡ absent)
    → removed sys at ≡ absent
removed-absent sys at (inl removes) = rw removes refl
removed-absent sys at (inr nothing) =
    rw nothing (if-elim (λ p. p ≡ absent) sys.removes (λ _. refl) (λ _. refl))

listened-ok :
    (sys : SocketSystem) (at : AtPath)
    → (listened sys at).1 ≡ ok tt
    → (at ≡ absent) × (sys.binds ≡ true)
listened-ok sys absent h = (refl, ground arith)
listened-ok sys left_over h = absurd cc
listened-ok sys (bound mode) h = absurd cc

removed_free :
    (sys : SocketSystem) (at : AtPath)
    → removed sys at ≡ absent
    → (sys.removes ≡ true) ⊎ (at ≡ absent)
removed_free sys at h = elim (Bool-cases sys.removes) [
  | inl removes ↦ inl removes
  | inr stays ↦ inr (rw stays at h)
]

registered :
    (sys : SocketSystem) (at : AtPath)
    → (start_server sys at).1 ≡ ok tt
    → (sys.registers ≡ true) × ((listened sys (removed sys at)).1 ≡ ok tt)
unfolding start_server
registered sys at h = elim (Bool-cases sys.registers) [
  | inl does ↦ (does, rw does at h)
  | inr fails ↦ absurd (cc (rw fails at h))
]

start_server-free :
    (sys : SocketSystem) (at : AtPath)
    → sys.registers ≡ true
    → sys.binds ≡ true
    → (sys.removes ≡ true) ⊎ (at ≡ absent)
    → start_server sys at ≡ (bound (if sys.sets_mode then socket_mode else sys.default_mode), ok tt)
unfolding start_server
start_server-free sys at registers binds free =
    rw (registers, removed-absent sys at free, binds) refl

-- The server starts exactly if the service registers, the socket binds, and nothing stands at the
-- path or what stands there can be removed; a client that dials then gets a connection.
pub start_server_iff :
    (sys : SocketSystem) (at : AtPath)
    → (((start_server sys at).1 ≡ ok tt)
        ↔ ((sys.registers ≡ true) × (sys.binds ≡ true) × ((sys.removes ≡ true) ⊎ (at ≡ absent))))
      × ((start_server sys at).1 ≡ ok tt → new_client (start_server sys at).0 ≡ ok connected)
unfolding new_client
start_server_iff sys at = (
  (
    needs,
    λ (registers, binds, free). ap (λ r. r.1) (start_server-free sys at registers binds free),
  ),
  λ h.
      let (registers, binds, free) = needs h in
      rw (start_server-free sys at registers binds free) refl,
)
  where
    needs :
        (start_server sys at).1 ≡ ok tt
        → (sys.registers ≡ true) × (sys.binds ≡ true) × ((sys.removes ≡ true) ⊎ (at ≡ absent))
    needs h =
        let (registers, bound_there) = registered sys at h in
        let (gone, binds) = listened-ok sys (removed sys at) bound_there in
        (registers, binds, removed_free sys at gone)

module _ (bolt : Bolt) where
  open bolt use {Bucket, get}

  -- The host under the key, as a client is given it: with the mark of its key.
  pub record IsListedMarked (mac : Text) (b : Bucket) : Type 0 where
    pub host : HostRecord
    pub found : get b mac ≡ some (json host)
    pub marked_pushed : host.ssh_key_pushed ≡ true
    pub listed : List HostRecord
    pub answered : list_active_hosts bolt true true b ≡ ok listed
    pub among : Among host listed

  -- A mark that went well is seen by whoever lists the hosts next, if the host is active.
  pub call_mark-list :
      (io : Bool) (now : ℕ) (mac : Text) (b : Bucket) (r : HostRecord)
      → get b mac ≡ some (json r)
      → r.active ≡ true
      → (call_mark bolt true io now mac b).1 ≡ ok tt
      → IsListedMarked mac (call_mark bolt true io now mac b).0
  unfolding call_mark serve_mark list_active_hosts serve_list
  call_mark-list io now mac b r found on h =
      let m =
        mark_key_pushed-Marked bolt io now mac b
          (marked-ok (mark_key_pushed bolt io now mac b).1 h) in
      let known : m.known ≡ r = ap (record_or r) (sym m.found ∙ found) in
      let host = clean (pushed now m.known) in
      let there : get (mark_key_pushed bolt io now mac b).0 mac ≡ some (json host) =
        m.here mac ∙ rw (text_eq_refl mac) refl in
      let (rs, active, among) =
        get_active-lists bolt now (mark_key_pushed bolt io now mac b).0 mac host there
          (ap (λ s. s.active) known ∙ on) in
      record {
        host = host;
        found = there;
        marked_pushed = refl;
        listed = rs;
        answered = rw active refl;
        among = among;
      }
