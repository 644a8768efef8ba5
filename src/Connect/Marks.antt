-- ===== src/Connect/Marks.antt =====
-- What a run of `connect` does to the node's store.
use mathlib.Core.Option.{some-injective}
use mathlib.Core.Path.{subst}
use lanmon.Prelude.{
  zero, suc, get_elem?, ℕ, ◌≡◌, refl, ◌∙◌, Bool, true, false, List, [], ◌∷◌, if◌then◌else◌, Text,
  Option, none, some, Result, ok, err, Bool-cases, inl, inr, All,
}
use lanmon.Config.Settings.{ConnectConfig}
use lanmon.Store.Record.{HostRecord}
use lanmon.Store.Bolt.{Bolt}
use lanmon.Store.Ops.{get_active, get_all}
use lanmon.Store.Invariant.{IsWellFormed, mark-IsWellFormed, is_set}
use lanmon.Store.Listing.{IsActive, get_active_exact}
use lanmon.Rpc.{RpcError, list_active_hosts, call_mark, serve_list, serve_mark, fetched-ok}
use lanmon.Push.HostKeys.{Knownhosts, KnownFile}
use lanmon.Push.Run.{PushError}
use lanmon.Connect.Choose.{choose_host, choose_host_iff}
use lanmon.Connect.Run.{
  Terminal, Surroundings, Left, push_failed, reading_password, invalid_index, dialing_node,
  fetching_hosts, ConnectError, no_hosts, failed, ensure_key, mark, exec_ssh, push, after_push,
  ask_and_push, warn_and_push, probe_or_push, with_key, with_choice, with_hosts, connect_run,
}

module _ (bolt : Bolt) (kh : Knownhosts) (t : Terminal) (m : Surroundings)
    (cfg : ConnectConfig) where
  open bolt use {Bucket}

  -- How a run may end that has chosen host `h`: with an error and the bucket as it was, or with the
  -- final ssh, which may fail too. Then ssh got in without a password, and the mark is set if it was not there, or a push
  -- went well, and the mark is set behind it.
  pub data Ends (h : HostRecord) (b : Bucket) (f : KnownFile) : Left bolt kh t m cfg → Type 0 where
    stopped : (g : KnownFile) (e : ConnectError) → Ends h b f (b, g, failed e)
    was_marked :
        m.passwordless ≡ true
        → h.ssh_key_pushed ≡ true
        → Ends h b f (b, f, exec_ssh bolt kh t m cfg h)
    probed :
        m.passwordless ≡ true
        → h.ssh_key_pushed ≡ false
        → Ends h b f (mark bolt kh t m cfg h b, f, exec_ssh bolt kh t m cfg h)
    pushed_to :
        (g : KnownFile)
        → m.passwordless ≡ false
        → push bolt kh t m cfg h f ≡ (g, ok tt)
        → Ends h b f (mark bolt kh t m cfg h b, g, exec_ssh bolt kh t m cfg h)

  after_push-Ends :
      (h : HostRecord) (b : Bucket) (f : KnownFile) (r : KnownFile × Result PushError (Unit {0}))
      → m.passwordless ≡ false
      → push bolt kh t m cfg h f ≡ r
      → Ends h b f (after_push bolt kh t m cfg h b r)
  after_push-Ends h b f (g, err e) no_way same = stopped g (push_failed e)
  after_push-Ends h b f (g, ok tt) no_way same = pushed_to g no_way same

  ask_and_push-Ends :
      (h : HostRecord) (password : Option Text) (b : Bucket) (f : KnownFile)
      → m.passwordless ≡ false
      → Ends h b f (ask_and_push bolt kh t m cfg h password b f)
  ask_and_push-Ends h none b f no_way = stopped f reading_password
  ask_and_push-Ends h (some password) b f no_way =
      after_push-Ends h b f (push bolt kh t m cfg h f) no_way refl

  warn_and_push-Ends :
      (h : HostRecord) (marked : Bool) (at : Option ℕ) (b : Bucket) (f : KnownFile)
      → is_set at ≡ marked
      → m.passwordless ≡ false
      → Ends h b f (warn_and_push bolt kh t m cfg h marked at b f)
  warn_and_push-Ends h false at b f dated no_way = ask_and_push-Ends h t.password b f no_way
  warn_and_push-Ends h true none b f dated no_way = absurd cc
  warn_and_push-Ends h true (some at) b f dated no_way = ask_and_push-Ends h t.password b f no_way

  probe_or_push-Ends :
      (h : HostRecord) (way marked : Bool) (b : Bucket) (f : KnownFile)
      → m.passwordless ≡ way
      → h.ssh_key_pushed ≡ marked
      → is_set h.ssh_key_pushed_at ≡ h.ssh_key_pushed
      → Ends h b f (probe_or_push bolt kh t m cfg h way marked b f)
  probe_or_push-Ends h true true b f p q dated = was_marked p q
  probe_or_push-Ends h true false b f p q dated = probed p q
  probe_or_push-Ends h false marked b f p q dated =
      warn_and_push-Ends h marked h.ssh_key_pushed_at b f (dated ∙ q) p

  with_key-Ends :
      (h : HostRecord) (b : Bucket) (f : KnownFile) (r : Result ConnectError (Unit {0}))
      → is_set h.ssh_key_pushed_at ≡ h.ssh_key_pushed
      → Ends h b f (with_key bolt kh t m cfg h b f r)
  with_key-Ends h b f (err e) dated = stopped f e
  with_key-Ends h b f (ok _) dated =
      probe_or_push-Ends h m.passwordless h.ssh_key_pushed b f refl refl dated

  -- A run that lists no host, or does not come to a choice, leaves all as it was; another one ends
  -- for the host that was chosen.
  pub data RunEnds (listed b : Bucket) (f : KnownFile) : Left bolt kh t m cfg → Type 0 where
    nothing : RunEnds listed b f (b, f, no_hosts)
    no_choice : (e : ConnectError) → RunEnds listed b f (b, f, failed e)
    chose :
        (hosts : List HostRecord) (h : HostRecord) (left : Left bolt kh t m cfg)
        → get_active bolt true listed ≡ ok hosts
        → choose_host hosts t.index_line ≡ some h
        → Ends h b f left
        → RunEnds listed b f left

  All-get_elem? :
      (now : ℕ) (listed : Bucket) (i : ℕ) (hosts : List HostRecord) (h : HostRecord)
      → All (IsActive bolt now listed) hosts
      → get_elem? hosts i ≡ some h
      → IsActive bolt now listed h
  All-get_elem? now listed i [] h all at = absurd cc
  All-get_elem? now listed zero (g ∷ hosts) h all at =
      subst (IsActive bolt now listed) (some-injective g h at) all.0
  All-get_elem? now listed (suc i) (g ∷ hosts) h all at =
      All-get_elem? now listed i hosts h all.1 at

  with_choice-Ends :
      (now : ℕ) (listed b : Bucket) (f : KnownFile) (hosts : List HostRecord)
      (o : Option HostRecord)
      → IsWellFormed bolt now listed
      → get_active bolt true listed ≡ ok hosts
      → choose_host hosts t.index_line ≡ o
      → RunEnds listed b f (with_choice bolt kh t m cfg o b f)
  with_choice-Ends now listed b f hosts none w all chosen = no_choice invalid_index
  with_choice-Ends now listed b f hosts (some h) w all chosen =
      let (i, number, at) = (choose_host_iff hosts t.index_line h).0 chosen in
      let active =
        All-get_elem? now listed i hosts h (get_active_exact bolt now listed hosts w all).0 at in
      chose hosts h _ all chosen (with_key-Ends h b f (ensure_key t m) active.1.sound.dated)

  listed_active :
      (reaches io : Bool) (listed : Bucket) (hosts : List HostRecord)
      → list_active_hosts bolt reaches io listed ≡ ok hosts
      → get_active bolt true listed ≡ ok hosts
  unfolding list_active_hosts serve_list get_active get_all
  listed_active false io listed hosts all = absurd cc
  listed_active true false listed hosts all = absurd cc
  listed_active true true listed hosts all = fetched-ok (get_active bolt true listed) hosts all

  with_hosts-Ends :
      (now : ℕ) (listed b : Bucket) (f : KnownFile) (r : Result RpcError (List HostRecord))
      → IsWellFormed bolt now listed
      → list_active_hosts bolt m.lists m.reads listed ≡ r
      → RunEnds listed b f (with_hosts bolt kh t m cfg r b f)
  with_hosts-Ends now listed b f (err e) w all = no_choice (fetching_hosts e)
  with_hosts-Ends now listed b f (ok []) w all = nothing
  with_hosts-Ends now listed b f (ok (h ∷ hosts)) w all =
      with_choice-Ends now listed b f (h ∷ hosts) (choose_host (h ∷ hosts) t.index_line) w
        (listed_active m.lists m.reads listed (h ∷ hosts) all) refl

  pub connect_run-RunEnds :
      (now : ℕ) (listed b : Bucket) (f : KnownFile)
      → IsWellFormed bolt now listed
      → RunEnds listed b f (connect_run bolt kh t m cfg listed b f)
  unfolding connect_run
  connect_run-RunEnds now listed b f w = by_dial m.dials
    where
      by_dial :
          (dials : Bool)
          → RunEnds listed b f (
              if dials
              then with_hosts bolt kh t m cfg (list_active_hosts bolt m.lists m.reads listed) b f
              else (b, f, failed dialing_node))
      by_dial true =
          with_hosts-Ends now listed b f (list_active_hosts bolt m.lists m.reads listed) w refl
      by_dial false = no_choice dialing_node

  mark-keeps :
      (h : HostRecord) (b : Bucket)
      → IsWellFormed bolt m.now b
      → IsWellFormed bolt m.now (mark bolt kh t m cfg h b)
  unfolding call_mark serve_mark
  mark-keeps h b w = elim (Bool-cases m.mark_reaches) [
    | inl reaches ↦ rw reaches (mark-IsWellFormed bolt m.writes m.now h.beacon.mac_address b w)
    | inr lost ↦ rw lost w
  ]

  Ends-keeps :
      (h : HostRecord) (b : Bucket) (f : KnownFile) (left : Left bolt kh t m cfg)
      → Ends h b f left
      → IsWellFormed bolt m.now b
      → IsWellFormed bolt m.now left.0
  Ends-keeps h b f left (stopped g e) w = w
  Ends-keeps h b f left (was_marked p q) w = w
  Ends-keeps h b f left (probed p q) w = mark-keeps h b w
  Ends-keeps h b f left (pushed_to g p q) w = mark-keeps h b w

  RunEnds-keeps :
      (listed b : Bucket) (f : KnownFile) (left : Left bolt kh t m cfg)
      → RunEnds listed b f left
      → IsWellFormed bolt m.now b
      → IsWellFormed bolt m.now left.0
  RunEnds-keeps listed b f left nothing w = w
  RunEnds-keeps listed b f left (no_choice e) w = w
  RunEnds-keeps listed b f left (chose hosts h _ all chosen ends) w = Ends-keeps h b f left ends w

  -- A run that lists the hosts of a well-formed bucket leaves the bucket well-formed that it marks
  -- the host in.
  pub connect_run-IsWellFormed :
      (now : ℕ) (listed b : Bucket) (f : KnownFile)
      → IsWellFormed bolt now listed
      → IsWellFormed bolt m.now b
      → IsWellFormed bolt m.now (connect_run bolt kh t m cfg listed b f).0
  connect_run-IsWellFormed now listed b f l w =
      RunEnds-keeps listed b f (connect_run bolt kh t m cfg listed b f)
        (connect_run-RunEnds now listed b f l) w
