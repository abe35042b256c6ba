-- ===== src/Probe/Temporal.antt =====
-- The stages temporal, namespace and longpoll (internal/probe/temporal.go), with the poller that is
-- observed in every cycle. The server's answers are given.
pub mod Poll
use pyck_debug_worker.Prelude.{
  ℕ, ◌+◌, ◌-◌, ◌*◌, ◌^◌, List, [], ◌∷◌, ◌++◌, Option, none, some, Bool, true, false, ◌&&◌, not, ltb,
  leb, ◌==◌, ite, if◌then◌else◌,
}
use pyck_debug_worker.Prelude.Text.{Text, text_discrete, codes, print, has_prefix}
use pyck_debug_worker.Target.{is_empty, contains_text}
use pyck_debug_worker.Report.Duration.{duration_string, round_to, second}
use pyck_debug_worker.Probe.{
  Stage, Outcome, Verdict, run_stage, Options, Fault, Code, unimplemented, unauthenticated,
  permission_denied, not_found, code_of, classify, grpc_reason_or,
}

abbrev pub task_queue_prefix : Text
task_queue_prefix = codes "pyck-debug-worker-"

abbrev pub default_namespace : Text
default_namespace = codes "default"

abbrev pub poller_grace : ℕ
poller_grace = 15 * 10 ^ 9

abbrev pub long_poll_duration : ℕ
long_poll_duration = 60 * 10 ^ 9

-- `effectiveNamespace`.
unfoldable pub effective_namespace : Options → Text
effective_namespace opts =
    if not (is_empty opts.namespace_flag)
    then opts.namespace_flag
    else if not (is_empty opts.temporal_namespace)
    then opts.temporal_namespace
    else default_namespace

-- An error that `fmt.Errorf` makes, by its text.
abbrev pub text_fault : Text → Fault
text_fault text = record {
  is_deadline = false;
  is_refused = false;
  is_timed_out = false;
  is_unreachable = false;
  is_not_found = false;
  status = none;
  is_unknown_authority = false;
  hostname = none;
  invalid = none;
  op = none;
  text = text;
}

-- `ValidateTaskQueue`; `quote` is the verb %q.
unfoldable pub validate_task_queue : (Text → Text) → Text → Option Fault
validate_task_queue quote name =
    if has_prefix task_queue_prefix name
    then none
    else some (
        text_fault (
          codes "task queue: "
          ++ (quote name
              ++ (codes " must start with "
                  ++ (quote task_queue_prefix
                      ++ codes ": polling a real queue would steal live workflow tasks")))))

-- The answers to GetSystemInfo and DescribeNamespace: the server's version, and the name of the
-- namespace with that of its state.
pub data SystemInfo : Type 0 where
  no_system_info : Fault → SystemInfo
  server_version : Text → SystemInfo

pub data Described : Type 0 where
  not_described : Fault → Described
  namespace_info : Text → Text → Described

-- A poller of the queue: its identity, and when it accessed the queue last.
pub record PollerInfo : Type 0 where
  pub identity : Text
  pub last_access : ℕ

pub data Pollers : Type 0 where
  no_pollers : Fault → Pollers
  pollers : List PollerInfo → Pollers

-- The bytes of the dash are 0xe2, 0x80 and 0x94.
abbrev pub auth_not_network : Text
auth_not_network =
    codes " "
    ++ (0xe2
        ∷ 0x80
        ∷ 0x94
        ∷ codes " health answered, so this is definitively auth, not the network")

-- `strings.ToUpper` of ASCII.
abbrev pub upper : ℕ → ℕ
upper c = if leb b'a' c && leb c b'z' then c - 32 else c

unfoldable pub to_upper : Text → Text
to_upper [] = []
to_upper (c ∷ s) = upper c ∷ to_upper s

-- `isGoaway`, which `sdkLogger.record` asks of a line as well.
unfoldable pub is_goaway : Text → Bool
unfolding contains_text to_upper
is_goaway s = contains_text (to_upper s) (codes "GOAWAY")

-- `sdkLogger.record`: the count after a message with its key values.
abbrev pub log_line : Text → List Text → Text
log_line line [] = line
log_line line (kv ∷ keyvals) = log_line (line ++ b' ' ∷ kv) keyvals

unfoldable pub log_record : Text → List Text → ℕ → ℕ
unfolding is_goaway
log_record msg keyvals count = if is_goaway (log_line msg keyvals) then count + 1 else count

-- `poller`, without its handles; a time is zero where it was never set.
pub record Poller : Type 0 where
  pub identity : Text
  pub queue : Text
  pub started : ℕ
  pub last_held : ℕ
  pub last_seen : ℕ
  pub truncations : ℕ

-- The loop of `observe`: how long the poll of our own identity is held, if it is there.
abbrev pub longest : ℕ → Option ℕ → ℕ
longest age none = age
longest age (some held) = if ltb held age then age else held

unfoldable pub held_by : Text → ℕ → List PollerInfo → Option ℕ
unfolding text_discrete
held_by identity now [] = none
held_by identity now (info ∷ infos) =
    let rest = held_by identity now infos in
    ite (text_discrete info.identity identity) (some (longest (now - info.last_access) rest)) rest

-- The part of `observe` that holds the mutex.
unfoldable pub saw : ℕ → ℕ → Poller → Poller
saw held now p = record p {
  truncations =
      if not (p.last_seen == 0)
        && (ltb held p.last_held && ltb (p.last_held + (now - p.last_seen)) long_poll_duration)
      then p.truncations + 1
      else p.truncations;
  last_held = held;
  last_seen = now;
}

-- `observe`: the poll that is held, and the state after it.
abbrev pub observed : ℕ → Poller → Option ℕ → Option ℕ × Poller
observed now p none = (none, p)
observed now p (some held) = (some held, saw held now p)

unfoldable pub observe : List PollerInfo → ℕ → Poller → Option ℕ × Poller
unfolding held_by saw
observe infos now p = observed now p (held_by p.identity now infos)

-- `poller.detail`.
unfoldable pub poller_detail : ℕ → ℕ → Option ℕ → Poller → Text
unfolding print duration_string round_to
poller_detail now goaways held p =
    let detail =
      codes "poller up "
      ++ (duration_string (round_to second (now - p.started))
          ++ (codes "  held "
              ++ (elim held [
                | none ↦ codes "?"
                | some held ↦ duration_string (round_to second held)
              ]
                  ++ (codes "  truncations=" ++ print p.truncations)))) in
    if ltb 0 goaways
    then detail
      ++ (codes "  goaway=" ++ (print goaways ++ codes " (expected on a Traefik rollout)"))
    else detail

module _ (format_date : ℕ → Text) (now : ℕ) where
  -- `systemInfoVerdict`.
  abbrev pub rejected : Bool → Text → Verdict
  rejected health_ok reason = (false, if health_ok then reason ++ auth_not_network else reason)

  abbrev pub system_info_code : Bool → Code → Text → Text → Verdict
  system_info_code health_ok unimplemented reason other =
      (true, codes "GetSystemInfo unimplemented: server predates the call")
  system_info_code health_ok unauthenticated reason other = rejected health_ok reason
  system_info_code health_ok permission_denied reason other = rejected health_ok reason
  system_info_code health_ok code reason other = (false, other)

  unfoldable pub system_info_verdict : SystemInfo → Bool → Verdict
  unfolding code_of classify grpc_reason_or
  system_info_verdict (server_version version) health_ok = (
    true,
    codes "GetSystemInfo server=" ++ (if is_empty version then codes "unknown" else version),
  )
  system_info_verdict (no_system_info e) health_ok =
      let (code, found) = code_of e in
      system_info_code health_ok code (grpc_reason_or format_date now e)
        (classify format_date now e)

  -- `namespaceVerdict`.
  abbrev pub namespace_code : Code → Text → Verdict
  namespace_code not_found other = (false, codes "namespace not found: a typo, not an auth fault")
  namespace_code permission_denied other = (
    false,
    codes
        "permission denied: the key is not authorised for this namespace (rejected key or wrong scope)",
  )
  namespace_code code other = (false, other)

  unfoldable pub namespace_verdict : Described → Verdict
  unfolding code_of classify
  namespace_verdict (namespace_info name state) = (true, name ++ b' ' ∷ state)
  namespace_verdict (not_described e) =
      let (code, found) = code_of e in namespace_code code (classify format_date now e)

  -- The part of `longpollStage` behind the start of the worker; `goaways` is the logger's count.
  unfoldable pub polled : ℕ → Pollers → Poller → Verdict × Poller
  unfolding is_goaway classify observe poller_detail duration_string round_to
  polled goaways (no_pollers e) p = (
    if is_goaway e.text
        then (true, poller_detail now goaways none p ++ codes " (describe hit a GOAWAY)")
        else (false, classify format_date now e),
    p,
  )
  polled goaways (pollers infos) p =
      let (held, after) = observe infos now p in
      (
        elim held [
          | some h ↦ (true, poller_detail now goaways (some h) after)
          | none ↦
              if ltb (now - p.started) poller_grace
              then (
                true,
                codes "poller registering (worker up "
                    ++ (duration_string (round_to second (now - p.started)) ++ codes ")"),
              )
              else (
                false,
                codes "our poller is absent from "
                    ++ (p.queue ++ (codes ": identity " ++ p.identity)),
              )
        ],
        after,
      )

-- The observations of a worker, one after the other, each with its time.
unfoldable pub observe_all : List (ℕ × List PollerInfo) → Poller → Poller
unfolding observe
observe_all [] p = p
observe_all ((now, infos) ∷ seen) p = observe_all seen (observe infos now p).1
