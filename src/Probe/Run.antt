-- ===== src/Probe/Run.antt =====
-- `Run` and the stages it strings together (internal/probe/probe.go, `grpcStages` of grpc.go,
-- `temporalStages` and `longpollStage` of temporal.go). One reading of the clock stands for those of a run.
pub mod Ladder
pub mod Gated
pub mod Climb
pub mod Cycles
pub mod Cache
use pyck_debug_worker.Prelude.{
  ℕ, List, [], ◌∷◌, ◌++◌, Option, none, some, Bool, true, false, ◌&&◌, not, if◌then◌else◌,
}
use pyck_debug_worker.Prelude.Text.{Text, codes}
use pyck_debug_worker.Target.{grpc, https, Target, is_empty}
use pyck_debug_worker.Netcheck.Types.{Addr}
use pyck_debug_worker.Probe.{Stage, Outcome, Verdict, run_stage, Options, Fault, classify}
use pyck_debug_worker.Probe.Dial.{RawAddr, Resolved, Lookup, dns_stage, tcp_stage}
use pyck_debug_worker.Probe.Certs.{
  Certificate, Handshake, Shaken, Verified, tls_stage, cert_stage, chain_stage,
}
use pyck_debug_worker.Probe.Http.{Reply, http2_stage, redirect_stage}
use pyck_debug_worker.Probe.Pyck.{Claims, Answered, pyck_stages}
use pyck_debug_worker.Probe.Grpc.{Watched, HealthAnswer, connect_verdict, health_stage}
use pyck_debug_worker.Probe.Temporal.{
  SystemInfo, Described, Poller, Pollers, effective_namespace, system_info_verdict,
  namespace_verdict, polled,
}
use pyck_debug_worker.Probe.Clients.{
  Clients, Credentials, ClientOptions, Handle, no_handle, handle, Started, not_started, started,
  grpc_conn, temporal_client, poller,
}

-- What the packages and the network answer in one run; the answers of a gRPC server depend on the
-- connection they are asked over.
pub record World : Type 0 where
  pub format_date : ℕ → Text
  pub quote : Text → Text
  pub now : ℕ
  pub identity : Text
  pub literal : Option RawAddr
  pub lookup4 : Lookup
  pub lookup6 : Lookup
  pub dial : ℕ → Addr → Option Fault
  pub handshake : Shaken
  pub verify_hostname : Certificate → Option Fault
  pub verify : List Certificate → Verified
  pub parse_url : Text → Option (Text × Text)
  pub http2_reply : Reply
  pub redirect_reply : Reply
  pub is_object : Text → Bool
  pub claims_of : Text → Option Claims
  pub derive : Text → Text → Text
  pub get_me : Answered
  pub new_client : Text → Credentials → Option Fault
  pub new_lazy_client : ClientOptions → Option Fault
  pub start : ℕ → Text → Option Fault
  pub watched : ℕ → Watched
  pub health_answer : ℕ → HealthAnswer
  pub system_info : ℕ → SystemInfo
  pub described : ℕ → Text → Described
  pub pollers : ℕ → Text → Pollers
  pub goaways : ℕ

module _ (w : World) (t : Target) (opts : Options) where
  -- `longpollStage`; the poller of the cache is the one that is observed.
  abbrev pub keep_poller : ℕ → Poller → Clients → Clients
  keep_poller client p c = record c { longpoll = some (client, p) }

  abbrev pub started_stage : Started → Clients → Verdict × Clients
  started_stage (not_started e) c =
      ((false, codes "worker did not start: " ++ classify w.format_date w.now e), c)
  started_stage (started (client, p)) c =
      let (verdict, after) = polled w.format_date w.now w.goaways (w.pollers client p.queue) p in
      (verdict, keep_poller client after c)

  unfoldable pub longpoll_stage : Clients → Outcome × Clients
  unfolding poller polled classify run_stage
  longpoll_stage c =
      let (worker, c') = poller w.quote w.start w.identity w.now t opts c in
      let (verdict, c'') = started_stage worker c' in (run_stage Stage.longpoll verdict, c'')

  -- `temporalStages`.
  abbrev pub client_stages : Bool → Text → Handle → Clients → List Outcome × Clients
  client_stages health_ok namespace (no_handle e) c = (
    run_stage Stage.temporal
          (false, codes "client rejected the configuration: " ++ classify w.format_date w.now e)
        ∷ [],
    c,
  )
  client_stages health_ok namespace (handle client fresh) c =
      let results =
        run_stage Stage.temporal
          (system_info_verdict w.format_date w.now (w.system_info client) health_ok)
        ∷ run_stage Stage.namespace
            (namespace_verdict w.format_date w.now (w.described client namespace))
        ∷ [] in
      let (long, c') = longpoll_stage c in
      if opts.deep then (results ++ long ∷ [], c') else (results, c)

  unfoldable pub temporal_stages : Bool → Clients → List Outcome × Clients
  unfolding effective_namespace temporal_client run_stage system_info_verdict namespace_verdict
      longpoll_stage
  temporal_stages health_ok c =
      let namespace = effective_namespace opts in
      let (found, c') = temporal_client w.new_lazy_client w.identity t opts namespace c in
      if is_empty opts.api_key && not opts.insecure
      then ([], c)
      else client_stages health_ok namespace found c'

  -- `grpcStages`, with the rest of `connectGRPC`.
  abbrev pub connected_stages : Verdict → ℕ → Clients → List Outcome × Clients
  connected_stages verdict conn c =
      let health = health_stage w.format_date w.now (w.health_answer conn) in
      let (rest, c') = temporal_stages health.ok c in
      if verdict.0
      then (run_stage Stage.grpc verdict ∷ health ∷ rest, c')
      else (run_stage Stage.grpc verdict ∷ [], c)

  abbrev pub handle_stages : Handle → Clients → List Outcome × Clients
  handle_stages (no_handle e) c = (
    run_stage Stage.grpc
          (false, codes "client rejected the configuration: " ++ classify w.format_date w.now e)
        ∷ [],
    c,
  )
  handle_stages (handle conn fresh) c =
      connected_stages (connect_verdict w.format_date w.now opts.insecure fresh (w.watched conn))
        conn c

  unfoldable pub grpc_stages : Clients → List Outcome × Clients
  unfolding grpc_conn run_stage classify connect_verdict health_stage temporal_stages
  grpc_stages c = let (found, c') = grpc_conn w.new_client t opts c in handle_stages found c'

  -- `protocolStages`.
  unfoldable pub protocol_stages : Clients → List Outcome × Clients
  unfolding http2_stage redirect_stage pyck_stages grpc_stages
  protocol_stages c = elim t.kind [
    | https ↦ (
      http2_stage w.format_date w.now w.http2_reply
          ∷ redirect_stage w.format_date w.now w.parse_url t.host w.redirect_reply
          ∷ pyck_stages w.format_date w.now w.is_object w.claims_of w.derive w.get_me opts,
      c,
    )
    | grpc ↦ grpc_stages c
  ]

  -- The part of `Run` behind the handshake.
  abbrev pub shaken_stages : Option Handshake → Clients → List Outcome × Clients
  shaken_stages none c = ([], c)
  shaken_stages (some state) c =
      let (rest, c') = protocol_stages c in
      (
        cert_stage w.format_date w.now w.verify_hostname state
            ∷ chain_stage w.format_date w.now w.verify_hostname w.verify state
            ∷ rest,
        c',
      )

  abbrev pub plaintext_stages : Clients → List Outcome × Clients
  plaintext_stages c = elim t.kind [ grpc ↦ grpc_stages c | https ↦ ([], c) ]

  -- The part of `Run` behind the dials, on whether a connection was kept.
  abbrev pub dialed_stages : Option ℕ → Clients → List Outcome × Clients
  dialed_stages none c = ([], c)
  dialed_stages (some conn) c =
      let (state, tls) = tls_stage w.format_date w.now w.handshake in
      let (rest, c') = shaken_stages state c in
      if opts.insecure then plaintext_stages c else (tls ∷ rest, c')

  -- `Run`.
  unfoldable pub run : Clients → List Outcome × Clients
  unfolding dns_stage tcp_stage tls_stage cert_stage chain_stage protocol_stages grpc_stages
  run c =
      let (addrs, dns) = dns_stage w.format_date w.now opts w.literal w.lookup4 w.lookup6 in
      let (kept, closed, tcp) = tcp_stage w.format_date w.now opts w.dial t.port addrs in
      let (rest, c') = dialed_stages kept c in (dns ++ (tcp ++ rest), c')

-- The runs of a session, each with its own answers, target and options, over one cache.
unfoldable pub runs : List (World × Target × Options) → Clients → Clients
unfolding run
runs [] c = c
runs ((w, t, opts) ∷ cycles) c = runs cycles (run w t opts c).1
