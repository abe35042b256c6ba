-- ===== src/Probe/Run/Cycles.antt =====
-- What the runs of a session do to the cache of connections (internal/probe/clients.go): it is only
-- changed by the three functions that look a handle up.
use pyck_debug_worker.Prelude.{
  ℕ, List, [], ◌∷◌, Option, none, some, Bool, true, false, if◌then◌else◌,
}
use pyck_debug_worker.Prelude.Assoc.{lookup}
use pyck_debug_worker.Prelude.Text.{Text, text_discrete}
use pyck_debug_worker.Target.{Kind, grpc, https, Target}
use pyck_debug_worker.Probe.{Options, Outcome, Fault}
use pyck_debug_worker.Probe.Certs.{Handshake}
use pyck_debug_worker.Probe.Temporal.{Poller, validate_task_queue, effective_namespace}
use pyck_debug_worker.Probe.Clients.{
  Clients, Handle, no_handle, handle, Started, not_started, started, grpc_conn, temporal_client,
  poller, client_key, start_worker,
}
use pyck_debug_worker.Probe.Run.{
  World, longpoll_stage, started_stage, client_stages, temporal_stages, handle_stages, grpc_stages,
  protocol_stages, shaken_stages, dialed_stages, run, runs,
}

-- A property of the cache that the functions on it keep.
pub record IsKept (P : Clients → Type 0) : Type 1 where
  pub by_conn :
      (w : World) (t : Target) (opts : Options) (c : Clients)
      → P c
      → P (grpc_conn w.new_client t opts c).1
  pub by_client :
      (w : World) (t : Target) (opts : Options) (namespace : Text) (c : Clients)
      → P c
      → P (temporal_client w.new_lazy_client w.identity t opts namespace c).1
  pub by_longpoll :
      (longpoll : Option (ℕ × Poller)) (c : Clients) → P c → P (record c { longpoll = longpoll })

if_kept :
    {A : Type 0} (P : Clients → Type 0) (b : Bool) (x y : A × Clients)
    → P x.1
    → P y.1
    → P (if b then x else y).1
if_kept P true x y px py = px
if_kept P false x y px py = py

option_kept :
    {A B : Type 0} (P : Clients → Type 0) (o : Option B) (x : A × Clients) (y : B → A × Clients)
    → P x.1
    → ((b : B) → P (y b).1)
    → P (elim o as (λ o. A × Clients) [ none ↦ x | some b ↦ y b ]).1
option_kept P none x y px py = px
option_kept P (some b) x y px py = py b

module _ (P : Clients → Type 0) (kept : IsKept P) (w : World) (t : Target) (opts : Options) where
  start_worker_kept :
      (client : ℕ) (queue : Text) (answer : Option Fault) (c : Clients)
      → P c
      → P (start_worker w.quote w.start w.identity w.now client queue answer c).1
  start_worker_kept client queue (some e) c pc = pc
  start_worker_kept client queue none c pc = kept.by_longpoll _ c pc

  poller_kept : (c : Clients) → P c → P (poller w.quote w.start w.identity w.now t opts c).1
  unfolding poller
  poller_kept c pc =
      option_kept P c.longpoll _ _
        (option_kept P (validate_task_queue w.quote opts.task_queue) _ _
          (option_kept P (lookup text_discrete (client_key t (effective_namespace opts)) c.temporal)
            _ _ pc (λ client. start_worker_kept client opts.task_queue _ c pc))
          (λ e. pc))
        (λ worker. pc)

  started_stage_kept :
      (worker : Started) (c : Clients) → P c → P (started_stage w t opts worker c).1
  started_stage_kept (not_started e) c pc = pc
  started_stage_kept (started (client, p)) c pc = kept.by_longpoll _ c pc

  longpoll_stage_kept : (c : Clients) → P c → P (longpoll_stage w t opts c).1
  unfolding longpoll_stage
  longpoll_stage_kept c pc = started_stage_kept _ _ (poller_kept c pc)

  client_stages_kept :
      (health_ok : Bool) (namespace : Text) (found : Handle) (c : Clients)
      → P c
      → P (client_stages w t opts health_ok namespace found c).1
  client_stages_kept health_ok namespace (no_handle e) c pc = pc
  client_stages_kept health_ok namespace (handle client fresh) c pc =
      if_kept P opts.deep _ _ (longpoll_stage_kept c pc) pc

  temporal_stages_kept :
      (health_ok : Bool) (c : Clients) → P c → P (temporal_stages w t opts health_ok c).1
  unfolding temporal_stages
  temporal_stages_kept health_ok c pc =
      if_kept P _ _ _ pc (
        client_stages_kept health_ok _ _ _
          (kept.by_client w t opts (effective_namespace opts) c pc))

  handle_stages_kept : (found : Handle) (c : Clients) → P c → P (handle_stages w t opts found c).1
  handle_stages_kept (no_handle e) c pc = pc
  handle_stages_kept (handle conn fresh) c pc = if_kept P _ _ _ (temporal_stages_kept _ c pc) pc

  grpc_stages_kept : (c : Clients) → P c → P (grpc_stages w t opts c).1
  unfolding grpc_stages
  grpc_stages_kept c pc = handle_stages_kept _ _ (kept.by_conn w t opts c pc)

  kind_kept :
      (kind : Kind) (x y : List Outcome × Clients)
      → P x.1
      → P y.1
      → P (elim kind as (λ k. List Outcome × Clients) [ https ↦ x | grpc ↦ y ]).1
  kind_kept https x y px py = px
  kind_kept grpc x y px py = py

  shaken_stages_kept :
      (state : Option Handshake) (c : Clients) → P c → P (shaken_stages w t opts state c).1
  unfolding protocol_stages
  shaken_stages_kept none c pc = pc
  shaken_stages_kept (some state) c pc = kind_kept t.kind _ _ pc (grpc_stages_kept c pc)

  dialed_stages_kept : (conn : Option ℕ) (c : Clients) → P c → P (dialed_stages w t opts conn c).1
  dialed_stages_kept none c pc = pc
  dialed_stages_kept (some conn) c pc =
      if_kept P opts.insecure _ _ (kind_kept t.kind _ _ pc (grpc_stages_kept c pc))
        (shaken_stages_kept _ c pc)

  run_kept : (c : Clients) → P c → P (run w t opts c).1
  unfolding run
  run_kept c pc = dialed_stages_kept _ c pc

pub runs_kept :
    (P : Clients → Type 0) (kept : IsKept P) (cycles : List (World × Target × Options))
    (c : Clients)
    → P c
    → P (runs cycles c)
unfolding runs
runs_kept P kept [] c pc = pc
runs_kept P kept ((w, t, opts) ∷ cycles) c pc =
    runs_kept P kept cycles (run w t opts c).1 (run_kept P kept w t opts c pc)
