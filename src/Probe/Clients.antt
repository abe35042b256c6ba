-- ===== src/Probe/Clients.antt =====
-- The connections that outlive a cycle (internal/probe/clients.go). A handle is told by its number in
-- the order of creation; what grpc.NewClient, client.NewLazyClient and the worker's Start answer is
-- given.
use pyck_debug_worker.Prelude.{
  ℕ, suc, List, [], ◌∷◌, ◌++◌, Option, none, some, Bool, true, false, if◌then◌else◌,
}
use pyck_debug_worker.Prelude.Text.{Text, text_discrete, codes, print}
use pyck_debug_worker.Prelude.Assoc.{Assoc, lookup, insert}
use pyck_debug_worker.Target.{Target, addr, is_empty}
use pyck_debug_worker.Probe.{Options, Fault}
use pyck_debug_worker.Probe.Temporal.{Poller, effective_namespace, validate_task_queue, text_fault}

-- `Clients`: the maps from addresses, and from addresses with namespaces, to handles; the worker with
-- the client it polls by; and the number of the next handle.
pub record Clients : Type 0 where
  pub conns : Assoc Text ℕ
  pub temporal : Assoc Text ℕ
  pub longpoll : Option (ℕ × Poller)
  pub next : ℕ

-- `NewClients`.
abbrev pub new_clients : Clients
new_clients = record { conns = []; temporal = []; longpoll = none; next = 0 }

-- The credentials of a connection: none, or TLS for a server's name.
pub data Credentials : Type 0 where
  plaintext : Credentials
  tls_for : Text → Credentials

-- `client.Options`.
pub record ClientOptions : Type 0 where
  pub host_port : Text
  pub namespace : Text
  pub identity : Text
  pub api_key : Option Text
  pub tls_disabled : Bool

-- A handle, with whether it was created by this call; or the error.
pub data Handle : Type 0 where
  no_handle : Fault → Handle
  handle : ℕ → Bool → Handle

abbrev pub credentials : Target → Options → Credentials
credentials t opts = if opts.insecure then plaintext else tls_for t.host

-- The key of a Temporal client.
unfoldable pub client_key : Target → Text → Text
unfolding addr
client_key t namespace = addr t ++ b'|' ∷ namespace

-- `probeIdentity` of the host's name, which is `none` where it is not known, and the process's number.
unfoldable pub probe_identity : Option Text → ℕ → Text
unfolding print
probe_identity host pid =
    codes "pyck-debug-worker@"
    ++ (elim host [ some name ↦ name | none ↦ codes "unknown" ] ++ b'@' ∷ print pid)

abbrev pub store_conn : Text → Option Fault → Clients → Handle × Clients
store_conn key (some e) c = (no_handle e, c)
store_conn key none c = (
  handle c.next true,
  record c { conns = insert text_discrete key c.next c.conns; next = suc c.next },
)

module _ (new_client : Text → Credentials → Option Fault) where
  -- `grpcConn`.
  unfoldable pub grpc_conn : Target → Options → Clients → Handle × Clients
  unfolding addr lookup insert text_discrete
  grpc_conn t opts c = elim (lookup text_discrete (addr t) c.conns) [
    | some conn ↦ (handle conn false, c)
    | none ↦ store_conn (addr t) (new_client (codes "dns:///" ++ addr t) (credentials t opts)) c
  ]

abbrev pub store_client : Text → Option Fault → Clients → Handle × Clients
store_client key (some e) c = (no_handle e, c)
store_client key none c = (
  handle c.next true,
  record c { temporal = insert text_discrete key c.next c.temporal; next = suc c.next },
)

module _ (new_lazy_client : ClientOptions → Option Fault) (identity : Text) where
  abbrev pub client_options : Target → Options → Text → ClientOptions
  client_options t opts namespace = record {
    host_port = addr t;
    namespace = namespace;
    identity = identity;
    api_key = if is_empty opts.api_key then none else some opts.api_key;
    tls_disabled = opts.insecure;
  }

  -- `temporalClient`.
  unfoldable pub temporal_client : Target → Options → Text → Clients → Handle × Clients
  unfolding addr client_key lookup insert text_discrete
  temporal_client t opts namespace c =
      elim (lookup text_discrete (client_key t namespace) c.temporal) [
        | some client ↦ (handle client false, c)
        | none ↦
            store_client (client_key t namespace)
              (new_lazy_client (client_options t opts namespace)) c
      ]

-- The worker with its poller, or the error.
pub data Started : Type 0 where
  not_started : Fault → Started
  started : ℕ × Poller → Started

module _ (quote : Text → Text) (start : ℕ → Text → Option Fault) (identity : Text) (now : ℕ) where
  abbrev pub new_poller : Text → Poller
  new_poller queue = record {
    identity = identity;
    queue = queue;
    started = now;
    last_held = 0;
    last_seen = 0;
    truncations = 0;
  }

  abbrev pub start_worker : ℕ → Text → Option Fault → Clients → Started × Clients
  start_worker client queue (some e) c = (not_started e, c)
  start_worker client queue none c =
      (started (client, new_poller queue), record c { longpoll = some (client, new_poller queue) })

  -- `poller`.
  unfoldable pub poller : Target → Options → Clients → Started × Clients
  unfolding validate_task_queue effective_namespace addr client_key lookup text_discrete
  poller t opts c = elim c.longpoll [
    | some worker ↦ (started worker, c)
    | none ↦ elim (validate_task_queue quote opts.task_queue) [
      | some e ↦ (not_started e, c)
      | none ↦ elim (lookup text_discrete (client_key t (effective_namespace opts)) c.temporal) [
        | none ↦
            (not_started (text_fault (codes "task queue: no Temporal client for " ++ addr t)), c)
        | some client ↦ start_worker client opts.task_queue (start client opts.task_queue) c
      ]
    ]
  ]

-- What `Close` does to the handles.
pub data Closing : Type 0 where
  stop_worker : ℕ → Closing
  close_client : ℕ → Closing
  close_conn : ℕ → Closing

abbrev pub close_clients : Assoc Text ℕ → List Closing
close_clients [] = []
close_clients ((key, client) ∷ cs) = close_client client ∷ close_clients cs

abbrev pub close_conns : Assoc Text ℕ → List Closing
close_conns [] = []
close_conns ((key, conn) ∷ cs) = close_conn conn ∷ close_conns cs

abbrev pub stop_longpoll : Option (ℕ × Poller) → List Closing
stop_longpoll none = []
stop_longpoll (some (client, p)) = stop_worker client ∷ []

-- `Close`; the order among the entries of a map is that of the list.
unfoldable pub close : Clients → List Closing × Clients
close c = (
  stop_longpoll c.longpoll ++ (close_clients c.temporal ++ close_conns c.conns),
  record c { conns = []; temporal = []; longpoll = none },
)
