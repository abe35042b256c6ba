-- ===== src/Probe/Run/Cache.antt =====
-- The connections of a session of runs: how they are reused and closed (internal/probe/clients.go).
use pyck_debug_worker.Prelude.{
  ℕ, suc, ◌+◌, List, [], ◌∷◌, ◌++◌, Option, none, some, Bool, false, ◌==◌, ltb, arith, tests,
  if◌then◌else◌, count_if, count_if-append, ◌≡◌, refl, sym, ap, ◌∙◌, subst,
}
use pyck_debug_worker.Prelude.Text.{Text, text_discrete, codes}
use pyck_debug_worker.Prelude.Assoc.{Assoc, lookup, insert, lookup-insert, lookup-insert_self}
use pyck_debug_worker.Target.{Target, addr}
use pyck_debug_worker.Probe.{Options, Fault}
use pyck_debug_worker.Probe.Temporal.{Poller}
use pyck_debug_worker.Probe.Clients.{
  Clients, new_clients, Credentials, credentials, ClientOptions, client_options, client_key, Handle,
  no_handle, handle, grpc_conn, store_conn, temporal_client, store_client, Closing, stop_worker,
  close_client, close_conn, close_clients, close_conns, stop_longpoll, close,
}
use pyck_debug_worker.Probe.Run.{World, runs}
use pyck_debug_worker.Probe.Run.Cycles.{IsKept, runs_kept}

-- The key of a map keeps its handle when another key, which is not there, is added.
lookup-insert_new :
    (j k : Text) (m n : ℕ) (map : Assoc Text ℕ)
    → lookup text_discrete k map ≡ none
    → lookup text_discrete j map ≡ some m
    → lookup text_discrete j (insert text_discrete k n map) ≡ some m
lookup-insert_new j k m n map missing there = ground (arith, lookup-insert text_discrete j k n map)

-- The three cases of a look-up: the handle is there, its creation fails, or it is created.
grpc_conn_elim :
    (P : Handle × Clients → Type 0) (new_client : Text → Credentials → Option Fault) (t : Target)
    (opts : Options) (c : Clients)
    → ((n : ℕ) → lookup text_discrete (addr t) c.conns ≡ some n → P (handle n false, c))
    → ((e : Fault) → P (no_handle e, c))
    → (lookup text_discrete (addr t) c.conns ≡ none → P (store_conn (addr t) none c))
    → P (grpc_conn new_client t opts c)
unfolding grpc_conn
grpc_conn_elim P new_client t opts c found failed created =
    go (lookup text_discrete (addr t) c.conns)
      (new_client (codes "dns:///" ++ addr t) (credentials t opts)) found created
  where
    go :
        (there : Option ℕ) (answer : Option Fault)
        → ((n : ℕ) → there ≡ some n → P (handle n false, c))
        → (there ≡ none → P (store_conn (addr t) none c))
        → P (elim there [
          | some conn ↦ (handle conn false, c)
          | none ↦ store_conn (addr t) answer c
        ])
    go (some n) answer found created = found n refl
    go none (some e) found created = failed e
    go none none found created = created refl

temporal_client_elim :
    (P : Handle × Clients → Type 0) (new_lazy_client : ClientOptions → Option Fault)
    (identity : Text) (t : Target) (opts : Options) (namespace : Text) (c : Clients)
    → ((n : ℕ) → P (handle n false, c))
    → ((e : Fault) → P (no_handle e, c))
    → (lookup text_discrete (client_key t namespace) c.temporal ≡ none
        → P (store_client (client_key t namespace) none c))
    → P (temporal_client new_lazy_client identity t opts namespace c)
unfolding temporal_client
temporal_client_elim P new_lazy_client identity t opts namespace c found failed created =
    go (lookup text_discrete (client_key t namespace) c.temporal)
      (new_lazy_client (client_options new_lazy_client identity t opts namespace)) created
  where
    go :
        (there : Option ℕ) (answer : Option Fault)
        → (there ≡ none → P (store_client (client_key t namespace) none c))
        → P (elim there [
          | some conn ↦ (handle conn false, c)
          | none ↦ store_client (client_key t namespace) answer c
        ])
    go (some n) answer created = found n
    go none (some e) created = failed e
    go none none created = created refl

-- A connection that is there stays the one of its address.
abbrev IsOpen : Text → ℕ → Clients → Type 0
IsOpen key n c = lookup text_discrete key c.conns ≡ some n

IsOpen-IsKept : (key : Text) (n : ℕ) → IsKept (IsOpen key n)
IsOpen-IsKept key n = record {
  by_conn = λ w t opts c there.
      grpc_conn_elim (λ r. IsOpen key n r.1) w.new_client t opts c (λ m found. there) (λ e. there)
        (λ missing. lookup-insert_new key (addr t) n c.next c.conns missing there);
  by_client = λ w t opts namespace c there.
      temporal_client_elim (λ r. IsOpen key n r.1) w.new_lazy_client w.identity t opts namespace c
        (λ m. there) (λ e. there) (λ missing. there);
  by_longpoll = λ longpoll c there. there;
}

handle_number : {m n : ℕ} {b fresh : Bool} → handle m b ≡ handle n fresh → m ≡ n
handle_number e = cc

grpc_conn-IsOpen :
    (new_client : Text → Credentials → Option Fault) (t : Target) (opts : Options) (c : Clients)
    (n : ℕ) (fresh : Bool)
    → (grpc_conn new_client t opts c).0 ≡ handle n fresh
    → IsOpen (addr t) n (grpc_conn new_client t opts c).1
grpc_conn-IsOpen new_client t opts c n fresh =
    grpc_conn_elim (λ r. r.0 ≡ handle n fresh → IsOpen (addr t) n r.1) new_client t opts c
      (λ m found created. found ∙ ap some (handle_number created))
      (λ e (created : no_handle e ≡ handle n fresh). cc)
      (λ missing created.
        lookup-insert_self text_discrete (addr t) c.next c.conns ∙ ap some (handle_number created))

grpc_conn_found :
    (new_client : Text → Credentials → Option Fault) (t : Target) (opts : Options) (c : Clients)
    (n : ℕ)
    → IsOpen (addr t) n c
    → grpc_conn new_client t opts c ≡ (handle n false, c)
unfolding grpc_conn
grpc_conn_found new_client t opts c n there =
    ap
      (λ o. elim o as (λ (o : Option ℕ). Handle × Clients) [
        | some conn ↦ (handle conn false, c)
        | none ↦ store_conn (addr t) (new_client (codes "dns:///" ++ addr t) (credentials t opts)) c
      ])
      there

module _ (cycles : List (World × Target × Options)) where
  -- The connection that a call creates or finds for an address is what every later call for this
  -- address finds, with no other created, whatever runs over the same cache stand between the two.
  pub grpc_conn_reused :
      (new_client later_client : Text → Credentials → Option Fault) (t u : Target)
      (opts later : Options) (c : Clients) (n : ℕ) (fresh : Bool)
      → (grpc_conn new_client t opts c).0 ≡ handle n fresh
      → addr u ≡ addr t
      → (let after = runs cycles (grpc_conn new_client t opts c).1 in
          grpc_conn later_client u later after ≡ (handle n false, after))
  grpc_conn_reused new_client later_client t u opts later c n fresh created same =
      let there : IsOpen (addr u) n (runs cycles (grpc_conn new_client t opts c).1) =
        subst (λ key. IsOpen key n (runs cycles (grpc_conn new_client t opts c).1)) (sym same)
          (runs_kept (IsOpen (addr t) n) (IsOpen-IsKept (addr t) n) cycles _
            (grpc_conn-IsOpen new_client t opts c n fresh created)) in
      grpc_conn_found later_client u later _ n there

abbrev opened : Clients → List Closing
opened c = close_clients c.temporal ++ close_conns c.conns

-- Whether a handle is closed.
abbrev pub closes : ℕ → Closing → Bool
closes n (stop_worker m) = false
closes n (close_client m) = m == n
closes n (close_conn m) = m == n

abbrev one_if : Bool → ℕ
one_if b = if b then 1 else 0

-- Each number given out so far is that of one handle of the cache.
abbrev IsCounted : Clients → Type 0
IsCounted c = (n : ℕ) → count_if (closes n) (opened c) ≡ one_if (ltb n c.next)

count_conns :
    (n m : ℕ) (key : Text) (conns : Assoc Text ℕ)
    → lookup text_discrete key conns ≡ none
    → count_if (closes n) (close_conns (insert text_discrete key m conns))
      ≡ count_if (closes n) (close_conns conns) + one_if (m == n)
unfolding lookup insert
count_conns n m key [] missing = ground arith
count_conns n m key ((k, i) ∷ conns) missing = ground (arith, count_conns n m key conns)

count_clients :
    (n m : ℕ) (key : Text) (clients : Assoc Text ℕ)
    → lookup text_discrete key clients ≡ none
    → count_if (closes n) (close_clients (insert text_discrete key m clients))
      ≡ count_if (closes n) (close_clients clients) + one_if (m == n)
unfolding lookup insert
count_clients n m key [] missing = ground arith
count_clients n m key ((k, i) ∷ clients) missing = ground (arith, count_clients n m key clients)

next_one : (n m : ℕ) → one_if (ltb n m) + one_if (m == n) ≡ one_if (ltb n (suc m))
next_one n m = grind tests

conn-IsCounted :
    (key : Text) (c : Clients)
    → lookup text_discrete key c.conns ≡ none
    → IsCounted c
    → IsCounted (store_conn key none c).1
conn-IsCounted key c missing counted n = omega (
  arith,
  counted n,
  count_if-append (closes n) (close_clients c.temporal) (close_conns c.conns),
  count_if-append (closes n) (close_clients c.temporal)
      (close_conns (insert text_discrete key c.next c.conns)),
  count_conns n c.next key c.conns missing,
  next_one n c.next,
)

client-IsCounted :
    (key : Text) (c : Clients)
    → lookup text_discrete key c.temporal ≡ none
    → IsCounted c
    → IsCounted (store_client key none c).1
client-IsCounted key c missing counted n = omega (
  arith,
  counted n,
  count_if-append (closes n) (close_clients c.temporal) (close_conns c.conns),
  count_if-append (closes n) (close_clients (insert text_discrete key c.next c.temporal))
      (close_conns c.conns),
  count_clients n c.next key c.temporal missing,
  next_one n c.next,
)

IsCounted-IsKept : IsKept IsCounted
IsCounted-IsKept = record {
  by_conn = λ w t opts c counted.
      grpc_conn_elim (λ r. IsCounted r.1) w.new_client t opts c (λ m found. counted) (λ e. counted)
        (λ missing. conn-IsCounted (addr t) c missing counted);
  by_client = λ w t opts namespace c counted.
      temporal_client_elim (λ r. IsCounted r.1) w.new_lazy_client w.identity t opts namespace c
        (λ m. counted) (λ e. counted)
        (λ missing. client-IsCounted (client_key t namespace) c missing counted);
  by_longpoll = λ longpoll c counted. counted;
}

count-stop :
    (n : ℕ) (longpoll : Option (ℕ × Poller)) (rest : List Closing)
    → count_if (closes n) (stop_longpoll longpoll ++ rest) ≡ count_if (closes n) rest
count-stop n none rest = refl
count-stop n (some (client, p)) rest = refl

-- After any runs over a cache that was new, its close closes every connection and every client that
-- was created, each once and nothing else, and leaves the cache without any and without a worker.
pub close-runs :
    (cycles : List (World × Target × Options))
    → (let (closed, left) = close (runs cycles new_clients) in
        ((n : ℕ)
          → count_if (closes n) closed ≡ (if ltb n (runs cycles new_clients).next then 1 else 0))
        × (left.conns ≡ [])
        × (left.temporal ≡ [])
        × (left.longpoll ≡ none))
unfolding close
close-runs cycles = (
  λ n.
      count-stop n (runs cycles new_clients).longpoll (opened (runs cycles new_clients))
      ∙ runs_kept IsCounted IsCounted-IsKept cycles new_clients (λ m. ground arith) n,
  refl,
  refl,
  refl,
)
