-- ===== src/Probe/Tests.antt =====
-- Runs of the ladder on examples.
use pyck_debug_worker.Prelude.{
  ℕ, zero, suc, ◌*◌, ◌^◌, ◌≤◌, List, [], ◌∷◌, Option, none, some, true, false, ℕ_discrete, inr,
  arith, ltb, if◌then◌else◌, all_of, count_if, ◌||◌, ◌≡◌, ◌↔◌, refl,
}
use pyck_debug_worker.Prelude.Text.{Text, text_discrete, codes}
use pyck_debug_worker.Target.{grpc, Target, is_empty}
use pyck_debug_worker.Netcheck.Types.{Addr, v4, v6}
use pyck_debug_worker.Probe.{Stage, ip4, ip6, Options, Fault}
use pyck_debug_worker.Probe.Dial.{plain, Resolved, tcp_stage}
use pyck_debug_worker.Probe.Dial.Kept.{
  told, first_of, others_of, connected, all_addrs, dialed, tcp_stage-kept,
}
use pyck_debug_worker.Probe.Certs.{
  Certificate, Extension, Handshake, ed25519, chain_of, shaken, embedded_scts, count_entries,
  cert_stage, chain_stage,
}
use pyck_debug_worker.Probe.Certs.Sct.{frame_all, embedded_scts-frame, count_entries_enough}
use pyck_debug_worker.Probe.Certs.Validity.{cert_and_chain_ok}
use pyck_debug_worker.Probe.Http.{Response, body_size, no_reply, redirect_verdict, equal_fold}
use pyck_debug_worker.Probe.Http.Verdicts.{IsMoved, redirect_verdict-IsMoved}
use pyck_debug_worker.Probe.Pyck.{Tenant, jwt_claim, unanswered, cross_check}
use pyck_debug_worker.Probe.Pyck.Agreement.{oks, values_of, cross_check-agrees}
use pyck_debug_worker.Probe.Grpc.{idle, connecting, ready, health_status}
use pyck_debug_worker.Probe.Temporal.{
  PollerInfo, Poller, pollers, server_version, namespace_info, text_fault, observe_all,
}
use pyck_debug_worker.Probe.Temporal.Poll.{observe_all_held}
use pyck_debug_worker.Probe.Clients.{new_clients, handle, grpc_conn, close}
use pyck_debug_worker.Probe.Run.{World, run, runs}
use pyck_debug_worker.Probe.Run.Ladder.{nothing_passed, IsGated}
use pyck_debug_worker.Probe.Run.Climb.{run-IsGated}
use pyck_debug_worker.Probe.Run.Cache.{grpc_conn_reused, closes, close-runs}

abbrev format_date : ℕ → Text
format_date n = codes "2026-01-01"

abbrev opts : Options
opts = record {
  insecure = false;
  debug_dns = false;
  token = [];
  gateway_url = [];
  expected_tenant_id = codes "AB-1";
  temporal_namespace = codes "ab-1";
  api_key = codes "key";
  namespace_flag = [];
  deep = true;
  task_queue = codes "pyck-debug-worker-dev";
}

-- The first dial is refused, the others connect.
abbrev dial : ℕ → Addr → Option Fault
dial zero a = some (text_fault (codes "refused"))
dial (suc n) a = none

abbrev resolved : List Resolved
resolved =
    record { family = ip4; addrs = v4 192 0 2 1 ∷ v4 192 0 2 2 ∷ [] }
    ∷ record { family = ip6; addrs = v6 (codes "2001:db8::1") ∷ [] }
    ∷ []

tcp_stage-kept_example :
    (let (kept, closed, results) = tcp_stage format_date 5 opts dial 443 resolved in
      (kept
        ≡ first_of (
            connected format_date 5 opts dial 443 0
              (all_addrs format_date 5 opts dial 443 resolved)))
      × (closed
          ≡ others_of (
              connected format_date 5 opts dial 443 0
                (all_addrs format_date 5 opts dial 443 resolved)))
      × (told results
          ≡ dialed format_date 5 opts dial 443 0 (all_addrs format_date 5 opts dial 443 resolved)))
tcp_stage-kept_example = tcp_stage-kept format_date 5 opts dial 443 resolved

-- The second connection is the one that is kept.
second_kept : (tcp_stage format_date 5 opts dial 443 resolved).0 ≡ some 1
unfolding tcp_stage
second_kept = refl

abbrev scts : List (List ℕ)
scts = (1 ∷ 2 ∷ 3 ∷ []) ∷ (4 ∷ []) ∷ []

abbrev key_usage : Extension
key_usage = record { is_sct_list = false; octets = none }

embedded_scts-frame_example :
    embedded_scts
      (key_usage ∷ record { is_sct_list = true; octets = some (0 ∷ 8 ∷ frame_all scts) } ∷ [])
    ≡ 2
embedded_scts-frame_example =
    embedded_scts-frame (key_usage ∷ []) 0 8 scts [] (refl, tt) (omega arith, (omega arith, tt))

count_entries_enough_example : count_entries 8 (frame_all scts) ≡ count_entries 9 (frame_all scts)
count_entries_enough_example = count_entries_enough 8 9 (frame_all scts) (omega arith) (omega arith)

abbrev leaf : Certificate
leaf = record {
  not_before = 10;
  not_after = 20;
  common_name = codes "dev.example";
  subject = codes "CN=dev.example";
  dns_names = 1;
  ip_addresses = 0;
  email_addresses = 0;
  uris = 0;
  key = ed25519;
  extensions = [];
}

abbrev handshake : Handshake
handshake = record {
  version = codes "TLS 1.3";
  protocol = codes "h2";
  cipher_suite = codes "TLS_AES_128_GCM_SHA256";
  curve = none;
  peers = leaf ∷ [];
  signed_timestamps = 0;
}

cert_and_chain_ok_example :
    (((cert_stage format_date 20 (λ c. none) handshake).ok ≡ true)
      ↔ ((10 ≤ 20) × (20 ≤ 20) × (◌≡◌ {A = Option Fault} none none)))
    × (((chain_stage format_date 20 (λ c. none) chain_of handshake).ok ≡ true) ↔ (
        ((path : List Certificate) × (chain_of (leaf ∷ []) ≡ chain_of path))
        × (◌≡◌ {A = Option Fault} none none)))
cert_and_chain_ok_example =
    cert_and_chain_ok format_date 20 (λ c. none) chain_of handshake leaf [] refl

abbrev parse_url : Text → Option (Text × Text)
parse_url [] = none
parse_url (c ∷ s) = some (codes "HTTPS", codes "dev.example")

abbrev moved_permanently : Response
moved_permanently = record {
  status = codes "301 Moved Permanently";
  status_code = 301;
  proto = codes "HTTP/1.1";
  proto_major = 1;
  location = codes "HTTPS://dev.example/";
  body = body_size 0;
}

redirect_verdict-IsMoved_example :
    ((redirect_verdict format_date 5 parse_url (codes "dev.example") moved_permanently).0 ≡ true)
    ↔ IsMoved parse_url (codes "dev.example") moved_permanently
redirect_verdict-IsMoved_example =
    redirect_verdict-IsMoved format_date 5 parse_url (codes "dev.example") moved_permanently

abbrev tenant : Tenant
tenant = record { id = codes "ab-1"; name = codes "Acme"; via = jwt_claim }

cross_check-agrees_example : oks (cross_check tenant opts) ≡ (
    if all_of is_empty (values_of opts)
    then []
    else all_of (λ value. is_empty value || equal_fold value (codes "ab-1")) (values_of opts) ∷ [])
cross_check-agrees_example = cross_check-agrees tenant opts

abbrev poller : Poller
poller = record {
  identity = codes "me";
  queue = codes "q";
  started = 1;
  last_held = 0;
  last_seen = 0;
  truncations = 0;
}

-- Our poll is seen for ten seconds, then its successor, which started after the full minute; another
-- identity polls the queue too, first long before us and then only just.
abbrev seen : List (ℕ × List PollerInfo)
seen =
    (
      11 * 10 ^ 9,
      record { identity = codes "them"; last_access = 0 }
          ∷ record { identity = codes "me"; last_access = 10 ^ 9 }
          ∷ [],
    )
    ∷ (
      64 * 10 ^ 9,
      record { identity = codes "me"; last_access = 62 * 10 ^ 9 }
          ∷ record { identity = codes "them"; last_access = 63 * 10 ^ 9 }
          ∷ [],
    )
    ∷ []

observe_all_held_example : (observe_all seen poller).truncations ≡ 0
unfolding text_discrete ℕ_discrete
observe_all_held_example = observe_all_held seen poller refl (
    inr (
      10 ^ 9,
      (refl, refl),
      omega arith,
      inr (62 * 10 ^ 9, (refl, refl), (omega arith, omega arith, inr (omega arith)), tt),
    ))

abbrev world : World
world = record {
  format_date = format_date;
  quote = λ s. s;
  now = 20;
  identity = codes "me";
  literal = some (plain (v4 192 0 2 1));
  lookup4 = record { addrs = []; error = none };
  lookup6 = record { addrs = []; error = none };
  dial = λ n a. none;
  handshake = shaken handshake;
  verify_hostname = λ c. none;
  verify = chain_of;
  parse_url = parse_url;
  http2_reply = no_reply (text_fault (codes "eof"));
  redirect_reply = no_reply (text_fault (codes "eof"));
  is_object = λ s. true;
  claims_of = λ s. none;
  derive = λ a b. a;
  get_me = unanswered (text_fault (codes "eof"));
  new_client = λ s c. none;
  new_lazy_client = λ o. none;
  start = λ n q. none;
  watched = λ n. record {
    before = idle;
    state = connecting;
    later = ready ∷ [];
    ended = text_fault (codes "late");
  };
  health_answer = λ n. health_status true (codes "SERVING");
  system_info = λ n. server_version (codes "1.24");
  described = λ n s. namespace_info s (codes "Registered");
  pollers = λ n q. pollers (record { identity = codes "me"; last_access = 10 } ∷ []);
  goaways = 0;
}

abbrev frontend : Target
frontend = record { host = codes "wf.dev.example"; port = 443; kind = grpc }

run-IsGated_example :
    IsGated grpc opts nothing_passed (told (run world frontend opts new_clients).0)
run-IsGated_example = run-IsGated world frontend opts new_clients

-- The whole of the ladder is climbed.
all_stages :
    told (run world frontend opts new_clients).0
    ≡ (Stage.tcp ip4, true)
      ∷ (Stage.tls, true)
      ∷ (Stage.cert, true)
      ∷ (Stage.chain, true)
      ∷ (Stage.grpc, true)
      ∷ (Stage.health, true)
      ∷ (Stage.temporal, true)
      ∷ (Stage.namespace, true)
      ∷ (Stage.longpoll, true)
      ∷ []
unfolding run ℕ_discrete
all_stages = refl

abbrev two_cycles : List (World × Target × Options)
two_cycles = (world, frontend, opts) ∷ (world, frontend, opts) ∷ []

grpc_conn_reused_example :
    (let after = runs two_cycles (grpc_conn (λ s c. none) frontend opts new_clients).1 in
      grpc_conn (λ s c. none) frontend opts after ≡ (handle 0 false, after))
unfolding grpc_conn
grpc_conn_reused_example =
    grpc_conn_reused two_cycles (λ s c. none) (λ s c. none) frontend frontend opts opts new_clients
      0 true refl refl

close-runs_example :
    (let (closed, left) = close (runs two_cycles new_clients) in
      ((n : ℕ)
        → count_if (closes n) closed ≡ (if ltb n (runs two_cycles new_clients).next then 1 else 0))
      × (left.conns ≡ [])
      × (left.temporal ≡ [])
      × (left.longpoll ≡ none))
close-runs_example = close-runs two_cycles

-- The session created one connection and one client.
two_handles : (runs two_cycles new_clients).next ≡ 2
unfolding runs ℕ_discrete
two_handles = refl
