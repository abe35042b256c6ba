-- ===== src/Netcheck/Trace/Tests.antt =====
-- Three traces and two minutes of latencies (internal/netcheck/trace.go).
use pyck_debug_worker.Prelude.{ℕ, List, [], ◌∷◌, none, some, true, false, ◌≡◌}
use pyck_debug_worker.Prelude.Text.{Text, codes}
use pyck_debug_worker.Netcheck.Types.{Target, v4, long, default_port}
use pyck_debug_worker.Netcheck.Agg.Flush.{Aggregate}
use pyck_debug_worker.Netcheck.Trace.{TraceRecord, hourly, observe, new_jumps, watch}
use pyck_debug_worker.Netcheck.Trace.Routes.{
  trace_all, events_of, succeeded, changes, trace_all-changes,
}
use pyck_debug_worker.Netcheck.Trace.Latency.{watched, note_minutes, observe-watched}

abbrev trace : Text → Text → TraceRecord
trace hop error = record {
  ts = 60;
  host = codes "dev";
  ip = codes "192.0.2.1";
  reason = hourly;
  hops = record { ttl = 1; ip = hop; rtt = 100; carrier = [] } ∷ [];
  reached = true;
  pmtu = 1500;
  duration = 5;
  changed = false;
  error = error;
}

abbrev traces : List (ℕ × TraceRecord)
traces =
    (60, trace (codes "10.0.0.1") [])
    ∷ (120, trace [] (codes "no route"))
    ∷ (180, trace (codes "10.0.0.2") [])
    ∷ []

trace_all-changes_example :
    events_of (trace_all traces (record { prev = none; last_run = 0 }))
    ≡ changes none (succeeded traces)
trace_all-changes_example = trace_all-changes traces

abbrev dev : Target
dev = record { host = codes "dev"; ip = v4 192 0 2 1; port = default_port; roots = none }

abbrev minute : ℕ → Aggregate
minute p50 = record {
  ts = 60;
  host = codes "dev";
  ip = codes "192.0.2.1";
  mode = long;
  samples = 1;
  losses = 0;
  connect = none;
  tls = none;
  rtt = some (record { min_us = p50; p50 = p50; p95 = p50; p99 = p50; max_us = p50; jitter = 0 });
  failures = [];
  drops = 0;
  server_closed = 0;
  tcp = none;
  cert = none;
  idle = none;
  sni = [];
  resets = [];
  target = dev;
}

abbrev minutes : List Aggregate
minutes = minute 20000 ∷ minute 40000 ∷ []

observe-watched_example :
    watched dev (observe minutes (watch dev new_jumps))
    ≡ note_minutes dev minutes (watched dev (watch dev new_jumps))
observe-watched_example = observe-watched dev minutes (watch dev new_jumps)
