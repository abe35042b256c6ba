-- ===== src/Lib.antt =====
-- pyck-debug-worker probes the endpoints of pyck environments in cycles and measures, beside that, the
-- long-term quality of connections. This library models its own logic and proves what makes it
-- correct. Paths are from the repository's root.
--
-- The parts, and the files that model them:
--   * cmd/pyck-debug-worker/main.go: Main. `rejectSecretArgs`, `resolveTargets` and `load` are
--     reject_secret_args, resolve_targets and load (Main, with ProbeSet and Secrets); `loop`,
--     `persistProbes`, `printOnce`, `cycle` and `probeTargets` are in Main.Loop (with Slots), and
--     `checkNetcheck` is in Main.Flags. A command line is first checked for credentials, then expanded
--     to targets by `target.Resolve`, filtered by `target.Denied`, and probed; each cycle is added to
--     the run of the report.
--   * internal/target/target.go: Target, with Parse (ParseTarget and Addr), Names (Resolve) and
--     Denylist (Denied).
--   * internal/report/report.go: Report, with Tally (`tally`), Run (`Run.Add` and its state), Duration
--     (`formatDuration`) and Render (`Line`, `renderCycle`, `Summary`, `block`). Totals, Order, Added,
--     History, Render.Overall and Render.Rows hold the proofs.
--   * internal/secret/secret.go: Secret.
--   * internal/netcheck: Netcheck. agg.go is Netcheck.Agg (Buckets are the counters, Flush the minute's
--     end) and Netcheck.Stats (`summarise`); trace.go is Netcheck.Trace; `ParseHosts` of netcheck.go
--     and `apply` of resolve.go are Netcheck.Hosts; dnscheck.go is Netcheck.Dns; `idleSession` of
--     idle.go is Netcheck.Idle; `flushMinute` of netcheck.go is Netcheck.Minute.
--     The loops that measure call the methods of `agg`, each of which holds its mutex throughout and
--     is one step here, so that an interleaving is a sequence of steps; `intercepted` takes it twice
--     and is two.
--     store.go is Netcheck.Store (Content, Days, Writes, Log and Files build up what the files hold) and
--     upload.go is Netcheck.Upload. Days, their files and the buffer of `bufio.Writer` are the state;
--     the errors of the system calls are arguments of each operation.
--   * internal/probe: Probe, which has the stages, the options and the classification of errors
--     (probe.go, errors.go); Probe.Dial (dns.go, tcp.go), Probe.Certs (tls.go, cert.go, chain.go),
--     Probe.Http (http2.go, redirect.go), Probe.Pyck (auth.go, tenant.go), Probe.Grpc (grpc.go),
--     Probe.Temporal (temporal.go) and Probe.Clients (clients.go) are the stages and the cache of
--     connections, and Probe.Run is `Run` over all of them (Ladder, Gated and Climb for what gates a
--     stage, Cycles and Cache for the connections over a session of runs).
--   * internal/printcheck: Printcheck is the configuration of printcheck.go, Printcheck.Stages its
--     stages with errors.go, and Printcheck.Label print.go and `Run` over all stages.
--   * Prelude and Strings: numbers, lists, maps, texts and the functions of Go's strings, strconv and
--     net packages that the source calls.
--
-- Conventions: a Go string is its list of bytes; `strings.ToLower` and `TrimSpace` are those of ASCII;
-- a map is an association list; a duration is in nanoseconds, and where the source rounds a latency to
-- three decimals of a millisecond, it is in microseconds; float64 arithmetic on these is exact here.
-- Counters and durations stay within an int64. A time is its nanoseconds since Go's zero time. Fuel
-- stands in two places: the walk over an SCT list is given as many rounds as it has bytes, which is
-- enough, and `print` gives a number one more round than its value, which is at least its number of
-- digits. The percentiles are the three that `summarise` asks for, for which the float64 rank is exact.
--
-- Parameters: the environment and the files that `load` reads, `netip.ParseAddr`, `net.ParseIP`,
-- `url.Parse`, `filepath.Join`, SHA-256, the quoting of JSON and of %q, and the formatting of a
-- `time.Time`; in Probe.Run.World what the resolver, the dialer, the TLS stack, the path building, the
-- HTTP and gRPC stacks, the Temporal SDK and the servers answer; in Netcheck.Store.Io the errors of the
-- file system; in Netcheck.Upload the receiver; in Printcheck.Label.Answers the Kerberos and SMB
-- sessions, the two services and the share.
--
-- Not modelled: the long, short, compare and throughput loops, the records of probes.go, the system
-- calls of trace_linux.go and tcpinfo_linux.go, the requests of auth.go, and the printed details
-- of agg.go and dnscheck.go, which format floats.
pub mod Main
pub mod Netcheck
pub mod Prelude
pub mod Printcheck
pub mod Probe
pub mod Report
pub mod Secret
pub mod Strings
pub mod Target
