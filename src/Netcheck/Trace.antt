-- ===== src/Netcheck/Trace.antt =====
-- Route traces and the latency jumps that ask for one (internal/netcheck/trace.go). A latency is a
-- number of microseconds, and the factor 1.3 is exact; a channel of capacity 1 is whether it is full.
pub mod Routes
pub mod Latency
pub mod Tests
use pyck_debug_worker.Prelude.{
  ℕ, ◌+◌, ◌*◌, ◌-◌, ◌/◌, ◌^◌, List, [], ◌∷◌, ◌++◌, Option, none, some, Bool, true, false, ◌&&◌,
  ◌||◌, ltb, leb, ◌==◌, not, ite, map, if◌then◌else◌, length, contains,
}
use pyck_debug_worker.Prelude.Text.{Text, text_discrete, codes, print, join}
use pyck_debug_worker.Prelude.Assoc.{Assoc, lookup, insert, delete}
use pyck_debug_worker.Netcheck.Types.{
  Addr, invalid, v4, v6, Target, target_discrete, Mode, long, short, idle, compare, throughput,
}
use pyck_debug_worker.Netcheck.Stats.{Stats}
use pyck_debug_worker.Netcheck.Agg.Flush.{Aggregate}
use pyck_debug_worker.Target.{is_empty}

-- `carriers`: each tagged network is a number of leading bytes; the last is two /16 networks.
unfoldable pub carrier_of : Addr → Text
carrier_of invalid = []
carrier_of (v6 s) = []
carrier_of (v4 a b c d) =
    if (a == 59) && (b == 43)
    then codes "CN2"
    else if (a == 202) && (b == 97)
    then codes "ChinaNet"
    else if (a == 219) && (b == 158)
    then codes "Unicom-AS4837"
    else if (a == 223) && (b / 2 == 60)
    then codes "ChinaMobile"
    else []

-- `traceHop`; the latency is in microseconds.
pub record TraceHop : Type 0 where
  pub ttl : ℕ
  pub ip : Text
  pub rtt : ℕ
  pub carrier : Text

-- The constants `reason…`.
pub data Reason : Type 0 where
  startup : Reason
  hourly : Reason
  jump : Reason

abbrev pub reason_text : Reason → Text
reason_text startup = codes "startup"
reason_text hourly = codes "hourly"
reason_text jump = codes "latency-jump"

-- `traceRecord`.
pub record TraceRecord : Type 0 where
  pub ts : ℕ
  pub host : Text
  pub ip : Text
  pub reason : Reason
  pub hops : List TraceHop
  pub reached : Bool
  pub pmtu : ℕ
  pub duration : ℕ
  pub changed : Bool
  pub error : Text

abbrev some_text : Bool → Text → List Text
some_text true s = s ∷ []
some_text false s = []

-- The carriers of the hops, each once, in the order in which they are met.
unfoldable pub carrier_tags : List TraceHop → List Text → List Text
unfolding text_discrete
carrier_tags [] tags = tags
carrier_tags (h ∷ hops) tags =
    if is_empty h.carrier || contains text_discrete tags h.carrier
    then carrier_tags hops tags
    else carrier_tags hops (tags ++ h.carrier ∷ [])

abbrev carriers_text : List Text → List Text
unfolding join
carriers_text [] = []
carriers_text (t ∷ tags) = (codes "carriers=" ++ join (codes ",") (t ∷ tags)) ∷ []

-- `traceRecord.detail`.
unfoldable pub detail : TraceRecord → Text
unfolding print join carrier_tags carriers_text
detail r = join (codes "  ") (
    reason_text r.reason
    ∷ (codes "hops=" ++ print (length r.hops))
    ∷ codes (if r.reached then "reached" else "not-reached")
    ∷ (some_text (ltb 0 r.pmtu) (codes "pmtu=" ++ print r.pmtu)
        ++ (carriers_text (carrier_tags r.hops [])
            ++ (some_text r.changed (codes "route-changed")
                ++ some_text (not (is_empty r.error)) r.error))))

-- `path`.
unfoldable pub path : List TraceHop → List Text
path [] = []
path (h ∷ hops) = (if is_empty h.ip then codes "*" else h.ip) ∷ path hops

-- Whether two hops of one TTL differ: both answered, and not with one address.
abbrev pub differs : TraceHop → TraceHop → Bool
differs a b =
    not (is_empty a.ip) && (not (is_empty b.ip) && not (ite (text_discrete a.ip b.ip) true false))

-- The loop of `routeChanged`.
unfoldable pub hops_differ : List TraceHop → List TraceHop → Bool
hops_differ [] bs = false
hops_differ (a ∷ xs) [] = false
hops_differ (a ∷ xs) (b ∷ ys) = differs a b || hops_differ xs ys

-- `routeChanged`.
unfoldable pub route_changed : TraceRecord → TraceRecord → Bool
unfolding hops_differ
route_changed prev cur =
    hops_differ prev.hops cur.hops
    || (prev.reached && (cur.reached && not (length prev.hops == length cur.hops)))

-- The state of `traceLoop` between two traces: `prev` is `none` while `havePrev` is false.
pub record Tracing : Type 0 where
  pub prev : Option TraceRecord
  pub last_run : ℕ

-- A route-changed event: the hops of the new and of the previous path.
abbrev pub RouteEvent : Type 0
RouteEvent = List Text × List Text

-- What one round of `traceLoop` writes: the event, if there is one, and the record.
abbrev pub Written : Type 0
Written = List RouteEvent × TraceRecord

-- The body of the loop after `runTrace`, up to the wait; `now` is when the trace ended.
unfoldable pub trace_round : ℕ → TraceRecord → Tracing → Written × Tracing
unfolding route_changed path
trace_round now rec st =
    if is_empty rec.error
    then elim st.prev [
      | none ↦ (([], rec), record { prev = some rec; last_run = now })
      | some prev ↦
          if route_changed prev rec
          then (
            ((path rec.hops, path prev.hops) ∷ [], record rec { changed = true }),
            record { prev = some (record rec { changed = true }); last_run = now },
          )
          else (([], rec), record { prev = some rec; last_run = now })
    ]
    else (([], rec), record st { last_run = now })

-- What wakes the loop, and the reason of the next trace; `none` waits on.
pub data Wake : Type 0 where
  tick : Wake
  jumped : Wake

abbrev pub trace_min_gap : ℕ
trace_min_gap = 600 * 10 ^ 9

unfoldable pub wake : ℕ → Tracing → Wake → Option Reason
wake now st tick = some hourly
wake now st jumped = if leb trace_min_gap (now - st.last_run) then some jump else none

-- `jumps`.
pub record Jumps : Type 0 where
  pub prev : Assoc Target ℕ
  pub triggers : Assoc Target Bool

abbrev pub new_jumps : Jumps
new_jumps = record { prev = []; triggers = [] }

-- `jumpedRTT`.
abbrev pub jumped_rtt : ℕ → ℕ → Bool
jumped_rtt prev cur = ltb (13 * prev) (10 * cur) && leb (prev + 10000) cur

unfoldable pub watch : Target → Jumps → Jumps
unfolding target_discrete
watch t j = record j { triggers = insert target_discrete t false j.triggers }

unfoldable pub unwatch : Target → Jumps → Jumps
unfolding target_discrete
unwatch t j = record j {
  triggers = delete target_discrete t j.triggers;
  prev = delete target_discrete t j.prev;
}

-- The non-blocking send: a full channel stays full.
abbrev pub signal : Target → Option ℕ → ℕ → Jumps → Jumps
signal t none cur j = j
signal t (some prev) cur j =
    if jumped_rtt prev cur
    then record j { triggers = insert target_discrete t true j.triggers }
    else j

-- The loop's body for a watched target's long connection.
abbrev pub observe_rtt : Target → Option Stats → Jumps → Jumps
observe_rtt t none j = record j { prev = delete target_discrete t j.prev }
observe_rtt t (some s) j =
    let j' = signal t (lookup target_discrete t j.prev) s.p50 j in
    record j' { prev = insert target_discrete t s.p50 j'.prev }

abbrev pub is_long : Mode → Bool
is_long long = true
is_long short = false
is_long idle = false
is_long compare = false
is_long throughput = false

unfoldable pub observe_one : Aggregate → Jumps → Jumps
observe_one rec j = elim (lookup target_discrete rec.target j.triggers) [
  | none ↦ j
  | some full ↦ if is_long rec.mode then observe_rtt rec.target rec.rtt j else j
]

-- `jumps.observe`.
unfoldable pub observe : List Aggregate → Jumps → Jumps
unfolding observe_one
observe [] j = j
observe (rec ∷ recs) j = observe recs (observe_one rec j)
