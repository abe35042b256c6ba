-- ===== src/Netcheck/Trace/Routes.antt =====
-- When `traceLoop` reports a changed route (internal/netcheck/trace.go).
use pyck_debug_worker.Prelude.{
  ℕ, List, [], ◌∷◌, ◌++◌, Option, none, some, true, false, if◌then◌else◌, ◌≡◌, refl, sym, ap, ◌∙◌,
  arith, Bool-cases, inl, inr,
}
use pyck_debug_worker.Prelude.Text.{text_discrete}
use pyck_debug_worker.Netcheck.Trace.{
  TraceHop, TraceRecord, RouteEvent, Written, Tracing, differs, hops_differ, route_changed, path,
  trace_round,
}
use pyck_debug_worker.Target.{is_empty}

-- The traces of one `traceLoop`, each with the time when it ended, and all that they write.
unfoldable pub trace_all : List (ℕ × TraceRecord) → Tracing → List Written
unfolding trace_round
trace_all [] st = []
trace_all ((now, rec) ∷ recs) st =
    let (written, st') = trace_round now rec st in written ∷ trace_all recs st'

abbrev pub events_of : List Written → List RouteEvent
events_of [] = []
events_of ((evs, rec) ∷ ws) = evs ++ events_of ws

-- The traces without an error, and the pairs of neighbours among them whose routes differ.
abbrev pub succeeded : List (ℕ × TraceRecord) → List TraceRecord
succeeded [] = []
succeeded ((now, rec) ∷ recs) = if is_empty rec.error then rec ∷ succeeded recs else succeeded recs

abbrev pub changes_after : TraceRecord → List TraceRecord → List RouteEvent
changes_after prev [] = []
changes_after prev (rec ∷ recs) =
    if route_changed prev rec
    then (path rec.hops, path prev.hops) ∷ changes_after rec recs
    else changes_after rec recs

abbrev pub changes : Option TraceRecord → List TraceRecord → List RouteEvent
changes (some prev) recs = changes_after prev recs
changes none [] = []
changes none (rec ∷ recs) = changes_after rec recs

differs_comm : (a b : TraceHop) → differs a b ≡ differs b a
differs_comm a b = elim (text_discrete a.ip b.ip) [
  | yes p ↦ elim (text_discrete b.ip a.ip) [ yes q ↦ ground arith | no q ↦ absurd (q (sym p)) ]
  | no p ↦ elim (text_discrete b.ip a.ip) [ yes q ↦ absurd (p (sym q)) | no q ↦ ground arith ]
]

hops_differ_comm : (a b : List TraceHop) → hops_differ a b ≡ hops_differ b a
unfolding hops_differ
hops_differ_comm [] [] = refl
hops_differ_comm [] (b ∷ ys) = refl
hops_differ_comm (a ∷ xs) [] = refl
hops_differ_comm (a ∷ xs) (b ∷ ys) = rw (differs_comm a b, hops_differ_comm xs ys) refl

hops_differ_self : (xs : List TraceHop) → hops_differ xs xs ≡ false
unfolding hops_differ
hops_differ_self [] = refl
hops_differ_self (x ∷ xs) = elim (text_discrete x.ip x.ip) [
  | yes p ↦ ground (arith, hops_differ_self xs)
  | no p ↦ absurd (p refl)
]

-- Whether two traces differ does not depend on which was first, and no trace differs from itself.
pub route_changed_comm :
    (a b : TraceRecord) → (route_changed a b ≡ route_changed b a) × (route_changed a a ≡ false)
unfolding route_changed
route_changed_comm a b =
    (ground (arith, hops_differ_comm a.hops b.hops), ground (arith, hops_differ_self a.hops))

changes_after_flagged :
    (prev : TraceRecord) (recs : List TraceRecord)
    → changes_after (record prev { changed = true }) recs ≡ changes_after prev recs
unfolding route_changed
changes_after_flagged prev [] = refl
changes_after_flagged prev (rec ∷ recs) = refl

abbrev tracing : Option TraceRecord → ℕ → Tracing
tracing prev last_run = record { prev = prev; last_run = last_run }

trace_all-from :
    (recs : List (ℕ × TraceRecord)) (prev : Option TraceRecord) (last_run : ℕ)
    → events_of (trace_all recs (tracing prev last_run)) ≡ changes prev (succeeded recs)
unfolding trace_all trace_round
trace_all-from [] none last_run = refl
trace_all-from [] (some prev) last_run = refl
trace_all-from ((now, rec) ∷ recs) none last_run = elim (Bool-cases (is_empty rec.error)) [
  | inl e ↦ rw (e, trace_round) (trace_all-from recs (some rec) now)
  | inr e ↦ rw (e, trace_round) (trace_all-from recs none now)
]
trace_all-from ((now, rec) ∷ recs) (some prev) last_run = elim (Bool-cases (is_empty rec.error)) [
  | inl e ↦ elim (Bool-cases (route_changed prev rec)) [
    | inl c ↦
        rw (e, trace_round, c)
          (ap (λ evs. (path rec.hops, path prev.hops) ∷ evs)
            (trace_all-from recs (some (record rec { changed = true })) now
              ∙ changes_after_flagged rec (succeeded recs)))
    | inr c ↦ rw (e, trace_round, c) (trace_all-from recs (some rec) now)
  ]
  | inr e ↦ rw (e, trace_round) (trace_all-from recs (some prev) now)
]

-- A trace loop writes one route-changed event for each pair of neighbouring traces, among those that
-- ended without an error, whose routes differ, in their order and with the new and the previous path;
-- the first trace and a failed one never do.
pub trace_all-changes :
    (recs : List (ℕ × TraceRecord))
    → events_of (trace_all recs (record { prev = none; last_run = 0 }))
      ≡ changes none (succeeded recs)
trace_all-changes recs = trace_all-from recs none 0
