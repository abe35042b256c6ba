-- ===== src/Netcheck/Trace/Latency.antt =====
-- `jumps` seen from one target (internal/netcheck/trace.go).
use pyck_debug_worker.Prelude.{
  ℕ, List, [], ◌∷◌, Option, none, some, Bool, true, ite, if◌then◌else◌, ◌≡◌, refl, sym, ap, ◌∙◌,
  arith, ◌≢◌, subst, if_pos, if_neg, Bool-cases, Option-cases, inl, inr,
}
use pyck_debug_worker.Prelude.Assoc.{
  lookup, lookup-insert_self, lookup-insert_ne, lookup-delete_self, lookup-delete_ne,
}
use pyck_debug_worker.Netcheck.Types.{Target, target_discrete}
use pyck_debug_worker.Netcheck.Stats.{Stats}
use pyck_debug_worker.Netcheck.Agg.Flush.{Aggregate}
use pyck_debug_worker.Netcheck.Trace.{
  Jumps, jumped_rtt, observe, observe_one, observe_rtt, signal, is_long,
}

-- What `jumps` holds for one target: whether its channel is full, and the latency of the last minute.
abbrev pub Watched : Type 0
Watched = Option Bool × Option ℕ

abbrev pub watched : Target → Jumps → Watched
watched t j = (lookup target_discrete t j.triggers, lookup target_discrete t j.prev)

abbrev pub raise : Option ℕ → ℕ → Bool → Bool
raise none cur full = full
raise (some prev) cur full = if jumped_rtt prev cur then true else full

-- A minute without a latency forgets the last one; another is compared with it and remembered.
abbrev pub note_rtt : Option Stats → Watched → Watched
note_rtt none w = (w.0, none)
note_rtt (some s) (none, prev) = (none, prev)
note_rtt (some s) (some full, prev) = (some (raise prev s.p50 full), some s.p50)

abbrev pub note_minute : Aggregate → Watched → Watched
note_minute rec (none, prev) = (none, prev)
note_minute rec (some full, prev) =
    if is_long rec.mode then note_rtt rec.rtt (some full, prev) else (some full, prev)

-- The records of one target, by themselves.
abbrev pub note_minutes : Target → List Aggregate → Watched → Watched
note_minutes t [] w = w
note_minutes t (rec ∷ recs) w =
    note_minutes t recs (ite (target_discrete rec.target t) (note_minute rec w) w)

signal-own :
    (t : Target) (prev : Option ℕ) (full : Bool) (cur : ℕ) (j : Jumps)
    → lookup target_discrete t j.triggers ≡ some full
    → lookup target_discrete t (signal t prev cur j).triggers ≡ some (raise prev cur full)
signal-own t none full cur j e = e
signal-own t (some prev) full cur j e =
    ground (arith, e, lookup-insert_self target_discrete t true j.triggers)

signal-other :
    (t u : Target) (prev : Option ℕ) (cur : ℕ) (j : Jumps)
    → u ≢ t
    → watched t (signal u prev cur j) ≡ watched t j
signal-other t u none cur j h = refl
signal-other t u (some prev) cur j h =
    ground (arith, lookup-insert_ne target_discrete t u true j.triggers h)

observe_rtt-own :
    (t : Target) (rtt : Option Stats) (full : Bool) (j : Jumps)
    → lookup target_discrete t j.triggers ≡ some full
    → watched t (observe_rtt t rtt j) ≡ note_rtt rtt (some full, lookup target_discrete t j.prev)
observe_rtt-own t none full j e i = (e i, lookup-delete_self target_discrete t j.prev i)
observe_rtt-own t (some s) full j e i = (
  signal-own t (lookup target_discrete t j.prev) full s.p50 j e i,
  lookup-insert_self target_discrete t s.p50
      (signal t (lookup target_discrete t j.prev) s.p50 j).prev i,
)

observe_rtt-other :
    (t u : Target) (rtt : Option Stats) (j : Jumps)
    → u ≢ t
    → watched t (observe_rtt u rtt j) ≡ watched t j
observe_rtt-other t u none j h =
    λ i. (lookup target_discrete t j.triggers, lookup-delete_ne target_discrete t u j.prev h i)
observe_rtt-other t u (some s) j h =
    (λ i. (
      lookup target_discrete t (signal u (lookup target_discrete u j.prev) s.p50 j).triggers,
      lookup-insert_ne target_discrete t u s.p50
          (signal u (lookup target_discrete u j.prev) s.p50 j).prev h i,
    ))
    ∙ signal-other t u (lookup target_discrete u j.prev) s.p50 j h

observe_one-own :
    (rec : Aggregate) (j : Jumps)
    → watched rec.target (observe_one rec j) ≡ note_minute rec (watched rec.target j)
unfolding observe_one
observe_one-own rec j = elim (Option-cases (lookup target_discrete rec.target j.triggers)) [
  | inl e ↦ rw (observe_one, e) (λ i. (e i, lookup target_discrete rec.target j.prev))
  | inr (full, e) ↦ elim (Bool-cases (is_long rec.mode)) [
    | inl l ↦ rw (observe_one, e, l) (observe_rtt-own rec.target rec.rtt full j e)
    | inr l ↦ rw (observe_one, e, l) (λ i. (e i, lookup target_discrete rec.target j.prev))
  ]
]

observe_one-other :
    (t : Target) (rec : Aggregate) (j : Jumps)
    → rec.target ≢ t
    → watched t (observe_one rec j) ≡ watched t j
unfolding observe_one
observe_one-other t rec j h = elim (Option-cases (lookup target_discrete rec.target j.triggers)) [
  | inl e ↦ rw (observe_one, e) refl
  | inr (full, e) ↦ elim (Bool-cases (is_long rec.mode)) [
    | inl l ↦ rw (observe_one, e, l) (observe_rtt-other t rec.target rec.rtt j h)
    | inr l ↦ rw (observe_one, e, l) refl
  ]
]

observe_one-watched :
    (t : Target) (rec : Aggregate) (j : Jumps)
    → watched t (observe_one rec j)
      ≡ ite (target_discrete rec.target t) (note_minute rec (watched t j)) (watched t j)
observe_one-watched t rec j = elim (target_discrete rec.target t) [
  | yes p ↦
      subst (λ u. watched u (observe_one rec j) ≡ note_minute rec (watched u j)) p
        (observe_one-own rec j)
      ∙ sym (if_pos (target_discrete rec.target t) p (note_minute rec (watched t j)) (watched t j))
  | no p ↦
      observe_one-other t rec j p
      ∙ sym (if_neg (target_discrete rec.target t) p (note_minute rec (watched t j)) (watched t j))
]

-- Over any minutes' records, a target's channel and its remembered latency are those that its own
-- records give, in their order: the channel is filled by a long connection's latency that jumps over
-- the one of its last record, a record without a latency forgets it, and no record of another target
-- or another mode has any effect.
pub observe-watched :
    (t : Target) (recs : List Aggregate) (j : Jumps)
    → watched t (observe recs j) ≡ note_minutes t recs (watched t j)
unfolding observe
observe-watched t [] j = refl
observe-watched t (rec ∷ recs) j =
    observe-watched t recs (observe_one rec j)
    ∙ ap (note_minutes t recs) (observe_one-watched t rec j)
