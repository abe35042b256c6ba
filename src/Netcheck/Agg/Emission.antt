-- ===== src/Netcheck/Agg/Emission.antt =====
-- What one `flush` emits and leaves, described from the state before it: the specification of
-- `agg.flush`, and the proof that the loops of the code compute it without a panic.
use pyck_debug_worker.Prelude.{
  ℕ, List, [], ◌∷◌, ◌++◌, map, Option, none, some, true, false, not, ◌≡◌, ◌≢◌, refl, sym, ap, ◌∙◌,
  arith, if_pos, if_neg, contains, if◌then◌else◌, Option-cases, inl, inr, keep_if,
}
use pyck_debug_worker.Prelude.Assoc.{Assoc, lookup, insert, lookup-insert}
use pyck_debug_worker.Netcheck.Types.{Mode, mode_discrete, Target}
use pyck_debug_worker.Netcheck.Agg.{Agg, Key, key_discrete}
use pyck_debug_worker.Netcheck.Agg.Buckets.{Bucket, empty_bucket}
use pyck_debug_worker.Netcheck.Agg.Flush.{
  Aggregate, aggregate, with_idle, survived_of, modes_of, is_removed, flush_modes, forget,
}
use pyck_debug_worker.Prelude.Distinct.{Distinct}
use pyck_debug_worker.Netcheck.Agg.Invariant.{has-insert, Backed, Backed-mono}

abbrev pub or_empty : Option Bucket → Bucket
or_empty none = empty_bucket
or_empty (some b) = b

abbrev pub bucket_of : Target → Mode → Agg → Bucket
bucket_of t mode a = or_empty (lookup key_discrete (t, mode) a.buckets)

-- The record of one target and mode.
abbrev pub record_of : ℕ → Agg → Target → Mode → Aggregate
record_of minute a t mode =
    with_idle mode (survived_of t a) (bucket_of t mode a)
      (aggregate minute t mode (bucket_of t mode a))

abbrev pub emitted : ℕ → Agg → List Target → List Aggregate
emitted minute a [] = []
emitted minute a (t ∷ ts) = map (record_of minute a t) (modes_of t a) ++ emitted minute a ts

unfoldable pub reset_buckets : Target → List Mode → Assoc Key Bucket → Assoc Key Bucket
reset_buckets t [] m = m
reset_buckets t (mode ∷ modes) m =
    reset_buckets t modes (insert key_discrete (t, mode) empty_bucket m)

abbrev pub reset_target : Target → Agg → Agg
reset_target t a = record a { buckets = reset_buckets t (modes_of t a) a.buckets }

abbrev pub after_one : Target → Agg → Agg
after_one t a =
    if is_removed t a then forget t (modes_of t a) (reset_target t a) else reset_target t a

abbrev pub after_all : List Target → Agg → Agg
after_all [] a = a
after_all (t ∷ ts) a = after_all ts (after_one t a)

-- The targets that stay registered.
abbrev pub kept : Agg → List Target → List Target
kept a = keep_if (λ t. not (is_removed t a))

pub fst_ne : (s t : Target) (m n : Mode) → s ≢ t → ◌≢◌ {A = Key} (s, m) (t, n)
fst_ne s t m n h e = h (ap (λ k. k.0) e)

pub snd_ne : (t : Target) (m n : Mode) → m ≢ n → ◌≢◌ {A = Key} (t, m) (t, n)
snd_ne t m n h e = h (ap (λ k. k.1) e)

pub lookup-insert_ne :
    (j k : Key) (b : Bucket) (m : Assoc Key Bucket)
    → k ≢ j
    → lookup key_discrete j (insert key_discrete k b m) ≡ lookup key_discrete j m
lookup-insert_ne j k b m h = lookup-insert key_discrete j k b m ∙ if_neg (key_discrete k j) h _ _

pub ne_of_not-mem :
    (x y : Mode) (ms : List Mode) → contains mode_discrete (y ∷ ms) x ≡ false → y ≢ x
ne_of_not-mem x y ms h e = cc (if_pos (mode_discrete y x) e true (contains mode_discrete ms x))

pub tail_of_not-mem :
    (x y : Mode) (ms : List Mode)
    → contains mode_discrete (y ∷ ms) x ≡ false
    → contains mode_discrete ms x ≡ false
tail_of_not-mem x y ms h = ground arith

-- The records of the other modes do not see that a mode's bucket was emptied.
map-record_of-insert :
    (minute : ℕ) (t : Target) (x : Mode) (a : Agg) (modes : List Mode)
    → contains mode_discrete modes x ≡ false
    → map
        (record_of minute
          (record a { buckets = insert key_discrete (t, x) empty_bucket a.buckets })
          t)
        modes
      ≡ map (record_of minute a t) modes
map-record_of-insert minute t x a [] h = refl
map-record_of-insert minute t x a (y ∷ modes) h = rw (
  lookup-insert_ne (t, y) (t, x) empty_bucket a.buckets
      (snd_ne t x y (λ e. ne_of_not-mem x y modes h (sym e))),
  map-record_of-insert minute t x a modes (tail_of_not-mem x y modes h),
)

pub flush_modes-eq :
    (minute : ℕ) (t : Target) (modes : List Mode) (a : Agg)
    → Distinct mode_discrete modes
    → Backed t modes a.buckets
    → flush_modes minute t modes a
      ≡ some
          (map (record_of minute a t) modes, record a { buckets = reset_buckets t modes a.buckets })
unfolding flush_modes reset_buckets
flush_modes-eq minute t [] a d b = refl
flush_modes-eq minute t (mode ∷ modes) a d b =
    elim (Option-cases (lookup key_discrete (t, mode) a.buckets)) [
      | inl e ↦ absurd (no_bucket e)
      | inr (bucket, e) ↦ rw (
        e,
        flush_modes-eq minute t modes emptied d.1 kept,
        map-record_of-insert minute t mode a modes d.0,
      )
    ]
  where
    emptied : Agg
    emptied = record a { buckets = insert key_discrete (t, mode) empty_bucket a.buckets }

    no_bucket : lookup key_discrete (t, mode) a.buckets ≡ none → ⊥
    no_bucket e = ground arith

    kept : Backed t modes (insert key_discrete (t, mode) empty_bucket a.buckets)
    kept =
        Backed-mono t modes a.buckets _
          (λ j h. rw (has-insert j (t, mode) empty_bucket a.buckets) (ground arith)) b.1
