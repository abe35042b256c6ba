-- ===== src/Netcheck/Agg/Samples.antt =====
-- Where the samples of one target and mode are (internal/netcheck/agg.go): in its bucket until a
-- `flush` moves them into a record.
use pyck_debug_worker.Prelude.{
  ℕ, ◌+◌, List, [], ◌∷◌, map, Option, none, some, true, false, ◌≡◌, ◌≢◌, refl, sym, ap, ◌∙◌, subst,
  arith, ite, if_pos, if_neg, contains, Bool-cases, inl, inr, sum_of, sum_of-append,
}
use pyck_debug_worker.Prelude.Assoc.{lookup}
use pyck_debug_worker.Netcheck.Types.{Mode, idle, mode_discrete, Target, target_discrete}
use pyck_debug_worker.Netcheck.Agg.{Agg, key_discrete}
use pyck_debug_worker.Netcheck.Agg.Buckets.{Bucket, empty_bucket}
use pyck_debug_worker.Netcheck.Agg.Flush.{Aggregate, aggregate, with_idle, modes_of, is_removed}
use pyck_debug_worker.Prelude.Distinct.{Distinct}
use pyck_debug_worker.Netcheck.Agg.Invariant.{IsValid}
use pyck_debug_worker.Netcheck.Agg.Emission.{
  or_empty, bucket_of, record_of, emitted, ne_of_not-mem, tail_of_not-mem,
}
use pyck_debug_worker.Netcheck.Agg.Turns.{ne_of_not-target}
use pyck_debug_worker.Netcheck.Agg.Flushed.{after_all-Agrees, next}
use pyck_debug_worker.Netcheck.Agg.Next.{next-Forgotten, next-Renewed}

abbrev pub samples_in : Option Bucket → ℕ
samples_in none = 0
samples_in (some b) = b.samples

-- The samples of the minute so far.
abbrev pub pending : Target → Mode → Agg → ℕ
pending t mode a = samples_in (lookup key_discrete (t, mode) a.buckets)

-- The samples of a record, if it is about the target and mode.
abbrev pub share : Target → Mode → Aggregate → ℕ
share t mode r = ite (target_discrete r.target t) (ite (mode_discrete r.mode mode) r.samples 0) 0

abbrev pub emitted_samples : Target → Mode → List Aggregate → ℕ
emitted_samples t mode = sum_of (share t mode)

empty_samples : (o : Option Bucket) → (or_empty o).samples ≡ samples_in o
unfolding empty_bucket
empty_samples none = refl
empty_samples (some b) = refl

with_idle_fields :
    (mode : Mode) (survived : ℕ) (b : Bucket) (r : Aggregate)
    → let q = with_idle mode survived b r in
      (q.target ≡ r.target) × (q.mode ≡ r.mode) × (q.samples ≡ r.samples)
unfolding with_idle
with_idle_fields idle survived b r = (refl, refl, refl)
with_idle_fields _ survived b r = (refl, refl, refl)

share_of_fields :
    (t : Target) (mode : Mode) (r : Aggregate) (s : Target) (x : Mode) (n : ℕ)
    → r.target ≡ s
    → r.mode ≡ x
    → r.samples ≡ n
    → share t mode r ≡ ite (target_discrete s t) (ite (mode_discrete x mode) n 0) 0
share_of_fields t mode r s x n p q e = rw (p, q, e)

share-record_of :
    (minute : ℕ) (a : Agg) (s : Target) (x : Mode) (t : Target) (mode : Mode)
    → share t mode (record_of minute a s x)
      ≡ ite (target_discrete s t) (ite (mode_discrete x mode) (pending s x a) 0) 0
unfolding aggregate
share-record_of minute a s x t mode =
    let (p, q, e) =
      with_idle_fields x _ (bucket_of s x a) (aggregate minute s x (bucket_of s x a)) in
    share_of_fields t mode (record_of minute a s x) s x (pending s x a) p q
      (e ∙ empty_samples (lookup key_discrete (s, x) a.buckets))

module _ (minute : ℕ) (t : Target) (mode : Mode) (a : Agg) where
  row_other :
      (s : Target) (modes : List Mode)
      → s ≢ t
      → emitted_samples t mode (map (record_of minute a s) modes) ≡ 0
  row_other s [] h = refl
  row_other s (x ∷ modes) h = omega (
    arith,
    share-record_of minute a s x t mode
        ∙ if_neg (target_discrete s t) h (ite (mode_discrete x mode) (pending s x a) 0) 0,
    row_other s modes h,
  )

  share_self :
      (x : Mode)
      → share t mode (record_of minute a t x) ≡ ite (mode_discrete x mode) (pending t x a) 0
  share_self x =
      share-record_of minute a t x t mode
      ∙ if_pos (target_discrete t t) refl (ite (mode_discrete x mode) (pending t x a) 0) 0

  row_absent :
      (modes : List Mode)
      → contains mode_discrete modes mode ≡ false
      → emitted_samples t mode (map (record_of minute a t) modes) ≡ 0
  row_absent [] h = refl
  row_absent (x ∷ modes) h = elim (mode_discrete x mode) [
    | yes p ↦ absurd (ne_of_not-mem mode x modes h p)
    | no p ↦ omega (
      arith,
      share_self x ∙ if_neg (mode_discrete x mode) p (pending t x a) 0,
      row_absent modes (tail_of_not-mem mode x modes h),
    )
  ]

  row_self :
      (modes : List Mode)
      → Distinct mode_discrete modes
      → contains mode_discrete modes mode ≡ true
      → emitted_samples t mode (map (record_of minute a t) modes) ≡ pending t mode a
  row_self [] d h = cc
  row_self (x ∷ modes) d h = elim (mode_discrete x mode) [
    | yes p ↦ omega (
      arith,
      share_self x ∙ if_pos (mode_discrete x mode) p (pending t x a) 0,
      ap (λ y. pending t y a) p,
      row_absent modes (subst (λ y. contains mode_discrete modes y ≡ false) p d.0),
    )
    | no p ↦ omega (
      arith,
      share_self x ∙ if_neg (mode_discrete x mode) p (pending t x a) 0,
      row_self modes d.1 (sym (if_neg (mode_discrete x mode) p true _) ∙ h),
    )
  ]

  emitted_absent :
      (ts : List Target)
      → contains target_discrete ts t ≡ false
      → emitted_samples t mode (emitted minute a ts) ≡ 0
  emitted_absent [] h = refl
  emitted_absent (s ∷ ts) h = omega (
    arith,
    sum_of-append (share t mode) (map (record_of minute a s) (modes_of s a)) (emitted minute a ts),
    row_other s (modes_of s a) (ne_of_not-target t s ts h),
    emitted_absent ts (ground arith),
  )

  emitted_row :
      (ts : List Target)
      → Distinct target_discrete ts
      → contains target_discrete ts t ≡ true
      → emitted_samples t mode (emitted minute a ts)
        ≡ emitted_samples t mode (map (record_of minute a t) (modes_of t a))
  emitted_row [] d h = cc
  emitted_row (s ∷ ts) d h = elim (target_discrete s t) [
    | yes p ↦ omega (
      arith,
      sum_of-append (share t mode) (map (record_of minute a s) (modes_of s a))
          (emitted minute a ts),
      ap (λ u. emitted_samples t mode (map (record_of minute a u) (modes_of u a))) p,
      emitted_absent ts (subst (λ u. contains target_discrete ts u ≡ false) p d.0),
    )
    | no p ↦ omega (
      arith,
      sum_of-append (share t mode) (map (record_of minute a s) (modes_of s a))
          (emitted minute a ts),
      row_other s (modes_of s a) p,
      emitted_row ts d.1 (sym (if_neg (target_discrete s t) p true _) ∙ h),
    )
  ]

  next-pending_in :
      IsValid a
      → contains target_discrete a.targets t ≡ true
      → contains mode_discrete (modes_of t a) mode ≡ true
      → pending t mode (next a) ≡ 0
  unfolding empty_bucket
  next-pending_in v h i = elim (Bool-cases (is_removed t a)) [
    | inl gone ↦ ap samples_in ((next-Forgotten a t v h gone).no_bucket mode i)
    | inr stays ↦ ap samples_in ((next-Renewed a t v h stays).emptied mode i)
  ]

  next-pending_out :
      IsValid a
      → contains target_discrete a.targets t ≡ true
      → contains mode_discrete (modes_of t a) mode ≡ false
      → pending t mode (next a) ≡ pending t mode a
  next-pending_out v h i = elim (Bool-cases (is_removed t a)) [
    | inl gone ↦ ap samples_in ((next-Forgotten a t v h gone).other_bucket mode i)
    | inr stays ↦ ap samples_in ((next-Renewed a t v h stays).other_bucket mode i)
  ]

  -- What a flush emits of a target and mode, and what it leaves pending, is what was pending.
  pub next-samples :
      IsValid a
      → emitted_samples t mode (emitted minute a a.targets) + pending t mode (next a)
        ≡ pending t mode a
  next-samples v = elim (Bool-cases (contains target_discrete a.targets t)) [
    | inr out ↦ omega (
      arith,
      emitted_absent a.targets out,
      ap samples_in ((after_all-Agrees t a.targets a out).bucket_eq mode),
    )
    | inl here ↦ elim (Bool-cases (contains mode_discrete (modes_of t a) mode)) [
      | inl i ↦ omega (
        arith,
        emitted_row a.targets v.distinct here,
        row_self (modes_of t a) (v.modes_distinct t) i,
        next-pending_in v here i,
      )
      | inr i ↦ omega (
        arith,
        emitted_row a.targets v.distinct here,
        row_absent (modes_of t a) i,
        next-pending_out v here i,
      )
    ]
  ]
