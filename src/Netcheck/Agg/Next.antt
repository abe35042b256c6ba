-- ===== src/Netcheck/Agg/Next.antt =====
-- The state that the minute after a `flush` starts from (internal/netcheck/agg.go): targets that
-- were unregistered are gone, the others start afresh, and the state is valid again.
use pyck_debug_worker.Prelude.{
  ℕ, List, [], ◌∷◌, map, keep_if, none, some, Bool, true, false, not, ◌&&◌, ◌≡◌, refl, sym, ap, ◌∙◌,
  subst, arith, if_neg, contains, Bool-cases, inl, inr,
}
use pyck_debug_worker.Prelude.Assoc.{lookup}
use pyck_debug_worker.Netcheck.Types.{mode_discrete, Target, target_discrete}
use pyck_debug_worker.Netcheck.Agg.{Agg}
use pyck_debug_worker.Netcheck.Agg.Flush.{Aggregate, modes_of, is_removed, or_nil, or_false, flush}
use pyck_debug_worker.Prelude.Distinct.{Distinct}
use pyck_debug_worker.Netcheck.Agg.Invariant.{IsValid}
use pyck_debug_worker.Netcheck.Agg.Own.{is_about, emitted_of}
use pyck_debug_worker.Netcheck.Agg.Emission.{record_of, emitted, kept, after_one, after_all}
use pyck_debug_worker.Netcheck.Agg.Turns.{Agrees, ReadyAt, after_one-Agrees, after_one-ReadyAt}
use pyck_debug_worker.Netcheck.Agg.Flushed.{
  Forgotten, Renewed, one-Forgotten, one-Renewed, after_all-Agrees, next, flush-emitted,
}

Forgotten-after : (s : Target) (a b c : Agg) → Forgotten s a b → Agrees s b c → Forgotten s a c
Forgotten-after s a b c f g = record {
  no_modes = g.modes_eq ∙ f.no_modes;
  no_mark = g.removed_eq ∙ f.no_mark;
  no_gap = g.survived_eq ∙ f.no_gap;
  no_fp = g.fp_eq ∙ f.no_fp;
  no_bucket = λ x i. g.bucket_eq x ∙ f.no_bucket x i;
  other_bucket = λ x i. g.bucket_eq x ∙ f.other_bucket x i;
}

Forgotten-before : (s : Target) (a b c : Agg) → Agrees s a b → Forgotten s b c → Forgotten s a c
Forgotten-before s a b c g f = record {
  no_modes = f.no_modes;
  no_mark = f.no_mark;
  no_gap = f.no_gap;
  no_fp = f.no_fp;
  no_bucket = λ x i. f.no_bucket x (ap (λ ms. contains mode_discrete (or_nil ms) x) g.modes_eq ∙ i);
  other_bucket = λ x i.
      f.other_bucket x (ap (λ ms. contains mode_discrete (or_nil ms) x) g.modes_eq ∙ i)
      ∙ g.bucket_eq x;
}

Renewed-after : (s : Target) (a b c : Agg) → Renewed s a b → Agrees s b c → Renewed s a c
Renewed-after s a b c f g = record {
  same_modes = g.modes_eq ∙ f.same_modes;
  same_gap = g.survived_eq ∙ f.same_gap;
  same_fp = g.fp_eq ∙ f.same_fp;
  emptied = λ x i. g.bucket_eq x ∙ f.emptied x i;
  other_bucket = λ x i. g.bucket_eq x ∙ f.other_bucket x i;
}

Renewed-before : (s : Target) (a b c : Agg) → Agrees s a b → Renewed s b c → Renewed s a c
Renewed-before s a b c g f = record {
  same_modes = f.same_modes ∙ g.modes_eq;
  same_gap = f.same_gap ∙ g.survived_eq;
  same_fp = f.same_fp ∙ g.fp_eq;
  emptied = λ x i. f.emptied x (ap (λ ms. contains mode_discrete (or_nil ms) x) g.modes_eq ∙ i);
  other_bucket = λ x i.
      f.other_bucket x (ap (λ ms. contains mode_discrete (or_nil ms) x) g.modes_eq ∙ i)
      ∙ g.bucket_eq x;
}

-- What a target's own turn does to it is what the whole loop does to it.
module _ (s : Target) (mark : Bool) (R : Agg → Agg → Type 0)
    (one : (a : Agg) → is_removed s a ≡ mark → R a (after_one s a))
    (before : (a b c : Agg) → Agrees s a b → R b c → R a c)
    (after : (a b c : Agg) → R a b → Agrees s b c → R a c) where
  after_all_own :
      (ts : List Target) (a : Agg)
      → Distinct target_discrete ts
      → contains target_discrete ts s ≡ true
      → is_removed s a ≡ mark
      → R a (after_all ts a)
  after_all_own [] a d h m = cc
  after_all_own (t ∷ ts) a d h m = elim (target_discrete t s) [
    | yes p ↦
        let own : R a (after_one t a) = subst (λ u. R a (after_one u a)) (sym p) (one a m) in
        after a (after_one t a) (after_all ts (after_one t a)) own (
          after_all-Agrees s ts (after_one t a)
            (subst (λ u. contains target_discrete ts u ≡ false) p d.0))
    | no p ↦
        let g = after_one-Agrees s t a (λ e. p (sym e)) in
        before a (after_one t a) (after_all ts (after_one t a)) g (
          after_all_own ts (after_one t a) d.1 (sym (if_neg (target_discrete t s) p _ _) ∙ h)
            (ap or_false g.removed_eq ∙ m))
  ]

contains-kept :
    (a : Agg) (ts : List Target) (s : Target)
    → contains target_discrete (kept a ts) s
      ≡ (contains target_discrete ts s && not (is_removed s a))
contains-kept a [] s = refl
contains-kept a (t ∷ ts) s = elim (target_discrete t s) [
  | yes p ↦ ground (arith, contains-kept a ts s, ap (λ u. is_removed u a) p)
  | no p ↦ ground (arith, contains-kept a ts s)
]

kept-Distinct :
    (a : Agg) (ts : List Target)
    → Distinct target_discrete ts
    → Distinct target_discrete (kept a ts)
kept-Distinct a [] d = tt
kept-Distinct a (t ∷ ts) d = ground (arith, kept-Distinct a ts d.1, contains-kept a ts t)

after_all-ReadyAt :
    (s : Target) (ts : List Target) (a : Agg) → ReadyAt s a → ReadyAt s (after_all ts a)
after_all-ReadyAt s [] a r = r
after_all-ReadyAt s (t ∷ ts) a r =
    after_all-ReadyAt s ts (after_one t a) (after_one-ReadyAt s t a r)

pub next-Forgotten :
    (a : Agg) (s : Target)
    → IsValid a
    → contains target_discrete a.targets s ≡ true
    → is_removed s a ≡ true
    → Forgotten s a (next a)
next-Forgotten a s v h m =
    let f =
      after_all_own s true (Forgotten s) (one-Forgotten s) (Forgotten-before s) (Forgotten-after s)
        a.targets a v.distinct h m in
    record {
      no_modes = f.no_modes;
      no_mark = f.no_mark;
      no_gap = f.no_gap;
      no_fp = f.no_fp;
      no_bucket = f.no_bucket;
      other_bucket = f.other_bucket;
    }

pub next-Renewed :
    (a : Agg) (s : Target)
    → IsValid a
    → contains target_discrete a.targets s ≡ true
    → is_removed s a ≡ false
    → Renewed s a (next a)
next-Renewed a s v h m =
    let f =
      after_all_own s false (Renewed s) (one-Renewed s) (Renewed-before s) (Renewed-after s)
        a.targets a v.distinct h m in
    record {
      same_modes = f.same_modes;
      same_gap = f.same_gap;
      same_fp = f.same_fp;
      emptied = f.emptied;
      other_bucket = f.other_bucket;
    }

next-known :
    (a : Agg) (s : Target)
    → IsValid a
    → contains target_discrete (next a).targets s ≡ false
    → lookup target_discrete s (next a).modes ≡ none
next-known a s v h = elim (Bool-cases (contains target_discrete a.targets s)) [
  | inl known ↦ (next-Forgotten a s v known (ground (arith, contains-kept a a.targets s))).no_modes
  | inr unknown ↦ (after_all-Agrees s a.targets a unknown).modes_eq ∙ v.known s unknown
]

pub next-IsValid : (a : Agg) → IsValid a → IsValid (next a)
next-IsValid a v = record {
  distinct = kept-Distinct a a.targets v.distinct;
  modes_distinct = λ s. (ready s).0;
  backed = λ s. (ready s).1;
  known = λ s. next-known a s v;
}
  where
    ready : (s : Target) → ReadyAt s (next a)
    ready s = after_all-ReadyAt s a.targets a (v.modes_distinct s, v.backed s)

flushed_next :
    (minute : ℕ) (a : Agg) {recs : List Aggregate} {a' : Agg}
    → IsValid a
    → flush minute a ≡ some (recs, a')
    → next a ≡ a'
flushed_next minute a v e = cc (flush-emitted minute a v)

flushed_emitted :
    (minute : ℕ) (a : Agg) {recs : List Aggregate} {a' : Agg}
    → IsValid a
    → flush minute a ≡ some (recs, a')
    → emitted minute a a.targets ≡ recs
flushed_emitted minute a v e = cc (flush-emitted minute a v)

-- `flush` keeps the state valid.
pub flush-IsValid :
    (minute : ℕ) (a : Agg) {recs : List Aggregate} {a' : Agg}
    → IsValid a
    → flush minute a ≡ some (recs, a')
    → IsValid a'
flush-IsValid minute a v e = subst IsValid (flushed_next minute a v e) (next-IsValid a v)

-- A target that was unregistered during the minute is emitted one last time, with one record for each
-- of its modes, made from the bucket as it was, and no other record about it; then it is forgotten: it
-- is registered no longer, and no modes, buckets of its modes, mark, fingerprint or idle gap of it
-- are left.
pub flush-Forgotten :
    (minute : ℕ) (a : Agg) (s : Target) {recs : List Aggregate} {a' : Agg}
    → IsValid a
    → contains target_discrete a.targets s ≡ true
    → is_removed s a ≡ true
    → flush minute a ≡ some (recs, a')
    → (keep_if (is_about s) recs ≡ map (record_of minute a s) (modes_of s a))
      × Forgotten s a a'
      × (contains target_discrete a'.targets s ≡ false)
flush-Forgotten minute a s v h m e = (
  ap (keep_if (is_about s)) (sym (flushed_emitted minute a v e))
      ∙ emitted_of minute a a.targets s v.distinct h,
  subst (Forgotten s a) (flushed_next minute a v e) (next-Forgotten a s v h m),
  subst (λ b. contains target_discrete b.targets s ≡ false) (flushed_next minute a v e)
      (ground (arith, contains-kept a a.targets s)),
)

-- A registered target that was not unregistered stays registered with the same modes, each with an
-- empty bucket, and keeps its fingerprint and idle gap.
pub flush-Renewed :
    (minute : ℕ) (a : Agg) (s : Target) {recs : List Aggregate} {a' : Agg}
    → IsValid a
    → contains target_discrete a.targets s ≡ true
    → is_removed s a ≡ false
    → flush minute a ≡ some (recs, a')
    → Renewed s a a' × (contains target_discrete a'.targets s ≡ true)
flush-Renewed minute a s v h m e =
    subst (λ b. Renewed s a b × (contains target_discrete b.targets s ≡ true))
      (flushed_next minute a v e)
      (next-Renewed a s v h m, ground (arith, contains-kept a a.targets s))
