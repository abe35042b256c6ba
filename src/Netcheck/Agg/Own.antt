-- ===== src/Netcheck/Agg/Own.antt =====
-- The records about one target among those of a whole `flush` (internal/netcheck/agg.go).
use pyck_debug_worker.Prelude.{
  ℕ, List, [], ◌∷◌, ◌++◌, map, keep_if, Bool, true, false, ◌≡◌, ◌≢◌, refl, sym, ap, ◌∙◌, arith, ite,
  if_pos, if_neg, contains, if◌then◌else◌, Bool-cases, inl, inr,
}
use mathlib.Core.List.{append-nil}
use pyck_debug_worker.Netcheck.Types.{Mode, idle, Target, target_discrete}
use pyck_debug_worker.Netcheck.Agg.{Agg}
use pyck_debug_worker.Netcheck.Agg.Buckets.{Bucket}
use pyck_debug_worker.Netcheck.Agg.Flush.{Aggregate, aggregate, with_idle, modes_of}
use pyck_debug_worker.Prelude.Distinct.{Distinct}
use pyck_debug_worker.Netcheck.Agg.Emission.{bucket_of, record_of, emitted}

abbrev pub is_about : Target → Aggregate → Bool
is_about s r = ite (target_discrete r.target s) true false

keep_if-append :
    {A : Type 0} (p : A → Bool) (xs ys : List A)
    → keep_if p (xs ++ ys) ≡ keep_if p xs ++ keep_if p ys
keep_if-append p [] ys = refl
keep_if-append p (x ∷ xs) ys = elim (Bool-cases (p x)) [
  | inl h ↦ rw (h, keep_if-append p xs ys) refl
  | inr h ↦ rw (h, keep_if-append p xs ys) refl
]

with_idle-target :
    (mode : Mode) (survived : ℕ) (b : Bucket) (r : Aggregate)
    → (with_idle mode survived b r).target ≡ r.target
unfolding with_idle
with_idle-target idle survived b r = refl
with_idle-target _ survived b r = refl

is_about-record_of :
    (minute : ℕ) (a : Agg) (t : Target) (x : Mode) (s : Target)
    → is_about s (record_of minute a t x) ≡ ite (target_discrete t s) true false
unfolding aggregate
is_about-record_of minute a t x s =
    ap (λ u. ite (target_discrete u s) true false)
      (with_idle-target x _ (bucket_of t x a) (aggregate minute t x (bucket_of t x a)))

keep_own :
    (minute : ℕ) (a : Agg) (s : Target) (modes : List Mode)
    → keep_if (is_about s) (map (record_of minute a s) modes) ≡ map (record_of minute a s) modes
keep_own minute a s [] = refl
keep_own minute a s (x ∷ modes) =
    ap
      (λ b.
        if b
        then record_of minute a s x ∷ keep_if (is_about s) (map (record_of minute a s) modes)
        else keep_if (is_about s) (map (record_of minute a s) modes))
      (is_about-record_of minute a s x s ∙ if_pos (target_discrete s s) refl _ _)
    ∙ ap (λ rs. record_of minute a s x ∷ rs) (keep_own minute a s modes)

keep_other :
    (minute : ℕ) (a : Agg) (t s : Target) (modes : List Mode)
    → t ≢ s
    → keep_if (is_about s) (map (record_of minute a t) modes) ≡ []
keep_other minute a t s [] h = refl
keep_other minute a t s (x ∷ modes) h =
    ap
      (λ b.
        if b
        then record_of minute a t x ∷ keep_if (is_about s) (map (record_of minute a t) modes)
        else keep_if (is_about s) (map (record_of minute a t) modes))
      (is_about-record_of minute a t x s ∙ if_neg (target_discrete t s) h _ _)
    ∙ keep_other minute a t s modes h

emitted_none :
    (minute : ℕ) (a : Agg) (ts : List Target) (s : Target)
    → contains target_discrete ts s ≡ false
    → keep_if (is_about s) (emitted minute a ts) ≡ []
emitted_none minute a [] s h = refl
emitted_none minute a (t ∷ ts) s h =
    keep_if-append (is_about s) (map (record_of minute a t) (modes_of t a)) (emitted minute a ts)
    ∙ ap (λ rs. rs ++ keep_if (is_about s) (emitted minute a ts))
        (keep_other minute a t s (modes_of t a)
          (λ e. cc (if_pos (target_discrete t s) e true (contains target_discrete ts s))))
    ∙ emitted_none minute a ts s (ground arith)

-- The records of one flush about a registered target are those of its own turn.
pub emitted_of :
    (minute : ℕ) (a : Agg) (ts : List Target) (s : Target)
    → Distinct target_discrete ts
    → contains target_discrete ts s ≡ true
    → keep_if (is_about s) (emitted minute a ts) ≡ map (record_of minute a s) (modes_of s a)
emitted_of minute a [] s d h = cc
emitted_of minute a (t ∷ ts) s d h = elim (target_discrete t s) [
  | yes p ↦
      let d' : contains target_discrete ts s ≡ false =
        sym (ap (contains target_discrete ts) p) ∙ d.0 in
      keep_if-append (is_about s) (map (record_of minute a t) (modes_of t a)) (emitted minute a ts)
      ∙ ap (λ rs. keep_if (is_about s) (map (record_of minute a t) (modes_of t a)) ++ rs)
          (emitted_none minute a ts s d')
      ∙ append-nil _
      ∙ ap (λ u. keep_if (is_about s) (map (record_of minute a u) (modes_of u a))) p
      ∙ keep_own minute a s (modes_of s a)
  | no p ↦
      keep_if-append (is_about s) (map (record_of minute a t) (modes_of t a)) (emitted minute a ts)
      ∙ ap (λ rs. rs ++ keep_if (is_about s) (emitted minute a ts))
          (keep_other minute a t s (modes_of t a) p)
      ∙ emitted_of minute a ts s d.1 (sym (if_neg (target_discrete t s) p _ _) ∙ h)
]
