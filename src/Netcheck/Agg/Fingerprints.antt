-- ===== src/Netcheck/Agg/Fingerprints.antt =====
-- Which interceptions become events (`agg.intercepted` of internal/netcheck/agg.go): the first of a
-- target, and each whose fingerprint differs from the one before.
use pyck_debug_worker.Prelude.{
  List, [], ◌∷◌, Option, none, some, Bool, true, false, ◌≡◌, refl, ap, ◌∙◌, arith, ite,
  Option-cases, inl, inr,
}
use pyck_debug_worker.Prelude.Text.{Text, text_discrete}
use pyck_debug_worker.Prelude.Assoc.{lookup, lookup-insert}
use pyck_debug_worker.Netcheck.Types.{Mode, Target, target_discrete}
use pyck_debug_worker.Netcheck.Agg.{
  Agg, key_discrete, with_bucket, note_interception, remember_fp, intercepted,
}
use pyck_debug_worker.Netcheck.Agg.Buckets.{Interception}

-- A series of interceptions of any targets in any modes, in the order in which they are counted: what
-- each of them reports, and the state after them.
unfoldable pub intercepted_all : List (Target × Mode × Interception) → Agg → Agg × List Bool
intercepted_all [] a = (a, [])
intercepted_all ((t, mode, info) ∷ calls) a =
    let (a', is_new) = intercepted t mode info a in
    let (a'', others) = intercepted_all calls a' in (a'', is_new ∷ others)

-- The fingerprints of the targets' certificates in such a series.
abbrev pub presented : List (Target × Mode × Interception) → List (Target × Text)
presented [] = []
presented ((t, mode, info) ∷ calls) = (t, info.fingerprint) ∷ presented calls

-- What a reader of the history would say: news is what the target did not present last. `seen` is
-- what each target presented last.
abbrev pub is_news : Option Text → Text → Bool
is_news none fp = true
is_news (some last) fp = ite (text_discrete last fp) false true

unfoldable pub news : List (Target × Text) → (Target → Option Text) → List Bool
news [] seen = []
news ((t, fp) ∷ calls) seen =
    is_news (seen t) fp ∷ news calls (λ s. ite (target_discrete t s) (some fp) (seen s))

remember_fp-news :
    (t : Target) (fp : Text) (a : Agg)
    → (remember_fp t fp a).1 ≡ is_news (lookup target_discrete t a.last_fp) fp
unfolding remember_fp
remember_fp-news t fp a = ground arith

remember_fp-seen :
    (t : Target) (fp : Text) (a : Agg) (s : Target)
    → lookup target_discrete s (remember_fp t fp a).0.last_fp
      ≡ ite (target_discrete t s) (some fp) (lookup target_discrete s a.last_fp)
unfolding remember_fp
remember_fp-seen t fp a s = ground (arith, lookup-insert target_discrete s t fp a.last_fp)

-- Counting an interception leaves the fingerprints as they are.
note_interception-last_fp :
    (t : Target) (mode : Mode) (info : Interception) (a : Agg)
    → (note_interception t mode info a).last_fp ≡ a.last_fp
unfolding note_interception with_bucket
note_interception-last_fp t mode info a =
    elim (Option-cases (lookup key_discrete (t, mode) a.buckets)) [
      | inl e ↦ rw (note_interception, with_bucket, e) refl
      | inr (b, e) ↦ rw (note_interception, with_bucket, e) refl
    ]

intercepted-news :
    (t : Target) (mode : Mode) (info : Interception) (a : Agg)
    → (intercepted t mode info a).1 ≡ is_news (lookup target_discrete t a.last_fp) info.fingerprint
unfolding intercepted
intercepted-news t mode info a =
    remember_fp-news t info.fingerprint (note_interception t mode info a)
    ∙ ap (λ m. is_news (lookup target_discrete t m) info.fingerprint)
        (note_interception-last_fp t mode info a)

intercepted-seen :
    (t : Target) (mode : Mode) (info : Interception) (a : Agg) (s : Target)
    → lookup target_discrete s (intercepted t mode info a).0.last_fp
      ≡ ite (target_discrete t s) (some info.fingerprint) (lookup target_discrete s a.last_fp)
unfolding intercepted
intercepted-seen t mode info a s =
    remember_fp-seen t info.fingerprint (note_interception t mode info a) s
    ∙ ap (λ m. ite (target_discrete t s) (some info.fingerprint) (lookup target_discrete s m))
        (note_interception-last_fp t mode info a)

-- Over any series of interceptions of any targets, one after the other, in any modes and whether or not
-- a bucket counts them, exactly those are reported as new whose target had no fingerprint remembered, or another one,
-- when they came.
pub intercepted_all-news :
    (calls : List (Target × Mode × Interception)) (a : Agg) (seen : Target → Option Text)
    → ((s : Target) → lookup target_discrete s a.last_fp ≡ seen s)
    → (intercepted_all calls a).1 ≡ news (presented calls) seen
unfolding intercepted_all news
intercepted_all-news [] a seen h = refl
intercepted_all-news ((t, mode, info) ∷ calls) a seen h = rw (
  intercepted-news t mode info a,
  h t,
  intercepted_all-news calls (intercepted t mode info a).0
      (λ s. ite (target_discrete t s) (some info.fingerprint) (seen s))
      (λ s.
        intercepted-seen t mode info a s
        ∙ ap (ite (target_discrete t s) (some info.fingerprint)) (h s)),
)
