-- ===== src/Netcheck/Agg/Invariant.antt =====
-- What the methods of `agg` keep: no registered target stands twice, and every mode of every target
-- has its bucket, so that `flush` finds what it reads.
use pyck_debug_worker.Prelude.{
  is_some, ℕ, List, [], ◌∷◌, none, some, Bool, true, false, ◌≡◌, refl, arith, ite, if_pos, if_neg,
  subst, sym, ◌∙◌, contains, contains-append, All, Option-cases, Bool-cases, inl, inr,
}
use pyck_debug_worker.Prelude.Distinct.{Distinct, Distinct-snoc}
use pyck_debug_worker.Prelude.Text.{Text}
use pyck_debug_worker.Prelude.Assoc.{Assoc, lookup, insert, lookup-insert}
use pyck_debug_worker.Netcheck.Types.{Mode, mode_discrete, Target, target_discrete}
use pyck_debug_worker.Netcheck.Agg.{
  Agg, Key, key_discrete, new_agg, add_buckets, register_modes, with_bucket,
}
use pyck_debug_worker.Netcheck.Agg.Buckets.{Bucket, empty_bucket}
use pyck_debug_worker.Netcheck.Agg.Flush.{modes_of}

abbrev pub has : Key → Assoc Key Bucket → Bool
has k m = is_some (lookup key_discrete k m)

abbrev pub Backed : Target → List Mode → Assoc Key Bucket → Type 0
Backed t modes m = All (λ mode. has (t, mode) m ≡ true) modes

pub record IsValid (a : Agg) : Type 0 where
  pub distinct : Distinct target_discrete a.targets
  pub modes_distinct : (t : Target) → Distinct mode_discrete (modes_of t a)
  pub backed : (t : Target) → Backed t (modes_of t a) a.buckets
  pub known :
      (t : Target)
      → contains target_discrete a.targets t ≡ false
      → lookup target_discrete t a.modes ≡ none

pub new_agg-IsValid : IsValid new_agg
unfolding new_agg lookup
new_agg-IsValid = record {
  distinct = tt;
  modes_distinct = λ t. tt;
  backed = λ t. tt;
  known = λ t h. refl;
}

pub has-insert :
    (j k : Key) (b : Bucket) (m : Assoc Key Bucket)
    → has j (insert key_discrete k b m) ≡ ite (key_discrete k j) true (has j m)
has-insert j k b m = ground (arith, lookup-insert key_discrete j k b m)

add_one_mono :
    (k j : Key) (m : Assoc Key Bucket)
    → has j m ≡ true
    → has j (elim (lookup key_discrete k m) [
      | some b ↦ m
      | none ↦ insert key_discrete k empty_bucket m
    ])
      ≡ true
add_one_mono k j m h = ground (arith, lookup-insert key_discrete j k empty_bucket m)

add_one_self :
    (k : Key) (m : Assoc Key Bucket)
    → has k (elim (lookup key_discrete k m) [
      | some b ↦ m
      | none ↦ insert key_discrete k empty_bucket m
    ])
      ≡ true
add_one_self k m = ground (arith, lookup-insert key_discrete k k empty_bucket m)

add_buckets_mono :
    (t : Target) (modes : List Mode) (j : Key) (m : Assoc Key Bucket)
    → has j m ≡ true
    → has j (add_buckets t modes m) ≡ true
unfolding add_buckets
add_buckets_mono t [] j m h = h
add_buckets_mono t (mode ∷ modes) j m h =
    add_buckets_mono t modes j _ (add_one_mono (t, mode) j m h)

add_buckets-Backed :
    (t : Target) (modes : List Mode) (m : Assoc Key Bucket) → Backed t modes (add_buckets t modes m)
unfolding add_buckets
add_buckets-Backed t [] m = tt
add_buckets-Backed t (mode ∷ modes) m =
    (add_buckets_mono t modes (t, mode) _ (add_one_self (t, mode) m), add_buckets-Backed t modes _)

pub Backed-mono :
    (t : Target) (modes : List Mode) (m m' : Assoc Key Bucket)
    → ((j : Key) → has j m ≡ true → has j m' ≡ true)
    → Backed t modes m
    → Backed t modes m'
Backed-mono t [] m m' up b = tt
Backed-mono t (mode ∷ modes) m m' up b = (up (t, mode) b.0, Backed-mono t modes m m' up b.1)

modes_of-register :
    (s t : Target) (modes : List Mode) (a : Agg)
    → modes_of s (register_modes t modes a) ≡ ite (target_discrete t s) modes (modes_of s a)
unfolding register_modes
modes_of-register s t modes a = ground (arith, lookup-insert target_discrete s t modes a.modes)

register-Distinct :
    (t : Target) (modes : List Mode) (a : Agg)
    → Distinct target_discrete a.targets
    → Distinct target_discrete (register_modes t modes a).targets
unfolding register_modes
register-Distinct t modes a d = elim (Bool-cases (contains target_discrete a.targets t)) [
  | inl old ↦ rw old d
  | inr new ↦ rw new (Distinct-snoc target_discrete a.targets t d new)
]

register-Backed :
    (s t : Target) (modes : List Mode) (a : Agg)
    → Backed s (modes_of s a) a.buckets
    → Backed s (modes_of s (register_modes t modes a)) (register_modes t modes a).buckets
unfolding register_modes
register-Backed s t modes a b = elim (target_discrete t s) [
  | yes p ↦
      subst (λ ms. Backed s ms (add_buckets t modes a.buckets)) (sym (now p))
        (subst (λ u. Backed u modes (add_buckets t modes a.buckets)) p
          (add_buckets-Backed t modes a.buckets))
  | no p ↦
      subst (λ ms. Backed s ms (add_buckets t modes a.buckets)) (sym (before p))
        (Backed-mono s (modes_of s a) a.buckets _ (λ j h. add_buckets_mono t modes j a.buckets h) b)
]
  where
    now : t ≡ s → modes_of s (register_modes t modes a) ≡ modes
    now p = modes_of-register s t modes a ∙ if_pos (target_discrete t s) p _ _

    before : ¬ (t ≡ s) → modes_of s (register_modes t modes a) ≡ modes_of s a
    before p = modes_of-register s t modes a ∙ if_neg (target_discrete t s) p _ _

register-known :
    (s t : Target) (modes : List Mode) (a : Agg)
    → (contains target_discrete a.targets s ≡ false → lookup target_discrete s a.modes ≡ none)
    → contains target_discrete (register_modes t modes a).targets s ≡ false
    → lookup target_discrete s (register_modes t modes a).modes ≡ none
unfolding register_modes
register-known s t modes a k h = ground (
  arith,
  lookup-insert target_discrete s t modes a.modes,
  contains-append target_discrete a.targets (t ∷ []) s,
)

-- Registering a target with distinct modes, again or for the first time, keeps the state valid.
pub register_modes-IsValid :
    (t : Target) (modes : List Mode) (a : Agg)
    → Distinct mode_discrete modes
    → IsValid a
    → IsValid (register_modes t modes a)
register_modes-IsValid t modes a d v = record {
  distinct = register-Distinct t modes a v.distinct;
  modes_distinct = λ s. rw (modes_of-register s t modes a) (ground (arith, v.modes_distinct s));
  backed = λ s. register-Backed s t modes a (v.backed s);
  known = λ s. register-known s t modes a (v.known s);
}

-- More buckets do no harm.
pub grow-IsValid :
    (a : Agg) (m : Assoc Key Bucket)
    → ((j : Key) → has j a.buckets ≡ true → has j m ≡ true)
    → IsValid a
    → IsValid (record a { buckets = m })
grow-IsValid a m up v = record {
  distinct = v.distinct;
  modes_distinct = v.modes_distinct;
  backed = λ t. Backed-mono t (modes_of t a) a.buckets m up (v.backed t);
  known = v.known;
}

pub with_bucket-IsValid :
    (t : Target) (mode : Mode) (fn : Bucket → Bucket) (a : Agg)
    → IsValid a
    → IsValid (with_bucket t mode fn a)
unfolding with_bucket
with_bucket-IsValid t mode fn a v = elim (Option-cases (lookup key_discrete (t, mode) a.buckets)) [
  | inl e ↦ rw (e, with_bucket) v
  | inr (b, e) ↦
      rw (e, with_bucket)
        (grow-IsValid a _ (λ j h. rw (has-insert j (t, mode) (fn b) a.buckets) (ground arith)) v)
]

-- The marks, fingerprints and idle gaps are no part of it.
pub other-IsValid :
    (a : Agg) (removed : Assoc Target Bool) (last_fp : Assoc Target Text) (gaps : Assoc Target ℕ)
    → IsValid a
    → IsValid (record a { removed = removed; last_fp = last_fp; survived = gaps })
other-IsValid a removed last_fp gaps v = record {
  distinct = v.distinct;
  modes_distinct = v.modes_distinct;
  backed = v.backed;
  known = v.known;
}
