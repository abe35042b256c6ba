-- ===== src/Netcheck/Agg/Turns.antt =====
-- One target's turn in `agg.flush` (internal/netcheck/agg.go) beside another's: it changes nothing
-- that the other's turn reads.
use mathlib.Core.Path.{fun_ext}
use pyck_debug_worker.Prelude.{
  is_some, ℕ, List, [], ◌∷◌, map, true, false, ◌≡◌, ◌≢◌, refl, sym, ap, ◌∙◌, subst, arith, if_pos,
  if_neg, contains, Bool-cases, inl, inr, ◌⊎◌,
}
use pyck_debug_worker.Prelude.Assoc.{Assoc, lookup, delete, lookup-delete}
use pyck_debug_worker.Netcheck.Types.{Mode, mode_discrete, Target, target_discrete}
use pyck_debug_worker.Netcheck.Agg.{Agg, Key, key_discrete}
use pyck_debug_worker.Netcheck.Agg.Buckets.{Bucket, empty_bucket}
use pyck_debug_worker.Netcheck.Agg.Flush.{modes_of, is_removed, or_nil, forget, delete_buckets}
use pyck_debug_worker.Prelude.Distinct.{Distinct}
use pyck_debug_worker.Netcheck.Agg.Invariant.{has, has-insert, Backed, Backed-mono}
use pyck_debug_worker.Netcheck.Agg.Emission.{
  record_of, emitted, kept, reset_buckets, reset_target, after_one, fst_ne, lookup-insert_ne,
}

reset_ne :
    (s t : Target) (x : Mode) (modes : List Mode) (m : Assoc Key Bucket)
    → s ≢ t
    → lookup key_discrete (s, x) (reset_buckets t modes m) ≡ lookup key_discrete (s, x) m
unfolding reset_buckets
reset_ne s t x [] m h = refl
reset_ne s t x (y ∷ modes) m h =
    reset_ne s t x modes _ h
    ∙ lookup-insert_ne (s, x) (t, y) empty_bucket m (λ e. fst_ne s t x y h (sym e))

delete_ne :
    (s t : Target) (x : Mode) (modes : List Mode) (m : Assoc Key Bucket)
    → s ≢ t
    → lookup key_discrete (s, x) (delete_buckets t modes m) ≡ lookup key_discrete (s, x) m
unfolding delete_buckets
delete_ne s t x [] m h = refl
delete_ne s t x (y ∷ modes) m h =
    delete_ne s t x modes _ h
    ∙ lookup-delete key_discrete (s, x) (t, y) m
    ∙ if_neg (key_discrete (t, y) (s, x)) (λ e. fst_ne s t x y h (sym e)) _ _

delete_target_ne :
    {V : Type 0} (s t : Target) (m : Assoc Target V)
    → s ≢ t
    → lookup target_discrete s (delete target_discrete t m) ≡ lookup target_discrete s m
delete_target_ne s t m h =
    lookup-delete target_discrete s t m ∙ if_neg (target_discrete t s) (λ e. h (sym e)) _ _

-- Flushing one target leaves all that another one's turn reads.
pub record Agrees (s : Target) (a a' : Agg) : Type 0 where
  pub modes_eq : lookup target_discrete s a'.modes ≡ lookup target_discrete s a.modes
  pub removed_eq : lookup target_discrete s a'.removed ≡ lookup target_discrete s a.removed
  pub survived_eq : lookup target_discrete s a'.survived ≡ lookup target_discrete s a.survived
  pub fp_eq : lookup target_discrete s a'.last_fp ≡ lookup target_discrete s a.last_fp
  pub bucket_eq :
      (x : Mode) → lookup key_discrete (s, x) a'.buckets ≡ lookup key_discrete (s, x) a.buckets

pub Agrees-refl : (s : Target) (a : Agg) → Agrees s a a
Agrees-refl s a = record {
  modes_eq = refl;
  removed_eq = refl;
  survived_eq = refl;
  fp_eq = refl;
  bucket_eq = λ x. refl;
}

pub Agrees-trans : (s : Target) (a b c : Agg) → Agrees s a b → Agrees s b c → Agrees s a c
Agrees-trans s a b c g h = record {
  modes_eq = h.modes_eq ∙ g.modes_eq;
  removed_eq = h.removed_eq ∙ g.removed_eq;
  survived_eq = h.survived_eq ∙ g.survived_eq;
  fp_eq = h.fp_eq ∙ g.fp_eq;
  bucket_eq = λ x. h.bucket_eq x ∙ g.bucket_eq x;
}

forget-Agrees :
    (s t : Target) (a : Agg) → s ≢ t → Agrees s a (forget t (modes_of t a) (reset_target t a))
unfolding forget
forget-Agrees s t a h = record {
  modes_eq = delete_target_ne s t a.modes h;
  removed_eq = delete_target_ne s t a.removed h;
  survived_eq = delete_target_ne s t a.survived h;
  fp_eq = delete_target_ne s t a.last_fp h;
  bucket_eq = λ x. delete_ne s t x (modes_of t a) _ h ∙ reset_ne s t x (modes_of t a) a.buckets h;
}

reset-Agrees : (s t : Target) (a : Agg) → s ≢ t → Agrees s a (reset_target t a)
reset-Agrees s t a h = record {
  modes_eq = refl;
  removed_eq = refl;
  survived_eq = refl;
  fp_eq = refl;
  bucket_eq = λ x. reset_ne s t x (modes_of t a) a.buckets h;
}

pub after_one-Agrees : (s t : Target) (a : Agg) → s ≢ t → Agrees s a (after_one t a)
after_one-Agrees s t a h = elim (Bool-cases (is_removed t a)) [
  | inl e ↦ rw e (forget-Agrees s t a h)
  | inr e ↦ rw e (reset-Agrees s t a h)
]

record_of-Agrees :
    (minute : ℕ) (s : Target) (x : Mode) (a a' : Agg)
    → Agrees s a a'
    → record_of minute a' s x ≡ record_of minute a s x
record_of-Agrees minute s x a a' g = rw (g.bucket_eq x, g.survived_eq)

pub ne_of_not-target :
    (s t : Target) (ts : List Target) → contains target_discrete (t ∷ ts) s ≡ false → t ≢ s
ne_of_not-target s t ts h e =
    cc (if_pos (target_discrete t s) e true (contains target_discrete ts s))

emitted_one :
    (minute : ℕ) (a a' : Agg) (s : Target)
    → Agrees s a a'
    → map (record_of minute a' s) (modes_of s a') ≡ map (record_of minute a s) (modes_of s a)
emitted_one minute a a' s g =
    rw (fun_ext (λ x. record_of-Agrees minute s x a a' g), ap or_nil g.modes_eq)

pub emitted-Agrees :
    (minute : ℕ) (a : Agg) (t : Target) (ts : List Target)
    → contains target_discrete ts t ≡ false
    → emitted minute (after_one t a) ts ≡ emitted minute a ts
emitted-Agrees minute a t [] h = refl
emitted-Agrees minute a t (s ∷ ts) h = rw (
  emitted_one minute a (after_one t a) s (after_one-Agrees s t a (ne_of_not-target t s ts h)),
  emitted-Agrees minute a t ts (ground arith),
)

pub kept-Agrees :
    (a : Agg) (t : Target) (ts : List Target)
    → contains target_discrete ts t ≡ false
    → kept (after_one t a) ts ≡ kept a ts
kept-Agrees a t [] h = refl
kept-Agrees a t (s ∷ ts) h = rw (
  (after_one-Agrees s t a (ne_of_not-target t s ts h)).removed_eq,
  kept-Agrees a t ts (ground arith),
)

reset_has :
    (t : Target) (modes : List Mode) (j : Key) (m : Assoc Key Bucket)
    → has j m ≡ true
    → has j (reset_buckets t modes m) ≡ true
unfolding reset_buckets
reset_has t [] j m h = h
reset_has t (x ∷ modes) j m h =
    reset_has t modes j _ (rw (has-insert j (t, x) empty_bucket m) (ground arith))

after_one_self :
    (t : Target) (a : Agg) → (modes_of t (after_one t a) ≡ []) ⊎ (after_one t a ≡ reset_target t a)
unfolding forget
after_one_self t a = ground (arith, lookup-delete target_discrete t t a.modes)

-- What a target's own turn relies on.
abbrev pub ReadyAt : Target → Agg → Type 0
ReadyAt s a = Distinct mode_discrete (modes_of s a) × Backed s (modes_of s a) a.buckets

Backed-Agrees :
    (s : Target) (modes : List Mode) (a a' : Agg)
    → Agrees s a a'
    → Backed s modes a.buckets
    → Backed s modes a'.buckets
Backed-Agrees s [] a a' g b = tt
Backed-Agrees s (x ∷ modes) a a' g b =
    (ap is_some (g.bucket_eq x) ∙ b.0, Backed-Agrees s modes a a' g b.1)

ready_empty : (s : Target) (a : Agg) → modes_of s a ≡ [] → ReadyAt s a
ready_empty s a e = subst (λ ms. Distinct mode_discrete ms × Backed s ms a.buckets) (sym e) (tt, tt)

ready_reset : (s : Target) (a : Agg) → ReadyAt s a → ReadyAt s (reset_target s a)
ready_reset s a r = (
  r.0,
  Backed-mono s (modes_of s a) a.buckets _ (λ j h. reset_has s (modes_of s a) j a.buckets h) r.1,
)

pub after_one-ReadyAt : (s t : Target) (a : Agg) → ReadyAt s a → ReadyAt s (after_one t a)
after_one-ReadyAt s t a r = elim (target_discrete s t) [
  | no p ↦
      let g = after_one-Agrees s t a p in
      subst (λ ms. Distinct mode_discrete ms × Backed s ms (after_one t a).buckets)
        (sym (ap or_nil g.modes_eq)) (r.0, Backed-Agrees s (modes_of s a) a _ g r.1)
  | yes p ↦
      subst (λ u. ReadyAt s (after_one u a)) p
        (elim (after_one_self s a) [
          | inl e ↦ ready_empty s (after_one s a) e
          | inr e ↦ subst (ReadyAt s) (sym e) (ready_reset s a r)
        ])
]
