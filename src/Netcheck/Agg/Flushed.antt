-- ===== src/Netcheck/Agg/Flushed.antt =====
-- `agg.flush` of internal/netcheck/agg.go as a whole: what it returns, and the state that the next
-- minute starts from.
use pyck_debug_worker.Prelude.{
  ℕ, List, [], ◌∷◌, ◌++◌, map, none, some, Bool, true, false, not, ◌≡◌, refl, sym, ap, ◌∙◌, arith,
  if_pos, if_neg, contains, if◌then◌else◌,
}
use pyck_debug_worker.Prelude.Assoc.{Assoc, lookup, delete, lookup-insert, lookup-delete}
use pyck_debug_worker.Netcheck.Types.{Mode, mode_discrete, Target, target_discrete}
use pyck_debug_worker.Netcheck.Agg.{Agg, Key, key_discrete}
use pyck_debug_worker.Netcheck.Agg.Buckets.{Bucket, empty_bucket}
use pyck_debug_worker.Netcheck.Agg.Flush.{
  modes_of, is_removed, flush_targets, flush, forget, delete_buckets,
}
use pyck_debug_worker.Prelude.Distinct.{Distinct}
use pyck_debug_worker.Netcheck.Agg.Invariant.{IsValid}
use pyck_debug_worker.Netcheck.Agg.Emission.{
  record_of, emitted, kept, reset_buckets, after_one, after_all, flush_modes-eq, lookup-insert_ne,
  snd_ne, ne_of_not-mem, tail_of_not-mem,
}
use pyck_debug_worker.Netcheck.Agg.Turns.{
  Agrees, Agrees-refl, Agrees-trans, ne_of_not-target, ReadyAt, after_one-Agrees, emitted-Agrees,
  kept-Agrees, after_one-ReadyAt,
}

keep_cons :
    (b : Bool) (t : Target) (ts : List Target)
    → (if b then ts else t ∷ ts) ≡ (if not b then t ∷ ts else ts)
keep_cons true t ts = refl
keep_cons false t ts = refl

flush_targets-eq :
    (minute : ℕ) (ts : List Target) (a : Agg)
    → Distinct target_discrete ts
    → ((s : Target) → ReadyAt s a)
    → flush_targets minute ts a ≡ some (emitted minute a ts, kept a ts, after_all ts a)
unfolding flush_targets
flush_targets-eq minute [] a d r = refl
flush_targets-eq minute (t ∷ ts) a d r =
    rw
      (
        flush_modes-eq minute t (modes_of t a) a (r t).0 (r t).1,
        flush_targets-eq minute ts (after_one t a) d.1 (λ s. after_one-ReadyAt s t a (r s)),
        emitted-Agrees minute a t ts d.0,
        kept-Agrees a t ts d.0,
      )
      (ap
        (λ ks. some (
          map (record_of minute a t) (modes_of t a) ++ emitted minute a ts,
          ks,
          after_all ts (after_one t a),
        ))
        (keep_cons (is_removed t a) t (kept a ts)))

-- The state after a flush.
abbrev pub next : Agg → Agg
next a = record (after_all a.targets a) { targets = kept a a.targets }

-- A valid state flushes without a panic, into one record for each mode of each target, in the order
-- of registration, each made from the bucket as it was.
pub flush-emitted :
    (minute : ℕ) (a : Agg) → IsValid a → flush minute a ≡ some (emitted minute a a.targets, next a)
unfolding flush
flush-emitted minute a v =
    rw (flush_targets-eq minute a.targets a v.distinct (λ s. (v.modes_distinct s, v.backed s)))

pub after_all-Agrees :
    (s : Target) (ts : List Target) (a : Agg)
    → contains target_discrete ts s ≡ false
    → Agrees s a (after_all ts a)
after_all-Agrees s [] a h = Agrees-refl s a
after_all-Agrees s (t ∷ ts) a h =
    Agrees-trans s a (after_one t a) (after_all ts (after_one t a))
      (after_one-Agrees s t a (λ e. ne_of_not-target s t ts h (sym e)))
      (after_all-Agrees s ts (after_one t a) (ground arith))

-- Nothing is left of an unregistered target.
pub record Forgotten (s : Target) (a a' : Agg) : Type 0 where
  pub no_modes : lookup target_discrete s a'.modes ≡ none
  pub no_mark : lookup target_discrete s a'.removed ≡ none
  pub no_gap : lookup target_discrete s a'.survived ≡ none
  pub no_fp : lookup target_discrete s a'.last_fp ≡ none
  pub no_bucket :
      (x : Mode)
      → contains mode_discrete (modes_of s a) x ≡ true
      → lookup key_discrete (s, x) a'.buckets ≡ none
  pub other_bucket :
      (x : Mode)
      → contains mode_discrete (modes_of s a) x ≡ false
      → lookup key_discrete (s, x) a'.buckets ≡ lookup key_discrete (s, x) a.buckets

-- A target that stays has the same modes, each with an empty bucket, and what outlasts a minute.
pub record Renewed (s : Target) (a a' : Agg) : Type 0 where
  pub same_modes : lookup target_discrete s a'.modes ≡ lookup target_discrete s a.modes
  pub same_gap : lookup target_discrete s a'.survived ≡ lookup target_discrete s a.survived
  pub same_fp : lookup target_discrete s a'.last_fp ≡ lookup target_discrete s a.last_fp
  pub emptied :
      (x : Mode)
      → contains mode_discrete (modes_of s a) x ≡ true
      → lookup key_discrete (s, x) a'.buckets ≡ some empty_bucket
  pub other_bucket :
      (x : Mode)
      → contains mode_discrete (modes_of s a) x ≡ false
      → lookup key_discrete (s, x) a'.buckets ≡ lookup key_discrete (s, x) a.buckets

reset_out :
    (t : Target) (x : Mode) (modes : List Mode) (m : Assoc Key Bucket)
    → lookup key_discrete (t, x) m ≡ some empty_bucket
    → lookup key_discrete (t, x) (reset_buckets t modes m) ≡ some empty_bucket
unfolding reset_buckets
reset_out t x [] m h = h
reset_out t x (y ∷ modes) m h =
    reset_out t x modes _ (ground (arith, lookup-insert key_discrete (t, x) (t, y) empty_bucket m))

reset_in :
    (t : Target) (x : Mode) (modes : List Mode) (m : Assoc Key Bucket)
    → contains mode_discrete modes x ≡ true
    → lookup key_discrete (t, x) (reset_buckets t modes m) ≡ some empty_bucket
unfolding reset_buckets
reset_in t x [] m h = cc
reset_in t x (y ∷ modes) m h = elim (mode_discrete y x) [
  | yes p ↦ reset_out t x modes _ (
      lookup-insert key_discrete (t, x) (t, y) empty_bucket m
      ∙ if_pos (key_discrete (t, y) (t, x)) (ap (λ z. (t, z)) p) _ _)
  | no p ↦ reset_in t x modes _ (sym (if_neg (mode_discrete y x) p _ _) ∙ h)
]

delete_out :
    (t : Target) (x : Mode) (modes : List Mode) (m : Assoc Key Bucket)
    → lookup key_discrete (t, x) m ≡ none
    → lookup key_discrete (t, x) (delete_buckets t modes m) ≡ none
unfolding delete_buckets
delete_out t x [] m h = h
delete_out t x (y ∷ modes) m h =
    delete_out t x modes _ (ground (arith, lookup-delete key_discrete (t, x) (t, y) m))

delete_in :
    (t : Target) (x : Mode) (modes : List Mode) (m : Assoc Key Bucket)
    → contains mode_discrete modes x ≡ true
    → lookup key_discrete (t, x) (delete_buckets t modes m) ≡ none
unfolding delete_buckets
delete_in t x [] m h = cc
delete_in t x (y ∷ modes) m h = elim (mode_discrete y x) [
  | yes p ↦ delete_out t x modes _ (
      lookup-delete key_discrete (t, x) (t, y) m
      ∙ if_pos (key_discrete (t, y) (t, x)) (ap (λ z. (t, z)) p) _ _)
  | no p ↦ delete_in t x modes _ (sym (if_neg (mode_discrete y x) p _ _) ∙ h)
]

reset_skip :
    (t : Target) (x : Mode) (modes : List Mode) (m : Assoc Key Bucket)
    → contains mode_discrete modes x ≡ false
    → lookup key_discrete (t, x) (reset_buckets t modes m) ≡ lookup key_discrete (t, x) m
unfolding reset_buckets
reset_skip t x [] m h = refl
reset_skip t x (y ∷ modes) m h =
    reset_skip t x modes _ (tail_of_not-mem x y modes h)
    ∙ lookup-insert_ne (t, x) (t, y) empty_bucket m (snd_ne t y x (ne_of_not-mem x y modes h))

delete_skip :
    (t : Target) (x : Mode) (modes : List Mode) (m : Assoc Key Bucket)
    → contains mode_discrete modes x ≡ false
    → lookup key_discrete (t, x) (delete_buckets t modes m) ≡ lookup key_discrete (t, x) m
unfolding delete_buckets
delete_skip t x [] m h = refl
delete_skip t x (y ∷ modes) m h =
    delete_skip t x modes _ (tail_of_not-mem x y modes h)
    ∙ lookup-delete key_discrete (t, x) (t, y) m
    ∙ if_neg (key_discrete (t, y) (t, x)) (snd_ne t y x (ne_of_not-mem x y modes h)) _ _

delete_self :
    {V : Type 0} (t : Target) (m : Assoc Target V)
    → lookup target_discrete t (delete target_discrete t m) ≡ none
delete_self t m = lookup-delete target_discrete t t m ∙ if_pos (target_discrete t t) refl _ _

pub one-Forgotten : (s : Target) (a : Agg) → is_removed s a ≡ true → Forgotten s a (after_one s a)
unfolding forget
one-Forgotten s a h = rw h (record {
  no_modes = delete_self s a.modes;
  no_mark = delete_self s a.removed;
  no_gap = delete_self s a.survived;
  no_fp = delete_self s a.last_fp;
  no_bucket = λ x i. delete_in s x (modes_of s a) _ i;
  other_bucket =
      λ x i. delete_skip s x (modes_of s a) _ i ∙ reset_skip s x (modes_of s a) a.buckets i;
})

pub one-Renewed : (s : Target) (a : Agg) → is_removed s a ≡ false → Renewed s a (after_one s a)
one-Renewed s a h = rw h (record {
  same_modes = refl;
  same_gap = refl;
  same_fp = refl;
  emptied = λ x i. reset_in s x (modes_of s a) a.buckets i;
  other_bucket = λ x i. reset_skip s x (modes_of s a) a.buckets i;
})
