-- ===== src/Main/ProbeSet.antt =====
-- The probe set of `config.resolveTargets` (cmd/pyck-debug-worker/main.go).
use pyck_debug_worker.Prelude.{
  List, [], ◌∷◌, ◌++◌, Option, none, some, true, false, ◌||◌, contains, contains-append, All, ◌≡◌,
  ◌≢◌, refl, sym, ap, subst, ◌∙◌, arith, map, Option-cases, Bool-cases, inl, inr, ◌⊎◌, is_some,
}
use pyck_debug_worker.Prelude.Distinct.{Distinct, Distinct-snoc}
use pyck_debug_worker.Prelude.Text.{Text, text_discrete}
use pyck_debug_worker.Target.{Target, Reason, addr, resolve, denied}
use pyck_debug_worker.Main.{
  Probed, refused, probed, Refused, Collected, collect_new, collect, first_denied, checked,
  checked_all, resolve_targets,
}

abbrev pub addrs : List Target → List Text
addrs ts = map addr ts

-- All endpoints of the environments, with what several of them share repeated.
abbrev pub or_nothing : Option (List Target) → List Target
or_nothing none = []
or_nothing (some ts) = ts

abbrev pub all_endpoints : List Text → List Target
all_endpoints [] = []
all_endpoints (env ∷ envs) = or_nothing (resolve env) ++ all_endpoints envs

record IsCollected (st : Collected) : Type 0 where
  same : (a : Text) → contains text_discrete st.0 a ≡ contains text_discrete (addrs st.1) a
  distinct : Distinct text_discrete (addrs st.1)

-- How the targets grow by some endpoints: none is repeated or left out.
record Grows (ts : List Target) (st st' : Collected) : Type 0 where
  valid : IsCollected st'
  grown :
      (a : Text)
      → contains text_discrete (addrs st'.1) a
        ≡ (contains text_discrete (addrs st.1) a || contains text_discrete (addrs ts) a)

add_one : Target → Collected → Collected
add_one t (seen, targets) = (addr t ∷ seen, targets ++ t ∷ [])

addrs-snoc : (ts : List Target) (t : Target) → addrs (ts ++ t ∷ []) ≡ addrs ts ++ addr t ∷ []
addrs-snoc [] t = refl
addrs-snoc (u ∷ ts) t = ap (λ l. addr u ∷ l) (addrs-snoc ts t)

addrs-append : (ts us : List Target) → addrs (ts ++ us) ≡ addrs ts ++ addrs us
addrs-append [] us = refl
addrs-append (t ∷ ts) us = ap (λ l. addr t ∷ l) (addrs-append ts us)

add_one-contains :
    (t : Target) (ts : List Target) (a : Text)
    → contains text_discrete (addrs (ts ++ t ∷ [])) a
      ≡ (contains text_discrete (addrs ts) a || contains text_discrete (addr t ∷ []) a)
add_one-contains t ts a =
    rw (addrs-snoc ts t) (contains-append text_discrete (addrs ts) (addr t ∷ []) a)

add_one-IsCollected :
    (t : Target) (seen : List Text) (ts : List Target)
    → IsCollected (seen, ts)
    → contains text_discrete seen (addr t) ≡ false
    → IsCollected (add_one t (seen, ts))
unfolding add_one
add_one-IsCollected t seen ts v h = record {
  same = λ a. ground (arith, v.same a, add_one-contains t ts a);
  distinct =
      rw (addrs-snoc ts t)
        (Distinct-snoc text_discrete (addrs ts) (addr t) v.distinct (sym (v.same (addr t)) ∙ h));
}

contains_same :
    (a b : Text) (l : List Text)
    → contains text_discrete l b ≡ true
    → (contains text_discrete l a || contains text_discrete (b ∷ []) a) ≡ contains text_discrete l a
contains_same a b l h = elim (text_discrete b a) [
  | yes p ↦ ground (arith, h, ap (contains text_discrete l) p)
  | no p ↦ ground arith
]

collect_new-Grows :
    (ts : List Target) (st : Collected) → IsCollected st → Grows ts st (collect_new ts st)
unfolding collect_new add_one
collect_new-Grows [] st v = record { valid = v; grown = λ a. ground arith }
collect_new-Grows (t ∷ ts) (seen, targets) v =
    elim (Bool-cases (contains text_discrete seen (addr t))) [
      | inl e ↦
          let g = collect_new-Grows ts (seen, targets) v in
          rw e (record {
            valid = g.valid;
            grown = λ a. ground (
              arith,
              g.grown a,
              contains_same a (addr t) (addrs targets) (sym (v.same (addr t)) ∙ e),
            );
          })
      | inr e ↦
          let g =
            collect_new-Grows ts (add_one t (seen, targets))
              (add_one-IsCollected t seen targets v e) in
          rw e (record {
            valid = g.valid;
            grown = λ a. ground (arith, g.grown a, add_one-contains t targets a);
          })
    ]

collect-some :
    (env : Text) (envs : List Text) (st : Collected) (ts : List Target)
    → resolve env ≡ some ts
    → collect (env ∷ envs) st ≡ collect envs (collect_new ts st)
unfolding collect
collect-some env envs st ts e = rw (collect, e) refl

collect-none :
    (env : Text) (envs : List Text) (st : Collected)
    → resolve env ≡ none
    → collect (env ∷ envs) st ≡ refused (Refused.unknown_env env)
unfolding collect
collect-none env envs st e = rw (collect, e) refl

contains-addrs :
    (ts us : List Target) (a : Text)
    → contains text_discrete (addrs (ts ++ us)) a
      ≡ (contains text_discrete (addrs ts) a || contains text_discrete (addrs us) a)
contains-addrs ts us a =
    rw (addrs-append ts us) (contains-append text_discrete (addrs ts) (addrs us) a)

-- Every environment is known.
abbrev pub AllKnown : List Text → Type 0
AllKnown envs = All (λ env. is_some (resolve env) ≡ true) envs

abbrev probed_or {ℓ} : {A : Type ℓ} → A → Probed A → A
probed_or a (refused e) = a
probed_or a (probed b) = b

collect-Grows :
    (envs : List Text) (st st' : Collected)
    → IsCollected st
    → collect envs st ≡ probed st'
    → Grows (all_endpoints envs) st st' × AllKnown envs
unfolding collect
collect-Grows [] st st' v h =
    let p = ap (probed_or st) h in
    (
      record {
        valid = subst IsCollected p v;
        grown = λ a. ground (arith, ap (λ s. contains text_discrete (addrs s.1) a) p);
      },
      tt,
    )
collect-Grows (env ∷ envs) st st' v h = elim (Option-cases (resolve env)) [
  | inl e ↦ cc (sym (collect-none env envs st e) ∙ h)
  | inr (ts, e) ↦
      let g = collect_new-Grows ts st v in
      let (k, known) =
        collect-Grows envs (collect_new ts st) st' g.valid
          (sym (collect-some env envs st ts e) ∙ h) in
      (
        record {
          valid = k.valid;
          grown = λ a.
              rw e (ground (arith, k.grown a, g.grown a, contains-addrs ts (all_endpoints envs) a));
        },
        (ap is_some e, known),
      )
]

first_denied-rest :
    (t : Target) (ts : List Target)
    → denied t.host [] ≡ none
    → first_denied (t ∷ ts) ≡ first_denied ts
unfolding first_denied
first_denied-rest t ts e = rw (first_denied, e) refl

first_denied-here :
    (t : Target) (ts : List Target) (r : Reason)
    → denied t.host [] ≡ some r
    → first_denied (t ∷ ts) ≡ some (Refused.never_probed t.host r)
unfolding first_denied
first_denied-here t ts r e = rw (first_denied, e) refl

first_denied-All :
    (ts : List Target) → first_denied ts ≡ none → All (λ t. denied t.host [] ≡ none) ts
unfolding first_denied
first_denied-All [] h = tt
first_denied-All (t ∷ ts) h = elim (Option-cases (denied t.host [])) [
  | inl e ↦ (e, first_denied-All ts (sym (first_denied-rest t ts e) ∙ h))
  | inr (r, e) ↦ cc (sym (first_denied-here t ts r e) ∙ h)
]

checked-none :
    (t : Target) (ts : List Target)
    → first_denied (t ∷ ts) ≡ none
    → checked (t ∷ ts) ≡ probed (t ∷ ts)
unfolding checked
checked-none t ts e = rw (checked, e) refl

checked-some :
    (t : Target) (ts : List Target) (r : Refused)
    → first_denied (t ∷ ts) ≡ some r
    → checked (t ∷ ts) ≡ refused r
unfolding checked
checked-some t ts r e = rw (checked, e) refl

Probed-cases :
    {A : Type 0} (p : Probed A) → ((e : Refused) × (p ≡ refused e)) ⊎ ((a : A) × (p ≡ probed a))
Probed-cases (refused e) = inl (e, refl)
Probed-cases (probed a) = inr (a, refl)

checked-parts :
    (ts us : List Target)
    → checked ts ≡ probed us
    → (ts ≡ us) × (ts ≢ []) × (first_denied ts ≡ none)
unfolding checked
checked-parts [] us h = cc
checked-parts (t ∷ ts) us h = elim (Option-cases (first_denied (t ∷ ts))) [
  | inl e ↦ (ap (probed_or []) (sym (checked-none t ts e) ∙ h), (λ p. cc p), e)
  | inr (r, e) ↦ cc (sym (checked-some t ts r e) ∙ h)
]

no_targets : IsCollected ([], [])
no_targets = record { same = λ a. refl; distinct = tt }

-- When `resolveTargets` accepts some --env names, every name is known, there is a target, no target
-- is on the denylist, no address is probed twice, and the addresses are exactly those that the names
-- are resolved to.
pub resolve_targets_exact :
    (envs : List Text) (ts : List Target)
    → resolve_targets false envs ≡ probed ts
    → AllKnown envs
      × (ts ≢ [])
      × All (λ t. denied t.host [] ≡ none) ts
      × Distinct text_discrete (addrs ts)
      × ((a : Text)
          → contains text_discrete (addrs ts) a
            ≡ contains text_discrete (addrs (all_endpoints envs)) a)
unfolding resolve_targets
resolve_targets_exact envs ts h = elim (Probed-cases (collect envs ([], []))) [
  | inl (e, p) ↦ cc (sym (ap checked_all p) ∙ h)
  | inr (st, p) ↦
      let (same, some_target, free) = checked-parts st.1 ts (sym (ap checked_all p) ∙ h) in
      let (g, known) = collect-Grows envs ([], []) st no_targets p in
      (
        known,
        subst (λ u. u ≢ []) same some_target,
        subst (All (λ t. denied t.host [] ≡ none)) same (first_denied-All st.1 free),
        subst (λ u. Distinct text_discrete (addrs u)) same g.valid.distinct,
        λ a.
            subst
              (λ u.
                contains text_discrete (addrs u) a
                ≡ contains text_discrete (addrs (all_endpoints envs)) a)
              same (g.grown a),
      )
]
