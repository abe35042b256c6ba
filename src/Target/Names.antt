-- ===== src/Target/Names.antt =====
-- `Resolve` (internal/target/target.go): two names never stand for the same endpoints.
use mathlib.Core.List.{reverse, reverse-append, reverse-reverse}
use mathlib.Core.Option.{some-injective}
use pyck_debug_worker.Prelude.{
  List, [], ◌∷◌, ◌++◌, none, some, Bool, true, false, if◌then◌else◌, ite, arith, ◌≡◌, refl, sym, ap,
  ◌∙◌, ℕ_discrete, Option-cases, inl, inr,
}
use pyck_debug_worker.Prelude.Text.{Text, text_discrete, codes, cut_prefix, cut_suffix}
use pyck_debug_worker.Target.{
  Target, grpc, https, endpoint, resolve, domain, feature_targets, fixed_targets, resolve_cut,
  feature_suffix,
}

cut_prefix-some : (p s rest : Text) → cut_prefix p s ≡ some rest → s ≡ p ++ rest
unfolding cut_prefix
cut_prefix-some [] s rest h = ground (arith, h)
cut_prefix-some (c ∷ p) [] rest h = cc
cut_prefix-some (c ∷ p) (d ∷ s) rest h = ground (arith, h, cut_prefix-some p s rest)

cut_prefix-append : (p rest : Text) → cut_prefix p (p ++ rest) ≡ some rest
unfolding cut_prefix
cut_prefix-append [] rest = refl
cut_prefix-append (c ∷ p) rest = ground (arith, cut_prefix-append p rest)

cut_suffix-append : (s suffix : Text) → cut_suffix suffix (s ++ suffix) ≡ some s
unfolding cut_suffix
cut_suffix-append s suffix =
    rw
      (
        cut_suffix,
        reverse-append s suffix,
        cut_prefix-append (reverse suffix) (reverse s),
        reverse-reverse s,
      )
      refl

-- The name that a list of endpoints was resolved from, by the host of the second one.
abbrev is_text : Text → Text → Bool
is_text s t = ite (text_discrete s t) true false

unfoldable pub name_of_domain : Text → Text
unfolding text_discrete
name_of_domain host =
    if is_text host (codes "local-test.pyck.cloud")
    then codes "local"
    else if is_text host (codes "eu.pyck.cloud")
    then codes "prod"
    else if is_text host (codes "dev.pyck.cloud")
    then codes "dev"
    else if is_text host (codes "test.pyck.cloud")
    then codes "test"
    else codes "demo"

unfoldable pub name_of_host : Text → Text
unfolding cut_suffix name_of_domain
name_of_host host = elim (cut_suffix feature_suffix host) [
  | some branch ↦ codes "feature/" ++ branch
  | none ↦ name_of_domain host
]

abbrev pub name_of : List Target → Text
name_of (t ∷ u ∷ ts) = name_of_host u.host
name_of (t ∷ []) = []
name_of [] = []

name_of_domains :
    (name_of_host (codes "local-test.pyck.cloud") ≡ codes "local")
    × (name_of_host (codes "dev.pyck.cloud") ≡ codes "dev")
    × (name_of_host (codes "test.pyck.cloud") ≡ codes "test")
    × (name_of_host (codes "demo.pyck.cloud") ≡ codes "demo")
    × (name_of_host (codes "eu.pyck.cloud") ≡ codes "prod")
unfolding name_of_host name_of_domain cut_suffix cut_prefix text_discrete ℕ_discrete
name_of_domains = (refl, refl, refl, refl, refl)

name_of_host-domain : (env d : Text) → domain env ≡ some d → name_of_host d ≡ env
unfolding domain
name_of_host-domain env d h = ground (arith, h, name_of_domains)

name_of_host-feature :
    (branch : Text) → name_of_host (branch ++ feature_suffix) ≡ codes "feature/" ++ branch
unfolding name_of_host
name_of_host-feature branch = rw (name_of_host, cut_suffix-append branch feature_suffix) refl

-- Endpoints as `Resolve` makes them: the workflow frontend by gRPC, then the app by https, at 443.
abbrev pub IsPair : List Target → Type 0
IsPair ts = (wf : Text) × (app : Text) × (ts ≡ endpoint grpc wf ∷ endpoint https app ∷ [])

IsPair-name :
    (wf app env : Text) (ts : List Target)
    → some (endpoint grpc wf ∷ endpoint https app ∷ []) ≡ some ts
    → name_of_host app ≡ env
    → (name_of ts ≡ env) × IsPair ts
IsPair-name wf app env ts h e =
    let p = some-injective _ _ h in (sym (ap name_of p) ∙ e, (wf, app, sym p))

feature_targets-name :
    (branch : Text) (ts : List Target)
    → feature_targets branch ≡ some ts
    → (name_of ts ≡ codes "feature/" ++ branch) × IsPair ts
feature_targets-name [] ts h = cc
feature_targets-name (c ∷ branch) ts h =
    IsPair-name (codes "wf-" ++ ((c ∷ branch) ++ feature_suffix)) ((c ∷ branch) ++ feature_suffix)
      (codes "feature/" ++ c ∷ branch) ts h (name_of_host-feature (c ∷ branch))

-- Whatever `Resolve` returns is the workflow frontend by gRPC and then the app by https, both at port
-- 443; and the name it was asked for can be told from the app's host, by `name_of`, so that no two
-- names, of fixed or of feature environments, are resolved to the same endpoints.
pub resolve-name_of :
    (env : Text) (ts : List Target) → resolve env ≡ some ts → (name_of ts ≡ env) × IsPair ts
unfolding resolve
resolve-name_of env ts h = elim (Option-cases (cut_prefix (codes "feature/") env)) [
  | inr (branch, e) ↦
      let (p, q) =
        feature_targets-name branch ts (sym (ap (λ o. resolve_cut o (domain env)) e) ∙ h) in
      (p ∙ sym (cut_prefix-some (codes "feature/") env branch e), q)
  | inl e ↦
      let k = sym (ap (λ o. resolve_cut o (domain env)) e) ∙ h in
      elim (Option-cases (domain env)) [
        | inl n ↦ cc (sym (ap fixed_targets n) ∙ k)
        | inr (d, n) ↦
            IsPair-name (codes "wf." ++ d) d env ts (sym (ap fixed_targets n) ∙ k)
              (name_of_host-domain env d n)
      ]
]
