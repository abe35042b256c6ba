-- ===== src/Probe/Pyck/Agreement.antt =====
-- When the tenant stage finds its inputs in agreement (internal/probe/tenant.go).
use pyck_debug_worker.Prelude.{
  List, [], ◌∷◌, Bool, ◌||◌, all_of, if◌then◌else◌, arith, ◌≡◌, refl, ap, ◌∙◌,
}
use pyck_debug_worker.Prelude.Text.{Text, codes}
use pyck_debug_worker.Target.{is_empty}
use pyck_debug_worker.Probe.{Outcome, Options, run_stage}
use pyck_debug_worker.Probe.Http.{equal_fold}
use pyck_debug_worker.Probe.Pyck.{
  Tenant, Input, keep_set, present_inputs, compare_inputs, none_left, cross_verdict, cross_results,
  cross_check,
}

compare_agrees :
    (id : Text) (inputs : List Input)
    → none_left (compare_inputs id inputs).1
      ≡ all_of (λ (input : Input). equal_fold input.1 id) inputs
unfolding compare_inputs
compare_agrees id [] = refl
compare_agrees id ((name, value) ∷ inputs) = ground (arith, compare_agrees id inputs)

abbrev pub oks : List Outcome → List Bool
oks [] = []
oks (o ∷ os) = o.ok ∷ oks os

cross_verdict-agrees :
    (id : Text) (inputs : List Input)
    → (cross_verdict id inputs).0 ≡ all_of (λ (input : Input). equal_fold input.1 id) inputs
unfolding cross_verdict
cross_verdict-agrees id inputs = ground (arith, compare_agrees id inputs)

abbrev pub at_most_one : Bool → List Input → List Bool
at_most_one agree [] = []
at_most_one agree (input ∷ inputs) = agree ∷ []

keep_set-all_of :
    (p : Text → Bool) (inputs : List Input)
    → all_of (λ (input : Input). p input.1) (keep_set inputs)
      ≡ all_of (λ (input : Input). is_empty input.1 || p input.1) inputs
keep_set-all_of p [] = refl
keep_set-all_of p ((name, value) ∷ inputs) = ground (arith, keep_set-all_of p inputs)

keep_set-at_most_one :
    (agree : Bool) (inputs : List Input)
    → at_most_one agree (keep_set inputs)
      ≡ (if all_of (λ (input : Input). is_empty input.1) inputs then [] else agree ∷ [])
keep_set-at_most_one agree [] = refl
keep_set-at_most_one agree ((name, value) ∷ inputs) =
    ground (arith, keep_set-at_most_one agree inputs)

cross_results-oks :
    (id : Text) (inputs : List Input)
    → oks (cross_results id inputs)
      ≡ at_most_one (all_of (λ (input : Input). equal_fold input.1 id) inputs) inputs
unfolding cross_results run_stage
cross_results-oks id [] = refl
cross_results-oks id (input ∷ inputs) = ap (λ b. b ∷ []) (cross_verdict-agrees id (input ∷ inputs))

-- What the user may say about the tenant: TEMPORAL_NAMESPACE, --namespace and PYCK_API_TENANT_ID,
-- each empty where it is not set.
abbrev pub values_of : Options → List Text
values_of opts = opts.temporal_namespace ∷ opts.namespace_flag ∷ opts.expected_tenant_id ∷ []

-- Against the tenant that was resolved there is no outcome where TEMPORAL_NAMESPACE, --namespace and
-- PYCK_API_TENANT_ID are all empty, and one otherwise; it is ok exactly when each of the three is empty
-- or that tenant's id up to the case of letters.
pub cross_check-agrees :
    (t : Tenant) (opts : Options)
    → oks (cross_check t opts) ≡ (
        if all_of is_empty (values_of opts)
        then []
        else all_of (λ value. is_empty value || equal_fold value t.id) (values_of opts) ∷ [])
unfolding cross_check present_inputs
cross_check-agrees t opts =
    cross_results-oks t.id (keep_set inputs)
    ∙ keep_set-at_most_one (all_of (λ (input : Input). equal_fold input.1 t.id) (keep_set inputs))
        inputs
    ∙ ap (λ agree. if all_of (λ (input : Input). is_empty input.1) inputs then [] else agree ∷ [])
        (keep_set-all_of (λ value. equal_fold value t.id) inputs)
  where
    inputs : List Input
    inputs =
        (codes "TEMPORAL_NAMESPACE", opts.temporal_namespace)
        ∷ (codes "--namespace", opts.namespace_flag)
        ∷ (codes "PYCK_API_TENANT_ID", opts.expected_tenant_id)
        ∷ []
