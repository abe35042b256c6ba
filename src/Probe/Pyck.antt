-- ===== src/Probe/Pyck.antt =====
-- The pyck stages: auth and tenant (internal/probe/auth.go, tenant.go). The answer to GetMe, the
-- decoding of a token's segments and the derivation of a UUID are given.
pub mod Agreement
use pyck_debug_worker.Prelude.{
  ℕ, List, [], ◌∷◌, ◌++◌, Option, none, some, Bool, true, false, not, ◌==◌, ◌||◌, if◌then◌else◌,
}
use pyck_debug_worker.Prelude.Text.{Text, codes, print, join}
use pyck_debug_worker.Target.{is_empty}
use pyck_debug_worker.Netcheck.Hosts.{split_at}
use pyck_debug_worker.Probe.{Stage, Outcome, Verdict, run_stage, Options, Fault, classify}
use pyck_debug_worker.Probe.Http.{equal_fold}

-- How a tenant id was arrived at.
pub data Via : Type 0 where
  jwt_claim : Via
  computed : Via
  api : Via

abbrev pub via_text : Via → Text
via_text jwt_claim = codes "jwt-claim"
via_text computed = codes "computed"
via_text api = codes "api"

-- `tenant`.
pub record Tenant : Type 0 where
  pub id : Text
  pub name : Text
  pub via : Via

-- `jwtClaims`.
pub record Claims : Type 0 where
  pub tenant_id : Text
  pub issuer : Text
  pub org_id : Text

abbrev pub org_id_claim : Text
org_id_claim = codes "urn:zitadel:iam:user:resourceowner:id"

-- `tenantDetail`.
unfoldable pub tenant_detail : Tenant → Text
tenant_detail t =
    (if is_empty t.name then t.id else t.id ++ (codes " \"" ++ (t.name ++ codes "\"")))
    ++ (codes " via=" ++ via_text t.via)

-- The inputs that are set, by their names.
abbrev pub Input : Type 0
Input = Text × Text

abbrev pub keep_set : List Input → List Input
keep_set [] = []
keep_set ((name, value) ∷ inputs) =
    if is_empty value then keep_set inputs else (name, value) ∷ keep_set inputs

unfoldable pub present_inputs : Options → List Input
present_inputs opts = keep_set (
    (codes "TEMPORAL_NAMESPACE", opts.temporal_namespace)
    ∷ (codes "--namespace", opts.namespace_flag)
    ∷ (codes "PYCK_API_TENANT_ID", opts.expected_tenant_id)
    ∷ [])

-- The loop of `crossCheck` over the inputs: those that agree, and those that do not.
unfoldable pub compare_inputs : Text → List Input → List Text × List Text
unfolding equal_fold
compare_inputs id [] = ([], [])
compare_inputs id ((name, value) ∷ inputs) =
    let (agree, mismatch) = compare_inputs id inputs in
    if equal_fold value id
    then ((codes "== " ++ name) ∷ agree, mismatch)
    else (agree, (name ++ (codes "=" ++ (value ++ (codes " != resolved " ++ id)))) ∷ mismatch)

abbrev pub none_left : List Text → Bool
none_left [] = true
none_left (s ∷ ss) = false

unfoldable pub cross_verdict : Text → List Input → Verdict
unfolding compare_inputs join
cross_verdict id inputs =
    let (agree, mismatch) = compare_inputs id inputs in
    if none_left mismatch
    then (true, join (codes " ") agree)
    else (false, join (codes "; ") mismatch)

-- `crossCheck`: no result where nothing is set.
unfoldable pub cross_results : Text → List Input → List Outcome
unfolding cross_verdict run_stage
cross_results id [] = []
cross_results id (input ∷ inputs) = run_stage Stage.tenant (cross_verdict id (input ∷ inputs)) ∷ []

unfoldable pub cross_check : Tenant → Options → List Outcome
unfolding present_inputs cross_results
cross_check t opts = cross_results t.id (present_inputs opts)

-- `tenantResults`.
unfoldable pub tenant_results : Tenant → Options → List Outcome
unfolding run_stage tenant_detail cross_check
tenant_results t opts =
    if is_empty t.id
    then run_stage Stage.tenant
        (false, codes "no tenant id in the token: neither pyck_tenant_id nor " ++ org_id_claim)
      ∷ []
    else run_stage Stage.tenant (true, tenant_detail t) ∷ cross_check t opts

-- `tenantFromClaims`; `derive` is `computeTenantUUID` with its printing.
unfoldable pub tenant_from_claims : (Text → Text → Text) → Claims → Tenant
tenant_from_claims derive c =
    if not (is_empty c.tenant_id)
    then record { id = c.tenant_id; name = []; via = jwt_claim }
    else if is_empty c.issuer || is_empty c.org_id
    then record { id = []; name = []; via = computed }
    else record { id = derive c.issuer c.org_id; name = []; via = computed }

-- `decodeJWT`: the first segment decodes to a JSON object, the second to the claims.
module _ (is_object : Text → Bool) (claims_of : Text → Option Claims) where
  abbrev pub decode_parts : List Text → Option Claims
  decode_parts (head ∷ body ∷ signature ∷ []) = if is_object head then claims_of body else none
  decode_parts [] = none
  decode_parts (a ∷ []) = none
  decode_parts (a ∷ b ∷ []) = none
  decode_parts (a ∷ b ∷ c ∷ d ∷ rest) = none

  unfoldable pub decode_jwt : Text → Option Claims
  unfolding split_at
  decode_jwt token = decode_parts (split_at b'.' token)

-- The answer to GetMe: its status, and the first of its errors with its code, if there is one.
pub record GetMe : Type 0 where
  pub status : ℕ
  pub tenant_id : Text
  pub tenant_name : Text
  pub user_id : Text
  pub username : Text
  pub errors : List (Text × Text)

pub data Answered : Type 0 where
  unanswered : Fault → Answered
  answered : GetMe → Answered

-- `authDetail` and `authVerdict`.
unfoldable pub auth_detail : GetMe → Text
unfolding print
auth_detail r =
    codes "GetMe "
    ++ (print r.status
        ++ (codes " user=" ++ (if is_empty r.username then r.user_id else r.username)))

unfoldable pub auth_verdict : GetMe → Verdict
unfolding print auth_detail
auth_verdict r =
    if not (r.status == 200) then (false, codes "GetMe " ++ print r.status) else elim r.errors [
      | [] ↦ (true, auth_detail r)
      | (message, code) ∷ errors ↦ (
        false,
        codes "GetMe "
            ++ (print r.status
                ++ (codes " " ++ ((if is_empty code then [] else code ++ codes ": ") ++ message))),
      )
    ]

module _ (format_date : ℕ → Text) (now : ℕ) where
  unfoldable pub auth_answer : Answered → Verdict
  unfolding classify auth_verdict
  auth_answer (unanswered e) = (false, classify format_date now e)
  auth_answer (answered r) = auth_verdict r

  -- `resolved`, where the stage is ok.
  abbrev pub tenant_of : Answered → Tenant
  tenant_of (unanswered e) = record { id = []; name = []; via = api }
  tenant_of (answered r) = record { id = r.tenant_id; name = r.tenant_name; via = api }

  -- `patStages`.
  unfoldable pub pat_stages : Answered → Options → List Outcome
  unfolding auth_answer run_stage tenant_results
  pat_stages answer opts =
      let auth = run_stage Stage.auth (auth_answer answer) in
      if auth.ok then auth ∷ tenant_results (tenant_of answer) opts else auth ∷ []

  -- `pyckStages`.
  unfoldable pub pyck_stages :
      (Text → Bool)
      → (Text → Option Claims)
      → (Text → Text → Text)
      → Answered
      → Options
      → List Outcome
  unfolding decode_jwt tenant_from_claims tenant_results pat_stages
  pyck_stages is_object claims_of derive answer opts =
      if is_empty opts.token then [] else elim (decode_jwt is_object claims_of opts.token) [
        | some claims ↦ tenant_results (tenant_from_claims derive claims) opts
        | none ↦ pat_stages answer opts
      ]
