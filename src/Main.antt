-- ===== src/Main.antt =====
-- cmd/pyck-debug-worker/main.go: the checks of the command line, the probe set and the credential.
-- The environment and the file system are the functions `getenv` and `read_file`.
pub mod ProbeSet
pub mod Secrets
pub mod Flags
pub mod Slots
pub mod Loop
pub mod Tests
use pyck_debug_worker.Prelude.{
  ℕ, List, [], ◌∷◌, ◌++◌, Option, none, some, Bool, true, false, ◌||◌, leb, ◌==◌, ◌&&◌, contains,
  if◌then◌else◌,
}
use pyck_debug_worker.Prelude.Text.{Text, text_discrete, codes}
use pyck_debug_worker.Strings.{before, trim_left, trim_space}
use pyck_debug_worker.Target.{Target, addr, resolve, Reason, denied, is_empty}

-- `secretFlags`.
abbrev pub secret_flags : List Text
secret_flags = codes "token" ∷ codes "api-key" ∷ []

-- The name of a flag as `rejectSecretArgs` takes it from an argument.
unfoldable pub flag_name : Text → Text
unfolding before trim_left
flag_name arg = before b'=' (trim_left b'-' arg)

-- `rejectSecretArgs`: the flag that is refused, if one is.
unfoldable pub reject_secret_args : List Text → Option Text
unfolding flag_name text_discrete
reject_secret_args [] = none
reject_secret_args (arg ∷ args) =
    let rest = reject_secret_args args in
    if contains text_discrete secret_flags (flag_name arg) then some (flag_name arg) else rest

-- The errors of `resolveTargets`, all of them `errUsage`.
pub data Refused : Type 0 where
  unknown_env : Text → Refused
  nothing_to_probe : Refused
  never_probed : Text → Reason → Refused

pub data Probed {ℓ} (A : Type ℓ) : Type ℓ where
  refused : Refused → Probed A
  probed : A → Probed A

-- `seen` and `targets`.
abbrev pub Collected : Type 0
Collected = List Text × List Target

-- The inner loop of `resolveTargets`.
unfoldable pub collect_new : List Target → Collected → Collected
unfolding text_discrete
collect_new [] st = st
collect_new (t ∷ ts) (seen, targets) =
    if contains text_discrete seen (addr t)
    then collect_new ts (seen, targets)
    else collect_new ts (addr t ∷ seen, targets ++ t ∷ [])

-- The outer loop.
unfoldable pub collect : List Text → Collected → Probed Collected
unfolding resolve collect_new
collect [] st = probed st
collect (env ∷ envs) st = elim (resolve env) [
  | none ↦ refused (unknown_env env)
  | some ts ↦ collect envs (collect_new ts st)
]

-- The loop over the denylist.
unfoldable pub first_denied : List Target → Option Refused
unfolding denied
first_denied [] = none
first_denied (t ∷ ts) = elim (denied t.host []) [
  | some reason ↦ some (never_probed t.host reason)
  | none ↦ first_denied ts
]

-- What follows the two loops.
unfoldable pub checked : List Target → Probed (List Target)
unfolding first_denied
checked [] = refused nothing_to_probe
checked (t ∷ ts) = elim (first_denied (t ∷ ts)) [ some e ↦ refused e | none ↦ probed (t ∷ ts) ]

abbrev pub checked_all : Probed Collected → Probed (List Target)
checked_all (refused e) = refused e
checked_all (probed st) = checked st.1

-- `config.resolveTargets`.
unfoldable pub resolve_targets : Bool → List Text → Probed (List Target)
unfolding collect checked
resolve_targets version envs = if version then probed [] else checked_all (collect envs ([], []))

-- `tokenEnvVars`.
abbrev pub token_env_vars : List Text
token_env_vars = codes "PYCK_API_TOKEN" ∷ codes "PYCK_SERVICE_TOKEN" ∷ codes "PYCK_AUTH" ∷ []

-- `credentials`.
pub record Credentials : Type 0 where
  pub token : Text
  pub source : Text
  pub gateway_url : Text
  pub tenant_id : Text
  pub namespace : Text
  pub api_key : Text

pub data LoadError : Type 0 where
  unreadable : LoadError
  empty_file : LoadError

pub data Loaded : Type 0 where
  load_error : LoadError → Loaded
  loaded : Credentials → Loaded

module _ (getenv : Text → Text) (read_file : Text → Option Text) where
  -- The loop over the variables: the first value that is not empty, and its name.
  unfoldable pub first_token : List Text → Credentials → Credentials
  first_token [] creds = creds
  first_token (name ∷ names) creds =
      if is_empty (getenv name)
      then first_token names creds
      else record creds { token = getenv name; source = name }

  abbrev pub ambient : Credentials
  ambient = record {
    token = [];
    source = [];
    gateway_url = getenv (codes "PYCK_GATEWAY_URL");
    tenant_id = getenv (codes "PYCK_API_TENANT_ID");
    namespace = getenv (codes "TEMPORAL_NAMESPACE");
    api_key = getenv (codes "TEMPORAL_API_KEY");
  }

  unfoldable pub file_token : Option Text → Loaded
  unfolding trim_space
  file_token none = load_error unreadable
  file_token (some raw) =
      if is_empty (trim_space raw)
      then load_error empty_file
      else loaded (record ambient { token = trim_space raw; source = codes "--token-file" })

  -- `config.load`.
  unfoldable pub load : Text → Loaded
  unfolding first_token file_token
  load token_file =
      if is_empty token_file
      then loaded (first_token token_env_vars ambient)
      else file_token (read_file token_file)
