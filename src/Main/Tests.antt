-- ===== src/Main/Tests.antt =====
-- The command line on concrete arguments (cmd/pyck-debug-worker/main.go).
use pyck_debug_worker.Prelude.{
  ℕ, List, [], ◌∷◌, ◌++◌, Option, none, some, true, false, ◌≡◌, ◌≢◌, refl, ite, All, contains,
  is_some, ℕ_discrete, ◌⊎◌,
}
use pyck_debug_worker.Prelude.Distinct.{Distinct}
use pyck_debug_worker.Prelude.Text.{Text, codes, text_discrete, cut_prefix, print, print_rounds}
use pyck_debug_worker.Strings.{before, trim_left, to_lower, trim_space, drop_spaces}
use pyck_debug_worker.Target.{
  Target, grpc, https, endpoint, resolve, domain, addr, join_host_port, denied, denied_name,
  denied_route, contains_text,
}
use pyck_debug_worker.Main.{
  reject_secret_args, secret_flags, flag_name, Credentials, loaded, load, first_token, file_token,
  token_env_vars, refused, probed, Refused, resolve_targets, collect, collect_new, checked,
  first_denied,
}
use pyck_debug_worker.Prelude.{if◌then◌else◌, all_of, not, ◌&&◌, ◌||◌}
use pyck_debug_worker.Prelude.Int
use pyck_debug_worker.Report.{Result, Cycle, cycle_ok}
use pyck_debug_worker.Prelude.{map, ◌<◌, arith}
use pyck_debug_worker.Main.Slots.{completed, probe_targets-order}
use pyck_debug_worker.Main.Loop.{probe_targets, concat, loop, exit_ok, exit_failure, loop-exit}
use pyck_debug_worker.Main.ProbeSet.{AllKnown, addrs, all_endpoints, resolve_targets_exact}
use pyck_debug_worker.Main.Secrets.{NoneSet, FirstSet, reject_secret_args-secret, load-source}

program : Unit {0}
unfolding print print_rounds text_discrete ℕ_discrete cut_prefix before trim_left to_lower
    trim_space drop_spaces resolve domain addr join_host_port denied denied_name denied_route
    contains_text reject_secret_args flag_name load first_token file_token resolve_targets collect
    collect_new checked first_denied
program = tt

abbrev dev_targets : List Target
dev_targets =
    endpoint grpc (codes "wf.dev.pyck.cloud") ∷ endpoint https (codes "dev.pyck.cloud") ∷ []

abbrev envs : List Text
envs = codes "dev" ∷ codes "dev" ∷ []

sample_probe_sets :
    (resolve_targets false envs ≡ probed dev_targets)
    × (resolve_targets false [] ≡ refused Refused.nothing_to_probe)
    × (resolve_targets false (codes "qa" ∷ []) ≡ refused (Refused.unknown_env (codes "qa")))
unfolding program
sample_probe_sets = (refl, refl, refl)

resolve_targets_exact_example :
    AllKnown envs
    × (dev_targets ≢ [])
    × All (λ t. denied t.host [] ≡ none) dev_targets
    × Distinct text_discrete (addrs dev_targets)
    × ((a : Text)
        → contains text_discrete (addrs dev_targets) a
          ≡ contains text_discrete (addrs (all_endpoints envs)) a)
resolve_targets_exact_example = resolve_targets_exact envs dev_targets sample_probe_sets.0

token_flag : contains text_discrete secret_flags (codes "token") ≡ true
unfolding program
token_flag = refl

reject_secret_args-secret_example :
    is_some (
      reject_secret_args (
        codes "--env" ∷ codes "dev" ∷ [] ++ (codes "--token=" ++ codes "x") ∷ codes "--print" ∷ []))
    ≡ true
reject_secret_args-secret_example =
    reject_secret_args-secret (codes "--env" ∷ codes "dev" ∷ []) (codes "--print" ∷ []) 2
      (codes "token") (some (codes "x")) token_flag

-- Only PYCK_AUTH is set, and one file can be read.
abbrev sample_env : Text → Text
sample_env name = ite (text_discrete name (codes "PYCK_AUTH")) (codes "s3") []

abbrev sample_file : Text → Option Text
sample_file name = ite (text_discrete name (codes "t")) (some (codes " s4 ")) none

abbrev from_env : Credentials
from_env = record {
  token = codes "s3";
  source = codes "PYCK_AUTH";
  gateway_url = [];
  tenant_id = [];
  namespace = [];
  api_key = [];
}

load_env : load sample_env sample_file [] ≡ loaded from_env
unfolding program
load_env = refl

load_file :
    load sample_env sample_file (codes "t")
    ≡ loaded (record from_env { token = codes "s4"; source = codes "--token-file" })
unfolding program
load_file = refl

load-source_example :
    NoneSet sample_env sample_file token_env_vars from_env
    ⊎ FirstSet sample_env sample_file token_env_vars from_env
load-source_example = load-source sample_env sample_file [] from_env load_env

abbrev failing_cycle : Cycle
failing_cycle = record {
  n = 1;
  at_time = 70;
  duration = Int.pos 5;
  targets = codes "dev.pyck.cloud:443" ∷ [];
  results =
      record {
        ts = 70;
        target = codes "dev.pyck.cloud:443";
        stage = codes "dns";
        ok = false;
        duration = Int.pos 5;
        detail = [];
      }
      ∷ [];
}

loop-exit_example : (loop 60 dev_targets failing_cycle [] false []).1 ≡ (
    if all_of cycle_ok (failing_cycle ∷ []) && (not false || all_of {A = Result} (λ r. r.ok) [])
    then exit_ok
    else exit_failure)
loop-exit_example = loop-exit 60 dev_targets failing_cycle [] false []

-- The second target is probed before the first.
abbrev run_one : Target → List Result
run_one t = failing_cycle.results

both_completed : (j : ℕ) → j < 2 → completed j (1 ∷ 0 ∷ []) ≡ true
both_completed j h = ground arith

probe_targets-order_example :
    probe_targets run_one dev_targets (1 ∷ 0 ∷ []) ≡ concat (map run_one dev_targets)
probe_targets-order_example = probe_targets-order run_one dev_targets (1 ∷ 0 ∷ []) both_completed
