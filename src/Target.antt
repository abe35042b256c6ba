-- ===== src/Target.antt =====
-- Package internal/target (internal/target/target.go): from an --env name or a --target argument to
-- the endpoints that may be probed, and the denylist. An error is `none` here or names its reason.
pub mod Parse
pub mod Names
pub mod Denylist
pub mod Tests
use pyck_debug_worker.Prelude.{
  ℕ, List, [], ◌∷◌, ◌++◌, Option, none, some, Bool, true, false, ◌||◌, ◌&&◌, ltb, leb, ◌==◌,
  if◌then◌else◌, ite,
}
use pyck_debug_worker.Prelude.Int
use pyck_debug_worker.Prelude.Int.{ℤ}
use pyck_debug_worker.Prelude.Text.{Text, text_discrete, codes, print, cut_prefix, has_prefix}
use pyck_debug_worker.Strings.{has_byte, cut, before, cut_last, to_lower, atoi}

-- `Kind`.
pub data Kind : Type 0 where
  grpc : Kind
  https : Kind

abbrev pub kind_text : Kind → Text
kind_text grpc = codes "grpc"
kind_text https = codes "https"

-- `Target`.
pub record Target : Type 0 where
  pub host : Text
  pub port : ℕ
  pub kind : Kind

-- `net.JoinHostPort`.
unfoldable pub join_host_port : Text → Text → Text
join_host_port host port =
    if has_byte b':' host then codes "[" ++ (host ++ (codes "]:" ++ port)) else host ++ b':' ∷ port

-- `Target.Addr`.
unfoldable pub addr : Target → Text
unfolding join_host_port
addr t = join_host_port t.host (print t.port)

-- `net.SplitHostPort` of a text without a bracket in front: what stands before and after the last
-- colon.
unfoldable pub split_plain : Text → Option (Text × Text)
unfolding cut_last
split_plain s = elim (cut_last b':' s) [
  | none ↦ none
  | some (host, port) ↦
      if has_byte b':' host || (has_byte b'[' s || has_byte b']' s) then none else some (host, port)
]

-- What may follow the closing bracket: a colon, which is the last one.
unfoldable pub after_bracket : Text → Text → Option (Text × Text)
after_bracket host [] = none
after_bracket host (c ∷ port) =
    if (c == b':')
      && (if has_byte b':' port
            || (has_byte b'[' host || (has_byte b'[' port || has_byte b']' port))
          then false
          else true)
    then some (host, port)
    else none

-- `net.SplitHostPort`.
unfoldable pub split_host_port : Text → Option (Text × Text)
unfolding split_plain after_bracket cut
split_host_port [] = none
split_host_port (c ∷ s) =
    if c == b'['
    then elim (cut b']' s) [ none ↦ none | some (host, after) ↦ after_bracket host after ]
    else split_plain (c ∷ s)

-- The errors that `ParseTarget` tells apart, all of them `ErrBadTarget`.
pub data BadTarget : Type 0 where
  bad_kind : BadTarget
  bad_form : BadTarget
  empty_host : BadTarget
  bad_port : BadTarget

pub data Parsed : Type 0 where
  bad : BadTarget → Parsed
  ok : Target → Parsed

-- The switch on the text behind the first "=".
unfoldable pub parse_kind : Text → Option Kind
unfolding text_discrete
parse_kind s =
    ite (text_discrete s (kind_text grpc)) (some grpc)
      (ite (text_discrete s (kind_text https)) (some https) none)

abbrev pub port_in_range : ℤ → Option ℕ
port_in_range (Int.pos n) = if ltb n 1 || ltb 65535 n then none else some n
port_in_range (Int.negsuc n) = none

unfoldable pub parse_port : Text → Option ℕ
unfolding atoi
parse_port s = elim (atoi s) [ none ↦ none | some n ↦ port_in_range n ]

abbrev pub is_empty : Text → Bool
is_empty [] = true
is_empty (c ∷ s) = false

-- The part of `ParseTarget` below the kind.
unfoldable pub parse_endpoint : Text → Kind → Parsed
unfolding split_host_port parse_port
parse_endpoint s kind = elim (split_host_port s) [
  | none ↦ bad bad_form
  | some (host, port_text) ↦ if is_empty host then bad empty_host else elim (parse_port port_text) [
    | none ↦ bad bad_port
    | some port ↦ ok (record { host = host; port = port; kind = kind })
  ]
]

-- `ParseTarget`.
unfoldable pub parse_target : Text → Parsed
unfolding cut parse_kind parse_endpoint
parse_target s = elim (cut b'=' s) [
  | none ↦ parse_endpoint s https
  | some (host_port, kind_text) ↦ elim (parse_kind kind_text) [
    | none ↦ bad bad_kind
    | some kind ↦ parse_endpoint host_port kind
  ]
]

-- `domains`.
unfoldable pub domain : Text → Option Text
unfolding text_discrete
domain env = ite (text_discrete env (codes "local")) (some (codes "local-test.pyck.cloud")) (
    ite (text_discrete env (codes "dev")) (some (codes "dev.pyck.cloud")) (
      ite (text_discrete env (codes "test")) (some (codes "test.pyck.cloud")) (
        ite (text_discrete env (codes "demo")) (some (codes "demo.pyck.cloud"))
          (ite (text_discrete env (codes "prod")) (some (codes "eu.pyck.cloud")) none))))

abbrev pub endpoint : Kind → Text → Target
endpoint kind host = record { host = host; port = 443; kind = kind }

abbrev pub feature_suffix : Text
feature_suffix = codes ".feature.pyck.cloud"

abbrev pub feature_targets : Text → Option (List Target)
feature_targets [] = none
feature_targets (c ∷ branch) = some (
    endpoint grpc (codes "wf-" ++ ((c ∷ branch) ++ feature_suffix))
    ∷ endpoint https ((c ∷ branch) ++ feature_suffix)
    ∷ [])

abbrev pub fixed_targets : Option Text → Option (List Target)
fixed_targets none = none
fixed_targets (some d) = some (endpoint grpc (codes "wf." ++ d) ∷ endpoint https d ∷ [])

-- `Resolve` behind `CutPrefix`; `none` is `ErrUnknownEnv`.
abbrev pub resolve_cut : Option Text → Option Text → Option (List Target)
resolve_cut (some branch) found = feature_targets branch
resolve_cut none found = fixed_targets found

unfoldable pub resolve : Text → Option (List Target)
unfolding domain cut_prefix
resolve env = resolve_cut (cut_prefix (codes "feature/") env) (domain env)

-- The cases of `Denied`, with the reason of each.
pub data Reason : Type 0 where
  otlp_write_path : Reason
  billable_egress : Reason
  may_spawn_sandboxes : Reason
  nats_websocket : Reason
  log_follow : Reason

-- `strings.Contains`.
unfoldable pub contains_text : Text → Text → Bool
unfolding cut_prefix
contains_text [] part = is_empty part
contains_text (c ∷ s) part = has_prefix part (c ∷ s) || contains_text s part

unfoldable pub denied_name : Text → Option Reason
unfolding cut_prefix
denied_name name =
    if has_prefix (codes "otel.") name || has_prefix (codes "otel-grpc.") name
    then some otlp_write_path
    else if has_prefix (codes "storage.") name || has_prefix (codes "remote-ui-") name
    then some billable_egress
    else if has_prefix (codes "boxes-nonprod.") name
    then some may_spawn_sandboxes
    else none

unfoldable pub denied_route : Text → Option Reason
unfolding cut_prefix text_discrete contains_text
denied_route route =
    if ite (text_discrete route (codes "/ws")) true false || has_prefix (codes "/ws/") route
    then some nats_websocket
    else if contains_text route (codes "log-follow")
    then some log_follow
    else none

-- The second switch is only reached where the first has no case.
abbrev pub or_route : Option Reason → Option Reason → Option Reason
or_route (some r) route = some r
or_route none route = route

-- `Denied`; `none` is `false`.
unfoldable pub denied : Text → Text → Option Reason
unfolding denied_name denied_route before to_lower
denied host path =
    or_route (denied_name (before b':' (to_lower host)))
      (denied_route (before b'?' (to_lower path)))
