-- ===== src/Target/Tests.antt =====
-- Targets on concrete texts (internal/target/target.go).
use pyck_debug_worker.Prelude.{[], ◌∷◌, ◌++◌, none, some, ◌≡◌, refl, arith, ℕ_discrete}
use pyck_debug_worker.Prelude.Text.{codes, print, print_rounds, text_discrete, cut_prefix}
use pyck_debug_worker.Strings.{cut, cut_last, before, to_lower, atoi, read_digits}
use pyck_debug_worker.Target.{
  Target, grpc, https, kind_text, addr, join_host_port, split_host_port, split_plain, after_bracket,
  parse_target, parse_endpoint, parse_kind, parse_port, ok, bad, bad_port, bad_form, empty_host,
  bad_kind, resolve, domain, denied, denied_name, denied_route, contains_text, otlp_write_path,
  nats_websocket, log_follow, may_spawn_sandboxes,
}
use pyck_debug_worker.Target.{endpoint}
use pyck_debug_worker.Target.Denylist.{denied-evasion}
use pyck_debug_worker.Target.Parse.{IsProper, parse_target-IsProper, parse_target-addr}

program : Unit {0}
unfolding print print_rounds text_discrete ℕ_discrete cut_prefix cut cut_last before to_lower atoi
    read_digits addr join_host_port split_host_port split_plain after_bracket parse_target
    parse_endpoint parse_kind parse_port resolve domain denied denied_name denied_route
    contains_text
program = tt

abbrev loopback : Target
loopback = record { host = codes "::1"; port = 7233; kind = grpc }

sample_targets :
    (parse_target (codes "[::1]:7233=grpc") ≡ ok loopback)
    × (parse_target (codes "a:1=ftp") ≡ bad bad_kind)
    × (parse_target (codes "::1:7233") ≡ bad bad_form)
    × (parse_target (codes "a") ≡ bad bad_form)
    × (parse_target (codes ":80") ≡ bad empty_host)
    × (parse_target (codes "a:65536") ≡ bad bad_port)
    × (parse_target (codes "a:+80") ≡ ok (record { host = codes "a"; port = 80; kind = https }))
unfolding program
sample_targets = (refl, refl, refl, refl, refl, refl, refl)

sample_denied :
    (denied (codes "OTEL.dev.pyck.cloud:443") [] ≡ some otlp_write_path)
    × (denied (codes "boxes-nonprod.x") [] ≡ some may_spawn_sandboxes)
    × (denied (codes "dev.pyck.cloud") (codes "/WS?x") ≡ some nats_websocket)
    × (denied (codes "dev.pyck.cloud") (codes "/a/log-follow/b") ≡ some log_follow)
    × (denied (codes "dev.pyck.cloud") (codes "/wsx") ≡ none)
unfolding program
sample_denied = (refl, refl, refl, refl, refl)

loopback-IsProper : IsProper loopback
loopback-IsProper = ((refl, refl, refl, refl), omega arith, omega arith)

parse_target-IsProper_example : IsProper loopback
parse_target-IsProper_example =
    parse_target-IsProper (codes "[::1]:7233=grpc") loopback sample_targets.0

parse_target-addr_example :
    (parse_target (addr loopback ++ b'=' ∷ kind_text grpc) ≡ ok loopback)
    × (parse_target (addr loopback) ≡ ok (record loopback { kind = https }))
parse_target-addr_example = parse_target-addr loopback loopback-IsProper

dev_resolved :
    resolve (codes "dev")
    ≡ some
        (endpoint grpc (codes "wf.dev.pyck.cloud") ∷ endpoint https (codes "dev.pyck.cloud") ∷ [])
unfolding program
dev_resolved = refl

denied-evasion_example :
    (denied (codes "OTEL.x" ++ b':' ∷ codes "443") (codes "/a" ++ b'?' ∷ codes "b")
      ≡ denied (codes "OTEL.x") (codes "/a"))
    × (denied (to_lower (codes "OTEL.x")) (to_lower (codes "/a"))
        ≡ denied (codes "OTEL.x") (codes "/a"))
denied-evasion_example = denied-evasion (codes "OTEL.x") (codes "443") (codes "/a") (codes "b")
