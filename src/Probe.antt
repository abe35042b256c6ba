-- ===== src/Probe.antt =====
-- Package internal/probe: the ladder of stages that one target is probed by (internal/probe/probe.go),
-- and how an error is told (internal/probe/errors.go). A stage's reading of the clock is left out of
-- its outcome. What the network, the TLS and gRPC stacks and the server answer is given as data.
pub mod Dial
pub mod Certs
pub mod Http
pub mod Pyck
pub mod Grpc
pub mod Temporal
pub mod Clients
pub mod Run
pub mod Tests
use pyck_debug_worker.Prelude.{
  ℕ, ◌<◌, List, [], ◌∷◌, ◌++◌, Option, none, some, Bool, true, false, ltb, if◌then◌else◌,
}
use pyck_debug_worker.Prelude.Text.{Text, codes}
use pyck_debug_worker.Target.{Kind}

-- The address families, and the stages in the order of the ladder.
pub data Family : Type 0 where
  ip4 : Family
  ip6 : Family

pub data Stage : Type 0 where
  dns : Family → Stage
  tcp : Family → Stage
  tls : Stage
  cert : Stage
  chain : Stage
  http2 : Stage
  redirect : Stage
  auth : Stage
  tenant : Stage
  grpc : Stage
  health : Stage
  temporal : Stage
  namespace : Stage
  longpoll : Stage

abbrev pub family_text : Family → Text
family_text ip4 = codes "ip4"
family_text ip6 = codes "ip6"

-- The names of the stages.
unfoldable pub stage_text : Stage → Text
stage_text (dns f) = codes "dns(" ++ (family_text f ++ codes ")")
stage_text (tcp f) = codes "tcp(" ++ (family_text f ++ codes ")")
stage_text tls = codes "tls"
stage_text cert = codes "cert"
stage_text chain = codes "chain"
stage_text http2 = codes "http2"
stage_text redirect = codes "redirect"
stage_text auth = codes "auth"
stage_text tenant = codes "tenant"
stage_text grpc = codes "grpc"
stage_text health = codes "health"
stage_text temporal = codes "temporal"
stage_text namespace = codes "namespace"
stage_text longpoll = codes "longpoll"

-- What `stage` makes of a function's two results.
pub record Outcome : Type 0 where
  pub stage : Stage
  pub ok : Bool
  pub detail : Text

abbrev pub Verdict : Type 0
Verdict = Bool × Text

unfoldable pub run_stage : Stage → Verdict → Outcome
run_stage name (ok, detail) = record { stage = name; ok = ok; detail = detail }

-- `Options`, without the roots and the clients; a token is the credential's text, empty for none.
pub record Options : Type 0 where
  pub insecure : Bool
  pub debug_dns : Bool
  pub token : Text
  pub gateway_url : Text
  pub expected_tenant_id : Text
  pub temporal_namespace : Text
  pub api_key : Text
  pub namespace_flag : Text
  pub deep : Bool
  pub task_queue : Text

-- `codes.Code`.
pub data Code : Type 0 where
  ok_code canceled unknown invalid_argument deadline_exceeded not_found already_exists : Code
  permission_denied resource_exhausted failed_precondition aborted out_of_range : Code
  unimplemented internal unavailable data_loss unauthenticated : Code

-- `Code.String`.
unfoldable pub code_text : Code → Text
code_text ok_code = codes "OK"
code_text canceled = codes "Canceled"
code_text unknown = codes "Unknown"
code_text invalid_argument = codes "InvalidArgument"
code_text deadline_exceeded = codes "DeadlineExceeded"
code_text not_found = codes "NotFound"
code_text already_exists = codes "AlreadyExists"
code_text permission_denied = codes "PermissionDenied"
code_text resource_exhausted = codes "ResourceExhausted"
code_text failed_precondition = codes "FailedPrecondition"
code_text aborted = codes "Aborted"
code_text out_of_range = codes "OutOfRange"
code_text unimplemented = codes "Unimplemented"
code_text internal = codes "Internal"
code_text unavailable = codes "Unavailable"
code_text data_loss = codes "DataLoss"
code_text unauthenticated = codes "Unauthenticated"

-- A gRPC status in an error: its code, and the status's own message where `status.FromError` finds
-- it; a Temporal error has none and is told by its whole text.
pub record Status : Type 0 where
  pub code : Code
  pub message : Option Text

-- `x509.CertificateInvalidError`: whether its reason is `Expired`, the bounds of its certificate, and
-- its text.
pub record Invalid : Type 0 where
  pub expired : Bool
  pub bounds : Option (ℕ × ℕ)
  pub text : Text

-- An error by what `errors.Is` and `errors.As` find in it, and its text.
pub record Fault : Type 0 where
  pub is_deadline : Bool
  pub is_refused : Bool
  pub is_timed_out : Bool
  pub is_unreachable : Bool
  pub is_not_found : Bool
  pub status : Option Status
  pub is_unknown_authority : Bool
  pub hostname : Option Text
  pub invalid : Option Invalid
  pub op : Option (Text × Text)
  pub text : Text

abbrev pub or_text : Option Text → Text → Text
or_text none text = text
or_text (some message) text = message

-- `codeOf`; the second result is whether there is one.
unfoldable pub code_of : Fault → Code × Bool
code_of e = elim e.status [ none ↦ (unknown, false) | some s ↦ (s.code, true) ]

-- The switch of `grpcReason` on a code with its message.
unfoldable pub status_reason : Code → Text → Text
unfolding code_text
status_reason unauthenticated message = codes "unauthenticated: bad API key"
status_reason permission_denied message =
    codes "permission denied: not authorised for this namespace (rejected key or wrong scope)"
status_reason resource_exhausted message = codes "resource exhausted: rate-limited but healthy"
status_reason unavailable message = codes "unavailable: " ++ message
status_reason unimplemented message = codes "unimplemented: " ++ message
status_reason not_found message = codes "not found: " ++ message
status_reason deadline_exceeded message =
    codes "deadline exceeded before any status (SYN dropped, firewall)"
status_reason code message = code_text code ++ (codes ": " ++ message)

-- `grpcReason`; `none` is its second result false.
unfoldable pub grpc_reason : Fault → Option Text
unfolding status_reason
grpc_reason e = elim e.status [
  | none ↦ none
  | some s ↦ some (status_reason s.code (or_text s.message e.text))
]

module _ (format_date : ℕ → Text) (now : ℕ) where
  -- `certificateInvalidReason`; `format_date` is `UTC().Format(dateLayout)`.
  unfoldable pub invalid_reason : Invalid → Text
  invalid_reason e =
      if e.expired
      then elim e.bounds [
        | none ↦ e.text
        | some (not_before, not_after) ↦
            if ltb now not_before
            then codes "certificate not yet valid: NotBefore=" ++ format_date not_before
            else if ltb not_after now
            then codes "certificate expired: NotAfter=" ++ format_date not_after
            else e.text
      ]
      else e.text

  -- The part of `classify` behind the gRPC status: the certificate errors and the rest.
  unfoldable pub classify_other : Fault → Text
  unfolding invalid_reason
  classify_other e =
      if e.is_unknown_authority
      then codes "unknown authority: check the CA bundle"
      else elim e.hostname [
        | some text ↦ codes "hostname mismatch: " ++ text
        | none ↦ elim e.invalid [
          | some invalid ↦ invalid_reason invalid
          | none ↦ elim e.op [ some (op, text) ↦ op ++ (codes ": " ++ text) | none ↦ e.text ]
        ]
      ]

  -- `classify` of an error; that of nil is the empty text.
  unfoldable pub classify : Fault → Text
  unfolding grpc_reason classify_other
  classify e =
      if e.is_deadline
      then codes "deadline exceeded before any response (SYN dropped, firewall)"
      else if e.is_refused
      then codes "connection refused"
      else if e.is_timed_out
      then codes "connection timed out"
      else if e.is_unreachable
      then codes "host unreachable"
      else elim (grpc_reason e) [ some reason ↦ reason | none ↦ classify_other e ]

  -- `grpcReasonOr`.
  unfoldable pub grpc_reason_or : Fault → Text
  unfolding grpc_reason classify
  grpc_reason_or e = elim (grpc_reason e) [ some reason ↦ reason | none ↦ classify e ]
