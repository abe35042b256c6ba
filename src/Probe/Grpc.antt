-- ===== src/Probe/Grpc.antt =====
-- The stages grpc and health (internal/probe/grpc.go). The states that a connection is seen in and
-- the answer of the health service are given.
use pyck_debug_worker.Prelude.{
  ℕ, List, [], ◌∷◌, ◌++◌, Option, none, some, Bool, true, false, if◌then◌else◌,
}
use pyck_debug_worker.Prelude.Text.{Text, codes}
use pyck_debug_worker.Probe.{
  Stage, Outcome, Verdict, run_stage, Fault, Code, unimplemented, not_found, code_of, classify,
}

-- `connectivity.State` and its text.
pub data ConnState : Type 0 where
  idle : ConnState
  connecting : ConnState
  ready : ConnState
  transient_failure : ConnState
  shutdown : ConnState

abbrev pub state_text : ConnState → Text
state_text idle = codes "IDLE"
state_text connecting = codes "CONNECTING"
state_text ready = codes "READY"
state_text transient_failure = codes "TRANSIENT_FAILURE"
state_text shutdown = codes "SHUTDOWN"

-- The switch of `waitReady` on a state; `none` goes on to wait for a change.
abbrev pub settled : ConnState → Option Verdict
settled idle = none
settled connecting = none
settled ready = some (true, [])
settled transient_failure = some (false, codes "connection attempt failed (TRANSIENT_FAILURE)")
settled shutdown = some (false, codes "connection shut down")

-- What a connection is seen in: its state when the stage starts, the states that are read in turn
-- until the context ends, and the error that the context ends with.
pub record Watched : Type 0 where
  pub before : ConnState
  pub state : ConnState
  pub later : List ConnState
  pub ended : Fault

-- The answer of the health service: its status's name and whether that is SERVING.
pub data HealthAnswer : Type 0 where
  health_failed : Fault → HealthAnswer
  health_status : Bool → Text → HealthAnswer

abbrev pub health_service : Text
health_service = codes "temporal.api.workflowservice.v1.WorkflowService"

abbrev pub is_ready : ConnState → Bool
is_ready idle = false
is_ready connecting = false
is_ready ready = true
is_ready transient_failure = false
is_ready shutdown = false

module _ (format_date : ℕ → Text) (now : ℕ) where
  -- `waitReady`: each further state is read after a change; when there is none before the context
  -- ends, the state that was read last is told.
  unfoldable pub wait_ready : ConnState → List ConnState → Fault → Verdict
  unfolding classify
  wait_ready state [] ended = elim (settled state) [
    | some verdict ↦ verdict
    | none ↦ (false, state_text state ++ (codes ": " ++ classify format_date now ended))
  ]
  wait_ready state (next ∷ later) ended =
      let rest = wait_ready next later ended in
      elim (settled state) [ some verdict ↦ verdict | none ↦ rest ]

  abbrev pub mode_text : Bool → Text
  mode_text insecure = if insecure then codes "plaintext" else codes "tls"

  -- The end of `connectGRPC`, on a connection that got ready.
  unfoldable pub connected_detail : Bool → Bool → ConnState → Text
  connected_detail insecure fresh before =
      if fresh
      then codes "READY " ++ mode_text insecure
      else if is_ready before
      then codes "READY " ++ (mode_text insecure ++ codes " reused")
      else codes "READY " ++ (mode_text insecure ++ (codes " recovered from " ++ state_text before))

  -- `connectGRPC` on a connection of the cache; the second argument is whether it is fresh.
  unfoldable pub connect_verdict : Bool → Bool → Watched → Verdict
  unfolding wait_ready connected_detail
  connect_verdict insecure fresh seen =
      let (ok, detail) = wait_ready seen.state seen.later seen.ended in
      if ok then (true, connected_detail insecure fresh seen.before) else (false, detail)

  -- `healthVerdict`.
  abbrev pub health_code : Code → Text → Verdict
  health_code unimplemented reason = (true, codes "reachable, health API absent")
  health_code not_found reason =
      (true, codes "reachable, health API does not know " ++ health_service)
  health_code code reason = (false, reason)

  unfoldable pub health_verdict : HealthAnswer → Verdict
  unfolding code_of classify
  health_verdict (health_status serving name) = if serving then (true, name) else (false, name)
  health_verdict (health_failed e) =
      let (code, found) = code_of e in health_code code (classify format_date now e)

  -- `healthStage`.
  unfoldable pub health_stage : HealthAnswer → Outcome
  unfolding run_stage health_verdict
  health_stage answer = run_stage Stage.health (health_verdict answer)
