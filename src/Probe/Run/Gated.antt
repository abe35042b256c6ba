-- ===== src/Probe/Run/Gated.antt =====
-- The stages behind a gRPC connection stand behind their gates (`grpcStages` of internal/probe/grpc.go,
-- `temporalStages` of internal/probe/temporal.go).
use pyck_debug_worker.Prelude.{
  ℕ, List, Bool, true, false, ◌||◌, ◌&&◌, not, if◌then◌else◌, ◌≡◌, refl, sym,
}
use pyck_debug_worker.Prelude.Text.{Text}
use pyck_debug_worker.Target.{Target, is_empty}
use pyck_debug_worker.Probe.{Stage, Outcome, Options, run_stage}
use pyck_debug_worker.Probe.Clients.{Clients, Handle, no_handle, handle}
use pyck_debug_worker.Probe.Grpc.{health_stage}
use pyck_debug_worker.Probe.Run.{
  World, client_stages, temporal_stages, connected_stages, handle_stages, grpc_stages,
  longpoll_stage,
}
use pyck_debug_worker.Probe.Dial.Kept.{told}
use pyck_debug_worker.Probe.Run.Ladder.{Passed, gate, IsGated}

pub both : {a b : Bool} → a ≡ true → b ≡ true → (a && b) ≡ true
both e f = rw (e, f) refl

pub or_true : (a b : Bool) → b ≡ true → (a || b) ≡ true
or_true true b e = refl
or_true false b e = e

pub not-both : (a b : Bool) → (a && not b) ≡ false → (not a || b) ≡ true
not-both true true e = refl
not-both true false e = sym e
not-both false b e = refl

module _ (w : World) (t : Target) (opts : Options) where
  abbrev pub Gated : Passed → List Outcome → Type 0
  Gated p os = IsGated t.kind opts p (told os)

  pub if_Gated :
      (p : Passed) (b : Bool) (x y : List Outcome × Clients)
      → (b ≡ true → Gated p x.0)
      → (b ≡ false → Gated p y.0)
      → Gated p (if b then x else y).0
  if_Gated p true x y holds fails = holds refl
  if_Gated p false x y holds fails = fails refl

  client_stages-Gated :
      (health_ok : Bool) (namespace : Text) (found : Handle) (c : Clients) (p : Passed)
      → p.by_grpc ≡ true
      → (not (is_empty opts.api_key) || opts.insecure) ≡ true
      → Gated p (client_stages w t opts health_ok namespace found c).0
  unfolding run_stage longpoll_stage
  client_stages-Gated health_ok namespace (no_handle e) c p g cred = (both g cred, tt)
  client_stages-Gated health_ok namespace (handle client fresh) c p g cred =
      if_Gated p opts.deep _ _ (λ deep. (both g cred, (both g cred, (both g (both deep cred), tt))))
        (λ shallow. (both g cred, (both g cred, tt)))

  temporal_stages-Gated :
      (health_ok : Bool) (c : Clients) (p : Passed)
      → p.by_grpc ≡ true
      → Gated p (temporal_stages w t opts health_ok c).0
  unfolding temporal_stages
  temporal_stages-Gated health_ok c p g =
      if_Gated p (is_empty opts.api_key && not opts.insecure) _ _ (λ missing. tt)
        (λ there.
          client_stages-Gated health_ok _ _ _ p g
            (not-both (is_empty opts.api_key) opts.insecure there))

  connected_stages-Gated :
      (verdict : Bool × Text) (conn : ℕ) (c : Clients) (p : Passed)
      → gate t.kind opts p Stage.grpc ≡ true
      → Gated p (connected_stages w t opts verdict conn c).0
  unfolding run_stage health_stage
  connected_stages-Gated (ok, text) conn c p g =
      if_Gated p ok _ _
        (λ ready. (
          g,
          (
            or_true p.by_grpc ok ready,
            temporal_stages-Gated _ c (record p { by_grpc = p.by_grpc || ok })
                (or_true p.by_grpc ok ready),
          ),
        ))
        (λ failed. (g, tt))

  handle_stages-Gated :
      (found : Handle) (c : Clients) (p : Passed)
      → gate t.kind opts p Stage.grpc ≡ true
      → Gated p (handle_stages w t opts found c).0
  unfolding run_stage
  handle_stages-Gated (no_handle e) c p g = (g, tt)
  handle_stages-Gated (handle conn fresh) c p g = connected_stages-Gated _ conn c p g

  pub grpc_stages-Gated :
      (c : Clients) (p : Passed)
      → gate t.kind opts p Stage.grpc ≡ true
      → Gated p (grpc_stages w t opts c).0
  unfolding grpc_stages
  grpc_stages-Gated c p g = handle_stages-Gated _ _ p g
