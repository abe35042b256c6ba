-- ===== src/Probe/Run/Ladder.antt =====
-- The ladder of `Run` (internal/probe/probe.go): which stage may stand behind which outcomes.
use pyck_debug_worker.Prelude.{
  List, [], ◌∷◌, ◌++◌, Bool, true, false, ◌||◌, ◌&&◌, not, if◌then◌else◌, ◌≡◌,
}
use pyck_debug_worker.Target.{Kind, grpc, https, is_empty}
use pyck_debug_worker.Probe.{Stage, Options}

-- Which of the stages that gate others were ok so far.
pub record Passed : Type 0 where
  pub by_tcp : Bool
  pub by_tls : Bool
  pub by_grpc : Bool

-- Before the run.
abbrev pub nothing_passed : Passed
nothing_passed = record { by_tcp = false; by_tls = false; by_grpc = false }

abbrev pub pass : Passed → Stage × Bool → Passed
pass p (Stage.dns f, ok) = p
pass p (Stage.tcp f, ok) = record p { by_tcp = p.by_tcp || ok }
pass p (Stage.tls, ok) = record p { by_tls = p.by_tls || ok }
pass p (Stage.cert, ok) = p
pass p (Stage.chain, ok) = p
pass p (Stage.http2, ok) = p
pass p (Stage.redirect, ok) = p
pass p (Stage.auth, ok) = p
pass p (Stage.tenant, ok) = p
pass p (Stage.grpc, ok) = record p { by_grpc = p.by_grpc || ok }
pass p (Stage.health, ok) = p
pass p (Stage.temporal, ok) = p
pass p (Stage.namespace, ok) = p
pass p (Stage.longpoll, ok) = p

abbrev pub pass_all : List (Stage × Bool) → Passed → Passed
pass_all [] p = p
pass_all (o ∷ os) p = pass_all os (pass p o)

abbrev pub is_https : Kind → Bool
is_https grpc = false
is_https https = true

module _ (kind : Kind) (opts : Options) where
  -- What a stage needs of the stages before it, of the target's kind and of the options.
  abbrev pub gate : Passed → Stage → Bool
  gate p (Stage.dns f) = true
  gate p (Stage.tcp f) = true
  gate p Stage.tls = not opts.insecure && p.by_tcp
  gate p Stage.cert = p.by_tls
  gate p Stage.chain = p.by_tls
  gate p Stage.http2 = is_https kind && p.by_tls
  gate p Stage.redirect = is_https kind && p.by_tls
  gate p Stage.auth = is_https kind && (p.by_tls && not (is_empty opts.token))
  gate p Stage.tenant = is_https kind && (p.by_tls && not (is_empty opts.token))
  gate p Stage.grpc = not (is_https kind) && (if opts.insecure then p.by_tcp else p.by_tls)
  gate p Stage.health = p.by_grpc
  gate p Stage.temporal = p.by_grpc && (not (is_empty opts.api_key) || opts.insecure)
  gate p Stage.namespace = p.by_grpc && (not (is_empty opts.api_key) || opts.insecure)
  gate p Stage.longpoll = p.by_grpc && (opts.deep && (not (is_empty opts.api_key) || opts.insecure))

  -- Every outcome stands behind those that its gate asks for.
  abbrev pub IsGated : Passed → List (Stage × Bool) → Type 0
  IsGated p [] = Unit {0}
  IsGated p (o ∷ os) = (gate p o.0 ≡ true) × IsGated (pass p o) os

  pub IsGated-append :
      (os qs : List (Stage × Bool)) (p : Passed)
      → IsGated p os
      → IsGated (pass_all os p) qs
      → IsGated p (os ++ qs)
  IsGated-append [] qs p gated later = later
  IsGated-append (o ∷ os) qs p (g, gated) later = (g, IsGated-append os qs (pass p o) gated later)
