-- ===== src/Probe/Run/Climb.antt =====
-- The whole of `Run` (internal/probe/probe.go) as a climb of the ladder.
use pyck_debug_worker.Prelude.{
  ℕ, suc, List, [], ◌∷◌, ◌++◌, Option, none, some, Bool, true, false, ◌||◌, not, if◌then◌else◌,
  arith, ◌≡◌, refl, sym, ap, subst, Option-cases, inl, inr, is_some,
}
use pyck_debug_worker.Prelude.Text.{Text}
use pyck_debug_worker.Target.{Kind, grpc, https, Target, is_empty}
use pyck_debug_worker.Netcheck.Types.{Addr}
use pyck_debug_worker.Probe.{Family, Stage, Outcome, Options, run_stage}
use pyck_debug_worker.Probe.Dial.{Resolved, RawAddr, Lookup, dns_stage, tcp_stage}
use pyck_debug_worker.Probe.Certs.{Handshake, Shaken, broken, shaken, tls_stage}
use pyck_debug_worker.Probe.Clients.{Clients}
use pyck_debug_worker.Probe.Run.{World}
use pyck_debug_worker.Probe.Dial.Kept.{
  told, told-append, first_of, connected, all_addrs, dialed, number_if, tcp_stage-kept,
}
use pyck_debug_worker.Probe.Certs.{cert_stage, chain_stage}
use pyck_debug_worker.Probe.Http.{http2_stage, redirect_stage}
use pyck_debug_worker.Probe.Pyck.{
  Answered, Claims, Tenant, pyck_stages, tenant_results, cross_check, cross_results, pat_stages,
  auth_answer, present_inputs, decode_jwt, tenant_from_claims,
}
use pyck_debug_worker.Probe.Run.{protocol_stages, shaken_stages, dialed_stages, run}
use pyck_debug_worker.Probe.Run.Ladder.{
  Passed, nothing_passed, pass_all, gate, is_https, IsGated, IsGated-append,
}
use pyck_debug_worker.Probe.Run.Gated.{both, or_true, Gated, if_Gated, grpc_stages-Gated}

module _ (t : Target) (opts : Options) where
  abbrev Climbs : Passed → List Outcome → Type 0
  Climbs p os = IsGated t.kind opts p (told os)

  if_Climbs :
      (p : Passed) (b : Bool) (x y : List Outcome)
      → (b ≡ true → Climbs p x)
      → (b ≡ false → Climbs p y)
      → Climbs p (if b then x else y)
  if_Climbs p true x y holds fails = holds refl
  if_Climbs p false x y holds fails = fails refl

  cross_results-Climbs :
      (id : Text) (inputs : List (Text × Text)) (p : Passed)
      → gate t.kind opts p Stage.tenant ≡ true
      → Climbs p (cross_results id inputs)
  unfolding cross_results run_stage
  cross_results-Climbs id [] p g = tt
  cross_results-Climbs id (input ∷ inputs) p g = (g, tt)

  tenant_results-Climbs :
      (tenant : Tenant) (p : Passed)
      → gate t.kind opts p Stage.tenant ≡ true
      → Climbs p (tenant_results tenant opts)
  unfolding tenant_results run_stage cross_check
  tenant_results-Climbs tenant p g =
      if_Climbs p (is_empty tenant.id) _ _ (λ missing. (g, tt))
        (λ there. (g, cross_results-Climbs tenant.id (present_inputs opts) p g))

  pat_stages-Climbs :
      (format_date : ℕ → Text) (now : ℕ) (answer : Answered) (p : Passed)
      → gate t.kind opts p Stage.tenant ≡ true
      → Climbs p (pat_stages format_date now answer opts)
  unfolding pat_stages run_stage
  pat_stages-Climbs format_date now answer p g =
      if_Climbs p (auth_answer format_date now answer).0 _ _
        (λ fine. (g, tenant_results-Climbs _ p g)) (λ failed. (g, tt))

  pyck_stages-Climbs :
      (format_date : ℕ → Text) (now : ℕ) (is_object : Text → Bool)
      (claims_of : Text → Option Claims) (derive : Text → Text → Text) (answer : Answered)
      (p : Passed)
      → is_https t.kind ≡ true
      → p.by_tls ≡ true
      → Climbs p (pyck_stages format_date now is_object claims_of derive answer opts)
  unfolding pyck_stages
  pyck_stages-Climbs format_date now is_object claims_of derive answer p web tls =
      if_Climbs p (is_empty opts.token) _ _ (λ missing. tt)
        (λ there.
          go (decode_jwt is_object claims_of opts.token) (both web (both tls (ap not there))))
    where
      go :
          (claims : Option Claims)
          → gate t.kind opts p Stage.tenant ≡ true
          → Climbs p (elim claims [
            | some c ↦ tenant_results (tenant_from_claims derive c) opts
            | none ↦ pat_stages format_date now answer opts
          ])
      go (some c) g = tenant_results-Climbs (tenant_from_claims derive c) p g
      go none g = pat_stages-Climbs format_date now answer p g

module _ (w : World) (t : Target) (opts : Options) where
  kind-Gated :
      (p : Passed) (kind : Kind) (x y : List Outcome × Clients)
      → (kind ≡ https → Gated w t opts p x.0)
      → (kind ≡ grpc → Gated w t opts p y.0)
      → Gated w t opts p (elim kind as (λ k. List Outcome × Clients) [ https ↦ x | grpc ↦ y ]).0
  kind-Gated p https x y web rpc = web refl
  kind-Gated p grpc x y web rpc = rpc refl

  protocol_stages-Gated :
      (c : Clients) (p : Passed)
      → opts.insecure ≡ false
      → p.by_tls ≡ true
      → Gated w t opts p (protocol_stages w t opts c).0
  unfolding protocol_stages http2_stage redirect_stage run_stage
  protocol_stages-Gated c p secure tls =
      kind-Gated p t.kind _ _
        (λ e. (
          both (ap is_https e) tls,
          (
            both (ap is_https e) tls,
            pyck_stages-Climbs t opts w.format_date w.now w.is_object w.claims_of w.derive w.get_me
                p (ap is_https e) tls,
          ),
        ))
        (λ e. grpc_stages-Gated w t opts c p (rw (e, secure, tls) refl))

  shaken_stages-Gated :
      (state : Handshake) (c : Clients) (p : Passed)
      → opts.insecure ≡ false
      → p.by_tls ≡ true
      → Gated w t opts p (shaken_stages w t opts (some state) c).0
  unfolding cert_stage chain_stage run_stage
  shaken_stages-Gated state c p secure tls = (tls, (tls, protocol_stages-Gated c p secure tls))

  tls_stage-Gated :
      (answer : Shaken) (c : Clients) (p : Passed)
      → opts.insecure ≡ false
      → p.by_tcp ≡ true
      → (let (state, tls) = tls_stage w.format_date w.now answer in
          Gated w t opts p (tls ∷ (shaken_stages w t opts state c).0))
  unfolding tls_stage run_stage
  tls_stage-Gated (broken e) c p secure tcp = (rw (secure, tcp) refl, tt)
  tls_stage-Gated (shaken s) c p secure tcp = (
    rw (secure, tcp) refl,
    shaken_stages-Gated s c (record p { by_tls = p.by_tls || true }) secure
        (or_true p.by_tls true refl),
  )

  dialed_stages-Gated :
      (kept : Option ℕ) (c : Clients) (p : Passed)
      → (is_some kept ≡ true → p.by_tcp ≡ true)
      → Gated w t opts p (dialed_stages w t opts kept c).0
  dialed_stages-Gated none c p tcp = tt
  dialed_stages-Gated (some conn) c p tcp =
      if_Gated w t opts p opts.insecure _ _
        (λ plain.
          kind-Gated p t.kind _ _ (λ e. tt)
            (λ e. grpc_stages-Gated w t opts c p (rw (e, plain) (tcp refl))))
        (λ secure. tls_stage-Gated w.handshake c p secure (tcp refl))

  -- The dials pass once one of them connects.
  dialed-IsGated :
      (addrs : List (Family × Addr)) (n : ℕ) (p : Passed)
      → IsGated t.kind opts p (dialed w.format_date w.now opts w.dial t.port n addrs)
  dialed-IsGated [] n p = tt
  dialed-IsGated ((family, a) ∷ addrs) n p = (refl, dialed-IsGated addrs (suc n) _)

  dialed_passed :
      (addrs : List (Family × Addr)) (n : ℕ) (p : Passed)
      → p.by_tcp ≡ true
      → (pass_all (dialed w.format_date w.now opts w.dial t.port n addrs) p).by_tcp ≡ true
  dialed_passed [] n p tcp = tcp
  dialed_passed ((family, a) ∷ addrs) n p tcp = dialed_passed addrs (suc n) _ (rw tcp refl)

  connected_passed :
      (addrs : List (Family × Addr)) (n : ℕ) (p : Passed)
      → is_some (first_of (connected w.format_date w.now opts w.dial t.port n addrs)) ≡ true
      → (pass_all (dialed w.format_date w.now opts w.dial t.port n addrs) p).by_tcp ≡ true
  connected_passed [] n p no_one = grind arith
  connected_passed ((family, a) ∷ addrs) n p some_one = elim (Option-cases (w.dial n a)) [
    | inl e ↦ dialed_passed addrs (suc n) _ (rw e (or_true p.by_tcp true refl))
    | inr (f, e) ↦ connected_passed addrs (suc n) _ (
        subst
          (λ d.
            is_some (
              first_of (
                number_if w.format_date w.now opts w.dial t.port d n
                ++ connected w.format_date w.now opts w.dial t.port (suc n) addrs))
            ≡ true)
          e some_one)
  ]

  dns_stage-Gated :
      (literal : Option RawAddr) (l4 l6 : Lookup) (p : Passed)
      → (let (addrs, dns) = dns_stage w.format_date w.now opts literal l4 l6 in
          Gated w t opts p dns × (pass_all (told dns) p ≡ p))
  unfolding dns_stage run_stage
  dns_stage-Gated none l4 l6 p = ((refl, (refl, tt)), refl)
  dns_stage-Gated (some a) l4 l6 p = (tt, refl)

  tcp_stage-Gated :
      (rs : List Resolved) (p : Passed)
      → (let (kept, closed, tcp) = tcp_stage w.format_date w.now opts w.dial t.port rs in
          Gated w t opts p tcp × (is_some kept ≡ true → (pass_all (told tcp) p).by_tcp ≡ true))
  tcp_stage-Gated rs p =
      let (kept, closed, same) = tcp_stage-kept w.format_date w.now opts w.dial t.port rs in
      (
        subst (IsGated t.kind opts p) (sym same)
            (dialed-IsGated (all_addrs w.format_date w.now opts w.dial t.port rs) 0 p),
        λ some_one. rw same (
            connected_passed (all_addrs w.format_date w.now opts w.dial t.port rs) 0 p
              (subst (λ k. is_some k ≡ true) kept some_one)),
      )

  Gated-append :
      (xs ys : List Outcome) (p : Passed)
      → Gated w t opts p xs
      → Gated w t opts (pass_all (told xs) p) ys
      → Gated w t opts p (xs ++ ys)
  Gated-append xs ys p gated later =
      rw (told-append xs ys) (IsGated-append t.kind opts (told xs) (told ys) p gated later)

  -- Whatever the network and the servers answer, and whatever the cache holds, each outcome of a run
  -- stands behind an ok outcome of every stage it needs: a handshake is only judged on a connection, the
  -- certificates, HTTP and pyck stages only behind a handshake, health and the Temporal stages only on
  -- a ready gRPC connection; and it belongs to the target's kind and to the credentials given.
  pub run-IsGated : (c : Clients) → IsGated t.kind opts nothing_passed (told (run w t opts c).0)
  unfolding run
  run-IsGated c =
      let (addrs, dns) = dns_stage w.format_date w.now opts w.literal w.lookup4 w.lookup6 in
      let (kept, closed, tcp) = tcp_stage w.format_date w.now opts w.dial t.port addrs in
      let (gated, same) = dns_stage-Gated w.literal w.lookup4 w.lookup6 nothing_passed in
      let (dials, passed) = tcp_stage-Gated addrs (pass_all (told dns) nothing_passed) in
      Gated-append dns _ nothing_passed gated
        (Gated-append tcp _ _ dials (dialed_stages-Gated kept c _ passed))
