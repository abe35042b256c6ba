-- ===== src/Probe/Certs/Validity.antt =====
-- When the certificate stages are ok (internal/probe/cert.go, chain.go).
use pyck_debug_worker.Prelude.{
  ℕ, ◌≤◌, List, ◌∷◌, ◌++◌, Option, none, some, Bool, true, false, not, ◌&&◌, ltb, arith, both_iff,
  not-ltb, if◌then◌else◌, ◌≡◌, refl, ◌↔◌,
}
use pyck_debug_worker.Prelude.Text.{Text}
use pyck_debug_worker.Probe.{Verdict, run_stage, Fault}
use pyck_debug_worker.Probe.Certs.{
  Certificate, Handshake, Verified, not_verified, chain_of, validity_faults, fault_text, no_faults,
  cert_verdict, cert_stage, chain_verdict, chain_stage, chain_faults,
}

module _ (format_date : ℕ → Text) (now : ℕ) where
  abbrev is_none : Option Fault → Bool
  is_none none = true
  is_none (some e) = false

  no_fault :
      (e : Option Fault) → no_faults format_date now (fault_text format_date now e) ≡ is_none e
  unfolding fault_text
  no_fault none = refl
  no_fault (some e) = refl

  is_none_iff : (e : Option Fault) → (is_none e ≡ true) ↔ (e ≡ none)
  is_none_iff none = (λ h. refl, λ h. refl)
  is_none_iff (some e) = (λ h. cc, λ h. cc)

  no_faults-validity :
      (leaf : Certificate) (rest : List Text)
      → no_faults format_date now (validity_faults format_date now leaf ++ rest) ≡ (
          not (ltb now leaf.not_before)
          && (not (ltb leaf.not_after now) && no_faults format_date now rest))
  unfolding validity_faults
  no_faults-validity leaf rest = ground arith

  validity_cases :
      (leaf : Certificate) (e : Option Fault)
      → (no_faults format_date now
            (validity_faults format_date now leaf ++ fault_text format_date now e)
          ≡ true)
        ↔ ((leaf.not_before ≤ now) × (now ≤ leaf.not_after) × (e ≡ none))
  validity_cases leaf e =
      rw (no_faults-validity leaf (fault_text format_date now e), no_fault e)
        (
          λ h.
              let (a, b) = (both_iff _ _).0 h in
              let (c, d) = (both_iff _ _).0 b in
              ((not-ltb _ _).0 a, (not-ltb _ _).0 c, (is_none_iff e).0 d),
          λ h.
              (both_iff _ _).1 (
                (not-ltb _ _).1 h.0,
                (both_iff _ _).1 ((not-ltb _ _).1 h.1, (is_none_iff e).1 h.2),
              ),
        )

  no_faults-chain :
      (v : Verified) (e : Option Fault)
      → (no_faults format_date now (chain_faults format_date now v ++ fault_text format_date now e)
          ≡ true)
        ↔ (((path : List Certificate) × (v ≡ chain_of path)) × (e ≡ none))
  unfolding chain_faults fault_text
  no_faults-chain (not_verified f) e = (λ h. cc, λ h. cc)
  no_faults-chain (chain_of path) none = (λ h. ((path, refl), refl), λ h. refl)
  no_faults-chain (chain_of path) (some f) = (λ h. cc, λ h. cc)

  if_ok :
      (b : Bool) (x y : Text) → (let v : Verdict = if b then (true, x) else (false, y) in v.0) ≡ b
  if_ok true x y = refl
  if_ok false x y = refl

  module _ (verify_hostname : Certificate → Option Fault) where
    cert_verdict_ok :
        (leaf : Certificate) (certs : List Certificate)
        → (cert_verdict format_date now verify_hostname (leaf ∷ certs)).0
          ≡ no_faults format_date now (
              validity_faults format_date now leaf
              ++ fault_text format_date now (verify_hostname leaf))
    unfolding cert_verdict
    cert_verdict_ok leaf certs = if_ok _ _ _

    chain_verdict_ok :
        (verify : List Certificate → Verified) (state : Handshake) (leaf : Certificate)
        (certs : List Certificate)
        → state.peers ≡ leaf ∷ certs
        → (chain_verdict format_date now verify_hostname verify state).0
          ≡ no_faults format_date now (
              chain_faults format_date now (verify (leaf ∷ certs))
              ++ fault_text format_date now (verify_hostname leaf))
    unfolding chain_verdict
    chain_verdict_ok verify state leaf certs shown = rw shown (if_ok _ _ _)

    -- On a handshake with a certificate, the cert stage is ok exactly when the leaf is valid now, its
    -- bounds included, and is for the host; the chain stage exactly when a path to a root is found and
    -- the leaf is for the host.
    pub cert_and_chain_ok :
        (verify : List Certificate → Verified) (state : Handshake) (leaf : Certificate)
        (certs : List Certificate)
        → state.peers ≡ leaf ∷ certs
        → (((cert_stage format_date now verify_hostname state).ok ≡ true)
            ↔ ((leaf.not_before ≤ now) × (now ≤ leaf.not_after) × (verify_hostname leaf ≡ none)))
          × (((chain_stage format_date now verify_hostname verify state).ok ≡ true) ↔ (
              ((path : List Certificate) × (verify (leaf ∷ certs) ≡ chain_of path))
              × (verify_hostname leaf ≡ none)))
    unfolding cert_stage chain_stage run_stage
    cert_and_chain_ok verify state leaf certs shown = (
      rw (shown, cert_verdict_ok leaf certs) (validity_cases leaf (verify_hostname leaf)),
      rw (chain_verdict_ok verify state leaf certs shown)
          (no_faults-chain (verify (leaf ∷ certs)) (verify_hostname leaf)),
    )
