-- ===== src/Probe/Http/Verdicts.antt =====
-- When the redirect stage is ok (internal/probe/redirect.go).
use pyck_debug_worker.Prelude.{
  ℕ, ◌≤◌, ◌<◌, Option, none, some, Bool, true, false, ◌&&◌, not, ltb, leb, arith, both_iff, not-ltb,
  not-leb, ◌≡◌, refl, sym, ◌↔◌,
}
use pyck_debug_worker.Prelude.Text.{Text, codes}
use pyck_debug_worker.Target.{is_empty}
use pyck_debug_worker.Probe.Http.{Response, redirect_verdict, equal_fold}

module _ (parse_url : Text → Option (Text × Text)) (host : Text) where
  -- What makes a response a redirect to https on the same host.
  abbrev pub IsMoved : Response → Type 0
  IsMoved r =
      (300 ≤ r.status_code)
      × (r.status_code < 400)
      × (is_empty r.location ≡ false)
      × ((scheme : Text) × (name : Text) × (parse_url r.location ≡ some (scheme, name))
          × (equal_fold scheme (codes "https") ≡ true)
          × (equal_fold name host ≡ true))

module _ (format_date : ℕ → Text) (now : ℕ) (parse_url : Text → Option (Text × Text))
    (host : Text) where
  -- `redirect_verdict` as a conjunction of its tests.
  abbrev tests_of : Response → Bool
  tests_of r =
      not (ltb r.status_code 300)
      && (not (leb 400 r.status_code)
          && (not (is_empty r.location) && (elim (parse_url r.location) [
            | none ↦ false
            | some (scheme, name) ↦ equal_fold scheme (codes "https") && equal_fold name host
          ])))

  redirect_verdict-tests :
      (r : Response) → (redirect_verdict format_date now parse_url host r).0 ≡ tests_of r
  unfolding redirect_verdict
  redirect_verdict-tests r = ground arith

  url_iff :
      (o : Option (Text × Text))
      → (elim o as (λ o. Bool) [
        | none ↦ false
        | some (scheme, name) ↦ equal_fold scheme (codes "https") && equal_fold name host
      ]
          ≡ true)
        ↔ ((scheme : Text) × (name : Text) × (o ≡ some (scheme, name))
            × (equal_fold scheme (codes "https") ≡ true)
            × (equal_fold name host ≡ true))
  url_iff none = (λ h. cc, λ (s, n, e, a, b). cc)
  url_iff (some (scheme, name)) = (
    λ h. let (a, b) = (both_iff _ _).0 h in (scheme, name, refl, a, b),
    λ (s, n, e, a, b).
        (both_iff (equal_fold scheme (codes "https")) (equal_fold name host)).1 (cc, cc),
  )

  not_iff : (a : Bool) → (not a ≡ true) ↔ (a ≡ false)
  not_iff true = (λ h. sym h, λ h. sym h)
  not_iff false = (λ h. refl, λ h. refl)

  -- A redirect is ok exactly when its status is one of a redirect and its location parses as an https
  -- address of the same host; everything else, a plaintext answer among it, is not.
  pub redirect_verdict-IsMoved :
      (r : Response)
      → ((redirect_verdict format_date now parse_url host r).0 ≡ true) ↔ IsMoved parse_url host r
  redirect_verdict-IsMoved r = rw (redirect_verdict-tests r) (
    λ h.
        let (a, rest) = (both_iff _ _).0 h in
        let (b, rest') = (both_iff _ _).0 rest in
        let (c, d) = (both_iff _ _).0 rest' in
        (
          (not-ltb _ _).0 a,
          (not-leb _ _).0 b,
          (not_iff _).0 c,
          (url_iff (parse_url r.location)).0 d,
        ),
    λ (a, b, c, d). (both_iff _ _).1 (
      (not-ltb _ _).1 a,
      (both_iff _ _).1 (
        (not-leb _ _).1 b,
        (both_iff _ _).1 ((not_iff _).1 c, (url_iff (parse_url r.location)).1 d),
      ),
    ),
  )
