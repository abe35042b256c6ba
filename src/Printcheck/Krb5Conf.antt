-- ===== src/Printcheck/Krb5Conf.antt =====
-- The configuration that `inlineKrb5Conf` renders (internal/printcheck/printcheck.go).
use pyck_debug_worker.Prelude.{
  ℕ, List, [], ◌∷◌, ◌++◌, Option, none, some, Bool, true, false, ◌&&◌, not, All, any_of, ◌==◌,
  if◌then◌else◌, both_iff, arith, ◌≡◌, refl, sym, ap, ◌∙◌,
}
use pyck_debug_worker.Prelude.Text.{Text, codes, join}
use pyck_debug_worker.Strings.{has_byte, any_of-append}
use pyck_debug_worker.Target.{is_empty}
use pyck_debug_worker.Netcheck.Hosts.{split_at}
use pyck_debug_worker.Printcheck.{
  Config, conf_syntax, in_syntax, is_conf_token, kdc_faults, realm_name_fault, other_realm_fault,
  realm_fault, none_given, faults, validate, server_fault, share_fault, principal_fault,
  keytab_fault, kdc_lines, conf_lines, end_lines, inline_krb5_conf, env_kdcs,
}

-- A token has no line end.
no_newline : (s : Text) → any_of (λ c. in_syntax c conf_syntax) s ≡ false → has_byte 10 s ≡ false
no_newline [] h = refl
no_newline (c ∷ s) h = ground (arith, no_newline s)

token_no_newline : (s : Text) → is_conf_token s ≡ true → has_byte 10 s ≡ false
token_no_newline s h =
    no_newline s (not_true (any_of (λ c. in_syntax c conf_syntax) s) ((both_iff _ _).0 h).1)
  where
    not_true : (b : Bool) → not b ≡ true → b ≡ false
    not_true true e = sym e
    not_true false e = refl

split_at-append :
    (c : ℕ) (a b : Text) → has_byte c a ≡ false → split_at c (a ++ c ∷ b) ≡ a ∷ split_at c b
unfolding split_at
split_at-append c [] b h = ground arith
split_at-append c (d ∷ a) b h = ground (arith, split_at-append c a b)

split_at-end_lines :
    (lines : List Text)
    → All (λ line. has_byte 10 line ≡ false) lines
    → split_at 10 (end_lines lines) ≡ lines ++ [] ∷ []
unfolding split_at
split_at-end_lines [] h = refl
split_at-end_lines (line ∷ lines) (h, hs) =
    split_at-append 10 line (end_lines lines) h ∙ ap (λ ls. line ∷ ls) (split_at-end_lines lines hs)

append_nil : {A : Type 0} (xs ys : List A) → xs ++ ys ≡ [] → (xs ≡ []) × (ys ≡ [])
append_nil [] ys e = (refl, e)
append_nil (x ∷ xs) ys e = cc

-- A fault under a condition, where there is none.
if_nil :
    (b : Bool) (xs : List Text) (y : Text) (ys : List Text)
    → (if b then xs else y ∷ ys) ≡ []
    → (b ≡ true) × (xs ≡ [])
if_nil true xs y ys e = (refl, e)
if_nil false xs y ys e = cc

kdc_tokens :
    (quote : Text → Text) (kdcs : List Text)
    → kdc_faults quote kdcs ≡ []
    → All (λ kdc. has_byte 10 kdc ≡ false) kdcs
kdc_tokens quote [] e = tt
kdc_tokens quote (kdc ∷ kdcs) e =
    let (fine, rest) =
      if_nil (is_conf_token kdc) (kdc_faults quote kdcs)
        (env_kdcs ++ (codes " has an invalid entry " ++ quote kdc)) (kdc_faults quote kdcs) e in
    (token_no_newline kdc fine, kdc_tokens quote kdcs rest)

kdc_lines_fine :
    (kdcs : List Text)
    → All (λ kdc. has_byte 10 kdc ≡ false) kdcs
    → All (λ line. has_byte 10 line ≡ false) (kdc_lines kdcs)
kdc_lines_fine [] h = (refl, tt)
kdc_lines_fine (kdc ∷ kdcs) (h, hs) = (h, kdc_lines_fine kdcs hs)

realm_line :
    (realm : Text) → has_byte 10 realm ≡ false → has_byte 10 (realm ++ codes " = {") ≡ false
realm_line realm h = any_of-append (λ d. d == 10) realm (codes " = {") ∙ rw h refl

conf_lines_fine :
    (c : Config)
    → has_byte 10 c.realm ≡ false
    → All (λ kdc. has_byte 10 kdc ≡ false) c.kdcs
    → All (λ line. has_byte 10 line ≡ false) (conf_lines c)
conf_lines_fine c realm kdcs = (
  refl,
  (
    realm,
    (
      refl,
      (
        refl,
        (refl, (refl, (refl, (refl, (realm_line c.realm realm, kdc_lines_fine c.kdcs kdcs))))),
      ),
    ),
  ),
)

-- Behind the three cases of a realm that is not given, or without KDCs.
past_checks :
    (no_realm no_kdcs : Bool) (x y : Text) (rest : List Text)
    → (if no_realm && no_kdcs
        then []
        else if no_realm
        then x ∷ []
        else if no_kdcs
        then y ∷ []
        else rest)
      ≡ []
    → no_realm ≡ false
    → rest ≡ []
past_checks true no_kdcs x y rest e given = cc
past_checks false true x y rest e given = cc
past_checks false false x y rest e given = e

module _ (is_ip : Text → Bool) (open_error : Text → Option Text) (quote : Text → Text)
    (c : Config) where
  valid_faults : validate is_ip open_error quote c ≡ none → faults is_ip open_error quote c ≡ []
  unfolding validate
  valid_faults e = go (faults is_ip open_error quote c) e
    where
      go :
          (l : List Text)
          → (elim l as (λ l. Option Text) [
            | [] ↦ none
            | fault ∷ more ↦ some (codes "print check: " ++ join (codes "; ") (fault ∷ more))
          ])
            ≡ none
          → l ≡ []
      go [] e = refl
      go (x ∷ xs) e = cc

  no_realm_fault : validate is_ip open_error quote c ≡ none → realm_fault quote c ≡ []
  unfolding faults
  no_realm_fault e =
      let (a, b) = append_nil (server_fault is_ip c) _ (valid_faults e) in
      let (d, f) = append_nil (share_fault c) _ b in
      let (g, h) = append_nil (principal_fault c) _ f in
      (append_nil (keytab_fault open_error c) (realm_fault quote c) h).1

  given_realm :
      is_empty c.realm ≡ false
      → realm_fault quote c ≡ []
      → (has_byte 10 c.realm ≡ false) × All (λ kdc. has_byte 10 kdc ≡ false) c.kdcs
  unfolding realm_fault
  given_realm given e =
      let checked = past_checks (is_empty c.realm) (none_given c.kdcs) _ _ _ e given in
      let (name, rest) = append_nil (realm_name_fault quote c) _ checked in
      let (fine, nothing) = if_nil (is_conf_token c.realm) [] _ [] name in
      (
        token_no_newline c.realm fine,
        kdc_tokens quote c.kdcs (append_nil (kdc_faults quote c.kdcs) (other_realm_fault c) rest).0,
      )

  -- In a configuration that `Validate` accepts and that names a realm, the rendered krb5.conf reads back
  -- line by line as the lines it is meant to have: neither the realm nor a KDC adds a line of its own.
  pub inline_krb5_conf-lines :
      validate is_ip open_error quote c ≡ none
      → is_empty c.realm ≡ false
      → split_at 10 (inline_krb5_conf c) ≡ conf_lines c ++ [] ∷ []
  unfolding inline_krb5_conf
  inline_krb5_conf-lines valid given =
      let (realm, kdcs) = given_realm given (no_realm_fault valid) in
      split_at-end_lines (conf_lines c) (conf_lines_fine c realm kdcs)
