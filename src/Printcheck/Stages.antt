-- ===== src/Printcheck/Stages.antt =====
-- The ladder of the print check (internal/printcheck/printcheck.go) and how an error is told
-- (errors.go). The Kerberos and SMB sessions are given by what they answer.
use pyck_debug_worker.Prelude.{
  ℕ, List, [], ◌∷◌, ◌++◌, Option, none, some, Bool, true, false, ◌||◌, ◌&&◌, length, contains,
  if◌then◌else◌,
}
use pyck_debug_worker.Prelude.Text.{Text, text_discrete, codes, print, join}
use pyck_debug_worker.Target.{is_empty, contains_text}
use pyck_debug_worker.Printcheck.{
  env_principal, env_kdcs, Config, or_default, user, principal_realm, spn, address,
}

-- A `verdict` of the taxonomy (errors.go); the dashes of the meanings are three bytes each.
pub record Meaning : Type 0 where
  pub signal : Text
  pub and_signal : Text
  pub meaning : Text

abbrev pub dash : Text
dash = b' ' ∷ 0xe2 ∷ 0x80 ∷ 0x94 ∷ b' ' ∷ []

abbrev pub when : Text → Text → Meaning
when signal meaning = record { signal = signal; and_signal = []; meaning = meaning }

abbrev pub taxonomy : List Meaning
taxonomy =
    when (codes "failed to communicate with KDC") (
      codes "no KDC reachable"
      ++ (dash ++ codes "check DNS and the firewall path to the domain controller"))
    ∷ when (codes "KDC_ERR_PREAUTH_FAILED") (
        codes "wrong or stale keytab"
        ++ (dash ++ codes "if the key rotated, restart the unit rather than debugging it"))
    ∷ when (codes "KDC_ERR_C_PRINCIPAL_UNKNOWN")
        (codes "the account is missing or disabled in the directory")
    ∷ when (codes "KDC_ERR_S_PRINCIPAL_UNKNOWN") (
        codes "the SPN is unknown"
        ++ (dash ++ codes "wrong FQDN, or the print server is not domain-joined"))
    ∷ when (codes "KRB_AP_ERR_SKEW")
        (codes "clock skew over 300s" ++ (dash ++ codes "check chronyc tracking"))
    ∷ when (codes "KDC_ERR_ETYPE_NOSUPP") (
        codes "the account has no AES keys (RC4-only)"
        ++ (dash ++ codes "set msDS-SupportedEncryptionTypes to 24"))
    ∷ when (codes "did not respond appropriately to FAST")
        (codes "Active Directory FAST quirk" ++ (dash ++ codes "DisablePAFXFAST is not in effect"))
    ∷ record {
      signal = codes "lookup ";
      and_signal = codes "i/o timeout";
      meaning =
          codes "a hostname did not resolve"
          ++ (dash ++ codes "check this host's DNS and its search domains");
    }
    ∷ when (codes "no such host") (
        codes "a hostname does not exist in DNS"
        ++ (dash ++ codes "check the name and this host's search domains"))
    ∷ when (codes "STATUS_LOGON_FAILURE") (
        codes "the ticket was valid but the server rejected the session"
        ++ (dash ++ codes "account not permitted, or SMB policy"))
    ∷ when (codes "STATUS_ACCESS_DENIED")
        (codes "authenticated, but this account may not use that printer")
    ∷ when (codes "STATUS_BAD_NETWORK_NAME") (codes "the share does not exist under that name")
    ∷ []

-- `match`, and `classify` of an error by its text.
abbrev pub matches : Meaning → Text → Bool
matches entry text =
    contains_text text entry.signal
    && (is_empty entry.and_signal || contains_text text entry.and_signal)

unfoldable pub match_first : List Meaning → Text → Option Text
unfolding contains_text
match_first [] text = none
match_first (entry ∷ entries) text =
    let rest = match_first entries text in if matches entry text then some entry.meaning else rest

unfoldable pub classify : Text → Text
unfolding match_first
classify text = elim (match_first taxonomy text) [
  | none ↦ text
  | some meaning ↦ meaning ++ (codes " (" ++ (text ++ codes ")"))
]

-- The stages, and their results without the readings of the clock.
pub data Stage : Type 0 where
  krb5 spn_stage smb share_stage fax zpl submit : Stage

pub record Outcome : Type 0 where
  pub stage : Stage
  pub ok : Bool
  pub detail : Text

abbrev pub Verdict : Type 0
Verdict = Bool × Text

unfoldable pub run_stage : Stage → Verdict → Outcome
run_stage name (ok, detail) = record { stage = name; ok = ok; detail = detail }

-- `loginStage`: the number of the keytab's entries or its error, the settings' default realm or their
-- error, and the error of the login to a realm.
pub data Loaded {ℓ} (A : Type ℓ) : Type ℓ where
  not_loaded : Text → Loaded A
  loaded : A → Loaded A

abbrev pub conf_source : Config → Text
conf_source c = if is_empty c.realm then c.krb5_conf else env_kdcs ++ b'=' ∷ join (codes ",") c.kdcs

abbrev pub logged_in : Config → Text → ℕ → Option Text → Verdict
logged_in c realm entries (some e) = (false, classify e)
logged_in c realm entries none = (
  true,
  user c
      ++ (b'@' ∷ realm
          ++ (codes " logged in via "
              ++ (conf_source c ++ (codes ", " ++ (print entries ++ codes " keytab entries"))))),
)

abbrev pub log_in : Config → (Text → Option Text) → ℕ → Text → Verdict
log_in c login entries default_realm =
    let realm = or_default (principal_realm c) default_realm in
    if is_empty realm
    then (
      false,
      codes "no realm: "
          ++ (env_principal
              ++ (codes " carries no @REALM and "
                  ++ (c.krb5_conf ++ codes " sets no default_realm"))),
    )
    else logged_in c realm entries (login realm)

abbrev pub with_settings : Config → (Text → Option Text) → ℕ → Loaded Text → Verdict
with_settings c login entries (not_loaded e) = (false, conf_source c ++ (codes ": " ++ classify e))
with_settings c login entries (loaded default_realm) = log_in c login entries default_realm

unfoldable pub login_verdict : Config → Loaded ℕ → Loaded Text → (Text → Option Text) → Verdict
unfolding classify principal_realm user print join
login_verdict c (not_loaded e) settings login =
    (false, codes "keytab " ++ (c.keytab ++ (codes ": " ++ classify e)))
login_verdict c (loaded entries) settings login = with_settings c login entries settings

-- `ticketStage`: the name, the realm and the encryption type of the ticket.
unfoldable pub ticket_verdict : Config → Loaded (Text × Text × ℕ) → Verdict
unfolding classify print
ticket_verdict c (not_loaded e) = (false, spn c ++ (codes ": " ++ classify e))
ticket_verdict c (loaded (name, realm, etype)) = (
  true,
  spn c ++ (codes " ticket for " ++ (name ++ (b'@' ∷ realm ++ (codes " etype=" ++ print etype)))),
)

-- `sessionStage`: the errors of the dial and of the session.
unfoldable pub session_verdict : Config → Option Text → Option Text → Verdict
unfolding address classify
session_verdict c (some e) session = (false, address c ++ (codes ": " ++ classify e))
session_verdict c none (some e) = (false, classify e)
session_verdict c none none = (true, address c ++ (codes " session established as " ++ c.principal))

-- `shareStage`: the names of the shares.
unfoldable pub share_verdict : (Text → Text) → Config → Loaded (List Text) → Verdict
unfolding classify print text_discrete
share_verdict quote c (not_loaded e) = (false, classify e)
share_verdict quote c (loaded names) =
    if contains text_discrete names c.share
    then (true, quote c.share ++ (codes " present (" ++ (print (length names) ++ codes " shares)")))
    else (
      false,
      quote c.share
          ++ (codes " absent from " ++ (print (length names) ++ (codes " shares on " ++ c.server))),
    )

-- `Run`, on the verdicts of its stages in their order: it ends behind the first that fails.
unfoldable pub run : List (Stage × Verdict) → List Outcome
unfolding run_stage
run [] = []
run ((name, verdict) ∷ rest) =
    let results = run rest in
    if verdict.0 then run_stage name verdict ∷ results else run_stage name verdict ∷ []
