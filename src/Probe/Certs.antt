-- ===== src/Probe/Certs.antt =====
-- The stages on the handshake: tls, cert and chain (internal/probe/tls.go, cert.go, chain.go). The
-- handshake's state, the path building and the check of a host name are given.
pub mod Sct
pub mod Validity
use pyck_debug_worker.Prelude.{
  ℕ, zero, suc, ◌+◌, ◌-◌, ◌*◌, ◌/◌, ◌^◌, List, [], ◌∷◌, ◌++◌, Option, none, some, Bool, true, false,
  ltb, leb, ◌==◌, length, if◌then◌else◌,
}
use pyck_debug_worker.Prelude.Text.{Text, codes, print, join}
use pyck_debug_worker.Target.{is_empty}
use pyck_debug_worker.Probe.{Stage, Outcome, Verdict, run_stage, Fault, classify}

-- The type of a certificate's public key, with the size that is told.
pub data PublicKey : Type 0 where
  rsa : ℕ → PublicKey
  ecdsa : ℕ → PublicKey
  ed25519 : PublicKey
  other_key : PublicKey

-- An extension: whether it has the identifier of the embedded SCT list, and the octet string that
-- `asn1.Unmarshal` finds in it, if it does.
pub record Extension : Type 0 where
  pub is_sct_list : Bool
  pub octets : Option (List ℕ)

-- What is read of an `x509.Certificate`; times are in nanoseconds.
pub record Certificate : Type 0 where
  pub not_before : ℕ
  pub not_after : ℕ
  pub common_name : Text
  pub subject : Text
  pub dns_names : ℕ
  pub ip_addresses : ℕ
  pub email_addresses : ℕ
  pub uris : ℕ
  pub key : PublicKey
  pub extensions : List Extension

-- `tls.ConnectionState`; `curve` is `none` for a key exchange without a curve.
pub record Handshake : Type 0 where
  pub version : Text
  pub protocol : Text
  pub cipher_suite : Text
  pub curve : Option Text
  pub peers : List Certificate
  pub signed_timestamps : ℕ

-- `strings.ReplaceAll(s, " ", "")`.
unfoldable pub remove_spaces : Text → Text
remove_spaces [] = []
remove_spaces (c ∷ s) = let rest = remove_spaces s in if c == b' ' then rest else c ∷ rest

-- `tlsDetail`.
unfoldable pub tls_detail : Handshake → Text
unfolding remove_spaces
tls_detail s =
    let detail =
      remove_spaces s.version
      ++ (codes " alpn="
          ++ ((if is_empty s.protocol then codes "none" else s.protocol)
              ++ (codes " " ++ s.cipher_suite))) in
    elim s.curve [ none ↦ detail | some curve ↦ detail ++ (codes " kx=" ++ curve) ]

-- `sanCount` and `keyDescription`.
unfoldable pub san_count : Certificate → ℕ
san_count leaf = leaf.dns_names + leaf.ip_addresses + leaf.email_addresses + leaf.uris

unfoldable pub key_description : PublicKey → Text
unfolding print
key_description (rsa bits) = codes "RSA" ++ print bits
key_description (ecdsa bits) = codes "ECDSA" ++ print bits
key_description ed25519 = codes "Ed25519"
key_description other_key = codes "unknown-key"

abbrev pub day : ℕ
day = 86400 * 10 ^ 9

-- `int(d.Hours() / 24)` of the time that is left, which is rounded towards zero.
unfoldable pub print_days : ℕ → ℕ → Text
unfolding print
print_days not_after now =
    if leb now not_after
    then print ((not_after - now) / day)
    else if (now - not_after) / day == 0
    then codes "0"
    else b'-' ∷ print ((now - not_after) / day)

-- The walk over the framed entries of an SCT list, of which each has its size in two bytes in front;
-- the fuel is the number of bytes.
abbrev pub drop_bytes : ℕ → List ℕ → List ℕ
drop_bytes zero s = s
drop_bytes (suc n) [] = []
drop_bytes (suc n) (c ∷ s) = drop_bytes n s

unfoldable pub count_entries : ℕ → List ℕ → ℕ
count_entries zero body = 0
count_entries (suc fuel) [] = 0
count_entries (suc fuel) (high ∷ []) = 0
count_entries (suc fuel) (high ∷ low ∷ rest) =
    let size = high * 256 + low in
    let more = count_entries fuel (drop_bytes size rest) in
    if ltb (length rest) size then 0 else suc more

-- `embeddedSCTs`: the first extension of that kind is the one that counts.
unfoldable pub entries_of : List ℕ → ℕ
unfolding count_entries
entries_of [] = 0
entries_of (a ∷ []) = 0
entries_of (a ∷ b ∷ body) = count_entries (length body) body

unfoldable pub octets_or_none : Option (List ℕ) → ℕ
unfolding entries_of
octets_or_none none = 0
octets_or_none (some octets) = entries_of octets

unfoldable pub embedded_scts : List Extension → ℕ
unfolding octets_or_none
embedded_scts [] = 0
embedded_scts (x ∷ xs) = if x.is_sct_list then octets_or_none x.octets else embedded_scts xs

unfoldable pub sct_count : Handshake → Certificate → ℕ
unfolding embedded_scts
sct_count state leaf = state.signed_timestamps + embedded_scts leaf.extensions

-- `path`.
abbrev pub names_of : List Certificate → List Text
names_of [] = []
names_of (c ∷ certs) =
    (if is_empty c.common_name then c.subject else c.common_name) ∷ names_of certs

unfoldable pub path : List Certificate → Text
unfolding join
path [] = codes "leaf"
path (leaf ∷ certs) = join (codes " -> ") (codes "leaf" ∷ names_of certs)

-- The result of building a path: an error, or the first chain.
pub data Verified : Type 0 where
  not_verified : Fault → Verified
  chain_of : List Certificate → Verified

-- The answer of the handshake on a connection.
pub data Shaken : Type 0 where
  broken : Fault → Shaken
  shaken : Handshake → Shaken

module _ (format_date : ℕ → Text) (now : ℕ) where
  -- `tlsStage`.
  unfoldable pub tls_stage : Shaken → Option Handshake × Outcome
  unfolding classify tls_detail run_stage
  tls_stage (broken e) = (none, run_stage Stage.tls (false, classify format_date now e))
  tls_stage (shaken s) = (some s, run_stage Stage.tls (true, tls_detail s))

  -- `certInfo`.
  unfoldable pub cert_info : Certificate → Text
  unfolding san_count key_description print_days print
  cert_info leaf =
      codes "CN="
      ++ ((if is_empty leaf.common_name then codes "-" else leaf.common_name)
          ++ (codes " sans="
              ++ (print (san_count leaf)
                  ++ (codes " "
                      ++ (key_description leaf.key
                          ++ (codes " expires="
                              ++ (format_date leaf.not_after
                                  ++ (codes " ("
                                      ++ (print_days leaf.not_after now ++ codes "d)")))))))))

  unfoldable pub validity_faults : Certificate → List Text
  validity_faults leaf =
      if ltb now leaf.not_before
      then (codes "not yet valid: NotBefore=" ++ format_date leaf.not_before) ∷ []
      else if ltb leaf.not_after now
      then (codes "expired: NotAfter=" ++ format_date leaf.not_after) ∷ []
      else []

  unfoldable pub fault_text : Option Fault → List Text
  unfolding classify
  fault_text none = []
  fault_text (some e) = classify format_date now e ∷ []

  abbrev pub no_faults : List Text → Bool
  no_faults [] = true
  no_faults (f ∷ fs) = false

  unfoldable pub chain_faults : Verified → List Text
  unfolding classify
  chain_faults (not_verified e) = classify format_date now e ∷ []
  chain_faults (chain_of c) = []

  unfoldable pub shown_path : Verified → List Certificate → Text
  unfolding path
  shown_path (not_verified e) presented = path presented
  shown_path (chain_of c) presented = path c

  module _ (verify_hostname : Certificate → Option Fault) where
    -- `certStage`; `verify_hostname` is `leaf.VerifyHostname(tgt.Host)`.
    unfoldable pub cert_verdict : List Certificate → Verdict
    unfolding cert_info join fault_text validity_faults
    cert_verdict [] = (false, codes "no certificate presented")
    cert_verdict (leaf ∷ certs) =
        let faults = validity_faults leaf ++ fault_text (verify_hostname leaf) in
        if no_faults faults
        then (true, cert_info leaf)
        else (false, cert_info leaf ++ (codes "  " ++ join (codes "; ") faults))

    unfoldable pub cert_stage : Handshake → Outcome
    unfolding run_stage cert_verdict
    cert_stage state = run_stage Stage.cert (cert_verdict state.peers)

    -- `chainStage`; `verify` is `leaf.Verify` with the other certificates as intermediates.
    unfoldable pub chain_verdict : (List Certificate → Verified) → Handshake → Verdict
    unfolding sct_count print join fault_text chain_faults shown_path
    chain_verdict verify state = elim state.peers [
      | [] ↦ (false, codes "no certificate presented")
      | leaf ∷ certs ↦
          let scts = codes " scts=" ++ print (sct_count state leaf) in
          let verified = verify (leaf ∷ certs) in
          let faults = chain_faults verified ++ fault_text (verify_hostname leaf) in
          if no_faults faults
          then (true, shown_path verified (leaf ∷ certs) ++ (codes " verified " ++ scts))
          else (
            false,
            shown_path verified (leaf ∷ certs)
                ++ (codes " " ++ (scts ++ (codes "  " ++ join (codes "; ") faults))),
          )
    ]

    unfoldable pub chain_stage : (List Certificate → Verified) → Handshake → Outcome
    unfolding run_stage chain_verdict
    chain_stage verify state = run_stage Stage.chain (chain_verdict verify state)
