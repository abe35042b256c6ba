-- ===== src/Printcheck.antt =====
-- Package internal/printcheck: the configuration of the print check (internal/printcheck/printcheck.go)
-- with its faults, and the krb5.conf that is rendered from it. The file system is given by what it
-- answers.
pub mod Krb5Conf
pub mod Stages
pub mod Label
pub mod Tests
use pyck_debug_worker.Prelude.{
  ℕ, List, [], ◌∷◌, ◌++◌, Option, none, some, Bool, true, false, ◌||◌, ◌&&◌, not, ite, length,
  any_of, all_of, contains, ◌==◌, if◌then◌else◌,
}
use pyck_debug_worker.Prelude.Text.{Text, text_discrete, codes, print, join}
use pyck_debug_worker.Strings.{has_byte, cut, trim_space}
use pyck_debug_worker.Target.{is_empty, contains_text, join_host_port}
use pyck_debug_worker.Netcheck.Hosts.{split_at}

-- The environment variables.
abbrev pub env_server : Text
env_server = codes "PYCK_PRINT_SERVER"

abbrev pub env_share : Text
env_share = codes "PYCK_PRINT_SHARE"

abbrev pub env_principal : Text
env_principal = codes "PYCK_KRB5_PRINCIPAL"

abbrev pub env_keytab : Text
env_keytab = codes "PYCK_KRB5_KEYTAB"

abbrev pub env_krb5_conf : Text
env_krb5_conf = codes "KRB5_CONFIG"

abbrev pub env_realm : Text
env_realm = codes "PYCK_KRB5_REALM"

abbrev pub env_kdcs : Text
env_kdcs = codes "PYCK_KRB5_KDCS"

abbrev pub env_credentials_directory : Text
env_credentials_directory = codes "CREDENTIALS_DIRECTORY"

-- `Config`.
pub record Config : Type 0 where
  pub server : Text
  pub share : Text
  pub principal : Text
  pub keytab : Text
  pub krb5_conf : Text
  pub realm : Text
  pub kdcs : List Text

abbrev pub trim_all : List Text → List Text
trim_all [] = []
trim_all (s ∷ ss) = trim_space s ∷ trim_all ss

-- `Load`; `join_path` is `filepath.Join`.
abbrev pub load_kdcs : Text → List Text
load_kdcs kdcs = if is_empty kdcs then [] else trim_all (split_at b',' kdcs)

abbrev pub or_default : Text → Text → Text
or_default s default = if is_empty s then default else s

unfoldable pub load : (Text → Text → Text) → (Text → Text) → Config
unfolding trim_space split_at
load join_path getenv =
    let dir = trim_space (getenv env_credentials_directory) in
    record {
      server = trim_space (getenv env_server);
      share = trim_space (getenv env_share);
      principal = trim_space (getenv env_principal);
      keytab =
          or_default (trim_space (getenv env_keytab))
            (if is_empty dir then [] else join_path dir (codes "krb5-keytab"));
      krb5_conf = or_default (trim_space (getenv env_krb5_conf)) (codes "/etc/krb5.conf");
      realm = trim_space (getenv env_realm);
      kdcs = load_kdcs (trim_space (getenv env_kdcs));
    }

-- `User` and `PrincipalRealm`.
unfoldable pub user : Config → Text
unfolding cut
user c = elim (cut b'@' c.principal) [ none ↦ c.principal | some (name, realm) ↦ name ]

unfoldable pub principal_realm : Config → Text
unfolding cut
principal_realm c = elim (cut b'@' c.principal) [ none ↦ [] | some (name, realm) ↦ realm ]

-- `SPN`, `Address` and `UNC`; a backslash is 0x5c.
abbrev pub spn : Config → Text
spn c = codes "cifs/" ++ c.server

unfoldable pub address : Config → Text
unfolding join_host_port
address c = join_host_port c.server (codes "445")

abbrev pub unc : Config → Text
unc c = 0x5c ∷ 0x5c ∷ (c.server ++ 0x5c ∷ c.share)

-- The first switch of `Validate`; `is_ip` is whether `net.ParseIP` takes a text.
unfoldable pub server_fault : (Text → Bool) → Config → List Text
server_fault is_ip c =
    if is_empty c.server
    then (env_server ++ codes " is unset") ∷ []
    else if is_ip c.server
    then (env_server
        ++ (b'=' ∷ c.server
            ++ codes " is an IP address: Kerberos resolves an SPN from a name, not an address"))
      ∷ []
    else if not (has_byte b'.' c.server)
    then (env_server
        ++ (b'=' ∷ c.server
            ++ codes " is a short name: the SPN needs the fully qualified domain name"))
      ∷ []
    else []

unfoldable pub share_fault : Config → List Text
share_fault c = if is_empty c.share then (env_share ++ codes " is unset") ∷ [] else []

-- `principalFault`.
abbrev pub about_principal : Config → Text → List Text
about_principal c what = (env_principal ++ (b'=' ∷ c.principal ++ what)) ∷ []

unfoldable pub principal_fault : Config → List Text
unfolding cut
principal_fault c =
    if is_empty c.principal
    then (env_principal ++ codes " is unset") ∷ []
    else elim (cut b'@' c.principal) [
      | none ↦ []
      | some (name, realm) ↦
          if is_empty name
          then about_principal c (codes " has no user part")
          else if is_empty realm
          then about_principal c (codes " has an empty realm after @")
          else if has_byte b'@' realm
          then about_principal c (codes " has more than one @")
          else []
    ]

-- `keytabFault`; `open_error` is the error of `os.Open`.
unfoldable pub keytab_fault : (Text → Option Text) → Config → List Text
keytab_fault open_error c =
    if is_empty c.keytab
    then (env_keytab
        ++ (codes " is unset and " ++ (env_credentials_directory ++ codes " is not set either")))
      ∷ []
    else elim (open_error c.keytab) [
      | none ↦ []
      | some e ↦ (codes "keytab " ++ (c.keytab ++ (codes " is unreadable: " ++ e))) ∷ []
    ]

-- `isConfToken`; the bytes are those of the space, the tab, the line ends and the syntax.
abbrev pub conf_syntax : List ℕ
conf_syntax = b' ' ∷ 9 ∷ 13 ∷ 10 ∷ b'{' ∷ b'}' ∷ b'=' ∷ b'#' ∷ b';' ∷ []

abbrev pub in_syntax : ℕ → List ℕ → Bool
in_syntax c [] = false
in_syntax c (d ∷ ds) = d == c || in_syntax c ds

abbrev pub is_conf_token : Text → Bool
is_conf_token s = not (is_empty s) && not (any_of (λ c. in_syntax c conf_syntax) s)

-- `realmFault`; `quote` is `strconv.Quote`.
abbrev pub none_given : List Text → Bool
none_given [] = true
none_given (s ∷ ss) = false

abbrev pub kdc_faults : (Text → Text) → List Text → List Text
kdc_faults quote [] = []
kdc_faults quote (kdc ∷ kdcs) =
    let rest = kdc_faults quote kdcs in
    if is_conf_token kdc
    then rest
    else (env_kdcs ++ (codes " has an invalid entry " ++ quote kdc)) ∷ rest

abbrev pub realm_name_fault : (Text → Text) → Config → List Text
realm_name_fault quote c =
    if is_conf_token c.realm
    then []
    else (env_realm ++ (b'=' ∷ quote c.realm ++ codes " is not a realm name")) ∷ []

abbrev pub other_realm_fault : Config → List Text
other_realm_fault c =
    let realm = principal_realm c in
    if not (is_empty realm) && ite (text_discrete realm c.realm) false true
    then (env_principal
        ++ (b'=' ∷ c.principal
            ++ (codes " names realm "
                ++ (realm ++ (codes " but " ++ (env_realm ++ b'=' ∷ c.realm))))))
      ∷ []
    else []

unfoldable pub realm_fault : (Text → Text) → Config → List Text
unfolding principal_realm text_discrete
realm_fault quote c =
    if is_empty c.realm && none_given c.kdcs
    then []
    else if is_empty c.realm
    then (env_kdcs ++ (codes " is set but " ++ (env_realm ++ codes " is unset"))) ∷ []
    else if none_given c.kdcs
    then (env_realm ++ (codes " is set but " ++ (env_kdcs ++ codes " is unset"))) ∷ []
    else realm_name_fault quote c ++ (kdc_faults quote c.kdcs ++ other_realm_fault c)

-- `Validate`: the error that names all faults.
unfoldable pub faults : (Text → Bool) → (Text → Option Text) → (Text → Text) → Config → List Text
unfolding server_fault share_fault principal_fault keytab_fault realm_fault
faults is_ip open_error quote c =
    server_fault is_ip c
    ++ (share_fault c ++ (principal_fault c ++ (keytab_fault open_error c ++ realm_fault quote c)))

unfoldable pub validate :
    (Text → Bool) → (Text → Option Text) → (Text → Text) → Config → Option Text
unfolding faults join
validate is_ip open_error quote c = elim (faults is_ip open_error quote c) [
  | [] ↦ none
  | fault ∷ more ↦ some (codes "print check: " ++ join (codes "; ") (fault ∷ more))
]

abbrev pub newline : Text
newline = 10 ∷ []

abbrev pub aes : Text
aes = codes "aes256-cts-hmac-sha1-96 aes128-cts-hmac-sha1-96"

-- The lines of `inlineKrb5Conf`, without their ends.
abbrev pub kdc_lines : List Text → List Text
kdc_lines [] = codes "  }" ∷ []
kdc_lines (kdc ∷ kdcs) = (codes "    kdc = " ++ kdc) ∷ kdc_lines kdcs

abbrev pub conf_lines : Config → List Text
conf_lines c =
    codes "[libdefaults]"
    ∷ (codes "  default_realm = " ++ c.realm)
    ∷ codes "  dns_lookup_kdc = false"
    ∷ codes "  dns_lookup_realm = false"
    ∷ (codes "  default_tkt_enctypes = " ++ aes)
    ∷ (codes "  default_tgs_enctypes = " ++ aes)
    ∷ (codes "  permitted_enctypes = " ++ aes)
    ∷ codes "[realms]"
    ∷ (codes "  " ++ (c.realm ++ codes " = {"))
    ∷ kdc_lines c.kdcs

abbrev pub end_lines : List Text → Text
end_lines [] = []
end_lines (line ∷ lines) = line ++ 10 ∷ end_lines lines

-- `inlineKrb5Conf`.
unfoldable pub inline_krb5_conf : Config → Text
inline_krb5_conf c = end_lines (conf_lines c)
