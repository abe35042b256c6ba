-- ===== src/Main/Secrets.antt =====
-- Credentials (cmd/pyck-debug-worker/main.go): none is taken from the command line, and where the
-- token comes from.
use mathlib.Core.List.{append-nil}
use pyck_debug_worker.Prelude.{
  ℕ, zero, suc, All, List, [], ◌∷◌, ◌++◌, Option, none, some, true, false, ◌==◌, contains,
  replicate, if◌then◌else◌, ◌≡◌, refl, sym, ap, ◌∙◌, subst, arith, Bool-cases, inl, inr, ◌⊎◌,
  Option-cases, is_some,
}
use pyck_debug_worker.Prelude.Text.{Text, text_discrete, codes}
use pyck_debug_worker.Strings.{before, trim_left, trim_space, has_byte, before-append, before_self}
use pyck_debug_worker.Target.{is_empty}
use pyck_debug_worker.Main.{
  secret_flags, flag_name, reject_secret_args, token_env_vars, Credentials, Loaded, loaded,
  load_error, first_token, ambient, file_token, load,
}

trim_left-dashes : (n : ℕ) (s : Text) → trim_left b'-' (replicate n b'-' ++ s) ≡ trim_left b'-' s
unfolding trim_left
trim_left-dashes zero s = refl
trim_left-dashes (suc n) s = trim_left-dashes n s

-- A flag with a value behind "=" or with nothing behind its name.
abbrev pub spelled : Option Text → Text
spelled none = []
spelled (some value) = b'=' ∷ value

before-spelled :
    (s : Text) (value : Option Text)
    → has_byte b'=' s ≡ false
    → before b'=' (s ++ spelled value) ≡ s
before-spelled s none e = ap (before b'=') (append-nil s) ∙ before_self b'=' s e
before-spelled s (some v) e = before-append b'=' s v ∙ before_self b'=' s e

trim_left-start : (c : ℕ) (s : Text) → c == b'-' ≡ false → trim_left b'-' (c ∷ s) ≡ c ∷ s
unfolding trim_left
trim_left-start c s d = rw d refl

flag_name-spelled :
    (n : ℕ) (c : ℕ) (name : Text) (value : Option Text)
    → c == b'-' ≡ false
    → has_byte b'=' (c ∷ name) ≡ false
    → flag_name (replicate n b'-' ++ ((c ∷ name) ++ spelled value)) ≡ c ∷ name
unfolding flag_name
flag_name-spelled n c name value d e =
    ap (before b'=') (
      trim_left-dashes n ((c ∷ name) ++ spelled value)
      ∙ trim_left-start c (name ++ spelled value) d)
    ∙ before-spelled (c ∷ name) value e

secret-cases :
    (flag : Text)
    → contains text_discrete secret_flags flag ≡ true
    → (codes "token" ≡ flag) ⊎ (codes "api-key" ≡ flag)
secret-cases flag h = elim (text_discrete (codes "token") flag) [
  | yes p ↦ inl p
  | no p ↦ elim (text_discrete (codes "api-key") flag) [
    | yes q ↦ inr q
    | no q ↦ absurd (ground (arith, p, q, h))
  ]
]

flag_name-secret :
    (n : ℕ) (flag : Text) (value : Option Text)
    → contains text_discrete secret_flags flag ≡ true
    → flag_name (replicate n b'-' ++ (flag ++ spelled value)) ≡ flag
flag_name-secret n flag value h = elim (secret-cases flag h) [
  | inl p ↦
      subst (λ f. flag_name (replicate n b'-' ++ (f ++ spelled value)) ≡ f) p
        (flag_name-spelled n b't' (codes "oken") value refl refl)
  | inr p ↦
      subst (λ f. flag_name (replicate n b'-' ++ (f ++ spelled value)) ≡ f) p
        (flag_name-spelled n b'a' (codes "pi-key") value refl refl)
]

reject_secret_args-at :
    (args after : List Text) (arg : Text)
    → contains text_discrete secret_flags (flag_name arg) ≡ true
    → is_some (reject_secret_args (args ++ arg ∷ after)) ≡ true
unfolding reject_secret_args
reject_secret_args-at [] after arg h = rw h refl
reject_secret_args-at (a ∷ args) after arg h =
    ground (arith, reject_secret_args-at args after arg h)

-- A command line with the flag "token" or "api-key" in it, behind any number of dashes, with or
-- without a value behind "=", and with any arguments around it, is refused.
pub reject_secret_args-secret :
    (args after : List Text) (n : ℕ) (flag : Text) (value : Option Text)
    → contains text_discrete secret_flags flag ≡ true
    → is_some (reject_secret_args (args ++ (replicate n b'-' ++ (flag ++ spelled value)) ∷ after))
      ≡ true
reject_secret_args-secret args after n flag value h =
    reject_secret_args-at args after (replicate n b'-' ++ (flag ++ spelled value))
      (ap (contains text_discrete secret_flags) (flag_name-secret n flag value h) ∙ h)

-- The variables that a token is taken from, in order: the ones before it are not set.
module _ (getenv : Text → Text) (read_file : Text → Option Text) where
  abbrev pub IsUnset : Text → Type 0
  IsUnset name = is_empty (getenv name) ≡ true

  abbrev pub NoneSet : List Text → Credentials → Type 0
  NoneSet names creds = All IsUnset names × (creds.token ≡ []) × (creds.source ≡ [])

  abbrev pub FirstSet : List Text → Credentials → Type 0
  FirstSet names creds =
      (earlier : List Text) × (later : List Text) × (names ≡ earlier ++ creds.source ∷ later)
      × All IsUnset earlier
      × (creds.token ≡ getenv creds.source)
      × (is_empty creds.token ≡ false)

  abbrev pub FromFile : Text → Credentials → Type 0
  FromFile token_file creds =
      (raw : Text) × (read_file token_file ≡ some raw)
      × (creds.token ≡ trim_space raw)
      × (is_empty creds.token ≡ false)
      × (creds.source ≡ codes "--token-file")

  abbrev Sourced : List Text → Credentials → Type 0
  Sourced names creds = NoneSet names creds ⊎ FirstSet names creds

  first_token_skip :
      (name : Text) (names : List Text) (creds : Credentials)
      → is_empty (getenv name) ≡ true
      → first_token getenv read_file (name ∷ names) creds ≡ first_token getenv read_file names creds
  unfolding first_token
  first_token_skip name names creds e = rw e refl

  first_token_take :
      (name : Text) (names : List Text) (creds : Credentials)
      → is_empty (getenv name) ≡ false
      → first_token getenv read_file (name ∷ names) creds
        ≡ record creds { token = getenv name; source = name }
  unfolding first_token
  first_token_take name names creds e = rw e refl

  skip_unset :
      (name : Text) (names : List Text) (creds : Credentials)
      → is_empty (getenv name) ≡ true
      → Sourced names creds
      → Sourced (name ∷ names) creds
  skip_unset name names creds e (inl (unset, p, q)) = inl ((e, unset), p, q)
  skip_unset name names creds e (inr (earlier, later, split, unset, p, q)) =
      inr (name ∷ earlier, later, ap (λ l. name ∷ l) split, (e, unset), p, q)

  first_token-source :
      (names : List Text) (creds : Credentials)
      → creds.token ≡ []
      → creds.source ≡ []
      → Sourced names (first_token getenv read_file names creds)
  unfolding first_token
  first_token-source [] creds t s = inl (tt, t, s)
  first_token-source (name ∷ names) creds t s = elim (Bool-cases (is_empty (getenv name))) [
    | inl e ↦ subst (Sourced (name ∷ names)) (sym (first_token_skip name names creds e)) (
        skip_unset name names (first_token getenv read_file names creds) e
          (first_token-source names creds t s))
    | inr e ↦
        subst (Sourced (name ∷ names)) (sym (first_token_take name names creds e))
          (inr ([], names, refl, tt, refl, e))
  ]

  abbrev loaded_or : Credentials → Loaded → Credentials
  loaded_or creds (load_error e) = creds
  loaded_or creds (loaded c) = c

  file_token-source :
      (raw : Text) (creds : Credentials)
      → file_token getenv read_file (some raw) ≡ loaded creds
      → (creds.token ≡ trim_space raw)
        × (is_empty creds.token ≡ false)
        × (creds.source ≡ codes "--token-file")
  unfolding file_token
  file_token-source raw creds h = ground (arith, h)

  -- With a --token-file, the token is the trimmed content of that file and never empty, whatever the
  -- environment holds; without one it is the value of the first of the three variables that is not
  -- empty, or it is empty and no variable is set. The source names where it came from.
  pub load-source :
      (token_file : Text) (creds : Credentials)
      → load getenv read_file token_file ≡ loaded creds
      → (if is_empty token_file
          then NoneSet token_env_vars creds ⊎ FirstSet token_env_vars creds
          else FromFile token_file creds)
  unfolding load
  load-source [] creds h =
      let p = ap (loaded_or creds) h in
      subst (λ c. NoneSet token_env_vars c ⊎ FirstSet token_env_vars c) p
        (first_token-source token_env_vars (ambient getenv read_file) refl refl)
  load-source (c ∷ token_file) creds h = elim (Option-cases (read_file (c ∷ token_file))) [
    | inl e ↦ cc (sym (ap (file_token getenv read_file) e) ∙ h)
    | inr (raw, e) ↦
        let (p, q, r) =
          file_token-source raw creds (sym (ap (file_token getenv read_file) e) ∙ h) in
        (raw, e, p, q, r)
  ]
