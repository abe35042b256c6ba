-- ===== src/Secret.antt =====
-- Package internal/secret (internal/secret/secret.go): a credential and every way of printing it. The
-- digest of SHA-256 is the function `sha256`, to 32 bytes.
pub mod Redaction
pub mod Tests
use pyck_debug_worker.Prelude.{
  ℕ, zero, suc, ◌+◌, ◌/◌, ◌%◌, List, [], ◌∷◌, ◌++◌, Bool, true, false, ltb, length, if◌then◌else◌,
}
use pyck_debug_worker.Prelude.Text.{Text, codes, print}
use pyck_debug_worker.Target.{is_empty}

-- `Secret`.
pub record Secret : Type 0 where
  pub value : Text

unfoldable pub new : Text → Secret
new value = record { value = value }

-- `Reveal` and `IsZero`.
unfoldable pub reveal : Secret → Text
reveal s = s.value

unfoldable pub is_zero : Secret → Bool
is_zero s = is_empty s.value

abbrev pub fingerprint_bytes : ℕ
fingerprint_bytes = 4

abbrev pub unset_text : Text
unset_text = codes "<unset>"

abbrev pub take_bytes : ℕ → Text → Text
take_bytes zero s = []
take_bytes (suc n) [] = []
take_bytes (suc n) (c ∷ s) = c ∷ take_bytes n s

-- `hex.EncodeToString`.
abbrev pub hex_digit : ℕ → ℕ
hex_digit n = if ltb n 10 then b'0' + n else 87 + n

unfoldable pub hex : Text → Text
hex [] = []
hex (c ∷ s) = hex_digit (c / 16) ∷ hex_digit (c % 16) ∷ hex s

module _ (sha256 : Text → Text) where
  -- `String`; the bytes 0xe2, 0x80 and 0xa6 are the ellipsis.
  unfoldable pub string : Secret → Text
  unfolding hex print
  string s =
      if is_empty s.value
      then unset_text
      else codes "sha256:"
        ++ (hex (take_bytes fingerprint_bytes (sha256 s.value))
            ++ (0xe2 ∷ 0x80 ∷ 0xa6 ∷ codes "(len=" ++ (print (length s.value) ++ codes ")")))

  -- `GoString`, `Format` for every verb, `MarshalText` and `LogValue`.
  unfoldable pub go_string : Secret → Text
  unfolding string
  go_string s = string s

  unfoldable pub format : ℕ → Secret → Text
  unfolding string
  format verb s = string s

  unfoldable pub marshal_text : Secret → Text
  unfolding string
  marshal_text s = string s

  unfoldable pub log_value : Secret → Text
  unfolding string
  log_value s = string s

  -- `MarshalJSON`; `quote` is `strconv.Quote`.
  unfoldable pub marshal_json : (Text → Text) → Secret → Text
  unfolding string
  marshal_json quote s = quote (string s)
