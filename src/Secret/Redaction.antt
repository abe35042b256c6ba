-- ===== src/Secret/Redaction.antt =====
-- What a printed credential shows (internal/secret/secret.go).
use pyck_debug_worker.Prelude.{ℕ, [], ◌∷◌, length, ◌≡◌, refl, ap, arith}
use pyck_debug_worker.Prelude.Text.{Text}
use pyck_debug_worker.Target.{is_empty}
use pyck_debug_worker.Secret.{
  Secret, fingerprint_bytes, take_bytes, string, go_string, format, marshal_text, log_value,
  marshal_json,
}

empty_length : (a b : Text) → length a ≡ length b → is_empty a ≡ is_empty b
empty_length [] [] h = refl
empty_length [] (c ∷ b) h = absurd (omega (arith, h))
empty_length (c ∷ a) [] h = absurd (omega (arith, h))
empty_length (c ∷ a) (d ∷ b) h = refl

module _ (sha256 : Text → Text) where
  same_string :
      (s t : Secret)
      → length s.value ≡ length t.value
      → take_bytes fingerprint_bytes (sha256 s.value)
        ≡ take_bytes fingerprint_bytes (sha256 t.value)
      → string sha256 s ≡ string sha256 t
  unfolding string
  same_string s t n h = rw (n, h, empty_length s.value t.value n) refl

  -- Two credentials of the same length whose digests begin with the same four bytes are printed the
  -- same in every way: as a string, under every verb, as JSON, as text and in a log.
  pub redacted :
      (quote : Text → Text) (verb : ℕ) (s t : Secret)
      → length s.value ≡ length t.value
      → take_bytes fingerprint_bytes (sha256 s.value)
        ≡ take_bytes fingerprint_bytes (sha256 t.value)
      → (string sha256 s ≡ string sha256 t)
        × (go_string sha256 s ≡ go_string sha256 t)
        × (format sha256 verb s ≡ format sha256 verb t)
        × (marshal_text sha256 s ≡ marshal_text sha256 t)
        × (log_value sha256 s ≡ log_value sha256 t)
        × (marshal_json sha256 quote s ≡ marshal_json sha256 quote t)
  unfolding go_string format marshal_text log_value marshal_json
  redacted quote verb s t n h = let e = same_string s t n h in (e, e, e, e, e, ap quote e)
