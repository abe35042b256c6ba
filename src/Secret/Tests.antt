-- ===== src/Secret/Tests.antt =====
-- Printed credentials (internal/secret/secret.go).
use pyck_debug_worker.Prelude.{[], ◌∷◌, ◌++◌, length, ◌≡◌, refl}
use pyck_debug_worker.Prelude.Text.{Text, codes, print, print_rounds}
use pyck_debug_worker.Secret.{
  new, hex, string, go_string, format, marshal_text, log_value, marshal_json,
}
use pyck_debug_worker.Secret.Redaction.{redacted}

-- A digest of one byte, repeated, for the example.
abbrev one_byte : Text → Text
one_byte s = 7 ∷ 7 ∷ 7 ∷ 7 ∷ []

sample_secret :
    string one_byte (new (codes "hunter2"))
    ≡ codes "sha256:07070707" ++ (0xe2 ∷ 0x80 ∷ 0xa6 ∷ codes "(len=7)")
unfolding string hex new print print_rounds
sample_secret = refl

same_lengths : length (new (codes "ab")).value ≡ length (new (codes "cd")).value
unfolding new
same_lengths = refl

redacted_example :
    (string one_byte (new (codes "ab")) ≡ string one_byte (new (codes "cd")))
    × (go_string one_byte (new (codes "ab")) ≡ go_string one_byte (new (codes "cd")))
    × (format one_byte b'x' (new (codes "ab")) ≡ format one_byte b'x' (new (codes "cd")))
    × (marshal_text one_byte (new (codes "ab")) ≡ marshal_text one_byte (new (codes "cd")))
    × (log_value one_byte (new (codes "ab")) ≡ log_value one_byte (new (codes "cd")))
    × (marshal_json one_byte (λ s. s) (new (codes "ab"))
        ≡ marshal_json one_byte (λ s. s) (new (codes "cd")))
redacted_example =
    redacted one_byte (λ s. s) b'x' (new (codes "ab")) (new (codes "cd")) same_lengths refl
