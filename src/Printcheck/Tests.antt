-- ===== src/Printcheck/Tests.antt =====
-- A configuration with a realm of its own (internal/printcheck/printcheck.go).
use pyck_debug_worker.Prelude.{[], ◌∷◌, ◌++◌, none, some, true, false, ◌≡◌, refl, ℕ_discrete}
use pyck_debug_worker.Prelude.Text.{codes, text_discrete}
use pyck_debug_worker.Netcheck.Hosts.{split_at}
use pyck_debug_worker.Printcheck.{Config, inline_krb5_conf, conf_lines, validate}
use pyck_debug_worker.Printcheck.Stages.{loaded}
use pyck_debug_worker.Printcheck.Label.{Answers, answer, fax_reply, label_bytes, print_run}
use pyck_debug_worker.Printcheck.Label.Passing.{submitted}
use pyck_debug_worker.Printcheck.Label.Printed.{IsPosted, IsSpooled, print_run-printed}
use pyck_debug_worker.Printcheck.Krb5Conf.{inline_krb5_conf-lines}

abbrev config : Config
config = record {
  server = codes "print.example.com";
  share = codes "zebra";
  principal = codes "svc@EXAMPLE.COM";
  keytab = codes "/k";
  krb5_conf = codes "/etc/krb5.conf";
  realm = codes "EXAMPLE.COM";
  kdcs = codes "kdc1:88" ∷ codes "kdc2" ∷ [];
}

config_valid : validate (λ s. false) (λ s. none) (λ s. s) config ≡ none
unfolding validate text_discrete ℕ_discrete
config_valid = refl

inline_krb5_conf-lines_example :
    split_at 10 (inline_krb5_conf config) ≡ conf_lines config ++ [] ∷ []
inline_krb5_conf-lines_example =
    inline_krb5_conf-lines (λ s. false) (λ s. none) (λ s. s) config config_valid refl

-- A realm with a line of its own is refused.
line_refused :
    validate
      (λ s. false)
      (λ s. none)
      (λ s. s)
      (record config { realm = codes "A\nB"; principal = codes "svc" })
    ≡ some (codes "print check: PYCK_KRB5_REALM=A\nB is not a realm name")
unfolding validate text_discrete ℕ_discrete
line_refused = refl

abbrev answers : Answers
answers = record {
  keytab_entries = loaded 2;
  settings = loaded [];
  login = λ realm. none;
  ticket = loaded (codes "cifs/print", codes "EXAMPLE.COM", 18);
  dial_error = none;
  session_error = none;
  share_names = loaded (codes "zebra" ∷ []);
  fax_answer = answer 200 (codes "200 OK") (fax_reply true (codes "id") false);
  label_answer = answer 200 (codes "200 OK") (label_bytes (codes "^XA1^XZ"));
  spooled = record {
    mount_error = none;
    create_error = none;
    write_error = none;
    written = 7;
    close_error = none;
  };
}

printed :
    submitted (print_run (λ s. s) (λ s. s) (codes "id") config (codes "line" ∷ []) answers) ≡ true
unfolding print_run text_discrete ℕ_discrete
printed = refl

print_run-printed_example :
    IsPosted (λ s. s) (λ s. s) (codes "id") (answers.fax_answer)
    × IsSpooled (λ s. s) (λ s. s) (codes "id") answers
print_run-printed_example =
    print_run-printed (λ s. s) (λ s. s) (codes "id") config (codes "line" ∷ []) answers printed

-- A share that takes fewer bytes is no print.
truncated :
    submitted (
      print_run
        (λ s. s)
        (λ s. s)
        (codes "id")
        config
        (codes "line" ∷ [])
        (record answers { spooled = record answers.spooled { written = 6 } }))
    ≡ false
unfolding print_run text_discrete ℕ_discrete
truncated = refl
