-- ===== src/Printcheck/Label/Printed.antt =====
-- What the print check has seen once it says that a label is spooled (internal/printcheck/print.go).
use pyck_debug_worker.Prelude.{
  List, none, true, false, not, ite, length, ◌==◌, ==_iff, ◌≡◌, refl, sym, ap, subst,
}
use pyck_debug_worker.Prelude.Text.{Text, text_discrete}
use pyck_debug_worker.Strings.{trim_space}
use pyck_debug_worker.Printcheck.{Config}
use pyck_debug_worker.Printcheck.Stages.{Verdict}
use pyck_debug_worker.Printcheck.Label.{
  Answer, no_answer, answer, FaxBody, undecodable, fax_reply, LabelBody, unreadable, label_bytes,
  Spooled, is_framed, fax_verdict, fax_body, zpl_verdict, zpl_body, spool_verdict, Answers,
  print_run,
}
use pyck_debug_worker.Printcheck.Stages.{
  login_verdict, ticket_verdict, session_verdict, share_verdict,
}
use pyck_debug_worker.Printcheck.Label.Passing.{
  submitted, last_passed, unfailed, not-false, same_text, taken, kept, no_error,
}

module _ (quote : Text → Text) (path_escape : Text → Text) (id : Text) where
  -- The fax service took all lines, under this identifier.
  abbrev pub IsPosted : Answer FaxBody → Type 0
  IsPosted a = (status : Text) × (a ≡ answer 200 status (fax_reply true id false))

  fax_body-IsPosted :
      (lines : List Text) (status : Text) (body : FaxBody)
      → (fax_body quote path_escape id lines body).0 ≡ true
      → body ≡ fax_reply true id false
  fax_body-IsPosted lines status (undecodable e) h = cc
  fax_body-IsPosted lines status (fax_reply ok fax_id truncated) h =
      let (a, h1) = unfailed (not ok) _ _ refl h in
      let (b, h2) = unfailed (ite (text_discrete fax_id id) false true) _ _ refl h1 in
      let (d, h3) = unfailed truncated _ _ refl h2 in
      (λ i. fax_reply (not-false ok a i) (same_text fax_id id b i) (d i))

  fax_verdict-IsPosted :
      (lines : List Text) (a : Answer FaxBody)
      → (fax_verdict quote path_escape id lines a).0 ≡ true
      → IsPosted a
  unfolding fax_verdict
  fax_verdict-IsPosted lines (no_answer e) h = cc
  fax_verdict-IsPosted lines (answer code status body) h =
      let (a, h1) = unfailed (not (code == 200)) _ _ refl h in
      (
        status,
        λ i.
            answer ((==_iff code 200).0 (not-false (code == 200) a) i) status
              (fax_body-IsPosted lines status body h1 i),
      )

  -- The label is a framed one, and the share took all of it.
  abbrev pub IsSpooled : Answers → Type 0
  IsSpooled a =
      (status : Text) × (label : Text) × (a.label_answer ≡ answer 200 status (label_bytes label))
      × (is_framed (trim_space label) ≡ true)
      × (a.spooled.written ≡ length label)
      × (a.spooled.close_error ≡ none)

  -- What a label stage that is ok has seen.
  abbrev IsLabel : Text → Answer LabelBody → Type 0
  IsLabel label a =
      (status : Text) × (a ≡ answer 200 status (label_bytes label))
      × (is_framed (trim_space label) ≡ true)

  zpl_body-framed :
      (body : LabelBody)
      → (zpl_body quote path_escape id body).1.0 ≡ true
      → (body ≡ label_bytes (zpl_body quote path_escape id body).0)
        × (is_framed (trim_space (zpl_body quote path_escape id body).0) ≡ true)
  zpl_body-framed (unreadable e) h = cc
  zpl_body-framed (label_bytes body) h =
      let (framed, same) = kept (is_framed (trim_space body)) _ _ refl h in
      (
        ap (λ (l : Text × Verdict). label_bytes l.0) (sym same),
        subst (λ (l : Text × Verdict). is_framed (trim_space l.0) ≡ true) (sym same) framed,
      )

  zpl_verdict-IsLabel :
      (a : Answer LabelBody)
      → (zpl_verdict quote path_escape id a).1.0 ≡ true
      → IsLabel (zpl_verdict quote path_escape id a).0 a
  unfolding zpl_verdict
  zpl_verdict-IsLabel (no_answer e) h = cc
  zpl_verdict-IsLabel (answer code status body) h =
      let (a, h1, same) = taken (not (code == 200)) _ _ refl h in
      let (bytes, framed) = zpl_body-framed body h1 in
      subst (λ (l : Text × Verdict). IsLabel l.0 (answer code status body)) (sym same)
        (
          status,
          λ i. answer ((==_iff code 200).0 (not-false (code == 200) a) i) status (bytes i),
          framed,
        )

  spool_verdict-all :
      (c : Config) (label : Text) (s : Spooled)
      → (spool_verdict quote path_escape id c label s).0 ≡ true
      → (s.written ≡ length label) × (s.close_error ≡ none)
  unfolding spool_verdict
  spool_verdict-all c label s h =
      let (mount, h1) = no_error s.mount_error _ _ (λ e. refl) h in
      let (create, h2) = no_error s.create_error _ _ (λ e. refl) h1 in
      let (write, h3) = no_error s.write_error _ _ (λ e. refl) h2 in
      let (all, h4) = unfailed (not (s.written == length label)) _ _ refl h3 in
      let (closed, h5) = no_error s.close_error _ _ (λ e. refl) h4 in
      ((==_iff s.written (length label)).0 (not-false _ all), closed)

  -- A run that says it spooled a label has seen the fax service take all lines under the run's own
  -- identifier, the barcode service answer 200 with a label in its frame, and the share take every byte
  -- of this label and close it.
  pub print_run-printed :
      (c : Config) (lines : List Text) (a : Answers)
      → submitted (print_run quote path_escape id c lines a) ≡ true
      → IsPosted a.fax_answer × IsSpooled a
  unfolding print_run
  print_run-printed c lines a h =
      let (posted, labelled, spooled) =
        last_passed (login_verdict c a.keytab_entries a.settings a.login)
          (ticket_verdict c a.ticket) (session_verdict c a.dial_error a.session_error)
          (share_verdict quote c a.share_names)
          (fax_verdict quote path_escape id lines a.fax_answer)
          (zpl_verdict quote path_escape id a.label_answer).1
          (spool_verdict quote path_escape id c (zpl_verdict quote path_escape id a.label_answer).0
            a.spooled)
          h in
      let (status, label, framed) = zpl_verdict-IsLabel a.label_answer labelled in
      let (written, closed) = spool_verdict-all c _ a.spooled spooled in
      (
        fax_verdict-IsPosted lines a.fax_answer posted,
        (
          status,
          (zpl_verdict quote path_escape id a.label_answer).0,
          label,
          framed,
          written,
          closed,
        ),
      )
