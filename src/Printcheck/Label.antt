-- ===== src/Printcheck/Label.antt =====
-- The last three stages of the print check (internal/printcheck/print.go): the lines are posted, a label
-- that points at them is fetched, and the label is spooled. The services and the share are given by what
-- they answer.
pub mod Passing
pub mod Printed
use pyck_debug_worker.Prelude.{
  ℕ, List, [], ◌∷◌, ◌++◌, Option, none, some, Bool, true, false, ◌||◌, not, ite, length, ◌==◌,
  is_some, if◌then◌else◌,
}
use pyck_debug_worker.Prelude.Text.{Text, text_discrete, codes, print, join, has_prefix, cut_suffix}
use pyck_debug_worker.Strings.{trim_space}
use pyck_debug_worker.Printcheck.{Config, unc}
use pyck_debug_worker.Printcheck.Stages.{
  Verdict, classify, Stage, krb5, spn_stage, smb, share_stage, fax, zpl, submit, Outcome, run,
  Loaded, login_verdict, ticket_verdict, session_verdict, share_verdict,
}

abbrev pub fax_base_url : Text
fax_base_url = codes "https://fax.pyck.cloud/"

abbrev pub barcode_base_url : Text
barcode_base_url = codes "https://barcodes.pyck.cloud/barcode/qr/"

-- `Payload`.
abbrev pub line_end : Text
line_end = 13 ∷ 10 ∷ []

unfoldable pub payload : List Text → Text
unfolding join
payload [] = []
payload (line ∷ lines) = join line_end (line ∷ lines) ++ line_end

-- A request's error, or the response's status code, its status and its body.
pub data Answer (A : Type 0) : Type 0 where
  no_answer : Text → Answer A
  answer : ℕ → Text → A → Answer A

-- `faxReply`, or the error of its decoding.
pub data FaxBody : Type 0 where
  undecodable : Text → FaxBody
  fax_reply : Bool → Text → Bool → FaxBody

-- The body of a label, or the error of its reading.
pub data LabelBody : Type 0 where
  unreadable : Text → LabelBody
  label_bytes : Text → LabelBody

-- What the share answers: the errors of the mount, the creation, the write and the close, and how many
-- bytes were written.
pub record Spooled : Type 0 where
  pub mount_error : Option Text
  pub create_error : Option Text
  pub write_error : Option Text
  pub written : ℕ
  pub close_error : Option Text

abbrev pub is_framed : Text → Bool
is_framed trimmed =
    if has_prefix (codes "^XA") trimmed then is_some (cut_suffix (codes "^XZ") trimmed) else false

module _ (quote : Text → Text) (path_escape : Text → Text) (id : Text) where
  abbrev pub fax_url : Text
  fax_url = fax_base_url ++ id

  -- `faxStage`.
  abbrev pub fax_body : List Text → FaxBody → Verdict
  fax_body lines (undecodable e) = (false, fax_url ++ (codes ": undecodable reply: " ++ e))
  fax_body lines (fax_reply ok fax_id truncated) =
      if not ok
      then (false, fax_url ++ codes ": service replied ok=false")
      else if ite (text_discrete fax_id id) false true
      then (
        false,
        fax_url ++ (codes ": reply names fax " ++ (quote fax_id ++ (codes ", not " ++ quote id))),
      )
      else if truncated
      then (
        false,
        fax_url
            ++ (codes ": service truncated the "
                ++ (print (length (payload lines)) ++ codes "-byte payload")),
      )
      else (
        true,
        codes "posted "
            ++ (print (length (payload lines))
                ++ (codes " bytes, " ++ (print (length lines) ++ (codes " lines to " ++ fax_url)))),
      )

  unfoldable pub fax_verdict : List Text → Answer FaxBody → Verdict
  unfolding classify text_discrete print payload
  fax_verdict lines (no_answer e) = (false, classify e)
  fax_verdict lines (answer code status body) =
      if not (code == 200)
      then (false, fax_url ++ (codes ": HTTP " ++ status))
      else fax_body lines body

  -- `zplStage`: the label, which is empty where there is none, and the verdict.
  abbrev pub barcode_url : Text
  barcode_url = barcode_base_url ++ (path_escape fax_url ++ codes "?format=zpl")

  abbrev pub zpl_body : LabelBody → Text × Verdict
  zpl_body (unreadable e) = ([], (false, classify e))
  zpl_body (label_bytes body) =
      if is_framed (trim_space body)
      then (body, (true, print (length body) ++ (codes " bytes of ZPL, QR -> " ++ fax_url)))
      else (
        [],
        (
          false,
          barcode_url
              ++ (codes ": "
                  ++ (print (length body)
                      ++ (codes "-byte body is not a ^XA"
                          ++ (0xe2 ∷ 0x80 ∷ 0xa6 ∷ codes "^XZ ZPL label")))),
        ),
      )

  unfoldable pub zpl_verdict : Answer LabelBody → Text × Verdict
  unfolding classify print trim_space cut_suffix
  zpl_verdict (no_answer e) = ([], (false, classify e))
  zpl_verdict (answer code status body) =
      if not (code == 200)
      then ([], (false, barcode_url ++ (codes ": HTTP " ++ status)))
      else zpl_body body

  -- `spoolStage`.
  abbrev pub spool_fails : Config → Text → Verdict
  spool_fails c e = (false, unc c ++ (codes ": " ++ classify e))

  abbrev pub spool_end : Config → Text → Spooled → Verdict
  spool_end c label s =
      if not (s.written == length label)
      then (
        false,
        unc c
            ++ (codes " accepted "
                ++ (print s.written
                    ++ (codes " of "
                        ++ (print (length label)
                            ++ codes " bytes: the label would print truncated")))),
      )
      else elim s.close_error [
        | some e ↦ spool_fails c e
        | none ↦ (
          true,
          print (length label)
              ++ (codes " bytes of ZPL spooled to " ++ (unc c ++ (codes ", QR -> " ++ fax_url))),
        )
      ]

  unfoldable pub spool_verdict : Config → Text → Spooled → Verdict
  unfolding classify print
  spool_verdict c label s = elim s.mount_error [
    | some e ↦ spool_fails c e
    | none ↦ elim s.create_error [
      | some e ↦ spool_fails c e
      | none ↦ elim s.write_error [ some e ↦ spool_fails c e | none ↦ spool_end c label s ]
    ]
  ]

-- What the sessions, the services and the share answer in one run.
pub record Answers : Type 0 where
  pub keytab_entries : Loaded ℕ
  pub settings : Loaded Text
  pub login : Text → Option Text
  pub ticket : Loaded (Text × Text × ℕ)
  pub dial_error : Option Text
  pub session_error : Option Text
  pub share_names : Loaded (List Text)
  pub fax_answer : Answer FaxBody
  pub label_answer : Answer LabelBody
  pub spooled : Spooled

-- `Run`; the identifier of the fax is new.
unfoldable pub print_run :
    (Text → Text) → (Text → Text) → Text → Config → List Text → Answers → List Outcome
unfolding run login_verdict ticket_verdict session_verdict share_verdict fax_verdict zpl_verdict
    spool_verdict
print_run quote path_escape id c lines a =
    let (label, zpl_result) = zpl_verdict quote path_escape id a.label_answer in
    run (
      (krb5, login_verdict c a.keytab_entries a.settings a.login)
      ∷ (spn_stage, ticket_verdict c a.ticket)
      ∷ (smb, session_verdict c a.dial_error a.session_error)
      ∷ (share_stage, share_verdict quote c a.share_names)
      ∷ (fax, fax_verdict quote path_escape id lines a.fax_answer)
      ∷ (zpl, zpl_result)
      ∷ (submit, spool_verdict quote path_escape id c label a.spooled)
      ∷ [])
