-- ===== src/Netcheck/Upload/Pending.antt =====
-- What `uploadPending` does to the directory (internal/netcheck/upload.go).
use pyck_debug_worker.Prelude.{
  ℕ, List, [], ◌∷◌, Option, none, some, Bool, true, false, ◌&&◌, All, if◌then◌else◌, both_iff, inl,
  ◌≡◌, ◌≢◌, refl,
}
use pyck_debug_worker.Prelude.Text.{Text}
use pyck_debug_worker.Netcheck.Upload.{Posted, Archive, upload_day, upload_days, upload_pending}
use pyck_debug_worker.Netcheck.Upload.Sent.{
  IsSent, Moves, IsSent-first, IsSent-later, Moves-trans, upload_day-Uploads,
}

false-true : false ≢ true
false-true e = cc

module _ (hostname : Text) (day_text : ℕ → Text) (gzipped : Text → ℕ) (missing_file : Text)
    (post : ℕ → Posted) (rename_error : ℕ → Option Text) (ended : ℕ → Bool) where
  abbrev Result : Type 0
  Result = Bool × List (Bool × Text) × Archive

  -- Every file is where it was or properly sent; with the result true, the days' files are all sent.
  abbrev Ends : List ℕ → Archive → Result → Type 0
  Ends days a r =
      ((d : ℕ) → Moves (post d) d a r.2) × (r.0 ≡ true → All (λ d. IsSent (post d) d a r.2) days)

  if_Ends :
      (b : Bool) (days : List ℕ) (a : Archive) (x y : Result)
      → Ends days a x
      → Ends days a y
      → Ends days a (if b then x else y)
  if_Ends true days a x y left right = left
  if_Ends false days a x y left right = right

  All-later :
      (a b c : Archive) (days : List ℕ)
      → ((d : ℕ) → Moves (post d) d a b)
      → All (λ d. IsSent (post d) d b c) days
      → All (λ d. IsSent (post d) d a c) days
  All-later a b c [] moves sent = tt
  All-later a b c (d ∷ days) moves (sent, rest) =
      (IsSent-later (post d) d a b c (moves d) sent, All-later a b c days moves rest)

  upload_days-Ends :
      (days : List ℕ) (a : Archive)
      → Ends days a
          (upload_days hostname day_text gzipped missing_file post rename_error ended days a)
  unfolding upload_days
  upload_days-Ends [] a = (λ d. inl (refl, refl), λ ok. tt)
  upload_days-Ends (day ∷ days) a =
      let (line, b) = upload_day hostname day_text gzipped missing_file post rename_error day a in
      let (moves, sent) =
        upload_day-Uploads hostname day_text gzipped missing_file post rename_error day a in
      let (later, all_sent) = upload_days-Ends days b in
      let (all_ok, lines, c) =
        upload_days hostname day_text gzipped missing_file post rename_error ended days b in
      if_Ends (ended day) (day ∷ days) a (false, [], b) (line.0 && all_ok, line ∷ lines, c)
        (moves, λ ok. absurd (false-true ok))
        (
          λ d. Moves-trans (post d) d a b c (moves d) (later d),
          λ ok.
              let (fine, rest) = (both_iff line.0 all_ok).0 ok in
              (
                IsSent-first (post day) day a b c (sent fine) (later day),
                All-later a b c days moves (all_sent rest),
              ),
        )

  upload_pending-Ends :
      (error : Option Text) (days : List ℕ) (a : Archive)
      → Ends days a (
          upload_pending hostname day_text gzipped missing_file post rename_error ended error days
            a)
  unfolding upload_pending
  upload_pending-Ends (some e) days a = (λ d. inl (refl, refl), λ ok. absurd (false-true ok))
  upload_pending-Ends none days a = upload_days-Ends days a

  -- Whatever the receiver and the file system answer and whenever the context ends, the file of every
  -- day is left as it was, or was answered with 201 and ok and is now the sent file of that day with
  -- the same bytes.
  pub upload_pending-Moves :
      (error : Option Text) (days : List ℕ) (a : Archive) (d : ℕ)
      → Moves
          (post d)
          d
          a
          (upload_pending hostname day_text gzipped missing_file post rename_error ended error days
            a).2
  upload_pending-Moves error days a = (upload_pending-Ends error days a).0

  -- Where `uploadPending` returns true, the file of each of the days was answered with 201 and ok and is
  -- now the sent file of that day with the same bytes, so that none is left for the next attempt.
  pub upload_pending-IsSent :
      (error : Option Text) (days : List ℕ) (a : Archive)
      → (upload_pending hostname day_text gzipped missing_file post rename_error ended error days
          a).0
        ≡ true
      → All
          (λ d.
            IsSent
              (post d)
              d
              a
              (upload_pending hostname day_text gzipped missing_file post rename_error ended error
                days a).2)
          days
  upload_pending-IsSent error days a = (upload_pending-Ends error days a).1
