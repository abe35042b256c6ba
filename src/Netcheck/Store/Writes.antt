-- ===== src/Netcheck/Store/Writes.antt =====
-- What a sequence of calls of the store leaves in the files of the days (internal/netcheck/store.go),
-- where no system call fails.
use mathlib.Core.List.{append-nil, append_assoc}
use pyck_debug_worker.Prelude.{
  ℕ, [], ◌∷◌, ◌++◌, none, some, Bool, true, false, ◌==◌, if◌then◌else◌, ◌≡◌, ◌≢◌, refl, sym, ap,
  subst, ◌∙◌,
}
use pyck_debug_worker.Prelude.Text.{Text}
use pyck_debug_worker.Netcheck.Store.{
  newline, File, Store, no_errors, bytes_of, Result, close_file, close_locked, unless_failed,
  put_bytes, open_new, is_open, open_day, encoded, write,
}
use pyck_debug_worker.Netcheck.Store.Content.{whole, added}
use pyck_debug_worker.Netcheck.Store.Days.{
  held, content, IsSoundFile, IsSound, Leaves, close_file-Leaves, missing, newline_there,
  put_bytes-Puts, Opens, open_new-Opens, is_open_cases, closed_content, nothing, same_day,
}

pub missing_full : (header old : Text) → old ≢ [] → missing header old ≡ []
missing_full header [] full = absurd (full refl)
missing_full header (c ∷ s) full = refl

module _ (path : ℕ → Text) where
  added_none : (d day : ℕ) (bytes : Text) → bytes ≡ [] → added d day bytes ≡ []
  added_none d day bytes e = nothing path (day == d) bytes [] e refl

  already-Opens :
      (day : ℕ) (s : Store) (f : File)
      → s.file ≡ some f
      → f.day ≡ day
      → f.failed ≡ none
      → whole day f s.disk ≢ []
      → Opens path day (missing s.header (content day s)) s (none, s)
  already-Opens day s f e same fine full =
      let there : content day s ≢ [] =
        λ h. full (ap (λ file. bytes_of day s.disk ++ held day file) (sym e) ∙ h) in
      (
        refl,
        refl,
        (f, e, same, fine, full),
        λ d.
            sym (append-nil (content d s))
            ∙ ap (λ t. content d s ++ t)
                (sym (
                  added_none d day (missing s.header (content day s))
                    (missing_full s.header _ there))),
      )

  reopened-Opens :
      (day : ℕ) (s : Store) (r : Result)
      → r.0 ≡ none
      → r.1.header ≡ s.header
      → r.1.file ≡ none
      → ((d : ℕ) → bytes_of d r.1.disk ≡ content d s)
      → Opens path day
          (missing s.header (content day s))
          s
          (unless_failed r (open_new path no_errors day))
  reopened-Opens day s (some x, s') e header closed same = cc
  reopened-Opens day s (none, s') e header closed same =
      let (ok, header', file, grown) = open_new-Opens path day s' closed in
      (
        ok,
        header' ∙ header,
        file,
        λ d. grown d ∙ (λ i.
            (closed_content path d s' closed ∙ same d) i
            ++ added d day (missing (header i) (same day i))),
      )

  open_day-Opens :
      (day : ℕ) (s : Store)
      → IsSound s
      → Opens path day (missing s.header (content day s)) s (open_day path no_errors day s)
  unfolding open_day close_locked
  open_day-Opens day s sound =
      let (ok, header, closed, same) = close_file-Leaves s.file s refl sound in
      if_Opens (is_open path day s.file) _ _
        (λ e.
          let (f, file, day_same, fine, full) = is_open_cases path day s.file s.disk e sound in
          already-Opens day s f file day_same fine full)
        (reopened-Opens day s (close_locked no_errors s) ok header closed same)
    where
      if_Opens :
          (b : Bool) (x y : Result)
          → (b ≡ true → Opens path day (missing s.header (content day s)) s x)
          → Opens path day (missing s.header (content day s)) s y
          → Opens path day (missing s.header (content day s)) s (if b then x else y)
      if_Opens true x y opened reopened = opened refl
      if_Opens false x y opened reopened = reopened

  -- The bytes that a line adds to its day, behind the header where there is none.
  abbrev pub line_bytes : Text → Text → Text → Text
  line_bytes header old line = missing header old ++ (line ++ newline)

  put_line-Leaves :
      (day : ℕ) (bytes line : Text) (s : Store) (r : Result)
      → Opens path day bytes s r
      → Leaves
          (λ d. added d day (bytes ++ (line ++ newline)))
          s
          (unless_failed r (λ s. put_bytes path no_errors (line ++ newline) s.file s))
  put_line-Leaves day bytes line s (some x, s') (e, header, file, same) = cc
  put_line-Leaves day bytes line s (none, s') (e, header, (f, file, day_same, fine, full), same) =
      let (f', disk', put, (ok, same_file, failed, grown)) =
        put_bytes-Puts path (line ++ newline) f s' fine in
      subst (λ r. Leaves (λ d. added d day (bytes ++ (line ++ newline))) s r)
        (sym put ∙ ap (λ o. put_bytes path no_errors (line ++ newline) o s') (sym file))
        (
          refl,
          header,
          (
            failed,
            λ h. newline_there (whole f'.day f s'.disk) line (
                ap (λ b. whole f'.day f s'.disk ++ (if b then line ++ newline else []))
                  (sym (subst (λ k. (f.day == k) ≡ true) (sym same_file) (same_day path f.day)))
                ∙ sym (grown f'.day)
                ∙ h),
          ),
          λ d.
              grown d
              ∙ ap (λ file. (bytes_of d s'.disk ++ held d file) ++ added d f.day (line ++ newline))
                  (sym file)
              ∙ ap (λ t. t ++ added d f.day (line ++ newline)) (same d)
              ∙ ap (λ k. (content d s ++ added d day bytes) ++ added d k (line ++ newline)) day_same
              ∙ append_assoc (content d s) (added d day bytes) (added d day (line ++ newline))
              ∙ ap (λ t. content d s ++ t) (both_added (day == d)),
        )
    where
      both_added :
          (b : Bool)
          → (if b then bytes else []) ++ (if b then line ++ newline else [])
            ≡ (if b then bytes ++ (line ++ newline) else [])
      both_added true = refl
      both_added false = refl

  pub write-Leaves :
      (day : ℕ) (line : Text) (s : Store)
      → IsSound s
      → Leaves
          (λ d. added d day (line_bytes s.header (content day s) line))
          s
          (write path no_errors day (encoded line) s)
  unfolding write
  write-Leaves day line s sound =
      put_line-Leaves day (missing s.header (content day s)) line s (open_day path no_errors day s)
        (open_day-Opens day s sound)

  -- The other calls add no bytes.
  abbrev pub no_bytes : ℕ → Text
  no_bytes d = []

  pub close_locked-Leaves : (s : Store) → IsSound s → Leaves no_bytes s (close_locked no_errors s)
  unfolding close_locked
  close_locked-Leaves s sound =
      let (ok, header, closed, same) = close_file-Leaves s.file s refl sound in
      (
        ok,
        header,
        subst (λ file. IsSoundFile file (close_file no_errors s.file s).1.disk) (sym closed) tt,
        λ d.
            closed_content path d (close_file no_errors s.file s).1 closed
            ∙ same d
            ∙ sym (append-nil (content d s)),
      )
