-- ===== src/Netcheck/Store/Files.antt =====
-- The day files that the calls of the store leave (internal/netcheck/store.go), where no system call fails.
use mathlib.Core.List.{append-nil, append_assoc}
use pyck_debug_worker.Prelude.{
  ℕ, List, [], ◌∷◌, ◌++◌, none, ◌==◌, if◌then◌else◌, Bool-cases, inl, inr, ◌≡◌, ◌≢◌, refl, sym, ap,
  subst, ◌∙◌, ==_iff,
}
use pyck_debug_worker.Prelude.Text.{Text}
use pyck_debug_worker.Netcheck.Store.{
  newline, Store, no_errors, bytes_of, close, close_locked, Op, write_line, flush_at, list_at,
  close_now, perform, perform_all,
}
use pyck_debug_worker.Netcheck.Store.Days.{
  content, IsSoundFile, IsSound, close_file-Leaves, missing, newline_there, closed_content,
}
use pyck_debug_worker.Netcheck.Store.Writes.{missing_full, line_bytes}
use pyck_debug_worker.Netcheck.Store.Log.{
  op_bytes, perform-Becomes, line_of, lines_of, joined, day_file,
}

module _ (path : ℕ → Text) where
  line_there : (header old line : Text) → old ++ line_bytes path header old line ≢ []
  line_there header old line h =
      newline_there (old ++ missing header old) line
        (append_assoc old (missing header old) (line ++ newline) ∙ h)

  regroup : (a b c d e : Text) → (a ++ (b ++ (c ++ d))) ++ e ≡ a ++ (b ++ (c ++ (d ++ e)))
  regroup a b c d e =
      append_assoc a (b ++ (c ++ d)) e
      ∙ ap (λ t. a ++ t) (append_assoc b (c ++ d) e ∙ ap (λ t. b ++ t) (append_assoc c d e))

  day_file_step :
      (header old line : Text) (lines : List Text)
      → day_file path header (old ++ line_bytes path header old line) lines
        ≡ day_file path header old (line ∷ lines)
  day_file_step header old line [] = refl
  day_file_step header old line (next ∷ lines) =
      ap (λ t. (old ++ line_bytes path header old line) ++ (t ++ joined path (next ∷ lines)))
        (missing_full header _ (line_there header old line))
      ∙ regroup old (missing header old) line newline (joined path (next ∷ lines))

  op_step :
      (op : Op) (s : Store) (d : ℕ) (lines : List Text)
      → day_file path s.header (content d s ++ op_bytes path op s d) lines
        ≡ day_file path s.header (content d s) (line_of path op d ++ lines)
  op_step (write_line day line) s d lines = elim (Bool-cases (day == d)) [
    | inl e ↦
        subst
          (λ b.
            day_file path s.header
              (content d s ++ (if b then line_bytes path s.header (content day s) line else []))
              lines
            ≡ day_file path s.header (content d s) ((if b then line ∷ [] else []) ++ lines))
          (sym e)
          (subst
            (λ k.
              day_file path s.header (content d s ++ line_bytes path s.header (content k s) line)
                lines
              ≡ day_file path s.header (content d s) (line ∷ lines))
            (sym ((==_iff day d).0 e)) (day_file_step s.header (content d s) line lines))
    | inr e ↦
        subst
          (λ b.
            day_file path s.header
              (content d s ++ (if b then line_bytes path s.header (content day s) line else []))
              lines
            ≡ day_file path s.header (content d s) ((if b then line ∷ [] else []) ++ lines))
          (sym e) (ap (λ t. day_file path s.header t lines) (append-nil (content d s)))
  ]
  op_step (flush_at today) s d lines =
      ap (λ t. day_file path s.header t lines) (append-nil (content d s))
  op_step (list_at today) s d lines =
      ap (λ t. day_file path s.header t lines) (append-nil (content d s))
  op_step close_now s d lines = ap (λ t. day_file path s.header t lines) (append-nil (content d s))

  performed :
      (ops : List Op) (s : Store)
      → IsSound s
      → IsSound (perform_all path no_errors ops s)
        × ((d : ℕ)
            → content d (perform_all path no_errors ops s)
              ≡ day_file path s.header (content d s) (lines_of path ops d))
  unfolding perform_all
  performed [] s sound = (sound, λ d. refl)
  performed (op ∷ ops) s sound =
      let (header, sound', same) = perform-Becomes path op s sound in
      let (sound'', rest) = performed ops (perform path no_errors op s) sound' in
      (
        sound'',
        λ d.
            rest d
            ∙ (λ i. day_file path (header i) (same d i) (lines_of path ops d))
            ∙ op_step op s d (lines_of path ops d),
      )

  -- Where no system call fails, any writes, flushes, listings and closes from a start on, in any order
  -- and for any days, and a close at last, leave the file of each day with what it held at the start,
  -- then the header once if that was nothing and a line follows, and then the lines of that day, all of
  -- them and in the order of their writes.
  pub close-perform_all :
      (ops : List Op) (s : Store)
      → s.file ≡ none
      → (d : ℕ)
      → bytes_of d (close no_errors (perform_all path no_errors ops s)).disk
        ≡ day_file path s.header (bytes_of d s.disk) (lines_of path ops d)
  unfolding close close_locked
  close-perform_all ops s closed d =
      let (sound, same) =
        performed ops s (subst (λ file. IsSoundFile file s.disk) (sym closed) tt) in
      let last = perform_all path no_errors ops s in
      let (ok, header, shut, kept) = close_file-Leaves last.file last refl sound in
      kept d
      ∙ same d
      ∙ ap (λ t. day_file path s.header t (lines_of path ops d)) (closed_content path d s closed)
