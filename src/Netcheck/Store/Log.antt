-- ===== src/Netcheck/Store/Log.antt =====
-- The files of the days after any calls of the store (internal/netcheck/store.go), where no system call
-- fails.
use mathlib.Core.List.{append-nil}
use pyck_debug_worker.Prelude.{
  ℕ, List, [], ◌∷◌, ◌++◌, Option, none, some, Bool, true, false, ltb, ◌==◌, if◌then◌else◌, ◌≡◌,
  refl, sym, ap, subst, ◌∙◌,
}
use pyck_debug_worker.Prelude.Text.{Text}
use pyck_debug_worker.Netcheck.Store.{
  newline, File, Store, no_errors, bytes_of, buf_flush, Result, close_locked, put_written,
  flush_file, flush, close, before_today, is_past, finished, Op, write_line, flush_at, list_at,
  close_now, perform,
}
use pyck_debug_worker.Netcheck.Store.Content.{whole, added, buf_flush-IsFlushed}
use pyck_debug_worker.Netcheck.Store.Days.{
  held, content, IsSoundFile, IsSound, Leaves, missing, nothing, put_written_fine,
}
use pyck_debug_worker.Netcheck.Stats.{sort}
use pyck_debug_worker.Netcheck.Store.Writes.{
  line_bytes, write-Leaves, no_bytes, close_locked-Leaves,
}

module _ (path : ℕ → Text) where
  flushed-Leaves :
      (f : File) (s : Store)
      → s.file ≡ some f
      → IsSoundFile (some f) s.disk
      → Leaves (no_bytes path) s (put_written path f.day s (buf_flush no_errors f s.disk))
  flushed-Leaves f s e (fine, full) =
      let (ok, day, failed, pending, same) = buf_flush-IsFlushed f s.disk fine in
      let written = buf_flush no_errors f s.disk in
      let kept : (d : ℕ) → whole d written.1 written.2 ≡ whole d f s.disk = λ d.
        ap (λ t. bytes_of d written.2 ++ t)
          (nothing path (written.1.day == d) written.1.pending [] pending refl)
        ∙ append-nil (bytes_of d written.2)
        ∙ same d in
      subst (Leaves (no_bytes path) s) (sym (put_written_fine path f.day s written ok)) (
        refl,
        refl,
        (
          failed,
          λ h. full (sym (kept f.day) ∙ subst (λ d. whole d written.1 written.2 ≡ []) day h),
        ),
        λ d.
            kept d
            ∙ ap (λ file. bytes_of d s.disk ++ held d file) (sym e)
            ∙ sym (append-nil (content d s)),
      )

  if_Leaves :
      (b : Bool) (s : Store) (x y : Result)
      → Leaves (no_bytes path) s x
      → Leaves (no_bytes path) s y
      → Leaves (no_bytes path) s (if b then x else y)
  if_Leaves true s x y left right = left
  if_Leaves false s x y left right = right

  flush_file-Leaves :
      (today : ℕ) (file : Option File) (s : Store)
      → s.file ≡ file
      → IsSound s
      → Leaves (no_bytes path) s (flush_file path no_errors today file s)
  flush_file-Leaves today none s e sound = (refl, refl, sound, λ d. sym (append-nil (content d s)))
  flush_file-Leaves today (some f) s e sound =
      if_Leaves (ltb f.day today) s _ _ (close_locked-Leaves path s sound)
        (flushed-Leaves f s e (subst (λ file. IsSoundFile file s.disk) e sound))

  finish_past-Leaves :
      (today : ℕ) (s : Store)
      → IsSound s
      → Leaves
          (no_bytes path)
          s
          (if is_past today s.file then close_locked no_errors s else (none, s))
  finish_past-Leaves today s sound =
      if_Leaves (is_past today s.file) s _ _ (close_locked-Leaves path s sound)
        (refl, refl, sound, λ d. sym (append-nil (content d s)))

  listed-Leaves :
      (today : ℕ) (s : Store) (r : Result)
      → Leaves (no_bytes path) s r
      → (let result : Result × List ℕ = elim r.0 as (λ e. Result × List ℕ) [
        | some e ↦ ((some e, r.1), [])
        | none ↦ ((none, r.1), sort (before_today today r.1.disk))
      ] in
          Leaves (no_bytes path) s result.0)
  listed-Leaves today s (none, s') left = left
  listed-Leaves today s (some x, s') left = left

  -- The bytes that a call adds to each day.
  abbrev pub op_bytes : Op → Store → ℕ → Text
  op_bytes (write_line day line) s d = added d day (line_bytes path s.header (content day s) line)
  op_bytes (flush_at today) s d = []
  op_bytes (list_at today) s d = []
  op_bytes close_now s d = []

  abbrev pub Becomes : (ℕ → Text) → Store → Store → Type 0
  Becomes bytes s s' =
      (s'.header ≡ s.header) × IsSound s' × ((d : ℕ) → content d s' ≡ content d s ++ bytes d)

  Leaves-Becomes :
      (bytes : ℕ → Text) (s : Store) (r : Result) → Leaves bytes s r → Becomes bytes s r.1
  Leaves-Becomes bytes s (e, s') (ok, header, sound, same) = (header, sound, same)

  pub perform-Becomes :
      (op : Op) (s : Store) → IsSound s → Becomes (op_bytes op s) s (perform path no_errors op s)
  unfolding perform flush finished close
  perform-Becomes (write_line day line) s sound =
      Leaves-Becomes _ s _ (write-Leaves path day line s sound)
  perform-Becomes (flush_at today) s sound =
      Leaves-Becomes _ s _ (flush_file-Leaves today s.file s refl sound)
  perform-Becomes (list_at today) s sound =
      Leaves-Becomes _ s _ (listed-Leaves today s _ (finish_past-Leaves today s sound))
  perform-Becomes close_now s sound = Leaves-Becomes _ s _ (close_locked-Leaves path s sound)

  -- The lines that some calls write for a day, and the bytes of the day behind those it had.
  abbrev pub line_of : Op → ℕ → List Text
  line_of (write_line day line) d = if day == d then line ∷ [] else []
  line_of (flush_at today) d = []
  line_of (list_at today) d = []
  line_of close_now d = []

  abbrev pub lines_of : List Op → ℕ → List Text
  lines_of [] d = []
  lines_of (op ∷ ops) d = line_of op d ++ lines_of ops d

  abbrev pub joined : List Text → Text
  joined [] = []
  joined (line ∷ lines) = line ++ (newline ++ joined lines)

  abbrev pub day_file : Text → Text → List Text → Text
  day_file header old [] = old
  day_file header old (line ∷ lines) = old ++ (missing header old ++ joined (line ∷ lines))
