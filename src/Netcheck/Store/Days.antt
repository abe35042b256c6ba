-- ===== src/Netcheck/Store/Days.antt =====
-- The operations of the store on the bytes of the days (internal/netcheck/store.go), where no system
-- call fails.
use mathlib.Core.List.{append-nil}
use pyck_debug_worker.Prelude.{
  ℕ, suc, [], ◌∷◌, ◌++◌, Option, none, some, Bool, true, false, ◌==◌, length, if◌then◌else◌, arith,
  ◌≡◌, ◌≢◌, refl, sym, ap, subst, ◌∙◌, ==_iff,
}
use pyck_debug_worker.Prelude.Text.{Text}
use pyck_debug_worker.Netcheck.Store.{
  newline, File, Store, no_errors, bytes_of, Written, buf_flush, buf_write, Result, close_file,
  unless_failed, created, put_written, put_bytes, put_header, open_new, is_open,
}
use pyck_debug_worker.Netcheck.Store.Content.{
  Disk, whole, added, HasGrown, buf_write-HasGrown, buf_flush-IsFlushed, bytes_of-append_bytes,
}

-- All bytes of a day, held back or not.
abbrev pub held : ℕ → Option File → Text
held d none = []
held d (some f) = if f.day == d then f.pending else []

abbrev pub content : ℕ → Store → Text
content d s = bytes_of d s.disk ++ held d s.file

-- The open file can be written, and has its header.
abbrev pub IsSoundFile : Option File → Disk → Type 0
IsSoundFile none disk = Unit {0}
IsSoundFile (some f) disk = (f.failed ≡ none) × (whole f.day f disk ≢ [])

abbrev pub IsSound : Store → Type 0
IsSound s = IsSoundFile s.file s.disk

-- What an operation leaves that writes `bytes` of each day.
abbrev pub Leaves : (ℕ → Text) → Store → Result → Type 0
Leaves bytes s (e, s') =
    (e ≡ none)
    × (s'.header ≡ s.header)
    × IsSound s'
    × ((d : ℕ) → content d s' ≡ content d s ++ bytes d)

pub close_file-Leaves :
    (file : Option File) (s : Store)
    → s.file ≡ file
    → IsSoundFile file s.disk
    → (let (e, s') = close_file no_errors file s in
        (e ≡ none)
        × (s'.header ≡ s.header)
        × (s'.file ≡ none)
        × ((d : ℕ) → bytes_of d s'.disk ≡ content d s))
unfolding buf_flush
close_file-Leaves none s e sound = (
  refl,
  refl,
  e,
  λ d. sym (append-nil (bytes_of d s.disk)) ∙ ap (λ f. bytes_of d s.disk ++ held d f) (sym e),
)
close_file-Leaves (some f) s e (fine, full) =
    let (ok, day, failed, pending, same) = buf_flush-IsFlushed f s.disk fine in
    (rw ok refl, refl, refl, λ d. same d ∙ ap (λ f. bytes_of d s.disk ++ held d f) (sym e))

-- What a day still lacks of its header.
abbrev pub missing : Text → Text → Text
missing header [] = header ++ newline
missing header (c ∷ s) = []

pub newline_there : (a b : Text) → a ++ (b ++ newline) ≢ []
newline_there [] [] e = cc
newline_there [] (c ∷ b) e = cc
newline_there (c ∷ a) b e = cc

module _ (path : ℕ → Text) where
  pub put_written_fine :
      (day : ℕ) (s : Store) (r : Written)
      → r.0 ≡ none
      → put_written path day s r ≡ (none, record s { file = some r.1; disk = r.2 })
  put_written_fine day s (none, f, disk) e = refl
  put_written_fine day s (some x, f, disk) e = cc

  -- The file that is open, after bytes are put to it.
  abbrev pub Puts : Text → File → Store → Result → Type 0
  Puts bytes f s r =
      (f' : File) × (disk' : Disk) × (r ≡ (none, record s { file = some f'; disk = disk' }))
      × HasGrown bytes f s.disk (none, f', disk')

  pub put_bytes-Puts :
      (bytes : Text) (f : File) (s : Store)
      → f.failed ≡ none
      → Puts bytes f s (put_bytes path no_errors bytes (some f) s)
  put_bytes-Puts bytes f s fine =
      let (ok, day, failed, grown) = buf_write-HasGrown bytes f s.disk fine in
      let (e, f', disk') = buf_write no_errors bytes f s.disk in
      (
        f',
        disk',
        put_written_fine f.day s (buf_write no_errors bytes f s.disk) ok,
        (refl, day, failed, grown),
      )

  -- What is open once a day is opened.
  abbrev pub Opens : ℕ → Text → Store → Result → Type 0
  Opens day bytes s (e, s') =
      (e ≡ none)
      × (s'.header ≡ s.header)
      × ((f : File) × (s'.file ≡ some f)
          × (f.day ≡ day)
          × (f.failed ≡ none)
          × (whole day f s'.disk ≢ []))
      × ((d : ℕ) → content d s' ≡ content d s ++ added d day bytes)

  abbrev opened_new : ℕ → File
  opened_new day = record { day = day; pending = []; failed = none }

  suc_zero : (n : ℕ) → (suc n == 0) ≡ false
  suc_zero n = ground arith

  pub same_day : (n : ℕ) → (n == n) ≡ true
  same_day n = ground arith

  pub nothing : (b : Bool) (n m : Text) → n ≡ [] → m ≡ [] → (if b then n else m) ≡ []
  nothing true n m e f = e
  nothing false n m e f = f

  header_cases :
      (old header : Text) (P : Text → Result → Type 0) (x y : Result)
      → (old ≡ [] → P (header ++ newline) x)
      → (old ≢ [] → P [] y)
      → P (missing header old) (if length old == 0 then x else y)
  header_cases [] header P x y empty full = empty refl
  header_cases (c ∷ s) header P x y empty full =
      subst (λ b. P [] (if b then x else y)) (sym (suc_zero (length s))) (full (λ e. cc))

  fresh_whole : (d day : ℕ) (disk : Disk) → whole d (opened_new day) disk ≡ bytes_of d disk
  fresh_whole d day disk =
      ap (λ t. bytes_of d disk ++ t) (nothing (day == d) [] [] refl refl)
      ∙ append-nil (bytes_of d disk)

  pub closed_content : (d : ℕ) (s : Store) → s.file ≡ none → content d s ≡ bytes_of d s.disk
  closed_content d s e = ap (λ f. bytes_of d s.disk ++ held d f) e ∙ append-nil (bytes_of d s.disk)

  put_header-Opens :
      (day : ℕ) (s : Store)
      → s.file ≡ none
      → Opens day (missing s.header (bytes_of day s.disk)) s (put_header path no_errors day s)
  put_header-Opens day s closed =
      header_cases (bytes_of day s.disk) s.header (λ bytes r. Opens day bytes s r) _ _
        (λ empty.
          let bytes = s.header ++ newline in
          let opened = record s { file = some (opened_new day) } in
          let (f', disk', e, (ok, same, failed, grown)) =
            put_bytes-Puts bytes (opened_new day) opened refl in
          subst (Opens day bytes s) (sym e) (
            refl,
            refl,
            (
              f',
              refl,
              same,
              failed,
              λ h. newline_there (whole day (opened_new day) s.disk) s.header (
                  ap (λ b. whole day (opened_new day) s.disk ++ (if b then bytes else []))
                    (sym (same_day day))
                  ∙ sym (grown day)
                  ∙ h),
            ),
            λ d.
                grown d
                ∙ ap (λ t. t ++ added d day bytes)
                    (fresh_whole d day s.disk ∙ sym (closed_content d s closed)),
          ))
        (λ full. (
          refl,
          refl,
          (opened_new day, refl, refl, refl, λ h. full (sym (fresh_whole day day s.disk) ∙ h)),
          λ d.
              fresh_whole d day s.disk
              ∙ sym (closed_content d s closed)
              ∙ sym (append-nil (content d s))
              ∙ ap (λ t. content d s ++ t) (sym (nothing (day == d) [] [] refl refl)),
        ))

  created_bytes : (d day : ℕ) (s : Store) → bytes_of d (created day s).disk ≡ bytes_of d s.disk
  created_bytes d day s = bytes_of-append_bytes d day [] s.disk ∙ go (day == d) (bytes_of d s.disk)
    where
      go : (b : Bool) (old : Text) → (if b then old ++ [] else old) ≡ old
      go true old = append-nil old
      go false old = refl

  pub open_new-Opens :
      (day : ℕ) (s : Store)
      → s.file ≡ none
      → Opens day (missing s.header (bytes_of day s.disk)) s (open_new path no_errors day s)
  open_new-Opens day s closed =
      let (e, header, file, same) = put_header-Opens day (created day s) closed in
      (
        e,
        header,
        file,
        λ d. same d ∙ (λ i.
            (created_bytes d day s i ++ held d s.file)
            ++ added d day (missing s.header (created_bytes day day s i))),
      )

  -- `open` at a day whose file is open, or not.
  pub is_open_cases :
      (day : ℕ) (file : Option File) (disk : Disk)
      → is_open path day file ≡ true
      → IsSoundFile file disk
      → (f : File) × (file ≡ some f) × (f.day ≡ day) × (f.failed ≡ none) × (whole day f disk ≢ [])
  is_open_cases day none disk e sound = cc
  is_open_cases day (some f) disk e (fine, full) =
      let same = (==_iff f.day day).0 e in
      (f, refl, same, fine, λ h. full (subst (λ d. whole d f disk ≡ []) (sym same) h))

  pub unless_failed_fine :
      (r : Result) (next : Store → Result) → r.0 ≡ none → unless_failed r next ≡ next r.1
  unless_failed_fine (none, s) next e = refl
  unless_failed_fine (some x, s) next e = cc
