-- ===== src/Netcheck/Store.antt =====
-- The day files (internal/netcheck/store.go). A day is its number, since the names of day files are
-- in the order of the days; the files of the directory are an association list from days to bytes.
-- What the system calls answer is given.
pub mod Content
pub mod Days
pub mod Writes
pub mod Log
pub mod Files
pub mod Tests
use pyck_debug_worker.Prelude.{
  ℕ, zero, suc, ◌+◌, ◌-◌, List, [], ◌∷◌, ◌++◌, Option, none, some, Bool, true, false, ltb, leb,
  ◌==◌, length, ℕ_discrete, if◌then◌else◌,
}
use pyck_debug_worker.Prelude.Text.{Text, codes}
use pyck_debug_worker.Prelude.Assoc.{Assoc, lookup, insert, delete}
use pyck_debug_worker.Netcheck.Stats.{sort}

abbrev pub newline : Text
newline = 10 ∷ []

-- The first bytes of a text, and the others.
abbrev pub take_bytes : ℕ → Text → Text
take_bytes zero s = []
take_bytes (suc n) [] = []
take_bytes (suc n) (c ∷ s) = c ∷ take_bytes n s

abbrev pub skip_bytes : ℕ → Text → Text
skip_bytes zero s = s
skip_bytes (suc n) [] = []
skip_bytes (suc n) (c ∷ s) = skip_bytes n s

-- The size of a `bufio.Writer`.
abbrev pub buffer_size : ℕ
buffer_size = 4096

-- The open file: its day, what its writer holds back, and the error that stays with the writer.
pub record File : Type 0 where
  pub day : ℕ
  pub pending : Text
  pub failed : Option Text

-- `store`, with the files of its directory; the header is encoded.
pub record Store : Type 0 where
  pub header : Text
  pub file : Option File
  pub disk : Assoc ℕ Text

-- The errors of the system calls that one operation makes; a write that fails may have written a
-- number of bytes before.
pub record Io : Type 0 where
  pub mkdir_error : Option Text
  pub open_error : Option Text
  pub stat_error : Option Text
  pub write_error : Option (ℕ × Text)
  pub close_error : Option Text

abbrev pub no_errors : Io
no_errors = record {
  mkdir_error = none;
  open_error = none;
  stat_error = none;
  write_error = none;
  close_error = none;
}

-- What a file of the directory holds.
abbrev pub or_empty : Option Text → Text
or_empty none = []
or_empty (some s) = s

unfoldable pub bytes_of : ℕ → Assoc ℕ Text → Text
unfolding lookup ℕ_discrete
bytes_of day disk = or_empty (lookup ℕ_discrete day disk)

-- A write to a file that was opened to append.
unfoldable pub append_bytes : ℕ → Text → Assoc ℕ Text → Assoc ℕ Text
unfolding insert ℕ_discrete bytes_of
append_bytes day bytes disk = insert ℕ_discrete day (bytes_of day disk ++ bytes) disk

-- A writer's result: its error, the file, and the directory.
abbrev pub Written : Type 0
Written = Option Text × File × Assoc ℕ Text

-- The write of `out`, after which the writer holds back `rest`.
abbrev pub write_out : Option (ℕ × Text) → Text → Text → File → Assoc ℕ Text → Written
write_out none out rest f disk = (none, record f { pending = rest }, append_bytes f.day out disk)
write_out (some (n, e)) out rest f disk =
    (some e, record f { failed = some e }, append_bytes f.day (take_bytes n out) disk)

-- `bufio.Writer.Flush`.
abbrev pub flush_pending : Option (ℕ × Text) → Text → File → Assoc ℕ Text → Written
flush_pending answer [] f disk = (none, f, disk)
flush_pending answer (c ∷ s) f disk = write_out answer (c ∷ s) [] f disk

unfoldable pub buf_flush : Io → File → Assoc ℕ Text → Written
unfolding append_bytes
buf_flush io f disk = elim f.failed [
  | some e ↦ (some e, f, disk)
  | none ↦ flush_pending io.write_error f.pending f disk
]

-- `bufio.Writer.Write` beyond the buffer: the buffer is filled and written, and what is left is held
-- back, unless it exceeds the buffer too.
abbrev pub overflow : Io → Text → File → Assoc ℕ Text → Written
overflow io bytes f disk =
    let left = skip_bytes (buffer_size - length f.pending) bytes in
    if ltb buffer_size (length left)
    then write_out io.write_error (f.pending ++ bytes) [] f disk
    else write_out io.write_error (f.pending ++ take_bytes (buffer_size - length f.pending) bytes)
        left f disk

abbrev pub write_bytes : Io → Text → Text → File → Assoc ℕ Text → Written
write_bytes io bytes [] f disk =
    if leb (length bytes) buffer_size
    then (none, record f { pending = bytes }, disk)
    else write_out io.write_error bytes [] f disk
write_bytes io bytes (c ∷ s) f disk =
    if leb (length ((c ∷ s) ++ bytes)) buffer_size
    then (none, record f { pending = f.pending ++ bytes }, disk)
    else overflow io bytes f disk

unfoldable pub buf_write : Io → Text → File → Assoc ℕ Text → Written
unfolding append_bytes
buf_write io bytes f disk = elim f.failed [
  | some e ↦ (some e, f, disk)
  | none ↦ write_bytes io bytes f.pending f disk
]

-- `errors.Join` of two.
abbrev pub join_errors : Option Text → Option Text → Option Text
join_errors none f = f
join_errors (some e) none = some e
join_errors (some e) (some f) = some (e ++ (newline ++ f))

abbrev pub in_netcheck : Option Text → Option Text
in_netcheck none = none
in_netcheck (some e) = some (codes "netcheck: " ++ e)

abbrev pub Result : Type 0
Result = Option Text × Store

-- `closeLocked`: the file is let go, whatever its flush and its close answer.
abbrev pub close_file : Io → Option File → Store → Result
close_file io none s = (none, s)
close_file io (some f) s =
    let (e, f', disk) = buf_flush io f s.disk in
    (in_netcheck (join_errors e io.close_error), record s { file = none; disk = disk })

unfoldable pub close_locked : Io → Store → Result
unfolding buf_flush
close_locked io s = close_file io s.file s

-- What `json.Marshal` makes of a record.
pub data Encoded : Type 0 where
  encoded : Text → Encoded
  not_encoded : Text → Encoded

-- A step that runs where the one before it did not fail.
abbrev pub unless_failed : Result → (Store → Result) → Result
unless_failed (some e, s) next = (some e, s)
unless_failed (none, s) next = next s

abbrev pub fails : Option Text → Store → (Store → Result) → Result
fails (some e) s next = (some (codes "netcheck: " ++ e), s)
fails none s next = next s

-- `os.O_CREATE`: the file is there, empty where it is new.
abbrev pub created : ℕ → Store → Store
created day s = record s { disk = append_bytes day [] s.disk }

module _ (path : ℕ → Text) where
  abbrev pub put_written : ℕ → Store → Written → Result
  put_written day s (none, f, disk) = (none, record s { file = some f; disk = disk })
  put_written day s (some e, f, disk) = (
    some (codes "netcheck: write " ++ (path day ++ (codes ": " ++ e))),
    record s { file = some f; disk = disk },
  )

  -- `s.buf.Write` of a line.
  abbrev pub put_bytes : Io → Text → Option File → Store → Result
  put_bytes io bytes none s = (none, s)
  put_bytes io bytes (some f) s = put_written f.day s (buf_write io bytes f s.disk)

  -- A new or empty file gets the header.
  abbrev pub put_header : Io → ℕ → Store → Result
  put_header io day s =
      let opened = record s { file = some (record { day = day; pending = []; failed = none }) } in
      if length (bytes_of day s.disk) == 0
      then put_bytes io (s.header ++ newline) opened.file opened
      else (none, opened)

  abbrev pub open_new : Io → ℕ → Store → Result
  open_new io day s =
      fails io.mkdir_error s
        (λ s. fails io.open_error s (λ s. fails io.stat_error (created day s) (put_header io day)))

  abbrev pub is_open : ℕ → Option File → Bool
  is_open day none = false
  is_open day (some f) = f.day == day

  -- `open`.
  unfoldable pub open_day : Io → ℕ → Store → Result
  unfolding close_locked append_bytes bytes_of buf_write
  open_day io day s =
      if is_open day s.file then (none, s) else unless_failed (close_locked io s) (open_new io day)

  -- `write` of a record, told by its day and its encoding.
  unfoldable pub write : Io → ℕ → Encoded → Store → Result
  unfolding open_day buf_write
  write io day (not_encoded e) s = (some (codes "netcheck: encode: " ++ e), s)
  write io day (encoded line) s =
      unless_failed (open_day io day s) (λ s. put_bytes io (line ++ newline) s.file s)

  -- `flush` at a time of the day `today`.
  abbrev pub flush_file : Io → ℕ → Option File → Store → Result
  flush_file io today none s = (none, s)
  flush_file io today (some f) s =
      if ltb f.day today then close_locked io s else put_written f.day s (buf_flush io f s.disk)

  unfoldable pub flush : Io → ℕ → Store → Result
  unfolding close_locked buf_flush
  flush io today s = flush_file io today s.file s

-- `close`.
unfoldable pub close : Io → Store → Store
unfolding close_locked
close io s = (close_locked io s).1

-- The days of the directory's files before `today`.
abbrev pub before_today : ℕ → Assoc ℕ Text → List ℕ
before_today today [] = []
before_today today ((day, bytes) ∷ files) =
    if ltb day today then day ∷ before_today today files else before_today today files

abbrev pub is_past : ℕ → Option File → Bool
is_past today none = false
is_past today (some f) = ltb f.day today

-- `finished`: the error, or the days; `filepath.Glob` only fails on a malformed pattern.
unfoldable pub finished : Io → ℕ → Store → Result × List ℕ
unfolding close_locked sort
finished io today s =
    let (e, s') = if is_past today s.file then close_locked io s else (none, s) in
    elim e [ some e ↦ ((some e, s'), []) | none ↦ ((none, s'), sort (before_today today s'.disk)) ]

-- The calls that the loops make, in any order; a time is told by its day.
pub data Op : Type 0 where
  write_line : ℕ → Text → Op
  flush_at : ℕ → Op
  list_at : ℕ → Op
  close_now : Op

unfoldable pub perform : (ℕ → Text) → Io → Op → Store → Store
unfolding write flush finished close
perform path io (write_line day line) s = (write path io day (encoded line) s).1
perform path io (flush_at today) s = (flush path io today s).1
perform path io (list_at today) s = (finished io today s).0.1
perform path io close_now s = close io s

unfoldable pub perform_all : (ℕ → Text) → Io → List Op → Store → Store
unfolding perform
perform_all path io [] s = s
perform_all path io (op ∷ ops) s = perform_all path io ops (perform path io op s)
