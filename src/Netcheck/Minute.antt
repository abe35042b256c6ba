-- ===== src/Netcheck/Minute.antt =====
-- The end of a minute: `flushMinute` (internal/netcheck/netcheck.go). The store is given by the error
-- of writing each record and by that of flushing the file.
pub mod Lines
pub mod Tests
use pyck_debug_worker.Prelude.{ℕ, List, [], ◌∷◌, ◌++◌, Option, none, some}
use pyck_debug_worker.Prelude.Text.{Text}
use pyck_debug_worker.Netcheck.Agg.{Agg}
use pyck_debug_worker.Netcheck.Agg.Flush.{Aggregate, flush}
use pyck_debug_worker.Netcheck.Trace.{Jumps, observe}

-- A line on stdout: of a record, or of the error of the store.
pub data Line : Type 0 where
  record_line : Aggregate → Line
  store_line : Text → Line

-- `if err != nil && failed == nil { failed = err }`.
abbrev pub keep_first : Option Text → Option Text → Option Text
keep_first none err = err
keep_first (some e) err = some e

-- The loop over the records: the lines, and `failed`.
unfoldable pub write_records :
    (Aggregate → Option Text) → List Aggregate → Option Text → List Line × Option Text
write_records write [] failed = ([], failed)
write_records write (rec ∷ recs) failed =
    let (lines, failed') = write_records write recs (keep_first failed (write rec)) in
    (record_line rec ∷ lines, failed')

abbrev pub store_lines : Option Text → List Line
store_lines none = []
store_lines (some e) = store_line e ∷ []

-- What a flushed minute leaves: the lines, and the two states that it changes.
abbrev pub Flushed : Type 0
Flushed = List Line × Agg × Jumps

abbrev pub finish :
    (Aggregate → Option Text) → Option Text → Jumps → Option (List Aggregate × Agg) → Option Flushed
finish write flush_error jumps none = none
finish write flush_error jumps (some (recs, agg)) =
    let (lines, failed) = write_records write recs none in
    some (lines ++ store_lines (keep_first failed flush_error), agg, observe recs jumps)

-- `flushMinute`; `none` is a panic of `agg.flush`.
unfoldable pub flush_minute :
    (Aggregate → Option Text) → Option Text → ℕ → Agg → Jumps → Option Flushed
unfolding flush observe write_records
flush_minute write flush_error minute agg jumps = finish write flush_error jumps (flush minute agg)
