-- ===== src/Netcheck/Minute/Lines.antt =====
-- What a minute prints (internal/netcheck/netcheck.go).
use pyck_debug_worker.Prelude.{ℕ, List, [], ◌∷◌, ◌++◌, Option, none, some, map, ◌≡◌, refl, ap, ◌∙◌}
use pyck_debug_worker.Prelude.Text.{Text}
use pyck_debug_worker.Netcheck.Agg.{Agg}
use pyck_debug_worker.Netcheck.Agg.Flush.{Aggregate, flush}
use pyck_debug_worker.Netcheck.Trace.{Jumps, observe}
use pyck_debug_worker.Netcheck.Minute.{
  record_line, keep_first, write_records, store_lines, finish, flush_minute,
}

-- The first error of a list of outcomes.
abbrev pub first_error : List (Option Text) → Option Text
first_error [] = none
first_error (none ∷ errs) = first_error errs
first_error (some e ∷ errs) = some e

write_records-lines :
    (write : Aggregate → Option Text) (recs : List Aggregate) (failed : Option Text)
    → (write_records write recs failed).0 ≡ map record_line recs
unfolding write_records
write_records-lines write [] failed = refl
write_records-lines write (rec ∷ recs) failed =
    ap (λ l. record_line rec ∷ l) (write_records-lines write recs (keep_first failed (write rec)))

write_records-failed :
    (write : Aggregate → Option Text) (recs : List Aggregate) (failed last : Option Text)
    → keep_first (write_records write recs failed).1 last
      ≡ keep_first failed (first_error (map write recs ++ last ∷ []))
unfolding write_records
write_records-failed write [] none none = refl
write_records-failed write [] none (some e) = refl
write_records-failed write [] (some e) last = refl
write_records-failed write (rec ∷ recs) none last =
    write_records-failed write recs (write rec) last
    ∙ joined (write rec) (map write recs ++ last ∷ [])
  where
    joined :
        (err : Option Text) (errs : List (Option Text))
        → keep_first err (first_error errs) ≡ first_error (err ∷ errs)
    joined none errs = refl
    joined (some e) errs = refl
write_records-failed write (rec ∷ recs) (some e) last =
    write_records-failed write recs (some e) last

-- A minute that `agg.flush` ends with some records prints one line for each of them, in their order and
-- whether or not it could be stored, and behind them one line with the first error, of the writes or
-- else of the file's flush, if there was any; the latency watch sees the same records.
pub flush_minute-lines :
    (write : Aggregate → Option Text) (flush_error : Option Text) (minute : ℕ) (agg agg' : Agg)
    (jumps : Jumps) (recs : List Aggregate)
    → flush minute agg ≡ some (recs, agg')
    → flush_minute write flush_error minute agg jumps
      ≡ some (
        map record_line recs ++ store_lines (first_error (map write recs ++ flush_error ∷ [])),
        agg',
        observe recs jumps,
      )
unfolding flush_minute
flush_minute-lines write flush_error minute agg agg' jumps recs h =
    ap (finish write flush_error jumps) h ∙ (λ i. some (
      write_records-lines write recs none i
          ++ store_lines (write_records-failed write recs none flush_error i),
      agg',
      observe recs jumps,
    ))
