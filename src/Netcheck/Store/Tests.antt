-- ===== src/Netcheck/Store/Tests.antt =====
-- Lines of two days and a flush between them (internal/netcheck/store.go).
use pyck_debug_worker.Prelude.{List, [], ◌∷◌, none, ◌≡◌, refl, ℕ_discrete}
use pyck_debug_worker.Prelude.Text.{codes, print}
use pyck_debug_worker.Netcheck.Store.{
  Store, no_errors, bytes_of, close, Op, write_line, flush_at, list_at, perform_all,
}
use pyck_debug_worker.Netcheck.Store.Log.{lines_of, day_file}
use pyck_debug_worker.Netcheck.Store.Files.{close-perform_all}

abbrev empty_store : Store
empty_store = record { header = codes "h"; file = none; disk = (7, codes "h\nx\n") ∷ [] }

abbrev calls : List Op
calls =
    write_line 7 (codes "a")
    ∷ write_line 8 (codes "b")
    ∷ flush_at 8
    ∷ write_line 8 (codes "c")
    ∷ list_at 9
    ∷ []

close-perform_all_example :
    bytes_of 8 (close no_errors (perform_all print no_errors calls empty_store)).disk
    ≡ day_file print (codes "h") (bytes_of 8 empty_store.disk) (lines_of print calls 8)
close-perform_all_example = close-perform_all print calls empty_store refl 8

-- A file that was there is appended to, and a new one starts with the header.
two_days :
    ((close no_errors (perform_all print no_errors calls empty_store)).disk
      ≡ (7, codes "h\nx\na\n") ∷ (8, codes "h\nb\nc\n") ∷ [])
unfolding close perform_all ℕ_discrete print
two_days = refl
