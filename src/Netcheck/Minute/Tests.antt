-- ===== src/Netcheck/Minute/Tests.antt =====
-- A minute of one target that the store cannot write (internal/netcheck/netcheck.go).
use pyck_debug_worker.Prelude.{ℕ_discrete, List, [], ◌∷◌, Option, none, some, ◌≡◌, refl}
use pyck_debug_worker.Prelude.Text.{Text, codes, text_discrete}
use pyck_debug_worker.Prelude.Assoc.{lookup, insert, delete}
use pyck_debug_worker.Netcheck.Types.{
  Target, v4, short, default_port, addr_discrete, target_discrete, mode_discrete,
}
use pyck_debug_worker.Netcheck.Agg.{Agg, new_agg, register_modes, add_buckets, key_discrete}
use pyck_debug_worker.Netcheck.Agg.Buckets.{empty_bucket}
use pyck_debug_worker.Netcheck.Agg.Flush.{
  Aggregate, aggregate, with_idle, flush, flush_targets, flush_modes, forget,
}

abbrev dev : Target
dev = record { host = codes "dev"; ip = v4 192 0 2 1; port = default_port; roots = none }

abbrev measured : Agg
measured = register_modes dev (short ∷ []) new_agg

abbrev full_disk : Aggregate → Option Text
full_disk rec = some (codes "no space left")

abbrev minute_records : List Aggregate
minute_records = aggregate 60 dev short empty_bucket ∷ []

flushed : flush 60 measured ≡ some (minute_records, measured)
unfolding text_discrete addr_discrete target_discrete mode_discrete key_discrete lookup insert
    delete new_agg register_modes add_buckets empty_bucket aggregate with_idle flush flush_targets
    flush_modes forget ℕ_discrete
flushed = refl
