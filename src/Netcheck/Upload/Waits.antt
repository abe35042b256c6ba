-- ===== src/Netcheck/Upload/Waits.antt =====
-- When finished days are uploaded (internal/netcheck/upload.go).
use pyck_debug_worker.Prelude.{ℕ, ◌+◌, ◌%◌, ◌≤◌, ◌<◌, ◌≡◌, arith}
use pyck_debug_worker.Netcheck.Upload.{day_length, upload_after_midnight, until_after_midnight}

-- The wait ends one minute past a midnight, and that of the next day: it is longer than that minute and
-- no longer than a day and the minute.
pub until_after_midnight_bounds :
    (now : ℕ)
    → ((now + until_after_midnight now) % day_length ≡ upload_after_midnight)
      × (upload_after_midnight < until_after_midnight now)
      × (until_after_midnight now ≤ day_length + upload_after_midnight)
unfolding until_after_midnight
until_after_midnight_bounds now = (omega arith, omega arith, omega arith)
