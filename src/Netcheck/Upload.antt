-- ===== src/Netcheck/Upload.antt =====
-- The upload of finished days (internal/netcheck/upload.go). The directory is the files that are not
-- sent and those that are, by their days; the answers of the receiver are given.
pub mod Sent
pub mod Waits
pub mod Pending
pub mod Tests
use pyck_debug_worker.Prelude.{
  ℕ, ◌+◌, ◌-◌, ◌*◌, ◌/◌, ◌^◌, List, [], ◌∷◌, ◌++◌, Option, none, some, Bool, true, false, ◌&&◌, not,
  ◌==◌, length, ℕ_discrete, if◌then◌else◌,
}
use pyck_debug_worker.Prelude.Text.{Text, codes, print}
use pyck_debug_worker.Prelude.Assoc.{Assoc, lookup, insert, delete}

abbrev pub upload_retry : ℕ
upload_retry = 3600 * 10 ^ 9

abbrev pub upload_after_midnight : ℕ
upload_after_midnight = 60 * 10 ^ 9

abbrev pub day_length : ℕ
day_length = 86400 * 10 ^ 9

-- `untilAfterMidnight`.
unfoldable pub until_after_midnight : ℕ → ℕ
until_after_midnight now =
    ((now / day_length) * day_length + (day_length + upload_after_midnight)) - now

-- `uploadReply`, or the error of its decoding.
pub data UploadReply : Type 0 where
  undecodable : Text → UploadReply
  reply : Bool → Text → UploadReply

-- What a post ends with: an error of the gzip writer, the request or the transport; or a response by
-- its status code, its status and its body.
pub data Posted : Type 0 where
  not_posted : Text → Posted
  response : ℕ → Text → UploadReply → Posted

-- The day files.
pub record Archive : Type 0 where
  pub disk : Assoc ℕ Text
  pub sent : Assoc ℕ Text

-- `os.Rename` to the name of a sent file.
unfoldable pub rename_sent : ℕ → Text → Archive → Archive
unfolding insert delete ℕ_discrete
rename_sent day raw a = record {
  disk = delete ℕ_discrete day a.disk;
  sent = insert ℕ_discrete day raw a.sent;
}

-- The result of `uploadDay`, with the directory behind it.
abbrev pub Uploaded : Type 0
Uploaded = (Bool × Text) × Archive

-- `gzipped` is the size of the compressed body.
module _ (hostname : Text) (day_text : ℕ → Text) (gzipped : Text → ℕ) where
  abbrev pub file_name : ℕ → Text
  file_name day = hostname ++ (codes "-netcheck-" ++ (day_text day ++ codes ".json.gz"))

  abbrev pub renamed : ℕ → Text → Text → Option Text → Archive → Uploaded
  renamed day raw key (some e) a =
      ((false, file_name day ++ (codes " uploaded as " ++ (key ++ (codes ", but: " ++ e)))), a)
  renamed day raw key none a = (
    (
      true,
      codes "posted "
          ++ (print (length raw)
              ++ (codes " bytes ("
                  ++ (print (gzipped raw)
                      ++ (codes " gzipped) as " ++ (file_name day ++ (codes ", key " ++ key)))))),
    ),
    rename_sent day raw a,
  )

  abbrev pub replied : ℕ → Text → Option Text → UploadReply → Archive → Uploaded
  replied day raw rename_error (undecodable e) a =
      ((false, file_name day ++ (codes ": undecodable reply: " ++ e)), a)
  replied day raw rename_error (reply ok key) a =
      if ok
      then renamed day raw key rename_error a
      else ((false, file_name day ++ codes ": receiver replied ok=false"), a)

  abbrev pub posted : ℕ → Text → Option Text → Posted → Archive → Uploaded
  posted day raw rename_error (not_posted e) a = ((false, e), a)
  posted day raw rename_error (response code status body) a =
      if code == 201
      then replied day raw rename_error body a
      else ((false, file_name day ++ (codes ": HTTP " ++ status)), a)

  -- `uploadDay`; a file that is not there is `missing_file` to `os.ReadFile`.
  module _ (missing_file : Text) (post : ℕ → Posted) (rename_error : ℕ → Option Text) where
    unfoldable pub upload_day : ℕ → Archive → Uploaded
    unfolding lookup ℕ_discrete rename_sent print
    upload_day day a = elim (lookup ℕ_discrete day a.disk) [
      | none ↦ ((false, missing_file), a)
      | some raw ↦ posted day raw (rename_error day) (post day) a
    ]

    -- The loop of `uploadPending` over the days, with the lines it prints; `ended` is whether the
    -- context has ended behind the upload of a day.
    unfoldable pub upload_days : (ℕ → Bool) → List ℕ → Archive → Bool × List (Bool × Text) × Archive
    unfolding upload_day
    upload_days ended [] a = (true, [], a)
    upload_days ended (day ∷ days) a =
        let (line, a') = upload_day day a in
        let (all_ok, lines, a'') = upload_days ended days a' in
        if ended day then (false, [], a') else (line.0 && all_ok, line ∷ lines, a'')

    -- `uploadPending`; the days are those of `finished`, or its error.
    unfoldable pub upload_pending :
        (ℕ → Bool) → Option Text → List ℕ → Archive → Bool × List (Bool × Text) × Archive
    unfolding upload_days
    upload_pending ended (some e) days a = (false, (false, e) ∷ [], a)
    upload_pending ended none days a = upload_days ended days a

-- The wait of `uploadLoop` behind an attempt.
unfoldable pub next_wait : ℕ → Bool → ℕ
unfolding until_after_midnight
next_wait now all_ok = if not all_ok then upload_retry else until_after_midnight now
