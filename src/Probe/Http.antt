-- ===== src/Probe/Http.antt =====
-- The stages http2 and redirect (internal/probe/http2.go, redirect.go). The answers of the server and
-- `url.Parse` are given; letters are compared as ASCII.
pub mod Verdicts
use pyck_debug_worker.Prelude.{
  ℕ, ◌+◌, ◌^◌, List, [], ◌∷◌, ◌++◌, Option, none, some, Bool, true, false, ◌||◌, not, ltb, leb,
  ◌==◌, min, ite, if◌then◌else◌,
}
use pyck_debug_worker.Prelude.Text.{Text, text_discrete, codes, print}
use pyck_debug_worker.Strings.{to_lower}
use pyck_debug_worker.Target.{is_empty}
use pyck_debug_worker.Probe.{Stage, Outcome, Verdict, run_stage, Fault, classify}

-- `strings.EqualFold`.
unfoldable pub equal_fold : Text → Text → Bool
unfolding to_lower text_discrete
equal_fold a b = ite (text_discrete (to_lower a) (to_lower b)) true false

abbrev pub probe_path : Text
probe_path = codes "/static/settings.json"

abbrev pub max_body_bytes : ℕ
max_body_bytes = 2 ^ 20

-- What the read of a body ends with: an error, or its size.
pub data Body : Type 0 where
  body_error : Fault → Body
  body_size : ℕ → Body

-- An HTTP response: its status line, protocol, and what is read of it.
pub record Response : Type 0 where
  pub status : Text
  pub status_code : ℕ
  pub proto : Text
  pub proto_major : ℕ
  pub location : Text
  pub body : Body

pub data Reply : Type 0 where
  no_reply : Fault → Reply
  replied : Response → Reply

module _ (format_date : ℕ → Text) (now : ℕ) where
  abbrev pub fetched : Response → Text
  fetched r = codes "GET " ++ (probe_path ++ (codes " -> " ++ (r.status ++ (codes " " ++ r.proto))))

  -- The verdict of `http2Stage` on a response; `io.LimitReader` ends the count.
  unfoldable pub http2_response : Response → Verdict
  unfolding classify print
  http2_response r = elim r.body [
    | body_error e ↦ (false, fetched r ++ (codes "  body: " ++ classify format_date now e))
    | body_size size ↦
        let detail =
          fetched r ++ (codes " (" ++ (print (min size max_body_bytes) ++ codes " B)")) in
        if not (r.proto_major == 2)
        then (false, detail ++ codes "  not HTTP/2")
        else if leb 400 r.status_code
        then (false, detail)
        else (true, detail)
  ]

  unfoldable pub http2_verdict : Reply → Verdict
  unfolding classify http2_response
  http2_verdict (no_reply e) = (false, classify format_date now e)
  http2_verdict (replied r) = http2_response r

  unfoldable pub http2_stage : Reply → Outcome
  unfolding run_stage http2_verdict
  http2_stage reply = run_stage Stage.http2 (http2_verdict reply)

  -- `redirectVerdict`; `parse_url` gives the scheme and the host name of a location.
  module _ (parse_url : Text → Option (Text × Text)) (host : Text) where
    abbrev pub moved : Response → Text
    moved r = r.status ++ (codes " -> " ++ r.location)

    unfoldable pub redirect_verdict : Response → Verdict
    unfolding equal_fold
    redirect_verdict r =
        if ltb r.status_code 300 || leb 400 r.status_code
        then (false, r.status ++ codes ": plaintext served in the clear, no redirect")
        else if is_empty r.location
        then (false, r.status ++ codes ": no Location header")
        else elim (parse_url r.location) [
          | none ↦ (false, moved r ++ codes ": unparsable Location")
          | some (scheme, name) ↦
              if not (equal_fold scheme (codes "https"))
              then (false, moved r ++ codes ": redirect stays plaintext")
              else if not (equal_fold name host)
              then (false, moved r ++ (codes ": redirect leaves " ++ host))
              else (true, moved r)
        ]

    -- `checkRedirect`.
    unfoldable pub check_redirect : Reply → Verdict
    unfolding classify redirect_verdict
    check_redirect (no_reply e) =
        if e.is_refused
        then (true, codes "no listener on :80 (connection refused)")
        else (false, classify format_date now e)
    check_redirect (replied r) = redirect_verdict r

    unfoldable pub redirect_stage : Reply → Outcome
    unfolding run_stage check_redirect
    redirect_stage reply = run_stage Stage.redirect (check_redirect reply)
