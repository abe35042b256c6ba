-- ===== src/Netcheck/Upload/Tests.antt =====
-- Two finished days, of which the receiver takes one (internal/netcheck/upload.go).
use pyck_debug_worker.Prelude.{
  ℕ, List, [], ◌∷◌, none, Bool, true, false, ◌==◌, All, length, if◌then◌else◌, ◌≡◌, refl,
  ℕ_discrete,
}
use pyck_debug_worker.Prelude.Text.{Text, codes, print}
use pyck_debug_worker.Netcheck.Upload.{Posted, response, reply, Archive, upload_pending}
use pyck_debug_worker.Netcheck.Upload.Sent.{Moves, IsSent}
use pyck_debug_worker.Netcheck.Upload.Pending.{upload_pending-Moves, upload_pending-IsSent}

abbrev archive : Archive
archive = record { disk = (7, codes "x") ∷ (8, codes "y") ∷ []; sent = [] }

abbrev answer : ℕ → Posted
answer day =
    if day == 7
    then response 201 (codes "201 Created") (reply true (codes "k"))
    else response 500 (codes "500") (reply false [])

abbrev pending : List ℕ → Bool × List (Bool × Text) × Archive
pending days =
    upload_pending (codes "pc") print (λ s. length s) (codes "no file") answer (λ d. none)
      (λ d. false) none days archive

upload_pending-Moves_example : Moves (answer 8) 8 archive (pending (7 ∷ 8 ∷ [])).2
upload_pending-Moves_example =
    upload_pending-Moves (codes "pc") print (λ s. length s) (codes "no file") answer (λ d. none)
      (λ d. false) none (7 ∷ 8 ∷ []) archive 8

first_sent : (pending (7 ∷ [])).0 ≡ true
unfolding upload_pending ℕ_discrete
first_sent = refl

upload_pending-IsSent_example : All (λ d. IsSent (answer d) d archive (pending (7 ∷ [])).2) (7 ∷ [])
upload_pending-IsSent_example =
    upload_pending-IsSent (codes "pc") print (λ s. length s) (codes "no file") answer (λ d. none)
      (λ d. false) none (7 ∷ []) archive first_sent
