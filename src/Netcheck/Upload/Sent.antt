-- ===== src/Netcheck/Upload/Sent.antt =====
-- Which files the upload of finished days renames (internal/netcheck/upload.go).
use pyck_debug_worker.Prelude.{
  ℕ, Option, none, some, Bool, true, false, ◌&&◌, ◌==◌, ℕ_discrete, if◌then◌else◌, both_iff, ◌⊎◌,
  inl, inr, ◌≡◌, ◌≢◌, refl, sym, ap, subst, ◌∙◌,
}
use pyck_debug_worker.Prelude.Text.{Text}
use pyck_debug_worker.Prelude.Assoc.{
  lookup, lookup-insert_self, lookup-insert_ne, lookup-delete_self, lookup-delete_ne,
}
use pyck_debug_worker.Netcheck.Upload.{
  Posted, not_posted, response, undecodable, reply, Archive, rename_sent, Uploaded, renamed, posted,
  upload_day,
}

-- Whether the receiver answered 201 with ok.
abbrev pub acknowledged : Posted → Bool
acknowledged (not_posted e) = false
acknowledged (response code status (undecodable e)) = false
acknowledged (response code status (reply ok key)) = (code == 201) && ok

-- A day's file is where it was, or was acknowledged and is among those that are sent, with its bytes.
abbrev pub IsUnsent : ℕ → Archive → Archive → Type 0
IsUnsent d a a' =
    (lookup ℕ_discrete d a'.disk ≡ lookup ℕ_discrete d a.disk)
    × (lookup ℕ_discrete d a'.sent ≡ lookup ℕ_discrete d a.sent)

abbrev pub IsSent : Posted → ℕ → Archive → Archive → Type 0
IsSent p d a a' =
    (raw : Text) × (lookup ℕ_discrete d a.disk ≡ some raw)
    × (lookup ℕ_discrete d a'.disk ≡ none)
    × (lookup ℕ_discrete d a'.sent ≡ some raw)
    × (acknowledged p ≡ true)

abbrev pub Moves : Posted → ℕ → Archive → Archive → Type 0
Moves p d a a' = IsUnsent d a a' ⊎ IsSent p d a a'

none-some : (x : Text) (o : Option Text) → o ≡ none → o ≢ some x
none-some x o e f = cc

pub IsSent-first :
    (p : Posted) (d : ℕ) (a b c : Archive) → IsSent p d a b → Moves p d b c → IsSent p d a c
IsSent-first p d a b c (raw, there, gone, sent, ack) (inl (disk, still)) =
    (raw, there, disk ∙ gone, still ∙ sent, ack)
IsSent-first p d a b c (raw, there, gone, sent, ack) (inr (raw', there', gone', sent', ack')) =
    absurd (none-some raw' (lookup ℕ_discrete d b.disk) gone there')

pub IsSent-later :
    (p : Posted) (d : ℕ) (a b c : Archive) → Moves p d a b → IsSent p d b c → IsSent p d a c
IsSent-later p d a b c (inl (disk, still)) (raw, there, gone, sent, ack) =
    (raw, sym disk ∙ there, gone, sent, ack)
IsSent-later p d a b c (inr sent) later = IsSent-first p d a b c sent (inr later)

pub Moves-trans :
    (p : Posted) (d : ℕ) (a b c : Archive) → Moves p d a b → Moves p d b c → Moves p d a c
Moves-trans p d a b c (inr sent) later = inr (IsSent-first p d a b c sent later)
Moves-trans p d a b c (inl (disk, still)) (inl (disk', still')) = inl (disk' ∙ disk, still' ∙ still)
Moves-trans p d a b c (inl unsent) (inr sent) = inr (IsSent-later p d a b c (inl unsent) sent)

module _ (hostname : Text) (day_text : ℕ → Text) (gzipped : Text → ℕ) where
  -- An upload fails and leaves the directory, or is acknowledged and renames the file.
  abbrev Ends : ℕ → Text → Posted → Archive → Uploaded → Type 0
  Ends day raw p a r =
      ((r.0.0 ≡ false) × (r.1 ≡ a))
      ⊎ ((r.0.0 ≡ true) × (acknowledged p ≡ true) × (r.1 ≡ rename_sent day raw a))

  if_Ends :
      (b : Bool) (day : ℕ) (raw : Text) (p : Posted) (a : Archive) (x y : Uploaded)
      → (b ≡ true → Ends day raw p a x)
      → Ends day raw p a y
      → Ends day raw p a (if b then x else y)
  if_Ends true day raw p a x y left right = left refl
  if_Ends false day raw p a x y left right = right

  renamed-Ends :
      (day : ℕ) (raw key : Text) (p : Posted) (rename_error : Option Text) (a : Archive)
      → acknowledged p ≡ true
      → Ends day raw p a (renamed hostname day_text gzipped day raw key rename_error a)
  renamed-Ends day raw key p (some e) a ack = inl (refl, refl)
  renamed-Ends day raw key p none a ack = inr (refl, ack, refl)

  posted-Ends :
      (day : ℕ) (raw : Text) (rename_error : Option Text) (p : Posted) (a : Archive)
      → Ends day raw p a (posted hostname day_text gzipped day raw rename_error p a)
  posted-Ends day raw rename_error (not_posted e) a = inl (refl, refl)
  posted-Ends day raw rename_error (response code status (undecodable e)) a =
      if_Ends (code == 201) day raw (response code status (undecodable e)) a _ _
        (λ h. inl (refl, refl)) (inl (refl, refl))
  posted-Ends day raw rename_error (response code status (reply ok key)) a =
      if_Ends (code == 201) day raw (response code status (reply ok key)) a _ _
        (λ created.
          if_Ends ok day raw (response code status (reply ok key)) a _ _
            (λ fine.
              renamed-Ends day raw key (response code status (reply ok key)) rename_error a
                ((both_iff (code == 201) ok).1 (created, fine)))
            (inl (refl, refl)))
        (inl (refl, refl))

  rename-IsUnsent :
      (day d : ℕ) (raw : Text) (a : Archive) → day ≢ d → IsUnsent d a (rename_sent day raw a)
  unfolding rename_sent
  rename-IsUnsent day d raw a h =
      (lookup-delete_ne ℕ_discrete d day a.disk h, lookup-insert_ne ℕ_discrete d day raw a.sent h)

  rename-IsSent :
      (day : ℕ) (raw : Text) (p : Posted) (a : Archive)
      → lookup ℕ_discrete day a.disk ≡ some raw
      → acknowledged p ≡ true
      → IsSent p day a (rename_sent day raw a)
  unfolding rename_sent
  rename-IsSent day raw p a there ack = (
    raw,
    there,
    lookup-delete_self ℕ_discrete day a.disk,
    lookup-insert_self ℕ_discrete day raw a.sent,
    ack,
  )

  module _ (missing_file : Text) (post : ℕ → Posted) (rename_error : ℕ → Option Text) where
    -- One day's upload, seen from any day.
    abbrev pub Uploads : ℕ → Archive → Uploaded → Type 0
    Uploads day a r =
        ((d : ℕ) → Moves (post d) d a r.1) × (r.0.0 ≡ true → IsSent (post day) day a r.1)

    stays : (d : ℕ) (a b : Archive) → b ≡ a → Moves (post d) d a b
    stays d a b e = inl (
      ap (λ (c : Archive). lookup ℕ_discrete d c.disk) e,
      ap (λ (c : Archive). lookup ℕ_discrete d c.sent) e,
    )

    Ends-Uploads :
        (day : ℕ) (raw : Text) (a : Archive) (r : Uploaded)
        → lookup ℕ_discrete day a.disk ≡ some raw
        → Ends day raw (post day) a r
        → Uploads day a r
    Ends-Uploads day raw a r there (inl (failed, same)) =
        (λ d. stays d a r.1 same, λ ok. absurd (true_false (sym ok ∙ failed)))
      where
        true_false : true ≢ false
        true_false e = cc
    Ends-Uploads day raw a r there (inr (ok, ack, moved)) =
        let sent : IsSent (post day) day a r.1 =
          subst (IsSent (post day) day a) (sym moved)
            (rename-IsSent day raw (post day) a there ack) in
        (
          λ d. elim (ℕ_discrete day d) [
            | yes e ↦ inr (subst (λ k. IsSent (post k) k a r.1) e sent)
            | no h ↦ inl (subst (IsUnsent d a) (sym moved) (rename-IsUnsent day d raw a h))
          ],
          λ fine. sent,
        )

    pub upload_day-Uploads :
        (day : ℕ) (a : Archive)
        → Uploads day a (upload_day hostname day_text gzipped missing_file post rename_error day a)
    unfolding upload_day
    upload_day-Uploads day a = go (lookup ℕ_discrete day a.disk) refl
      where
        go :
            (found : Option Text)
            → lookup ℕ_discrete day a.disk ≡ found
            → Uploads day a (elim found as (λ (o : Option Text). Uploaded) [
              | none ↦ ((false, missing_file), a)
              | some raw ↦ posted hostname day_text gzipped day raw (rename_error day) (post day) a
            ])
        go none e = (λ d. stays d a a refl, λ ok. absurd (false-true ok))
          where
            false-true : false ≢ true
            false-true h = cc
        go (some raw) e =
            Ends-Uploads day raw a
              (posted hostname day_text gzipped day raw (rename_error day) (post day) a) e
              (posted-Ends day raw (rename_error day) (post day) a)
