-- ===== src/Printcheck/Label/Passing.antt =====
-- Reading a run of the print check backwards: what a stage that is passed says of the tests in it
-- (internal/printcheck/printcheck.go, print.go).
use pyck_debug_worker.Prelude.{
  List, [], ◌∷◌, Option, none, some, Bool, true, false, ◌||◌, not, ite, if◌then◌else◌, ◌≡◌, ◌≢◌,
  refl, sym, ◌∙◌, subst,
}
use pyck_debug_worker.Prelude.Text.{Text, text_discrete}
use pyck_debug_worker.Printcheck.Stages.{
  Verdict, Stage, krb5, spn_stage, smb, share_stage, fax, zpl, submit, Outcome, run, run_stage,
}

-- Whether a run says that the label is spooled.
abbrev pub is_submitted : Outcome → Bool
is_submitted o = elim o.stage [
  | krb5 ↦ false
  | spn_stage ↦ false
  | smb ↦ false
  | share_stage ↦ false
  | fax ↦ false
  | zpl ↦ false
  | submit ↦ o.ok
]

abbrev pub submitted : List Outcome → Bool
submitted [] = false
submitted (o ∷ os) = is_submitted o || submitted os

-- A stage before the last that is passed.
passed :
    (name : Stage) (v : Verdict) (rest : List (Stage × Verdict))
    → ((ok : Bool) → is_submitted (record { stage = name; ok = ok; detail = v.1 }) ≡ false)
    → submitted (run ((name, v) ∷ rest)) ≡ true
    → (v.0 ≡ true) × (submitted (run rest) ≡ true)
unfolding run run_stage
passed name (true, text) rest other h =
    (refl, subst (λ b. (b || submitted (run rest)) ≡ true) (other true) h)
passed name (false, text) rest other h =
    absurd (false_is (subst (λ b. (b || false) ≡ true) (other false) h))
  where
    false_is : false ≢ true
    false_is e = cc

pub last_passed :
    (login ticket session share post label spool : Verdict)
    → submitted (
        run (
          (krb5, login)
          ∷ (spn_stage, ticket)
          ∷ (smb, session)
          ∷ (share_stage, share)
          ∷ (fax, post)
          ∷ (zpl, label)
          ∷ (submit, spool)
          ∷ []))
      ≡ true
    → (post.0 ≡ true) × (label.0 ≡ true) × (spool.0 ≡ true)
unfolding run run_stage
last_passed login ticket session share post label spool h =
    let from_zpl = (zpl, label) ∷ (submit, spool) ∷ [] in
    let from_fax = (fax, post) ∷ from_zpl in
    let from_share = (share_stage, share) ∷ from_fax in
    let from_smb = (smb, session) ∷ from_share in
    let (p1, h1) = passed krb5 login ((spn_stage, ticket) ∷ from_smb) (λ ok. refl) h in
    let (p2, h2) = passed spn_stage ticket from_smb (λ ok. refl) h1 in
    let (p3, h3) = passed smb session from_share (λ ok. refl) h2 in
    let (p4, h4) = passed share_stage share from_fax (λ ok. refl) h3 in
    let (p5, h5) = passed fax post from_zpl (λ ok. refl) h4 in
    let (p6, h6) = passed zpl label ((submit, spool) ∷ []) (λ ok. refl) h5 in
    (p5, p6, submit_ok spool h6)
  where
    submit_ok : (v : Verdict) → submitted (run ((submit, v) ∷ [])) ≡ true → v.0 ≡ true
    submit_ok (true, text) e = refl
    submit_ok (false, text) e = e

-- A failure under a condition, where there is none.
pub unfailed :
    (b : Bool) (x y : Verdict)
    → x.0 ≡ false
    → (let v : Verdict = if b then x else y in v.0) ≡ true
    → (b ≡ false) × (y.0 ≡ true)
unfailed true x y failed h = cc
unfailed false x y failed h = (refl, h)

pub not-false : (b : Bool) → not b ≡ false → b ≡ true
not-false true e = refl
not-false false e = sym e

pub same_text : (a b : Text) → ite (text_discrete a b) false true ≡ false → a ≡ b
same_text a b h = go (text_discrete a b) h
  where
    go : (d : Dec (a ≡ b)) → ite d false true ≡ false → a ≡ b
    go (yes e) h = e
    go (no n) h = cc

-- The same for the results of a stage with a label.
pub taken :
    (b : Bool) (x y : Text × Verdict)
    → x.1.0 ≡ false
    → (let v : Text × Verdict = if b then x else y in v.1.0 ≡ true)
    → (b ≡ false) × (y.1.0 ≡ true) × (let v : Text × Verdict = if b then x else y in v ≡ y)
taken true x y failed h = cc
taken false x y failed h = (refl, h, refl)

pub kept :
    (b : Bool) (x y : Text × Verdict)
    → y.1.0 ≡ false
    → (let v : Text × Verdict = if b then x else y in v.1.0 ≡ true)
    → (b ≡ true) × (let v : Text × Verdict = if b then x else y in v ≡ x)
kept true x y failed h = (refl, refl)
kept false x y failed h = cc

pub no_error :
    (o : Option Text) (f : Text → Verdict) (y : Verdict)
    → ((e : Text) → (f e).0 ≡ false)
    → (elim o as (λ (o : Option Text). Verdict) [ some e ↦ f e | none ↦ y ]).0 ≡ true
    → (o ≡ none) × (y.0 ≡ true)
no_error none f y failed h = (refl, h)
no_error (some e) f y failed h = absurd (false_is (sym (failed e) ∙ h))
  where
    false_is : false ≢ true
    false_is e = cc
