-- ===== src/Report/Render/Overall.antt =====
-- The OVERALL row of a cycle against its results (internal/report/report.go).
use pyck_debug_worker.Prelude.{
  ℕ, ◌+◌, List, [], ◌∷◌, Bool, true, false, ◌&&◌, if◌then◌else◌, length, count_if, sum_of, contains,
  any_of, All, ◌≡◌, refl, sym, ap, ◌∙◌, arith, Bool-cases, inl, inr,
}
use pyck_debug_worker.Prelude.Distinct.{Distinct}
use pyck_debug_worker.Prelude.Text.{Text, text_discrete}
use pyck_debug_worker.Prelude.Assoc.{Assoc, lookup}
use pyck_debug_worker.Report.{Result, Cycle}
use pyck_debug_worker.Report.Tally.{TargetStat, or_empty, tally}
use pyck_debug_worker.Report.Totals.{is_of, total_of, ok_of, stat_in, tally_counts}
use pyck_debug_worker.Report.Order.{tally_order}
use pyck_debug_worker.Report.Render.{overall_of}

abbrev one_if : Bool → ℕ
one_if b = if b then 1 else 0

-- A name is counted once in a list without repetitions.
count_absent :
    (names : List Text) (r : Result)
    → contains text_discrete names r.target ≡ false
    → sum_of (λ name. one_if (is_of name r)) names ≡ 0
count_absent [] r h = refl
count_absent (name ∷ names) r h = elim (text_discrete name r.target) [
  | yes p ↦ absurd (ground (arith, p, h))
  | no p ↦ elim (text_discrete r.target name) [
    | yes q ↦ absurd (p (sym q))
    | no q ↦ ground (arith, count_absent names r, h)
  ]
]

count_once :
    (names : List Text) (r : Result)
    → Distinct text_discrete names
    → contains text_discrete names r.target ≡ true
    → sum_of (λ name. one_if (is_of name r)) names ≡ 1
count_once [] r d h = cc
count_once (name ∷ names) r d h = elim (text_discrete name r.target) [
  | yes p ↦ elim (text_discrete r.target name) [
    | yes q ↦ ground (arith, count_absent names r (ap (contains text_discrete names) (sym p) ∙ d.0))
    | no q ↦ absurd (q (sym p))
  ]
  | no p ↦ elim (text_discrete r.target name) [
    | yes q ↦ absurd (p (sym q))
    | no q ↦ ground (arith, count_once names r d.1, h)
  ]
]

sum_of-plus :
    (f g h : Text → ℕ) (names : List Text)
    → ((name : Text) → f name ≡ g name + h name)
    → sum_of f names ≡ sum_of g names + sum_of h names
sum_of-plus f g h [] e = omega arith
sum_of-plus f g h (name ∷ names) e = omega (arith, e name, sum_of-plus f g h names e)

sum_of_zero : (names : List Text) → sum_of (λ name. 0) names ≡ 0
sum_of_zero [] = refl
sum_of_zero (name ∷ names) = omega (arith, sum_of_zero names)

Covers : List Text → List Result → Type 0
Covers names rs = All (λ r. contains text_discrete names r.target ≡ true) rs

sum_total :
    (names : List Text) (rs : List Result)
    → Distinct text_discrete names
    → Covers names rs
    → sum_of (λ name. total_of name rs) names ≡ length rs
unfolding Covers
sum_total names [] d c = sum_of_zero names
sum_total names (r ∷ rs) d c = omega (
  arith,
  sum_of-plus (λ name. total_of name (r ∷ rs)) (λ name. one_if (is_of name r))
      (λ name. total_of name rs) names (λ name. ground arith),
  count_once names r d c.0,
  sum_total names rs d c.1,
)

sum_of_equal :
    (f g : Text → ℕ) (names : List Text)
    → ((name : Text) → f name ≡ g name)
    → sum_of f names ≡ sum_of g names
sum_of_equal f g [] e = refl
sum_of_equal f g (name ∷ names) e = omega (arith, e name, sum_of_equal f g names e)

one_ok :
    (names : List Text) (r : Result)
    → Distinct text_discrete names
    → contains text_discrete names r.target ≡ true
    → sum_of (λ name. one_if (is_of name r && r.ok)) names ≡ one_if r.ok
one_ok names r d c = elim (Bool-cases r.ok) [
  | inl e ↦ rw e (
      sum_of_equal (λ name. one_if (is_of name r && true)) (λ name. one_if (is_of name r)) names
        (λ name. ground arith)
      ∙ count_once names r d c)
  | inr e ↦ rw e (
      sum_of_equal (λ name. one_if (is_of name r && false)) (λ name. 0) names (λ name. ground arith)
      ∙ sum_of_zero names)
]

sum_ok :
    (names : List Text) (rs : List Result)
    → Distinct text_discrete names
    → Covers names rs
    → sum_of (λ name. ok_of name rs) names ≡ count_if (λ r. r.ok) rs
unfolding Covers
sum_ok names [] d c = sum_of_zero names
sum_ok names (r ∷ rs) d c = ground (
  arith,
  sum_of-plus (λ name. ok_of name (r ∷ rs)) (λ name. one_if (is_of name r && r.ok))
      (λ name. ok_of name rs) names (λ name. ground arith),
  one_ok names r d c.0,
  sum_ok names rs d c.1,
)

Covers-all :
    (names : List Text) (rs : List Result)
    → ((r : Result)
        → any_of (is_of r.target) rs ≡ true
        → contains text_discrete names r.target ≡ true)
    → Covers names rs
unfolding Covers
Covers-all names [] h = tt
Covers-all names (r ∷ rs) h =
    (h r (self_first r rs), Covers-all names rs (λ s e. h s (ground (arith, e))))
  where
    self_first : (r : Result) (rs : List Result) → any_of (is_of r.target) (r ∷ rs) ≡ true
    self_first r rs = elim (text_discrete r.target r.target) [
      | yes p ↦ ground arith
      | no p ↦ absurd (p refl)
    ]

overall_of-sums :
    (names : List Text) (stats : Assoc Text TargetStat)
    → ((overall_of names stats).total
        ≡ sum_of (λ name. (or_empty (lookup text_discrete name stats)).total) names)
      × ((overall_of names stats).ok
          ≡ sum_of (λ name. (or_empty (lookup text_discrete name stats)).ok) names)
unfolding overall_of
overall_of-sums [] stats = (refl, refl)
overall_of-sums (name ∷ names) stats =
    let (p, q) = overall_of-sums names stats in
    (
      ap (λ n. (or_empty (lookup text_discrete name stats)).total + n) p,
      ap (λ n. (or_empty (lookup text_discrete name stats)).ok + n) q,
    )

-- The OVERALL row of a cycle over distinct targets counts every result of the cycle exactly once, also
-- those of targets that are not configured: its total is the number of results, and its ok count the
-- number of those that are ok.
pub overall_of-tally :
    (c : Cycle)
    → Distinct text_discrete c.targets
    → ((overall_of (tally c).0 (tally c).1).total ≡ length c.results)
      × ((overall_of (tally c).0 (tally c).1).ok ≡ count_if (λ r. r.ok) c.results)
overall_of-tally c d =
    let (prefix, distinct, members) = tally_order c d in
    let covers = Covers-all (tally c).0 c.results (λ r e. members r.target ∙ ground (arith, e)) in
    let (p, q) = overall_of-sums (tally c).0 (tally c).1 in
    (
      p
          ∙ sum_of_equal (λ name. (stat_in name (tally c)).total) (λ name. total_of name c.results)
              (tally c).0 (λ name. (tally_counts name c).0)
          ∙ sum_total (tally c).0 c.results distinct covers,
      q
          ∙ sum_of_equal (λ name. (stat_in name (tally c)).ok) (λ name. ok_of name c.results)
              (tally c).0 (λ name. (tally_counts name c).1)
          ∙ sum_ok (tally c).0 c.results distinct covers,
    )
