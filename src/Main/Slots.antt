-- ===== src/Main/Slots.antt =====
-- `probeTargets`: the order in which the probes are completed does not matter
-- (cmd/pyck-debug-worker/main.go).
use pyck_debug_worker.Prelude.{
  ℕ, zero, suc, ◌<◌, List, [], ◌∷◌, Option, none, some, Bool, true, false, ◌==◌, ==_iff, any_of,
  length, get_elem?, replicate, map, if◌then◌else◌, ◌≡◌, refl, ap, ◌∙◌, arith, Bool-cases, inl, inr,
}
use pyck_debug_worker.Report.{Result}
use pyck_debug_worker.Target.{Target}
use pyck_debug_worker.Main.Loop.{set_slot, results_at, fill_slots, concat, probe_targets}

-- Whether the probe of a target was completed.
abbrev pub completed : ℕ → List ℕ → Bool
completed i order = any_of (λ j. j == i) order

abbrev put : List Result → Option (List Result) → Option (List Result)
put rs none = none
put rs (some old) = some rs

set_slot-get :
    (i j : ℕ) (rs : List Result) (slots : List (List Result))
    → get_elem? (set_slot i rs slots) j
      ≡ (if i == j then put rs (get_elem? slots j) else get_elem? slots j)
unfolding set_slot
set_slot-get i j rs [] = ground arith
set_slot-get zero zero rs (s ∷ slots) = refl
set_slot-get zero (suc j) rs (s ∷ slots) = ground arith
set_slot-get (suc i) zero rs (s ∷ slots) = ground arith
set_slot-get (suc i) (suc j) rs (s ∷ slots) = ground (arith, set_slot-get i j rs slots)

module _ (run : Target → List Result) (targets : List Target) where
  fill_slots-get :
      (order : List ℕ) (slots : List (List Result)) (j : ℕ)
      → get_elem? (fill_slots run targets order slots) j ≡ (
          if completed j order
          then put (results_at run targets j) (get_elem? slots j)
          else get_elem? slots j)
  unfolding fill_slots
  fill_slots-get [] slots j = refl
  fill_slots-get (i ∷ order) slots j = elim (Bool-cases (i == j)) [
    | inl e ↦
        fill_slots-get order (set_slot i (results_at run targets i) slots) j
        ∙ rw (set_slot-get i j (results_at run targets i) slots, e)
            (put_same (completed j order) i ((==_iff i j).0 e) (get_elem? slots j))
    | inr e ↦
        fill_slots-get order (set_slot i (results_at run targets i) slots) j
        ∙ rw (set_slot-get i j (results_at run targets i) slots, e) refl
  ]
    where
      put_same :
          (done : Bool) (i : ℕ)
          → i ≡ j
          → (old : Option (List Result))
          → (if done
              then put (results_at run targets j) (put (results_at run targets i) old)
              else put (results_at run targets i) old)
            ≡ put (results_at run targets j) old
      put_same true i e none = refl
      put_same true i e (some rs) = refl
      put_same false i e old = ap (λ k. put (results_at run targets k) old) e

get_elem-ext : (xs ys : List (List Result)) → ((j : ℕ) → get_elem? xs j ≡ get_elem? ys j) → xs ≡ ys
get_elem-ext [] [] h = refl
get_elem-ext [] (y ∷ ys) h = cc (h 0)
get_elem-ext (x ∷ xs) [] h = cc (h 0)
get_elem-ext (x ∷ xs) (y ∷ ys) h = λ i. some_or x (h 0 i) ∷ get_elem-ext xs ys (λ j. h (suc j)) i
  where
    some_or : List Result → Option (List Result) → List Result
    some_or d none = d
    some_or d (some rs) = rs

fresh-get :
    (run : Target → List Result) (ts : List Target) (j : ℕ) (done : Bool)
    → (j < length ts → done ≡ true)
    → (if done
        then put (results_at run ts j) (get_elem? (replicate (length ts) []) j)
        else get_elem? (replicate (length ts) []) j)
      ≡ get_elem? (map run ts) j
fresh-get run [] j true h = refl
fresh-get run [] j false h = refl
fresh-get run (t ∷ ts) zero done h = rw (h (omega arith)) refl
fresh-get run (t ∷ ts) (suc j) done h = fresh-get run ts j done (λ l. h (omega (arith, l)))

-- Once the probe of every target was completed, in whatever order that was, the results of a cycle are
-- those of the targets in the order of the targets, one after the other.
pub probe_targets-order :
    (run : Target → List Result) (targets : List Target) (order : List ℕ)
    → ((j : ℕ) → j < length targets → completed j order ≡ true)
    → probe_targets run targets order ≡ concat (map run targets)
unfolding probe_targets
probe_targets-order run targets order h = ap concat (
    get_elem-ext (fill_slots run targets order (replicate (length targets) [])) (map run targets)
      (λ j.
        fill_slots-get run targets order (replicate (length targets) []) j
        ∙ fresh-get run targets j (completed j order) (h j)))
