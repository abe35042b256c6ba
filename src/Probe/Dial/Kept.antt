-- ===== src/Probe/Dial/Kept.antt =====
-- Which connections `tcpStage` keeps and closes (internal/probe/tcp.go).
use mathlib.Core.List.{append-nil, append_assoc}
use pyck_debug_worker.Prelude.{
  ℕ, suc, ◌+◌, List, [], ◌∷◌, ◌++◌, Option, none, some, Bool, true, false, length, ◌≡◌, refl, sym,
  ap, ◌∙◌, arith, Option-cases, inl, inr,
}
use pyck_debug_worker.Prelude.Text.{Text}
use pyck_debug_worker.Netcheck.Types.{Addr}
use pyck_debug_worker.Probe.{Family, Stage, Outcome, run_stage, Options, Fault}
use pyck_debug_worker.Probe.Dial.{
  Resolved, Dialing, dial_one, dial_family, dial_all, tcp_stage, keep, dial_verdict,
}

abbrev pub told : List Outcome → List (Stage × Bool)
told [] = []
told (o ∷ os) = (o.stage, o.ok) ∷ told os

-- The first of some connections, and the others.
abbrev pub first_of : List ℕ → Option ℕ
first_of [] = none
first_of (n ∷ ns) = some n

abbrev pub others_of : List ℕ → List ℕ
others_of [] = []
others_of (n ∷ ns) = ns

pub told-append : (os ps : List Outcome) → told (os ++ ps) ≡ told os ++ told ps
told-append [] ps = refl
told-append (o ∷ os) ps = ap (λ l. (o.stage, o.ok) ∷ l) (told-append os ps)

-- The state of the loops once the connections `opened` were made.
abbrev state_of : List ℕ → List Outcome → ℕ → Dialing
state_of opened results n = record {
  kept = first_of opened;
  spare = others_of opened;
  results = results;
  next = n;
}

keep_state :
    (opened : List ℕ) (results : List Outcome) (n : ℕ)
    → keep n (state_of opened results n) ≡ state_of (opened ++ n ∷ []) results n
keep_state [] results n = refl
keep_state (m ∷ opened) results n = refl

module _ (format_date : ℕ → Text) (now : ℕ) (opts : Options) (dial : ℕ → Addr → Option Fault)
    (port : ℕ) where
  -- All addresses in the order of the dials, with their families.
  abbrev pub with_family : Family → List Addr → List (Family × Addr)
  with_family family [] = []
  with_family family (a ∷ addrs) = (family, a) ∷ with_family family addrs

  abbrev pub all_addrs : List Resolved → List (Family × Addr)
  all_addrs [] = []
  all_addrs (r ∷ rs) = with_family r.family r.addrs ++ all_addrs rs

  -- The numbers of the dials from `n` on that connect.
  abbrev pub number_if : Option Fault → ℕ → List ℕ
  number_if none n = n ∷ []
  number_if (some e) n = []

  abbrev pub connected : ℕ → List (Family × Addr) → List ℕ
  connected n [] = []
  connected n ((family, a) ∷ addrs) = number_if (dial n a) n ++ connected (suc n) addrs

  -- The stage and the verdict of each dial.
  abbrev pub connects : Option Fault → Bool
  connects none = true
  connects (some e) = false

  abbrev pub dialed : ℕ → List (Family × Addr) → List (Stage × Bool)
  dialed n [] = []
  dialed n ((family, a) ∷ addrs) = (Stage.tcp family, connects (dial n a)) ∷ dialed (suc n) addrs

  abbrev outcome_of : Family → Addr → ℕ → Outcome
  outcome_of family a n =
      run_stage (Stage.tcp family) (dial_verdict format_date now opts dial port a (dial n a))

  dial_one_state :
      (family : Family) (a : Addr) (opened : List ℕ) (results : List Outcome) (n : ℕ)
      → dial_one format_date now opts dial port family a (state_of opened results n)
        ≡ state_of
            (opened ++ number_if (dial n a) n)
            (results ++ outcome_of family a n ∷ [])
            (suc n)
  unfolding dial_one
  dial_one_state family a opened results n = elim (Option-cases (dial n a)) [
    | inl e ↦ rw e (
        ap
          (λ (st : Dialing). record st {
            results =
                results
                ++ run_stage (Stage.tcp family) (dial_verdict format_date now opts dial port a none)
                  ∷ [];
            next = suc n;
          })
          (keep_state opened results n))
    | inr (f, e) ↦ rw (e, append-nil opened) refl
  ]

  abbrev outcomes_of : ℕ → List (Family × Addr) → List Outcome
  outcomes_of n [] = []
  outcomes_of n ((family, a) ∷ addrs) = outcome_of family a n ∷ outcomes_of (suc n) addrs

  -- All dials, family by family.
  abbrev dial_pairs : List (Family × Addr) → Dialing → Dialing
  dial_pairs [] st = st
  dial_pairs ((family, a) ∷ addrs) st =
      dial_pairs addrs (dial_one format_date now opts dial port family a st)

  dial_pairs_state :
      (addrs : List (Family × Addr)) (opened : List ℕ) (results : List Outcome) (n : ℕ)
      → dial_pairs addrs (state_of opened results n)
        ≡ state_of (opened ++ connected n addrs) (results ++ outcomes_of n addrs) (length addrs + n)
  dial_pairs_state [] opened results n =
      rw (append-nil opened, append-nil results) (ap (state_of opened results) (plus_zero n))
    where
      plus_zero : (n : ℕ) → n ≡ 0 + n
      plus_zero n = omega arith
  dial_pairs_state ((family, a) ∷ addrs) opened results n =
      ap (dial_pairs addrs) (dial_one_state family a opened results n)
      ∙ dial_pairs_state addrs (opened ++ number_if (dial n a) n)
          (results ++ outcome_of family a n ∷ []) (suc n)
      ∙ (λ i.
          state_of (append_assoc opened (number_if (dial n a) n) (connected (suc n) addrs) i)
            (append_assoc results (outcome_of family a n ∷ []) (outcomes_of (suc n) addrs) i)
            (shift (length addrs) n i))
    where
      shift : (k n : ℕ) → k + suc n ≡ suc k + n
      shift k n = omega arith

  dial_pairs-append :
      (xs ys : List (Family × Addr)) (st : Dialing)
      → dial_pairs (xs ++ ys) st ≡ dial_pairs ys (dial_pairs xs st)
  dial_pairs-append [] ys st = refl
  dial_pairs-append ((family, a) ∷ xs) ys st =
      dial_pairs-append xs ys (dial_one format_date now opts dial port family a st)

  dial_family-pairs :
      (family : Family) (addrs : List Addr) (st : Dialing)
      → dial_family format_date now opts dial port family addrs st
        ≡ dial_pairs (with_family family addrs) st
  unfolding dial_family
  dial_family-pairs family [] st = refl
  dial_family-pairs family (a ∷ addrs) st =
      dial_family-pairs family addrs (dial_one format_date now opts dial port family a st)

  dial_all-pairs :
      (rs : List Resolved) (st : Dialing)
      → dial_all format_date now opts dial port rs st ≡ dial_pairs (all_addrs rs) st
  unfolding dial_all
  dial_all-pairs [] st = refl
  dial_all-pairs (r ∷ rs) st =
      dial_all-pairs rs (dial_family format_date now opts dial port r.family r.addrs st)
      ∙ ap (dial_pairs (all_addrs rs)) (dial_family-pairs r.family r.addrs st)
      ∙ sym (dial_pairs-append (with_family r.family r.addrs) (all_addrs rs) st)

  told-outcomes :
      (addrs : List (Family × Addr)) (n : ℕ) → told (outcomes_of n addrs) ≡ dialed n addrs
  unfolding run_stage
  told-outcomes [] n = refl
  told-outcomes ((family, a) ∷ addrs) n = elim (Option-cases (dial n a)) [
    | inl e ↦ rw e (ap (λ l. (Stage.tcp family, true) ∷ l) (told-outcomes addrs (suc n)))
    | inr (f, e) ↦ rw e (ap (λ l. (Stage.tcp family, false) ∷ l) (told-outcomes addrs (suc n)))
  ]

  -- Every resolved address is dialed once, in the order of the families, and has one result, which is
  -- ok exactly when its dial connects; of the connections the first is kept for the handshake, and
  -- all the others are closed, so that none is left open.
  pub tcp_stage-kept :
      (rs : List Resolved)
      → (let (kept, closed, results) = tcp_stage format_date now opts dial port rs in
          (kept ≡ first_of (connected 0 (all_addrs rs)))
          × (closed ≡ others_of (connected 0 (all_addrs rs)))
          × (told results ≡ dialed 0 (all_addrs rs)))
  unfolding tcp_stage
  tcp_stage-kept rs =
      let e : dial_all format_date now opts dial port rs (state_of [] [] 0)
          ≡ state_of (connected 0 (all_addrs rs)) (outcomes_of 0 (all_addrs rs))
              (length (all_addrs rs) + 0) =
        dial_all-pairs rs (state_of [] [] 0) ∙ dial_pairs_state (all_addrs rs) [] [] 0 in
      (
        ap (λ (st : Dialing). st.kept) e,
        ap (λ (st : Dialing). st.spare) e,
        ap (λ (st : Dialing). told st.results) e ∙ told-outcomes (all_addrs rs) 0,
      )
