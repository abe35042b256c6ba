-- ===== src/Netcheck/Dns/Sets.antt =====
-- When the check of a host finds the resolvers at odds about the set of its addresses
-- (internal/netcheck/dnscheck.go).
use pyck_debug_worker.Prelude.{
  ℕ, List, [], ◌∷◌, Bool, true, false, ◌||◌, ◌&&◌, ◌==◌, not, ltb, any_of, all_of, All, contains,
  if_pos, if_neg, ◌≡◌, refl, sym, ap, ◌∙◌, subst, arith, Bool-cases, inl, inr,
}
use pyck_debug_worker.Prelude.Text.{Text, text_discrete}
use pyck_debug_worker.Netcheck.Dns.{DnsAnswer, same_ips, texts_discrete, check}
use pyck_debug_worker.Netcheck.Dns.Agreement.{
  answered, silent, differ_from, disagree, check_concludes,
}

-- The order of `slices.Sort` on strings: by their bytes, from the first on.
abbrev pub is_below : Text → Text → Bool
is_below s [] = false
is_below [] (c ∷ t) = true
is_below (a ∷ s) (b ∷ t) = ltb a b || ((a == b) && is_below s t)

-- Sorted, and without a repetition.
abbrev pub IsAscending : List Text → Type 0
IsAscending [] = Unit {0}
IsAscending (x ∷ xs) = All (λ y. is_below x y ≡ true) xs × IsAscending xs

-- The same members, whatever their order and number.
abbrev pub same_set : List Text → List Text → Bool
same_set a b = all_of (contains text_discrete b) a && all_of (contains text_discrete a) b

-- Whether two of the lists differ as sets.
abbrev pub sets_disagree : List (List Text) → Bool
sets_disagree [] = false
sets_disagree (first ∷ rest) = any_of (λ ips. not (same_set first ips)) rest || sets_disagree rest

is_below_irrefl : (s : Text) → is_below s s ≡ false
is_below_irrefl [] = refl
is_below_irrefl (a ∷ s) = ground (arith, is_below_irrefl s)

is_below_asym : (s t : Text) → is_below s t ≡ true → is_below t s ≡ false
is_below_asym s [] h = cc
is_below_asym [] (c ∷ t) h = refl
is_below_asym (a ∷ s) (b ∷ t) h = ground (arith, is_below_asym s t)

All-at :
    (p : Text → Bool) (xs : List Text) (z : Text)
    → All (λ y. p y ≡ true) xs
    → contains text_discrete xs z ≡ true
    → p z ≡ true
All-at p [] z h m = cc
All-at p (x ∷ xs) z h m = elim (text_discrete x z) [
  | yes e ↦ ap p (sym e) ∙ h.0
  | no e ↦ All-at p xs z h.1 (sym (if_neg (text_discrete x z) e _ _) ∙ m)
]

-- What is above a list's head, is not that head.
skip_head :
    (y : Text) (ys : List Text) (z : Text)
    → is_below y z ≡ true
    → contains text_discrete (y ∷ ys) z ≡ true
    → contains text_discrete ys z ≡ true
skip_head y ys z h m = elim (text_discrete y z) [
  | yes e ↦ absurd (cc (is_below_irrefl z, ap (λ u. is_below u z) e))
  | no e ↦ sym (if_neg (text_discrete y z) e _ _) ∙ m
]

skip_heads :
    (y : Text) (ys xs : List Text)
    → All (λ z. is_below y z ≡ true) xs
    → all_of (contains text_discrete (y ∷ ys)) xs ≡ true
    → all_of (contains text_discrete ys) xs ≡ true
skip_heads y ys [] h m = refl
skip_heads y ys (z ∷ xs) h m = ground (arith, m, skip_head y ys z h.0, skip_heads y ys xs h.1)

same_head :
    (x y : Text) (xs ys : List Text)
    → IsAscending (x ∷ xs)
    → IsAscending (y ∷ ys)
    → contains text_discrete (y ∷ ys) x ≡ true
    → contains text_discrete (x ∷ xs) y ≡ true
    → x ≡ y
same_head x y xs ys h k m n = elim (text_discrete x y) [
  | yes e ↦ e
  | no e ↦
      let below : is_below y x ≡ true =
        All-at (is_below y) ys x k.0 (sym (if_neg (text_discrete y x) (λ p. e (sym p)) _ _) ∙ m) in
      let above : is_below x y ≡ true =
        All-at (is_below x) xs y h.0 (sym (if_neg (text_discrete x y) e _ _) ∙ n) in
      absurd (cc (is_below_asym x y above))
]

ascending_equal :
    (xs ys : List Text)
    → IsAscending xs
    → IsAscending ys
    → all_of (contains text_discrete ys) xs ≡ true
    → all_of (contains text_discrete xs) ys ≡ true
    → xs ≡ ys
ascending_equal [] [] h k m n = refl
ascending_equal [] (y ∷ ys) h k m n = cc
ascending_equal (x ∷ xs) [] h k m n = cc
ascending_equal (x ∷ xs) (y ∷ ys) h k m n =
    let e = same_head x y xs ys h k (ground (arith, m)) (ground (arith, n)) in
    let h' = subst (λ u. All (λ z. is_below u z ≡ true) xs) e h.0 in
    let k' = subst (λ u. All (λ z. is_below u z ≡ true) ys) (sym e) k.0 in
    ap (λ u. u ∷ xs) e
    ∙ ap (λ zs. y ∷ zs)
        (ascending_equal xs ys h.1 k.1 (skip_heads y ys xs h' (ground (arith, m)))
          (skip_heads x xs ys k' (ground (arith, n))))

subset_cons :
    (xs ys : List Text)
    → all_of (contains text_discrete ys) xs ≡ true
    → (y : Text) → all_of (contains text_discrete (y ∷ ys)) xs ≡ true
subset_cons [] ys h y = refl
subset_cons (x ∷ xs) ys h y = ground (arith, h, subset_cons xs ys (ground (arith, h)) y)

subset_self : (xs : List Text) → all_of (contains text_discrete xs) xs ≡ true
subset_self [] = refl
subset_self (x ∷ xs) = ground (
  arith,
  if_pos (text_discrete x x) refl true (contains text_discrete xs x),
  subset_cons xs xs (subset_self xs) x,
)

-- Of sorted lists without repetitions, comparing the lists is comparing the sets.
same_ips-same_set : (a b : List Text) → IsAscending a → IsAscending b → same_ips a b ≡ same_set a b
same_ips-same_set a b h k = elim (texts_discrete a b) [
  | yes e ↦
      if_pos (texts_discrete a b) e true false
      ∙ sym (subst (λ c. same_set a c ≡ true) e (ground (arith, subset_self a)))
  | no e ↦ if_neg (texts_discrete a b) e true false ∙ elim (Bool-cases (same_set a b)) [
    | inl same ↦ absurd (e (ascending_equal a b h k (ground (arith, same)) (ground (arith, same))))
    | inr other ↦ sym other
  ]
]

differ_from_sets :
    (first : List Text) (rest : List (List Text))
    → IsAscending first
    → All IsAscending rest
    → differ_from first rest ≡ any_of (λ ips. not (same_set first ips)) rest
differ_from_sets first [] h k = refl
differ_from_sets first (a ∷ rest) h k =
    rw (same_ips-same_set first a h k.0, differ_from_sets first rest h k.1) refl

disagree_sets :
    (lists : List (List Text)) → All IsAscending lists → disagree lists ≡ sets_disagree lists
disagree_sets [] h = refl
disagree_sets (first ∷ rest) h =
    rw (differ_from_sets first rest h.0 h.1, disagree_sets rest h.1) refl

-- Where each resolver that answered gave its addresses sorted and without a repetition, the check of a
-- host reports a mismatch exactly when two of them gave different sets of addresses, and lists exactly
-- the resolvers that could not be asked, in their order.
pub check_sets :
    (ts : ℕ) (host : Text) (system : DnsAnswer) (answers : List DnsAnswer)
    → All IsAscending (answered (system ∷ answers))
    → (let r = check ts host system answers in
        (r.mismatch ≡ sets_disagree (answered (system ∷ answers)))
        × (r.unreachable ≡ silent (system ∷ answers)))
check_sets ts host system answers h =
    let (mismatch_eq, unreachable_eq) = check_concludes ts host system answers in
    (mismatch_eq ∙ disagree_sets (answered (system ∷ answers)) h, unreachable_eq)
