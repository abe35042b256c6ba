-- ===== src/Netcheck/Dns/Agreement.antt =====
-- What `check` concludes from the answers (internal/netcheck/dnscheck.go).
use mathlib.Core.List.{append_assoc, append-nil}
use pyck_debug_worker.Prelude.{
  ℕ, List, [], ◌∷◌, ◌++◌, Option, none, some, Bool, true, false, ◌||◌, not, any_of, if◌then◌else◌,
  ◌≡◌, refl, sym, ap, ◌∙◌, subst, arith, Bool-cases, Option-cases, inl, inr,
}
use pyck_debug_worker.Prelude.Text.{Text}
use pyck_debug_worker.Netcheck.Types.{Class}
use pyck_debug_worker.Netcheck.Dns.{
  DnsAnswer, Compared, DnsEvent, same_ips, compare_answer, compare_answers, check, is_ok,
  none_listed, unreachable_events, dns_events, texts_discrete,
}

-- The addresses of the resolvers that answered, and the names of those that could not be asked.
abbrev pub ips_of : Option (Text × Class) → DnsAnswer → List (List Text)
ips_of none a = a.ips ∷ []
ips_of (some e) a = []

abbrev pub answered : List DnsAnswer → List (List Text)
answered [] = []
answered (a ∷ answers) = ips_of a.error a ++ answered answers

abbrev pub name_if_silent : Option (Text × Class) → Text → List Text
name_if_silent none name = []
name_if_silent (some e) name = name ∷ []

abbrev pub silent : List DnsAnswer → List Text
silent [] = []
silent (a ∷ answers) = name_if_silent a.error a.resolver ++ silent answers

-- Whether two of the lists differ.
abbrev pub differ_from : List Text → List (List Text) → Bool
differ_from first rest = any_of (λ ips. not (same_ips first ips)) rest

abbrev pub disagree : List (List Text) → Bool
disagree [] = false
disagree (first ∷ rest) = differ_from first rest || disagree rest

-- What the loop adds to what it found before.
abbrev disagree_after : Option (List Text) → List (List Text) → Bool
disagree_after none rest = disagree rest
disagree_after (some first) rest = differ_from first rest

same_ips-first : (first a b : List Text) → same_ips first a ≡ true → same_ips a b ≡ same_ips first b
same_ips-first first a b h = elim (texts_discrete first a) [
  | yes p ↦ ap (λ l. same_ips l b) (sym p)
  | no p ↦ absurd (ground (arith, p, h))
]

-- Lists that equal the first one equal each other.
disagree-first :
    (first : List Text) (rest : List (List Text))
    → differ_from first rest ≡ false
    → disagree rest ≡ false
disagree-first first [] h = refl
disagree-first first (a ∷ rest) h =
    ground (arith, h, disagree-first first rest, differ_from-first first a rest)
  where
    differ_from-first :
        (first a : List Text) (rest : List (List Text))
        → same_ips first a ≡ true
        → differ_from a rest ≡ differ_from first rest
    differ_from-first first a [] e = refl
    differ_from-first first a (b ∷ rest) e =
        ground (arith, same_ips-first first a b e, differ_from-first first a rest e)

disagree_first :
    (first : List Text) (rest : List (List Text)) → disagree (first ∷ rest) ≡ differ_from first rest
disagree_first first rest = ground (arith, disagree-first first rest)

compare_silent :
    (a : DnsAnswer) (c : Compared) (e : Text × Class)
    → a.error ≡ some e
    → compare_answer a c ≡ record c { unreachable = c.unreachable ++ a.resolver ∷ [] }
unfolding compare_answer
compare_silent a c e h = rw (compare_answer, h) refl

compare-first :
    (a : DnsAnswer) (m : Bool) (u : List Text)
    → a.error ≡ none
    → compare_answer a (record { first = none; mismatch = m; unreachable = u })
      ≡ record { first = some a.ips; mismatch = m; unreachable = u }
unfolding compare_answer
compare-first a m u h = rw (compare_answer, h) refl

compare_later :
    (a : DnsAnswer) (first : List Text) (m : Bool) (u : List Text)
    → a.error ≡ none
    → compare_answer a (record { first = some first; mismatch = m; unreachable = u }) ≡ record {
      first = some first;
      mismatch = if same_ips first a.ips then m else true;
      unreachable = u;
    }
unfolding compare_answer
compare_later a first m u h = elim (Bool-cases (same_ips first a.ips)) [
  | inl e ↦ rw (compare_answer, h, e) refl
  | inr e ↦ rw (compare_answer, h, e) refl
]

abbrev compared : Option (List Text) → Bool → List Text → Compared
compared first m u = record { first = first; mismatch = m; unreachable = u }

abbrev Concluded : List DnsAnswer → Option (List Text) → Bool → List Text → Compared → Type 0
Concluded answers first m u c =
    (c.mismatch ≡ (m || disagree_after first (answered answers)))
    × (c.unreachable ≡ u ++ silent answers)

skip_silent :
    (a : DnsAnswer) (answers : List DnsAnswer) (first : Option (List Text)) (m : Bool)
    (u : List Text) (c : Compared) (e : Text × Class)
    → a.error ≡ some e
    → Concluded answers first m (u ++ a.resolver ∷ []) c
    → Concluded (a ∷ answers) first m u c
skip_silent a answers first m u c e h (p, q) =
    rw h (p, q ∙ append_assoc u (a.resolver ∷ []) (silent answers))

compare_answers-Concluded :
    (answers : List DnsAnswer) (first : Option (List Text)) (m : Bool) (u : List Text)
    → Concluded answers first m u (compare_answers answers (compared first m u))
unfolding compare_answers
compare_answers-Concluded [] none m u = (ground arith, sym (append-nil u))
compare_answers-Concluded [] (some f) m u = (ground arith, sym (append-nil u))
compare_answers-Concluded (a ∷ answers) none m u = elim (Option-cases a.error) [
  | inr (e, h) ↦
      subst (λ c. Concluded (a ∷ answers) none m u (compare_answers answers c))
        (sym (compare_silent a (compared none m u) e h))
        (skip_silent a answers none m u
          (compare_answers answers (compared none m (u ++ a.resolver ∷ []))) e h
          (compare_answers-Concluded answers none m (u ++ a.resolver ∷ [])))
  | inl h ↦
      let (p, q) = compare_answers-Concluded answers (some a.ips) m u in
      subst (λ c. Concluded (a ∷ answers) none m u (compare_answers answers c))
        (sym (compare-first a m u h))
        (rw h (p ∙ ap (λ b. m || b) (sym (disagree_first a.ips (answered answers))), q))
]
compare_answers-Concluded (a ∷ answers) (some f) m u = elim (Option-cases a.error) [
  | inr (e, h) ↦
      subst (λ c. Concluded (a ∷ answers) (some f) m u (compare_answers answers c))
        (sym (compare_silent a (compared (some f) m u) e h))
        (skip_silent a answers (some f) m u
          (compare_answers answers (compared (some f) m (u ++ a.resolver ∷ []))) e h
          (compare_answers-Concluded answers (some f) m (u ++ a.resolver ∷ [])))
  | inl h ↦
      let (p, q) =
        compare_answers-Concluded answers (some f) (if same_ips f a.ips then m else true) u in
      subst (λ c. Concluded (a ∷ answers) (some f) m u (compare_answers answers c))
        (sym (compare_later a f m u h)) (rw h (ground (arith, p), q))
]

-- The check of a host reports a mismatch exactly when two of the resolvers that answered gave
-- different lists of addresses, and lists exactly the resolvers that could not be asked, in their
-- order.
pub check_concludes :
    (ts : ℕ) (host : Text) (system : DnsAnswer) (answers : List DnsAnswer)
    → (let r = check ts host system answers in
        (r.mismatch ≡ disagree (answered (system ∷ answers)))
        × (r.unreachable ≡ silent (system ∷ answers)))
unfolding check
check_concludes ts host system answers = compare_answers-Concluded (system ∷ answers) none false []

abbrev pub no_events : List DnsEvent → Bool
no_events [] = true
no_events (ev ∷ evs) = false

unreachable-silent :
    (host : Text) (answers : List DnsAnswer)
    → no_events (unreachable_events host answers) ≡ none_listed (silent answers)
unfolding unreachable_events
unreachable-silent host [] = refl
unreachable-silent host (a ∷ answers) = elim (Option-cases a.error) [
  | inl h ↦ rw (h, unreachable_events) (unreachable-silent host answers)
  | inr (e, h) ↦ rw (h, unreachable_events) refl
]

-- The printed line of a check is ok exactly when the check has no event.
pub check-events :
    (ts : ℕ) (host : Text) (system : DnsAnswer) (answers : List DnsAnswer)
    → is_ok (check ts host system answers) ≡ no_events (dns_events (check ts host system answers))
unfolding check dns_events
check-events ts host system answers = ground (
  arith,
  ap none_listed (check_concludes ts host system answers).1,
  unreachable-silent host (system ∷ answers),
)
