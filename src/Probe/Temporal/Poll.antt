-- ===== src/Probe/Temporal/Poll.antt =====
-- What the longpoll stage may count as a truncated poll (internal/probe/temporal.go).
use pyck_debug_worker.Prelude.{
  ℕ, ◌+◌, ◌-◌, ◌≤◌, List, [], ◌∷◌, Option, none, some, ◌≡◌, refl, sym, ap, ◌∙◌, subst, if_pos,
  if_neg, ℕ_discrete, tests, arith, ◌⊎◌, inl, inr, Bool, true, false, not, ◌&&◌, ◌||◌, ◌==◌, leb,
  ite, any_of, all_of,
}
use pyck_debug_worker.Prelude.Text.{Text, text_discrete}
use pyck_debug_worker.Probe.Temporal.{
  PollerInfo, Poller, long_poll_duration, longest, held_by, saw, observe, observe_all, observed,
}

-- When our poll was seen last, and since when it was held then; `none` before it was seen.
abbrev pub Seen : Type 0
Seen = Option (ℕ × ℕ)

-- The poll that is seen is the one that was seen last, or it starts when that one had been held for the
-- whole long poll at least; the clock does not run backwards.
abbrev pub Follows : Seen → ℕ → ℕ → Type 0
Follows none now start = start ≤ now
Follows (some (before, from)) now start =
    (before ≤ now) × (start ≤ now) × ((start ≡ from) ⊎ (from + long_poll_duration ≤ start))

-- A description of the pollers that the queue lists: ours are those with our identity.
abbrev pub is_own : Text → PollerInfo → Bool
is_own identity info = ite (text_discrete info.identity identity) true false

abbrev pub IsAbsent : Text → List PollerInfo → Type 0
IsAbsent identity infos = any_of (is_own identity) infos ≡ false

-- The oldest of ours was last accessed at `start`.
abbrev pub IsOldest : Text → ℕ → List PollerInfo → Type 0
IsOldest identity start infos =
    (any_of (λ info. is_own identity info && (info.last_access == start)) infos ≡ true)
    × (all_of (λ info. not (is_own identity info) || leb start info.last_access) infos ≡ true)

-- At each observation our poller is absent, or its oldest poll follows the one before. The pollers
-- of other identities are free.
abbrev pub IsHeldOut : Text → Seen → List (ℕ × List PollerInfo) → Type 0
IsHeldOut identity last [] = Unit {0}
IsHeldOut identity last ((now, infos) ∷ seen) =
    (IsAbsent identity infos × IsHeldOut identity last seen)
    ⊎ ((start : ℕ) × IsOldest identity start infos
        × Follows last now start
        × IsHeldOut identity (some (now, start)) seen)

held_by-absent :
    (identity : Text) (now : ℕ) (infos : List PollerInfo)
    → IsAbsent identity infos
    → held_by identity now infos ≡ none
unfolding held_by
held_by-absent identity now [] h = refl
held_by-absent identity now (info ∷ infos) h = ground (arith, held_by-absent identity now infos)

-- None of our polls is older than the oldest.
abbrev IsWithin : ℕ → Option ℕ → Type 0
IsWithin n none = Unit {0}
IsWithin n (some held) = held ≤ n

longest-IsWithin : (n age : ℕ) (rest : Option ℕ) → age ≤ n → IsWithin n rest → longest age rest ≤ n
longest-IsWithin n age none h r = h
longest-IsWithin n age (some held) h r = ground arith

held_by-IsWithin :
    (identity : Text) (now start : ℕ) (infos : List PollerInfo)
    → all_of (λ info. not (is_own identity info) || leb start info.last_access) infos ≡ true
    → IsWithin (now - start) (held_by identity now infos)
unfolding held_by
held_by-IsWithin identity now start [] h = tt
held_by-IsWithin identity now start (info ∷ infos) h = elim (text_discrete info.identity identity) [
  | yes p ↦
      subst (IsWithin (now - start)) (sym (if_pos (text_discrete info.identity identity) p _ _)) (
        longest-IsWithin (now - start) (now - info.last_access) (held_by identity now infos)
          (ground arith) (held_by-IsWithin identity now start infos (ground arith)))
  | no p ↦
      subst (IsWithin (now - start)) (sym (if_neg (text_discrete info.identity identity) p _ _))
        (held_by-IsWithin identity now start infos (ground arith))
]

longest-oldest : (n : ℕ) (rest : Option ℕ) → IsWithin n rest → longest n rest ≡ n
longest-oldest n none r = refl
longest-oldest n (some held) r = ground arith

longest-younger : (n age : ℕ) → age ≤ n → longest age (some n) ≡ n
longest-younger n age h = ground arith

held_by-oldest :
    (identity : Text) (now start : ℕ) (infos : List PollerInfo)
    → IsOldest identity start infos
    → held_by identity now infos ≡ some (now - start)
unfolding held_by
held_by-oldest identity now start [] (some_at, none_older) = cc
held_by-oldest identity now start (info ∷ infos) (some_at, none_older) =
    elim (text_discrete info.identity identity) [
      | yes p ↦
          if_pos (text_discrete info.identity identity) p _ _
          ∙ ap some (elim (ℕ_discrete info.last_access start) [
            | yes q ↦
                ap (λ a. longest (now - a) (held_by identity now infos)) q
                ∙ longest-oldest (now - start) _
                    (held_by-IsWithin identity now start infos (ground arith))
            | no q ↦
                ap (longest (now - info.last_access))
                  (held_by-oldest identity now start infos (ground arith, ground arith))
                ∙ longest-younger (now - start) (now - info.last_access) (ground arith)
          ])
      | no p ↦
          if_neg (text_discrete info.identity identity) p _ _
          ∙ held_by-oldest identity now start infos (ground arith, ground arith)
    ]

-- The state says what was seen last.
abbrev IsSeen : Seen → Poller → Type 0
IsSeen none p = p.last_seen ≡ 0
IsSeen (some (before, from)) p =
    (p.last_held ≡ before - from) × (p.last_seen ≡ before) × (from ≤ before)

saw_held :
    (last : Seen) (now start : ℕ) (p : Poller)
    → IsSeen last p
    → Follows last now start
    → (saw (now - start) now p).truncations ≡ p.truncations
unfolding saw
saw_held none now start p never first = grind tests
saw_held (some (before, from)) now start p (held, last, e) (f, g, inl same) = grind tests
saw_held (some (before, from)) now start p (held, last, e) (f, g, inr later) = grind tests

Follows-le : (last : Seen) (now start : ℕ) → Follows last now start → start ≤ now
Follows-le none now start first = first
Follows-le (some (before, from)) now start (f, g, h) = g

held_out :
    (seen : List (ℕ × List PollerInfo)) (last : Seen) (p : Poller)
    → IsSeen last p
    → IsHeldOut p.identity last seen
    → (observe_all seen p).truncations ≡ p.truncations
unfolding observe_all observe saw
held_out [] last p is_seen out = refl
held_out ((now, infos) ∷ seen) last p is_seen (inl (absent, out)) =
    ap (λ (r : Option ℕ × Poller). (observe_all seen r.1).truncations)
      (ap (observed now p) (held_by-absent p.identity now infos absent))
    ∙ held_out seen last p is_seen out
held_out ((now, infos) ∷ seen) last p is_seen (inr (start, oldest, follows, out)) =
    ap (λ (r : Option ℕ × Poller). (observe_all seen r.1).truncations)
      (ap (observed now p) (held_by-oldest p.identity now start infos oldest))
    ∙ held_out seen (some (now, start)) (saw (now - start) now p)
        (refl, refl, Follows-le last now start follows) out
    ∙ saw_held last now start p is_seen follows

-- From a poller that has seen nothing so far, a server that holds each poll of ours for the full sixty
-- seconds is never charged with a truncated one, however often the queue is observed as time goes on,
-- and whatever pollers of other identities it lists: at each observation our identity is not listed, or
-- its oldest poll has begun by now and is the one that was seen last, or a later one, begun when that
-- had been held for sixty seconds.
pub observe_all_held :
    (seen : List (ℕ × List PollerInfo)) (p : Poller)
    → p.last_seen ≡ 0
    → IsHeldOut p.identity none seen
    → (observe_all seen p).truncations ≡ p.truncations
observe_all_held seen p never out = held_out seen none p never out
