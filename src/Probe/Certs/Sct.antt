-- ===== src/Probe/Certs/Sct.antt =====
-- The walk over the SCT list (internal/probe/chain.go): it counts what a list was framed from, and its
-- rounds are enough.
use pyck_debug_worker.Prelude.{
  ℕ, zero, suc, ◌+◌, ◌*◌, ◌/◌, ◌%◌, ◌≤◌, ◌<◌, List, [], ◌∷◌, ◌++◌, true, ltb, length, length-append,
  All, some, false, if◌then◌else◌, ◌≡◌, refl, ap, ◌∙◌, arith,
}
use pyck_debug_worker.Probe.Certs.{
  Extension, drop_bytes, count_entries, entries_of, octets_or_none, embedded_scts,
}

-- An entry behind its size in two bytes, and a list of entries.
abbrev pub frame : List ℕ → List ℕ
frame entry = (length entry / 256) ∷ (length entry % 256) ∷ entry

abbrev pub frame_all : List (List ℕ) → List ℕ
frame_all [] = []
frame_all (entry ∷ entries) = frame entry ++ frame_all entries

length-drop_bytes : (n : ℕ) (s : List ℕ) → length (drop_bytes n s) ≤ length s
length-drop_bytes zero s = omega arith
length-drop_bytes (suc n) [] = omega arith
length-drop_bytes (suc n) (c ∷ s) = omega (arith, length-drop_bytes n s)

drop_bytes-append : (a b : List ℕ) → drop_bytes (length a) (a ++ b) ≡ b
drop_bytes-append [] b = refl
drop_bytes-append (c ∷ a) b = drop_bytes-append a b

-- Given at least as many rounds as there are bytes, the walk counts the same entries whatever their
-- number is.
pub count_entries_enough :
    (f g : ℕ) (body : List ℕ)
    → length body ≤ f
    → length body ≤ g
    → count_entries f body ≡ count_entries g body
unfolding count_entries
count_entries_enough zero zero body h k = refl
count_entries_enough zero (suc g) [] h k = refl
count_entries_enough zero (suc g) (a ∷ body) h k = absurd (omega (arith, h))
count_entries_enough (suc f) zero [] h k = refl
count_entries_enough (suc f) zero (a ∷ body) h k = absurd (omega (arith, k))
count_entries_enough (suc f) (suc g) [] h k = refl
count_entries_enough (suc f) (suc g) (a ∷ []) h k = refl
count_entries_enough (suc f) (suc g) (a ∷ b ∷ body) h k =
    let dropped = drop_bytes (a * 256 + b) body in
    let small = length-drop_bytes (a * 256 + b) body in
    ap (λ n. if ltb (length body) (a * 256 + b) then 0 else suc n)
      (count_entries_enough f g dropped (omega (arith, h, small)) (omega (arith, k, small)))

count_entries_step :
    (fuel high low size : ℕ) (rest : List ℕ)
    → high * 256 + low ≡ size
    → size ≤ length rest
    → count_entries (suc fuel) (high ∷ low ∷ rest) ≡ suc (count_entries fuel (drop_bytes size rest))
unfolding count_entries
count_entries_step fuel high low size rest e h =
    ap (λ n. if ltb (length rest) n then 0 else suc (count_entries fuel (drop_bytes n rest))) e
    ∙ ground (arith, h)

count_entries-frame :
    (entries : List (List ℕ)) (fuel : ℕ)
    → All (λ e. length e < 65536) entries
    → length (frame_all entries) ≤ fuel
    → count_entries fuel (frame_all entries) ≡ length entries
unfolding count_entries
count_entries-frame [] zero v h = refl
count_entries-frame [] (suc fuel) v h = refl
count_entries-frame (e ∷ entries) zero v h = absurd (omega (arith, h))
count_entries-frame (e ∷ entries) (suc fuel) v h =
    count_entries_step fuel (length e / 256) (length e % 256) (length e) (e ++ frame_all entries)
      (omega arith) (omega (arith, length-append e (frame_all entries)))
    ∙ ap (λ b. suc (count_entries fuel b)) (drop_bytes-append e (frame_all entries))
    ∙ ap suc (
        count_entries-frame entries fuel v.1
          (omega (arith, h, length-append e (frame_all entries))))

-- Extensions of other kinds, however many are in front, do not matter.
skip_others :
    (before after : List Extension)
    → All (λ (x : Extension). x.is_sct_list ≡ false) before
    → embedded_scts (before ++ after) ≡ embedded_scts after
unfolding embedded_scts
skip_others [] after h = refl
skip_others (x ∷ before) after h = rw h.0 (skip_others before after h.1)

-- A list of entries, each below 65536 bytes, that is framed as RFC 6962 says, with any two bytes of
-- the list's size in front, is counted exactly wherever the certificate's first extension of that
-- kind stands: behind any extensions of other kinds, and whatever follows it.
pub embedded_scts-frame :
    (before : List Extension) (high low : ℕ) (entries : List (List ℕ)) (others : List Extension)
    → All (λ (x : Extension). x.is_sct_list ≡ false) before
    → All (λ e. length e < 65536) entries
    → embedded_scts (
        before
        ++ record { is_sct_list = true; octets = some (high ∷ low ∷ frame_all entries) } ∷ others)
      ≡ length entries
unfolding embedded_scts octets_or_none entries_of
embedded_scts-frame before high low entries others o v =
    skip_others before _ o
    ∙ count_entries-frame entries (length (frame_all entries)) v (omega arith)
