-- ===== src/Prelude/Text.antt =====
-- A Go string as the list of its bytes. Literals are written through `codes`; those of the source
-- that are used here are ASCII.
use Prim.Native.Char.{code}
use Prim.Native.Nat.{ℕ, zero, suc, ◌+◌, ◌-◌, ◌/◌, ◌%◌}
use Prim.Native.String.{String}
use mathlib.Core.Path.{◌≡◌, refl}
use mathlib.Core.Bool.{Bool, true, false, ◌||◌}
use mathlib.Core.Option.{Option, none, some}
use mathlib.Core.List.{List, [], ◌∷◌, ◌++◌, reverse}
use native.Mathlib.Decide.{ℕ_discrete}
use pyck_debug_worker.Prelude.Lists.{replicate, count_if}
use pyck_debug_worker.Prelude.Tests.{is_some, ltb, leb, ◌==◌, if◌then◌else◌}

abbrev pub Text : Type 0
Text = List ℕ

abbrev pub codes : String → Text
codes String.[] = []
codes (String.◌∷◌ c s) = code c ∷ codes s

unfoldable pub text_discrete : Discrete Text
text_discrete = hlevel ℕ_discrete

-- `strconv.Itoa` of a number: `print_rounds` is given at least as many rounds as there are digits.
unfoldable pub print_rounds : ℕ → ℕ → Text
print_rounds zero n = []
print_rounds (suc f) n = elim (ltb n 10) [
  | true ↦ (b'0' + n) ∷ []
  | false ↦ print_rounds f (n / 10) ++ (b'0' + n % 10) ∷ []
]

unfoldable pub print : ℕ → Text
unfolding print_rounds
print n = print_rounds (suc n) n

print_2026 : print 2026 ≡ codes "2026"
unfolding print
print_2026 = refl

-- The spaces of a padded column.
abbrev pub spaces : ℕ → Text
spaces n = replicate n b' '

-- `utf8.RuneCountInString` of a valid UTF-8 text: the bytes that do not continue a character.
abbrev pub starts_rune : ℕ → Bool
starts_rune c = ltb c 0x80 || leb 0xc0 c

abbrev pub rune_count : Text → ℕ
rune_count = count_if starts_rune

-- `%-*s` and `%*s`.
unfoldable pub pad_right : ℕ → Text → Text
pad_right width s = s ++ spaces (width - rune_count s)

unfoldable pub pad_left : ℕ → Text → Text
pad_left width s = spaces (width - rune_count s) ++ s

-- `strings.Join`.
unfoldable pub join : Text → List Text → Text
join sep [] = []
join sep (s ∷ []) = s
join sep (s ∷ t ∷ ts) = s ++ (sep ++ join sep (t ∷ ts))

-- `strings.CutPrefix`: the rest behind a prefix.
unfoldable pub cut_prefix : Text → Text → Option Text
cut_prefix [] s = some s
cut_prefix (c ∷ prefix) [] = none
cut_prefix (c ∷ prefix) (d ∷ s) = if c == d then cut_prefix prefix s else none

abbrev pub has_prefix : Text → Text → Bool
has_prefix prefix s = is_some (cut_prefix prefix s)

-- `strings.TrimSuffix`, and what `strings.HasSuffix` tests.
unfoldable pub cut_suffix : Text → Text → Option Text
unfolding cut_prefix
cut_suffix suffix s = elim (cut_prefix (reverse suffix) (reverse s)) [
  | none ↦ none
  | some rest ↦ some (reverse rest)
]

-- `strings.TrimRight` of one byte.
unfoldable pub trim_right : ℕ → Text → Text
trim_right c [] = []
trim_right c (d ∷ s) = add (trim_right c s)
  where
    add : Text → Text
    add [] = if d == c then [] else d ∷ []
    add (x ∷ xs) = d ∷ x ∷ xs
