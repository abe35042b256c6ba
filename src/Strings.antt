-- ===== src/Strings.antt =====
-- The functions of the standard library's `strings`, `strconv` and `net` that the source calls, on
-- texts as bytes: `strings.Cut` at a byte, the last index of a byte, `strconv.Atoi`.
use mathlib.Core.List.{reverse}
use mathlib.Core.Path.{◌≡◌, refl, ap, ◌∙◌}
use pyck_debug_worker.Prelude.{
  ℕ, zero, suc, ◌+◌, ◌*◌, ◌-◌, ◌/◌, ◌%◌, ◌<◌, List, [], ◌∷◌, ◌++◌, Option, none, some, Bool, false,
  ◌||◌, ◌&&◌, arith, Option-cases, ltb, ltb→lt, leb, ◌≢◌, length, length-append, ◌==◌,
  if◌then◌else◌, any_of, Bool-cases, inl, inr,
}
use pyck_debug_worker.Prelude.Int
use pyck_debug_worker.Prelude.Int.{ℤ}
use pyck_debug_worker.Prelude.Text.{Text, print, print_rounds}

-- `strings.IndexByte(s, c) >= 0`.
abbrev pub has_byte : ℕ → Text → Bool
has_byte c = any_of (λ d. d == c)

-- `strings.Cut(s, sep)` at one byte: the text before and after the first one.
unfoldable pub cut : ℕ → Text → Option (Text × Text)
cut c [] = none
cut c (d ∷ s) =
    let rest = cut c s in
    if d == c then some ([], s) else elim rest [ none ↦ none | some (a, b) ↦ some (d ∷ a, b) ]

-- The first result of `strings.Cut`.
unfoldable pub before : ℕ → Text → Text
before c [] = []
before c (d ∷ s) = if d == c then [] else d ∷ before c s

-- Around the last one: `s[:i]` and `s[i+1:]` for `i = strings.LastIndexByte(s, c)`.
unfoldable pub cut_last : ℕ → Text → Option (Text × Text)
cut_last c [] = none
cut_last c (d ∷ s) = elim (cut_last c s) [
  | some (a, b) ↦ some (d ∷ a, b)
  | none ↦ if d == c then some ([], s) else none
]

-- `strings.ToLower` of an ASCII text.
abbrev pub lower : ℕ → ℕ
lower c = if leb b'A' c && leb c b'Z' then c + 32 else c

unfoldable pub to_lower : Text → Text
to_lower [] = []
to_lower (c ∷ s) = lower c ∷ to_lower s

-- `strings.TrimLeft(s, c)` for one byte.
unfoldable pub trim_left : ℕ → Text → Text
trim_left c [] = []
trim_left c (d ∷ s) = if d == c then trim_left c s else d ∷ s

abbrev pub is_digit : ℕ → Bool
is_digit c = leb b'0' c && leb c b'9'

-- The digits behind those that were read as `n`.
unfoldable pub read_digits : ℕ → Text → Option ℕ
read_digits n [] = some n
read_digits n (c ∷ s) = if is_digit c then read_digits (10 * n + (c - b'0')) s else none

abbrev negate : ℕ → ℤ
negate zero = Int.pos 0
negate (suc n) = Int.negsuc n

abbrev read_unsigned : Text → Option ℕ
read_unsigned [] = none
read_unsigned (c ∷ s) = read_digits 0 (c ∷ s)

-- `strconv.Atoi`, without its bound on the size of the number.
unfoldable pub atoi : Text → Option ℤ
atoi [] = none
atoi (c ∷ s) =
    if c == b'-'
    then elim (read_unsigned s) [ none ↦ none | some n ↦ some (negate n) ]
    else if c == b'+'
    then elim (read_unsigned s) [ none ↦ none | some n ↦ some (Int.pos n) ]
    else elim (read_unsigned (c ∷ s)) [ none ↦ none | some n ↦ some (Int.pos n) ]

-- Cutting at a byte that is not in the first part finds the parts again.
pub cut-append : (c : ℕ) (a b : Text) → has_byte c a ≡ false → cut c (a ++ c ∷ b) ≡ some (a, b)
unfolding cut
cut-append c [] b h = ground arith
cut-append c (d ∷ a) b h = ground (arith, cut-append c a b)

pub cut-none : (c : ℕ) (s : Text) → has_byte c s ≡ false → cut c s ≡ none
unfolding cut
cut-none c [] h = refl
cut-none c (d ∷ s) h = ground (arith, cut-none c s)

pub cut_last-none : (c : ℕ) (s : Text) → has_byte c s ≡ false → cut_last c s ≡ none
unfolding cut_last
cut_last-none c [] h = refl
cut_last-none c (d ∷ s) h = ground (arith, cut_last-none c s)

pub cut_last-append :
    (c : ℕ) (a b : Text) → has_byte c b ≡ false → cut_last c (a ++ c ∷ b) ≡ some (a, b)
unfolding cut_last
cut_last-append c [] b h = rw (cut_last-none c b h) (ground arith)
cut_last-append c (d ∷ a) b h = rw (cut_last-append c a b h) refl

pub any_of-append {ℓ} :
    {A : Type ℓ} (p : A → Bool) (xs ys : List A)
    → any_of p (xs ++ ys) ≡ (any_of p xs || any_of p ys)
any_of-append p [] ys = refl
any_of-append p (x ∷ xs) ys = ground (arith, any_of-append p xs ys)

read_digits-append :
    (n m : ℕ) (a b : Text) → read_digits n a ≡ some m → read_digits n (a ++ b) ≡ read_digits m b
unfolding read_digits
read_digits-append n m [] b h = ground (arith, h)
read_digits-append n m (c ∷ a) b h =
    ground (arith, h, read_digits-append (10 * n + (c - b'0')) m a b)

-- Reading back a printed number.
read_print_rounds : (f n : ℕ) → n < f → read_digits 0 (print_rounds f n) ≡ some n
unfolding print_rounds read_digits
read_print_rounds zero n h = ground (arith, h)
read_print_rounds (suc f) n h = elim (Bool-cases (ltb n 10)) [
  | inl e ↦ rw (e, print_rounds, read_digits) (ground (arith, ltb→lt n 10 e))
  | inr e ↦
      rw (e, print_rounds, read_digits)
        (read_digits-append 0 (n / 10) (print_rounds f (n / 10)) _
            (read_print_rounds f (n / 10) (ground (arith, e, h)))
          ∙ ground (arith, e, h))
]

pub read_digits-print : (n : ℕ) → read_digits 0 (print n) ≡ some n
unfolding print
read_digits-print n = read_print_rounds (suc n) n (omega arith)

-- A printed number holds digits only, and at least one.
print_rounds-digits : (f n c : ℕ) → is_digit c ≡ false → has_byte c (print_rounds f n) ≡ false
unfolding print_rounds
print_rounds-digits zero n c h = refl
print_rounds-digits (suc f) n c h = elim (Bool-cases (ltb n 10)) [
  | inl e ↦ rw (e, print_rounds) (ground (arith, ltb→lt n 10 e, h))
  | inr e ↦
      rw
        (
          e,
          print_rounds,
          any_of-append (λ d. d == c) (print_rounds f (n / 10)) ((b'0' + n % 10) ∷ []),
        )
        (ground (arith, print_rounds-digits f (n / 10) c h, h))
]

pub has_byte-print : (c n : ℕ) → is_digit c ≡ false → has_byte c (print n) ≡ false
unfolding print
has_byte-print c n h = print_rounds-digits (suc n) n c h

atoi_digits :
    (s : Text) (n : ℕ)
    → has_byte b'-' s ≡ false
    → has_byte b'+' s ≡ false
    → s ≢ []
    → read_digits 0 s ≡ some n
    → atoi s ≡ some (Int.pos n)
unfolding atoi
atoi_digits [] n h k e r = absurd (e refl)
atoi_digits (c ∷ s) n h k e r = ground (arith, h, k, r)

print_rounds-length : (f n : ℕ) → 0 < length (print_rounds (suc f) n)
unfolding print_rounds
print_rounds-length f n = elim (Bool-cases (ltb n 10)) [
  | inl e ↦ rw (e, print_rounds) (omega arith)
  | inr e ↦
      rw (e, print_rounds, length-append (print_rounds f (n / 10)) ((b'0' + n % 10) ∷ []))
        (omega arith)
]

print_nonempty : (n : ℕ) → print n ≢ []
unfolding print
print_nonempty n e = absurd (ground (arith, print_rounds-length n n, ap (length {A = ℕ}) e))

-- `strconv.Atoi` reads back what `strconv.Itoa` prints.
pub atoi-print : (n : ℕ) → atoi (print n) ≡ some (Int.pos n)
atoi-print n =
    atoi_digits (print n) n (has_byte-print b'-' n refl) (has_byte-print b'+' n refl)
      (print_nonempty n) (read_digits-print n)

-- A cut text is the two parts with the byte between them, which the first part does not have.
pub cut-some :
    (c : ℕ) (s a b : Text) → cut c s ≡ some (a, b) → (s ≡ a ++ c ∷ b) × (has_byte c a ≡ false)
unfolding cut
cut-some c [] a b h = cc
cut-some c (d ∷ s) a b h = elim (Bool-cases (d == c)) [
  | inl e ↦ ground (arith, e, h)
  | inr e ↦ elim (Option-cases (cut c s)) [
    | inl n ↦ ground (arith, e, n, h)
    | inr ((x, y), n) ↦ ground (arith, e, n, h, cut-some c s x y n)
  ]
]

pub cut-none_inv : (c : ℕ) (s : Text) → cut c s ≡ none → has_byte c s ≡ false
unfolding cut
cut-none_inv c [] h = refl
cut-none_inv c (d ∷ s) h = ground (arith, h, cut-none_inv c s)

pub cut_last-some : (c : ℕ) (s a b : Text) → cut_last c s ≡ some (a, b) → s ≡ a ++ c ∷ b
unfolding cut_last
cut_last-some c [] a b h = cc
cut_last-some c (d ∷ s) a b h = elim (Option-cases (cut_last c s)) [
  | inl e ↦ ground (arith, e, h)
  | inr ((x, y), e) ↦ ground (arith, e, h, cut_last-some c s x y e)
]

-- A byte that a text does not have is in no part of it.
pub has_byte-part :
    (x : ℕ) (s a b : Text)
    → s ≡ a ++ b
    → has_byte x s ≡ false
    → (has_byte x a ≡ false) × (has_byte x b ≡ false)
has_byte-part x s a b e h = ground (arith, any_of-append (λ d. d == x) a b, ap (has_byte x) e, h)

-- `strings.TrimSpace` of an ASCII text.
abbrev pub is_space : ℕ → Bool
is_space c = (leb 9 c && leb c 13) || c == b' '

unfoldable pub drop_spaces : Text → Text
drop_spaces [] = []
drop_spaces (c ∷ s) = if is_space c then drop_spaces s else c ∷ s

unfoldable pub trim_space : Text → Text
unfolding drop_spaces
trim_space s = reverse (drop_spaces (reverse (drop_spaces s)))

pub before-append : (c : ℕ) (s t : Text) → before c (s ++ c ∷ t) ≡ before c s
unfolding before
before-append c [] t = ground arith
before-append c (d ∷ s) t = ground (arith, before-append c s t)

-- A text without the byte has nothing cut off.
pub before_self : (c : ℕ) (s : Text) → has_byte c s ≡ false → before c s ≡ s
unfolding before
before_self c [] h = refl
before_self c (d ∷ s) h = ground (arith, h, before_self c s)
