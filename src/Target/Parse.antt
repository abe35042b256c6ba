-- ===== src/Target/Parse.antt =====
-- `ParseTarget` and `Addr` (internal/target/target.go): what is accepted, and that it prints back.
use pyck_debug_worker.Prelude.{
  ℕ, ◌≤◌, [], ◌∷◌, ◌++◌, none, some, true, false, ◌==◌, arith, ◌≡◌, refl, sym, ap, ◌∙◌, ℕ_discrete,
  Bool-cases, Option-cases, inl, inr,
}
use pyck_debug_worker.Prelude.Text.{Text, print}
use pyck_debug_worker.Strings.{
  has_byte, cut, cut_last, cut-append, cut-none, cut-some, cut-none_inv, cut_last-some,
  has_byte-part, cut_last-append, any_of-append, has_byte-print, atoi-print,
}
use pyck_debug_worker.Target.{
  Kind, grpc, https, kind_text, Target, join_host_port, addr, split_plain, after_bracket,
  split_host_port, ok, parse_kind, parse_port, is_empty, parse_endpoint, parse_target,
}

abbrev pub IsProperHost : Text → Type 0
IsProperHost host =
    (is_empty host ≡ false)
    × (has_byte b'=' host ≡ false)
    × (has_byte b'[' host ≡ false)
    × (has_byte b']' host ≡ false)

-- A host that is named, without "=" and brackets, and a port of TCP.
abbrev pub IsProper : Target → Type 0
IsProper t = IsProperHost t.host × (1 ≤ t.port) × (t.port ≤ 65535)

-- A port as it can stand behind a host.
abbrev IsPort : Text → Type 0
IsPort port =
    (has_byte b':' port ≡ false) × (has_byte b'[' port ≡ false) × (has_byte b']' port ≡ false)

split_bracket :
    (host port : Text)
    → has_byte b'[' host ≡ false
    → has_byte b']' host ≡ false
    → IsPort port
    → split_host_port (b'[' ∷ (host ++ b']' ∷ b':' ∷ port)) ≡ some (host, port)
unfolding split_host_port after_bracket
split_bracket host port h k p = rw (cut-append b']' host (b':' ∷ port) k) (ground (arith, h, p))

split_plain-join :
    (host port : Text)
    → has_byte b':' host ≡ false
    → has_byte b'[' host ≡ false
    → has_byte b']' host ≡ false
    → IsPort port
    → split_plain (host ++ b':' ∷ port) ≡ some (host, port)
unfolding split_plain
split_plain-join host port c h k p =
    rw
      (
        split_plain,
        cut_last-append b':' host port p.0,
        any_of-append (λ d. d == b'[') host (b':' ∷ port),
        any_of-append (λ d. d == b']') host (b':' ∷ port),
        c,
        h,
        k,
        p.1,
        p.2,
      )
      refl

split_host_port-plain :
    (host port : Text)
    → is_empty host ≡ false
    → has_byte b'[' host ≡ false
    → split_host_port (host ++ b':' ∷ port) ≡ split_plain (host ++ b':' ∷ port)
unfolding split_host_port
split_host_port-plain [] port e h = cc
split_host_port-plain (c ∷ host) port e h = ground (arith, h)

split_host_port-join :
    (host port : Text)
    → IsProperHost host
    → IsPort port
    → split_host_port (join_host_port host port) ≡ some (host, port)
unfolding join_host_port
split_host_port-join host port v p = elim (Bool-cases (has_byte b':' host)) [
  | inl e ↦ rw e (split_bracket host port v.2 v.3 p)
  | inr e ↦ rw e (split_host_port-plain host port v.0 v.2 ∙ split_plain-join host port e v.2 v.3 p)
]

print-IsPort : (n : ℕ) → IsPort (print n)
print-IsPort n =
    (has_byte-print b':' n refl, has_byte-print b'[' n refl, has_byte-print b']' n refl)

parse_port-print : (n : ℕ) → 1 ≤ n → n ≤ 65535 → parse_port (print n) ≡ some n
unfolding parse_port
parse_port-print n l u = rw (parse_port, atoi-print n) (ground arith)

parse_endpoint-addr :
    (t : Target) (kind : Kind)
    → IsProper t
    → parse_endpoint (addr t) kind ≡ ok (record t { kind = kind })
unfolding parse_endpoint addr
parse_endpoint-addr t kind v =
    rw
      (
        parse_endpoint,
        split_host_port-join t.host (print t.port) v.0 (print-IsPort t.port),
        v.0.0,
        parse_port-print t.port v.1 v.2,
      )
      refl

addr-no_kind : (t : Target) → IsProper t → has_byte b'=' (addr t) ≡ false
unfolding addr join_host_port
addr-no_kind t v = elim (Bool-cases (has_byte b':' t.host)) [
  | inl e ↦
      rw
        (
          e,
          any_of-append (λ d. d == b'=') t.host (b']' ∷ b':' ∷ print t.port),
          v.0.1,
          has_byte-print b'=' t.port refl,
        )
        refl
  | inr e ↦
      rw
        (
          e,
          any_of-append (λ d. d == b'=') t.host (b':' ∷ print t.port),
          v.0.1,
          has_byte-print b'=' t.port refl,
        )
        refl
]

parse_kind-text : (k : Kind) → parse_kind (kind_text k) ≡ some k
unfolding parse_kind ℕ_discrete
parse_kind-text grpc = refl
parse_kind-text https = refl

split_plain-parts :
    (s host port : Text)
    → split_plain s ≡ some (host, port)
    → (s ≡ host ++ b':' ∷ port) × (has_byte b'[' s ≡ false) × (has_byte b']' s ≡ false)
unfolding split_plain
split_plain-parts s host port h = elim (Option-cases (cut_last b':' s)) [
  | inl e ↦ ground (arith, e, h)
  | inr ((a, b), e) ↦ ground (arith, e, h, cut_last-some b':' s a b e)
]

after_bracket-parts :
    (host after h p : Text)
    → after_bracket host after ≡ some (h, p)
    → (host ≡ h) × (has_byte b'[' h ≡ false)
unfolding after_bracket
after_bracket-parts host [] h p e = cc
after_bracket-parts host (c ∷ port) h p e = ground (arith, e)

split_host_port-bracket :
    (c : ℕ) (s a b : Text)
    → c == b'[' ≡ true
    → cut b']' s ≡ some (a, b)
    → split_host_port (c ∷ s) ≡ after_bracket a b
unfolding split_host_port
split_host_port-bracket c s a b e n = ground (arith, e, n)

split_host_port-other :
    (c : ℕ) (s : Text) → c == b'[' ≡ false → split_host_port (c ∷ s) ≡ split_plain (c ∷ s)
unfolding split_host_port
split_host_port-other c s e = ground (arith, e)

-- What is split off as a host has no bracket, and no "=" where the text has none.
split_host_port-host :
    (s host port : Text)
    → split_host_port s ≡ some (host, port)
    → has_byte b'=' s ≡ false
    → (has_byte b'=' host ≡ false) × (has_byte b'[' host ≡ false) × (has_byte b']' host ≡ false)
unfolding split_host_port
split_host_port-host [] host port h k = cc
split_host_port-host (c ∷ s) host port h k = elim (Bool-cases (c == b'[')) [
  | inl e ↦ elim (Option-cases (cut b']' s)) [
    | inl n ↦ ground (arith, e, n, h)
    | inr ((a, b), n) ↦
        let (p, q) =
          after_bracket-parts a b host port (sym (split_host_port-bracket c s a b e n) ∙ h) in
        let (x, y) = cut-some b']' s a b n in
        let none_in = has_byte-part b'=' s a (b']' ∷ b) x (ground (arith, k)) in
        (ap (has_byte b'=') (sym p) ∙ none_in.0, q, ap (has_byte b']') (sym p) ∙ y)
  ]
  | inr e ↦
      let (x, y, z) = split_plain-parts (c ∷ s) host port (sym (split_host_port-other c s e) ∙ h) in
      (
        (has_byte-part b'=' (c ∷ s) host (b':' ∷ port) x k).0,
        (has_byte-part b'[' (c ∷ s) host (b':' ∷ port) x y).0,
        (has_byte-part b']' (c ∷ s) host (b':' ∷ port) x z).0,
      )
]

parse_port-range : (s : Text) (n : ℕ) → parse_port s ≡ some n → (1 ≤ n) × (n ≤ 65535)
unfolding parse_port
parse_port-range s n h = ground (arith, h)

parse_target-plain : (s : Text) → cut b'=' s ≡ none → parse_target s ≡ parse_endpoint s https
unfolding parse_target
parse_target-plain s e = ground (arith, e)

parse_target-kind :
    (s a b : Text) (kind : Kind)
    → cut b'=' s ≡ some (a, b)
    → parse_kind b ≡ some kind
    → parse_target s ≡ parse_endpoint a kind
unfolding parse_target
parse_target-kind s a b kind e n = ground (arith, e, n)

parse_endpoint-IsProper :
    (s : Text) (kind : Kind) (t : Target)
    → has_byte b'=' s ≡ false
    → parse_endpoint s kind ≡ ok t
    → IsProper t
unfolding parse_endpoint
parse_endpoint-IsProper s kind t k h = elim (Option-cases (split_host_port s)) [
  | inl e ↦ ground (arith, e, h)
  | inr ((host, port), e) ↦ elim (Option-cases (parse_port port)) [
    | inl n ↦ ground (arith, e, n, h)
    | inr (m, n) ↦
        ground (arith, e, n, h, parse_port-range port m n, split_host_port-host s host port e k)
  ]
]

-- Whatever `ParseTarget` accepts has a host without "=" and brackets, not an empty one, and a port
-- from 1 to 65535.
pub parse_target-IsProper : (s : Text) (t : Target) → parse_target s ≡ ok t → IsProper t
unfolding parse_target
parse_target-IsProper s t h = elim (Option-cases (cut b'=' s)) [
  | inl e ↦
      parse_endpoint-IsProper s https t (cut-none_inv b'=' s e) (sym (parse_target-plain s e) ∙ h)
  | inr ((a, b), e) ↦ elim (Option-cases (parse_kind b)) [
    | inl n ↦ ground (arith, e, n, h)
    | inr (kind, n) ↦
        parse_endpoint-IsProper a kind t (cut-some b'=' s a b e).1
          (sym (parse_target-kind s a b kind e n) ∙ h)
  ]
]

-- A host without "=" and brackets, not an empty one, and a port from 1 to 65535 are read back from
-- `Addr` with the kind behind it, and without a kind as https.
pub parse_target-addr :
    (t : Target)
    → IsProper t
    → (parse_target (addr t ++ b'=' ∷ kind_text t.kind) ≡ ok t)
      × (parse_target (addr t) ≡ ok (record t { kind = https }))
unfolding parse_target
parse_target-addr t v = (
  parse_target-kind (addr t ++ b'=' ∷ kind_text t.kind) (addr t) (kind_text t.kind) t.kind
        (cut-append b'=' (addr t) (kind_text t.kind) (addr-no_kind t v)) (parse_kind-text t.kind)
      ∙ parse_endpoint-addr t t.kind v,
  parse_target-plain (addr t) (cut-none b'=' (addr t) (addr-no_kind t v))
      ∙ parse_endpoint-addr t https v,
)
