-- ===== src/Netcheck/Hosts/Entries.antt =====
-- What `ParseHosts` accepts (internal/netcheck/netcheck.go).
use pyck_debug_worker.Prelude.{
  ◌+◌, List, [], ◌∷◌, ◌++◌, Option, none, some, false, ◌⊎◌, All, All-append, contains, length,
  length-append, ◌≡◌, sym, ap, ◌∙◌, arith, subst, Bool-cases, Option-cases, inl, inr,
}
use pyck_debug_worker.Prelude.Distinct.{Distinct, Distinct-snoc}
use pyck_debug_worker.Prelude.Text.{Text, text_discrete}
use pyck_debug_worker.Strings.{has_byte, to_lower, trim_space}
use pyck_debug_worker.Target.{is_empty}
use pyck_debug_worker.Netcheck.Hosts.{
  split_at, ParsedHosts, hosts, hosts_error, check_host, parse_entries, parse_hosts,
}

module _ (parse_addr : Text → Option Text) where
  -- A canonical address, or a name that is no address and has no "/" and no ":".
  abbrev pub IsHost : Text → Type 0
  IsHost host =
      ((entry : Text) × (parse_addr entry ≡ some host))
      ⊎ ((parse_addr host ≡ none) × (has_byte b'/' host ≡ false) × (has_byte b':' host ≡ false))

  check_host-name :
      (entry host : Text)
      → parse_addr entry ≡ none
      → check_host parse_addr entry ≡ some host
      → (entry ≡ host) × (has_byte b'/' entry ≡ false) × (has_byte b':' entry ≡ false)
  unfolding check_host
  check_host-name entry host e h = ground (arith, e, h)

  check_host-addr :
      (entry host addr : Text)
      → parse_addr entry ≡ some addr
      → check_host parse_addr entry ≡ some host
      → addr ≡ host
  unfolding check_host
  check_host-addr entry host addr e h = ground (arith, e, h)

  check_host-IsHost : (entry host : Text) → check_host parse_addr entry ≡ some host → IsHost host
  check_host-IsHost entry host h = elim (Option-cases (parse_addr entry)) [
    | inl e ↦
        let (p, q, r) = check_host-name entry host e h in
        inr (
          ap parse_addr (sym p) ∙ e,
          ap (has_byte b'/') (sym p) ∙ q,
          ap (has_byte b':') (sym p) ∙ r,
        )
    | inr (addr, e) ↦ inl (entry, e ∙ ap (λ a. some a) (check_host-addr entry host addr e h))
  ]

  abbrev listed_or : List Text → ParsedHosts → List Text
  listed_or seen (hosts_error e) = seen
  listed_or seen (hosts result) = result

  -- One entry that is accepted.
  parse_entry :
      (entry : Text) (entries seen result : List Text)
      → parse_entries parse_addr (entry ∷ entries) seen ≡ hosts result
      → (host : Text) × IsHost host
        × (contains text_discrete seen host ≡ false)
        × (parse_entries parse_addr entries (seen ++ host ∷ []) ≡ hosts result)
  unfolding parse_entries
  parse_entry entry entries seen result h =
      let text = to_lower (trim_space entry) in
      elim (Bool-cases (is_empty text)) [
        | inl e ↦ cc (rw (parse_entries, e) at h)
        | inr e ↦ elim (Option-cases (check_host parse_addr text)) [
          | inl n ↦ cc (rw (parse_entries, e, n) at h)
          | inr (host, n) ↦ elim (Bool-cases (contains text_discrete seen host)) [
            | inl c ↦ cc (rw (parse_entries, e, n, c) at h)
            | inr c ↦ (host, check_host-IsHost text host n, c, rw (parse_entries, e, n, c) at h)
          ]
        ]
      ]

  parse_entries-parts :
      (entries seen result : List Text)
      → Distinct text_discrete seen
      → All IsHost seen
      → parse_entries parse_addr entries seen ≡ hosts result
      → Distinct text_discrete result
        × All IsHost result
        × (length result ≡ length seen + length entries)
  unfolding parse_entries
  parse_entries-parts [] seen result d v h =
      subst (λ r. Distinct text_discrete r × All IsHost r × (length r ≡ length seen + 0))
        (ap (listed_or seen) h) (d, v, omega arith)
  parse_entries-parts (entry ∷ entries) seen result d v h =
      let (host, proper, new, rest) = parse_entry entry entries seen result h in
      let (a, b, c) =
        parse_entries-parts entries (seen ++ host ∷ []) result
          (Distinct-snoc text_discrete seen host d new)
          (All-append IsHost seen (host ∷ []) v (proper, tt)) rest in
      (a, b, omega (arith, c, length-append seen (host ∷ [])))

  -- The hosts that `ParseHosts` accepts are one for each entry of the list, no two of them the same,
  -- and each is the canonical text of an address or a name without "/" and ":".
  pub parse_hosts-IsHost :
      (value : Text) (result : List Text)
      → parse_hosts parse_addr value ≡ hosts result
      → Distinct text_discrete result
        × All IsHost result
        × (length result ≡ length (split_at b',' value))
  unfolding parse_hosts
  parse_hosts-IsHost value result h =
      let (a, b, c) = parse_entries-parts (split_at b',' value) [] result tt tt h in
      (a, b, omega (arith, c))
