-- ===== src/Netcheck/Agg/Accounts.antt =====
-- Whatever the loops do to the shared `agg` (internal/netcheck/agg.go), in whatever order: nothing
-- panics, and the samples add up.
use pyck_debug_worker.Prelude.{
  ℕ, ◌+◌, ◌≤◌, List, [], ◌∷◌, ◌++◌, none, some, Bool, true, false, ◌≡◌, refl, ap, ◌∙◌, arith, ite,
  All, if◌then◌else◌, Option-cases, inl, inr, sum_of-append,
}
use pyck_debug_worker.Prelude.Text.{Text, text_discrete}
use pyck_debug_worker.Prelude.Assoc.{Assoc, lookup, insert, lookup-insert}
use pyck_debug_worker.Netcheck.Types.{Mode, short, long, idle, compare, Target, target_discrete}
use pyck_debug_worker.Netcheck.Agg.{
  Agg, Key, key_discrete, add_buckets, register_modes, unregister, with_bucket, fail, sni, reset,
  short_done, connect_done, ping, lost_ping, drop, server_closed, idle_died, tcp_info,
  idle_survived, note_interception, remember_fp,
}
use pyck_debug_worker.Netcheck.Agg.Buckets.{
  Bucket, empty_bucket, is_attempt, count_fail, count_intercepted, count_sni, count_reset,
  count_short, count_connect, count_ping, count_lost, count_drop, count_closed, set_died, count_tcp,
}
use pyck_debug_worker.Netcheck.Agg.Flush.{Aggregate}
use pyck_debug_worker.Netcheck.Agg.Invariant.{
  IsValid, has, register_modes-IsValid, with_bucket-IsValid, other-IsValid,
}
use pyck_debug_worker.Netcheck.Agg.Emission.{emitted}
use pyck_debug_worker.Netcheck.Agg.Flushed.{next, flush-emitted}
use pyck_debug_worker.Netcheck.Agg.Next.{next-IsValid}
use pyck_debug_worker.Netcheck.Agg.Samples.{
  pending, samples_in, emitted_samples, share, next-samples,
}
use pyck_debug_worker.Netcheck.Agg.Runs.{
  Call, registers, unregisters, fails, snis, resets, shorts, connects, pings, loses, drops, closes,
  dies, tcps, survives, intercepts, remembers, flushes, call, run, IsProper, gain, credit, credits,
}

-- An update that adds `n` to the samples of its bucket.
module _ (t : Target) (mode : Mode) (s : Target) (m : Mode) (fn : Bucket → Bucket) (n : ℕ) (a : Agg)
    (adds : (b : Bucket) → (fn b).samples ≡ b.samples + n) where
  abbrev added : ℕ
  added = if has (t, mode) a.buckets then ite (key_discrete (s, m) (t, mode)) n 0 else 0

  update_missing :
      lookup key_discrete (s, m) a.buckets ≡ none → pending t mode a ≡ pending t mode a + added
  update_missing e = elim (key_discrete (s, m) (t, mode)) [
    | yes p ↦ rw (← p) (ground (arith, e))
    | no p ↦ ground arith
  ]

  update_found :
      (b : Bucket)
      → lookup key_discrete (s, m) a.buckets ≡ some b
      → samples_in (lookup key_discrete (t, mode) (insert key_discrete (s, m) (fn b) a.buckets))
        ≡ pending t mode a + added
  update_found b e = elim (key_discrete (s, m) (t, mode)) [
    | yes p ↦
        rw (lookup-insert key_discrete (t, mode) (s, m) (fn b) a.buckets)
          (ground (arith, adds b, ap (λ k. lookup key_discrete k a.buckets) p))
    | no p ↦ rw (lookup-insert key_discrete (t, mode) (s, m) (fn b) a.buckets) (ground arith)
  ]

  with_bucket-pending : pending t mode (with_bucket s m fn a) ≡ pending t mode a + added
  unfolding with_bucket
  with_bucket-pending = elim (Option-cases (lookup key_discrete (s, m) a.buckets)) [
    | inl e ↦ rw (e, with_bucket) (update_missing e)
    | inr (b, e) ↦ rw (e, with_bucket) (update_found b e)
  ]

-- A call does not panic, keeps the state valid, and accounts for each of its samples.
abbrev Accounts : Target → Mode → Call → Agg → Type 0
Accounts t mode c a =
    (recs : List Aggregate) × (a' : Agg) × (call c a ≡ some (recs, a'))
    × IsValid a'
    × (emitted_samples t mode recs + pending t mode a' ≡ pending t mode a + credit t mode a c)

none_added : (b : Bool) → (if b then 0 else 0) ≤ 0
none_added true = omega arith
none_added false = omega arith

-- Two methods that touch no bucket.
idle_survived-shape :
    (s : Target) (gap : ℕ) (a : Agg)
    → (g : Assoc Target ℕ) × (idle_survived s gap a ≡ record a { survived = g })
unfolding idle_survived
idle_survived-shape s gap a = elim (Option-cases (lookup key_discrete (s, idle) a.buckets)) [
  | inl e ↦ (a.survived, rw (e, idle_survived))
  | inr (b, e) ↦ (insert target_discrete s gap a.survived, rw (e, idle_survived))
]

remember_fp-shape :
    (s : Target) (fp : Text) (a : Agg)
    → (f : Assoc Target Text) × ((remember_fp s fp a).0 ≡ record a { last_fp = f })
unfolding remember_fp
remember_fp-shape s fp a = elim (Option-cases (lookup target_discrete s a.last_fp)) [
  | inl e ↦ (insert target_discrete s fp a.last_fp, rw (e, remember_fp))
  | inr (last, e) ↦ (
    ite (text_discrete last fp) a.last_fp (insert target_discrete s fp a.last_fp),
    rw (e, remember_fp) (ground arith),
  )
]

module _ (t : Target) (mode : Mode) (a : Agg) (v : IsValid a) where
  update-Accounts :
      (c : Call) (s : Target) (m : Mode) (fn : Bucket → Bucket) (n : ℕ)
      → call c a ≡ some ([], with_bucket s m fn a)
      → ((b : Bucket) → (fn b).samples ≡ b.samples + n)
      → gain t mode c ≡ ite (key_discrete (s, m) (t, mode)) n 0
      → Accounts t mode c a
  update-Accounts c s m fn n e adds g = (
    [],
    with_bucket s m fn a,
    e,
    with_bucket-IsValid s m fn a v,
    omega (
      arith,
      with_bucket-pending t mode s m fn n a adds,
      ap (λ k. if has (t, mode) a.buckets then k else 0) g,
    ),
  )

  add_buckets-pending :
      (s : Target) (modes : List Mode) (m : Assoc Key Bucket)
      → samples_in (lookup key_discrete (t, mode) (add_buckets s modes m))
        ≡ samples_in (lookup key_discrete (t, mode) m)
  unfolding add_buckets empty_bucket
  add_buckets-pending s [] m = refl
  add_buckets-pending s (x ∷ modes) m =
      add_buckets-pending s modes _
      ∙ ground (arith, lookup-insert key_discrete (t, mode) (s, x) empty_bucket m)

  silent-Accounts :
      (c : Call) (a' : Agg)
      → call c a ≡ some ([], a')
      → IsValid a'
      → pending t mode a' ≡ pending t mode a
      → gain t mode c ≡ 0
      → Accounts t mode c a
  silent-Accounts c a' e w same g = (
    [],
    a',
    e,
    w,
    omega (
      arith,
      same,
      ap (λ k. if has (t, mode) a.buckets then k else 0) g,
      none_added (has (t, mode) a.buckets),
    ),
  )

  call-Accounts : (c : Call) → IsProper c → Accounts t mode c a
  unfolding call fail sni reset short_done connect_done ping lost_ping drop server_closed idle_died
      tcp_info note_interception count_fail count_sni count_reset count_short count_connect
      count_ping count_lost count_drop count_closed set_died count_tcp count_intercepted
      register_modes unregister idle_survived remember_fp
  call-Accounts (registers s modes) h =
      silent-Accounts (registers s modes) (register_modes s modes a) refl
        (register_modes-IsValid s modes a h v) (add_buckets-pending s modes a.buckets) refl
  call-Accounts (unregisters s) h =
      silent-Accounts (unregisters s) (unregister s a) refl
        (other-IsValid a _ a.last_fp a.survived v) refl refl
  call-Accounts (fails s m c) h =
      update-Accounts (fails s m c) s m (count_fail m c) (if is_attempt m then 1 else 0) refl
        (λ b. ground arith) refl
  call-Accounts (snis s w c) h =
      update-Accounts (snis s w c) s short (count_sni w c) 0 refl (λ b. omega arith) (ground arith)
  call-Accounts (resets s m p) h =
      update-Accounts (resets s m p) s m (count_reset p) 0 refl (λ b. omega arith) (ground arith)
  call-Accounts (shorts s x y z) h =
      update-Accounts (shorts s x y z) s short (count_short x y z) 1 refl (λ b. refl) refl
  call-Accounts (connects s x y) h =
      update-Accounts (connects s x y) s compare (count_connect x y) 1 refl (λ b. refl) refl
  call-Accounts (pings s m r) h =
      update-Accounts (pings s m r) s m (count_ping r) 1 refl (λ b. refl) refl
  call-Accounts (loses s m) h = update-Accounts (loses s m) s m count_lost 1 refl (λ b. refl) refl
  call-Accounts (drops s m) h =
      update-Accounts (drops s m) s m count_drop 0 refl (λ b. omega arith) (ground arith)
  call-Accounts (closes s m) h =
      update-Accounts (closes s m) s m count_closed 0 refl (λ b. omega arith) (ground arith)
  call-Accounts (dies s d) h =
      update-Accounts (dies s d) s idle (set_died d) 0 refl (λ b. omega arith) (ground arith)
  call-Accounts (tcps s x y z) h =
      update-Accounts (tcps s x y z) s long (count_tcp x y z) 0 refl (λ b. omega arith)
        (ground arith)
  call-Accounts (survives s gap) h =
      let (g, e) = idle_survived-shape s gap a in
      silent-Accounts (survives s gap) (record a { survived = g }) (ap (λ b. some ([], b)) e)
        (other-IsValid a a.removed a.last_fp g v) refl refl
  call-Accounts (intercepts s m i) h =
      update-Accounts (intercepts s m i) s m (count_intercepted i) 0 refl (λ b. omega arith)
        (ground arith)
  call-Accounts (remembers s fp) h =
      let (f, e) = remember_fp-shape s fp a in
      silent-Accounts (remembers s fp) (record a { last_fp = f }) (ap (λ b. some ([], b)) e)
        (other-IsValid a a.removed f a.survived v) refl refl
  call-Accounts (flushes minute) h = (
    emitted minute a a.targets,
    next a,
    flush-emitted minute a v,
    next-IsValid a v,
    omega (arith, next-samples minute t mode a v, none_added (has (t, mode) a.buckets)),
  )

-- Over any interleaving of calls from a valid state, nothing panics, the state stays valid, and no
-- sample of any target and mode is lost or counted twice: the samples of the records that the
-- flushes emitted, and those still pending, are those pending at first and those credited since.
pub run_accounts :
    (t : Target) (mode : Mode) (cs : List Call) (a : Agg)
    → All IsProper cs
    → IsValid a
    → (recs : List Aggregate) × (a' : Agg) × (run cs a ≡ some (recs, a'))
      × IsValid a'
      × (emitted_samples t mode recs + pending t mode a' ≡ pending t mode a + credits t mode cs a)
unfolding run credits
run_accounts t mode [] a h v = ([], a, refl, v, omega arith)
run_accounts t mode (c ∷ cs) a h v =
    let (recs, a', e, w, n) = call-Accounts t mode a v c h.0 in
    let (more, b, f, x, m) = run_accounts t mode cs a' h.1 w in
    (
      recs ++ more,
      b,
      rw (e, f),
      x,
      rw e (omega (arith, n, m, sum_of-append (share t mode) recs more)),
    )
