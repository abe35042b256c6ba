-- ===== src/Netcheck/Hosts/Running.antt =====
-- `apply`: what runs is what was resolved (internal/netcheck/resolve.go).
use pyck_debug_worker.Prelude.{
  ℕ, List, [], ◌∷◌, Option, Bool, true, false, ◌||◌, ◌&&◌, not, ite, keep_if, contains,
  contains-append, All, ◌≡◌, refl, sym, ap, arith,
}
use pyck_debug_worker.Prelude.Text.{Text}
use pyck_debug_worker.Netcheck.Types.{Addr, addr_discrete}
use pyck_debug_worker.Netcheck.Hosts.{Measuring, start_ip, start_ips, stop_ip, stop_ips, apply}

contains-keep_if :
    (ip a : Addr) (l : List Addr)
    → contains addr_discrete (keep_if (λ b. not (ite (addr_discrete b ip) true false)) l) a
      ≡ (contains addr_discrete l a && not (ite (addr_discrete a ip) true false))
contains-keep_if ip a [] = refl
contains-keep_if ip a (x ∷ l) = elim (addr_discrete x a) [
  | yes p ↦
      ground (arith, contains-keep_if ip a l, p, ap (λ v. ite (addr_discrete v ip) true false) p)
  | no p ↦ ground (arith, contains-keep_if ip a l)
]

same_test : (a b : Addr) → ite (addr_discrete a b) true false ≡ ite (addr_discrete b a) true false
same_test a b = elim (addr_discrete a b) [
  | yes p ↦ elim (addr_discrete b a) [ yes q ↦ ground arith | no q ↦ absurd (q (sym p)) ]
  | no p ↦ elim (addr_discrete b a) [ yes q ↦ absurd (p (sym q)) | no q ↦ ground arith ]
]

module _ (host : Text) (roots : Option ℕ) where
  abbrev runs : Measuring → Addr → Bool
  runs st a = contains addr_discrete st.running a

  start_ip-runs :
      (ip a : Addr) (st : Measuring)
      → runs (start_ip host roots ip st) a ≡ (runs st a || contains addr_discrete (ip ∷ []) a)
  unfolding start_ip
  start_ip-runs ip a st = elim (addr_discrete ip a) [
    | yes p ↦ ground (
      arith,
      contains-append addr_discrete st.running (ip ∷ []) a,
      ap (contains addr_discrete st.running) p,
    )
    | no p ↦ ground (arith, contains-append addr_discrete st.running (ip ∷ []) a)
  ]

  start_ips-runs :
      (ips : List Addr) (a : Addr) (st : Measuring)
      → runs (start_ips host roots ips st) a ≡ (runs st a || contains addr_discrete ips a)
  unfolding start_ips
  start_ips-runs [] a st = ground arith
  start_ips-runs (ip ∷ ips) a st =
      ground (arith, start_ips-runs ips a (start_ip host roots ip st), start_ip-runs ip a st)

  stop_ip-runs :
      (wanted : List Addr) (ip a : Addr) (st : Measuring)
      → runs (stop_ip host roots wanted ip st) a ≡ (
          runs st a
          && (contains addr_discrete wanted a || not (contains addr_discrete (ip ∷ []) a)))
  unfolding stop_ip
  stop_ip-runs wanted ip a st = elim (addr_discrete ip a) [
    | yes p ↦ ground (
      arith,
      contains-keep_if ip a st.running,
      same_test a ip,
      ap (contains addr_discrete wanted) p,
    )
    | no p ↦ ground (arith, contains-keep_if ip a st.running, same_test a ip)
  ]

  stop_ips-runs :
      (wanted ips : List Addr) (a : Addr) (st : Measuring)
      → runs (stop_ips host roots wanted ips st) a
        ≡ (runs st a && (contains addr_discrete wanted a || not (contains addr_discrete ips a)))
  unfolding stop_ips
  stop_ips-runs wanted [] a st = ground arith
  stop_ips-runs wanted (ip ∷ ips) a st = ground (
    arith,
    stop_ips-runs wanted ips a (stop_ip host roots wanted ip st),
    stop_ip-runs wanted ip a st,
  )

  -- After every resolution exactly the resolved addresses of the host are measured, whatever was
  -- measured before.
  pub apply-running :
      (ips : List Addr) (st : Measuring) (a : Addr)
      → contains addr_discrete (apply host roots ips st).running a ≡ contains addr_discrete ips a
  unfolding apply
  apply-running ips st a =
      let started = start_ips host roots ips st in
      ground (arith, stop_ips-runs ips started.running a started, start_ips-runs ips a st)

  start_ips_same :
      (ips : List Addr) (st : Measuring)
      → All (λ ip. runs st ip ≡ true) ips
      → start_ips host roots ips st ≡ st
  unfolding start_ips start_ip
  start_ips_same [] st h = refl
  start_ips_same (ip ∷ ips) st h = rw (h.0) (start_ips_same ips st h.1)

  stop_ips_same :
      (wanted ips : List Addr) (st : Measuring)
      → All (λ ip. contains addr_discrete wanted ip ≡ true) ips
      → stop_ips host roots wanted ips st ≡ st
  unfolding stop_ips stop_ip
  stop_ips_same wanted [] st h = refl
  stop_ips_same wanted (ip ∷ ips) st h = rw (h.0) (stop_ips_same wanted ips st h.1)

  -- A resolution that gives what is already measured changes nothing: no loop is started or stopped,
  -- no bucket is touched and no event is written.
  pub apply_unchanged :
      (ips : List Addr) (st : Measuring)
      → All (λ ip. contains addr_discrete st.running ip ≡ true) ips
      → All (λ ip. contains addr_discrete ips ip ≡ true) st.running
      → apply host roots ips st ≡ st
  unfolding apply
  apply_unchanged ips st old new =
      rw (start_ips_same ips st old) (stop_ips_same ips st.running st new)
