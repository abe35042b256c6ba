-- ===== src/Netcheck/Dns/Tests.antt =====
-- A check in which two resolvers disagree and one is silent (internal/netcheck/dnscheck.go).
use pyck_debug_worker.Prelude.{
  ℕ_discrete, List, [], ◌∷◌, Option, none, some, true, false, ◌≡◌, refl,
}
use pyck_debug_worker.Prelude.Text.{Text, text_discrete, codes}
use pyck_debug_worker.Netcheck.Types.{Class, timeout}
use pyck_debug_worker.Netcheck.Dns.{DnsAnswer, check, texts_discrete}
use pyck_debug_worker.Netcheck.Dns.Agreement.{answered, silent}
use pyck_debug_worker.Netcheck.Dns.Sets.{sets_disagree, check_sets}

abbrev answer : Text → List Text → Option (Text × Class) → DnsAnswer
answer name ips error = record {
  resolver = name;
  latency = 10;
  ips = ips;
  nxdomain = false;
  error = error;
}

abbrev system : DnsAnswer
system = answer (codes "system") (codes "192.0.2.1" ∷ codes "192.0.2.2" ∷ []) none

abbrev others : List DnsAnswer
others =
    answer (codes "google") [] (some (codes "deadline", timeout))
    ∷ answer (codes "alidns") (codes "192.0.2.2" ∷ []) none
    ∷ []

check_sets_example :
    (let r = check 60 (codes "dev") system others in
      (r.mismatch ≡ sets_disagree (answered (system ∷ others)))
      × (r.unreachable ≡ silent (system ∷ others)))
check_sets_example =
    check_sets 60 (codes "dev") system others (((refl, tt), (tt, tt)), ((tt, tt), tt))

-- An address that one resolver gives twice is a mismatch, although the sets are the same.
repeated_address :
    (let once = answer (codes "google") (codes "192.0.2.2" ∷ []) none in
      let twice = answer (codes "alidns") (codes "192.0.2.2" ∷ codes "192.0.2.2" ∷ []) none in
      ((check 60 (codes "dev") once (twice ∷ [])).mismatch ≡ true)
      × (sets_disagree (answered (once ∷ twice ∷ [])) ≡ false))
unfolding check texts_discrete text_discrete ℕ_discrete
repeated_address = (refl, refl)
