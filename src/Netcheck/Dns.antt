-- ===== src/Netcheck/Dns.antt =====
-- The DNS check (internal/netcheck/dnscheck.go): the comparison of `check`, its record and its events.
-- The answers of the resolvers are given; an error is its text and its class, and `none` is "".
pub mod Agreement
pub mod Sets
pub mod Tests
use pyck_debug_worker.Prelude.{
  ℕ, List, [], ◌∷◌, ◌++◌, Option, none, some, Bool, true, false, ◌&&◌, not, ite, if◌then◌else◌,
}
use pyck_debug_worker.Prelude.Text.{Text, text_discrete, codes}
use pyck_debug_worker.Prelude.Assoc.{Assoc, insert}
use pyck_debug_worker.Netcheck.Types.{Class}

-- `dnsAnswer`; the latency is in microseconds.
pub record DnsAnswer : Type 0 where
  pub resolver : Text
  pub latency : ℕ
  pub ips : List Text
  pub nxdomain : Bool
  pub error : Option (Text × Class)

-- `dnsRecord`.
pub record DnsRecord : Type 0 where
  pub ts : ℕ
  pub host : Text
  pub answers : List DnsAnswer
  pub mismatch : Bool
  pub unreachable : List Text

unfoldable pub texts_discrete : Discrete (List Text)
unfolding text_discrete
texts_discrete = hlevel text_discrete

-- `slices.Equal`.
abbrev pub same_ips : List Text → List Text → Bool
same_ips a b = ite (texts_discrete a b) true false

-- `first` with `answered`, and the two fields of the record that the loop sets.
pub record Compared : Type 0 where
  pub first : Option (List Text)
  pub mismatch : Bool
  pub unreachable : List Text

-- The loop's body.
unfoldable pub compare_answer : DnsAnswer → Compared → Compared
compare_answer a c = elim a.error [
  | some e ↦ record c { unreachable = c.unreachable ++ a.resolver ∷ [] }
  | none ↦ elim c.first [
    | none ↦ record c { first = some a.ips }
    | some first ↦ if same_ips first a.ips then c else record c { mismatch = true }
  ]
]

unfoldable pub compare_answers : List DnsAnswer → Compared → Compared
unfolding compare_answer
compare_answers [] c = c
compare_answers (a ∷ answers) c = compare_answers answers (compare_answer a c)

-- `check`, for the system's answer and those of the DoH resolvers in their order.
unfoldable pub check : ℕ → Text → DnsAnswer → List DnsAnswer → DnsRecord
unfolding compare_answers
check ts host system answers =
    let c =
      compare_answers (system ∷ answers)
        (record { first = none; mismatch = false; unreachable = [] }) in
    record {
      ts = ts;
      host = host;
      answers = system ∷ answers;
      mismatch = c.mismatch;
      unreachable = c.unreachable;
    }

abbrev pub none_listed : List Text → Bool
none_listed [] = true
none_listed (r ∷ rs) = false

-- `dnsRecord.ok`.
abbrev pub is_ok : DnsRecord → Bool
is_ok r = not r.mismatch && none_listed r.unreachable

-- The events dns-mismatch and resolver-unreachable.
pub data DnsEvent : Type 0 where
  dns_mismatch : Text → Assoc Text (List Text) → DnsEvent
  resolver_unreachable : Text → Text → Text × Class → DnsEvent

-- `ev.Answers`.
unfoldable pub answered_ips : List DnsAnswer → Assoc Text (List Text) → Assoc Text (List Text)
unfolding text_discrete insert
answered_ips [] m = m
answered_ips (a ∷ answers) m = elim a.error [
  | some e ↦ answered_ips answers m
  | none ↦ answered_ips answers (insert text_discrete a.resolver a.ips m)
]

unfoldable pub unreachable_events : Text → List DnsAnswer → List DnsEvent
unreachable_events host [] = []
unreachable_events host (a ∷ answers) = elim a.error [
  | none ↦ unreachable_events host answers
  | some e ↦ resolver_unreachable host a.resolver e ∷ unreachable_events host answers
]

-- `dnsEvents`.
unfoldable pub dns_events : DnsRecord → List DnsEvent
unfolding answered_ips unreachable_events
dns_events r =
    if r.mismatch
    then dns_mismatch r.host (answered_ips r.answers []) ∷ unreachable_events r.host r.answers
    else unreachable_events r.host r.answers
