-- ===== src/Netcheck/Agg/Tests.antt =====
-- TestAggFlush and TestAggUnregisterKeepsLastMinute (internal/netcheck/agg_test.go) in the model,
-- and the theorems about the buckets at a concrete state.
use pyck_debug_worker.Prelude.{
  ℕ, ◌+◌, List, [], ◌∷◌, map, Option, some, none, Bool, true, false, ℕ_discrete, ◌≡◌, refl,
  contains, keep_if,
}
use pyck_debug_worker.Prelude.Text.{Text, codes, text_discrete}
use pyck_debug_worker.Prelude.Assoc.{lookup, insert, delete}
use pyck_debug_worker.Netcheck.Types.{
  Mode, short, long, idle, mode_discrete, reset, class_discrete, v4, addr_discrete, Target,
  target_discrete, default_port,
}
use pyck_debug_worker.Netcheck.Agg.{
  Agg, key_discrete, new_agg, register, unregister, fail, short_done, ping, lost_ping,
  server_closed, register_modes, add_buckets, target_modes, with_bucket, remember_fp,
}
use pyck_debug_worker.Netcheck.Agg.Buckets.{
  Interception, empty_bucket, bump, count_fail, count_short, count_ping, count_lost, count_closed,
}
use pyck_debug_worker.Netcheck.Agg.Flush.{
  Aggregate, aggregate, with_idle, modes_of, flush_modes, flush, forget, is_ok, delete_buckets,
}
use pyck_debug_worker.Prelude.Distinct.{Distinct}
use pyck_debug_worker.Netcheck.Agg.Invariant.{
  IsValid, new_agg-IsValid, register_modes-IsValid, other-IsValid,
}
use pyck_debug_worker.Netcheck.Agg.Emission.{record_of, emitted}
use pyck_debug_worker.Netcheck.Agg.Flushed.{Forgotten, next, flush-emitted}
use pyck_debug_worker.Netcheck.Agg.Own.{is_about}
use pyck_debug_worker.Netcheck.Agg.Next.{flush-Forgotten}
use pyck_debug_worker.Netcheck.Agg.Samples.{pending, emitted_samples}
use pyck_debug_worker.Netcheck.Agg.Runs.{
  Call, registers, fails, shorts, pings, loses, closes, flushes, call, run, credits,
}
use pyck_debug_worker.Netcheck.Agg.Accounts.{run_accounts}
use pyck_debug_worker.Netcheck.Agg.Fingerprints.{
  intercepted_all, presented, news, intercepted_all-news,
}

program : Unit {0}
unfolding text_discrete addr_discrete target_discrete mode_discrete key_discrete class_discrete
    lookup insert delete new_agg register register_modes add_buckets with_bucket remember_fp
    empty_bucket bump aggregate with_idle flush flush_modes forget is_ok delete_buckets call run
    credits fail short_done ping lost_ping server_closed count_fail count_short count_ping
    count_lost count_closed unregister ℕ_discrete
program = tt

abbrev dev : Target
dev = record {
  host = codes "dev.pyck.cloud";
  ip = v4 192 0 2 10;
  port = default_port;
  roots = none;
}

abbrev minute_calls : List Call
minute_calls =
    registers dev target_modes
    ∷ shorts dev 10000000 20000000 0
    ∷ shorts dev 1100000000 30000000 1
    ∷ fails dev short reset
    ∷ pings dev long 5000000
    ∷ pings dev long 7000000
    ∷ loses dev long
    ∷ closes dev long
    ∷ flushes 60
    ∷ []

abbrev figures : Option (List Aggregate × Agg) → Option (List (Mode × ℕ × ℕ × Bool))
figures none = none
figures (some (recs, a)) = some (map (λ r. (r.mode, r.samples, r.losses, is_ok r)) recs)

flushed_minute :
    figures (run minute_calls new_agg)
    ≡ some ((short, 3, 1, false) ∷ (long, 3, 1, false) ∷ (idle, 0, 0, true) ∷ [])
unfolding program
flushed_minute = refl

abbrev live : Agg
live = register_modes dev target_modes new_agg

abbrev leaving : Agg
leaving = unregister dev live

modes-Distinct : Distinct mode_discrete target_modes
unfolding mode_discrete
modes-Distinct = (refl, (refl, (refl, tt)))

live-IsValid : IsValid live
live-IsValid = register_modes-IsValid dev target_modes new_agg modes-Distinct new_agg-IsValid

leaving-IsValid : IsValid leaving
unfolding unregister
leaving-IsValid = other-IsValid live _ live.last_fp live.survived live-IsValid

flush-emitted_example : flush 60 live ≡ some (emitted 60 live live.targets, next live)
flush-emitted_example = flush-emitted 60 live live-IsValid

flush-Forgotten_example :
    (keep_if (is_about dev) (emitted 60 leaving leaving.targets)
      ≡ map (record_of 60 leaving dev) (modes_of dev leaving))
    × Forgotten dev leaving (next leaving)
    × (contains target_discrete (next leaving).targets dev ≡ false)
unfolding program
flush-Forgotten_example =
    flush-Forgotten 60 leaving dev leaving-IsValid refl refl
      (flush-emitted 60 leaving leaving-IsValid)

run_accounts_example :
    (recs : List Aggregate) × (a : Agg) × (run minute_calls new_agg ≡ some (recs, a))
    × IsValid a
    × (emitted_samples dev short recs + pending dev short a
        ≡ pending dev short new_agg + credits dev short minute_calls new_agg)
run_accounts_example =
    run_accounts dev short minute_calls new_agg
      (modes-Distinct, (tt, (tt, (tt, (tt, (tt, (tt, (tt, (tt, tt))))))))) new_agg-IsValid

credits_minute : credits dev short minute_calls new_agg ≡ 3
unfolding program
credits_minute = refl

abbrev seen_cert : Text → Interception
seen_cert fp = record {
  fingerprint = fp;
  issuer = codes "proxy";
  error = codes "unknown authority";
}

abbrev seen_certs : List (Target × Mode × Interception)
seen_certs =
    (dev, short, seen_cert (codes "aa"))
    ∷ (dev, long, seen_cert (codes "aa"))
    ∷ (dev, short, seen_cert (codes "bb"))
    ∷ []

intercepted_all-news_example :
    (intercepted_all seen_certs live).1 ≡ news (presented seen_certs) (λ t. none)
unfolding register_modes new_agg lookup
intercepted_all-news_example = intercepted_all-news seen_certs live (λ t. none) (λ t. refl)

news_certs : news (presented seen_certs) (λ t. none) ≡ true ∷ false ∷ true ∷ []
unfolding program news
news_certs = refl
