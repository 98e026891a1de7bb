-- ===== src/Tests/Pool.antt =====
-- The session limiter and the pool of endpoints on samples (internal/relay/upstream_pool.go).
use tg_proxy_relay.Prelude.{
  ℕ, suc, ap, ◌+◌, ◌*◌, ◌^◌, ◌≡◌, ◌↔◌, refl, true, false, List, [], ◌∷◌, nat_eq, bytes_eq, Bytes,
  arith, length, min, count_if, Elem, inl, inr,
}
use tg_proxy_relay.Prelude.Maps.{lookup, insert}
use tg_proxy_relay.Prelude.Text.{codes}
use tg_proxy_relay.Sessions.{
  Sessions, Call, reserves, dials_done, releases, new_session_limiter, reserve, admit, release,
  upstream_dial_done, run, by_token_of,
}
use tg_proxy_relay.Sessions.Counts.{IsCounted, run-new_session_limiter-IsCounted}
use tg_proxy_relay.Upstreams.{
  UpstreamPool, EndpointState, new_upstream_pool, second, failed, ordered, eligible, rotated,
  sort_stable, insert_stable, comes_before,
}
use tg_proxy_relay.Upstreams.Order.{is_ready, ordered-is_ready, ordered_exclusive}
use tg_proxy_relay.Upstreams.Backoff.{fail_all, retry_of, retry_of-fail_all, failed-ordered}
use tg_proxy_relay.Upstreams.Dial.{
  Arrival, connected, connected_late, result, results, Network, dial_telegram_route, answered,
}
use tg_proxy_relay.Upstreams.Dial.Accounts.{IsComplete, dial_telegram_route-accounts}

-- Two sessions of one token, of which the first ends before its dial does.
abbrev calls : List Call
calls =
    reserves (codes "tok_1")
    ∷ reserves (codes "tok_1")
    ∷ releases 0
    ∷ dials_done 0
    ∷ dials_done 1
    ∷ []

run-new_session_limiter-IsCounted_example : IsCounted (run new_session_limiter calls)
run-new_session_limiter-IsCounted_example = run-new_session_limiter-IsCounted calls

one_left : (run new_session_limiter calls).limiter.active ≡ 1
unfolding run tg_proxy_relay.Sessions.step reserve admit release upstream_dial_done by_token_of
    lookup insert tg_proxy_relay.Sessions.finish_dial tg_proxy_relay.Sessions.drop_token
one_left = refl

abbrev dc : Bytes
dc = codes "149.154.167.50:443"

abbrev other : Bytes
other = codes "149.154.167.51:443"

abbrev failure_times : List ℕ
failure_times = 10 ∷ 20 ∷ []

-- `dc` has failed once, and may be tried again from the time 7.
abbrev sample_state : EndpointState
sample_state = record { failures = 1; retry_at = 7; probe_lease_until = 0 }

abbrev sample_pool : UpstreamPool
sample_pool = record { health = (dc, sample_state) ∷ []; cursor = 1 }

ordered-is_ready_example :
    Elem dc (ordered (dc ∷ other ∷ []) 9 sample_pool).0
    ↔ Elem dc (dc ∷ other ∷ []) × (is_ready 9 sample_pool.health dc ≡ true)
ordered-is_ready_example = ordered-is_ready dc (dc ∷ other ∷ []) 9 sample_pool

ordered_exclusive_example :
    ¬ Elem dc (ordered (dc ∷ []) 10 (ordered (dc ∷ other ∷ []) 9 sample_pool).1).0
unfolding lookup ordered eligible rotated insert sort_stable insert_stable comes_before
ordered_exclusive_example =
    ordered_exclusive dc (dc ∷ other ∷ []) (dc ∷ []) 9 10 sample_pool sample_state refl
      (inr (inl refl)) (omega arith)

retry_of-fail_all_example :
    retry_of (failed dc 50 (fail_all dc failure_times new_upstream_pool)) dc
    ≡ 50 + second * 2 ^ min (length failure_times) 5
unfolding lookup
retry_of-fail_all_example = retry_of-fail_all dc failure_times 50 new_upstream_pool refl

failed-ordered_example :
    ¬ Elem dc (ordered (dc ∷ []) 60 (failed dc 50 (fail_all dc failure_times new_upstream_pool))).0
unfolding lookup
failed-ordered_example =
    failed-ordered dc failure_times 50 60 (dc ∷ []) new_upstream_pool refl (omega arith)

-- Both dials succeed; the second connection comes too late.
-- Of each wave the first dial wins; the others connect too, at the same time or too late.
abbrev lost : List Bytes → List Arrival
lost [] = []
lost (a ∷ []) = result a 4 (connected_late true) ∷ []
lost (a ∷ b ∷ rest) = result a 4 connected ∷ lost (b ∷ rest)

abbrev race : List Bytes → List Arrival
race [] = []
race (a ∷ rest) = result a 3 connected ∷ lost rest

results-lost : (wave : List Bytes) → results (lost wave) ≡ length wave
results-lost [] = refl
results-lost (a ∷ []) = refl
results-lost (a ∷ b ∷ rest) = ap suc (results-lost (b ∷ rest))

abbrev sample_network : Network
sample_network = record { arrivals = race; ended_after = λ wave. false }

sample_network-IsComplete : IsComplete sample_network
sample_network-IsComplete [] = refl
sample_network-IsComplete (a ∷ rest) = ap suc (results-lost rest)

dial_telegram_route-accounts_example :
    count_if
      (λ a. true)
      (dial_telegram_route sample_network (dc ∷ other ∷ []) 2 new_upstream_pool).opened
    ≡ count_if
        (λ a. true)
        (answered (dial_telegram_route sample_network (dc ∷ other ∷ []) 2 new_upstream_pool).answer)
      + count_if
          (λ a. true)
          (dial_telegram_route sample_network (dc ∷ other ∷ []) 2 new_upstream_pool).closed
dial_telegram_route-accounts_example =
    dial_telegram_route-accounts (λ a. true) sample_network (dc ∷ other ∷ []) 2 new_upstream_pool
      sample_network-IsComplete
