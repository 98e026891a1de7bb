-- ===== src/Upstreams/Backoff.antt =====
-- How long an endpoint waits after its failures.
use tg_proxy_relay.Prelude.{
  ℕ, ◌+◌, ◌-◌, ◌*◌, ◌^◌, ◌≡◌, ◌≤◌, ◌<◌, List, [], ◌∷◌, ltb, ◌==◌, bytes_eq, bytes_beq_iff,
  if◌then◌else◌, Bytes, length, none, some, arith, min, Elem, ap, ◌∙◌, Bool-cases, inl, inr, ltb→lt,
}
use tg_proxy_relay.Prelude.Maps.{lookup, lookup-insert, lookup-delete}
use tg_proxy_relay.Upstreams.{
  EndpointState, UpstreamPool, second, or_no_state, backed_off, succeeded, failed, ordered,
}
use tg_proxy_relay.Upstreams.Order.{is_ready, ordered-is_ready}

-- `failures` as a caller reads it: 0 for an endpoint without a state.
abbrev pub failures_of : UpstreamPool → Bytes → ℕ
failures_of p a = (or_no_state (lookup a p.health)).failures

abbrev pub retry_of : UpstreamPool → Bytes → ℕ
retry_of p a = (or_no_state (lookup a p.health)).retry_at

-- A run of failures of one endpoint.
abbrev pub fail_all : Bytes → List ℕ → UpstreamPool → UpstreamPool
fail_all a [] p = p
fail_all a (now ∷ nows) p = fail_all a nows (failed a now p)

lookup-failed :
    (a j : Bytes) (now : ℕ) (p : UpstreamPool)
    → lookup j (failed a now p).health ≡ (
        if a == j
        then some (backed_off now (or_no_state (lookup a p.health)))
        else lookup j p.health)
unfolding failed
lookup-failed a j now p =
    lookup-insert a j (backed_off now (or_no_state (lookup a p.health))) p.health

lookup-failed_self :
    (a : Bytes) (now : ℕ) (p : UpstreamPool)
    → lookup a (failed a now p).health ≡ some (backed_off now (or_no_state (lookup a p.health)))
lookup-failed_self a now p = ground (arith, lookup-failed a a now p, bytes_beq_iff a a)

failures_of-failed :
    (a : Bytes) (now : ℕ) (p : UpstreamPool)
    → failures_of (failed a now p) a ≡ min (failures_of p a + 1) 6
unfolding backed_off
failures_of-failed a now p = ground (arith, lookup-failed_self a now p)

-- The failures are counted up to 6.
failures_of-fail_all :
    (a : Bytes) (nows : List ℕ) (p : UpstreamPool)
    → failures_of p a ≤ 6
    → failures_of (fail_all a nows p) a ≡ min (failures_of p a + length nows) 6
failures_of-fail_all a [] p h = omega arith
failures_of-fail_all a (now ∷ nows) p h = omega (
  arith,
  failures_of-failed a now p,
  failures_of-fail_all a nows (failed a now p) (omega (arith, failures_of-failed a now p)),
)

backed_off-retry_at :
    (now : ℕ) (s : EndpointState)
    → (backed_off now s).retry_at ≡ now + second * 2 ^ (min (s.failures + 1) 6 - 1)
unfolding backed_off
backed_off-retry_at now s = elim (Bool-cases (ltb 6 (s.failures + 1))) [
  | inl e ↦
      let m : min (s.failures + 1) 6 ≡ 6 = omega (arith, ltb→lt 6 (s.failures + 1) e) in rw (e, m)
  | inr e ↦ let m : min (s.failures + 1) 6 ≡ s.failures + 1 = ground arith in rw (e, m)
]

retry_of-failed :
    (a : Bytes) (now : ℕ) (p : UpstreamPool)
    → retry_of (failed a now p) a ≡ now + second * 2 ^ (min (failures_of p a + 1) 6 - 1)
retry_of-failed a now p =
    ap (λ o. (or_no_state o).retry_at) (lookup-failed_self a now p)
    ∙ backed_off-retry_at now (or_no_state (lookup a p.health))

-- After n + 1 failures in a row of an endpoint without a state, the last of them at `now`, it is
-- to be tried again at `now` plus 1 second doubled n times, but at most 32 seconds.
pub retry_of-fail_all :
    (a : Bytes) (nows : List ℕ) (now : ℕ) (p : UpstreamPool)
    → lookup a p.health ≡ none
    → retry_of (failed a now (fail_all a nows p)) a ≡ now + second * 2 ^ min (length nows) 5
retry_of-fail_all a nows now p fresh =
    retry_of-failed a now (fail_all a nows p)
    ∙ ap (λ n. now + second * 2 ^ n)
        (omega (arith, none_yet, failures_of-fail_all a nows p (omega (arith, none_yet))))
  where
    none_yet : failures_of p a ≡ 0
    none_yet = ap (λ o. (or_no_state o).failures) fresh

-- After n + 1 failures in a row of an endpoint without a state, the last of them at `now`, `ordered`
-- does not return it before `now` plus 1 second doubled n times, but at most 32 seconds.
pub failed-ordered :
    (a : Bytes) (nows : List ℕ) (now later : ℕ) (bs : List Bytes) (p : UpstreamPool)
    → lookup a p.health ≡ none
    → later < now + second * 2 ^ min (length nows) 5
    → ¬ Elem a (ordered bs later (failed a now (fail_all a nows p))).0
failed-ordered a nows now later bs p fresh soon m =
    let early : later < retry_of q a = rw (retry_of-fail_all a nows now p fresh) soon in
    unfold is_ready in
    ground (
      arith,
      early,
      lookup-failed_self a now (fail_all a nows p),
      (ordered-is_ready a bs later q).0 m,
    )
  where
    q : UpstreamPool
    q = failed a now (fail_all a nows p)

-- A success forgets the failures of its endpoint and of no other.
pub succeeded_forgets :
    (a j : Bytes) (p : UpstreamPool)
    → lookup j (succeeded a p).health ≡ (if a == j then none else lookup j p.health)
unfolding succeeded
succeeded_forgets a j p = lookup-delete a j p.health
