-- ===== src/Upstreams/Dial/Accounts.antt =====
-- What becomes of the connections of a route (internal/relay/upstream_pool.go: `dialTelegramRoute`,
-- `dialEndpointWave`, `closeLateEndpointConnections`).
use tg_proxy_relay.Prelude.{
  ℕ, zero, suc, ◌+◌, length, count_if, count_if-append, Bool-cases, inl, inr, ◌≡◌, refl, Bool, true,
  false, List, [], ◌∷◌, ◌++◌, Bytes, arith,
}
use tg_proxy_relay.Upstreams.{UpstreamPool, failed, ordered}
use tg_proxy_relay.Upstreams.Dial.{
  connected, connected_late, dial_failed, Arrival, parent_done, result, error_of, dial_result, Wave,
  results, opened_in, closed_in, close_late, dial_endpoint_wave, Route, Network, after_wave,
  dial_waves, dial_ordered, dial_telegram_route, answered, returned,
}

-- Every dial of a wave sends one result.
abbrev pub IsComplete : Network → Type 0
IsComplete net = (wave : List Bytes) → results (net.arrivals wave) ≡ length wave

module _ (p : Bytes → Bool) where
  -- How many connections there are, to addresses of a kind.
  abbrev number : List Bytes → ℕ
  number = count_if p

  number-append : (xs ys : List Bytes) → number (xs ++ ys) ≡ number xs + number ys
  number-append xs ys = count_if-append p xs ys

  close_late_all :
      (arrivals : List Arrival) (count : ℕ)
      → results arrivals ≡ count
      → number (opened_in arrivals)
        ≡ number (close_late count arrivals) + number (closed_in arrivals)
  unfolding close_late dial_result error_of
  close_late_all [] zero e = refl
  close_late_all [] (suc count) e = absurd (omega (arith, e))
  close_late_all (parent_done ∷ rest) zero e = close_late_all rest zero e
  close_late_all (parent_done ∷ rest) (suc count) e = close_late_all rest (suc count) e
  close_late_all (result a now d ∷ rest) zero e = absurd (omega (arith, e))
  close_late_all (result a now connected ∷ rest) (suc count) e =
      ground (arith, close_late_all rest count (omega (arith, e)))
  close_late_all (result a now (connected_late c) ∷ rest) (suc count) e = elim (Bool-cases c) [
    | inl t ↦ rw (error_of, t) (ground (arith, close_late_all rest count (omega (arith, e))))
    | inr t ↦ rw (error_of, t) (ground (arith, close_late_all rest count (omega (arith, e))))
  ]
  close_late_all (result a now (dial_failed c) ∷ rest) (suc count) e = elim (Bool-cases c) [
    | inl t ↦ rw (error_of, t) (close_late_all rest count (omega (arith, e)))
    | inr t ↦ rw (error_of, t) (close_late_all rest count (omega (arith, e)))
  ]

  -- What a wave opens, returns and closes.
  WaveAccounts : List Arrival → Wave → Type 0
  WaveAccounts arrivals w =
      (number (opened_in arrivals)
        ≡ number (returned w.connection) + (number w.closed + number (closed_in arrivals)))

  dial_endpoint_wave-WaveAccounts :
      (arrivals : List Arrival) (left : ℕ) (failures : List Bytes) (pool : UpstreamPool)
      → results arrivals ≡ left
      → WaveAccounts arrivals (dial_endpoint_wave left arrivals failures pool)
  unfolding dial_endpoint_wave WaveAccounts dial_result error_of close_late
  dial_endpoint_wave-WaveAccounts [] zero fs pool e = refl
  dial_endpoint_wave-WaveAccounts [] (suc left) fs pool e = absurd (omega (arith, e))
  dial_endpoint_wave-WaveAccounts (parent_done ∷ rest) zero fs pool e =
      ground (arith, close_late_all rest zero e)
  dial_endpoint_wave-WaveAccounts (parent_done ∷ rest) (suc left) fs pool e =
      ground (arith, close_late_all rest (suc left) e)
  dial_endpoint_wave-WaveAccounts (result a now d ∷ rest) zero fs pool e = absurd (omega (arith, e))
  dial_endpoint_wave-WaveAccounts (result a now connected ∷ rest) (suc left) fs pool e =
      ground (arith, close_late_all rest left (omega (arith, e)))
  dial_endpoint_wave-WaveAccounts (result a now (connected_late true) ∷ rest) (suc left) fs pool e =
      ground (arith, dial_endpoint_wave-WaveAccounts rest left fs pool (omega (arith, e)))
  dial_endpoint_wave-WaveAccounts (result a now (connected_late false) ∷ rest) (suc left) fs pool
        e =
      ground (
        arith,
        dial_endpoint_wave-WaveAccounts rest left (fs ++ a ∷ []) (failed a now pool)
            (omega (arith, e)),
      )
  dial_endpoint_wave-WaveAccounts (result a now (dial_failed true) ∷ rest) (suc left) fs pool e =
      dial_endpoint_wave-WaveAccounts rest left fs pool (omega (arith, e))
  dial_endpoint_wave-WaveAccounts (result a now (dial_failed false) ∷ rest) (suc left) fs pool e =
      dial_endpoint_wave-WaveAccounts rest left (fs ++ a ∷ []) (failed a now pool)
        (omega (arith, e))

  -- Of a route: nothing that was opened is lost.
  Accounts : Route → Type 0
  Accounts r = number r.opened ≡ number (answered r.answer) + number r.closed

  after_wave-Accounts :
      (arrivals : List Arrival) (ended : Bool) (w : Wave) (failures : List Bytes)
      (next : List Bytes → UpstreamPool → Route)
      → WaveAccounts arrivals w
      → ((fs : List Bytes) (q : UpstreamPool) → Accounts (next fs q))
      → Accounts (after_wave arrivals ended w failures next)
  unfolding after_wave WaveAccounts Accounts
  after_wave-Accounts arrivals ended w failures next a ih = ground (
    arith,
    a,
    ih (failures ++ w.failures) w.pool,
    number-append w.closed (closed_in arrivals),
    number-append (opened_in arrivals) (next (failures ++ w.failures) w.pool).opened,
    number-append (w.closed ++ closed_in arrivals) (next (failures ++ w.failures) w.pool).closed,
  )

  dial_waves-Accounts :
      (net : Network) (bs failures : List Bytes) (pool : UpstreamPool)
      → IsComplete net
      → Accounts (dial_waves net bs failures pool)
  unfolding dial_waves Accounts
  dial_waves-Accounts net [] failures pool n = refl
  dial_waves-Accounts net (a ∷ []) failures pool n =
      after_wave-Accounts (net.arrivals (a ∷ [])) (net.ended_after (a ∷ [])) _ failures
        (dial_waves net [])
        (dial_endpoint_wave-WaveAccounts (net.arrivals (a ∷ [])) 1 [] pool (n (a ∷ [])))
        (λ fs q. dial_waves-Accounts net [] fs q n)
  dial_waves-Accounts net (a ∷ b ∷ []) failures pool n =
      after_wave-Accounts (net.arrivals (a ∷ b ∷ [])) (net.ended_after (a ∷ b ∷ [])) _ failures
        (dial_waves net [])
        (dial_endpoint_wave-WaveAccounts (net.arrivals (a ∷ b ∷ [])) 2 [] pool (n (a ∷ b ∷ [])))
        (λ fs q. dial_waves-Accounts net [] fs q n)
  dial_waves-Accounts net (a ∷ b ∷ c ∷ rest) failures pool n =
      after_wave-Accounts (net.arrivals (a ∷ b ∷ c ∷ [])) (net.ended_after (a ∷ b ∷ c ∷ [])) _
        failures (dial_waves net rest)
        (dial_endpoint_wave-WaveAccounts (net.arrivals (a ∷ b ∷ c ∷ [])) 3 [] pool
          (n (a ∷ b ∷ c ∷ [])))
        (λ fs q. dial_waves-Accounts net rest fs q n)

  dial_ordered-Accounts :
      (net : Network) (found : List Bytes) (pool : UpstreamPool)
      → IsComplete net
      → Accounts (dial_ordered net found pool)
  unfolding dial_ordered Accounts
  dial_ordered-Accounts net [] pool n = refl
  dial_ordered-Accounts net (b ∷ bs) pool n = dial_waves-Accounts net (b ∷ bs) [] pool n

-- Whatever the network does, and in whatever order, as long as each dial of a wave sends one result: of the
-- connections that the dials of a route open, counted over any kind of addresses, the one of the answer is
-- handed to the caller and every other one is closed, by the dial that opened it or by the cleanup of
-- its wave.
pub dial_telegram_route-accounts :
    (p : Bytes → Bool) (net : Network) (bs : List Bytes) (now : ℕ) (pool : UpstreamPool)
    → IsComplete net
    → count_if p (dial_telegram_route net bs now pool).opened
      ≡ count_if p (answered (dial_telegram_route net bs now pool).answer)
        + count_if p (dial_telegram_route net bs now pool).closed
unfolding dial_telegram_route Accounts
dial_telegram_route-accounts p net [] now pool n = refl
dial_telegram_route-accounts p net (a ∷ rest) now pool n =
    dial_ordered-Accounts p net (ordered (a ∷ rest) now pool).0 (ordered (a ∷ rest) now pool).1 n
