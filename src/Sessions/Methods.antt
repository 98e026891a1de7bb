-- ===== src/Sessions/Methods.antt =====
-- Releasing a session twice (internal/relay/upstream_pool.go: `sessionReservation`).
use tg_proxy_relay.Prelude.{
  ℕ, ◌≡◌, ◌⊎◌, set, set-get_elem?, inl, inr, refl, true, get_elem?, get_elem?-set_self, none, some,
  arith, Option-cases, Bool-cases,
}
use tg_proxy_relay.Sessions.{
  Sessions, SessionReservation, upstream_dial_done, release, release_on, dial_done_on, finish_dial,
}
use tg_proxy_relay.Sessions.Counts.{IsCounted, done_when_released, release-IsCounted}

-- A released reservation is done with: both methods leave everything as it is.
released_idle :
    (i : ℕ) (s : Sessions) (r : SessionReservation)
    → IsCounted s
    → get_elem? s.reservations i ≡ some r
    → r.released ≡ true
    → (release i s ≡ s) × (upstream_dial_done i s ≡ s)
unfolding release upstream_dial_done finish_dial
released_idle i s r h e gone =
    let done : r.dial_done ≡ true = done_when_released s i r r h e gone in
    let kept : set s.reservations i r ≡ s.reservations = set-get_elem? s.reservations i r e in
    (rw (e, release_on) (rw (gone, release_on)), rw (e, dial_done_on) (ground (arith, kept)))

dial_done_missing :
    (i : ℕ) (s : Sessions) → get_elem? s.reservations i ≡ none → upstream_dial_done i s ≡ s
unfolding upstream_dial_done
dial_done_missing i s e = rw (e, dial_done_on)

release-released :
    (i : ℕ) (s : Sessions)
    → (release i s ≡ s) × (get_elem? s.reservations i ≡ none)
      ⊎ ((r : SessionReservation) × (get_elem? (release i s).reservations i ≡ some r)
          × (r.released ≡ true))
unfolding release
release-released i s = elim (Option-cases (get_elem? s.reservations i)) [
  | inl e ↦ inl (rw (e, release_on), e)
  | inr (r, e) ↦ elim (Bool-cases r.released) [
    | inl f ↦ inr (r, rw (e, release_on) (simp f e), f)
    | inr f ↦
        let gone : SessionReservation = record r { dial_done = true; released = true } in
        inr (gone, rw (e, release_on) (simp f (get_elem?-set_self s.reservations i gone r e)), refl)
  ]
]

-- Releasing a reservation a second time changes nothing, and neither does a dial that is reported
-- done after the release: so the deferred release after an explicit one is safe. The counters are
-- counted, as they are after any history.
pub release-release :
    (i : ℕ) (s : Sessions)
    → IsCounted s
    → (release i (release i s) ≡ release i s) × (upstream_dial_done i (release i s) ≡ release i s)
release-release i s h = elim (release-released i s) [
  | inl (same, missing) ↦ rw same (same, dial_done_missing i s missing)
  | inr (r, e, gone) ↦ released_idle i (release i s) r (release-IsCounted i s h) e gone
]
