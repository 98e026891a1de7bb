-- ===== src/Sessions/Counts.antt =====
-- The counters of the limiter are what they count, so its limits hold after any history.
use tg_proxy_relay.Prelude.{
  ℕ, ◌+◌, ◌-◌, ◌≤◌, ◌<◌, ◌≡◌, inl, inr, refl, Bool, true, false, not, ◌&&◌, ◌||◌, List, [], ◌∷◌,
  leb, ◌==◌, nat_eq, bytes_eq, bytes_beq_iff, if◌then◌else◌, Bytes, get_elem?, set, Option, none,
  some, arith, to_ℕ, count_if, count_if-append, count_if-set, count_if_pos, All, All-set,
  All-append, All-get_elem?, Bool-cases,
}
use tg_proxy_relay.Prelude.Maps.{Map, lookup, insert, lookup-insert, lookup-delete}
use tg_proxy_relay.Sessions.{
  Sessions, SessionLimiter, SessionReservation, Call, reserves, dials_done, releases, reserve,
  admit, upstream_dial_done, release, step, run, new_session_limiter, by_token_of, or_zero,
  finish_dial, drop_token, dial_done_on, release_on, max_relay_sessions,
  max_relay_sessions_per_token, max_pending_upstream_dials,
}

abbrev pub is_active : SessionReservation → Bool
is_active r = not r.released

abbrev pub is_pending : SessionReservation → Bool
is_pending r = not r.dial_done

abbrev pub is_active_for : Bytes → SessionReservation → Bool
is_active_for t r = not r.released && (r.token_id == t)

pub record IsCounted (s : Sessions) : Type 0 where
  pub active : s.limiter.active ≡ count_if is_active s.reservations
  pub pending : s.limiter.pending ≡ count_if is_pending s.reservations
  pub by_token : (t : Bytes) → by_token_of s.limiter t ≡ count_if (is_active_for t) s.reservations
  pub released_done : All (λ r. r.released ≡ true → r.dial_done ≡ true) s.reservations
  pub active_limit : s.limiter.active ≤ max_relay_sessions
  pub pending_limit : s.limiter.pending ≤ max_pending_upstream_dials
  pub token_limit : (t : Bytes) → by_token_of s.limiter t ≤ max_relay_sessions_per_token

by_token_of-insert :
    (l : SessionLimiter) (k t : Bytes) (n : ℕ) (m : Map Bytes ℕ)
    → or_zero (lookup t (insert k n m)) ≡ (if k == t then n else or_zero (lookup t m))
by_token_of-insert l k t n m = ground (arith, lookup-insert k t n m)

admit-IsCounted :
    (k : Bytes) (s : Sessions)
    → s.limiter.pending < max_pending_upstream_dials
    → s.limiter.active < max_relay_sessions
    → by_token_of s.limiter k < max_relay_sessions_per_token
    → IsCounted s
    → IsCounted (admit k s)
unfolding admit by_token_of
admit-IsCounted k s p a b h = record {
  active = omega (arith, h.active, count_if-append is_active s.reservations (fresh ∷ []));
  pending = omega (arith, h.pending, count_if-append is_pending s.reservations (fresh ∷ []));
  by_token = λ t. ground (
    arith,
    by_token_of-insert s.limiter k t (by_token_of s.limiter k + 1) s.limiter.by_token,
    h.by_token t,
    h.by_token k,
    bytes_beq_iff k t,
    count_if-append (is_active_for t) s.reservations (fresh ∷ []),
  );
  released_done =
      All-append (λ r. r.released ≡ true → r.dial_done ≡ true) s.reservations (fresh ∷ [])
        h.released_done ((λ e. cc), tt);
  active_limit = omega arith;
  pending_limit = omega arith;
  token_limit = λ t. ground (
    arith,
    by_token_of-insert s.limiter k t (by_token_of s.limiter k + 1) s.limiter.by_token,
    h.token_limit t,
  );
}
  where
    fresh : SessionReservation
    fresh = record { token_id = k; dial_done = false; released = false }

reserve-IsCounted : (k : Bytes) (s : Sessions) → IsCounted s → IsCounted (reserve k s).2
unfolding reserve
reserve-IsCounted k s h = elim (Bool-cases (leb max_pending_upstream_dials s.limiter.pending)) [
  | inl e ↦ rw e h
  | inr e ↦
      elim (Bool-cases (
        leb max_relay_sessions s.limiter.active
        || leb max_relay_sessions_per_token (by_token_of s.limiter k))) [
          | inl f ↦ rw (e, f) h
          | inr f ↦ rw (e, f) (admit-IsCounted k s (ground arith) (ground arith) (ground arith) h)
        ]
]

module _ (s : Sessions) (i : ℕ) (r v : SessionReservation) (h : IsCounted s)
    (found : get_elem? s.reservations i ≡ some r) where
  counts_at :
      (p : SessionReservation → Bool)
      → (count_if p (set s.reservations i v) + to_ℕ (p r) ≡ count_if p s.reservations + to_ℕ (p v))
        × (to_ℕ (p r) ≤ count_if p s.reservations)
  counts_at p = (count_if-set p s.reservations i r v found, count_if_pos p s.reservations i r found)

  pub done_when_released : r.released ≡ true → r.dial_done ≡ true
  done_when_released =
      All-get_elem? (λ r. r.released ≡ true → r.dial_done ≡ true) s.reservations i r h.released_done
        found

dial_done_on-IsCounted :
    (s : Sessions) (i : ℕ) (o : Option SessionReservation)
    → get_elem? s.reservations i ≡ o
    → IsCounted s
    → IsCounted (dial_done_on s i o)
unfolding dial_done_on finish_dial by_token_of
dial_done_on-IsCounted s i none found h = h
dial_done_on-IsCounted s i (some r) found h = record {
  active = ground (arith, h.active, counts_at s i r done h found is_active);
  pending = ground (arith, h.pending, counts_at s i r done h found is_pending);
  by_token = λ t. ground (arith, h.by_token t, counts_at s i r done h found (is_active_for t));
  released_done =
      All-set (λ r. r.released ≡ true → r.dial_done ≡ true) s.reservations i done h.released_done
        (λ e. refl);
  active_limit = ground (arith, h.active_limit);
  pending_limit = ground (arith, h.pending_limit);
  token_limit = λ t. ground (arith, h.token_limit t);
}
  where
    done : SessionReservation
    done = record r { dial_done = true }

-- What `drop_token` leaves of each token.
by_token_of-drop_token :
    (l : SessionLimiter) (k t : Bytes)
    → by_token_of (drop_token k l) t ≡ (if k == t then by_token_of l k - 1 else by_token_of l t)
unfolding by_token_of drop_token
by_token_of-drop_token l k t =
    let n = by_token_of l k - 1 in
    ground (
      arith,
      lookup-insert k t n l.by_token,
      lookup-delete k t (insert k n l.by_token),
      bytes_beq_iff k t,
    )

by_token_of-finish_dial :
    (l : SessionLimiter) (r : SessionReservation) (t : Bytes)
    → by_token_of (finish_dial l r) t ≡ by_token_of l t
unfolding by_token_of finish_dial
by_token_of-finish_dial l r t = ground arith

release_on-IsCounted :
    (s : Sessions) (i : ℕ) (o : Option SessionReservation)
    → get_elem? s.reservations i ≡ o
    → IsCounted s
    → IsCounted (release_on s i o)
unfolding release_on
release_on-IsCounted s i none found h = h
release_on-IsCounted s i (some r) found h = elim (Bool-cases r.released) [
  | inl e ↦ rw (e, release_on) h
  | inr e ↦
      rw (e, release_on)
        (record {
          active =
              unfold drop_token finish_dial in
              ground (arith, h.active, counts_at s i r gone h found is_active);
          pending =
              unfold drop_token finish_dial in
              ground (arith, h.pending, counts_at s i r gone h found is_pending);
          by_token = λ t. ground (
            arith,
            h.by_token t,
            h.by_token r.token_id,
            counts_at s i r gone h found (is_active_for t),
            by_token_of-drop_token (finish_dial s.limiter r) r.token_id t,
            by_token_of-finish_dial s.limiter r t,
            by_token_of-finish_dial s.limiter r r.token_id,
            bytes_beq_iff r.token_id t,
          );
          released_done =
              All-set (λ r. r.released ≡ true → r.dial_done ≡ true) s.reservations i gone
                h.released_done (λ e. refl);
          active_limit = unfold drop_token finish_dial in ground (arith, h.active_limit);
          pending_limit = unfold drop_token finish_dial in ground (arith, h.pending_limit);
          token_limit = λ t. ground (
            arith,
            h.token_limit t,
            h.token_limit r.token_id,
            by_token_of-drop_token (finish_dial s.limiter r) r.token_id t,
            by_token_of-finish_dial s.limiter r t,
            by_token_of-finish_dial s.limiter r r.token_id,
          );
        })
]
  where
    gone : SessionReservation
    gone = record r { dial_done = true; released = true }

pub release-IsCounted : (i : ℕ) (s : Sessions) → IsCounted s → IsCounted (release i s)
unfolding release
release-IsCounted i s h = release_on-IsCounted s i (get_elem? s.reservations i) refl h

-- Every call keeps the counters equal to what they count, and the limits.
step-IsCounted : (s : Sessions) (c : Call) → IsCounted s → IsCounted (step s c)
unfolding step upstream_dial_done release
step-IsCounted s (reserves k) h = reserve-IsCounted k s h
step-IsCounted s (dials_done i) h = dial_done_on-IsCounted s i (get_elem? s.reservations i) refl h
step-IsCounted s (releases i) h = release_on-IsCounted s i (get_elem? s.reservations i) refl h

run-IsCounted : (s : Sessions) (cs : List Call) → IsCounted s → IsCounted (run s cs)
unfolding run
run-IsCounted s [] h = h
run-IsCounted s (c ∷ cs) h = run-IsCounted (step s c) cs (step-IsCounted s c h)

new_session_limiter-IsCounted : IsCounted new_session_limiter
unfolding by_token_of lookup
new_session_limiter-IsCounted = record {
  active = refl;
  pending = refl;
  by_token = λ t. refl;
  released_done = tt;
  active_limit = omega arith;
  pending_limit = omega arith;
  token_limit = λ t. omega arith;
}

-- After any history of calls on a new limiter, in any order and with any handles, `active` is the
-- number of reservations not released, `pending` that of those whose dial is not done, and each
-- token's entry that of its reservations not released. They are at most 1024, 128 and 128.
pub run-new_session_limiter-IsCounted : (cs : List Call) → IsCounted (run new_session_limiter cs)
run-new_session_limiter-IsCounted cs =
    run-IsCounted new_session_limiter cs new_session_limiter-IsCounted
