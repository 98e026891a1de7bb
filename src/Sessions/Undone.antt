-- ===== src/Sessions/Undone.antt =====
-- A session that is admitted, dialled and released leaves the counters as they were
-- (internal/relay/upstream_pool.go: `reserve`, `upstreamDialDone`, `release`).
use tg_proxy_relay.Prelude.{
  ℕ, ◌+◌, ◌-◌, ◌≡◌, ◌⊎◌, inl, inr, refl, sym, ◌∙◌, ap, subst, true, false, ◌||◌, List, [], ◌∷◌,
  ◌++◌, leb, ◌==◌, nat_eq, bytes_eq, if◌then◌else◌, Bytes, length, get_elem?, get_elem?-set_self,
  none, some, Option, Bool-cases, Eq-cases, arith, beq_refl,
}
use tg_proxy_relay.Prelude.Maps.{Map, lookup, insert, delete, lookup-insert, lookup-delete}
use tg_proxy_relay.Sessions.{
  SessionLimiter, SessionReservation, Sessions, or_zero, by_token_of, admit, reserve, finish_dial,
  dial_done_on, upstream_dial_done, drop_token, release_on, release, max_pending_upstream_dials,
  max_relay_sessions, max_relay_sessions_per_token,
}

-- The counters of the limiter are the same.
pub record SameCounters (s s' : Sessions) : Type 0 where
  pub active : s'.limiter.active ≡ s.limiter.active
  pub pending : s'.limiter.pending ≡ s.limiter.pending
  pub by_token : (t : Bytes) → by_token_of s'.limiter t ≡ by_token_of s.limiter t

get_elem?-last {ℓ} :
    {A : Type ℓ} (xs : List A) (x : A) → get_elem? (xs ++ x ∷ []) (length xs) ≡ some x
get_elem?-last [] x = refl
get_elem?-last (y ∷ xs) x = get_elem?-last xs x

at_insert :
    (t u : Bytes) (n : ℕ) (m : Map Bytes ℕ)
    → or_zero (lookup u (insert t n m)) ≡ (if t == u then n else or_zero (lookup u m))
at_insert t u n m = elim (Eq-cases t u) [
  | inl (e, p) ↦ rw e (ap or_zero (rw e at (lookup-insert t u n m)))
  | inr (e, p) ↦ rw e (ap or_zero (rw e at (lookup-insert t u n m)))
]

at_delete :
    (t u : Bytes) (m : Map Bytes ℕ)
    → or_zero (lookup u (delete t m)) ≡ (if t == u then 0 else or_zero (lookup u m))
at_delete t u m = elim (Eq-cases t u) [
  | inl (e, p) ↦ rw e (ap or_zero (rw e at (lookup-delete t u m)))
  | inr (e, p) ↦ rw e (ap or_zero (rw e at (lookup-delete t u m)))
]

-- One session less of a token.
by_token_of-drop_token :
    (t u : Bytes) (l : SessionLimiter)
    → by_token_of (drop_token t l) u ≡ (if t == u then by_token_of l t - 1 else by_token_of l u)
unfolding drop_token by_token_of
by_token_of-drop_token t u l =
    let left = or_zero (lookup t l.by_token) - 1 in
    elim (Bool-cases (leb left 0)) [
      | inr z ↦ rw (drop_token, z) (at_insert t u left l.by_token)
      | inl z ↦
          rw (drop_token, z)
            (elim (Eq-cases t u) [
              | inl (e, p) ↦
                  rw e (rw e at (at_delete t u (insert t left l.by_token)) ∙ zero_left left z)
              | inr (e, p) ↦ rw e (
                  rw e at (at_delete t u (insert t left l.by_token))
                  ∙ rw e at (at_insert t u left l.by_token))
            ])
    ]
  where
    zero_left : (n : ℕ) → leb n 0 ≡ true → 0 ≡ n
    zero_left n z = ground (arith, z)

by_token_of-admit :
    (t u : Bytes) (s : Sessions)
    → by_token_of (admit t s).limiter u
      ≡ (if t == u then by_token_of s.limiter t + 1 else by_token_of s.limiter u)
unfolding admit by_token_of
by_token_of-admit t u s =
    at_insert t u (or_zero (lookup t s.limiter.by_token) + 1) s.limiter.by_token

-- The session after its dial, and after its end.
after_end : Bytes → Sessions → Sessions
after_end t s =
    release (length s.reservations) (upstream_dial_done (length s.reservations) (admit t s))

new_reservation : Bytes → SessionReservation
new_reservation t = record { token_id = t; dial_done = false; released = false }

end_limiter :
    (t : Bytes) (s : Sessions)
    → (after_end t s).limiter ≡ drop_token t (finish_dial (admit t s).limiter (new_reservation t))
unfolding admit release release_on upstream_dial_done dial_done_on finish_dial after_end
    new_reservation
end_limiter t s =
    let r = new_reservation t in
    let i = length s.reservations in
    let last = get_elem?-last s.reservations r in
    rw (upstream_dial_done, last)
      (rw
        (
          release,
          get_elem?-set_self (s.reservations ++ r ∷ []) i (record r { dial_done = true }) r last,
        )
        refl)

after_end-SameCounters : (t : Bytes) (s : Sessions) → SameCounters s (after_end t s)
unfolding drop_token finish_dial admit new_reservation by_token_of
after_end-SameCounters t s =
    let l = finish_dial (admit t s).limiter (new_reservation t) in
    record {
      active = ap (λ x. x.active) (end_limiter t s) ∙ omega arith;
      pending = ap (λ x. x.pending) (end_limiter t s) ∙ omega arith;
      by_token = λ u. ap (λ x. by_token_of x u) (end_limiter t s) ∙ same u;
    }
  where
    same :
        (u : Bytes)
        → by_token_of (drop_token t (finish_dial (admit t s).limiter (new_reservation t))) u
          ≡ by_token_of s.limiter u
    same u = elim (Eq-cases t u) [
      | inl (e, p) ↦
          rw e at (by_token_of-drop_token t u (finish_dial (admit t s).limiter (new_reservation t)))
          ∙ lowered
          ∙ ap (λ x. by_token_of s.limiter x) p
      | inr (e, p) ↦
          rw e at (by_token_of-drop_token t u (finish_dial (admit t s).limiter (new_reservation t)))
          ∙ rw e at (by_token_of-admit t u s)
    ]
      where
        lowered :
            by_token_of (finish_dial (admit t s).limiter (new_reservation t)) t - 1
            ≡ by_token_of s.limiter t
        lowered = omega (arith, rw (beq_refl t) at (by_token_of-admit t t s))

-- A reservation that is given, reported as dialled and released, or refused, leaves the counters as
-- they were.
pub reserve-SameCounters :
    (t : Bytes) (s s' : Sessions) (reservation : Option ℕ) (status : ℕ)
    → reserve t s ≡ (reservation, status, s')
    → (reservation ≡ none) × (s' ≡ s)
      ⊎ ((i : ℕ) × (reservation ≡ some i) × SameCounters s (release i (upstream_dial_done i s')))
unfolding reserve after_end
reserve-SameCounters t s s' reservation status =
    elim (Bool-cases (leb max_pending_upstream_dials s.limiter.pending)) [
      | inl p ↦ rw (reserve, p) (λ h. inl (sym (ap (λ x. x.0) h), sym (ap (λ x. x.2) h)))
      | inr p ↦
          elim (Bool-cases (
            leb max_relay_sessions s.limiter.active
            || leb max_relay_sessions_per_token (by_token_of s.limiter t))) [
              | inl a ↦ rw (reserve, p, a) (λ h. inl (sym (ap (λ x. x.0) h), sym (ap (λ x. x.2) h)))
              | inr a ↦
                  rw (reserve, p, a)
                    (λ h. inr (
                      length s.reservations,
                      sym (ap (λ x. x.0) h),
                      subst
                          (λ x. SameCounters s (
                            release (length s.reservations)
                              (upstream_dial_done (length s.reservations) x)))
                          (ap (λ x. x.2) h) (after_end-SameCounters t s),
                    ))
            ]
    ]
