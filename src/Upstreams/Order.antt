-- ===== src/Upstreams/Order.antt =====
-- What `ordered` returns: the addresses that may be tried now, each of those that failed before
-- under a lease of its own.
use tg_proxy_relay.Prelude.{
  ℕ, ◌+◌, ◌*◌, ◌%◌, ◌≡◌, ◌≢◌, ◌<◌, ◌⊎◌, ◌↔◌, inl, inr, refl, sym, Bool, true, false, not, List, [],
  ◌∷◌, ◌++◌, ◌==◌, nat_eq, bytes_eq, bytes_beq_iff, if◌then◌else◌, Bytes, length, take, drop,
  take-append-drop, Option, none, some, arith, Elem, Elem-append_left, Elem-append_right,
  Elem-of_append, Eq-cases, Option-cases, Bool-cases,
}
use tg_proxy_relay.Prelude.Maps.{Map, lookup, insert, lookup-insert}
use tg_proxy_relay.Upstreams.{
  EndpointState, UpstreamPool, second, cooling, leased, eligible, comes_before, insert_stable,
  sort_stable, rotated, ordered,
}

abbrev pub Health : Type 0
Health = Map Bytes EndpointState

-- An endpoint may be tried: it never failed, or its wait and its last lease are over.
abbrev pub ready_state : ℕ → Option EndpointState → Bool
ready_state now none = true
ready_state now (some state) = not (cooling now state)

unfoldable pub is_ready : ℕ → Health → Bytes → Bool
is_ready now health a = ready_state now (lookup a health)

-- A lease makes its endpoint wait, and no other.
is_ready-leased :
    (now : ℕ) (health : Health) (k a : Bytes) (state : EndpointState)
    → is_ready now (insert k (leased now state) health) a
      ≡ (if k == a then false else is_ready now health a)
unfolding is_ready
is_ready-leased now health k a state = ground (arith, lookup-insert k a (leased now state) health)

-- One round of the loop.
eligible-none :
    (now : ℕ) (health : Health) (a : Bytes) (rest : List Bytes)
    → lookup a health ≡ none
    → eligible now health (a ∷ rest)
      ≡ (a ∷ (eligible now health rest).0, (eligible now health rest).1)
unfolding eligible
eligible-none now health a rest e = rw (e, eligible)

eligible-cooling :
    (now : ℕ) (health : Health) (a : Bytes) (rest : List Bytes) (state : EndpointState)
    → lookup a health ≡ some state
    → cooling now state ≡ true
    → eligible now health (a ∷ rest) ≡ eligible now health rest
unfolding eligible
eligible-cooling now health a rest state e c = rw (e, eligible) (rw c)

eligible-leased :
    (now : ℕ) (health : Health) (a : Bytes) (rest : List Bytes) (state : EndpointState)
    → lookup a health ≡ some state
    → cooling now state ≡ false
    → eligible now health (a ∷ rest) ≡ (
        let h = insert a (leased now state) health in
        (a ∷ (eligible now h rest).0, (eligible now h rest).1))
unfolding eligible
eligible-leased now health a rest state e c = rw (e, eligible) (rw c)

-- A table with the lease of a round, or without one for an address that has no state.
data Later (now : ℕ) (health : Health) (b : Bytes) (h : Health) : Type 0 where
  untracked : lookup b health ≡ none → h ≡ health → Later now health b h
  lease :
      (state : EndpointState)
      → lookup b health ≡ some state
      → h ≡ insert b (leased now state) health
      → Later now health b h

-- The rounds of the loop: an address is passed over, or taken.
data Round (now : ℕ) (health : Health) (b : Bytes) (rest : List Bytes) : Type 0 where
  skip :
      is_ready now health b ≡ false
      → eligible now health (b ∷ rest) ≡ eligible now health rest
      → Round now health b rest
  pick :
      (h : Health)
      → is_ready now health b ≡ true
      → eligible now health (b ∷ rest) ≡ (b ∷ (eligible now h rest).0, (eligible now h rest).1)
      → Later now health b h
      → Round now health b rest

rounds : (now : ℕ) (health : Health) (b : Bytes) (rest : List Bytes) → Round now health b rest
unfolding is_ready
rounds now health b rest = elim (Option-cases (lookup b health)) [
  | inl e ↦ pick health (rw e) (eligible-none now health b rest e) (untracked e refl)
  | inr (state, e) ↦ elim (Bool-cases (cooling now state)) [
    | inl c ↦ skip (rw e (rw c)) (eligible-cooling now health b rest state e c)
    | inr c ↦
        pick (insert b (leased now state) health) (rw e (rw c))
          (eligible-leased now health b rest state e c) (lease state e refl)
  ]
]

ready_before :
    (now : ℕ) (health : Health) (a b : Bytes) (h : Health)
    → Later now health b h
    → is_ready now h a ≡ true
    → is_ready now health a ≡ true
ready_before now health a b h (untracked e same) r = cc
ready_before now health a b h (lease state e same) r =
    ground (arith, is_ready-leased now health b a state)

cooling_ready :
    (now : ℕ) (health : Health) (a b : Bytes) (h : Health)
    → Later now health b h
    → a ≢ b
    → is_ready now health a ≡ true
    → is_ready now h a ≡ true
cooling_ready now health a b h (untracked e same) n r = cc
cooling_ready now health a b h (lease state e same) n r =
    ground (arith, is_ready-leased now health b a state, bytes_beq_iff b a)

-- What the loop returns, for an address of the list: exactly what is ready.
eligible-ready :
    (now : ℕ) (health : Health) (a : Bytes) (bs : List Bytes)
    → Elem a (eligible now health bs).0
    → Elem a bs × (is_ready now health a ≡ true)
unfolding eligible
eligible-ready now health a [] m = elim m [ ]
eligible-ready now health a (b ∷ bs) m =
    go (rounds now health b bs) (λ h. eligible-ready now h a bs)
  where
    go :
        Round now health b bs
        → ((h : Health) → Elem a (eligible now h bs).0 → Elem a bs × (is_ready now h a ≡ true))
        → Elem a (b ∷ bs) × (is_ready now health a ≡ true)
    go (skip r e) ih = let (m', r') = ih health (rw e at m) in (inr m', r')
    go (pick h r e l) ih = elim (the (rw e at m)) [
      | inl p ↦ (inl p, rw p r)
      | inr m' ↦ let (m'', r') = ih h m' in (inr m'', ready_before now health a b h l r')
    ]
      where
        the : Elem a (b ∷ (eligible now h bs).0) → (a ≡ b) ⊎ Elem a (eligible now h bs).0
        the x = x

eligible_of_ready :
    (now : ℕ) (health : Health) (a : Bytes) (bs : List Bytes)
    → Elem a bs
    → is_ready now health a ≡ true
    → Elem a (eligible now health bs).0
unfolding eligible
eligible_of_ready now health a [] m r = elim m [ ]
eligible_of_ready now health a (b ∷ bs) m r =
    go (rounds now health b bs) (λ h. eligible_of_ready now h a bs)
  where
    go :
        Round now health b bs
        → ((h : Health) → Elem a bs → is_ready now h a ≡ true → Elem a (eligible now h bs).0)
        → Elem a (eligible now health (b ∷ bs)).0
    go (skip x e) ih = elim m [ inl p ↦ cc | inr m' ↦ rw e (ih health m' r) ]
    go (pick h x e l) ih = elim (Eq-cases a b) [
      | inl (_, p) ↦ rw e (inl p)
      | inr (_, n) ↦ elim m [
        | inl p ↦ absurd (n p)
        | inr m' ↦ rw e (inr (ih h m' (cooling_ready now health a b h l n r)))
      ]
    ]

-- A round keeps the state of an endpoint that waits.
eligible-keeps :
    (now : ℕ) (health : Health) (a : Bytes) (bs : List Bytes) (state : EndpointState)
    → lookup a health ≡ some state
    → cooling now state ≡ true
    → lookup a (eligible now health bs).1 ≡ some state
unfolding eligible
eligible-keeps now health a [] state e c = e
eligible-keeps now health a (b ∷ bs) state e c =
    go (rounds now health b bs) (λ h. eligible-keeps now h a bs state)
  where
    waits : is_ready now health a ≡ false
    waits = unfold is_ready in rw e (rw c)

    go :
        Round now health b bs
        → ((h : Health)
            → lookup a h ≡ some state
            → cooling now state ≡ true
            → lookup a (eligible now h bs).1 ≡ some state)
        → lookup a (eligible now health (b ∷ bs)).1 ≡ some state
    go (skip x p) ih = rw p (ih health e c)
    go (pick h x p (untracked y same)) ih = rw p (ih h (rw same e) c)
    go (pick h x p (lease s y same)) ih = elim (Eq-cases b a) [
      | inl (_, q) ↦ cc waits
      | inr (f, n) ↦ rw p (ih h (ground (arith, lookup-insert b a (leased now s) health)) c)
    ]

-- What the loop returns of the endpoints that have a state is leased to the caller.
eligible-leases :
    (now : ℕ) (health : Health) (a : Bytes) (bs : List Bytes) (state : EndpointState)
    → lookup a health ≡ some state
    → Elem a (eligible now health bs).0
    → lookup a (eligible now health bs).1 ≡ some (leased now state)
unfolding eligible
eligible-leases now health a [] state e m = elim m [ ]
eligible-leases now health a (b ∷ bs) state e m =
    go (rounds now health b bs) (λ h. eligible-leases now h a bs state)
  where
    go :
        Round now health b bs
        → ((h : Health)
            → lookup a h ≡ some state
            → Elem a (eligible now h bs).0
            → lookup a (eligible now h bs).1 ≡ some (leased now state))
        → lookup a (eligible now health (b ∷ bs)).1 ≡ some (leased now state)
    go (skip x p) ih = rw p (ih health e (rw p at m))
    go (pick h x p (untracked y same)) ih =
        let m' : Elem a (b ∷ (eligible now h bs).0) = rw p at m in
        elim m' [ inl q ↦ absurd (cc) | inr m'' ↦ rw p (ih h (rw same e) m'') ]
    go (pick h x p (lease s y same)) ih = elim (Eq-cases b a) [
      | inl (f, q) ↦
          let s_eq : some s ≡ some state = cc in
          rw p (
            eligible-keeps now h a bs (leased now state)
              (ground (arith, lookup-insert b a (leased now s) health)) (ground arith))
      | inr (f, n) ↦
          let m' : Elem a (b ∷ (eligible now h bs).0) = rw p at m in
          elim m' [
            | inl q ↦ absurd (n (sym q))
            | inr m'' ↦ rw p (ih h (ground (arith, lookup-insert b a (leased now s) health)) m'')
          ]
    ]

module _ (a b x : Bytes) (bs cs : List Bytes) (ih : Elem a cs ↔ Elem a (x ∷ bs)) where
  swapped : Elem a (b ∷ cs) → Elem a (x ∷ b ∷ bs)
  swapped (inl p) = inr (inl p)
  swapped (inr m) = elim (ih.0 m) [ inl p ↦ inl p | inr q ↦ inr (inr q) ]

  swapped_back : Elem a (x ∷ b ∷ bs) → Elem a (b ∷ cs)
  swapped_back (inl p) = inr (ih.1 (inl p))
  swapped_back (inr (inl p)) = inl p
  swapped_back (inr (inr q)) = inr (ih.1 (inr q))

Elem-insert_stable :
    (less : Bytes → Bytes → Bool) (a x : Bytes) (bs : List Bytes)
    → Elem a (insert_stable less x bs) ↔ Elem a (x ∷ bs)
unfolding insert_stable
Elem-insert_stable less a x [] = (λ m. m, λ m. m)
Elem-insert_stable less a x (b ∷ bs) =
    let cs = insert_stable less x bs in
    let ih = Elem-insert_stable less a x bs in
    elim (Bool-cases (less b x)) [
      | inl e ↦ rw e (swapped a b x bs cs ih, swapped_back a b x bs cs ih)
      | inr e ↦ rw e (λ m. m, λ m. m)
    ]

module _ (a b : Bytes) (bs cs : List Bytes) (same : Elem a cs ↔ Elem a bs) where
  behind : Elem a (b ∷ cs) → Elem a (b ∷ bs)
  behind (inl p) = inl p
  behind (inr m) = inr (same.0 m)

  behind_back : Elem a (b ∷ bs) → Elem a (b ∷ cs)
  behind_back (inl p) = inl p
  behind_back (inr m) = inr (same.1 m)

Elem-sort_stable :
    (less : Bytes → Bytes → Bool) (a : Bytes) (bs : List Bytes)
    → Elem a (sort_stable less bs) ↔ Elem a bs
unfolding sort_stable
Elem-sort_stable less a [] = (λ m. m, λ m. m)
Elem-sort_stable less a (b ∷ bs) =
    let cs = sort_stable less bs in
    let ih = Elem-sort_stable less a bs in
    let put = Elem-insert_stable less a b cs in
    (λ m. behind a b bs cs ih (put.0 m), λ m. put.1 (behind_back a b bs cs ih m))

Elem-rotated : (a : Bytes) (cursor : ℕ) (bs : List Bytes) → Elem a (rotated cursor bs) ↔ Elem a bs
unfolding rotated
Elem-rotated a cursor bs =
    let n = cursor % length bs in
    let whole = take-append-drop n bs in
    (
      λ m. rw (← whole) (elim (Elem-of_append a (drop n bs) (take n bs) m) [
        | inl d ↦ Elem-append_right a (take n bs) (drop n bs) d
        | inr t ↦ Elem-append_left a (take n bs) (drop n bs) t
      ]),
      λ m.
          let m' : Elem a (take n bs ++ drop n bs) = rw whole m in
          elim (Elem-of_append a (take n bs) (drop n bs) m') [
            | inl t ↦ Elem-append_right a (drop n bs) (take n bs) t
            | inr d ↦ Elem-append_left a (drop n bs) (take n bs) d
          ],
    )

-- `ordered` returns exactly the given addresses that may be tried at `now`: each one that never
-- failed, and each one whose wait and whose last lease are over.
pub ordered-is_ready :
    (a : Bytes) (bs : List Bytes) (now : ℕ) (p : UpstreamPool)
    → Elem a (ordered bs now p).0 ↔ Elem a bs × (is_ready now p.health a ≡ true)
unfolding ordered
ordered-is_ready a [] now p = (λ m. elim m [ ], λ m. m.0)
ordered-is_ready a (b ∷ bs) now p =
    let r = rotated p.cursor (b ∷ bs) in
    let (found, health) = eligible now p.health r in
    let sorted = Elem-sort_stable (comes_before now health) a found in
    let turned = Elem-rotated a p.cursor (b ∷ bs) in
    (
      λ m. let (m', ready) = eligible-ready now p.health a r (sorted.0 m) in (turned.0 m', ready),
      λ h. sorted.1 (eligible_of_ready now p.health a r (turned.1 h.0) h.1),
    )

-- When a call of `ordered` returns an endpoint that has failed before, the next call, if it comes
-- within five seconds and nothing else has changed the pool, does not return it, whatever its
-- addresses.
pub ordered_exclusive :
    (a : Bytes) (bs cs : List Bytes) (now later : ℕ) (p : UpstreamPool) (state : EndpointState)
    → lookup a p.health ≡ some state
    → Elem a (ordered bs now p).0
    → later < now + 5 * second
    → ¬ Elem a (ordered cs later (ordered bs now p).1).0
unfolding ordered is_ready
ordered_exclusive a [] cs now later p state e m soon = λ m'. elim m [ ]
ordered_exclusive a (b ∷ bs) cs now later p state e m soon = λ m'.
    let r = rotated p.cursor (b ∷ bs) in
    let (found, health) = eligible now p.health r in
    let sorted = Elem-sort_stable (comes_before now health) a found in
    let leased_now = eligible-leases now p.health a r state e (sorted.0 m) in
    let again = (ordered-is_ready a cs later (ordered (b ∷ bs) now p).1).0 m' in
    absurd (ground (arith, leased_now, again.1))
