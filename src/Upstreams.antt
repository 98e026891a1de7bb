-- ===== src/Upstreams.antt =====
-- The pool of Telegram endpoints (internal/relay/upstream_pool.go, `upstreamPool`). A time is a
-- number of nanoseconds, and the zero time is 0.
pub mod Order
pub mod Backoff
pub mod Dial
use tg_proxy_relay.Prelude.{
  ℕ, zero, suc, ◌+◌, ◌-◌, ◌*◌, ◌%◌, ◌^◌, Bool, true, false, not, ◌||◌, ◌&&◌, List, [], ◌∷◌, ◌++◌,
  ltb, leb, ◌==◌, nat_eq, bytes_eq, if◌then◌else◌, Bytes, length, take, drop, Option, none, some,
}
use tg_proxy_relay.Prelude.Maps.{Map, lookup, insert, delete}

-- time.Second
abbrev pub second : ℕ
second = 1_000_000_000

abbrev pub endpoint_race_width : ℕ
endpoint_race_width = 3

pub record EndpointState : Type 0 where
  pub failures : ℕ
  pub retry_at : ℕ
  pub probe_lease_until : ℕ

pub record UpstreamPool : Type 0 where
  pub health : Map Bytes EndpointState
  pub cursor : ℕ

abbrev pub new_upstream_pool : UpstreamPool
new_upstream_pool = record { health = []; cursor = 0 }

abbrev pub no_state : EndpointState
no_state = record { failures = 0; retry_at = 0; probe_lease_until = 0 }

-- `p.health[address]`: the zero state for a missing key.
abbrev pub or_no_state : Option EndpointState → EndpointState
or_no_state none = no_state
or_no_state (some state) = state

abbrev pub cooling : ℕ → EndpointState → Bool
cooling now state = ltb now state.retry_at || ltb now state.probe_lease_until

abbrev pub leased : ℕ → EndpointState → EndpointState
leased now state = record state { probe_lease_until = now + 5 * second }

-- The loop over the rotated addresses: the eligible ones, and the table with their leases.
unfoldable pub eligible :
    ℕ → Map Bytes EndpointState → List Bytes → List Bytes × Map Bytes EndpointState
eligible now health [] = ([], health)
eligible now health (address ∷ rest) = elim (lookup address health) [
  | none ↦ let (found, health') = eligible now health rest in (address ∷ found, health')
  | some state ↦ elim (cooling now state) [
    | true ↦ eligible now health rest
    | false ↦
        let (found, health') = eligible now (insert address (leased now state) health) rest in
        (address ∷ found, health')
  ]
]

-- The comparison of the sort.
unfoldable pub comes_before : ℕ → Map Bytes EndpointState → Bytes → Bytes → Bool
comes_before now health a b =
    let left = (or_no_state (lookup a health)).retry_at in
    let right = (or_no_state (lookup b health)).retry_at in
    let left_ready = left == 0 || not (ltb now left) in
    let right_ready = right == 0 || not (ltb now right) in
    if (left_ready && not right_ready) || (not left_ready && right_ready)
    then left_ready
    else ltb left right

-- `sort.SliceStable`: its result is the one of every stable sort.
unfoldable pub insert_stable : (Bytes → Bytes → Bool) → Bytes → List Bytes → List Bytes
insert_stable less a [] = a ∷ []
insert_stable less a (b ∷ bs) =
    let rest = insert_stable less a bs in if less b a then b ∷ rest else a ∷ b ∷ bs

unfoldable pub sort_stable : (Bytes → Bytes → Bool) → List Bytes → List Bytes
sort_stable less [] = []
sort_stable less (a ∷ bs) = insert_stable less a (sort_stable less bs)

unfoldable pub rotated : ℕ → List Bytes → List Bytes
rotated cursor addresses =
    let start = cursor % length addresses in drop start addresses ++ take start addresses

unfoldable pub ordered : List Bytes → ℕ → UpstreamPool → List Bytes × UpstreamPool
ordered [] now p = ([], p)
ordered (a ∷ bs) now p =
    let (found, health) = eligible now p.health (rotated p.cursor (a ∷ bs)) in
    (
      sort_stable (comes_before now health) found,
      record { health = health; cursor = (p.cursor + 1) % 2 ^ 64 },
    )

unfoldable pub succeeded : Bytes → UpstreamPool → UpstreamPool
succeeded address p = record p { health = delete address p.health }

-- The state after one more failure at the time `now`.
unfoldable pub backed_off : ℕ → EndpointState → EndpointState
backed_off now state =
    let failures = if ltb 6 (state.failures + 1) then 6 else state.failures + 1 in
    record {
      failures = failures;
      retry_at = now + second * 2 ^ (failures - 1);
      probe_lease_until = 0;
    }

unfoldable pub failed : Bytes → ℕ → UpstreamPool → UpstreamPool
failed address now p = record p {
  health = insert address (backed_off now (or_no_state (lookup address p.health))) p.health;
}
