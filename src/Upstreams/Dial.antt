-- ===== src/Upstreams/Dial.antt =====
-- Dialling a route (internal/relay/upstream_pool.go, `dialTelegramRoute`, `dialEndpointWave` and
-- `closeLateEndpointConnections`). The dials of a wave run at the same time: the order in which
-- the wave's loop sees their results, and where it sees that the request has ended, is an explicit
-- list. A connection is named by its address.
pub mod Accounts
use tg_proxy_relay.Prelude.{
  ℕ, zero, suc, Bool, true, false, ◌||◌, List, [], ◌∷◌, ◌++◌, nat_eq, bytes_eq, Bytes, Option, none,
  some, arith,
}
use tg_proxy_relay.Upstreams.{UpstreamPool, succeeded, failed, ordered}

-- How a dial ends: with a connection; with one after the context has ended; or with an error. The
-- flags say whether the error is context.Canceled, which a deadline is not.
pub data DialEnd : Type 0 where
  connected : DialEnd
  connected_late dial_failed : Bool → DialEnd

-- `parent_done` is the end of the request, a `result` what a dial of the wave puts into the channel:
-- its address, the time, and how the dial ended.
pub data Arrival : Type 0 where
  parent_done : Arrival
  result : Bytes → ℕ → DialEnd → Arrival

-- `endpointDialResult`: a connection, or an error with whether it is context.Canceled.
pub data DialResult : Type 0 where
  connection error_canceled error_other : DialResult

error_of : Bool → DialResult
error_of true = error_canceled
error_of false = error_other

-- The end of a dial's goroutine: it closes a connection that came too late itself.
dial_result : DialEnd → DialResult
unfolding error_of
dial_result connected = connection
dial_result (connected_late canceled) = error_of canceled
dial_result (dial_failed canceled) = error_of canceled

-- The connection that is returned, the addresses whose dials failed, whether the request has
-- ended, the connections that the cleanup closes, and the pool.
pub record Wave : Type 0 where
  pub connection : Option Bytes
  pub failures : List Bytes
  pub ended : Bool
  pub closed : List Bytes
  pub pool : UpstreamPool

-- How many dials send their result.
abbrev pub results : List Arrival → ℕ
results [] = 0
results (parent_done ∷ rest) = results rest
results (result a now d ∷ rest) = suc (results rest)

-- The connections that the dials open, and those that they close themselves.
abbrev pub opened_in : List Arrival → List Bytes
opened_in [] = []
opened_in (parent_done ∷ rest) = opened_in rest
opened_in (result a now connected ∷ rest) = a ∷ opened_in rest
opened_in (result a now (connected_late canceled) ∷ rest) = a ∷ opened_in rest
opened_in (result a now (dial_failed canceled) ∷ rest) = opened_in rest

abbrev pub closed_in : List Arrival → List Bytes
closed_in [] = []
closed_in (parent_done ∷ rest) = closed_in rest
closed_in (result a now connected ∷ rest) = closed_in rest
closed_in (result a now (connected_late canceled) ∷ rest) = a ∷ closed_in rest
closed_in (result a now (dial_failed canceled) ∷ rest) = closed_in rest

-- `closeLateEndpointConnections`: `count` results are taken and their connections closed.
unfoldable pub close_late : ℕ → List Arrival → List Bytes
unfolding dial_result
close_late zero arrivals = []
close_late (suc count) [] = []
close_late (suc count) (parent_done ∷ rest) = close_late (suc count) rest
close_late (suc count) (result a now d ∷ rest) = elim (dial_result d) [
  | connection ↦ a ∷ close_late count rest
  | _ ↦ close_late count rest
]

-- The loop over the results, with how many are still to be received. It would wait forever where
-- there is none; every dial sends one.
unfoldable pub dial_endpoint_wave : ℕ → List Arrival → List Bytes → UpstreamPool → Wave
unfolding dial_result
dial_endpoint_wave zero arrivals failures p = record {
  connection = none;
  failures = failures;
  ended = false;
  closed = [];
  pool = p;
}
dial_endpoint_wave (suc left) [] failures p = record {
  connection = none;
  failures = failures;
  ended = false;
  closed = [];
  pool = p;
}
dial_endpoint_wave (suc left) (parent_done ∷ rest) failures p = record {
  connection = none;
  failures = failures;
  ended = true;
  closed = close_late (suc left) rest;
  pool = p;
}
dial_endpoint_wave (suc left) (result a now d ∷ rest) failures p = elim (dial_result d) [
  | connection ↦ record {
    connection = some a;
    failures = failures;
    ended = false;
    closed = close_late left rest;
    pool = succeeded a p;
  }
  | error_other ↦ dial_endpoint_wave left rest (failures ++ a ∷ []) (failed a now p)
  | error_canceled ↦ dial_endpoint_wave left rest failures p
]

pub data Dialed : Type 0 where
  dialed : Bytes → Dialed
  unknown_dc : Dialed
  cooling_down : Dialed
  request_ended : Dialed
  all_failed : List Bytes → Dialed

pub record Route : Type 0 where
  pub answer : Dialed
  pub opened : List Bytes
  pub closed : List Bytes
  pub pool : UpstreamPool

-- What the network does with a wave, and whether the request has ended after it.
pub record Network : Type 0 where
  pub arrivals : List Bytes → List Arrival
  pub ended_after : List Bytes → Bool

-- After a wave: its connection, the end of the request, or the next waves.
after_wave : List Arrival → Bool → Wave → List Bytes → (List Bytes → UpstreamPool → Route) → Route
after_wave arrivals ended w failures next = elim w.connection [
  | some a ↦ record {
    answer = dialed a;
    opened = opened_in arrivals;
    closed = w.closed ++ closed_in arrivals;
    pool = w.pool;
  }
  | none ↦ elim (w.ended || ended) [
    | true ↦ record {
      answer = request_ended;
      opened = opened_in arrivals;
      closed = w.closed ++ closed_in arrivals;
      pool = w.pool;
    }
    | false ↦
        let r = next (failures ++ w.failures) w.pool in
        record r {
          opened = opened_in arrivals ++ r.opened;
          closed = (w.closed ++ closed_in arrivals) ++ r.closed;
        }
  ]
]

-- The loop over the waves, three addresses each.
unfoldable pub dial_waves : Network → List Bytes → List Bytes → UpstreamPool → Route
unfolding after_wave
dial_waves net [] failures p = record {
  answer = all_failed failures;
  opened = [];
  closed = [];
  pool = p;
}
dial_waves net (a ∷ []) failures p =
    let wave = a ∷ [] in
    after_wave (net.arrivals wave) (net.ended_after wave)
      (dial_endpoint_wave 1 (net.arrivals wave) [] p) failures (dial_waves net [])
dial_waves net (a ∷ b ∷ []) failures p =
    let wave = a ∷ b ∷ [] in
    after_wave (net.arrivals wave) (net.ended_after wave)
      (dial_endpoint_wave 2 (net.arrivals wave) [] p) failures (dial_waves net [])
dial_waves net (a ∷ b ∷ c ∷ rest) failures p =
    let wave = a ∷ b ∷ c ∷ [] in
    after_wave (net.arrivals wave) (net.ended_after wave)
      (dial_endpoint_wave 3 (net.arrivals wave) [] p) failures (dial_waves net rest)

-- What `ordered` leaves to be tried.
dial_ordered : Network → List Bytes → UpstreamPool → Route
unfolding dial_waves
dial_ordered net [] p = record { answer = cooling_down; opened = []; closed = []; pool = p }
dial_ordered net (a ∷ rest) p = dial_waves net (a ∷ rest) [] p

-- The addresses of the route come from the topology.
unfoldable pub dial_telegram_route : Network → List Bytes → ℕ → UpstreamPool → Route
unfolding dial_ordered
dial_telegram_route net [] now p = record {
  answer = unknown_dc;
  opened = [];
  closed = [];
  pool = p;
}
dial_telegram_route net (a ∷ rest) now p =
    let (found, q) = ordered (a ∷ rest) now p in dial_ordered net found q

abbrev pub answered : Dialed → List Bytes
answered (dialed a) = a ∷ []
answered _ = []

abbrev pub returned : Option Bytes → List Bytes
returned none = []
returned (some a) = a ∷ []
