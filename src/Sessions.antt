-- ===== src/Sessions.antt =====
-- The session limiter (internal/relay/upstream_pool.go, `sessionLimiter` and
-- `sessionReservation`). A reservation is a shared object: the store keeps all of them, and a
-- handle is a place in the store. Each method runs under the limiter's lock, so a history is a
-- sequence of calls. The counters are `int`s that never go below 0 (Sessions.Counts), so the
-- subtraction of ℕ is theirs.
pub mod Counts
pub mod Methods
pub mod Undone
use tg_proxy_relay.Prelude.{
  ℕ, zero, suc, ◌+◌, ◌-◌, Bool, true, false, not, ◌||◌, List, [], ◌∷◌, ◌++◌, ltb, leb, ◌==◌, nat_eq,
  bytes_eq, if◌then◌else◌, Bytes, length, get_elem?, set, Option, none, some,
}
use tg_proxy_relay.Prelude.Maps.{Map, lookup, insert, delete}

abbrev pub max_relay_sessions : ℕ
max_relay_sessions = 1024

abbrev pub max_relay_sessions_per_token : ℕ
max_relay_sessions_per_token = 128

abbrev pub max_pending_upstream_dials : ℕ
max_pending_upstream_dials = 128

pub record SessionLimiter : Type 0 where
  pub active : ℕ
  pub pending : ℕ
  pub by_token : Map Bytes ℕ

pub record SessionReservation : Type 0 where
  pub token_id : Bytes
  pub dial_done : Bool
  pub released : Bool

pub record Sessions : Type 0 where
  pub limiter : SessionLimiter
  pub reservations : List SessionReservation

abbrev pub new_session_limiter : Sessions
new_session_limiter = record {
  limiter = record { active = 0; pending = 0; by_token = [] };
  reservations = [];
}

abbrev pub or_zero : Option ℕ → ℕ
or_zero none = 0
or_zero (some n) = n

-- `l.byToken[tokenID]`: 0 for a missing key.
unfoldable pub by_token_of : SessionLimiter → Bytes → ℕ
by_token_of l token_id = or_zero (lookup token_id l.by_token)

-- What `reserve` does once it has passed the limits.
unfoldable pub admit : Bytes → Sessions → Sessions
admit token_id s = record {
  limiter = record {
    active = s.limiter.active + 1;
    pending = s.limiter.pending + 1;
    by_token = insert token_id (by_token_of s.limiter token_id + 1) s.limiter.by_token;
  };
  reservations =
      s.reservations ++ (record { token_id = token_id; dial_done = false; released = false } ∷ []);
}

-- The handle, or none beside the HTTP status of the refusal.
unfoldable pub reserve : Bytes → Sessions → Option ℕ × ℕ × Sessions
reserve token_id s =
    if leb max_pending_upstream_dials s.limiter.pending
    then (none, 503, s)
    else if leb max_relay_sessions s.limiter.active
        || leb max_relay_sessions_per_token (by_token_of s.limiter token_id)
    then (none, 429, s)
    else (some (length s.reservations), 0, admit token_id s)

-- `if !r.dialDone { r.dialDone = true; r.limiter.pending-- }`
unfoldable pub finish_dial : SessionLimiter → SessionReservation → SessionLimiter
finish_dial l r = if r.dial_done then l else record l { pending = l.pending - 1 }

dial_done_on : Sessions → ℕ → Option SessionReservation → Sessions
dial_done_on s i none = s
dial_done_on s i (some r) = record s {
  limiter = finish_dial s.limiter r;
  reservations = set s.reservations i (record r { dial_done = true });
}

-- A nil reservation is a handle that points nowhere.
unfoldable pub upstream_dial_done : ℕ → Sessions → Sessions
unfolding dial_done_on
upstream_dial_done i s = dial_done_on s i (get_elem? s.reservations i)

-- `byToken[tokenID]--`, and the entry goes at 0.
unfoldable pub drop_token : Bytes → SessionLimiter → SessionLimiter
drop_token token_id l =
    let left = by_token_of l token_id - 1 in
    record l {
      active = l.active - 1;
      by_token =
          if leb left 0
          then delete token_id (insert token_id left l.by_token)
          else insert token_id left l.by_token;
    }

release_on : Sessions → ℕ → Option SessionReservation → Sessions
release_on s i none = s
release_on s i (some r) = if r.released then s else record s {
  limiter = drop_token r.token_id (finish_dial s.limiter r);
  reservations = set s.reservations i (record r { dial_done = true; released = true });
}

unfoldable pub release : ℕ → Sessions → Sessions
unfolding release_on
release i s = release_on s i (get_elem? s.reservations i)

pub data Call : Type 0 where
  reserves : Bytes → Call
  dials_done releases : ℕ → Call

unfoldable pub step : Sessions → Call → Sessions
step s (reserves token_id) = (reserve token_id s).2
step s (dials_done i) = upstream_dial_done i s
step s (releases i) = release i s

unfoldable pub run : Sessions → List Call → Sessions
run s [] = s
run s (c ∷ cs) = run (step s c) cs
