-- ===== src/Topology/Manager.antt =====
-- The topology manager (internal/relay/topology_manager.go). Its file is `none` when it does not
-- exist; the locks are left out, since each operation below runs under one. A step of the outside is an
-- argument: what the source answers, what the calls on files return, and the clock in nanoseconds.
pub mod Refresh
pub mod Start
pub mod History
pub mod Follows
pub mod Revision
pub mod Safe
pub mod OnDemand
pub mod Recovery
use tg_proxy_relay.Prelude.{
  ℕ, ◌+◌, ◌-◌, ◌*◌, ◌^◌, ◌≤◌, Bool, true, false, not, ◌||◌, ◌&&◌, List, [], ◌∷◌, ◌++◌, ltb, leb,
  ◌==◌, nat_eq, bytes_eq, if◌then◌else◌, Bytes, length, Option, none, some, min,
}
use tg_proxy_relay.Prelude.Maps.{Map}
use tg_proxy_relay.Prelude.Text.{trim_space}
use tg_proxy_relay.Config.Net.{Ip, is_safe_telegram_ip, trim_brackets}
use tg_proxy_relay.Config.Endpoints.{TelegramEndpoint, TelegramConfig, topology_addresses}
use tg_proxy_relay.Topology.Bundle.{
  second, max_bundle_bytes, Snapshot, Library, Verified, rejected, accepted, verify,
}

pub record TopologyConfig : Type 0 where
  pub url : Bytes
  pub public_key : Bytes
  pub state_path : Bytes
  pub refresh_interval_sec : ℕ

pub record TopologyManager : Type 0 where
  -- `none` is the zero time
  pub last_on_demand : Option ℕ
  pub base : TelegramConfig
  pub remote : TopologyConfig
  pub public_key : Bytes
  pub current : Option Snapshot
  -- whether `client` is not nil
  pub has_client : Bool

-- What the system calls of `persist_topology_snapshot` return, `true` for no error. `removed` is
-- `true` too when there was no file.
pub record FileCalls : Type 0 where
  pub directory_made : Bool
  pub temporary_made : Bool
  pub mode_set : Bool
  pub written : Bool
  pub synced : Bool
  pub closed : Bool
  pub removed : Bool
  pub renamed : Bool
  pub directory_opened : Bool
  pub directory_synced : Bool

-- The file afterwards, and whether the error is nil.
unfoldable pub persist_topology_snapshot :
    Bool → FileCalls → Option Bytes → Bytes → Option Bytes × Bool
persist_topology_snapshot windows calls file bytes =
    if not (
      calls.directory_made && calls.temporary_made && calls.mode_set && calls.written
      && calls.synced && calls.closed)
    then (file, false)
    else if windows && not calls.removed
    then (file, false)
    else if not calls.renamed
    then ((if windows then none else file), false)
    else if not windows && calls.directory_opened
    then (some bytes, calls.directory_synced)
    else (some bytes, true)

-- One answer of the source: the status and the body, of which at most 1 MiB and a byte is read;
-- `none` when reading fails.
pub record Response : Type 0 where
  pub status : ℕ
  pub body : Option Bytes

pub record Fetch : Type 0 where
  -- whether the caller's context is done
  pub cancelled : Bool
  -- whether the request can be made
  pub requested : Bool
  pub response : Option Response
  pub now : ℕ
  pub files : FileCalls

pub record Refreshed : Type 0 where
  pub manager : TopologyManager
  pub file : Option Bytes
  pub ok : Bool

-- os.ReadFile
pub data FileRead : Type 0 where
  missing failed : FileRead
  content : Bytes → FileRead

unfoldable pub with_current : TopologyManager → Snapshot → TopologyManager
with_current m s = record {
  last_on_demand = m.last_on_demand;
  base = m.base;
  remote = m.remote;
  public_key = m.public_key;
  current = some s;
  has_client = m.has_client;
}

-- No snapshot yet, or one of an earlier generation.
unfoldable pub is_newer : Snapshot → Option Snapshot → Bool
is_newer s none = true
is_newer s (some current) = ltb current.generation s.generation

-- The routes of the snapshot that the manager follows.
unfoldable pub routes_of :
    Option Snapshot → Option (Map ℕ (List TelegramEndpoint) × Map ℕ (List TelegramEndpoint))
routes_of none = none
routes_of (some s) = some (s.production, s.test)

unfoldable pub revision : TopologyManager → ℕ
revision m = elim m.current [ none ↦ 0 | some s ↦ s.generation ]

unfoldable pub dynamic : TopologyManager → Bool
dynamic m = not (trim_space m.remote.url == [])

pub record Ensured : Type 0 where
  pub found : List Bytes
  pub manager : TopologyManager
  pub file : Option Bytes
  -- whether `refresh` was called
  pub refreshed : Bool

-- The cooldown of 30 seconds is not over.
unfoldable pub in_cooldown : Option ℕ → ℕ → Bool
in_cooldown none now = false
in_cooldown (some last) now = ltb now (last + 30 * second)

unfoldable pub with_last_on_demand : TopologyManager → ℕ → TopologyManager
with_last_on_demand m now = record {
  last_on_demand = some now;
  base = m.base;
  remote = m.remote;
  public_key = m.public_key;
  current = m.current;
  has_client = m.has_client;
}

module _ (lib : Library) where
  unfoldable pub decode_topology_public_key : Bytes → Option Bytes
  decode_topology_public_key value =
      let decoded : Option Bytes = elim (lib.raw_std_decode (trim_space value)) [
        | some key ↦ some key
        | none ↦ lib.std_decode (trim_space value)
      ] in
      elim decoded [ none ↦ none | some key ↦ if length key == 32 then some key else none ]

  -- `none` is an error.
  unfoldable pub new_topology_manager :
      TelegramConfig → TopologyConfig → FileRead → ℕ → Option TopologyManager
  new_topology_manager base remote read now =
      let manager : Bytes → Bool → Option Snapshot → TopologyManager = λ key has_client current.
        record {
          last_on_demand = none;
          base = base;
          remote = remote;
          public_key = key;
          current = current;
          has_client = has_client;
        } in
      if trim_space remote.url == []
      then some (manager [] false none)
      else elim (decode_topology_public_key remote.public_key) [
        | none ↦ none
        | some key ↦ elim read [
          | missing ↦ some (manager key true none)
          | failed ↦ none
          | content bytes ↦ elim (verify lib bytes key now true) [
            | rejected e ↦ none
            | accepted s ↦ some (manager key true (some s))
          ]
        ]
      ]

  unfoldable pub addresses : TopologyManager → ℕ → Bool → Bool → List Bytes
  addresses m dc test media =
      topology_addresses lib.net lib.go (routes_of m.current) m.base dc test media

module _ (lib : Library) (windows : Bool) where
  -- `refresh`, from a body that is read.
  unfoldable pub apply_bundle : Fetch → TopologyManager → Option Bytes → Bytes → Refreshed
  apply_bundle fetch m file bytes =
      let unchanged : Bool → Refreshed = λ ok. record { manager = m; file = file; ok = ok } in
      if ltb max_bundle_bytes (length bytes)
      then unchanged false
      else elim (verify lib bytes m.public_key fetch.now false) [
        | rejected e ↦ unchanged false
        | accepted s ↦
            let (stored, ok) = persist_topology_snapshot windows fetch.files file s.raw in
            if not (is_newer s m.current)
            then unchanged true
            else if not ok
            then record { manager = m; file = stored; ok = false }
            else record { manager = with_current m s; file = stored; ok = true }
      ]

  unfoldable pub refresh : Fetch → TopologyManager → Option Bytes → Refreshed
  refresh fetch m file =
      let unchanged : Refreshed = record { manager = m; file = file; ok = false } in
      if not m.has_client || not (dynamic m) || fetch.cancelled || not fetch.requested
      then unchanged
      else elim fetch.response [
        | none ↦ unchanged
        | some response ↦ if not (response.status == 200) then unchanged else elim response.body [
          | none ↦ unchanged
          | some bytes ↦ apply_bundle fetch m file bytes
        ]
      ]

  -- Between its two looks at the addresses the code waits for other calls, which are steps of their own.
  unfoldable pub ensure_route :
      ℕ → Bool → Bool → ℕ → Fetch → TopologyManager → Option Bytes → Ensured
  ensure_route dc test media now fetch m file =
      let known = addresses lib m dc test media in
      let asked = refresh fetch (with_last_on_demand m now) file in
      if not (length known == 0)
      then record { found = known; manager = m; file = file; refreshed = false }
      else if not (dynamic m)
      then record { found = []; manager = m; file = file; refreshed = false }
      else if in_cooldown m.last_on_demand now
      then record { found = []; manager = m; file = file; refreshed = false }
      else record {
        found = addresses lib asked.manager dc test media;
        manager = asked.manager;
        file = asked.file;
        refreshed = true;
      }
