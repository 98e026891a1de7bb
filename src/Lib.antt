-- ===== src/Lib.antt =====
-- TG Proxy Relay: a WebSocket relay that authorizes clients by bearer tokens, dials Telegram's data
-- centres for them and lets an owner manage tokens and devices. This library models the parts of its Go
-- code that carry the program's own logic, and proves what they promise.
--
-- How the parts meet: a client's request is authorized by the control plane (`authorize_client`), gets
-- a place from the session limiter (`reserve`), the addresses of a route from the topology manager
-- (`ensure_route`), a connection to an endpoint of the pool
-- (`dial_telegram_route`), and then exchanges WebSocket frames (`next_event`, `write_frame`); the owner
-- creates and deletes tokens (`create_token`, `delete_token`) and blocks devices (`set_device_blocked`),
-- which closes their sessions.
--
-- WebSocket (internal/relay/websocket.go). `Frame` has readClientFrame as a reader of the bytes still to
-- come, `Events` clientFrameReader and nextEvent, `Write` writeFrame, writeAll and writeClose over a
-- connection that takes each write as a list of replies says, `Close` validateClosePayload
-- (`Close/Utf8` is UTF-8 as RFC 3629 has it). `Spec` is
-- the wire format of RFC 6455, written independently of the code. nextEvent's loop runs on fuel: each
-- round reads a frame of six bytes at least, so more fuel than bytes is enough.
--
-- Sessions (internal/relay/upstream_pool.go): sessionLimiter and sessionReservation. A reservation is a
-- shared object in a store, a handle its place there, and a history a sequence of calls.
--
-- Upstreams (internal/relay/upstream_pool.go): upstreamPool and, in `Dial`, dialTelegramRoute. A time is
-- a number of nanoseconds. The dials of a wave run at the same time; the order in which their results
-- are seen, and the end of the request, is an explicit list of arrivals; `Dial/Accounts` counts the
-- connections.
--
-- Config (internal/config/config.go): `Tokens` and `Validation` have TokenHash, normalizeHash,
-- StableTokenID, validateTokens and authorizeToken, `Endpoints` the addresses of a route, `Net`
-- IsSafeTelegramIP and validateTelegramAddress with the predicates of Go's net.IP, `Options` validateDCMap
-- and ValidateTelegramDCOptions. `Accepted`, `Tokens/WellFormed`,
-- `Routes`, `Order`, `Public` and `Net/Reserved` are proofs.
--
-- Topology (internal/topology/bundle.go, internal/relay/topology_manager.go): `Bundle` has Verify and
-- Sign, `Manager` the topologyManager, `Manager/History` the histories of refreshes, requests for routes
-- and restarts, `Dcs` configuredDCs and the wait between refreshes, `Source` dialSafeTopologySource. The
-- JSON codec, base64, ed25519 and time.Parse are fields of `Bundle.Library`; what the network and the
-- file system answer is part of an event.
--
-- Control (internal/relay/control_plane.go): `Sanitize` the cleaning of input, `State` controlPlane, the
-- tokens in force and the writes of the state file, of which `Disk` says what they leave, `Tokens` authorizeClient, createToken and
-- deleteToken, `Devices` the identities of devices, setDeviceBlocked, disconnectDevice and the merging of
-- a device into its new identity, `Register` registerSession, the pruning of clients and the release of a
-- session, `Load` load and validateStateAgainstConfig. A method that holds the lock is one function from state to state;
-- time, randomness and what the calls on files return are arguments; an error is a value; a Go map is
-- an association list, and a session's closer is named by the session.
--
-- Handler (internal/relay/websocket.go): handleWebSocket as a function of the request, the state and what
-- the topology, the dial and the connections give; its effects on connections are a list of actions.
--
-- Numbers are native naturals; a Go string is the list of its bytes, with white space and characters
-- read by UTF-8. `Platform` holds the functions of Go's library that are parameters: strings.ToLower,
-- strings.EqualFold, sha256, base64. A file is what was last written to it; on Windows it is
-- removed before the rename of the new one, elsewhere the rename replaces it.
--
-- Not modelled: the bridge, the owner's handlers and the server around net/http, the lookup of
-- locations and clientRemoteIP, shutdown, loading of the configuration, the topologies' random factor of
-- the wait and their log texts, the commands.
mod Prelude
pub mod Platform
pub mod WebSocket
pub mod Sessions
pub mod Upstreams
pub mod Config
pub mod Topology
pub mod Control
pub mod Handler
mod Tests
