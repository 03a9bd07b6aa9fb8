-- ===== src/Lib.antt =====
-- codex-api is a relay between clients of the OpenAI API and a Codex upstream. A request is
-- authenticated against the configuration, admitted by the store (weekly quota, fallback model), sent
-- upstream by the HTTP API or by a WebSocket session, and finalized in the store with the usage that
-- its terminal event reports.
--
-- Common: tests on numbers, lists, options, integers, strings and results.
-- Json: the interface to the crate serde_json (Json/Access: the accessors of `Value`), with its laws
--   as named fields; Json/Plain is a concrete instance.
-- Terminal: src/responses_terminal.rs, `parse_terminal_payload` with the usage of an event, and the
--   rewrite of capacity failures (Capacity). What the source marks as unreachable is an error value
--   of its own, and a panic of the rewrite is `none`.
-- Store: src/store.rs and migrations/0001_store.sql (Requests and Finalize have the operations on
--   requests, Saved those on credentials). The ledger is the list of rows in the order of
--   insertion with the next key; an operation takes the instant that the clock answers, whether the
--   database answers a read and accepts a write, and what other tasks commit in between, and returns
--   its result with the ledger. Decimals and Times are the interfaces to the crates rust_decimal and
--   time, with the documented laws as fields; Store/Plain has instances. Integers that the schema
--   keeps from being negative are natural numbers, and the 64-bit range checks are written out.
-- Sessions: src/http_api/responses_session.rs, the cache of sessions under its lock. Cache has the
--   operations, with the eviction loop of `ready` on fuel (the number of entries, and each round
--   removes one); System adds the turns in flight, and one constructor of Reach for each way in which
--   requests, actors and timers touch the cache. Actor and Respond have the session behind an entry:
--   the preparation of a turn and the answer to a job, where Peer and Meets are what the upstream and
--   the runtime do; Talk has the turns of one session, and what the upstream holds on the connection
--   of the session.
-- Sse: src/sse.rs, the validation of one record of the stream and the step of the reader.
-- Errors: src/error.rs, the errors with their JSON bodies.
-- Pending: src/http_api/request.rs, the handle that finalizes an admitted request once. A panic is
--   `none`, and a spawned task runs to its end.
-- Config: src/config.rs, validation (Validate), the fields deserialized by hand (Keys) and the model
--   that a request gets (Models). Urls is the interface to the crate url.
-- Http: src/http_api.rs. Responses has the handler of a Responses request up to the turn that it hands
--   to a session, Normalize its normalization; Relay is the relay of the upstream's socket and
--   ChatRelay that of a chat completion, functions of what the upstream yields in each round.
-- Ws: src/ws.rs. Prepare has the validation of a message, Session and Handlers the handlers of a
--   session, its ends and its loop, a function of the rounds. A round has its event and what the
--   handler meets: the two calls of the store, whether the sockets take what is sent, the upstream's
--   model and the answer to a warmup. A panic is `none`.
-- Upstream: src/upstream_headers.rs (Passthrough), src/upstream_ws.rs (Lite and Warmup, the warmup and
--   its answer, and Attempts) and src/upstream_http.rs (Attempts and Models). One request and one
--   handshake are parameters; a call returns the credentials that it tried with its result.
-- Auth: src/auth.rs, with Headers as the interface to the crate http; Auth/Plain is an instance.
-- Credentials: src/credentials.rs. Refresh has the decisions that the manager takes under its locks,
--   System the requests and refresh tasks in any interleaving; what the crates decode from tokens,
--   and what they allow in headers, is a parameter. Generations wrap at 2^64, and the runs have fewer
--   refreshes than that.
-- Chat: src/chat.rs, the conversion of a request (Request), the stream converter (Stream) and the
--   conversion of a terminal event (Output, Terminal). An operation of the stream converter returns
--   the converter too, since an error leaves the metadata that was read before it.
--
-- Not modelled: network and process setup (src/main.rs, src/lib.rs, src/state.rs) and logging, which
-- are I/O; the tables that src/cli.rs prints; of src/http_api.rs the handlers of chat completions, of
-- the model list and of images, which send what the modelled parts make; of src/credentials.rs the
-- reading of the seed file and the wait for a refresh; of src/store.rs opening and migrating the
-- database. In a session's turn, an interrupted relay is taken to stop before the terminal event.
pub mod Common
pub mod Json
pub mod Terminal
pub mod Store
pub mod Sessions
pub mod Sse
pub mod Errors
pub mod Http
pub mod Pending
pub mod Config
pub mod Auth
pub mod Credentials
pub mod Chat
pub mod Ws
pub mod Upstream
