-- ===== src/Lib.antt =====
-- ai-wallet, an HTTP service that prepares, simulates, signs, verifies and broadcasts EVM
-- transactions behind HMAC authentication, a policy and an isolated signer, and audits what it does.
--
-- How a request goes: `build_state` (src/lib.rs) builds the shared state from the environment;
-- the router (src/api.rs) sends a request through `auth_middleware` (src/auth.rs), if its route stands
-- under that layer, to its handler; the handler calls the functions of src/service.rs and the broadcast
-- service of src/broadcast.rs, which call the policy, the signer, the simulator and the audit. The
-- remote signer (src/signer_rpc.rs) is a client of a worker that runs the dev signer, in a process
-- of its own (src/bin/signer-worker.rs).
--
-- Files and the code that they are about:
--   Prelude, Number: the standard library's Result, text, integers, parsing and printing of numbers
--   Crates, Crates/Laws: the third-party crates, as a record of types and operations, and what the
--     theorems assume of them by name (hex, ethers-core, ethers-signers, http, base64); Audit/Stored
--     has what is assumed of the SQL statements
--   Error: src/error.rs          Model: src/model.rs        Config: src/config.rs
--   Fields: `parse_address`, `parse_u256` and `parse_bytes_hex` of src/service.rs
--   Policy: `PolicyEngine` of src/service.rs; Policy/Decision has its specification
--   Signer: `MockSigner` and `LocalDevSigner` of src/service.rs; Signer/Remote and Signer/Tls:
--     src/signer_rpc.rs, the RPC with its worker and the set-up of TLS; Signer/Worker: the worker's
--     router and its process, src/bin/signer-worker.rs
--   Verify, Transfer, Simulator: the functions and traits of these names in src/service.rs
--   Intent: `handle_sign_intent` and `simulate_transaction` of src/service.rs
--   Audit: src/audit.rs          Auth: src/auth.rs; Auth/Client: a client, as its test plays one
--   Broadcast: src/broadcast.rs, as a step relation in Broadcast/Steps
--   Api: src/api.rs, with the store of all that requests change; its types stand in Api/Types and its table of
--     routes in Api/Router
--   System: a server that runs, handlers, spawned tasks and the broadcast worker interleaved; the worker
--     submits the job it holds, whatever the RPC answers; System/Departures adds callers that disconnect, and
--     System/Sound and System/Settles are about the broadcasts of that server
--   Boot: `build_state` and, in Boot/App, `build_app` of src/lib.rs; Boot/App/Life: requests at that app with
--     the worker and the audit tasks, as a run of System; Boot/Told: `/v1/info` of a state that was built;
--     Boot/Server: the server's process, src/main.rs
--   Tests: the unit tests of src/service.rs, src/auth.rs and src/broadcast.rs, over any crates
--   Examples: the theorems at concrete inputs, over a small instance of the crates
--
-- State and operations: a handler takes the store (the audit's state, the broadcast service, the audit
-- tasks that are spawned and have not run) and gives the answer with the new store. An id, a time and
-- the answer of the channel that a call draws are its arguments. The operations of the broadcast
-- service each run under its lock, so an interleaving of callers and worker is a sequence of steps.
-- System has the same for the whole server: a step is a call of a handler, one of the three parts of
-- the broadcast endpoint, an operation of the worker with its audit record or the run of a spawned
-- task, and the state bears a history of what was answered and settled.
-- `Result` with do blocks stands for `?`.
--
-- Bounds: u64, i64 and u128 are native numbers and ℤ with their bounds written out. The gas estimate
-- and the freshness test wrap as a release build does; a debug build panics there instead. The one
-- function on fuel prints a number in decimal, on fuel that exceeds the number; the proof that every job
-- of the broadcast service can finish counts three steps at most for each.
--
-- Not modelled: which route fits a path and the extraction of arguments, axum's, serde's JSON form,
-- tokio's scheduling and the time a call waits, an interleaving inside a step of System or a
-- disconnection inside it (a simulation whose caller leaves may have its row in the table and no answer),
-- the text of SQL statements, what the CORS and tracing layers
-- of `build_app` do, and in the two binaries the set-up of tracing and the shutdown signal, which only
-- call libraries. SHA-256, secp256k1, RLP, ABI and TLS are the crates'.
pub mod Prelude
pub mod Number
pub mod Crates
pub mod Error
pub mod Model
pub mod Fields
pub mod Policy
pub mod Signer
pub mod Verify
pub mod Transfer
pub mod Simulator
pub mod Audit
pub mod Broadcast
pub mod Config
pub mod Auth
pub mod Intent
pub mod Api
pub mod System
pub mod Boot
mod Tests
mod Examples
