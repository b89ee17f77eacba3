-- ===== src/Lib.antt =====
-- A model of ement-e2ee, a proxy between the Matrix client ement and a homeserver that encrypts
-- and decrypts on the client's behalf, with the theorems that make its core correct.
--
-- A request is classified (src/proxy/routes.rs, Proxy.Routes) and goes to a handler with the
-- session of its token (src/proxy/mod.rs, Proxy.Handle). Sessions are made on demand
-- (src/session.rs, Session.Manager), with the homeserver asked for the keys that it publishes for
-- the device (src/crypto/device.rs, Session.Device) and a store directory of its own
-- (Session.Paths). A sync response first feeds the OlmMachine (src/crypto/sync.rs, Sync.Seen and
-- Sync.Receive), which notes room keys for the repair queue (src/crypto/repair.rs, Repair.Queue)
-- and ended verifications (src/crypto/verify.rs, Verify.Log and Verify.Stage); its state events
-- say which rooms are encrypted (src/crypto/rooms.rs, Rooms.Tracker, Rooms.Settings and
-- Rooms.Encryption); Sync.Handle is the handler around this. A send asks that, and encrypts or
-- passes on (src/crypto/encrypt.rs, Encrypt.Content and Encrypt.Send). A login continues the
-- device whose store is here (src/crypto/device.rs, Login.Stores and Login.Plan;
-- src/proxy/login.rs, Login.Sent). What the homeserver answers is decrypted on its way to the client
-- (src/crypto/decrypt.rs, Decrypt.Event and Decrypt.Bodies; src/proxy/intercept.rs, Proxy.History),
-- with a placeholder (Decrypt.Placeholder) and a key request (Decrypt.KeyRequests) where that fails;
-- a placeholder is repaired in a later sync by an edit (src/crypto/repair.rs, Repair.Synthetic and
-- Repair.Inject, which also has process_sync_body). Attachments are sealed and opened by
-- src/crypto/media.rs (Media.Rewrite for the messages, Media.Transfer for the files). The
-- OlmMachine's own requests go out through src/crypto/machine.rs (Machine.Requests, Machine.Pump),
-- its verification messages through src/crypto/encrypt.rs (Encrypt.RoomMessage). Everything else is
-- passed through (src/proxy/passthrough.rs, Proxy.Passthrough). src/config.rs is Config.Load and
-- Config.Endpoint. Log lines are kept for the diagnosis (src/logbuf.rs, Logbuf), whose health
-- checks and whose report on an event are src/admin/diagnose.rs (the Diagnose modules). The admin
-- API is src/admin/mod.rs (Admin.Params, Admin.Route, Admin.Handle and Admin.Keys), and the queries
-- of its client are in src/admin/debug.rs and src/admin/ctl.rs (Admin.Query).
-- The modules named Laws, and those named for what they prove, hold the theorems; Examples holds
-- concrete parameters and runs.
--
-- How code becomes definitions. The contents of a lock are a record, and an operation is a
-- function from the record to the new one and its result. A HashMap is an association list
-- (Prelude.Map), a HashSet and a VecDeque are lists, text is the list of its scalar values
-- (Prelude.Str). An async function is one step, but is_room_encrypted is also given in its two
-- parts, before and after its request, so that other steps can come between them. An error is a
-- value; its message is left out. Loops are structural recursion on the list that they walk, but for
-- the pump's loop over the OlmMachine's queue (Machine.Pump.drain), which runs on fuel, since the
-- source bounds it by nothing: a machine that lists a new request whenever one is sent keeps it
-- going, so no amount is enough for every machine. An index assignment of serde_json that panics is
-- a value too (Json.assign). Counters are natural numbers: u64 counters that count events do not
-- wrap in the lifetime of the process. Times are numbers, from the clock that the source reads.
--
-- What is not in the repository is a parameter: JSON values with their views (Json), the calls of
-- matrix-sdk-crypto and ruma (Sdk, Sync.Receive.SyncSdk, Encrypt.Content.Megolm,
-- Decrypt.Event.DecryptSdk, Machine.Requests.Queue, Session.Manager.Host), the cipher and the table
-- of the attachments (Media.Cache.MediaHost), the system under the configuration
-- (Config.Load.System), the directories of the stores, the homeserver (Http), the percent
-- encoding, the keyed hash and the parsers. What the code relies on is a law of the record: a view
-- reads back what its constructor built, and settings that the machine accepted are read back for
-- their room and change no other.
--
-- Not modelled: the composition of the sync handler with the rewriting of its body, backups and
-- secret storage, which are calls of cryptography crates, the status and the inspectors of the
-- admin API but for the health checks and the report on an event, what the command line client
-- prints, the set-up, and all that only logs, prints or streams.
pub mod Prelude
pub mod Sync
pub mod Json
pub mod Repair
pub mod Verify
pub mod Logbuf
pub mod Proxy
pub mod Sdk
pub mod Rooms
pub mod Http
pub mod Session
pub mod Encrypt
pub mod Login
pub mod Media
pub mod Admin
pub mod Config
pub mod Machine
pub mod Diagnose
pub mod Decrypt
pub mod Examples
