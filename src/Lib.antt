-- ===== src/Lib.antt =====
-- wa-rs (the waxum gateway), a multi-session WhatsApp HTTP gateway in Rust.
--
-- The verified parts are the blast (bulk-send) feature, scheduled sends, the guard against requests to internal
-- addresses, and the state behind webhook delivery. The blast feature is verified from the
-- request to the last recipient: a request creates a job and a row for each recipient; one
-- background worker claims the oldest due job, sends to its pending recipients in batches, and
-- closes the job; handlers list, cancel and retry jobs while the worker runs. A send with a time in the future is
-- parked in a table; a dispatcher claims the due rows, replays each through the same send, and
-- settles it, while handlers list and cancel parked messages.
--
-- Files:
--   Common.antt         shared names, tests, lists, results, texts
--   Effect.antt         awaited statements on a shared store, what other tasks do between them, and
--                       faults; Effect/Keeps.antt, Effect/Triple.antt and Effect/Hoare.antt have the
--                       proof rules
--   Table.antt          the statements that run on any table
--   ApiError.antt       src/error.rs: the errors of the handlers and their status codes
--   Json.antt           JSON values, and the insertion of a key
--   Jid.antt            parse_jid of src/handlers/messages.rs
--   Endpoint.antt       dispatch and validate_body of src/handlers/schedule.rs
--   Blast/Status.antt   src/models/blast.rs: lifecycles, their text, options
--   Blast/Rows.antt, Blast/Statements.antt, Blast/Store.antt
--                       src/db/blast.rs: the tables, the SQL statements, and the functions that await them
--   Blast/Create.antt   create_blast of src/handlers/blast.rs
--   Blast/Manage.antt   the other handlers of src/handlers/blast.rs
--   Blast/Worker.antt   the worker of src/handlers/blast.rs
--   Blast/Steps.antt    the statements as a step relation on the tables, its histories, lifecycles
--                       and counts of running jobs
--   Blast/Interleaving.antt, Blast/Resume.antt, Blast/Retried.antt, Blast/Drain.antt
--                       the tables under interleavings; crashes, cancellation and retry; the end of
--                       the batch loop
--   Scheduled/Status.antt, Scheduled/Store.antt
--                       src/models/schedule.rs and src/db/scheduled.rs: the lifecycle, the table and
--                       its statements
--   Scheduled/Park.antt, Scheduled/Manage.antt, Scheduled/Dispatcher.antt
--                       src/handlers/schedule.rs: the guard of the send handlers, the management
--                       endpoints, and the dispatcher
--   Scheduled/Steps.antt, Scheduled/Sends.antt, Scheduled/Revoked.antt, Scheduled/Lifecycle.antt,
--   Scheduled/Progress.antt, Scheduled/Cancel.antt, Scheduled/Replay.antt
--                       the table and the log under interleavings and faults; cancellations; the
--                       documented lifecycle; a tick alone; the answers of the handlers
--   Webhook.antt        src/state.rs: the circuit breaker of the webhooks, their dead-letter rings, and
--                       the attempts of a delivery
--   Webhook/Event.antt  src/models/webhooks.rs: the events, their text and the filter
--   Webhook/Registry.antt
--                       src/state.rs, src/handlers/webhooks.rs and src/db/session.rs: the registered
--                       webhooks, what a delivery leaves behind, and the re-enabling of a row
--   Webhook/Registry/History.antt, Webhook/Registry/Breaker.antt, Webhook/Registry/Opened.antt
--                       the breaker's answers over deliveries that conclude one after another
--   Webhook/Replay.antt src/handlers/webhooks.rs: the replay of a dead-lettered delivery
--   Session.antt, Session/Watchdog.antt
--                       src/state.rs, src/models/sessions.rs and src/handlers/sessions.rs: the state of
--                       a live session, the lifecycle events and the reconnect watchdog on it
--   Session/Logouts.antt, Session/Cooldown.antt, Session/Watchdog/Paused.antt
--                       the purge after logouts, the pauses after account locks
--   Tags.antt           src/state.rs: the tags of the sessions
--   Auth/Store.antt, Auth/Tokens.antt
--                       src/db/tokens.rs and src/handlers/tokens.rs: the tables of the minted tokens,
--                       and the endpoints that mint, list and revoke them
--   Auth/Segments.antt, Auth/Paths.antt, Auth/Middleware.antt
--                       src/middleware/jwt.rs, and is_console_path of src/console/mod.rs
--   Auth/Steps.antt, Auth/Access.antt, Auth/Minted.antt, Auth/Revoked.antt
--                       the tables under interleavings; who passes the middleware, with a minted and
--                       with a revoked token
--   NetGuard.antt       src/net_guard.rs: the guard against requests to internal addresses
--
-- How the code is read. A task is a function from a world (the tables, the number of queries
-- made, the log of outside acts) to a result and a world. Each awaited statement is one query;
-- before it the environment applies whatever other tasks did meanwhile, and it may make the query
-- fail, which leaves the tables alone and ends the task as `?` does. Statuses are texts, as in
-- the tables, and are compared as texts. Timestamps are whole seconds, as the stored text has
-- them. Counters are natural numbers: they stay far below the bounds of i64. Instants of the
-- circuits are whole seconds, too. The batch loop of the worker takes fuel, one unit for each
-- turn; the attempts left of the pending rows, and one more for each, bound the turns.
--
-- Parameters: the JSON parser and printer, the reader of stored options, the request types with
-- serde's readers, the execute functions that reach the network, the Jid type with its parser and
-- printer, the fresh ids, the random part of a pause, the URL parser, the name
-- lookup, the answers to webhook requests, the JWT library, the environment's SUPERADMIN_TOKEN.
--
-- Not modelled: the HTTP layer, the drivers of the three databases, the endless ticker around a
-- tick, and the parts of the gateway that forward requests to the WhatsApp client library.
pub mod Common
pub mod ApiError
pub mod Jid
pub mod Json
pub mod Endpoint
pub mod Effect
pub mod Table
pub mod NetGuard
pub mod Webhook
pub mod Session
pub mod Tags
pub mod Auth
pub mod Blast
pub mod Scheduled
