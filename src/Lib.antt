-- ===== src/Lib.antt =====
-- Verification of mistralrs_proxy: an HTTP reverse proxy that checks clients against its own API keys,
-- spreads requests over inference backends, and records what each request used.
--
-- The program's parts and how they interact. A request is authenticated against the key database
-- (src/keys.rs, src/auth.rs); the router (src/routing.rs) picks a backend, whose circuit breaker must
-- give a permit and whose slot (src/backend.rs) a lease; the response body is read by the usage
-- sniffer (src/usage.rs) on its way out, and the end of the body gives back the permit, or reports a
-- body failure, and drops the lease. Meanwhile workers probe each backend's readiness and scrape its
-- metrics, and an operator drains and reactivates slots through the control plane (src/control.rs), which
-- keeps each slot's mode in a file too (src/backend_state.rs). A fence is the mode
-- that the store has of a backend, active if it has none. A reload of the configuration
-- (src/runtime.rs) brings the slots up to date and restores those modes.
--
-- Which file models what:
--   Prelude            numbers as machine words, text as bytes, maps as association lists, and methods
--                      that return or panic with the state they leave.
--   Backend.Leases     `LeaseKey` and the ordered set of leases of a slot.
--   Backend.Slot       `BackendSlot` of src/backend.rs: `try_acquire`, `set_mode`, `activate`, `disable`,
--                      `begin_drain`, `wait_for_local_zero`, `reconcile_present`, `reconcile_absent`,
--                      `release` and the drop of a lease. `Call`, `step` and `run` are histories.
--   Backend.Registry   `BackendRegistry` of src/backend.rs: `get`, `try_acquire`, `snapshots`, `reconcile` and
--                      `prune_retired`.
--   Usage              `UsageSniffer` of src/usage.rs, byte by byte: `feed`, `feed_byte`, `finish_object`.
--   Routing            the live entry of a backend, `LiveBackend` of src/routing.rs.
--   Routing.Breaker    `Circuit`, `CircuitPermit`, `BodyFailureObserver` and their operations. Its child
--                      Epochs has the interleavings of many requests as a step relation.
--   Routing.Health     probes, scrapes, `counter_rate` and `ensure_backends` of src/routing.rs. Scrapes has
--                      scrapes in any order, and Confirmed one after the other, since a given moment.
--   Routing.Pressure   the score of src/telemetry.rs and `score_candidate` of src/routing.rs.
--   Routing.Select     `select`: the candidates, their order, and the loop that takes a permit and a lease.
--   Routing.Request    the whole of `select`, with the decision that it logs.
--   Routing.Status     `status_snapshot` and `display_state` of src/routing.rs.
--   Routing.Statuses   `statuses` and `status` of src/routing.rs.
--   Keys               digests as hexadecimal text and the shape of a key, of src/keys.rs.
--   Keys.File          the validation of a key file (src/keys.rs) and the index of a store, with
--                      its lookup (src/auth.rs).
--   Keys.Authenticate  `authenticate` of src/auth.rs, on the values of the headers.
--   State              the file of durable modes and its view in memory, of src/backend_state.rs.
--   Control            the control plane of src/control.rs: Drain has `begin_drain` and the task that drives
--                      it, Views what an operator reads, Actions `activate` and `disable`. Requests
--                      has what requests do beside them, also between the check of `disable` and the
--                      closing of its gate; History has all as a step relation; Reload has `reload`.
--   Telemetry          the gauges and counters of src/telemetry.rs; Line parses a line of metrics, and Parse is
--                      `parse_mistralrs_metrics`. `lines`, `trim` and the rest of `str` are in Line.
--   Runtime            the configuration of src/runtime.rs: Config parses and validates the file, and Apply
--                      has `apply_with_modes` and `restore_modes`. Instances has `from_config` and what
--                      others read of the published state.
--   Logs               `Tail::poll` of src/logs.rs, which follows the audit log; `LogFiles` has the outcomes
--                      of its calls of the file system.
-- The modules Tests under Backend, Usage, Routing, Routing.Select, Keys, State, Control, Telemetry, Runtime
-- and Logs have runs of the code and the theorems at concrete inputs.
--
-- Conventions. A method that holds a mutex throughout is one step on the state behind it. `expect`,
-- `assert!`, an index out of range and a checked addition that overflows are the panic outcome, with
-- the state as it is then, since the program goes on with a poisoned mutex. Counters of `u64` and
-- `u32` keep their checked, saturating or wrapping addition. An `Instant` is a number of nanoseconds,
-- which callers pass in; its own overflow is not modelled. `dispatch`, the loop of `select`, starts from
-- any live map and registry, so other requests may run before it; `select` is the case that none does.
-- Maps are association lists whose first entry for a key counts. Text is its bytes, and a digit or a name is compared byte by byte.
--
-- A handler of the control plane holds the lifecycle lock against the others, and is one step, but for
-- `disable`, whose slot is active meanwhile, so that requests may take leases after its check. A panic in
-- a handler is followed no further. The file system is a parameter: of each call, whether it succeeds.
--
-- Code of other packages is a parameter: SHA-256, `serde_json` for the state file, `toml`, `Uri`, `Uuid::new_v4`, `HeaderValue::to_str`, the parser of the captured object (`serde_json`), and `f64`
-- as the records `Float`, `FloatOps` and `MetricFloat` of the operations that the rates, the score and the
-- parser of metrics use. Where the
-- order of candidates matters, a hypothesis says that `total_cmp` is a total order, as it is documented.
--
-- Loops are structural recursion on their input, so nothing runs on fuel. The wait for a drained slot
-- is one round on the snapshot that it takes; that a round after the last drop succeeds is a theorem.
--
-- Not modelled: the HTTP layer and its workers (src/proxy.rs, the second half of src/routing.rs),
-- command line and terminal output (src/main.rs, src/manage.rs, src/backend_manage.rs,
-- src/backend_cli.rs, src/render.rs), the request log (src/logging.rs, src/logs/tui.rs and, in
-- src/logs.rs, the summaries and filters of records),
-- and the registration page (src/register.rs), which are input and output around these parts. Of
-- src/control.rs the socket and the router are not modelled; src/config.rs has options of the
-- command line. The circuit theorems are about one
-- live entry between two changes of its topology generation, which replaces the entry.
pub mod Prelude
pub mod Backend
pub mod Usage
pub mod Routing
pub mod Keys
pub mod State
pub mod Control
pub mod Telemetry
pub mod Runtime
pub mod Logs
