-- ===== src/Lib.antt =====
-- A model of the backend of rust-daily, which checks learners' submissions: it validates a
-- request, queues it, runs Cargo on it in a container, and reports the outcome.
--
-- The parts, their files, and how they interact:
--
--  * Model (backend/src/model.rs). Model/Types has the request as it arrives and the narrow types
--    that validation makes of it, Model/Errors `ValidationError`, Model/Limits `ValidationLimits`,
--    Model/Path the path rules (`validate_safe_path`, `validate_path_limits`,
--    `validate_supported_path`, `paths_collide`, the conversions of paths), Model/Cases the
--    compile-fail cases (`validate_compile_fail_cases`, `validate_diagnostic_snippets`),
--    Model/Request the whole conversion `ValidatedRunRequest::try_from`, here `validate`, with
--    `validate_path_tree`, and Model/Deadline `RunDeadline`. A loop of the source is a function
--    over the list (`scan_files`, `scan_cases`, `add_snippets`), with one round of it as a function
--    of its own and the mutable variables in a record; `?` is a do block of `Result`.
--  * CargoOutput (backend/src/cargo_output.rs): classification of a finished Cargo process and the
--    streams that are shown of it. The parser of Cargo's JSON lines is third-party code and a
--    parameter, `cargo_messages`; a message is what the code reads of it.
--  * Runner (backend/src/runner.rs). Runner/Runs has `run_cargo_test` and `run_compile_fail`,
--    Runner.antt what they are made of and the result that `run_inner` publishes; executing a
--    command in the container is a parameter there, `execute`, and a function that makes a result
--    is given the one reading of the clock that it takes. Runner/Capture has the two readers of a
--    command's output (`collect_limited_stream`) over their shared budget, with any order of their
--    turns as a sequence of events; Runner/Podman
--    `execute_podman_command` with the answers of the operating system as values; Runner/Commands
--    the command lines; Runner/Container the container's life (`PodmanContainer`, `run_inner`, and
--    `PodmanLessonRunner::run` as `run_podman_lesson`) as a trace of what is asked of the operating
--    system; Runner/Info and Runner/Startup `find_boolean_field`, `initialize_runtime` and
--    `reap_stale_containers`, where each answer depends on the command line that is run.
--  * Workspace (backend/src/workspace.rs): what `run_inner` puts on disk before the container starts.
--    The file system is an interface, `FileSystem`. Its laws speak of the places that paths lead to,
--    and of paths below a new directory only where these consist of names; Tests/Files has a file
--    system in memory that satisfies them.
--  * Config (backend/src/config.rs): the conversions of raw settings into typed ones. The parsers of
--    URLs and IP addresses are parameters; an `f64` is its sign, mantissa and exponent.
--  * Observability (backend/src/observability.rs): the guard of the metrics endpoint, with the
--    comparison of tokens on machine words, bit by bit, and the labels of the metrics.
--  * DependencySet (backend/src/dependency_set.rs): the Cargo commands and manifests of the dependency
--    sets; the texts of the files that the build includes are arguments.
--  * Service (backend/src/service.rs, backend/src/error.rs, and the handler `run` of
--    backend/src/api.rs): validation before dispatch, and the HTTP errors. Service/Health has
--    `readyz`. The dispatcher, which the queue implements, is a function in `LessonRunService` that
--    may change a state of its own.
--  * Queue (backend/src/queue.rs): the summary, the publisher, `dispatch`, `await_worker_response`,
--    and the reasons of cancellations. Queue/Worker has `worker_loop` and `run_job` as the machine
--    `worker_step`, which goes from one `await` to the next and consumes what Tokio delivers as
--    events: any event may come wherever a worker waits for it. `PoolRun` is any interleaving of
--    the workers' steps, with the effects on the outside in their order.
--  * Text, Order and Collections: the methods of `str`, `String`, `BTreeMap` and `BTreeSet` that the
--    backend calls. A text is a list of code points, and `len` counts its bytes in UTF-8. A map is
--    a list of entries in ascending order of their keys.
--  * Base: shared names, Boolean tests, lists, results, and saturating arithmetic.
--  * Tests: the concrete inputs.
--
-- Bounds: a `usize` is a natural number. `saturating_add` and `saturating_mul` saturate at 2^64 - 1,
-- and the atomic counter of the queue wraps around at 2^64; limits below 2^64 - 1 are assumed where
-- a sum must not saturate (`IsSmall`, and the limit on output). Recursion is structural
-- everywhere but in `digits`, the decimal digits of a number, whose fuel exceeds the number.
--
-- Not modelled: reading the configuration files and the environment (`load_settings`), which is the
-- `config` crate's; recording metrics, logging and start-up (the rest of
-- backend/src/observability.rs, backend/src/server.rs, backend/src/main.rs), which only call other
-- libraries, and of backend/src/runner.rs what only feeds the log (`log_output`,
-- `await_workspace_close`); the texts of the errors and the JSON details of an answer; the ids of
-- jobs and their texts, which are parameters; Tokio's channels, tasks and `select!`, whose results
-- are events; the frontend, the lessons and the deployment files.
pub mod Base
pub mod CargoOutput
pub mod Collections
pub mod Config
pub mod DependencySet
pub mod Model
pub mod Order
pub mod Queue
pub mod Runner
pub mod Service
pub mod Observability
pub mod Tests
pub mod Workspace
pub mod Text
