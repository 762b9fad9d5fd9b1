-- ===== src/Lib.antt =====
-- A verification library for ci-bench-runner, the server that benchmarks rustls.
--
-- The program receives webhooks from GitHub, stores them as events in an SQLite database and
-- processes them one after the other in a background task. A comment, a review or an update of a
-- pull request makes it run the benchmarks of both branches, compare the results and report in a
-- comment and a commit status; a push to main makes it store the results, from which the
-- thresholds of significance are calculated later.
--
-- The parts and their files:
--   Base             shared helpers: texts as lists of code points, tables, association lists,
--                    sorting, results with panics (Result), actions on a state (Action), and f64 as
--                    bit patterns (F64)
--   Db               ci-bench-runner/src/db.rs: a table is the list of its rows, oldest insertion
--                    first; Db/Events has the queue and the jobs, Db/Results the runs on main,
--                    Db/Comparisons the comparisons, Db/Comments the ids of comments, Db/Writes any
--                    sequence of writes
--   EventQueue       ci-bench-runner/src/event_queue.rs: Worker has the task as phases, with
--                    process_queued_events_in_background cut where it awaits or where it can fail
--                    between two writes; Steps is the relation of everything that can happen, in any
--                    order, calls of enqueue that are dropped half-way included; its
--                    children prove what every reachable state satisfies (Refinement, Drain,
--                    and others); Toggler is ProcessEventsToggler
--   Github           ci-bench-runner/src/github.rs: verify_webhook_signature,
--                    maybe_truncate_comment, and in Token CachedOctocrab with a clock in seconds
--   Http             ci-bench-runner/src/lib.rs: Handlers has the handlers of the server, Routes its
--                    routes
--   Job              ci-bench-runner/src/job/: Files are the readers of mod.rs, Compare, Thresholds,
--                    Split, Refs, Bench and Handlers the functions of bench_pr.rs, Main is
--                    bench_main.rs; Callgrind is callgrind_diff, Display the texts of measurements
--   Runner           ci-bench-runner/src/runner.rs: Process has the wait loop of run_command, Commands
--                    the rest of it, Checkout is LocalBenchRunner, Logs the texts of logs
--   BencherDev       ci-bench-runner/src/bencher_dev.rs
--   App              the whole program: the queue's task with its real handlers, the server and the
--                    switch as steps of one system (ci-bench-runner/src/event_queue.rs and lib.rs);
--                    App/Handled follows a webhook of any kind, App/Push a push to main,
--                    App/Comment a comment with the command, App/Links the links of comments and
--                    statuses; App/Startup has main of
--                    ci-bench-runner/src/main.rs and server of lib.rs
--   Tests            concrete inputs
--
-- How they interact: Http.Handlers calls EventQueue.Worker, which writes through Db; the handlers of
-- Job act on a World, the database with the calls made to GitHub and to the runner, and a step of
-- the queue's task takes the database that a handler leaves. App runs the handlers inside the steps
-- of the queue; its state is the queue's with the calls made so far.
-- App/Handled follows a webhook through the queue's task to its handler, and Job.Main the results of
-- a push to the database and to BencherDev.
--
-- Conventions. A function that can fail returns a Result: a value, an error by its place, or a panic.
-- A function that writes is an Action: what was written stays written when a later step fails. The
-- time, new ids and the outcome of calls to the outside are arguments; ids are numbers, times are
-- the ranks of the stored texts. An f64 is its bit pattern: the order, abs and max are written out,
-- the operations that round are the record Arith. A HashMap is a list in the order in which it is
-- iterated. What comes from elsewhere is a parameter: hex and HMAC (Crypto), serde_json on lists of
-- texts (Json), the payloads, the API of GitHub, the runner, the result files, callgrind_diff and
-- the templates (Env), the router of axum (Router), what the start finds (Platform), the processes
-- and files of the machine (Machine), octocrab's clients, the watcher of the file system, the client
-- of bencher.dev. Only the wait for a process has fuel, one
-- poll more than the timeout has seconds, which is enough because each poll sleeps for a second.
-- Every other loop is structural, and the endless loops are step relations.
--
-- Not modelled: logging and Sentry (with filter and cwd of main.rs), the SQL of the migrations, the
-- templates and the deployment. In Env the runner and callgrind_diff are parameters, though Runner
-- and Job/Callgrind model them. Two results of SQL without an order are taken in the order of
-- insertion. NaN is left out in two places: its storage in SQLite is that of any other number, and
-- the sort of the diffs by their ratio (split_on_threshold) is the stable sort also where a ratio is
-- NaN, while Rust then leaves the order open or panics. The sort of the changes that give a threshold
-- has this case: what it makes of NaN is a parameter (sort_unordered). A request that is dropped is a
-- step only where it waits between the insertion of its event and the message. A target of a request
-- with a query or with encoded characters is left to the router.
pub mod App
pub mod Base
pub mod BencherDev
pub mod Db
pub mod EventQueue
pub mod Github
pub mod Http
pub mod Job
pub mod Runner
pub mod Tests
