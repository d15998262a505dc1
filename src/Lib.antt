-- ===== src/Lib.antt =====
-- DogBot: the agent runner (agent-runner/src), which receives messages of QQ and WeChat, decides
-- which of them trigger a run of Claude, schedules the runs, executes each in a container with the
-- session of its conversation, and keeps the history that a run may read.
--
-- Scheduler    scheduler.rs: SchedulerState with admit, finish and snapshot. A method on `&mut self`
--              becomes a function that returns the new state. Scheduler.Representation has its calls
--              as values and what a caller sees of them.
-- Runs         server.rs, RunScheduler: the scheduler with the payloads of queued tasks and the
--              tasks that were spawned; submit, and the end of run_task as `complete`.
-- Trigger      trigger_resolver.rs: TriggerResolver.resolve and should_trigger_run.
-- SessionTables, Sessions
--              session_store.rs: the tables as maps by their primary keys, each method as an action
--              on the database that returns a result and the database. A Database is the
--              tables and the list of what other clients do to them, one function before each
--              statement, within a method and between methods; Sessions.Rely has the rules for
--              proofs about such actions.
-- Exec         exec.rs: the session, the read grants and the command of a run; Exec.Runner is
--              DockerRunner.execute with its one retry, and Exec.Runtime its runtime over Docker.
-- History      history/store.rs: storing an event, read grants, the purge, and the row policy of the
--              schema; History.Roles sets up the schema and the role of the reader, History.Queries
--              has the calls that may fail and the queries of one conversation.
-- Handler      server.rs, handle_canonical_event: the history, the run or the report of an event, the
--              plans that Delivery sends for it, and the answer; Handler.Plans builds the request and
--              the plans.
-- Server       server.rs, helpers of the handlers: identifiers, summaries, the purge of the history.
--              Server.Endpoints are the handlers of the routes, Server.Router the routes, and
--              Server.Summaries what is logged of an event and of a plan.
-- Delivery     server.rs: deliver_plan_with, deliver_message_request, and what run_task does with the
--              answer of a run.
-- Normalizer   normalizer.rs: the output of the agent becomes a plan of messages and reactions.
-- Platform     platforms/mod.rs, platforms/common.rs and dispatch.rs: the context of a delivery, the
--              check of a plan; Platform.Registry and Adapters hold the registry and its adapters.
-- Qq           platforms/qq.rs: the text that NapCat is sent; Qq.Receive decodes its events, Qq.Send
--              delivers a plan.
-- Wechat       platforms/wechatpadpro.rs: reading an event; Wechat.Compile makes the requests of a
--              message, Wechat.Send delivers a plan.
-- ApiProxy     api_proxy.rs: proxy_request with its check of the token, headers, body and URL.
-- Docker       docker_client.rs: the container of the agent and the calls of the Docker daemon.
-- Models       models.rs and pipeline.rs: requests, their validation, and the prompts.
-- Protocol     protocol/: messages, events and outbound plans.
-- Config       config.rs, api_proxy_config.rs and env_helpers.rs: settings from the environment.
--              Config.Variables reads one variable, Config.Proxy has the settings of the API proxy.
-- Json, HashMap, Common: the values of serde_json, std's HashMap as an association list, and strings
--              as lists of code points with the methods of `str` that the code uses.
--
-- A run goes through them so: an adapter decodes an event of Protocol, Trigger decides on it, Runs
-- admits the request of Models to the Scheduler (Handler puts the three together), Exec takes the
-- session from Sessions, gives the grants to History and runs the command, Delivery has Normalizer
-- make a plan of the output and hands it to the adapter of the Registry, and `complete` starts the
-- tasks that the Scheduler promotes.
--
-- Bounds and fuel. `usize` is 64 bits wide, `i64` is checked where text is parsed, and the limits of
-- the container wrap around at 64 bits. The loop of `finish` is structural on the ready list, since
-- each round pops one entry. The loops that search a text (`replace`, `collect`, `replace_links`,
-- `strip_tokens`, `raw_parts`) take rounds, one more than the text has characters: each round takes
-- a pattern that is not empty off the text. The decimal printer has more rounds than digits. Times
-- are integers of seconds; no addition of a time to live is taken to overflow.
--
-- Parameters: the container runtime in Exec, a record of functions on a state of its own; and, since
-- their code is not in the repository, the HTTP clients, the Docker daemon, SHA-256, the JSON
-- printer and reader, the URL parser, the checks of header names and values, the hasher, what `{:?}`
-- prints, the database client of History.Roles, the message of the database driver, the clocks, the
-- UUIDs and the random tokens. The database may fail while Handler stores an event; elsewhere runs
-- in which it does not answer are left out, as are connecting and creating the schema of the
-- sessions.
--
-- Not modelled: writing the log, building the clients, start-up, and the reading of an action block,
-- which serde derives from its types.
pub mod Common
pub mod HashMap
pub mod Json
pub mod Protocol
pub mod Models
pub mod Scheduler
pub mod Runs
pub mod Config
pub mod SessionTables
pub mod Sessions
pub mod Trigger
pub mod History
pub mod Exec
pub mod Qq
pub mod Handler
pub mod Server
pub mod Platform
pub mod Normalizer
pub mod ApiProxy
pub mod Wechat
pub mod Adapters
pub mod Delivery
pub mod Docker
