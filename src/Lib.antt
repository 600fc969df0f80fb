-- ===== src/Lib.antt =====
-- The inference gateway of nidora-ai-inference: a TypeScript service that takes image-to-video jobs from
-- clients, queues them in SQLite, hands them to GPU pods that poll it, and keeps the files. The
-- development models the gateway's own logic, from the rows of its tables up to the histories of the
-- running process, over lists, records and the native natural numbers.
--
-- The parts, from the bottom.
--
--   Base: Boolean tests, lists, strings as lists of UTF-16 code units, and tables with the
--   statements that SQL makes on them.
--   Domain: gateway/src/domain. Types (types.ts), Models (models.ts), Filenames (filenames.ts), Errors
--   (errors.ts), Serialize (serialize.ts), Probe (probe.ts), Sizing (sizing.ts), Inputs (inputs.ts).
--   A double of the source is a sign, a numerator and a power of two.
--   Store: gateway/src/db. Db is the database as a record of its tables with the wall clock and the
--   count of random ids drawn. Jobs and Queries are the statements of db/jobs.ts, Pods those of
--   db/pods.ts. A compare-and-swap UPDATE is `swap`: the UPDATE, `changes === 1`, and the event.
--   Schema has the tables of db/migrations.ts, Hydrate the codec of their rows, and Migrate the runner of
--   db/sqlite.ts. Machine has the statements as transitions of one job; Kept is the interface of what a
--   property of the table must satisfy to be kept by every statement, which the handlers' proofs take as
--   a parameter. Rows, Invariant, Upkeep, Lookup, Fencing and Queue carry the other proofs.
--   Scheduler: gateway/src/scheduler. Claim (claim.ts), Reaper (reaper.ts), and the settings that they
--   read (config.ts). Reaper.Rounds has the sweep's rules for one row. Waiters (waiters.ts) is the parking
--   lot with its promises, timers and listeners; Gateway.Parking runs the gateway's lists of
--   parked and of woken polls beside it.
--   Artifacts and Cleanup: gateway/src/artifacts. The disk is a list of files.
--   Routes: gateway/src/routes. State holds the gateway: database, disk, the parked and the woken polls
--   (scheduler/waiters.ts), the open uploads. Agent.Poll, Agent.Files and Agent.Result are agent.ts,
--   Videos.Params, Videos.Create (with its Checks) and Videos.Read are videos.ts, Pods is pods.ts, Health is health.ts,
--   Models is models.ts.
--   Auth: gateway/src/auth.ts, the gates in front of the routes.
--   Settings: gateway/src/config.ts, what the process reads from its environment.
--   App: gateway/src/app.ts, every route behind its gate, and the error handler. App.Parts is
--   the description of what each part of the API asks of the headers, which the gates are held against.
--   Launch: gateway/src/index.ts, from the environment and the volume to a process that listens. Shutdown:
--   the same file, what a signal does.
--   Ids: gateway/src/lib/ids.ts, the text of the ids over the random bytes.
--   Tests: the theorems at concrete inputs.
--   Gateway: the process. An event is a request, a resumption, a timer or a passing of time; `step`
--   runs one, `run` a history.
--
-- How they interact. A handler is a function of the gateway. A poll is cut at its await: it is parked
-- with the variables that live across it, a kick moves the parked polls to the woken ones, and a later
-- event runs the rest. An upload is cut at its stream in the same way, so that other requests come
-- between. Statements of SQLite are synchronous, and so is a claim loop.
--
-- Errors are values: a reply carries a status, a throw is the reply `raised`, a missing row or a NULL is
-- `none`, a duplicate key makes `create` answer `none`.
--
-- Fuel. The JPEG walk runs on the length of the buffer; its offset grows in each round. Decimal numerals
-- are printed on as much fuel as the number. All other loops are structural recursion.
--
-- Parameters. Random bytes and UUIDs, SHA-256 of bytes and of keys, the parsing of numerals, the double arithmetic
-- of fitSize (Runtime, Floats), and the modification times that `stat` reports; JSON and the text of
-- paths (Codec), the two parsers behind the operator's bodies, what SQLite makes of a migration's
-- script, and whether the socket can be bound. The ids are assumed not to be empty where a theorem says so.
--
-- Not modelled. The SQLite engine with its indices and pragmas, Fastify with its routing, multipart
-- parsing and the logs are outside; so are failures of the disk. The agent is another program. English
-- messages of errors are left out, their codes are kept. The case mapping of names and the stripping of
-- white space are those of ASCII and Latin-1. The store keeps hydrated rows: Hydrate relates them to
-- the stored ones for an INSERT and for a read, and not for each UPDATE. An await on the disk is one step
-- with what follows it: the input and the row of a submission, the part file of an upload with its rename,
-- the removal of an input. So two submissions do not both find the last place of the queue, and two uploads
-- of one name do not overlap. A null among the entries of in_flight is left out. Settings are whole
-- numbers in the handlers: a fraction is dropped.
mod Base
pub mod Domain
pub mod Store
pub mod Scheduler
pub mod Artifacts
pub mod Cleanup
pub mod Ids
pub mod Routes
pub mod Settings
pub mod Shutdown
pub mod Launch
pub mod Auth
pub mod Gateway
pub mod App
mod Tests
