-- ===== src/Lib.antt =====
-- LangOpen: deployments of agent graphs. An API server creates runs in Postgres and wakes a worker
-- over Redis; the worker executes them, dispatches crons and delivers webhooks; clients follow a run
-- over server-sent events; a control plane manages deployments and keys.
--
-- Files and what they model (paths from the repository's root; a definition has the name of the
-- function that it stands for, in snake case):
--   Json, Contracts   values of Go's `any`; pkg/contracts/types.go: statuses, strategies, roles.
--   Stream            services/api-server/internal/server/server.go: parseStartFrom,
--                     filterEventsFrom, streamSSE, streamSSEWithPubSub. Stream/Decimal: printed ids;
--                     Stream/Order: what a subscriber is sent; Stream/Resume: a stream cut and resumed.
--   Auth              authMiddleware of the same file (Auth/Data) and rbacMiddleware of
--                     services/control-plane/internal/httpapi/httpapi.go (Auth/Control); Auth/Gate:
--                     what a served request has shown. Auth/Keys: createAPIKey, listAPIKeys and
--                     revokeAPIKey of httpapi.go; Auth/Lifetime: which keys are accepted.
--   Db                the tables of db/migrations. Db/Sql: statements and transactions over a
--                     connection whose round trips may fail; Db/Laws: inversion of such chains;
--                     Db/Tables: the statements on runs, with the foreign keys.
--   Runs              createRunInPostgres, createStatelessRunInPostgres, cancelRunInPostgres,
--                     deleteRunFromPostgres of server.go. Runs/Created, Runs/Multitask, Runs/Scope and
--                     Runs/Removal prove what they do. Runs/Cancel: cancelRun with the cancel key;
--                     Runs/Foreign: such a request from another project. Runs/Handlers: createRun,
--                     createStatelessRun and createRunRecord; Runs/Accepted: what createRun
--                     leaves; Runs/Wait: waitForRunTerminal, and
--                     Runs/Patience: its end; Runs/Waits: getRun and the handlers that wait.
--   Store             the store items of server.go; Store/Laws and Store/Apart: what is got,
--                     and by whom.
--   Redis             wake-ups, cancel keys, event buffers and channels; a World is what a step of the
--                     worker acts on.
--   Worker            services/worker/internal/engine/engine.go: shared statements. Worker/Fetch:
--                     fetchNextPendingRun; Worker/Execute: executeRun (Steps, Exits, Ends and Ids prove what it
--                     leaves); Worker/Webhooks: the outbox; Worker/Crons: the dispatcher;
--                     Worker/Sandbox: sandboxClaimName; Worker/Runner: the executors;
--                     Worker/Wakeup: runWakeupLoop.
--   Crypto            pkg/crypto/aesgcm.go: how deployment variables are sealed and opened.
--   Deployments       httpapi.go: deployments and their revisions. Deployments/Agents:
--                     syncAgentDeploymentRecord; Deployments/Handlers: createDeployment,
--                     updateDeployment and the rollbacks; Deployments/Rollback and
--                     Deployments/Revert: what these leave.
--   Operator          services/operator/internal: the AgentDeployment. Operator/Objects and
--                     Operator/Desired: the objects that it asks for; Operator/Client: the cluster;
--                     Operator/Reconcile: Reconcile; Operator/Sync: what an AgentDeployment wishes;
--                     Steps, Implements, Objectwise, Sandboxes, Refines, Done and Egress: proofs.
--   Builder           services/builder/internal. Builder/Langgraph, Builder/Resolve,
--                     Builder/Validate and Builder/Job: internal/langgraph/langgraph.go;
--                     Builder/Api, Builder/Handlers and Builder/Reads: api.go; Builder/Reports,
--                     Builder/Below and Builder/Within: verdicts and paths of a validation; Builder/Gauges,
--                     Builder/Consistent and Builder/Kept: the gauges of the builds.
--   Examples          the theorems at concrete inputs.
--
-- How the parts interact: what Runs inserts, Worker/Fetch takes and Worker/Execute settles; the events
-- that Worker/Execute writes are those that Stream filters and sends; Worker/Execute leaves deliveries
-- to Worker/Webhooks; Worker/Crons inserts runs for Worker/Fetch. Deployments writes the
-- AgentDeployment that Operator reconciles; the keys of Auth/Keys are those that Auth/Data and
-- Auth/Control check.
--
-- Choices. A failing server is a list of Booleans, one for each round trip (Postgres and Redis each);
-- when it has run out, nothing fails. Transactions run one after another: interleavings of statements
-- of two transactions, and row locks, are not modelled. While the executor works, others may change
-- the world: that is part of what the executor parameter answers. Keys of Redis do not expire. The
-- loop that waits for a run has fuel: 1,502 looks, which are enough for its longest timeout, 300
-- seconds, at a pause of 200 milliseconds. All other loops recurse on their input, and that of the cron
-- dispatcher on its 12 rounds. Numbers are natural numbers where the source cannot go below 0; event
-- ids are int64, and the increment that can wrap does; gauges are integers. `time.Now` and `NOW()`
-- read one clock. Text that the source cuts up is a list of code points.
--
-- Parameters: the executor and the sandbox allocator, the HTTP client, the cron parser, the cipher,
-- hashes of keys, new ids, Go's formatting of values and times, and its atoi. The client of Kubernetes
-- is a record of calls on a cluster of any type: IsLawful says that a write that succeeds changes the
-- object that it names and no other, IsUp that calls succeed, IsFaithful that a write is read back. The file system, the functions on paths,
-- (IsLexical says what is documented of Join and Rel), the JSON decoder, the parser of CIDRs and the jobs of Kubernetes are parameters too.
--
-- Not modelled: assistants, threads, cron CRUD, A2A and MCP endpoints of the API server and its
-- handlers that stream; deletion and lists of deployments, runtime policies, secrets, variables and
-- builds of the control plane; logs of jobs; the portal, start-up, metrics of the worker, audit logs.
pub mod Prelude
pub mod Json
pub mod Contracts
pub mod Stream
pub mod Auth
pub mod Db
pub mod Runs
pub mod Redis
pub mod Worker
pub mod Operator
pub mod Builder
pub mod Store
pub mod Deployments
pub mod Crypto
pub mod Examples
