-- ===== src/Lib.antt =====
-- ModeloMan: a hub that keeps tasks, notes, a changelog, benchmarks, runs of agents and the
-- attempts of their prompts, that enforces policies on the attempts, and that is called over
-- gRPC.
--
-- A call of one of the 27 methods of internal/transport/grpc/server.go passes the interceptors
-- of internal/transport/grpc/interceptors.go (recovery, authentication, rate limit, errors,
-- idempotency), its request is decoded, it reaches an operation of
-- internal/service/hub_service.go, and that reads and writes the collections of
-- internal/store/file_store.go, which rewrites one JSON file at each change. The records are
-- those of internal/domain/types.go. The wrapper mm (internal/mm) runs a coding tool on a
-- repository and reports the run to the hub as a client.
--
-- Base holds what the parts share: Go's int64 with its wrap-around (Base/Int), the texts and
-- strings.TrimSpace (Base/Text), maps as association lists (Base/Assoc), lists of items with ids
-- (Base/Keyed: the loops of the upserts and deletions), sorting (Base/Sort), and texts as bytes
-- (Base/Utf8).
--
-- Domain: types.go (Domain/Types) and errors.go (Domain/Errors, Domain/Fault).
-- Domain/Environment is the record Host of what the program takes from outside: float64 and its
-- operations, the clock, random texts, the outcome of file operations, layouts of times, JSON
-- texts for the log, and unicode.ToLower. All definitions take it as an argument, and no law is
-- assumed of it but those that a theorem names.
--
-- Store: an operation is a function Act from a World (store, disk, number of uses of the host)
-- to a result and a World (Store/Effects), so what was written before an error stays written.
-- Store/File has Load, Snapshot, Mutate, persistLocked, withDefaults and cloneState;
-- Store/Collections and Store/Queries have one function for each operation of FileStore, under
-- its name (UpsertTask is upsert_task); Store/Idempotency has the three operations on
-- idempotency keys. Store/Persistence, Store/Filters, Store/Inserts and Store/Keys have the
-- theorems, Store/Steps and Store/Contracts the rules for blocks that read or that keep an
-- invariant.
--
-- Service: one function for each operation of HubService, under its name, in Service/Policy,
-- Service/Tasks (with notes, changelog and benchmarks), Service/Runs, Service/Attempts,
-- Service/Listings, Service/Summary and Service/Leaderboard, with the requests in
-- Service/Requests and the selection of caps and the effective limits in Service/Limits. The
-- modules below them hold proofs: Service/Attempts/Enforced, Service/Limits/Best,
-- Service/Tasks/Valid, Service/Runs/Totals, Service/Runs/Finished, Service/Common/Tags, for the
-- write operations and the idempotency keys Service/Keys, Service/Writes and Service/Operations,
-- and for the reads Service/Reads. Service/Health has Health.
--
-- Rpc: internal/rpccontract/methods.go (Rpc/Contract), and the interceptors in Rpc/Auth,
-- Rpc/Limiter, Rpc/Idempotency and Rpc/Chain; Rpc/Idempotency/Restarted joins the interceptor
-- with a restart of the store; Rpc/Types has payloads, contexts, handlers, and the record Codec
-- of encoding/json and SHA-256. A handler is a function of a context, a payload and a state; a
-- panic is one of its replies. Rpc/Chain.serve composes the interceptors in the order of
-- cmd/modeloman-server/main.go.
--
-- Rpc/Limiter is TokenBucketRateLimiter: the instant of a call is an argument, the buckets are
-- the state. The laws of floats that its theorems need are two records, TokenLaws and
-- WholeTokens.
--
-- Server: server.go. Server/Wire has decodeStruct, toStruct and toList, over the record Wire of
-- what JSON and structpb do with each type; Server/Methods has the methods of HubHandler
-- (CreateTask is create_task), Server/Handlers what their handlers share and Server/Table the 27
-- handlers (createTaskHandler is create_task_handler) and the table of RegisterHubServer.
-- Server/Registered proves what holds of every entry of the table, from Server/Methods/Reads and
-- Server/Methods/Writes, and Server/Calls composes this with the interceptors.
--
-- Mm: internal/mm. Mm/Bundle is the rendering of context/bundle.go on sequences of bytes, with
-- Mm/Bundle/Cut and Mm/Bundle/Rendered for its theorems, and Mm/Limits the limits of
-- BuildBundle; Mm/Transcript is cappedBuffer of runner/runner.go, and Mm/Runner its Run with
-- runWithPTY, runInjected and runAttached (runner_pty_unix.go and runner_pty_stub.go), over a
-- record Machine of what the processes of a backend do, and Mm/Runner/Launches what it starts;
-- Mm/Client is telemetry/client.go over a connection; Mm/Config is config/config.go; Mm/Prompt
-- is prompt/template.go and redact/redact.go; Mm/Git is gitutil/git.go, over the output of each
-- command of git, and Mm/Git/Files is what its summary of a diff lists; Mm/Workflow is Run of
-- workflow/workflow.go, whose record Surroundings holds what git, the files, the hub and the
-- processes of the backend answer, and whose result is the list of its effects.
-- Mm/Workflow/Effects, Mm/Workflow/Reported and Mm/Workflow/Redacted prove what that list holds.
-- Mm/Feedback is SendFeedback, loadSkillSnippet and localAgentID of the same file.
--
-- Http: transport/http/server.go, a function of a request, of which the handlers read the path
-- and the query (Http), and what a request changes (Http/ReadOnly). Process: config/config.go,
-- and what a server without settings refuses (Process/Closed).
--
-- Checks runs the theorems on concrete hubs, calls and runs.
--
-- Loops are structural recursion over the list that the code ranges over, so nothing needs fuel;
-- the attempts of the client are counted down from their configured number. A nil slice and an
-- empty one are the same list. A Go map that is ranged over is a list in the order of insertion;
-- the leaderboard sorts it, and ties keep that order.
--
-- Not modelled: the locks of FileStore, of the limiter and of the transcript (each operation
-- holds its lock from start to end), logging, internal/store/postgres_store.go, the commands
-- beyond the order of the interceptors and what they are given, and of internal/mm the user
-- interface, the processes and terminals themselves, the callbacks of runner, the choice of the
-- files of a bundle, and the files under .modeloman. They are SQL, rendering, processes and
-- terminal output for the most part.
pub mod Base
pub mod Domain
pub mod Store
pub mod Service
pub mod Rpc
pub mod Server
pub mod Mm
pub mod Http
pub mod Process
mod Checks
