-- ===== src/Lib.antt =====
-- The sidecar of ownCloud Infinite Scale that stores, triggers and runs workflows, modelled from its
-- Go sources under backend/pkg.
--
-- A workflow is a graph of nodes with a trigger. The REST API (service) keeps definitions and
-- execution records as files in the user's space (webdavstore) and an index of the triggers in a
-- local database (localdb). Three sources start runs: a request, the scheduler, which polls cron
-- expressions, and events. Events come over one event stream per user, whose consumers the manager
-- (sse) starts and stops, and from a backstop that queries activities after a reconnection
-- (reconcile). Runs in the background use an app-password that the automation service mints, renews
-- and revokes, and that the database holds encrypted (secretbox). The executor walks the graph.
--
-- Files and what they model:
--   Base, with its children       strings as lists of bytes, tests, lists, results, keyed tables;
--                                 Actions is fallible code over a state, Ensures its rules
--   Http                          net/http, as the clients use it
--   Dav                           what is taken from a WebDAV server and from Graph's /me
--   Model                         model/workflow.go
--   Executor                      executor/executor.go: Order is orderedNodes, Template is render,
--                                 baseName and dirName, Clients the interfaces, Nodes the runs of
--                                 single nodes, Run is Run
--   Secretbox                     secretbox/secretbox.go: new, seal and open_sealed are New, Seal
--                                 and Open
--   LocalDb                       localdb/localdb.go, each method under its name; Schema is migrate
--   Services, Times               what the three background parts call in common, and their maps
--                                 from ids to times
--   Scheduler                     scheduler/scheduler.go: check is the body of tick's loop,
--                                 start is Start
--   WebdavStore                   webdavstore/store.go: Internal is IsInternalPath, Store the other
--                                 operations, Refines the definitions as a map,
--                                 Executions the records of runs
--   Ocis                          the files of ocisclient, each method under its name
--   WebdavFile                    webdavfile/webdavfile.go
--   Auth                          auth/auth.go
--   Llm, Notify                   llm/client.go and notify/notify.go
--   TextExtract                   the files of textextract
--   Config                        config/config.go
--   Reconcile                     reconcile/mapping.go and reconcile/reconciler.go: Pass is
--                                 reconcileDrive and Reconcile, Slots its semaphore among many
--                                 goroutines, Pass.Gaps the windows that it queries
--   Sse                           sse/manager.go: Manager is the table of consumers, Stream the
--                                 parser of streamOnce, Events is handleEvent, Backoff the delay and
--                                 Consumer the rest of consumeForUser
--   Automations                   automation/automation.go and automation/renew.go: Sweep is about
--                                 one sweep of renewals, Loop about StartRenewalLoop
--   Api                           service/workflows.go: Entries is the upkeep of the trigger index,
--                                 Handlers the handlers; Account is service/automation.go and
--                                 service/spaces.go, Router server/http/server.go
--   Wiring                        command/server.go: which component fills which interface of the
--                                 API and of the executor, Background what the scheduler, the
--                                 manager and the reconciler are given, Startup the durations and
--                                 the constructors, Traced the cursors of passes in the
--                                 database; Saved, Patched, Indexed, Scheduled, Rows and Posted
--                                 follow a request into the space, the stream and the scheduler
--   Command                       command/root.go, command/health.go, logging/logging.go,
--                                 server/debug/server.go and cmd/workflows/main.go
--   Tests                         the theorems on concrete inputs
--
-- State is passed explicitly. What the code reaches over the network is a record of functions on a
-- world of any type (Clients, Services, Sources, Outside, Backend, Http) that a theorem takes as a
-- parameter; a property of the world that certain calls keep stands for "no other call is made".
-- Errors are values: Result for a value and an error, an optional text for an error alone, Lookup
-- where ErrNotFound is told apart. The operations of the database read a script of faults of the
-- driver. Goroutines of the manager are steps of a relation (Sse.Manager.System), whose counter of
-- ids is taken not to wrap at 2 ^ 64. Times and durations are natural numbers of nanoseconds, cut
-- to seconds where a column holds them.
--
-- Fuel: the walk of Executor.Order takes two rounds more than the graph has edges. Each round takes
-- one id off the queue, and each edge puts one on it at most once, so this is enough. The loop of
-- Sse.Consumer takes a number of connections, which is enough if it is more than the waits that are
-- left until the context is done. Every other loop is structural.
--
-- A server is a parameter: send of Http, with the laws of Dav.IsServer, which are those of RFC 4918
-- for single files and folders, and of Dav.IsKnown where a theorem follows a request into the
-- user's space. Dav.Folders has what the two kinds of files in .workflows share.
--
-- Not modelled: the transport and its time-outs, TLS, JSON, XML, zip, PDF and cron parsing, the
-- third-party router with its own middlewares, CORS, the goroutines of RunServer, and the
-- lines that are logged. What the code calls of these is a parameter, with documented behaviour
-- where a theorem needs it; so are AES-GCM, base64, the resolver and the formats of time.
pub mod Base
pub mod Http
pub mod Ocis
pub mod Dav
pub mod WebdavFile
pub mod Auth
pub mod Llm
pub mod Notify
pub mod TextExtract
pub mod Config
pub mod Model
pub mod Executor
pub mod Secretbox
pub mod LocalDb
pub mod Automations
pub mod Services
pub mod Times
pub mod Scheduler
pub mod WebdavStore
pub mod Reconcile
pub mod Sse
pub mod Api
pub mod Command
pub mod Wiring
pub mod Tests
