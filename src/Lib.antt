-- ===== src/Lib.antt =====
-- Verification library of the CICD orchestrator (gosrc/). The daemon keeps projects in a SQLite file,
-- receives a webhook for each push, and deploys: it synchronises a clone, runs the project's
-- install.sh, starts its run.sh as a process that it watches, checks the service after 15 seconds
-- and goes back to the last good commit when the build or the check fails.
--
-- Which file models which part, with the Go functions that its definitions are named after:
--   Config: the Config record of gosrc/parser/args.go; Config/Args is validateRequirements and the end
--     of Parse, and Config/Flags the flags with their defaults.
--   Queue: gosrc/actions/queue.go. A `Lane` is one project's queue with its goroutines; `enqueue`,
--     `check_pending` and `Step` are the atomic steps under its mutex, `recover_panic` what a panic of a
--     deployment leaves; Queue/Store is the map of queues, and Queue/Mailbox the mailbox with one place
--     that a queue stands for.
--   Pipeline: gosrc/actions/executor.go. `World` is the table of projects with the history of
--     commits; `full_deploy_pipeline`, `rollback_to_commit` and `post_deploy_health_check` take what
--     Git, the scripts and SQLite answer. A health check that a function starts is its result `Next`,
--     and `deploy` is a deployment with all of its health checks; `in_goroutine` ends the daemon when a
--     health check panics, while the queue's worker recovers a panic of the pipeline.
--   Pipeline/Install: RunDeployment and getDeployTimeout of the same file, with the deferred calls.
--   History: the commit history of gosrc/database/registry.go, newest row first.
--   Process: gosrc/actions/pm.go and executor_linux.go. An `Engine` is the registry with the heap of
--     ManagedProcess objects, so that an old watchdog and a new process are told apart by address.
--     Process/Group is getChildrenInGroup, which reads the members of a process group from /proc.
--   Projects: the table of projects of gosrc/database/registry.go and ToConfig.
--   Settings: the gateway's settings and tokens of the same file, and what Notify
--     (gosrc/actions/notify.go) does to a configuration.
--   Webhook: the handler of POST / in gosrc/api/server.go, with verifySignature and
--     parseWebhookPayload. HMAC and the JSON parser are parameters.
--   Dashboard: the other routes of gosrc/api/server.go that change the table of projects, the settings
--     or the queues. Dashboard/Create is POST /projects with SetupProjectFolder and isValidUsername of
--     gosrc/actions/executor.go; Dashboard/Form is PUT /settings; Dashboard/Keyed runs lists of requests;
--     Dashboard/Ports are the listening ports that are shown, and Dashboard/Run is a single command.
--   Access: authMiddleware and the routes /auth of gosrc/api/server.go. `Jwt` is the JWT library,
--     `session_token` what a login is answered with, `Outbox` the links that are mailed and logged.
--   Editor: the routes /files and /file of gosrc/api/server.go. `FileSystem` are the calls of the
--     operating system; Editor/Saved and Editor/Shown are what saving and listing promise.
--   Terminal: gosrc/terminal/session.go and session_linux.go, and handleTerminalSession of
--     gosrc/api/server.go. `Shell` is the command that the PTY is started with.
--   Paths: gosrc/deploypath/path.go, over paths as lists of elements; Paths/Project is
--     resolveAndValidateProjectPath of gosrc/api/server.go.
--   Sync: SyncRepo of gosrc/actions/executor.go and checkDiskSpace of gosrc/actions/executor_linux.go,
--     with each call of Git.
--   Fleet: gosrc/database/mongo.go: getMongoClient, the loop of startWatchLoop and WatchChanges;
--     Fleet/Documents are the documents that the nodes share, with `Collection` for the driver's calls;
--     an update may insert a second document, as MongoDB allows for calls at the same time.
--   Cli: the commands of gosrc/cli/handler.go that change state.
--   Boot: gosrc/main.go: the deployment of every project at the start, and in Boot/Setup the first setup
--     and the start under systemd.
--   Log: RotateLogIfNeeded of gosrc/logger/log.go; Log/Tail is /system/logs of gosrc/api/server.go.
--   Script: gosrc/actions/patchInstallScript.go.
--   Prelude: shared names, texts as lists of characters, tests on numbers and texts, Go's int.
--
-- How they interact: a webhook or a route of the dashboard hands a commit to the queue of its project;
-- the queue's `deployFn` is the pipeline; the pipeline writes the table of projects and the history, and
-- its install phase runs the patched script and then starts the process engine. A new project's
-- directory comes from Paths, and its row goes to Projects. A request passes Access first; the editor's
-- paths go through Paths/Project. With MongoDB a webhook writes its commit to Fleet/Documents, and the
-- change stream of each node hands the projects of the repository to their queues.
--
-- Assumptions. SQLite makes or refuses each statement as a whole, which is an argument where the
-- code looks at it; the single writes of a status in the pipeline are taken to be made. A route is one step, with the
-- answers of its statements; two requests that are served at the same time are not interleaved. What the
-- operating system, Git, a script, MongoDB's driver or the clock answers is an argument (`Os`,
-- `Disk`, `SyncEnv`, `CreateEnv`, `RollbackEnv`, `DeployEnv`, `HealthEnv`, `InstallEnv`, `ArgsEnv`,
-- `TerminalEnv`, `SetupEnv`) or a record of calls (`FileSystem`, `Jwt`, `Collection`) whose laws a
-- theorem takes (`KeepsFiles`, `IsSound`, `IsCollection`). No definition has fuel: each is
-- structural. The loops of the watchdogs and of the queue are modelled by one round and a step
-- relation, the loop over the change stream by a list of rounds. Times are counted in seconds, and
-- a time.Duration is an int64 with its wrap-around.
--
-- Not modelled: the other routes of gosrc/api/server.go that only read, and its event streams; the
-- commands that only print, the copy of the binary, the bytes that a PTY sends back, the lines of
-- log files and mail, the service file, and the Windows stubs: input and output, calls of
-- third-party libraries, or parts that wait for their own model.
pub mod Access
pub mod Boot
pub mod Cli
pub mod Config
pub mod Dashboard
pub mod Editor
pub mod Fleet
pub mod History
pub mod Log
pub mod Paths
pub mod Pipeline
pub mod Prelude
pub mod Process
pub mod Projects
pub mod Queue
pub mod Script
pub mod Settings
pub mod Sync
pub mod Terminal
pub mod Webhook
