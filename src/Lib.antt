-- ===== src/Lib.antt =====
-- PGPulse, a monitor of PostgreSQL servers: its collectors ask each monitored server for metrics with
-- SQL that fits the server's version, an evaluator checks the metrics against alert rules, a
-- dispatcher notifies people, an analysis walks a graph of causes from the alert upstream, and
-- playbooks guide a remedy step by step. Users sign in over an HTTP interface and act by their roles.
--
-- Parts and files. A module stands for a package or a file of it; names are those of the source in
-- another spelling (`processTransition` is `process_transition`).
--
-- - Version: internal/version (`Detect`, `Contains`, `Select`) and two gates of internal/collector.
--   Order has the order of versions and the choice of a statement, Detection the reading of a number.
-- - Auth: internal/auth, and the user endpoints of internal/api/auth.go.
--   Auth/Rbac is rbac.go. Auth/RateLimit is ratelimit.go, Answers what it has to answer, Pruning and
--   Window its laws. Auth/Tokens is jwt.go and middleware.go, Access what passes. Auth/Users is
--   store.go and the endpoints, Escalation and Administrators what they keep, Refreshing what a
--   refresh takes. Auth/Login is the login behind the rate limiter.
-- - Alert: internal/alert. Alert/Evaluator is the state machine and the matching of evaluator.go, with
--   Lifecycle (construction, rules, restart), Forecast (runForecastAlerts) and Batches (Evaluate);
--   Transitions, Matching, Restart, Forecast/Cooldown and Batches/Visits hold their laws.
--   Alert/Dispatcher is dispatcher.go, with Delivery and Queue.
-- - Playbook: internal/playbook and the run endpoints of internal/api/playbooks.go. Interpreter,
--   Resolver and Executor are the files of those names; Runs has the statements of pgstore.go on one
--   run, Runs/Handlers the endpoints, and Runs/Rows, Runs/Locking and Runs/Execution the laws.
-- - Rca: internal/rca. Rca/Graph is graph.go, with the walk upstream (Reach) and the chains (Chains).
--   Rca/Ontology and Rca/Defaults are ontology.go and chains.go, the built-in graph in one definition
--   for each of its chains. Rca/Evidence is what engine.go finds for one edge, Strongest and Maximum
--   its laws. Rca/Engine weighs an edge, Engine/Walk is walkBackward and traverseChain, Engine/Analyze
--   is Analyze with its hooks, and Rca/Incident is incident.go. Depth and BuiltIn say how deep the walk
--   goes, Branches when it breaks off, Provenance where its events come from, Accepted and Best which
--   chains an incident names.
-- - Collector: internal/collector/lock_tree.go. LockTree is computeLockStats and its search, whose
--   turns are bounded by the number of children; Search, Pushing and Depth show that these are enough,
--   Sets what the maps hold, Deepest and Stats what the statistics say.
-- - Statements: internal/statements/diff.go, with the types it reads (Types), its formatDuration
--   (Duration) and ComputeDiff (Diff); Keyed, Partition and Paging hold its laws.
-- - Storage: internal/storage/memory.go. Memory is Write, Query and expire; Search and Expiry show
--   what a pass of expiry leaves.
-- - Settings: internal/settings/diff.go, and Patch, what a difference is worth.
-- - Common: lists, maps, strings, tests and the interface of float64 that all parts use.
--
-- How the parts meet: the evaluator's events go to the dispatcher's queue; the run endpoints ask
-- Auth/Rbac for a permission of the claims that Auth/Tokens lets through; the interpreter reads what
-- the executor answers.
--
-- State is a record, and an operation a function from the state to the state with its answer. What
-- a mutex or one SQL statement makes atomic is one function. The execution of a step is two, and
-- theorems speak of all sequences of both; the deletion of a user takes the table as each of its three
-- statements finds it. The other requests are one step each: what they read and what they write is
-- taken at one instant. Times are numbers of
-- nanoseconds, the clock's readings are arguments, and of a time only differences and order matter.
-- Machine integers are natural numbers: the code counts attempts, rows, steps and points, which stay
-- far below the range of int64, and where it subtracts the model writes out what happens below 0.
-- Go's float64 is an interface with order laws that hold with NaN. Strings are lists of bytes. All
-- loops are over lists that the state holds, and are structural recursion, so no fuel is needed; the
-- walks of the graph go down by their depth, and the search of the lock tree is given one turn for
-- each process that can be queued. sort.Slice is an interface with its two documented
-- laws, which an insertion sort meets; sort.Search is a parameter with its documented law, which a
-- search from the front meets.
--
-- Parameters stand for code outside the repository: the JWT library (with the laws that it cuts dates to
-- whole seconds and that a signed token parses until it expires), bcrypt, strings.EqualFold, strings.TrimSpace (which takes white space off both ends), strconv.ParseFloat, the
-- database behind the executor, the notifiers, math.Exp, and the formats of fmt and time. The sources
-- of anomalies and of changes of settings, which the engine calls by interfaces, are parameters too.
-- Which calls of the database fail is a parameter where the handlers tell a failure, and which writes
-- after the execution of a step, whose errors are ignored.
--
-- Not modelled: SQL against the monitored servers, the PostgreSQL stores but for the statements named
-- above, statistics on float arrays (internal/ml and the sources of anomalies), the capture of
-- statements, plans and settings, goroutines and tickers, the agent, the desktop shell and the web
-- interface.
pub mod Common
pub mod Collector
pub mod Statements
pub mod Storage
pub mod Version
pub mod Auth
pub mod Alert
pub mod Playbook
pub mod Rca
pub mod Settings
