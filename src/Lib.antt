-- ===== src/Lib.antt =====
-- Maintenant (the pulseboard repository) watches containers, endpoints, certificates and scheduled
-- jobs, raises alerts, notifies channels and escalates what nobody acknowledges. This library models
-- the parts that decide when somebody is told, and proves what they promise.
--
-- How the parts interact. A monitor reports an event; the engine (internal/alert/engine.go) keeps one
-- active alert per source, type and entity, drops duplicates, raises a severity, silences, resolves on
-- a recovery, and dispatches notifications to channels through triggers and the router. It tells the
-- escalation runner (internal/alert/escalation/runner.go) which alerts were created and resolved; the
-- API tells the runner of acknowledgments; and once a minute the engine lets it evaluate a cycle. The
-- heartbeat service (internal/heartbeat/service.go) is one of the monitors: jobs ping it, its deadline
-- checker finds the ones that did not, and its callbacks become events of the engine. So do those of
-- the certificate service, the endpoint service, the three checkers of a swarm, the detector of
-- containers that stay down, the service of dangerous settings and the check of the security score;
-- internal/app/wiring.go connects them.
--
-- Common: the Boolean tests, lists, maps (a Go map is an association list) and signed integers that
--   all parts share.
-- Alert, for internal/alert/engine.go and model.go. Model: the rows and keys. Deps: the stores, the
--   router and the extension points, as parameters that answer anything, errors included; their
--   effects are a list in the order made. Csv: splitCSV, containsCSV, on texts as lists of character
--   codes. Routing: matchesTrigger and dispatchNotifications. Silence: checkSilenceRules. Engine:
--   processEvent with escalateAlert and processRecovery, reloadActiveAlerts and ResolveByEntity, and
--   in Standing which alerts a run of events leaves active. Down: one pass of internal/alert/down.go.
-- Heartbeat, for internal/heartbeat/service.go, model.go and the queries of
--   internal/store/heartbeats.go. Model: the rows of one heartbeat, and which calls of the store fail
--   during one operation. Pings: the three kinds of ping, pause and resume. Deadlines: the checker,
--   and every operation as one step. Limits: what creation and update accept.
-- Escalation, for internal/alert/escalation/model.go, runner.go and overlap.go and the queries of
--   internal/store/escalation.go. Store: the two tables and the parameters of the runner. Runner: one
--   run and its deliveries; a goroutine that sends is an entry of a list until it ends. Cycle:
--   EvaluateCycle. Hooks: the creation, acknowledgment and resolution of an alert. Steps: all of them
--   in any order. Filters and Overlap: which alerts a policy takes, and which policies overlap.
-- Spool, for the enabled spool of internal/agent/spool.go and its file, spool_store.go, through which
--   an agent's events reach the server. Queue: Send, flush and the budgets. Drain: the cursor, the
--   acknowledgments and what rewinds, with the drain's rows as steps that others can come between.
-- Certificate, for internal/certificate/model.go and service.go. Model: monitors and results.
--   Thresholds: which warning threshold is taken as crossed. Service: processCheckResult with
--   computeStatus and evaluateAlerts, and any run of checks.
-- Endpoint, for ProcessCheckResult of internal/endpoint/service.go, EvaluateCheckResult of
--   internal/alert/endpoint_alerts.go, and the endpoint callback of the wiring. History: the row as a
--   function of its results. Alerts and Recreation: the endpoint with the engine.
-- Swarm, for internal/swarm. CrashLoop: RecordFailure and CheckRecoveries of crashloop.go, against a
--   detector that forgets nothing, and with the engine. Nodes: Reconcile of node.go with the table of
--   internal/store/swarm_node.go. Replicas: Check of alerts.go.
-- License, for the update window: internal/license/window.go and enforceUpdateWindow of manager.go.
-- Retry, for internal/retry/backoff.go, with the int64 of its shift written out.
-- Security, for internal/security. Insights: analyzer.go and service.go, with the discovery that feeds
--   them and the callback that makes events of them. Scoring and Categories: the category scores of
--   scorer.go. Scorer: the score of a container, its cache, and the score of the infrastructure.
--   Posture: the check of that score against the threshold, with the engine.
-- Container, for internal/container/uptime.go: the uptime of a window, against a count of its seconds.
-- Wiring, for internal/app/wiring.go: the callbacks of heartbeats and certificates, with the engine.
--
-- Bounds. Every loop of the source runs over a finite list and is structural recursion here, but
-- for the rounds of the spool's drain, which run on fuel: one round more than there are rows beyond
-- its cursor, once the buffer is flushed, is enough. The shift of a backoff and the length of a
-- time.Duration are cut as an int64. Other counters and times are natural numbers: the source's are
-- 64-bit and are not near their ends. A time of the heartbeat part is in milliseconds, and its rows keep whole seconds, as
-- the store does; the alert engine, the escalation and the spool count in seconds, and the
-- certificates, the crash loops, the replicas, the down detector, the licence and the backoff in
-- nanoseconds; the scores and the nodes in seconds, as is the uptime. The division of a float in
-- DaysRemaining is taken as exact, as are the rounded mean of scores and the decay of an image's
-- age, whose doubles cannot miss; the rounded share of a category is a parameter, a nearest whole
-- number, since doubles decide its ties either way, and so is an uptime, whose cut can be one
-- hundredth too low. A settings field that a request carries, a severity rank, and the days and
-- thresholds of a certificate can be negative and are integers.
--
-- Not modelled: logging; the locks, since the engine handles one event at a time under its mutex
-- and the heartbeat service one request at a time for one heartbeat; the JSON of a broadcast, and
-- the printing of messages, which are parameters; SQL beyond the queries named; the wall clock,
-- which is an argument. Two services that write the same row at once are outside the model. Where a
-- monitor is composed with the engine, the engine takes its events in the order sent. A container's
-- score is computed and stored in two steps that others come between, but not where the score of the
-- infrastructure asks for it; the checks of that score against the threshold run one at a time. Of
-- the certificates: the creation, deletion and labels of a monitor, and the rows of a chain. Of the
-- endpoints: labels and probes. The remaining packages (the discovery of swarm services, the update
-- scores, the licence manager, the HTTP API, the clients of Docker and Kubernetes, the frontend)
-- are not modelled.
pub mod Common
pub mod Alert
pub mod Heartbeat
pub mod Escalation
pub mod Spool
pub mod Certificate
pub mod Endpoint
pub mod Swarm
pub mod License
pub mod Retry
pub mod Security
pub mod Container
pub mod Wiring
mod Checks
