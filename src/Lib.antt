-- ===== src/Lib.antt =====
-- opc-platform: a control plane for agents that run tasks, alone, in workflows and across companies.
--
-- Paths are from the repository's root.
--
-- - Dag, with its children, models the two graph algorithms that validateDAG and buildDAG of
--   pkg/workflow/engine.go and ValidateProjectDAG and BuildProjectLayers of pkg/goal/dag.go share:
--   `validate` with `visited_count` (Kahn's algorithm) and `build_layers`. It is generic over the
--   nodes by the interface `Node`; Workflow and Goal give its instances.
-- - Workflow models pkg/workflow/engine.go: the specification and its tests (Workflow), executeStep
--   (Workflow/Steps), executeLayer (Workflow/Layers) and Execute (Workflow/Execution).
-- - Goal models the projects of pkg/goal and pkg/goal/dag.go.
-- - Cluster models pkg/cluster: node.go and manager.go (Cluster), and scheduler.go
--   (Cluster/Scheduler). Nodes are references into a heap, since the table and the local node share
--   one. The calls of the discovery back end succeed or fail as a parameter says.
-- - Dispatcher models pkg/dispatcher/dispatcher.go: the routing rules, the strategies and the
--   round-robin counters. leastBusy and costOptimized are one loop over an order of costs.
-- - Controller models checkAndRestart of pkg/controller/lifecycle.go with its thresholds, limits and
--   backoff (Controller/Lifecycle). Parsing a duration and scaling it by a float are parameters.
-- - Quota models pkg/cost/enforcer.go: the quotas of an agent and their windows. Money stands for
--   float64, and the calendar is a parameter.
-- - Federation models pkg/federation/intervention.go: interventions and approval gates
--   (Federation/Interventions).
-- - Cost models pkg/cost/cost.go: the tracker of cost events and its budget (Cost), prices
--   (Cost/Prices), reports (Cost/Reports) and events file (Cost/Disk). JSON is a parameter.
--   A write to a file cannot be opened, succeeds, or is cut off (Prelude/Files).
-- - Storage models pkg/storage/sqlite/sqlite.go: the records of api/v1/types.go and the tables
--   (Storage), agents and tasks (Storage/Agents), workflows and runs (Storage/Workflows), goals, projects
--   and issues (Storage/Goals) and federated goals (Storage/Federated). Statements are functions on lists
--   of rows; that the database answers is a flag of the store.
-- - Controller/Agents and Controller/Tasks model pkg/controller/controller.go: agents are applied, started
--   and stopped over the store, and ExecuteTask is two steps, before and after the adapter's call, with
--   the cost tracker, the quotas and the circuit breaker. Controller/Calls runs any sequence of calls.
-- - Federation/Retries and Federation/Companies model pkg/federation/retry.go and controller.go: the queue
--   of failed requests, round by round, and the companies with their state file. Federation/Heartbeats is
--   heartbeat.go: the monitor, its pending issues and its check of the companies.
-- - Workflow/Schedules models pkg/workflow/cron.go: the scheduled workflows and cron expressions.
-- - Auth models pkg/auth/jwt.go and rbac.go, and the middleware of pkg/tenant/tenant.go: each function by
--   itself, since the repository puts them into no chain.
-- - Prelude holds what the others share, Tests the runs on small inputs.
--
-- A Go map is an association list. The order in which a `range` visits its keys is an argument, a
-- `MapOrder`, that visits each key once. Goroutines of a layer are turns in a list, in any order that
-- the goroutines can take; the answers of the store, the controller and the network are arguments, and
-- so is the time. Errors are values. Log lines are left out, and so are timestamps that no decision
-- reads.
--
-- Fuel: Kahn's loop and the layering loop take one round more than there are nodes; each round but the
-- last takes away a node at least.
--
-- Not modelled: the other files of pkg/controller, pkg/federation and pkg/goal, and
-- the login of pkg/auth, pkg/audit and pkg/trace, on which nothing above depends but
-- by its arguments; the HTTP server, the gateways, Postgres, the migrations, the adapters' processes, the
-- command line and the dashboard, which are input, output and glue; the YAML and JSON readers, the
-- regular expressions and the cryptography, which are libraries.
pub mod Prelude
pub mod Dag
pub mod Workflow
pub mod Goal
pub mod Cluster
pub mod Dispatcher
pub mod Controller
pub mod Quota
pub mod Federation
pub mod Cost
pub mod Storage
pub mod Auth
pub mod Tests
