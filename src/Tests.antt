-- ===== src/Tests.antt =====
-- Runs of the model on small inputs, and the theorems at inputs that meet their hypotheses.
mod Samples
mod Graphs
mod Workflows
mod Clusters
mod Dispatching
mod Health
mod Quotas
mod Interventions
mod Costs
mod Stores
mod Agents
mod Companies
mod Requests
mod Monitors
mod Schedules
