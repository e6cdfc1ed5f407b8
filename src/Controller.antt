-- ===== src/Controller.antt =====
-- pkg/controller: the agents, their health checks and restarts, and the tasks that they run.
pub mod Lifecycle
pub mod Agents
pub mod Tasks
pub mod Calls
