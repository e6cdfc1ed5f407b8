-- ===== src/Federation.antt =====
-- pkg/federation: intervention.go, retry.go and the companies of controller.go.
pub mod Interventions
pub mod Retries
pub mod Companies
pub mod Heartbeats
