-- ===== src/Agent.antt =====
-- The agent that runs tasks on a cluster: src/agent.
pub mod Types
pub mod Repository
pub mod Scheduler
pub mod Site
pub mod Jobs
pub mod Deployment
pub mod Collection
mod Examples
