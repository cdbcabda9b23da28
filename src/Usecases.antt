-- ===== src/Usecases.antt =====
-- The parsing of a use case to a task, and the task's way to a cluster:
-- src/kernel/src/services/use_cases and src/kernel/src/services/task_distribution.rs.
pub mod Task
pub mod Packages
pub mod Formats
pub mod Content
pub mod Fill
pub mod Outputs
pub mod Clusters
pub mod Parse
pub mod Service
pub mod NoAction
pub mod Milestones
pub mod Select
mod Examples
