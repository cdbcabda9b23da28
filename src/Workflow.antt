-- ===== src/Workflow.antt =====
-- The workflow engine of the kernel: src/kernel/src/models/workflow_engine,
-- src/kernel/src/models/impls and src/kernel/src/services/workflow_engine.
pub mod Common
pub mod Instance
pub mod Slots
pub mod Entry
pub mod Counts
pub mod Nodes
pub mod Exec
pub mod Store
pub mod Lifecycle
pub mod Draft
pub mod Convert
pub mod Batch
pub mod Schedule
pub mod Receiver
pub mod Service
mod Examples
