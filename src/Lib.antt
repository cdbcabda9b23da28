-- ===== src/Lib.antt =====
-- Verification of kuintessence, a platform that schedules workflows of computing tasks on
-- clusters.
--
-- The development follows five parts. The first is the workflow engine of the cloud side. A user's
-- draft of a workflow is validated, converted to a workflow instance and stored with one row for
-- each of its nodes (a batch node gets one more row for each sub task). The scheduler then starts
-- the nodes that depend on nothing, agents run them, and each report of an agent makes the
-- scheduler look for the nodes that come next. The second is the agent: its queue of tasks, which
-- runs the sub tasks of a task one after the other up to a limit, and the three services that
-- carry the sub tasks out: they deploy software, run jobs on the cluster and collect outputs. The
-- third is the way of a file: its upload in parts, and the moves that are registered for it, to a
-- snapshot in the cache or to a storage server with a record on the net disk. The fourth is the
-- validation of the packages that software and its use cases come in. The fifth is the parsing of
-- a node's use case to a task, with the node's inputs in the places that the package names, and
-- the task's way to a cluster.
--
-- Workflow.Common, Workflow.Instance: the data types of src/kernel/src/models/workflow_engine. A
-- Uuid is its number, a HashMap is the list of its entries, a serde_json Value is the text of the
-- document, a time stamp is a number. Workflow.Slots: the methods of NodeSpec in
-- src/kernel/src/models/impls/workflow_instance.rs. Workflow.Counts and Workflow.Nodes:
-- sub_node_count and parse_node_instances of the same file. Workflow.Draft:
-- src/kernel/src/models/impls/workflow_draft.rs, function by function, the bodies of its loops as
-- functions of their own (check_slot_relation, check_kind and so on). Workflow.Convert: the
-- conversions of drafts in src/kernel/src/models/impls/node_instance.rs. Workflow.Entry,
-- Workflow.Batch and Workflow.Schedule: src/kernel/src/services/workflow_engine/schedule.rs, that
-- is find_entry_nodes_ids, debatch with what it calls, and schedule_next_nodes (first_entries and
-- next_entries are the two arms of its match, prepare_nodes its loop over the entries, start_nodes
-- what follows; it sends the tasks by Usecases.Select). Workflow.Lifecycle: pause_workflow,
-- continue_workflow and terminate_workflow of that file. Workflow.Receiver: receive_node_status of
-- src/kernel/src/services/workflow_engine/status_receiver.rs, which calls the scheduler.
-- Workflow.Service: src/kernel/src/services/workflow_engine/workflow.rs, which validates,
-- converts, stores and starts. Workflow.Store: the shared repository of
-- src/co/src/infrastructure/repositories/sea_orm_db_repository, whose reads go to the tables and
-- whose updates wait as statements for save_changed, and the text storage of
-- src/co/src/infrastructure/repositories/redis_repository. Workflow.Exec is the monad of calls
-- that change the world and may fail. Agent.Types, Agent.Repository and Agent.Scheduler: the
-- entities of src/agent/domain/src/model, the repository of
-- src/agent/app/src/infrastructure/repository.rs, in memory and on disk, and the task scheduler of
-- src/agent/service/src/task_scheduler.rs, for which the services of sub tasks and of reports are
-- parameters that change the agent in any way. Agent.Site: the commands and values that the
-- agent's services exchange, with the calls that were made. Agent.Jobs, Agent.Deployment and
-- Agent.Collection: those three services, src/agent/service/src/run_job.rs, deploy_software.rs and
-- collection_task.rs. Files.Cache and Files.Multipart: the cache of
-- src/kernel/src/services/file/supports/cache.rs and the multipart uploads of
-- src/kernel/src/services/file/multipart.rs. Files.Server: the data of the other file services,
-- and the state that they share. Files.Snapshots, Files.Tables (the metadata of files),
-- Files.NetDisk and Files.Mover: the services of src/kernel/src/services/file/supports and
-- src/kernel/src/services/file/mover.rs, each with its repository; Files.Directories: the
-- repository of the net disk. Package.Materials, Package.Usecase and Package.Preview: the data of
-- src/lib-co-repo/src/models; Package.Parts, Package.Outputs, Package.Sorts and Package.Validate:
-- package_validate of src/lib-co-repo/src/services/package_validate.rs, its loops as functions of
-- their own. Usecases.Task: src/kernel/src/models/task.rs. Usecases.Formats, Usecases.Content,
-- Usecases.Fill, Usecases.Outputs and Usecases.Parse: parse_task of
-- src/kernel/src/services/use_cases/software_computing.rs with what it calls, and Usecases.Service
-- its other operations with those of script.rs; Usecases.NoAction and Usecases.Milestones:
-- no_action.rs and milestone.rs beside it; Usecases.Select: the choice among these services by the
-- kind of the node, src/co/src/infrastructure/external_services/inner_usecase_select_service.rs,
-- with those that src/co/src/infrastructure/service_provider.rs registers. Usecases.Clusters: the
-- rows of clusters and of software in
-- src/co/src/infrastructure/repositories/sea_orm_db_repository, and
-- src/kernel/src/services/task_distribution.rs. Tests and witnesses stand in Workflow.Examples and
-- Files.Examples with their children, in Agent.Examples, in Package.Examples and in
-- Usecases.Examples.
--
-- An anyhow error is the value `err`, a panic (`unwrap` on None, `unreachable!`) is `panic`.
-- Uuid::new_v4 and the random numbers are parameters: the n-th draw gives `fresh n` or `random n`.
-- The message queues, the file move service and the calls of operate_task are a parameter that
-- says which messages they accept; the messages are recorded in `sent`. The user of the session,
-- the database's time and the rows of clusters and software, which the engine only reads, are
-- parameters of the same record. The blake3 hash, the clock, the texts of stored files, the
-- repository of drafts, the set of known files, Handlebars and the server of packages are
-- parameters too, and so is the order in which a HashMap that the code has built gives its
-- entries. usize products wrap at 2^64, i32 sums and the u32 counter of the agent at 2^32, as in a
-- release build. The only fuel is the depth of the stack in sub_node_count, which ends in the
-- error stack_overflow; a depth above the longest chain of dependencies of batches is enough for a
-- workflow that has no cycle of them.
--
-- Not modelled: the background services and the cluster schedulers of the agent, the views of
-- files in real time, and billing, which are separate services; controllers, database entities,
-- message queues, telemetry and the macros of di-macro, which are glue around external crates.
-- Failures of the database connection are left out.
mod Prelude
pub mod Workflow
pub mod Agent
pub mod Files
pub mod Package
pub mod Usecases
