-- ===== src/Workflow/Instance.antt =====
-- src/kernel/src/models/workflow_engine/workflow_instance.rs and node_instance.rs: the types of a
-- submitted workflow and of the rows of its nodes; TaskUsedResource and TaskResult are those of
-- src/kernel/src/models/task.rs. A time stamp is a number.
use kuintessence.Prelude.{ℕ, String, Bool, Option, List}
use kuintessence.Prelude.Int.{ℤ}
use kuintessence.Workflow.Common.{
  Uuid, HashMap, Json, SchedulingStrategy, NodeRelation, Requirements, BatchStrategy, NodeInputSlot,
  FileOutOrigin, NodeKind,
}

pub data WorkflowInstanceStatus : Type 0 where
  created pending running finished error stopping stopped pausing paused recovering unknown :
      WorkflowInstanceStatus

pub data NodeSpecOutputSlotKind : Type 0 where
  file :
      (origin : FileOutOrigin) (is_batch : Bool) (all_tasks_prepared_content_ids : List Uuid)
      → NodeSpecOutputSlotKind
  text : (all_tasks_prepared_text_keys : List Uuid) → NodeSpecOutputSlotKind

pub record NodeSpecOutputSlot : Type 0 where
  pub kind : NodeSpecOutputSlotKind
  pub descriptor : String
  pub description : Option String
  pub optional : Bool

pub record NodeSpec : Type 0 where
  pub kind : NodeKind
  pub id : Uuid
  pub name : String
  pub description : String
  pub input_slots : List NodeInputSlot
  pub output_slots : List NodeSpecOutputSlot
  pub scheduling_strategy : SchedulingStrategy
  pub batch_strategies : List BatchStrategy
  pub requirements : Option Requirements
  pub additional_datas : Option (HashMap String Json)

pub record WorkflowInstanceSpec : Type 0 where
  pub scheduling_strategy : SchedulingStrategy
  pub node_specs : List NodeSpec
  pub node_relations : List NodeRelation

pub record WorkflowInstance : Type 0 where
  pub id : Uuid
  pub name : String
  pub description : String
  pub logo : Option String
  pub status : WorkflowInstanceStatus
  pub spec : WorkflowInstanceSpec
  pub last_modified_time : ℕ
  pub user_id : Uuid

pub data NodeInstanceKind : Type 0 where
  software_usecase_computing no_action script milestone : NodeInstanceKind

pub data NodeInstanceStatus : Type 0 where
  created pending running finished error stopping stopped standby pausing paused recovering :
      NodeInstanceStatus

-- The counters are `u64`, the two times `i64`.
pub record TaskUsedResource : Type 0 where
  pub cpu : ℕ
  pub avg_memory : ℕ
  pub max_memory : ℕ
  pub storage : ℕ
  pub wall_time : ℕ
  pub cpu_time : ℕ
  pub node : ℕ
  pub start_time : ℤ
  pub end_time : ℤ

pub record NodeInstance : Type 0 where
  pub kind : NodeInstanceKind
  pub id : Uuid
  pub name : String
  pub is_parent : Bool
  pub batch_parent_id : Option Uuid
  pub flow_instance_id : Uuid
  pub status : NodeInstanceStatus
  pub cluster_id : Option Uuid
  pub log : Option String
  pub resource_meter : Option TaskUsedResource

-- `TaskCommand` of src/kernel/src/models/task.rs.
pub data TaskCommand : Type 0 where
  start pause continue delete : TaskCommand

pub data TaskResultStatus : Type 0 where
  success failed paused continued deleted : TaskResultStatus

pub record TaskResult : Type 0 where
  pub id : Uuid
  pub status : TaskResultStatus
  pub message : String
  pub used_resources : Option TaskUsedResource

-- The errors that the engine's code returns by `anyhow::bail!`, `anyhow!` and `?`.
pub data Error : Type 0 where
  -- `get_by_id` on a row that is not there.
  no_such_node_instance no_such_workflow_instance : Uuid → Error
  not_file_slot not_text_slot : (descriptor : String) → Error
  no_nth_output : (nth : ℕ) → Error
  unknown_input_kind : Error
  mismatched_input : (descriptor : String) → Error
  not_fully_scheduled : (node_id : Uuid) → Error
  no_such_sub_node : Error
  no_such_text : (key : Uuid) → Error
  no_such_workflow_draft : (id : Uuid) → Error
  -- A `WorkflowDraftException`, whichever it is.
  invalid_draft : Error
  -- `Unreachable node kind!`, `Node instance without cluster id!` and `No such cluster id!`.
  unreachable_node_kind without_cluster_id no_such_cluster_id : Error
  -- `get_by_id` of a cluster, and a list of arguments that is no JSON list of texts.
  no_such_cluster : (id : Uuid) → Error
  malformed_arguments : Error
  -- `No such sub task service called`, and `Seaorm repo no user id when need it.`
  no_such_service : NodeInstanceKind → Error
  no_user_id : Error
  -- A call of another service failed.
  service_failed : Error
  -- Recursion without end exhausts the stack.
  stack_overflow : Error
