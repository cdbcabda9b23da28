-- ===== src/Agent/Types.antt =====
-- src/agent/domain/src/model/entity/task.rs, file.rs and src/agent/domain/src/model/vo/task.rs. A
-- time stamp is the number of its seconds.
use kuintessence.Prelude.{ℕ, String, Bool, true, false, Option, List}
use kuintessence.Prelude.Int.{ℤ}
use kuintessence.Workflow.Common.{Uuid, HashMap}

pub data TaskStatus : Type 0 where
  queuing running suspended completing completed failed reported unknown : TaskStatus

pub data FileType : Type 0 where
  input output : FileType

pub data FileStatus : Type 0 where
  remote_only local_only both downloading uploading waitting_create not_exist unknown : FileStatus

pub record File : Type 0 where
  pub id : Uuid
  pub metadata_id : Uuid
  pub file_name : String
  pub related_task_body : Uuid
  pub file_type : FileType
  pub status : FileStatus
  pub is_optional : Bool
  pub is_packaged : Bool
  pub text : String
  pub is_generated : Bool

pub record FileInfo : Type 0 where
  pub id : Uuid
  pub metadata_id : Uuid
  pub path : String
  pub is_package : Bool
  pub optional : Bool
  pub file_type : FileType
  pub text : String
  pub is_generated : Bool

pub data StdInKind : Type 0 where
  text : (text : String) → StdInKind
  file : (path : String) → StdInKind
  unknown : StdInKind

pub data SoftwareDeploymentStatus : Type 0 where
  install uninstall : SoftwareDeploymentStatus

pub data CollectFrom : Type 0 where
  file_out : (path : String) → CollectFrom
  stdout stderr : CollectFrom

pub data CollectTo : Type 0 where
  file : (id : Uuid) (path : String) → CollectTo
  text : (id : Uuid) → CollectTo

pub data CollectRule : Type 0 where
  regex : (exp : String) → CollectRule
  bottom_lines top_lines : (n : ℕ) → CollectRule

pub data TaskType : Type 0 where
  software_deployment : (status : SoftwareDeploymentStatus) → TaskType
  usecase_execution :
      (name : String) (arguments : List String) (environments : HashMap String String)
      (std_in : StdInKind) (files : List FileInfo)
      → TaskType
  collected_out :
      (from : CollectFrom) (rule : CollectRule) (to : CollectTo) (optional : Bool) → TaskType
  unknown : TaskType

pub data FacilityKind : Type 0 where
  spack : (name : String) (argument_list : List String) → FacilityKind
  singularity : (image tag : String) → FacilityKind
  unknown : FacilityKind

pub record Requirements : Type 0 where
  pub cpu_cores : Option ℕ
  pub node_count : Option ℤ
  pub max_wall_time : Option ℕ
  pub max_cpu_time : Option ℕ
  pub stop_time : Option ℕ

pub record TaskUsedResource : Type 0 where
  pub cpu : ℕ
  pub avg_memory : ℕ
  pub max_memory : ℕ
  pub storage : ℕ
  pub wall_time : ℕ
  pub cpu_time : ℕ
  pub node : ℕ
  pub start_time : ℤ
  pub end_time : ℤ

pub record SubTask : Type 0 where
  pub id : Uuid
  pub parent_id : Uuid
  pub status : TaskStatus
  pub facility_kind : FacilityKind
  pub task_type : TaskType
  pub job_id : String
  pub failed_reason : String
  pub resource_used : Option TaskUsedResource
  pub requirements : Option Requirements

pub record Task : Type 0 where
  pub id : Uuid
  pub status : TaskStatus
  pub body : List SubTask
  pub update_time : ℕ

pub data TaskDisplayType : Type 0 where
  software_deployment usecase_execution collected_out unknown : TaskDisplayType

-- `TaskDisplayType::from`
abbrev pub display_type : TaskType → TaskDisplayType
display_type (TaskType.software_deployment status) = TaskDisplayType.software_deployment
display_type (TaskType.usecase_execution name arguments environments std_in files) =
    TaskDisplayType.usecase_execution
display_type (TaskType.collected_out from rule to optional) = TaskDisplayType.collected_out
display_type TaskType.unknown = TaskDisplayType.unknown

-- The comparisons with a status.
abbrev pub is_queuing : TaskStatus → Bool
is_queuing TaskStatus.queuing = true
is_queuing _ = false

abbrev pub is_running : TaskStatus → Bool
is_running TaskStatus.running = true
is_running _ = false

abbrev pub is_suspended : TaskStatus → Bool
is_suspended TaskStatus.suspended = true
is_suspended _ = false

abbrev pub is_completing : TaskStatus → Bool
is_completing TaskStatus.completing = true
is_completing _ = false

abbrev pub is_completed : TaskStatus → Bool
is_completed TaskStatus.completed = true
is_completed _ = false

pub data AgentError : Type 0 where
  no_such_task no_such_id : AgentError
  not_in_queue : (id : Uuid) → AgentError
  no_queued_body : (id : Uuid) → AgentError
  no_sub_task_service : (task_type : TaskDisplayType) → AgentError
  unable_to_pause : (id : Uuid) → AgentError
  -- `No Such job id.` of a file, and the errors of the job runner and of the collection.
  no_such_file no_script_info : AgentError
  unable_to_collect mismatched_task_type : (id : Uuid) → AgentError
  -- An error of a sub task service or of the report service.
  other_service : AgentError
