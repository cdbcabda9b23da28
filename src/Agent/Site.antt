-- ===== src/Agent/Site.antt =====
-- What the services of sub tasks ask others for: the commands and values of
-- src/agent/domain/src/command.rs and src/agent/domain/src/model/vo, and the traits of
-- src/agent/domain/src/service and src/agent/domain/src/sender.
use kuintessence.Prelude.{String, Bool, Option, List, [], ◌∷◌, ◌++◌, Result, ok, err, if◌then◌else◌}
use kuintessence.Prelude.Int.{ℤ}
use kuintessence.Workflow.Common.{Uuid, HashMap}
use kuintessence.Workflow.Exec.{Exec}
use kuintessence.Agent.Types.{
  TaskStatus, File, StdInKind, CollectTo, Requirements, TaskUsedResource, AgentError, other_service,
}
use kuintessence.Agent.Repository.{Agent, Act}

pub data FileTransferStatus : Type 0 where
  start stop pause continue unknown : FileTransferStatus

pub record FileTransferCommand : Type 0 where
  pub id : Uuid
  pub parent_id : Uuid
  pub status : FileTransferStatus
  pub task_file : Option File

pub data DeployerType : Type 0 where
  spack apptainer unknown : DeployerType

pub data JobState : Type 0 where
  queuing running suspended completing completed failed unknown : JobState

pub record Job : Type 0 where
  pub id : String
  pub name : String
  pub owner : String
  pub state : JobState
  pub exit_status_code : ℤ
  pub error_output : String
  pub resource_used : TaskUsedResource

-- `path` is the name of the script in the directory of the task.
pub record ScriptInfo : Type 0 where
  pub id : Uuid
  pub is_mpi_before_loader : Bool
  pub parent_id : Uuid
  pub name : String
  pub load_software : String
  pub path : String
  pub arguments : List String
  pub environments : HashMap String String
  pub std_in : StdInKind
  pub requirements : Option Requirements

-- The calls of other services that have an effect outside of the agent's repository.
pub data Call : Type 0 where
  download upload : FileTransferCommand → Call
  submit_job_script : ScriptInfo → Call
  delete_job pause_job continue_job : (job_id : String) → Call
  report_completed_task report_failed_task : (id : Uuid) → Call
  deployment : (id : Uuid) (task_status : TaskStatus) → Call
  install : DeployerType → (name : String) (parameters : List String) → Call
  save_file : (parent_id : Uuid) (output : String) (to : CollectTo) → Call

-- The agent, and the calls that were made.
pub record Site : Type 0 where
  pub agent : Agent
  pub calls : List Call

abbrev pub SiteAct : Type 0 → Type 0
SiteAct A = Exec AgentError Site A

abbrev pub on_agent : {A : Type 0} → Act A → SiteAct A
on_agent m s = let (r, agent) = m s.agent in (r, record s { agent = agent })

-- `let _ = …`: the result is dropped.
abbrev pub ignore : {A : Type 0} → SiteAct A → SiteAct (Unit {0})
ignore m s = let (r, s') = m s in (ok tt, s')

-- A call is made, and taken or not.
abbrev pub call : (Call → Bool) → Call → SiteAct (Unit {0})
call takes c s =
    (if takes c then ok tt else err other_service, record s { calls = s.calls ++ c ∷ [] })

-- `SoftwareDeployerService`, as far as it is called.
pub record Deployer : Type 0 where
  pub find_installed_hash : String → List String → Result AgentError (Option String)
  pub gen_load_script : String → String
