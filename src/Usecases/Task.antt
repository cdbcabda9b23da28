-- ===== src/Usecases/Task.antt =====
-- src/kernel/src/models/task.rs: what a cluster is asked to do; `SoftwareComputingUsecase` is that of
-- src/lib-co-repo/src/models/software_computing_usecase.rs.
use kuintessence.Prelude.{ℕ, String, Bool, Option, List}
use kuintessence.Workflow.Common.{Uuid, HashMap, Requirements, ScriptInfo}
use kuintessence.Workflow.Instance.{TaskCommand}
use kuintessence.Package.Materials.{
  Argument, Environment, FilesomeInput, FilesomeOutput, SoftwareSpec,
}
use kuintessence.Package.Usecase.{UsecaseSpec, CollectedOut, TemplateFileInfo}

pub data FileTransmitKind : Type 0 where
  center p2p : (file_id : Uuid) (is_packaged : Bool) → FileTransmitKind
  text : (content : String) → FileTransmitKind

pub data CollectFrom : Type 0 where
  file_out : (path : String) → CollectFrom
  stdout stderr : CollectFrom

pub data CollectTo : Type 0 where
  file : (path : String) (id : Uuid) → CollectTo
  text : (id : Uuid) → CollectTo

pub data CollectRule : Type 0 where
  regex : String → CollectRule
  bottom_lines top_lines : ℕ → CollectRule

pub data StdInKind : Type 0 where
  text : (text : String) → StdInKind
  file : (path : String) → StdInKind
  nothing : StdInKind

pub data InFileForm : Type 0 where
  id : Uuid → InFileForm
  content : String → InFileForm

pub data FileInfo : Type 0 where
  input : (path : String) (is_package : Bool) (form : InFileForm) → FileInfo
  output : (id : Uuid) (path : String) (is_package optional : Bool) → FileInfo

pub data FacilityKind : Type 0 where
  spack : (name : String) (argument_list : List String) → FacilityKind
  singularity : (image : String) (tag : String) → FacilityKind

-- `From<SoftwareSpec> for FacilityKind`
abbrev pub facility_from : SoftwareSpec → FacilityKind
facility_from (SoftwareSpec.spack name argument_list) = FacilityKind.spack name argument_list
facility_from (SoftwareSpec.singularity image tag) = FacilityKind.singularity image tag

-- The fields of `TaskBody::UsecaseExecution`.
pub record Execution : Type 0 where
  pub name : String
  pub facility_kind : FacilityKind
  pub arguments : List String
  pub environments : HashMap String String
  pub std_in : StdInKind
  pub files : List FileInfo
  pub requirements : Option Requirements

pub data TaskBody : Type 0 where
  software_deployment : (facility_kind : FacilityKind) → TaskBody
  usecase_execution : Execution → TaskBody
  collected_out :
      (from : CollectFrom) (rule : CollectRule) (to : CollectTo) (optional : Bool) → TaskBody
  execute_script : (script_info : ScriptInfo) → TaskBody
  file_upload : (file_id : String) (path : String) (is_package : Bool) → TaskBody
  file_download : (kind : FileTransmitKind) (path : String) → TaskBody

pub record Task : Type 0 where
  pub id : Uuid
  pub body : List TaskBody
  pub command : TaskCommand

pub record SoftwareComputingUsecase : Type 0 where
  pub usecase_version_id : Uuid
  pub software_version_id : Uuid
  pub usecase_spec : UsecaseSpec
  pub software_spec : SoftwareSpec
  pub arguments : List Argument
  pub environments : List Environment
  pub filesome_inputs : List FilesomeInput
  pub collected_outs : List CollectedOut
  pub filesome_outputs : List FilesomeOutput
  pub template_file_infos : List TemplateFileInfo
