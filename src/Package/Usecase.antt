-- ===== src/Package/Usecase.antt =====
-- The data of a use case package:
-- src/lib-co-repo/src/models/abilities/software_computing/usecase and
-- src/lib-co-repo/src/models/package.rs.
use kuintessence.Prelude.{ℕ, String, Bool, Option, List}
use kuintessence.Prelude.Int.{ℤ}
use kuintessence.Workflow.Common.{HashMap}
use kuintessence.Package.Materials.{Metadata, OutValidator, SoftwareData}

pub record Requirements : Type 0 where
  pub cpu_cores : Option ℕ
  pub node_count : Option ℤ
  pub max_wall_time : Option ℕ
  pub max_cpu_time : Option ℕ
  pub stop_time : Option ℕ

pub data TextRule : Type 0 where
  json number : TextRule
  regex : (pattern : String) → TextRule

pub data TextRef : Type 0 where
  arg_ref : (descriptor : String) (placeholder_nth sort : ℕ) → TextRef
  env_ref : (descriptor : String) (placeholder_nth : ℕ) → TextRef
  std_in : TextRef
  template_ref : (descriptor : String) (ref_keys : List String) → TextRef

pub data FileRef : Type 0 where
  arg_ref : (descriptor : String) (placeholder_nth sort : ℕ) → FileRef
  env_ref : (descriptor : String) (placeholder_nth : ℕ) → FileRef
  std_in : FileRef
  file_input_ref : (descriptor : String) → FileRef
  template_ref : (descriptor : String) (ref_keys : List String) → FileRef

pub data InputSlot : Type 0 where
  text :
      (descriptor : String) (text_rule : Option TextRule) (ref_materials : List TextRef)
      (metadata : Metadata) (optional : Bool)
      → InputSlot
  file :
      (descriptor : String) (ref_materials : List FileRef) (metadata : Metadata) (optional : Bool)
      → InputSlot

-- `InputSlot::descriptor`
abbrev pub descriptor_of : InputSlot → String
descriptor_of (InputSlot.text descriptor text_rule ref_materials metadata optional) = descriptor
descriptor_of (InputSlot.file descriptor ref_materials metadata optional) = descriptor

pub record TemplateFile : Type 0 where
  pub descriptor : String
  pub path : String
  pub as_content : List TextRef
  pub as_file_name : List FileRef

pub data AppointedBy : Type 0 where
  material : AppointedBy
  input_slot : (text_input_descriptor : String) → AppointedBy

pub record FileOutAndAppointedBy : Type 0 where
  pub file_out_material_descriptor : String
  pub kind : AppointedBy

pub data FileOutOrigin : Type 0 where
  collected_out : (descriptor : String) → FileOutOrigin
  usecase_out : FileOutAndAppointedBy → FileOutOrigin

pub data OutputSlot : Type 0 where
  text :
      (descriptor collected_out_descriptor : String) (metadata : Metadata) (optional : Bool)
      (validator : Option OutValidator)
      → OutputSlot
  file :
      (descriptor : String) (origin : FileOutOrigin) (optional : Bool) (metadata : Metadata)
      (validator : Option OutValidator)
      → OutputSlot

pub record UsecaseSpec : Type 0 where
  pub command_file : String
  pub merge_stdout_and_stderr : Bool
  pub input_slots : List InputSlot
  pub template_files : List TemplateFile
  pub output_slots : List OutputSlot
  pub flag_arguments : HashMap String ℕ
  pub flag_environments : List String
  pub std_out_validator : Option OutValidator
  pub std_err_validator : Option OutValidator
  pub requirements : Option Requirements
  pub metadata : Metadata

pub data CollectFrom : Type 0 where
  file_out : (descriptor : String) → CollectFrom
  stdout stderr : CollectFrom

pub data OutFile : Type 0 where
  normal batched : (path : String) → OutFile

abbrev pub get_path : OutFile → String
get_path (OutFile.normal path) = path
get_path (OutFile.batched path) = path

pub data CollectTo : Type 0 where
  file : OutFile → CollectTo
  text : CollectTo

pub data CollectRule : Type 0 where
  regex : (pattern : String) → CollectRule
  bottom_lines top_lines : (count : ℕ) → CollectRule

pub record CollectedOut : Type 0 where
  pub descriptor : String
  pub from : CollectFrom
  pub to : CollectTo
  pub collecting : CollectRule
  pub validator : Option OutValidator
  pub metadata : Metadata

pub record TemplateFileInfo : Type 0 where
  pub descriptor : String
  pub content : String
  pub file_name : String

pub record UsecaseData : Type 0 where
  pub spec : UsecaseSpec
  pub collected_outs : List CollectedOut
  pub template_file_infos : List TemplateFileInfo

pub record ValidateData : Type 0 where
  pub software_data : SoftwareData
  pub usecase_data : UsecaseData
