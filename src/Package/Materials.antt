-- ===== src/Package/Materials.antt =====
-- The data of a software package: src/lib-co-repo/src/models/abilities/common.rs and
-- src/lib-co-repo/src/models/abilities/software_computing/software. A HashMap is the list of its
-- entries.
use kuintessence.Prelude.{String, Bool, List}
use kuintessence.Workflow.Common.{HashMap}

abbrev pub Metadata : Type 0
Metadata = HashMap String String

pub data FileKind : Type 0 where
  normal : (path : String) → FileKind
  batched : (path : String) → FileKind

-- `match file_kind { Normal(path) => path, Batched(path) => path }`
abbrev pub path_of : FileKind → String
path_of (normal path) = path
path_of (batched path) = path

pub data ValidateRule : Type 0 where
  regex : (pattern : String) → ValidateRule
  is_empty : Bool → ValidateRule

pub data ValidatedOperation : Type 0 where
  report_success report_failure : ValidatedOperation

pub record OutValidator : Type 0 where
  pub validate_rules : ValidateRule
  pub pass_operation : ValidatedOperation
  pub failure_operation : ValidatedOperation
  pub metadata : Metadata

pub data SoftwareSpec : Type 0 where
  spack : (name : String) (argument_list : List String) → SoftwareSpec
  singularity : (image : String) (tag : String) → SoftwareSpec

pub record Argument : Type 0 where
  pub descriptor : String
  pub value_format : String
  pub metadata : Metadata

pub record Environment : Type 0 where
  pub descriptor : String
  pub key : String
  pub value_format : String
  pub metadata : Metadata

pub record FilesomeInput : Type 0 where
  pub descriptor : String
  pub file_kind : FileKind
  pub optional : Bool
  pub metadata : Metadata

pub record FilesomeOutput : Type 0 where
  pub descriptor : String
  pub file_kind : FileKind
  pub metadata : Metadata
  pub optional : Bool

pub record SoftwareData : Type 0 where
  pub spec : SoftwareSpec
  pub arguments : List Argument
  pub environments : List Environment
  pub filesome_inputs : List FilesomeInput
  pub filesome_outputs : List FilesomeOutput
