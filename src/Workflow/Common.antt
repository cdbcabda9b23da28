-- ===== src/Workflow/Common.antt =====
-- src/kernel/src/models/workflow_engine/common.rs: the types that workflow drafts and workflow
-- instances share. A `Uuid` is its number, a `HashMap` the list of its entries, and a
-- `serde_json::Value` the text of the JSON document.
use kuintessence.Prelude.{
  ℕ, String, Bool, Option, List, Result, ok, panic, is_some, not, map, length, unwrap, ◌>>=◌,
}
use kuintessence.Prelude.Int.{ℤ}

abbrev pub Uuid : Type 0
Uuid = ℕ

abbrev pub HashMap : Type 0 → Type 0 → Type 0
HashMap K V = List (K × V)

abbrev pub Json : Type 0
Json = String

pub data SchedulingStrategy : Type 0 where
  manual : (clusters : List Uuid) → SchedulingStrategy
  auto : SchedulingStrategy
  prefer : (clusters : List Uuid) → SchedulingStrategy

pub data TransferStrategy : Type 0 where
  network disk : TransferStrategy

pub record SlotRelation : Type 0 where
  pub from_slot : String
  pub to_slot : String
  pub transfer_strategy : TransferStrategy

pub record NodeRelation : Type 0 where
  pub from_id : Uuid
  pub to_id : Uuid
  pub slot_relations : List SlotRelation

-- `node_count` is an `isize` in the source, the others are `usize`.
pub record Requirements : Type 0 where
  pub cpu_cores : Option ℕ
  pub node_count : Option ℤ
  pub max_wall_time : Option ℕ
  pub max_cpu_time : Option ℕ
  pub stop_time : Option ℕ

pub data Filler : Type 0 where
  auto_number : (start step : ℤ) → Filler
  enumeration : (items : List String) → Filler

pub data BatchStrategyKind : Type 0 where
  original_batch : BatchStrategyKind
  match_regex : (regex_to_match : String) (fill_count : ℕ) (filler : Filler) → BatchStrategyKind
  from_batch_outputs : BatchStrategyKind

pub record BatchStrategy : Type 0 where
  pub input_slot_descriptor : String
  pub renaming_pattern : Option String
  pub kind : BatchStrategyKind

pub record FileInput : Type 0 where
  pub file_metadata_id : Uuid
  pub file_metadata_name : String
  pub hash : String
  pub size : ℕ

-- `FileInput { file_metadata_id, ..Default::default() }`
abbrev pub file_input_of : Uuid → FileInput
file_input_of id = record { file_metadata_id = id; file_metadata_name = ""; hash = ""; size = 0 }

pub data Input : Type 0 where
  text : Uuid → Input
  file : FileInput → Input

pub data TextInputSlotRule : Type 0 where
  json number : TextInputSlotRule
  regex : (regex : String) → TextInputSlotRule
  any_string : TextInputSlotRule

pub data NodeInputSlotKind : Type 0 where
  text : (contents : Option (List Uuid)) (rule : TextInputSlotRule) → NodeInputSlotKind
  file :
      (contents : Option (List FileInput)) (expected_file_name : Option String) (is_batch : Bool)
      → NodeInputSlotKind
  unknown : NodeInputSlotKind

pub record NodeInputSlot : Type 0 where
  pub kind : NodeInputSlotKind
  pub optional : Bool
  pub descriptor : String
  pub description : Option String

pub data FileOutOrigin : Type 0 where
  collected_out usecase_out : FileOutOrigin

pub record SoftwareUsecaseComputing : Type 0 where
  pub usecase_version_id : Uuid
  pub software_version_id : Uuid

pub record Milestone : Type 0 where
  pub name : String
  pub url : String
  pub custom_message : String

pub data ScriptKind : Type 0 where
  python : ScriptKind

pub data ScriptOriginKind : Type 0 where
  git : (url : String) → ScriptOriginKind
  edit : (content : String) → ScriptOriginKind

-- `validator` is the `OutValidator` of lib-co-repo, as its JSON text.
pub record OutPathAndValidate : Type 0 where
  pub path : String
  pub validator : Option Json

pub record ScriptInfo : Type 0 where
  pub kind : ScriptKind
  pub input_path : HashMap String String
  pub output_path : HashMap String OutPathAndValidate
  pub origin : ScriptOriginKind

pub data NodeKind : Type 0 where
  software_usecase_computing : SoftwareUsecaseComputing → NodeKind
  no_action : NodeKind
  script : ScriptInfo → NodeKind
  milestone : Milestone → NodeKind

-- `is_empty_input`: `unreachable!` at an unknown kind.
unfoldable pub is_empty_input : {E : Type 0} → NodeInputSlotKind → Result E Bool
is_empty_input (NodeInputSlotKind.text contents rule) = ok (not (is_some contents))
is_empty_input (NodeInputSlotKind.file contents name batch) = ok (not (is_some contents))
is_empty_input NodeInputSlotKind.unknown = panic

-- `NodeInputSlot::inputs_count`: contents that are not there panic.
unfoldable pub inputs_count : {E : Type 0} → NodeInputSlotKind → Result E ℕ
inputs_count (NodeInputSlotKind.text contents rule) = unwrap contents >>= λ c. ok (length c)
inputs_count (NodeInputSlotKind.file contents name batch) = unwrap contents >>= λ c. ok (length c)
inputs_count NodeInputSlotKind.unknown = panic

-- `NodeInputSlot::inputs`
unfoldable pub inputs : {E : Type 0} → NodeInputSlotKind → Result E (List Input)
inputs (NodeInputSlotKind.text contents rule) = unwrap contents >>= λ c. ok (map Input.text c)
inputs (NodeInputSlotKind.file contents name batch) = unwrap contents >>= λ c. ok (map Input.file c)
inputs NodeInputSlotKind.unknown = panic
