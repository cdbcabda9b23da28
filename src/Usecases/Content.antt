-- ===== src/Usecases/Content.antt =====
-- `get_content` of src/kernel/src/services/use_cases/software_computing.rs: the input of a node at
-- one of its slots. `texts` reads the text storage.
use kuintessence.Prelude.{
  String, Bool, Option, none, some, List, [], map, Result, ok, panic, unwrap, ◌>>=◌, ◌&&◌, traverse,
  if◌then◌else◌,
}
use kuintessence.Workflow.Common.{Uuid, FileInput, NodeInputSlotKind, is_empty_input}
use kuintessence.Workflow.Instance.{NodeSpec, Error}
use kuintessence.Workflow.Slots.{input_slot}
use kuintessence.Usecases.Task.{FileInfo, InFileForm}
use kuintessence.Usecases.Formats.{join}

pub record InContent : Type 0 where
  pub literal : String
  pub infiles : List FileInfo

-- The name that a file input gets: the expected one, if there is one.
abbrev pub name_of : Option String → FileInput → String
name_of none content = content.file_metadata_name
name_of (some expected_file_name) content = expected_file_name

abbrev pub file_info_of : Option String → Bool → FileInput → FileInfo
file_info_of expected_file_name is_batch content =
    FileInfo.input (name_of expected_file_name content) is_batch
      (InFileForm.id content.file_metadata_id)

module _ (texts : Uuid → Result Error String) where
  -- The `match` on the kind of the slot.
  unfoldable pub content_of : NodeInputSlotKind → Result Error (Option InContent)
  unfolding join
  content_of (NodeInputSlotKind.text contents rule) =
      unwrap contents >>= traverse texts >>= λ texts.
      ok (some (record { literal = join texts; infiles = [] }))
  content_of (NodeInputSlotKind.file contents expected_file_name is_batch) =
      unwrap contents >>= λ contents. ok (
        some (record {
          literal = join (map (name_of expected_file_name) contents);
          infiles = map (file_info_of expected_file_name is_batch) contents;
        }))
  content_of NodeInputSlotKind.unknown = panic

  unfoldable pub get_content : NodeSpec → String → Result Error (Option InContent)
  unfolding input_slot is_empty_input content_of
  get_content node_spec input_slot_descriptor =
      input_slot node_spec input_slot_descriptor >>= λ slot. is_empty_input slot.kind >>= λ empty.
      if empty && slot.optional then ok none else content_of slot.kind
