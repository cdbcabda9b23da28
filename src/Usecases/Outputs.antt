-- ===== src/Usecases/Outputs.antt =====
-- The loop of `parse_task` (src/kernel/src/services/use_cases/software_computing.rs) over the output
-- slots of a use case. `texts` reads the text storage.
pub mod Validated
use kuintessence.Prelude.{
  String, Bool, true, false, Option, none, some, List, [], ◌∷◌, ◌++◌, Result, ok, panic, unwrap,
  ◌>>=◌, str_eq, find, if◌then◌else◌, get_elem?,
}
use kuintessence.Workflow.Common.{Uuid, NodeInputSlotKind}
use kuintessence.Workflow.Instance.{NodeSpec, Error}
use kuintessence.Workflow.Slots
use kuintessence.Workflow.Slots.{input_slot, all_tasks_file_outputs, all_tasks_text_outputs}
use kuintessence.Package.Materials.{FilesomeOutput, FileKind, path_of}
use kuintessence.Package.Usecase
use kuintessence.Package.Usecase.{
  OutputSlot, FileOutOrigin, FileOutAndAppointedBy, AppointedBy, CollectedOut, get_path,
}
use kuintessence.Usecases.Task.{
  CollectFrom, CollectTo, CollectRule, FileInfo, TaskBody, SoftwareComputingUsecase,
}

-- The task's body and the files.
abbrev pub Outs : Type 0
Outs = List TaskBody × List FileInfo

abbrev pub OutStep : Type 0
OutStep = Outs → Result Error Outs

unfoldable pub collect_rule : Usecase.CollectRule → CollectRule
collect_rule (Usecase.CollectRule.regex pattern) = CollectRule.regex pattern
collect_rule (Usecase.CollectRule.bottom_lines count) = CollectRule.bottom_lines count
collect_rule (Usecase.CollectRule.top_lines count) = CollectRule.top_lines count

abbrev pub first : List Uuid → Result Error Uuid
first ids = unwrap (get_elem? ids 0)

abbrev pub path_or : Option String → String → String
path_or none path = path
path_or (some x) path = x

abbrev pub is_batched : FileKind → Bool
is_batched (FileKind.normal path) = false
is_batched (FileKind.batched path) = true

module _ (u : SoftwareComputingUsecase) where
  unfoldable pub find_output : String → Result Error FilesomeOutput
  find_output descriptor =
      unwrap (find (λ (el : FilesomeOutput). str_eq el.descriptor descriptor) u.filesome_outputs)

  unfoldable pub find_collected : String → Result Error CollectedOut
  find_collected descriptor =
      unwrap (find (λ (el : CollectedOut). str_eq el.descriptor descriptor) u.collected_outs)

  module _ (texts : Uuid → Result Error String) (node_spec : NodeSpec) where
    appointing_text : NodeInputSlotKind → Result Error (Option String)
    appointing_text (NodeInputSlotKind.text contents rule) =
        unwrap contents >>= first >>= texts >>= λ value. ok (some value)
    appointing_text _ = panic

    -- `out_path_alter`: the path that an input slot appoints.
    unfoldable pub out_path_alter : AppointedBy → Result Error (Option String)
    unfolding input_slot appointing_text
    out_path_alter AppointedBy.material = ok none
    out_path_alter (AppointedBy.input_slot text_input_descriptor) =
        input_slot node_spec text_input_descriptor >>= λ slot. appointing_text slot.kind

    unfoldable pub out_path : FileOutAndAppointedBy → Result Error String
    unfolding find_output out_path_alter
    out_path out = find_output out.file_out_material_descriptor >>= λ filesome_output.
        out_path_alter out.kind >>= λ alter. ok (path_or alter (path_of filesome_output.file_kind))

    -- The path of the first file slot with the descriptor, and the empty path if there is none.
    unfoldable pub path_of_out : String → List OutputSlot → Result Error String
    unfolding out_path
    path_of_out fileout [] = ok ""
    path_of_out fileout (OutputSlot.text d c metadata optional validator ∷ slots) =
        path_of_out fileout slots
    path_of_out fileout
          (OutputSlot.file d (FileOutOrigin.collected_out c) optional metadata validator ∷ slots) =
        if str_eq d fileout then panic else path_of_out fileout slots
    path_of_out fileout
          (OutputSlot.file d (FileOutOrigin.usecase_out out) optional metadata validator ∷ slots) =
        if str_eq d fileout then out_path out else path_of_out fileout slots

    unfoldable pub collect_from : Usecase.CollectFrom → Result Error CollectFrom
    unfolding path_of_out
    collect_from (Usecase.CollectFrom.file_out fileout) =
        path_of_out fileout u.usecase_spec.output_slots >>= λ path. ok (CollectFrom.file_out path)
    collect_from Usecase.CollectFrom.stdout = ok CollectFrom.stdout
    collect_from Usecase.CollectFrom.stderr = ok CollectFrom.stderr

    unfoldable pub text_to : String → Usecase.CollectTo → Result Error CollectTo
    unfolding Slots.output_slot all_tasks_text_outputs
    text_to descriptor Usecase.CollectTo.text =
        Slots.output_slot node_spec descriptor >>= all_tasks_text_outputs >>= first >>= λ id.
        ok (CollectTo.text id)
    text_to descriptor (Usecase.CollectTo.file out_file) = panic

    unfoldable pub file_to : String → Usecase.CollectTo → Result Error CollectTo
    unfolding Slots.output_slot all_tasks_file_outputs
    file_to descriptor (Usecase.CollectTo.file out_file) =
        Slots.output_slot node_spec descriptor >>= all_tasks_file_outputs >>= first >>= λ id.
        ok (CollectTo.file (get_path out_file) id)
    file_to descriptor Usecase.CollectTo.text = panic

    -- A collected output; `to` is where the slot puts it.
    unfoldable pub collect : (Usecase.CollectTo → Result Error CollectTo) → String → Bool → OutStep
    unfolding find_collected collect_from collect_rule
    collect to descriptor optional (body, files) = find_collected descriptor >>= λ x.
        collect_from x.from >>= λ from. to x.to >>= λ to.
        ok (body ++ TaskBody.collected_out from (collect_rule x.collecting) to optional ∷ [], files)

    unfoldable pub put_file : String → FileOutAndAppointedBy → Bool → OutStep
    unfolding Slots.output_slot find_output out_path_alter all_tasks_file_outputs
    put_file descriptor out optional (body, files) =
        Slots.output_slot node_spec descriptor >>= λ task_output_slot.
        find_output out.file_out_material_descriptor >>= λ filesome_output.
        out_path_alter out.kind >>= λ alter.
        all_tasks_file_outputs task_output_slot >>= first >>= λ id. ok (
          body,
          files
              ++ FileInfo.output id (path_or alter (path_of filesome_output.file_kind))
                  (is_batched filesome_output.file_kind) optional
                ∷ [],
        )

    -- The body of the loop.
    unfoldable pub output_slot : OutputSlot → OutStep
    unfolding Slots.output_slot collect text_to file_to put_file
    output_slot (OutputSlot.text descriptor collected_out_descriptor metadata optional validator)
          outs =
        collect (text_to descriptor) collected_out_descriptor optional outs
    output_slot
          (OutputSlot.file descriptor (FileOutOrigin.collected_out c) optional metadata validator)
          outs =
        Slots.output_slot node_spec descriptor >>= λ task_output_slot.
        collect (file_to descriptor) c optional outs
    output_slot
          (OutputSlot.file descriptor (FileOutOrigin.usecase_out out) optional metadata validator)
          outs =
        put_file descriptor out optional outs
