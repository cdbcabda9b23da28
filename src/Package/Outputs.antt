-- ===== src/Package/Outputs.antt =====
-- The output slots of a use case (src/lib-co-repo/src/services/package_validate.rs).
use kuintessence.Prelude.{
  String, Bool, true, false, List, [], ◌∷◌, ◌++◌, Result, ok, err, panic, ok_or, ◌>>=◌, str_eq,
  find, if◌then◌else◌,
}
use kuintessence.Package.Materials.{FilesomeOutput, path_of}
use kuintessence.Package.Usecase.{
  InputSlot, AppointedBy, collected_out, usecase_out, OutputSlot, CollectFrom, CollectTo, get_path,
  CollectRule, CollectedOut,
}
use kuintessence.Package.Preview.{
  InDescriptor, FileInfoPreview, dynamic_output, const_output, PreviewCollectFrom, PreviewCollectTo,
  PreviewCollectRule,
}
use kuintessence.Package.Parts.{
  PackageError, no_such_output_material, no_such_collected_out, no_such_text_slot,
  file_slot_appoints, mismatched_collected_out, not_implemented, Check,
}

unfoldable pub find_output : List FilesomeOutput → String → Result PackageError FilesomeOutput
find_output xs descriptor =
    ok_or (no_such_output_material descriptor) (find (λ x. str_eq x.descriptor descriptor) xs)

unfoldable pub find_collected : List CollectedOut → String → Result PackageError CollectedOut
find_collected xs descriptor =
    ok_or (no_such_collected_out descriptor) (find (λ x. str_eq x.descriptor descriptor) xs)

-- The search for the text slot that appoints the path of an output.
unfoldable pub check_appointed : List InputSlot → String → Result PackageError (Unit {0})
check_appointed [] text_input_descriptor = err (no_such_text_slot text_input_descriptor)
check_appointed (InputSlot.text descriptor text_rule ref_materials metadata optional ∷ slots) d =
    if str_eq descriptor d then ok tt else check_appointed slots d
check_appointed (InputSlot.file descriptor ref_materials metadata optional ∷ slots) d =
    if str_eq descriptor d then err (file_slot_appoints d) else check_appointed slots d

unfoldable pub collect_rule : CollectRule → PreviewCollectRule
collect_rule (CollectRule.regex pattern) = PreviewCollectRule.regex pattern
collect_rule (CollectRule.bottom_lines count) = PreviewCollectRule.bottom_lines count
collect_rule (CollectRule.top_lines count) = PreviewCollectRule.top_lines count

module _ (input_slots : List InputSlot) (materials : List FilesomeOutput) where
  -- Only a text output looks at who appoints the path.
  unfoldable pub appointed : Bool → AppointedBy → Result PackageError (Unit {0})
  unfolding check_appointed
  appointed true (AppointedBy.input_slot text_input_descriptor) =
      check_appointed input_slots text_input_descriptor
  appointed true AppointedBy.material = ok tt
  appointed false kind = ok tt

  -- The material of the first file slot with the descriptor; `unwrap` where there is none.
  unfoldable pub out_material : Bool → String → List OutputSlot → Result PackageError FilesomeOutput
  unfolding find_output appointed
  out_material for_text fileout [] = panic
  out_material for_text fileout (OutputSlot.text d c metadata optional validator ∷ slots) =
      out_material for_text fileout slots
  out_material for_text fileout
        (OutputSlot.file d (collected_out c) optional metadata validator ∷ slots) =
      if str_eq d fileout then err not_implemented else out_material for_text fileout slots
  out_material for_text fileout
        (OutputSlot.file d (usecase_out out) optional metadata validator ∷ slots) =
      if str_eq d fileout
      then (find_output materials out.file_out_material_descriptor >>= λ material.
          appointed for_text out.kind >>= λ _. ok material)
      else out_material for_text fileout slots

  module _ (output_slots : List OutputSlot) (collected_outs : List CollectedOut) where
    unfoldable pub collect_from : Bool → CollectFrom → Result PackageError PreviewCollectFrom
    unfolding out_material
    collect_from for_text (CollectFrom.file_out fileout) =
        out_material for_text fileout output_slots >>= λ material.
        ok (PreviewCollectFrom.file_out material.descriptor)
    collect_from for_text CollectFrom.stdout = ok PreviewCollectFrom.stdout
    collect_from for_text CollectFrom.stderr = ok PreviewCollectFrom.stderr

    -- A text is collected to a text, a file to a file.
    unfoldable pub collect_to : Bool → CollectedOut → Result PackageError PreviewCollectTo
    collect_to for_text x = elim x.to [
      | CollectTo.text ↦
          if for_text then ok PreviewCollectTo.text else err (mismatched_collected_out x.descriptor)
      | CollectTo.file out_file ↦
          if for_text
          then err (mismatched_collected_out x.descriptor)
          else ok (PreviewCollectTo.file (get_path out_file))
    ]

    unfoldable pub collect : Bool → String → Bool → Check
    unfolding find_collected collect_from collect_to collect_rule
    collect for_text descriptor optional p = find_collected collected_outs descriptor >>= λ x.
        collect_from for_text x.from >>= λ from. collect_to for_text x >>= λ to. ok (record p {
          collect_previews =
              p.collect_previews
              ++ record {
                from = from;
                rule = collect_rule x.collecting;
                to = to;
                optional = optional;
              }
                ∷ [];
        })

    -- The file that a use case puts out.
    unfoldable pub file_info : FilesomeOutput → AppointedBy → FileInfoPreview
    file_info x AppointedBy.material = const_output x.descriptor (path_of x.file_kind)
    file_info x (AppointedBy.input_slot text_input_descriptor) =
        dynamic_output (InDescriptor.input_slot text_input_descriptor) x.descriptor

    unfoldable pub output_slot : OutputSlot → Check
    unfolding collect find_output file_info
    output_slot (OutputSlot.text d collected_out_descriptor metadata optional validator) =
        collect true collected_out_descriptor optional
    output_slot (OutputSlot.file d (collected_out collector) optional metadata validator) =
        collect false collector optional
    output_slot (OutputSlot.file d (usecase_out out) optional metadata validator) = λ p.
        find_output materials out.file_out_material_descriptor >>= λ x.
        ok (record p { file_infos = p.file_infos ++ file_info x out.kind ∷ [] })
