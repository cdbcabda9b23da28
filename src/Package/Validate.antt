-- ===== src/Package/Validate.antt =====
-- `PackageValidateService::package_validate` of
-- src/lib-co-repo/src/services/package_validate.rs, its loops as functions of their own. `order` is
-- the order in which a HashMap gives its keys.
pub mod Resolved
pub mod Missing
use kuintessence.Prelude.{
  String, Bool, true, false, List, [], ◌∷◌, ◌++◌, map, Result, ok, err, ok_or, ◌>>=◌, str_eq, find,
  if◌then◌else◌,
}
use kuintessence.Package.Materials.{SoftwareData}
use kuintessence.Package.Usecase.{
  TextRef, FileRef, file_input_ref, InputSlot, descriptor_of, TemplateFile, TemplateFileInfo,
  ValidateData,
}
use kuintessence.Package.Preview.{InDescriptor, dynamic_input, CommandPreview, facility_from}
use kuintessence.Package.Parts.{
  PackageError, no_such_template, not_implemented, Parts, Check, fold_m, find_argument,
  find_environment, find_input, mount_text, mount_file, slot_fills, refuses,
}
use kuintessence.Package.Outputs.{output_slot}
use kuintessence.Package.Sorts.{number}

module _ (software : SoftwareData) where
  -- The loop over the references of an input slot.
  unfoldable pub mount_slot : InputSlot → Check
  unfolding mount_text mount_file
  mount_slot (InputSlot.text descriptor text_rule ref_materials metadata optional) =
      let from = InDescriptor.input_slot descriptor in
      fold_m (mount_text software from (slot_fills from)) ref_materials
  mount_slot (InputSlot.file descriptor ref_materials metadata optional) =
      let from = InDescriptor.input_slot descriptor in
      fold_m (mount_file software from (slot_fills from)) ref_materials

  -- The first look at what the file name of a template is mounted on.
  unfoldable pub check_file_name : FileRef → Result PackageError (Unit {0})
  unfolding find_argument find_environment find_input
  check_file_name (FileRef.arg_ref descriptor placeholder_nth sort) =
      find_argument software.arguments descriptor >>= λ _. ok tt
  check_file_name (FileRef.env_ref descriptor placeholder_nth) =
      find_environment software.environments descriptor >>= λ _. ok tt
  check_file_name FileRef.std_in = ok tt
  check_file_name (file_input_ref descriptor) =
      find_input software.filesome_inputs descriptor >>= λ _. ok tt
  check_file_name (FileRef.template_ref descriptor ref_keys) = err not_implemented

  unfoldable pub check_template_file : TemplateFile → Parts → Result PackageError Parts
  unfolding check_file_name
  check_template_file t p =
      fold_m (λ r (u : Unit {0}). check_file_name r) t.as_file_name tt >>= λ _. ok p

  -- `is_empty() || len() == 1 && matches!(…, FileRef::FileInputRef(_))`
  abbrev pub is_one_file : List FileRef → Bool
  is_one_file [] = true
  is_one_file (file_input_ref descriptor ∷ []) = true
  is_one_file _ = false

  -- The body of the loop over the templates that are filled.
  unfoldable pub mount_template : List TemplateFile → List TemplateFileInfo → String → Check
  unfolding mount_text mount_file
  mount_template template_files infos descriptor p =
      let from = InDescriptor.template descriptor in
      ok_or (no_such_template descriptor)
        (find (λ (t : TemplateFile). str_eq t.descriptor descriptor) template_files)
      >>= λ using_template.
          ok_or (no_such_template descriptor)
            (find (λ (t : TemplateFileInfo). str_eq t.descriptor descriptor) infos)
          >>= λ _. fold_m (mount_text software from refuses) using_template.as_content p >>= λ p.
              fold_m (mount_file software from refuses) using_template.as_file_name (
                if is_one_file using_template.as_file_name
                then p
                else record p { file_infos = p.file_infos ++ dynamic_input from ∷ [] })

abbrev pub no_parts : Parts
no_parts = record {
  argument_formats_sorts = [];
  environment_formats = [];
  file_infos = [];
  std_in = InDescriptor.nothing;
  templates_kv_map = [];
  collect_previews = [];
}

unfoldable pub package_validate :
    (List String → List String) → ValidateData → Result PackageError CommandPreview
unfolding mount_slot check_template_file mount_template output_slot number facility_from
package_validate order x =
    let software = x.software_data in
    let spec = x.usecase_data.spec in
    fold_m (mount_slot software) spec.input_slots no_parts >>= λ p.
    fold_m (check_template_file software) spec.template_files p >>= λ p.
    fold_m (mount_template software spec.template_files x.usecase_data.template_file_infos)
      (order (map (λ e. e.0) p.templates_kv_map)) p
    >>= λ p.
        fold_m
          (output_slot spec.input_slots software.filesome_outputs spec.output_slots
            x.usecase_data.collected_outs)
          spec.output_slots p
        >>= λ p. number p.argument_formats_sorts >>= λ argument_formats_sorts2. ok (record {
          software_facility = facility_from software.spec;
          command_name = spec.command_file;
          argument_formats_sorts = argument_formats_sorts2;
          environment_formats = p.environment_formats;
          templates_kv_map = p.templates_kv_map;
          std_in = p.std_in;
          file_infos = p.file_infos;
          collect_previews = p.collect_previews;
        })
