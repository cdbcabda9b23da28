-- ===== src/Package/Examples.antt =====
-- Tests and witnesses for the validation of packages.
use kuintessence.Prelude.{◌≡◌, refl, false, none, String, [], ◌∷◌, ok, panic, map, All}
use kuintessence.Package.Materials.{FileKind, SoftwareSpec, SoftwareData}
use kuintessence.Package.Usecase.{
  TextRef, InputSlot, OutputSlot, FileOutOrigin, AppointedBy, CollectFrom, CollectTo, CollectRule,
  CollectedOut, ValidateData,
}
use kuintessence.Package.Preview.{
  InDescriptor, FileInfoPreview, PreviewCollectFrom, PreviewCollectTo, PreviewCollectRule,
  FacilityKind, CommandPreview,
}
use kuintessence.Package.Validate.{package_validate}
use kuintessence.Package.Sorts.Ranges.{range}
use kuintessence.Package.Validate.Resolved.{SlotResolves, OutputResolves, package_validate-resolves}

abbrev software : SoftwareData
software = record {
  spec = SoftwareSpec.singularity "image" "tag";
  arguments =
      record { descriptor = "a"; value_format = "-i {}"; metadata = [] }
      ∷ record { descriptor = "b"; value_format = "{}"; metadata = [] }
      ∷ [];
  environments = [];
  filesome_inputs = [];
  filesome_outputs =
      record {
        descriptor = "out";
        file_kind = FileKind.normal "o.txt";
        metadata = [];
        optional = false;
      }
      ∷ [];
}

abbrev energy : String → CollectedOut
energy file = record {
  descriptor = "energy";
  from = CollectFrom.file_out file;
  to = CollectTo.text;
  collecting = CollectRule.top_lines 1;
  validator = none;
  metadata = [];
}

-- The energy is collected from the file of the second slot, if it has the name that is given.
abbrev use_case : String → ValidateData
use_case file = record {
  software_data = software;
  usecase_data = record {
    spec = record {
      command_file = "run";
      merge_stdout_and_stderr = false;
      input_slots =
          InputSlot.text "x" none (TextRef.arg_ref "b" 0 1 ∷ []) [] false
          ∷ InputSlot.text "y" none (TextRef.arg_ref "a" 0 0 ∷ []) [] false
          ∷ [];
      template_files = [];
      output_slots =
          OutputSlot.text "e" "energy" [] false none
          ∷ OutputSlot.file "f"
              (FileOutOrigin.usecase_out
                (record { file_out_material_descriptor = "out"; kind = AppointedBy.material }))
              false [] none
          ∷ [];
      flag_arguments = [];
      flag_environments = [];
      std_out_validator = none;
      std_err_validator = none;
      requirements = none;
      metadata = [];
    };
    collected_outs = energy file ∷ [];
    template_file_infos = [];
  };
}

abbrev preview : CommandPreview
preview = record {
  software_facility = FacilityKind.singularity "image" "tag";
  command_name = "run";
  argument_formats_sorts =
      (0, record { format = "-i {}"; placeholder_fill_map = (0, InDescriptor.input_slot "y") ∷ [] })
      ∷ (1, record { format = "{}"; placeholder_fill_map = (0, InDescriptor.input_slot "x") ∷ [] })
      ∷ [];
  environment_formats = [];
  templates_kv_map = [];
  std_in = InDescriptor.nothing;
  file_infos = FileInfoPreview.const_output "out" "o.txt" ∷ [];
  collect_previews =
      record {
        from = PreviewCollectFrom.file_out "out";
        rule = PreviewCollectRule.top_lines 1;
        to = PreviewCollectTo.text;
        optional = false;
      }
      ∷ [];
}

accepted : package_validate (λ keys. keys) (use_case "f") ≡ ok preview
unfolding package_validate
accepted = refl

-- A file that no slot has stops the validation with a panic.
stopped : package_validate (λ keys. keys) (use_case "g") ≡ panic
unfolding package_validate
stopped = refl

package_validate-resolves_example :
    All (SlotResolves software) (use_case "f").usecase_data.spec.input_slots
    × All
        (OutputResolves
          (use_case "f").usecase_data.spec.input_slots
          software.filesome_outputs
          (use_case "f").usecase_data.spec.output_slots
          (energy "f" ∷ []))
        (use_case "f").usecase_data.spec.output_slots
    × (map (λ e. e.0) preview.argument_formats_sorts ≡ range 0 2)
package_validate-resolves_example =
    package_validate-resolves (λ keys. keys) (use_case "f") preview accepted
