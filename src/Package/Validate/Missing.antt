-- ===== src/Package/Validate/Missing.antt =====
-- A collected output whose file no slot puts out (src/lib-co-repo/src/services/package_validate.rs).
use kuintessence.Prelude.{
  String, Bool, true, ◌≡◌, refl, none, some, List, [], ◌∷◌, map, ok, panic, Result, str_eq, find,
  arith, Option,
}
use kuintessence.Package.Materials.{FilesomeOutput, OutValidator, Metadata}
use kuintessence.Package.Usecase.{
  InputSlot, OutputSlot, collected_out, usecase_out, CollectFrom, CollectedOut, ValidateData,
}
use kuintessence.Package.Parts.{Parts, fold_m}
use kuintessence.Package.Outputs.{find_collected, out_material, collect_from, collect, output_slot}
use kuintessence.Package.Validate.{
  mount_slot, check_template_file, mount_template, no_parts, package_validate,
}
use kuintessence.Package.Validate.Resolved.{first_file}

fold_m-panics :
    {E A S : Type 0} (f : A → S → Result E S) (xs : List A) {x : A} {ys : List A} (s : S)
    → xs ≡ x ∷ ys
    → f x s ≡ panic
    → fold_m f xs s ≡ panic
fold_m-panics f [] s first stops = absurd (cc)
fold_m-panics f (y ∷ ys) s first stops = ground arith

module _ (input_slots : List InputSlot) (materials : List FilesomeOutput) where
  out_material-none :
      (for_text : Bool) (f : String) (slots : List OutputSlot)
      → first_file f slots ≡ none
      → out_material input_slots materials for_text f slots ≡ panic
  unfolding out_material
  out_material-none b f [] h = refl
  out_material-none b f (OutputSlot.text d c metadata optional validator ∷ slots) h =
      out_material-none b f slots h
  out_material-none b f (OutputSlot.file d (collected_out c) optional metadata validator ∷ slots)
        h =
      ground (arith, out_material-none b f slots)
  out_material-none b f (OutputSlot.file d (usecase_out o) optional metadata validator ∷ slots) h =
      ground (arith, out_material-none b f slots)

  collect-panics :
      (slots : List OutputSlot) (outs : List CollectedOut) (for_text : Bool) (c f : String)
      (optional : Bool) (x : CollectedOut) (p : Parts)
      → find (λ (y : CollectedOut). str_eq y.descriptor c) outs ≡ some x
      → x.from ≡ CollectFrom.file_out f
      → first_file f slots ≡ none
      → collect input_slots materials slots outs for_text c optional p ≡ panic
  unfolding collect find_collected collect_from
  collect-panics slots outs b c f optional x p there from missing =
      ground (arith, out_material-none b f slots missing)

-- Where the input slots, the template files and the templates of a package are in order, and its
-- first output slot is a text that is collected from a file which no output slot puts out, the
-- validation panics: it returns no error.
pub package_validate-missing_file :
    (order : List String → List String) (x : ValidateData) (p p' q : Parts) (c : CollectedOut)
    (d name f : String) (metadata : Metadata) (optional : Bool) (validator : Option OutValidator)
    (rest : List OutputSlot)
    → let spec = x.usecase_data.spec in
      fold_m (mount_slot x.software_data) spec.input_slots no_parts ≡ ok p
      → fold_m (check_template_file x.software_data) x.usecase_data.spec.template_files p ≡ ok p'
      → fold_m
          (mount_template x.software_data x.usecase_data.spec.template_files
            x.usecase_data.template_file_infos)
          (order (map (λ e. e.0) p'.templates_kv_map))
          p'
        ≡ ok q
      → x.usecase_data.spec.output_slots ≡ OutputSlot.text d name metadata optional validator ∷ rest
      → find (λ (y : CollectedOut). str_eq y.descriptor name) x.usecase_data.collected_outs ≡ some c
      → c.from ≡ CollectFrom.file_out f
      → first_file f x.usecase_data.spec.output_slots ≡ none
      → package_validate order x ≡ panic
unfolding package_validate output_slot
package_validate-missing_file order x p p' q c d name f metadata optional validator rest slots files
      templates first there from missing =
    let stops =
      collect-panics x.usecase_data.spec.input_slots x.software_data.filesome_outputs
        x.usecase_data.spec.output_slots x.usecase_data.collected_outs true name f optional c q
        there from missing in
    rw slots (rw files (rw templates (rw (fold_m-panics _ _ q first stops) refl)))
