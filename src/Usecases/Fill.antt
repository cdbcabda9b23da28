-- ===== src/Usecases/Fill.antt =====
-- The loops of `parse_task` (src/kernel/src/services/use_cases/software_computing.rs) over the input
-- slots and the templates of a use case. `render content kv` is what Handlebars makes of a template.
pub mod Validated
use kuintessence.Prelude.{
  ℕ, String, Bool, true, false, Option, none, some, List, [], ◌∷◌, ◌++◌, Result, ok, panic, unwrap,
  ◌>>=◌, ◌==◌, str_eq, find, if◌then◌else◌,
}
use mathlib.Core.Option
use kuintessence.Workflow.Common.{Uuid, HashMap}
use kuintessence.Workflow.Instance.{NodeSpec, Error}
use kuintessence.Package.Materials.{FilesomeInput, FileKind}
use kuintessence.Package.Usecase.{
  TextRef, FileRef, file_input_ref, InputSlot, descriptor_of, TemplateFile, TemplateFileInfo,
}
use kuintessence.Package.Preview.{map_insert, entry}
use kuintessence.Package.Parts.{fold_m}
use kuintessence.Usecases.Task.{StdInKind, FileInfo, InFileForm, SoftwareComputingUsecase}
use kuintessence.Usecases.Formats.{FormatFill, argument_format, environment_kv_format}
use kuintessence.Usecases.Content.{InContent, get_content}

abbrev pub Templates : Type 0
Templates = HashMap String (HashMap String (Option String))

-- The variables that `parse_task` fills.
pub record Parts : Type 0 where
  pub argument_formats_sorts : HashMap ℕ FormatFill
  pub environment_formats_map : HashMap String FormatFill
  pub files : List FileInfo
  pub std_in : StdInKind
  pub templates_kv_json : Templates

abbrev pub Step : Type 0
Step = Parts → Result Error Parts

-- `.placeholder_fill_map.insert(placeholder_nth, value)`
abbrev pub fill : ℕ → Option String → FormatFill → FormatFill
fill placeholder_nth value x = record x {
  placeholder_fill_map = map_insert ◌==◌ placeholder_nth value x.placeholder_fill_map;
}

abbrev pub fill_keys : Option String → String → List String → Parts → Parts
fill_keys value descriptor [] p = p
fill_keys value descriptor (ref_key ∷ ref_keys) p = fill_keys value descriptor ref_keys (record p {
  templates_kv_json =
      entry str_eq descriptor [] (map_insert str_eq ref_key value) p.templates_kv_json;
})

abbrev pub literal_of : Option InContent → Option String
literal_of in_content = Option.map (λ el. el.literal) in_content

abbrev pub infiles_of : Option InContent → List FileInfo
infiles_of none = []
infiles_of (some in_content) = in_content.infiles

-- `is_empty() || len() == 1 && matches!(…, FileRef::FileInputRef(_))`
abbrev pub is_one_file : List FileRef → Bool
is_one_file [] = true
is_one_file (file_input_ref descriptor ∷ []) = true
is_one_file _ = false

module _ (u : SoftwareComputingUsecase) where
  -- The loop over `flag_arguments`.
  unfoldable pub flag_argument : String × ℕ → Step
  unfolding argument_format
  flag_argument (descriptor, sort) p = argument_format u.arguments descriptor >>= λ value.
      ok (record p {
        argument_formats_sorts = entry ◌==◌ sort value (λ x. x) p.argument_formats_sorts;
      })

  -- The loop over `flag_environments`.
  unfoldable pub flag_environment : String → Step
  unfolding environment_kv_format
  flag_environment descriptor p = environment_kv_format u.environments descriptor >>= λ kv.
      ok (record p {
        environment_formats_map = entry str_eq kv.0 kv.1 (λ x. x) p.environment_formats_map;
      })

  unfoldable pub fill_argument : Option String → String → ℕ → ℕ → Step
  unfolding argument_format
  fill_argument value descriptor placeholder_nth sort p =
      argument_format u.arguments descriptor >>= λ format. ok (record p {
        argument_formats_sorts =
            entry ◌==◌ sort format (fill placeholder_nth value) p.argument_formats_sorts;
      })

  unfoldable pub fill_environment : Option String → String → ℕ → Step
  unfolding environment_kv_format
  fill_environment value descriptor placeholder_nth p =
      environment_kv_format u.environments descriptor >>= λ kv. ok (record p {
        environment_formats_map =
            entry str_eq kv.0 kv.1 (fill placeholder_nth value) p.environment_formats_map;
      })

  -- What a text slot is mounted on: the standard input needs a content.
  unfoldable pub mount_text : Option InContent → TextRef → Step
  unfolding fill_argument fill_environment
  mount_text content (TextRef.arg_ref descriptor placeholder_nth sort) p =
      fill_argument (literal_of content) descriptor placeholder_nth sort p
  mount_text content (TextRef.env_ref descriptor placeholder_nth) p =
      fill_environment (literal_of content) descriptor placeholder_nth p
  mount_text content TextRef.std_in p =
      unwrap content >>= λ x. ok (record p { std_in = StdInKind.text x.literal })
  mount_text content (TextRef.template_ref descriptor ref_keys) p =
      ok (fill_keys (literal_of content) descriptor ref_keys p)

  abbrev pub file_std_in : Option InContent → StdInKind
  file_std_in none = StdInKind.nothing
  file_std_in (some x) = StdInKind.file x.literal

  -- What a file slot is mounted on; the file itself is among the content's files already.
  unfoldable pub mount_file : Option InContent → FileRef → Step
  unfolding fill_argument fill_environment
  mount_file content (FileRef.arg_ref descriptor placeholder_nth sort) p =
      fill_argument (literal_of content) descriptor placeholder_nth sort p
  mount_file content (FileRef.env_ref descriptor placeholder_nth) p =
      fill_environment (literal_of content) descriptor placeholder_nth p
  mount_file content FileRef.std_in p = ok (record p { std_in = file_std_in content })
  mount_file content (file_input_ref descriptor) p = ok p
  mount_file content (FileRef.template_ref descriptor ref_keys) p =
      ok (fill_keys (literal_of content) descriptor ref_keys p)

  unfoldable pub mount_refs : Option InContent → InputSlot → Step
  unfolding mount_text mount_file
  mount_refs content (InputSlot.text descriptor text_rule ref_materials metadata optional) =
      fold_m (mount_text content) ref_materials
  mount_refs content (InputSlot.file descriptor ref_materials metadata optional) =
      fold_m (mount_file content) ref_materials

  module _ (texts : Uuid → Result Error String) (node_spec : NodeSpec) where
    -- The body of the loop over the input slots.
    unfoldable pub fill_slot : InputSlot → Step
    unfolding get_content mount_refs
    fill_slot slot p = get_content texts node_spec (descriptor_of slot) >>= λ content.
        mount_refs content slot (record p { files = p.files ++ infiles_of content })

  -- What the content of a template is mounted on, and what its file name is.
  unfoldable pub mount_content : String → TextRef → Step
  unfolding fill_argument fill_environment
  mount_content filled_result (TextRef.arg_ref descriptor placeholder_nth sort) p =
      fill_argument (some filled_result) descriptor placeholder_nth sort p
  mount_content filled_result (TextRef.env_ref descriptor placeholder_nth) p =
      fill_environment (some filled_result) descriptor placeholder_nth p
  mount_content filled_result TextRef.std_in p =
      ok (record p { std_in = StdInKind.text filled_result })
  mount_content filled_result (TextRef.template_ref descriptor ref_keys) p = panic

  -- The file of a material, with the content of a template.
  abbrev pub material_file : String → FileKind → FileInfo
  material_file filled_result (FileKind.normal wild_card) =
      FileInfo.input wild_card false (InFileForm.content filled_result)
  material_file filled_result (FileKind.batched wild_card) =
      FileInfo.input wild_card true (InFileForm.content filled_result)

  unfoldable pub mount_file_name : String → String → FileRef → Step
  unfolding fill_argument fill_environment
  mount_file_name file_name filled_result (FileRef.arg_ref descriptor placeholder_nth sort) p =
      fill_argument (some file_name) descriptor placeholder_nth sort p
  mount_file_name file_name filled_result (FileRef.env_ref descriptor placeholder_nth) p =
      fill_environment (some file_name) descriptor placeholder_nth p
  mount_file_name file_name filled_result FileRef.std_in p =
      ok (record p { std_in = StdInKind.file file_name })
  mount_file_name file_name filled_result (file_input_ref descriptor) p =
      unwrap (find (λ (el : FilesomeInput). str_eq el.descriptor descriptor) u.filesome_inputs)
      >>= λ el. ok (record p { files = p.files ++ material_file filled_result el.file_kind ∷ [] })
  mount_file_name file_name filled_result (FileRef.template_ref descriptor ref_keys) p = panic

  module _ (render : String → HashMap String (Option String) → Result Error String) where
    -- The body of the loop over the templates that are used.
    unfoldable pub fill_template : String × HashMap String (Option String) → Step
    unfolding mount_content mount_file_name
    fill_template (descriptor, kv_json) p =
        unwrap (
          find (λ (el : TemplateFile). str_eq el.descriptor descriptor)
            u.usecase_spec.template_files)
        >>= λ using_template_file.
            unwrap (
              find (λ (el : TemplateFileInfo). str_eq el.descriptor descriptor)
                u.template_file_infos)
            >>= λ info. render info.content kv_json >>= λ filled_result.
                fold_m (mount_content filled_result) using_template_file.as_content p >>= λ p.
                fold_m (mount_file_name info.file_name filled_result)
                  using_template_file.as_file_name
                  (if is_one_file using_template_file.as_file_name then p else record p {
                    files =
                        p.files
                        ++ FileInfo.input info.file_name false (InFileForm.content filled_result)
                          ∷ [];
                  })
