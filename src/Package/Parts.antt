-- ===== src/Package/Parts.antt =====
-- The parts of a preview and what mounts inputs on them
-- (src/lib-co-repo/src/services/package_validate.rs).
use kuintessence.Prelude.{
  ℕ, String, List, [], ◌∷◌, ◌++◌, Result, ok, err, ok_or, ◌>>=◌, ◌==◌, str_eq, find,
}
use kuintessence.Workflow.Common.{HashMap}
use kuintessence.Package.Materials.{Argument, Environment, FilesomeInput, SoftwareData, path_of}
use kuintessence.Package.Usecase.{TextRef, FileRef, file_input_ref}
use kuintessence.Package.Preview.{
  InDescriptor, FileInfoPreview, const_input, FormatFillPreview, CollectPreview, map_insert, entry,
  fill,
}

-- The messages of `anyhow!` and `bail!`.
pub data PackageError : Type 0 where
  no_such_argument no_such_environment no_such_file_material no_such_output_material
        no_such_template no_such_collected_out no_such_text_slot file_slot_appoints
        mismatched_collected_out :
      (descriptor : String) → PackageError
  not_implemented sort_must_begin_with_0 : PackageError
  sort_has_gap : (current p : ℕ) → PackageError

-- `for x in xs { … ? }` over variables of the function.
abbrev pub fold_m : {E A S : Type 0} → (A → S → Result E S) → List A → S → Result E S
fold_m f [] s = ok s
fold_m f (x ∷ xs) s = f x s >>= fold_m f xs

-- The variables that `package_validate` fills.
pub record Parts : Type 0 where
  pub argument_formats_sorts : HashMap ℕ FormatFillPreview
  pub environment_formats : HashMap String FormatFillPreview
  pub file_infos : List FileInfoPreview
  pub std_in : InDescriptor
  pub templates_kv_map : HashMap String (HashMap String InDescriptor)
  pub collect_previews : List CollectPreview

abbrev pub Check : Type 0
Check = Parts → Result PackageError Parts

unfoldable pub find_argument : List Argument → String → Result PackageError Argument
find_argument xs descriptor =
    ok_or (no_such_argument descriptor) (find (λ x. str_eq x.descriptor descriptor) xs)

unfoldable pub find_environment : List Environment → String → Result PackageError Environment
find_environment xs descriptor =
    ok_or (no_such_environment descriptor) (find (λ x. str_eq x.descriptor descriptor) xs)

unfoldable pub find_input : List FilesomeInput → String → Result PackageError FilesomeInput
find_input xs descriptor =
    ok_or (no_such_file_material descriptor) (find (λ x. str_eq x.descriptor descriptor) xs)

-- `argument_format`
unfoldable pub argument_format : List Argument → String → Result PackageError FormatFillPreview
unfolding find_argument
argument_format materials descriptor = find_argument materials descriptor >>= λ x.
    ok (record { format = x.value_format; placeholder_fill_map = [] })

-- `environment_kv_format`
unfoldable pub environment_kv_format :
    List Environment → String → Result PackageError (String × FormatFillPreview)
unfolding find_environment
environment_kv_format materials descriptor = find_environment materials descriptor >>= λ x.
    ok (x.key, record { format = x.value_format; placeholder_fill_map = [] })

abbrev pub fill_keys : InDescriptor → String → List String → Parts → Parts
fill_keys from descriptor [] p = p
fill_keys from descriptor (ref_key ∷ ref_keys) p = fill_keys from descriptor ref_keys (record p {
  templates_kv_map = entry str_eq descriptor [] (map_insert str_eq ref_key from) p.templates_kv_map;
})

-- What a reference to a template does: an input slot fills keys of it, a template may not.
abbrev pub OnTemplate : Type 0
OnTemplate = String → List String → Check

abbrev pub slot_fills : InDescriptor → OnTemplate
slot_fills from descriptor ref_keys p = ok (fill_keys from descriptor ref_keys p)

abbrev pub refuses : OnTemplate
refuses descriptor ref_keys p = err not_implemented

module _ (software : SoftwareData) where
  -- The placeholder of an argument is filled from a slot or a template.
  unfoldable pub fill_argument : InDescriptor → String → ℕ → ℕ → Check
  unfolding argument_format
  fill_argument from descriptor placeholder_nth sort p =
      argument_format software.arguments descriptor >>= λ format. ok (record p {
        argument_formats_sorts =
            entry ◌==◌ sort format (fill placeholder_nth from) p.argument_formats_sorts;
      })

  unfoldable pub fill_environment : InDescriptor → String → ℕ → Check
  unfolding environment_kv_format
  fill_environment from descriptor placeholder_nth p =
      environment_kv_format software.environments descriptor >>= λ kv. ok (record p {
        environment_formats =
            entry str_eq kv.0 kv.1 (fill placeholder_nth from) p.environment_formats;
      })

  -- A file input: the path is that of the material, of either kind.
  unfoldable pub fill_file : InDescriptor → String → Check
  unfolding find_input
  fill_file from descriptor p = find_input software.filesome_inputs descriptor >>= λ x.
      ok (record p {
        file_infos = p.file_infos ++ const_input from descriptor (path_of x.file_kind) ∷ [];
      })

  -- `match` on a reference of a text, and on one of a file.
  unfoldable pub mount_text : InDescriptor → OnTemplate → TextRef → Check
  unfolding fill_argument fill_environment
  mount_text from on_template (TextRef.arg_ref descriptor placeholder_nth sort) =
      fill_argument from descriptor placeholder_nth sort
  mount_text from on_template (TextRef.env_ref descriptor placeholder_nth) =
      fill_environment from descriptor placeholder_nth
  mount_text from on_template TextRef.std_in = λ p. ok (record p { std_in = from })
  mount_text from on_template (TextRef.template_ref descriptor ref_keys) =
      on_template descriptor ref_keys

  unfoldable pub mount_file : InDescriptor → OnTemplate → FileRef → Check
  unfolding fill_argument fill_environment fill_file
  mount_file from on_template (FileRef.arg_ref descriptor placeholder_nth sort) =
      fill_argument from descriptor placeholder_nth sort
  mount_file from on_template (FileRef.env_ref descriptor placeholder_nth) =
      fill_environment from descriptor placeholder_nth
  mount_file from on_template FileRef.std_in = λ p. ok (record p { std_in = from })
  mount_file from on_template (file_input_ref descriptor) = fill_file from descriptor
  mount_file from on_template (FileRef.template_ref descriptor ref_keys) =
      on_template descriptor ref_keys
