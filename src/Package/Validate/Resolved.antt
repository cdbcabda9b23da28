-- ===== src/Package/Validate/Resolved.antt =====
-- What an accepted package has (src/lib-co-repo/src/services/package_validate.rs).
use kuintessence.Prelude.{
  String, Bool, true, false, ◌≡◌, refl, ap, Option, none, some, List, [], ◌∷◌, map, length, Result,
  ok, ok_or, ok-injective, ◌>>=◌, >>=-eq-ok, str_eq, find, is_some, All, All-map, arith,
  if◌then◌else◌, Bool-cases, inl, inr, subst,
}
use kuintessence.Package.Materials.{
  SoftwareData, Argument, Environment, FilesomeInput, FilesomeOutput,
}
use kuintessence.Package.Usecase.{
  TextRef, FileRef, file_input_ref, InputSlot, OutputSlot, FileOutOrigin, collected_out,
  usecase_out, FileOutAndAppointedBy, CollectFrom, CollectTo, CollectedOut, ValidateData,
}
use kuintessence.Package.Preview.{
  CommandPreview, InDescriptor, PreviewCollectFrom, PreviewCollectTo,
}
use kuintessence.Package.Parts.{
  Parts, OnTemplate, fold_m, find_argument, find_environment, find_input, argument_format,
  environment_kv_format, fill_argument, fill_environment, fill_file, mount_text, mount_file,
}
use kuintessence.Package.Outputs.{
  find_output, find_collected, out_material, collect_to, collect_from, collect, output_slot,
}
use kuintessence.Package.Sorts.{number}
use kuintessence.Package.Sorts.Ranges.{range, number-range}
use kuintessence.Package.Validate.{mount_slot, check_template_file, package_validate, no_parts}

-- A loop that ends well has run its body well on every element.
fold_m-All :
    {E A S : Type 0} (f : A → S → Result E S) (xs : List A) (s t : S)
    → fold_m f xs s ≡ ok t
    → All (λ x. (u : S) × (v : S) × (f x u ≡ ok v)) xs
fold_m-All f [] s t h = tt
fold_m-All f (x ∷ xs) s t h =
    let (u, first, rest) = >>=-eq-ok (f x s) (fold_m f xs) h in
    ((s, u, first), fold_m-All f xs u t rest)

-- The step of a chain that ended well ended well.
ok_or-eq :
    {E A B : Type 0} (e : E) (o : Option A) (f : A → Result E B) {b : B}
    → (ok_or e o >>= f) ≡ ok b
    → is_some o ≡ true
ok_or-eq e none f h = absurd (cc)
ok_or-eq e (some a) f h = refl

module _ (software : SoftwareData) where
  abbrev pub HasArgument : String → Type 0
  HasArgument d = is_some (find (λ (x : Argument). str_eq x.descriptor d) software.arguments) ≡ true

  abbrev pub HasEnvironment : String → Type 0
  HasEnvironment d =
      is_some (find (λ (x : Environment). str_eq x.descriptor d) software.environments) ≡ true

  abbrev pub HasInput : String → Type 0
  HasInput d =
      is_some (find (λ (x : FilesomeInput). str_eq x.descriptor d) software.filesome_inputs) ≡ true

  -- The material that a reference names is there.
  abbrev pub TextResolves : TextRef → Type 0
  TextResolves (TextRef.arg_ref d n sort) = HasArgument d
  TextResolves (TextRef.env_ref d n) = HasEnvironment d
  TextResolves TextRef.std_in = Unit
  TextResolves (TextRef.template_ref d keys) = Unit

  abbrev pub FileResolves : FileRef → Type 0
  FileResolves (FileRef.arg_ref d n sort) = HasArgument d
  FileResolves (FileRef.env_ref d n) = HasEnvironment d
  FileResolves FileRef.std_in = Unit
  FileResolves (file_input_ref d) = HasInput d
  FileResolves (FileRef.template_ref d keys) = Unit

  abbrev pub SlotResolves : InputSlot → Type 0
  SlotResolves (InputSlot.text d rule refs metadata optional) = All TextResolves refs
  SlotResolves (InputSlot.file d refs metadata optional) = All FileResolves refs

  mount_text-resolves :
      (from : InDescriptor) (on_template : OnTemplate) (r : TextRef) (p q : Parts)
      → mount_text software from on_template r p ≡ ok q
      → TextResolves r
  unfolding mount_text fill_argument fill_environment argument_format environment_kv_format
      find_argument find_environment
  mount_text-resolves from t (TextRef.arg_ref d n sort) p q h = ground (arith)
  mount_text-resolves from t (TextRef.env_ref d n) p q h = ground (arith)
  mount_text-resolves from t TextRef.std_in p q h = tt
  mount_text-resolves from t (TextRef.template_ref d keys) p q h = tt

  mount_file-resolves :
      (from : InDescriptor) (on_template : OnTemplate) (r : FileRef) (p q : Parts)
      → mount_file software from on_template r p ≡ ok q
      → FileResolves r
  unfolding mount_file fill_argument fill_environment fill_file argument_format
      environment_kv_format find_argument find_environment find_input
  mount_file-resolves from t (FileRef.arg_ref d n sort) p q h = ground (arith)
  mount_file-resolves from t (FileRef.env_ref d n) p q h = ground (arith)
  mount_file-resolves from t FileRef.std_in p q h = tt
  mount_file-resolves from t (file_input_ref d) p q h = ground (arith)
  mount_file-resolves from t (FileRef.template_ref d keys) p q h = tt

  mount_slot-resolves :
      (slot : InputSlot) (p q : Parts) → mount_slot software slot p ≡ ok q → SlotResolves slot
  unfolding mount_slot
  mount_slot-resolves (InputSlot.text d rule refs metadata optional) p q h =
      All-map _ TextResolves
        (λ r step. let (u, v, done) = step in mount_text-resolves _ _ r u v done) refs
        (fold_m-All _ refs p q h)
  mount_slot-resolves (InputSlot.file d refs metadata optional) p q h =
      All-map _ FileResolves
        (λ r step. let (u, v, done) = step in mount_file-resolves _ _ r u v done) refs
        (fold_m-All _ refs p q h)

-- The origin of the first file slot with the descriptor.
abbrev pub first_file : String → List OutputSlot → Option FileOutOrigin
first_file f [] = none
first_file f (OutputSlot.text d c metadata optional validator ∷ slots) = first_file f slots
first_file f (OutputSlot.file d origin optional metadata validator ∷ slots) =
    if str_eq d f then some origin else first_file f slots

abbrev pub is_to_text : CollectTo → Bool
is_to_text CollectTo.text = true
is_to_text (CollectTo.file out_file) = false

module _ (input_slots : List InputSlot) (materials : List FilesomeOutput)
    (output_slots : List OutputSlot) (collected_outs : List CollectedOut) where
  abbrev pub HasOutput : String → Type 0
  HasOutput d = is_some (find (λ (x : FilesomeOutput). str_eq x.descriptor d) materials) ≡ true

  -- A file that is collected from is put out by the use case, by a known material.
  abbrev pub FromResolves : CollectFrom → Type 0
  FromResolves (CollectFrom.file_out f) =
      (out : FileOutAndAppointedBy) × (first_file f output_slots ≡ some (usecase_out out))
      × HasOutput out.file_out_material_descriptor
  FromResolves CollectFrom.stdout = Unit
  FromResolves CollectFrom.stderr = Unit

  -- The collected output is there, is collected to a text or to a file, and its source is there.
  abbrev pub CollectResolves : Bool → String → Type 0
  CollectResolves to_text c =
      (x : CollectedOut) × (find (λ (y : CollectedOut). str_eq y.descriptor c) collected_outs
        ≡ some x)
      × (is_to_text x.to ≡ to_text)
      × FromResolves x.from

  abbrev pub OutputResolves : OutputSlot → Type 0
  OutputResolves (OutputSlot.text d c metadata optional validator) = CollectResolves true c
  OutputResolves (OutputSlot.file d (collected_out c) optional metadata validator) =
      CollectResolves false c
  OutputResolves (OutputSlot.file d (usecase_out out) optional metadata validator) =
      HasOutput out.file_out_material_descriptor

  out_material-resolves :
      (for_text : Bool) (f : String) (slots : List OutputSlot) (m : FilesomeOutput)
      → out_material input_slots materials for_text f slots ≡ ok m
      → (out : FileOutAndAppointedBy) × (first_file f slots ≡ some (usecase_out out))
        × HasOutput out.file_out_material_descriptor
  unfolding out_material find_output
  out_material-resolves b f [] m h = absurd (cc)
  out_material-resolves b f (OutputSlot.text d c metadata optional validator ∷ slots) m h =
      out_material-resolves b f slots m h
  out_material-resolves b f
        (OutputSlot.file d (collected_out c) optional metadata validator ∷ slots) m h =
      elim (Bool-cases (str_eq d f)) [
        | inl hit ↦ absurd (ground arith)
        | inr miss ↦
            let (out, first, has) = out_material-resolves b f slots m (ground arith) in
            (out, rw miss first, has)
      ]
  out_material-resolves b f (OutputSlot.file d (usecase_out o) optional metadata validator ∷ slots)
        m h =
      elim (Bool-cases (str_eq d f)) [
        | inl hit ↦ (o, rw hit refl, ground arith)
        | inr miss ↦
            let (out, first, has) = out_material-resolves b f slots m (ground arith) in
            (out, rw miss first, has)
      ]

  from-resolves :
      (for_text : Bool) (from : CollectFrom) (to : PreviewCollectFrom)
      → collect_from input_slots materials output_slots collected_outs for_text from ≡ ok to
      → FromResolves from
  unfolding collect_from
  from-resolves b (CollectFrom.file_out f) to h =
      let (m, first, rest) = >>=-eq-ok (out_material input_slots materials b f output_slots) _ h in
      out_material-resolves b f output_slots m first
  from-resolves b CollectFrom.stdout to h = tt
  from-resolves b CollectFrom.stderr to h = tt

  to-resolves :
      (for_text : Bool) (x : CollectedOut) (to : PreviewCollectTo)
      → collect_to input_slots materials output_slots collected_outs for_text x ≡ ok to
      → is_to_text x.to ≡ for_text
  unfolding collect_to
  to-resolves b x to h = ground arith

  found-resolves :
      (c : String) (x : CollectedOut)
      → find_collected collected_outs c ≡ ok x
      → find (λ (y : CollectedOut). str_eq y.descriptor c) collected_outs ≡ some x
  unfolding find_collected
  found-resolves c x h = ground arith

  collect-resolves :
      (for_text : Bool) (c : String) (optional : Bool) (p q : Parts)
      → collect input_slots materials output_slots collected_outs for_text c optional p ≡ ok q
      → CollectResolves for_text c
  unfolding collect
  collect-resolves b c optional p q h =
      let (x, found, more) = >>=-eq-ok (find_collected collected_outs c) _ h in
      let (from, source, last) =
        >>=-eq-ok (collect_from input_slots materials output_slots collected_outs b x.from) _
          more in
      let (to, target, _) =
        >>=-eq-ok (collect_to input_slots materials output_slots collected_outs b x) _ last in
      (x, found-resolves c x found, to-resolves b x to target, from-resolves b x.from from source)

  output_slot-resolves :
      (slot : OutputSlot) (p q : Parts)
      → output_slot input_slots materials output_slots collected_outs slot p ≡ ok q
      → OutputResolves slot
  unfolding output_slot find_output
  output_slot-resolves (OutputSlot.text d c metadata optional validator) p q h =
      collect-resolves true c optional p q h
  output_slot-resolves (OutputSlot.file d (collected_out c) optional metadata validator) p q h =
      collect-resolves false c optional p q h
  output_slot-resolves (OutputSlot.file d (usecase_out out) optional metadata validator) p q h =
      ground arith

-- Where a package is accepted, each argument, environment variable and file input that an input slot
-- refers to is among the materials of the software; each output slot has its collected output, of
-- its own kind and from a file that the use case puts out if it is from a file, or its output
-- material; and the arguments of the preview are numbered from 0 without a gap, in order.
pub package_validate-resolves :
    (order : List String → List String) (x : ValidateData) (preview : CommandPreview)
    → package_validate order x ≡ ok preview
    → All (SlotResolves x.software_data) x.usecase_data.spec.input_slots
      × All
          (OutputResolves x.usecase_data.spec.input_slots x.software_data.filesome_outputs
            x.usecase_data.spec.output_slots x.usecase_data.collected_outs)
          x.usecase_data.spec.output_slots
      × (map (λ e. e.0) preview.argument_formats_sorts
          ≡ range 0 (length preview.argument_formats_sorts))
unfolding package_validate
package_validate-resolves order x preview h =
    let spec = x.usecase_data.spec in
    let software = x.software_data in
    let (p, slots, h1) = >>=-eq-ok (fold_m (mount_slot software) spec.input_slots no_parts) _ h in
    let (p', _, h2) =
      >>=-eq-ok (fold_m (check_template_file software) spec.template_files p) _ h1 in
    let (q, _, h3) = >>=-eq-ok (fold_m _ (order (map (λ e. e.0) p'.templates_kv_map)) p') _ h2 in
    let (r, outputs, h4) =
      >>=-eq-ok
        (fold_m
          (output_slot spec.input_slots software.filesome_outputs spec.output_slots
            x.usecase_data.collected_outs)
          spec.output_slots q)
        _ h3 in
    let (sorts, numbered, same) = >>=-eq-ok (number r.argument_formats_sorts) _ h4 in
    (
      All-map _ (SlotResolves software)
          (λ slot step. let (u, v, done) = step in mount_slot-resolves software slot u v done)
          spec.input_slots (fold_m-All _ spec.input_slots no_parts p slots),
      All-map _
          (OutputResolves spec.input_slots software.filesome_outputs spec.output_slots
            x.usecase_data.collected_outs)
          (λ slot step.
            let (u, v, done) = step in
            output_slot-resolves spec.input_slots software.filesome_outputs spec.output_slots
              x.usecase_data.collected_outs slot u v done)
          spec.output_slots (fold_m-All _ spec.output_slots q r outputs),
      subst (λ m. map (λ e. e.0) m ≡ range 0 (length m))
          (ap (λ (c : CommandPreview). c.argument_formats_sorts) (ok-injective same))
          (number-range r.argument_formats_sorts sorts numbered),
    )
