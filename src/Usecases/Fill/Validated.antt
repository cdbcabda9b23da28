-- ===== src/Usecases/Fill/Validated.antt =====
-- The inputs of a use case whose packages were validated
-- (src/kernel/src/services/use_cases/software_computing.rs with
-- src/lib-co-repo/src/services/package_validate.rs).
use mathlib.Core.List.{append-nil, append_assoc}
use kuintessence.Prelude.{
  ℕ, String, true, ◌≡◌, refl, sym, ap, ◌∙◌, Option, none, some, List, [], ◌∷◌, ◌++◌, map, flat_map,
  Result, ok, unwrap, ◌>>=◌, find, is_some, str_eq, All, All-map,
}
use kuintessence.Workflow.Common.{Uuid}
use kuintessence.Workflow.Instance.{NodeSpec, Error}
use kuintessence.Package.Materials.{Argument, Environment}
use kuintessence.Package.Usecase.{
  TextRef, FileRef, file_input_ref, InputSlot, descriptor_of, ValidateData,
}
use kuintessence.Package.Preview.{CommandPreview}
use kuintessence.Package.Parts.{fold_m}
use kuintessence.Package.Validate.{package_validate}
use kuintessence.Package.Validate.Resolved.{
  HasArgument, HasEnvironment, TextResolves, FileResolves, SlotResolves, package_validate-resolves,
}
use kuintessence.Usecases.Task.{SoftwareComputingUsecase}
use kuintessence.Usecases.Formats.{argument_format, environment_kv_format}
use kuintessence.Usecases.Content.{InContent, get_content}
use kuintessence.Usecases.Fill.{
  Parts, Step, fill_keys, fill_argument, fill_environment, mount_text, mount_file, mount_refs,
  fill_slot,
}
use kuintessence.Usecases.Packages.{assembled}

-- A step that ends well and leaves the files as they are.
abbrev Keeps : (Parts → Result Error Parts) → Type 0
Keeps f = (p : Parts) → (q : Parts) × (f p ≡ ok q) × (q.files ≡ p.files)

fold_m-Keeps :
    {A : Type 0} (f : A → Step) (xs : List A) → All (λ x. Keeps (f x)) xs → Keeps (fold_m f xs)
fold_m-Keeps f [] keeps p = (p, refl, refl)
fold_m-Keeps f (x ∷ xs) keeps p =
    let (q, first, same) = keeps.0 p in
    let (r, rest, same') = fold_m-Keeps f xs keeps.1 q in (r, rw first rest, same' ∙ same)

fill_keys-files :
    (value : Option String) (d : String) (keys : List String) (p : Parts)
    → (fill_keys value d keys p).files ≡ p.files
fill_keys-files value d [] p = refl
fill_keys-files value d (k ∷ keys) p = fill_keys-files value d keys _

unwrap-Keeps :
    {A B : Type 0} (o : Option A) (f : A → B) (g : B → Parts → Parts)
    → is_some o ≡ true
    → ((b : B) (p : Parts) → (g b p).files ≡ p.files)
    → Keeps (λ p. (unwrap o >>= λ a. ok (f a)) >>= λ b. ok (g b p))
unwrap-Keeps none f g there same p = absurd (cc)
unwrap-Keeps (some a) f g there same p = (g (f a) p, refl, same (f a) p)

module _ (software_id usecase_id : Uuid) (x : ValidateData) where
  abbrev use_case : SoftwareComputingUsecase
  use_case = assembled usecase_id software_id x

  fill_argument-Keeps :
      (value : Option String) (d : String) (nth sort : ℕ)
      → HasArgument x.software_data d
      → Keeps (fill_argument use_case value d nth sort)
  unfolding fill_argument argument_format
  fill_argument-Keeps value d nth sort has =
      unwrap-Keeps (find (λ (a : Argument). str_eq a.descriptor d) x.software_data.arguments) _ _
        has (λ b p. refl)

  fill_environment-Keeps :
      (value : Option String) (d : String) (nth : ℕ)
      → HasEnvironment x.software_data d
      → Keeps (fill_environment use_case value d nth)
  unfolding fill_environment environment_kv_format
  fill_environment-Keeps value d nth has =
      unwrap-Keeps (find (λ (a : Environment). str_eq a.descriptor d) x.software_data.environments)
        _ _ has (λ b p. refl)

  mount_text-Keeps :
      (content : InContent) (r : TextRef)
      → TextResolves x.software_data r
      → Keeps (mount_text use_case (some content) r)
  unfolding mount_text
  mount_text-Keeps content (TextRef.arg_ref d nth sort) has = fill_argument-Keeps _ d nth sort has
  mount_text-Keeps content (TextRef.env_ref d nth) has = fill_environment-Keeps _ d nth has
  mount_text-Keeps content TextRef.std_in has = λ p. (_, refl, refl)
  mount_text-Keeps content (TextRef.template_ref d keys) has =
      λ p. (_, refl, fill_keys-files _ d keys p)

  mount_file-Keeps :
      (content : InContent) (r : FileRef)
      → FileResolves x.software_data r
      → Keeps (mount_file use_case (some content) r)
  unfolding mount_file
  mount_file-Keeps content (FileRef.arg_ref d nth sort) has = fill_argument-Keeps _ d nth sort has
  mount_file-Keeps content (FileRef.env_ref d nth) has = fill_environment-Keeps _ d nth has
  mount_file-Keeps content FileRef.std_in has = λ p. (_, refl, refl)
  mount_file-Keeps content (file_input_ref d) has = λ p. (p, refl, refl)
  mount_file-Keeps content (FileRef.template_ref d keys) has =
      λ p. (_, refl, fill_keys-files _ d keys p)

  mount_refs-Keeps :
      (content : InContent) (slot : InputSlot)
      → SlotResolves x.software_data slot
      → Keeps (mount_refs use_case (some content) slot)
  unfolding mount_refs
  mount_refs-Keeps content (InputSlot.text d rule refs metadata optional) resolves =
      fold_m-Keeps _ refs (
        All-map _ (λ r. Keeps (mount_text use_case (some content) r)) (mount_text-Keeps content)
          refs resolves)
  mount_refs-Keeps content (InputSlot.file d refs metadata optional) resolves =
      fold_m-Keeps _ refs (
        All-map _ (λ r. Keeps (mount_file use_case (some content) r)) (mount_file-Keeps content)
          refs resolves)

  module _ (texts : Uuid → Result Error String) (node_spec : NodeSpec) where
    fill_slots-filled :
        (slots : List InputSlot) (contents : List InContent) (p : Parts)
        → All (SlotResolves x.software_data) slots
        → map (λ slot. get_content texts node_spec (descriptor_of slot)) slots
          ≡ map (λ c. ok (some c)) contents
        → (q : Parts) × (fold_m (fill_slot use_case texts node_spec) slots p ≡ ok q)
          × (q.files ≡ p.files ++ flat_map (λ (c : InContent). c.infiles) contents)
    unfolding fill_slot
    fill_slots-filled [] [] p resolves filled = (p, refl, sym (append-nil p.files))
    fill_slots-filled [] (c ∷ cs) p resolves filled = absurd (cc)
    fill_slots-filled (slot ∷ slots) [] p resolves filled = absurd (cc)
    fill_slots-filled (slot ∷ slots) (c ∷ cs) p resolves filled =
        let got : get_content texts node_spec (descriptor_of slot) ≡ ok (some c) = cc in
        let start : Parts = record p { files = p.files ++ c.infiles } in
        let (q, first, same) = mount_refs-Keeps c slot resolves.0 start in
        let (r, rest, files) = fill_slots-filled slots cs q resolves.1 cc in
        let more = flat_map (λ (c : InContent). c.infiles) cs in
        (
          r,
          rw got (rw first rest),
          files ∙ ap (λ f. f ++ more) same ∙ append_assoc p.files c.infiles more,
        )

    -- Where the packages of a use case were accepted by the validation and each input slot of the use
    -- case has a content in the node, the loop over the input slots neither panics nor fails, whatever
    -- was filled before, and the files of all contents are added in the order of the slots.
    pub fill_slot-validated :
        (order : List String → List String) (preview : CommandPreview) (contents : List InContent)
        (p : Parts)
        → package_validate order x ≡ ok preview
        → map
            (λ slot. get_content texts node_spec (descriptor_of slot))
            x.usecase_data.spec.input_slots
          ≡ map (λ c. ok (some c)) contents
        → (q : Parts) × (fold_m
              (fill_slot use_case texts node_spec)
              x.usecase_data.spec.input_slots
              p
            ≡ ok q)
          × (q.files ≡ p.files ++ flat_map (λ (c : InContent). c.infiles) contents)
    fill_slot-validated order preview contents p accepted filled =
        fill_slots-filled x.usecase_data.spec.input_slots contents p
          (package_validate-resolves order x preview accepted).0 filled
