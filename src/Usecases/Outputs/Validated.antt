-- ===== src/Usecases/Outputs/Validated.antt =====
-- The outputs of a use case whose packages were validated
-- (src/kernel/src/services/use_cases/software_computing.rs with
-- src/lib-co-repo/src/services/package_validate.rs).
use kuintessence.Prelude.{
  String, Bool, true, false, ◌≡◌, refl, ap, subst, some, List, [], ◌∷◌, ◌++◌, Result, ok, ◌>>=◌,
  find, is_some, str_eq, All, Option-cases, Bool-cases, inl, inr, arith, >>=-eq-ok,
}
use kuintessence.Workflow.Common.{Uuid}
use kuintessence.Workflow.Instance.{NodeSpec, Error}
use kuintessence.Workflow.Slots
use kuintessence.Workflow.Slots.{all_tasks_file_outputs, all_tasks_text_outputs}
use kuintessence.Package.Materials.{FilesomeOutput, path_of}
use kuintessence.Package.Usecase
use kuintessence.Package.Usecase.{
  OutputSlot, FileOutOrigin, FileOutAndAppointedBy, collected_out, usecase_out, CollectedOut,
  ValidateData, get_path,
}
use kuintessence.Package.Preview.{CommandPreview}
use kuintessence.Package.Parts.{fold_m}
use kuintessence.Package.Validate.{package_validate}
use kuintessence.Package.Validate.Resolved.{
  first_file, is_to_text, FromResolves, OutputResolves, package_validate-resolves,
}
use kuintessence.Usecases.Task.{
  CollectFrom, CollectTo, TaskBody, FileInfo, SoftwareComputingUsecase,
}
use kuintessence.Usecases.Outputs.{
  Outs, path_or, collect_rule, is_batched, first, find_output, find_collected, out_path_alter,
  out_path, path_of_out, collect_from, text_to, file_to, collect, put_file, output_slot,
}
use kuintessence.Usecases.Packages.{assembled}

-- The value of a step that ends well.
abbrev Ends : {A : Type 0} → Result Error A → Type 0
Ends {A} r = (a : A) × (r ≡ ok a)

usecase_out-injective :
    {a b : FileOutAndAppointedBy} → some (usecase_out a) ≡ some (usecase_out b) → a ≡ b
usecase_out-injective h = cc

module _ (software_id usecase_id : Uuid) (x : ValidateData) (texts : Uuid → Result Error String)
    (node_spec : NodeSpec) where
  abbrev use_case : SoftwareComputingUsecase
  use_case = assembled usecase_id software_id x

  abbrev slots_of : List OutputSlot
  slots_of = x.usecase_data.spec.output_slots

  abbrev Resolves : OutputSlot → Type 0
  Resolves =
      OutputResolves x.usecase_data.spec.input_slots x.software_data.filesome_outputs slots_of
        x.usecase_data.collected_outs

  -- The node has an id for the output, and a text for the path if an input slot appoints it.
  abbrev pub IsPrepared : OutputSlot → Type 0
  IsPrepared (OutputSlot.text d c metadata optional validator) =
      Ends (Slots.output_slot node_spec d >>= all_tasks_text_outputs >>= first)
  IsPrepared (OutputSlot.file d (collected_out c) optional metadata validator) =
      Ends (Slots.output_slot node_spec d >>= all_tasks_file_outputs >>= first)
  IsPrepared (OutputSlot.file d (usecase_out out) optional metadata validator) =
      Ends (Slots.output_slot node_spec d >>= all_tasks_file_outputs >>= first)
      × Ends (out_path_alter use_case texts node_spec out.kind)

  first-prepared :
      (f : String) (slots : List OutputSlot) (out : FileOutAndAppointedBy)
      → All IsPrepared slots
      → first_file f slots ≡ some (usecase_out out)
      → Ends (out_path_alter use_case texts node_spec out.kind)
  first-prepared f [] out prepared h = absurd (cc)
  first-prepared f (OutputSlot.text d c metadata optional validator ∷ slots) out prepared h =
      first-prepared f slots out prepared.1 h
  first-prepared f (OutputSlot.file d (collected_out c) optional metadata validator ∷ slots) out
        prepared h =
      elim (Bool-cases (str_eq d f)) [
        | inl hit ↦ absurd (ground (arith, hit))
        | inr miss ↦ first-prepared f slots out prepared.1 (ground (arith, miss))
      ]
  first-prepared f (OutputSlot.file d (usecase_out o) optional metadata validator ∷ slots) out
        prepared h =
      elim (Bool-cases (str_eq d f)) [
        | inl hit ↦
            let same : o ≡ out = usecase_out-injective (rw hit at h) in
            subst
              (λ (y : FileOutAndAppointedBy). Ends (out_path_alter use_case texts node_spec y.kind))
              same prepared.0.1
        | inr miss ↦ first-prepared f slots out prepared.1 (rw miss at h)
      ]

  path_of_out-first :
      (f : String) (slots : List OutputSlot) (out : FileOutAndAppointedBy)
      → first_file f slots ≡ some (usecase_out out)
      → path_of_out use_case texts node_spec f slots ≡ out_path use_case texts node_spec out
  unfolding path_of_out
  path_of_out-first f [] out h = absurd (cc)
  path_of_out-first f (OutputSlot.text d c metadata optional validator ∷ slots) out h =
      path_of_out-first f slots out h
  path_of_out-first f (OutputSlot.file d (collected_out c) optional metadata validator ∷ slots) out
        h =
      ground (arith, path_of_out-first f slots out)
  path_of_out-first f (OutputSlot.file d (usecase_out o) optional metadata validator ∷ slots) out
        h =
      elim (Bool-cases (str_eq d f)) [
        | inl hit ↦
            rw hit (ap (out_path use_case texts node_spec) (usecase_out-injective (rw hit at h)))
        | inr miss ↦ rw miss (path_of_out-first f slots out (rw miss at h))
      ]

  find_output-Ends :
      (d : String)
      → is_some
          (find (λ (m : FilesomeOutput). str_eq m.descriptor d) x.software_data.filesome_outputs)
        ≡ true
      → Ends (find_output use_case d)
  unfolding find_output
  find_output-Ends d has =
      elim (Option-cases
        (find (λ (m : FilesomeOutput). str_eq m.descriptor d) x.software_data.filesome_outputs)) [
          | inl missing ↦ absurd (ground (arith, missing))
          | inr (m, there) ↦ (m, rw there refl)
        ]

  from-Ends :
      (from : Usecase.CollectFrom)
      → All IsPrepared slots_of
      → FromResolves x.usecase_data.spec.input_slots x.software_data.filesome_outputs slots_of
          x.usecase_data.collected_outs from
      → Ends (collect_from use_case texts node_spec from)
  unfolding collect_from out_path
  from-Ends (Usecase.CollectFrom.file_out f) prepared (out, first_is, has) =
      let (alter, appointed) = first-prepared f slots_of out prepared first_is in
      let (m, there) = find_output-Ends out.file_out_material_descriptor has in
      (
        CollectFrom.file_out (path_or alter (path_of m.file_kind)),
        rw (path_of_out-first f slots_of out first_is) (rw there (rw appointed refl)),
      )
  from-Ends Usecase.CollectFrom.stdout prepared resolves = (CollectFrom.stdout, refl)
  from-Ends Usecase.CollectFrom.stderr prepared resolves = (CollectFrom.stderr, refl)

  text_to-Ends :
      (d : String) (to : Usecase.CollectTo)
      → is_to_text to ≡ true
      → Ends (Slots.output_slot node_spec d >>= all_tasks_text_outputs >>= first)
      → Ends (text_to use_case texts node_spec d to)
  unfolding text_to
  text_to-Ends d Usecase.CollectTo.text is (id, there) = (CollectTo.text id, rw there refl)
  text_to-Ends d (Usecase.CollectTo.file out_file) is prepared = absurd (cc)

  file_to-Ends :
      (d : String) (to : Usecase.CollectTo)
      → is_to_text to ≡ false
      → Ends (Slots.output_slot node_spec d >>= all_tasks_file_outputs >>= first)
      → Ends (file_to use_case texts node_spec d to)
  unfolding file_to
  file_to-Ends d (Usecase.CollectTo.file out_file) is (id, there) =
      (CollectTo.file (get_path out_file) id, rw there refl)
  file_to-Ends d Usecase.CollectTo.text is prepared = absurd (cc)

  collect-Ends :
      (to : Usecase.CollectTo → Result Error CollectTo) (c : String) (optional : Bool) (outs : Outs)
      (y : CollectedOut)
      → find (λ (z : CollectedOut). str_eq z.descriptor c) x.usecase_data.collected_outs ≡ some y
      → Ends (collect_from use_case texts node_spec y.from)
      → Ends (to y.to)
      → Ends (collect use_case texts node_spec to c optional outs)
  unfolding collect find_collected
  collect-Ends to c optional outs y there (from, source) (target, goal) = (
    (
      outs.0 ++ TaskBody.collected_out from (collect_rule y.collecting) target optional ∷ [],
      outs.1,
    ),
    rw there (rw source (rw goal refl)),
  )

  slot-Ends :
      (slot : OutputSlot) (outs : Outs)
      → All IsPrepared slots_of
      → IsPrepared slot
      → Resolves slot
      → Ends (output_slot use_case texts node_spec slot outs)
  unfolding output_slot put_file
  slot-Ends (OutputSlot.text d c metadata optional validator) outs all_prepared prepared
        (y, there, is, resolves) =
      collect-Ends (text_to use_case texts node_spec d) c optional outs y there
        (from-Ends y.from all_prepared resolves) (text_to-Ends d y.to is prepared)
  slot-Ends (OutputSlot.file d (collected_out c) optional metadata validator) outs all_prepared
        prepared (y, there, is, resolves) =
      let (ids, listed, _) =
        >>=-eq-ok (Slots.output_slot node_spec d >>= all_tasks_file_outputs) first prepared.1 in
      let (slot, found, _) =
        >>=-eq-ok (Slots.output_slot node_spec d) all_tasks_file_outputs listed in
      rw found (
        collect-Ends (file_to use_case texts node_spec d) c optional outs y there
          (from-Ends y.from all_prepared resolves) (file_to-Ends d y.to is prepared))
  slot-Ends (OutputSlot.file d (usecase_out out) optional metadata validator) outs all_prepared
        ((id, done), (alter, appointed)) has =
      let (ids, listed, at_first) =
        >>=-eq-ok (Slots.output_slot node_spec d >>= all_tasks_file_outputs) first done in
      let (slot, found, of_slot) =
        >>=-eq-ok (Slots.output_slot node_spec d) all_tasks_file_outputs listed in
      let (m, there) = find_output-Ends out.file_out_material_descriptor has in
      (
        (
          outs.0,
          outs.1
              ++ FileInfo.output id (path_or alter (path_of m.file_kind)) (is_batched m.file_kind)
                  optional
                ∷ [],
        ),
        rw found (rw there (rw appointed (rw of_slot (rw at_first refl)))),
      )

  fold-Ends :
      (slots : List OutputSlot) (outs : Outs)
      → All IsPrepared slots_of
      → All IsPrepared slots
      → All Resolves slots
      → Ends (fold_m (output_slot use_case texts node_spec) slots outs)
  fold-Ends [] outs all_prepared prepared resolves = (outs, refl)
  fold-Ends (slot ∷ slots) outs all_prepared prepared resolves =
      let (outs', step) = slot-Ends slot outs all_prepared prepared.0 resolves.0 in
      let (last, rest) = fold-Ends slots outs' all_prepared prepared.1 resolves.1 in
      (last, rw step rest)

  -- Where the packages of a use case were accepted by the validation, and the node has an id for
  -- each of its outputs and a text for each path that an input slot appoints, the loop over the
  -- output slots neither panics nor fails.
  pub output_slot-validated :
      (order : List String → List String) (preview : CommandPreview) (outs : Outs)
      → package_validate order x ≡ ok preview
      → All IsPrepared slots_of
      → (last : Outs) × (fold_m (output_slot use_case texts node_spec) slots_of outs ≡ ok last)
  output_slot-validated order preview outs accepted prepared =
      fold-Ends slots_of outs prepared prepared
        (package_validate-resolves order x preview accepted).1
