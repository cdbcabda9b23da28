-- ===== src/Usecases/Parse/Body.antt =====
-- The body of a task (src/kernel/src/services/use_cases/software_computing.rs).
use mathlib.Core.List.{append-nil, append_assoc}
use kuintessence.Prelude.{
  String, Bool, ◌≡◌, refl, sym, ap, subst, ◌∙◌, List, [], ◌∷◌, ◌++◌, Result, ok, ◌>>=◌, >>=-eq-ok,
  ok-injective, if◌then◌else◌,
}
use kuintessence.Workflow.Common.{Uuid, NodeKind, SoftwareUsecaseComputing}
use kuintessence.Workflow.Instance.{NodeSpec, Error}
use kuintessence.Workflow.Store.{TaskCommand}
use kuintessence.Package.Usecase
use kuintessence.Workflow.Slots
use kuintessence.Workflow.Slots.{all_tasks_file_outputs}
use kuintessence.Package.Usecase.{OutputSlot, FileOutOrigin, FileOutAndAppointedBy}
use kuintessence.Package.Parts.{fold_m}
use kuintessence.Usecases.Task.{
  CollectTo, facility_from, Execution, TaskBody, Task, SoftwareComputingUsecase,
}
use kuintessence.Usecases.Outputs.{
  Outs, find_output, find_collected, out_path_alter, collect_from, collect_rule, first, collect,
  put_file, output_slot, text_to, file_to,
}
use kuintessence.Usecases.Clusters.{Grid}
use kuintessence.Usecases.Parse.{
  Services, read_text, fill_parts, execution, deploys, parse_usecase, parse_task,
}

-- Whether a slot is collected, and whether it may stay empty.
abbrev pub collected_slots : List OutputSlot → List Bool
collected_slots [] = []
collected_slots (OutputSlot.text d c metadata optional validator ∷ slots) =
    optional ∷ collected_slots slots
collected_slots
      (OutputSlot.file d (FileOutOrigin.collected_out c) optional metadata validator ∷ slots) =
    optional ∷ collected_slots slots
collected_slots
      (OutputSlot.file d (FileOutOrigin.usecase_out out) optional metadata validator ∷ slots) =
    collected_slots slots

-- A body that is made of collected outputs only, with their marks.
abbrev pub Collects : List TaskBody → List Bool → Type 0
Collects [] [] = Unit
Collects (TaskBody.collected_out from rule to optional ∷ body) (o ∷ os) =
    (optional ≡ o) × Collects body os
Collects _ _ = ⊥

Collects-append :
    (body rest : List TaskBody) (os ps : List Bool)
    → Collects body os
    → Collects rest ps
    → Collects (body ++ rest) (os ++ ps)
Collects-append [] rest [] ps h k = k
Collects-append [] rest (o ∷ os) ps h k = absurd h
Collects-append (TaskBody.collected_out from rule to optional ∷ body) rest (o ∷ os) ps h k =
    (h.0, Collects-append body rest os ps h.1 k)
Collects-append (TaskBody.collected_out from rule to optional ∷ body) rest [] ps h k = absurd h
Collects-append (TaskBody.software_deployment f ∷ body) rest os ps h k = absurd h
Collects-append (TaskBody.usecase_execution x ∷ body) rest os ps h k = absurd h
Collects-append (TaskBody.execute_script x ∷ body) rest os ps h k = absurd h
Collects-append (TaskBody.file_upload a b c ∷ body) rest os ps h k = absurd h
Collects-append (TaskBody.file_download a b ∷ body) rest os ps h k = absurd h

-- A body that grows twice.
abbrev Grows : List TaskBody → List TaskBody → List Bool → Type 0
Grows body body' os = (added : List TaskBody) × (body' ≡ body ++ added) × Collects added os

extend :
    (body body' body'' : List TaskBody) (os ps : List Bool)
    → Grows body body' os
    → Grows body' body'' ps
    → Grows body body'' (os ++ ps)
extend body body' body'' os ps (a, first, h) (b, second, k) =
    (a ++ b, second ∙ ap (λ x. x ++ b) first ∙ append_assoc body a b, Collects-append a b os ps h k)

module _ (u : SoftwareComputingUsecase) (texts : Uuid → Result Error String) (spec : NodeSpec) where
  -- What one slot adds to the body.
  collect-body :
      (to : Usecase.CollectTo → Result Error CollectTo) (d : String) (optional : Bool)
      (outs outs' : Outs)
      → collect u texts spec to d optional outs ≡ ok outs'
      → Grows outs.0 outs'.0 (optional ∷ [])
  unfolding collect
  collect-body to d optional outs outs' h =
      let (x, found, h1) = >>=-eq-ok (find_collected u d) _ h in
      let (from, from_eq, h2) = >>=-eq-ok (collect_from u texts spec x.from) _ h1 in
      let (t, to_eq, h3) = >>=-eq-ok (to x.to) _ h2 in
      (
        TaskBody.collected_out from (collect_rule x.collecting) t optional ∷ [],
        sym (ap (λ o. o.0) (ok-injective h3)),
        (refl, tt),
      )

  put_file-body :
      (d : String) (out : FileOutAndAppointedBy) (optional : Bool) (outs outs' : Outs)
      → put_file u texts spec d out optional outs ≡ ok outs'
      → outs'.0 ≡ outs.0
  unfolding put_file
  put_file-body d out optional outs outs' h =
      let (slot, found, h1) = >>=-eq-ok (Slots.output_slot spec d) _ h in
      let (x, there, h2) = >>=-eq-ok (find_output u out.file_out_material_descriptor) _ h1 in
      let (alter, path, h3) = >>=-eq-ok (out_path_alter u texts spec out.kind) _ h2 in
      let (id, first, h4) = >>=-eq-ok (all_tasks_file_outputs slot >>= first) _ h3 in
      sym (ap (λ o. o.0) (ok-injective h4))

  slots-body :
      (slots : List OutputSlot) (outs outs' : Outs)
      → fold_m (output_slot u texts spec) slots outs ≡ ok outs'
      → Grows outs.0 outs'.0 (collected_slots slots)
  unfolding output_slot
  slots-body [] outs outs' h =
      ([], sym (ap (λ o. o.0) (ok-injective h)) ∙ sym (append-nil outs.0), tt)
  slots-body (OutputSlot.text d c metadata optional validator ∷ slots) outs outs' h =
      let (o, first, rest) =
        >>=-eq-ok (output_slot u texts spec (OutputSlot.text d c metadata optional validator) outs)
          _ h in
      extend outs.0 o.0 outs'.0 (optional ∷ []) (collected_slots slots)
        (collect-body (text_to u texts spec d) c optional outs o first)
        (slots-body slots o outs' rest)
  slots-body (OutputSlot.file d (FileOutOrigin.collected_out c) optional metadata validator ∷ slots)
        outs outs' h =
      let (o, first, rest) =
        >>=-eq-ok
          (output_slot u texts spec
            (OutputSlot.file d (FileOutOrigin.collected_out c) optional metadata validator) outs)
          _ h in
      let (slot, found, taken) = >>=-eq-ok (Slots.output_slot spec d) _ first in
      extend outs.0 o.0 outs'.0 (optional ∷ []) (collected_slots slots)
        (collect-body (file_to u texts spec d) c optional outs o taken)
        (slots-body slots o outs' rest)
  slots-body (OutputSlot.file d (FileOutOrigin.usecase_out out) optional metadata validator ∷ slots)
        outs outs' h =
      let (o, first, rest) =
        >>=-eq-ok
          (output_slot u texts spec
            (OutputSlot.file d (FileOutOrigin.usecase_out out) optional metadata validator) outs)
          _ h in
      rw (sym (put_file-body d out optional outs o first)) (slots-body slots o outs' rest)

-- What the body of a parsed task is made of.
abbrev pub IsBody :
    SoftwareComputingUsecase → Bool → Execution → List TaskBody → List TaskBody → Type 0
IsBody u deploy x outs body =
    (x.name ≡ u.usecase_spec.command_file)
    × (x.facility_kind ≡ facility_from u.software_spec)
    × Collects outs (collected_slots u.usecase_spec.output_slots)
    × (body ≡ (
        if deploy
        then TaskBody.software_deployment (facility_from u.software_spec)
          ∷ TaskBody.usecase_execution x
          ∷ outs
        else TaskBody.usecase_execution x ∷ outs))

parse_task-found :
    (services : Services) (s : Grid) (node_spec : NodeSpec) (data_ : SoftwareUsecaseComputing)
    (u : SoftwareComputingUsecase)
    → node_spec.kind ≡ NodeKind.software_usecase_computing data_
    → services.getter data_.software_version_id data_.usecase_version_id ≡ ok u
    → parse_task services s node_spec ≡ parse_usecase services s u node_spec
unfolding parse_task
parse_task-found services s node_spec data_ u kind there = rw kind (rw there refl)

-- A task that is parsed starts the node: its body is the execution of the use case's command, then
-- one collected output for each output slot that is collected, in order and with its mark whether it
-- may stay empty; before them stands the deployment of the software exactly if the software is not
-- blocked and the installed software satisfies it.
pub parse_task-body :
    (services : Services) (s : Grid) (node_spec : NodeSpec) (data_ : SoftwareUsecaseComputing)
    (u : SoftwareComputingUsecase) (task : Task)
    → node_spec.kind ≡ NodeKind.software_usecase_computing data_
    → services.getter data_.software_version_id data_.usecase_version_id ≡ ok u
    → parse_task services s node_spec ≡ ok task
    → (task.id ≡ node_spec.id)
      × (task.command ≡ TaskCommand.start)
      × ((deploy : Bool) × (deploys u.software_spec s ≡ ok deploy)
          × ((x : Execution) × (outs : List TaskBody) × IsBody u deploy x outs task.body))
unfolding parse_usecase
parse_task-body services s node_spec data_ u task kind there h =
    let parsed = sym (parse_task-found services s node_spec data_ u kind there) ∙ h in
    let (p, filled, h1) = >>=-eq-ok (fill_parts services s u node_spec) _ parsed in
    let (outs, collected, h2) =
      >>=-eq-ok
        (fold_m (output_slot u (read_text s.store) node_spec) u.usecase_spec.output_slots
          ([], p.files))
        _ h1 in
    let (deploy, decided, h3) = >>=-eq-ok (deploys u.software_spec s) _ h2 in
    let done = ok-injective h3 in
    let (added, grown, marks) =
      slots-body u (read_text s.store) node_spec u.usecase_spec.output_slots ([], p.files) outs
        collected in
    (
      sym (ap (λ t. t.id) done),
      sym (ap (λ t. t.command) done),
      (
        deploy,
        decided,
        (
          execution services s u node_spec p outs,
          outs.0,
          (
            refl,
            refl,
            subst (λ b. Collects b (collected_slots u.usecase_spec.output_slots)) (sym grown) marks,
            sym (ap (λ t. t.body) done),
          ),
        ),
      ),
    )
