-- ===== src/Workflow/Convert.antt =====
-- The conversions of a draft to a workflow instance: src/kernel/src/models/impls/node_instance.rs,
-- and `NodeRelation::update_id` of src/kernel/src/models/impls/common.rs. `fresh n` is the n-th id
-- that `Uuid::new_v4` returns; what draws ids takes the number of the next one.
pub mod Copies
pub mod Links
use kuintessence.Prelude.{ℕ, suc, Option, none, some, List, [], ◌∷◌, map, ◌==◌, if◌then◌else◌, zip}
use kuintessence.Workflow.Common.{Uuid, HashMap, BatchStrategy, NodeRelation}
use kuintessence.Workflow.Instance.{
  NodeSpecOutputSlotKind, NodeSpecOutputSlot, NodeSpec, WorkflowInstanceSpec, WorkflowInstance,
  WorkflowInstanceStatus,
}
use kuintessence.Workflow.Draft.{
  NodeDraftOutputSlotKind, NodeDraftOutputSlot, NodeDraft, WorkflowDraftSpec, WorkflowDraft,
}
use kuintessence.Workflow.Entry.{insert}

-- `collect` into a `HashMap`: a key that comes twice keeps the last value.
collect : List (Uuid × Uuid) → HashMap Uuid Uuid → HashMap Uuid Uuid
unfolding insert
collect [] m = m
collect ((k, v) ∷ rest) m = collect rest (insert k v m)

-- `NodeRelation::update_id`: one pass over the map, which changes the relation as it goes.
unfoldable pub update_id : HashMap Uuid Uuid → NodeRelation → NodeRelation
update_id [] r = r
update_id ((old_id, new_id) ∷ id_map) r = update_id id_map (record r {
  from_id = if old_id == r.from_id then new_id else r.from_id;
  to_id = if old_id == r.to_id then new_id else r.to_id;
})

pub strategies_from : Option (List BatchStrategy) → List BatchStrategy
strategies_from none = []
strategies_from (some batch_strategies) = batch_strategies

module _ (fresh : ℕ → Uuid) where
  output_kind_from : NodeDraftOutputSlotKind → ℕ → NodeSpecOutputSlotKind
  output_kind_from (NodeDraftOutputSlotKind.file origin is_batch) n =
      NodeSpecOutputSlotKind.file origin is_batch (fresh n ∷ [])
  output_kind_from NodeDraftOutputSlotKind.text n = NodeSpecOutputSlotKind.text (fresh n ∷ [])

  -- `NodeSpecOutputSlot::from`
  output_slot_from : NodeDraftOutputSlot → ℕ → NodeSpecOutputSlot
  unfolding output_kind_from
  output_slot_from l n = record {
    kind = output_kind_from l.kind n;
    descriptor = l.descriptor;
    description = l.description;
    optional = l.optional;
  }

  output_slots_from : List NodeDraftOutputSlot → ℕ → List NodeSpecOutputSlot × ℕ
  unfolding output_slot_from
  output_slots_from [] n = ([], n)
  output_slots_from (l ∷ ls) n =
      let (slots, n') = output_slots_from ls (suc n) in (output_slot_from l n ∷ slots, n')

  -- `NodeSpec::from`
  node_spec_from : NodeDraft → ℕ → NodeSpec × ℕ
  unfolding strategies_from output_slots_from
  node_spec_from l n =
      let (output_slots, n') = output_slots_from l.output_slots (suc n) in
      (
        record {
          kind = l.kind;
          id = fresh n;
          name = l.name;
          description = l.description;
          input_slots = l.input_slots;
          output_slots = output_slots;
          scheduling_strategy = l.scheduling_strategy;
          batch_strategies = strategies_from l.batch_strategies;
          requirements = l.requirements;
          additional_datas = l.additional_datas;
        },
        n',
      )

  pub node_specs_from : List NodeDraft → ℕ → List NodeSpec × ℕ
  unfolding node_spec_from
  node_specs_from [] n = ([], n)
  node_specs_from (l ∷ ls) n =
      let (spec, n') = node_spec_from l n in
      let (specs, n'') = node_specs_from ls n' in (spec ∷ specs, n'')

  -- `WorkflowInstanceSpec::from`
  unfoldable pub workflow_spec_from : WorkflowDraftSpec → ℕ → WorkflowInstanceSpec × ℕ
  unfolding node_specs_from collect update_id
  workflow_spec_from l n =
      let old_node_ids = map (λ el. el.external_id) l.node_drafts in
      let (node_specs, n') = node_specs_from l.node_drafts n in
      let new_node_ids = map (λ el. el.id) node_specs in
      let old_new_id_map = collect (zip old_node_ids new_node_ids) [] in
      (
        record {
          scheduling_strategy = l.scheduling_strategy;
          node_specs = node_specs;
          node_relations = map (update_id old_new_id_map) l.node_relations;
        },
        n',
      )

  -- `WorkflowInstance::from`: the user's id is the nil id of `Default` and the time that of
  -- `default()`, until the insert of the row sets both.
  unfoldable pub workflow_from : WorkflowDraft → ℕ → WorkflowInstance × ℕ
  unfolding workflow_spec_from
  workflow_from l n =
      let (spec, n') = workflow_spec_from l.spec (suc n) in
      (
        record {
          id = fresh n;
          name = l.name;
          description = l.description;
          logo = l.logo;
          status = WorkflowInstanceStatus.created;
          spec = spec;
          last_modified_time = 0;
          user_id = 0;
        },
        n',
      )
