-- ===== src/Workflow/Schedule.antt =====
-- `schedule_next_nodes` of src/kernel/src/services/workflow_engine/schedule.rs, in both modes.
pub mod Join
pub mod Started
use kuintessence.Prelude.{
  ℕ, suc, String, Bool, true, false, Option, none, some, List, [], ◌∷◌, ◌++◌, map, Result, ok, err,
  panic, ◌==◌, not, str_eq, is_empty, keep, contains, traverse, ◌&&◌, if◌then◌else◌,
}
use kuintessence.Prelude as R
use kuintessence.Workflow.Common.{
  Uuid, NodeRelation, SlotRelation, NodeInputSlot, NodeInputSlotKind, file_input_of,
}
use kuintessence.Workflow.Instance.{
  NodeSpecOutputSlotKind, NodeSpecOutputSlot, NodeSpec, WorkflowInstance, WorkflowInstanceStatus,
  NodeInstance, NodeInstanceStatus, Error, not_fully_scheduled,
}
use kuintessence.Workflow.Exec.{pure, bail, lift, for_each, ◌>>=◌, ◌>>◌}
use kuintessence.Workflow.Store.{
  Act, update_node, update_flow, push, get_node, get_flow, save_changed, get_by_node_id,
  get_node_sub_node_instances, get_all_workflow_instance_stand_by_nodes,
  is_all_same_entryment_nodes_success,
}
use kuintessence.Workflow.Slots.{
  node, node_dependency_relations, output_slot, all_tasks_file_outputs, all_tasks_text_outputs,
}
use kuintessence.Usecases.Select.{send_usecase}
use kuintessence.Workflow.Entry.{find_entry_nodes_ids}
use kuintessence.Workflow.Batch.{Env, first, debatch}

-- `ScheduleMode` of src/kernel/src/service/workflow_engine/schedule.rs.
pub data ScheduleMode : Type 0 where
  workflow_instance_id node_instance_id : Uuid → ScheduleMode

abbrev pub dependency : NodeRelation → Uuid × Uuid
dependency el = (el.from_id, el.to_id)

-- A node that is no entry stands by, and so do its sub tasks.
stand_by : NodeSpec → Act (Unit {0})
unfolding get_node push get_node_sub_node_instances
stand_by node_spec = get_node node_spec.id >>= λ stand_by_node_instance.
    push (update_node (record stand_by_node_instance { status = NodeInstanceStatus.standby }))
    >> (if is_empty node_spec.batch_strategies
        then pure tt
        else (get_node_sub_node_instances node_spec.id >>= λ els.
            for_each els
              λ el. push (update_node (record el { status = NodeInstanceStatus.standby }))))

-- The first step of a workflow: its entries.
first_entries : Uuid → Act (WorkflowInstance × List Uuid)
unfolding get_flow push save_changed find_entry_nodes_ids stand_by
first_entries id = do
  found ← get_flow id
  let workflow_instance : WorkflowInstance = record found {
    status = WorkflowInstanceStatus.running;
  }
  push (update_flow workflow_instance)
  save_changed
  let node_specs = workflow_instance.spec.node_specs
  let entry_node_ids =
      find_entry_nodes_ids (map (λ el. el.id) node_specs)
        (map dependency workflow_instance.spec.node_relations)
  for_each (keep (λ el. not (contains entry_node_ids el.id)) node_specs) stand_by
  pure (workflow_instance, entry_node_ids)

-- After a node: the waiting nodes that are entries without the relations of that node.
unfoldable pub next_entries : Uuid → Act (WorkflowInstance × List Uuid)
unfolding is_all_same_entryment_nodes_success get_by_node_id
    get_all_workflow_instance_stand_by_nodes find_entry_nodes_ids
next_entries node_id = is_all_same_entryment_nodes_success node_id >>= λ finished.
    if finished
    then (get_by_node_id node_id >>= λ workflow_instance.
        get_all_workflow_instance_stand_by_nodes workflow_instance.id >>= λ stand_by_nodes. pure (
          workflow_instance,
          find_entry_nodes_ids (map (λ el. el.id) stand_by_nodes) (
              map dependency (
                keep (λ el. not (el.from_id == node_id) && not (el.to_id == node_id))
                  workflow_instance.spec.node_relations)),
        ))
    else bail (not_fully_scheduled node_id)

-- The input of a slot from the output of the node that feeds it.
relay : NodeSpecOutputSlot → NodeInputSlotKind → Result Error NodeInputSlotKind
unfolding all_tasks_text_outputs all_tasks_file_outputs first
relay from_slot (NodeInputSlotKind.text contents rule) =
    R.◌>>=◌ (R.◌>>=◌ (all_tasks_text_outputs from_slot) first)
      (λ key. ok (NodeInputSlotKind.text (some (key ∷ [])) rule))
relay from_slot (NodeInputSlotKind.file contents name batch) =
    R.◌>>=◌ (R.◌>>=◌ (all_tasks_file_outputs from_slot) first)
      (λ id. ok (NodeInputSlotKind.file (some (file_input_of id ∷ [])) name batch))
relay from_slot NodeInputSlotKind.unknown = panic

-- `mut_input_slot`, and the assignment to the slot's kind: the first slot with the descriptor.
change_input_slot :
    String
    → (NodeInputSlotKind → Result Error NodeInputSlotKind)
    → List NodeInputSlot
    → Result Error (List NodeInputSlot)
change_input_slot descriptor f [] = panic
change_input_slot descriptor f (slot ∷ slots) =
    let rest = change_input_slot descriptor f slots in
    if str_eq slot.descriptor descriptor
    then R.◌>>=◌ (f slot.kind) (λ kind. ok (record slot { kind = kind } ∷ slots))
    else R.◌>>=◌ rest (λ slots'. ok (slot ∷ slots'))

relay_slots : NodeSpec → List SlotRelation → NodeSpec → Result Error NodeSpec
unfolding output_slot relay change_input_slot
relay_slots from_node [] entry_node = ok entry_node
relay_slots from_node (r ∷ rs) entry_node =
    R.◌>>=◌ (output_slot from_node r.from_slot) (λ from_slot.
      R.◌>>=◌ (change_input_slot r.to_slot (relay from_slot) entry_node.input_slots)
        (λ slots. relay_slots from_node rs (record entry_node { input_slots = slots })))

-- The inputs of an entry that is no batch node. A relation without slots does not look up its node.
relay_relations : WorkflowInstance → List NodeRelation → NodeSpec → Result Error NodeSpec
unfolding node relay_slots
relay_relations w [] entry_node = ok entry_node
relay_relations w (r ∷ rs) entry_node =
    if is_empty r.slot_relations
    then relay_relations w rs entry_node
    else R.◌>>=◌ (node w.spec r.from_id) (λ from_node.
      R.◌>>=◌ (relay_slots from_node r.slot_relations entry_node) (relay_relations w rs))

-- The outputs of the i-th sub task are added to the outputs of its parent.
collect_output : ℕ → NodeSpec → NodeSpecOutputSlot → Result Error NodeSpecOutputSlot
unfolding output_slot all_tasks_file_outputs all_tasks_text_outputs first
collect_output i task_node slot = R.◌>>=◌ (output_slot task_node slot.descriptor) λ task_slot.
    elim slot.kind [
      | NodeSpecOutputSlotKind.file origin is_batch ids ↦
          R.◌>>=◌ (R.◌>>=◌ (all_tasks_file_outputs task_slot) first) (λ id. ok (record slot {
            kind =
                NodeSpecOutputSlotKind.file origin is_batch
                  ((if i == 0 then [] else ids) ++ id ∷ []);
          }))
      | NodeSpecOutputSlotKind.text keys ↦
          R.◌>>=◌ (R.◌>>=◌ (all_tasks_text_outputs task_slot) first) (λ key. ok (record slot {
            kind = NodeSpecOutputSlotKind.text ((if i == 0 then [] else keys) ++ key ∷ []);
          }))
    ]

collect_outputs :
    ℕ → List NodeSpec → List NodeSpecOutputSlot → Result Error (List NodeSpecOutputSlot)
unfolding collect_output
collect_outputs i [] slots = ok slots
collect_outputs i (task_node ∷ rest) slots =
    R.◌>>=◌ (traverse (collect_output i task_node) slots) (collect_outputs (suc i) rest)

run_node : NodeSpec → Act (Unit {0})
unfolding get_node push
run_node task_node_spec = get_node task_node_spec.id >>= λ node_instance.
    push (update_node (record node_instance { status = NodeInstanceStatus.running }))

module _ (env : Env) where
  -- One entry: the node as it is kept in the workflow, and the tasks that are started for it.
  prepare_entry : WorkflowInstance → NodeSpec → Act (NodeSpec × List NodeSpec)
  unfolding node_dependency_relations relay_relations debatch collect_outputs
  prepare_entry w entry_node =
      let node_relations = node_dependency_relations w entry_node.id in
      if is_empty entry_node.batch_strategies
      then (lift (relay_relations w node_relations entry_node) >>= λ filled.
          pure (filled, filled ∷ []))
      else (debatch env node_relations entry_node >>= λ task_nodes.
          lift (collect_outputs 0 task_nodes entry_node.output_slots) >>= λ output_slots.
          pure (record entry_node { output_slots = output_slots }, entry_node ∷ task_nodes))

  -- All nodes of the workflow in order; those that are no entries stay as they are.
  unfoldable pub prepare_nodes :
      WorkflowInstance → List Uuid → List NodeSpec → Act (List NodeSpec × List NodeSpec)
  unfolding prepare_entry
  prepare_nodes w entry_node_ids [] = pure ([], [])
  prepare_nodes w entry_node_ids (el ∷ els) = do
    here ← if contains entry_node_ids el.id then prepare_entry w el else pure (el, [])
    rest ← prepare_nodes w entry_node_ids els
    pure (here.0 ∷ rest.0, here.1 ++ rest.1)

  -- The rows are saved as running before the tasks are sent.
  start_nodes : WorkflowInstance → List Uuid → Act (Unit {0})
  unfolding prepare_nodes run_node save_changed send_usecase push
  start_nodes w entry_node_ids = do
    prepared ← prepare_nodes w entry_node_ids w.spec.node_specs
    for_each prepared.1 run_node
    save_changed
    for_each prepared.1 (send_usecase env)
    push (update_flow (record w { spec = record w.spec { node_specs = prepared.0 } }))
    save_changed
    pure tt

  -- Without entries the workflow is finished.
  schedule_entries : WorkflowInstance × List Uuid → Act (Unit {0})
  unfolding start_nodes push save_changed
  schedule_entries (w, entry_node_ids) =
      if is_empty entry_node_ids
      then (push (update_flow (record w { status = WorkflowInstanceStatus.finished }))
          >> save_changed
          >> pure tt)
      else start_nodes w entry_node_ids

  -- `schedule_next_nodes`
  unfoldable pub schedule_next_nodes : ScheduleMode → Act (Unit {0})
  unfolding first_entries next_entries schedule_entries
  schedule_next_nodes (workflow_instance_id id) = first_entries id >>= schedule_entries
  schedule_next_nodes (node_instance_id id) = next_entries id >>= schedule_entries
