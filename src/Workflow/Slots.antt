-- ===== src/Workflow/Slots.antt =====
-- src/kernel/src/models/impls/workflow_instance.rs: the methods of `NodeSpec`, `NodeSpecOutputSlot`
-- and `WorkflowInstanceSpec`. `fresh n` is the n-th id that `Uuid::new_v4` returns; what draws ids
-- takes the number of the next one.
pub mod Inputs
pub mod SubNodes
use kuintessence.Prelude.{
  ℕ, ◌+◌, suc, zero, String, Bool, true, false, ◌≡◌, Option, none, some, List, [], ◌∷◌, ◌++◌,
  Result, ok, err, panic, is_some, not, map, length, unwrap, ◌>>=◌, ◌==◌, str_eq, find, traverse,
  keep, if◌then◌else◌, zip, replicate,
}
use kuintessence.Workflow.Common.{
  Uuid, NodeRelation, FileInput, file_input_of, Input, NodeInputSlotKind, NodeInputSlot,
}
use kuintessence.Workflow.Instance.{
  NodeSpecOutputSlotKind, NodeSpecOutputSlot, NodeSpec, WorkflowInstanceSpec, WorkflowInstance,
  Error, not_file_slot, not_text_slot, unknown_input_kind, mismatched_input,
}

-- `WorkflowInstanceSpec::node`
unfoldable pub node : WorkflowInstanceSpec → Uuid → Result Error NodeSpec
node spec id = unwrap (find (λ el. el.id == id) spec.node_specs)

-- `WorkflowInstance::node_dependency_relations`
unfoldable pub node_dependency_relations : WorkflowInstance → Uuid → List NodeRelation
node_dependency_relations w node_id = keep (λ el. el.to_id == node_id) w.spec.node_relations

-- `NodeSpec::input_slot`
unfoldable pub input_slot : NodeSpec → String → Result Error NodeInputSlot
input_slot spec descriptor = unwrap (find (λ el. str_eq el.descriptor descriptor) spec.input_slots)

-- `NodeSpec::output_slot`
unfoldable pub output_slot : NodeSpec → String → Result Error NodeSpecOutputSlot
output_slot spec descriptor =
    unwrap (find (λ el. str_eq el.descriptor descriptor) spec.output_slots)

-- `NodeSpecOutputSlot::all_tasks_file_outputs`
unfoldable pub all_tasks_file_outputs : NodeSpecOutputSlot → Result Error (List Uuid)
all_tasks_file_outputs slot = elim slot.kind [
  | NodeSpecOutputSlotKind.file origin is_batch ids ↦ ok ids
  | NodeSpecOutputSlotKind.text keys ↦ err (not_file_slot slot.descriptor)
]

-- `NodeSpecOutputSlot::all_tasks_text_outputs`
unfoldable pub all_tasks_text_outputs : NodeSpecOutputSlot → Result Error (List Uuid)
all_tasks_text_outputs slot = elim slot.kind [
  | NodeSpecOutputSlotKind.file origin is_batch ids ↦ err (not_text_slot slot.descriptor)
  | NodeSpecOutputSlotKind.text keys ↦ ok keys
]

-- The `match` of `update_with_inputs` on the slot's kind and the input.
fill : String → NodeInputSlotKind → Input → Result Error NodeInputSlotKind
fill d (NodeInputSlotKind.text contents rule) (Input.text id) =
    ok (NodeInputSlotKind.text (some (id ∷ [])) rule)
fill d (NodeInputSlotKind.text contents rule) (Input.file f) = err (mismatched_input d)
fill d (NodeInputSlotKind.file contents name batch) (Input.file f) =
    ok (NodeInputSlotKind.file (some (f ∷ [])) name batch)
fill d (NodeInputSlotKind.file contents name batch) (Input.text id) = err (mismatched_input d)
fill d NodeInputSlotKind.unknown i = err unknown_input_kind

-- The body of the inner loop of `update_with_inputs`, for one input and one slot.
update_slot : String → Input → NodeInputSlot → Result Error NodeInputSlot
unfolding fill
update_slot descriptor input slot =
    if str_eq slot.descriptor descriptor
    then (fill slot.descriptor slot.kind input >>= λ kind. ok (record slot { kind = kind }))
    else ok slot

update_slots : List (String × Input) → List NodeInputSlot → Result Error (List NodeInputSlot)
unfolding update_slot
update_slots [] slots = ok slots
update_slots ((descriptor, input) ∷ rest) slots =
    traverse (update_slot descriptor input) slots >>= update_slots rest

-- `NodeSpec::update_with_inputs`. A node that is left half updated by an error is dropped by the
-- only caller, `parse_sub_nodes`.
unfoldable pub update_with_inputs : List (String × Input) → NodeSpec → Result Error NodeSpec
unfolding update_slots
update_with_inputs inputs spec =
    update_slots inputs spec.input_slots >>= λ slots. ok (record spec { input_slots = slots })

module _ (fresh : ℕ → Uuid) where
  prepare : NodeSpecOutputSlotKind → ℕ → NodeSpecOutputSlotKind
  prepare (NodeSpecOutputSlotKind.file origin is_batch ids) n =
      NodeSpecOutputSlotKind.file origin is_batch (fresh n ∷ [])
  prepare (NodeSpecOutputSlotKind.text keys) n = NodeSpecOutputSlotKind.text (fresh n ∷ [])

  update_outputs : List NodeSpecOutputSlot → ℕ → List NodeSpecOutputSlot × ℕ
  unfolding prepare
  update_outputs [] n = ([], n)
  update_outputs (el ∷ els) n =
      let (els', n') = update_outputs els (suc n) in
      (record el { kind = prepare el.kind n } ∷ els', n')

  -- `NodeSpec::update_output_slots`
  pub update_output_slots : NodeSpec → ℕ → NodeSpec × ℕ
  unfolding update_outputs
  update_output_slots spec n =
      let (slots, n') = update_outputs spec.output_slots n in
      (record spec { output_slots = slots }, n')

  -- The loop of `parse_sub_nodes`, over the tasks that are left.
  parse_tasks :
      NodeSpec → List (Uuid × List (String × Input)) → ℕ → Result Error (List NodeSpec × ℕ)
  unfolding update_with_inputs update_output_slots
  parse_tasks spec [] n = ok ([], n)
  parse_tasks spec ((id, inputs) ∷ tasks) n =
      update_with_inputs inputs (record spec { id = id }) >>= λ filled.
      let (sub_node, n') = update_output_slots filled n in
      parse_tasks spec tasks n' >>= λ r. ok (sub_node ∷ r.0, r.1)

  -- `NodeSpec::parse_sub_nodes`: one copy of the node for each task.
  unfoldable pub parse_sub_nodes :
      NodeSpec → List (Uuid × List (String × Input)) → ℕ → Result Error (List NodeSpec × ℕ)
  unfolding parse_tasks
  parse_sub_nodes spec tasks_inputs n = parse_tasks spec tasks_inputs n

text_keys_of : NodeInputSlotKind → Result Error (List Uuid)
text_keys_of (NodeInputSlotKind.text contents rule) = unwrap contents
text_keys_of (NodeInputSlotKind.file contents name batch) = ok []
text_keys_of NodeInputSlotKind.unknown = ok []

-- `NodeSpec::text_keys`: the texts of all text slots in order.
pub text_keys : List NodeInputSlot → Result Error (List Uuid)
unfolding text_keys_of
text_keys [] = ok []
text_keys (slot ∷ slots) =
    text_keys_of slot.kind >>= λ keys. text_keys slots >>= λ rest. ok (keys ++ rest)
