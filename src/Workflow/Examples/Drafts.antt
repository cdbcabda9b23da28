-- ===== src/Workflow/Examples/Drafts.antt =====
-- Tests and witnesses for the validation of drafts.
use kuintessence.Prelude.{
  ◌≡◌, ◌≢◌, refl, Bool, true, false, some, none, List, [], ◌∷◌, ok, map, All, arith,
}
use kuintessence.Workflow.Common.{
  Uuid, SchedulingStrategy, NodeRelation, BatchStrategy, BatchStrategyKind, NodeInputSlot, NodeKind,
  network, inputs_count,
}
use kuintessence.Workflow.Draft.{
  NodeDraft, NodeDraftOutputSlotKind, WorkflowDraftSpec, concat, get_input_slot,
  validate_related_nodes, validate_per_node, validate_workflow_draft,
}
use kuintessence.Workflow.Draft.Related.{RelatesWell, to_slots, validate_related_nodes-RelatesWell}
use kuintessence.Workflow.Draft.PerNode.{NodeOk}
use kuintessence.Workflow.Draft.Accepted.{validate_per_node-NodeOk, validate_per_node-IsOriginal}
use kuintessence.Workflow.Convert.{workflow_spec_from}
use kuintessence.Workflow.Convert.Copies.{AreCopies}
use kuintessence.Workflow.Convert.Links.{with_ends, renamed, workflow_spec_from-renamed}
use kuintessence.Workflow.Examples.{fresh, strategy, text_slot, fill_three, relation}

abbrev pub draft_of : Uuid → List NodeInputSlot → List BatchStrategy → NodeDraft
draft_of id slots strategies = record {
  kind = NodeKind.no_action;
  external_id = id;
  name = "n";
  description = "";
  batch_strategies = some strategies;
  input_slots = slots;
  output_slots =
      record {
        kind = NodeDraftOutputSlotKind.text;
        descriptor = "out";
        description = none;
        optional = false;
      }
      ∷ [];
  scheduling_strategy = SchedulingStrategy.prefer (70 ∷ []);
  requirements = none;
  additional_datas = none;
}

abbrev pub draft : List NodeDraft → List NodeRelation → WorkflowDraftSpec
draft nodes relations = record {
  scheduling_strategy = SchedulingStrategy.auto;
  node_drafts = nodes;
  node_relations = relations;
}

abbrev good : WorkflowDraftSpec
good =
    draft
      (draft_of 1 (text_slot "in" (some (7 ∷ [])) ∷ []) (strategy "in" fill_three ∷ [])
        ∷ draft_of 2 (text_slot "a" (some []) ∷ []) []
        ∷ [])
      (relation 1 2 ∷ [])

validate_related_nodes-RelatesWell_example :
    All (RelatesWell good) good.node_relations
    × ("a" ∷ [] ≡ concat (map to_slots good.node_relations))
unfolding validate_related_nodes
validate_related_nodes-RelatesWell_example = validate_related_nodes-RelatesWell good ("a" ∷ []) refl

abbrev pub know_all : Uuid → Bool
know_all id = true

validate_per_node-NodeOk_example : All (NodeOk know_all ("a" ∷ []) good) good.node_drafts
unfolding validate_per_node
validate_per_node-NodeOk_example = validate_per_node-NodeOk know_all ("a" ∷ []) good refl

validate_workflow_draft-good : validate_workflow_draft know_all good ≡ ok tt
unfolding validate_workflow_draft
validate_workflow_draft-good = refl

abbrev original : NodeDraft
original =
    draft_of 1 (text_slot "in" (some (7 ∷ 8 ∷ [])) ∷ [])
      (strategy "in" BatchStrategyKind.original_batch ∷ [])

validate_per_node-IsOriginal_example :
    validate_per_node know_all [] (draft (original ∷ []) []) ≢ ok tt
unfolding get_input_slot inputs_count
validate_per_node-IsOriginal_example =
    validate_per_node-IsOriginal know_all [] (draft (original ∷ []) []) [] original [] [] _ [] refl
      refl (refl, (text_slot "in" (some (7 ∷ 8 ∷ [])), 2, refl, refl, omega arith))

-- A batch that is fed by itself is accepted.
abbrev looped : WorkflowDraftSpec
looped =
    draft
      (record (draft_of 2 (text_slot "a" (some []) ∷ [])
          (strategy "a" BatchStrategyKind.from_batch_outputs ∷ [])) {
            output_slots =
                record {
                  kind = NodeDraftOutputSlotKind.text;
                  descriptor = "a";
                  description = none;
                  optional = false;
                }
                ∷ [];
          }
        ∷ [])
      (record (relation 2 2) {
        slot_relations =
            record { from_slot = "a"; to_slot = "a"; transfer_strategy = network } ∷ [];
      }
        ∷ [])

validate_workflow_draft-looped : validate_workflow_draft know_all looped ≡ ok tt
unfolding validate_workflow_draft
validate_workflow_draft-looped = refl

-- The two nodes get the ids 103 and 105; 104 and 106 go to their output slots.
converted_relations :
    (workflow_spec_from fresh good 3).0.node_relations
    ≡ record (relation 1 2) { from_id = 103; to_id = 105 } ∷ []
unfolding workflow_spec_from
converted_relations = refl

workflow_spec_from-renamed_example :
    AreCopies fresh 3 good.node_drafts (workflow_spec_from fresh good 3).0.node_specs
    × ((workflow_spec_from fresh good 3).0.node_relations
        ≡ map
            (with_ends (renamed good.node_drafts (workflow_spec_from fresh good 3).0.node_specs))
            good.node_relations)
workflow_spec_from-renamed_example =
    workflow_spec_from-renamed fresh good 3 (refl, (refl, tt)) (λ m. ground arith)
