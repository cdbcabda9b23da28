-- ===== src/Workflow/Examples.antt =====
-- A small workflow: node 1 takes a text and a file, and node 2 is a batch node fed by node 1. The
-- witnesses and the tests of the workflow engine stand in the modules below.
mod Nodes
mod Drafts
mod Lifecycle
mod Scheduling
mod Submission
use kuintessence.Prelude.{ℕ, ◌+◌, String, true, false, Option, none, some, List, [], ◌∷◌}
use kuintessence.Prelude.Int.{pos}
use kuintessence.Workflow.Common.{
  Uuid, SchedulingStrategy, NodeRelation, SlotRelation, network, Filler, BatchStrategy,
  BatchStrategyKind, Input, TextInputSlotRule, NodeInputSlot, NodeInputSlotKind, NodeKind,
  usecase_out,
}
use kuintessence.Workflow.Instance.{
  NodeSpec, NodeSpecOutputSlot, NodeSpecOutputSlotKind, WorkflowInstance, WorkflowInstanceStatus,
  NodeInstance, NodeInstanceKind, NodeInstanceStatus,
}

abbrev fresh : ℕ → Uuid
fresh n = 100 + n

abbrev text_slot : String → Option (List Uuid) → NodeInputSlot
text_slot descriptor contents = record {
  kind = NodeInputSlotKind.text contents TextInputSlotRule.any_string;
  optional = false;
  descriptor = descriptor;
  description = none;
}

abbrev file_slot : String → NodeInputSlot
file_slot descriptor = record {
  kind = NodeInputSlotKind.file (some []) none false;
  optional = false;
  descriptor = descriptor;
  description = none;
}

abbrev text_output : String → NodeSpecOutputSlot
text_output descriptor = record {
  kind = NodeSpecOutputSlotKind.text [];
  descriptor = descriptor;
  description = none;
  optional = false;
}

abbrev strategy : String → BatchStrategyKind → BatchStrategy
strategy descriptor kind = record {
  input_slot_descriptor = descriptor;
  renaming_pattern = none;
  kind = kind;
}

abbrev fill_three : BatchStrategyKind
fill_three = BatchStrategyKind.match_regex "{}" 3 (Filler.auto_number (pos 0) (pos 1))

abbrev spec_of : Uuid → List NodeInputSlot → List BatchStrategy → NodeSpec
spec_of id slots strategies = record {
  kind = NodeKind.no_action;
  id = id;
  name = "n";
  description = "";
  input_slots = slots;
  output_slots = text_output "out" ∷ text_output "log" ∷ [];
  scheduling_strategy = SchedulingStrategy.auto;
  batch_strategies = strategies;
  requirements = none;
  additional_datas = none;
}

abbrev slot_relation : String → String → SlotRelation
slot_relation from to = record { from_slot = from; to_slot = to; transfer_strategy = network }

abbrev relation : Uuid → Uuid → NodeRelation
relation from to = record {
  from_id = from;
  to_id = to;
  slot_relations = slot_relation "out" "a" ∷ [];
}

abbrev first_node : NodeSpec
first_node =
    spec_of 1 (text_slot "a" (some (7 ∷ [])) ∷ file_slot "b" ∷ []) (strategy "a" fill_three ∷ [])

abbrev second_node : NodeSpec
second_node =
    spec_of 2 (text_slot "a" (some []) ∷ [])
      (strategy "a" BatchStrategyKind.from_batch_outputs ∷ [])

abbrev flow_of : List NodeSpec → List NodeRelation → WorkflowInstance
flow_of specs relations = record {
  id = 50;
  name = "flow";
  description = "";
  logo = none;
  status = WorkflowInstanceStatus.running;
  spec = record {
    scheduling_strategy = SchedulingStrategy.auto;
    node_specs = specs;
    node_relations = relations;
  };
  last_modified_time = 9;
  user_id = 60;
}

abbrev flow : WorkflowInstance
flow = flow_of (first_node ∷ second_node ∷ []) (relation 1 2 ∷ [])

abbrev row : Uuid → NodeInstanceStatus → NodeInstance
row id status = record {
  kind = NodeInstanceKind.no_action;
  id = id;
  name = "n";
  is_parent = false;
  batch_parent_id = none;
  flow_instance_id = 50;
  status = status;
  cluster_id = none;
  log = none;
  resource_meter = none;
}
