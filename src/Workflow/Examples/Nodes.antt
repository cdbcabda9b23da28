-- ===== src/Workflow/Examples/Nodes.antt =====
-- Tests and witnesses for node specs, sub node counts, node rows and entry nodes.
use kuintessence.Prelude.{
  ℕ, ◌≡◌, refl, ◌≢◌, ◌⊎◌, String, true, false, List, [], ◌∷◌, ok, err, map, all, flat_map, contains,
  arith,
}
use kuintessence.Workflow.Common.{Uuid, Input}
use kuintessence.Workflow.Instance.{NodeSpec, NodeInstance, Error, stack_overflow}
use kuintessence.Workflow.Slots.{update_with_inputs, parse_sub_nodes}
use kuintessence.Workflow.Slots.Inputs.{accepts, filled_slot, update_with_inputs-filled_slot}
use kuintessence.Workflow.Slots.SubNodes.{prepared_ids, parse_sub_nodes-drawn}
use kuintessence.Workflow.Entry.{find_entry_nodes_ids}
use kuintessence.Workflow.Entry.Degrees.{find_entry_nodes_ids-in_degree}
use kuintessence.Workflow.Counts.{sub_node_count}
use kuintessence.Workflow.Counts.Depth.{sub_node_count-rank}
use kuintessence.Workflow.Nodes.{parse_node_instances}
use kuintessence.Workflow.Nodes.Rows.{Holds, parse_node_instances-Holds}
use kuintessence.Workflow.Examples.{fresh, first_node, flow}

abbrev inputs : List (String × Input)
inputs = ("a", Input.text 8) ∷ ("a", Input.text 9) ∷ []

update_with_inputs-filled_slot_example :
    ((all (accepts inputs) first_node.input_slots ≡ true)
      × (update_with_inputs inputs first_node
          ≡ ok (record first_node {
            input_slots = map (filled_slot inputs) first_node.input_slots;
          })))
    ⊎ ((all (accepts inputs) first_node.input_slots ≡ false)
        × ((e : Error) × (update_with_inputs inputs first_node ≡ err e)))
update_with_inputs-filled_slot_example = update_with_inputs-filled_slot inputs first_node

abbrev tasks : List (Uuid × List (String × Input))
tasks = (21, inputs) ∷ (22, []) ∷ []

parse_sub_nodes-drawn_example :
    (subs : List NodeSpec) × (n' : ℕ) × (parse_sub_nodes fresh first_node tasks 0 ≡ ok (subs, n'))
    × (map (λ sub. sub.id) subs ≡ 21 ∷ 22 ∷ [])
    × (map (λ sub. sub.input_slots) subs
        ≡ map (λ t. map (filled_slot t.1) first_node.input_slots) tasks)
    × (flat_map prepared_ids subs ≡ 100 ∷ 101 ∷ 102 ∷ 103 ∷ [])
parse_sub_nodes-drawn_example = parse_sub_nodes-drawn fresh first_node tasks 0 refl

abbrev diamond : List (Uuid × Uuid)
diamond = (1, 2) ∷ (1, 3) ∷ (2, 4) ∷ (3, 4) ∷ []

find_entry_nodes_ids-in_degree_example :
    contains (find_entry_nodes_ids (1 ∷ 2 ∷ 3 ∷ 4 ∷ []) diamond) 1 ≡ true
find_entry_nodes_ids-in_degree_example =
    find_entry_nodes_ids-in_degree (1 ∷ 2 ∷ 3 ∷ 4 ∷ []) diamond 1 (omega arith)

find_entry_nodes_ids-diamond : find_entry_nodes_ids (1 ∷ 2 ∷ 3 ∷ 4 ∷ []) diamond ≡ 1 ∷ []
unfolding find_entry_nodes_ids
find_entry_nodes_ids-diamond = refl

sub_node_count-rank_example :
    (sub_node_count 9 flow 2 ≡ sub_node_count 3 flow 2)
    × (sub_node_count 9 flow 2 ≢ err stack_overflow)
sub_node_count-rank_example = sub_node_count-rank flow (λ id. id) refl 9 2 (omega arith)

sub_node_count-flow : sub_node_count 3 flow 2 ≡ ok 3
unfolding sub_node_count
sub_node_count-flow = refl

rows : List NodeInstance
unfolding parse_node_instances sub_node_count
rows = elim (parse_node_instances fresh 3 flow 0) [ ok r ↦ r.0 | _ ↦ [] ]

parse_node_instances-Holds_example : Holds fresh 3 flow flow.spec.node_specs rows 0 6
unfolding rows
parse_node_instances-Holds_example = parse_node_instances-Holds fresh 3 flow 0 rows 6 refl
