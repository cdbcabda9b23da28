-- ===== src/Workflow/Nodes.antt =====
-- `WorkflowInstance::parse_node_instances` of src/kernel/src/models/impls/workflow_instance.rs: the
-- rows of a submitted workflow's nodes. A batch parent gets a row and one row for each sub task.
pub mod Rows
use Prim.Native.String
use kuintessence.Prelude.{
  ℕ, zero, suc, ◌+◌, String, Bool, true, false, none, some, List, [], ◌∷◌, ◌++◌, Result, ok, err,
  panic, ◌>>=◌, not, is_empty, if◌then◌else◌,
}
use kuintessence.Prelude.Decimal.{to_string}
use kuintessence.Workflow.Common.{Uuid, NodeKind}
use kuintessence.Workflow.Instance.{
  NodeSpec, WorkflowInstance, NodeInstance, NodeInstanceKind, NodeInstanceStatus, Error,
}
use kuintessence.Workflow.Counts.{sub_node_count}

-- `NodeInstanceKind::from(NodeKind)` of src/kernel/src/models/impls/node_instance.rs.
unfoldable pub kind_of : NodeKind → NodeInstanceKind
kind_of (NodeKind.software_usecase_computing _) = NodeInstanceKind.software_usecase_computing
kind_of NodeKind.no_action = NodeInstanceKind.no_action
kind_of (NodeKind.script _) = NodeInstanceKind.script
kind_of (NodeKind.milestone _) = NodeInstanceKind.milestone

root_instance : WorkflowInstance → NodeSpec → NodeInstance
unfolding kind_of
root_instance w node_spec = record {
  kind = kind_of node_spec.kind;
  id = node_spec.id;
  name = node_spec.name;
  is_parent = not (is_empty node_spec.batch_strategies);
  batch_parent_id = none;
  flow_instance_id = w.id;
  status = NodeInstanceStatus.created;
  cluster_id = none;
  log = none;
  resource_meter = none;
}

sub_task_name : String → ℕ → String
unfolding to_string
sub_task_name name i = String.◌++◌ name (String.◌++◌ "_sub_task_" (to_string i))

module _ (fresh : ℕ → Uuid) where
  -- `for i in 0..count`: the rounds that are left, the round and the number of the next id.
  sub_instances : NodeInstance → ℕ → ℕ → ℕ → List NodeInstance
  unfolding sub_task_name
  sub_instances root zero i n = []
  sub_instances root (suc left) i n =
      record root {
        id = fresh n;
        name = sub_task_name root.name i;
        is_parent = false;
        batch_parent_id = some root.id;
      }
      ∷ sub_instances root left (suc i) (suc n)

  module _ (depth : ℕ) (w : WorkflowInstance) where
    node_rows : NodeSpec → ℕ → Result Error (List NodeInstance × ℕ)
    unfolding root_instance sub_instances
    node_rows node_spec n =
        let root = root_instance w node_spec in
        if root.is_parent
        then (sub_node_count depth w node_spec.id >>= λ count.
            ok (root ∷ sub_instances root count 0 n, n + count))
        else ok (root ∷ [], n)

    spec_rows : List NodeSpec → ℕ → Result Error (List NodeInstance × ℕ)
    unfolding node_rows
    spec_rows [] n = ok ([], n)
    spec_rows (node_spec ∷ rest) n =
        node_rows node_spec n >>= λ r. spec_rows rest r.1 >>= λ s. ok (r.0 ++ s.0, s.1)

    unfoldable pub parse_node_instances : ℕ → Result Error (List NodeInstance × ℕ)
    unfolding spec_rows
    parse_node_instances n = spec_rows w.spec.node_specs n
