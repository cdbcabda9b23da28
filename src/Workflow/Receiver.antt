-- ===== src/Workflow/Receiver.antt =====
-- `receive_node_status` of src/kernel/src/services/workflow_engine/status_receiver.rs: what an
-- agent reports about a task.
pub mod Saved
pub mod Refused
pub mod Billed
use kuintessence.Prelude.{Bool, true, false, some, List, ok, is_empty, keep, if◌then◌else◌}
use kuintessence.Workflow.Common.{Uuid}
use kuintessence.Workflow.Instance.{
  NodeInstance, NodeInstanceStatus, WorkflowInstance, WorkflowInstanceStatus, TaskResult,
  TaskResultStatus,
}
use kuintessence.Workflow.Exec.{pure, ◌>>=◌, ◌>>◌}
use kuintessence.Workflow.Store.{
  Act, bill, update_node, update_flow, push, get_node, get_flow, save_changed,
  get_all_workflow_instance_nodes, ask,
}
use kuintessence.Workflow.Batch.{Env}
use kuintessence.Workflow.Schedule.{node_instance_id, schedule_next_nodes}

unfoldable pub status_of : TaskResultStatus → NodeInstanceStatus
status_of TaskResultStatus.success = NodeInstanceStatus.finished
status_of TaskResultStatus.continued = NodeInstanceStatus.running
status_of TaskResultStatus.paused = NodeInstanceStatus.paused
status_of TaskResultStatus.failed = NodeInstanceStatus.error
status_of TaskResultStatus.deleted = NodeInstanceStatus.stopped

-- The row of the node with what the agent reports.
abbrev pub reported : TaskResult → NodeInstance → NodeInstance
reported result n = record n {
  log = some result.message;
  resource_meter = result.used_resources;
  status = status_of result.status;
}

abbrev pub is_pausing : NodeInstance → Bool
is_pausing n = elim n.status [ NodeInstanceStatus.pausing ↦ true | _ ↦ false ]

abbrev pub is_stopping : NodeInstance → Bool
is_stopping n = elim n.status [ NodeInstanceStatus.stopping ↦ true | _ ↦ false ]

-- Where no node of the workflow is still on its way there, the workflow gets the new state.
settle : (NodeInstance → Bool) → WorkflowInstanceStatus → Uuid → Act (Unit {0})
unfolding get_flow get_all_workflow_instance_nodes push
settle on_its_way status flow_instance_id = do
  workflow_instance ← get_flow flow_instance_id
  nodes ← get_all_workflow_instance_nodes workflow_instance.id
  let update = push (update_flow (record workflow_instance { status = status }))
  (if is_empty (keep on_its_way nodes) then update else pure tt)

module _ (env : Env) where
  -- The chain of `if let` on the reported status.
  follow_up : TaskResult → NodeInstance → Act (Unit {0})
  unfolding schedule_next_nodes ask get_flow push settle
  follow_up result node_instance = elim result.status [
    | TaskResultStatus.success ↦
        schedule_next_nodes env (node_instance_id result.id) >> ask env.accepts (bill result.id)
    | TaskResultStatus.failed ↦ get_flow node_instance.flow_instance_id >>= λ workflow_instance.
        push (update_flow (record workflow_instance { status = WorkflowInstanceStatus.error }))
    | TaskResultStatus.paused ↦
        settle is_pausing WorkflowInstanceStatus.paused node_instance.flow_instance_id
    | TaskResultStatus.deleted ↦
        settle is_stopping WorkflowInstanceStatus.stopped node_instance.flow_instance_id
    | TaskResultStatus.continued ↦ pure tt
  ]

  unfoldable pub receive_node_status : TaskResult → Act (Unit {0})
  unfolding get_node status_of push save_changed follow_up
  receive_node_status result = do
    found ← get_node result.id
    let node_instance = reported result found
    (push (update_node node_instance) >>= λ _. save_changed)
    follow_up result node_instance
    save_changed
    pure tt
