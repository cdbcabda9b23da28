-- ===== src/Workflow/Lifecycle.antt =====
-- `pause_workflow`, `continue_workflow` and `terminate_workflow` of
-- src/kernel/src/services/workflow_engine/schedule.rs. The three have one body, which differs in
-- the nodes that it takes, in the new states and in the command.
pub mod Switch
pub mod Failure
pub mod Resume
use kuintessence.Prelude.{Bool, true, false, List, [], ◌∷◌, Result, ok, err, keep}
use kuintessence.Workflow.Common.{Uuid}
use kuintessence.Workflow.Instance.{NodeInstance, NodeInstanceStatus, WorkflowInstanceStatus, Error}
use kuintessence.Workflow.Exec.{Exec, pure, ◌>>=◌, ◌>>◌, for_each}
use kuintessence.Workflow.Store.{
  Act, World, Message, operate, TaskCommand, update_node, update_flow, push, ask, get_flow,
  save_changed, get_all_workflow_instance_nodes,
}

abbrev pub is_running : NodeInstance → Bool
is_running n = elim n.status [ NodeInstanceStatus.running ↦ true | _ ↦ false ]

abbrev pub is_paused : NodeInstance → Bool
is_paused n = elim n.status [ NodeInstanceStatus.paused ↦ true | _ ↦ false ]

abbrev pub is_running_or_paused : NodeInstance → Bool
is_running_or_paused n = elim n.status [
  | NodeInstanceStatus.running ↦ true
  | NodeInstanceStatus.paused ↦ true
  | _ ↦ false
]

abbrev pub with_status : NodeInstanceStatus → NodeInstance → NodeInstance
with_status status n = record n { status = status }

-- `accepts` says which messages the other services accept.
module _ (accepts : Message → Bool) where
  -- The `for` loop: each node gets the new status, and its agent the command.
  pub operate_nodes : TaskCommand → NodeInstanceStatus → List NodeInstance → Act (Unit {0})
  unfolding push ask
  operate_nodes command status nodes = for_each nodes λ item. do
    push (update_node (with_status status item))
    ask accepts (operate item.id command item.kind)

  pub switch_workflow :
      (NodeInstance → Bool)
      → TaskCommand
      → NodeInstanceStatus
      → WorkflowInstanceStatus
      → Uuid
      → Act (Unit {0})
  unfolding operate_nodes get_flow get_all_workflow_instance_nodes save_changed
  switch_workflow takes command status flow_status id = do
    workflow_instance ← get_flow id
    nodes ← get_all_workflow_instance_nodes workflow_instance.id
    operate_nodes command status (keep takes nodes)
    push (update_flow (record workflow_instance { status = flow_status }))
    save_changed
    pure tt

  unfoldable pub pause_workflow : Uuid → Act (Unit {0})
  unfolding switch_workflow
  pause_workflow =
      switch_workflow is_running TaskCommand.pause NodeInstanceStatus.paused
        WorkflowInstanceStatus.paused

  unfoldable pub continue_workflow : Uuid → Act (Unit {0})
  unfolding switch_workflow
  continue_workflow =
      switch_workflow is_paused TaskCommand.continue NodeInstanceStatus.running
        WorkflowInstanceStatus.running

  unfoldable pub terminate_workflow : Uuid → Act (Unit {0})
  unfolding switch_workflow
  terminate_workflow =
      switch_workflow is_running_or_paused TaskCommand.delete NodeInstanceStatus.stopped
        WorkflowInstanceStatus.stopped
