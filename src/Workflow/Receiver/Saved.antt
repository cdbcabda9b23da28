-- ===== src/Workflow/Receiver/Saved.antt =====
-- What the other reports leave behind (`receive_node_status` of
-- src/kernel/src/services/workflow_engine/status_receiver.rs).
use kuintessence.Prelude.{
  ◌≡◌, refl, Bool, true, false, some, List, [], ok, find, ◌==◌, keep, is_empty, if◌then◌else◌,
  Bool-cases, inl, inr, arith,
}
use kuintessence.Workflow.Exec.{pure, ◌>>=◌}
use kuintessence.Workflow.Instance.{
  NodeInstance, WorkflowInstance, WorkflowInstanceStatus, TaskResult, TaskResultStatus,
}
use kuintessence.Workflow.Store.{
  World, set_node, set_flow, get_node, get_flow, get_all_workflow_instance_nodes, push,
  save_changed,
}
use kuintessence.Workflow.Store.Single.{push-save-node, push-save-flow}
use kuintessence.Workflow.Batch.{Env}
use kuintessence.Workflow.Receiver.{
  reported, is_pausing, is_stopping, settle, follow_up, receive_node_status,
}

abbrev pub is_success : TaskResultStatus → Bool
is_success TaskResultStatus.success = true
is_success _ = false

-- The workflow table after the report: a failure is an error of the workflow, and where no node of
-- the workflow is pausing (stopping) any more, a paused (deleted) node pauses (stops) it.
abbrev pub settled :
    (NodeInstance → Bool)
    → WorkflowInstanceStatus
    → WorkflowInstance
    → List NodeInstance
    → List WorkflowInstance
    → List WorkflowInstance
settled on_its_way status w nodes flows =
    if is_empty (keep on_its_way (keep (λ n. n.flow_instance_id == w.id) nodes))
    then set_flow (record w { status = status }) flows
    else flows

abbrev pub flows_after :
    TaskResultStatus
    → WorkflowInstance
    → List NodeInstance
    → List WorkflowInstance
    → List WorkflowInstance
flows_after TaskResultStatus.success w nodes flows = flows
flows_after TaskResultStatus.continued w nodes flows = flows
flows_after TaskResultStatus.failed w nodes flows =
    set_flow (record w { status = WorkflowInstanceStatus.error }) flows
flows_after TaskResultStatus.paused w nodes flows =
    settled is_pausing WorkflowInstanceStatus.paused w nodes flows
flows_after TaskResultStatus.deleted w nodes flows =
    settled is_stopping WorkflowInstanceStatus.stopped w nodes flows

settle-saved :
    (on_its_way : NodeInstance → Bool) (status : WorkflowInstanceStatus) (n : NodeInstance)
    (w : WorkflowInstance) (s : World)
    → s.statements ≡ []
    → s.can_drop ≡ true
    → find (λ f. f.id == n.flow_instance_id) s.flows ≡ some w
    → (settle on_its_way status n.flow_instance_id >>= λ _. save_changed >>= λ _. pure tt) s
      ≡ (ok tt, record s { flows = settled on_its_way status w s.nodes s.flows })
unfolding settle get_flow get_all_workflow_instance_nodes push save_changed
settle-saved on_its_way status n w s clean idle found =
    let on_way = keep on_its_way (keep (λ m. m.flow_instance_id == w.id) s.nodes) in
    let saved = push-save-flow (record w { status = status }) s clean in
    elim (Bool-cases (is_empty on_way)) [
      | inl e ↦ rw (found, e, saved) (simp (clean, idle) refl)
      | inr e ↦ rw (found, e, idle) refl
    ]

module _ (env : Env) where
  follow_up-saved :
      (result : TaskResult) (st : TaskResultStatus) (n : NodeInstance) (w : WorkflowInstance)
      (s : World)
      → result.status ≡ st
      → is_success st ≡ false
      → s.statements ≡ []
      → s.can_drop ≡ true
      → find (λ f. f.id == n.flow_instance_id) s.flows ≡ some w
      → (follow_up env result n >>= λ _. save_changed >>= λ _. pure tt) s
        ≡ (ok tt, record s { flows = flows_after st w s.nodes s.flows })
  unfolding follow_up get_flow push save_changed
  follow_up-saved result TaskResultStatus.success n w s same other clean idle found = ground arith
  follow_up-saved result TaskResultStatus.continued n w s same other clean idle found =
      rw (same, idle) refl
  follow_up-saved result TaskResultStatus.failed n w s same other clean idle found =
      let saved = push-save-flow (record w { status = WorkflowInstanceStatus.error }) s clean in
      rw (same, found, saved) (simp (clean, idle) refl)
  follow_up-saved result TaskResultStatus.paused n w s same other clean idle found =
      rw same (settle-saved is_pausing WorkflowInstanceStatus.paused n w s clean idle found)
  follow_up-saved result TaskResultStatus.deleted n w s same other clean idle found =
      rw same (settle-saved is_stopping WorkflowInstanceStatus.stopped n w s clean idle found)

  -- Where nothing is staged and the node and its workflow are in the tables, every report but a
  -- success is accepted: the row of the node is saved with the report, a failure puts the workflow
  -- into its error state, a paused (deleted) node pauses (stops) the workflow when none of its nodes
  -- is pausing (stopping) after the report, and nothing else changes.
  pub receive_node_status-saved :
      (result : TaskResult) (n : NodeInstance) (w : WorkflowInstance) (s : World)
      → s.statements ≡ []
      → is_success result.status ≡ false
      → find (λ m. m.id == result.id) s.nodes ≡ some n
      → find (λ f. f.id == n.flow_instance_id) s.flows ≡ some w
      → receive_node_status env result s ≡ (
        ok tt,
        record s {
          nodes = set_node (reported result n) s.nodes;
          flows = flows_after result.status w (set_node (reported result n) s.nodes) s.flows;
          statements = [];
          can_drop = true;
        },
      )
  unfolding receive_node_status get_node
  receive_node_status-saved result n w s clean other found flow =
      let e : NodeInstance = reported result n in
      let after : World = record s {
        nodes = set_node e s.nodes;
        statements = [];
        can_drop = true;
      } in
      rw (found, push-save-node e s clean)
        (follow_up-saved result result.status e w after refl other refl refl flow)
