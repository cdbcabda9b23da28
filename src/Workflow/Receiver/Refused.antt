-- ===== src/Workflow/Receiver/Refused.antt =====
-- A success that is reported while another node runs (`receive_node_status` of
-- src/kernel/src/services/workflow_engine/status_receiver.rs).
use kuintessence.Prelude.{
  ◌≡◌, refl, some, [], err, find, ◌==◌, ◌&&◌, not, Bool, true, ==_iff, find-test, all, keep, false,
}
use kuintessence.Workflow.Instance.{NodeInstance, TaskResult, TaskResultStatus, not_fully_scheduled}
use kuintessence.Workflow.Store.{
  World, set_node, is_finished_or_standby, get_node, is_all_same_entryment_nodes_success,
}
use kuintessence.Workflow.Store.Single.{push-save-node, find-set_node, all-keep-set_node}
use kuintessence.Workflow.Batch.{Env}
use kuintessence.Workflow.Schedule.{schedule_next_nodes, next_entries}
use kuintessence.Workflow.Schedule.Join.{is_top_of}
use kuintessence.Workflow.Receiver.{reported, receive_node_status, follow_up}

-- A node of the same workflow that is no sub task, is another one and has neither finished nor
-- stands by.
abbrev pub is_busy_beside : NodeInstance → NodeInstance → Bool
is_busy_beside n m =
    is_top_of n.flow_instance_id m && not (is_finished_or_standby m.status) && not (m.id == n.id)

follow_up-refused :
    (env : Env) (result : TaskResult) (e : NodeInstance) (t : World)
    → result.status ≡ TaskResultStatus.success
    → find (λ x. x.id == result.id) t.nodes ≡ some e
    → all (λ x. is_finished_or_standby x.status) (keep (is_top_of e.flow_instance_id) t.nodes)
      ≡ false
    → follow_up env result e t ≡ (err (not_fully_scheduled result.id), t)
unfolding follow_up schedule_next_nodes next_entries get_node is_all_same_entryment_nodes_success
follow_up-refused env result e t success again blocked = rw (success, again, blocked) refl

-- Where nothing is staged and another top node of the workflow is still busy, the report of a
-- success is an error: the row of the node is saved with the report, but no bill and no task is sent
-- and the workflow stays as it was.
pub receive_node_status-refused :
    (env : Env) (result : TaskResult) (n m : NodeInstance) (s : World)
    → s.statements ≡ []
    → result.status ≡ TaskResultStatus.success
    → find (λ x. x.id == result.id) s.nodes ≡ some n
    → find (is_busy_beside n) s.nodes ≡ some m
    → receive_node_status env result s ≡ (
      err (not_fully_scheduled result.id),
      record s { nodes = set_node (reported result n) s.nodes; statements = []; can_drop = true },
    )
unfolding receive_node_status get_node
receive_node_status-refused env result n m s clean success found busy =
    let e : NodeInstance = reported result n in
    let same : e.id ≡ result.id = (==_iff n.id result.id).0 (find-test _ s.nodes n found) in
    let again = find-set_node result.id e n s.nodes same found in
    let blocked =
      all-keep-set_node (λ x. is_finished_or_standby x.status) (is_top_of n.flow_instance_id) e m
        s.nodes busy in
    let after : World = record s { nodes = set_node e s.nodes; statements = []; can_drop = true } in
    let refused : follow_up env result e after ≡ (err (not_fully_scheduled result.id), after) =
      follow_up-refused env result e after success again blocked in
    rw (found, push-save-node e s clean, refused) refl
