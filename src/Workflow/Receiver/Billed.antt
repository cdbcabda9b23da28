-- ===== src/Workflow/Receiver/Billed.antt =====
-- A success after which no node is left to start (`receive_node_status` of
-- src/kernel/src/services/workflow_engine/status_receiver.rs).
use kuintessence.Prelude.{
  ◌<◌, Bool, true, ◌≡◌, refl, some, List, [], ◌∷◌, ◌++◌, ok, find, all, keep, length, ◌==◌, ◌||◌,
  not, arith, ==_iff, find-test, Bool-cases, inl, inr,
}
use kuintessence.Workflow.Instance.{
  NodeInstance, NodeInstanceStatus, WorkflowInstance, WorkflowInstanceStatus, TaskResult,
  TaskResultStatus,
}
use kuintessence.Workflow.Exec.{pure, ◌>>=◌}
use kuintessence.Workflow.Store.{
  World, bill, set_node, set_flow, get_node, ask, save_changed, is_finished_or_standby,
}
use kuintessence.Workflow.Store.Single.{push-save-node, find-set_node}
use kuintessence.Workflow.Entry.{i32_mod}
use kuintessence.Workflow.Batch.{Env}
use kuintessence.Workflow.Schedule.{node_instance_id, schedule_next_nodes}
use kuintessence.Workflow.Schedule.Join.{
  is_top_of, stands_by_in, waits_for_another, schedule_next_nodes-join,
}
use kuintessence.Workflow.Receiver.{reported, status_of, receive_node_status, follow_up}

-- A test that the new row passes, as all others do.
all-set_node :
    (p q : NodeInstance → Bool) (e : NodeInstance) (ns : List NodeInstance)
    → (not (q e) || p e) ≡ true
    → all (λ x. p x || x.id == e.id) (keep q ns) ≡ true
    → all p (keep q (set_node e ns)) ≡ true
unfolding set_node
all-set_node p q e [] h k = refl
all-set_node p q e (n ∷ ns) h k = elim (Bool-cases (n.id == e.id)) [
  | inl same ↦ let rest = all-set_node p q e ns h (ground arith) in rw same (ground (arith, rest))
  | inr other ↦ let rest = all-set_node p q e ns h (ground arith) in rw other (ground (arith, rest))
]

module _ (env : Env) where
  follow_up-billed :
      (result : TaskResult) (e : NodeInstance) (s t : World)
      → result.status ≡ TaskResultStatus.success
      → env.accepts (bill result.id) ≡ true
      → schedule_next_nodes env (node_instance_id result.id) s ≡ (ok tt, t)
      → t.can_drop ≡ true
      → (follow_up env result e >>= λ _. save_changed >>= λ _. pure tt) s
        ≡ (ok tt, record t { sent = t.sent ++ bill result.id ∷ [] })
  unfolding follow_up ask save_changed
  follow_up-billed result e s t success taken scheduled idle =
      rw (success, scheduled, taken, idle) refl

  -- Nothing is staged, a success is reported for a node in the table, all other top nodes of its
  -- workflow have finished or stand by, each other node that stands by has a relation into it that
  -- does not touch the reported node, the workflow has fewer than 2^32 relations, and the bill is
  -- accepted. Then the report is accepted: the row
  -- is saved as finished with what was reported, the workflow is saved as finished, one bill of the
  -- node is sent last, and nothing else changes.
  pub receive_node_status-billed :
      (result : TaskResult) (n : NodeInstance) (w : WorkflowInstance) (s : World)
      → s.statements ≡ []
      → result.status ≡ TaskResultStatus.success
      → find (λ x. x.id == result.id) s.nodes ≡ some n
      → find (λ f. f.id == n.flow_instance_id) s.flows ≡ some w
      → all
          (λ x. is_finished_or_standby x.status || x.id == n.id)
          (keep (is_top_of n.flow_instance_id) s.nodes)
        ≡ true
      → length w.spec.node_relations < i32_mod
      → all
          (λ x. waits_for_another result.id w.spec.node_relations x.id || x.id == n.id)
          (keep (stands_by_in w.id) s.nodes)
        ≡ true
      → env.accepts (bill result.id) ≡ true
      → receive_node_status env result s ≡ (
        ok tt,
        record s {
          nodes = set_node (reported result n) s.nodes;
          flows = set_flow (record w { status = WorkflowInstanceStatus.finished }) s.flows;
          sent = s.sent ++ bill result.id ∷ [];
          statements = [];
          can_drop = true;
        },
      )
  unfolding receive_node_status get_node status_of
  receive_node_status-billed result n w s clean success found in_flow others short waiting taken =
      let e : NodeInstance = reported result n in
      let after : World = record s {
        nodes = set_node e s.nodes;
        statements = [];
        can_drop = true;
      } in
      let same : n.id ≡ result.id = (==_iff n.id result.id).0 (find-test _ s.nodes n found) in
      let again = find-set_node result.id e n s.nodes same found in
      let is_done : e.status ≡ NodeInstanceStatus.finished = rw success refl in
      let all_done =
        all-set_node (λ x. is_finished_or_standby x.status) (is_top_of n.flow_instance_id) e s.nodes
          (rw is_done (ground arith)) others in
      let all_wait =
        all-set_node (λ x. waits_for_another result.id w.spec.node_relations x.id)
          (stands_by_in w.id) e s.nodes (rw is_done (ground arith)) waiting in
      let scheduled =
        schedule_next_nodes-join env result.id e w after refl again in_flow all_done short
          all_wait in
      rw (found, push-save-node e s clean)
        (follow_up-billed result e after _ success taken scheduled refl)
