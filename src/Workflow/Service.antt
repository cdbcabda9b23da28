-- ===== src/Workflow/Service.antt =====
-- `WorkflowService` of src/kernel/src/services/workflow_engine/workflow.rs. `drafts` is the
-- repository of drafts, `has_meta` says which files are known, and `depth` is the depth of the
-- stack.
pub mod Submitted
use kuintessence.Prelude.{
  ℕ, String, Bool, List, [], ◌∷◌, ok, err, panic, Option, Result, ok_or, map,
}
use kuintessence.Workflow.Common.{Uuid}
use kuintessence.Workflow.Instance.{
  NodeInstance, NodeInstanceStatus, WorkflowInstance, WorkflowInstanceStatus, Error,
  no_such_workflow_draft, invalid_draft,
}
use kuintessence.Workflow.Exec.{pure, lift, gets, for_each, ◌>>=◌, ◌>>◌}
use kuintessence.Workflow.Draft.{WorkflowDraft, Checked, validate_workflow_draft}
use kuintessence.Workflow.Convert.{workflow_from}
use kuintessence.Workflow.Nodes.{parse_node_instances}
use kuintessence.Workflow.Store.{
  Act, World, insert_node, update_node, update_flow, push, get_node, get_flow, save_changed,
  insert_flow, get_all_workflow_instance_nodes,
}
use kuintessence.Workflow.Batch.{Env}
use kuintessence.Workflow.Schedule.{workflow_instance_id, schedule_next_nodes}

-- `map_err(Exception::Specific)?`: the caller sees one kind of error.
abbrev pub specific : {A : Type 0} → Checked A → Result Error A
specific (ok a) = ok a
specific (err e) = err invalid_draft
specific panic = panic

module _ (env : Env) (drafts : Uuid → Option WorkflowDraft) (has_meta : Uuid → Bool)
    (depth : ℕ) where
  get_draft : Uuid → Act WorkflowDraft
  get_draft id = lift (ok_or (no_such_workflow_draft id) (drafts id))

  -- `WorkflowInstance::from`, with the ids that it draws.
  convert : WorkflowDraft → Act WorkflowInstance
  unfolding workflow_from
  convert l s = let (w, n) = workflow_from env.fresh l s.next in (ok w, record s { next = n })

  parse_rows : WorkflowInstance → Act (List NodeInstance)
  unfolding parse_node_instances
  parse_rows w = gets (λ s. s.next) >>= λ n.
      lift (parse_node_instances env.fresh depth w n) >>= λ r.
      λ s. (ok r.0, record s { next = r.1 })

  unfoldable pub submit_workflow : Uuid → Act Uuid
  unfolding get_draft validate_workflow_draft convert parse_rows insert_flow push save_changed
  submit_workflow id = do
    workflow_draft ← get_draft id
    lift (specific (validate_workflow_draft has_meta workflow_draft.spec))
    workflow_instance ← convert workflow_draft
    node_instances ← parse_rows workflow_instance
    insert_flow env.session_user env.now workflow_instance
    for_each node_instances λ node_instance. push (insert_node node_instance)
    save_changed
    pure workflow_instance.id

  unfoldable pub validate : Uuid → Act (Unit {0})
  unfolding get_draft validate_workflow_draft
  validate id = get_draft id >>= λ workflow_draft.
      lift (specific (validate_workflow_draft has_meta workflow_draft.spec))

-- All nodes of the workflow wait.
pend : List NodeInstance → Act (Unit {0})
unfolding push
pend nodes = for_each nodes λ node_instance.
    push (update_node (record node_instance { status = NodeInstanceStatus.pending }))

unfoldable pub start_workflow : Env → Uuid → Act (Unit {0})
unfolding get_flow get_all_workflow_instance_nodes pend push save_changed schedule_next_nodes
start_workflow env id = do
  workflow_instance ← get_flow id
  node_instances ← get_all_workflow_instance_nodes workflow_instance.id
  push (update_flow (record workflow_instance { status = WorkflowInstanceStatus.pending }))
  pend node_instances
  save_changed
  schedule_next_nodes env (workflow_instance_id id)

unfoldable pub get_node_user_id : Uuid → Act Uuid
unfolding get_node get_flow
get_node_user_id node_instance_id =
    get_node node_instance_id >>= λ n. get_flow n.flow_instance_id >>= λ w. pure w.user_id
