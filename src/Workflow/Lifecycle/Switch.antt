-- ===== src/Workflow/Lifecycle/Switch.antt =====
-- What pausing, continuing and terminating do to the tables
-- (src/kernel/src/services/workflow_engine/schedule.rs).
use kuintessence.Prelude.{
  Bool, true, false, ◌≡◌, refl, ◌∙◌, List, [], ◌∷◌, ◌++◌, map, ok, keep, is_empty, if◌then◌else◌,
  ◌==◌, ◌&&◌, find, some, arith,
}
use mathlib.Core.List.{append-nil, append_assoc}
use kuintessence.Workflow.Common.{Uuid}
use kuintessence.Workflow.Instance.{
  NodeInstance, NodeInstanceStatus, WorkflowInstance, WorkflowInstanceStatus,
}
use kuintessence.Workflow.Store.{
  World, Message, operate, TaskCommand, update_node, update_flow, push, ask, get_flow, set_flow,
  get_all_workflow_instance_nodes,
}
use kuintessence.Workflow.Store.Update.{IsKeyed, updated, keep-keep, save_changed-updated}
use kuintessence.Workflow.Lifecycle.{
  is_running, is_running_or_paused, with_status, operate_nodes, switch_workflow, pause_workflow,
  terminate_workflow,
}

-- Nothing waits to be saved.
pub record IsClean (s : World) : Type 0 where
  pub keyed : IsKeyed s.nodes
  pub no_statements : s.statements ≡ []

abbrev pub commands : TaskCommand → List NodeInstance → List Message
commands command = map (λ n. operate n.id command n.kind)

-- A node of the workflow that the operation takes.
abbrev pub taken : (NodeInstance → Bool) → Uuid → NodeInstance → Bool
taken takes id n = n.flow_instance_id == id && takes n

module _ (accepts : Message → Bool) (yes_to_all : (m : Message) → accepts m ≡ true) where
  pub operate_nodes-all :
      (command : TaskCommand) (status : NodeInstanceStatus) (ns : List NodeInstance) (s : World)
      → operate_nodes accepts command status ns s ≡ (
        ok tt,
        record s {
          statements = s.statements ++ map update_node (map (with_status status) ns);
          can_drop = if is_empty ns then s.can_drop else false;
          sent = s.sent ++ commands command ns;
        },
      )
  unfolding operate_nodes push ask
  operate_nodes-all command status [] s = simp append-nil
  operate_nodes-all command status (n ∷ ns) s =
      let m = operate n.id command n.kind in
      let next : World = record s {
        statements = s.statements ++ update_node (with_status status n) ∷ [];
        can_drop = false;
        sent = s.sent ++ m ∷ [];
      } in
      let same : (if is_empty ns then false else false) ≡ false = ground arith in
      rw (yes_to_all m) (operate_nodes-all command status ns next ∙ simp (same, append_assoc))

  -- The end state: the taken nodes have the new status, the workflow has its own, and each taken
  -- node's agent got the command, in the order of the table.
  abbrev pub switched :
      (NodeInstance → Bool)
      → TaskCommand
      → NodeInstanceStatus
      → WorkflowInstanceStatus
      → WorkflowInstance
      → World
      → World
  switched takes command status flow_status w s = record s {
    nodes = map (updated (with_status status) (λ n. refl) (taken takes w.id)) s.nodes;
    flows = set_flow (record w { status = flow_status }) s.flows;
    statements = [];
    can_drop = true;
    sent = s.sent ++ commands command (keep (taken takes w.id) s.nodes);
  }

  pub switch_workflow-switched :
      (takes : NodeInstance → Bool) (command : TaskCommand) (status : NodeInstanceStatus)
      (flow_status : WorkflowInstanceStatus) (id : Uuid) (w : WorkflowInstance) (s : World)
      → IsClean s
      → find (λ f. f.id == id) s.flows ≡ some w
      → switch_workflow accepts takes command status flow_status id s
        ≡ (ok tt, switched takes command status flow_status w s)
  unfolding switch_workflow get_flow get_all_workflow_instance_nodes push
  switch_workflow-switched takes command status flow_status id w s v found =
      let ns = keep takes (keep (λ n. n.flow_instance_id == w.id) s.nodes) in
      let us = map update_node (map (with_status status) (keep (taken takes w.id) s.nodes)) in
      let e : WorkflowInstance = record w { status = flow_status } in
      let dirty : World = record s {
        statements = us ++ update_flow e ∷ [];
        can_drop = false;
        sent = s.sent ++ commands command (keep (taken takes w.id) s.nodes);
      } in
      rw
        (
          found,
          operate_nodes-all command status ns s,
          keep-keep takes (λ n. n.flow_instance_id == w.id) s.nodes,
          v.no_statements,
        )
        (rw
          (save_changed-updated (with_status status) (λ n. refl) (taken takes w.id) e dirty v.keyed
            refl refl)
          refl)

  -- With a clean repository and services that accept, pausing a workflow turns exactly its running
  -- nodes into paused ones, saves that with the workflow's state `Paused`, and sends the agent of
  -- each of them one pause command.
  pub pause_workflow-switched :
      (id : Uuid) (w : WorkflowInstance) (s : World)
      → IsClean s
      → find (λ f. f.id == id) s.flows ≡ some w
      → pause_workflow accepts id s ≡ (
        ok tt,
        switched is_running TaskCommand.pause NodeInstanceStatus.paused
            WorkflowInstanceStatus.paused w s,
      )
  unfolding pause_workflow
  pause_workflow-switched id w s v found =
      switch_workflow-switched is_running TaskCommand.pause NodeInstanceStatus.paused
        WorkflowInstanceStatus.paused id w s v found

  -- In the same case, terminating a workflow stops its running and its paused nodes and no others,
  -- saves the workflow as `Stopped`, and sends each of these nodes one delete command.
  pub terminate_workflow-switched :
      (id : Uuid) (w : WorkflowInstance) (s : World)
      → IsClean s
      → find (λ f. f.id == id) s.flows ≡ some w
      → terminate_workflow accepts id s ≡ (
        ok tt,
        switched is_running_or_paused TaskCommand.delete NodeInstanceStatus.stopped
            WorkflowInstanceStatus.stopped w s,
      )
  unfolding terminate_workflow
  terminate_workflow-switched id w s v found =
      switch_workflow-switched is_running_or_paused TaskCommand.delete NodeInstanceStatus.stopped
        WorkflowInstanceStatus.stopped id w s v found
