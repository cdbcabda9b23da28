-- ===== src/Workflow/Lifecycle/Failure.antt =====
-- Pausing, continuing and terminating where something fails
-- (src/kernel/src/services/workflow_engine/schedule.rs).
use kuintessence.Prelude.{
  Bool, refl, List, [], ◌∷◌, Result, ok, err, panic, keep, ◌==◌, find, inl, inr, Option-cases,
  Bool-cases,
}
use kuintessence.Workflow.Common.{Uuid}
use kuintessence.Workflow.Instance.{
  NodeInstance, NodeInstanceStatus, WorkflowInstance, WorkflowInstanceStatus, Error,
}
use kuintessence.Workflow.Exec.{continue, pure, ◌>>=◌}
use kuintessence.Workflow.Store.{
  World, Message, operate, TaskCommand, update_flow, push, ask, get_flow, save_changed,
  get_all_workflow_instance_nodes,
}
use kuintessence.Workflow.Store.Tables.{SameTables, IsAtomic, save-IsAtomic}
use kuintessence.Workflow.Lifecycle.{
  operate_nodes, switch_workflow, pause_workflow, continue_workflow, terminate_workflow,
}

module _ (accepts : Message → Bool) where
  operate_nodes-SameTables :
      (command : TaskCommand) (status : NodeInstanceStatus) (ns : List NodeInstance) (s t : World)
      → SameTables s t
      → SameTables s (operate_nodes accepts command status ns t).1
  unfolding operate_nodes push ask
  operate_nodes-SameTables command status [] s t v = v
  operate_nodes-SameTables command status (n ∷ ns) s t v =
      elim (Bool-cases (accepts (operate n.id command n.kind))) [
        | inl e ↦ rw e (
            operate_nodes-SameTables command status ns s _
              (record { nodes = v.nodes; flows = v.flows }))
        | inr e ↦ rw e (record { nodes = v.nodes; flows = v.flows })
      ]

  finish-IsAtomic :
      (e : WorkflowInstance) (s t : World) (r : Result Error (Unit {0}))
      → SameTables s t
      → IsAtomic s (continue r (λ _. push (update_flow e) >>= λ _. save_changed >>= λ _. pure tt) t)
  unfolding push
  finish-IsAtomic e s t (ok a) v = save-IsAtomic s _ (record { nodes = v.nodes; flows = v.flows })
  finish-IsAtomic e s t (err x) v = inr v
  finish-IsAtomic e s t panic v = inr v

  switch_workflow-IsAtomic :
      (takes : NodeInstance → Bool) (command : TaskCommand) (status : NodeInstanceStatus)
      (flow_status : WorkflowInstanceStatus) (id : Uuid) (s : World)
      → IsAtomic s (switch_workflow accepts takes command status flow_status id s)
  unfolding switch_workflow get_flow get_all_workflow_instance_nodes
  switch_workflow-IsAtomic takes command status flow_status id s =
      elim (Option-cases (find (λ f. f.id == id) s.flows)) [
        | inl e ↦ rw e (inr (record { nodes = refl; flows = refl }))
        | inr (w, e) ↦
            let ns = keep takes (keep (λ n. n.flow_instance_id == w.id) s.nodes) in
            let r = operate_nodes accepts command status ns s in
            rw e (
              finish-IsAtomic (record w { status = flow_status }) s r.1 r.0
                (operate_nodes-SameTables command status ns s s
                  (record { nodes = refl; flows = refl })))
      ]

  -- Whatever the services answer and whatever is staged, pausing, continuing and terminating a
  -- workflow either succeed or leave both tables as they were.
  pub lifecycle-IsAtomic :
      (id : Uuid) (s : World)
      → IsAtomic s (pause_workflow accepts id s)
        × IsAtomic s (continue_workflow accepts id s)
        × IsAtomic s (terminate_workflow accepts id s)
  unfolding pause_workflow continue_workflow terminate_workflow
  lifecycle-IsAtomic id s = (
    switch_workflow-IsAtomic _ _ _ _ id s,
    switch_workflow-IsAtomic _ _ _ _ id s,
    switch_workflow-IsAtomic _ _ _ _ id s,
  )
