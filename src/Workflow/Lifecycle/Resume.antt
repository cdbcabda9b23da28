-- ===== src/Workflow/Lifecycle/Resume.antt =====
-- Continuing a workflow after a pause (src/kernel/src/services/workflow_engine/schedule.rs).
use kuintessence.Prelude.{
  Bool, true, false, ◌≡◌, refl, ap₂, List, [], ◌∷◌, map, any, ok, ◌==◌, find, some, arith,
}
use kuintessence.Workflow.Common.{Uuid}
use kuintessence.Workflow.Instance.{
  NodeInstance, NodeInstanceStatus, WorkflowInstance, WorkflowInstanceStatus,
}
use kuintessence.Workflow.Store.{World, Message, TaskCommand, set_flow}
use kuintessence.Workflow.Store.Update.{IsKeyed, has_id, updated}
use kuintessence.Workflow.Lifecycle.{
  is_running, is_paused, with_status, pause_workflow, continue_workflow,
}
use kuintessence.Workflow.Lifecycle.Switch.{
  IsClean, taken, switched, switch_workflow-switched, pause_workflow-switched,
}

-- The status that pausing or continuing gives to a row.
abbrev change : (NodeInstance → Bool) → NodeInstanceStatus → Uuid → NodeInstance → NodeInstance
change takes status id = updated (with_status status) (λ n. refl) (taken takes id)

find-set_flow :
    (id : Uuid) (w : WorkflowInstance) (status : WorkflowInstanceStatus)
    (fs : List WorkflowInstance)
    → find (λ f. f.id == id) fs ≡ some w
    → find (λ f. f.id == id) (set_flow (record w { status = status }) fs)
      ≡ some (record w { status = status })
unfolding set_flow
find-set_flow id w status [] h = cc
find-set_flow id w status (f ∷ fs) h = ground (arith, find-set_flow id w status fs)

-- Pausing and continuing keep a row whose node was not paused before.
change_back :
    (id : Uuid) (n : NodeInstance)
    → taken is_paused id n ≡ false
    → change is_paused NodeInstanceStatus.running id
        (change is_running NodeInstanceStatus.paused id n)
      ≡ n
change_back id n h = ground arith

change_all_back :
    (id : Uuid) (ns : List NodeInstance)
    → any (taken is_paused id) ns ≡ false
    → map
        (change is_paused NodeInstanceStatus.running id)
        (map (change is_running NodeInstanceStatus.paused id) ns)
      ≡ ns
change_all_back id [] h = refl
change_all_back id (n ∷ ns) h =
    let first : taken is_paused id n ≡ false = ground arith in
    let others : any (taken is_paused id) ns ≡ false = ground arith in
    ap₂ ◌∷◌ (change_back id n first) (change_all_back id ns others)

has_id-map :
    (f : NodeInstance → NodeInstance) (same_id : (n : NodeInstance) → (f n).id ≡ n.id) (k : Uuid)
    (ns : List NodeInstance)
    → has_id k (map f ns) ≡ has_id k ns
has_id-map f same_id k [] = refl
has_id-map f same_id k (n ∷ ns) = rw (same_id n, has_id-map f same_id k ns)

IsKeyed-map :
    (f : NodeInstance → NodeInstance) (same_id : (n : NodeInstance) → (f n).id ≡ n.id)
    (ns : List NodeInstance)
    → IsKeyed ns
    → IsKeyed (map f ns)
IsKeyed-map f same_id [] h = tt
IsKeyed-map f same_id (n ∷ ns) h =
    (rw (same_id n, has_id-map f same_id n.id ns) h.0, IsKeyed-map f same_id ns h.1)

change-id :
    (takes : NodeInstance → Bool) (status : NodeInstanceStatus) (id : Uuid) (n : NodeInstance)
    → (change takes status id n).id ≡ n.id
change-id takes status id n = ground arith

-- With services that accept, a clean repository, and no paused node in the workflow, pausing and
-- then continuing it brings every row of the node table back.
pub continue-pause :
    (accepts : Message → Bool) (yes_to_all : (m : Message) → accepts m ≡ true) (id : Uuid)
    (w : WorkflowInstance) (s : World)
    → IsClean s
    → find (λ f. f.id == id) s.flows ≡ some w
    → any (taken is_paused w.id) s.nodes ≡ false
    → (continue_workflow accepts id (pause_workflow accepts id s).1).0 ≡ ok tt
      × ((continue_workflow accepts id (pause_workflow accepts id s).1).1.nodes ≡ s.nodes)
unfolding continue_workflow
continue-pause accepts yes_to_all id w s v found fresh =
    let keyed : IsKeyed (map (change is_running NodeInstanceStatus.paused w.id) s.nodes) =
      IsKeyed-map _ (change-id is_running NodeInstanceStatus.paused w.id) s.nodes v.keyed in
    let t =
      switched accepts yes_to_all is_running TaskCommand.pause NodeInstanceStatus.paused
        WorkflowInstanceStatus.paused w s in
    let found' = find-set_flow id w WorkflowInstanceStatus.paused s.flows found in
    rw (pause_workflow-switched accepts yes_to_all id w s v found) (
      rw
        (switch_workflow-switched accepts yes_to_all is_paused TaskCommand.continue
          NodeInstanceStatus.running WorkflowInstanceStatus.running id
          (record w { status = WorkflowInstanceStatus.paused }) t
          (record { keyed = keyed; no_statements = refl }) found')
        (refl, change_all_back w.id s.nodes fresh))
