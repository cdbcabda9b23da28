-- ===== src/Workflow/Examples/Lifecycle.antt =====
-- Tests and witnesses for pausing, continuing and terminating.
use kuintessence.Prelude.{◌≡◌, refl, Bool, true, false, [], ◌∷◌, ok}
use kuintessence.Workflow.Instance.{NodeInstanceStatus, WorkflowInstanceStatus}
use kuintessence.Workflow.Store.{World, Message, operate, TaskCommand}
use kuintessence.Workflow.Store.Tables.{IsAtomic}
use kuintessence.Workflow.Lifecycle.{
  is_running, pause_workflow, continue_workflow, terminate_workflow,
}
use kuintessence.Workflow.Lifecycle.Switch.{IsClean, switched, pause_workflow-switched}
use kuintessence.Workflow.Lifecycle.Failure.{lifecycle-IsAtomic}
use kuintessence.Workflow.Lifecycle.Resume.{continue-pause}
use kuintessence.Workflow.Examples.{flow, row}

abbrev yes_man : Message → Bool
yes_man m = true

abbrev no_man : Message → Bool
no_man m = false

-- Node 1 runs, node 2 waits, node 3 is done.
abbrev busy : World
busy = record {
  nodes =
      row 1 NodeInstanceStatus.running
      ∷ row 2 NodeInstanceStatus.standby
      ∷ row 3 NodeInstanceStatus.finished
      ∷ [];
  flows = flow ∷ [];
  statements = [];
  can_drop = true;
  sent = [];
  texts = [];
  next = 0;
}

busy-IsClean : IsClean busy
busy-IsClean = record { keyed = (refl, (refl, (refl, tt))); no_statements = refl }

pause_workflow-switched_example : pause_workflow yes_man 50 busy ≡ (
  ok tt,
  switched yes_man
      (λ m. refl)
      is_running
      TaskCommand.pause
      NodeInstanceStatus.paused
      WorkflowInstanceStatus.paused
      flow
      busy,
)
pause_workflow-switched_example =
    pause_workflow-switched yes_man (λ m. refl) 50 flow busy busy-IsClean refl

pause_workflow-sent :
    (pause_workflow yes_man 50 busy).1.sent
    ≡ operate 1 TaskCommand.pause (row 1 NodeInstanceStatus.running).kind ∷ []
unfolding pause_workflow
pause_workflow-sent = refl

lifecycle-IsAtomic_example :
    IsAtomic busy (pause_workflow no_man 50 busy)
    × IsAtomic busy (continue_workflow no_man 50 busy)
    × IsAtomic busy (terminate_workflow no_man 50 busy)
lifecycle-IsAtomic_example = lifecycle-IsAtomic no_man 50 busy

continue-pause_example :
    (continue_workflow yes_man 50 (pause_workflow yes_man 50 busy).1).0 ≡ ok tt
    × ((continue_workflow yes_man 50 (pause_workflow yes_man 50 busy).1).1.nodes ≡ busy.nodes)
continue-pause_example = continue-pause yes_man (λ m. refl) 50 flow busy busy-IsClean refl refl
