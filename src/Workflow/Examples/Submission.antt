-- ===== src/Workflow/Examples/Submission.antt =====
-- Tests and witnesses for submitting and starting workflows.
use kuintessence.Prelude.{◌≡◌, refl, some, none, Option, [], ◌∷◌, ◌++◌, ok}
use kuintessence.Workflow.Common.{Uuid}
use kuintessence.Workflow.Instance.{NodeInstance, NodeInstanceStatus}
use kuintessence.Workflow.Draft.{WorkflowDraft, WorkflowDraftSpec, validate_workflow_draft}
use kuintessence.Workflow.Convert.{workflow_from}
use kuintessence.Workflow.Nodes.{parse_node_instances}
use kuintessence.Workflow.Service.{submit_workflow}
use kuintessence.Workflow.Service.Submitted.{owned, submit_workflow-inserted}
use kuintessence.Workflow.Examples.{text_slot, relation, row}
use kuintessence.Workflow.Examples.Drafts.{draft_of, draft, know_all}
use kuintessence.Workflow.Examples.Scheduling.{env, one_done}

abbrev two_nodes : WorkflowDraftSpec
two_nodes =
    draft
      (draft_of 1 (text_slot "in" (some (7 ∷ [])) ∷ []) []
        ∷ draft_of 2 (text_slot "a" (some []) ∷ []) []
        ∷ [])
      (relation 1 2 ∷ [])

abbrev stored : WorkflowDraft
stored = record { id = 8; name = "flow"; description = ""; logo = none; spec = two_nodes }

abbrev drafts : Uuid → Option WorkflowDraft
drafts id = some stored

abbrev new_row : Uuid → NodeInstance
new_row id = record (row id NodeInstanceStatus.created) { flow_instance_id = 100 }

submit_workflow-inserted_example : submit_workflow env drafts know_all 5 8 one_done ≡ (
  ok 100,
  record one_done {
    flows = one_done.flows ++ owned 61 3 (workflow_from env.fresh stored 0).0 ∷ [];
    nodes = one_done.nodes ++ new_row 101 ∷ new_row 103 ∷ [];
    next = 5;
  },
)
unfolding validate_workflow_draft parse_node_instances workflow_from
submit_workflow-inserted_example =
    submit_workflow-inserted env drafts know_all 5 8 61 stored (new_row 101 ∷ new_row 103 ∷ []) 5
      one_done refl refl refl refl refl refl refl (refl, (refl, tt))
