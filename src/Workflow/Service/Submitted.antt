-- ===== src/Workflow/Service/Submitted.antt =====
-- What a submission leaves in the tables (src/kernel/src/services/workflow_engine/workflow.rs).
use kuintessence.Prelude.{
  ℕ, Bool, true, false, ◌≡◌, refl, Option, some, List, [], ◌∷◌, ◌++◌, ok, err, any, ◌==◌,
}
use kuintessence.Workflow.Common.{Uuid}
use kuintessence.Workflow.Instance.{NodeInstance, WorkflowInstance, invalid_draft}
use kuintessence.Workflow.Draft.{WorkflowDraft, WorkflowDraftException, validate_workflow_draft}
use kuintessence.Workflow.Convert.{workflow_from}
use kuintessence.Workflow.Nodes.{parse_node_instances}
use kuintessence.Workflow.Store.{World, insert_flow}
use kuintessence.Workflow.Store.Inserts.{AllNew, save_all}
use kuintessence.Workflow.Batch.{Env}
use kuintessence.Workflow.Service.{get_draft, convert, parse_rows, submit_workflow}

-- The row of a submitted workflow: it belongs to the user of the session since now.
abbrev pub owned : Uuid → ℕ → WorkflowInstance → WorkflowInstance
owned user_id now w = record w { user_id = user_id; last_modified_time = now }

module _ (env : Env) (drafts : Uuid → Option WorkflowDraft) (has_meta : Uuid → Bool)
    (depth : ℕ) where
  -- Nothing is staged, the session has a user, the draft is there and valid, the rows of the converted
  -- workflow can be built, and the keys of the workflow and of the rows are new. Then the submission
  -- returns the id of the workflow, and the tables have the workflow, as one of that user and modified
  -- at the database's time, and its rows at their ends and all else as it was.
  pub submit_workflow-inserted :
      (id user_id : Uuid) (d : WorkflowDraft) (rows : List NodeInstance) (n : ℕ) (s : World)
      → s.statements ≡ []
      → s.can_drop ≡ true
      → env.session_user ≡ some user_id
      → drafts id ≡ some d
      → validate_workflow_draft has_meta d.spec ≡ ok tt
      → parse_node_instances env.fresh depth
          (workflow_from env.fresh d s.next).0
          (workflow_from env.fresh d s.next).1
        ≡ ok (rows, n)
      → any (λ f. f.id == (workflow_from env.fresh d s.next).0.id) s.flows ≡ false
      → AllNew rows s.nodes
      → submit_workflow env drafts has_meta depth id s ≡ (
        ok (workflow_from env.fresh d s.next).0.id,
        record s {
          flows = s.flows ++ owned user_id env.now (workflow_from env.fresh d s.next).0 ∷ [];
          nodes = s.nodes ++ rows;
          next = n;
        },
      )
  unfolding submit_workflow get_draft convert parse_rows insert_flow
  submit_workflow-inserted id user_id d rows n s clean idle session found valid parsed new_flow
        new_rows =
      let w = (workflow_from env.fresh d s.next).0 in
      let before : World = record s { flows = s.flows ++ owned user_id env.now w ∷ []; next = n } in
      rw (found, valid, parsed, session, new_flow) (save_all rows w.id before clean idle new_rows)

  -- A draft that is not valid is refused, and nothing is changed.
  pub submit_workflow-refused :
      (id : Uuid) (d : WorkflowDraft) (e : WorkflowDraftException) (s : World)
      → drafts id ≡ some d
      → validate_workflow_draft has_meta d.spec ≡ err e
      → submit_workflow env drafts has_meta depth id s ≡ (err invalid_draft, s)
  unfolding submit_workflow get_draft
  submit_workflow-refused id d e s found refused = rw (found, refused) refl
