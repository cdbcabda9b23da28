-- ===== src/Workflow/Examples/Scheduling.antt =====
-- Tests and witnesses for batches, for scheduling and for the reports of agents.
use kuintessence.Prelude.{
  ℕ, arith, ◌≡◌, refl, true, none, some, List, [], ◌∷◌, ok, err, map, keep, contains, ◌&&◌, not,
  length, inl,
}
use kuintessence.Workflow.Common.{
  Uuid, Input, BatchStrategyKind, NodeKind, ScriptInfo, ScriptKind, ScriptOriginKind,
}
use kuintessence.Workflow.Entry.{find_entry_nodes_ids}
use kuintessence.Usecases.Select.Sendings.{
  Sending, done, script_task, message_of, assigned, drawn, AreSendings,
}
use kuintessence.Workflow.Instance.{
  WorkflowInstance, WorkflowInstanceStatus, NodeInstance, NodeInstanceStatus, TaskResult,
  TaskResultStatus, NodeSpec, not_fully_scheduled, service_failed, no_such_service,
  NodeInstanceKind,
}
use kuintessence.Workflow.Store.{World, set_node, set_flow, task, node_status, bill}
use kuintessence.Workflow.Batch.{Env, combine, sub_nodes}
use kuintessence.Workflow.Batch.Choices.{Slots, choices, counts_product, combine-choices}
use kuintessence.Workflow.Batch.Tasks.{sub_nodes-choices}
use kuintessence.Workflow.Slots.Inputs.{filled_slot}
use kuintessence.Workflow.Schedule.{
  workflow_instance_id, node_instance_id, next_entries, prepare_nodes, schedule_next_nodes,
}
use kuintessence.Workflow.Store.Running.{run_if}
use kuintessence.Workflow.Schedule.Started.{schedule_next_nodes-started}
use kuintessence.Workflow.Schedule.Join.{
  stands_by_in, waits_for_another, next_entries-ready, schedule_next_nodes-join,
}
use kuintessence.Workflow.Receiver.{reported, receive_node_status}
use kuintessence.Workflow.Receiver.Billed.{receive_node_status-billed}
use kuintessence.Workflow.Receiver.Refused.{receive_node_status-refused}
use kuintessence.Workflow.Receiver.Saved.{flows_after, receive_node_status-saved}
use kuintessence.Workflow.Examples.{fresh, strategy, text_slot, spec_of, flow_of, relation, row}

abbrev pub env : Env
env = record {
  fresh = fresh;
  random = λ n. n;
  accepts = λ m. true;
  file_text = λ id. none;
  timestamp = "0";
  simple = λ id. "id";
  blake3 = λ text. text;
  session_user = some 61;
  now = 3;
  clusters = record { id = 20; topic_name = "a"; enabled = true } ∷ [];
  installed = [];
  block_list = [];
  services = record {
    getter = λ software usecase. err service_failed;
    render = λ content kv. ok content;
    order = λ m. m;
    random = λ n. n;
    accepts = λ task. true;
  };
}

abbrev texts : Slots
texts = ("a", Input.text 1 ∷ Input.text 2 ∷ []) ∷ ("b", Input.text 3 ∷ Input.text 4 ∷ []) ∷ []

combined :
    combine texts []
    ≡ (("a", Input.text 1) ∷ ("b", Input.text 3) ∷ [])
      ∷ (("a", Input.text 2) ∷ ("b", Input.text 3) ∷ [])
      ∷ (("a", Input.text 1) ∷ ("b", Input.text 4) ∷ [])
      ∷ (("a", Input.text 2) ∷ ("b", Input.text 4) ∷ [])
      ∷ []
unfolding combine
combined = refl

combine-choices_example :
    (combine texts [] ≡ choices texts) × (length (combine texts []) ≡ counts_product texts)
combine-choices_example =
    combine-choices "a" (Input.text 1 ∷ Input.text 2 ∷ [])
      (("b", Input.text 3 ∷ Input.text 4 ∷ []) ∷ []) (refl, (refl, tt))

abbrev plain : Uuid → NodeSpec
plain id = spec_of id (text_slot "a" (some (7 ∷ [])) ∷ []) []

abbrev original : NodeSpec
original =
    spec_of 1 (text_slot "a" (some (7 ∷ [])) ∷ [])
      (strategy "a" BatchStrategyKind.original_batch ∷ [])

-- Nodes 1 and 2 feed node 3.
abbrev joined : WorkflowInstance
joined = flow_of (plain 1 ∷ plain 2 ∷ plain 3 ∷ []) (relation 1 3 ∷ relation 2 3 ∷ [])

-- Node 1 feeds node 2.
abbrev chained : WorkflowInstance
chained =
    flow_of (spec_of 1 [] [] ∷ spec_of 2 [] [] ∷ [])
      (record (relation 1 2) { slot_relations = [] } ∷ [])

abbrev world : List NodeInstance → WorkflowInstance → World
world nodes flow = record {
  nodes = nodes;
  flows = flow ∷ [];
  statements = [];
  can_drop = true;
  sent = [];
  texts = [];
  next = 0;
}

abbrev both_done : World
both_done =
    world
      (row 1 NodeInstanceStatus.finished
        ∷ row 2 NodeInstanceStatus.finished
        ∷ row 3 NodeInstanceStatus.standby
        ∷ [])
      joined

abbrev pub one_done : World
one_done = world (row 1 NodeInstanceStatus.finished ∷ row 2 NodeInstanceStatus.standby ∷ []) chained

abbrev both_run : World
both_run = world (row 1 NodeInstanceStatus.running ∷ row 2 NodeInstanceStatus.running ∷ []) joined

-- The first step: node 1 runs and is sent, node 2 stands by.
first_step :
    schedule_next_nodes env
      (workflow_instance_id 50)
      (world (row 1 NodeInstanceStatus.pending ∷ row 2 NodeInstanceStatus.pending ∷ []) chained)
    ≡ (
      ok tt,
      record (world
          (row 1 NodeInstanceStatus.running ∷ row 2 NodeInstanceStatus.standby ∷ [])
          chained) { sent = node_status (done 1) ∷ [] },
    )
unfolding schedule_next_nodes
first_step = refl

-- The second step: node 2 runs.
second_step : schedule_next_nodes env (node_instance_id 1) one_done ≡ (
  ok tt,
  record (world
      (row 1 NodeInstanceStatus.finished ∷ row 2 NodeInstanceStatus.running ∷ [])
      chained) { sent = node_status (done 2) ∷ [] },
)
unfolding schedule_next_nodes
second_step = refl

next_entries-ready_example :
    (ids : List Uuid) × (next_entries 1 one_done ≡ (ok (chained, ids), one_done))
    × ((k : Uuid)
        → contains ids k ≡ (
            contains (map (λ m. m.id) (keep (stands_by_in 50) one_done.nodes)) k
            && not (waits_for_another 1 chained.spec.node_relations k)))
next_entries-ready_example =
    next_entries-ready 1 (row 1 NodeInstanceStatus.finished) chained one_done refl refl refl
      (omega arith)

schedule_next_nodes-join_example : schedule_next_nodes env (node_instance_id 2) both_done ≡ (
  ok tt,
  record both_done {
    flows = set_flow (record joined { status = WorkflowInstanceStatus.finished }) both_done.flows;
    statements = [];
    can_drop = true;
  },
)
schedule_next_nodes-join_example =
    schedule_next_nodes-join env 2 (row 2 NodeInstanceStatus.finished) joined both_done refl refl
      refl refl (omega arith) refl

abbrev report : TaskResultStatus → TaskResult
report status = record { id = 1; status = status; message = "log"; used_resources = none }

receive_node_status-refused_example :
    receive_node_status env (report TaskResultStatus.success) both_run ≡ (
      err (not_fully_scheduled 1),
      record both_run {
        nodes =
            set_node
              (reported (report TaskResultStatus.success) (row 1 NodeInstanceStatus.running))
              both_run.nodes;
        statements = [];
        can_drop = true;
      },
    )
receive_node_status-refused_example =
    receive_node_status-refused env (report TaskResultStatus.success)
      (row 1 NodeInstanceStatus.running) (row 2 NodeInstanceStatus.running) both_run refl refl refl
      refl

abbrev failed_row : NodeInstance
failed_row = reported (report TaskResultStatus.failed) (row 1 NodeInstanceStatus.running)

receive_node_status-saved_example :
    receive_node_status env (report TaskResultStatus.failed) both_run ≡ (
      ok tt,
      record both_run {
        nodes = set_node failed_row both_run.nodes;
        flows =
            flows_after TaskResultStatus.failed joined
              (set_node failed_row both_run.nodes)
              both_run.flows;
        statements = [];
        can_drop = true;
      },
    )
receive_node_status-saved_example =
    receive_node_status-saved env (report TaskResultStatus.failed)
      (row 1 NodeInstanceStatus.running) joined both_run refl refl refl refl

-- Node 1 feeds node 2, which runs a script.
abbrev script_info : ScriptInfo
script_info = record {
  kind = ScriptKind.python;
  input_path = [];
  output_path = [];
  origin = ScriptOriginKind.git "url";
}

abbrev script_node : NodeSpec
script_node = record (spec_of 2 [] []) { kind = NodeKind.script script_info }

abbrev scripted : WorkflowInstance
scripted =
    flow_of (spec_of 1 [] [] ∷ script_node ∷ [])
      (record (relation 1 2) { slot_relations = [] } ∷ [])

abbrev before_script : World
before_script =
    world (row 1 NodeInstanceStatus.finished ∷ row 2 NodeInstanceStatus.standby ∷ []) scripted

-- The row of the script has the cluster, and the task went to its topic.
script_step : schedule_next_nodes env (node_instance_id 1) before_script ≡ (
  ok tt,
  record (world
      (row 1 NodeInstanceStatus.finished
        ∷ record (row 2 NodeInstanceStatus.running) { cluster_id = some 20 }
        ∷ [])
      scripted) { sent = task (script_task 2 script_info) "a" ∷ []; next = 1 },
)
unfolding schedule_next_nodes
script_step = refl

-- A milestone is saved as running before its sending fails.
abbrev milestone_flow : WorkflowInstance
milestone_flow =
    flow_of
      (spec_of 1 [] []
        ∷ record (spec_of 2 [] []) {
          kind = NodeKind.milestone (record { name = "m"; url = "url"; custom_message = "" });
        }
        ∷ [])
      (record (relation 1 2) { slot_relations = [] } ∷ [])

milestone_step :
    schedule_next_nodes env (node_instance_id 1) (
      world
        (row 1 NodeInstanceStatus.finished ∷ row 2 NodeInstanceStatus.standby ∷ [])
        milestone_flow)
    ≡ (
      err (no_such_service NodeInstanceKind.milestone),
      world
          (row 1 NodeInstanceStatus.finished ∷ row 2 NodeInstanceStatus.running ∷ [])
          milestone_flow,
    )
unfolding schedule_next_nodes
milestone_step = refl

schedule_next_nodes-started_example :
    (xs : List Sending) × AreSendings env before_script (script_node ∷ []) xs
    × (schedule_next_nodes env (node_instance_id 1) before_script ≡ (
      ok tt,
      record before_script {
        nodes = assigned xs (map (run_if (contains (2 ∷ []))) before_script.nodes);
        flows = set_flow scripted before_script.flows;
        sent = map message_of xs;
        next = drawn xs 0;
        statements = [];
        can_drop = true;
      },
    ))
unfolding find_entry_nodes_ids prepare_nodes
schedule_next_nodes-started_example =
    schedule_next_nodes-started env (record { id = 20; topic_name = "a"; enabled = true }) [] refl
      (λ m. refl) (λ t. refl) 1 (row 1 NodeInstanceStatus.finished)
      (row 2 NodeInstanceStatus.standby) scripted scripted.spec.node_specs (script_node ∷ [])
      (row 2 NodeInstanceStatus.standby ∷ []) before_script before_script refl refl refl
      (omega arith) refl refl refl refl (refl, (refl, tt)) (refl, tt)
      (inl (script_task 2 script_info, refl), tt)

abbrev sub_row : Uuid → NodeInstance
sub_row id = record (row id NodeInstanceStatus.pending) { batch_parent_id = some 1 }

-- Node 1 with two sub tasks in the table.
abbrev with_sub_tasks : World
with_sub_tasks = world (row 1 NodeInstanceStatus.pending ∷ sub_row 11 ∷ sub_row 12 ∷ []) chained

abbrev two_texts : Slots
two_texts = ("a", Input.text 5 ∷ Input.text 6 ∷ []) ∷ []

sub_nodes-choices_example :
    (subs : List NodeSpec) × (n : ℕ) × (sub_nodes env original two_texts with_sub_tasks
      ≡ (ok subs, record with_sub_tasks { next = n }))
    × (map (λ sub. sub.id) subs ≡ 11 ∷ 12 ∷ [])
    × (map (λ sub. sub.input_slots) subs
        ≡ map (λ c. map (filled_slot c) original.input_slots) (choices two_texts))
sub_nodes-choices_example =
    sub_nodes-choices env original "a" (Input.text 5 ∷ Input.text 6 ∷ []) [] with_sub_tasks
      (refl, tt) refl refl

-- Node 1 reports its success, node 2 is done, and node 3 still waits for node 2: the workflow is
-- saved as finished, and node 1 is billed.
abbrev last_runs : World
last_runs =
    world
      (row 1 NodeInstanceStatus.running
        ∷ row 2 NodeInstanceStatus.finished
        ∷ row 3 NodeInstanceStatus.standby
        ∷ [])
      joined

abbrev finished_row : NodeInstance
finished_row = reported (report TaskResultStatus.success) (row 1 NodeInstanceStatus.running)

receive_node_status-billed_example :
    receive_node_status env (report TaskResultStatus.success) last_runs ≡ (
      ok tt,
      record last_runs {
        nodes = set_node finished_row last_runs.nodes;
        flows =
            set_flow (record joined { status = WorkflowInstanceStatus.finished }) last_runs.flows;
        sent = bill 1 ∷ [];
        statements = [];
        can_drop = true;
      },
    )
receive_node_status-billed_example =
    receive_node_status-billed env (report TaskResultStatus.success)
      (row 1 NodeInstanceStatus.running) joined last_runs refl refl refl refl refl (omega arith)
      refl refl
