-- ===== src/Workflow/Schedule/Started.antt =====
-- What starting the entries does (`schedule_next_nodes` of
-- src/kernel/src/services/workflow_engine/schedule.rs, after a node), with the sending of their tasks.
use mathlib.Core.List.{append-nil, append_assoc}
use kuintessence.Prelude.{
  Bool, true, false, ◌≡◌, refl, ◌∙◌, some, List, [], ◌∷◌, ◌++◌, map, ok, ◌==◌, find, contains,
  is_empty, keep, any, all, not, ◌&&◌, ◌<◌, length, All, All-map, if◌then◌else◌, arith, ap₂,
  find-test, ==_iff,
}
use kuintessence.Workflow.Common.{Uuid}
use kuintessence.Workflow.Instance.{NodeSpec, NodeInstance, WorkflowInstance}
use kuintessence.Workflow.Exec.{for_each}
use kuintessence.Workflow.Store.{
  World, Message, update_node, push, get_node, set_flow, is_finished_or_standby,
}
use kuintessence.Workflow.Store.Update.{has_id, IsKeyed}
use kuintessence.Workflow.Store.Single.{push-save-done}
use kuintessence.Workflow.Store.Running.{
  run, run_if, run_if-id, ids_of, AreRowsOf, save_changed-run,
}
use kuintessence.Workflow.Batch.{Env}
use kuintessence.Usecases.Task.{Task}
use kuintessence.Usecases.Clusters.{Cluster}
use kuintessence.Usecases.Select.Sendings.{
  Sending, message_of, assigned, drawn, CanSend, AreSendings, at, has_id-map, map-IsKeyed,
}
use kuintessence.Usecases.Select.Loop.{send_each}
use kuintessence.Workflow.Schedule.{
  node_instance_id, run_node, prepare_nodes, start_nodes, schedule_entries, schedule_next_nodes,
}
use kuintessence.Workflow.Schedule.Join.{
  is_top_of, stands_by_in, waits_for_another, entries_after, next_entries-after, entries_after-some,
}
use kuintessence.Workflow.Entry.{i32_mod}

-- The row of each task.
abbrev pub HaveRows : List NodeSpec → List NodeInstance → List NodeInstance → Type 0
HaveRows [] [] ns = Unit {0}
HaveRows (t ∷ ts) (u ∷ us) ns = (find (λ m. m.id == t.id) ns ≡ some u) × HaveRows ts us ns
HaveRows _ _ ns = (true ≡ false)

run_all :
    (ts : List NodeSpec) (us : List NodeInstance) (s : World)
    → HaveRows ts us s.nodes
    → for_each ts run_node s ≡ (
      ok tt,
      record s {
        statements = s.statements ++ map update_node (map run us);
        can_drop = if is_empty us then s.can_drop else false;
      },
    )
unfolding run_node get_node push
run_all [] [] s rows = simp append-nil refl
run_all (t ∷ ts) (u ∷ us) s rows =
    let next : World = record s {
      statements = s.statements ++ update_node (run u) ∷ [];
      can_drop = false;
    } in
    let same : (if is_empty us then false else false) ≡ false = ground arith in
    rw rows.0 (run_all ts us next rows.1 ∙ simp (same, append_assoc) refl)
run_all [] (u ∷ us) s rows = ground arith
run_all (t ∷ ts) [] s rows = ground arith

rows-AreRowsOf :
    (ts : List NodeSpec) (us ns : List NodeInstance) → HaveRows ts us ns → AreRowsOf us ns
rows-AreRowsOf [] [] ns rows = tt
rows-AreRowsOf (t ∷ ts) (u ∷ us) ns rows =
    let same : u.id ≡ t.id = (==_iff u.id t.id).0 (find-test _ ns u rows.0) in
    (simp same rows.0, rows-AreRowsOf ts us ns rows.1)
rows-AreRowsOf [] (u ∷ us) ns rows = ground arith
rows-AreRowsOf (t ∷ ts) [] ns rows = ground arith

rows-ids :
    (ts : List NodeSpec) (us ns : List NodeInstance)
    → HaveRows ts us ns
    → ids_of us ≡ map (λ t. t.id) ts
rows-ids [] [] ns rows = refl
rows-ids (t ∷ ts) (u ∷ us) ns rows =
    let same : u.id ≡ t.id = (==_iff u.id t.id).0 (find-test _ ns u rows.0) in
    ap₂ ◌∷◌ same (rows-ids ts us ns rows.1)
rows-ids [] (u ∷ us) ns rows = ground arith
rows-ids (t ∷ ts) [] ns rows = ground arith

find-any :
    (p : NodeInstance → Bool) (ns : List NodeInstance) (n : NodeInstance)
    → find p ns ≡ some n
    → any p ns ≡ true
find-any p [] n h = ground arith
find-any p (m ∷ ms) n h = ground (arith, find-any p ms n)

rows-has_id :
    (ts : List NodeSpec) (us ns : List NodeInstance)
    → HaveRows ts us ns
    → All (λ t. has_id t.id ns ≡ true) ts
rows-has_id [] us ns rows = tt
rows-has_id (t ∷ ts) (u ∷ us) ns rows =
    (find-any (λ m. m.id == t.id) ns u rows.0, rows-has_id ts us ns rows.1)
rows-has_id (t ∷ ts) [] ns rows = ground arith

module _ (env : Env) (c : Cluster) (cs : List Cluster)
    (some_enabled : keep (λ x. x.enabled) env.clusters ≡ c ∷ cs)
    (yes_to_all : (m : Message) → env.accepts m ≡ true)
    (all_taken : (t : Task) → env.services.accepts t ≡ true) where
  -- A cluster is enabled and the queues accept all. The top nodes of the workflow of node `id` have
  -- all finished or stand by, the workflow has fewer than 2^32 relations, and some node stands by and
  -- has no relation into it but those that touch `id`. The inputs of the entries after `id` are
  -- prepared, nothing is staged then, ids are keys of the rows, each task has its row, and each is a
  -- script, does nothing, or has a use case that is parsed. Then the rows of the tasks are saved as running and no
  -- others; each task is then handled once and in order: a script or a use case is sent as the task
  -- that it is to an enabled cluster, whose id is saved in its row, and a node that does nothing is
  -- reported as done; and the workflow is saved with the prepared nodes. Nothing else changes.
  pub schedule_next_nodes-started :
      (id : Uuid) (n m : NodeInstance) (w : WorkflowInstance) (specs tasks : List NodeSpec)
      (us : List NodeInstance) (s t : World)
      → find (λ x. x.id == id) s.nodes ≡ some n
      → find (λ f. f.id == n.flow_instance_id) s.flows ≡ some w
      → all (λ x. is_finished_or_standby x.status) (keep (is_top_of n.flow_instance_id) s.nodes)
        ≡ true
      → length w.spec.node_relations < i32_mod
      → find
          (λ x. stands_by_in w.id x && not (waits_for_another id w.spec.node_relations x.id))
          s.nodes
        ≡ some m
      → prepare_nodes env w (entries_after id w s) w.spec.node_specs s ≡ (ok (specs, tasks), t)
      → t.statements ≡ []
      → t.can_drop ≡ true
      → IsKeyed t.nodes
      → HaveRows tasks us t.nodes
      → All (CanSend env t) tasks
      → (xs : List Sending) × AreSendings env t tasks xs
        × (schedule_next_nodes env (node_instance_id id) s ≡ (
          ok tt,
          record t {
            nodes = assigned xs (map (run_if (contains (map (λ x. x.id) tasks))) t.nodes);
            flows = set_flow (record w { spec = record w.spec { node_specs = specs } }) t.flows;
            sent = t.sent ++ map message_of xs;
            next = drawn xs t.next;
            statements = [];
            can_drop = true;
          },
        ))
  unfolding schedule_next_nodes schedule_entries start_nodes
  schedule_next_nodes-started id n m w specs tasks us s t found in_flow finished short waits
        prepared clean idle keyed rows can =
      let entries = next_entries-after id n w s found in_flow finished in
      let some_entry = entries_after-some id w m s short waits in
      let flow : WorkflowInstance = record w { spec = record w.spec { node_specs = specs } } in
      let running = run_if (contains (ids_of us)) in
      let same_id = run_if-id (contains (ids_of us)) in
      let staged : World = record t {
        statements = map update_node (map run us);
        can_drop = is_empty us;
      } in
      let plain : (if is_empty us then true else false) ≡ is_empty us = ground arith in
      let marked : for_each tasks run_node t ≡ (ok tt, staged) =
        run_all tasks us t rows ∙ simp (clean, idle, plain) refl in
      let saved = save_changed-run us t keyed (rows-AreRowsOf tasks us t.nodes rows) in
      let has =
        All-map _ _ (λ x h. has_id-map running same_id x.id t.nodes ∙ h) tasks
          (rows-has_id tasks us t.nodes rows) in
      let (xs, are, told) =
        send_each env c cs some_enabled yes_to_all all_taken t (map running t.nodes) t.next t.sent
          tasks (map-IsKeyed running same_id t.nodes keyed) has can in
      let told_world =
        at env t (assigned xs (map running t.nodes)) (drawn xs t.next)
          (t.sent ++ map message_of xs) in
      let stored = push-save-done flow told_world refl in
      (
        xs,
        are,
        rw
            (
              entries,
              some_entry,
              prepared,
              marked,
              saved,
              told,
              stored,
              rows-ids tasks us t.nodes rows,
            )
            refl,
      )
