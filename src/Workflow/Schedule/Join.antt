-- ===== src/Workflow/Schedule/Join.antt =====
-- Nodes that wait for two others (`schedule_next_nodes` of
-- src/kernel/src/services/workflow_engine/schedule.rs, after a node).
use kuintessence.Prelude.{
  ◌<◌, Bool, true, false, ◌≡◌, refl, subst, ◌∙◌, some, List, [], ◌∷◌, map, ok, ◌==◌, ◌&&◌, not,
  find, any, all, keep, is_empty, contains, length, arith, ==_iff, ==_refl, Bool-cases, inl, inr,
  find-test, length-map, length-keep-le,
}
use kuintessence.Workflow.Common.{Uuid, NodeRelation}
use kuintessence.Workflow.Instance.{NodeInstance, WorkflowInstance, WorkflowInstanceStatus}
use kuintessence.Workflow.Store.{
  World, is_top, is_finished_or_standby, is_standby, set_flow, get_node, get_flow, get_by_node_id,
  is_all_same_entryment_nodes_success, get_all_workflow_instance_stand_by_nodes,
}
use kuintessence.Workflow.Store.Single.{push-save-flow}
use kuintessence.Workflow.Entry.{i32_mod, find_entry_nodes_ids}
use kuintessence.Workflow.Entry.Degrees.{in_degree, find_entry_nodes_ids-in_degree}
use kuintessence.Workflow.Batch.{Env}
use kuintessence.Workflow.Schedule.{
  node_instance_id, dependency, next_entries, schedule_entries, schedule_next_nodes,
}

-- The relations that `schedule_next_nodes` looks at after a node: those that do not touch it.
abbrev pub untouched : Uuid → NodeRelation → Bool
untouched id el = not (el.from_id == id) && not (el.to_id == id)

-- A relation from another node than `id` ends in `k`.
abbrev pub waits_for_another : Uuid → List NodeRelation → Uuid → Bool
waits_for_another id rs k = any (λ r. r.to_id == k && untouched id r) rs

-- The rows of the workflow that are no sub tasks.
abbrev pub is_top_of : Uuid → NodeInstance → Bool
is_top_of flow_id m = m.flow_instance_id == flow_id && is_top m

abbrev pub stands_by_in : Uuid → NodeInstance → Bool
stands_by_in flow_id m = m.flow_instance_id == flow_id && is_standby m.status

-- The entries of the step after `id`.
abbrev pub entries_after : Uuid → WorkflowInstance → World → List Uuid
entries_after id w s =
    find_entry_nodes_ids (map (λ m. m.id) (keep (stands_by_in w.id) s.nodes))
      (map dependency (keep (untouched id) w.spec.node_relations))

in_degree-keep :
    (q : NodeRelation → Bool) (k : Uuid) (rs : List NodeRelation)
    → (0 == in_degree k (map dependency (keep q rs))) ≡ not (any (λ r. r.to_id == k && q r) rs)
in_degree-keep q k [] = refl
in_degree-keep q k (r ∷ rs) = ground (arith, in_degree-keep q k rs)

-- The nodes that `find_entry_nodes_ids` gives are those that wait for no other node.
ready :
    (id k : Uuid) (rs : List NodeRelation) (ids : List Uuid)
    → length rs < i32_mod
    → contains (find_entry_nodes_ids ids (map dependency (keep (untouched id) rs))) k
      ≡ (contains ids k && not (waits_for_another id rs k))
ready id k rs ids short =
    let deps = map dependency (keep (untouched id) rs) in
    let fewer : length deps < i32_mod = omega (
      arith,
      length-map dependency (keep (untouched id) rs),
      length-keep-le (untouched id) rs,
      short,
    ) in
    find_entry_nodes_ids-in_degree ids deps k fewer ∙ rw (in_degree-keep (untouched id) k rs) refl

all-contains :
    (p : Uuid → Bool) (k : Uuid) (ns : List NodeInstance)
    → all (λ m. p m.id) ns ≡ true
    → contains (map (λ m. m.id) ns) k ≡ true
    → p k ≡ true
all-contains p k [] h c = ground arith
all-contains p k (m ∷ ms) h c = elim (Bool-cases (m.id == k)) [
  | inl e ↦ subst (λ x. p x ≡ true) ((==_iff m.id k).0 e) (ground arith)
  | inr e ↦ all-contains p k ms (ground arith) (ground arith)
]

nothing-contained : (xs : List Uuid) → ((k : Uuid) → contains xs k ≡ false) → is_empty xs ≡ true
nothing-contained [] h = refl
nothing-contained (x ∷ xs) h =
    let one : contains (x ∷ xs) x ≡ false = h x in
    let same : (x == x) ≡ true = ==_refl x in ground arith

no_entries :
    (id : Uuid) (rs : List NodeRelation) (ns : List NodeInstance)
    → length rs < i32_mod
    → all (λ m. waits_for_another id rs m.id) ns ≡ true
    → is_empty (find_entry_nodes_ids (map (λ m. m.id) ns) (map dependency (keep (untouched id) rs)))
      ≡ true
no_entries id rs ns short blocked = nothing-contained _ (λ k.
    ready id k rs (map (λ m. m.id) ns) short ∙ elim (Bool-cases (contains (map (λ m. m.id) ns) k)) [
      | inr e ↦ rw e refl
      | inl e ↦ rw (e, all-contains (waits_for_another id rs) k ns blocked e) refl
    ])

-- Where the top nodes of the workflow of node `id` have all finished or stand by, scheduling after
-- `id` takes exactly the nodes that stand by and into which no relation goes but those that touch
-- `id`, and changes nothing yet.
pub next_entries-ready :
    (id : Uuid) (n : NodeInstance) (w : WorkflowInstance) (s : World)
    → find (λ m. m.id == id) s.nodes ≡ some n
    → find (λ f. f.id == n.flow_instance_id) s.flows ≡ some w
    → all (λ m. is_finished_or_standby m.status) (keep (is_top_of n.flow_instance_id) s.nodes)
      ≡ true
    → length w.spec.node_relations < i32_mod
    → (ids : List Uuid) × (next_entries id s ≡ (ok (w, ids), s))
      × ((k : Uuid)
          → contains ids k ≡ (
              contains (map (λ m. m.id) (keep (stands_by_in w.id) s.nodes)) k
              && not (waits_for_another id w.spec.node_relations k)))
unfolding next_entries is_all_same_entryment_nodes_success get_node get_by_node_id get_flow
    get_all_workflow_instance_stand_by_nodes
next_entries-ready id n w s found flow done short =
    let rs = w.spec.node_relations in
    let ids = map (λ m. m.id) (keep (stands_by_in w.id) s.nodes) in
    (
      find_entry_nodes_ids ids (map dependency (keep (untouched id) rs)),
      rw (found, done, found, flow) refl,
      λ k. ready id k rs ids short,
    )

pub next_entries-after :
    (id : Uuid) (n : NodeInstance) (w : WorkflowInstance) (s : World)
    → find (λ m. m.id == id) s.nodes ≡ some n
    → find (λ f. f.id == n.flow_instance_id) s.flows ≡ some w
    → all (λ m. is_finished_or_standby m.status) (keep (is_top_of n.flow_instance_id) s.nodes)
      ≡ true
    → next_entries id s ≡ (ok (w, entries_after id w s), s)
unfolding next_entries is_all_same_entryment_nodes_success get_node get_by_node_id get_flow
    get_all_workflow_instance_stand_by_nodes
next_entries-after id n w s found flow done = rw (found, done, found, flow) refl

kept-contains :
    (p q : NodeInstance → Bool) (m : NodeInstance) (ns : List NodeInstance)
    → find (λ x. p x && q x) ns ≡ some m
    → contains (map (λ x. x.id) (keep p ns)) m.id ≡ true
kept-contains p q m [] h = ground arith
kept-contains p q m (n ∷ ns) h = elim (Bool-cases (p n && q n)) [
  | inl e ↦
      let first : n ≡ m = ground arith in
      let kept : p n ≡ true = ground arith in
      let same : (n.id == m.id) ≡ true = rw first (==_refl m.id) in ground arith
  | inr e ↦ let rest = kept-contains p q m ns (ground arith) in ground arith
]

contains-some : (xs : List Uuid) (k : Uuid) → contains xs k ≡ true → is_empty xs ≡ false
contains-some [] k h = ground arith
contains-some (x ∷ xs) k h = refl

&&-right : (a b : Bool) → (a && b) ≡ true → b ≡ true
&&-right a b h = ground arith

-- A node that stands by and waits for no other is an entry.
pub entries_after-some :
    (id : Uuid) (w : WorkflowInstance) (m : NodeInstance) (s : World)
    → length w.spec.node_relations < i32_mod
    → find
        (λ x. stands_by_in w.id x && not (waits_for_another id w.spec.node_relations x.id))
        s.nodes
      ≡ some m
    → is_empty (entries_after id w s) ≡ false
entries_after-some id w m s short found =
    let rs = w.spec.node_relations in
    let stands = kept-contains (stands_by_in w.id) _ m s.nodes found in
    let both : (stands_by_in w.id m && not (waits_for_another id rs m.id)) ≡ true =
      find-test _ s.nodes m found in
    let free : not (waits_for_another id rs m.id) ≡ true =
      &&-right (stands_by_in w.id m) (not (waits_for_another id rs m.id)) both in
    contains-some (entries_after id w s) m.id (
      ready id m.id rs (map (λ x. x.id) (keep (stands_by_in w.id) s.nodes)) short
      ∙ rw (stands, free) refl)

module _ (env : Env) where
  -- Nothing is staged, the top nodes of the workflow of node `id` have all finished or stand by, and
  -- each node that stands by has a relation that ends in it, starts at another node than `id`, and
  -- does not touch `id`, whatever the state of that other node. Then scheduling after `id` starts no
  -- node: it succeeds and marks the workflow as finished, with the waiting nodes left as they are.
  pub schedule_next_nodes-join :
      (id : Uuid) (n : NodeInstance) (w : WorkflowInstance) (s : World)
      → s.statements ≡ []
      → find (λ m. m.id == id) s.nodes ≡ some n
      → find (λ f. f.id == n.flow_instance_id) s.flows ≡ some w
      → all (λ m. is_finished_or_standby m.status) (keep (is_top_of n.flow_instance_id) s.nodes)
        ≡ true
      → length w.spec.node_relations < i32_mod
      → all
          (λ m. waits_for_another id w.spec.node_relations m.id)
          (keep (stands_by_in w.id) s.nodes)
        ≡ true
      → schedule_next_nodes env (node_instance_id id) s ≡ (
        ok tt,
        record s {
          flows = set_flow (record w { status = WorkflowInstanceStatus.finished }) s.flows;
          statements = [];
          can_drop = true;
        },
      )
  unfolding schedule_next_nodes next_entries schedule_entries is_all_same_entryment_nodes_success
      get_node get_by_node_id get_flow get_all_workflow_instance_stand_by_nodes
  schedule_next_nodes-join id n w s clean found flow done short blocked =
      let none_left =
        no_entries id w.spec.node_relations (keep (stands_by_in w.id) s.nodes) short blocked in
      let saved = push-save-flow (record w { status = WorkflowInstanceStatus.finished }) s clean in
      rw (found, done, found, flow, none_left, saved) refl
