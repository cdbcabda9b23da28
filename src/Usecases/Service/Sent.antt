-- ===== src/Usecases/Service/Sent.antt =====
-- What a handled use case leaves behind (src/kernel/src/services/use_cases/software_computing.rs).
use native.Mathlib.Nat.{mod-lt, zero-lt-suc}
use kuintessence.Prelude.{
  ℕ, zero, suc, ◌%◌, ◌<◌, Bool, true, ◌≡◌, refl, ap, ◌∙◌, some, List, [], ◌∷◌, ◌++◌, ok, keep, any,
  length, find, get_elem?, ◌==◌, ◌&&◌, arith, ==_iff, find-test, Bool-cases, inl, inr,
}
use kuintessence.Workflow.Common.{Uuid}
use kuintessence.Workflow.Instance.{NodeSpec, NodeInstance}
use kuintessence.Workflow.Store.{World, TaskCommand, set_node, get_node, push, draw}
use kuintessence.Workflow.Store.Single.{push-save-node, find-set_node}
use kuintessence.Usecases.Task.{Task}
use kuintessence.Usecases.Clusters.{
  Cluster, Grid, choose, get_cluster, get_random_cluster, send_task,
}
use kuintessence.Usecases.Parse.{Services, parse_task}
use kuintessence.Usecases.Service.{send_to_random_cluster, handle_usecase, operate_task}

abbrev pub enabled_clusters : Grid → List Cluster
enabled_clusters s = keep (λ c. c.enabled) s.clusters

abbrev pub has_cluster : Uuid → List Cluster → Bool
has_cluster id cs = any (λ c. c.id == id) cs

get_elem?-has :
    (i : ℕ) (cs : List Cluster)
    → i < length cs
    → (c : Cluster) × (get_elem? cs i ≡ some c) × (has_cluster c.id cs ≡ true)
get_elem?-has i [] small = absurd (omega arith)
get_elem?-has zero (c ∷ cs) small = (c, refl, ground arith)
get_elem?-has (suc i) (c ∷ cs) small =
    let (d, there, has) = get_elem?-has i cs (omega arith) in (d, there, ground arith)

-- The draw among clusters ends with one of them.
pub choose-has :
    (r : ℕ) (c : Cluster) (cs : List Cluster)
    → (id : Uuid) × (choose r (c ∷ cs) ≡ ok id) × (has_cluster id (c ∷ cs) ≡ true)
unfolding choose
choose-has r c cs =
    let (d, there, has) =
      get_elem?-has (r % length (c ∷ cs)) (c ∷ cs) (mod-lt r (zero-lt-suc (length cs))) in
    (d.id, rw (choose, there) refl, has)

pub has-enabled :
    (id : Uuid) (cs : List Cluster)
    → has_cluster id (keep (λ c. c.enabled) cs) ≡ true
    → any (λ c. c.enabled && c.id == id) cs ≡ true
has-enabled id [] h = ground arith
has-enabled id (c ∷ cs) h = ground (arith, has-enabled id cs)

pub enabled-found :
    (id : Uuid) (cs : List Cluster)
    → any (λ c. c.enabled && c.id == id) cs ≡ true
    → (c : Cluster) × (find (λ x. x.id == id) cs ≡ some c)
enabled-found id [] h = absurd (ground arith)
enabled-found id (c ∷ cs) h = elim (Bool-cases (c.id == id)) [
  | inl same ↦ (c, rw same refl)
  | inr other ↦ let (d, found) = enabled-found id cs (ground arith) in (d, rw other found)
]

-- The state after the task was sent: the node's row has the cluster, and the topic the task.
abbrev pub sent_to : Cluster → NodeInstance → Uuid → Task → Grid → Grid
sent_to c n id task s = record s {
  store = record s.store {
    nodes = set_node (record n { cluster_id = some id }) s.store.nodes;
    statements = [];
    can_drop = true;
    next = suc s.store.next;
  };
  tasks = s.tasks ++ (task, c.topic_name) ∷ [];
}

-- The task of a command.
abbrev pub order_of : Task → TaskCommand → Task
order_of task command = record { id = task.id; body = []; command = command }

send_task-sent :
    (accepts : Task → Bool) (task : Task) (id : Uuid) (c : Cluster) (s : Grid)
    → find (λ x. x.id == id) s.clusters ≡ some c
    → accepts task ≡ true
    → send_task accepts task id s
      ≡ (ok tt, record s { tasks = s.tasks ++ (task, c.topic_name) ∷ [] })
unfolding send_task get_cluster
send_task-sent accepts task id c s found takes = rw (send_task, found) (rw takes refl)

module _ (services : Services) where
  pub send_to_random_cluster-sent :
      (s : Grid) (task : Task) (id : Uuid) (c : Cluster) (n : NodeInstance)
      → choose (services.random s.store.next) (enabled_clusters s) ≡ ok id
      → find (λ m. m.id == task.id) s.store.nodes ≡ some n
      → s.store.statements ≡ []
      → find (λ x. x.id == id) s.clusters ≡ some c
      → services.accepts task ≡ true
      → send_to_random_cluster services task s ≡ (ok tt, sent_to c n id task s)
  unfolding send_to_random_cluster get_random_cluster draw get_node push send_task get_cluster
  send_to_random_cluster-sent s task id c n chosen row clean found takes =
      let w : World = record s.store { next = suc s.store.next } in
      let saved = push-save-node (record n { cluster_id = some id }) w clean in
      rw chosen (rw row (rw saved (rw found (rw takes refl))))

  operate_task-sent :
      (s : Grid) (task : Task) (id : Uuid) (c : Cluster) (n : NodeInstance) (command : TaskCommand)
      → find (λ m. m.id == task.id) s.store.nodes ≡ some n
      → find (λ x. x.id == id) s.clusters ≡ some c
      → services.accepts (order_of task command) ≡ true
      → operate_task services task.id command (sent_to c n id task s) ≡ (
        ok tt,
        record (sent_to c n id task s) {
          tasks =
              (s.tasks ++ (task, c.topic_name) ∷ []) ++ (order_of task command, c.topic_name) ∷ [];
        },
      )
  unfolding operate_task get_node
  operate_task-sent s task id c n command row found takes =
      let same = (==_iff n.id task.id).0 (find-test (λ m. m.id == task.id) s.store.nodes n row) in
      let updated =
        find-set_node task.id (record n { cluster_id = some id }) n s.store.nodes same row in
      rw updated (
        send_task-sent services.accepts (order_of task command) id c (sent_to c n id task s) found
          takes)

  -- Where the use case of a node is parsed to a task, a cluster is enabled, the node has a row,
  -- nothing is staged and the queue takes the task and a later command for it: one of the enabled
  -- clusters is drawn and saved in the row, the task is sent to the cluster's topic and nothing else
  -- changes; the later command, of whatever kind, is sent to the same topic.
  pub handle_usecase-sent :
      (s : Grid) (node_spec : NodeSpec) (task : Task) (e : Cluster) (es : List Cluster)
      (n : NodeInstance) (command : TaskCommand)
      → parse_task services s node_spec ≡ ok task
      → enabled_clusters s ≡ e ∷ es
      → find (λ m. m.id == task.id) s.store.nodes ≡ some n
      → s.store.statements ≡ []
      → services.accepts task ≡ true
      → services.accepts (order_of task command) ≡ true
      → (id : Uuid) × (c : Cluster) × (any (λ x. x.enabled && x.id == id) s.clusters ≡ true)
        × (find (λ x. x.id == id) s.clusters ≡ some c)
        × (handle_usecase services node_spec s ≡ (ok tt, sent_to c n id task s))
        × (operate_task services task.id command (sent_to c n id task s) ≡ (
          ok tt,
          record (sent_to c n id task s) {
            tasks =
                (s.tasks ++ (task, c.topic_name) ∷ [])
                ++ (order_of task command, c.topic_name) ∷ [];
          },
        ))
  unfolding handle_usecase
  handle_usecase-sent s node_spec task e es n command parsed some_enabled row clean takes takes' =
      let (id, chosen, has) = choose-has (services.random s.store.next) e es in
      let chosen' = ap (choose (services.random s.store.next)) some_enabled ∙ chosen in
      let enabled = has-enabled id s.clusters (ap (has_cluster id) some_enabled ∙ has) in
      let (c, found) = enabled-found id s.clusters enabled in
      let sent = send_to_random_cluster-sent s task id c n chosen' row clean found takes in
      (
        id,
        c,
        enabled,
        found,
        rw parsed sent,
        operate_task-sent s task id c n command row found takes',
      )
