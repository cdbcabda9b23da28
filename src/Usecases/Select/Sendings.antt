-- ===== src/Usecases/Select/Sendings.antt =====
-- What the sending of the nodes' tasks leaves behind (`send_usecase` of
-- src/co/src/infrastructure/external_services/inner_usecase_select_service.rs, with the services of
-- src/kernel/src/services/use_cases).
use kuintessence.Prelude.{
  ℕ, suc, true, false, ◌≡◌, refl, sym, ap, ◌∙◌, ◌⊎◌, inl, inr, none, some, List, [], ◌∷◌, map,
  Result, ok, err, ◌==◌, ◌&&◌, any, find, if◌then◌else◌, arith, Bool-cases,
}
use kuintessence.Workflow.Common.{Uuid, NodeKind, ScriptInfo}
use kuintessence.Workflow.Instance.{
  NodeSpec, NodeInstance, TaskResult, TaskResultStatus, Error, unreachable_node_kind,
}
use kuintessence.Workflow.Store.{World, Message, task, node_status, TaskCommand, set_node}
use kuintessence.Workflow.Store.Update.{has_id, IsKeyed, set_node-skip}
use kuintessence.Workflow.Batch.{Env}
use kuintessence.Usecases.Task.{TaskBody, Task}
use kuintessence.Usecases.Clusters.{Cluster}
use kuintessence.Usecases.Parse.{read_text, deploys, fill_parts, parse_usecase, parse_task}
use kuintessence.Usecases.Select.{grid}

-- A task goes to a cluster, or the node is reported as done at once.
pub data Sending : Type 0 where
  distributed : Task → Cluster → Sending
  reported : TaskResult → Sending

-- The report of a node that does nothing.
abbrev pub done : Uuid → TaskResult
done id = record { id = id; status = TaskResultStatus.success; message = ""; used_resources = none }

-- The task of a node that runs a script.
abbrev pub script_task : Uuid → ScriptInfo → Task
script_task id script_info = record {
  id = id;
  body = TaskBody.execute_script script_info ∷ [];
  command = TaskCommand.start;
}

abbrev pub message_of : Sending → Message
message_of (distributed t c) = task t c.topic_name
message_of (reported r) = node_status r

-- The row of the task gets the cluster; no other row and nothing else of it changes.
abbrev pub with_cluster : Uuid → Uuid → NodeInstance → NodeInstance
with_cluster id cluster_id n = if n.id == id then record n { cluster_id = some cluster_id } else n

abbrev pub assigned : List Sending → List NodeInstance → List NodeInstance
assigned [] ns = ns
assigned (distributed t c ∷ xs) ns = assigned xs (map (with_cluster t.id c.id) ns)
assigned (reported r ∷ xs) ns = assigned xs ns

-- The number of the next draw: one is made for each cluster.
abbrev pub drawn : List Sending → ℕ → ℕ
drawn [] n = n
drawn (distributed t c ∷ xs) n = drawn xs (suc n)
drawn (reported r ∷ xs) n = drawn xs n

pub with_cluster-id : (id c : Uuid) (n : NodeInstance) → (with_cluster id c n).id ≡ n.id
with_cluster-id id c n = elim (Bool-cases (n.id == id)) [ inl e ↦ rw e refl | inr e ↦ rw e refl ]

module _ (f : NodeInstance → NodeInstance) (same_id : (n : NodeInstance) → (f n).id ≡ n.id) where
  pub has_id-map : (k : Uuid) (ns : List NodeInstance) → has_id k (map f ns) ≡ has_id k ns
  has_id-map k [] = refl
  has_id-map k (n ∷ ns) = rw (same_id n, has_id-map k ns) refl

  pub map-IsKeyed : (ns : List NodeInstance) → IsKeyed ns → IsKeyed (map f ns)
  map-IsKeyed [] h = tt
  map-IsKeyed (n ∷ ns) h = (rw (same_id n, has_id-map n.id ns) h.0, map-IsKeyed ns h.1)

absent-same :
    (id c : Uuid) (ns : List NodeInstance) → has_id id ns ≡ false → map (with_cluster id c) ns ≡ ns
absent-same id c [] h = refl
absent-same id c (n ∷ ns) h =
    let other : (n.id == id) ≡ false = ground arith in
    rw (other, absent-same id c ns (ground arith)) refl

-- Writing the row back with the cluster.
pub set_node-with_cluster :
    (n : NodeInstance) (c : Uuid) (ns : List NodeInstance)
    → IsKeyed ns
    → find (λ m. m.id == n.id) ns ≡ some n
    → set_node (record n { cluster_id = some c }) ns ≡ map (with_cluster n.id c) ns
unfolding set_node
set_node-with_cluster n c [] keyed found = ground arith
set_node-with_cluster n c (m ∷ ms) keyed found = elim (Bool-cases (m.id == n.id)) [
  | inl e ↦
      let first : m ≡ n = ground arith in
      let gone : has_id n.id ms ≡ false = rw⁻¹ first keyed.0 in
      let row : NodeInstance = record n { cluster_id = some c } in
      let rest : set_node row ms ≡ map (with_cluster n.id c) ms =
        set_node-skip row ms gone ∙ sym (absent-same n.id c ms gone) in
      let given : NodeInstance → NodeInstance = λ x. record x { cluster_id = some c } in
      rw (e, rest) (ap (λ x. given x ∷ map (with_cluster n.id c) ms) (sym first))
  | inr e ↦ rw (e, set_node-with_cluster n c ms keyed.1 (ground arith)) refl
]

pub has_id-found :
    (id : Uuid) (ns : List NodeInstance)
    → has_id id ns ≡ true
    → (n : NodeInstance) × (find (λ m. m.id == id) ns ≡ some n)
has_id-found id [] h = absurd (ground arith)
has_id-found id (n ∷ ns) h = elim (Bool-cases (n.id == id)) [
  | inl e ↦ (n, rw e refl)
  | inr e ↦ let (m, found) = has_id-found id ns (ground arith) in (m, rw (e, found) refl)
]

module _ (env : Env) where
  abbrev pub IsEnabled : Cluster → Type 0
  IsEnabled c =
      (any (λ x. x.enabled && x.id == c.id) env.clusters ≡ true)
      × (find (λ x. x.id == c.id) env.clusters ≡ some c)

  -- The task of a node that has one.
  abbrev pub task_of : World → NodeSpec → Result Error Task
  task_of w node_spec = elim node_spec.kind [
    | NodeKind.software_usecase_computing data_ ↦ parse_task env.services (grid env w) node_spec
    | NodeKind.script script_info ↦ ok (script_task node_spec.id script_info)
    | NodeKind.no_action ↦ err unreachable_node_kind
    | NodeKind.milestone data_ ↦ err unreachable_node_kind
  ]

  -- The node has a task, or nothing to do.
  abbrev pub CanSend : World → NodeSpec → Type 0
  CanSend w node_spec =
      ((t : Task) × (task_of w node_spec ≡ ok t)) ⊎ (node_spec.kind ≡ NodeKind.no_action)

  abbrev pub IsSending : World → NodeSpec → Sending → Type 0
  IsSending w node_spec (distributed t c) = (task_of w node_spec ≡ ok t) × IsEnabled c
  IsSending w node_spec (reported r) =
      (node_spec.kind ≡ NodeKind.no_action) × (r ≡ done node_spec.id)

  abbrev pub AreSendings : World → List NodeSpec → List Sending → Type 0
  AreSendings w [] [] = Unit {0}
  AreSendings w (node_spec ∷ rest) (x ∷ xs) = IsSending w node_spec x × AreSendings w rest xs
  AreSendings w _ _ = (true ≡ false)

  -- A world that is the same but for the rows of the nodes, the draws and the messages.
  abbrev pub at : World → List NodeInstance → ℕ → List Message → World
  at w ns n m = record w { nodes = ns; statements = []; can_drop = true; next = n; sent = m }

  -- The parsing reads nothing of what the sending changes.
  pub task_of-at :
      (w : World) (ns : List NodeInstance) (n : ℕ) (m : List Message) (node_spec : NodeSpec)
      → parse_task env.services (grid env (at w ns n m)) node_spec
        ≡ parse_task env.services (grid env w) node_spec
  unfolding parse_task parse_usecase fill_parts read_text deploys
  task_of-at w ns n m node_spec = refl
