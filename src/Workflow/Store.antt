-- ===== src/Workflow/Store.antt =====
-- src/co/src/infrastructure/repositories/sea_orm_db_repository: one repository that all services of
-- a request share. Reads go to the tables; updates are collected as statements, which
-- `save_changed` executes in one transaction. A row is the entity that it is converted from and to.
-- Errors of the connection are not modelled.
pub mod Update
pub mod Tables
pub mod Single
pub mod Running
pub mod Nth
pub mod Inserts
use mathlib.Core.Option
use kuintessence.Prelude.{
  ℕ, zero, suc, ◌+◌, String, Bool, true, false, Option, none, some, List, [], ◌∷◌, ◌++◌, map,
  Result, ok, err, ◌==◌, ◌&&◌, ◌||◌, not, if◌then◌else◌, find, keep, any, all, ok_or, is_some,
}
use kuintessence.Workflow.Common.{Uuid, HashMap}
use kuintessence.Workflow.Instance.{
  WorkflowInstance, NodeInstance, NodeInstanceStatus, NodeInstanceKind, TaskResult, Error,
  no_user_id, no_such_node_instance, no_such_workflow_instance, no_such_sub_node, service_failed,
  no_such_text,
}
pub use kuintessence.Workflow.Instance.{TaskCommand}
use kuintessence.Usecases.Task.{Task}
use kuintessence.Workflow.Exec.{Exec, pure, bail, lift, gets, ◌>>=◌, ◌>>◌}

pub data Statement : Type 0 where
  update_node insert_node : NodeInstance → Statement
  update_flow : WorkflowInstance → Statement

-- `MoveRegistration` of src/kernel/src/models/file/move_registration.rs, as the workflow engine
-- builds it: the hash is always of Blake3, and the destination a storage server without a net disk.
pub record MoveRegistration : Type 0 where
  pub id : Uuid
  pub meta_id : Uuid
  pub file_name : String
  pub hash : String
  pub size : ℕ
  pub is_upload_failed : Bool
  pub failed_reason : Option String
  pub user_id : Option Uuid

-- What goes out, in order: the tasks that are sent to the topics of clusters, the reports of nodes
-- that do nothing, the calls of `operate_task`, the billing messages, and the two calls of the file
-- move service.
pub data Message : Type 0 where
  register_move : MoveRegistration → Message
  do_registered_moves : (meta_id : Uuid) → Message
  task : Task → (topic_name : String) → Message
  node_status : TaskResult → Message
  operate : (task_id : Uuid) (command : TaskCommand) (kind : NodeInstanceKind) → Message
  bill : (node_instance_id : Uuid) → Message

-- `texts` is the text storage (src/co/src/infrastructure/repositories/redis_repository/text.rs),
-- and `next` the number of the next id or random number that is drawn.
pub record World : Type 0 where
  pub nodes : List NodeInstance
  pub flows : List WorkflowInstance
  pub statements : List Statement
  pub can_drop : Bool
  pub sent : List Message
  pub texts : HashMap Uuid String
  pub next : ℕ

abbrev pub Act : Type 0 → Type 0
Act A = Exec Error World A

-- `UPDATE node_instance SET … WHERE id = …`: all columns of the entity are set.
unfoldable pub set_node : NodeInstance → List NodeInstance → List NodeInstance
set_node e [] = []
set_node e (n ∷ ns) = (if n.id == e.id then e else n) ∷ set_node e ns

-- `UPDATE flow_instance SET spec = …, status = … WHERE id = … AND last_modified_time = …`
unfoldable pub set_flow : WorkflowInstance → List WorkflowInstance → List WorkflowInstance
set_flow e [] = []
set_flow e (f ∷ fs) =
    (if (f.id == e.id && f.last_modified_time == e.last_modified_time)
      then record f { spec = e.spec; status = e.status }
      else f)
    ∷ set_flow e fs

-- One statement of the transaction; a second row with the same key is refused.
execute : Statement → World → Option World
unfolding set_node set_flow
execute (update_node e) s = some (record s { nodes = set_node e s.nodes })
execute (insert_node e) s =
    if any (λ n. n.id == e.id) s.nodes then none else some (record s { nodes = s.nodes ++ e ∷ [] })
execute (update_flow e) s = some (record s { flows = set_flow e s.flows })

pub execute_all : List Statement → World → Option World
unfolding execute
execute_all [] s = some s
execute_all (stmt ∷ stmts) s = elim (execute stmt s) [
  | none ↦ none
  | some s' ↦ execute_all stmts s'
]

-- The end of `save_changed`: commit, or roll back and fail.
finish : World → Option World → Result Error Bool × World
finish s none = (err service_failed, record s { statements = []; can_drop = true })
finish s (some s') = (ok true, record s' { statements = []; can_drop = true })

-- `SeaOrmDbRepository::save_changed`
unfoldable pub save_changed : Act Bool
unfolding execute_all finish
save_changed s = if s.can_drop then (ok false, s) else finish s (execute_all s.statements s)

-- `update` and `insert` push a statement.
unfoldable pub push : Statement → Act (Unit {0})
push stmt s = (ok tt, record s { statements = s.statements ++ stmt ∷ []; can_drop = false })

-- `IReadOnlyRepository<NodeInstance>::get_by_id`
unfoldable pub get_node : Uuid → Act NodeInstance
get_node id s = (ok_or (no_such_node_instance id) (find (λ n. n.id == id) s.nodes), s)

-- `IReadOnlyRepository<WorkflowInstance>::get_by_id`
unfoldable pub get_flow : Uuid → Act WorkflowInstance
get_flow id s = (ok_or (no_such_workflow_instance id) (find (λ f. f.id == id) s.flows), s)

-- The insert of a workflow instance is executed at once. The row belongs to the user of the session,
-- without whom it fails, and its times are those of the database.
unfoldable pub insert_flow : Option Uuid → ℕ → WorkflowInstance → Act (Unit {0})
insert_flow none now e s = (err no_user_id, s)
insert_flow (some user_id) now e s =
    if any (λ f. f.id == e.id) s.flows then (err service_failed, s) else (
      ok tt,
      record s { flows = s.flows ++ record e { user_id = user_id; last_modified_time = now } ∷ [] },
    )

-- `get_by_node_id`
unfoldable pub get_by_node_id : Uuid → Act WorkflowInstance
unfolding get_node get_flow
get_by_node_id node_id = get_node node_id >>= λ n. get_flow n.flow_instance_id

abbrev pub has_parent : Uuid → NodeInstance → Bool
has_parent id n = elim n.batch_parent_id [ none ↦ false | some p ↦ p == id ]

-- `get_node_sub_node_instances`
unfoldable pub get_node_sub_node_instances : Uuid → Act (List NodeInstance)
get_node_sub_node_instances batch_parent_id s = (ok (keep (has_parent batch_parent_id) s.nodes), s)

-- `get_all_workflow_instance_nodes`
unfoldable pub get_all_workflow_instance_nodes : Uuid → Act (List NodeInstance)
get_all_workflow_instance_nodes id s = (ok (keep (λ n. n.flow_instance_id == id) s.nodes), s)

abbrev pub is_standby : NodeInstanceStatus → Bool
is_standby NodeInstanceStatus.standby = true
is_standby _ = false

-- `get_all_workflow_instance_stand_by_nodes`
unfoldable pub get_all_workflow_instance_stand_by_nodes : Uuid → Act (List NodeInstance)
get_all_workflow_instance_stand_by_nodes id s =
    (ok (keep (λ n. n.flow_instance_id == id && is_standby n.status) s.nodes), s)

abbrev pub is_finished_or_standby : NodeInstanceStatus → Bool
is_finished_or_standby NodeInstanceStatus.finished = true
is_finished_or_standby NodeInstanceStatus.standby = true
is_finished_or_standby _ = false

abbrev pub is_top : NodeInstance → Bool
is_top n = elim n.batch_parent_id [ none ↦ true | some p ↦ false ]

-- `is_all_same_entryment_nodes_success`: over the nodes of the workflow that are no sub tasks.
unfoldable pub is_all_same_entryment_nodes_success : Uuid → Act Bool
unfolding get_node
is_all_same_entryment_nodes_success node_id = get_node node_id >>= λ res. gets λ s.
    all (λ n. is_finished_or_standby n.status)
      (keep (λ n. n.flow_instance_id == res.flow_instance_id && is_top n) s.nodes)

-- The position of the last node with the id.
nth_of : Uuid → List NodeInstance → ℕ → Option ℕ → Option ℕ
nth_of id [] i nth = nth
nth_of id (n ∷ ns) i nth = nth_of id ns (suc i) (if n.id == id then some i else nth)

-- `get_nth_of_batch_tasks`. The source calls the node's own id `batch_parent_id`.
unfoldable pub get_nth_of_batch_tasks : Uuid → Act ℕ
unfolding nth_of get_node
get_nth_of_batch_tasks sub_node_id = get_node sub_node_id >>= λ n.
    gets (λ s. keep (has_parent n.id) s.nodes) >>= λ sub_nodes.
    lift (ok_or no_such_sub_node (nth_of sub_node_id sub_nodes 0 none))

-- A call of another service: it is made, and the service accepts it or not.
unfoldable pub ask : (Message → Bool) → Message → Act (Unit {0})
ask accepts m s =
    (if accepts m then ok tt else err service_failed, record s { sent = s.sent ++ m ∷ [] })

-- `IReadOnlyRepository<TextStorage>::get_by_id`
unfoldable pub get_text : Uuid → Act String
get_text key s =
    (ok_or (no_such_text key) (Option.map (λ e. e.1) (find (λ e. e.0 == key) s.texts)), s)

-- The insert of a text with a key; `SET` replaces what the key had.
unfoldable pub insert_text : Uuid → String → Act (Unit {0})
insert_text key value s =
    (ok tt, record s { texts = (key, value) ∷ keep (λ e. not (e.0 == key)) s.texts })

-- The number of the next draw.
unfoldable pub draw : Act ℕ
draw s = (ok s.next, record s { next = suc s.next })
