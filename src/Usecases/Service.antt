-- ===== src/Usecases/Service.antt =====
-- The use case services: `SoftwareComputingUsecaseService` of
-- src/kernel/src/services/use_cases/software_computing.rs and the one of script.rs beside it.
pub mod Sent
pub mod Command
use Prim.Native.String
use kuintessence.Prelude.{
  String, Bool, Option, none, some, List, [], ◌∷◌, Result, ok, ok_or, str_eq, if◌then◌else◌,
}
use kuintessence.Workflow.Common.{Uuid, NodeKind}
use kuintessence.Workflow.Instance.{
  NodeSpec, NodeInstance, Error, unreachable_node_kind, without_cluster_id,
}
use kuintessence.Workflow.Exec.{pure, bail, lift, ◌>>=◌}
use kuintessence.Workflow.Slots.{node}
use kuintessence.Workflow.Store.{TaskCommand, update_node, push, save_changed, get_node, get_flow}
use kuintessence.Usecases.Task.{Execution, TaskBody, Task}
use kuintessence.Usecases.Formats.{join}
use kuintessence.Usecases.Clusters.{Grid, GridAct, on_store, get_random_cluster, send_task}
use kuintessence.Usecases.Parse.{Services, parse_task}

-- `find_map` on the execution of the body.
abbrev pub execution_of : List TaskBody → Option Execution
execution_of [] = none
execution_of (TaskBody.usecase_execution x ∷ els) = some x
execution_of (_ ∷ els) = execution_of els

-- `if arg_str.is_empty() { name } else { format!("{name} {arg_str}") }`
abbrev pub command_of : Execution → String
command_of x =
    let arg_str = join x.arguments in
    if str_eq arg_str "" then x.name else String.◌++◌ x.name (String.◌++◌ " " arg_str)

abbrev pub command_text : Option Execution → Option String
command_text none = none
command_text (some x) = some (command_of x)

module _ (services : Services) where
  -- What both services do with a task: a cluster is drawn, saved with the node, and sent the task.
  unfoldable pub send_to_random_cluster : Task → GridAct (Unit {0})
  unfolding get_random_cluster get_node push save_changed send_task
  send_to_random_cluster task = get_random_cluster services.random >>= λ cluster_id.
      on_store (get_node task.id) >>= λ node_instance.
      on_store (push (update_node (record node_instance { cluster_id = some cluster_id }))) >>= λ _.
      on_store save_changed >>= λ _. send_task services.accepts task cluster_id

  unfoldable pub handle_usecase : NodeSpec → GridAct (Unit {0})
  unfolding parse_task send_to_random_cluster
  handle_usecase node_spec s = (lift (parse_task services s node_spec) >>= send_to_random_cluster) s

  unfoldable pub operate_task : Uuid → TaskCommand → GridAct (Unit {0})
  unfolding get_node send_task
  operate_task task_id command = on_store (get_node task_id) >>= λ node_instance.
      lift (ok_or without_cluster_id node_instance.cluster_id) >>= λ cluster_id.
      send_task services.accepts (record { id = task_id; body = []; command = command }) cluster_id

  unfoldable pub get_cmd : Uuid → GridAct (Option String)
  unfolding get_node get_flow node parse_task
  get_cmd node_id s =
      (on_store (get_node node_id) >>= λ node_instance.
      on_store (get_flow node_instance.flow_instance_id) >>= λ flow.
      lift (node flow.spec node_id) >>= λ node_spec.
      lift (parse_task services s node_spec) >>= λ task.
      pure (command_text (execution_of task.body)))
        s

  -- `ScriptUsecaseService::handle_usecase`
  unfoldable pub handle_script : NodeSpec → GridAct (Unit {0})
  unfolding send_to_random_cluster
  handle_script node_spec = elim node_spec.kind [
    | NodeKind.script script_info ↦ send_to_random_cluster (record {
      id = node_spec.id;
      body = TaskBody.execute_script script_info ∷ [];
      command = TaskCommand.start;
    })
    | NodeKind.software_usecase_computing data_ ↦ bail unreachable_node_kind
    | NodeKind.no_action ↦ bail unreachable_node_kind
    | NodeKind.milestone data_ ↦ bail unreachable_node_kind
  ]
