-- ===== src/Usecases/Service/Command.antt =====
-- The command of a node (src/kernel/src/services/use_cases/software_computing.rs).
use kuintessence.Prelude.{Bool, true, false, ◌≡◌, refl, ap, some, List, ok, find, ◌==◌}
use kuintessence.Workflow.Common.{Uuid, NodeKind, SoftwareUsecaseComputing}
use kuintessence.Workflow.Instance.{NodeSpec, NodeInstance, WorkflowInstance}
use kuintessence.Workflow.Slots.{node}
use kuintessence.Workflow.Store.{get_node, get_flow}
use kuintessence.Usecases.Task.{Execution, TaskBody, Task, SoftwareComputingUsecase}
use kuintessence.Usecases.Clusters.{Grid}
use kuintessence.Usecases.Parse.{Services, parse_task}
use kuintessence.Usecases.Parse.Body.{IsBody, parse_task-body}
use kuintessence.Usecases.Service.{execution_of, command_of, get_cmd}

-- The execution stands in the body whether there is a deployment before it or not.
execution-IsBody :
    (u : SoftwareComputingUsecase) (deploy : Bool) (x : Execution) (outs body : List TaskBody)
    → IsBody u deploy x outs body
    → execution_of body ≡ some x
execution-IsBody u true x outs body h = ap execution_of h.3
execution-IsBody u false x outs body h = ap execution_of h.3

-- Where a node and its workflow are stored and the node's use case is parsed to a task: the command
-- of the node is that of the task's execution, so there always is one, and nothing changes.
pub get_cmd-command :
    (services : Services) (s : Grid) (node_id : Uuid) (n : NodeInstance) (flow : WorkflowInstance)
    (node_spec : NodeSpec) (data_ : SoftwareUsecaseComputing) (u : SoftwareComputingUsecase)
    (task : Task)
    → find (λ m. m.id == node_id) s.store.nodes ≡ some n
    → find (λ m. m.id == n.flow_instance_id) s.store.flows ≡ some flow
    → find (λ el. el.id == node_id) flow.spec.node_specs ≡ some node_spec
    → node_spec.kind ≡ NodeKind.software_usecase_computing data_
    → services.getter data_.software_version_id data_.usecase_version_id ≡ ok u
    → parse_task services s node_spec ≡ ok task
    → (x : Execution) × (execution_of task.body ≡ some x)
      × (x.name ≡ u.usecase_spec.command_file)
      × (get_cmd services node_id s ≡ (ok (some (command_of x)), s))
unfolding get_cmd get_node get_flow node
get_cmd-command services s node_id n flow node_spec data_ u task row flow_row there kind got
      parsed =
    let (same_id, starts, parts) =
      parse_task-body services s node_spec data_ u task kind got parsed in
    let (deploy, decided, made) = parts in
    let (x, outs, is_body) = made in
    let found = execution-IsBody u deploy x outs task.body is_body in
    (x, found, is_body.0, rw row (rw flow_row (rw there (rw parsed (rw found refl)))))
